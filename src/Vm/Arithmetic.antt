-- ===== src/Vm/Arithmetic.antt =====
-- runtime/kyna_vm/src/execution/bytecode_virtual_machine.cpp: the cases of `Negate` and of `Add` to
-- `GreaterEqual`, on the values of the operands.
use kyna.Base.{
  ℕ, zero, suc, ◌%◌, Bool, true, false, not, ◌&&◌, ◌||◌, [], ◌∷◌, Option, none, some, String,
  if◌then◌else◌, concat, ◌>>=◌,
}
use kyna.Base.Int.{ℤ, pos, negsuc, sub_ℕ, ltb_ℤ, eqb_ℤ, ◌-ℤ◌}
use kyna.Bytecode.Program.{OpCode}
use kyna.Vm.Numeric.{minimum, checked_integer_arithmetic}
use kyna.Vm.Value.{RuntimeValue, Heap, Platform}
use kyna.Vm.Value.Display.{display}

-- The value of an operation, or the code and the message of the error that it raises.
pub data Computed : Type 0 where
  value : RuntimeValue → Computed
  raises : String → String → Computed

-- What `bytecodeNumber` reads: an integer or a `double`.
pub data Number : Type 0 where
  whole : ℤ → Number
  double : ℕ → Number

unfoldable pub number : RuntimeValue → Option Number
number (RuntimeValue.integer x) = some (Number.whole x)
number (RuntimeValue.floating x) = some (Number.double x)
number _ = none

-- `left % right` of C++, whose sign is that of `left`; nothing for a divisor of zero.
unfoldable pub remainder : ℤ → ℤ → Option ℤ
remainder left (pos zero) = none
remainder (pos a) (pos (suc b)) = some (pos (a % suc b))
remainder (pos a) (negsuc b) = some (pos (a % suc b))
remainder (negsuc a) (pos (suc b)) = some (sub_ℕ 0 (suc a % suc b))
remainder (negsuc a) (negsuc b) = some (sub_ℕ 0 (suc a % suc b))

module _ (p : Platform) where
  -- `static_cast<double>`.
  unfoldable pub to_double : Number → ℕ
  to_double (Number.whole x) = p.of_integer x
  to_double (Number.double x) = x

  -- `right == 0.0`; the `double` of an integer is zero exactly when the integer is.
  unfoldable pub is_zero : Number → Bool
  is_zero (Number.whole x) = eqb_ℤ x (pos 0)
  is_zero (Number.double x) = p.is_zero x

  unfoldable pub negate : RuntimeValue → Computed
  negate (RuntimeValue.integer x) =
      if eqb_ℤ x minimum
      then Computed.raises "KRT2204" "integer overflow while negating value"
      else Computed.value (RuntimeValue.integer (pos 0 -ℤ x))
  negate (RuntimeValue.floating x) = Computed.value (RuntimeValue.floating (p.negate x))
  negate _ = Computed.raises "KRT2200" "negate requires a numeric operand"

  unfoldable pub floating_arithmetic : OpCode → ℕ → ℕ → ℕ
  floating_arithmetic OpCode.add left right = p.add left right
  floating_arithmetic OpCode.subtract left right = p.subtract left right
  floating_arithmetic _ left right = p.multiply left right

  unfoldable pub checked_result : OpCode → Option ℤ → Computed
  checked_result opcode (some x) = Computed.value (RuntimeValue.integer x)
  checked_result opcode none =
      Computed.raises "KRT2204"
        (concat ("integer overflow while evaluating '" ∷ p.opcode_name opcode ∷ "'" ∷ []))

  -- The cases of `Add`, `Subtract` and `Multiply`.
  unfoldable pub sum : OpCode → Number → Number → Computed
  sum opcode (Number.whole x) (Number.whole y) =
      checked_result opcode (checked_integer_arithmetic opcode x y)
  sum opcode left right =
      Computed.value
        (RuntimeValue.floating (floating_arithmetic opcode (to_double left) (to_double right)))

  unfoldable pub divide : Number → Number → Computed
  divide left right =
      if is_zero right
      then Computed.raises "KRT2201" "division by zero"
      else Computed.value (RuntimeValue.floating (p.divide (to_double left) (to_double right)))

  -- The remainder of two integers, the divisor not zero.
  unfoldable pub whole_remainder : ℤ → ℤ → Option Computed
  whole_remainder x y =
      if eqb_ℤ x minimum && eqb_ℤ y (negsuc 0)
      then some (Computed.value (RuntimeValue.integer (pos 0)))
      else do z ← remainder x y; some (Computed.value (RuntimeValue.integer z))

  unfoldable pub remaining : Number → Number → Option Computed
  remaining (Number.whole x) (Number.whole y) =
      if eqb_ℤ y (pos 0)
      then some (Computed.raises "KRT2201" "remainder by zero")
      else whole_remainder x y
  remaining left right = some (Computed.raises "KRT2202" "remainder requires integer operands")

  unfoldable pub less_whole : OpCode → ℤ → ℤ → Bool
  less_whole OpCode.less x y = ltb_ℤ x y
  less_whole OpCode.less_equal x y = not (ltb_ℤ y x)
  less_whole OpCode.greater x y = ltb_ℤ y x
  less_whole _ x y = not (ltb_ℤ x y)

  unfoldable pub less_double : OpCode → ℕ → ℕ → Bool
  less_double OpCode.less x y = p.less x y
  less_double OpCode.less_equal x y = p.less_equal x y
  less_double OpCode.greater x y = p.less y x
  less_double _ x y = p.less_equal y x

  -- The cases of `Less` to `GreaterEqual`.
  unfoldable pub compared : OpCode → Number → Number → Bool
  compared opcode (Number.whole x) (Number.whole y) = less_whole opcode x y
  compared opcode left right = less_double opcode (to_double left) (to_double right)

  unfoldable pub on_numbers : OpCode → Number → Number → Option Computed
  on_numbers OpCode.add left right = some (sum OpCode.add left right)
  on_numbers OpCode.subtract left right = some (sum OpCode.subtract left right)
  on_numbers OpCode.multiply left right = some (sum OpCode.multiply left right)
  on_numbers OpCode.divide left right = some (divide left right)
  on_numbers OpCode.remainder left right = remaining left right
  on_numbers opcode left right =
      some (Computed.value (RuntimeValue.boolean (compared opcode left right)))

  unfoldable pub numeric : OpCode → Option Number → Option Number → Option Computed
  numeric opcode (some left) (some right) = on_numbers opcode left right
  numeric opcode left right = some (
      Computed.raises "KRT2200" (concat (p.opcode_name opcode ∷ " requires numeric operands" ∷ [])))

  unfoldable pub is_string : RuntimeValue → Bool
  is_string (RuntimeValue.string s) = true
  is_string _ = false

  -- `Add` joins texts where an operand is one.
  unfoldable pub binary : Heap → OpCode → RuntimeValue → RuntimeValue → Option Computed
  binary h OpCode.add left right =
      if is_string left || is_string right
      then some (
          Computed.value (RuntimeValue.string (concat (display p h left ∷ display p h right ∷ []))))
      else numeric OpCode.add (number left) (number right)
  binary h opcode left right = numeric opcode (number left) (number right)
