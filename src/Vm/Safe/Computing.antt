-- ===== src/Vm/Safe/Computing.antt =====
-- runtime/kyna_vm/src/execution/bytecode_virtual_machine.cpp: arithmetic on any two values gives a value
-- that refers to nothing, or an error; it never divides an integer by zero.
use kyna.Base.{
  zero, suc, ◌≡◌, Bool, true, false, ◌&&◌, ◌||◌, Option, none, some, String, Yields, yields,
  bind-Yields, Yields-if, if◌then◌else◌,
}
use kyna.Base.Int.{ℤ, pos, negsuc, eqb_ℤ}
use kyna.Bytecode.Program.{OpCode, BytecodeModule}
use kyna.Vm.Value.{RuntimeValue, Heap, Platform}
use kyna.Vm.Numeric.{minimum}
use kyna.Vm.Arithmetic.{
  Computed, Number, number, remainder, negate, checked_result, sum, divide, whole_remainder,
  remaining, on_numbers, numeric, binary, is_zero, is_string,
}
use kyna.Vm.Safe.Fits.{ValueFits}

pub data ComputedFits (m : BytecodeModule) (h : Heap) : Computed → Type 0 where
  valued : {v : RuntimeValue} → ValueFits m h v → ComputedFits m h (Computed.value v)
  raised : {code message : String} → ComputedFits m h (Computed.raises code message)

remainder-Yields : (x y : ℤ) → eqb_ℤ y (pos 0) ≡ false → Yields (λ _. Unit {0}) (remainder x y)
unfolding remainder
remainder-Yields x (pos zero) e = absurd (cc)
remainder-Yields (pos a) (pos (suc b)) e = yields tt
remainder-Yields (pos a) (negsuc b) e = yields tt
remainder-Yields (negsuc a) (pos (suc b)) e = yields tt
remainder-Yields (negsuc a) (negsuc b) e = yields tt

module _ (m : BytecodeModule) (p : Platform) (h : Heap) where
  if-Fits :
      (b : Bool) (c d : Computed)
      → ComputedFits m h c
      → ComputedFits m h d
      → ComputedFits m h (if b then c else d)
  if-Fits true c d x y = x
  if-Fits false c d x y = y

  pub negate-Fits : (v : RuntimeValue) → ComputedFits m h (negate p v)
  unfolding negate
  negate-Fits (RuntimeValue.integer x) = if-Fits (eqb_ℤ x minimum) _ _ raised (valued tt)
  negate-Fits (RuntimeValue.floating x) = valued tt
  negate-Fits _ = raised

  checked_result-Fits :
      (opcode : OpCode) (x : Option ℤ) → ComputedFits m h (checked_result p opcode x)
  unfolding checked_result
  checked_result-Fits opcode none = raised
  checked_result-Fits opcode (some x) = valued tt

  sum-Fits : (opcode : OpCode) (x y : Number) → ComputedFits m h (sum p opcode x y)
  unfolding sum
  sum-Fits opcode (Number.whole x) (Number.whole y) = checked_result-Fits opcode _
  sum-Fits opcode (Number.whole x) (Number.double y) = valued tt
  sum-Fits opcode (Number.double x) y = valued tt

  divide-Fits : (x y : Number) → ComputedFits m h (divide p x y)
  unfolding divide
  divide-Fits x y = if-Fits (is_zero p y) _ _ raised (valued tt)

  whole_remainder-Yields :
      (x y : ℤ) → eqb_ℤ y (pos 0) ≡ false → Yields (ComputedFits m h) (whole_remainder p x y)
  unfolding whole_remainder
  whole_remainder-Yields x y e =
      Yields-if (eqb_ℤ x minimum && eqb_ℤ y (negsuc 0)) (λ _. yields (valued tt))
        λ _. bind-Yields (remainder-Yields x y e) λ z _. yields (valued tt)

  remaining-Yields : (x y : Number) → Yields (ComputedFits m h) (remaining p x y)
  unfolding remaining
  remaining-Yields (Number.whole x) (Number.whole y) =
      Yields-if (eqb_ℤ y (pos 0)) (λ _. yields raised) (whole_remainder-Yields x y)
  remaining-Yields (Number.whole x) (Number.double y) = yields raised
  remaining-Yields (Number.double x) y = yields raised

  on_numbers-Yields :
      (opcode : OpCode) (x y : Number) → Yields (ComputedFits m h) (on_numbers p opcode x y)
  unfolding on_numbers
  on_numbers-Yields OpCode.add x y = yields (sum-Fits OpCode.add x y)
  on_numbers-Yields OpCode.subtract x y = yields (sum-Fits OpCode.subtract x y)
  on_numbers-Yields OpCode.multiply x y = yields (sum-Fits OpCode.multiply x y)
  on_numbers-Yields OpCode.divide x y = yields (divide-Fits x y)
  on_numbers-Yields OpCode.remainder x y = remaining-Yields x y
  on_numbers-Yields _ x y = yields (valued tt)

  numeric-Yields :
      (opcode : OpCode) (x y : Option Number) → Yields (ComputedFits m h) (numeric p opcode x y)
  unfolding numeric
  numeric-Yields opcode (some x) (some y) = on_numbers-Yields opcode x y
  numeric-Yields opcode (some x) none = yields raised
  numeric-Yields opcode none y = yields raised

  pub binary-Yields :
      (opcode : OpCode) (v w : RuntimeValue) → Yields (ComputedFits m h) (binary p h opcode v w)
  unfolding binary
  binary-Yields OpCode.add v w =
      Yields-if (is_string p v || is_string p w) (λ _. yields (valued tt))
        λ _. numeric-Yields OpCode.add (number v) (number w)
  binary-Yields opcode v w = numeric-Yields opcode (number v) (number w)
