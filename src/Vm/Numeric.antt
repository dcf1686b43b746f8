-- ===== src/Vm/Numeric.antt =====
-- runtime/kyna_vm/src/validators/bytecode_numeric_operations.cpp: checked arithmetic on
-- `std::int64_t`, which stands as the integer that it holds.
pub mod Checked
use kyna.Base.{
  ℕ, suc, ◌+◌, ◌-◌, ◌*◌, ◌/◌, ◌^◌, Bool, true, false, not, ◌&&◌, ◌||◌, Option, none, some, ◌==◌,
  if◌then◌else◌,
}
use kyna.Base.Int.{ℤ, pos, negsuc, sub_ℕ, ltb_ℤ, eqb_ℤ, ◌+ℤ◌, ◌-ℤ◌, ◌*ℤ◌}
use kyna.Bytecode.Program.{OpCode}

-- `std::numeric_limits<std::int64_t>::max()` and `min()`.
abbrev pub maximum : ℤ
maximum = pos (2 ^ 63 - 1)

abbrev pub minimum : ℤ
minimum = negsuc (2 ^ 63 - 1)

-- The integers that an `std::int64_t` holds.
abbrev pub fits : ℤ → Bool
fits x = not (ltb_ℤ x minimum) && not (ltb_ℤ maximum x)

-- Division of C++, which rounds towards zero.
unfoldable pub quotient : ℤ → ℤ → ℤ
quotient (pos a) (pos b) = pos (a / b)
quotient (pos a) (negsuc b) = sub_ℕ 0 (a / suc b)
quotient (negsuc a) (pos b) = sub_ℕ 0 (suc a / b)
quotient (negsuc a) (negsuc b) = pos (suc a / suc b)

abbrev positive : ℤ → Bool
positive x = ltb_ℤ (pos 0) x

abbrev negative : ℤ → Bool
negative x = ltb_ℤ x (pos 0)

unfoldable pub checked_add : ℤ → ℤ → Option ℤ
checked_add left right =
    if positive right && ltb_ℤ (maximum -ℤ right) left
      || negative right && ltb_ℤ left (minimum -ℤ right)
    then none
    else some (left +ℤ right)

unfoldable pub checked_subtract : ℤ → ℤ → Option ℤ
checked_subtract left right =
    if negative right && ltb_ℤ (maximum +ℤ right) left
      || positive right && ltb_ℤ left (minimum +ℤ right)
    then none
    else some (left -ℤ right)

-- The tests of the case of `Multiply` on factors that are not zero.
unfoldable pub product_overflows : ℤ → ℤ → Bool
product_overflows left right =
    if positive left
    then positive right && ltb_ℤ (quotient maximum right) left
      || negative right && ltb_ℤ right (quotient minimum left)
    else positive right && ltb_ℤ left (quotient minimum right)
      || negative right && ltb_ℤ left (quotient maximum right)

unfoldable pub checked_multiply : ℤ → ℤ → Option ℤ
checked_multiply left right =
    if eqb_ℤ left (pos 0) || eqb_ℤ right (pos 0)
    then some (pos 0)
    else if eqb_ℤ left (negsuc 0) && eqb_ℤ right minimum
        || eqb_ℤ right (negsuc 0) && eqb_ℤ left minimum
    then none
    else if product_overflows left right
    then none
    else some (left *ℤ right)

-- `checkedBytecodeIntegerArithmetic`: the result, or `none` where it returns false.
unfoldable pub checked_integer_arithmetic : OpCode → ℤ → ℤ → Option ℤ
checked_integer_arithmetic OpCode.add left right = checked_add left right
checked_integer_arithmetic OpCode.subtract left right = checked_subtract left right
checked_integer_arithmetic OpCode.multiply left right = checked_multiply left right
checked_integer_arithmetic _ left right = none
