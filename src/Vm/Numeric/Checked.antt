-- ===== src/Vm/Numeric/Checked.antt =====
-- runtime/kyna_vm/src/validators/bytecode_numeric_operations.cpp: checked arithmetic gives the exact
-- result where an `std::int64_t` can hold it, and fails everywhere else.
use kyna.Base.{
  ℕ, zero, suc, ◌-◌, ◌*◌, ◌/◌, ◌^◌, ◌<◌, ◌≡◌, ◌↔◌, true, Option, none, some, arith, if◌then◌else◌,
}
use kyna.Base.Int.{ℤ, pos, negsuc, ◌+ℤ◌, ◌-ℤ◌, ◌*ℤ◌}
use native.Mathlib.Nat.{div-lt_iff_lt-mul}
use kyna.Bytecode.Program.{OpCode}
use kyna.Vm.Numeric.{
  fits, quotient, checked_add, checked_subtract, product_overflows, checked_multiply,
  checked_integer_arithmetic,
}

-- The exact result, where it fits.
abbrev pub if_fits : ℤ → Option ℤ
if_fits x = if fits x then some x else none

checked_add_lem :
    (left right : ℤ)
    → fits left ≡ true
    → fits right ≡ true
    → checked_add left right ≡ if_fits (left +ℤ right)
unfolding checked_add ◌+ℤ◌ ◌-ℤ◌
checked_add_lem left right h k = ground arith

checked_subtract_lem :
    (left right : ℤ)
    → fits left ≡ true
    → fits right ≡ true
    → checked_subtract left right ≡ if_fits (left -ℤ right)
unfolding checked_subtract ◌+ℤ◌ ◌-ℤ◌
checked_subtract_lem left right h k = ground arith

-- A factor exceeds the quotient exactly when the product exceeds the bound.
div-lt : (n b a : ℕ) → (n / suc b < a) ↔ (n < a * suc b)
div-lt n b a = div-lt_iff_lt-mul (omega arith)

zero-*ℤ : (b : ℤ) → pos 0 *ℤ b ≡ pos 0
unfolding ◌*ℤ◌
zero-*ℤ b = ground arith

*ℤ-zero : (a : ℤ) → a *ℤ pos 0 ≡ pos 0
unfolding ◌*ℤ◌
*ℤ-zero a = ground arith

pos-*ℤ-pos : (a b : ℕ) → pos (suc a) *ℤ pos (suc b) ≡ pos (suc a * suc b)
unfolding ◌*ℤ◌
pos-*ℤ-pos a b = ground arith

pos-*ℤ-negsuc : (a b : ℕ) → pos (suc a) *ℤ negsuc b ≡ negsuc (suc b * suc a - 1)
unfolding ◌*ℤ◌
pos-*ℤ-negsuc a b = ground arith

negsuc-*ℤ-pos : (a b : ℕ) → negsuc a *ℤ pos (suc b) ≡ negsuc (suc a * suc b - 1)
unfolding ◌*ℤ◌
negsuc-*ℤ-pos a b = ground arith

negsuc-*ℤ-negsuc : (a b : ℕ) → negsuc a *ℤ negsuc b ≡ pos (suc a * suc b)
unfolding ◌*ℤ◌
negsuc-*ℤ-negsuc a b = ground arith

-- The product at the signs of the factors, and the test that stands there.
checked_multiply_lem :
    (left right : ℤ)
    → fits left ≡ true
    → fits right ≡ true
    → checked_multiply left right ≡ if_fits (left *ℤ right)
unfolding checked_multiply product_overflows quotient
checked_multiply_lem (pos zero) right h k = rw zero-*ℤ
checked_multiply_lem (pos (suc a)) (pos zero) h k = rw *ℤ-zero (ground arith)
checked_multiply_lem (pos (suc a)) (pos (suc b)) h k =
    rw pos-*ℤ-pos (ground (arith, div-lt (2 ^ 63 - 1) b (suc a)))
checked_multiply_lem (pos (suc a)) (negsuc b) h k =
    rw pos-*ℤ-negsuc (ground (arith, div-lt (2 ^ 63) a (suc b)))
checked_multiply_lem (negsuc a) (pos zero) h k = rw *ℤ-zero (ground arith)
checked_multiply_lem (negsuc a) (pos (suc b)) h k =
    rw negsuc-*ℤ-pos (ground (arith, div-lt (2 ^ 63) b (suc a)))
checked_multiply_lem (negsuc a) (negsuc b) h k =
    rw negsuc-*ℤ-negsuc (ground (arith, div-lt (2 ^ 63 - 1) b (suc a)))

-- Addition, subtraction and multiplication of 64-bit integers give the exact result where it is a
-- 64-bit integer, and fail where it is not.
pub checked_integer_arithmetic_lem :
    (left right : ℤ)
    → fits left ≡ true
    → fits right ≡ true
    → (checked_integer_arithmetic OpCode.add left right ≡ if_fits (left +ℤ right))
      × (checked_integer_arithmetic OpCode.subtract left right ≡ if_fits (left -ℤ right))
      × (checked_integer_arithmetic OpCode.multiply left right ≡ if_fits (left *ℤ right))
unfolding checked_integer_arithmetic
checked_integer_arithmetic_lem left right h k = (
  checked_add_lem left right h k,
  checked_subtract_lem left right h k,
  checked_multiply_lem left right h k,
)
