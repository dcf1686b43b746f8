-- ===== src/Bytecode/Valid/Counts.antt =====
-- compiler/kyna_bytecode/src/validators/bytecode_validator.cpp: the counts that the validator reads and the
-- operations that may end a function are those of the declarations.
use kyna.Base.{
  length, ℕ, ◌<◌, ◌≡◌, ◌↔◌, refl, sym, subst, true, List, some, get_elem?, get_elem?-lt,
}
use kyna.Bytecode.Program.{OpCode, BytecodeFunction}
use kyna.Bytecode.Validator.Operation.{parameter_count_at, capture_count_at}
use kyna.Bytecode.Validator.Functions.{ends_function}
use kyna.Bytecode.Valid.{Entry, Leaves}

module _ (functions : List BytecodeFunction) (k : ℕ) where
  pub parameter_count_at-some :
      (g : BytecodeFunction)
      → get_elem? functions k ≡ some g
      → parameter_count_at functions k ≡ g.parameter_count
  unfolding parameter_count_at
  parameter_count_at-some g at = rw (at, parameter_count_at) refl

  pub capture_count_at-some :
      (g : BytecodeFunction)
      → get_elem? functions k ≡ some g
      → capture_count_at functions k ≡ g.capture_count
  unfolding capture_count_at
  capture_count_at-some g at = rw (at, capture_count_at) refl

  -- What holds of the count that is read holds of that of the function, and the other way round.
  pub parameters_iff :
      (Q : ℕ → Type 0)
      → k < length functions
      → Q (parameter_count_at functions k) ↔ Entry functions k (λ g. Q g.parameter_count)
  parameters_iff Q l =
      let (g, at) = get_elem?-lt functions k l in
      (
        λ q. (g, at, subst Q (parameter_count_at-some g at) q),
        λ x. subst Q (sym (parameter_count_at-some (x.0) (x.1))) (x.2),
      )

  pub captures_iff :
      (Q : ℕ → Type 0)
      → k < length functions
      → Q (capture_count_at functions k) ↔ Entry functions k (λ g. Q g.capture_count)
  captures_iff Q l =
      let (g, at) = get_elem?-lt functions k l in
      (
        λ q. (g, at, subst Q (capture_count_at-some g at) q),
        λ x. subst Q (sym (capture_count_at-some (x.0) (x.1))) (x.2),
      )

pub Leaves-ends : (op : OpCode) → Leaves op → ends_function op ≡ true
unfolding ends_function
Leaves-ends OpCode.return x = refl
Leaves-ends OpCode.jump x = refl
Leaves-ends OpCode.throw x = refl
Leaves-ends _ x = absurd x

pub ends-Leaves : (op : OpCode) → ends_function op ≡ true → Leaves op
unfolding ends_function
ends-Leaves OpCode.return e = tt
ends-Leaves OpCode.jump e = tt
ends-Leaves OpCode.throw e = tt
ends-Leaves _ e = absurd (cc)
