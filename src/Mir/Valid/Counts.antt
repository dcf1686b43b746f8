-- ===== src/Mir/Valid/Counts.antt =====
-- compiler/kyna_mir/src/validators/mir_verifier.cpp: the counts that the verifier reads are those of the
-- declarations.
use kyna.Base.{
  ℕ, zero, suc, ◌-◌, ◌≡◌, ◌≢◌, ◌↔◌, refl, subst, some, length, get_elem?, get_elem?-lt, arith,
}
use kyna.Bytecode.Valid.{Entry}
use kyna.Mir.Program.{MirFunction, MirProgram}
use kyna.Mir.Verifier.{function_at, parameter_count, capture_count}
use kyna.Mir.Valid.{Target}

module _ (p : MirProgram) where
  function_at-suc :
      (function : ℕ) (f : MirFunction)
      → function ≢ 0
      → get_elem? p.functions (function - 1) ≡ some f
      → function_at p function ≡ some f
  unfolding function_at
  function_at-suc zero f other at = absurd (other refl)
  function_at-suc (suc k) f other at =
      subst (λ i. get_elem? p.functions i ≡ some f) (omega arith) at

  pub parameter_count-some :
      (function : ℕ) (f : MirFunction)
      → function ≢ 0
      → get_elem? p.functions (function - 1) ≡ some f
      → parameter_count p function ≡ f.parameter_count
  unfolding parameter_count
  parameter_count-some function f other at =
      rw (function_at-suc function f other at, parameter_count) refl

  pub capture_count-some :
      (function : ℕ) (f : MirFunction)
      → function ≢ 0
      → get_elem? p.functions (function - 1) ≡ some f
      → capture_count p function ≡ length f.captures
  unfolding capture_count
  capture_count-some function f other at =
      rw (function_at-suc function f other at, capture_count) refl

  -- A number is the count that is read exactly if it is that of the function.
  pub parameters_iff :
      (function n : ℕ)
      → Target p function
      → (n ≡ parameter_count p function)
        ↔ Entry p.functions (function - 1) (λ f. n ≡ f.parameter_count)
  parameters_iff function n target =
      let (f, at) = get_elem?-lt p.functions (function - 1) (omega (arith, target.0, target.1)) in
      (
        λ e. (f, at, omega (arith, e, parameter_count-some function f target.0 at)),
        λ x. omega (arith, x.2, parameter_count-some function (x.0) target.0 (x.1)),
      )

  pub captures_iff :
      (function n : ℕ)
      → Target p function
      → (n ≡ capture_count p function)
        ↔ Entry p.functions (function - 1) (λ f. n ≡ length f.captures)
  captures_iff function n target =
      let (f, at) = get_elem?-lt p.functions (function - 1) (omega (arith, target.0, target.1)) in
      (
        λ e. (f, at, omega (arith, e, capture_count-some function f target.0 at)),
        λ x. omega (arith, x.2, capture_count-some function (x.0) target.0 (x.1)),
      )
