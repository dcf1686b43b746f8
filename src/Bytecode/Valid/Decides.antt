-- ===== src/Bytecode/Valid/Decides.antt =====
-- compiler/kyna_bytecode/src/validators/bytecode_validator.cpp: the validator's reports as checks.
use kyna.Base.{
  ℕ, ◌<◌, ◌≡◌, ◌↔◌, Bool, false, List, [], ◌∷◌, Option, none, some, String, arith, if◌then◌else◌,
  All,
}
use kyna.Diagnostics.{SourceSpan, Diagnostic}
use kyna.Diagnostics.Decides
use kyna.Diagnostics.Decides.{Decides, Decides-nothing, Decides-append}
use kyna.Bytecode.Program.{BytecodeFunction, BytecodeInstruction}
use kyna.Bytecode.Report.{report, report_if, valid_register, register_error, register_errors}

module _ (code message : String) (span : SourceSpan) where
  pub Decides-reported {ℓ} : {P : Type ℓ} → (P → ⊥) → Decides (report code message span) P
  Decides-reported no_p = Decides.Decides-reported _ no_p

  pub Decides-report_if :
      {P : Type 0} (b : Bool) → (b ≡ false) ↔ P → Decides (report_if b code message span) P
  unfolding report_if
  Decides-report_if b p = Decides.Decides-report_if _ b p

  pub Decides-guard {ℓ} :
      {P : Type 0} {Q : Type ℓ} {rest : List Diagnostic} (b : Bool)
      → (b ≡ false) ↔ P
      → Decides rest Q
      → Decides (if b then report code message span else rest) (P × Q)
  Decides-guard b p q = Decides.Decides-guard _ b p q

  pub Decides-given {ℓ} :
      {P : Type 0} {Q : Type ℓ} {rest : List Diagnostic} (b : Bool)
      → (b ≡ false) ↔ P
      → (P → Decides rest Q)
      → Decides (if b then report code message span else rest) (P × Q)
  Decides-given b p q = Decides.Decides-given _ b p q

  pub Decides-entry {ℓ κ} :
      {A : Type ℓ} (o : Option A) (rest : A → List Diagnostic) {Q : A → Type κ}
      → ((x : A) → Decides (rest x) (Q x))
      → Decides
          (elim o [ none ↦ report code message span | some x ↦ rest x ])
          ((x : A) × (o ≡ some x) × Q x)
  Decides-entry o rest q = Decides.Decides-entry _ o rest q

module _ (f : BytecodeFunction) (offset : ℕ) (i : BytecodeInstruction) where
  pub register_error-Decides :
      (index : ℕ) (role : String)
      → Decides (register_error f offset i index role) (index < f.register_count)
  unfolding register_error valid_register
  register_error-Decides index role = record {
    sound = λ h. ground arith;
    complete = λ h. ground arith;
  }

  pub register_errors-Decides :
      (indices : List ℕ) (role : String)
      → Decides (register_errors f offset i indices role) (All (λ k. k < f.register_count) indices)
  unfolding register_errors
  register_errors-Decides [] role = Decides-nothing
  register_errors-Decides (k ∷ indices) role =
      Decides-append (register_error-Decides k role) (register_errors-Decides indices role)
