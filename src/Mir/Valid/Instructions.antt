-- ===== src/Mir/Valid/Instructions.antt =====
-- compiler/kyna_mir/src/validators/mir_verifier.cpp: the checks of an instruction report nothing exactly
-- when its operands are valid.
use kyna.Base.{
  ℕ, ◌<◌, ◌≡◌, ◌↔◌, refl, Bool, false, not, List, [], ◌∷◌, String, arith, length, leb, ◌==◌,
  if◌then◌else◌, All,
}
use kyna.Mir.Valid.Counts.{parameters_iff, captures_iff}
use kyna.Diagnostics.Decides.{
  iff_trans, Decides-given, Decides, Decides-nothing, Decides-append, Decides-report_if, leb_iff,
  eq_iff, lt_iff,
}
use kyna.Bytecode.Program.{BytecodeConstant}
use kyna.Mir.Program.{
  HirConstant, MirInstructionKind, MirCaptureKind, MirCaptureSource, MirInstruction, MirProgram,
}
use kyna.Mir.Verifier.{
  error, add_error_if, holds_string, bad_function, check_temporary, check_temporaries, verify_unary,
  verify_binary, check_string, check_function, verify_load_member, verify_bind_method,
  verify_call_native, verify_collection, verify_make_object, verify_make_instance, verify_mutation,
  verify_call, verify_load_capture, verify_store_capture, verify_source, verify_sources,
  verify_closure, verify_call_indirect, verify_kind, verify_instruction,
}
use kyna.Mir.Valid.{Target, HasName, SourceFits, ValidKind, ValidInstruction}

is_string_iff :
    (c : HirConstant)
    → (not (holds_string c) ≡ false) ↔ ((s : String) × (c ≡ BytecodeConstant.string s))
unfolding holds_string
is_string_iff (BytecodeConstant.string s) = (λ _. (s, refl), λ _. refl)
is_string_iff BytecodeConstant.null = (λ e. absurd (cc), λ x. absurd (cc (x.1)))
is_string_iff (BytecodeConstant.boolean _) = (λ e. absurd (cc), λ x. absurd (cc (x.1)))
is_string_iff (BytecodeConstant.integer _) = (λ e. absurd (cc), λ x. absurd (cc (x.1)))
is_string_iff (BytecodeConstant.floating _) = (λ e. absurd (cc), λ x. absurd (cc (x.1)))
is_string_iff (BytecodeConstant.character _) = (λ e. absurd (cc), λ x. absurd (cc (x.1)))

Target_iff : (p : MirProgram) (f : ℕ) → (bad_function p f ≡ false) ↔ Target p f
unfolding bad_function
Target_iff p f = (λ h. ground arith, λ h. ground arith)

module _ (p : MirProgram) (temporaries captures : ℕ) (i : MirInstruction) where
  check :
      {P : Type 0} {b : Bool} (message code : String)
      → (b ≡ false) ↔ P
      → Decides (add_error_if b message i.span code) P
  unfolding add_error_if
  check message code e = Decides-report_if _ _ e

  temporary :
      (t : ℕ) (message code : String)
      → Decides (check_temporary p temporaries captures i t message code) (t < temporaries)
  unfolding check_temporary
  temporary t message code = check message code (lt_iff t temporaries)

  list :
      (ts : List ℕ) (message code : String)
      → Decides
          (check_temporaries p temporaries captures i ts message code)
          (All (λ t. t < temporaries) ts)
  unfolding check_temporaries
  list [] message code = Decides-nothing
  list (t ∷ ts) message code = Decides-append (temporary t message code) (list ts message code)

  named :
      (message code : String)
      → Decides
          (check_string p temporaries captures i message code)
          (HasName p temporaries captures i)
  unfolding check_string
  named message code = check message code (is_string_iff i.constant)

  target :
      (message code : String)
      → Decides (check_function p temporaries captures i message code) (Target p i.function)
  unfolding check_function
  target message code = check message code (Target_iff p i.function)

  source :
      (s : MirCaptureSource)
      → Decides (verify_source p temporaries captures i s) (SourceFits p temporaries captures s)
  unfolding verify_source
  source s = go s.kind
    where
      go :
          (kind : MirCaptureKind)
          → Decides
              (elim kind [
                | MirCaptureKind.local ↦
                    add_error_if
                      (leb temporaries s.index)
                      "MIR closure captures an invalid local temporary"
                      i.span
                      "KMIR1122"
                | MirCaptureKind.capture ↦
                    add_error_if
                      (leb captures s.index)
                      "MIR closure captures an invalid parent capture"
                      i.span
                      "KMIR1123"
              ])
              (elim kind [
                | MirCaptureKind.local ↦ s.index < temporaries
                | MirCaptureKind.capture ↦ s.index < captures
              ])
      go MirCaptureKind.local = check _ _ (leb_iff _ _)
      go MirCaptureKind.capture = check _ _ (leb_iff _ _)

  sources :
      (ss : List MirCaptureSource)
      → Decides
          (verify_sources p temporaries captures i ss)
          (All (SourceFits p temporaries captures) ss)
  unfolding verify_sources
  sources [] = Decides-nothing
  sources (s ∷ ss) = Decides-append (source s) (sources ss)

  -- A function, and behind it a number that it tells.
  target_with :
      (n k : ℕ) {Q : Type 0} (message code message' code' : String)
      → (Target p i.function → (n ≡ k) ↔ Q)
      → Decides
          (if bad_function p i.function
            then error message i.span code ∷ []
            else add_error_if (not (n == k)) message' i.span code')
          (Target p i.function × Q)
  target_with n k message code message' code' e =
      Decides-given _ _ (Target_iff p i.function)
        λ t. check message' code' (iff_trans (eq_iff n k) (e t))

  mutation :
      (expected : ℕ)
      → Decides
          (verify_mutation p temporaries captures i expected)
          ((length i.arguments ≡ expected) × All (λ t. t < temporaries) i.arguments)
  unfolding verify_mutation
  mutation expected = Decides-append (check _ _ (eq_iff _ _)) (list i.arguments _ _)

  kind :
      (k : MirInstructionKind)
      → Decides (verify_kind p temporaries captures i k) (ValidKind p temporaries captures i k)
  unfolding verify_kind verify_unary verify_binary verify_load_member verify_bind_method
      verify_call_native verify_collection verify_make_object verify_make_instance verify_call
      verify_load_capture verify_store_capture verify_closure verify_call_indirect
  kind MirInstructionKind.constant = Decides-nothing
  kind MirInstructionKind.function_reference = target _ _
  kind MirInstructionKind.closure =
      Decides-append (target_with _ _ _ _ _ _ (captures_iff p i.function _))
        (sources i.capture_sources)
  kind MirInstructionKind.load_capture = check _ _ (leb_iff _ _)
  kind MirInstructionKind.store_capture =
      Decides-append (check _ _ (leb_iff _ _)) (temporary i.first _ _)
  kind MirInstructionKind.move = temporary i.first _ _
  kind MirInstructionKind.negate = temporary i.first _ _
  kind MirInstructionKind.not = temporary i.first _ _
  kind MirInstructionKind.call =
      Decides-append (target_with _ _ _ _ _ _ (parameters_iff p i.function _))
        (list i.arguments _ _)
  kind MirInstructionKind.call_indirect =
      Decides-append (temporary i.first _ _) (list i.arguments _ _)
  kind MirInstructionKind.call_native = Decides-append (named _ _) (list i.arguments _ _)
  kind MirInstructionKind.load_member = Decides-append (temporary i.first _ _) (named _ _)
  kind MirInstructionKind.bind_method = Decides-append (temporary i.first _ _) (target _ _)
  kind MirInstructionKind.make_array = list i.arguments _ _
  kind MirInstructionKind.make_object =
      Decides-append (list i.arguments _ _) (check _ _ (eq_iff _ _))
  kind MirInstructionKind.make_instance =
      Decides-append (list i.arguments _ _) (check _ _ (leb_iff _ _))
  kind MirInstructionKind.store_index = mutation 3
  kind MirInstructionKind.store_member = Decides-append (mutation 2) (named _ _)
  kind _ = Decides-append (temporary i.first _ _) (temporary i.second _ _)

  pub instruction :
      Decides
        (verify_instruction p temporaries captures i)
        (ValidInstruction p temporaries captures i)
  unfolding verify_instruction
  instruction = Decides-append (temporary i.destination _ _) (kind i.kind)
