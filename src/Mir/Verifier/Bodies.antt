-- ===== src/Mir/Verifier/Bodies.antt =====
-- compiler/kyna_mir/src/validators/mir_verifier.cpp: `verifyBody` and `verifyMir`.
use kyna.Base.{
  ℕ, ◌+◌, not, ◌||◌, List, [], ◌∷◌, ◌++◌, Option, none, some, String, concat, to_string, length,
  ltb, leb, ◌==◌,
}
use kyna.Diagnostics.{SourceSpan, Diagnostic, unknown_span}
use kyna.Mir.Program.{
  MirInstruction, MirTerminatorNode, MirTerminator, MirExceptionRegion, MirBasicBlock, MirFunction,
  MirClassMethod, MirClass, MirProgram,
}
use kyna.Mir.Verifier.{error, add_error_if, verify_instruction}

module _ (p : MirProgram) (name : String) (temporaries captures : ℕ) where
  unfoldable pub verify_instructions : List MirInstruction → List Diagnostic
  verify_instructions [] = []
  verify_instructions (i ∷ instructions) =
      verify_instruction p temporaries captures i ++ verify_instructions instructions

  -- The visit of a terminator, in a body with so many blocks.
  unfoldable pub verify_node : ℕ → SourceSpan → MirTerminatorNode → List Diagnostic
  verify_node blocks span (MirTerminatorNode.return value) =
      add_error_if (not (ltb value temporaries)) "MIR return reads an invalid temporary" span
        "KMIR1106"
  verify_node blocks span (MirTerminatorNode.goto target) =
      add_error_if (leb blocks target) "MIR goto targets an invalid block" span "KMIR1107"
  verify_node blocks span (MirTerminatorNode.branch condition true_block false_block) =
      add_error_if (not (ltb condition temporaries)) "MIR branch reads an invalid condition" span
        "KMIR1108"
      ++ add_error_if (leb blocks true_block || leb blocks false_block)
          "MIR branch targets an invalid block" span "KMIR1109"
  verify_node blocks span (MirTerminatorNode.throw value) =
      add_error_if (not (ltb value temporaries)) "MIR throw reads an invalid temporary" span
        "KMIR1124"

  unfoldable pub verify_terminator : ℕ → ℕ → Option MirTerminator → List Diagnostic
  verify_terminator blocks index none =
      error
        (concat
          ("MIR basic block bb" ∷ to_string index ∷ " in '" ∷ name ∷ "' has no terminator" ∷ []))
        unknown_span "KMIR1105"
      ∷ []
  verify_terminator blocks index (some t) = verify_node blocks t.span t.node

  -- The loop over the blocks from an index on.
  unfoldable pub verify_blocks : ℕ → ℕ → List MirBasicBlock → List Diagnostic
  verify_blocks blocks index [] = []
  verify_blocks blocks index (block ∷ rest) =
      verify_instructions block.instructions
      ++ (verify_terminator blocks index block.terminator ++ verify_blocks blocks (index + 1) rest)

  unfoldable pub verify_protected : ℕ → List ℕ → List Diagnostic
  verify_protected blocks [] = []
  verify_protected blocks (block ∷ rest) =
      add_error_if (leb blocks block) "MIR exception region references an invalid protected block"
        unknown_span "KMIR1126"
      ++ verify_protected blocks rest

  unfoldable pub verify_region : ℕ → MirExceptionRegion → List Diagnostic
  verify_region blocks region =
      add_error_if (length region.protected_blocks == 0) "MIR exception region protects no blocks"
        unknown_span "KMIR1125"
      ++ (verify_protected blocks region.protected_blocks
          ++ (add_error_if (leb blocks region.handler)
                "MIR exception handler targets an invalid block" unknown_span "KMIR1127"
              ++ add_error_if (not (ltb region.error_destination temporaries))
                  "MIR exception handler writes an invalid temporary" unknown_span "KMIR1128"))

  unfoldable pub verify_regions : ℕ → List MirExceptionRegion → List Diagnostic
  verify_regions blocks [] = []
  verify_regions blocks (region ∷ regions) =
      verify_region blocks region ++ verify_regions blocks regions

  -- `verifyBody`.
  unfoldable pub verify_body :
      ℕ → ℕ → List MirBasicBlock → List MirExceptionRegion → List Diagnostic
  verify_body parameters entry_block blocks regions =
      add_error_if (length blocks == 0 || leb (length blocks) entry_block)
        (concat ("MIR entry block is missing or invalid in '" ∷ name ∷ "'" ∷ [])) unknown_span
        "KMIR1101"
      ++ (add_error_if (ltb temporaries parameters)
            (concat ("MIR function '" ∷ name ∷ "' has more parameters than temporaries" ∷ []))
            unknown_span "KMIR1110"
          ++ (verify_blocks (length blocks) 0 blocks ++ verify_regions (length blocks) regions))

unfoldable pub verify_function : MirProgram → MirFunction → List Diagnostic
verify_function p f =
    verify_body p f.name f.temporary_count (length f.captures) f.parameter_count f.entry_block
      f.blocks f.exception_regions

unfoldable pub verify_functions : MirProgram → List MirFunction → List Diagnostic
verify_functions p [] = []
verify_functions p (f ∷ functions) = verify_function p f ++ verify_functions p functions

unfoldable pub verify_methods : MirProgram → MirClass → List MirClassMethod → List Diagnostic
verify_methods p klass [] = []
verify_methods p klass (method ∷ methods) =
    add_error_if (leb (length p.functions) method.function)
      (concat ("MIR class '" ∷ klass.name ∷ "' has an invalid method" ∷ [])) unknown_span "KMIR1203"
    ++ verify_methods p klass methods

unfoldable pub verify_class : MirProgram → MirClass → List Diagnostic
verify_class p klass =
    elim klass.parent [
      | none ↦ []
      | some parent ↦
          add_error_if (leb (length p.classes) parent)
            (concat ("MIR class '" ∷ klass.name ∷ "' has an invalid parent" ∷ [])) unknown_span
            "KMIR1201"
    ]
    ++ (elim klass.constructor [
      | none ↦ []
      | some constructor ↦
          add_error_if (leb (length p.functions) constructor)
            (concat ("MIR class '" ∷ klass.name ∷ "' has an invalid constructor" ∷ [])) unknown_span
            "KMIR1202"
    ]
        ++ verify_methods p klass klass.methods)

unfoldable pub verify_classes : MirProgram → List MirClass → List Diagnostic
verify_classes p [] = []
verify_classes p (klass ∷ classes) = verify_class p klass ++ verify_classes p classes

-- `verifyMir`.
unfoldable pub verify_mir : MirProgram → List Diagnostic
verify_mir p =
    verify_body p "<module>" p.temporary_count 0 0 p.entry_block p.blocks p.exception_regions
    ++ (verify_functions p p.functions ++ verify_classes p p.classes)
