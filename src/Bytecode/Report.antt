-- ===== src/Bytecode/Report.antt =====
-- compiler/kyna_bytecode/src/validators/bytecode_validator.cpp: the helpers of the validator.
use kyna.Base.{ℕ, Bool, false, List, [], ◌∷◌, ◌++◌, String, concat, to_string, ltb, if◌then◌else◌}
use kyna.Diagnostics.{SourceSpan, Diagnostic}
use kyna.Bytecode.Program.{BytecodeFunction, BytecodeInstruction}

-- `report`: the diagnostic that it appends.
abbrev pub report : String → String → SourceSpan → List Diagnostic
report code message span =
    record {
      message = message;
      location = span;
      warning = false;
      code = code;
      category = "bytecode";
      help = "";
    }
    ∷ []

-- `if (failed) report(…);`
unfoldable pub report_if : Bool → String → String → SourceSpan → List Diagnostic
report_if failed code message span = if failed then report code message span else []

unfoldable pub valid_register : ℕ → BytecodeFunction → Bool
valid_register index function = ltb index function.register_count

-- `registerError`, at the instruction with the offset.
unfoldable pub register_error :
    BytecodeFunction → ℕ → BytecodeInstruction → ℕ → String → List Diagnostic
register_error function offset instruction index role =
    if valid_register index function
    then []
    else report "KBC1103"
        (concat (
          "instruction "
          ∷ to_string offset
          ∷ " in '"
          ∷ function.name
          ∷ "' uses an invalid "
          ∷ role
          ∷ " register"
          ∷ []))
        instruction.span

-- `for (const auto index : indices) registerError(index, role);`
unfoldable pub register_errors :
    BytecodeFunction → ℕ → BytecodeInstruction → List ℕ → String → List Diagnostic
register_errors function offset instruction [] role = []
register_errors function offset instruction (index ∷ indices) role =
    register_error function offset instruction index role
    ++ register_errors function offset instruction indices role
