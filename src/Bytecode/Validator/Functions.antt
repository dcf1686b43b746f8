-- ===== src/Bytecode/Validator/Functions.antt =====
-- compiler/kyna_bytecode/src/validators/bytecode_validator.cpp: the checks of the module's head, of its
-- functions, and all of `validateBytecode`.
use kyna.Base.{
  ℕ, ◌+◌, ◌-◌, Bool, true, false, not, ◌||◌, List, [], ◌∷◌, ◌++◌, concat, to_string, length, ltb,
  leb, ◌==◌, if◌then◌else◌,
}
use kyna.Bytecode.Program.{
  OpCode, BytecodeInstruction, ExceptionHandler, BytecodeFunction, BytecodeModule, current_version,
}
use kyna.Diagnostics.{Diagnostic, unknown_span}
use kyna.Bytecode.Report.{report, report_if, valid_register}
use kyna.Bytecode.Validator.Operation.{parameter_count_at, validate_operation}
use kyna.Bytecode.Validator.Classes.{validate_classes, validate_cycles}

-- The loop over the instructions from an offset on.
unfoldable pub validate_instructions :
    BytecodeModule → BytecodeFunction → ℕ → List BytecodeInstruction → List Diagnostic
validate_instructions m f offset [] = []
validate_instructions m f offset (i ∷ instructions) =
    validate_operation m f offset i i.opcode ++ validate_instructions m f (offset + 1) instructions

-- A handler protects a nonempty range inside the function, and its target and register are there.
unfoldable pub validate_handler : BytecodeFunction → ExceptionHandler → List Diagnostic
validate_handler f h =
    report_if
      (h.instruction_count == 0
        || leb (length f.instructions) h.first_instruction
        || ltb (length f.instructions - h.first_instruction) h.instruction_count)
      "KBC1121" "exception handler protects an invalid instruction range" unknown_span
    ++ (report_if (leb (length f.instructions) h.handler_instruction) "KBC1122"
          "exception handler target is out of range" unknown_span
        ++ report_if (not (valid_register h.error_register f)) "KBC1123"
            "exception handler error register is out of range" unknown_span)

unfoldable pub validate_handlers : BytecodeFunction → List ExceptionHandler → List Diagnostic
validate_handlers f [] = []
validate_handlers f (h ∷ handlers) = validate_handler f h ++ validate_handlers f handlers

-- The opcodes behind which a function cannot fall through.
unfoldable pub ends_function : OpCode → Bool
ends_function OpCode.return = true
ends_function OpCode.jump = true
ends_function OpCode.throw = true
ends_function _ = false

-- `function.instructions.back()`, for a function that has an instruction.
unfoldable pub last_instruction :
    BytecodeInstruction → List BytecodeInstruction → BytecodeInstruction
last_instruction i [] = i
last_instruction i (j ∷ instructions) = last_instruction j instructions

unfoldable pub validate_ending : BytecodeFunction → BytecodeInstruction → List Diagnostic
validate_ending f final =
    report_if (not (ends_function final.opcode)) "KBC1106"
      (concat ("function '" ∷ f.name ∷ "' can fall past its final instruction" ∷ [])) final.span

-- The checks of a function with instructions.
unfoldable pub validate_body :
    BytecodeModule
    → BytecodeFunction
    → BytecodeInstruction
    → List BytecodeInstruction
    → List Diagnostic
validate_body m f i instructions =
    report_if (ltb f.register_count f.parameter_count) "KBC1107"
      (concat ("function '" ∷ f.name ∷ "' has more parameters than registers" ∷ [])) unknown_span
    ++ (validate_instructions m f 0 (i ∷ instructions)
        ++ (validate_handlers f f.exception_handlers
            ++ validate_ending f (last_instruction i instructions)))

unfoldable pub validate_function : BytecodeModule → BytecodeFunction → List Diagnostic
validate_function m f =
    report_if (f.register_count == 0) "KBC1101"
      (concat ("function '" ∷ f.name ∷ "' has no registers" ∷ [])) unknown_span
    ++ elim f.instructions [
      | [] ↦
          report "KBC1102" (concat ("function '" ∷ f.name ∷ "' has no instructions" ∷ []))
            unknown_span
      | i ∷ instructions ↦ validate_body m f i instructions
    ]

unfoldable pub validate_functions : BytecodeModule → List BytecodeFunction → List Diagnostic
validate_functions m [] = []
validate_functions m (f ∷ functions) = validate_function m f ++ validate_functions m functions

unfoldable pub validate_version : BytecodeModule → List Diagnostic
validate_version m =
    report_if (not (m.format_version == current_version)) "KBC1001"
      (concat ("unsupported bytecode format version " ∷ to_string m.format_version ∷ []))
      unknown_span

unfoldable pub validate_entry : BytecodeModule → List Diagnostic
validate_entry m =
    if leb (length m.functions) m.entry_function
    then report "KBC1003" "bytecode entry function is out of range" unknown_span
    else report_if (not (parameter_count_at m.functions m.entry_function == 0)) "KBC1004"
        "bytecode entry function cannot require parameters" unknown_span

-- `validateBytecode`.
unfoldable pub validate_bytecode : BytecodeModule → List Diagnostic
validate_bytecode m =
    validate_version m
    ++ (if length m.functions == 0
        then report "KBC1002" "bytecode module has no functions" unknown_span
        else validate_entry m
          ++ (validate_functions m m.functions
              ++ (validate_classes m m.classes ++ validate_cycles m (length m.classes) 0)))
