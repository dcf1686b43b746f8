-- ===== src/Mir/Verifier.antt =====
-- compiler/kyna_mir/src/validators/mir_verifier.cpp: `verifyMir`. A function returns the diagnostics that
-- the source appends, in that order.
pub mod Bodies
use kyna.Base.{
  ℕ, zero, suc, ◌+◌, Bool, true, false, not, ◌||◌, List, [], ◌∷◌, ◌++◌, Option, none, some, String,
  length, get_elem?, ltb, leb, ◌==◌, if◌then◌else◌,
}
use kyna.Diagnostics.{SourceSpan, Diagnostic}
use kyna.Bytecode.Program.{BytecodeConstant}
use kyna.Mir.Program.{
  HirConstant, MirInstructionKind, MirCaptureKind, MirCaptureSource, MirInstruction, MirFunction,
  MirProgram,
}

-- `addError`: the diagnostic that it appends.
abbrev pub error : String → SourceSpan → String → Diagnostic
error message span code = record {
  message = message;
  location = span;
  warning = false;
  code = code;
  category = "mir";
  help = "this indicates an internal compiler defect; please report a reproducible case";
}

-- `if (failed) addError(…);`
unfoldable pub add_error_if : Bool → String → SourceSpan → String → List Diagnostic
add_error_if failed message span code = if failed then error message span code ∷ [] else []

-- `std::holds_alternative<std::string>`.
unfoldable pub holds_string : HirConstant → Bool
holds_string (BytecodeConstant.string _) = true
holds_string _ = false

-- `instruction.function == 0 || instruction.function >= program.functions.size() + 1`.
unfoldable pub bad_function : MirProgram → ℕ → Bool
bad_function p function = function == 0 || leb (length p.functions + 1) function

-- `program.functions.at(function - 1)`, for a function that is not the module itself.
unfoldable pub function_at : MirProgram → ℕ → Option MirFunction
function_at p zero = none
function_at p (suc function) = get_elem? p.functions function

unfoldable pub parameter_count : MirProgram → ℕ → ℕ
parameter_count p function = elim (function_at p function) [ some f ↦ f.parameter_count | none ↦ 0 ]

-- `program.functions[function - 1].captures.size()`.
unfoldable pub capture_count : MirProgram → ℕ → ℕ
capture_count p function = elim (function_at p function) [ some f ↦ length f.captures | none ↦ 0 ]

-- The checks of an instruction, in a body with so many temporaries and captures.
module _ (p : MirProgram) (temporaries captures : ℕ) (i : MirInstruction) where
  -- `if (!validTemporary(temporary)) addError(message, instruction.span, code);`
  unfoldable pub check_temporary : ℕ → String → String → List Diagnostic
  check_temporary temporary message code =
      add_error_if (not (ltb temporary temporaries)) message i.span code

  unfoldable pub check_temporaries : List ℕ → String → String → List Diagnostic
  check_temporaries [] message code = []
  check_temporaries (t ∷ list) message code =
      check_temporary t message code ++ check_temporaries list message code

  unfoldable pub verify_unary : List Diagnostic
  verify_unary =
      check_temporary i.first "MIR unary or move instruction reads an invalid temporary" "KMIR1103"

  unfoldable pub verify_binary : List Diagnostic
  verify_binary =
      check_temporary i.first "MIR instruction reads an invalid temporary" "KMIR1103"
      ++ check_temporary i.second "MIR instruction reads an invalid second temporary" "KMIR1104"

  unfoldable pub check_string : String → String → List Diagnostic
  check_string message code = add_error_if (not (holds_string i.constant)) message i.span code

  unfoldable pub check_function : String → String → List Diagnostic
  check_function message code = add_error_if (bad_function p i.function) message i.span code

  unfoldable pub verify_load_member : List Diagnostic
  verify_load_member =
      check_temporary i.first "MIR member load reads an invalid object temporary" "KMIR1129"
      ++ check_string "MIR member load has a non-string member name" "KMIR1130"

  unfoldable pub verify_bind_method : List Diagnostic
  verify_bind_method =
      check_temporary i.first "MIR method binding reads an invalid receiver temporary" "KMIR1139"
      ++ check_function "MIR method binding targets an invalid function" "KMIR1140"

  unfoldable pub verify_call_native : List Diagnostic
  verify_call_native =
      check_string "MIR native call has a non-string function name" "KMIR1131"
      ++ check_temporaries i.arguments "MIR native call reads an invalid argument temporary"
          "KMIR1132"

  unfoldable pub verify_collection : List Diagnostic
  verify_collection =
      check_temporaries i.arguments "MIR collection literal reads an invalid temporary" "KMIR1133"

  unfoldable pub verify_make_object : List Diagnostic
  verify_make_object =
      verify_collection
      ++ add_error_if (not (length i.names == length i.arguments))
          "MIR object field names and values have different lengths" i.span "KMIR1134"

  unfoldable pub verify_make_instance : List Diagnostic
  verify_make_instance =
      verify_collection
      ++ add_error_if (leb (length p.classes) i.function)
          "MIR instance construction targets an invalid class" i.span "KMIR1138"

  -- `StoreIndex`, and up to the member's name `StoreMember`, with the number of operands.
  unfoldable pub verify_mutation : ℕ → List Diagnostic
  verify_mutation expected =
      add_error_if (not (length i.arguments == expected)) "MIR mutation operand count is invalid"
        i.span "KMIR1135"
      ++ check_temporaries i.arguments "MIR mutation reads an invalid temporary" "KMIR1136"

  unfoldable pub verify_call : List Diagnostic
  verify_call =
      (if bad_function p i.function
        then error "MIR call targets an invalid function" i.span "KMIR1111" ∷ []
        else add_error_if (not (length i.arguments == parameter_count p i.function))
            "MIR call argument count does not match its function" i.span "KMIR1112")
      ++ check_temporaries i.arguments "MIR call reads an invalid argument temporary" "KMIR1113"

  unfoldable pub verify_load_capture : List Diagnostic
  verify_load_capture =
      add_error_if (leb captures i.capture) "MIR capture load index is out of range" i.span
        "KMIR1117"

  unfoldable pub verify_store_capture : List Diagnostic
  verify_store_capture =
      add_error_if (leb captures i.capture) "MIR capture store index is out of range" i.span
        "KMIR1118"
      ++ check_temporary i.first "MIR capture store reads an invalid temporary" "KMIR1119"

  unfoldable pub verify_source : MirCaptureSource → List Diagnostic
  verify_source source = elim source.kind [
    | MirCaptureKind.local ↦
        add_error_if (leb temporaries source.index)
          "MIR closure captures an invalid local temporary" i.span "KMIR1122"
    | MirCaptureKind.capture ↦
        add_error_if (leb captures source.index) "MIR closure captures an invalid parent capture"
          i.span "KMIR1123"
  ]

  unfoldable pub verify_sources : List MirCaptureSource → List Diagnostic
  verify_sources [] = []
  verify_sources (source ∷ sources) = verify_source source ++ verify_sources sources

  unfoldable pub verify_closure : List Diagnostic
  verify_closure =
      (if bad_function p i.function
        then error "MIR closure targets an invalid function" i.span "KMIR1120" ∷ []
        else add_error_if (not (length i.capture_sources == capture_count p i.function))
            "MIR closure capture count does not match its function" i.span "KMIR1121")
      ++ verify_sources i.capture_sources

  unfoldable pub verify_call_indirect : List Diagnostic
  verify_call_indirect =
      check_temporary i.first "MIR indirect call reads an invalid callee temporary" "KMIR1115"
      ++ check_temporaries i.arguments "MIR indirect call reads an invalid argument temporary"
          "KMIR1116"

  -- What the tests of the instruction's kind lead to.
  unfoldable pub verify_kind : MirInstructionKind → List Diagnostic
  verify_kind MirInstructionKind.constant = []
  verify_kind MirInstructionKind.function_reference =
      check_function "MIR function reference targets an invalid function" "KMIR1114"
  verify_kind MirInstructionKind.closure = verify_closure
  verify_kind MirInstructionKind.load_capture = verify_load_capture
  verify_kind MirInstructionKind.store_capture = verify_store_capture
  verify_kind MirInstructionKind.move = verify_unary
  verify_kind MirInstructionKind.negate = verify_unary
  verify_kind MirInstructionKind.not = verify_unary
  verify_kind MirInstructionKind.call = verify_call
  verify_kind MirInstructionKind.call_indirect = verify_call_indirect
  verify_kind MirInstructionKind.call_native = verify_call_native
  verify_kind MirInstructionKind.load_member = verify_load_member
  verify_kind MirInstructionKind.bind_method = verify_bind_method
  verify_kind MirInstructionKind.make_array = verify_collection
  verify_kind MirInstructionKind.make_object = verify_make_object
  verify_kind MirInstructionKind.make_instance = verify_make_instance
  verify_kind MirInstructionKind.store_index = verify_mutation 3
  verify_kind MirInstructionKind.store_member =
      verify_mutation 2 ++ check_string "MIR member store has a non-string member name" "KMIR1137"
  verify_kind _ = verify_binary

  unfoldable pub verify_instruction : List Diagnostic
  verify_instruction =
      check_temporary i.destination "MIR instruction writes an invalid temporary" "KMIR1102"
      ++ verify_kind i.kind
