-- ===== src/Bytecode/Validator/Operation.antt =====
-- compiler/kyna_bytecode/src/validators/bytecode_validator.cpp: the `switch` over the opcode of an
-- instruction.
use kyna.Base.{
  ℕ, Bool, true, false, not, ◌||◌, List, [], ◌∷◌, ◌++◌, none, some, String, concat, length,
  get_elem?, leb, ◌==◌, if◌then◌else◌,
}
use kyna.Bytecode.Program.{
  OpCode, BytecodeConstant, BytecodeInstruction, BytecodeFunction, CaptureKind,
  BytecodeCaptureSource, BytecodeModule,
}
use kyna.Diagnostics.{Diagnostic}
use kyna.Bytecode.Report.{report, report_if, register_error, register_errors}

-- `index >= list.size() || !std::holds_alternative<std::string>(list[index])`, negated.
unfoldable pub names_string : List BytecodeConstant → ℕ → Bool
names_string constants index = elim (get_elem? constants index) [
  | some (BytecodeConstant.string _) ↦ true
  | _ ↦ false
]

-- The parameter count of the function with an index, 0 for none.
unfoldable pub parameter_count_at : List BytecodeFunction → ℕ → ℕ
parameter_count_at functions index = elim (get_elem? functions index) [
  | some function ↦ function.parameter_count
  | none ↦ 0
]

unfoldable pub capture_count_at : List BytecodeFunction → ℕ → ℕ
capture_count_at functions index = elim (get_elem? functions index) [
  | some function ↦ function.capture_count
  | none ↦ 0
]

unfoldable pub name_at : List BytecodeFunction → ℕ → String
name_at functions index = elim (get_elem? functions index) [
  | some function ↦ function.name
  | none ↦ ""
]

module _ (m : BytecodeModule) (f : BytecodeFunction) (offset : ℕ) (i : BytecodeInstruction) where
  abbrev reg : ℕ → String → List Diagnostic
  reg index role = register_error f offset i index role

  abbrev regs : List ℕ → String → List Diagnostic
  regs indices role = register_errors f offset i indices role

  unfoldable pub validate_load_function : List Diagnostic
  validate_load_function =
      reg i.destination "destination"
      ++ (if leb (length m.functions) i.first
          then report "KBC1112" "function-reference index is out of range" i.span
          else report_if (i.first == m.entry_function) "KBC1113"
              "module entry function cannot be used as a value" i.span)

  -- The loop over the capture sources of a closure.
  unfoldable pub validate_captures : List BytecodeCaptureSource → List Diagnostic
  validate_captures [] = []
  validate_captures (source ∷ sources) =
      elim source.kind [
        | CaptureKind.local ↦ reg source.index "captured local"
        | CaptureKind.capture ↦
            report_if (leb f.capture_count source.index) "KBC1118"
              "parent capture index is out of range" i.span
      ]
      ++ validate_captures sources

  unfoldable pub validate_make_closure : List Diagnostic
  validate_make_closure =
      reg i.destination "closure destination"
      ++ (if leb (length m.functions) i.first
          then report "KBC1114" "closure function index is out of range" i.span
          else report_if (i.first == m.entry_function) "KBC1115"
              "module entry function cannot be closed over" i.span
            ++ elim (get_elem? m.closure_captures i.second) [
              | none ↦ report "KBC1116" "closure capture-list index is out of range" i.span
              | some sources ↦
                  report_if (not (length sources == capture_count_at m.functions i.first)) "KBC1117"
                    (concat (
                      "closure capture count does not match function '"
                      ∷ name_at m.functions i.first
                      ∷ "'"
                      ∷ []))
                    i.span
                  ++ validate_captures sources
            ])

  unfoldable pub validate_load_capture : List Diagnostic
  validate_load_capture =
      reg i.destination "capture destination"
      ++ report_if (leb f.capture_count i.first) "KBC1119" "capture load index is out of range"
          i.span

  unfoldable pub validate_store_capture : List Diagnostic
  validate_store_capture =
      reg i.destination "capture result"
      ++ (reg i.second "capture source"
          ++ report_if (leb f.capture_count i.first) "KBC1120" "capture store index is out of range"
              i.span)

  -- The cases of `Add` to `GreaterEqual`.
  unfoldable pub validate_binary : List Diagnostic
  validate_binary =
      reg i.destination "destination"
      ++ (reg i.first "left operand" ++ reg i.second "right operand")

  unfoldable pub validate_call : List Diagnostic
  validate_call =
      reg i.destination "call destination"
      ++ (if leb (length m.functions) i.first
          then report "KBC1108" "call function index is out of range" i.span
          else if i.first == m.entry_function
          then report "KBC1111" "module entry function cannot be called" i.span
          else elim (get_elem? m.call_arguments i.second) [
            | none ↦ report "KBC1109" "call argument-list index is out of range" i.span
            | some arguments ↦
                report_if (not (length arguments == parameter_count_at m.functions i.first))
                  "KBC1110"
                  (concat (
                    "call argument count does not match function '"
                    ∷ name_at m.functions i.first
                    ∷ "'"
                    ∷ []))
                  i.span
                ++ regs arguments "call argument"
          ])

  -- `callArguments[index]` with the registers of its entries checked, or a report and a `break`.
  unfoldable pub validate_arguments : ℕ → String → String → String → List Diagnostic
  validate_arguments index code message role = elim (get_elem? m.call_arguments index) [
    | none ↦ report code message i.span
    | some arguments ↦ regs arguments role
  ]

  unfoldable pub validate_call_indirect : List Diagnostic
  validate_call_indirect =
      reg i.destination "call destination"
      ++ (reg i.first "callee"
          ++ validate_arguments i.second "KBC1109"
              "indirect-call argument-list index is out of range" "indirect-call argument")

  unfoldable pub validate_call_native : List Diagnostic
  validate_call_native =
      reg i.destination "native-call destination"
      ++ (report_if (leb (length m.native_functions) i.first) "KBC1125"
            "native function index is out of range" i.span
          ++ validate_arguments i.second "KBC1109" "native-call argument-list index is out of range"
              "native-call argument")

  unfoldable pub validate_load_member : List Diagnostic
  validate_load_member =
      reg i.destination "member destination"
      ++ (reg i.first "member object"
          ++ report_if (not (names_string m.constants i.second)) "KBC1124"
              "member name is not a valid string constant" i.span)

  unfoldable pub validate_bind_method : List Diagnostic
  validate_bind_method =
      reg i.destination "bound-method destination"
      ++ (reg i.first "bound-method receiver"
          ++ (if leb (length m.functions) i.second || i.second == m.entry_function
              then report "KBC1209" "bound method function index is invalid" i.span
              else report_if (parameter_count_at m.functions i.second == 0) "KBC1210"
                  "bound method function does not accept a receiver" i.span))

  unfoldable pub validate_make_array : List Diagnostic
  validate_make_array =
      reg i.destination "collection destination"
      ++ validate_arguments i.first "KBC1126" "collection element-list index is out of range"
          "collection element"

  -- `MakeObject` does what `MakeArray` does, and behind the elements looks at the field names.
  unfoldable pub validate_make_object : List Diagnostic
  validate_make_object =
      reg i.destination "collection destination" ++ elim (get_elem? m.call_arguments i.first) [
        | none ↦ report "KBC1126" "collection element-list index is out of range" i.span
        | some elements ↦
            regs elements "collection element" ++ elim (get_elem? m.object_field_names i.second) [
              | none ↦ report "KBC1127" "object field names do not match object values" i.span
              | some names ↦
                  report_if (not (length names == length elements)) "KBC1127"
                    "object field names do not match object values" i.span
            ]
      ]

  unfoldable pub validate_make_instance : List Diagnostic
  validate_make_instance =
      reg i.destination "instance destination"
      ++ (report_if (leb (length m.classes) i.first) "KBC1201"
            "instance class index is out of range" i.span
          ++ validate_arguments i.second "KBC1202" "constructor argument-list index is out of range"
              "constructor argument")

  unfoldable pub validate_load_index : List Diagnostic
  validate_load_index =
      reg i.destination "index destination" ++ (reg i.first "indexed value" ++ reg i.second "index")

  -- `StoreIndex` (3 operands) and `StoreMember` (2), up to the check of the member's name.
  unfoldable pub validate_store : ℕ → List Diagnostic → List Diagnostic
  validate_store expected name_check =
      reg i.destination "mutation result" ++ elim (get_elem? m.call_arguments i.first) [
        | none ↦ report "KBC1128" "mutation operand-list index is out of range" i.span
        | some operands ↦
            report_if (not (length operands == expected)) "KBC1129"
              "mutation operand count is invalid" i.span
            ++ (regs operands "mutation operand" ++ name_check)
      ]

  unfoldable pub validate_operation : OpCode → List Diagnostic
  validate_operation OpCode.load_constant =
      reg i.destination "destination"
      ++ report_if (leb (length m.constants) i.first) "KBC1104"
          "load-constant index is out of range" i.span
  validate_operation OpCode.load_null = reg i.destination "destination"
  validate_operation OpCode.load_function = validate_load_function
  validate_operation OpCode.make_closure = validate_make_closure
  validate_operation OpCode.load_capture = validate_load_capture
  validate_operation OpCode.store_capture = validate_store_capture
  validate_operation OpCode.move = reg i.destination "destination" ++ reg i.first "source"
  validate_operation OpCode.negate = reg i.destination "destination" ++ reg i.first "operand"
  validate_operation OpCode.not = reg i.destination "destination" ++ reg i.first "operand"
  validate_operation OpCode.jump =
      report_if (leb (length f.instructions) i.first) "KBC1105" "jump target is out of range" i.span
  validate_operation OpCode.jump_if_false =
      reg i.first "condition"
      ++ report_if (leb (length f.instructions) i.second) "KBC1105"
          "conditional jump target is out of range" i.span
  validate_operation OpCode.call = validate_call
  validate_operation OpCode.call_indirect = validate_call_indirect
  validate_operation OpCode.call_native = validate_call_native
  validate_operation OpCode.load_member = validate_load_member
  validate_operation OpCode.bind_method = validate_bind_method
  validate_operation OpCode.make_array = validate_make_array
  validate_operation OpCode.make_object = validate_make_object
  validate_operation OpCode.make_instance = validate_make_instance
  validate_operation OpCode.load_index = validate_load_index
  validate_operation OpCode.store_index = validate_store 3 []
  validate_operation OpCode.store_member = validate_store 2 (
      report_if (not (names_string m.constants i.second)) "KBC1130"
        "member store name is not a string constant" i.span)
  validate_operation OpCode.throw = reg i.first "thrown value"
  validate_operation OpCode.return = reg i.first "return value"
  validate_operation _ = validate_binary
