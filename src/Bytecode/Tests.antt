-- ===== src/Bytecode/Tests.antt =====
-- compiler/kyna_bytecode: a module, and the properties at it.
use kyna.Base.{ℕ, suc, ◌≡◌, ◌↔◌, true, [], ◌∷◌, Option, none, some, String, length}
use kyna.Diagnostics.{unknown_span}
use kyna.Bytecode.Program.{
  OpCode, BytecodeInstruction, BytecodeFunction, BytecodeClass, BytecodeModule,
}
use kyna.Bytecode.Validator.Classes.{cycle_from}
use kyna.Bytecode.Validator.Functions.{validate_bytecode}
use kyna.Bytecode.Valid.{ValidModule}
use kyna.Bytecode.Valid.Modules.{validate_bytecode_iff}
use kyna.Bytecode.Ancestors.{ends_within, cycle_from-none}

abbrev instruction : OpCode → ℕ → ℕ → ℕ → BytecodeInstruction
instruction opcode destination first second = record {
  opcode = opcode;
  destination = destination;
  first = first;
  second = second;
  span = unknown_span;
}

abbrev klass : String → Option ℕ → BytecodeClass
klass name parent = record {
  name = name;
  parent = parent;
  fields = [];
  methods = [];
  constructor = none;
}

abbrev main : BytecodeFunction
main = record {
  name = "main";
  register_count = 1;
  instructions = instruction OpCode.load_null 0 0 0 ∷ instruction OpCode.return 0 0 0 ∷ [];
  parameter_count = 0;
  capture_count = 0;
  exception_handlers = [];
}

abbrev sample : BytecodeModule
sample = record {
  format_version = 7;
  name = "sample";
  constants = [];
  call_arguments = [];
  native_functions = [];
  object_field_names = [];
  closure_captures = [];
  functions = main ∷ [];
  classes = klass "A" none ∷ klass "B" (some 0) ∷ [];
  entry_function = 0;
}

validate_bytecode_iff_example : (validate_bytecode sample ≡ []) ↔ ValidModule sample
validate_bytecode_iff_example = validate_bytecode_iff sample

cycle_from-none_example :
    (cycle_from sample.classes 1 ≡ none)
    ↔ (ends_within (suc (length sample.classes)) sample.classes (some 1) ≡ true)
cycle_from-none_example = cycle_from-none sample.classes 1
