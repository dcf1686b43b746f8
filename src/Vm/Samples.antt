-- ===== src/Vm/Samples.antt =====
-- runtime/kyna_vm: a platform and modules that the tests run.
use kyna.Base.{ℕ, true, false, [], ◌∷◌, some}
use kyna.Base.Int.{pos}
use kyna.Diagnostics.{unknown_span}
use kyna.Bytecode.Program.{
  BytecodeConstant, OpCode, BytecodeInstruction, BytecodeFunction, BytecodeModule,
}
use kyna.Vm.Value.{RuntimeValue, NativeResult, NativeAdapter, Platform}

-- A native function that returns null and leaves the heap.
abbrev pub silent : NativeAdapter
silent name values h = (NativeResult.value RuntimeValue.null, h)

abbrev pub platform : Platform
platform = record {
  of_integer = λ x. 0;
  negate = λ x. x;
  add = λ x y. x;
  subtract = λ x y. x;
  multiply = λ x y. x;
  divide = λ x y. x;
  is_zero = λ x. false;
  equal = λ x y. true;
  less = λ x y. false;
  less_equal = λ x y. true;
  show = λ x. "0";
  opcode_name = λ opcode. "opcode";
  natives = some silent;
}

abbrev pub instruction : OpCode → ℕ → ℕ → ℕ → BytecodeInstruction
instruction opcode destination first second = record {
  opcode = opcode;
  destination = destination;
  first = first;
  second = second;
  span = unknown_span;
}

-- `main` calls `add` on 2 and 3, then a native function, and returns the sum.
abbrev pub main : BytecodeFunction
main = record {
  name = "main";
  register_count = 4;
  instructions =
      instruction OpCode.load_constant 0 0 0
      ∷ instruction OpCode.load_constant 1 1 0
      ∷ instruction OpCode.call 2 1 0
      ∷ instruction OpCode.call_native 3 0 1
      ∷ instruction OpCode.return 0 2 0
      ∷ [];
  parameter_count = 0;
  capture_count = 0;
  exception_handlers = [];
}

abbrev pub add : BytecodeFunction
add = record {
  name = "add";
  register_count = 3;
  instructions = instruction OpCode.add 2 0 1 ∷ instruction OpCode.return 0 2 0 ∷ [];
  parameter_count = 2;
  capture_count = 0;
  exception_handlers = [];
}

abbrev pub sample : BytecodeModule
sample = record {
  format_version = 7;
  name = "sample";
  constants = BytecodeConstant.integer (pos 2) ∷ BytecodeConstant.integer (pos 3) ∷ [];
  call_arguments = (0 ∷ 1 ∷ []) ∷ (2 ∷ []) ∷ [];
  native_functions = "print" ∷ [];
  object_field_names = [];
  closure_captures = [];
  functions = main ∷ add ∷ [];
  classes = [];
  entry_function = 0;
}

-- A function that reads a capture, called without one.
abbrev pub capturing : BytecodeFunction
capturing = record {
  name = "capturing";
  register_count = 1;
  instructions = instruction OpCode.load_capture 0 0 0 ∷ instruction OpCode.return 0 0 0 ∷ [];
  parameter_count = 0;
  capture_count = 1;
  exception_handlers = [];
}

abbrev pub caller : BytecodeFunction
caller = record {
  name = "caller";
  register_count = 1;
  instructions = instruction OpCode.call 0 1 0 ∷ instruction OpCode.return 0 0 0 ∷ [];
  parameter_count = 0;
  capture_count = 0;
  exception_handlers = [];
}

abbrev pub uncaptured : BytecodeModule
uncaptured = record {
  format_version = 7;
  name = "uncaptured";
  constants = [];
  call_arguments = [] ∷ [];
  native_functions = [];
  object_field_names = [];
  closure_captures = [];
  functions = caller ∷ capturing ∷ [];
  classes = [];
  entry_function = 0;
}

-- A function whose first instruction is protected.
abbrev pub careful : BytecodeFunction
careful = record {
  name = "careful";
  register_count = 1;
  instructions = instruction OpCode.throw 0 0 0 ∷ instruction OpCode.return 0 0 0 ∷ [];
  parameter_count = 0;
  capture_count = 0;
  exception_handlers =
      record {
        first_instruction = 0;
        instruction_count = 1;
        handler_instruction = 1;
        error_register = 0;
      }
      ∷ [];
}

abbrev pub recovering : BytecodeModule
recovering = record {
  format_version = 7;
  name = "recovering";
  constants = [];
  call_arguments = [];
  native_functions = [];
  object_field_names = [];
  closure_captures = [];
  functions = careful ∷ [];
  classes = [];
  entry_function = 0;
}
