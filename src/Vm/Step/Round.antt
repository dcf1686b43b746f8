-- ===== src/Vm/Step/Round.antt =====
-- runtime/kyna_vm/src/execution/bytecode_virtual_machine.cpp: a round of the loop of `executeFrames`, the
-- loop, and `execute`.
use kyna.Base.{ℕ, zero, suc, List, [], ◌∷◌, Option, none, some, get_elem?, replicate, concat, ◌>>=◌}
use kyna.Diagnostics.{Diagnostic, unknown_span}
use kyna.Bytecode.Program.{OpCode, BytecodeInstruction, BytecodeFunction, BytecodeModule}
use kyna.Bytecode.Validator.Functions.{validate_bytecode, last_instruction}
use kyna.Vm.Value.{RuntimeValue, Platform, empty_heap}
use kyna.Vm.Machine.{Machine, Step, runtime_diagnostic}
use kyna.Vm.Step.Values.{
  result, jump, load_constant, make_closure, load_capture, store_capture, move, not_value,
  negate_value, equal_values, unequal_values, binary_values, jump_if_false, throw_error, return,
}
use kyna.Vm.Step.Calls.{call, call_indirect, call_native, make_instance}
use kyna.Vm.Step.Members.{load_member, bind_method, make_array, make_object}
use kyna.Vm.Step.Elements.{load_index, store_index, store_member}

module _ (m : BytecodeModule) (p : Platform) where
  -- The `switch`.
  unfoldable pub operation : BytecodeInstruction → OpCode → Machine → Option Step
  operation i OpCode.load_constant s = load_constant m i s
  operation i OpCode.load_null s = result i RuntimeValue.null s
  operation i OpCode.load_function s = result i (RuntimeValue.function_reference i.first) s
  operation i OpCode.make_closure s = make_closure m i s
  operation i OpCode.load_capture s = load_capture i s
  operation i OpCode.store_capture s = store_capture i s
  operation i OpCode.move s = move i s
  operation i OpCode.not s = not_value m p i s
  operation i OpCode.negate s = negate_value m p i s
  operation i OpCode.equal s = equal_values m p i s
  operation i OpCode.not_equal s = unequal_values m p i s
  operation i OpCode.jump s = jump i.first s
  operation i OpCode.jump_if_false s = jump_if_false m p i s
  operation i OpCode.call s = call m p i s
  operation i OpCode.call_indirect s = call_indirect m p i s
  operation i OpCode.call_native s = call_native m p i s
  operation i OpCode.load_member s = load_member m p i s
  operation i OpCode.bind_method s = bind_method m p i s
  operation i OpCode.make_instance s = make_instance m p i s
  operation i OpCode.make_array s = make_array m p i s
  operation i OpCode.make_object s = make_object m p i s
  operation i OpCode.load_index s = load_index m p i s
  operation i OpCode.store_index s = store_index m p i s
  operation i OpCode.store_member s = store_member m p i s
  operation i OpCode.throw s = throw_error m p i s
  operation i OpCode.return s = return i s
  operation i opcode s = binary_values m p i opcode s

  -- The failure of a pointer behind the last instruction.
  unfoldable pub escaped : BytecodeFunction → Machine → List BytecodeInstruction → Option Step
  escaped f s [] = none
  escaped f s (i ∷ instructions) = do
    d ←
        runtime_diagnostic m "KVM2099"
          (concat ("instruction pointer escaped function '" ∷ f.name ∷ "'" ∷ []))
          (last_instruction i instructions).span [] "" s
    some (Step.failed RuntimeValue.null d s.heap)

  -- The instruction that the pointer is at.
  unfoldable pub execute_instruction :
      BytecodeFunction → Machine → Option BytecodeInstruction → Option Step
  execute_instruction f s (some i) = operation i i.opcode s
  execute_instruction f s none = escaped f s f.instructions

  unfoldable pub round : Machine → Option Step
  round s = do
    f ← get_elem? m.functions s.frame.function
    execute_instruction f s (get_elem? f.instructions s.frame.instruction_pointer)

-- The loop goes on with a machine that runs.
unfoldable pub continue_with : (Machine → Option Step) → Step → Option Step
continue_with next (Step.running s) = next s
continue_with next (Step.returned v h) = some (Step.returned v h)
continue_with next (Step.failed v d h) = some (Step.failed v d h)

-- `execute`: the diagnostics of the validator, or what a number of rounds leads to.
pub data Execution : Type 0 where
  rejected : List Diagnostic → Execution
  executed : Step → Execution

module _ (m : BytecodeModule) (p : Platform) where
  -- A number of rounds of the loop, whose program may run for ever.
  unfoldable pub rounds : ℕ → Machine → Option Step
  rounds zero s = some (Step.running s)
  rounds (suc n) s = do step ← round m p s; continue_with (rounds n) step

  -- The machine with the frame of the entry function.
  unfoldable pub start : BytecodeFunction → Machine
  start entry = record {
    frame = record {
      function = m.entry_function;
      registers = replicate entry.register_count RuntimeValue.null;
      instruction_pointer = 0;
      return_destination = none;
      return_override = none;
      call_site = unknown_span;
      captures = [];
      register_cells = replicate entry.register_count none;
    };
    callers = [];
    heap = empty_heap;
  }

  unfoldable pub execute_valid : ℕ → List Diagnostic → Option Execution
  execute_valid n (d ∷ diagnostics) = some (Execution.rejected (d ∷ diagnostics))
  execute_valid n [] = do
    entry ← get_elem? m.functions m.entry_function
    step ← rounds n (start entry)
    some (Execution.executed step)

  unfoldable pub execute : ℕ → Option Execution
  execute n = execute_valid n (validate_bytecode m)
