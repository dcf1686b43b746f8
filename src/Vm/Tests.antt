-- ===== src/Vm/Tests.antt =====
-- runtime/kyna_vm: runs, and the properties at concrete inputs.
use kyna.Base.{◌≡◌, refl, ℕ, [], ◌∷◌, Option, none, some, just, Yields, ◌>>=◌, ◌≢◌, List}
use kyna.Base.Int.{pos, ◌+ℤ◌, ◌-ℤ◌, ◌*ℤ◌}
use kyna.Diagnostics.{unknown_span}
use kyna.Bytecode.Program.{OpCode, BytecodeModule, ExceptionHandler}
use kyna.Bytecode.Report.{report_if, valid_register, register_error, register_errors}
use kyna.Bytecode.Validator.Operation.{
  parameter_count_at, validate_operation, validate_load_function, validate_call,
  validate_call_native, validate_arguments, validate_binary, validate_load_capture,
}
use kyna.Bytecode.Validator.Classes.{validate_classes, validate_cycles}
use kyna.Bytecode.Validator.Functions.{
  validate_instructions, validate_handlers, ends_function, last_instruction, validate_ending,
  validate_body, validate_function, validate_functions, validate_version, validate_entry,
  validate_bytecode,
}
use kyna.Vm.Numeric.{checked_integer_arithmetic, checked_add, maximum}
use kyna.Vm.Numeric.Checked.{if_fits, checked_integer_arithmetic_lem}
use kyna.Vm.Value.{RuntimeValue, constant_value, empty_heap}
use kyna.Vm.Machine.{
  Step, put, read_cell, read, read_all, write_cell, write, Frame, Machine, find_handler, handle,
  search, resume, unwind_error,
}
use kyna.Vm.Arithmetic.{number, checked_result, sum, on_numbers, numeric, is_string, binary}
use kyna.Vm.Step.Values.{
  proceed, result, load_constant, load_capture, conclude, binary_values, return_value, leave,
  return,
}
use kyna.Vm.Step.Calls.{
  place, with_receiver, push, enter, supplied, call_function, call, native_result, invoke_native,
  call_native,
}
use kyna.Vm.Step.Round.{
  operation, execute_instruction, round, continue_with, rounds, start, execute,
}
use kyna.Vm.Machine.Registers.{Unshared, read-write}
use kyna.Vm.Machine.Handlers.{Unwinds, Resumes, unwind_error-Resumes}
use kyna.Vm.Safe.Heaps.{Extends-refl}
use kyna.Vm.Safe.Natives.{AdapterFits}
use kyna.Vm.Safe.Targets.{ClosedTargets}
use kyna.Vm.Safe.Rounds.{ExecutionFits, execute-Yields}
use kyna.Vm.Samples.{silent, platform, main, add, sample, caller, uncaptured, careful, recovering}

checked_integer_arithmetic_example :
    (checked_integer_arithmetic OpCode.add maximum (pos 1) ≡ if_fits (maximum +ℤ pos 1))
    × (checked_integer_arithmetic OpCode.subtract maximum (pos 1) ≡ if_fits (maximum -ℤ pos 1))
    × (checked_integer_arithmetic OpCode.multiply maximum (pos 1) ≡ if_fits (maximum *ℤ pos 1))
checked_integer_arithmetic_example = checked_integer_arithmetic_lem maximum (pos 1) refl refl

silent-Fits : (m : BytecodeModule) → AdapterFits m silent
silent-Fits m name values h fits inside = (Extends-refl m h fits, tt)

sample-ClosedTargets : ClosedTargets sample
sample-ClosedTargets = record {
  entry = (main, refl, refl);
  operations = ((tt, (tt, ((add, refl, refl), (tt, (tt, tt))))), ((tt, (tt, tt)), tt));
  classes = tt;
}

execute-Yields_example : Yields (ExecutionFits sample) (execute sample platform 20)
execute-Yields_example =
    execute-Yields sample platform sample-ClosedTargets (just (silent-Fits sample)) 20

uncaptured-valid : validate_bytecode uncaptured ≡ []
unfolding validate_bytecode validate_version validate_entry validate_functions validate_function
    validate_body validate_instructions validate_handlers validate_ending last_instruction
    ends_function validate_classes validate_cycles validate_operation validate_load_function
    validate_call validate_call_native validate_arguments validate_binary validate_load_capture
    parameter_count_at report_if valid_register register_error register_errors
uncaptured-valid = refl

-- The loop, with what the programs here call opened for a run.
abbrev value_of : Option Step → Option RuntimeValue
value_of (some (Step.returned v h)) = some v
value_of _ = none

rounds-five :
    value_of (rounds sample platform 20 (start sample platform main))
    ≡ some (RuntimeValue.integer (pos 5))
unfolding rounds start round execute_instruction operation continue_with load_constant
    constant_value result proceed write write_cell put read read_cell read_all call call_function
    enter supplied push with_receiver place call_native invoke_native native_result binary_values
    binary is_string numeric number on_numbers sum checked_integer_arithmetic checked_add
    checked_result conclude return return_value leave ◌>>=◌ ◌+ℤ◌ ◌-ℤ◌
rounds-five = refl

-- The validator accepts the module, and the round of the read is out of range.
rounds-uncaptured : rounds uncaptured platform 2 (start uncaptured platform caller) ≡ none
unfolding rounds start round execute_instruction operation continue_with read_all call call_function
    enter supplied push with_receiver place load_capture ◌>>=◌
rounds-uncaptured = refl

-- The first machine after a write of its first register.
abbrev with_five : Machine
with_five = record (start sample platform main) {
  frame = record (start sample platform main).frame {
    registers =
        RuntimeValue.integer (pos 5)
        ∷ RuntimeValue.null
        ∷ RuntimeValue.null
        ∷ RuntimeValue.null
        ∷ [];
  };
}

write-five : write (start sample platform main) 0 (RuntimeValue.integer (pos 5)) ≡ some with_five
unfolding write write_cell put start ◌>>=◌
write-five = refl

read-write_example :
    (read with_five 0 ≡ some (RuntimeValue.integer (pos 5)))
    × ((j : ℕ)
        → 0 ≢ j
        → Unshared (start sample platform main) 0 j
        → read with_five j ≡ read (start sample platform main) j)
read-write_example =
    read-write (start sample platform main) with_five 0 (RuntimeValue.integer (pos 5)) write-five

-- The machine at its first instruction with an error on its heap.
abbrev raised : Machine
raised = record (start recovering platform careful) {
  heap = record empty_heap {
    errors = record { message = "lost"; code = "E1"; cause = RuntimeValue.null } ∷ [];
  };
}

-- The machine at the handler.
abbrev recovered : Machine
recovered = record raised {
  frame = record raised.frame { registers = RuntimeValue.error 0 ∷ []; instruction_pointer = 1 };
}

unwind_error-raised :
    unwind_error recovering platform 0 unknown_span raised ≡ some (Step.running recovered)
unfolding unwind_error search handle find_handler resume write write_cell put start ◌>>=◌
unwind_error-raised = refl

unwind_error-Resumes_example :
    (h : ExceptionHandler) × (target : Frame) × (behind : List Frame) × Unwinds recovering h target
      behind raised.frame.instruction_pointer raised.frame raised.callers
    × Resumes recovering 0 h target behind recovered
unwind_error-Resumes_example =
    unwind_error-Resumes recovering platform 0 unknown_span raised recovered unwind_error-raised
