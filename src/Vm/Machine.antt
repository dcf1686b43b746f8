-- ===== src/Vm/Machine.antt =====
-- runtime/kyna_vm: the state of the virtual machine (bytecode_call_frame.hpp), its registers, and
-- `unwindError` and `raise` of bytecode_virtual_machine.cpp. The last frame of `frames` is the field
-- `frame`, and the others are `callers`, the nearest first. `none` is an access out of range, which the
-- code does not test. The heap is not collected here, and native functions do not call back, so that
-- `exceptionBoundary` is 0.
pub mod Registers
pub mod Handlers
use kyna.Base.{
  ℕ, ◌-◌, ◌&&◌, List, [], ◌∷◌, ◌++◌, Option, none, some, String, length, get_elem?, set, ltb, leb,
  false, if◌then◌else◌, concat, str_eq, ◌>>=◌,
}
use kyna.Diagnostics.{SourceSpan, Diagnostic}
use kyna.Bytecode.Program.{ExceptionHandler, BytecodeModule}
use kyna.Vm.Value.{RuntimeValue, Heap, Platform}
use kyna.Vm.Value.Display.{display}

-- `BytecodeCallFrame`.
pub record Frame : Type 0 where
  pub function : ℕ
  pub registers : List RuntimeValue
  pub instruction_pointer : ℕ
  pub return_destination : Option ℕ
  pub return_override : Option RuntimeValue
  pub call_site : SourceSpan
  pub captures : List ℕ
  pub register_cells : List (Option ℕ)

pub record Machine : Type 0 where
  pub frame : Frame
  pub callers : List Frame
  pub heap : Heap

-- A diagnostic of the machine, with the fields that only the machine fills.
pub record RuntimeDiagnostic : Type 0 where
  pub diagnostic : Diagnostic
  pub call_frames : List (String × SourceSpan)
  pub notes : List String

-- A round of the loop goes on, returns the value of the program, or returns a failure, with the error
-- as its value where there is one.
pub data Step : Type 0 where
  running : Machine → Step
  returned : RuntimeValue → Heap → Step
  failed : RuntimeValue → RuntimeDiagnostic → Heap → Step

-- A write at an index that is there.
unfoldable pub put {ℓ} : {A : Type ℓ} → List A → ℕ → A → Option (List A)
put xs i v = if ltb i (length xs) then some (set xs i v) else none

unfoldable pub read_cell : Machine → ℕ → Option ℕ → Option RuntimeValue
read_cell s index none = get_elem? s.frame.registers index
read_cell s index (some cell) = get_elem? s.heap.cells cell

-- `readRegister` on the last frame.
unfoldable pub read : Machine → ℕ → Option RuntimeValue
read s index = do cell ← get_elem? s.frame.register_cells index; read_cell s index cell

-- `readRegister` at each register of a list.
unfoldable pub read_all : Machine → List ℕ → Option (List RuntimeValue)
read_all s [] = some []
read_all s (index ∷ indices) = do v ← read s index; vs ← read_all s indices; some (v ∷ vs)

unfoldable pub write_cell : Machine → Option ℕ → RuntimeValue → Option Machine
write_cell s none v = some s
write_cell s (some cell) v = do
  cells ← put s.heap.cells cell v
  some (record s { heap = record s.heap { cells = cells } })

-- `writeRegister` on the last frame.
unfoldable pub write : Machine → ℕ → RuntimeValue → Option Machine
write s index v = do
  registers ← put s.frame.registers index v
  cell ← get_elem? s.frame.register_cells index
  write_cell (record s { frame = record s.frame { registers = registers } }) cell v

-- The first handler that protects the instruction.
unfoldable pub find_handler : ℕ → List ExceptionHandler → Option ExceptionHandler
find_handler fault [] = none
find_handler fault (h ∷ handlers) =
    let later = find_handler fault handlers in
    if leb h.first_instruction fault && ltb (fault - h.first_instruction) h.instruction_count
    then some h
    else later

-- Where an error is handled: the handler, its frame and the frames behind it; `uncaught` if nowhere.
pub data Unwound : Type 0 where
  caught : ExceptionHandler → Frame → List Frame → Unwound
  uncaught : Unwound

-- The frame handles the error, or the search goes on in the frames behind it.
unfoldable pub handle :
    Option ExceptionHandler → Frame → List Frame → Option Unwound → Option Unwound
handle (some h) frame callers outer = some (Unwound.caught h frame callers)
handle none frame callers outer = outer

module _ (m : BytecodeModule) where
  -- The loop of `unwindError` over the frames; the instruction that failed in a caller is its call.
  unfoldable pub search : ℕ → Frame → List Frame → Option Unwound
  search fault frame [] = do
    function ← get_elem? m.functions frame.function
    handle (find_handler fault function.exception_handlers) frame [] (some Unwound.uncaught)
  search fault frame (c ∷ callers) =
      let outer = search (c.instruction_pointer - 1) c callers in
      do
        function ← get_elem? m.functions frame.function
        handle (find_handler fault function.exception_handlers) frame (c ∷ callers) outer

  -- The call frames of `makeBytecodeRuntimeDiagnostic`, from the last frame on.
  unfoldable pub call_frames : SourceSpan → Frame → List Frame → Option (List (String × SourceSpan))
  call_frames span frame [] = do
    function ← get_elem? m.functions frame.function
    some ((function.name, span) ∷ [])
  call_frames span frame (c ∷ callers) =
      let outer = call_frames frame.call_site c callers in
      do
        function ← get_elem? m.functions frame.function
        rest ← outer
        some ((function.name, span) ∷ rest)

  -- `makeBytecodeRuntimeDiagnostic`, with the notes and the help that the callers add.
  unfoldable pub runtime_diagnostic :
      String → String → SourceSpan → List String → String → Machine → Option RuntimeDiagnostic
  runtime_diagnostic code message span notes help s = do
    frames ← call_frames span s.frame s.callers
    some (record {
      diagnostic = record {
        message = message;
        location = span;
        warning = false;
        code = code;
        category = "runtime";
        help = help;
      };
      call_frames = frames;
      notes = notes;
    })

  module _ (p : Platform) where
    -- The note on the cause of an error, unless it is null.
    unfoldable pub cause_notes : Heap → RuntimeValue → List String
    cause_notes h RuntimeValue.null = []
    cause_notes h v = concat ("cause: " ∷ display p h v ∷ []) ∷ []

    -- The two ends of `unwindError`.
    unfoldable pub resume : ℕ → SourceSpan → Machine → Unwound → Option Step
    resume error span s Unwound.uncaught = do
      e ← get_elem? s.heap.errors error
      d ←
          runtime_diagnostic (if str_eq e.code "" then "KVM2301" else e.code) e.message span
            (cause_notes s.heap e.cause)
            "catch this error with 'try/catch' or fix the failing operation" s
      some (Step.failed (RuntimeValue.error error) d s.heap)
    resume error span s (Unwound.caught h frame callers) = do
      s' ←
          write (record { frame = frame; callers = callers; heap = s.heap }) h.error_register
            (RuntimeValue.error error)
      some (
          Step.running
            (record s' { frame = record s'.frame { instruction_pointer = h.handler_instruction } }))

    unfoldable pub unwind_error : ℕ → SourceSpan → Machine → Option Step
    unwind_error error span s = do
      found ← search s.frame.instruction_pointer s.frame s.callers
      resume error span s found

    -- `Heap::allocateError` and `unwindError`.
    unfoldable pub raise : String → String → SourceSpan → RuntimeValue → Machine → Option Step
    raise code message span cause s = unwind_error (length s.heap.errors) span (record s {
      heap = record s.heap {
        errors = s.heap.errors ++ record { message = message; code = code; cause = cause } ∷ [];
      };
    })
