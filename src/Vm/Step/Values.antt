-- ===== src/Vm/Step/Values.antt =====
-- runtime/kyna_vm/src/execution/bytecode_virtual_machine.cpp: the cases that compute a value, jump,
-- close over variables, throw and return.
use kyna.Base.{
  ℕ, ◌+◌, not, List, [], ◌∷◌, ◌++◌, Option, none, some, length, get_elem?, if◌then◌else◌, ◌>>=◌,
}
use kyna.Bytecode.Program.{
  OpCode, BytecodeInstruction, CaptureKind, BytecodeCaptureSource, BytecodeModule,
}
use kyna.Vm.Value.{RuntimeValue, Heap, Platform, constant_value}
use kyna.Vm.Value.Display.{display, is_truthy, equals}
use kyna.Vm.Machine.{Frame, Machine, Step, read, write, put, unwind_error, raise}
use kyna.Vm.Arithmetic.{Computed, negate, binary}

-- `++frame.instructionPointer` and the next round.
unfoldable pub proceed : Machine → Option Step
proceed s = some (
    Step.running (record s {
      frame = record s.frame { instruction_pointer = s.frame.instruction_pointer + 1 };
    }))

-- `writeRegister` and the end of the round.
unfoldable pub result : BytecodeInstruction → RuntimeValue → Machine → Option Step
result i v s = do s' ← write s i.destination v; proceed s'

unfoldable pub jump : ℕ → Machine → Option Step
jump target s =
    some (Step.running (record s { frame = record s.frame { instruction_pointer = target } }))

-- `heap.allocateCaptureCell`.
unfoldable pub allocate_cell : RuntimeValue → Heap → Heap
allocate_cell v h = record h { cells = h.cells ++ v ∷ [] }

-- The cell of a local that has one, or a new one with its value.
unfoldable pub cell_of : Machine → ℕ → Option ℕ → Option (ℕ × Machine)
cell_of s index (some cell) = some (cell, s)
cell_of s index none = do
  v ← read s index
  register_cells ← put s.frame.register_cells index (some (length s.heap.cells))
  some (
    length s.heap.cells,
    record s {
      frame = record s.frame { register_cells = register_cells };
      heap = allocate_cell v s.heap;
    },
  )

-- One round of the loop of `MakeClosure`.
unfoldable pub capture : Machine → CaptureKind → ℕ → Option (ℕ × Machine)
capture s CaptureKind.capture index = do cell ← get_elem? s.frame.captures index; some (cell, s)
capture s CaptureKind.local index = do
  cell ← get_elem? s.frame.register_cells index
  cell_of s index cell

unfoldable pub capture_all : Machine → List BytecodeCaptureSource → Option (List ℕ × Machine)
capture_all s [] = some ([], s)
capture_all s (source ∷ sources) = do
  (cell, s') ← capture s source.kind source.index
  (cells, s'') ← capture_all s' sources
  some (cell ∷ cells, s'')

module _ (m : BytecodeModule) where
  unfoldable pub load_constant : BytecodeInstruction → Machine → Option Step
  load_constant i s = do
    constant ← get_elem? m.constants i.first
    result i (constant_value constant) s

  unfoldable pub make_closure : BytecodeInstruction → Machine → Option Step
  make_closure i s = do
    sources ← get_elem? m.closure_captures i.second
    (captures, s') ← capture_all s sources
    result i (RuntimeValue.closure (length s'.heap.closures)) (record s' {
      heap = record s'.heap {
        closures = s'.heap.closures ++ record { function = i.first; captures = captures } ∷ [];
      };
    })

unfoldable pub load_capture : BytecodeInstruction → Machine → Option Step
load_capture i s = do
  cell ← get_elem? s.frame.captures i.first
  v ← get_elem? s.heap.cells cell
  result i v s

unfoldable pub store_capture : BytecodeInstruction → Machine → Option Step
store_capture i s = do
  cell ← get_elem? s.frame.captures i.first
  v ← read s i.second
  cells ← put s.heap.cells cell v
  let s' : Machine = record s { heap = record s.heap { cells = cells } }
  w ← read s' i.second
  result i w s'

unfoldable pub move : BytecodeInstruction → Machine → Option Step
move i s = do v ← read s i.first; result i v s

module _ (m : BytecodeModule) (p : Platform) where
  unfoldable pub not_value : BytecodeInstruction → Machine → Option Step
  not_value i s = do v ← read s i.first; result i (RuntimeValue.boolean (not (is_truthy p v))) s

  -- The value of an operation is written, or its error raised.
  unfoldable pub conclude : BytecodeInstruction → Machine → Computed → Option Step
  conclude i s (Computed.value v) = result i v s
  conclude i s (Computed.raises code message) = raise m p code message i.span RuntimeValue.null s

  unfoldable pub negate_value : BytecodeInstruction → Machine → Option Step
  negate_value i s = do v ← read s i.first; conclude i s (negate p v)

  unfoldable pub equal_values : BytecodeInstruction → Machine → Option Step
  equal_values i s = do
    left ← read s i.first
    right ← read s i.second
    result i (RuntimeValue.boolean (equals p left right)) s

  unfoldable pub unequal_values : BytecodeInstruction → Machine → Option Step
  unequal_values i s = do
    left ← read s i.first
    right ← read s i.second
    result i (RuntimeValue.boolean (not (equals p left right))) s

  unfoldable pub binary_values : BytecodeInstruction → OpCode → Machine → Option Step
  binary_values i opcode s = do
    left ← read s i.first
    right ← read s i.second
    computed ← binary p s.heap opcode left right
    conclude i s computed

  unfoldable pub jump_if_false : BytecodeInstruction → Machine → Option Step
  jump_if_false i s = do v ← read s i.first; if is_truthy p v then proceed s else jump i.second s

  -- A value that is no error becomes one, with the value as its cause.
  unfoldable pub throw_value : BytecodeInstruction → Machine → RuntimeValue → Option Step
  throw_value i s (RuntimeValue.error e) = unwind_error m p e i.span s
  throw_value i s v = raise m p "KVM2301" (display p s.heap v) i.span v s

  unfoldable pub throw_error : BytecodeInstruction → Machine → Option Step
  throw_error i s = do v ← read s i.first; throw_value i s v

-- A constructor returns its instance, whatever it returns.
unfoldable pub return_value :
    BytecodeInstruction → Machine → Option RuntimeValue → Option RuntimeValue
return_value i s (some v) = some v
return_value i s none = read s i.first

-- The program ends, or the value goes to the frame that called.
unfoldable pub leave : RuntimeValue → Heap → Option ℕ → List Frame → Option Step
leave v h destination [] = some (Step.returned v h)
leave v h destination (c ∷ callers) = do
  index ← destination
  s ← write (record { frame = c; callers = callers; heap = h }) index v
  some (Step.running s)

unfoldable pub return : BytecodeInstruction → Machine → Option Step
return i s = do
  v ← return_value i s s.frame.return_override
  leave v s.heap s.frame.return_destination s.callers
