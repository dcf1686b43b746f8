-- ===== src/Generator.antt =====
-- compiler/kyna_bytecode/src/generators: the bytecode of a program of the middle representation.
-- `Emission` is the module and the function that `compileBody` fills. `none` stands for an access out of
-- range, a missing terminator or a `std::get` of another alternative.
pub mod Programs
pub mod Growth
pub mod Encoding
pub mod Emitting
pub mod Offsets
pub mod Bodies
pub mod Operations
pub mod Functions
pub mod Heads
pub mod Laid
pub mod Sound
pub mod Outcomes
mod Tests
use kyna.Base.{
  ℕ, zero, suc, ◌+◌, ◌-◌, List, [], ◌∷◌, ◌++◌, Option, none, some, String, map, length, get_elem?,
  ltb, if◌then◌else◌, ◌>>=◌,
}
use kyna.Diagnostics.{SourceSpan}
use kyna.Bytecode.Program.{
  BytecodeConstant, OpCode, BytecodeInstruction, ExceptionHandler, BytecodeFunction, CaptureKind,
  BytecodeCaptureSource, BytecodeModule,
}
use kyna.Mir.Program.{
  HirConstant, MirInstructionKind, MirCaptureKind, MirCaptureSource, MirInstruction,
  MirTerminatorNode, MirTerminator, MirExceptionRegion, MirBasicBlock,
}

pub record Emission : Type 0 where
  pub unit : BytecodeModule
  pub function : BytecodeFunction

unfoldable pub opcode_for : MirInstructionKind → OpCode
opcode_for MirInstructionKind.move = OpCode.move
opcode_for MirInstructionKind.function_reference = OpCode.load_function
opcode_for MirInstructionKind.closure = OpCode.make_closure
opcode_for MirInstructionKind.load_capture = OpCode.load_capture
opcode_for MirInstructionKind.store_capture = OpCode.store_capture
opcode_for MirInstructionKind.negate = OpCode.negate
opcode_for MirInstructionKind.not = OpCode.not
opcode_for MirInstructionKind.add = OpCode.add
opcode_for MirInstructionKind.subtract = OpCode.subtract
opcode_for MirInstructionKind.multiply = OpCode.multiply
opcode_for MirInstructionKind.divide = OpCode.divide
opcode_for MirInstructionKind.remainder = OpCode.remainder
opcode_for MirInstructionKind.equal = OpCode.equal
opcode_for MirInstructionKind.not_equal = OpCode.not_equal
opcode_for MirInstructionKind.less = OpCode.less
opcode_for MirInstructionKind.less_equal = OpCode.less_equal
opcode_for MirInstructionKind.greater = OpCode.greater
opcode_for MirInstructionKind.greater_equal = OpCode.greater_equal
opcode_for MirInstructionKind.constant = OpCode.load_constant
opcode_for MirInstructionKind.call = OpCode.call
opcode_for MirInstructionKind.call_indirect = OpCode.call_indirect
opcode_for MirInstructionKind.call_native = OpCode.call_native
opcode_for MirInstructionKind.load_member = OpCode.load_member
opcode_for MirInstructionKind.bind_method = OpCode.bind_method
opcode_for MirInstructionKind.make_array = OpCode.make_array
opcode_for MirInstructionKind.make_object = OpCode.make_object
opcode_for MirInstructionKind.make_instance = OpCode.make_instance
opcode_for MirInstructionKind.load_index = OpCode.load_index
opcode_for MirInstructionKind.store_index = OpCode.store_index
opcode_for MirInstructionKind.store_member = OpCode.store_member

-- `std::get<std::string>`.
unfoldable pub string_of : HirConstant → Option String
string_of (BytecodeConstant.string s) = some s
string_of _ = none

unfoldable pub capture_source : MirCaptureSource → BytecodeCaptureSource
capture_source source = record {
  kind = elim source.kind [
    | MirCaptureKind.local ↦ CaptureKind.local
    | MirCaptureKind.capture ↦ CaptureKind.capture
  ];
  index = source.index;
}

abbrev pub instruction : OpCode → ℕ → ℕ → ℕ → SourceSpan → BytecodeInstruction
instruction opcode destination first second span = record {
  opcode = opcode;
  destination = destination;
  first = first;
  second = second;
  span = span;
}

-- `function.instructions.push_back(…)`.
unfoldable pub emit : BytecodeInstruction → Emission → Emission
emit i e = record e {
  function = record e.function { instructions = e.function.instructions ++ i ∷ [] };
}

-- `push_back` on the tables of the module.
unfoldable pub add_constant : HirConstant → BytecodeModule → BytecodeModule
add_constant c m = record m { constants = m.constants ++ c ∷ [] }

unfoldable pub add_arguments : List ℕ → BytecodeModule → BytecodeModule
add_arguments registers m = record m { call_arguments = m.call_arguments ++ registers ∷ [] }

unfoldable pub add_captures : List BytecodeCaptureSource → BytecodeModule → BytecodeModule
add_captures sources m = record m { closure_captures = m.closure_captures ++ sources ∷ [] }

unfoldable pub add_native : String → BytecodeModule → BytecodeModule
add_native name m = record m { native_functions = m.native_functions ++ name ∷ [] }

unfoldable pub add_names : List String → BytecodeModule → BytecodeModule
add_names names m = record m { object_field_names = m.object_field_names ++ names ∷ [] }

module _ (i : MirInstruction) (e : Emission) where
  -- An emission of the opcode with its two operands, behind a change of the module.
  unfoldable pub emitted : BytecodeModule → OpCode → ℕ → ℕ → Emission
  emitted m opcode first second =
      emit (instruction opcode i.destination first second i.span) (record e { unit = m })

  unfoldable pub compile_constant : Emission
  compile_constant =
      emitted (add_constant i.constant e.unit) OpCode.load_constant (length e.unit.constants) 0

  unfoldable pub compile_closure : Emission
  compile_closure =
      emitted (add_captures (map capture_source i.capture_sources) e.unit) OpCode.make_closure
        i.function (length e.unit.closure_captures)

  unfoldable pub compile_call : OpCode → ℕ → Emission
  compile_call opcode target =
      emitted (add_arguments i.arguments e.unit) opcode target (length e.unit.call_arguments)

  unfoldable pub compile_native : Option Emission
  compile_native = do
    name ← string_of i.constant
    some (
        emitted (add_native name (add_arguments i.arguments e.unit)) OpCode.call_native
          (length e.unit.native_functions) (length e.unit.call_arguments))

  unfoldable pub compile_member : Emission
  compile_member =
      emitted (add_constant i.constant e.unit) OpCode.load_member i.first (length e.unit.constants)

  unfoldable pub compile_array : Emission
  compile_array =
      emitted (add_arguments i.arguments e.unit) OpCode.make_array (length e.unit.call_arguments) 0

  unfoldable pub compile_object : Emission
  compile_object =
      emitted (add_names i.names (add_arguments i.arguments e.unit)) OpCode.make_object
        (length e.unit.call_arguments) (length e.unit.object_field_names)

  unfoldable pub compile_store_index : Emission
  compile_store_index =
      emitted (add_arguments i.arguments e.unit) OpCode.store_index (length e.unit.call_arguments) 0

  unfoldable pub compile_store_member : Emission
  compile_store_member =
      emitted (add_constant i.constant (add_arguments i.arguments e.unit)) OpCode.store_member
        (length e.unit.call_arguments) (length e.unit.constants)

  -- The chain of tests of the instruction's kind.
  unfoldable pub compile_kind : MirInstructionKind → Option Emission
  compile_kind MirInstructionKind.constant = some compile_constant
  compile_kind MirInstructionKind.function_reference =
      some (emitted e.unit OpCode.load_function i.function 0)
  compile_kind MirInstructionKind.closure = some compile_closure
  compile_kind MirInstructionKind.load_capture =
      some (emitted e.unit OpCode.load_capture i.capture 0)
  compile_kind MirInstructionKind.store_capture =
      some (emitted e.unit OpCode.store_capture i.capture i.first)
  compile_kind MirInstructionKind.call = some (compile_call OpCode.call i.function)
  compile_kind MirInstructionKind.call_indirect = some (compile_call OpCode.call_indirect i.first)
  compile_kind MirInstructionKind.call_native = compile_native
  compile_kind MirInstructionKind.load_member = some compile_member
  compile_kind MirInstructionKind.bind_method =
      some (emitted e.unit OpCode.bind_method i.first i.function)
  compile_kind MirInstructionKind.make_array = some compile_array
  compile_kind MirInstructionKind.make_object = some compile_object
  compile_kind MirInstructionKind.make_instance =
      some (compile_call OpCode.make_instance i.function)
  compile_kind MirInstructionKind.store_index = some compile_store_index
  compile_kind MirInstructionKind.store_member = some compile_store_member
  compile_kind kind = some (emitted e.unit (opcode_for kind) i.first i.second)

unfoldable pub compile_instructions : List MirInstruction → Emission → Option Emission
compile_instructions [] e = some e
compile_instructions (i ∷ instructions) e = do
  e' ← compile_kind i e i.kind
  compile_instructions instructions e'

-- `terminatorSize`.
unfoldable pub terminator_size : MirTerminatorNode → ℕ
terminator_size (MirTerminatorNode.branch _ _ _) = 2
terminator_size _ = 1

-- The first loop of `compileBody`, from an offset on: where the code of each block starts.
unfoldable pub block_offsets : ℕ → List MirBasicBlock → Option (List ℕ)
block_offsets offset [] = some []
block_offsets offset (block ∷ blocks) = do
  t ← block.terminator
  offsets ← block_offsets (offset + length block.instructions + terminator_size t.node) blocks
  some (offset ∷ offsets)

unfoldable pub compile_node : List ℕ → SourceSpan → MirTerminatorNode → Emission → Option Emission
compile_node offsets span (MirTerminatorNode.return value) e =
    some (emit (instruction OpCode.return 0 value 0 span) e)
compile_node offsets span (MirTerminatorNode.goto target) e = do
  offset ← get_elem? offsets target
  some (emit (instruction OpCode.jump 0 offset 0 span) e)
compile_node offsets span (MirTerminatorNode.branch condition true_block false_block) e = do
  when_false ← get_elem? offsets false_block
  when_true ← get_elem? offsets true_block
  some (
      emit (instruction OpCode.jump 0 when_true 0 span)
        (emit (instruction OpCode.jump_if_false 0 condition when_false span) e))
compile_node offsets span (MirTerminatorNode.throw value) e =
    some (emit (instruction OpCode.throw 0 value 0 span) e)

unfoldable pub compile_blocks : List ℕ → List MirBasicBlock → Emission → Option Emission
compile_blocks offsets [] e = some e
compile_blocks offsets (block ∷ blocks) e = do
  e' ← compile_instructions block.instructions e
  t ← block.terminator
  e'' ← compile_node offsets t.span t.node e'
  compile_blocks offsets blocks e''

-- The handler of a protected block, in a function with so many instructions.
unfoldable pub block_handler : List ℕ → ℕ → MirExceptionRegion → ℕ → Option ExceptionHandler
block_handler offsets size region block = do
  begin ← get_elem? offsets block
  handler ← get_elem? offsets region.handler
  stop ← if ltb (block + 1) (length offsets) then get_elem? offsets (block + 1) else some size
  some (record {
    first_instruction = begin;
    instruction_count = stop - begin;
    handler_instruction = handler;
    error_register = region.error_destination;
  })

unfoldable pub block_handlers :
    List ℕ → ℕ → MirExceptionRegion → List ℕ → Option (List ExceptionHandler)
block_handlers offsets size region [] = some []
block_handlers offsets size region (block ∷ blocks) = do
  h ← block_handler offsets size region block
  handlers ← block_handlers offsets size region blocks
  some (h ∷ handlers)

-- The last loop of `compileBody`: the handlers that it appends.
unfoldable pub region_handlers :
    List ℕ → ℕ → List MirExceptionRegion → Option (List ExceptionHandler)
region_handlers offsets size [] = some []
region_handlers offsets size (region ∷ regions) = do
  handlers ← block_handlers offsets size region region.protected_blocks
  more ← region_handlers offsets size regions
  some (handlers ++ more)

unfoldable pub add_handlers : List ExceptionHandler → Emission → Emission
add_handlers handlers e = record e {
  function = record e.function { exception_handlers = e.function.exception_handlers ++ handlers };
}

-- `compileBody`.
unfoldable pub compile_body :
    List MirBasicBlock → List MirExceptionRegion → Emission → Option Emission
compile_body blocks regions e = do
  offsets ← block_offsets 0 blocks
  e' ← compile_blocks offsets blocks e
  handlers ← region_handlers offsets (length e'.function.instructions) regions
  some (add_handlers handlers e')
