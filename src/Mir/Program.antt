-- ===== src/Mir/Program.antt =====
-- compiler/kyna_mir/include/kyna/mir/mir_program.hpp: programs of the middle representation. A temporary, a
-- block and a local are their numbers.
use kyna.Base.{ℕ, List, Option, String}
use kyna.Diagnostics.{SourceSpan}
use kyna.Bytecode.Program.{BytecodeConstant}

-- `HirConstant` is the same variant as `BytecodeConstant`.
abbrev pub HirConstant : Type 0
HirConstant = BytecodeConstant

pub data MirInstructionKind : Type 0 where
  constant function_reference closure load_capture store_capture move : MirInstructionKind
  negate not add subtract multiply divide remainder : MirInstructionKind
  equal not_equal less less_equal greater greater_equal : MirInstructionKind
  call call_indirect call_native load_member bind_method : MirInstructionKind
  make_array make_object make_instance load_index store_index store_member : MirInstructionKind

pub data MirCaptureKind : Type 0 where
  local capture : MirCaptureKind

pub record MirCaptureSource : Type 0 where
  pub kind : MirCaptureKind
  pub index : ℕ

pub record MirInstruction : Type 0 where
  pub kind : MirInstructionKind
  pub destination : ℕ
  pub first : ℕ
  pub second : ℕ
  pub constant : HirConstant
  pub span : SourceSpan
  pub function : ℕ
  pub arguments : List ℕ
  pub capture : ℕ
  pub capture_sources : List MirCaptureSource
  pub names : List String

-- `MirTerminator::Node`.
pub data MirTerminatorNode : Type 0 where
  return : ℕ → MirTerminatorNode
  goto : ℕ → MirTerminatorNode
  branch : ℕ → ℕ → ℕ → MirTerminatorNode
  throw : ℕ → MirTerminatorNode

pub record MirTerminator : Type 0 where
  pub node : MirTerminatorNode
  pub span : SourceSpan

pub record MirExceptionRegion : Type 0 where
  pub protected_blocks : List ℕ
  pub handler : ℕ
  pub error_destination : ℕ

pub record MirBasicBlock : Type 0 where
  pub instructions : List MirInstruction
  pub terminator : Option MirTerminator

pub record MirFunction : Type 0 where
  pub name : String
  pub parameter_count : ℕ
  pub temporary_count : ℕ
  pub entry_block : ℕ
  pub blocks : List MirBasicBlock
  pub exception_regions : List MirExceptionRegion
  pub span : SourceSpan
  pub captures : List ℕ

pub record MirClassMethod : Type 0 where
  pub name : String
  pub function : ℕ

pub record MirClass : Type 0 where
  pub name : String
  pub parent : Option ℕ
  pub fields : List String
  pub methods : List MirClassMethod
  pub constructor : Option ℕ

pub record MirProgram : Type 0 where
  pub name : String
  pub temporary_count : ℕ
  pub entry_block : ℕ
  pub blocks : List MirBasicBlock
  pub exception_regions : List MirExceptionRegion
  pub functions : List MirFunction
  pub classes : List MirClass
