-- ===== src/Bytecode/Program.antt =====
-- compiler/kyna_bytecode/include/kyna/bytecode/bytecode_module.hpp: bytecode modules. A `std::uint32_t`
-- is a number; no function here computes with one, so none wraps around.
use kyna.Base.{ℕ, Bool, List, Option, String}
use kyna.Base.Int.{ℤ}
use kyna.Diagnostics.{SourceSpan}

-- `BytecodeConstant`. A `double` stands as its bit pattern.
pub data BytecodeConstant : Type 0 where
  null : BytecodeConstant
  boolean : Bool → BytecodeConstant
  integer : ℤ → BytecodeConstant
  floating : ℕ → BytecodeConstant
  string : String → BytecodeConstant
  character : ℕ → BytecodeConstant

pub data OpCode : Type 0 where
  load_constant load_null load_function make_closure load_capture store_capture : OpCode
  move negate not add subtract multiply : OpCode
  divide remainder equal not_equal less less_equal : OpCode
  greater greater_equal jump jump_if_false call call_indirect : OpCode
  call_native load_member bind_method make_array make_object make_instance : OpCode
  load_index store_index store_member throw return : OpCode

pub record BytecodeInstruction : Type 0 where
  pub opcode : OpCode
  pub destination : ℕ
  pub first : ℕ
  pub second : ℕ
  pub span : SourceSpan

pub record ExceptionHandler : Type 0 where
  pub first_instruction : ℕ
  pub instruction_count : ℕ
  pub handler_instruction : ℕ
  pub error_register : ℕ

pub record BytecodeFunction : Type 0 where
  pub name : String
  pub register_count : ℕ
  pub instructions : List BytecodeInstruction
  pub parameter_count : ℕ
  pub capture_count : ℕ
  pub exception_handlers : List ExceptionHandler

pub data CaptureKind : Type 0 where
  local capture : CaptureKind

pub record BytecodeCaptureSource : Type 0 where
  pub kind : CaptureKind
  pub index : ℕ

pub record BytecodeClassMethod : Type 0 where
  pub name : String
  pub function : ℕ

pub record BytecodeClass : Type 0 where
  pub name : String
  pub parent : Option ℕ
  pub fields : List String
  pub methods : List BytecodeClassMethod
  pub constructor : Option ℕ

pub record BytecodeModule : Type 0 where
  pub format_version : ℕ
  pub name : String
  pub constants : List BytecodeConstant
  pub call_arguments : List (List ℕ)
  pub native_functions : List String
  pub object_field_names : List (List String)
  pub closure_captures : List (List BytecodeCaptureSource)
  pub functions : List BytecodeFunction
  pub classes : List BytecodeClass
  pub entry_function : ℕ

-- `BytecodeModule::FormatVersion`.
abbrev pub current_version : ℕ
current_version = 7
