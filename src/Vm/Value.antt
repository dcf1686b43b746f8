-- ===== src/Vm/Value.antt =====
-- runtime/kyna_vm: values and the objects that they lead to (runtime_object_model.hpp,
-- tracing_heap.hpp). A pointer is the index of the object among those of its kind. A `double` stands as
-- its bit pattern. Functions, classes and modules of the tree-walking evaluator have no values here.
pub mod Display
use kyna.Base.{ℕ, Bool, List, [], Option, String}
use kyna.Base.Int.{ℤ}
use kyna.Bytecode.Program.{BytecodeConstant, OpCode}

pub data RuntimeValue : Type 0 where
  null : RuntimeValue
  boolean : Bool → RuntimeValue
  integer : ℤ → RuntimeValue
  floating : ℕ → RuntimeValue
  string : String → RuntimeValue
  character : ℕ → RuntimeValue
  object : ℕ → RuntimeValue
  array : ℕ → RuntimeValue
  function_reference : ℕ → RuntimeValue
  closure : ℕ → RuntimeValue
  bound_method : ℕ → RuntimeValue
  error : ℕ → RuntimeValue

-- The fields by name, in no order that the machine looks at.
pub record Object : Type 0 where
  pub fields : List (String × RuntimeValue)
  pub vm_class : Option ℕ
  pub vm_class_name : String

pub record VmClosure : Type 0 where
  pub function : ℕ
  pub captures : List ℕ

pub record VmBoundMethod : Type 0 where
  pub receiver : ℕ
  pub function : ℕ

pub record ErrorObject : Type 0 where
  pub message : String
  pub code : String
  pub cause : RuntimeValue

-- `Heap`, the objects of each kind.
pub record Heap : Type 0 where
  pub objects : List Object
  pub arrays : List (List RuntimeValue)
  pub cells : List RuntimeValue
  pub closures : List VmClosure
  pub bound_methods : List VmBoundMethod
  pub errors : List ErrorObject

abbrev pub empty_heap : Heap
empty_heap = record {
  objects = [];
  arrays = [];
  cells = [];
  closures = [];
  bound_methods = [];
  errors = [];
}

-- `bytecodeConstantValue`.
unfoldable pub constant_value : BytecodeConstant → RuntimeValue
constant_value BytecodeConstant.null = RuntimeValue.null
constant_value (BytecodeConstant.boolean b) = RuntimeValue.boolean b
constant_value (BytecodeConstant.integer x) = RuntimeValue.integer x
constant_value (BytecodeConstant.floating x) = RuntimeValue.floating x
constant_value (BytecodeConstant.string s) = RuntimeValue.string s
constant_value (BytecodeConstant.character c) = RuntimeValue.character c

-- What a native function returns: a value, or a failure with its code, message and cause.
pub data NativeResult : Type 0 where
  value : RuntimeValue → NativeResult
  failure : String → String → RuntimeValue → NativeResult

-- `BytecodeNativeAdapter`, one that calls no function back.
abbrev pub NativeAdapter : Type 0
NativeAdapter = String → List RuntimeValue → Heap → NativeResult × Heap

-- What the machine uses and the sources do not define: arithmetic on `double`, the names of opcodes,
-- which the build generates, and the native functions.
pub record Platform : Type 0 where
  pub of_integer : ℤ → ℕ
  pub negate : ℕ → ℕ
  pub add : ℕ → ℕ → ℕ
  pub subtract : ℕ → ℕ → ℕ
  pub multiply : ℕ → ℕ → ℕ
  pub divide : ℕ → ℕ → ℕ
  pub is_zero : ℕ → Bool
  pub equal : ℕ → ℕ → Bool
  pub less : ℕ → ℕ → Bool
  pub less_equal : ℕ → ℕ → Bool
  pub show : ℕ → String
  pub opcode_name : OpCode → String
  pub natives : Option NativeAdapter
