-- ===== src/Vm/Step/Calls.antt =====
-- runtime/kyna_vm/src/execution/bytecode_virtual_machine.cpp: the cases of `Call`, `CallIndirect`,
-- `CallNative` and `MakeInstance`.
use kyna.Base.{
  ℕ, suc, ◌+◌, ◌-◌, List, [], ◌∷◌, ◌++◌, Option, none, some, String, length, get_elem?, replicate,
  leb, ◌==◌, if◌then◌else◌, concat, to_string, ◌>>=◌,
}
use kyna.Bytecode.Program.{BytecodeInstruction, BytecodeFunction, BytecodeClass, BytecodeModule}
use kyna.Vm.Value.{RuntimeValue, NativeResult, NativeAdapter, Heap, Platform}
use kyna.Vm.Value.Display.{type_name}
use kyna.Vm.Machine.{Machine, Step, read, read_all, put, raise}
use kyna.Vm.Lookup.{find_constructor, initialize_fields, enough}
use kyna.Vm.Step.Values.{result}

abbrev pub maximum_call_frames : ℕ
maximum_call_frames = 4096

-- `registers[index + offset] = values[index]` for each value.
unfoldable pub place : ℕ → List RuntimeValue → List RuntimeValue → Option (List RuntimeValue)
place offset [] registers = some registers
place offset (v ∷ values) registers = do
  registers' ← put registers offset v
  place (offset + 1) values registers'

-- What is called: a function, the cells that its closure holds, and the receiver of a bound method.
pub record Callee : Type 0 where
  pub function : ℕ
  pub captures : List ℕ
  pub receiver : Option ℕ

-- The arguments behind the receiver, if there is one.
unfoldable pub with_receiver : Option ℕ → List RuntimeValue → List RuntimeValue
with_receiver none values = values
with_receiver (some receiver) values = RuntimeValue.object receiver ∷ values

-- The frame of a call and the instruction behind the call in the frame that called.
unfoldable pub push :
    BytecodeInstruction
    → BytecodeFunction
    → Callee
    → Option RuntimeValue
    → List RuntimeValue
    → Machine
    → Option Step
push i function callee override values s = do
  registers ← place 0 values (replicate function.register_count RuntimeValue.null)
  some (
      Step.running (record {
        frame = record {
          function = callee.function;
          registers = registers;
          instruction_pointer = 0;
          return_destination = some i.destination;
          return_override = override;
          call_site = i.span;
          captures = callee.captures;
          register_cells = replicate function.register_count none;
        };
        callers =
            record s.frame { instruction_pointer = s.frame.instruction_pointer + 1 } ∷ s.callers;
        heap = s.heap;
      }))

-- `frames.size()`.
abbrev pub depth : Machine → ℕ
depth s = suc (length s.callers)

module _ (m : BytecodeModule) (p : Platform) where
  -- The end of a call whose arguments fit.
  unfoldable pub enter :
      BytecodeInstruction → BytecodeFunction → Callee → List ℕ → Machine → Option Step
  enter i function callee arguments s =
      if leb maximum_call_frames (depth s)
      then raise m p "KVM2004"
          (concat (
            "maximum call depth of "
            ∷ to_string maximum_call_frames
            ∷ " exceeded while calling '"
            ∷ function.name
            ∷ "'"
            ∷ []))
          i.span RuntimeValue.null s
      else do
        values ← read_all s arguments
        push i function callee none (with_receiver callee.receiver values) s

  unfoldable pub supplied : Option ℕ → List ℕ → ℕ
  supplied none arguments = length arguments
  supplied (some receiver) arguments = length arguments + 1

  unfoldable pub call_function : BytecodeInstruction → Machine → Callee → Option Step
  call_function i s callee = do
    function ← get_elem? m.functions callee.function
    arguments ← get_elem? m.call_arguments i.second
    if supplied callee.receiver arguments == function.parameter_count
        then enter i function callee arguments s
        else raise m p "KVM2011"
            (concat (
              "function '"
              ∷ function.name
              ∷ "' expects "
              ∷ to_string function.parameter_count
              ∷ " argument(s), but "
              ∷ to_string (supplied callee.receiver arguments)
              ∷ " were provided"
              ∷ []))
            i.span RuntimeValue.null s

  unfoldable pub call : BytecodeInstruction → Machine → Option Step
  call i s = call_function i s (record { function = i.first; captures = []; receiver = none })

  unfoldable pub call_value : BytecodeInstruction → Machine → RuntimeValue → Option Step
  call_value i s (RuntimeValue.function_reference f) =
      call_function i s (record { function = f; captures = []; receiver = none })
  call_value i s (RuntimeValue.closure a) = do
    closure ← get_elem? s.heap.closures a
    call_function i s
        (record { function = closure.function; captures = closure.captures; receiver = none })
  call_value i s (RuntimeValue.bound_method a) = do
    method ← get_elem? s.heap.bound_methods a
    call_function i s
        (record { function = method.function; captures = []; receiver = some method.receiver })
  call_value i s v =
      raise m p "KVM2010"
        (concat ("value of type '" ∷ type_name s.heap v ∷ "' is not callable" ∷ [])) i.span v s

  unfoldable pub call_indirect : BytecodeInstruction → Machine → Option Step
  call_indirect i s = do v ← read s i.first; call_value i s v

  -- The result of a native function, on the heap that it leaves.
  unfoldable pub native_result : BytecodeInstruction → Machine → NativeResult → Option Step
  native_result i s (NativeResult.value v) = result i v s
  native_result i s (NativeResult.failure code message cause) =
      raise m p code message i.span cause s

  unfoldable pub invoke_native :
      BytecodeInstruction → Machine → String → Option NativeAdapter → Option Step
  invoke_native i s name none =
      raise m p "KVM2021"
        (concat
          ("native function '" ∷ name ∷ "' is unavailable in this execution environment" ∷ []))
        i.span RuntimeValue.null s
  invoke_native i s name (some adapter) = do
    arguments ← get_elem? m.call_arguments i.second
    values ← read_all s arguments
    let r : NativeResult × Heap = adapter name values s.heap
    native_result i (record s { heap = r.1 }) r.0

  unfoldable pub call_native : BytecodeInstruction → Machine → Option Step
  call_native i s = do name ← get_elem? m.native_functions i.first; invoke_native i s name p.natives

  -- The case of a class without a constructor.
  unfoldable pub plain_instance :
      BytecodeInstruction → BytecodeClass → ℕ → List ℕ → Machine → Option Step
  plain_instance i klass instance [] s = result i (RuntimeValue.object instance) s
  plain_instance i klass instance (a ∷ arguments) s =
      raise m p "KVM2201"
        (concat (
          "class '"
          ∷ klass.name
          ∷ "' has no constructor but received "
          ∷ to_string (length (a ∷ arguments))
          ∷ " argument(s)"
          ∷ []))
        i.span (RuntimeValue.object instance) s

  unfoldable pub enter_constructor :
      BytecodeInstruction
      → BytecodeClass
      → ℕ
      → List ℕ
      → Machine
      → ℕ
      → BytecodeFunction
      → Option Step
  enter_constructor i klass instance arguments s index constructor =
      if leb maximum_call_frames (depth s)
      then raise m p "KVM2004"
          (concat (
            "maximum call depth of "
            ∷ to_string maximum_call_frames
            ∷ " exceeded while constructing '"
            ∷ klass.name
            ∷ "'"
            ∷ []))
          i.span (RuntimeValue.object instance) s
      else do
        values ← read_all s arguments
        push i constructor (record { function = index; captures = []; receiver = some instance })
            (some (RuntimeValue.object instance)) (RuntimeValue.object instance ∷ values) s

  unfoldable pub construct :
      BytecodeInstruction → BytecodeClass → ℕ → List ℕ → Machine → Option ℕ → Option Step
  construct i klass instance arguments s none = plain_instance i klass instance arguments s
  construct i klass instance arguments s (some index) = do
    constructor ← get_elem? m.functions index
    if constructor.parameter_count == length arguments + 1
        then enter_constructor i klass instance arguments s index constructor
        else raise m p "KVM2202"
            (concat (
              "constructor for '"
              ∷ klass.name
              ∷ "' expects "
              ∷ to_string (constructor.parameter_count - 1)
              ∷ " argument(s), but "
              ∷ to_string (length arguments)
              ∷ " were provided"
              ∷ []))
            i.span (RuntimeValue.object instance) s

  unfoldable pub make_instance : BytecodeInstruction → Machine → Option Step
  make_instance i s = do
    klass ← get_elem? m.classes i.first
    fields ← initialize_fields m (enough m) [] (some i.first)
    arguments ← get_elem? m.call_arguments i.second
    constructor ← find_constructor m (enough m) (some i.first)
    construct i klass (length s.heap.objects) arguments
        (record s {
          heap = record s.heap {
            objects =
                s.heap.objects
                ++ (record { fields = fields; vm_class = some i.first; vm_class_name = klass.name }
                    ∷ []);
          };
        })
        constructor
