-- ===== src/Vm/Step/Members.antt =====
-- runtime/kyna_vm/src/execution/bytecode_virtual_machine.cpp: the cases on members, elements and
-- collections.
use kyna.Base.{
  ℕ, List, [], ◌∷◌, ◌++◌, Option, none, some, String, length, get_elem?, if◌then◌else◌, concat,
  str_eq, ◌>>=◌,
}
use kyna.Bytecode.Program.{BytecodeConstant, BytecodeInstruction, BytecodeModule}
use kyna.Vm.Value.{RuntimeValue, ErrorObject, Platform}
use kyna.Vm.Value.Display.{type_name}
use kyna.Vm.Machine.{Machine, Step, read, read_all, raise}
use kyna.Vm.Lookup.{find_method, find_field, enough}
use kyna.Vm.Step.Values.{result}

-- `std::get<std::string>`.
unfoldable pub text_of : BytecodeConstant → Option String
text_of (BytecodeConstant.string s) = some s
text_of _ = none

-- `insert_or_assign`.
unfoldable pub assign :
    String → RuntimeValue → List (String × RuntimeValue) → List (String × RuntimeValue)
assign name v [] = (name, v) ∷ []
assign name v ((field, w) ∷ fields) =
    let rest = assign name v fields in
    if str_eq field name then (field, v) ∷ fields else (field, w) ∷ rest

unfoldable pub assign_all :
    List (String × RuntimeValue)
    → List String
    → List RuntimeValue
    → Option (List (String × RuntimeValue))
assign_all fields [] values = some fields
assign_all fields (name ∷ names) [] = none
assign_all fields (name ∷ names) (v ∷ values) = assign_all (assign name v fields) names values

-- `heap.allocateBoundMethod` and the value that leads to it.
unfoldable pub bind_method_to : BytecodeInstruction → ℕ → ℕ → Machine → Option Step
bind_method_to i receiver function s =
    result i (RuntimeValue.bound_method (length s.heap.bound_methods)) (record s {
      heap = record s.heap {
        bound_methods =
            s.heap.bound_methods ++ record { receiver = receiver; function = function } ∷ [];
      };
    })

module _ (m : BytecodeModule) (p : Platform) where
  unfoldable pub no_member : BytecodeInstruction → RuntimeValue → String → Machine → Option Step
  no_member i v member s =
      raise m p "KRT2002" (concat ("object has no member '" ∷ member ∷ "'" ∷ [])) i.span v s

  -- The method that is found is bound to the object.
  unfoldable pub found_method : BytecodeInstruction → ℕ → String → Machine → Option ℕ → Option Step
  found_method i a member s none = no_member i (RuntimeValue.object a) member s
  found_method i a member s (some function) = bind_method_to i a function s

  unfoldable pub member_method : BytecodeInstruction → ℕ → String → Machine → Option ℕ → Option Step
  member_method i a member s none = no_member i (RuntimeValue.object a) member s
  member_method i a member s (some index) = do
    found ← find_method m (enough m) member (some index)
    found_method i a member s found

  unfoldable pub object_member :
      BytecodeInstruction → ℕ → String → Machine → Option ℕ → Option RuntimeValue → Option Step
  object_member i a member s klass (some v) = result i v s
  object_member i a member s klass none = member_method i a member s klass

  unfoldable pub error_member :
      BytecodeInstruction → ℕ → String → Machine → ErrorObject → Option Step
  error_member i a member s e =
      if str_eq member "message"
      then result i (RuntimeValue.string e.message) s
      else if str_eq member "code"
      then result i (RuntimeValue.string e.code) s
      else if str_eq member "cause"
      then result i e.cause s
      else raise m p "KVM2302" (concat ("Error has no member '" ∷ member ∷ "'" ∷ [])) i.span
          (RuntimeValue.error a) s

  unfoldable pub member_of : BytecodeInstruction → String → Machine → RuntimeValue → Option Step
  member_of i member s (RuntimeValue.object a) = do
    o ← get_elem? s.heap.objects a
    object_member i a member s o.vm_class (find_field member o.fields)
  member_of i member s (RuntimeValue.error a) = do
    e ← get_elem? s.heap.errors a
    error_member i a member s e
  member_of i member s v =
      raise m p "KVM2020"
        (concat ("value of type '" ∷ type_name s.heap v ∷ "' has no member '" ∷ member ∷ "'" ∷ []))
        i.span v s

  unfoldable pub load_member : BytecodeInstruction → Machine → Option Step
  load_member i s = do
    v ← read s i.first
    constant ← get_elem? m.constants i.second
    member ← text_of constant
    member_of i member s v

  unfoldable pub bind_value : BytecodeInstruction → Machine → RuntimeValue → Option Step
  bind_value i s (RuntimeValue.object a) = bind_method_to i a i.second s
  bind_value i s v =
      raise m p "KVM2203"
        (concat ("method receiver must be an object, got '" ∷ type_name s.heap v ∷ "'" ∷ [])) i.span
        v s

  unfoldable pub bind_method : BytecodeInstruction → Machine → Option Step
  bind_method i s = do v ← read s i.first; bind_value i s v

  unfoldable pub make_array : BytecodeInstruction → Machine → Option Step
  make_array i s = do
    elements ← get_elem? m.call_arguments i.first
    values ← read_all s elements
    result i (RuntimeValue.array (length s.heap.arrays))
        (record s { heap = record s.heap { arrays = s.heap.arrays ++ values ∷ [] } })

  unfoldable pub make_object : BytecodeInstruction → Machine → Option Step
  make_object i s = do
    elements ← get_elem? m.call_arguments i.first
    names ← get_elem? m.object_field_names i.second
    values ← read_all s elements
    fields ← assign_all [] names values
    result i (RuntimeValue.object (length s.heap.objects)) (record s {
      heap = record s.heap {
        objects =
            s.heap.objects ++ record { fields = fields; vm_class = none; vm_class_name = "" } ∷ [];
      };
    })
