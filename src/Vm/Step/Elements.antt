-- ===== src/Vm/Step/Elements.antt =====
-- runtime/kyna_vm/src/execution/bytecode_virtual_machine.cpp: the cases of `LoadIndex`, `StoreIndex` and
-- `StoreMember`.
use kyna.Base.{
  ℕ, List, [], ◌∷◌, Option, none, some, String, length, get_elem?, leb, if◌then◌else◌, concat,
  to_string, ◌>>=◌,
}
use kyna.Base.Int.{ℤ, pos, negsuc}
use kyna.Bytecode.Program.{BytecodeInstruction, BytecodeModule}
use kyna.Vm.Value.{RuntimeValue, Object, Platform}
use kyna.Vm.Value.Display.{type_name, integer_text}
use kyna.Vm.Machine.{Machine, Step, read, put, raise}
use kyna.Vm.Lookup.{find_field}
use kyna.Vm.Step.Values.{result}
use kyna.Vm.Step.Members.{text_of, assign}

module _ (m : BytecodeModule) (p : Platform) where
  unfoldable pub index_type : String → BytecodeInstruction → RuntimeValue → Machine → Option Step
  index_type what i index s =
      raise m p "KRT2103" (concat (what ∷ type_name s.heap index ∷ "'" ∷ [])) i.span index s

  unfoldable pub out_of_bounds : BytecodeInstruction → ℤ → ℕ → Machine → Option Step
  out_of_bounds i position size s =
      raise m p "KRT2104"
        (concat (
          "array index "
          ∷ integer_text position
          ∷ " is out of bounds for length "
          ∷ to_string size
          ∷ []))
        i.span (RuntimeValue.integer position) s

  unfoldable pub load_element :
      BytecodeInstruction → List RuntimeValue → Machine → RuntimeValue → Option Step
  load_element i elements s (RuntimeValue.integer (pos n)) =
      if leb (length elements) n
      then out_of_bounds i (pos n) (length elements) s
      else do v ← get_elem? elements n; result i v s
  load_element i elements s (RuntimeValue.integer (negsuc n)) =
      out_of_bounds i (negsuc n) (length elements) s
  load_element i elements s index = index_type "array index must be an integer, got '" i index s

  unfoldable pub found_field :
      String → String → BytecodeInstruction → String → Machine → Option RuntimeValue → Option Step
  found_field before behind i key s (some v) = result i v s
  found_field before behind i key s none =
      raise m p "KRT2105" (concat (before ∷ key ∷ behind ∷ [])) i.span (RuntimeValue.string key) s

  unfoldable pub load_field : BytecodeInstruction → Object → Machine → RuntimeValue → Option Step
  load_field i o s (RuntimeValue.string key) =
      found_field "object has no field '" "'" i key s (find_field key o.fields)
  load_field i o s index = index_type "object key must be a string, got '" i index s

  unfoldable pub index_value :
      BytecodeInstruction → Machine → RuntimeValue → RuntimeValue → Option Step
  index_value i s RuntimeValue.null index =
      raise m p "KRT2101" "cannot index null" i.span RuntimeValue.null s
  index_value i s (RuntimeValue.array a) index = do
    elements ← get_elem? s.heap.arrays a
    load_element i elements s index
  index_value i s (RuntimeValue.object a) index = do
    o ← get_elem? s.heap.objects a
    load_field i o s index
  index_value i s v index =
      raise m p "KRT2102" (concat ("cannot index value of type '" ∷ type_name s.heap v ∷ "'" ∷ []))
        i.span v s

  unfoldable pub load_index : BytecodeInstruction → Machine → Option Step
  load_index i s = do v ← read s i.first; index ← read s i.second; index_value i s v index

  -- `elements[position] = value`, for an array of the heap.
  unfoldable pub store_at :
      BytecodeInstruction → ℕ → List RuntimeValue → Machine → RuntimeValue → ℕ → Option Step
  store_at i a elements s v n = do
    elements' ← put elements n v
    arrays ← put s.heap.arrays a elements'
    result i v (record s { heap = record s.heap { arrays = arrays } })

  unfoldable pub store_element :
      BytecodeInstruction
      → ℕ
      → List RuntimeValue
      → Machine
      → RuntimeValue
      → RuntimeValue
      → Option Step
  store_element i a elements s v (RuntimeValue.integer (pos n)) =
      if leb (length elements) n
      then out_of_bounds i (pos n) (length elements) s
      else store_at i a elements s v n
  store_element i a elements s v (RuntimeValue.integer (negsuc n)) =
      out_of_bounds i (negsuc n) (length elements) s
  store_element i a elements s v index =
      index_type "array index must be an integer, got '" i index s

  -- `found->second = value`, for a field of an object of the heap that was found.
  unfoldable pub store_found :
      BytecodeInstruction → ℕ → Object → String → Machine → RuntimeValue → Option Step
  store_found i a o key s v = do
    objects ← put s.heap.objects a (record o { fields = assign key v o.fields })
    result i v (record s { heap = record s.heap { objects = objects } })

  unfoldable pub store_field :
      String
      → RuntimeValue
      → BytecodeInstruction
      → ℕ
      → Object
      → String
      → Machine
      → RuntimeValue
      → Option RuntimeValue
      → Option Step
  store_field code cause i a o key s v (some w) = store_found i a o key s v
  store_field code cause i a o key s v none =
      raise m p code (concat ("unknown field '" ∷ key ∷ "' on closed object" ∷ [])) i.span cause s

  unfoldable pub store_key :
      BytecodeInstruction → ℕ → Object → Machine → RuntimeValue → RuntimeValue → Option Step
  store_key i a o s v (RuntimeValue.string key) =
      store_field "KRT2105" (RuntimeValue.string key) i a o key s v (find_field key o.fields)
  store_key i a o s v index = index_type "object key must be a string, got '" i index s

  unfoldable pub store_value :
      BytecodeInstruction → Machine → RuntimeValue → RuntimeValue → RuntimeValue → Option Step
  store_value i s (RuntimeValue.array a) index v = do
    elements ← get_elem? s.heap.arrays a
    store_element i a elements s v index
  store_value i s (RuntimeValue.object a) index v = do
    o ← get_elem? s.heap.objects a
    store_key i a o s v index
  store_value i s target index v =
      raise m p "KRT2102"
        (concat ("cannot assign through value of type '" ∷ type_name s.heap target ∷ "'" ∷ []))
        i.span target s

  unfoldable pub read_operand : Machine → List ℕ → ℕ → Option RuntimeValue
  read_operand s operands k = do index ← get_elem? operands k; read s index

  unfoldable pub store_index : BytecodeInstruction → Machine → Option Step
  store_index i s = do
    operands ← get_elem? m.call_arguments i.first
    target ← read_operand s operands 0
    index ← read_operand s operands 1
    v ← read_operand s operands 2
    store_value i s target index v

  unfoldable pub store_in :
      BytecodeInstruction → Machine → String → RuntimeValue → RuntimeValue → Option Step
  store_in i s member (RuntimeValue.object a) v = do
    o ← get_elem? s.heap.objects a
    store_field "KRT2004" (RuntimeValue.object a) i a o member s v (find_field member o.fields)
  store_in i s member target v =
      raise m p "KRT2003"
        (concat
          ("member assignment requires an object, got '" ∷ type_name s.heap target ∷ "'" ∷ []))
        i.span target s

  unfoldable pub store_member : BytecodeInstruction → Machine → Option Step
  store_member i s = do
    operands ← get_elem? m.call_arguments i.first
    target ← read_operand s operands 0
    v ← read_operand s operands 1
    constant ← get_elem? m.constants i.second
    member ← text_of constant
    store_in i s member target v
