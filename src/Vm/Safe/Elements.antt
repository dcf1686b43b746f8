-- ===== src/Vm/Safe/Elements.antt =====
-- runtime/kyna_vm/src/execution/bytecode_virtual_machine.cpp: the cases of `LoadIndex`, `StoreIndex` and
-- `StoreMember` on a valid module.
use kyna.Base.{
  ℕ, ◌<◌, ◌≡◌, refl, List, Option, none, some, String, arith, length, All, All-set, leb, Each,
  nothing, just, Yields, bind-Yields, Yields-eq, Yields-if,
}
use kyna.Base.Int.{ℤ, pos, negsuc}
use kyna.Bytecode.Program.{BytecodeInstruction, BytecodeFunction, BytecodeModule}
use kyna.Bytecode.Valid.{InRegister, IsName, ValidStore, ValidModule}
use kyna.Vm.Value.{RuntimeValue, Object, Platform}
use kyna.Vm.Machine.{Machine}
use kyna.Vm.Step.Elements
use kyna.Vm.Step.Members.{assign}
use kyna.Vm.Safe.Fits.{ValueFits, ValueFits-mono, ObjectFits, Runs, StepFits}
use kyna.Vm.Safe.Heaps.{Runs-extend, objects-Extends, arrays-Extends, set-Sized}
use kyna.Vm.Safe.Registers.{get-Yields, put-Yields, read-Yields}
use kyna.Vm.Safe.Unwinding.{raise-Yields}
use kyna.Vm.Safe.Values.{More, result-Yields}
use kyna.Vm.Safe.Members.{find_field-Each, assign-Fits, name-Yields}

module _ (m : BytecodeModule) (p : Platform) (valid : ValidModule m) {f : BytecodeFunction}
    (i : BytecodeInstruction) (s : Machine) (r : Runs m f s) (more : More f s)
    (to : i.destination < f.register_count) where
  index_type-Yields :
      (what : String) (index : RuntimeValue)
      → ValueFits m s.heap index
      → Yields (StepFits m) (Elements.index_type m p what i index s)
  unfolding Elements.index_type
  index_type-Yields what index x = raise-Yields m valid p _ _ i.span index s r x

  out_of_bounds-Yields :
      (position : ℤ) (size : ℕ) → Yields (StepFits m) (Elements.out_of_bounds m p i position size s)
  unfolding Elements.out_of_bounds
  out_of_bounds-Yields position size =
      raise-Yields m valid p _ _ i.span (RuntimeValue.integer position) s r tt

  load_element-Yields :
      (elements : List RuntimeValue) (index : RuntimeValue)
      → All (ValueFits m s.heap) elements
      → ValueFits m s.heap index
      → Yields (StepFits m) (Elements.load_element m p i elements s index)
  unfolding Elements.load_element
  load_element-Yields elements (RuntimeValue.integer (pos n)) x y =
      Yields-if (leb (length elements) n) (λ _. out_of_bounds-Yields (pos n) (length elements))
        λ e.
          bind-Yields (get-Yields elements x (ground arith))
            λ v z. result-Yields m i v s r more to z
  load_element-Yields elements (RuntimeValue.integer (negsuc n)) x y =
      out_of_bounds-Yields (negsuc n) (length elements)
  load_element-Yields elements index x y = index_type-Yields _ index y

  found_field-Yields :
      (before behind key : String) (v : Option RuntimeValue)
      → Each (ValueFits m s.heap) v
      → Yields (StepFits m) (Elements.found_field m p before behind i key s v)
  unfolding Elements.found_field
  found_field-Yields before behind key _ nothing =
      raise-Yields m valid p _ _ i.span (RuntimeValue.string key) s r tt
  found_field-Yields before behind key _ (just x) = result-Yields m i _ s r more to x

  load_field-Yields :
      (o : Object) (index : RuntimeValue)
      → ObjectFits m s.heap o
      → ValueFits m s.heap index
      → Yields (StepFits m) (Elements.load_field m p i o s index)
  unfolding Elements.load_field
  load_field-Yields o (RuntimeValue.string key) x y =
      found_field-Yields _ _ key _ (find_field-Each m s.heap key o.fields x.fields)
  load_field-Yields o index x y = index_type-Yields _ index y

  index_value-Yields :
      (v index : RuntimeValue)
      → ValueFits m s.heap v
      → ValueFits m s.heap index
      → Yields (StepFits m) (Elements.index_value m p i s v index)
  unfolding Elements.index_value
  index_value-Yields RuntimeValue.null index x y =
      raise-Yields m valid p _ _ i.span RuntimeValue.null s r tt
  index_value-Yields (RuntimeValue.array a) index l y =
      bind-Yields (get-Yields s.heap.arrays r.heap.arrays l)
        λ elements x. load_element-Yields elements index x y
  index_value-Yields (RuntimeValue.object a) index l y =
      bind-Yields (get-Yields s.heap.objects r.heap.objects l) λ o x. load_field-Yields o index x y
  index_value-Yields v index x y = raise-Yields m valid p _ _ i.span v s r x

  pub load_index-Yields :
      InRegister m f i.first
      → InRegister m f i.second
      → Yields (StepFits m) (Elements.load_index m p i s)
  unfolding Elements.load_index
  load_index-Yields l k =
      bind-Yields (read-Yields m s r l)
        λ v x. bind-Yields (read-Yields m s r k) λ index y. index_value-Yields v index x y

  store_at-Yields :
      (a : ℕ) (elements : List RuntimeValue) (v : RuntimeValue) (n : ℕ)
      → a < length s.heap.arrays
      → n < length elements
      → All (ValueFits m s.heap) elements
      → ValueFits m s.heap v
      → Yields (StepFits m) (Elements.store_at m p i a elements s v n)
  unfolding Elements.store_at
  store_at-Yields a elements v n l k x y = bind-Yields (put-Yields elements v k) λ elements' e.
      bind-Yields (put-Yields s.heap.arrays elements' l) λ arrays e'.
        let grown =
          arrays-Extends m s.heap r.heap
            (set-Sized a _ r.heap.arrays (All-set (ValueFits m s.heap) elements n v x y)) in
        rw (e', e)
          (result-Yields m i v _ (Runs-extend m r grown) more to (ValueFits-mono m grown.grows v y))

  store_element-Yields :
      (a : ℕ) (elements : List RuntimeValue) (v index : RuntimeValue)
      → a < length s.heap.arrays
      → All (ValueFits m s.heap) elements
      → ValueFits m s.heap v
      → ValueFits m s.heap index
      → Yields (StepFits m) (Elements.store_element m p i a elements s v index)
  unfolding Elements.store_element
  store_element-Yields a elements v (RuntimeValue.integer (pos n)) l x y z =
      Yields-if (leb (length elements) n) (λ _. out_of_bounds-Yields (pos n) (length elements))
        λ e. store_at-Yields a elements v n l (ground arith) x y
  store_element-Yields a elements v (RuntimeValue.integer (negsuc n)) l x y z =
      out_of_bounds-Yields (negsuc n) (length elements)
  store_element-Yields a elements v index l x y z = index_type-Yields _ index z

  store_field-Yields :
      (code : String) (cause : RuntimeValue) (a : ℕ) (o : Object) (key : String) (v : RuntimeValue)
      (found : Option RuntimeValue)
      → a < length s.heap.objects
      → ObjectFits m s.heap o
      → ValueFits m s.heap v
      → ValueFits m s.heap cause
      → Yields (StepFits m) (Elements.store_field m p code cause i a o key s v found)
  unfolding Elements.store_field Elements.store_found
  store_field-Yields code cause a o key v none l x y z =
      raise-Yields m valid p code _ i.span cause s r z
  store_field-Yields code cause a o key v (some w) l x y z =
      bind-Yields (put-Yields s.heap.objects _ l) λ objects e.
        let stored : ObjectFits m s.heap (record o { fields = assign key v o.fields }) = record {
          fields = assign-Fits m s.heap key v o.fields y x.fields;
          vm_class = x.vm_class;
        } in
        let grown = objects-Extends m s.heap r.heap (set-Sized a _ r.heap.objects stored) in
        rw e
          (result-Yields m i v _ (Runs-extend m r grown) more to (ValueFits-mono m grown.grows v y))

  store_key-Yields :
      (a : ℕ) (o : Object) (v index : RuntimeValue)
      → a < length s.heap.objects
      → ObjectFits m s.heap o
      → ValueFits m s.heap v
      → ValueFits m s.heap index
      → Yields (StepFits m) (Elements.store_key m p i a o s v index)
  unfolding Elements.store_key
  store_key-Yields a o v (RuntimeValue.string key) l x y z =
      store_field-Yields _ (RuntimeValue.string key) a o key v _ l x y tt
  store_key-Yields a o v index l x y z = index_type-Yields _ index z

  store_value-Yields :
      (target index v : RuntimeValue)
      → ValueFits m s.heap target
      → ValueFits m s.heap index
      → ValueFits m s.heap v
      → Yields (StepFits m) (Elements.store_value m p i s target index v)
  unfolding Elements.store_value
  store_value-Yields (RuntimeValue.array a) index v l z y =
      bind-Yields (get-Yields s.heap.arrays r.heap.arrays l)
        λ elements x. store_element-Yields a elements v index l x y z
  store_value-Yields (RuntimeValue.object a) index v l z y =
      bind-Yields (get-Yields s.heap.objects r.heap.objects l)
        λ o x. store_key-Yields a o v index l x y z
  store_value-Yields target index v x z y = raise-Yields m valid p _ _ i.span target s r x

  store_in-Yields :
      (member : String) (target v : RuntimeValue)
      → ValueFits m s.heap target
      → ValueFits m s.heap v
      → Yields (StepFits m) (Elements.store_in m p i s member target v)
  unfolding Elements.store_in
  store_in-Yields member (RuntimeValue.object a) v l y =
      bind-Yields (get-Yields s.heap.objects r.heap.objects l)
        λ o x. store_field-Yields _ (RuntimeValue.object a) a o member v _ l x y l
  store_in-Yields member target v x y = raise-Yields m valid p _ _ i.span target s r x

  read_operand-Yields :
      (operands : List ℕ) (k : ℕ)
      → All (InRegister m f) operands
      → k < length operands
      → Yields (ValueFits m s.heap) (Elements.read_operand m p s operands k)
  unfolding Elements.read_operand
  read_operand-Yields operands k inside l =
      bind-Yields (get-Yields operands inside l) λ index x. read-Yields m s r x

  pub store_index-Yields :
      ValidStore m f 3 (Unit {0}) i → Yields (StepFits m) (Elements.store_index m p i s)
  unfolding Elements.store_index
  store_index-Yields (_, (operands, there, (count, (inside, _)))) =
      bind-Yields (Yields-eq {P = λ xs. xs ≡ operands} there refl) λ _ e. rw e (
        bind-Yields (read_operand-Yields operands 0 inside (omega (arith, count))) λ target x.
          bind-Yields (read_operand-Yields operands 1 inside (omega (arith, count))) λ index z.
            bind-Yields (read_operand-Yields operands 2 inside (omega (arith, count)))
              λ v y. store_value-Yields target index v x z y)

  pub store_member-Yields :
      ValidStore m f 2 (IsName m f i.second) i → Yields (StepFits m) (Elements.store_member m p i s)
  unfolding Elements.store_member
  store_member-Yields (_, (operands, there, (count, (inside, named)))) =
      bind-Yields (Yields-eq {P = λ xs. xs ≡ operands} there refl) λ _ e. rw e (
        bind-Yields (read_operand-Yields operands 0 inside (omega (arith, count))) λ target x.
          bind-Yields (read_operand-Yields operands 1 inside (omega (arith, count))) λ v y.
            bind-Yields (name-Yields m i.second named)
              λ c t. bind-Yields t λ member _. store_in-Yields member target v x y)
