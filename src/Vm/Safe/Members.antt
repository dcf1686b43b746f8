-- ===== src/Vm/Safe/Members.antt =====
-- runtime/kyna_vm/src/execution/bytecode_virtual_machine.cpp: the cases of `LoadMember`, `BindMethod`,
-- `MakeArray` and `MakeObject` on a valid module.
use kyna.Base.{
  ℕ, ◌<◌, ◌≡◌, refl, List, [], ◌∷◌, Option, some, String, arith, length, get_elem?, All, All-if,
  str_eq, Each, nothing, just, Each-if, Yields, yields, bind-Yields, Yields-eq, Yields-if,
}
use kyna.Bytecode.Program.{BytecodeConstant, BytecodeInstruction, BytecodeFunction, BytecodeModule}
use kyna.Bytecode.Valid.{InRegister, IsName, ValidObject, ValidModule, Arguments}
use kyna.Vm.Value.{RuntimeValue, ErrorObject, Heap, Platform}
use kyna.Vm.Machine.{Machine}
use kyna.Vm.Lookup.{find_field}
use kyna.Vm.Step.Members
use kyna.Vm.Step.Members.{text_of, assign, assign_all, bind_method_to}
use kyna.Vm.Safe.Fits.{Uncaptured, ValueFits, Runs, StepFits}
use kyna.Vm.Safe.Heaps.{
  Runs-extend, objects-Extends, arrays-Extends, bound_methods-Extends, append-Sized, lt-append_last,
}
use kyna.Vm.Safe.Registers.{get-Yields, read-Yields, read_all-Yields}
use kyna.Vm.Safe.Unwinding.{raise-Yields}
use kyna.Vm.Safe.Values.{More, result-Yields}
use kyna.Vm.Safe.Targets.{ClosedTargets, method_found}

module _ (m : BytecodeModule) where
  pub find_field-Each :
      (h : Heap) (name : String) (fields : List (String × RuntimeValue))
      → All (λ field. ValueFits m h field.1) fields
      → Each (ValueFits m h) (find_field name fields)
  unfolding find_field
  find_field-Each h name [] x = nothing
  find_field-Each h name ((field, v) ∷ fields) x =
      Each-if (str_eq field name) (just x.0) (find_field-Each h name fields x.1)

  pub assign-Fits :
      (h : Heap) (name : String) (v : RuntimeValue) (fields : List (String × RuntimeValue))
      → ValueFits m h v
      → All (λ field. ValueFits m h field.1) fields
      → All (λ field. ValueFits m h field.1) (assign name v fields)
  unfolding assign
  assign-Fits h name v [] y x = (y, tt)
  assign-Fits h name v ((field, w) ∷ fields) y x =
      All-if (λ field. ValueFits m h field.1) (str_eq field name) ((field, v) ∷ fields)
        ((field, w) ∷ assign name v fields) (y, x.1) (x.0, assign-Fits h name v fields y x.1)

  assign_all-Yields :
      (h : Heap) (names : List String) (values : List RuntimeValue)
      (fields : List (String × RuntimeValue))
      → length names ≡ length values
      → All (ValueFits m h) values
      → All (λ field. ValueFits m h field.1) fields
      → Yields (All λ field. ValueFits m h field.1) (assign_all fields names values)
  unfolding assign_all
  assign_all-Yields h [] values fields e y x = yields x
  assign_all-Yields h (name ∷ names) [] fields e y x = absurd (omega arith)
  assign_all-Yields h (name ∷ names) (v ∷ values) fields e y x =
      assign_all-Yields h names values (assign name v fields) (omega arith) y.1
        (assign-Fits h name v fields y.0 x)

  -- The constant that a name is read from is a text.
  pub name-Yields :
      (index : ℕ)
      → ((s : String) × (get_elem? m.constants index ≡ some (BytecodeConstant.string s)))
      → Yields (λ c. Yields (λ _. Unit {0}) (text_of c)) (get_elem? m.constants index)
  unfolding text_of
  name-Yields index (s, at) = Yields-eq at (yields tt)

  bind_method_to-Yields :
      {f : BytecodeFunction} (i : BytecodeInstruction) (receiver function : ℕ) (s : Machine)
      → Runs m f s
      → More f s
      → i.destination < f.register_count
      → receiver < length s.heap.objects
      → Uncaptured m function
      → Yields (StepFits m) (bind_method_to i receiver function s)
  unfolding bind_method_to
  bind_method_to-Yields i receiver function s r more to l u =
      result-Yields m i _ _
        (Runs-extend m r (
          bound_methods-Extends m s.heap r.heap
            (append-Sized _ r.heap.bound_methods (record { receiver = l; function = u }))))
        more to (lt-append_last s.heap.bound_methods _)

module _ (m : BytecodeModule) (p : Platform) (valid : ValidModule m) (closed : ClosedTargets m)
    {f : BytecodeFunction} (i : BytecodeInstruction) (s : Machine) (r : Runs m f s)
    (more : More f s) (to : i.destination < f.register_count) where
  no_member-Yields :
      (v : RuntimeValue) (member : String)
      → ValueFits m s.heap v
      → Yields (StepFits m) (Members.no_member m p i v member s)
  unfolding Members.no_member
  no_member-Yields v member x = raise-Yields m valid p _ _ i.span v s r x

  found_method-Yields :
      (a : ℕ) (member : String) (found : Option ℕ)
      → a < length s.heap.objects
      → Each (Uncaptured m) found
      → Yields (StepFits m) (Members.found_method m p i a member s found)
  unfolding Members.found_method
  found_method-Yields a member _ l nothing = no_member-Yields (RuntimeValue.object a) member l
  found_method-Yields a member _ l (just u) = bind_method_to-Yields m i a _ s r more to l u

  member_method-Yields :
      (a : ℕ) (member : String) (klass : Option ℕ)
      → a < length s.heap.objects
      → Each (λ k. k < length m.classes) klass
      → Yields (StepFits m) (Members.member_method m p i a member s klass)
  unfolding Members.member_method
  member_method-Yields a member _ l nothing = no_member-Yields (RuntimeValue.object a) member l
  member_method-Yields a member _ l (just k) =
      bind-Yields (method_found m valid closed member _ k)
        λ found x. found_method-Yields a member found l x

  object_member-Yields :
      (a : ℕ) (member : String) (klass : Option ℕ) (v : Option RuntimeValue)
      → a < length s.heap.objects
      → Each (λ k. k < length m.classes) klass
      → Each (ValueFits m s.heap) v
      → Yields (StepFits m) (Members.object_member m p i a member s klass v)
  unfolding Members.object_member
  object_member-Yields a member klass _ l k nothing = member_method-Yields a member klass l k
  object_member-Yields a member klass _ l k (just x) = result-Yields m i _ s r more to x

  error_member-Yields :
      (a : ℕ) (member : String) (e : ErrorObject)
      → a < length s.heap.errors
      → ValueFits m s.heap e.cause
      → Yields (StepFits m) (Members.error_member m p i a member s e)
  unfolding Members.error_member
  error_member-Yields a member e l x =
      Yields-if (str_eq member "message") (λ _. result-Yields m i _ s r more to tt)
        λ _.
          Yields-if (str_eq member "code") (λ _. result-Yields m i _ s r more to tt)
            λ _.
              Yields-if (str_eq member "cause") (λ _. result-Yields m i _ s r more to x)
                λ _. raise-Yields m valid p _ _ i.span (RuntimeValue.error a) s r l

  member_of-Yields :
      (member : String) (v : RuntimeValue)
      → ValueFits m s.heap v
      → Yields (StepFits m) (Members.member_of m p i member s v)
  unfolding Members.member_of
  member_of-Yields member (RuntimeValue.object a) l =
      bind-Yields (get-Yields s.heap.objects r.heap.objects l) λ o x.
        object_member-Yields a member o.vm_class _ l x.vm_class
          (find_field-Each m s.heap member o.fields x.fields)
  member_of-Yields member (RuntimeValue.error a) l =
      bind-Yields (get-Yields s.heap.errors r.heap.errors l)
        λ e x. error_member-Yields a member e l x
  member_of-Yields member v x = raise-Yields m valid p _ _ i.span v s r x

  pub load_member-Yields :
      InRegister m f i.first
      → IsName m f i.second
      → Yields (StepFits m) (Members.load_member m p i s)
  unfolding Members.load_member
  load_member-Yields l n = bind-Yields (read-Yields m s r l) λ v x.
      bind-Yields (name-Yields m i.second n)
        λ c t. bind-Yields t λ member _. member_of-Yields member v x

  bind_value-Yields :
      (v : RuntimeValue)
      → ValueFits m s.heap v
      → Uncaptured m i.second
      → Yields (StepFits m) (Members.bind_value m p i s v)
  unfolding Members.bind_value
  bind_value-Yields (RuntimeValue.object a) l u =
      bind_method_to-Yields m i a i.second s r more to l u
  bind_value-Yields v x u = raise-Yields m valid p _ _ i.span v s r x

  pub bind_method-Yields :
      InRegister m f i.first
      → Uncaptured m i.second
      → Yields (StepFits m) (Members.bind_method m p i s)
  unfolding Members.bind_method
  bind_method-Yields l u = bind-Yields (read-Yields m s r l) λ v x. bind_value-Yields v x u

  pub make_array-Yields : Arguments m f i.first → Yields (StepFits m) (Members.make_array m p i s)
  unfolding Members.make_array
  make_array-Yields (elements, there, inside) =
      bind-Yields (Yields-eq {P = λ xs. xs ≡ elements} there refl) λ _ e. rw e (
        bind-Yields (read_all-Yields m s elements r inside) λ values y.
          result-Yields m i _ _
            (Runs-extend m r (arrays-Extends m s.heap r.heap (append-Sized _ r.heap.arrays y.0)))
            more to (lt-append_last s.heap.arrays _))

  pub make_object-Yields : ValidObject m f i → Yields (StepFits m) (Members.make_object m p i s)
  unfolding Members.make_object
  make_object-Yields (_, (elements, there, (inside, (names, named, count)))) =
      bind-Yields (Yields-eq {P = λ xs. xs ≡ elements} there refl) λ _ e.
        bind-Yields (Yields-eq {P = λ xs. xs ≡ names} named refl) λ _ e'.
          rw (e, e')
            (bind-Yields (read_all-Yields m s elements r inside) λ values y.
              bind-Yields
                (assign_all-Yields m s.heap names values [] (omega (arith, y.1, count)) y.0 tt)
                λ fields x.
                  result-Yields m i _ _
                    (Runs-extend m r (
                      objects-Extends m s.heap r.heap (
                        append-Sized _ r.heap.objects (record { fields = x; vm_class = nothing }))))
                    more to (lt-append_last s.heap.objects _))
