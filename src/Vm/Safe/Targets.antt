-- ===== src/Vm/Safe/Targets.antt =====
-- runtime/kyna_vm/src/execution/bytecode_virtual_machine.cpp: functions that are run without captures, and
-- the searches along the parents of classes on a valid module.
use kyna.Base.{
  ℕ, zero, suc, ◌<◌, ◌≡◌, true, List, [], ◌∷◌, ◌++◌, Option, none, some, String, length, get_elem?,
  All, All-append, All-get_elem?, Each, nothing, just, Each-if, Yields, yields, bind-Yields, str_eq,
}
use kyna.Bytecode.Program.{
  OpCode, BytecodeInstruction, BytecodeClassMethod, BytecodeClass, BytecodeModule,
}
use kyna.Bytecode.Valid.{EachOf, ValidClass, ValidModule}
use kyna.Bytecode.Ancestors.{ends_within}
use kyna.Vm.Value.{RuntimeValue, Heap}
use kyna.Vm.Lookup.{
  method_named, or_else, find_method, find_constructor, find_field, emplace, emplace_all,
  initialize_fields, enough,
}
use kyna.Vm.Safe.Fits.{Uncaptured, ValueFits}
use kyna.Vm.Safe.Registers.{at-Yields}

-- What the instruction runs without captures has none.
abbrev pub DirectTarget : BytecodeModule → BytecodeInstruction → OpCode → Type 0
DirectTarget m i OpCode.load_function = Uncaptured m i.first
DirectTarget m i OpCode.call = Uncaptured m i.first
DirectTarget m i OpCode.bind_method = Uncaptured m i.second
DirectTarget m i _ = Unit

pub record ClosedClass (m : BytecodeModule) (klass : BytecodeClass) : Type 0 where
  pub constructor : Each (Uncaptured m) klass.constructor
  pub methods : All (λ method. Uncaptured m method.function) klass.methods

-- The entry function, the functions that instructions run without a closure, methods and constructors
-- capture nothing. The validator does not test it.
pub record ClosedTargets (m : BytecodeModule) : Type 0 where
  pub entry : Uncaptured m m.entry_function
  pub operations : All (λ f. All (λ i. DirectTarget m i i.opcode) f.instructions) m.functions
  pub classes : All (ClosedClass m) m.classes

module _ (m : BytecodeModule) (valid : ValidModule m) where
  parent_ends :
      (n cursor : ℕ) (klass : BytecodeClass)
      → get_elem? m.classes cursor ≡ some klass
      → ends_within (suc n) m.classes (some cursor) ≡ true
      → ends_within n m.classes klass.parent ≡ true
  unfolding ends_within
  parent_ends n cursor klass at e = rw (at, ends_within) at e

  parent_inside :
      (cursor : ℕ) (klass : BytecodeClass)
      → get_elem? m.classes cursor ≡ some klass
      → EachOf klass.parent (λ parent. parent < length m.classes)
  parent_inside cursor klass at =
      (All-get_elem? (ValidClass m) m.classes cursor klass valid.classes at).parent

  module _ (closed : ClosedTargets m) where
    closed_class :
        (cursor : ℕ) (klass : BytecodeClass)
        → get_elem? m.classes cursor ≡ some klass
        → ClosedClass m klass
    closed_class cursor klass at =
        All-get_elem? (ClosedClass m) m.classes cursor klass closed.classes at

    method_named-Each :
        (name : String) (methods : List BytecodeClassMethod)
        → All (λ method. Uncaptured m method.function) methods
        → Each (Uncaptured m) (method_named name methods)
    unfolding method_named
    method_named-Each name [] h = nothing
    method_named-Each name (method ∷ methods) h =
        Each-if (str_eq method.name name) (just h.0) (method_named-Each name methods h.1)

    or_else-Yields :
        (x : Option ℕ) {later : Option (Option ℕ)}
        → Each (Uncaptured m) x
        → Yields (Each (Uncaptured m)) later
        → Yields (Each (Uncaptured m)) (or_else x later)
    unfolding or_else
    or_else-Yields _ nothing y = y
    or_else-Yields _ (just x) y = yields (just x)

    find_method-Yields :
        (n : ℕ) (name : String) (cursor : Option ℕ)
        → EachOf cursor (λ c. c < length m.classes)
        → ends_within n m.classes cursor ≡ true
        → Yields (Each (Uncaptured m)) (find_method m n name cursor)
    unfolding find_method ends_within
    find_method-Yields n name none l e = yields nothing
    find_method-Yields zero name (some cursor) l e = absurd (cc)
    find_method-Yields (suc n) name (some cursor) l e =
        bind-Yields (at-Yields m.classes l) λ klass at.
          or_else-Yields _
            (method_named-Each name klass.methods (closed_class cursor klass at).methods)
            (find_method-Yields n name klass.parent (parent_inside cursor klass at)
              (parent_ends n cursor klass at e))

    find_constructor-Yields :
        (n : ℕ) (cursor : Option ℕ)
        → EachOf cursor (λ c. c < length m.classes)
        → ends_within n m.classes cursor ≡ true
        → Yields (Each (Uncaptured m)) (find_constructor m n cursor)
    unfolding find_constructor ends_within
    find_constructor-Yields n none l e = yields nothing
    find_constructor-Yields zero (some cursor) l e = absurd (cc)
    find_constructor-Yields (suc n) (some cursor) l e =
        bind-Yields (at-Yields m.classes l) λ klass at.
          or_else-Yields _ (closed_class cursor klass at).constructor (
            find_constructor-Yields n klass.parent (parent_inside cursor klass at)
              (parent_ends n cursor klass at e))

    -- The searches from a class of the module come to an end, and find functions without captures.
    pub method_found :
        (name : String) (index : ℕ)
        → index < length m.classes
        → Yields (Each (Uncaptured m)) (find_method m (enough m) name (some index))
    method_found name index l = find_method-Yields _ name (some index) l (valid.acyclic index l)

    pub constructor_found :
        (index : ℕ)
        → index < length m.classes
        → Yields (Each (Uncaptured m)) (find_constructor m (enough m) (some index))
    constructor_found index l = find_constructor-Yields _ (some index) l (valid.acyclic index l)

  -- Fields of values that fit.
  abbrev pub FieldsFit : Heap → List (String × RuntimeValue) → Type 0
  FieldsFit h = All λ field. ValueFits m h field.1

  emplace-Fits :
      (h : Heap) (fields : List (String × RuntimeValue)) (name : String)
      → FieldsFit h fields
      → FieldsFit h (emplace fields name)
  unfolding emplace
  emplace-Fits h fields name x = emplaced (find_field name fields)
    where
      emplaced :
          (found : Option RuntimeValue)
          → FieldsFit h
              (elim found [ none ↦ fields ++ (name, RuntimeValue.null) ∷ [] | some v ↦ fields ])
      emplaced none = All-append _ fields _ x (tt, tt)
      emplaced (some v) = x

  emplace_all-Fits :
      (h : Heap) (names : List String) (fields : List (String × RuntimeValue))
      → FieldsFit h fields
      → FieldsFit h (emplace_all fields names)
  unfolding emplace_all
  emplace_all-Fits h [] fields x = x
  emplace_all-Fits h (name ∷ names) fields x =
      emplace_all-Fits h names (emplace fields name) (emplace-Fits h fields name x)

  initialize_fields-Yields :
      (h : Heap) (n : ℕ) (fields : List (String × RuntimeValue)) (cursor : Option ℕ)
      → FieldsFit h fields
      → EachOf cursor (λ c. c < length m.classes)
      → ends_within n m.classes cursor ≡ true
      → Yields (FieldsFit h) (initialize_fields m n fields cursor)
  unfolding initialize_fields ends_within
  initialize_fields-Yields h n fields none x l e = yields x
  initialize_fields-Yields h zero fields (some cursor) x l e = absurd (cc)
  initialize_fields-Yields h (suc n) fields (some cursor) x l e =
      bind-Yields (at-Yields m.classes l) λ klass at.
        bind-Yields
          (initialize_fields-Yields h n fields klass.parent x (parent_inside cursor klass at)
            (parent_ends n cursor klass at e))
          λ inherited y. yields (emplace_all-Fits h klass.fields inherited y)

  pub fields_initialized :
      (h : Heap) (index : ℕ)
      → index < length m.classes
      → Yields (FieldsFit h) (initialize_fields m (enough m) [] (some index))
  fields_initialized h index l =
      initialize_fields-Yields h _ [] (some index) tt l (valid.acyclic index l)
