-- ===== src/Vm/Collection/Paths.antt =====
-- runtime/kyna_vm/src/memory/managed_heap.cpp: what leads to what in a heap, told from the objects of the heap alone
-- and not by the marking, and that the marking follows just these paths.
use kyna.Base.{
  subst, ℕ, ◌≡◌, refl, subst, List, [], ◌∷◌, Option, none, some, String, map, get_elem?,
}
use kyna.Vm.Value.{RuntimeValue, Object, VmClosure, VmBoundMethod, ErrorObject, Heap}
use kyna.Vm.Collection.{
  Reference, reference, object_values, array_values, cell_values, receiver_values, cause_values,
  captured, values_behind, cells_behind,
}
use kyna.Vm.Collection.Reach.{In, first, next, Led}

-- A value that is a pointer to an object of the heap.
pub data Refers : RuntimeValue → Reference → Type 0 where
  object : {a : ℕ} → Refers (RuntimeValue.object a) (Reference.object a)
  array : {a : ℕ} → Refers (RuntimeValue.array a) (Reference.array a)
  closure : {a : ℕ} → Refers (RuntimeValue.closure a) (Reference.closure a)
  bound_method : {a : ℕ} → Refers (RuntimeValue.bound_method a) (Reference.bound_method a)
  error : {a : ℕ} → Refers (RuntimeValue.error a) (Reference.error a)

-- An object holds a value: a field of an object, an element of an array, the value of a cell, the receiver of a
-- bound method, and the cause of an error.
pub data Holds (h : Heap) : Reference → RuntimeValue → Type 0 where
  field :
      {a : ℕ} {o : Object} {f : String × RuntimeValue}
      → get_elem? h.objects a ≡ some o
      → In f o.fields
      → Holds h (Reference.object a) f.1
  element :
      {a : ℕ} {elements : List RuntimeValue} {v : RuntimeValue}
      → get_elem? h.arrays a ≡ some elements
      → In v elements
      → Holds h (Reference.array a) v
  content : {a : ℕ} {v : RuntimeValue} → get_elem? h.cells a ≡ some v → Holds h (Reference.cell a) v
  receiver :
      {a : ℕ} {b : VmBoundMethod}
      → get_elem? h.bound_methods a ≡ some b
      → Holds h (Reference.bound_method a) (RuntimeValue.object b.receiver)
  cause :
      {a : ℕ} {e : ErrorObject}
      → get_elem? h.errors a ≡ some e
      → Holds h (Reference.error a) e.cause

-- A closure captures a cell.
pub data Captures (h : Heap) : Reference → ℕ → Type 0 where
  capture :
      {a k : ℕ} {c : VmClosure}
      → get_elem? h.closures a ≡ some c
      → In k c.captures
      → Captures h (Reference.closure a) k

-- The references that the roots lead to.
pub data Reachable (h : Heap) (values : List RuntimeValue) (cells : List ℕ)
    : Reference → Type 0 where
  root : {v : RuntimeValue} {r : Reference} → In v values → Refers v r → Reachable h values cells r
  root_cell : {c : ℕ} → In c cells → Reachable h values cells (Reference.cell c)
  value :
      {q r : Reference} {v : RuntimeValue}
      → Reachable h values cells q
      → Holds h q v
      → Refers v r
      → Reachable h values cells r
  cell :
      {q : Reference} {c : ℕ}
      → Reachable h values cells q
      → Captures h q c
      → Reachable h values cells (Reference.cell c)

some_same : {a b : Reference} → some a ≡ some b → a ≡ b
some_same e = cc

Refers-reference : {v : RuntimeValue} {r : Reference} → Refers v r → reference v ≡ some r
unfolding reference
Refers-reference Refers.object = refl
Refers-reference Refers.array = refl
Refers-reference Refers.closure = refl
Refers-reference Refers.bound_method = refl
Refers-reference Refers.error = refl

reference-Refers : (v : RuntimeValue) (r : Reference) → reference v ≡ some r → Refers v r
unfolding reference
reference-Refers (RuntimeValue.object a) r e =
    subst (Refers (RuntimeValue.object a)) (some_same e) Refers.object
reference-Refers (RuntimeValue.array a) r e =
    subst (Refers (RuntimeValue.array a)) (some_same e) Refers.array
reference-Refers (RuntimeValue.closure a) r e =
    subst (Refers (RuntimeValue.closure a)) (some_same e) Refers.closure
reference-Refers (RuntimeValue.bound_method a) r e =
    subst (Refers (RuntimeValue.bound_method a)) (some_same e) Refers.bound_method
reference-Refers (RuntimeValue.error a) r e =
    subst (Refers (RuntimeValue.error a)) (some_same e) Refers.error
reference-Refers _ r e = absurd (cc)

In-map :
    {f : String × RuntimeValue} {fs : List (String × RuntimeValue)}
    → In f fs
    → In f.1 (map (λ x. x.1) fs)
In-map first = first
In-map (next i) = next (In-map i)

In-of_map :
    (P : RuntimeValue → Type 0) (v : RuntimeValue) (fs : List (String × RuntimeValue))
    → ((f : String × RuntimeValue) → In f fs → P f.1)
    → In v (map (λ x. x.1) fs)
    → P v
In-of_map P v [] k i = elim i [ ]
In-of_map P v (f ∷ fs) k first = k f first
In-of_map P v (f ∷ fs) k (next i) = In-of_map P v fs (λ x j. k x (next j)) i

In-one : (v w : RuntimeValue) → In v (w ∷ []) → w ≡ v
In-one v w first = refl
In-one v w (next i) = elim i [ ]

module _ (h : Heap) where
  Holds-behind : {q : Reference} {v : RuntimeValue} → Holds h q v → In v (values_behind h q)
  unfolding values_behind object_values array_values cell_values receiver_values cause_values
  Holds-behind (Holds.field e i) = rw e (In-map i)
  Holds-behind (Holds.element e i) = rw e i
  Holds-behind (Holds.content e) = rw e first
  Holds-behind (Holds.receiver e) = rw e first
  Holds-behind (Holds.cause e) = rw e first

  Captures-behind : {q : Reference} {c : ℕ} → Captures h q c → In c (cells_behind h q)
  unfolding cells_behind captured
  Captures-behind (Captures.capture e i) = rw e i

  module _ (a : ℕ) (v : RuntimeValue) where
    object_values-Holds :
        (o : Option Object)
        → get_elem? h.objects a ≡ o
        → In v (object_values o)
        → Holds h (Reference.object a) v
    unfolding object_values
    object_values-Holds none e i = elim i [ ]
    object_values-Holds (some o) e i =
        In-of_map (Holds h (Reference.object a)) v o.fields (λ f j. Holds.field e j) i

    array_values-Holds :
        (o : Option (List RuntimeValue))
        → get_elem? h.arrays a ≡ o
        → In v (array_values o)
        → Holds h (Reference.array a) v
    unfolding array_values
    array_values-Holds none e i = elim i [ ]
    array_values-Holds (some elements) e i = Holds.element e i

    cell_values-Holds :
        (o : Option RuntimeValue)
        → get_elem? h.cells a ≡ o
        → In v (cell_values o)
        → Holds h (Reference.cell a) v
    unfolding cell_values
    cell_values-Holds none e i = elim i [ ]
    cell_values-Holds (some w) e i =
        subst (Holds h (Reference.cell a)) (In-one v w i) (Holds.content e)

    receiver_values-Holds :
        (o : Option VmBoundMethod)
        → get_elem? h.bound_methods a ≡ o
        → In v (receiver_values o)
        → Holds h (Reference.bound_method a) v
    unfolding receiver_values
    receiver_values-Holds none e i = elim i [ ]
    receiver_values-Holds (some b) e i =
        subst (Holds h (Reference.bound_method a)) (In-one v (RuntimeValue.object b.receiver) i)
          (Holds.receiver e)

    cause_values-Holds :
        (o : Option ErrorObject)
        → get_elem? h.errors a ≡ o
        → In v (cause_values o)
        → Holds h (Reference.error a) v
    unfolding cause_values
    cause_values-Holds none e i = elim i [ ]
    cause_values-Holds (some x) e i =
        subst (Holds h (Reference.error a)) (In-one v x.cause i) (Holds.cause e)

    captured-Captures :
        (k : ℕ) (o : Option VmClosure)
        → get_elem? h.closures a ≡ o
        → In k (captured o)
        → Captures h (Reference.closure a) k
    unfolding captured
    captured-Captures k none e i = elim i [ ]
    captured-Captures k (some c) e i = Captures.capture e i

  behind-Holds : (q : Reference) (v : RuntimeValue) → In v (values_behind h q) → Holds h q v
  unfolding values_behind
  behind-Holds (Reference.object a) v i = object_values-Holds a v _ refl i
  behind-Holds (Reference.array a) v i = array_values-Holds a v _ refl i
  behind-Holds (Reference.cell a) v i = cell_values-Holds a v _ refl i
  behind-Holds (Reference.closure a) v i = elim i [ ]
  behind-Holds (Reference.bound_method a) v i = receiver_values-Holds a v _ refl i
  behind-Holds (Reference.error a) v i = cause_values-Holds a v _ refl i

  behind-Captures : (q : Reference) (k : ℕ) → In k (cells_behind h q) → Captures h q k
  unfolding cells_behind
  behind-Captures (Reference.object a) k i = elim i [ ]
  behind-Captures (Reference.array a) k i = elim i [ ]
  behind-Captures (Reference.cell a) k i = elim i [ ]
  behind-Captures (Reference.closure a) k i = captured-Captures a RuntimeValue.null k _ refl i
  behind-Captures (Reference.bound_method a) k i = elim i [ ]
  behind-Captures (Reference.error a) k i = elim i [ ]

  module _ (values : List RuntimeValue) (cells : List ℕ) where
    -- The paths of the marking are the paths of the heap.
    pub Led-Reachable : {r : Reference} → Led h values cells r → Reachable h values cells r
    Led-Reachable (Led.root {v} {r} i e) = Reachable.root i (reference-Refers v r e)
    Led-Reachable (Led.root_cell i) = Reachable.root_cell i
    Led-Reachable (Led.value {q} {r} {v} x i e) =
        Reachable.value (Led-Reachable x) (behind-Holds q v i) (reference-Refers v r e)
    Led-Reachable (Led.cell {q} {c} x i) = Reachable.cell (Led-Reachable x) (behind-Captures q c i)

    pub Reachable-Led : {r : Reference} → Reachable h values cells r → Led h values cells r
    Reachable-Led (Reachable.root i e) = Led.root i (Refers-reference e)
    Reachable-Led (Reachable.root_cell i) = Led.root_cell i
    Reachable-Led (Reachable.value x i e) =
        Led.value (Reachable-Led x) (Holds-behind i) (Refers-reference e)
    Reachable-Led (Reachable.cell x i) = Led.cell (Reachable-Led x) (Captures-behind i)
