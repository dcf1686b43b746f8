-- ===== src/Vm/Collection.antt =====
-- runtime/kyna_vm/src/memory/managed_heap.cpp: the marking of `collectRoots`, on the values that the
-- bytecode machine makes. The sets of marked objects are one set, of references with their kinds. The
-- queues of values and of capture cells are as in the code; that of environments is the tree-walking
-- evaluator's.
pub mod Reach
pub mod Fuel
pub mod Paths
pub mod Marking
mod Tests
use kyna.Base.{
  ℕ, zero, suc, ◌+◌, Bool, true, false, ◌||◌, List, [], ◌∷◌, ◌++◌, Option, none, some, map, length,
  get_elem?, ◌==◌, if◌then◌else◌,
}
use kyna.Vm.Value.{RuntimeValue, Object, VmClosure, VmBoundMethod, ErrorObject, Heap}

-- A pointer to an object of the heap.
pub data Reference : Type 0 where
  object array cell closure bound_method error : ℕ → Reference

unfoldable pub same : Reference → Reference → Bool
same (Reference.object a) (Reference.object b) = a == b
same (Reference.array a) (Reference.array b) = a == b
same (Reference.cell a) (Reference.cell b) = a == b
same (Reference.closure a) (Reference.closure b) = a == b
same (Reference.bound_method a) (Reference.bound_method b) = a == b
same (Reference.error a) (Reference.error b) = a == b
same _ _ = false

-- `contains` of the sets of marks.
unfoldable pub contains : List Reference → Reference → Bool
contains [] r = false
contains (x ∷ marks) r = same x r || contains marks r

unfoldable pub reference : RuntimeValue → Option Reference
reference (RuntimeValue.object a) = some (Reference.object a)
reference (RuntimeValue.array a) = some (Reference.array a)
reference (RuntimeValue.closure a) = some (Reference.closure a)
reference (RuntimeValue.bound_method a) = some (Reference.bound_method a)
reference (RuntimeValue.error a) = some (Reference.error a)
reference _ = none

-- The values that an object leads to.
unfoldable pub object_values : Option Object → List RuntimeValue
object_values none = []
object_values (some o) = map (λ field. field.1) o.fields

unfoldable pub array_values : Option (List RuntimeValue) → List RuntimeValue
array_values none = []
array_values (some elements) = elements

unfoldable pub cell_values : Option RuntimeValue → List RuntimeValue
cell_values none = []
cell_values (some v) = v ∷ []

unfoldable pub receiver_values : Option VmBoundMethod → List RuntimeValue
receiver_values none = []
receiver_values (some b) = RuntimeValue.object b.receiver ∷ []

unfoldable pub cause_values : Option ErrorObject → List RuntimeValue
cause_values none = []
cause_values (some e) = e.cause ∷ []

unfoldable pub captured : Option VmClosure → List ℕ
captured none = []
captured (some c) = c.captures

-- What is pushed on the two queues when a reference is marked.
unfoldable pub values_behind : Heap → Reference → List RuntimeValue
values_behind h (Reference.object a) = object_values (get_elem? h.objects a)
values_behind h (Reference.array a) = array_values (get_elem? h.arrays a)
values_behind h (Reference.cell a) = cell_values (get_elem? h.cells a)
values_behind h (Reference.closure a) = []
values_behind h (Reference.bound_method a) = receiver_values (get_elem? h.bound_methods a)
values_behind h (Reference.error a) = cause_values (get_elem? h.errors a)

unfoldable pub cells_behind : Heap → Reference → List ℕ
cells_behind h (Reference.closure a) = captured (get_elem? h.closures a)
cells_behind h _ = []

pub record Tracer : Type 0 where
  pub marks : List Reference
  pub values : List RuntimeValue
  pub cells : List ℕ

module _ (h : Heap) where
  -- `insert` on the set of marks and, if the reference is new, the pushes.
  unfoldable pub mark : Reference → Tracer → Tracer
  mark r t = if contains t.marks r then t else record {
    marks = r ∷ t.marks;
    values = t.values ++ values_behind h r;
    cells = t.cells ++ cells_behind h r;
  }

  unfoldable pub visit : Option Reference → Tracer → Tracer
  visit none t = t
  visit (some r) t = mark r t

  -- A round of the loop: a capture cell, or where there is none a value.
  unfoldable pub trace_round : List RuntimeValue → List ℕ → List Reference → Option Tracer
  trace_round [] [] marks = none
  trace_round (v ∷ values) [] marks =
      some (visit (reference v) (record { marks = marks; values = values; cells = [] }))
  trace_round values (c ∷ cells) marks =
      some (mark (Reference.cell c) (record { marks = marks; values = values; cells = cells }))

  -- The loop, for a number of rounds.
  unfoldable pub trace : ℕ → Tracer → Tracer
  trace zero t = t
  trace (suc n) t = elim (trace_round t.values t.cells t.marks) [ none ↦ t | some t' ↦ trace n t' ]

  -- How many pushes there are at most.
  unfoldable pub edges : Reference → ℕ
  edges r = length (values_behind h r) + length (cells_behind h r)

  -- `collectRoots`: the marks, from the roots and the temporary roots.
  unfoldable pub marked : ℕ → List RuntimeValue → List ℕ → List Reference
  marked n values cells = (trace n (record { marks = []; values = values; cells = cells })).marks
