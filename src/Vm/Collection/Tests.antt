-- ===== src/Vm/Collection/Tests.antt =====
-- runtime/kyna_vm/src/memory/managed_heap.cpp: the marking of small heaps.
use kyna.Base.{◌≡◌, ◌↔◌, refl, [], ◌∷◌, arith, List}
use kyna.Vm.Value.{RuntimeValue, Heap}
use kyna.Vm.Collection.{
  Reference, same, contains, reference, object_values, array_values, cell_values, receiver_values,
  cause_values, captured, values_behind, cells_behind, mark, visit, trace_round, trace, edges,
  marked,
}
use kyna.Vm.Collection.Reach.{In}
use kyna.Vm.Collection.Paths.{Reachable}
use kyna.Vm.Collection.Fuel.{enumerate, everything, weight}
use kyna.Vm.Collection.Marking.{enough_rounds, marked-Reachable}

-- A closure with a cell that leads to an array with itself in it, and an array that nothing leads to.
abbrev heap : Heap
heap = record {
  objects = [];
  arrays = (RuntimeValue.array 0 ∷ []) ∷ (RuntimeValue.null ∷ []) ∷ [];
  cells = RuntimeValue.array 0 ∷ [];
  closures = (record { function = 0; captures = 0 ∷ [] }) ∷ [];
  bound_methods = [];
  errors = [];
}

abbrev roots : List RuntimeValue
roots = RuntimeValue.closure 0 ∷ []

marked-heap :
    marked heap 6 roots [] ≡ Reference.array 0 ∷ Reference.cell 0 ∷ Reference.closure 0 ∷ []
unfolding same contains reference object_values array_values cell_values receiver_values
    cause_values captured values_behind cells_behind mark visit trace_round trace marked
marked-heap = refl

enough : enough_rounds heap roots [] ≡ 5
unfolding same contains reference object_values array_values cell_values receiver_values
    cause_values captured values_behind cells_behind edges enumerate everything weight
enough = refl

marked-Reachable_example :
    In (Reference.array 0) (marked heap 6 roots []) ↔ Reachable heap roots [] (Reference.array 0)
marked-Reachable_example =
    marked-Reachable heap roots [] 6 (omega (arith, enough)) (Reference.array 0)
