-- ===== src/Vm/Safe/Closures.antt =====
-- runtime/kyna_vm/src/execution/bytecode_virtual_machine.cpp: the cases of `MakeClosure` and `Return` on a
-- valid module.
use kyna.Base.{
  ℕ, suc, ◌≤◌, ◌<◌, ◌≡◌, refl, ◌∙◌, List, [], ◌∷◌, Option, some, arith, length, set, All, All-set,
  length-set, Each, nothing, just, Yields, yields, bind-Yields, Yields-eq,
}
use kyna.Bytecode.Program.{
  BytecodeInstruction, BytecodeFunction, CaptureKind, BytecodeCaptureSource, BytecodeModule,
}
use kyna.Bytecode.Valid.{CaptureFits, ValidClosure}
use kyna.Vm.Value.{RuntimeValue, Heap}
use kyna.Vm.Machine.{Frame, Machine}
use kyna.Vm.Step.Calls.{maximum_call_frames}
use kyna.Vm.Step.Values.{
  allocate_cell, cell_of, capture, capture_all, make_closure, return_value, leave, return,
}
use kyna.Vm.Safe.Fits.{
  Grows, Grows-refl, Grows-trans, IsCell, ValueFits, HeapFits, CallersFit, ClosureFits, Runs,
  StepFits,
}
use kyna.Vm.Safe.Heaps.{Runs-extend, cells-Extends, closures-Extends, append-Sized, lt-append_last}
use kyna.Vm.Safe.Registers.{get-Yields, put-Yields, read-Yields, write-Yields}
use kyna.Vm.Safe.Values.{More, result-Yields}

-- The machine has moved on to `s'`, at the same instruction, with cells that are on its heap.
pub record Captured (m : BytecodeModule) (f : BytecodeFunction) (s : Machine) (n : ℕ)
    (r : List ℕ × Machine) : Type 0 where
  pub runs : Runs m f r.1
  pub still : r.1.frame.instruction_pointer ≡ s.frame.instruction_pointer
  pub grows : Grows s.heap r.1.heap
  pub cells : All (IsCell r.1.heap) r.0
  pub count : length r.0 ≡ n

abbrev single : ℕ × Machine → List ℕ × Machine
single r = (r.0 ∷ [], r.1)

module _ (m : BytecodeModule) {f : BytecodeFunction} where
  -- A register that has been given a cell.
  with_cell :
      (s : Machine) (index : ℕ) (cell : ℕ)
      → Runs m f s
      → IsCell s.heap cell
      → Runs m f (record s {
        frame = record s.frame { register_cells = set s.frame.register_cells index (some cell) };
      })
  with_cell s index cell r c = record {
    frame = record {
      function = r.frame.function;
      registers = r.frame.registers;
      register_count = r.frame.register_count;
      register_cells =
          All-set (Each (IsCell s.heap)) s.frame.register_cells index (some cell)
            r.frame.register_cells (just c);
      cell_count = length-set s.frame.register_cells index (some cell) ∙ r.frame.cell_count;
      captures = r.frame.captures;
      capture_count = r.frame.capture_count;
      override = r.frame.override;
      inside = r.frame.inside;
    };
    callers = r.callers;
    heap = r.heap;
    depth = r.depth;
  }

  cell_of-Yields :
      (s : Machine) (index : ℕ) (cell : Option ℕ)
      → Runs m f s
      → index < f.register_count
      → Each (IsCell s.heap) cell
      → Yields (λ r. Captured m f s 1 (single r)) (cell_of s index cell)
  unfolding cell_of allocate_cell
  cell_of-Yields s index _ r l (just c) =
      yields (record {
        runs = r;
        still = refl;
        grows = Grows-refl s.heap;
        cells = (c, tt);
        count = refl;
      })
  cell_of-Yields s index _ r l nothing = bind-Yields (read-Yields m s r l) λ v x.
      bind-Yields (put-Yields s.frame.register_cells _ (omega (arith, r.frame.cell_count)))
        λ cells e.
          let grown = cells-Extends m s.heap r.heap (append-Sized v r.heap.cells x) in
          let new = lt-append_last s.heap.cells v in
          rw e (
            yields (record {
              runs = with_cell _ index (length s.heap.cells) (Runs-extend m r grown) new;
              still = refl;
              grows = grown.grows;
              cells = (new, tt);
              count = refl;
            }))

  capture-Yields :
      (s : Machine) (kind : CaptureKind) (index : ℕ)
      → Runs m f s
      → CaptureFits m f (record { kind = kind; index = index })
      → Yields (λ r. Captured m f s 1 (single r)) (capture s kind index)
  unfolding capture
  capture-Yields s CaptureKind.local index r l =
      bind-Yields
        (get-Yields s.frame.register_cells r.frame.register_cells
          (omega (arith, r.frame.cell_count)))
        λ cell c. cell_of-Yields s index cell r l c
  capture-Yields s CaptureKind.capture index r l =
      bind-Yields
        (get-Yields s.frame.captures r.frame.captures (omega (arith, r.frame.capture_count)))
        λ cell c. yields (record {
          runs = r;
          still = refl;
          grows = Grows-refl s.heap;
          cells = (c, tt);
          count = refl;
        })

  capture_all-Yields :
      (s : Machine) (sources : List BytecodeCaptureSource)
      → Runs m f s
      → All (CaptureFits m f) sources
      → Yields (Captured m f s (length sources)) (capture_all s sources)
  unfolding capture_all
  capture_all-Yields s [] r x =
      yields
        (record { runs = r; still = refl; grows = Grows-refl s.heap; cells = tt; count = refl })
  capture_all-Yields s (source ∷ sources) r x =
      bind-Yields (capture-Yields s source.kind source.index r x.0) λ a c.
        bind-Yields (capture_all-Yields a.1 sources c.runs x.1) λ b d. yields (record {
          runs = d.runs;
          still = d.still ∙ c.still;
          grows = Grows-trans c.grows d.grows;
          cells = (omega (arith, d.grows.cells, c.cells.0), d.cells);
          count = omega (arith, d.count);
        })

  pub make_closure-Yields :
      (i : BytecodeInstruction) (s : Machine)
      → Runs m f s
      → More f s
      → ValidClosure m f i
      → Yields (StepFits m) (make_closure m i s)
  unfolding make_closure
  make_closure-Yields i s r more (to, (_, (_, (sources, at, (count, fits))))) =
      bind-Yields (Yields-eq {P = λ x. x ≡ sources} at refl) λ _ e. rw e (
        bind-Yields (capture_all-Yields s sources r fits) λ c x.
          result-Yields m i _ _
            (Runs-extend m x.runs (
              closures-Extends m _ x.runs.heap (append-Sized _ x.runs.heap.closures (closure c x))))
            (omega (arith, x.still)) to (lt-append_last c.1.heap.closures _))
    where
      closure :
          (c : List ℕ × Machine)
          → Captured m f s (length sources) c
          → ClosureFits m c.1.heap (record { function = i.first; captures = c.0 })
      closure c x = record { function = (count.0, count.1, x.count ∙ count.2); captures = x.cells }

  return_value-Yields :
      (i : BytecodeInstruction) (s : Machine) (override : Option RuntimeValue)
      → Runs m f s
      → i.first < f.register_count
      → Each (ValueFits m s.heap) override
      → Yields (ValueFits m s.heap) (return_value i s override)
  unfolding return_value
  return_value-Yields i s _ r l nothing = read-Yields m s r l
  return_value-Yields i s _ r l (just x) = yields x

leave-Yields :
    (m : BytecodeModule) (v : RuntimeValue) (h : Heap) (destination : Option ℕ)
    (callers : List Frame)
    → HeapFits m h
    → ValueFits m h v
    → CallersFit m h destination callers
    → suc (length callers) ≤ maximum_call_frames
    → Yields (StepFits m) (leave v h destination callers)
unfolding leave
leave-Yields m v h destination [] fits x c d = yields (fits, x)
leave-Yields m v h destination (caller ∷ callers) fits x (g, (y, ((index, (e, l)), rest))) d =
    bind-Yields (Yields-eq {P = λ k. k < g.register_count} e l) λ k l'.
      bind-Yields
        (write-Yields m (record { frame = caller; callers = callers; heap = h }) v
          (record { frame = y; callers = rest; heap = fits; depth = omega arith }) l' x)
        λ s w. yields (g, w.runs)

pub return-Yields :
    (m : BytecodeModule) {f : BytecodeFunction} (i : BytecodeInstruction) (s : Machine)
    → Runs m f s
    → i.first < f.register_count
    → Yields (StepFits m) (return i s)
unfolding return
return-Yields m i s r l =
    bind-Yields (return_value-Yields m i s s.frame.return_override r l r.frame.override)
      λ v x. leave-Yields m v s.heap s.frame.return_destination s.callers r.heap x r.callers r.depth
