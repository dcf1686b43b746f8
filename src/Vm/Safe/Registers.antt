-- ===== src/Vm/Safe/Registers.antt =====
-- runtime/kyna_vm/src/execution/bytecode_virtual_machine.cpp: reads and writes of registers are in range
-- on a machine that fits, and keep it so.
use kyna.Base.{
  some, ℕ, ◌<◌, ◌≡◌, refl, ◌∙◌, List, [], ◌∷◌, Option, arith, length, get_elem?, set, All,
  All-get_elem?, get_elem?-lt, length-set, All-set, Each, nothing, just, Yields, yields,
  bind-Yields, Yields-eq, Yields-map, lt→ltb,
}
use kyna.Bytecode.Program.{BytecodeFunction, BytecodeModule}
use kyna.Vm.Value.{RuntimeValue}
use kyna.Vm.Machine.{Machine, put, read_cell, read, read_all, write_cell, write}
use kyna.Vm.Safe.Fits.{IsCell, ValueFits, Runs}
use kyna.Vm.Safe.Heaps.{Runs-extend, cells-Extends, set-Sized}

pub get-Yields {ℓ κ} :
    {A : Type ℓ} {P : A → Type κ} (xs : List A) {i : ℕ}
    → All P xs
    → i < length xs
    → Yields P (get_elem? xs i)
get-Yields {P = P} xs {i} h l =
    let (x, at) = get_elem?-lt xs i l in Yields-eq at (All-get_elem? P xs i x h at)

pub at-Yields {ℓ} :
    {A : Type ℓ} (xs : List A) {i : ℕ}
    → i < length xs
    → Yields (λ x. get_elem? xs i ≡ some x) (get_elem? xs i)
at-Yields xs {i} l = let (x, at) = get_elem?-lt xs i l in Yields-eq at at

pub put-Yields {ℓ} :
    {A : Type ℓ} (xs : List A) {i : ℕ} (v : A)
    → i < length xs
    → Yields (λ ys. ys ≡ set xs i v) (put xs i v)
unfolding put
put-Yields xs v l = rw (lt→ltb _ _ l) (yields refl)

-- The machine `s'` runs in the function `f`, at the instruction of `s`.
pub record Wrote (m : BytecodeModule) (f : BytecodeFunction) (s s' : Machine) : Type 0 where
  pub runs : Runs m f s'
  pub still : s'.frame.instruction_pointer ≡ s.frame.instruction_pointer

module _ (m : BytecodeModule) {f : BytecodeFunction} where
  read_cell-Yields :
      (s : Machine) (index : ℕ) (cell : Option ℕ)
      → Runs m f s
      → index < f.register_count
      → Each (IsCell s.heap) cell
      → Yields (ValueFits m s.heap) (read_cell s index cell)
  unfolding read_cell
  read_cell-Yields s index _ r l nothing =
      get-Yields s.frame.registers r.frame.registers (omega (arith, r.frame.register_count))
  read_cell-Yields s index _ r l (just c) = get-Yields s.heap.cells r.heap.cells c

  pub read-Yields :
      (s : Machine) {index : ℕ}
      → Runs m f s
      → index < f.register_count
      → Yields (ValueFits m s.heap) (read s index)
  unfolding read
  read-Yields s r l =
      bind-Yields
        (get-Yields s.frame.register_cells r.frame.register_cells
          (omega (arith, r.frame.cell_count)))
        λ cell c. read_cell-Yields s _ cell r l c

  -- As many values as registers.
  pub read_all-Yields :
      (s : Machine) (indices : List ℕ)
      → Runs m f s
      → All (λ index. index < f.register_count) indices
      → Yields
          (λ vs. All (ValueFits m s.heap) vs × (length vs ≡ length indices))
          (read_all s indices)
  unfolding read_all
  read_all-Yields s [] r l = yields (tt, refl)
  read_all-Yields s (index ∷ indices) r l = bind-Yields (read-Yields s r l.0) λ v x.
      bind-Yields (read_all-Yields s indices r l.1) λ vs y. yields ((x, y.0), omega (arith, y.1))

  write_cell-Yields :
      (s : Machine) (cell : Option ℕ) (v : RuntimeValue)
      → Runs m f s
      → ValueFits m s.heap v
      → Each (IsCell s.heap) cell
      → Yields (Wrote m f s) (write_cell s cell v)
  unfolding write_cell
  write_cell-Yields s _ v r x nothing = yields (record { runs = r; still = refl })
  write_cell-Yields s _ v r x (just c) = bind-Yields (put-Yields s.heap.cells v c) λ cells e. rw e (
      yields (record {
        runs = Runs-extend m r (cells-Extends m s.heap r.heap (set-Sized _ v r.heap.cells x));
        still = refl;
      }))

  pub write-Yields :
      (s : Machine) {index : ℕ} (v : RuntimeValue)
      → Runs m f s
      → index < f.register_count
      → ValueFits m s.heap v
      → Yields (Wrote m f s) (write s index v)
  unfolding write
  write-Yields s {index} v r l x =
      bind-Yields (put-Yields s.frame.registers v (omega (arith, r.frame.register_count)))
        λ registers e.
          bind-Yields
            (get-Yields s.frame.register_cells r.frame.register_cells
              (omega (arith, r.frame.cell_count)))
            λ cell c.
              Yields-map (λ s' w. record { runs = w.runs; still = w.still })
                (write_cell-Yields _ cell v (written registers e) x c)
    where
      written :
          (registers : List RuntimeValue)
          → registers ≡ set s.frame.registers index v
          → Runs m f (record s { frame = record s.frame { registers = registers } })
      written registers e = record {
        frame = record {
          function = r.frame.function;
          registers =
              rw e (All-set (ValueFits m s.heap) s.frame.registers index v r.frame.registers x);
          register_count = rw e (length-set s.frame.registers index v ∙ r.frame.register_count);
          register_cells = r.frame.register_cells;
          cell_count = r.frame.cell_count;
          captures = r.frame.captures;
          capture_count = r.frame.capture_count;
          override = r.frame.override;
          inside = r.frame.inside;
        };
        callers = r.callers;
        heap = r.heap;
        depth = r.depth;
      }

  -- The same machine at another instruction of the function.
  pub move_to :
      {s : Machine} {n : ℕ}
      → Runs m f s
      → n < length f.instructions
      → Runs m f (record s { frame = record s.frame { instruction_pointer = n } })
  move_to r l = record {
    frame = record {
      function = r.frame.function;
      registers = r.frame.registers;
      register_count = r.frame.register_count;
      register_cells = r.frame.register_cells;
      cell_count = r.frame.cell_count;
      captures = r.frame.captures;
      capture_count = r.frame.capture_count;
      override = r.frame.override;
      inside = l;
    };
    callers = r.callers;
    heap = r.heap;
    depth = r.depth;
  }
