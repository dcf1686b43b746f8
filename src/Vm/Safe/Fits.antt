-- ===== src/Vm/Safe/Fits.antt =====
-- runtime/kyna_vm/src/execution/bytecode_virtual_machine.cpp: when the values, the heap and the frames of
-- the machine fit a module, that is, when all that they refer to is there.
use kyna.Base.{
  ℕ, ◌≤◌, ◌<◌, ◌≡◌, List, [], ◌∷◌, Option, some, arith, length, get_elem?, All, All-map, Each,
  nothing, just,
}
use kyna.Bytecode.Program.{BytecodeFunction, BytecodeModule}
use kyna.Bytecode.Valid.{Entry}
use kyna.Vm.Value.{RuntimeValue, Object, VmClosure, VmBoundMethod, Heap}
use kyna.Vm.Machine.{Frame, Machine, Step}
use kyna.Vm.Step.Calls.{maximum_call_frames, depth}

-- Each store of the heap is as large or larger.
pub record Grows (h k : Heap) : Type 0 where
  pub objects : length h.objects ≤ length k.objects
  pub arrays : length h.arrays ≤ length k.arrays
  pub cells : length h.cells ≤ length k.cells
  pub closures : length h.closures ≤ length k.closures
  pub bound_methods : length h.bound_methods ≤ length k.bound_methods
  pub errors : length h.errors ≤ length k.errors

pub Grows-refl : (h : Heap) → Grows h h
Grows-refl h = record {
  objects = omega arith;
  arrays = omega arith;
  cells = omega arith;
  closures = omega arith;
  bound_methods = omega arith;
  errors = omega arith;
}

pub Grows-trans : {h k l : Heap} → Grows h k → Grows k l → Grows h l
Grows-trans g d = record {
  objects = omega (arith, g.objects, d.objects);
  arrays = omega (arith, g.arrays, d.arrays);
  cells = omega (arith, g.cells, d.cells);
  closures = omega (arith, g.closures, d.closures);
  bound_methods = omega (arith, g.bound_methods, d.bound_methods);
  errors = omega (arith, g.errors, d.errors);
}

-- The cell is on the heap.
abbrev pub IsCell : Heap → ℕ → Type 0
IsCell h c = c < length h.cells

module _ (m : BytecodeModule) where
  -- A function that a frame without captures can run.
  abbrev pub Uncaptured : ℕ → Type 0
  Uncaptured index = Entry m.functions index λ f. f.capture_count ≡ 0

  abbrev pub ValueFits : Heap → RuntimeValue → Type 0
  ValueFits h (RuntimeValue.object a) = a < length h.objects
  ValueFits h (RuntimeValue.array a) = a < length h.arrays
  ValueFits h (RuntimeValue.function_reference f) = Uncaptured f
  ValueFits h (RuntimeValue.closure a) = a < length h.closures
  ValueFits h (RuntimeValue.bound_method a) = a < length h.bound_methods
  ValueFits h (RuntimeValue.error a) = a < length h.errors
  ValueFits h _ = Unit

  pub record ObjectFits (h : Heap) (o : Object) : Type 0 where
    pub fields : All (λ field. ValueFits h field.1) o.fields
    pub vm_class : Each (λ k. k < length m.classes) o.vm_class

  pub record ClosureFits (h : Heap) (c : VmClosure) : Type 0 where
    pub function : Entry m.functions c.function λ f. length c.captures ≡ f.capture_count
    pub captures : All (IsCell h) c.captures

  pub record BoundFits (h : Heap) (b : VmBoundMethod) : Type 0 where
    pub receiver : b.receiver < length h.objects
    pub function : Uncaptured b.function

  -- What is on `k` refers to what is on `h`.
  pub record Refers (h k : Heap) : Type 0 where
    pub objects : All (ObjectFits h) k.objects
    pub arrays : All (All (ValueFits h)) k.arrays
    pub cells : All (ValueFits h) k.cells
    pub closures : All (ClosureFits h) k.closures
    pub bound_methods : All (BoundFits h) k.bound_methods
    pub errors : All (λ e. ValueFits h e.cause) k.errors

  abbrev pub HeapFits : Heap → Type 0
  HeapFits h = Refers h h

  pub record FrameFits (h : Heap) (f : BytecodeFunction) (frame : Frame) : Type 0 where
    pub function : get_elem? m.functions frame.function ≡ some f
    pub registers : All (ValueFits h) frame.registers
    pub register_count : length frame.registers ≡ f.register_count
    pub register_cells : All (Each (IsCell h)) frame.register_cells
    pub cell_count : length frame.register_cells ≡ f.register_count
    pub captures : All (IsCell h) frame.captures
    pub capture_count : length frame.captures ≡ f.capture_count
    pub override : Each (ValueFits h) frame.return_override
    pub inside : frame.instruction_pointer < length f.instructions

  -- The frames behind one that returns to a register of the first of them.
  abbrev pub CallersFit : Heap → Option ℕ → List Frame → Type 0
  CallersFit h destination [] = Unit
  CallersFit h destination (c ∷ callers) =
      (f : BytecodeFunction) × (FrameFits h f c
        × (((r : ℕ) × ((destination ≡ some r) × (r < f.register_count)))
            × CallersFit h c.return_destination callers))

  -- A machine between two rounds, its last frame in the function `f`.
  pub record Runs (f : BytecodeFunction) (s : Machine) : Type 0 where
    pub frame : FrameFits s.heap f s.frame
    pub callers : CallersFit s.heap s.frame.return_destination s.callers
    pub heap : HeapFits s.heap
    pub depth : depth s ≤ maximum_call_frames

  -- What a round leads to.
  abbrev pub StepFits : Step → Type 0
  StepFits (Step.running s) = (f : BytecodeFunction) × Runs f s
  StepFits (Step.returned v h) = HeapFits h × ValueFits h v
  StepFits (Step.failed v d h) = HeapFits h × ValueFits h v

  -- What fits a heap fits a larger one.
  module _ {h k : Heap} (g : Grows h k) where
    pub ValueFits-mono : (v : RuntimeValue) → ValueFits h v → ValueFits k v
    ValueFits-mono (RuntimeValue.object a) x = omega (arith, g.objects)
    ValueFits-mono (RuntimeValue.array a) x = omega (arith, g.arrays)
    ValueFits-mono (RuntimeValue.function_reference f) x = x
    ValueFits-mono (RuntimeValue.closure a) x = omega (arith, g.closures)
    ValueFits-mono (RuntimeValue.bound_method a) x = omega (arith, g.bound_methods)
    ValueFits-mono (RuntimeValue.error a) x = omega (arith, g.errors)
    ValueFits-mono RuntimeValue.null x = tt
    ValueFits-mono (RuntimeValue.boolean b) x = tt
    ValueFits-mono (RuntimeValue.integer n) x = tt
    ValueFits-mono (RuntimeValue.floating n) x = tt
    ValueFits-mono (RuntimeValue.string s) x = tt
    ValueFits-mono (RuntimeValue.character c) x = tt

    pub values_mono : (vs : List RuntimeValue) → All (ValueFits h) vs → All (ValueFits k) vs
    values_mono = All-map (ValueFits h) (ValueFits k) ValueFits-mono

    cell-mono : (c : ℕ) → IsCell h c → IsCell k c
    cell-mono c x = omega (arith, g.cells)

    pub cells-mono : (cs : List ℕ) → All (IsCell h) cs → All (IsCell k) cs
    cells-mono = All-map (IsCell h) (IsCell k) cell-mono

    register_cell-mono : (c : Option ℕ) → Each (IsCell h) c → Each (IsCell k) c
    register_cell-mono _ nothing = nothing
    register_cell-mono _ (just x) = just (omega (arith, g.cells))

    override_mono : (v : Option RuntimeValue) → Each (ValueFits h) v → Each (ValueFits k) v
    override_mono _ nothing = nothing
    override_mono _ (just x) = just (ValueFits-mono _ x)

    ObjectFits-mono : (o : Object) → ObjectFits h o → ObjectFits k o
    ObjectFits-mono o x = record {
      fields = All-map _ _ (λ field y. ValueFits-mono field.1 y) o.fields x.fields;
      vm_class = x.vm_class;
    }

    ClosureFits-mono : (c : VmClosure) → ClosureFits h c → ClosureFits k c
    ClosureFits-mono c x = record {
      function = x.function;
      captures = cells-mono c.captures x.captures;
    }

    BoundFits-mono : (b : VmBoundMethod) → BoundFits h b → BoundFits k b
    BoundFits-mono b x = record {
      receiver = omega (arith, g.objects, x.receiver);
      function = x.function;
    }

    pub HeapFits-grow : Refers h k → HeapFits k
    HeapFits-grow r = record {
      objects = All-map _ _ ObjectFits-mono k.objects r.objects;
      arrays = All-map _ _ values_mono k.arrays r.arrays;
      cells = values_mono k.cells r.cells;
      closures = All-map _ _ ClosureFits-mono k.closures r.closures;
      bound_methods = All-map _ _ BoundFits-mono k.bound_methods r.bound_methods;
      errors = All-map _ _ (λ e x. ValueFits-mono e.cause x) k.errors r.errors;
    }

    pub FrameFits-mono :
        (f : BytecodeFunction) (frame : Frame) → FrameFits h f frame → FrameFits k f frame
    FrameFits-mono f frame x = record {
      function = x.function;
      registers = values_mono frame.registers x.registers;
      register_count = x.register_count;
      register_cells = All-map _ _ register_cell-mono frame.register_cells x.register_cells;
      cell_count = x.cell_count;
      captures = cells-mono frame.captures x.captures;
      capture_count = x.capture_count;
      override = override_mono frame.return_override x.override;
      inside = x.inside;
    }

    pub CallersFit-mono :
        (destination : Option ℕ) (callers : List Frame)
        → CallersFit h destination callers
        → CallersFit k destination callers
    CallersFit-mono destination [] x = tt
    CallersFit-mono destination (c ∷ callers) (f, (frame, (to, rest))) =
        (f, (FrameFits-mono f c frame, (to, CallersFit-mono c.return_destination callers rest)))
