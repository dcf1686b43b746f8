-- ===== src/Vm/Safe/Heaps.antt =====
-- runtime/kyna_vm/src/memory/managed_heap.cpp: allocation, and writes to what is there, leave a heap that
-- fits and has all that it had.
use kyna.Base.{
  ℕ, ◌≤◌, ◌<◌, List, [], ◌∷◌, ◌++◌, arith, length, set, All, All-append, All-set, length-append,
  length-set,
}
use kyna.Bytecode.Program.{BytecodeFunction, BytecodeModule}
use kyna.Vm.Value.{RuntimeValue, Object, VmClosure, VmBoundMethod, ErrorObject, Heap}
use kyna.Vm.Machine.{Machine}
use kyna.Vm.Safe.Fits.{
  Grows, Grows-refl, ValueFits, ObjectFits, ClosureFits, BoundFits, HeapFits, HeapFits-grow, Runs,
  FrameFits-mono, CallersFit-mono,
}

-- As many elements or more, and `P` holds of each.
pub record Sized {ℓ κ} {A : Type ℓ} (P : A → Type κ) (xs ys : List A) : Type κ where
  pub longer : length xs ≤ length ys
  pub all : All P ys

pub kept {ℓ κ} : {A : Type ℓ} {P : A → Type κ} {xs : List A} → All P xs → Sized P xs xs
kept x = record { longer = omega arith; all = x }

pub append-Sized {ℓ κ} :
    {A : Type ℓ} {P : A → Type κ} {xs : List A} (x : A) → All P xs → P x → Sized P xs (xs ++ x ∷ [])
append-Sized {P = P} {xs = xs} x h p = record {
  longer = omega (arith, length-append xs (x ∷ []));
  all = All-append P xs (x ∷ []) h (p, tt);
}

pub set-Sized {ℓ κ} :
    {A : Type ℓ} {P : A → Type κ} {xs : List A} (i : ℕ) (x : A)
    → All P xs
    → P x
    → Sized P xs (set xs i x)
set-Sized {P = P} {xs = xs} i x h p = record {
  longer = omega (arith, length-set xs i x);
  all = All-set P xs i x h p;
}

pub lt-append_last {ℓ} : {A : Type ℓ} (xs : List A) (x : A) → length xs < length (xs ++ x ∷ [])
lt-append_last xs x = omega (arith, length-append xs (x ∷ []))

module _ (m : BytecodeModule) where
  -- The heap `k` fits and has all that `h` has.
  pub record Extends (h k : Heap) : Type 0 where
    pub grows : Grows h k
    pub fits : HeapFits m k

  pub Extends-refl : (h : Heap) → HeapFits m h → Extends h h
  Extends-refl h fits = record { grows = Grows-refl h; fits = fits }

  module _ (h : Heap) (fits : HeapFits m h) where
    extended :
        (k : Heap)
        → Sized (ObjectFits m h) h.objects k.objects
        → Sized (All (ValueFits m h)) h.arrays k.arrays
        → Sized (ValueFits m h) h.cells k.cells
        → Sized (ClosureFits m h) h.closures k.closures
        → Sized (BoundFits m h) h.bound_methods k.bound_methods
        → Sized (λ e. ValueFits m h e.cause) h.errors k.errors
        → Extends h k
    extended k objects arrays cells closures bound_methods errors =
        let g : Grows h k = record {
          objects = objects.longer;
          arrays = arrays.longer;
          cells = cells.longer;
          closures = closures.longer;
          bound_methods = bound_methods.longer;
          errors = errors.longer;
        } in
        record {
          grows = g;
          fits = HeapFits-grow m g (record {
            objects = objects.all;
            arrays = arrays.all;
            cells = cells.all;
            closures = closures.all;
            bound_methods = bound_methods.all;
            errors = errors.all;
          });
        }

    pub objects-Extends :
        {objects : List Object}
        → Sized (ObjectFits m h) h.objects objects
        → Extends h (record h { objects = objects })
    objects-Extends x =
        extended _ x (kept fits.arrays) (kept fits.cells) (kept fits.closures)
          (kept fits.bound_methods) (kept fits.errors)

    pub arrays-Extends :
        {arrays : List (List RuntimeValue)}
        → Sized (All (ValueFits m h)) h.arrays arrays
        → Extends h (record h { arrays = arrays })
    arrays-Extends x =
        extended _ (kept fits.objects) x (kept fits.cells) (kept fits.closures)
          (kept fits.bound_methods) (kept fits.errors)

    pub cells-Extends :
        {cells : List RuntimeValue}
        → Sized (ValueFits m h) h.cells cells
        → Extends h (record h { cells = cells })
    cells-Extends x =
        extended _ (kept fits.objects) (kept fits.arrays) x (kept fits.closures)
          (kept fits.bound_methods) (kept fits.errors)

    pub closures-Extends :
        {closures : List VmClosure}
        → Sized (ClosureFits m h) h.closures closures
        → Extends h (record h { closures = closures })
    closures-Extends x =
        extended _ (kept fits.objects) (kept fits.arrays) (kept fits.cells) x
          (kept fits.bound_methods) (kept fits.errors)

    pub bound_methods-Extends :
        {bound_methods : List VmBoundMethod}
        → Sized (BoundFits m h) h.bound_methods bound_methods
        → Extends h (record h { bound_methods = bound_methods })
    bound_methods-Extends x =
        extended _ (kept fits.objects) (kept fits.arrays) (kept fits.cells) (kept fits.closures) x
          (kept fits.errors)

    pub errors-Extends :
        {errors : List ErrorObject}
        → Sized (λ e. ValueFits m h e.cause) h.errors errors
        → Extends h (record h { errors = errors })
    errors-Extends x =
        extended _ (kept fits.objects) (kept fits.arrays) (kept fits.cells) (kept fits.closures)
          (kept fits.bound_methods) x

  -- A machine runs on with the heap extended.
  pub Runs-extend :
      {f : BytecodeFunction} {s : Machine} {k : Heap}
      → Runs m f s
      → Extends s.heap k
      → Runs m f (record s { heap = k })
  Runs-extend {f} {s} r x = record {
    frame = FrameFits-mono m x.grows f s.frame r.frame;
    callers = CallersFit-mono m x.grows s.frame.return_destination s.callers r.callers;
    heap = x.fits;
    depth = r.depth;
  }
