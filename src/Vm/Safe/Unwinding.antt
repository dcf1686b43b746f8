-- ===== src/Vm/Safe/Unwinding.antt =====
-- runtime/kyna_vm/src/execution/bytecode_virtual_machine.cpp: `unwindError` and `raise` on a valid module
-- find a handler in a frame that is there, or end with a diagnostic.
use kyna.Base.{
  ℕ, suc, ◌≤◌, ◌<◌, ◌≡◌, refl, List, [], ◌∷◌, Option, some, String, arith, length, get_elem?, All,
  All-get_elem?, Each, nothing, just, Each-if, Yields, yields, bind-Yields, Yields-eq,
}
use kyna.Diagnostics.{SourceSpan}
use kyna.Bytecode.Program.{ExceptionHandler, BytecodeFunction, BytecodeModule}
use kyna.Bytecode.Valid.{ValidHandler, ValidFunction, ValidModule}
use kyna.Vm.Value.{RuntimeValue, Heap, Platform}
use kyna.Vm.Machine.{
  Frame, Machine, Unwound, find_handler, handle, search, call_frames, runtime_diagnostic, resume,
  unwind_error, raise,
}
use kyna.Vm.Step.Calls.{maximum_call_frames}
use kyna.Vm.Safe.Fits.{ValueFits, FrameFits, CallersFit, Runs, StepFits}
use kyna.Vm.Safe.Heaps.{Runs-extend, errors-Extends, append-Sized, lt-append_last}
use kyna.Vm.Safe.Registers.{get-Yields, move_to, write-Yields}

find_handler-Each :
    (P : ExceptionHandler → Type 0) (fault : ℕ) (handlers : List ExceptionHandler)
    → All P handlers
    → Each P (find_handler fault handlers)
unfolding find_handler
find_handler-Each P fault [] h = nothing
find_handler-Each P fault (x ∷ handlers) h =
    Each-if _ (just h.0) (find_handler-Each P fault handlers h.1)

module _ (m : BytecodeModule) where
  -- The frame that handles an error fits, and so do those behind it.
  abbrev UnwoundFits : Heap → Unwound → Type 0
  UnwoundFits h Unwound.uncaught = Unit
  UnwoundFits h (Unwound.caught handler frame callers) =
      (f : BytecodeFunction) × (FrameFits m h f frame
        × (CallersFit m h frame.return_destination callers
            × (ValidHandler m f handler × (suc (length callers) ≤ maximum_call_frames))))

  handle-Yields :
      (h : Heap) (f : BytecodeFunction) (frame : Frame) (callers : List Frame)
      (outer : Option Unwound) (handler : Option ExceptionHandler)
      → FrameFits m h f frame
      → CallersFit m h frame.return_destination callers
      → suc (length callers) ≤ maximum_call_frames
      → Each (ValidHandler m f) handler
      → Yields (UnwoundFits h) outer
      → Yields (UnwoundFits h) (handle handler frame callers outer)
  unfolding handle
  handle-Yields h f frame callers outer _ x c d nothing y = y
  handle-Yields h f frame callers outer _ x c d (just v) y = yields (f, (x, (c, (v, d))))

  call_frames-Yields :
      (h : Heap) (f : BytecodeFunction) (span : SourceSpan) (frame : Frame) (callers : List Frame)
      → FrameFits m h f frame
      → CallersFit m h frame.return_destination callers
      → Yields (λ _. Unit {0}) (call_frames m span frame callers)
  unfolding call_frames
  call_frames-Yields h f span frame [] x c =
      bind-Yields (Yields-eq {P = λ g. g ≡ f} x.function refl) λ g e. yields tt
  call_frames-Yields h f span frame (c ∷ callers) x (g, (y, (to, rest))) =
      bind-Yields (Yields-eq {P = λ g. g ≡ f} x.function refl) λ _ e.
        bind-Yields (call_frames-Yields h g frame.call_site c callers y rest) λ _ _. yields tt

  runtime_diagnostic-Yields :
      (code message : String) (span : SourceSpan) (notes : List String) (help : String)
      (s : Machine) {f : BytecodeFunction}
      → FrameFits m s.heap f s.frame
      → CallersFit m s.heap s.frame.return_destination s.callers
      → Yields (λ _. Unit {0}) (runtime_diagnostic m code message span notes help s)
  unfolding runtime_diagnostic
  runtime_diagnostic-Yields code message span notes help s {f} x c =
      bind-Yields (call_frames-Yields s.heap f span s.frame s.callers x c) λ _ _. yields tt

  module _ (valid : ValidModule m) where
    pub valid_function :
        (index : ℕ) {f : BytecodeFunction}
        → get_elem? m.functions index ≡ some f
        → ValidFunction m f
    valid_function index {f} at =
        All-get_elem? (ValidFunction m) m.functions index f valid.functions at

    search-Yields :
        (h : Heap) (f : BytecodeFunction) (fault : ℕ) (frame : Frame) (callers : List Frame)
        → FrameFits m h f frame
        → CallersFit m h frame.return_destination callers
        → suc (length callers) ≤ maximum_call_frames
        → Yields (UnwoundFits h) (search m fault frame callers)
    unfolding search
    search-Yields h f fault frame [] x c d =
        bind-Yields (Yields-eq {P = λ g. g ≡ f} x.function refl) λ g e. rw e (
          handle-Yields h f frame [] _ _ x c d
            (find_handler-Each _ fault _ (valid_function _ x.function).handlers) (yields tt))
    search-Yields h f fault frame (c ∷ callers) x (g, (y, (to, rest))) d =
        bind-Yields (Yields-eq {P = λ g. g ≡ f} x.function refl) λ _ e. rw e (
          handle-Yields h f frame (c ∷ callers) _ _ x (g, (y, (to, rest))) d
            (find_handler-Each _ fault _ (valid_function _ x.function).handlers)
            (search-Yields h g _ c callers y rest (omega arith)))

    module _ (p : Platform) where
      resume-Yields :
          (error : ℕ) (span : SourceSpan) (s : Machine) {f : BytecodeFunction} (found : Unwound)
          → Runs m f s
          → error < length s.heap.errors
          → UnwoundFits s.heap found
          → Yields (StepFits m) (resume m p error span s found)
      unfolding resume
      resume-Yields error span s Unwound.uncaught r l x =
          bind-Yields (get-Yields s.heap.errors r.heap.errors l) λ e _.
            bind-Yields (runtime_diagnostic-Yields _ _ span _ _ s r.frame r.callers)
              λ d _. yields (r.heap, l)
      resume-Yields error span s (Unwound.caught handler frame callers) r l (f, (x, (c, (v, d)))) =
          bind-Yields
            (write-Yields m (record { frame = frame; callers = callers; heap = s.heap })
              (RuntimeValue.error error)
              (record { frame = x; callers = c; heap = r.heap; depth = d }) v.1.1 l)
            λ s' w. yields (f, move_to m w.runs v.1.0)

      pub unwind_error-Yields :
          (error : ℕ) (span : SourceSpan) (s : Machine) {f : BytecodeFunction}
          → Runs m f s
          → error < length s.heap.errors
          → Yields (StepFits m) (unwind_error m p error span s)
      unfolding unwind_error
      unwind_error-Yields error span s {f} r l =
          bind-Yields (search-Yields s.heap f _ s.frame s.callers r.frame r.callers r.depth)
            λ found x. resume-Yields error span s found r l x

      pub raise-Yields :
          (code message : String) (span : SourceSpan) (cause : RuntimeValue) (s : Machine)
          {f : BytecodeFunction}
          → Runs m f s
          → ValueFits m s.heap cause
          → Yields (StepFits m) (raise m p code message span cause s)
      unfolding raise
      raise-Yields code message span cause s r x =
          unwind_error-Yields _ span _
            (Runs-extend m r (errors-Extends m s.heap r.heap (append-Sized _ r.heap.errors x)))
            (lt-append_last s.heap.errors _)
