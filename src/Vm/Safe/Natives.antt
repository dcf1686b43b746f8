-- ===== src/Vm/Safe/Natives.antt =====
-- runtime/kyna_vm/src/execution/bytecode_virtual_machine.cpp: the cases of `CallNative` and `MakeInstance`
-- on a valid module.
use kyna.Base.{
  ℕ, ◌+◌, ◌<◌, ◌≡◌, refl, List, [], ◌∷◌, Option, String, arith, length, All, leb, ◌==◌, Each,
  nothing, just, Yields, bind-Yields, Yields-eq, Yields-if,
}
use kyna.Bytecode.Program.{BytecodeInstruction, BytecodeFunction, BytecodeClass, BytecodeModule}
use kyna.Bytecode.Valid.{InRegister, ValidModule, Arguments}
use kyna.Vm.Value.{RuntimeValue, NativeResult, NativeAdapter, Heap, Platform}
use kyna.Vm.Machine.{Machine}
use kyna.Vm.Step.Calls
use kyna.Vm.Step.Calls.{maximum_call_frames, depth}
use kyna.Vm.Safe.Fits.{Uncaptured, ValueFits, HeapFits, Runs, StepFits}
use kyna.Vm.Safe.Heaps.{Extends, Runs-extend, objects-Extends, append-Sized, lt-append_last}
use kyna.Vm.Safe.Registers.{at-Yields, read_all-Yields}
use kyna.Vm.Safe.Unwinding.{raise-Yields}
use kyna.Vm.Safe.Values.{More, result-Yields}
use kyna.Vm.Safe.Calls.{push-Yields}
use kyna.Vm.Safe.Targets.{ClosedTargets, constructor_found, fields_initialized}

-- What a native function returns fits the heap that it leaves.
abbrev pub NativeFits : BytecodeModule → Heap → NativeResult → Type 0
NativeFits m h (NativeResult.value v) = ValueFits m h v
NativeFits m h (NativeResult.failure code message cause) = ValueFits m h cause

-- A native function, given values and a heap that fit, leaves a heap that fits and has all that it had,
-- and returns what fits.
abbrev pub AdapterFits : BytecodeModule → NativeAdapter → Type 0
AdapterFits m adapter =
    (name : String) (values : List RuntimeValue) (h : Heap)
    → HeapFits m h
    → All (ValueFits m h) values
    → Extends m h (adapter name values h).1
      × NativeFits m (adapter name values h).1 (adapter name values h).0

module _ (m : BytecodeModule) (p : Platform) (valid : ValidModule m) {f : BytecodeFunction}
    (i : BytecodeInstruction) (s : Machine) (r : Runs m f s) (more : More f s)
    (to : i.destination < f.register_count) where
  native_result-Yields :
      (h : Heap) (x : NativeResult)
      → Extends m s.heap h
      → NativeFits m h x
      → Yields (StepFits m) (Calls.native_result m p i (record s { heap = h }) x)
  unfolding Calls.native_result
  native_result-Yields h (NativeResult.value v) grown x =
      result-Yields m i v _ (Runs-extend m r grown) more to x
  native_result-Yields h (NativeResult.failure code message cause) grown x =
      raise-Yields m valid p code message i.span cause _ (Runs-extend m r grown) x

  invoke_native-Yields :
      (name : String) (adapter : Option NativeAdapter)
      → Each (AdapterFits m) adapter
      → Arguments m f i.second
      → Yields (StepFits m) (Calls.invoke_native m p i s name adapter)
  unfolding Calls.invoke_native
  invoke_native-Yields name _ nothing x = raise-Yields m valid p _ _ i.span RuntimeValue.null s r tt
  invoke_native-Yields name _ (just fits) (arguments, there, inside) =
      bind-Yields (Yields-eq {P = λ xs. xs ≡ arguments} there refl) λ _ e. rw e (
        bind-Yields (read_all-Yields m s arguments r inside) λ values y.
          let (grown, z) = fits name values s.heap r.heap y.0 in native_result-Yields _ _ grown z)

  pub call_native-Yields :
      Each (AdapterFits m) p.natives
      → i.first < length m.native_functions
      → Arguments m f i.second
      → Yields (StepFits m) (Calls.call_native m p i s)
  unfolding Calls.call_native
  call_native-Yields fits l x =
      bind-Yields (at-Yields m.native_functions l)
        λ name _. invoke_native-Yields name p.natives fits x

  plain_instance-Yields :
      (klass : BytecodeClass) (created : ℕ) (arguments : List ℕ)
      → created < length s.heap.objects
      → Yields (StepFits m) (Calls.plain_instance m p i klass created arguments s)
  unfolding Calls.plain_instance
  plain_instance-Yields klass created [] l = result-Yields m i _ s r more to l
  plain_instance-Yields klass created (a ∷ arguments) l =
      raise-Yields m valid p _ _ i.span (RuntimeValue.object created) s r l

  construct-Yields :
      (klass : BytecodeClass) (created : ℕ) (arguments : List ℕ) (found : Option ℕ)
      → created < length s.heap.objects
      → All (InRegister m f) arguments
      → Each (Uncaptured m) found
      → Yields (StepFits m) (Calls.construct m p i klass created arguments s found)
  unfolding Calls.construct Calls.enter_constructor
  construct-Yields klass created arguments _ l inside nothing =
      plain_instance-Yields klass created arguments l
  construct-Yields klass created arguments _ l inside (just (g, at, count)) =
      bind-Yields (Yields-eq {P = λ h. h ≡ g} at refl) λ _ e. rw e (
        Yields-if (g.parameter_count == length arguments + 1)
          (λ same.
            Yields-if (leb maximum_call_frames (depth s))
              (λ _. raise-Yields m valid p _ _ i.span (RuntimeValue.object created) s r l)
              λ deep. bind-Yields (read_all-Yields m s arguments r inside) λ values y.
                push-Yields m i s r more to valid g _ _ _ at (ground (arith, count)) tt (just l)
                  (l, y.0) (ground (arith, y.1)) (ground arith))
          λ _. raise-Yields m valid p _ _ i.span (RuntimeValue.object created) s r l)

module _ (m : BytecodeModule) (p : Platform) (valid : ValidModule m) (closed : ClosedTargets m)
    {f : BytecodeFunction} (i : BytecodeInstruction) (s : Machine) (r : Runs m f s)
    (more : More f s) (to : i.destination < f.register_count) where
  pub make_instance-Yields :
      i.first < length m.classes
      → Arguments m f i.second
      → Yields (StepFits m) (Calls.make_instance m p i s)
  unfolding Calls.make_instance
  make_instance-Yields l (arguments, there, inside) =
      bind-Yields (at-Yields m.classes l) λ klass at.
        bind-Yields (fields_initialized m valid s.heap i.first l) λ fields x.
          bind-Yields (Yields-eq {P = λ xs. xs ≡ arguments} there refl) λ _ e.
            bind-Yields (constructor_found m valid closed i.first l) λ found y. rw e (
              construct-Yields m p valid i _
                (Runs-extend m r (
                  objects-Extends m s.heap r.heap
                    (append-Sized _ r.heap.objects (record { fields = x; vm_class = just l }))))
                more to klass _ arguments found (lt-append_last s.heap.objects _) inside y)
