-- ===== src/Vm/Safe/Calls.antt =====
-- runtime/kyna_vm/src/execution/bytecode_virtual_machine.cpp: the cases of `Call`, `CallIndirect`,
-- `CallNative` and `MakeInstance` on a valid module.
use kyna.Base.{
  ℕ, ◌+◌, ◌≤◌, ◌<◌, ◌≡◌, refl, sym, ◌∙◌, List, [], ◌∷◌, Option, none, some, arith, length,
  get_elem?, set, replicate, All, All-set, All-replicate, length-set, length-replicate, leb, ◌==◌,
  Each, nothing, just, Yields, yields, bind-Yields, Yields-eq, Yields-if, Yields-map,
}
use kyna.Bytecode.Program.{BytecodeInstruction, BytecodeFunction, BytecodeModule}
use kyna.Bytecode.Valid.{InRegister, Ends, ValidModule, Arguments, Entry}
use kyna.Vm.Value.{RuntimeValue, Heap, Platform}
use kyna.Vm.Machine.{Machine}
use kyna.Vm.Step.Calls
use kyna.Vm.Step.Calls.{Callee, maximum_call_frames, depth, place, with_receiver, push, supplied}
use kyna.Vm.Safe.Fits.{IsCell, Uncaptured, ValueFits, Runs, StepFits}
use kyna.Vm.Safe.Registers.{put-Yields, get-Yields, read-Yields, read_all-Yields, move_to}
use kyna.Vm.Safe.Unwinding.{valid_function, raise-Yields}
use kyna.Vm.Safe.Values.{More}

pub Ends-nonempty :
    (instructions : List BytecodeInstruction) → Ends instructions → 0 < length instructions
Ends-nonempty [] e = absurd e
Ends-nonempty (i ∷ []) e = omega arith
Ends-nonempty (i ∷ j ∷ instructions) e = omega arith

-- The function can be called with the captures, and the receiver is there.
pub record CalleeFits (m : BytecodeModule) (h : Heap) (c : Callee) : Type 0 where
  pub function : Entry m.functions c.function λ g. length c.captures ≡ g.capture_count
  pub captures : All (IsCell h) c.captures
  pub receiver : Each (λ a. a < length h.objects) c.receiver

module _ (m : BytecodeModule) where
  place-Yields :
      (h : Heap) (offset : ℕ) (values registers : List RuntimeValue)
      → offset + length values ≤ length registers
      → All (ValueFits m h) values
      → All (ValueFits m h) registers
      → Yields
          (λ rs. All (ValueFits m h) rs × (length rs ≡ length registers))
          (place offset values registers)
  unfolding place
  place-Yields h offset [] registers l x y = yields (y, refl)
  place-Yields h offset (v ∷ values) registers l x y =
      bind-Yields (put-Yields registers v (omega arith)) λ registers' e. rw e (
        Yields-map (λ rs z. (z.0, z.1 ∙ length-set registers offset v))
          (place-Yields h (offset + 1) values (set registers offset v)
            (omega (arith, length-set registers offset v)) x.1
            (All-set (ValueFits m h) registers offset v y x.0)))

  no_cells : (h : Heap) (n : ℕ) → All (Each (IsCell h)) (replicate n none)
  no_cells h n = All-replicate (Each (IsCell h)) n none nothing

  module _ {f : BytecodeFunction} (i : BytecodeInstruction) (s : Machine) (r : Runs m f s)
      (more : More f s) (to : i.destination < f.register_count) where
    pub push-Yields :
        (valid : ValidModule m) (g : BytecodeFunction) (c : Callee) (override : Option RuntimeValue)
        (values : List RuntimeValue)
        → get_elem? m.functions c.function ≡ some g
        → length c.captures ≡ g.capture_count
        → All (IsCell s.heap) c.captures
        → Each (ValueFits m s.heap) override
        → All (ValueFits m s.heap) values
        → length values ≡ g.parameter_count
        → depth s < maximum_call_frames
        → Yields (StepFits m) (push i g c override values s)
    unfolding push
    push-Yields valid g c override values at count captures o x n d =
        let vg = valid_function m valid c.function at in
        bind-Yields
          (place-Yields s.heap 0 values (replicate g.register_count RuntimeValue.null)
            (omega (arith, n, vg.parameters, length-replicate g.register_count RuntimeValue.null)) x
            (All-replicate (ValueFits m s.heap) g.register_count RuntimeValue.null tt))
          λ registers y. yields (
            g,
            record {
              frame = record {
                function = at;
                registers = y.0;
                register_count = y.1 ∙ length-replicate g.register_count RuntimeValue.null;
                register_cells = no_cells s.heap g.register_count;
                cell_count = length-replicate g.register_count none;
                captures = captures;
                capture_count = count;
                override = o;
                inside = Ends-nonempty g.instructions vg.ending;
              };
              callers = (f, ((move_to m r more).frame, ((i.destination, (refl, to)), r.callers)));
              heap = r.heap;
              depth = d;
            },
          )

  receiver-Fits :
      (h : Heap) (receiver : Option ℕ) (values : List RuntimeValue)
      → Each (λ a. a < length h.objects) receiver
      → All (ValueFits m h) values
      → All (ValueFits m h) (with_receiver receiver values)
  unfolding with_receiver
  receiver-Fits h _ values nothing x = x
  receiver-Fits h _ values (just l) x = (l, x)

  module _ (p : Platform) where
    supplied-length :
        (receiver : Option ℕ) (arguments : List ℕ) (values : List RuntimeValue)
        → length values ≡ length arguments
        → length (with_receiver receiver values) ≡ supplied m p receiver arguments
    unfolding with_receiver supplied
    supplied-length none arguments values e = e
    supplied-length (some a) arguments values e = omega (arith, e)

    module _ (valid : ValidModule m) {f : BytecodeFunction} (i : BytecodeInstruction) where
      module _ (s : Machine) (r : Runs m f s) (more : More f s)
          (to : i.destination < f.register_count) where
        enter-Yields :
            (g : BytecodeFunction) (c : Callee) (arguments : List ℕ)
            → get_elem? m.functions c.function ≡ some g
            → length c.captures ≡ g.capture_count
            → All (IsCell s.heap) c.captures
            → Each (λ a. a < length s.heap.objects) c.receiver
            → All (InRegister m f) arguments
            → supplied m p c.receiver arguments ≡ g.parameter_count
            → Yields (StepFits m) (Calls.enter m p i g c arguments s)
        unfolding Calls.enter
        enter-Yields g c arguments at count captures receiver x n =
            Yields-if (leb maximum_call_frames (depth s))
              (λ _. raise-Yields m valid p _ _ i.span RuntimeValue.null s r tt)
              λ e. bind-Yields (read_all-Yields m s arguments r x) λ values y.
                push-Yields i s r more to valid g c none _ at count captures nothing
                  (receiver-Fits s.heap c.receiver values receiver y.0)
                  (supplied-length c.receiver arguments values y.1 ∙ n) (ground arith)

        call_function-Yields :
            (c : Callee)
            → CalleeFits m s.heap c
            → Arguments m f i.second
            → Yields (StepFits m) (Calls.call_function m p i s c)
        unfolding Calls.call_function
        call_function-Yields c x (arguments, there, inside) =
            let (g, at, count) = x.function in
            bind-Yields (Yields-eq {P = λ h. h ≡ g} at refl) λ _ e.
              bind-Yields (Yields-eq {P = λ xs. xs ≡ arguments} there refl) λ _ e'.
                rw (e, e')
                  (Yields-if (supplied m p c.receiver arguments == g.parameter_count)
                    (λ same.
                      enter-Yields g c arguments at count x.captures x.receiver inside
                        (ground arith))
                    λ _. raise-Yields m valid p _ _ i.span RuntimeValue.null s r tt)

        direct-Fits :
            (index : ℕ)
            → Uncaptured m index
            → CalleeFits m s.heap (record { function = index; captures = []; receiver = none })
        direct-Fits index (g, at, count) = record {
          function = (g, at, sym count);
          captures = tt;
          receiver = nothing;
        }

        pub call-Yields :
            Uncaptured m i.first → Arguments m f i.second → Yields (StepFits m) (Calls.call m p i s)
        unfolding Calls.call
        call-Yields u x = call_function-Yields _ (direct-Fits i.first u) x

        call_value-Yields :
            (v : RuntimeValue)
            → ValueFits m s.heap v
            → Arguments m f i.second
            → Yields (StepFits m) (Calls.call_value m p i s v)
        unfolding Calls.call_value
        call_value-Yields (RuntimeValue.function_reference index) u x =
            call_function-Yields _ (direct-Fits index u) x
        call_value-Yields (RuntimeValue.closure a) l x =
            bind-Yields (get-Yields s.heap.closures r.heap.closures l) λ c y.
              call_function-Yields _
                (record { function = y.function; captures = y.captures; receiver = nothing }) x
        call_value-Yields (RuntimeValue.bound_method a) l x =
            bind-Yields (get-Yields s.heap.bound_methods r.heap.bound_methods l) λ b y.
              call_function-Yields _
                (record {
                  function = (direct-Fits b.function y.function).function;
                  captures = tt;
                  receiver = just y.receiver;
                })
                x
        call_value-Yields v u x = raise-Yields m valid p _ _ i.span v s r u

        pub call_indirect-Yields :
            InRegister m f i.first
            → Arguments m f i.second
            → Yields (StepFits m) (Calls.call_indirect m p i s)
        unfolding Calls.call_indirect
        call_indirect-Yields l x = bind-Yields (read-Yields m s r l) λ v u. call_value-Yields v u x
