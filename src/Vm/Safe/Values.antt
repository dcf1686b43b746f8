-- ===== src/Vm/Safe/Values.antt =====
-- runtime/kyna_vm/src/execution/bytecode_virtual_machine.cpp: the cases that compute a value, jump,
-- close over variables, throw and return, on a valid module.
use kyna.Base.{ℕ, ◌+◌, ◌<◌, ◌≡◌, List, arith, length, set, Yields, yields, bind-Yields, Yields-if}
use kyna.Bytecode.Program.{
  OpCode, BytecodeInstruction, BytecodeFunction, BytecodeModule, BytecodeConstant,
}
use kyna.Bytecode.Valid.{ValidModule}
use kyna.Vm.Value.{RuntimeValue, Heap, Platform, constant_value}
use kyna.Vm.Value.Display.{is_truthy}
use kyna.Vm.Machine.{Machine}
use kyna.Vm.Arithmetic.{Computed}
use kyna.Vm.Step.Values
use kyna.Vm.Safe.Fits.{ValueFits, Runs, StepFits}
use kyna.Vm.Safe.Heaps.{Runs-extend, cells-Extends, set-Sized}
use kyna.Vm.Safe.Registers.{get-Yields, at-Yields, put-Yields, read-Yields, write-Yields, move_to}
use kyna.Vm.Safe.Unwinding.{unwind_error-Yields, raise-Yields}
use kyna.Vm.Safe.Computing.{ComputedFits, valued, raised, negate-Fits, binary-Yields}

-- There is an instruction behind the one at the pointer.
abbrev pub More : BytecodeFunction → Machine → Type 0
More f s = s.frame.instruction_pointer + 1 < length f.instructions

module _ (m : BytecodeModule) {f : BytecodeFunction} where
  pub proceed-Yields :
      (s : Machine) → Runs m f s → More f s → Yields (StepFits m) (Values.proceed s)
  unfolding Values.proceed
  proceed-Yields s r more = yields (f, move_to m r more)

  pub result-Yields :
      (i : BytecodeInstruction) (v : RuntimeValue) (s : Machine)
      → Runs m f s
      → More f s
      → i.destination < f.register_count
      → ValueFits m s.heap v
      → Yields (StepFits m) (Values.result i v s)
  unfolding Values.result
  result-Yields i v s r more l x =
      bind-Yields (write-Yields m s v r l x)
        λ s' w. proceed-Yields s' w.runs (omega (arith, w.still))

  pub jump-Yields :
      (target : ℕ) (s : Machine)
      → Runs m f s
      → target < length f.instructions
      → Yields (StepFits m) (Values.jump target s)
  unfolding Values.jump
  jump-Yields target s r l = yields (f, move_to m r l)

constant_value-Fits :
    (m : BytecodeModule) (h : Heap) (c : BytecodeConstant) → ValueFits m h (constant_value c)
unfolding constant_value
constant_value-Fits m h BytecodeConstant.null = tt
constant_value-Fits m h (BytecodeConstant.boolean b) = tt
constant_value-Fits m h (BytecodeConstant.integer x) = tt
constant_value-Fits m h (BytecodeConstant.floating x) = tt
constant_value-Fits m h (BytecodeConstant.string s) = tt
constant_value-Fits m h (BytecodeConstant.character c) = tt

module _ (m : BytecodeModule) (p : Platform) (valid : ValidModule m) {f : BytecodeFunction} where
  conclude-Yields :
      (i : BytecodeInstruction) (s : Machine) {c : Computed}
      → Runs m f s
      → More f s
      → i.destination < f.register_count
      → ComputedFits m s.heap c
      → Yields (StepFits m) (Values.conclude m p i s c)
  unfolding Values.conclude
  conclude-Yields i s r more l (valued x) = result-Yields m i _ s r more l x
  conclude-Yields i s r more l raised = raise-Yields m valid p _ _ i.span RuntimeValue.null s r tt

  throw_value-Yields :
      (i : BytecodeInstruction) (s : Machine) (v : RuntimeValue)
      → Runs m f s
      → ValueFits m s.heap v
      → Yields (StepFits m) (Values.throw_value m p i s v)
  unfolding Values.throw_value
  throw_value-Yields i s (RuntimeValue.error e) r x = unwind_error-Yields m valid p e i.span s r x
  throw_value-Yields i s v r x = raise-Yields m valid p _ _ i.span v s r x

  module _ (i : BytecodeInstruction) (s : Machine) (r : Runs m f s) where
    pub throw_error-Yields :
        i.first < f.register_count → Yields (StepFits m) (Values.throw_error m p i s)
    unfolding Values.throw_error
    throw_error-Yields l = bind-Yields (read-Yields m s r l) λ v x. throw_value-Yields i s v r x

    module _ (more : More f s) (to : i.destination < f.register_count) where
      pub load_constant-Yields :
          i.first < length m.constants → Yields (StepFits m) (Values.load_constant m i s)
      unfolding Values.load_constant
      load_constant-Yields l =
          bind-Yields (at-Yields m.constants l)
            λ c _. result-Yields m i _ s r more to (constant_value-Fits m s.heap c)

      pub move-Yields : i.first < f.register_count → Yields (StepFits m) (Values.move i s)
      unfolding Values.move
      move-Yields l = bind-Yields (read-Yields m s r l) λ v x. result-Yields m i v s r more to x

      pub not_value-Yields :
          i.first < f.register_count → Yields (StepFits m) (Values.not_value m p i s)
      unfolding Values.not_value
      not_value-Yields l =
          bind-Yields (read-Yields m s r l) λ v x. result-Yields m i _ s r more to tt

      pub negate_value-Yields :
          i.first < f.register_count → Yields (StepFits m) (Values.negate_value m p i s)
      unfolding Values.negate_value
      negate_value-Yields l =
          bind-Yields (read-Yields m s r l)
            λ v x. conclude-Yields i s r more to (negate-Fits m p s.heap v)

      pub equal_values-Yields :
          i.first < f.register_count
          → i.second < f.register_count
          → Yields (StepFits m) (Values.equal_values m p i s)
      unfolding Values.equal_values
      equal_values-Yields l k =
          bind-Yields (read-Yields m s r l)
            λ v x. bind-Yields (read-Yields m s r k) λ w y. result-Yields m i _ s r more to tt

      pub unequal_values-Yields :
          i.first < f.register_count
          → i.second < f.register_count
          → Yields (StepFits m) (Values.unequal_values m p i s)
      unfolding Values.unequal_values
      unequal_values-Yields l k =
          bind-Yields (read-Yields m s r l)
            λ v x. bind-Yields (read-Yields m s r k) λ w y. result-Yields m i _ s r more to tt

      pub binary_values-Yields :
          (opcode : OpCode)
          → i.first < f.register_count
          → i.second < f.register_count
          → Yields (StepFits m) (Values.binary_values m p i opcode s)
      unfolding Values.binary_values
      binary_values-Yields opcode l k = bind-Yields (read-Yields m s r l) λ v x.
          bind-Yields (read-Yields m s r k) λ w y.
            bind-Yields (binary-Yields m p s.heap opcode v w) λ c z. conclude-Yields i s r more to z

      pub load_capture-Yields :
          i.first < f.capture_count → Yields (StepFits m) (Values.load_capture i s)
      unfolding Values.load_capture
      load_capture-Yields l =
          bind-Yields
            (get-Yields s.frame.captures r.frame.captures (omega (arith, r.frame.capture_count)))
            λ cell c.
              bind-Yields (get-Yields s.heap.cells r.heap.cells c)
                λ v x. result-Yields m i v s r more to x

      pub store_capture-Yields :
          i.second < f.register_count
          → i.first < f.capture_count
          → Yields (StepFits m) (Values.store_capture i s)
      unfolding Values.store_capture
      store_capture-Yields k l =
          bind-Yields
            (get-Yields s.frame.captures r.frame.captures (omega (arith, r.frame.capture_count)))
            λ cell c. bind-Yields (read-Yields m s r k) λ v x.
              bind-Yields (put-Yields s.heap.cells v c) λ cells e.
                let r' = stored cell v cells e x in
                bind-Yields (read-Yields m _ r' k) λ w y. result-Yields m i w _ r' more to y
        where
          stored :
              (cell : ℕ) (v : RuntimeValue) (cells : List RuntimeValue)
              → cells ≡ set s.heap.cells cell v
              → ValueFits m s.heap v
              → Runs m f (record s { heap = record s.heap { cells = cells } })
          stored cell v cells e x =
              rw e
                (Runs-extend m r (cells-Extends m s.heap r.heap (set-Sized cell v r.heap.cells x)))

    pub jump_if_false-Yields :
        More f s
        → i.first < f.register_count
        → i.second < length f.instructions
        → Yields (StepFits m) (Values.jump_if_false m p i s)
    unfolding Values.jump_if_false
    jump_if_false-Yields more l k = bind-Yields (read-Yields m s r l) λ v x.
        Yields-if (is_truthy p v) (λ _. proceed-Yields m s r more)
          (λ _. jump-Yields m i.second s r k)
