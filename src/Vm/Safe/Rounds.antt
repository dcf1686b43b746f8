-- ===== src/Vm/Safe/Rounds.antt =====
-- runtime/kyna_vm/src/execution/bytecode_virtual_machine.cpp: a round of the loop on a valid module, any
-- number of them, and `execute`.
use kyna.Base.{
  subst, ℕ, zero, suc, ◌+◌, ◌<◌, ◌≡◌, ◌≢◌, refl, sym, List, [], ◌∷◌, none, some, arith, length,
  get_elem?, get_elem?-lt, All, All-get_elem?, All-replicate, length-replicate, Each, nothing,
  Yields, yields, bind-Yields, Yields-eq,
}
use kyna.Diagnostics.{Diagnostic}
use kyna.Bytecode.Program.{OpCode, BytecodeInstruction, BytecodeFunction, BytecodeModule}
use kyna.Bytecode.Validator.Functions.{validate_bytecode}
use kyna.Bytecode.Valid.{Leaves, Ends, ValidOperation, ValidFunction, ValidModule}
use kyna.Bytecode.Valid.Modules.{validate_bytecode_iff}
use kyna.Vm.Value.{RuntimeValue, Platform, empty_heap}
use kyna.Vm.Machine.{Machine, Step}
use kyna.Vm.Step.Round.{
  operation, execute_instruction, round, continue_with, Execution, rounds, start, execute_valid,
  execute,
}
use kyna.Vm.Safe.Fits.{IsCell, ValueFits, Runs, StepFits}
use kyna.Vm.Safe.Unwinding.{valid_function}
use kyna.Vm.Safe.Values.{
  More, result-Yields, jump-Yields, throw_error-Yields, load_constant-Yields, move-Yields,
  not_value-Yields, negate_value-Yields, equal_values-Yields, unequal_values-Yields,
  binary_values-Yields, load_capture-Yields, store_capture-Yields, jump_if_false-Yields,
}
use kyna.Vm.Safe.Closures.{make_closure-Yields, return-Yields}
use kyna.Vm.Safe.Targets.{DirectTarget, ClosedTargets}
use kyna.Vm.Safe.Calls.{call-Yields, call_indirect-Yields, Ends-nonempty}
use kyna.Vm.Safe.Natives.{AdapterFits, call_native-Yields, make_instance-Yields}
use kyna.Vm.Safe.Members.{
  load_member-Yields, bind_method-Yields, make_array-Yields, make_object-Yields,
}
use kyna.Vm.Safe.Elements.{load_index-Yields, store_index-Yields, store_member-Yields}

some_same : {i j : BytecodeInstruction} → some i ≡ some j → i ≡ j
some_same e = cc

-- Behind an instruction that does not leave the function there is another one.
Ends-more :
    (instructions : List BytecodeInstruction) (n : ℕ) (i : BytecodeInstruction)
    → Ends instructions
    → get_elem? instructions n ≡ some i
    → (Leaves i.opcode → ⊥)
    → n + 1 < length instructions
Ends-more [] n i e at o = absurd e
Ends-more (j ∷ []) zero i e at o = absurd (o (subst (λ k. Leaves k.opcode) (some_same at) e))
Ends-more (j ∷ []) (suc n) i e at o = absurd (cc)
Ends-more (j ∷ k ∷ instructions) zero i e at o = omega arith
Ends-more (j ∷ k ∷ instructions) (suc n) i e at o =
    omega (arith, Ends-more (k ∷ instructions) n i e at o)

module _ (m : BytecodeModule) (p : Platform) (valid : ValidModule m) (closed : ClosedTargets m)
    (natives : Each (AdapterFits m) p.natives) where
  module _ {f : BytecodeFunction} (i : BytecodeInstruction) (s : Machine) (r : Runs m f s) where
    operation-Yields :
        (opcode : OpCode)
        → ValidOperation m f i opcode
        → DirectTarget m i opcode
        → ((Leaves opcode → ⊥) → More f s)
        → Yields (StepFits m) (operation m p i opcode s)
    unfolding operation
    operation-Yields OpCode.load_constant v d more =
        load_constant-Yields m p valid i s r (more (λ l. l)) v.0 v.1
    operation-Yields OpCode.load_null v d more = result-Yields m i _ s r (more (λ l. l)) v tt
    operation-Yields OpCode.load_function v d more = result-Yields m i _ s r (more (λ l. l)) v.0 d
    operation-Yields OpCode.make_closure v d more = make_closure-Yields m i s r (more (λ l. l)) v
    operation-Yields OpCode.load_capture v d more =
        load_capture-Yields m p valid i s r (more (λ l. l)) v.0 v.1
    operation-Yields OpCode.store_capture v d more =
        store_capture-Yields m p valid i s r (more (λ l. l)) v.0 v.1.0 v.1.1
    operation-Yields OpCode.move v d more = move-Yields m p valid i s r (more (λ l. l)) v.0 v.1
    operation-Yields OpCode.negate v d more =
        negate_value-Yields m p valid i s r (more (λ l. l)) v.0 v.1
    operation-Yields OpCode.not v d more = not_value-Yields m p valid i s r (more (λ l. l)) v.0 v.1
    operation-Yields OpCode.equal v d more =
        equal_values-Yields m p valid i s r (more (λ l. l)) v.0 v.1.0 v.1.1
    operation-Yields OpCode.not_equal v d more =
        unequal_values-Yields m p valid i s r (more (λ l. l)) v.0 v.1.0 v.1.1
    operation-Yields OpCode.jump v d more = jump-Yields m i.first s r v
    operation-Yields OpCode.jump_if_false v d more =
        jump_if_false-Yields m p valid i s r (more (λ l. l)) v.0 v.1
    operation-Yields OpCode.call (to, (_, (_, (arguments, there, (_, inside))))) d more =
        call-Yields m p valid i s r (more (λ l. l)) to d (arguments, there, inside)
    operation-Yields OpCode.call_indirect v d more =
        call_indirect-Yields m p valid i s r (more (λ l. l)) v.0 v.1.0 v.1.1
    operation-Yields OpCode.call_native v d more =
        call_native-Yields m p valid i s r (more (λ l. l)) v.0 natives v.1.0 v.1.1
    operation-Yields OpCode.load_member v d more =
        load_member-Yields m p valid closed i s r (more (λ l. l)) v.0 v.1.0 v.1.1
    operation-Yields OpCode.bind_method v d more =
        bind_method-Yields m p valid closed i s r (more (λ l. l)) v.0 v.1.0 d
    operation-Yields OpCode.make_array v d more =
        make_array-Yields m p valid closed i s r (more (λ l. l)) v.0 v.1
    operation-Yields OpCode.make_object v d more =
        make_object-Yields m p valid closed i s r (more (λ l. l)) v.0 v
    operation-Yields OpCode.make_instance v d more =
        make_instance-Yields m p valid closed i s r (more (λ l. l)) v.0 v.1.0 v.1.1
    operation-Yields OpCode.load_index v d more =
        load_index-Yields m p valid i s r (more (λ l. l)) v.0 v.1.0 v.1.1
    operation-Yields OpCode.store_index v d more =
        store_index-Yields m p valid i s r (more (λ l. l)) v.0 v
    operation-Yields OpCode.store_member v d more =
        store_member-Yields m p valid i s r (more (λ l. l)) v.0 v
    operation-Yields OpCode.throw v d more = throw_error-Yields m p valid i s r v
    operation-Yields OpCode.return v d more = return-Yields m i s r v
    operation-Yields opcode v d more =
        binary_values-Yields m p valid i s r (more (λ l. l)) v.0 opcode v.1.0 v.1.1

  pub round-Yields :
      (f : BytecodeFunction) (s : Machine) → Runs m f s → Yields (StepFits m) (round m p s)
  unfolding round execute_instruction
  round-Yields f s r = bind-Yields (Yields-eq {P = λ g. g ≡ f} r.frame.function refl) λ g e.
      let (i, at) = get_elem?-lt f.instructions s.frame.instruction_pointer r.frame.inside in
      rw (e, at)
        (operation-Yields i s r i.opcode (All-get_elem? _ f.instructions _ i vf.instructions at)
          (All-get_elem? _ f.instructions _ i targets at)
          (Ends-more f.instructions _ i vf.ending at))
    where
      vf : ValidFunction m f
      vf = valid_function m valid s.frame.function r.frame.function

      targets : All (λ i. DirectTarget m i i.opcode) f.instructions
      targets =
          All-get_elem? (λ f. All (λ i. DirectTarget m i i.opcode) f.instructions) m.functions
            s.frame.function f closed.operations r.frame.function

  rounds-Yields :
      (n : ℕ) (step : Step)
      → StepFits m step
      → Yields (StepFits m) (continue_with (rounds m p n) step)
  unfolding rounds continue_with
  rounds-Yields n (Step.returned v h) x = yields x
  rounds-Yields n (Step.failed v d h) x = yields x
  rounds-Yields zero (Step.running s) x = yields x
  rounds-Yields (suc n) (Step.running s) (f, r) =
      bind-Yields (round-Yields f s r) λ step x. rounds-Yields n step x

  pub start-Runs :
      (entry : BytecodeFunction)
      → get_elem? m.functions m.entry_function ≡ some entry
      → entry.capture_count ≡ 0
      → Runs m entry (start m p entry)
  unfolding start
  start-Runs entry at count = record {
    frame = record {
      function = at;
      registers = All-replicate (ValueFits m empty_heap) entry.register_count RuntimeValue.null tt;
      register_count = length-replicate entry.register_count RuntimeValue.null;
      register_cells = All-replicate (Each (IsCell empty_heap)) entry.register_count none nothing;
      cell_count = length-replicate entry.register_count none;
      captures = tt;
      capture_count = sym count;
      override = nothing;
      inside = Ends-nonempty entry.instructions (valid_function m valid m.entry_function at).ending;
    };
    callers = tt;
    heap = record {
      objects = tt;
      arrays = tt;
      cells = tt;
      closures = tt;
      bound_methods = tt;
      errors = tt;
    };
    depth = omega arith;
  }

-- What `execute` returns: the diagnostics of the validator, if there are any, or what a number of rounds
-- leads to.
abbrev pub ExecutionFits : BytecodeModule → Execution → Type 0
ExecutionFits m (Execution.rejected ds) = (validate_bytecode m ≡ ds) × (ds ≢ [])
ExecutionFits m (Execution.executed step) = ValidModule m × StepFits m step

module _ (m : BytecodeModule) (p : Platform) (closed : ClosedTargets m)
    (natives : Each (AdapterFits m) p.natives) where
  execute_valid-Yields :
      (n : ℕ) (ds : List Diagnostic)
      → validate_bytecode m ≡ ds
      → Yields (ExecutionFits m) (execute_valid m p n ds)
  unfolding execute_valid continue_with
  execute_valid-Yields n (d ∷ ds) e = yields (e, λ none. absurd (cc))
  execute_valid-Yields n [] e =
      let (entry, at, count) = closed.entry in
      let valid = (validate_bytecode_iff m).0 e in
      bind-Yields (Yields-eq {P = λ g. g ≡ entry} at refl) λ _ e'. rw e' (
        bind-Yields
          (rounds-Yields m p valid closed natives n (Step.running (start m p entry))
            (entry, start-Runs m p valid closed natives entry at count))
          λ step x. yields (valid, x))

  -- `execute` makes no access out of range, in any number of rounds: it returns the diagnostics of the
  -- validator, where there are some, or else the module is valid and the rounds lead to a value, a
  -- diagnostic or a machine that fits it. The entry function, the functions that instructions run without
  -- a closure, methods and constructors must capture nothing, and native functions return what fits.
  pub execute-Yields : (n : ℕ) → Yields (ExecutionFits m) (execute m p n)
  unfolding execute
  execute-Yields n = execute_valid-Yields n (validate_bytecode m) refl
