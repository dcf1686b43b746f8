-- ===== src/Generator/Outcomes.antt =====
-- compiler/kyna_bytecode/src/generators/program_bytecode_compiler.cpp: the results of `compileMirToBytecode`,
-- and the execution of the module that it returns (runtime/kyna_vm).
use kyna.Base.{
  ℕ, ◌+◌, ◌<◌, ◌≡◌, ◌≢◌, refl, sym, subst, List, [], ◌∷◌, Option, none, some, map, length,
  get_elem?-lt, arith, All, Each, nothing, just, Yields, yields, bind-Yields, Yields-map,
}
use kyna.Diagnostics.{Diagnostic}
use kyna.Bytecode.Program.{BytecodeFunction, BytecodeModule}
use kyna.Bytecode.Validator.Operation.{capture_count_at}
use kyna.Bytecode.Validator.Functions.{validate_bytecode}
use kyna.Bytecode.Valid.{EachOf, ValidModule}
use kyna.Bytecode.Valid.Modules.{validate_bytecode_iff}
use kyna.Mir.Program.{
  MirBasicBlock, MirExceptionRegion, MirFunction, MirClassMethod, MirClass, MirProgram,
}
use kyna.Mir.Verifier.{capture_count, function_at}
use kyna.Mir.Verifier.Bodies.{verify_mir}
use kyna.Mir.Valid.{ValidBody, ValidProgram, ValidFunction, ValidClass}
use kyna.Mir.Valid.Programs.{verify_mir_iff}
use kyna.Generator.Programs.{
  BytecodeCompileResult, module_function, function_header, shifted, compile_method, compile_class,
  declared, validated, compile_verified, compile_mir_to_bytecode,
}
use kyna.Generator.Functions.{BlockDirect, blocks-DirectTarget}
use kyna.Generator.Laid.{FunctionOf, FunctionsOf, Laid, generate-Laid}
use kyna.Generator.Sound.{Generable, declares, Laid-ValidModule}
use kyna.Vm.Value.{Platform}
use kyna.Vm.Safe.Fits.{Uncaptured}
use kyna.Vm.Safe.Natives.{AdapterFits}
use kyna.Vm.Safe.Targets.{DirectTarget, ClosedClass, ClosedTargets}
use kyna.Vm.Safe.Rounds.{ExecutionFits, execute-Yields}
use kyna.Vm.Step.Round.{execute}

-- Functions that are run without a closure, methods and constructors capture nothing.
pub record ClosedProgram (p : MirProgram) : Type 0 where
  pub direct : All (BlockDirect p) p.blocks
  pub function_direct : All (λ f. All (BlockDirect p) f.blocks) p.functions
  pub constructors : All (λ k. EachOf k.constructor (λ c. capture_count p (c + 1) ≡ 0)) p.classes
  pub methods : All (λ k. All (λ x. capture_count p (x.function + 1) ≡ 0) k.methods) p.classes

-- The diagnostics of the verifier or of the validator and no module, or a valid module of the program.
pub data CompileOutcome (p : MirProgram) : BytecodeCompileResult → Type 0 where
  rejected :
      verify_mir p ≢ [] → CompileOutcome p (record { unit = none; diagnostics = verify_mir p })
  refused :
      (m : BytecodeModule)
      → ValidProgram p
      → Laid p m
      → (ValidModule m → ⊥)
      → CompileOutcome p (record { unit = none; diagnostics = validate_bytecode m })
  compiled :
      (m : BytecodeModule)
      → ValidProgram p
      → Laid p m
      → ValidModule m
      → CompileOutcome p (record { unit = some m; diagnostics = [] })

validated-CompileOutcome :
    (p : MirProgram) (m : BytecodeModule) (ds : List Diagnostic)
    → validate_bytecode m ≡ ds
    → ValidProgram p
    → Laid p m
    → CompileOutcome p (validated m ds)
unfolding validated
validated-CompileOutcome p m [] e v laid =
    CompileOutcome.compiled m v laid ((validate_bytecode_iff m).0 e)
validated-CompileOutcome p m (d ∷ ds) e v laid =
    subst (λ xs. CompileOutcome p (record { unit = none; diagnostics = xs })) e
      (CompileOutcome.refused m v laid λ valid. cc (e, (validate_bytecode_iff m).1 valid))

verified-CompileOutcome :
    (p : MirProgram) (ds : List Diagnostic)
    → verify_mir p ≡ ds
    → Yields (CompileOutcome p) (compile_verified p ds)
unfolding compile_verified
verified-CompileOutcome p [] e =
    let v = (verify_mir_iff p).0 e in
    bind-Yields (generate-Laid p v)
      λ m laid. yields (validated-CompileOutcome p m (validate_bytecode m) refl v laid)
verified-CompileOutcome p (d ∷ ds) e =
    subst (λ xs. Yields (CompileOutcome p) (some (record { unit = none; diagnostics = xs }))) e
      (yields (CompileOutcome.rejected λ empty. cc (e, empty)))

-- `compileMirToBytecode` reads nothing out of range, on any program. It returns the diagnostics of the
-- verifier and no module, or, on a valid program, a module of the program that is valid, or the diagnostics
-- of the validator and no module, where the module of the program is not valid.
pub compile-CompileOutcome :
    (p : MirProgram) → Yields (CompileOutcome p) (compile_mir_to_bytecode p)
unfolding compile_mir_to_bytecode
compile-CompileOutcome p = verified-CompileOutcome p (verify_mir p) refl

module _ (p : MirProgram) where
  module _ (m : BytecodeModule) (laid : Laid p m) (v : ValidProgram p)
      (closed : ClosedProgram p) where
    function-Direct :
        (entry_block : ℕ) (blocks : List MirBasicBlock) (regions : List MirExceptionRegion)
        (head f : BytecodeFunction)
        → ValidBody p head.register_count head.capture_count head.parameter_count entry_block blocks
            regions
        → All (BlockDirect p) blocks
        → FunctionOf m blocks regions head f
        → All (λ i. DirectTarget m i i.opcode) f.instructions
    function-Direct entry_block blocks regions head f valid r x =
        blocks-DirectTarget p m (declares p m laid) f (length blocks) x.body.code
          (subst
            (λ (g : BytecodeFunction).
              ValidBody p g.register_count g.capture_count g.parameter_count entry_block blocks
                regions)
            (sym x.same) valid).each_block
          r

    functions-Direct :
        (fs : List MirFunction) (gs : List BytecodeFunction)
        → FunctionsOf m fs gs
        → All (ValidFunction p) fs
        → All (λ f. All (BlockDirect p) f.blocks) fs
        → All (λ g. All (λ i. DirectTarget m i i.opcode) g.instructions) gs
    unfolding function_header
    functions-Direct _ _ FunctionsOf.done v r = tt
    functions-Direct _ _ (FunctionsOf.next {f} {fs} {g} {gs} x xs) v r = (
      function-Direct f.entry_block f.blocks f.exception_regions (function_header f) g v.0 r.0 x,
      functions-Direct fs gs xs v.1 r.1,
    )

    uncaptured : (k : ℕ) → k < length m.functions → capture_count p k ≡ 0 → Uncaptured m k
    unfolding capture_count_at
    uncaptured k l none_captured =
        let (g, at) = get_elem?-lt m.functions k l in
        let count : capture_count_at m.functions k ≡ g.capture_count =
          rw (at, capture_count_at) refl in
        (g, at, omega (arith, count, (declares p m laid).captures k, none_captured))

    constructor-Closed :
        (o : Option ℕ)
        → EachOf o (λ c. c < length p.functions)
        → EachOf o (λ c. capture_count p (c + 1) ≡ 0)
        → Each (Uncaptured m) (shifted o)
    unfolding shifted
    constructor-Closed none l r = nothing
    constructor-Closed (some c) l r =
        just (uncaptured (c + 1) (omega (arith, l, (declares p m laid).count)) r)

    methods-Closed :
        (xs : List MirClassMethod)
        → All (λ x. x.function < length p.functions) xs
        → All (λ x. capture_count p (x.function + 1) ≡ 0) xs
        → All (λ x. Uncaptured m x.function) (map compile_method xs)
    unfolding compile_method
    methods-Closed [] l r = tt
    methods-Closed (x ∷ xs) l r = (
      uncaptured (x.function + 1) (omega (arith, l.0, (declares p m laid).count)) r.0,
      methods-Closed xs l.1 r.1,
    )

    classes-Closed :
        (ks : List MirClass)
        → All (ValidClass p) ks
        → All (λ k. EachOf k.constructor (λ c. capture_count p (c + 1) ≡ 0)) ks
        → All (λ k. All (λ x. capture_count p (x.function + 1) ≡ 0) k.methods) ks
        → All (ClosedClass m) (map compile_class ks)
    unfolding compile_class
    classes-Closed [] v c r = tt
    classes-Closed (k ∷ ks) v c r = (
      record {
        constructor = constructor-Closed k.constructor v.0.constructor c.0;
        methods = methods-Closed k.methods v.0.methods r.0;
      },
      classes-Closed ks v.1 c.1 r.1,
    )

    Laid-ClosedTargets : ClosedTargets m
    unfolding declared module_function capture_count function_at
    Laid-ClosedTargets = record {
      entry =
          subst (Uncaptured m) (sym (declares p m laid).entry)
            (uncaptured 0 (omega (arith, (declares p m laid).count)) refl);
      operations =
          subst (λ fs. All (λ f. All (λ i. DirectTarget m i i.opcode) f.instructions) fs)
            (sym laid.functions)
            (
              function-Direct p.entry_block p.blocks p.exception_regions (module_function p)
                  laid.body v.body closed.direct laid.module_body,
              functions-Direct p.functions laid.others laid.bodies v.functions
                  closed.function_direct,
            );
      classes =
          subst (λ ks. All (ClosedClass m) ks) (sym laid.grown.classes)
            (classes-Closed p.classes v.classes closed.constructors closed.methods);
    }

  -- The result has a valid module, no diagnostics, and the machine runs the module in bounds.
  pub record RunsSafely (platform : Platform) (n : ℕ) (r : BytecodeCompileResult) : Type 0 where
    pub result : BytecodeModule
    pub there : r.unit ≡ some result
    pub silent : r.diagnostics ≡ []
    pub valid : ValidModule result
    pub executes : Yields (ExecutionFits result) (execute result platform n)

  Generable-Runs :
      (platform : Platform) (n : ℕ)
      → ((m : BytecodeModule) → Each (AdapterFits m) platform.natives)
      → Generable p
      → ClosedProgram p
      → ValidProgram p
      → (r : BytecodeCompileResult) → CompileOutcome p r
      → RunsSafely platform n r
  Generable-Runs platform n natives g closed v _ (CompileOutcome.rejected e) =
      absurd (e ((verify_mir_iff p).1 v))
  Generable-Runs platform n natives g closed v _ (CompileOutcome.refused m _ laid invalid) =
      absurd (invalid (Laid-ValidModule p m laid v g))
  Generable-Runs platform n natives g closed v _ (CompileOutcome.compiled m _ laid valid) = record {
    result = m;
    there = refl;
    silent = refl;
    valid = valid;
    executes = execute-Yields m platform (Laid-ClosedTargets m laid v closed) (natives m) n;
  }

  -- A valid program, with temporaries in each body, receivers for methods and constructors, no cycle among
  -- its classes, and no captures in functions that are run without a closure, compiles to a module
  -- without diagnostics. The machine makes no access out of range when it executes that module for any
  -- number of rounds, where native functions return what fits.
  pub compile-RunsSafely :
      (platform : Platform) (n : ℕ)
      → ((m : BytecodeModule) → Each (AdapterFits m) platform.natives)
      → Generable p
      → ClosedProgram p
      → ValidProgram p
      → Yields (RunsSafely platform n) (compile_mir_to_bytecode p)
  compile-RunsSafely platform n natives g closed v =
      Yields-map (Generable-Runs platform n natives g closed v) (compile-CompileOutcome p)
