-- ===== src/Generator/Sound.antt =====
-- compiler/kyna_bytecode/src/generators/program_bytecode_compiler.cpp: the module of a valid program is
-- valid, and its execution is safe.
use kyna.Base.{
  ℕ, zero, suc, ◌+◌, ◌<◌, ◌≡◌, ◌≢◌, refl, sym, ◌∙◌, subst, true, List, [], ◌∷◌, Option, none, some,
  map, length, get_elem?, arith, ap, All, Yields, Yields-map,
}
use kyna.Bytecode.Program.{BytecodeFunction, BytecodeModule}
use kyna.Bytecode.Ancestors.{ends_within}
use kyna.Bytecode.Validator.Operation.{parameter_count_at, capture_count_at}
use kyna.Bytecode.Valid.Counts.{parameters_iff}
use kyna.Bytecode.Valid.{ValidFunction, ValidClass, EachOf, TakesReceiver, ValidModule}
use kyna.Mir.Program.{
  MirBasicBlock, MirExceptionRegion, MirFunction, MirClassMethod, MirClass, MirProgram,
}
use kyna.Mir.Verifier.{function_at, parameter_count, capture_count}
use kyna.Mir.Valid.{
  ValidBody, ValidProgram, ValidFunction as ValidMirFunction, ValidClass as ValidMirClass,
}
use kyna.Generator.Programs.{
  module_function, function_header, shifted, compile_method, compile_class, declared, generate,
}
use kyna.Generator.Growth.{Grows}
use kyna.Generator.Operations.{Declares}
use kyna.Generator.Functions.{BlockReceives, body-ValidFunction}
use kyna.Generator.Laid.{FunctionOf, FunctionsOf, Laid, generate-Laid}

-- What the validator asks of a program, and the verifier does not: temporaries in each body, receivers for
-- methods and constructors, and classes without a cycle.
pub record Generable (p : MirProgram) : Type 0 where
  pub temporaries : p.temporary_count ≢ 0
  pub function_temporaries : All (λ f. f.temporary_count ≢ 0) p.functions
  pub receivers : All (BlockReceives p) p.blocks
  pub function_receivers : All (λ f. All (BlockReceives p) f.blocks) p.functions
  pub constructors : All (λ k. EachOf k.constructor (λ c. parameter_count p (c + 1) ≢ 0)) p.classes
  pub methods : All (λ k. All (λ x. parameter_count p (x.function + 1) ≢ 0) k.methods) p.classes
  pub acyclic :
      (index : ℕ)
      → index < length p.classes
      → ends_within (suc (length p.classes)) (map compile_class p.classes) (some index) ≡ true

length-map {ℓ κ} :
    {A : Type ℓ} {B : Type κ} (f : A → B) (xs : List A) → length (map f xs) ≡ length xs
length-map f [] = refl
length-map f (x ∷ xs) = ap suc (length-map f xs)

module _ (p : MirProgram) where
  declared-Declares : Declares p (declared p)
  unfolding declared parameter_count capture_count function_at parameter_count_at capture_count_at
      module_function function_header
  declared-Declares = record {
    count = omega (arith, length-map function_header p.functions);
    parameters = parameters;
    captures = captures;
    classes = length-map compile_class p.classes;
    entry = refl;
  }
    where
      parameters :
          (k : ℕ)
          → parameter_count_at (module_function p ∷ map function_header p.functions) k
            ≡ parameter_count p k
      parameters zero = refl
      parameters (suc k) = go p.functions k
        where
          go :
              (fs : List MirFunction) (k : ℕ)
              → parameter_count_at (map function_header fs) k
                ≡ elim (get_elem? fs k) [ some f ↦ f.parameter_count | none ↦ 0 ]
          go [] k = refl
          go (f ∷ fs) zero = refl
          go (f ∷ fs) (suc k) = go fs k

      captures :
          (k : ℕ)
          → capture_count_at (module_function p ∷ map function_header p.functions) k
            ≡ capture_count p k
      captures zero = refl
      captures (suc k) = go p.functions k
        where
          go :
              (fs : List MirFunction) (k : ℕ)
              → capture_count_at (map function_header fs) k
                ≡ elim (get_elem? fs k) [ some f ↦ length f.captures | none ↦ 0 ]
          go [] k = refl
          go (f ∷ fs) zero = refl
          go (f ∷ fs) (suc k) = go fs k

  Declares-Grows : {m m' : BytecodeModule} → Grows m m' → Declares p m → Declares p m'
  Declares-Grows g d = record {
    count = g.heads.count ∙ d.count;
    parameters = λ k. g.heads.parameters k ∙ d.parameters k;
    captures = λ k. g.heads.captures k ∙ d.captures k;
    classes = ap length g.classes ∙ d.classes;
    entry = g.entry ∙ d.entry;
  }

  module _ (m : BytecodeModule) (laid : Laid p m) where
    pub declares : Declares p m
    declares = Declares-Grows laid.grown declared-Declares

    function-Valid :
        (entry_block : ℕ) (blocks : List MirBasicBlock) (regions : List MirExceptionRegion)
        (head f : BytecodeFunction)
        → ValidBody p head.register_count head.capture_count head.parameter_count entry_block blocks
            regions
        → head.register_count ≢ 0
        → All (BlockReceives p) blocks
        → FunctionOf m blocks regions head f
        → ValidFunction m f
    function-Valid entry_block blocks regions head f v registers r x =
        body-ValidFunction p m declares f entry_block blocks regions
          (subst
            (λ (g : BytecodeFunction).
              ValidBody p g.register_count g.capture_count g.parameter_count entry_block blocks
                regions)
            (sym x.same) v)
          (subst (λ (g : BytecodeFunction). g.register_count ≢ 0) (sym x.same) registers) r x.body

    functions-Valid :
        (fs : List MirFunction) (gs : List BytecodeFunction)
        → FunctionsOf m fs gs
        → All (ValidMirFunction p) fs
        → All (λ f. f.temporary_count ≢ 0) fs
        → All (λ f. All (BlockReceives p) f.blocks) fs
        → All (ValidFunction m) gs
    unfolding function_header
    functions-Valid _ _ FunctionsOf.done v t r = tt
    functions-Valid _ _ (FunctionsOf.next {f} {fs} {g} {gs} x xs) v t r = (
      function-Valid f.entry_block f.blocks f.exception_regions (function_header f) g v.0 t.0 r.0 x,
      functions-Valid fs gs xs v.1 t.1 r.1,
    )

    -- A function of the program that takes a receiver.
    receiver :
        (c : ℕ) → c < length p.functions → parameter_count p (c + 1) ≢ 0 → TakesReceiver m (c + 1)
    receiver c l r =
        (parameters_iff m.functions (c + 1) (λ n. n ≢ 0) (omega (arith, declares.count, l))).0
          λ e. r (sym (declares.parameters (c + 1)) ∙ e)

    constructor-Valid :
        (o : Option ℕ)
        → EachOf o (λ c. c < length p.functions)
        → EachOf o (λ c. parameter_count p (c + 1) ≢ 0)
        → EachOf (shifted o) (TakesReceiver m)
    unfolding shifted
    constructor-Valid none l r = tt
    constructor-Valid (some c) l r = receiver c l r

    methods-Valid :
        (xs : List MirClassMethod)
        → All (λ x. x.function < length p.functions) xs
        → All (λ x. parameter_count p (x.function + 1) ≢ 0) xs
        → All (λ x. TakesReceiver m x.function) (map compile_method xs)
    unfolding compile_method
    methods-Valid [] l r = tt
    methods-Valid (x ∷ xs) l r = (receiver x.function l.0 r.0, methods-Valid xs l.1 r.1)

    parent-Valid :
        (o : Option ℕ) → EachOf o (λ c. c < length p.classes) → EachOf o (λ c. c < length m.classes)
    parent-Valid none l = tt
    parent-Valid (some c) l = omega (arith, l, declares.classes)

    classes-Valid :
        (ks : List MirClass)
        → All (ValidMirClass p) ks
        → All (λ k. EachOf k.constructor (λ c. parameter_count p (c + 1) ≢ 0)) ks
        → All (λ k. All (λ x. parameter_count p (x.function + 1) ≢ 0) k.methods) ks
        → All (ValidClass m) (map compile_class ks)
    unfolding compile_class
    classes-Valid [] v c r = tt
    classes-Valid (k ∷ ks) v c r = (
      record {
        parent = parent-Valid k.parent v.0.parent;
        constructor = constructor-Valid k.constructor v.0.constructor c.0;
        methods = methods-Valid k.methods v.0.methods r.0;
      },
      classes-Valid ks v.1 c.1 r.1,
    )

    pub Laid-ValidModule : ValidProgram p → Generable p → ValidModule m
    unfolding declared module_function parameter_count function_at
    Laid-ValidModule v g = record {
      version = laid.grown.version;
      entry = omega (arith, declares.count, declares.entry);
      no_parameters =
          (parameters_iff m.functions m.entry_function (λ n. n ≡ 0)
              (omega (arith, declares.count, declares.entry))).0
            (ap (parameter_count_at m.functions) declares.entry ∙ declares.parameters 0);
      functions =
          subst (λ fs. All (ValidFunction m) fs) (sym laid.functions)
            (
              function-Valid p.entry_block p.blocks p.exception_regions (module_function p)
                  laid.body v.body g.temporaries g.receivers laid.module_body,
              functions-Valid p.functions laid.others laid.bodies v.functions g.function_temporaries
                  g.function_receivers,
            );
      classes =
          subst (λ ks. All (ValidClass m) ks) (sym laid.grown.classes)
            (classes-Valid p.classes v.classes g.constructors g.methods);
      acyclic = λ index l.
          subst (λ n. ends_within (suc n) m.classes (some index) ≡ true) (sym declares.classes)
            (subst (λ ks. ends_within (suc (length p.classes)) ks (some index) ≡ true)
              (sym laid.grown.classes) (g.acyclic index (omega (arith, l, declares.classes))));
    }

  -- The generator makes a valid module of every valid program whose bodies have temporaries, whose methods
  -- and constructors take a receiver, also where an instruction binds one, and whose classes have no
  -- cycle.
  pub generate-ValidModule :
      ValidProgram p → Generable p → Yields (λ m. Laid p m × ValidModule m) (generate p)
  generate-ValidModule v g =
      Yields-map (λ m laid. (laid, Laid-ValidModule m laid v g)) (generate-Laid p v)
