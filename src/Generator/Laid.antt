-- ===== src/Generator/Laid.antt =====
-- compiler/kyna_bytecode/src/generators/program_bytecode_compiler.cpp: what the module of a valid program
-- consists of.
use kyna.Base.{
  ◌+◌, append_assoc, Yields-map, map, All, ℕ, zero, suc, ◌≡◌, refl, sym, ◌∙◌, subst, List, [], ◌∷◌,
  ◌++◌, some, length, get_elem?, set, arith, ap, length-append, Yields, yields, bind-Yields,
  Yields-eq,
}
use kyna.Bytecode.Program.{BytecodeFunction, BytecodeModule, current_version}
use kyna.Bytecode.Validator.Operation.{parameter_count_at, capture_count_at}
use kyna.Mir.Program.{MirExceptionRegion, MirBasicBlock, MirFunction, MirProgram}
use kyna.Mir.Valid.{ValidFunction, ValidProgram, ValidBody}
use kyna.Generator.{Emission}
use kyna.Generator.Programs.{
  generate, compile_functions, module_function, function_header, declared, compile_at,
}
use kyna.Generator.Heads.{module_head, function_head, ClassesOf, compile_class-ClassesOf}
use kyna.Generator.Growth.{Grows-trans, Grows-refl, SameHeads, Grows}
use kyna.Generator.Encoding.{BlocksCode-Grows}
use kyna.Generator.Bodies.{BodyOf, with_body, Compiled, compile_body-Compiled}

-- The function has the head, and the code of the body.
pub record FunctionOf (m : BytecodeModule) (blocks : List MirBasicBlock)
    (regions : List MirExceptionRegion) (head f : BytecodeFunction) : Type 0 where
  pub same : f ≡ with_body head f.instructions f.exception_handlers
  pub body : BodyOf m blocks regions f

-- The functions of the module are those of the program, in order.
pub data FunctionsOf (m : BytecodeModule) : List MirFunction → List BytecodeFunction → Type 0 where
  done : FunctionsOf m [] []
  next :
      {f : MirFunction} {fs : List MirFunction} {g : BytecodeFunction} {gs : List BytecodeFunction}
      → FunctionOf m f.blocks f.exception_regions (function_head f) g
      → FunctionsOf m fs gs
      → FunctionsOf m (f ∷ fs) (g ∷ gs)

pub record Laid (p : MirProgram) (m : BytecodeModule) : Type 0 where
  pub body : BytecodeFunction
  pub others : List BytecodeFunction
  pub functions : m.functions ≡ body ∷ others
  pub module_body : FunctionOf m p.blocks p.exception_regions (module_head p) body
  pub bodies : FunctionsOf m p.functions others
  pub name : m.name ≡ p.name
  pub version : m.format_version ≡ current_version
  pub entry : m.entry_function ≡ 0
  pub classes : ClassesOf p.classes m.classes
  -- The heads of the functions and the tables of the module, in the form in which the validity uses them.
  pub grown : Grows (declared p) m

pub FunctionOf-Grows :
    {m m' : BytecodeModule} {blocks : List MirBasicBlock} {regions : List MirExceptionRegion}
    {head f : BytecodeFunction}
    → Grows m m'
    → FunctionOf m blocks regions head f
    → FunctionOf m' blocks regions head f
FunctionOf-Grows g x = record {
  same = x.same;
  body = record {
    offsets = x.body.offsets;
    starts = x.body.starts;
    code = BlocksCode-Grows g x.body.code;
    handlers = x.body.handlers;
  };
}

module _ (before : List BytecodeFunction) (f g : BytecodeFunction)
    (after : List BytecodeFunction) where
  found_between : get_elem? (before ++ f ∷ after) (length before) ≡ some f
  found_between = go before
    where
      go : (xs : List BytecodeFunction) → get_elem? (xs ++ f ∷ after) (length xs) ≡ some f
      go [] = refl
      go (x ∷ xs) = go xs

  set_between : set (before ++ f ∷ after) (length before) g ≡ before ++ g ∷ after
  set_between = go before
    where
      go : (xs : List BytecodeFunction) → set (xs ++ f ∷ after) (length xs) g ≡ xs ++ g ∷ after
      go [] = refl
      go (x ∷ xs) = ap (◌∷◌ x) (go xs)

  SameHeads-between :
      g.parameter_count ≡ f.parameter_count
      → g.capture_count ≡ f.capture_count
      → SameHeads (before ++ f ∷ after) (before ++ g ∷ after)
  unfolding parameter_count_at capture_count_at
  SameHeads-between same_parameters same_captures = record {
    count = omega (arith, length-append before (f ∷ after), length-append before (g ∷ after));
    parameters = parameters before;
    captures = captures before;
  }
    where
      parameters :
          (xs : List BytecodeFunction) (i : ℕ)
          → parameter_count_at (xs ++ g ∷ after) i ≡ parameter_count_at (xs ++ f ∷ after) i
      parameters [] zero = same_parameters
      parameters [] (suc i) = refl
      parameters (x ∷ xs) zero = refl
      parameters (x ∷ xs) (suc i) = parameters xs i

      captures :
          (xs : List BytecodeFunction) (i : ℕ)
          → capture_count_at (xs ++ g ∷ after) i ≡ capture_count_at (xs ++ f ∷ after) i
      captures [] zero = same_captures
      captures [] (suc i) = refl
      captures (x ∷ xs) zero = refl
      captures (x ∷ xs) (suc i) = captures xs i

-- A module with the function among others compiled.
pub record Placed (blocks : List MirBasicBlock) (regions : List MirExceptionRegion)
    (m : BytecodeModule) (before : List BytecodeFunction) (f : BytecodeFunction)
    (after : List BytecodeFunction) (m' : BytecodeModule) : Type 0 where
  pub result : BytecodeFunction
  pub grows : Grows m m'
  pub functions : m'.functions ≡ before ++ result ∷ after
  pub compiled : FunctionOf m' blocks regions f result

pub placed :
    (m : BytecodeModule) (before : List BytecodeFunction) (f : BytecodeFunction)
    (after : List BytecodeFunction) (blocks : List MirBasicBlock)
    (regions : List MirExceptionRegion) (e : Emission)
    → m.functions ≡ before ++ f ∷ after
    → Compiled blocks regions (record { unit = m; function = f }) e
    → Placed blocks regions m before f after
        (record e.unit { functions = set e.unit.functions (length before) e.function })
placed m before f after blocks regions e at c =
    let functions : set e.unit.functions (length before) e.function ≡ before ++ e.function ∷ after =
      ap (λ fs. set fs (length before) e.function) (c.functions ∙ at)
      ∙ set_between before f e.function after in
    let heads : SameHeads m.functions (set e.unit.functions (length before) e.function) =
      subst (λ fs. SameHeads fs (set e.unit.functions (length before) e.function)) (sym at)
        (subst (SameHeads (before ++ f ∷ after)) (sym functions) (
          SameHeads-between before f e.function after (ap (λ x. x.parameter_count) c.head)
            (ap (λ x. x.capture_count) c.head))) in
    record {
      result = e.function;
      grows = record {
        constants = c.grows.constants;
        arguments = c.grows.arguments;
        sources = c.grows.sources;
        natives = c.grows.natives;
        names = c.grows.names;
        heads = heads;
        version = c.grows.version;
        classes = c.grows.classes;
        entry = c.grows.entry;
        name = c.grows.name;
      };
      functions = functions;
      compiled =
          FunctionOf-Grows
            (record {
              constants = λ i x e. e;
              arguments = λ i x e. e;
              sources = λ i x e. e;
              natives = λ i x e. e;
              names = λ i x e. e;
              heads =
                  subst (λ fs. SameHeads fs (set e.unit.functions (length before) e.function))
                    (sym c.functions) heads;
              version = refl;
              classes = refl;
              entry = refl;
              name = refl;
            })
            (record { same = c.head; body = c.body });
    }

module _ (p : MirProgram) where
  compile_at-Placed :
      (temporaries captures parameters entry_block index : ℕ) (blocks : List MirBasicBlock)
      (regions : List MirExceptionRegion) (m : BytecodeModule) (before : List BytecodeFunction)
      (f : BytecodeFunction) (after : List BytecodeFunction)
      → ValidBody p temporaries captures parameters entry_block blocks regions
      → m.functions ≡ before ++ f ∷ after
      → length before ≡ index
      → f.instructions ≡ []
      → f.exception_handlers ≡ []
      → Yields (Placed blocks regions m before f after) (compile_at index blocks regions m)
  unfolding compile_at
  compile_at-Placed t c _ _ index blocks regions m before f after v at l no_code no_handlers =
      subst (λ i. Yields (Placed blocks regions m before f after) (compile_at i blocks regions m)) l
        (bind-Yields (Yields-eq {P = λ g. f ≡ g} there refl) λ g same. rw (sym same) (
          bind-Yields
            (compile_body-Compiled p t c blocks regions (record { unit = m; function = f })
              v.each_block v.each_region no_code no_handlers)
            λ e x. yields (placed m before f after blocks regions e at x)))
    where
      there : get_elem? m.functions (length before) ≡ some f
      there = ap (λ fs. get_elem? fs (length before)) at ∙ found_between before f f after

  pub FunctionsOf-Grows :
      {m m' : BytecodeModule} {fs : List MirFunction} {gs : List BytecodeFunction}
      → Grows m m'
      → FunctionsOf m fs gs
      → FunctionsOf m' fs gs
  FunctionsOf-Grows g done = done
  FunctionsOf-Grows g (next x xs) = next (FunctionOf-Grows g x) (FunctionsOf-Grows g xs)

  -- The functions from an index of the module on are compiled, and those before it stay.
  record LaidFrom (fs : List MirFunction) (m : BytecodeModule) (before : List BytecodeFunction)
      (m' : BytecodeModule) : Type 0 where
    pub results : List BytecodeFunction
    pub grows : Grows m m'
    pub functions : m'.functions ≡ before ++ results
    pub compiled : FunctionsOf m' fs results

  functions-LaidFrom :
      (index : ℕ) (fs : List MirFunction) (m : BytecodeModule) (before : List BytecodeFunction)
      → All (ValidFunction p) fs
      → m.functions ≡ before ++ map function_header fs
      → length before ≡ index
      → Yields (LaidFrom fs m before) (compile_functions index fs m)
  unfolding compile_functions function_header
  functions-LaidFrom index [] m before v at l =
      yields (record { results = []; grows = Grows-refl m; functions = at; compiled = done })
  functions-LaidFrom index (f ∷ fs) m before v at l =
      bind-Yields
        (compile_at-Placed f.temporary_count (length f.captures) f.parameter_count f.entry_block
          index f.blocks f.exception_regions m before (function_header f) (map function_header fs)
          v.0 at l refl refl)
        λ m1 x.
          Yields-map
            (λ m2 y. record {
              results = x.result ∷ y.results;
              grows = Grows-trans x.grows y.grows;
              functions = y.functions ∙ append_assoc before (x.result ∷ []) y.results;
              compiled = next (FunctionOf-Grows y.grows x.compiled) y.compiled;
            })
            (functions-LaidFrom (index + 1) fs m1 (before ++ x.result ∷ []) v.1
              (x.functions ∙ sym (append_assoc before (x.result ∷ []) (map function_header fs)))
              (omega (arith, l, length-append before (x.result ∷ []))))

  -- The generator makes a module of every valid program, which has its name, its classes, with each function
  -- they name one place further on, and the current version: one function for the body of the program, which
  -- is the entry, and one for each of its functions, in order. Each has the head of its source, the code of its
  -- blocks one behind the other, with an instruction for each instruction that has the operation its kind asks
  -- for and whose operands the tables of the finished module give back, captures with the same kind and index,
  -- with jumps to the offsets where blocks start, and a handler for each protected block that covers exactly
  -- the code of the block.
  pub generate-Laid : ValidProgram p → Yields (Laid p) (generate p)
  unfolding generate declared module_function
  generate-Laid valid =
      bind-Yields
        (compile_at-Placed p.temporary_count 0 0 p.entry_block 0 p.blocks p.exception_regions
          (declared p) [] (module_function p) (map function_header p.functions) valid.body refl refl
          refl refl)
        λ m1 x.
          Yields-map
            (λ m2 y. record {
              body = x.result;
              others = y.results;
              functions = y.functions;
              module_body = FunctionOf-Grows y.grows x.compiled;
              bodies = y.compiled;
              name = y.grows.name ∙ x.grows.name;
              version = y.grows.version ∙ x.grows.version;
              entry = y.grows.entry ∙ x.grows.entry;
              classes =
                  subst (ClassesOf p.classes) (sym (y.grows.classes ∙ x.grows.classes))
                    (compile_class-ClassesOf p.classes);
              grown = Grows-trans x.grows y.grows;
            })
            (functions-LaidFrom 1 p.functions m1 (x.result ∷ []) valid.functions x.functions refl)
