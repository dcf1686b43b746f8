-- ===== src/Lowering/Total/Programs.antt =====
-- compiler/kyna_mir/src/lowering/hir_lowering.cpp: `lowerHirToMir` on a program that fits.
use kyna.Base.{
  Each, ◌≢◌, ℕ, zero, suc, ◌+◌, ◌≤◌, ◌<◌, ◌≡◌, refl, sym, ◌∙◌, ap, subst, List, [], ◌∷◌, Option,
  none, some, arith, length, map, get_elem?, All, Yields, yields, bind-Yields, Yields-map,
  Yields-eq, Yields-value,
}
use kyna.Base
use kyna.Bytecode.Valid.{EachOf}
use kyna.Mir.Program.{MirFunction, MirProgram}
use kyna.Mir.Verifier.{function_at, parameter_count, capture_count}
use kyna.Mir.Verifier.Bodies.{verify_mir}
use kyna.Mir.Valid.{ValidBody, ValidFunction, ValidClass, ValidProgram}
use kyna.Mir.Valid.Programs.{verify_mir_iff}
use kyna.Hir.{HirFunction, HirClass, HirClassMethod, HirProgram}
use kyna.Lowering.Programs.{
  lower_method, lower_class, activated, function_of, lower_functions, lower_program, verified,
  lower_hir_to_mir,
}
use kyna.Lowering.Fits.{ExprFits, StmtFits, StatementsFit, bound_by, enough}
use kyna.Lowering.Total.{Signature}
use kyna.Lowering.Total.Bodies.{body_scope, module_body-Valid, function_body-Valid}

abbrev pub ClassFits : HirProgram → HirClass → Type 0
ClassFits hir klass =
    EachOf klass.parent (λ parent. parent < length hir.classes)
    × (EachOf klass.constructor (λ constructor. constructor < length hir.functions)
        × All (λ method. method.function < length hir.functions) klass.methods)

-- A program whose bodies have at most such a height and can be lowered.
pub record ProgramFits (hir : HirProgram) (height : ℕ) : Type 0 where
  pub body :
      StatementsFit hir []
        (ExprFits hir [] height)
        (StmtFits hir [] height)
        (bound_by hir [] height)
        (body_scope [])
        hir.body
  pub functions :
      All (λ f. StmtFits hir f.captures height (body_scope f.parameters) f.body) hir.functions
  pub classes : All (ClassFits hir) hir.classes

-- The functions of a program are those of the high-level one, in their order.
abbrev Matches : List HirFunction → List MirFunction → Type 0
Matches [] [] = Unit
Matches [] (f ∷ fs) = ⊥
Matches (g ∷ gs) [] = ⊥
Matches (g ∷ gs) (f ∷ fs) =
    ((f.parameter_count ≡ length g.parameters) × (length f.captures ≡ length g.captures))
    × Matches gs fs

some_same {ℓ} : {A : Type ℓ} {a b : A} → some a ≡ some b → a ≡ b
some_same e = cc

length-Matches :
    (gs : List HirFunction) (fs : List MirFunction) → Matches gs fs → length fs ≡ length gs
length-Matches [] [] m = refl
length-Matches [] (f ∷ fs) m = absurd m
length-Matches (g ∷ gs) [] m = absurd m
length-Matches (g ∷ gs) (f ∷ fs) m = ap suc (length-Matches gs fs m.1)

get_elem?-Matches :
    (gs : List HirFunction) (fs : List MirFunction) (k : ℕ) (g : HirFunction)
    → Matches gs fs
    → get_elem? gs k ≡ some g
    → (f : MirFunction) × (get_elem? fs k ≡ some f)
      × (f.parameter_count ≡ length g.parameters)
      × (length f.captures ≡ length g.captures)
get_elem?-Matches [] fs k g m e = absurd (cc)
get_elem?-Matches (h ∷ gs) [] k g m e = absurd m
get_elem?-Matches (h ∷ gs) (f ∷ fs) zero g m e =
    let same : h ≡ g = cc in
    (
      f,
      refl,
      m.0.0 ∙ ap (λ (x : HirFunction). length x.parameters) same,
      m.0.1 ∙ ap (λ (x : HirFunction). length x.captures) same,
    )
get_elem?-Matches (h ∷ gs) (f ∷ fs) (suc k) g m e = get_elem?-Matches gs fs k g m.1 e

add_one : (k : ℕ) → k + 1 ≡ suc k
add_one k = omega arith

Matches-Signature :
    (hir : HirProgram) (p : MirProgram)
    → Matches hir.functions p.functions
    → length p.classes ≡ length hir.classes
    → Signature hir p
unfolding parameter_count capture_count function_at
Matches-Signature hir p m c = record {
  functions = length-Matches hir.functions p.functions m;
  classes = c;
  parameters = λ k g e.
      let (f, found, parameters, captures) = get_elem?-Matches hir.functions p.functions k g m e in
      ap (parameter_count p) (add_one k)
      ∙ ap (λ o. elim o as (λ _. ℕ) [ some x ↦ x.parameter_count | none ↦ 0 ]) found
      ∙ parameters;
  captures = λ k g e.
      let (f, found, parameters, captures) = get_elem?-Matches hir.functions p.functions k g m e in
      ap (capture_count p) (add_one k)
      ∙ ap (λ o. elim o as (λ _. ℕ) [ some x ↦ length x.captures | none ↦ 0 ]) found
      ∙ captures;
}

module _ (hir : HirProgram) (height fuel : ℕ) (fits : ProgramFits hir height)
    (h : enough height ≤ fuel) where
  length-classes : (ks : List HirClass) → length (map lower_class ks) ≡ length ks
  length-classes [] = refl
  length-classes (k ∷ ks) = ap suc (length-classes ks)

  module _ (p : MirProgram) (sig : Signature hir p) where
    functions-Valid :
        (fs : List HirFunction)
        → All (λ f. StmtFits hir f.captures height (body_scope f.parameters) f.body) fs
        → Yields (λ r. Matches fs r × All (ValidFunction p) r) (lower_functions hir fuel fs)
    unfolding lower_functions function_of
    functions-Valid [] a = yields (tt, tt)
    functions-Valid (f ∷ fs) a =
        bind-Yields (function_body-Valid hir p sig height fuel h f a.0)
          λ s v. bind-Yields (functions-Valid fs a.1) λ r q. yields (((refl, refl), q.0), (v, q.1))

    methods-Valid :
        (ms : List HirClassMethod)
        → All (λ method. method.function < length hir.functions) ms
        → All (λ method. method.function < length p.functions) (map lower_method ms)
    unfolding lower_method
    methods-Valid [] a = tt
    methods-Valid (m ∷ ms) a = (omega (arith, a.0, sig.functions), methods-Valid ms a.1)

    each_below : (o : Option ℕ) (a b : ℕ) → b ≡ a → EachOf o (λ x. x < a) → EachOf o (λ x. x < b)
    each_below o a b e f = subst (λ n. EachOf o (λ x. x < n)) (sym e) f

    classes-Valid :
        (ks : List HirClass) → All (ClassFits hir) ks → All (ValidClass p) (map lower_class ks)
    unfolding lower_class
    classes-Valid [] a = tt
    classes-Valid (k ∷ ks) a = (
      record {
        parent = each_below k.parent _ _ sig.classes a.0.0;
        constructor = each_below k.constructor _ _ sig.functions a.0.1.0;
        methods = methods-Valid k.methods a.0.1.1;
      },
      classes-Valid ks a.1,
    )

    -- What is lowered is valid as part of the program, whose signature it has.
    record Lowered (q : MirProgram) : Type 0 where
      signature : Signature hir q
      body : ValidBody p q.temporary_count 0 0 q.entry_block q.blocks q.exception_regions
      functions : All (ValidFunction p) q.functions
      classes : All (ValidClass p) q.classes

    program-Lowered : Yields Lowered (lower_program hir fuel)
    unfolding lower_program
    program-Lowered = bind-Yields (module_body-Valid hir p sig height fuel h fits.body) λ s v.
        bind-Yields (functions-Valid hir.functions fits.functions) λ fs q. yields (record {
          signature = Matches-Signature hir _ q.0 (length-classes hir.classes);
          body = v;
          functions = q.1;
          classes = classes-Valid hir.classes fits.classes;
        })

  -- A program that has the signature before anything is lowered.
  abbrev outline : MirProgram
  outline = record {
    name = hir.name;
    temporary_count = 0;
    entry_block = 0;
    blocks = [];
    exception_regions = [];
    functions = map (λ f. function_of f (activated [])) hir.functions;
    classes = map lower_class hir.classes;
  }

  outline-Matches :
      (fs : List HirFunction) → Matches fs (map (λ f. function_of f (activated [])) fs)
  unfolding function_of
  outline-Matches [] = tt
  outline-Matches (f ∷ fs) = ((refl, refl), outline-Matches fs)

  lower_program-Valid :
      (p : MirProgram) × (lower_program hir fuel ≡ some p) × Signature hir p × ValidProgram p
  lower_program-Valid =
      let outlined =
        Matches-Signature hir outline (outline-Matches hir.functions)
          (length-classes hir.classes) in
      let (p, e, l) = Yields-value (program-Lowered outline outlined) in
      let (q, f, m) = Yields-value (program-Lowered p l.signature) in
      let same : q ≡ p = some_same (sym f ∙ e) in
      let n : Lowered p l.signature p = subst (λ x. Lowered p l.signature x) same m in
      (p, e, l.signature, record { body = n.body; functions = n.functions; classes = n.classes })

-- A program of the high-level representation that fits, with a depth of calls that is enough for the height of its
-- bodies, is lowered: there is a program of the middle representation, without diagnostics, that is valid and
-- has the functions and the classes of the given one, with as many parameters and captures.
pub lower_hir_to_mir-ValidProgram :
    (hir : HirProgram) (height fuel : ℕ)
    → ProgramFits hir height
    → enough height ≤ fuel
    → (p : MirProgram) × (lower_hir_to_mir hir fuel
        ≡ some (record { program = some p; diagnostics = [] }))
      × Signature hir p
      × ValidProgram p
unfolding lower_hir_to_mir verified Base.◌>>=◌
lower_hir_to_mir-ValidProgram hir height fuel fits h =
    let (p, e, sig, valid) = lower_program-Valid hir height fuel fits h in
    let clean : verify_mir p ≡ [] = (verify_mir_iff p).1 valid in
    (
      p,
      ap (λ o. Base.◌>>=◌ o λ q. some (verified q (verify_mir q))) e
          ∙ ap (λ d. some (verified p d)) clean,
      sig,
      valid,
    )
