-- ===== src/Lowering/Total/Switches.antt =====
-- compiler/kyna_mir/src/lowering/statement_lowering.cpp: a `switch` that fits is lowered to valid code.
use kyna.Base.{
  Yields-map, All-append, All-append, ℕ, ◌≡◌, ◌≢◌, refl, ◌⊎◌, inl, inr, List, [], ◌∷◌, ◌++◌, Option,
  none, some, All, All-map, Yields, yields, bind-Yields,
}
use kyna.Diagnostics.{SourceSpan}
use kyna.Bytecode.Valid.{EachOf}
use kyna.Mir.Program.{MirProgram}
use kyna.Hir.{HirProgram, HirSwitchCase}
use kyna.Lowering.{Lowering, Lower}
use kyna.Lowering.Statements.{
  add_arms, default_arm, value_arms, add_tests, first_test, lower_tests, lower_arms,
  otherwise_block, lower_switch,
}
use kyna.Lowering.Fits.{Scope, in_switch, ExprFits, StmtFits}
use kyna.Lowering.States.{Frame, Inv, Open}
use kyna.Lowering.States.Steps.{Inv-weaken}
use kyna.Lowering.States.Frames.{enter-Open, push_break-Inv, pop_break-Inv}
use kyna.Lowering.States.Blocks.{temporary-Open, add_block-Open, push-Open, terminate-Open}
use kyna.Lowering.Total.{Ready, LowersExpressions, LowersStatements}
use kyna.Lowering.Total.Frames.{Among-append, Among, Ready-in_switch, Done-Open}
use kyna.Lowering.Total.Expressions.{All-split, need-bind, move-Open}
use kyna.Lowering.Total.Statements.{close-Inv}

abbrev arm_blocks : List (HirSwitchCase × ℕ) → List ℕ
arm_blocks [] = []
arm_blocks (a ∷ arms) = a.1 ∷ arm_blocks arms

abbrev test_blocks : List (ℕ × ℕ × ℕ) → List ℕ
test_blocks [] = []
test_blocks (t ∷ tests) = t.0 ∷ test_blocks tests

-- The blocks of a list, besides others.
abbrev Besides : List ℕ → (ℕ → Type 0) → ℕ → Type 0
Besides [] P k = P k
Besides (x ∷ xs) P k = (k ≡ x) ⊎ Besides xs P k

Besides-first :
    (P : ℕ → Type 0) (b k : ℕ) (xs : List ℕ)
    → Besides xs (λ j. (j ≡ b) ⊎ P j) k
    → (k ≡ b) ⊎ Besides xs P k
Besides-first P b k [] m = m
Besides-first P b k (x ∷ xs) (inl e) = inr (inl e)
Besides-first P b k (x ∷ xs) (inr m) = elim (Besides-first P b k xs m) [
  | inl e ↦ inl e
  | inr r ↦ inr (inr r)
]

Besides-open :
    (P : ℕ → Type 0) (c k : ℕ) (xs : List ℕ) → Besides xs P k → Besides xs (λ j. (j ≡ c) ⊎ P j) k
Besides-open P c k [] m = inr m
Besides-open P c k (x ∷ xs) (inl e) = inl e
Besides-open P c k (x ∷ xs) (inr m) = inr (Besides-open P c k xs m)

arms-Among :
    (arms : List (HirSwitchCase × ℕ)) (cs : List ℕ)
    → All (λ a. Among a.1 (arm_blocks arms ++ cs)) arms
arms-Among [] cs = tt
arms-Among (a ∷ arms) cs = (λ t h. h.0, All-map _ _ (λ b f t h. f t h.1) arms (arms-Among arms cs))

tests-Among :
    (tests : List (ℕ × ℕ × ℕ)) (cs : List ℕ) → All (λ a. Among a.0 (test_blocks tests ++ cs)) tests
tests-Among [] cs = tt
tests-Among (a ∷ tests) cs =
    (λ t h. h.0, All-map _ _ (λ b f t h. f t h.1) tests (tests-Among tests cs))

default_fits :
    (xs : List ℕ) (arms : List (HirSwitchCase × ℕ)) (found : Option ℕ)
    → All (λ a. Among a.1 xs) arms
    → EachOf found (λ b. Among b xs)
    → EachOf (default_arm found arms) (λ b. Among b xs)
unfolding default_arm
default_fits xs [] found h f = f
default_fits xs ((c, block) ∷ arms) found h f =
    default_fits xs arms (elim c.value [ none ↦ some block | some value ↦ found ]) h.1
      (elim c.value
        as (λ o.
          EachOf (elim o as (λ _. Option ℕ) [ none ↦ some block | some value ↦ found ])
            (λ b. Among b xs)) [ none ↦ h.0 | some value ↦ f ])

default_found :
    (arms : List (HirSwitchCase × ℕ)) (found : Option ℕ)
    → value_arms arms ≡ []
    → (found ≡ none → arms ≢ [])
    → default_arm found arms ≢ none
unfolding default_arm value_arms
default_found [] found e f = λ same. f same refl
default_found ((c, block) ∷ arms) found e f =
    elim c.value
        as (λ o.
          (elim o as (λ _. List (ℕ × ℕ)) [
            | none ↦ value_arms arms
            | some value ↦ (value, block) ∷ value_arms arms
          ])
            ≡ []
          → default_arm (elim o as (λ _. Option ℕ) [ none ↦ some block | some value ↦ found ]) arms
            ≢ none) [
              | none ↦ λ i. default_found arms (some block) i λ z. absurd (cc)
              | some value ↦ λ i. absurd (cc)
            ]
      e

otherwise_fits :
    (xs : List ℕ) (continuation : ℕ) (o : Option ℕ) (tests : List (ℕ × ℕ × ℕ))
    → EachOf o (λ b. Among b xs)
    → Among continuation xs
    → (tests ≡ [] → o ≢ none)
    → (b : ℕ) × (otherwise_block continuation o tests ≡ some b) × Among b xs
unfolding otherwise_block
otherwise_fits xs continuation none [] f c d = absurd (d refl refl)
otherwise_fits xs continuation (some b) [] f c d = (b, refl, f)
otherwise_fits xs continuation none (t ∷ tests) f c d = (continuation, refl, c)
otherwise_fits xs continuation (some b) (t ∷ tests) f c d = (b, refl, f)

first_fits :
    (xs : List ℕ) (otherwise : ℕ) (tests : List (ℕ × ℕ × ℕ))
    → Among otherwise xs
    → All (λ t. Among t.0 xs) tests
    → Among (first_test otherwise tests) xs
unfolding first_test
first_fits xs otherwise [] o h = o
first_fits xs otherwise (t ∷ tests) o h = h.0

module _ (hir : HirProgram) (captures : List ℕ) (p : MirProgram) (n budget : ℕ)
    (expression : ℕ → Lower ℕ) (statement : ℕ → Lower (Unit {0}))
    (he : LowersExpressions hir captures p expression n budget)
    (hs : LowersStatements hir captures p statement n budget) (span : SourceSpan) (sc : Scope) where
  abbrev Case : HirSwitchCase → Type 0
  Case c =
      EachOf c.value (ExprFits hir captures n sc) × StmtFits hir captures n (in_switch sc) c.body

  add_arms-Open :
      {ts cs : List ℕ} {g : Frame} {P : ℕ → Type 0} {s : Lowering} (cases : List HirSwitchCase)
      → All Case cases
      → Open p captures ts cs g P s
      → Yields
          (λ r.
            Open p captures ts (arm_blocks r.0 ++ cs) g (Besides (arm_blocks r.0) P) r.1
            × (All (λ a. Case a.0) r.0 × (r.0 ≡ [] → cases ≡ [])))
          (add_arms cases s)
  unfolding add_arms
  add_arms-Open [] h v = yields (v, (tt, λ e. refl))
  add_arms-Open {P = P} (c ∷ cases) h v = bind-Yields (add_block-Open v) λ b v.
      bind-Yields (add_arms-Open cases h.1 v) λ a q.
        let v = q.0 in
        let split = All-split _ (arm_blocks a.0) _ v.in_blocks in
        yields (
          Inv-weaken v v.in_temporaries
              (split.1.0, All-append _ (arm_blocks a.0) _ split.0 split.1.1)
              (λ k m. elim m [
                | inl e ↦ inl e
                | inr m ↦ inr (Besides-first P b.0 k (arm_blocks a.0) m)
              ]),
          ((h.0, q.1.0), λ e. absurd (cc)),
        )

  value_arms_fit :
      (xs : List ℕ) (arms : List (HirSwitchCase × ℕ))
      → All (λ a. Case a.0) arms
      → All (λ a. Among a.1 xs) arms
      → All (λ v. ExprFits hir captures n sc v.0 × Among v.1 xs) (value_arms arms)
  unfolding value_arms
  value_arms_fit xs [] h k = tt
  value_arms_fit xs ((c, block) ∷ arms) h k =
      elim c.value
          as (λ o.
            EachOf o (ExprFits hir captures n sc)
            → All (λ v. ExprFits hir captures n sc v.0 × Among v.1 xs)
                (elim o as (λ _. List (ℕ × ℕ)) [
                  | none ↦ value_arms arms
                  | some value ↦ (value, block) ∷ value_arms arms
                ])) [
                  | none ↦ λ e. value_arms_fit xs arms h.1 k.1
                  | some value ↦ λ e. ((e, k.0), value_arms_fit xs arms h.1 k.1)
                ]
        h.0.0

  add_tests-Open :
      {ts cs : List ℕ} {g : Frame} {P : ℕ → Type 0} {s : Lowering} (xs : List ℕ)
      (values : List (ℕ × ℕ))
      → All (λ v. ExprFits hir captures n sc v.0 × Among v.1 xs) values
      → Open p captures ts cs g P s
      → Yields
          (λ r.
            Open p captures ts (test_blocks r.0 ++ cs) g (Besides (test_blocks r.0) P) r.1
            × (All (λ t. ExprFits hir captures n sc t.1 × Among t.2 xs) r.0
                × (r.0 ≡ [] → values ≡ [])))
          (add_tests values s)
  unfolding add_tests
  add_tests-Open xs [] h v = yields (v, (tt, λ e. refl))
  add_tests-Open {P = P} xs ((value, block) ∷ values) h v = bind-Yields (add_block-Open v) λ b v.
      bind-Yields (add_tests-Open xs values h.1 v) λ a q.
        let v = q.0 in
        let split = All-split _ (test_blocks a.0) _ v.in_blocks in
        yields (
          Inv-weaken v v.in_temporaries
              (split.1.0, All-append _ (test_blocks a.0) _ split.0 split.1.1)
              (λ k m. elim m [
                | inl e ↦ inl e
                | inr m ↦ inr (Besides-first P b.0 k (test_blocks a.0) m)
              ]),
          ((h.0, q.1.0), λ e. absurd (cc)),
        )

  lower_tests-Inv :
      {ts cs : List ℕ} {g : Frame} {P : ℕ → Type 0} {s : Lowering} (subject otherwise : ℕ)
      (tests : List (ℕ × ℕ × ℕ))
      → Among subject ts
      → Among otherwise cs
      → All (λ t. Among t.0 cs) tests
      → All (λ t. ExprFits hir captures n sc t.1 × Among t.2 cs) tests
      → Ready hir captures budget sc g
      → Inv p captures ts cs g (Besides (test_blocks tests) P) s
      → Yields
          (λ r. Inv p captures ts cs g P r.1)
          (lower_tests expression statement span subject otherwise tests s)
  unfolding lower_tests
  lower_tests-Inv subject otherwise [] a b h k r v = yields v
  lower_tests-Inv {cs = cs} {P = P} subject otherwise ((test, value, block) ∷ tests) a b h k r v =
      bind-Yields
        (enter-Open {Q = Besides (test_blocks tests) P} test v (h.0 _ v.in_blocks) λ k m. m)
        λ u v. bind-Yields (he.expression_lowers value k.0.0 r v) λ x v.
          bind-Yields (temporary-Open v) λ e v.
            bind-Yields
              (push-Open _ v (v.in_temporaries.0, (a _ v.in_temporaries.1.1, v.in_temporaries.1.0)))
              λ u v.
                bind-Yields
                  (terminate-Open _ span v (
                    v.in_temporaries.0,
                    (k.0.1 _ v.in_blocks, first_fits cs otherwise tests b h.1 _ v.in_blocks),
                  ))
                  λ u v.
                    lower_tests-Inv subject otherwise tests a b h.1 k.1 r
                      (Inv-weaken v v.in_temporaries.1.1 v.in_blocks λ k m. m)

  lower_arms-Inv :
      {ts cs : List ℕ} {g : Frame} {P : ℕ → Type 0} {s : Lowering} (continuation : ℕ)
      (arms : List (HirSwitchCase × ℕ))
      → Among continuation cs
      → All (λ a. Among a.1 cs) arms
      → All (λ a. Case a.0) arms
      → Ready hir captures budget (in_switch sc) g
      → Inv p captures ts cs g (Besides (arm_blocks arms) P) s
      → Yields
          (λ r. Inv p captures ts cs g P r.1)
          (lower_arms expression statement span continuation arms s)
  unfolding lower_arms
  lower_arms-Inv continuation [] a h k r v = yields v
  lower_arms-Inv {P = P} continuation ((c, block) ∷ arms) a h k r v =
      bind-Yields
        (enter-Open {Q = Besides (arm_blocks arms) P} block v (h.0 _ v.in_blocks) λ k m. m)
        λ u v. bind-Yields (hs.statement_lowers c.body k.0.1 r v) λ u d.
          bind-Yields
            (close-Inv hir captures p n budget expression statement he hs span continuation a
              (Done-Open d))
            λ u v. lower_arms-Inv continuation arms a h.1 k.1 r v

  value_of_default :
      (xs : List ℕ) (continuation : ℕ) (arms : List (HirSwitchCase × ℕ)) (tests : List (ℕ × ℕ × ℕ))
      → All (λ a. Among a.1 xs) arms
      → Among continuation xs
      → (tests ≡ [] → value_arms arms ≡ [])
      → arms ≢ []
      → (b : ℕ) × (otherwise_block continuation (default_arm none arms) tests ≡ some b) × Among b xs
  value_of_default xs continuation arms tests h c e a =
      otherwise_fits xs continuation (default_arm none arms) tests (default_fits xs arms none h tt)
        c (λ i. default_found arms none (e i) λ _. a)

  pub lower_switch-Open :
      {ts cs : List ℕ} {g : Frame} {P : ℕ → Type 0} {s : Lowering} (subject : ℕ)
      (cases : List HirSwitchCase)
      → ExprFits hir captures n sc subject
      → All Case cases
      → cases ≢ []
      → Ready hir captures budget sc g
      → Open p captures ts cs g P s
      → Yields
          (λ r. Open p captures ts cs g P r.1)
          (lower_switch expression statement span subject cases s)
  unfolding lower_switch
  lower_switch-Open {ts} {cs} {g} {P} subject cases f h some_ r v =
      bind-Yields (temporary-Open v) λ t v. bind-Yields (he.expression_lowers subject f r v) λ x v.
        bind-Yields
          (move-Open p captures {ts = x.0 ∷ t.0 ∷ ts} {g = g} t.0 x.0 span v v.in_temporaries.1.0
            v.in_temporaries.0)
          λ u v. bind-Yields (add_block-Open v) λ k v.
            bind-Yields (add_arms-Open cases h v) λ arms q.
              let among = arms-Among arms.0 (k.0 ∷ cs) in
              bind-Yields
                (add_tests-Open (arm_blocks arms.0 ++ k.0 ∷ cs) (value_arms arms.0)
                  (value_arms_fit _ arms.0 q.1.0 among) q.0)
                λ tests w.
                  let (b, found, fits) =
                    value_of_default _ k.0 arms.0 tests.0 among
                      (Among-append k.0 (arm_blocks arms.0) (k.0 ∷ cs) λ t h. h.0) w.1.1
                      (λ e. some_ (q.1.1 e)) in
                  let all : List ℕ = test_blocks tests.0 ++ (arm_blocks arms.0 ++ k.0 ∷ cs) in
                  let inner = Among-append b (test_blocks tests.0) _ fits in
                  let behind : Among k.0 all =
                    Among-append k.0 (test_blocks tests.0) _
                      (Among-append k.0 (arm_blocks arms.0) (k.0 ∷ cs) λ t h. h.0) in
                  let tested = tests-Among tests.0 (arm_blocks arms.0 ++ k.0 ∷ cs) in
                  need-bind _ found (
                    bind-Yields
                      (terminate-Open _ span w.0
                        (first_fits all b tests.0 inner tested _ w.0.in_blocks))
                      λ u v.
                        bind-Yields
                          (lower_tests-Inv t.0 b tests.0 (λ t h. h.1.0) inner tested
                            (All-map _ _
                              (λ a f. (f.0, Among-append a.2 (test_blocks tests.0) _ f.1)) tests.0
                              w.1.0)
                            r v)
                          λ u v. bind-Yields (push_break-Inv k.0 v (behind _ v.in_blocks)) λ u v.
                            bind-Yields
                              (lower_arms-Inv k.0 arms.0 behind
                                (All-map _ _ (λ a f. Among-append a.1 (test_blocks tests.0) _ f)
                                  arms.0 among)
                                q.1.0 (Ready-in_switch hir captures k.0 r) v)
                              λ u v. bind-Yields (pop_break-Inv v) λ u v.
                                Yields-map
                                  (λ r v.
                                    Inv-weaken v v.in_temporaries.1.1
                                      (All-split _ (arm_blocks arms.0) (k.0 ∷ cs)
                                        (All-split _ (test_blocks tests.0) _ v.in_blocks).1).1.1
                                      λ k m. m)
                                  (enter-Open k.0 v (behind _ v.in_blocks) λ k m. m))
