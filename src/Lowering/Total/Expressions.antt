-- ===== src/Lowering/Total/Expressions.antt =====
-- compiler/kyna_mir/src/lowering/expression_lowering.cpp and expression_invocation_lowering.cpp: expressions that
-- fit are lowered to valid code.
use kyna.Base.{
  lt-get_elem?, All-append, Yields-map, ℕ, suc, ◌+◌, ◌≤◌, ◌<◌, ◌≡◌, ◌≢◌, refl, sym, ◌∙◌, ap, subst,
  ◌⊎◌, inl, inr, Bool, true, false, List, [], ◌∷◌, ◌++◌, Option, none, some, arith, length, map,
  get_elem?, All, Yields, yields, bind-Yields,
}
use kyna.Base
use kyna.Bytecode.Valid.{Entry}
use kyna.Diagnostics.{SourceSpan}
use kyna.Mir.Program.{MirInstructionKind, MirInstruction, MirProgram}
use kyna.Mir.Valid.Counts.{parameters_iff}
use kyna.Mir.Valid.{Target, ValidKind, ValidInstruction}
use kyna.Hir.{HirFunction, HirProgram}
use kyna.Lowering.{instruction, Lowering, Lower, move}
use kyna.Lowering.Expressions.{
  lower_call, lower_indirect_call, lower_unary, lower_list, lower_arithmetic, lower_index,
  lower_access, lower_all, fresh,
}
use kyna.Lowering.Fits.{Scope, ExprFits}
use kyna.Lowering.States.{Frame, Open}
use kyna.Lowering.States.Steps.{Inv-weaken}
use kyna.Lowering.States.Blocks.{temporary-Open, push-Open}
use kyna.Lowering.Total.{Signature, Ready, LowersExpressions}

pub some-bind {ℓ κ μ} :
    {A : Type ℓ} {B : Type κ} {Q : B → Type μ} {a : A} (f : A → Option B)
    → Yields Q (f a)
    → Yields Q (Base.◌>>=◌ (some a) f)
unfolding Base.◌>>=◌
some-bind f y = y

pub need-bind :
    {A B S : Type 0} {Q : B → Type 0} {o : Option A} {a : A} {s : S} (f : A × S → Option B)
    → o ≡ some a
    → Yields Q (f (a, s))
    → Yields Q (Base.◌>>=◌ (Base.◌>>=◌ o λ x. some (x, s)) f)
unfolding Base.◌>>=◌
need-bind {Q} {s} f e y =
    subst (λ o. Yields Q (Base.◌>>=◌ (Base.◌>>=◌ o λ x. some (x, s)) f)) (sym e) y

pub All-split {κ} : (P : ℕ → Type κ) (xs ys : List ℕ) → All P (xs ++ ys) → All P xs × All P ys
All-split P [] ys h = (tt, h)
All-split P (x ∷ xs) ys h = let (a, b) = All-split P xs ys h.1 in ((h.0, a), b)

module _ (p : MirProgram) (captures : List ℕ) where
  pub move-Open :
      {ts cs : List ℕ} {g : Frame} {P : ℕ → Type 0} {s : Lowering} (target source : ℕ)
      (span : SourceSpan)
      → Open p captures ts cs g P s
      → target < s.temporary_count
      → source < s.temporary_count
      → Yields (λ r. Open p captures ts cs g P r.1) (move target source span s)
  unfolding move
  move-Open target source span v a b = push-Open _ v (a, b)

module _ (hir : HirProgram) (p : MirProgram) (sig : Signature hir p) where
  pub target_of : (k : ℕ) (f : HirFunction) → get_elem? hir.functions k ≡ some f → Target p (k + 1)
  target_of k f e =
      (λ z. omega arith, omega (arith, lt-get_elem? hir.functions k f e, sig.functions))

module _ (hir : HirProgram) (captures : List ℕ) (p : MirProgram) (sig : Signature hir p)
    (n budget : ℕ) (expression : ℕ → Lower ℕ) (statement : ℕ → Lower (Unit {0}))
    (he : LowersExpressions hir captures p expression n budget) (span : SourceSpan) {sc : Scope}
    {g : Frame} (ready : Ready hir captures budget sc g) where
  pub fresh-Open :
      {ts cs : List ℕ} {P : ℕ → Type 0} {s : Lowering} (make : ℕ → MirInstruction)
      → ((t target : ℕ)
          → target < t
          → All (λ x. x < t) ts
          → ValidInstruction p t (length captures) (make target))
      → Open p captures ts cs g P s
      → Yields
          (λ r. Open p captures (r.0 ∷ ts) cs g P r.1)
          (fresh hir expression statement span make s)
  unfolding fresh
  fresh-Open make valid v = bind-Yields (temporary-Open v) λ t v.
      bind-Yields (push-Open (make t.0) v (valid _ t.0 v.in_temporaries.0 v.in_temporaries.1))
        λ u v. yields v

  pub lower_all-Open :
      {ts cs : List ℕ} {P : ℕ → Type 0} {s : Lowering} (es : List ℕ)
      → All (ExprFits hir captures n sc) es
      → Open p captures ts cs g P s
      → Yields
          (λ r.
            Open p captures ts cs g P r.1
            × (All (λ t. t < r.1.temporary_count) r.0 × (length r.0 ≡ length es)))
          (lower_all hir expression statement es s)
  unfolding lower_all
  lower_all-Open [] f v = yields (v, (tt, refl))
  lower_all-Open (e ∷ es) f v = bind-Yields (he.expression_lowers e f.0 ready v) λ t v.
      bind-Yields (lower_all-Open es f.1 v) λ ts q. yields (
        Inv-weaken q.0 q.0.in_temporaries.1 q.0.in_blocks (λ k m. m),
        ((q.0.in_temporaries.0, q.1.0), ap suc q.1.1),
      )

  pub lower_unary-Open :
      {ts cs : List ℕ} {P : ℕ → Type 0} {s : Lowering} (kind : MirInstructionKind) (operand : ℕ)
      → ((t : ℕ) (i : MirInstruction) → i.first < t → ValidKind p t (length captures) i kind)
      → ExprFits hir captures n sc operand
      → Open p captures ts cs g P s
      → Yields
          (λ r. Open p captures (r.0 ∷ ts) cs g P r.1)
          (lower_unary hir expression statement span kind operand s)
  unfolding lower_unary
  lower_unary-Open kind operand k f v = bind-Yields (he.expression_lowers operand f ready v) λ t v.
      Yields-map
        (λ r w. Inv-weaken w (w.in_temporaries.0, w.in_temporaries.1.1) w.in_blocks λ k m. m)
        (fresh-Open _
          (λ b target h l. (h, k b (record (instruction kind target span) { first = t.0 }) l.0)) v)

  pub lower_arithmetic-Open :
      {ts cs : List ℕ} {P : ℕ → Type 0} {s : Lowering} (kind : MirInstructionKind) (left right : ℕ)
      → ((t : ℕ) (i : MirInstruction)
          → i.first < t
          → i.second < t
          → ValidKind p t (length captures) i kind)
      → ExprFits hir captures n sc right
      → Open p captures (left ∷ ts) cs g P s
      → Yields
          (λ r. Open p captures (r.0 ∷ ts) cs g P r.1)
          (lower_arithmetic hir expression statement span kind left right s)
  unfolding lower_arithmetic
  lower_arithmetic-Open kind left right k f v =
      bind-Yields (he.expression_lowers right f ready v) λ t v.
        Yields-map
          (λ r w. Inv-weaken w (w.in_temporaries.0, w.in_temporaries.1.1.1) w.in_blocks λ k m. m)
          (fresh-Open _
            (λ b target h l. (
              h,
              k b (record (instruction kind target span) { first = left; second = t.0 }) l.1.0 l.0,
            ))
            v)

  pub lower_list-Open :
      {ts cs : List ℕ} {P : ℕ → Type 0} {s : Lowering} (es : List ℕ)
      (make : ℕ → List ℕ → MirInstruction)
      → All (ExprFits hir captures n sc) es
      → ((t target : ℕ) (xs : List ℕ)
          → target < t
          → All (λ x. x < t) xs
          → length xs ≡ length es
          → ValidInstruction p t (length captures) (make target xs))
      → Open p captures ts cs g P s
      → Yields
          (λ r. Open p captures (r.0 ∷ ts) cs g P r.1)
          (lower_list hir expression statement span es make s)
  unfolding lower_list
  lower_list-Open es make f valid v = bind-Yields (temporary-Open v) λ t v.
      bind-Yields (lower_all-Open es f v) λ ts q.
        bind-Yields (push-Open _ q.0 (valid _ t.0 ts.0 q.0.in_temporaries.0 q.1.0 q.1.1))
          λ u v. yields v

  pub lower_access-Open :
      {ts cs : List ℕ} {P : ℕ → Type 0} {s : Lowering} (object : ℕ) (make : ℕ → ℕ → MirInstruction)
      → ExprFits hir captures n sc object
      → ((t target x : ℕ)
          → target < t
          → x < t
          → ValidInstruction p t (length captures) (make target x))
      → Open p captures ts cs g P s
      → Yields
          (λ r. Open p captures (r.0 ∷ ts) cs g P r.1)
          (lower_access hir expression statement span object make s)
  unfolding lower_access
  lower_access-Open object make f valid v = bind-Yields (temporary-Open v) λ t v.
      bind-Yields (he.expression_lowers object f ready v) λ x v.
        bind-Yields (push-Open _ v (valid _ t.0 x.0 v.in_temporaries.1.0 v.in_temporaries.0))
          λ u v. yields (Inv-weaken v v.in_temporaries.1 v.in_blocks λ k m. m)

  pub lower_index-Open :
      {ts cs : List ℕ} {P : ℕ → Type 0} {s : Lowering} (object index : ℕ)
      → ExprFits hir captures n sc object
      → ExprFits hir captures n sc index
      → Open p captures ts cs g P s
      → Yields
          (λ r. Open p captures (r.0 ∷ ts) cs g P r.1)
          (lower_index hir expression statement span object index s)
  unfolding lower_index
  lower_index-Open object index f h v = bind-Yields (temporary-Open v) λ t v.
      bind-Yields (he.expression_lowers object f ready v) λ x v.
        bind-Yields (he.expression_lowers index h ready v) λ y v.
          bind-Yields
            (push-Open _ v (v.in_temporaries.1.1.0, (v.in_temporaries.1.0, v.in_temporaries.0)))
            λ u v. yields (Inv-weaken v v.in_temporaries.1.1 v.in_blocks λ k m. m)

  pub lower_call-Open :
      {ts cs : List ℕ} {P : ℕ → Type 0} {s : Lowering} (function : ℕ) (es : List ℕ)
      → (Entry hir.functions function λ f. length es ≡ length f.parameters)
      → All (ExprFits hir captures n sc) es
      → Open p captures ts cs g P s
      → Yields
          (λ r. Open p captures (r.0 ∷ ts) cs g P r.1)
          (lower_call hir expression statement span function es s)
  unfolding lower_call fresh
  lower_call-Open function es (f, found, arity) h v = bind-Yields (lower_all-Open es h v) λ ts q.
      bind-Yields
        (temporary-Open
          (Inv-weaken q.0 (All-append _ ts.0 _ q.1.0 q.0.in_temporaries) q.0.in_blocks λ k m. m))
        λ t v.
          let w = All-split _ ts.0 _ v.in_temporaries.1 in
          let target = target_of hir p sig function f found in
          bind-Yields
            (push-Open _ v (
              v.in_temporaries.0,
              (
                (
                  target,
                  (parameters_iff p (function + 1) _ target).0
                      (q.1.1 ∙ arity ∙ sym (sig.parameters function f found)),
                ),
                w.0,
              ),
            ))
            λ u v. yields (
              Inv-weaken v (v.in_temporaries.0, (All-split _ ts.0 _ v.in_temporaries.1).1)
                v.in_blocks λ k m. m)

  pub lower_indirect_call-Open :
      {ts cs : List ℕ} {P : ℕ → Type 0} {s : Lowering} (callee : ℕ) (es : List ℕ)
      → ExprFits hir captures n sc callee
      → All (ExprFits hir captures n sc) es
      → Open p captures ts cs g P s
      → Yields
          (λ r. Open p captures (r.0 ∷ ts) cs g P r.1)
          (lower_indirect_call hir expression statement span callee es s)
  unfolding lower_indirect_call fresh
  lower_indirect_call-Open {ts = before} callee es f h v =
      bind-Yields (he.expression_lowers callee f ready v) λ c v.
        bind-Yields (lower_all-Open es h v) λ ts q.
          bind-Yields
            (temporary-Open (
              Inv-weaken q.0 (All-append _ ts.0 (c.0 ∷ before) q.1.0 q.0.in_temporaries)
                q.0.in_blocks λ k m. m))
            λ t v.
              let w = All-split _ ts.0 (c.0 ∷ before) v.in_temporaries.1 in
              bind-Yields (push-Open _ v (v.in_temporaries.0, (w.1.0, w.0))) λ u v. yields (
                Inv-weaken v
                  (v.in_temporaries.0, (All-split _ ts.0 (c.0 ∷ before) v.in_temporaries.1).1.1)
                  v.in_blocks λ k m. m)
