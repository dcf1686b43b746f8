-- ===== src/Lowering/Total/Control.antt =====
-- compiler/kyna_mir/src/lowering/expression_lowering.cpp and expression_control_lowering.cpp: expressions with
-- several blocks that fit are lowered to valid code.
use kyna.Base.{
  subst, if◌then◌else◌, Yields-map, ℕ, ◌<◌, ◌⊎◌, inl, inr, Bool, true, false, List, [], ◌∷◌, All,
  Yields, yields, bind-Yields,
}
use kyna.Diagnostics.{SourceSpan}
use kyna.Bytecode.Valid.{EachOf}
use kyna.Mir.Program.{MirProgram, HirConstant}
use kyna.Hir.{HirProgram, HirMatchArm, HirIfExpression}
use kyna.Lowering.{Lowering, Lower, constant}
use kyna.Lowering.Expressions.{
  short_circuit, right_operand, lower_logical, lower_branch, lower_if_expression, lower_arm,
  lower_arms, lower_match_expression,
}
use kyna.Lowering.Fits.{Scope, knowing, ExprFits, StmtFits, bound_by}
use kyna.Lowering.States.{Frame, Inv, Open}
use kyna.Lowering.States.Steps.{Inv-weaken}
use kyna.Lowering.States.Frames.{enter-Open}
use kyna.Lowering.States.Blocks.{
  swap, Inv-forget, temporary-Open, add_block-Open, push-Open, terminate-Open, unless-Open,
}
use kyna.Lowering.Total.{Ready, Done, LowersExpressions, LowersStatements}
use kyna.Lowering.Total.Frames.{elim-Yields, Among, Ready-known, unless-ended}
use kyna.Lowering.Total.Expressions.{move-Open}

pub rotate : {A B C D : Type 0} → A ⊎ (B ⊎ (C ⊎ D)) → C ⊎ (A ⊎ (B ⊎ D))
rotate (inl a) = inr (inl a)
rotate (inr (inl b)) = inr (inr (inl b))
rotate (inr (inr (inl c))) = inl c
rotate (inr (inr (inr d))) = inr (inr (inr d))

module _ (hir : HirProgram) (captures : List ℕ) (p : MirProgram) (n budget : ℕ)
    (expression : ℕ → Lower ℕ) (statement : ℕ → Lower (Unit {0}))
    (he : LowersExpressions hir captures p expression n budget)
    (hs : LowersStatements hir captures p statement n budget) (span : SourceSpan) where
  pub constant-Open :
      {ts cs : List ℕ} {g : Frame} {P : ℕ → Type 0} {s : Lowering} (value : HirConstant)
      (target : ℕ)
      → Open p captures ts cs g P s
      → target < s.temporary_count
      → Yields (λ r. Open p captures ts cs g P r.1) (constant value target span s)
  unfolding constant
  constant-Open value target v h = push-Open _ v (h, tt)

  short_circuit-Inv :
      {ts cs : List ℕ} {g : Frame} {P : ℕ → Type 0} {s : Lowering} (is_and : Bool)
      (target continuation : ℕ)
      → Among target ts
      → Among continuation cs
      → Open p captures ts cs g P s
      → Yields
          (λ r. Inv p captures ts cs g P r.1)
          (short_circuit hir expression statement span is_and target continuation s)
  unfolding short_circuit
  short_circuit-Inv {ts} is_and target continuation a b v = bind-Yields (temporary-Open v) λ t v.
      bind-Yields (constant-Open _ t.0 v v.in_temporaries.0) λ u v.
        bind-Yields
          (move-Open p captures {ts = t.0 ∷ ts} target t.0 span v (a _ v.in_temporaries.1)
            v.in_temporaries.0)
          λ u v.
            Yields-map (λ r w. Inv-weaken w w.in_temporaries.1 w.in_blocks λ k m. m)
              (terminate-Open _ span v (b _ v.in_blocks))

  right_operand-Inv :
      {ts cs : List ℕ} {g : Frame} {P : ℕ → Type 0} {sc : Scope} {s : Lowering}
      (right target continuation : ℕ)
      → Among target ts
      → Among continuation cs
      → ExprFits hir captures n sc right
      → Ready hir captures budget sc g
      → Open p captures ts cs g P s
      → Yields
          (λ r. Inv p captures ts cs g P r.1)
          (right_operand hir expression statement span right target continuation s)
  unfolding right_operand
  right_operand-Inv {ts} right target continuation a b f ready v =
      bind-Yields (he.expression_lowers right f ready v) λ x v.
        bind-Yields (temporary-Open v) λ i v. bind-Yields (temporary-Open v) λ j v.
          bind-Yields (push-Open _ v (v.in_temporaries.1.0, v.in_temporaries.1.1.0)) λ u v.
            bind-Yields (push-Open _ v (v.in_temporaries.0, v.in_temporaries.1.0)) λ u v.
              bind-Yields
                (move-Open p captures {ts = j.0 ∷ i.0 ∷ x.0 ∷ ts} target j.0 span v
                  (a _ v.in_temporaries.1.1.1) v.in_temporaries.0)
                λ u v.
                  Yields-map (λ r w. Inv-weaken w w.in_temporaries.1.1.1 w.in_blocks λ k m. m)
                    (terminate-Open _ span v (b _ v.in_blocks))

  chosen : {t : ℕ} (b : Bool) (x y : ℕ) → x < t → y < t → (if b then x else y) < t
  chosen true x y h k = h
  chosen false x y h k = k

  pub lower_logical-Open :
      {ts cs : List ℕ} {g : Frame} {P : ℕ → Type 0} {sc : Scope} {s : Lowering} (is_and : Bool)
      (left right : ℕ)
      → ExprFits hir captures n sc right
      → Ready hir captures budget sc g
      → Open p captures (left ∷ ts) cs g P s
      → Yields
          (λ r. Open p captures (r.0 ∷ ts) cs g P r.1)
          (lower_logical hir expression statement span is_and left right s)
  unfolding lower_logical
  lower_logical-Open is_and left right f ready v = bind-Yields (temporary-Open v) λ t v.
      bind-Yields (add_block-Open v) λ r v. bind-Yields (add_block-Open v) λ a v.
        bind-Yields (add_block-Open v) λ c v.
          bind-Yields
            (terminate-Open _ span v (
              v.in_temporaries.1.0,
              (
                chosen is_and r.0 a.0 v.in_blocks.1.1.0 v.in_blocks.1.0,
                chosen is_and a.0 r.0 v.in_blocks.1.0 v.in_blocks.1.1.0,
              ),
            ))
            λ u v. bind-Yields (enter-Open a.0 v v.in_blocks.1.0 λ k m. swap m) λ u v.
              bind-Yields (short_circuit-Inv is_and t.0 c.0 (λ t h. h.0) (λ t h. h.0) v) λ u v.
                bind-Yields (enter-Open r.0 v v.in_blocks.1.1.0 λ k m. swap m) λ u v.
                  bind-Yields (right_operand-Inv right t.0 c.0 (λ t h. h.0) (λ t h. h.0) f ready v)
                    λ u v. bind-Yields (enter-Open c.0 v v.in_blocks.0 λ k m. m) λ u v. yields (
                      Inv-weaken v (v.in_temporaries.0, v.in_temporaries.1.1) v.in_blocks.1.1.1
                        λ k m. m)

  pub lower_arm-Inv :
      {ts cs : List ℕ} {g : Frame} {P : ℕ → Type 0} {sc : Scope} {s : Lowering}
      (value target continuation : ℕ)
      → Among target ts
      → Among continuation cs
      → ExprFits hir captures n sc value
      → Ready hir captures budget sc g
      → Open p captures ts cs g P s
      → Yields
          (λ r. Inv p captures ts cs g P r.1)
          (lower_arm hir expression statement span value target continuation s)
  unfolding lower_arm
  lower_arm-Inv {ts} value target continuation a b f ready v =
      bind-Yields (he.expression_lowers value f ready v) λ x v.
        bind-Yields
          (move-Open p captures {ts = x.0 ∷ ts} target x.0 span v (a _ v.in_temporaries.1)
            v.in_temporaries.0)
          λ u v.
            Yields-map (λ r w. Inv-weaken w w.in_temporaries.1 w.in_blocks λ k m. m)
              (terminate-Open _ span v (b _ v.in_blocks))

  lower_branch-Inv :
      {ts cs : List ℕ} {g : Frame} {P : ℕ → Type 0} {sc : Scope} {s : Lowering}
      (prelude value target continuation : ℕ)
      → Among target ts
      → Among continuation cs
      → StmtFits hir captures n sc prelude
      → ExprFits hir captures n (knowing (bound_by hir captures n prelude) sc) value
      → Ready hir captures budget sc g
      → Open p captures ts cs g P s
      → Yields
          (λ r. Inv p captures ts cs g P r.1)
          (lower_branch hir expression statement span prelude value target continuation s)
  unfolding lower_branch lower_arm
  lower_branch-Inv prelude value target continuation a b f h ready v =
      bind-Yields (hs.statement_lowers prelude f ready v) λ u d. elim d [
        | Done.ended e w ↦ unless-ended _ e w
        | Done.bound w ↦
            Yields-map (λ r x. Inv-forget _ x)
              (unless-Open _ w
                (lower_arm-Inv value target continuation a b h (Ready-known hir captures _ ready) w)
                λ e x. x)
      ]

  pub lower_if_expression-Open :
      {ts cs : List ℕ} {g : Frame} {P : ℕ → Type 0} {sc : Scope} {s : Lowering}
      (node : HirIfExpression)
      → ExprFits hir captures n sc node.condition
      → StmtFits hir captures n sc node.then_prelude
      → ExprFits hir captures n
          (knowing (bound_by hir captures n node.then_prelude) sc)
          node.then_value
      → StmtFits hir captures n sc node.else_prelude
      → ExprFits hir captures n
          (knowing (bound_by hir captures n node.else_prelude) sc)
          node.else_value
      → Ready hir captures budget sc g
      → Open p captures ts cs g P s
      → Yields
          (λ r. Open p captures (r.0 ∷ ts) cs g P r.1)
          (lower_if_expression hir expression statement span node s)
  unfolding lower_if_expression
  lower_if_expression-Open node c f1 f2 f3 f4 ready v =
      bind-Yields (he.expression_lowers node.condition c ready v) λ x v.
        bind-Yields (temporary-Open v) λ t v. bind-Yields (add_block-Open v) λ a v.
          bind-Yields (add_block-Open v) λ b v. bind-Yields (add_block-Open v) λ c v.
            bind-Yields
              (terminate-Open _ span v (v.in_temporaries.1.0, (v.in_blocks.1.1.0, v.in_blocks.1.0)))
              λ u v. bind-Yields (enter-Open a.0 v v.in_blocks.1.1.0 λ k m. rotate m) λ u v.
                bind-Yields
                  (lower_branch-Inv node.then_prelude node.then_value t.0 c.0 (λ t h. h.0)
                    (λ t h. h.0) f1 f2 ready v)
                  λ u v. bind-Yields (enter-Open b.0 v v.in_blocks.1.0 λ k m. swap m) λ u v.
                    bind-Yields
                      (lower_branch-Inv node.else_prelude node.else_value t.0 c.0 (λ t h. h.0)
                        (λ t h. h.0) f3 f4 ready v)
                      λ u v. bind-Yields (enter-Open c.0 v v.in_blocks.0 λ k m. m) λ u v. yields (
                        Inv-weaken v (v.in_temporaries.0, v.in_temporaries.1.1) v.in_blocks.1.1.1
                          λ k m. m)

  lower_arms-Inv :
      {ts cs : List ℕ} {g : Frame} {P : ℕ → Type 0} {sc : Scope} {s : Lowering}
      (subject target continuation : ℕ) (arms : List HirMatchArm)
      → Among subject ts
      → Among target ts
      → Among continuation cs
      → All
          (λ arm.
            EachOf arm.pattern_value (ExprFits hir captures n sc)
            × ExprFits hir captures n sc arm.value)
          arms
      → Ready hir captures budget sc g
      → Open p captures ts cs g P s
      → Yields
          (λ r. Inv p captures ts cs g P r.1)
          (lower_arms hir expression statement span subject target continuation arms s)
  unfolding lower_arms
  lower_arms-Inv {ts} subject target continuation [] a b c f ready v =
      unless-Open _ v
        (bind-Yields (temporary-Open v) λ t v.
          bind-Yields (constant-Open _ t.0 v v.in_temporaries.0) λ u v.
            bind-Yields
              (move-Open p captures {ts = t.0 ∷ ts} target t.0 span v (b _ v.in_temporaries.1)
                v.in_temporaries.0)
              λ u v.
                Yields-map (λ r w. Inv-weaken w w.in_temporaries.1 w.in_blocks λ k m. m)
                  (terminate-Open _ span v (c _ v.in_blocks)))
        λ e w. w
  lower_arms-Inv {sc = sc} subject target continuation (arm ∷ arms) a b c f ready v =
      elim-Yields arm.pattern_value _ _
        (λ e. lower_arm-Inv arm.value target continuation b c f.0.1 ready v)
        λ value e.
          bind-Yields
            (he.expression_lowers value (subst (λ o. EachOf o (ExprFits hir captures n sc)) e f.0.0)
              ready v)
            λ x v. bind-Yields (temporary-Open v) λ m v.
              bind-Yields
                (push-Open _ v
                  (v.in_temporaries.0, (a _ v.in_temporaries.1.1, v.in_temporaries.1.0)))
                λ u v. bind-Yields (add_block-Open v) λ k v. bind-Yields (add_block-Open v) λ l v.
                  bind-Yields
                    (terminate-Open _ span v (v.in_temporaries.0, (v.in_blocks.1.0, v.in_blocks.0)))
                    λ u v. bind-Yields (enter-Open k.0 v v.in_blocks.1.0 λ k m. swap m) λ u v.
                      bind-Yields
                        (lower_arm-Inv arm.value target continuation (λ t h. b t h.1.1)
                          (λ t h. c t h.1.1) f.0.1 ready v)
                        λ u v. bind-Yields (enter-Open l.0 v v.in_blocks.0 λ k m. m) λ u v.
                          lower_arms-Inv subject target continuation arms a b c f.1 ready
                            (Inv-weaken v v.in_temporaries.1.1 v.in_blocks.1.1 λ k m. m)

  pub lower_match_expression-Open :
      {ts cs : List ℕ} {g : Frame} {P : ℕ → Type 0} {sc : Scope} {s : Lowering} (subject : ℕ)
      (arms : List HirMatchArm)
      → ExprFits hir captures n sc subject
      → All
          (λ arm.
            EachOf arm.pattern_value (ExprFits hir captures n sc)
            × ExprFits hir captures n sc arm.value)
          arms
      → Ready hir captures budget sc g
      → Open p captures ts cs g P s
      → Yields
          (λ r. Open p captures (r.0 ∷ ts) cs g P r.1)
          (lower_match_expression hir expression statement span subject arms s)
  unfolding lower_match_expression
  lower_match_expression-Open subject arms f h ready v =
      bind-Yields (he.expression_lowers subject f ready v) λ x v.
        bind-Yields (temporary-Open v) λ t v. bind-Yields (add_block-Open v) λ c v.
          bind-Yields
            (lower_arms-Inv x.0 t.0 c.0 arms (λ t h. h.1.0) (λ t h. h.0) (λ t h. h.0) h ready v)
            λ u v. bind-Yields (enter-Open c.0 v v.in_blocks.0 λ k m. m) λ u v.
              yields
                (Inv-weaken v (v.in_temporaries.0, v.in_temporaries.1.1) v.in_blocks.1 λ k m. m)
