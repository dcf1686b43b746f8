-- ===== src/Lowering/Total/Statements.antt =====
-- compiler/kyna_mir/src/lowering/statement_lowering.cpp: statements with one block, and the branches and loops,
-- are lowered to valid code.
use kyna.Base.{
  String, true, Yields-map, ℕ, ◌<◌, ◌≡◌, refl, sym, ap, subst, ◌⊎◌, inl, inr, List, [], ◌∷◌, ◌++◌,
  append_assoc, Option, none, some, All, Yields, yields, bind-Yields,
}
use kyna.Base
use kyna.Diagnostics.{SourceSpan}
use kyna.Bytecode.Valid.{EachOf}
use kyna.Mir.Program.{MirProgram}
use kyna.Hir.{HirProgram, HirLoopStatement}
use kyna.Lowering.{Lowering, Lower, terminated}
use kyna.Lowering.Statements.{
  lower_each, lower_optional, close, lower_bind_local, lower_if, lower_while, lower_increment,
  lower_for, lower_loop,
}
use kyna.Lowering.Fits.{
  Scope, knowing, in_loop, ExprFits, StmtFits, StatementsFit, optional_binds, concat_binds,
  LoopBodyFits, bound_by,
}
use kyna.Lowering.States.{Frame, with_known, Inv, Open}
use kyna.Lowering.States.Steps.{Inv-weaken}
use kyna.Lowering.States.Frames.{enter-Open, push_loop-Open, pop_loop-Open, bind_local-Open}
use kyna.Lowering.States.Blocks.{
  swap, Inv-forget, temporary-Open, add_block-Open, terminate-Open, unless-Open,
}
use kyna.Lowering.Total.{Ready, Done, LowersExpressions, LowersStatements}
use kyna.Lowering.Total.Frames.{
  Among, Ready-known, Ready-more, Ready-in_loop, Done-Open, unless-ended,
}
use kyna.Lowering.Total.Expressions.{some-bind, move-Open}
use kyna.Lowering.Total.Control.{rotate}

fourth : {A B C D F : Type 0} → A ⊎ (B ⊎ (C ⊎ (D ⊎ F))) → D ⊎ (A ⊎ (B ⊎ (C ⊎ F)))
fourth (inl a) = inr (inl a)
fourth (inr (inl b)) = inr (inr (inl b))
fourth (inr (inr (inl c))) = inr (inr (inr (inl c)))
fourth (inr (inr (inr (inl d)))) = inl d
fourth (inr (inr (inr (inr f)))) = inr (inr (inr (inr f)))

module _ (hir : HirProgram) (captures : List ℕ) (p : MirProgram) (n budget : ℕ)
    (expression : ℕ → Lower ℕ) (statement : ℕ → Lower (Unit {0}))
    (he : LowersExpressions hir captures p expression n budget)
    (hs : LowersStatements hir captures p statement n budget) where
  abbrev E : Scope → ℕ → Type 0
  E = ExprFits hir captures n

  abbrev S : Scope → ℕ → Type 0
  S = StmtFits hir captures n

  abbrev binds : ℕ → List ℕ
  binds = bound_by hir captures n

  pub lower_optional-Open :
      {ts cs : List ℕ} {g : Frame} {P : ℕ → Type 0} {sc : Scope} {s : Lowering} (o : Option ℕ)
      → EachOf o (S sc)
      → Ready hir captures budget sc g
      → Open p captures ts cs g P s
      → Yields (λ r. Open p captures ts cs g P r.1) (lower_optional expression statement o s)
  unfolding lower_optional
  lower_optional-Open none f r v = yields v
  lower_optional-Open (some st) f r v =
      Yields-map (λ r d. Done-Open d) (hs.statement_lowers st f r v)

  lower_optional-Done :
      {ts cs : List ℕ} {g : Frame} {P : ℕ → Type 0} {sc : Scope} {s : Lowering} (o : Option ℕ)
      → EachOf o (S sc)
      → Ready hir captures budget sc g
      → Open p captures ts cs g P s
      → Yields
          (λ r. Done hir captures p ts cs g P (optional_binds hir captures E S binds o) r.1)
          (lower_optional expression statement o s)
  unfolding lower_optional
  lower_optional-Done none f r v = yields (Done.bound v)
  lower_optional-Done (some st) f r v = hs.statement_lowers st f r v

  lower_each-skips :
      {R : Unit {0} × Lowering → Type 0} {s : Lowering} (statements : List ℕ) (sc : Scope)
      → StatementsFit hir captures E S binds sc statements
      → terminated s ≡ some (true, s)
      → R (tt, s)
      → Yields R (lower_each expression statement statements s)
  unfolding lower_each
  lower_each-skips [] sc f e r = yields r
  lower_each-skips {R} (st ∷ statements) sc f e r =
      subst (λ o. Yields R (Base.◌>>=◌ o λ x. lower_each expression statement statements x.1))
        (sym (hs.statement_skips sc st f.0 e))
        (some-bind (λ x. lower_each expression statement statements x.1)
          (lower_each-skips statements (knowing (binds st) sc) f.1 e r))

  -- What two statements bind, one behind the other.
  rejoin :
      {ts cs : List ℕ} {g : Frame} {P : ℕ → Type 0} {s : Lowering} (before after : List ℕ)
      → Done hir captures p ts cs (with_known before g) P after s
      → Done hir captures p ts cs g P (after ++ before) s
  rejoin before after (Done.ended e x) = Done.ended e (Inv-forget before x)
  rejoin {ts} {cs} {g} {P} {s} before after (Done.bound x) = Done.bound (
      subst (λ l. Open p captures ts cs (record g { known = l }) P s)
        (sym (append_assoc after before g.known)) x)

  pub lower_each-Done :
      {ts cs : List ℕ} {P : ℕ → Type 0} {s : Lowering} (statements : List ℕ) (g : Frame)
      (sc : Scope)
      → StatementsFit hir captures E S binds sc statements
      → Ready hir captures budget sc g
      → Open p captures ts cs g P s
      → Yields
          (λ r. Done hir captures p ts cs g P (concat_binds hir captures binds statements) r.1)
          (lower_each expression statement statements s)
  unfolding lower_each
  lower_each-Done [] g sc f r v = yields (Done.bound v)
  lower_each-Done {ts} {cs} {P} (st ∷ statements) g sc f r v =
      bind-Yields (hs.statement_lowers st f.0 r v) λ u d. elim d [
        | Done.ended e w ↦
            lower_each-skips statements (knowing (binds st) sc) f.1 e (Done.ended e w)
        | Done.bound w ↦
            Yields-map (λ r d. rejoin (binds st) _ d)
              (lower_each-Done statements (with_known (binds st) g) (knowing (binds st) sc) f.1
                (Ready-known hir captures _ r) w)
      ]

  module _ (span : SourceSpan) where
    pub close-Inv :
        {ts cs : List ℕ} {g : Frame} {P : ℕ → Type 0} {s : Lowering} (block : ℕ)
        → Among block cs
        → Open p captures ts cs g P s
        → Yields (λ r. Inv p captures ts cs g P r.1) (close expression statement span block s)
    unfolding close
    close-Inv block b v = unless-Open _ v (terminate-Open _ span v (b _ v.in_blocks)) λ e w. w

    pub lower_bind_local-Done :
        {ts cs : List ℕ} {g : Frame} {P : ℕ → Type 0} {sc : Scope} {s : Lowering}
        (local initializer : ℕ)
        → E sc initializer
        → Ready hir captures budget sc g
        → Open p captures ts cs g P s
        → Yields
            (λ r. Done hir captures p ts cs g P (local ∷ []) r.1)
            (lower_bind_local expression statement span local initializer s)
    unfolding lower_bind_local
    lower_bind_local-Done {ts} {g = g} local initializer f r v =
        bind-Yields (temporary-Open v) λ t v.
          bind-Yields (bind_local-Open local t.0 v v.in_temporaries.0) λ u v.
            bind-Yields
              (he.expression_lowers initializer f (Ready-more hir captures (local ∷ []) r) v)
              λ x v.
                Yields-map
                  (λ r w. Done.bound (Inv-weaken w w.in_temporaries.1.1 w.in_blocks λ k m. m))
                  (move-Open p captures {ts = x.0 ∷ t.0 ∷ ts} {g = with_known (local ∷ []) g} t.0
                    x.0 span v v.in_temporaries.1.0 v.in_temporaries.0)

    pub lower_if-Open :
        {ts cs : List ℕ} {g : Frame} {P : ℕ → Type 0} {sc : Scope} {s : Lowering}
        (condition then_branch : ℕ) (else_branch : Option ℕ)
        → E sc condition
        → S sc then_branch
        → EachOf else_branch (S sc)
        → Ready hir captures budget sc g
        → Open p captures ts cs g P s
        → Yields
            (λ r. Open p captures ts cs g P r.1)
            (lower_if expression statement span condition then_branch else_branch s)
    unfolding lower_if
    lower_if-Open condition then_branch else_branch c f h r v =
        bind-Yields (he.expression_lowers condition c r v) λ x v.
          bind-Yields (add_block-Open v) λ a v. bind-Yields (add_block-Open v) λ b v.
            bind-Yields (add_block-Open v) λ k v.
              bind-Yields
                (terminate-Open _ span v (v.in_temporaries.0, (v.in_blocks.1.1.0, v.in_blocks.1.0)))
                λ u v. bind-Yields (enter-Open a.0 v v.in_blocks.1.1.0 λ k m. rotate m) λ u v.
                  bind-Yields (hs.statement_lowers then_branch f r v) λ u d.
                    bind-Yields (close-Inv k.0 (λ t h. h.0) (Done-Open d)) λ u v.
                      bind-Yields (enter-Open b.0 v v.in_blocks.1.0 λ k m. swap m) λ u v.
                        bind-Yields (lower_optional-Open else_branch h r v) λ u v.
                          bind-Yields (close-Inv k.0 (λ t h. h.0) v) λ u v.
                            Yields-map
                              (λ r v. Inv-weaken v v.in_temporaries.1 v.in_blocks.1.1.1 λ k m. m)
                              (enter-Open k.0 v v.in_blocks.0 λ k m. m)

    pub lower_while-Open :
        {ts cs : List ℕ} {g : Frame} {P : ℕ → Type 0} {sc : Scope} {s : Lowering}
        (condition body : ℕ) (label : String)
        → E sc condition
        → S (in_loop sc) body
        → Ready hir captures budget sc g
        → Open p captures ts cs g P s
        → Yields
            (λ r. Open p captures ts cs g P r.1)
            (lower_while expression statement span condition body label s)
    unfolding lower_while
    lower_while-Open condition body label c f r v = bind-Yields (add_block-Open v) λ a v.
        bind-Yields (add_block-Open v) λ b v. bind-Yields (add_block-Open v) λ k v.
          bind-Yields (terminate-Open _ span v v.in_blocks.1.1.0) λ u v.
            bind-Yields (enter-Open a.0 v v.in_blocks.1.1.0 λ k m. rotate m) λ u v.
              bind-Yields (he.expression_lowers condition c r v) λ x v.
                bind-Yields
                  (terminate-Open _ span v (v.in_temporaries.0, (v.in_blocks.1.0, v.in_blocks.0)))
                  λ u v. bind-Yields (enter-Open b.0 v v.in_blocks.1.0 λ k m. swap m) λ u v.
                    bind-Yields (push_loop-Open label k.0 a.0 v v.in_blocks.0 v.in_blocks.1.1.0)
                      λ u v.
                        bind-Yields (hs.statement_lowers body f (Ready-in_loop hir captures _ r) v)
                          λ u d. bind-Yields (pop_loop-Open (Done-Open d)) λ u v.
                            bind-Yields (close-Inv a.0 (λ t h. h.1.1.0) v) λ u v.
                              Yields-map
                                (λ r v. Inv-weaken v v.in_temporaries.1 v.in_blocks.1.1.1 λ k m. m)
                                (enter-Open k.0 v v.in_blocks.0 λ k m. m)

    lower_increment-Open :
        {ts cs : List ℕ} {g : Frame} {P : ℕ → Type 0} {sc : Scope} {s : Lowering} (o : Option ℕ)
        → EachOf o (E sc)
        → Ready hir captures budget sc g
        → Open p captures ts cs g P s
        → Yields
            (λ r. Open p captures ts cs g P r.1)
            (lower_increment expression statement span o s)
    unfolding lower_increment
    lower_increment-Open none f r v = yields v
    lower_increment-Open (some e) f r v =
        bind-Yields (he.expression_lowers e f r v)
          λ x v. yields (Inv-weaken v v.in_temporaries.1 v.in_blocks λ k m. m)

    -- The loop around: its condition, its body, its increment and its exit.
    lower_for-Open :
        {ts cs : List ℕ} {g : Frame} {P : ℕ → Type 0} {sc : Scope} {s : Lowering}
        (node : HirLoopStatement)
        → LoopBodyFits hir captures E S binds sc node
        → Ready hir captures budget sc g
        → Open p captures ts cs g P s
        → Yields (λ r. Open p captures ts cs g P r.1) (lower_for expression statement span node s)
    unfolding lower_for
    lower_for-Open node f r v = bind-Yields (add_block-Open v) λ a v.
        bind-Yields (add_block-Open v) λ b v. bind-Yields (add_block-Open v) λ i v.
          bind-Yields (add_block-Open v) λ k v.
            bind-Yields (terminate-Open _ span v v.in_blocks.1.1.1.0) λ u v.
              bind-Yields (enter-Open a.0 v v.in_blocks.1.1.1.0 λ k m. fourth m) λ u v.
                bind-Yields (he.expression_lowers node.condition f.0 r v) λ x v.
                  bind-Yields
                    (terminate-Open _ span v
                      (v.in_temporaries.0, (v.in_blocks.1.1.0, v.in_blocks.0)))
                    λ u v. bind-Yields (enter-Open b.0 v v.in_blocks.1.1.0 λ k m. rotate m) λ u v.
                      bind-Yields
                        (push_loop-Open node.label k.0 i.0 v v.in_blocks.0 v.in_blocks.1.0)
                        λ u v.
                          bind-Yields
                            (hs.statement_lowers node.body f.1.1 (Ready-in_loop hir captures _ r) v)
                            λ u d. bind-Yields (pop_loop-Open (Done-Open d)) λ u v.
                              bind-Yields (close-Inv i.0 (λ t h. h.1.0) v) λ u v.
                                bind-Yields (enter-Open i.0 v v.in_blocks.1.0 λ k m. swap m) λ u v.
                                  bind-Yields (lower_increment-Open node.increment f.1.0 r v) λ u v.
                                    bind-Yields (terminate-Open _ span v v.in_blocks.1.1.1.0) λ u v.
                                      Yields-map
                                        (λ r v.
                                          Inv-weaken v v.in_temporaries.1 v.in_blocks.1.1.1.1
                                            λ k m. m)
                                        (enter-Open k.0 v v.in_blocks.0 λ k m. m)

    pub lower_loop-Open :
        {ts cs : List ℕ} {g : Frame} {P : ℕ → Type 0} {sc : Scope} {s : Lowering}
        (node : HirLoopStatement)
        → EachOf node.initializer (S sc)
        → LoopBodyFits hir captures E S binds
            (knowing (optional_binds hir captures E S binds node.initializer) sc)
            node
        → Ready hir captures budget sc g
        → Open p captures ts cs g P s
        → Yields (λ r. Open p captures ts cs g P r.1) (lower_loop expression statement span node s)
    unfolding lower_loop
    lower_loop-Open node f h r v = bind-Yields (lower_optional-Done node.initializer f r v) λ u d.
        elim d [
          | Done.ended e w ↦
              unless-ended _ e (Inv-weaken w w.in_temporaries w.in_blocks λ k m. inr m)
          | Done.bound w ↦
              Yields-map (λ r x. Inv-forget _ x)
                (unless-Open _ w (lower_for-Open node h (Ready-known hir captures _ r) w)
                  λ e x. Inv-weaken x x.in_temporaries x.in_blocks λ k m. inr m)
        ]
