-- ===== src/Lowering/States/Blocks.antt =====
-- compiler/kyna_mir/src/lowering/hir_lowering.cpp: the helpers of `HirLowerer` keep its state well formed: the
-- current block, the temporaries, and the blocks that are still without a terminator.
use kyna.Base
use kyna.Lowering.{give}
use kyna.Base.{
  if◌then◌else◌, ℕ, suc, ◌+◌, ◌≤◌, ◌<◌, ◌≡◌, refl, sym, ◌∙◌, ap, subst, ◌⊎◌, inl, inr, Bool, true,
  false, List, [], ◌∷◌, ◌++◌, Option, none, some, arith, length, get_elem?, All, All-append,
  All-get_elem?, get_elem?-lt, Yields, yields, bind-Yields, Yields-eq,
}
use kyna.Diagnostics.{SourceSpan}
use kyna.Mir.Program.{MirInstruction, MirTerminator, MirTerminatorNode, MirBasicBlock, MirProgram}
use kyna.Mir.Valid.{ValidInstruction, ValidNode}
use kyna.Lowering.{
  Lowering, Lower, temporary, add_block, push, terminate, current, has_terminator, terminated,
  unless_terminated,
}
use kyna.Lowering.Fits.{IsIn}
use kyna.Lowering.States.{Frame, with_known, BlockFits, Inv, Open}
use kyna.Lowering.States.Steps.{Inv-weaken, temporary_Inv, add_block_Inv, write_Inv}

pub IsIn-append : (k : ℕ) (xs ys : List ℕ) → IsIn k ys → IsIn k (xs ++ ys)
IsIn-append k [] ys i = i
IsIn-append k (x ∷ xs) ys i = inr (IsIn-append k xs ys i)

terminated_value :
    (s : Lowering) (b : MirBasicBlock) (c : Bool)
    → get_elem? s.blocks s.current_block ≡ some b
    → has_terminator b ≡ c
    → terminated s ≡ some (c, s)
unfolding terminated current Base.◌>>=◌
terminated_value s b c e h =
    ap (λ o. Base.◌>>=◌ o λ x. some (has_terminator x, s)) e ∙ ap (λ x. some (x, s)) h

pub swap : {A B C : Type 0} → A ⊎ (B ⊎ C) → B ⊎ (A ⊎ C)
swap (inl a) = inr (inl a)
swap (inr (inl b)) = inl b
swap (inr (inr c)) = inr (inr c)

module _ {p : MirProgram} {captures ts cs : List ℕ} {g : Frame} {P : ℕ → Type 0}
    {s : Lowering} where
  pub Inv-forget :
      (locals : List ℕ)
      → Inv p captures ts cs (with_known locals g) P s
      → Inv p captures ts cs g P s
  Inv-forget locals v = record {
    here = v.here;
    blocks = v.blocks;
    pending = v.pending;
    regions = v.regions;
    locals = record {
      below = v.locals.below;
      found = λ k i. v.locals.found k (IsIn-append k locals g.known i);
    };
    indexes = v.indexes;
    in_temporaries = v.in_temporaries;
    in_blocks = v.in_blocks;
    loops = v.loops;
    loops_fit = v.loops_fit;
    breaks = v.breaks;
    breaks_fit = v.breaks_fit;
    cleanups = v.cleanups;
  }

  -- The current block, and what holds of it.
  pub current-Inv :
      Inv p captures ts cs g P s
      → Yields
          (λ b.
            BlockFits p captures s.temporary_count (length s.blocks) b
            × (get_elem? s.blocks s.current_block ≡ some b))
          (current s)
  unfolding current
  current-Inv v =
      let (b, e) = get_elem?-lt s.blocks s.current_block v.here in
      Yields-eq e (All-get_elem? _ s.blocks s.current_block b v.blocks e, e)

module _ {p : MirProgram} {captures ts cs : List ℕ} {g : Frame} {P : ℕ → Type 0}
    {s : Lowering} where
  pub add_block-Inv :
      Inv p captures ts cs g P s
      → Yields (λ r. Inv p captures ts (r.0 ∷ cs) g (λ k. (k ≡ r.0) ⊎ P k) r.1) (add_block s)
  unfolding add_block
  add_block-Inv v = yields (add_block_Inv v)

  pub temporary-Inv :
      Inv p captures ts cs g P s → Yields (λ r. Inv p captures (r.0 ∷ ts) cs g P r.1) (temporary s)
  unfolding temporary
  temporary-Inv v = yields (temporary_Inv v)

  pub temporary-Open :
      Open p captures ts cs g P s
      → Yields (λ r. Open p captures (r.0 ∷ ts) cs g P r.1) (temporary s)
  unfolding temporary
  temporary-Open v = yields (temporary_Inv {P = λ k. (k ≡ s.current_block) ⊎ P k} v)

  pub add_block-Open :
      Open p captures ts cs g P s
      → Yields (λ r. Open p captures ts (r.0 ∷ cs) g (λ k. (k ≡ r.0) ⊎ P k) r.1) (add_block s)
  unfolding add_block
  add_block-Open v =
      let w = add_block_Inv v in yields (Inv-weaken w w.in_temporaries w.in_blocks λ k m. swap m)

  pub push-Open :
      (i : MirInstruction)
      → Open p captures ts cs g P s
      → ValidInstruction p s.temporary_count (length captures) i
      → Yields (λ r. Open p captures ts cs g P r.1) (push i s)
  unfolding push
  push-Open i v valid = bind-Yields (current-Inv v) λ b q. yields (
      write_Inv _ v (All-append _ b.instructions (i ∷ []) q.0.0 (valid, tt), q.0.1) (λ k m. inr m)
        λ e. inl refl)

  pub terminate-Open :
      (node : MirTerminatorNode) (span : SourceSpan)
      → Open p captures ts cs g P s
      → ValidNode p s.temporary_count (length captures) (length s.blocks) node
      → Yields (λ r. Inv p captures ts cs g P r.1) (terminate node span s)
  unfolding terminate
  terminate-Open node span v valid =
      bind-Yields (current-Inv v)
        λ b q. yields (write_Inv _ v (q.0.0, inr valid) (λ k m. m) λ e. absurd (cc))

  closed_Inv :
      Open p captures ts cs g P s
      → (b : MirBasicBlock) (x : MirTerminator) → get_elem? s.blocks s.current_block ≡ some b
      → b.terminator ≡ some x
      → Inv p captures ts cs g P s
  closed_Inv v b x e t = record {
    here = v.here;
    blocks = v.blocks;
    pending = λ k c f n. elim (v.pending k c f n) [ inl same ↦ absurd (cc) | inr m ↦ m ];
    regions = v.regions;
    locals = v.locals;
    indexes = v.indexes;
    in_temporaries = v.in_temporaries;
    in_blocks = v.in_blocks;
    loops = v.loops;
    loops_fit = v.loops_fit;
    breaks = v.breaks;
    breaks_fit = v.breaks_fit;
    cleanups = v.cleanups;
  }

  pub terminated-Open :
      Open p captures ts cs g P s
      → (terminated s ≡ some (false, s))
        ⊎ ((terminated s ≡ some (true, s)) × Inv p captures ts cs g P s)
  unfolding has_terminator
  terminated-Open v =
      let (b, e) = get_elem?-lt s.blocks s.current_block v.here in
      elim b.terminator
          as (λ o.
            b.terminator ≡ o
            → (terminated s ≡ some (false, s))
              ⊎ ((terminated s ≡ some (true, s)) × Inv p captures ts cs g P s)) [
                | none ↦ λ t. inl (
                    terminated_value s b false e
                      (ap (λ o. elim o as (λ _. Bool) [ none ↦ false | some _ ↦ true ]) t))
                | some x ↦ λ t. inr (
                  terminated_value s b true e
                      (ap (λ o. elim o as (λ _. Bool) [ none ↦ false | some _ ↦ true ]) t),
                  closed_Inv v b x e t,
                )
              ]
        refl

  -- A test of whether the current block has a terminator.
  pub terminated-bind :
      {B : Type 0} {Q : B → Type 0} (f : Bool × Lowering → Option B)
      → Open p captures ts cs g P s
      → Yields Q (f (false, s))
      → (Inv p captures ts cs g P s → Yields Q (f (true, s)))
      → Yields Q (Base.◌>>=◌ (terminated s) f)
  unfolding Base.◌>>=◌
  terminated-bind {Q} f v open_ closed = elim (terminated-Open v) [
    | inl e ↦ subst (λ o. Yields Q (Base.◌>>=◌ o f)) (sym e) open_
    | inr e ↦ subst (λ o. Yields Q (Base.◌>>=◌ o f)) (sym e.0) (closed e.1)
  ]

  -- What is done unless the current block has a terminator.
  pub unless-Open :
      {R : Unit {0} × Lowering → Type 0} (m : Lower (Unit {0}))
      → Open p captures ts cs g P s
      → Yields R (m s)
      → (terminated s ≡ some (true, s) → Inv p captures ts cs g P s → R (tt, s))
      → Yields R (unless_terminated m s)
  unfolding unless_terminated Base.◌>>=◌
  unless-Open {R} m v open_ closed = elim (terminated-Open v) [
    | inl e ↦
        subst (λ o. Yields R (Base.◌>>=◌ o λ r. (if r.0 then give tt else m) r.1)) (sym e) open_
    | inr e ↦
        subst (λ o. Yields R (Base.◌>>=◌ o λ r. (if r.0 then give tt else m) r.1)) (sym e.0)
          (yields (closed e.0 e.1))
  ]
