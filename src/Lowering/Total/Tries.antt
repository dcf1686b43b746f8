-- ===== src/Lowering/Total/Tries.antt =====
-- compiler/kyna_mir/src/lowering/statement_lowering.cpp: a `try` that fits is lowered to valid code.
use kyna.Base.{
  Yields-map, ℕ, zero, suc, ◌+◌, ◌-◌, ◌≤◌, ◌<◌, ◌≡◌, ◌≢◌, refl, ap, List, [], ◌∷◌, ◌++◌, Option,
  none, some, arith, length, All, All-append, Yields, yields, bind-Yields,
}
use kyna.Diagnostics.{SourceSpan}
use kyna.Bytecode.Valid.{EachOf}
use kyna.Mir.Program.{MirTerminatorNode, MirProgram}
use kyna.Mir.Valid.{ValidNode}
use kyna.Hir.{HirProgram, HirTryStatement}
use kyna.Lowering.{Lowering, Lower, numbers, blocks_from}
use kyna.Lowering.Statements.{finish, rethrow, lower_catch, lower_handler, lower_try}
use kyna.Lowering.Fits.{Scope, ExprFits, StmtFits, CatchFits, bound_by, enough}
use kyna.Lowering.States.{Frame, Inv, Open}
use kyna.Lowering.States.Steps.{Inv-weaken}
use kyna.Lowering.States.Frames.{
  with_cleanup, enter-Open, push_cleanup-Open, pop_cleanup-Open, bind_local-Open, add_region-Inv,
}
use kyna.Lowering.States.Blocks.{
  Inv-forget, temporary-Inv, add_block-Inv, add_block-Open, terminate-Open, unless-Open,
}
use kyna.Lowering.Total.{Meets, Ready, LowersExpressions, LowersStatements}
use kyna.Lowering.Total.Frames.{
  Among-append, CleanupsFit-map, Among, Ready-known, Ready-more, Done-Open,
}
use kyna.Lowering.Total.Expressions.{All-split, need-bind}
use kyna.Lowering.Total.Statements.{lower_optional-Open}

length-numbers : (first n : ℕ) → length (numbers first n) ≡ n
unfolding numbers
length-numbers first zero = refl
length-numbers first (suc n) = ap suc (length-numbers (first + 1) n)

numbers_below : (first n m : ℕ) → first + n ≤ m → All (λ b. b < m) (numbers first n)
unfolding numbers
numbers_below first zero m h = tt
numbers_below first (suc n) m h = (omega arith, numbers_below (first + 1) n m (omega arith))

module _ {p : MirProgram} {captures ts cs : List ℕ} {g : Frame} {P : ℕ → Type 0}
    {s : Lowering} where
  blocks_from-Open :
      (first : ℕ)
      → Among first cs
      → Open p captures ts cs g P s
      → Yields
          (λ r. Open p captures ts (r.0 ++ cs) g P r.1 × (length r.0 ≢ 0))
          (blocks_from first s)
  unfolding blocks_from
  blocks_from-Open first a v =
      let below = a _ v.in_blocks in
      yields (
        Inv-weaken v v.in_temporaries
            (All-append _ (numbers first (length s.blocks - first)) cs
              (numbers_below first _ _ (omega arith)) v.in_blocks)
            (λ k m. m),
        λ e. omega (arith, e, length-numbers first (length s.blocks - first), below),
      )

module _ (hir : HirProgram) (captures : List ℕ) (p : MirProgram) (n budget : ℕ)
    (expression : ℕ → Lower ℕ) (statement : ℕ → Lower (Unit {0}))
    (he : LowersExpressions hir captures p expression n budget)
    (hs : LowersStatements hir captures p statement n budget)
    (hf : LowersStatements hir captures p statement n (enough n + budget)) (span : SourceSpan)
    (sc : Scope) (node : HirTryStatement)
    (fits : EachOf node.finally_branch (StmtFits hir captures n sc)) where
  -- A statement under the cleanup of the `try`.
  covered-Open :
      {ts cs : List ℕ} {g : Frame} {P : ℕ → Type 0} {inner : Scope} {s : Lowering} (o : Option ℕ)
      (st : ℕ)
      → EachOf o (StmtFits hir captures n sc)
      → Meets sc g
      → StmtFits hir captures n inner st
      → Ready hir captures budget inner g
      → Open p captures ts cs (with_cleanup o g) P s
      → Yields (λ r. Open p captures ts cs (with_cleanup o g) P r.1) (statement st s)
  covered-Open none st e m f r v = Yields-map (λ r d. Done-Open d) (hs.statement_lowers st f r v)
  covered-Open {g = g} {inner = inner} (some c) st e m f r v =
      Yields-map (λ r d. Done-Open d)
        (hf.statement_lowers st f
          (record {
            meets = record {
              known = r.meets.known;
              looped = r.meets.looped;
              breakable = r.meets.breakable;
            };
            cleanups = (
              n,
              budget,
              sc,
              omega arith,
              e,
              record { known = m.known; looped = m.looped; breakable = m.breakable },
              CleanupsFit-map hir captures budget g (with_cleanup (some c) g) g.cleanups
                  (λ sc m. record { known = m.known; looped = m.looped; breakable = m.breakable })
                  r.cleanups,
            );
          })
          v)

  finish-Inv :
      {ts cs : List ℕ} {g : Frame} {P : ℕ → Type 0} {s : Lowering} (jump : MirTerminatorNode)
      → ((t b : ℕ)
          → All (λ x. x < t) ts
          → All (λ x. x < b) cs
          → ValidNode p t (length captures) b jump)
      → Ready hir captures budget sc g
      → Open p captures ts cs g P s
      → Yields
          (λ r. Inv p captures ts cs g P r.1)
          (finish expression statement span node.finally_branch jump s)
  unfolding finish
  finish-Inv jump valid r v =
      unless-Open _ v
        (bind-Yields
          (lower_optional-Open hir captures p n budget expression statement he hs
            node.finally_branch fits r v)
          λ u v.
            unless-Open _ v (terminate-Open jump span v (valid _ _ v.in_temporaries v.in_blocks))
              λ e w. w)
        λ e w. w

  rethrow-Inv :
      {ts cs : List ℕ} {g : Frame} {P : ℕ → Type 0} {s : Lowering} (protected : List ℕ)
      (o : Option ℕ)
      → EachOf o (StmtFits hir captures n sc)
      → ((b : ℕ) → All (λ x. x < b) cs → All (λ x. x < b) protected)
      → length protected ≢ 0
      → Ready hir captures budget sc g
      → Inv p captures ts cs g P s
      → Yields (λ r. Inv p captures ts cs g P r.1) (rethrow expression statement span protected o s)
  unfolding rethrow
  rethrow-Inv protected none f a l r v = yields v
  rethrow-Inv protected (some st) f a l r v = bind-Yields (temporary-Inv v) λ t v.
      bind-Yields (add_block-Inv v) λ h v.
        bind-Yields
          (add_region-Inv protected h.0 t.0 v l (a _ v.in_blocks.1) v.in_blocks.0
            v.in_temporaries.0)
          λ u v. bind-Yields (enter-Open h.0 v v.in_blocks.0 λ k m. m) λ u v.
            bind-Yields (hs.statement_lowers st f r v) λ u d.
              let v = Done-Open d in
              Yields-map (λ r w. Inv-weaken w w.in_temporaries.1 w.in_blocks.1 λ k m. m)
                (unless-Open _ v
                  (terminate-Open (MirTerminatorNode.throw t.0) span v v.in_temporaries.0) λ e w. w)

  lower_catch-Inv :
      {ts cs : List ℕ} {g : Frame} {P : ℕ → Type 0} {s : Lowering}
      (catch_branch handler error continuation : ℕ)
      → CatchFits hir captures
          (ExprFits hir captures n)
          (StmtFits hir captures n)
          (bound_by hir captures n)
          sc
          node.catch_local
          catch_branch
      → Among handler cs
      → Among error ts
      → Among continuation cs
      → Ready hir captures budget sc g
      → Open p captures ts cs g P s
      → Yields
          (λ r. Inv p captures ts cs g P r.1)
          (lower_catch expression statement span node catch_branch handler error continuation s)
  unfolding lower_catch
  lower_catch-Inv {ts} {cs} {g} {P} catch_branch handler error continuation (local, found, f) a b c
        r v =
      let more = Ready-more hir captures (local ∷ []) r in
      need-bind _ found (
        bind-Yields (bind_local-Open local error v (b _ v.in_temporaries)) λ u v.
          bind-Yields (push_cleanup-Open node.finally_branch v) λ u v.
            bind-Yields
              (covered-Open node.finally_branch catch_branch fits more.meets f
                (Ready-known hir captures (local ∷ []) r) v)
              λ u v. bind-Yields (pop_cleanup-Open node.finally_branch v) λ u v.
                bind-Yields (blocks_from-Open handler a v) λ ps q.
                  bind-Yields
                    (finish-Inv (MirTerminatorNode.goto continuation)
                      (λ t b h k. Among-append continuation ps.0 cs c b k) more q.0)
                    λ u v.
                      Yields-map
                        (λ r w. Inv-forget (local ∷ []) (
                          Inv-weaken w w.in_temporaries (All-split _ ps.0 cs w.in_blocks).1
                            λ k m. m))
                        (rethrow-Inv ps.0 node.finally_branch fits
                          (λ b h. (All-split _ ps.0 cs h).0) q.1 more v))

  lower_handler-Inv :
      {ts cs : List ℕ} {g : Frame} {P : ℕ → Type 0} {s : Lowering} (o : Option ℕ)
      (handler error continuation : ℕ)
      → EachOf o (
          CatchFits hir captures
            (ExprFits hir captures n)
            (StmtFits hir captures n)
            (bound_by hir captures n)
            sc
            node.catch_local)
      → Among handler cs
      → Among error ts
      → Among continuation cs
      → Ready hir captures budget sc g
      → Open p captures ts cs g P s
      → Yields
          (λ r. Inv p captures ts cs g P r.1)
          (lower_handler expression statement span node o handler error continuation s)
  unfolding lower_handler
  lower_handler-Inv none handler error continuation f a b c r v =
      bind-Yields
        (lower_optional-Open hir captures p n budget expression statement he hs node.finally_branch
          fits r v)
        λ u v.
          unless-Open _ v
            (terminate-Open (MirTerminatorNode.throw error) span v (b _ v.in_temporaries)) λ e w. w
  lower_handler-Inv (some catch_branch) handler error continuation f a b c r v =
      lower_catch-Inv catch_branch handler error continuation f a b c r v

  pub lower_try-Open :
      {ts cs : List ℕ} {g : Frame} {P : ℕ → Type 0} {s : Lowering}
      → StmtFits hir captures n sc node.try_branch
      → EachOf node.catch_branch (
          CatchFits hir captures
            (ExprFits hir captures n)
            (StmtFits hir captures n)
            (bound_by hir captures n)
            sc
            node.catch_local)
      → Ready hir captures budget sc g
      → Open p captures ts cs g P s
      → Yields (λ r. Open p captures ts cs g P r.1) (lower_try expression statement span node s)
  unfolding lower_try
  lower_try-Open {ts} {cs} f k r v = bind-Yields (add_block-Open v) λ c v.
      bind-Yields (add_block-Open v) λ b v.
        bind-Yields (terminate-Open _ span v v.in_blocks.0) λ u v.
          bind-Yields (enter-Open b.0 v v.in_blocks.0 λ k m. m) λ u v.
            bind-Yields (push_cleanup-Open node.finally_branch v) λ u v.
              bind-Yields (covered-Open node.finally_branch node.try_branch fits r.meets f r v)
                λ u v. bind-Yields (pop_cleanup-Open node.finally_branch v) λ u v.
                  bind-Yields (blocks_from-Open b.0 (λ t h. h.0) v) λ ps q.
                    let after = Among-append c.0 ps.0 (b.0 ∷ c.0 ∷ cs) λ t h. h.1.0 in
                    bind-Yields
                      (finish-Inv (MirTerminatorNode.goto c.0) (λ t b h k. after b k) r q.0)
                      λ u v. bind-Yields (temporary-Inv v) λ e v.
                        bind-Yields (add_block-Inv v) λ h v.
                          bind-Yields
                            (add_region-Inv ps.0 h.0 e.0 v q.1 (All-split _ ps.0 _ v.in_blocks.1).0
                              v.in_blocks.0 v.in_temporaries.0)
                            λ u v. bind-Yields (enter-Open h.0 v v.in_blocks.0 λ k m. m) λ u v.
                              bind-Yields
                                (lower_handler-Inv node.catch_branch h.0 e.0 c.0 k (λ t h. h.0)
                                  (λ t h. h.0) (λ t h. after t h.1) r v)
                                λ u v.
                                  Yields-map
                                    (λ r v.
                                      Inv-weaken v v.in_temporaries.1
                                        (All-split _ ps.0 (b.0 ∷ c.0 ∷ cs) v.in_blocks.1).1.1.1
                                        λ k m. m)
                                    (enter-Open c.0 v (after _ v.in_blocks.1) λ k m. m)
