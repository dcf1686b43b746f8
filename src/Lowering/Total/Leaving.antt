-- ===== src/Lowering/Total/Leaving.antt =====
-- compiler/kyna_mir/src/lowering/statement_lowering.cpp: the active cleanups, and the statements that leave the
-- code around them.
use kyna.Base.{
  Yields-map, if◌then◌else◌, ℕ, ◌+◌, ◌≤◌, ◌<◌, ◌≡◌, ◌≢◌, refl, sym, ◌∙◌, ap, subst, Bool, true,
  false, List, [], ◌∷◌, Option, none, some, String, str_eq, arith, length, All, Yields, yields,
  bind-Yields,
}
use kyna.Diagnostics.{SourceSpan}
use kyna.Mir.Program.{MirTerminatorNode, MirProgram}
use kyna.Mir.Valid.{ValidNode}
use kyna.Hir.{HirProgram}
use kyna.Lowering.{
  give, terminate, LoopContext, Lowering, Lower, last_loop, labelled, loop_target, last_break,
  break_target,
}
use kyna.Lowering.Statements.{
  lower_cleanups, lower_active_cleanups, leave, lower_break, lower_continue,
}
use kyna.Lowering.Fits.{Scope, enough}
use kyna.Lowering.States.{Frame, LoopFits, Inv, Open}
use kyna.Lowering.States.Steps.{Inv-weaken}
use kyna.Lowering.States.Frames.{set_cleanups-Open, set_cleanups-Inv}
use kyna.Lowering.States.Blocks.{terminated-bind, terminate-Open}
use kyna.Lowering.Total.{Meets, CleanupsFit, Ready, LowersStatements}
use kyna.Lowering.Total.Frames.{CleanupsFit-map, Done-Open}
use kyna.Lowering.Total.Expressions.{some-bind, need-bind}

module _ (hir : HirProgram) (captures : List ℕ) (p : MirProgram) (n budget : ℕ)
    (expression : ℕ → Lower ℕ) (statement : ℕ → Lower (Unit {0}))
    (hc : (h r : ℕ) → enough h + r ≤ budget → LowersStatements hir captures p statement h r) where
  -- The state behind the cleanups: whether the block is still open.
  data Cleaned (ts cs : List ℕ) (g : Frame) (P : ℕ → Type 0) : Bool × Lowering → Type 0 where
    ready : {s : Lowering} → Open p captures ts cs g P s → Cleaned ts cs g P (true, s)
    left : {s : Lowering} → Inv p captures ts cs g P s → Cleaned ts cs g P (false, s)

  lower_cleanups-Cleaned :
      {ts cs : List ℕ} {g : Frame} {P : ℕ → Type 0} {s : Lowering} (saved cleanups : List ℕ) (b : ℕ)
      → b ≤ budget
      → CleanupsFit hir captures b g cleanups
      → Open p captures ts cs g P s
      → Yields
          (Cleaned ts cs (record g { cleanups = saved }) P)
          (lower_cleanups expression statement saved cleanups s)
  unfolding lower_cleanups
  lower_cleanups-Cleaned saved [] b h f v =
      bind-Yields (set_cleanups-Open saved v) λ u v. yields (Cleaned.ready v)
  lower_cleanups-Cleaned {g = g} saved (c ∷ cleanups) b h (m, r, sc, below, fits, meets, others) v =
      bind-Yields (set_cleanups-Open cleanups v) λ u v.
        let moved =
          CleanupsFit-map hir captures r g (record g { cleanups = cleanups }) cleanups
            (λ sc m. record { known = m.known; looped = m.looped; breakable = m.breakable })
            others in
        let there : Ready hir captures r sc (record g { cleanups = cleanups }) = record {
          meets = record {
            known = meets.known;
            looped = meets.looped;
            breakable = meets.breakable;
          };
          cleanups = moved;
        } in
        bind-Yields ((hc m r (omega arith)).statement_lowers c fits there v) λ u d.
          terminated-bind _ (Done-Open d)
            (lower_cleanups-Cleaned saved cleanups r (omega arith) moved (Done-Open d))
            λ w. bind-Yields (set_cleanups-Inv saved w) λ u w. yields (Cleaned.left w)

  leave-Cleaned :
      {ts cs : List ℕ} {g : Frame} {P : ℕ → Type 0} {x : Bool × Lowering} (node : MirTerminatorNode)
      (span : SourceSpan)
      → ((t b : ℕ)
          → All (λ x. x < t) ts
          → All (λ x. x < b) cs
          → ValidNode p t (length captures) b node)
      → Cleaned ts cs g P x
      → Yields
          (λ r. Inv p captures ts cs g P r.1)
          ((if x.0 then terminate node span else give tt) x.1)
  leave-Cleaned node span valid (Cleaned.ready v) =
      terminate-Open node span v (valid _ _ v.in_temporaries v.in_blocks)
  leave-Cleaned node span valid (Cleaned.left v) = yields v

  pub leave-Inv :
      {ts cs : List ℕ} {g : Frame} {P : ℕ → Type 0} {sc : Scope} {s : Lowering}
      (node : MirTerminatorNode) (span : SourceSpan)
      → ((t b : ℕ)
          → All (λ x. x < t) ts
          → All (λ x. x < b) cs
          → ValidNode p t (length captures) b node)
      → Ready hir captures budget sc g
      → Open p captures ts cs g P s
      → Yields (λ r. Inv p captures ts cs g P r.1) (leave expression statement node span s)
  unfolding leave lower_active_cleanups
  leave-Inv {ts} {cs} {g} {P} {s = s} node span valid r v =
      bind-Yields
        (some-bind _ (
          lower_cleanups-Cleaned s.cleanups s.cleanups budget (omega arith)
            (subst (CleanupsFit hir captures budget g) (sym v.cleanups) r.cleanups) v))
        λ x c.
          leave-Cleaned node span valid
            (subst (λ l. Cleaned ts cs (record g { cleanups = l }) P x) v.cleanups c)

  -- The targets of a loop and of a `switch` around the code.
  labelled_fits :
      (label : String) (loops : List LoopContext) (n : ℕ) (l : LoopContext)
      → All (LoopFits p captures n) loops
      → labelled label loops ≡ some l
      → LoopFits p captures n l
  unfolding labelled
  labelled_fits label [] n l h e = absurd (cc)
  labelled_fits label (x ∷ loops) n l h e =
      elim (str_eq x.label label)
          as (λ b.
            (if b then some x else labelled label loops) ≡ some l → LoopFits p captures n l) [
              | true ↦ λ i. let same : x ≡ l = cc in subst (LoopFits p captures n) same h.0
              | false ↦ λ i. labelled_fits label loops n l h.1 i
            ]
        e

  last_fits :
      (loops : List LoopContext) (n : ℕ)
      → All (LoopFits p captures n) loops
      → loops ≢ []
      → (l : LoopContext) × (last_loop loops ≡ some l) × LoopFits p captures n l
  unfolding last_loop
  last_fits [] n h some_ = absurd (some_ refl)
  last_fits (l ∷ loops) n h some_ = (l, refl, h.0)

  loop_target_fits :
      (label : String) (loops : List LoopContext) (n : ℕ)
      → All (LoopFits p captures n) loops
      → loops ≢ []
      → (l : LoopContext) × (loop_target label loops ≡ some l) × LoopFits p captures n l
  unfolding loop_target
  loop_target_fits label loops n h some_ =
      elim (str_eq label "")
        as (λ b.
          (l : LoopContext) × ((if b
              then last_loop loops
              else elim (labelled label loops) [ some l ↦ some l | none ↦ last_loop loops ])
            ≡ some l)
          × LoopFits p captures n l) [
            | true ↦ last_fits loops n h some_
            | false ↦
                elim (labelled label loops)
                    as (λ o.
                      labelled label loops ≡ o
                      → (l : LoopContext) × ((elim o as (λ _. Option LoopContext) [
                        | some l ↦ some l
                        | none ↦ last_loop loops
                      ])
                          ≡ some l)
                        × LoopFits p captures n l) [
                          | some l ↦ λ e. (l, refl, labelled_fits label loops n l h e)
                          | none ↦ λ e. last_fits loops n h some_
                        ]
                  refl
          ]

  break_fits :
      (breaks : List ℕ) (n : ℕ)
      → All (λ b. b < n) breaks
      → breaks ≢ []
      → (b : ℕ) × (last_break breaks ≡ some b) × (b < n)
  unfolding last_break
  break_fits [] n h some_ = absurd (some_ refl)
  break_fits (b ∷ breaks) n h some_ = (b, refl, h.0)

  break_target_fits :
      {ts cs : List ℕ} {g : Frame} {P : ℕ → Type 0} {sc : Scope} {s : Lowering} (label : String)
      → (str_eq label "" ≡ true → sc.breakable ≡ true)
      → (str_eq label "" ≡ false → sc.looped ≡ true)
      → Meets sc g
      → Open p captures ts cs g P s
      → (b : ℕ) × (break_target label s ≡ some b) × (b < length s.blocks)
  unfolding break_target
  break_target_fits {s = s} label f h m v =
      elim (str_eq label "")
          as (λ b.
            str_eq label "" ≡ b
            → (t : ℕ) × ((if b then last_break s.breaks else elim (loop_target label s.loops) [
              | some l ↦ some l.break_target
              | none ↦ none
            ])
                ≡ some t)
              × (t < length s.blocks)) [
                | true ↦ λ e.
                    let (b, found, fits) = break_fits _ _ v.breaks_fit (m.breakable (f e)) in
                    (b, ap last_break v.breaks ∙ found, fits)
                | false ↦ λ e.
                    let (l, found, fits) =
                      loop_target_fits label _ _ v.loops_fit (m.looped (h e)) in
                    (
                      l.break_target,
                      ap
                          (λ o. elim o as (λ _. Option ℕ) [
                            | some l ↦ some l.break_target
                            | none ↦ none
                          ])
                          (ap (loop_target label) v.loops ∙ found),
                      fits.0,
                    )
              ]
        refl

  -- A target is one of the blocks of the state.
  with_target :
      {ts cs : List ℕ} {g : Frame} {P : ℕ → Type 0} {s : Lowering} (b : ℕ)
      → b < length s.blocks
      → Open p captures ts cs g P s
      → Open p captures ts (b ∷ cs) g P s
  with_target b h v = Inv-weaken v v.in_temporaries (h, v.in_blocks) λ k m. m

  pub lower_break-Inv :
      {ts cs : List ℕ} {g : Frame} {P : ℕ → Type 0} {sc : Scope} {s : Lowering} (label : String)
      (span : SourceSpan)
      → (str_eq label "" ≡ true → sc.breakable ≡ true)
      → (str_eq label "" ≡ false → sc.looped ≡ true)
      → Ready hir captures budget sc g
      → Open p captures ts cs g P s
      → Yields (λ r. Inv p captures ts cs g P r.1) (lower_break expression statement span label s)
  unfolding lower_break
  lower_break-Inv label span f h r v =
      let (b, found, fits) = break_target_fits label f h r.meets v in
      some-bind _ (
        need-bind _ found (
          Yields-map (λ r w. Inv-weaken w w.in_temporaries w.in_blocks.1 λ k m. m)
            (leave-Inv (MirTerminatorNode.goto b) span (λ t b h k. k.0) r (with_target b fits v))))

  pub lower_continue-Inv :
      {ts cs : List ℕ} {g : Frame} {P : ℕ → Type 0} {sc : Scope} {s : Lowering} (label : String)
      (span : SourceSpan)
      → sc.looped ≡ true
      → Ready hir captures budget sc g
      → Open p captures ts cs g P s
      → Yields
          (λ r. Inv p captures ts cs g P r.1)
          (lower_continue expression statement span label s)
  unfolding lower_continue
  lower_continue-Inv label span f r v =
      let (l, found, fits) = loop_target_fits label _ _ v.loops_fit (r.meets.looped f) in
      some-bind _ (
        need-bind _ (ap (loop_target label) v.loops ∙ found) (
          Yields-map (λ r w. Inv-weaken w w.in_temporaries w.in_blocks.1 λ k m. m)
            (leave-Inv (MirTerminatorNode.goto l.continue_target) span (λ t b h k. k.0) r
              (with_target l.continue_target fits.1 v))))
