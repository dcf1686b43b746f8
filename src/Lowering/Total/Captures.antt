-- ===== src/Lowering/Total/Captures.antt =====
-- compiler/kyna_mir/src/lowering/expression_lowering.cpp and expression_invocation_lowering.cpp: locals, captures and
-- closures that fit are lowered to valid code.
use kyna.Base.{
  ℕ, ◌+◌, suc, ◌≡◌, refl, sym, ◌∙◌, ap, subst, ◌⊎◌, inl, inr, List, [], ◌∷◌, Option, none, some,
  length, All, Yields, yields, bind-Yields,
}
use kyna.Bytecode.Valid.{Entry}
use kyna.Lowering.{◌>>◌}
use kyna.Diagnostics.{SourceSpan}
use kyna.Mir.Program.{MirCaptureKind, MirCaptureSource, MirProgram}
use kyna.Mir.Valid.{SourceFits}
use kyna.Mir.Valid.Counts.{captures_iff}
use kyna.Hir.{HirProgram}
use kyna.Lowering.{give, Lowering, Lower, lookup, move}
use kyna.Lowering.Expressions.{
  lower_closure, capture_sources, store_capture, lower_assign_local, capture_source, lower_capture,
  lower_local,
}
use kyna.Lowering.Fits.{Scope, IsIn, ExprFits}
use kyna.Lowering.States.{lookup_below, Frame, Open}
use kyna.Lowering.States.Steps.{Inv-weaken}
use kyna.Lowering.States.Blocks.{temporary-Open, push-Open}
use kyna.Lowering.Total.{Signature, Ready, LowersExpressions}
use kyna.Lowering.Total.Expressions.{some-bind, need-bind, move-Open, target_of}

module _ (hir : HirProgram) (captures : List ℕ) (p : MirProgram) (sig : Signature hir p)
    (n budget : ℕ) (expression : ℕ → Lower ℕ) (statement : ℕ → Lower (Unit {0}))
    (he : LowersExpressions hir captures p expression n budget) (span : SourceSpan) {sc : Scope}
    {g : Frame} (ready : Ready hir captures budget sc g) where
  captured :
      {ts cs : List ℕ} {P : ℕ → Type 0} {s : Lowering} (local : ℕ)
      → IsIn local sc.known ⊎ IsIn local captures
      → Open p captures ts cs g P s
      → lookup local s.locals ≡ none
      → IsIn local captures
  captured local (inl k) v e =
      let (t, f) = v.locals.found local (ready.meets.known local k) in absurd (cc)
  captured local (inr c) v e = c

  pub lower_capture-Open :
      {ts cs : List ℕ} {P : ℕ → Type 0} {s : Lowering} (local : ℕ)
      → IsIn local captures
      → Open p captures ts cs g P s
      → Yields
          (λ r. Open p captures (r.0 ∷ ts) cs g P r.1)
          (lower_capture hir expression statement span local s)
  unfolding lower_capture
  lower_capture-Open local f v = bind-Yields (temporary-Open v) λ t w.
      let (c, e) = w.indexes.found local f in
      some-bind _ (
        need-bind _ e (
          bind-Yields
            (push-Open _ w (w.in_temporaries.0, lookup_below _ local c _ w.indexes.below e))
            λ u x. yields x))

  pub lower_local-Open :
      {ts cs : List ℕ} {P : ℕ → Type 0} {s : Lowering} (local : ℕ)
      → IsIn local sc.known ⊎ IsIn local captures
      → Open p captures ts cs g P s
      → Yields
          (λ r. Open p captures (r.0 ∷ ts) cs g P r.1)
          (lower_local hir expression statement span local s)
  unfolding lower_local
  lower_local-Open {ts} {cs} {P} {s} local f v = some-bind _ (
      elim (lookup local s.locals)
          as (λ o.
            lookup local s.locals ≡ o
            → Yields (λ r. Open p captures (r.0 ∷ ts) cs g P r.1)
                ((elim o as (λ _. Lower ℕ) [
                  | some t ↦ give t
                  | none ↦ lower_capture hir expression statement span local
                ])
                  s)) [
                    | some t ↦ λ e. yields (
                        Inv-weaken v
                          (lookup_below _ local t s.locals v.locals.below e, v.in_temporaries)
                          v.in_blocks (λ k m. m))
                    | none ↦ λ e. lower_capture-Open local (captured local f v e) v
                  ]
        refl)

  capture_source-Fits :
      {ts cs : List ℕ} {P : ℕ → Type 0} {s : Lowering} (local : ℕ)
      → IsIn local sc.known ⊎ IsIn local captures
      → Open p captures ts cs g P s
      → (source : MirCaptureSource) × (capture_source s local ≡ some source)
        × SourceFits p s.temporary_count (length captures) source
  unfolding capture_source
  capture_source-Fits {s} local f v =
      elim (lookup local s.locals)
          as (λ o.
            lookup local s.locals ≡ o
            → (source : MirCaptureSource) × (of o ≡ some source)
              × SourceFits p s.temporary_count (length captures) source) [
                | some t ↦ λ e. (
                  record { kind = MirCaptureKind.local; index = t },
                  refl,
                  lookup_below _ local t s.locals v.locals.below e,
                )
                | none ↦ λ e.
                    let (c, i) = v.indexes.found local (captured local f v e) in
                    (
                      record { kind = MirCaptureKind.capture; index = c },
                      ap other i,
                      lookup_below _ local c _ v.indexes.below i,
                    )
              ]
        refl
    where
      other : Option ℕ → Option MirCaptureSource
      other o = elim o [
        | some c ↦ some (record { kind = MirCaptureKind.capture; index = c })
        | none ↦ none
      ]

      of : Option ℕ → Option MirCaptureSource
      of o = elim o [
        | some t ↦ some (record { kind = MirCaptureKind.local; index = t })
        | none ↦ other (lookup local s.capture_indexes)
      ]

  pub capture_sources-Open :
      {ts cs : List ℕ} {P : ℕ → Type 0} {s : Lowering} (locals : List ℕ)
      → All (λ local. IsIn local sc.known ⊎ IsIn local captures) locals
      → Open p captures ts cs g P s
      → Yields
          (λ r.
            (r.1 ≡ s)
            × (All (SourceFits p s.temporary_count (length captures)) r.0
                × (length r.0 ≡ length locals)))
          (capture_sources locals s)
  unfolding capture_sources
  capture_sources-Open [] f v = yields (refl, (tt, refl))
  capture_sources-Open {s} (local ∷ locals) f v =
      let (source, e, fits) = capture_source-Fits local f.0 v in
      some-bind _ (
        need-bind _ e (
          bind-Yields (capture_sources-Open locals f.1 v)
            λ r q. yields (q.0, ((fits, q.1.0), ap suc q.1.1))))

  pub lower_closure-Open :
      {ts cs : List ℕ} {P : ℕ → Type 0} {s : Lowering} (function : ℕ)
      → (Entry hir.functions function
          λ f. All (λ local. IsIn local sc.known ⊎ IsIn local captures) f.captures)
      → Open p captures ts cs g P s
      → Yields
          (λ r. Open p captures (r.0 ∷ ts) cs g P r.1)
          (lower_closure hir expression statement span function s)
  unfolding lower_closure
  lower_closure-Open {ts} {cs} {P} function (f, found, each) v =
      bind-Yields (temporary-Open v) λ t v. need-bind _ found (
        bind-Yields (capture_sources-Open f.captures each v) λ r q.
          let w : Open p captures (t.0 ∷ ts) cs g P r.1
              × All (SourceFits p r.1.temporary_count (length captures)) r.0 =
            subst
              (λ z.
                Open p captures (t.0 ∷ ts) cs g P z
                × All (SourceFits p z.temporary_count (length captures)) r.0)
              (sym q.0) (v, q.1.0) in
          let target = target_of hir p sig function f found in
          bind-Yields
            (push-Open _ w.0 (
              w.0.in_temporaries.0,
              (
                (
                  target,
                  (captures_iff p (function + 1) _ target).0
                      (q.1.1 ∙ sym (sig.captures function f found)),
                ),
                w.1,
              ),
            ))
            λ u v. yields v)

  pub store_capture-Open :
      {ts cs : List ℕ} {P : ℕ → Type 0} {s : Lowering} (local source : ℕ)
      → IsIn local captures
      → Open p captures (source ∷ ts) cs g P s
      → Yields
          (λ r. Open p captures (r.0 ∷ ts) cs g P r.1)
          (store_capture hir expression statement span local source s)
  unfolding store_capture
  store_capture-Open local source f v =
      let (c, e) = v.indexes.found local f in
      some-bind _ (
        need-bind _ e (
          bind-Yields
            (push-Open _ v (
              v.in_temporaries.0,
              (lookup_below _ local c _ v.indexes.below e, v.in_temporaries.0),
            ))
            λ u x. yields x))

  pub lower_assign_local-Open :
      {ts cs : List ℕ} {P : ℕ → Type 0} {s : Lowering} (local value : ℕ)
      → ExprFits hir captures n sc value
      → IsIn local sc.known ⊎ IsIn local captures
      → Open p captures ts cs g P s
      → Yields
          (λ r. Open p captures (r.0 ∷ ts) cs g P r.1)
          (lower_assign_local hir expression statement span local value s)
  unfolding lower_assign_local
  lower_assign_local-Open {ts} {cs} {P} {s} local value h f v =
      bind-Yields (he.expression_lowers value h ready v) λ x v. some-bind _ (
        elim (lookup local x.1.locals)
            as (λ o.
              lookup local x.1.locals ≡ o
              → Yields (λ r. Open p captures (r.0 ∷ ts) cs g P r.1)
                  ((elim o as (λ _. Lower ℕ) [
                    | some t ↦ (do move t x.0 span; give t)
                    | none ↦ store_capture hir expression statement span local x.0
                  ])
                    x.1)) [
                      | some t ↦ λ e.
                          let b = lookup_below _ local t x.1.locals v.locals.below e in
                          bind-Yields
                            (move-Open p captures {ts = t ∷ x.0 ∷ ts} t x.0 span
                              (Inv-weaken v (b, v.in_temporaries) v.in_blocks λ k m. m) b
                              v.in_temporaries.0)
                            λ u v. yields (
                              Inv-weaken v (v.in_temporaries.0, v.in_temporaries.1.1) v.in_blocks
                                λ k m. m)
                      | none ↦ λ e. store_capture-Open local x.0 (captured local f v e) v
                    ]
          refl)
