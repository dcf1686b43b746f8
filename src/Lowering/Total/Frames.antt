-- ===== src/Lowering/Total/Frames.antt =====
-- compiler/kyna_mir/src/lowering: what a scope promises, where locals are bound, and behind a statement.
use kyna.Lowering.{LoopContext}
use kyna.Lowering.States.Frames.{with_loop}
use kyna.Lowering.Fits.{in_loop, in_switch}
use kyna.Base.{
  Option, none, if◌then◌else◌, ℕ, ◌<◌, ◌≡◌, refl, sym, ap, subst, ◌⊎◌, inl, inr, true, false, List,
  [], ◌∷◌, ◌++◌, some, All, Yields, yields,
}
use kyna.Base
use kyna.Mir.Program.{MirProgram}
use kyna.Hir.{HirProgram}
use kyna.Lowering.{Lowering, Lower, give, terminated, unless_terminated}
use kyna.Lowering.Fits.{Scope, knowing, IsIn}
use kyna.Lowering.States.{Frame, with_known, Open}
use kyna.Lowering.States.Steps.{Inv-weaken}
use kyna.Lowering.States.Blocks.{IsIn-append, Inv-forget}
use kyna.Lowering.Total.{Meets, CleanupsFit, Ready, Done}

-- Whatever is above all of the list is above the number.
abbrev pub Among : ℕ → List ℕ → Type 0
Among k xs = (t : ℕ) → All (λ x. x < t) xs → k < t

pub Among-append : (k : ℕ) (xs ys : List ℕ) → Among k ys → Among k (xs ++ ys)
Among-append k [] ys f t h = f t h
Among-append k (x ∷ xs) ys f t h = Among-append k xs ys f t h.1

IsIn-known :
    (k : ℕ) (ls xs ys : List ℕ) → (IsIn k xs → IsIn k ys) → IsIn k (ls ++ xs) → IsIn k (ls ++ ys)
IsIn-known k [] xs ys f i = f i
IsIn-known k (l ∷ ls) xs ys f (inl e) = inl e
IsIn-known k (l ∷ ls) xs ys f (inr i) = inr (IsIn-known k ls xs ys f i)

module _ (hir : HirProgram) (captures : List ℕ) where
  pub CleanupsFit-map :
      (budget : ℕ) (g f : Frame) (cs : List ℕ)
      → ((sc : Scope) → Meets sc g → Meets sc f)
      → CleanupsFit hir captures budget g cs
      → CleanupsFit hir captures budget f cs
  CleanupsFit-map budget g f [] m h = tt
  CleanupsFit-map budget g f (c ∷ cs) m (n, r, sc, b, fits, meets, rest) =
      (n, r, sc, b, fits, m sc meets, CleanupsFit-map r g f cs m rest)

  pub Ready-known :
      {budget : ℕ} {sc : Scope} {g : Frame} (ls : List ℕ)
      → Ready hir captures budget sc g
      → Ready hir captures budget (knowing ls sc) (with_known ls g)
  Ready-known {budget} {sc} {g} ls r = record {
    meets = record {
      known = λ k. IsIn-known k ls sc.known g.known (r.meets.known k);
      looped = r.meets.looped;
      breakable = r.meets.breakable;
    };
    cleanups =
        CleanupsFit-map budget g (with_known ls g) g.cleanups
          (λ sc m. record {
            known = λ k i. IsIn-append k ls g.known (m.known k i);
            looped = m.looped;
            breakable = m.breakable;
          })
          r.cleanups;
  }

  -- What is there still is there where more is.
  pub Ready-map :
      {budget : ℕ} {sc : Scope} {g f : Frame}
      → ((sc : Scope) → Meets sc g → Meets sc f)
      → f.cleanups ≡ g.cleanups
      → Ready hir captures budget sc g
      → Ready hir captures budget sc f
  Ready-map {budget} {sc} {g} {f} m e r = record {
    meets = m sc r.meets;
    cleanups =
        subst (CleanupsFit hir captures budget f) (sym e)
          (CleanupsFit-map budget g f g.cleanups m r.cleanups);
  }

  pub Ready-more :
      {budget : ℕ} {sc : Scope} {g : Frame} (ls : List ℕ)
      → Ready hir captures budget sc g
      → Ready hir captures budget sc (with_known ls g)
  Ready-more {g = g} ls r =
      Ready-map
        (λ sc m. record {
          known = λ k i. IsIn-append k ls g.known (m.known k i);
          looped = m.looped;
          breakable = m.breakable;
        })
        refl r

  pub Ready-in_loop :
      {budget : ℕ} {sc : Scope} {g : Frame} (l : LoopContext)
      → Ready hir captures budget sc g
      → Ready hir captures budget (in_loop sc) (with_loop l g)
  Ready-in_loop {g = g} l r =
      let w =
        Ready-map {f = with_loop l g}
          (λ sc m. record {
            known = m.known;
            looped = λ e z. absurd (cc);
            breakable = λ e z. absurd (cc);
          })
          refl r in
      record {
        meets = record {
          known = r.meets.known;
          looped = λ e z. absurd (cc);
          breakable = λ e z. absurd (cc);
        };
        cleanups = w.cleanups;
      }

  pub Ready-in_switch :
      {budget : ℕ} {sc : Scope} {g : Frame} (b : ℕ)
      → Ready hir captures budget sc g
      → Ready hir captures budget (in_switch sc) (record g { breaks = b ∷ g.breaks })
  Ready-in_switch {g = g} b r =
      let w =
        Ready-map {f = record g { breaks = b ∷ g.breaks }}
          (λ sc m. record { known = m.known; looped = m.looped; breakable = λ e z. absurd (cc) })
          refl r in
      record {
        meets = record {
          known = r.meets.known;
          looped = r.meets.looped;
          breakable = λ e z. absurd (cc);
        };
        cleanups = w.cleanups;
      }

module _ {hir : HirProgram} {captures : List ℕ} {p : MirProgram} {ts cs : List ℕ} {g : Frame}
    {P : ℕ → Type 0} {binds : List ℕ} {s : Lowering} where
  pub Done-Open : Done hir captures p ts cs g P binds s → Open p captures ts cs g P s
  Done-Open (Done.ended e v) = Inv-weaken v v.in_temporaries v.in_blocks λ k m. inr m
  Done-Open (Done.bound v) = Inv-forget binds v

-- Nothing is done behind a terminator.
pub unless-ended :
    {R : Unit {0} × Lowering → Type 0} {s : Lowering} (m : Lower (Unit {0}))
    → terminated s ≡ some (true, s)
    → R (tt, s)
    → Yields R (unless_terminated m s)
unfolding unless_terminated Base.◌>>=◌
unless-ended {R} {s} m e r =
    subst (λ o. Yields R (Base.◌>>=◌ o λ r. (if r.0 then give tt else m) r.1)) (sym e) (yields r)

pub elim-Yields :
    {A B : Type 0} {R : B × Lowering → Type 0} {s : Lowering} (o : Option A) (a : Lower B)
    (b : A → Lower B)
    → (o ≡ none → Yields R (a s))
    → ((x : A) → o ≡ some x → Yields R (b x s))
    → Yields R ((elim o as (λ _. Lower B) [ none ↦ a | some x ↦ b x ]) s)
elim-Yields none a b f g = f refl
elim-Yields (some x) a b f g = g x refl
