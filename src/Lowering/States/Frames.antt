-- ===== src/Lowering/States/Frames.antt =====
-- compiler/kyna_mir/src/lowering/hir_lowering.cpp: the helpers of `HirLowerer` keep its state well formed:
-- what is around the code, and the exception regions.
use kyna.Base.{
  ◌==◌, if◌then◌else◌, true, false, subst, arith, subst, ℕ, ◌<◌, ◌≡◌, ◌≢◌, refl, ap, ◌⊎◌, inl, inr,
  List, [], ◌∷◌, Option, none, some, String, length, All, All-append, Yields, yields,
}
use kyna.Mir.Program.{MirProgram}
use kyna.Lowering.{
  LoopContext, Lowering, rest, push_loop, pop_loop, push_break, pop_break, set_cleanups,
  push_cleanup, pop_cleanup, add_region, bind_local, enter, lookup,
}
use kyna.Lowering.Fits.{IsIn}
use kyna.Lowering.States.{Frame, with_known, LoopFits, Inv, Open}

abbrev pub with_loop : LoopContext → Frame → Frame
with_loop l g = record g { loops = l ∷ g.loops; breaks = l.break_target ∷ g.breaks }

abbrev pub with_cleanup : Option ℕ → Frame → Frame
with_cleanup none g = g
with_cleanup (some c) g = record g { cleanups = c ∷ g.cleanups }

rest_fits {ℓ} : {A : Type ℓ} (P : A → Type 0) (xs : List A) → All P xs → All P (rest xs)
rest_fits P [] h = tt
rest_fits P (x ∷ xs) h = h.1

pub found_cons :
    (local t : ℕ) (keys : List ℕ) (entries : List (ℕ × ℕ))
    → ((k : ℕ) → IsIn k keys → (v : ℕ) × (lookup k entries ≡ some v))
    → (k : ℕ) → (local ≡ k) ⊎ IsIn k keys
    → (v : ℕ) × (lookup k ((local, t) ∷ entries) ≡ some v)
unfolding lookup
found_cons local t keys entries found k i =
    elim (local == k)
        as (λ b. (local == k) ≡ b → (v : ℕ) × ((if b then some t else lookup k entries) ≡ some v)) [
          | true ↦ λ e. (t, refl)
          | false ↦ λ e. elim i [ inl same ↦ absurd (ground arith) | inr m ↦ found k m ]
        ]
      refl

module _ {p : MirProgram} {captures ts cs : List ℕ} {g : Frame} {P : ℕ → Type 0}
    {s : Lowering} where
  -- Other things around the code.
  frame_Inv :
      {loops_ : List LoopContext} {breaks_ cleanups_ : List ℕ} (f : Frame)
      → Inv p captures ts cs g P s
      → f.known ≡ g.known
      → loops_ ≡ f.loops
      → breaks_ ≡ f.breaks
      → cleanups_ ≡ f.cleanups
      → All (LoopFits p captures (length s.blocks)) f.loops
      → All (λ b. b < length s.blocks) f.breaks
      → Inv p captures ts cs f P
          (record s { loops = loops_; breaks = breaks_; cleanups = cleanups_ })
  frame_Inv f v known l b c l_fit b_fit = record {
    here = v.here;
    blocks = v.blocks;
    pending = v.pending;
    regions = v.regions;
    locals = record {
      below = v.locals.below;
      found = λ k i. v.locals.found k (subst (IsIn k) known i);
    };
    indexes = v.indexes;
    in_temporaries = v.in_temporaries;
    in_blocks = v.in_blocks;
    loops = l;
    loops_fit = l_fit;
    breaks = b;
    breaks_fit = b_fit;
    cleanups = c;
  }

module _ {p : MirProgram} {captures ts cs : List ℕ} {g : Frame} {P : ℕ → Type 0}
    {s : Lowering} where
  pub push_loop-Open :
      (label : String) (b c : ℕ)
      → Open p captures ts cs g P s
      → b < length s.blocks
      → c < length s.blocks
      → Yields
          (λ r.
            Open p captures ts cs
              (with_loop (record { label = label; break_target = b; continue_target = c }) g)
              P
              r.1)
          (push_loop label b c s)
  unfolding push_loop
  push_loop-Open label b c v x y = yields (
      frame_Inv _ v refl
        (ap (◌∷◌ (record { label = label; break_target = b; continue_target = c })) v.loops)
        (ap (◌∷◌ b) v.breaks) v.cleanups ((x, y), v.loops_fit) (x, v.breaks_fit))

  pub pop_loop-Open :
      Open p captures ts cs g P s
      → Yields
          (λ r.
            Open p captures ts cs (record g { loops = rest g.loops; breaks = rest g.breaks }) P r.1)
          (pop_loop s)
  unfolding pop_loop
  pop_loop-Open v = yields (
      frame_Inv _ v refl (ap rest v.loops) (ap rest v.breaks) v.cleanups
        (rest_fits _ g.loops v.loops_fit) (rest_fits _ g.breaks v.breaks_fit))

  pub push_break-Inv :
      (b : ℕ)
      → Inv p captures ts cs g P s
      → b < length s.blocks
      → Yields
          (λ r. Inv p captures ts cs (record g { breaks = b ∷ g.breaks }) P r.1)
          (push_break b s)
  unfolding push_break
  push_break-Inv b v x =
      yields
        (frame_Inv _ v refl v.loops (ap (◌∷◌ b) v.breaks) v.cleanups v.loops_fit (x, v.breaks_fit))

  pub pop_break-Inv :
      Inv p captures ts cs g P s
      → Yields (λ r. Inv p captures ts cs (record g { breaks = rest g.breaks }) P r.1) (pop_break s)
  unfolding pop_break
  pop_break-Inv v = yields (
      frame_Inv _ v refl v.loops (ap rest v.breaks) v.cleanups v.loops_fit
        (rest_fits _ g.breaks v.breaks_fit))

  pub set_cleanups-Open :
      (l : List ℕ)
      → Open p captures ts cs g P s
      → Yields (λ r. Open p captures ts cs (record g { cleanups = l }) P r.1) (set_cleanups l s)
  unfolding set_cleanups
  set_cleanups-Open l v = yields (frame_Inv _ v refl v.loops v.breaks refl v.loops_fit v.breaks_fit)

  pub set_cleanups-Inv :
      (l : List ℕ)
      → Inv p captures ts cs g P s
      → Yields (λ r. Inv p captures ts cs (record g { cleanups = l }) P r.1) (set_cleanups l s)
  unfolding set_cleanups
  set_cleanups-Inv l v = yields (frame_Inv _ v refl v.loops v.breaks refl v.loops_fit v.breaks_fit)

  pub push_cleanup-Open :
      (o : Option ℕ)
      → Open p captures ts cs g P s
      → Yields (λ r. Open p captures ts cs (with_cleanup o g) P r.1) (push_cleanup o s)
  unfolding push_cleanup
  push_cleanup-Open none v = yields v
  push_cleanup-Open (some c) v =
      yields (frame_Inv _ v refl v.loops v.breaks (ap (◌∷◌ c) v.cleanups) v.loops_fit v.breaks_fit)

  pub bind_local-Open :
      (local t : ℕ)
      → Open p captures ts cs g P s
      → t < s.temporary_count
      → Yields (λ r. Open p captures ts cs (with_known (local ∷ []) g) P r.1) (bind_local local t s)
  unfolding bind_local
  bind_local-Open local t v x = yields (record {
    here = v.here;
    blocks = v.blocks;
    pending = v.pending;
    regions = v.regions;
    locals = record {
      below = (x, v.locals.below);
      found = found_cons local t g.known s.locals v.locals.found;
    };
    indexes = v.indexes;
    in_temporaries = v.in_temporaries;
    in_blocks = v.in_blocks;
    loops = v.loops;
    loops_fit = v.loops_fit;
    breaks = v.breaks;
    breaks_fit = v.breaks_fit;
    cleanups = v.cleanups;
  })

  pub add_region-Inv :
      (protected : List ℕ) (handler error : ℕ)
      → Inv p captures ts cs g P s
      → length protected ≢ 0
      → All (λ b. b < length s.blocks) protected
      → handler < length s.blocks
      → error < s.temporary_count
      → Yields (λ r. Inv p captures ts cs g P r.1) (add_region protected handler error s)
  unfolding add_region
  add_region-Inv protected handler error v some_ each h e = yields (record {
    here = v.here;
    blocks = v.blocks;
    pending = v.pending;
    regions = All-append _ s.exception_regions _ v.regions ((some_, (each, (h, e))), tt);
    locals = v.locals;
    indexes = v.indexes;
    in_temporaries = v.in_temporaries;
    in_blocks = v.in_blocks;
    loops = v.loops;
    loops_fit = v.loops_fit;
    breaks = v.breaks;
    breaks_fit = v.breaks_fit;
    cleanups = v.cleanups;
  })

  pub enter-Open :
      {Q : ℕ → Type 0} (c : ℕ)
      → Inv p captures ts cs g P s
      → c < length s.blocks
      → ((k : ℕ) → P k → (k ≡ c) ⊎ Q k)
      → Yields (λ r. Open p captures ts cs g Q r.1) (enter c s)
  unfolding enter
  enter-Open c v x f = yields (record {
    here = x;
    blocks = v.blocks;
    pending = λ k b e t. f k (v.pending k b e t);
    regions = v.regions;
    locals = v.locals;
    indexes = v.indexes;
    in_temporaries = v.in_temporaries;
    in_blocks = v.in_blocks;
    loops = v.loops;
    loops_fit = v.loops_fit;
    breaks = v.breaks;
    breaks_fit = v.breaks_fit;
    cleanups = v.cleanups;
  })

module _ {p : MirProgram} {captures ts cs : List ℕ} {g : Frame} {P : ℕ → Type 0}
    {s : Lowering} where
  pub pop_cleanup-Open :
      (o : Option ℕ)
      → Open p captures ts cs (with_cleanup o g) P s
      → Yields (λ r. Open p captures ts cs g P r.1) (pop_cleanup o s)
  unfolding pop_cleanup
  pop_cleanup-Open none v = yields v
  pop_cleanup-Open (some c) v =
      yields (frame_Inv _ v refl v.loops v.breaks (ap rest v.cleanups) v.loops_fit v.breaks_fit)
