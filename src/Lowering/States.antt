-- ===== src/Lowering/States.antt =====
-- compiler/kyna_mir/src/lowering: what holds of the state of `HirLowerer` between two of its steps, and that
-- its helpers keep it.
pub mod Growth
pub mod Steps
pub mod Frames
pub mod Blocks
use kyna.Base.{
  ℕ, zero, suc, ◌+◌, ◌≤◌, ◌<◌, ◌≡◌, refl, sym, ◌∙◌, ap, subst, ◌⊎◌, inl, inr, true, false, List, [],
  ◌∷◌, ◌++◌, Option, none, some, arith, length, get_elem?, set, if◌then◌else◌, All, All-append,
  All-map, All-set, length-append, length-set, ◌==◌,
}
use kyna.Mir.Program.{
  MirInstruction, MirTerminator, MirTerminatorNode, MirExceptionRegion, MirBasicBlock, MirProgram,
}
use kyna.Mir.Valid.{ValidInstruction, ValidNode, ValidTerminator, ValidRegion}
use kyna.Lowering.{LoopContext, Lowering, empty_block, lookup}
use kyna.Lowering.Fits.{IsIn}

-- The locals that are bound, and what is around the code: the loops, the break targets and the cleanups.
pub record Frame : Type 0 where
  pub known : List ℕ
  pub loops : List LoopContext
  pub breaks : List ℕ
  pub cleanups : List ℕ

abbrev pub with_known : List ℕ → Frame → Frame
with_known locals g = record g { known = locals ++ g.known }

-- The entries of a map are below a bound, and there is one for each of the keys.
pub record Keeps (bound : ℕ) (keys : List ℕ) (entries : List (ℕ × ℕ)) : Type 0 where
  pub below : All (λ e. e.1 < bound) entries
  pub found : (k : ℕ) → IsIn k keys → (v : ℕ) × (lookup k entries ≡ some v)

pub lookup_below :
    (bound k v : ℕ) (entries : List (ℕ × ℕ))
    → All (λ e. e.1 < bound) entries
    → lookup k entries ≡ some v
    → v < bound
unfolding lookup
lookup_below bound k v [] h e = absurd (cc)
lookup_below bound k v ((j, w) ∷ entries) h e =
    elim (j == k) as (λ b. (if b then some w else lookup k entries) ≡ some v → v < bound) [
      | true ↦ λ x. grind (arith, h.0)
      | false ↦ λ x. lookup_below bound k v entries h.1 x
    ]
      e

module _ (p : MirProgram) (captures : List ℕ) where
  -- A block with valid code, and no terminator or a valid one.
  abbrev pub BlockFits : ℕ → ℕ → MirBasicBlock → Type 0
  BlockFits temporaries blocks b =
      All (ValidInstruction p temporaries (length captures)) b.instructions
      × ((b.terminator ≡ none)
          ⊎ ValidTerminator p temporaries (length captures) blocks b.terminator)

  abbrev pub LoopFits : ℕ → LoopContext → Type 0
  LoopFits blocks l = (l.break_target < blocks) × (l.continue_target < blocks)

  -- `P` holds of the blocks that have no terminator; `temporaries` and `targets` are temporaries and blocks.
  pub record Inv (temporaries targets : List ℕ) (g : Frame) (P : ℕ → Type 0) (s : Lowering)
      : Type 0 where
    pub here : s.current_block < length s.blocks
    pub blocks : All (BlockFits s.temporary_count (length s.blocks)) s.blocks
    pub pending :
        (k : ℕ) (b : MirBasicBlock) → get_elem? s.blocks k ≡ some b → b.terminator ≡ none → P k
    pub regions :
        All
          (ValidRegion p s.temporary_count (length captures) (length s.blocks))
          s.exception_regions
    pub locals : Keeps s.temporary_count g.known s.locals
    pub indexes : Keeps (length captures) captures s.capture_indexes
    pub in_temporaries : All (λ t. t < s.temporary_count) temporaries
    pub in_blocks : All (λ b. b < length s.blocks) targets
    pub loops : s.loops ≡ g.loops
    pub loops_fit : All (LoopFits (length s.blocks)) g.loops
    pub breaks : s.breaks ≡ g.breaks
    pub breaks_fit : All (λ b. b < length s.blocks) g.breaks
    pub cleanups : s.cleanups ≡ g.cleanups

  -- The current block is one of those that may have no terminator.
  abbrev pub Open : List ℕ → List ℕ → Frame → (ℕ → Type 0) → Lowering → Type 0
  Open ts cs g P s = Inv ts cs g (λ k. (k ≡ s.current_block) ⊎ P k) s
