-- ===== src/Lowering/States/Steps.antt =====
-- compiler/kyna_mir/src/lowering/hir_lowering.cpp: the helpers of `HirLowerer` keep its state well formed.
use kyna.Base.{
  ℕ, zero, suc, ◌+◌, ◌<◌, ◌≡◌, refl, sym, ◌∙◌, ap, subst, ◌⊎◌, inl, inr, List, [], ◌∷◌, ◌++◌, ◌≢◌,
  none, some, arith, length, get_elem?, set, All, All-append, All-map, All-set, length-append,
  length-set,
}
use kyna.Mir.Program.{MirBasicBlock, MirProgram}
use kyna.Mir.Valid.{ValidRegion}
use kyna.Lowering.{Lowering, empty_block}
use kyna.Lowering.States.{Frame, BlockFits, Inv}
use kyna.Lowering.States.Growth.{below, blocks_grow, regions_grow}

-- The blocks after a write to one of them.
get_elem?-set :
    (bs : List MirBasicBlock) (c : ℕ) (v : MirBasicBlock) (k : ℕ) (b : MirBasicBlock)
    → get_elem? (set bs c v) k ≡ some b
    → ((k ≡ c) × (b ≡ v)) ⊎ ((k ≢ c) × (get_elem? bs k ≡ some b))
get_elem?-set [] c v k b e = absurd (cc)
get_elem?-set (x ∷ bs) zero v zero b e = inl (refl, cc)
get_elem?-set (x ∷ bs) zero v (suc k) b e = inr (λ same. omega arith, e)
get_elem?-set (x ∷ bs) (suc c) v zero b e = inr (λ same. omega arith, e)
get_elem?-set (x ∷ bs) (suc c) v (suc k) b e = elim (get_elem?-set bs c v k b e) [
  | inl i ↦ inl (ap suc i.0, i.1)
  | inr i ↦ inr (λ same. i.0 (omega arith), i.1)
]

append_pending :
    (P : ℕ → Type 0) (bs : List MirBasicBlock) (k : ℕ) (b : MirBasicBlock)
    → ((k : ℕ) (b : MirBasicBlock) → get_elem? bs k ≡ some b → b.terminator ≡ none → P k)
    → get_elem? (bs ++ empty_block ∷ []) k ≡ some b
    → b.terminator ≡ none
    → (k ≡ length bs) ⊎ P k
append_pending P [] zero b h e t = inl refl
append_pending P [] (suc k) b h e t = absurd (cc)
append_pending P (x ∷ bs) zero b h e t = inr (h zero b e t)
append_pending P (x ∷ bs) (suc k) b h e t =
    elim (append_pending (λ j. P (suc j)) bs k b (λ j. h (suc j)) e t) [
      | inl i ↦ inl (ap suc i)
      | inr q ↦ inr q
    ]

length-add_block : (bs : List MirBasicBlock) → length (bs ++ empty_block ∷ []) ≡ length bs + 1
length-add_block bs = length-append bs (empty_block ∷ [])

module _ {p : MirProgram} {captures ts cs : List ℕ} {g : Frame} {P : ℕ → Type 0}
    {s : Lowering} where
  -- Fewer things may be asked, and more blocks may be without a terminator.
  pub Inv-weaken :
      {us ds : List ℕ} {Q : ℕ → Type 0}
      → (v : Inv p captures ts cs g P s) → All (λ t. t < s.temporary_count) us
      → All (λ b. b < length s.blocks) ds
      → ((k : ℕ) → P k → Q k)
      → Inv p captures us ds g Q s
  Inv-weaken v us ds f = record {
    here = v.here;
    blocks = v.blocks;
    pending = λ k b e t. f k (v.pending k b e t);
    regions = v.regions;
    locals = v.locals;
    indexes = v.indexes;
    in_temporaries = us;
    in_blocks = ds;
    loops = v.loops;
    loops_fit = v.loops_fit;
    breaks = v.breaks;
    breaks_fit = v.breaks_fit;
    cleanups = v.cleanups;
  }

  pub temporary_Inv :
      Inv p captures ts cs g P s
      → Inv p captures
          (s.temporary_count ∷ ts)
          cs
          g
          P
          (record s { temporary_count = s.temporary_count + 1 })
  temporary_Inv v = record {
    here = v.here;
    blocks = blocks_grow p captures (omega arith) (omega arith) s.blocks v.blocks;
    pending = v.pending;
    regions = regions_grow p captures (omega arith) (omega arith) s.exception_regions v.regions;
    locals = record {
      below = All-map _ _ (λ e b. omega arith) s.locals v.locals.below;
      found = v.locals.found;
    };
    indexes = v.indexes;
    in_temporaries = (omega arith, below ts (omega arith) v.in_temporaries);
    in_blocks = v.in_blocks;
    loops = v.loops;
    loops_fit = v.loops_fit;
    breaks = v.breaks;
    breaks_fit = v.breaks_fit;
    cleanups = v.cleanups;
  }

  pub add_block_Inv :
      Inv p captures ts cs g P s
      → Inv p captures ts
          (length s.blocks ∷ cs)
          g
          (λ k. (k ≡ length s.blocks) ⊎ P k)
          (record s { blocks = s.blocks ++ empty_block ∷ [] })
  add_block_Inv v = record {
    here = omega (arith, length-add_block s.blocks, v.here);
    blocks =
        All-append _ s.blocks (empty_block ∷ [])
          (blocks_grow p captures (omega arith) (omega (arith, length-add_block s.blocks)) s.blocks
            v.blocks)
          ((tt, inl refl), tt);
    pending = λ k b. append_pending P s.blocks k b v.pending;
    regions =
        regions_grow p captures (omega arith) (omega (arith, length-add_block s.blocks))
          s.exception_regions v.regions;
    locals = v.locals;
    indexes = v.indexes;
    in_temporaries = v.in_temporaries;
    in_blocks = (
      omega (arith, length-add_block s.blocks),
      below cs (omega (arith, length-add_block s.blocks)) v.in_blocks,
    );
    loops = v.loops;
    loops_fit =
        All-map _ _
          (λ l w. (
            omega (arith, length-add_block s.blocks, w.0),
            omega (arith, length-add_block s.blocks, w.1),
          ))
          g.loops v.loops_fit;
    breaks = v.breaks;
    breaks_fit = below g.breaks (omega (arith, length-add_block s.blocks)) v.breaks_fit;
    cleanups = v.cleanups;
  }

  -- A write to the current block.
  pub write_Inv :
      {Q : ℕ → Type 0} (b : MirBasicBlock)
      → Inv p captures ts cs g P s
      → BlockFits p captures s.temporary_count (length s.blocks) b
      → ((k : ℕ) → P k → (k ≡ s.current_block) ⊎ Q k)
      → (b.terminator ≡ none → Q s.current_block)
      → Inv p captures ts cs g Q (record s { blocks = set s.blocks s.current_block b })
  write_Inv {Q} b v fits f w = record {
    here = subst (λ n. s.current_block < n) (sym same) v.here;
    blocks =
        subst (λ n. All (BlockFits p captures s.temporary_count n) (set s.blocks s.current_block b))
          (sym same) (All-set _ s.blocks s.current_block b v.blocks fits);
    pending = λ k x e t. elim (get_elem?-set s.blocks s.current_block b k x e) [
      | inl i ↦ subst Q (sym i.0) (w (ap (λ (y : MirBasicBlock). y.terminator) (sym i.1) ∙ t))
      | inr i ↦ elim (f k (v.pending k x i.1 t)) [ inl same ↦ absurd (i.0 same) | inr q ↦ q ]
    ];
    regions =
        subst (λ n. All (ValidRegion p s.temporary_count (length captures) n) s.exception_regions)
          (sym same) v.regions;
    locals = v.locals;
    indexes = v.indexes;
    in_temporaries = v.in_temporaries;
    in_blocks = subst (λ n. All (λ c. c < n) cs) (sym same) v.in_blocks;
    loops = v.loops;
    loops_fit =
        All-map _ _ (λ l x. (omega (arith, same, x.0), omega (arith, same, x.1))) g.loops
          v.loops_fit;
    breaks = v.breaks;
    breaks_fit = subst (λ n. All (λ c. c < n) g.breaks) (sym same) v.breaks_fit;
    cleanups = v.cleanups;
  }
    where
      same : length (set s.blocks s.current_block b) ≡ length s.blocks
      same = length-set s.blocks s.current_block b
