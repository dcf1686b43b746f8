-- ===== src/Lowering/States/Growth.antt =====
-- compiler/kyna_mir/src/lowering: code that is valid stays valid when there are more temporaries and blocks.
use kyna.Base.{
  length, ℕ, ◌≤◌, ◌<◌, ◌≡◌, ◌⊎◌, inl, inr, List, Option, none, some, arith, All, All-map,
}
use kyna.Mir.Program.{
  MirInstructionKind, MirCaptureKind, MirInstruction, MirTerminatorNode, MirTerminator,
  MirExceptionRegion, MirBasicBlock, MirProgram,
}
use kyna.Mir.Valid.{ValidKind, ValidInstruction, ValidNode, ValidTerminator, ValidRegion}
use kyna.Lowering.States.{BlockFits}

pub below : {t u : ℕ} (xs : List ℕ) → t ≤ u → All (λ x. x < t) xs → All (λ x. x < u) xs
below xs h v = All-map _ _ (λ x b. omega arith) xs v

module _ (p : MirProgram) (captures : List ℕ) {t u : ℕ} (h : t ≤ u) where
  source :
      (kind : MirCaptureKind) (index : ℕ)
      → elim kind as (λ _. Type 0) [
        | MirCaptureKind.local ↦ index < t
        | MirCaptureKind.capture ↦ index < length captures
      ]
      → elim kind as (λ _. Type 0) [
        | MirCaptureKind.local ↦ index < u
        | MirCaptureKind.capture ↦ index < length captures
      ]
  source MirCaptureKind.local index v = omega arith
  source MirCaptureKind.capture index v = v

  kind_grows :
      (i : MirInstruction) (k : MirInstructionKind)
      → ValidKind p t (length captures) i k
      → ValidKind p u (length captures) i k
  kind_grows i MirInstructionKind.constant v = tt
  kind_grows i MirInstructionKind.function_reference v = v
  kind_grows i MirInstructionKind.closure v =
      (v.0, All-map _ _ (λ s w. source s.kind s.index w) i.capture_sources v.1)
  kind_grows i MirInstructionKind.load_capture v = v
  kind_grows i MirInstructionKind.store_capture v = (v.0, omega (arith, v.1))
  kind_grows i MirInstructionKind.move v = omega arith
  kind_grows i MirInstructionKind.negate v = omega arith
  kind_grows i MirInstructionKind.not v = omega arith
  kind_grows i MirInstructionKind.call v = (v.0, below i.arguments h v.1)
  kind_grows i MirInstructionKind.call_indirect v = (omega (arith, v.0), below i.arguments h v.1)
  kind_grows i MirInstructionKind.call_native v = (v.0, below i.arguments h v.1)
  kind_grows i MirInstructionKind.load_member v = (omega (arith, v.0), v.1)
  kind_grows i MirInstructionKind.bind_method v = (omega (arith, v.0), v.1)
  kind_grows i MirInstructionKind.make_array v = below i.arguments h v
  kind_grows i MirInstructionKind.make_object v = (below i.arguments h v.0, v.1)
  kind_grows i MirInstructionKind.make_instance v = (below i.arguments h v.0, v.1)
  kind_grows i MirInstructionKind.store_index v = (v.0, below i.arguments h v.1)
  kind_grows i MirInstructionKind.store_member v = ((v.0.0, below i.arguments h v.0.1), v.1)
  kind_grows i MirInstructionKind.load_index v = (omega (arith, v.0), omega (arith, v.1))
  kind_grows i MirInstructionKind.add v = (omega (arith, v.0), omega (arith, v.1))
  kind_grows i MirInstructionKind.subtract v = (omega (arith, v.0), omega (arith, v.1))
  kind_grows i MirInstructionKind.multiply v = (omega (arith, v.0), omega (arith, v.1))
  kind_grows i MirInstructionKind.divide v = (omega (arith, v.0), omega (arith, v.1))
  kind_grows i MirInstructionKind.remainder v = (omega (arith, v.0), omega (arith, v.1))
  kind_grows i MirInstructionKind.equal v = (omega (arith, v.0), omega (arith, v.1))
  kind_grows i MirInstructionKind.not_equal v = (omega (arith, v.0), omega (arith, v.1))
  kind_grows i MirInstructionKind.less v = (omega (arith, v.0), omega (arith, v.1))
  kind_grows i MirInstructionKind.less_equal v = (omega (arith, v.0), omega (arith, v.1))
  kind_grows i MirInstructionKind.greater v = (omega (arith, v.0), omega (arith, v.1))
  kind_grows i MirInstructionKind.greater_equal v = (omega (arith, v.0), omega (arith, v.1))

  pub instruction_grows :
      (i : MirInstruction)
      → ValidInstruction p t (length captures) i
      → ValidInstruction p u (length captures) i
  instruction_grows i v = (omega (arith, v.0), kind_grows i i.kind v.1)

  module _ {n m : ℕ} (k : n ≤ m) where
    node_grows :
        (node : MirTerminatorNode)
        → ValidNode p t (length captures) n node
        → ValidNode p u (length captures) m node
    node_grows (MirTerminatorNode.return value) v = omega arith
    node_grows (MirTerminatorNode.goto target) v = omega arith
    node_grows (MirTerminatorNode.branch c a b) v =
        (omega (arith, v.0), (omega (arith, v.1.0), omega (arith, v.1.1)))
    node_grows (MirTerminatorNode.throw value) v = omega arith

    terminator_grows :
        (o : Option MirTerminator)
        → (o ≡ none) ⊎ ValidTerminator p t (length captures) n o
        → (o ≡ none) ⊎ ValidTerminator p u (length captures) m o
    terminator_grows o (inl e) = inl e
    terminator_grows none (inr v) = inr v
    terminator_grows (some x) (inr v) = inr (node_grows x.node v)

    pub blocks_grow :
        (bs : List MirBasicBlock)
        → All (BlockFits p captures t n) bs
        → All (BlockFits p captures u m) bs
    blocks_grow bs v =
        All-map _ _
          (λ b w.
            (All-map _ _ instruction_grows b.instructions w.0, terminator_grows b.terminator w.1))
          bs v

    pub regions_grow :
        (rs : List MirExceptionRegion)
        → All (ValidRegion p t (length captures) n) rs
        → All (ValidRegion p u (length captures) m) rs
    regions_grow rs v =
        All-map _ _
          (λ r w. (
            w.0,
            (below r.protected_blocks k w.1.0, (omega (arith, w.1.1.0), omega (arith, w.1.1.1))),
          ))
          rs v
