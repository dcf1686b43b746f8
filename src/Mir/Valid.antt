-- ===== src/Mir/Valid.antt =====
-- compiler/kyna_mir: when a program of the middle representation is valid, as predicates on its numbers.
pub mod Counts
pub mod Instructions
pub mod Programs
use kyna.Base.{
  ℕ, ◌+◌, ◌-◌, ◌≤◌, ◌<◌, ◌≡◌, ◌≢◌, true, List, [], ◌∷◌, Option, none, some, String, length, All,
}
use kyna.Bytecode.Program.{BytecodeConstant}
use kyna.Bytecode.Valid.{EachOf, Entry}
use kyna.Mir.Program.{
  MirInstructionKind, MirCaptureKind, MirCaptureSource, MirInstruction, MirTerminatorNode,
  MirTerminator, MirExceptionRegion, MirBasicBlock, MirFunction, MirClass, MirProgram,
}

-- A function of the program that is not the module itself, which has the number 0.
abbrev pub Target : MirProgram → ℕ → Type 0
Target p function = (function ≢ 0) × (function < length p.functions + 1)

module _ (p : MirProgram) (temporaries captures : ℕ) where
  abbrev pub IsTemporary : ℕ → Type 0
  IsTemporary t = t < temporaries

  abbrev pub HasName : MirInstruction → Type 0
  HasName i = (s : String) × (i.constant ≡ BytecodeConstant.string s)

  abbrev pub SourceFits : MirCaptureSource → Type 0
  SourceFits source = elim source.kind [
    | MirCaptureKind.local ↦ source.index < temporaries
    | MirCaptureKind.capture ↦ source.index < captures
  ]

  -- The function with a number is declared, one place before it, and satisfies `P`.
  abbrev pub Declared : ℕ → (MirFunction → Type 0) → Type 0
  Declared function P = Entry p.functions (function - 1) P

  abbrev pub ValidKind : MirInstruction → MirInstructionKind → Type 0
  ValidKind i MirInstructionKind.constant = Unit
  ValidKind i MirInstructionKind.function_reference = Target p i.function
  ValidKind i MirInstructionKind.closure =
      (Target p i.function × Declared i.function λ f. length i.capture_sources ≡ length f.captures)
      × All SourceFits i.capture_sources
  ValidKind i MirInstructionKind.load_capture = i.capture < captures
  ValidKind i MirInstructionKind.store_capture = (i.capture < captures) × IsTemporary i.first
  ValidKind i MirInstructionKind.move = IsTemporary i.first
  ValidKind i MirInstructionKind.negate = IsTemporary i.first
  ValidKind i MirInstructionKind.not = IsTemporary i.first
  ValidKind i MirInstructionKind.call =
      (Target p i.function × Declared i.function λ f. length i.arguments ≡ f.parameter_count)
      × All IsTemporary i.arguments
  ValidKind i MirInstructionKind.call_indirect = IsTemporary i.first × All IsTemporary i.arguments
  ValidKind i MirInstructionKind.call_native = HasName i × All IsTemporary i.arguments
  ValidKind i MirInstructionKind.load_member = IsTemporary i.first × HasName i
  ValidKind i MirInstructionKind.bind_method = IsTemporary i.first × Target p i.function
  ValidKind i MirInstructionKind.make_array = All IsTemporary i.arguments
  ValidKind i MirInstructionKind.make_object =
      All IsTemporary i.arguments × (length i.names ≡ length i.arguments)
  ValidKind i MirInstructionKind.make_instance =
      All IsTemporary i.arguments × (i.function < length p.classes)
  ValidKind i MirInstructionKind.store_index =
      (length i.arguments ≡ 3) × All IsTemporary i.arguments
  ValidKind i MirInstructionKind.store_member =
      ((length i.arguments ≡ 2) × All IsTemporary i.arguments) × HasName i
  ValidKind i _ = IsTemporary i.first × IsTemporary i.second

  abbrev pub ValidInstruction : MirInstruction → Type 0
  ValidInstruction i = IsTemporary i.destination × ValidKind i i.kind

  -- A terminator in a body with so many blocks.
  abbrev pub ValidNode : ℕ → MirTerminatorNode → Type 0
  ValidNode blocks (MirTerminatorNode.return value) = IsTemporary value
  ValidNode blocks (MirTerminatorNode.goto target) = target < blocks
  ValidNode blocks (MirTerminatorNode.branch condition true_block false_block) =
      IsTemporary condition × ((true_block < blocks) × (false_block < blocks))
  ValidNode blocks (MirTerminatorNode.throw value) = IsTemporary value

  abbrev pub ValidTerminator : ℕ → Option MirTerminator → Type 0
  ValidTerminator blocks none = ⊥
  ValidTerminator blocks (some t) = ValidNode blocks t.node

  abbrev pub ValidBlock : ℕ → MirBasicBlock → Type 0
  ValidBlock blocks block =
      All ValidInstruction block.instructions × ValidTerminator blocks block.terminator

  abbrev pub ValidRegion : ℕ → MirExceptionRegion → Type 0
  ValidRegion blocks region =
      (length region.protected_blocks ≢ 0)
      × (All (λ b. b < blocks) region.protected_blocks
          × ((region.handler < blocks) × IsTemporary region.error_destination))

  pub record ValidBody (parameters entry_block : ℕ) (blocks : List MirBasicBlock)
      (regions : List MirExceptionRegion) : Type 0 where
    pub entry : entry_block < length blocks
    pub room : parameters ≤ temporaries
    pub each_block : All (ValidBlock (length blocks)) blocks
    pub each_region : All (ValidRegion (length blocks)) regions

abbrev pub ValidFunction : MirProgram → MirFunction → Type 0
ValidFunction p f =
    ValidBody p f.temporary_count (length f.captures) f.parameter_count f.entry_block f.blocks
      f.exception_regions

pub record ValidClass (p : MirProgram) (klass : MirClass) : Type 0 where
  pub parent : EachOf klass.parent (λ parent. parent < length p.classes)
  pub constructor : EachOf klass.constructor (λ constructor. constructor < length p.functions)
  pub methods : All (λ method. method.function < length p.functions) klass.methods

pub record ValidProgram (p : MirProgram) : Type 0 where
  pub body : ValidBody p p.temporary_count 0 0 p.entry_block p.blocks p.exception_regions
  pub functions : All (ValidFunction p) p.functions
  pub classes : All (ValidClass p) p.classes
