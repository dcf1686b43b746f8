-- ===== src/Generator/Encoding/Choices.antt =====
-- compiler/kyna_bytecode/src/generators/body_compiler.cpp: `opcodeFor`, `terminatorSize` and the sources of captures
-- are what the encoding asks for.
use kyna.Base.{◌≡◌, refl, List, [], ◌∷◌, map}
use kyna.Bytecode.Program.{OpCode, CaptureKind}
use kyna.Mir.Program.{MirInstructionKind, MirCaptureKind, MirCaptureSource, MirTerminatorNode}
use kyna.Generator.{opcode_for, capture_source, terminator_size}
use kyna.Generator.Encoding.{Performs, places, SameKind, SourcesCode}

pub terminator_size-places : (n : MirTerminatorNode) → terminator_size n ≡ places n
unfolding terminator_size
terminator_size-places (MirTerminatorNode.branch _ _ _) = refl
terminator_size-places (MirTerminatorNode.return _) = refl
terminator_size-places (MirTerminatorNode.goto _) = refl
terminator_size-places (MirTerminatorNode.throw _) = refl

-- The generator picks the operations and the sources that the encoding asks for.
pub opcode_for-Performs : (k : MirInstructionKind) → Performs k (opcode_for k)
unfolding opcode_for
opcode_for-Performs MirInstructionKind.move = Performs.move
opcode_for-Performs MirInstructionKind.function_reference = Performs.function_reference
opcode_for-Performs MirInstructionKind.closure = Performs.closure
opcode_for-Performs MirInstructionKind.load_capture = Performs.load_capture
opcode_for-Performs MirInstructionKind.store_capture = Performs.store_capture
opcode_for-Performs MirInstructionKind.negate = Performs.negate
opcode_for-Performs MirInstructionKind.not = Performs.not
opcode_for-Performs MirInstructionKind.add = Performs.add
opcode_for-Performs MirInstructionKind.subtract = Performs.subtract
opcode_for-Performs MirInstructionKind.multiply = Performs.multiply
opcode_for-Performs MirInstructionKind.divide = Performs.divide
opcode_for-Performs MirInstructionKind.remainder = Performs.remainder
opcode_for-Performs MirInstructionKind.equal = Performs.equal
opcode_for-Performs MirInstructionKind.not_equal = Performs.not_equal
opcode_for-Performs MirInstructionKind.less = Performs.less
opcode_for-Performs MirInstructionKind.less_equal = Performs.less_equal
opcode_for-Performs MirInstructionKind.greater = Performs.greater
opcode_for-Performs MirInstructionKind.greater_equal = Performs.greater_equal
opcode_for-Performs MirInstructionKind.constant = Performs.constant
opcode_for-Performs MirInstructionKind.call = Performs.call
opcode_for-Performs MirInstructionKind.call_indirect = Performs.call_indirect
opcode_for-Performs MirInstructionKind.call_native = Performs.call_native
opcode_for-Performs MirInstructionKind.load_member = Performs.load_member
opcode_for-Performs MirInstructionKind.bind_method = Performs.bind_method
opcode_for-Performs MirInstructionKind.make_array = Performs.make_array
opcode_for-Performs MirInstructionKind.make_object = Performs.make_object
opcode_for-Performs MirInstructionKind.make_instance = Performs.make_instance
opcode_for-Performs MirInstructionKind.load_index = Performs.load_index
opcode_for-Performs MirInstructionKind.store_index = Performs.store_index
opcode_for-Performs MirInstructionKind.store_member = Performs.store_member

pub Performs-opcode : {k : MirInstructionKind} {op : OpCode} → Performs k op → opcode_for k ≡ op
unfolding opcode_for
Performs-opcode Performs.move = refl
Performs-opcode Performs.function_reference = refl
Performs-opcode Performs.closure = refl
Performs-opcode Performs.load_capture = refl
Performs-opcode Performs.store_capture = refl
Performs-opcode Performs.negate = refl
Performs-opcode Performs.not = refl
Performs-opcode Performs.add = refl
Performs-opcode Performs.subtract = refl
Performs-opcode Performs.multiply = refl
Performs-opcode Performs.divide = refl
Performs-opcode Performs.remainder = refl
Performs-opcode Performs.equal = refl
Performs-opcode Performs.not_equal = refl
Performs-opcode Performs.less = refl
Performs-opcode Performs.less_equal = refl
Performs-opcode Performs.greater = refl
Performs-opcode Performs.greater_equal = refl
Performs-opcode Performs.constant = refl
Performs-opcode Performs.call = refl
Performs-opcode Performs.call_indirect = refl
Performs-opcode Performs.call_native = refl
Performs-opcode Performs.load_member = refl
Performs-opcode Performs.bind_method = refl
Performs-opcode Performs.make_array = refl
Performs-opcode Performs.make_object = refl
Performs-opcode Performs.make_instance = refl
Performs-opcode Performs.load_index = refl
Performs-opcode Performs.store_index = refl
Performs-opcode Performs.store_member = refl

pub capture_source-SourcesCode :
    (ss : List MirCaptureSource) → SourcesCode ss (map capture_source ss)
unfolding capture_source
capture_source-SourcesCode [] = tt
capture_source-SourcesCode (s ∷ ss) = ((go s.kind, refl), capture_source-SourcesCode ss)
  where
    go :
        (kind : MirCaptureKind)
        → SameKind kind (elim kind [
          | MirCaptureKind.local ↦ CaptureKind.local
          | MirCaptureKind.capture ↦ CaptureKind.capture
        ])
    go MirCaptureKind.local = tt
    go MirCaptureKind.capture = tt
