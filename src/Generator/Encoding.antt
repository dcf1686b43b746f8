-- ===== src/Generator/Encoding.antt =====
-- compiler/kyna_bytecode/src/generators/body_compiler.cpp: what code stands for a body of the middle
-- representation, apart from the way in which it is emitted.
pub mod Choices
use kyna.Base.{ℕ, suc, ◌≡◌, refl, List, [], ◌∷◌, ◌++◌, some, String, map, length, get_elem?, ap}
use kyna.Diagnostics.{SourceSpan}
use kyna.Bytecode.Program.{
  BytecodeConstant, OpCode, BytecodeInstruction, CaptureKind, BytecodeCaptureSource, BytecodeModule,
}
use kyna.Mir.Program.{
  MirInstructionKind, MirCaptureKind, MirCaptureSource, MirInstruction, MirTerminatorNode,
  MirTerminator, MirBasicBlock,
}
use kyna.Bytecode.Valid.{Entry}
use kyna.Generator.Growth.{Grows}

-- The operation of the bytecode that does what a kind of instruction asks for.
pub data Performs : MirInstructionKind → OpCode → Type 0 where
  move : Performs MirInstructionKind.move OpCode.move
  function_reference : Performs MirInstructionKind.function_reference OpCode.load_function
  closure : Performs MirInstructionKind.closure OpCode.make_closure
  load_capture : Performs MirInstructionKind.load_capture OpCode.load_capture
  store_capture : Performs MirInstructionKind.store_capture OpCode.store_capture
  negate : Performs MirInstructionKind.negate OpCode.negate
  not : Performs MirInstructionKind.not OpCode.not
  add : Performs MirInstructionKind.add OpCode.add
  subtract : Performs MirInstructionKind.subtract OpCode.subtract
  multiply : Performs MirInstructionKind.multiply OpCode.multiply
  divide : Performs MirInstructionKind.divide OpCode.divide
  remainder : Performs MirInstructionKind.remainder OpCode.remainder
  equal : Performs MirInstructionKind.equal OpCode.equal
  not_equal : Performs MirInstructionKind.not_equal OpCode.not_equal
  less : Performs MirInstructionKind.less OpCode.less
  less_equal : Performs MirInstructionKind.less_equal OpCode.less_equal
  greater : Performs MirInstructionKind.greater OpCode.greater
  greater_equal : Performs MirInstructionKind.greater_equal OpCode.greater_equal
  constant : Performs MirInstructionKind.constant OpCode.load_constant
  call : Performs MirInstructionKind.call OpCode.call
  call_indirect : Performs MirInstructionKind.call_indirect OpCode.call_indirect
  call_native : Performs MirInstructionKind.call_native OpCode.call_native
  load_member : Performs MirInstructionKind.load_member OpCode.load_member
  bind_method : Performs MirInstructionKind.bind_method OpCode.bind_method
  make_array : Performs MirInstructionKind.make_array OpCode.make_array
  make_object : Performs MirInstructionKind.make_object OpCode.make_object
  make_instance : Performs MirInstructionKind.make_instance OpCode.make_instance
  load_index : Performs MirInstructionKind.load_index OpCode.load_index
  store_index : Performs MirInstructionKind.store_index OpCode.store_index
  store_member : Performs MirInstructionKind.store_member OpCode.store_member

-- The instruction with an operation, a destination and two operands.
abbrev pub bytecode : OpCode → ℕ → ℕ → ℕ → SourceSpan → BytecodeInstruction
bytecode opcode destination first second span = record {
  opcode = opcode;
  destination = destination;
  first = first;
  second = second;
  span = span;
}

-- A captured local is captured from a register and a captured capture from a capture, with the same index.
abbrev pub SameKind : MirCaptureKind → CaptureKind → Type 0
SameKind MirCaptureKind.local CaptureKind.local = Unit
SameKind MirCaptureKind.capture CaptureKind.capture = Unit
SameKind _ _ = ⊥

abbrev pub SourcesCode : List MirCaptureSource → List BytecodeCaptureSource → Type 0
SourcesCode [] [] = Unit
SourcesCode (s ∷ ss) (b ∷ bs) = (SameKind s.kind b.kind × (b.index ≡ s.index)) × SourcesCode ss bs
SourcesCode _ _ = ⊥

-- The operands of the bytecode, read through the tables of the module, are those of the instruction.
abbrev pub Operands : BytecodeModule → MirInstruction → MirInstructionKind → ℕ → ℕ → Type 0
Operands m x MirInstructionKind.constant a b = get_elem? m.constants a ≡ some x.constant
Operands m x MirInstructionKind.function_reference a b = a ≡ x.function
Operands m x MirInstructionKind.closure a b =
    (a ≡ x.function) × Entry m.closure_captures b (SourcesCode x.capture_sources)
Operands m x MirInstructionKind.load_capture a b = a ≡ x.capture
Operands m x MirInstructionKind.store_capture a b = (a ≡ x.capture) × (b ≡ x.first)
Operands m x MirInstructionKind.call a b =
    (a ≡ x.function) × (get_elem? m.call_arguments b ≡ some x.arguments)
Operands m x MirInstructionKind.call_indirect a b =
    (a ≡ x.first) × (get_elem? m.call_arguments b ≡ some x.arguments)
Operands m x MirInstructionKind.call_native a b =
    ((s : String) × (x.constant ≡ BytecodeConstant.string s)
      × (get_elem? m.native_functions a ≡ some s))
    × (get_elem? m.call_arguments b ≡ some x.arguments)
Operands m x MirInstructionKind.load_member a b =
    (a ≡ x.first) × (get_elem? m.constants b ≡ some x.constant)
Operands m x MirInstructionKind.bind_method a b = (a ≡ x.first) × (b ≡ x.function)
Operands m x MirInstructionKind.make_array a b = get_elem? m.call_arguments a ≡ some x.arguments
Operands m x MirInstructionKind.make_object a b =
    (get_elem? m.call_arguments a ≡ some x.arguments)
    × (get_elem? m.object_field_names b ≡ some x.names)
Operands m x MirInstructionKind.make_instance a b =
    (a ≡ x.function) × (get_elem? m.call_arguments b ≡ some x.arguments)
Operands m x MirInstructionKind.store_index a b = get_elem? m.call_arguments a ≡ some x.arguments
Operands m x MirInstructionKind.store_member a b =
    (get_elem? m.call_arguments a ≡ some x.arguments) × (get_elem? m.constants b ≡ some x.constant)
Operands m x _ a b = (a ≡ x.first) × (b ≡ x.second)

-- One instruction for each, in order, with its opcode, destination, operands and span.
pub data InstructionsCode (m : BytecodeModule)
    : List MirInstruction → List BytecodeInstruction → Type 0 where
  done : InstructionsCode m [] []
  next :
      {x : MirInstruction} {xs : List MirInstruction} {is : List BytecodeInstruction} {op : OpCode}
      {a b : ℕ}
      → Performs x.kind op
      → Operands m x x.kind a b
      → InstructionsCode m xs is
      → InstructionsCode m (x ∷ xs) (bytecode op x.destination a b x.span ∷ is)

-- A terminator returns, throws, or jumps to where the code of its target starts.
pub data NodeCode (offsets : List ℕ) (span : SourceSpan)
    : MirTerminatorNode → List BytecodeInstruction → Type 0 where
  return :
      {v : ℕ}
      → NodeCode offsets span (MirTerminatorNode.return v) (bytecode OpCode.return 0 v 0 span ∷ [])
  goto :
      {b o : ℕ}
      → get_elem? offsets b ≡ some o
      → NodeCode offsets span (MirTerminatorNode.goto b) (bytecode OpCode.jump 0 o 0 span ∷ [])
  branch :
      {c t f when_true when_false : ℕ}
      → get_elem? offsets t ≡ some when_true
      → get_elem? offsets f ≡ some when_false
      → NodeCode offsets span (MirTerminatorNode.branch c t f) (
          bytecode OpCode.jump_if_false 0 c when_false span
          ∷ bytecode OpCode.jump 0 when_true 0 span
          ∷ [])
  throw :
      {v : ℕ}
      → NodeCode offsets span (MirTerminatorNode.throw v) (bytecode OpCode.throw 0 v 0 span ∷ [])

-- A branch takes two instructions and any other terminator one.
abbrev pub places : MirTerminatorNode → ℕ
places (MirTerminatorNode.branch _ _ _) = 2
places _ = 1

-- The code of the blocks, one behind the other.
pub data BlocksCode (m : BytecodeModule) (offsets : List ℕ)
    : List MirBasicBlock → List BytecodeInstruction → Type 0 where
  done : BlocksCode m offsets [] []
  next :
      {block : MirBasicBlock} {blocks : List MirBasicBlock} {t : MirTerminator}
      {is js rest : List BytecodeInstruction}
      → block.terminator ≡ some t
      → InstructionsCode m block.instructions is
      → NodeCode offsets t.span t.node js
      → BlocksCode m offsets blocks rest
      → BlocksCode m offsets (block ∷ blocks) (is ++ (js ++ rest))

module _ {m m' : BytecodeModule} (g : Grows m m') where
  pub Operands-Grows :
      (x : MirInstruction) (k : MirInstructionKind) (a b : ℕ)
      → Operands m x k a b
      → Operands m' x k a b
  Operands-Grows x MirInstructionKind.constant a b o = g.constants a x.constant o
  Operands-Grows x MirInstructionKind.function_reference a b o = o
  Operands-Grows x MirInstructionKind.closure a b o = (o.0, (o.1.0, g.sources b _ (o.1.1), o.1.2))
  Operands-Grows x MirInstructionKind.load_capture a b o = o
  Operands-Grows x MirInstructionKind.store_capture a b o = o
  Operands-Grows x MirInstructionKind.call a b o = (o.0, g.arguments b _ o.1)
  Operands-Grows x MirInstructionKind.call_indirect a b o = (o.0, g.arguments b _ o.1)
  Operands-Grows x MirInstructionKind.call_native a b o =
      ((o.0.0, o.0.1, g.natives a _ (o.0.2)), g.arguments b _ o.1)
  Operands-Grows x MirInstructionKind.load_member a b o = (o.0, g.constants b _ o.1)
  Operands-Grows x MirInstructionKind.bind_method a b o = o
  Operands-Grows x MirInstructionKind.make_array a b o = g.arguments a _ o
  Operands-Grows x MirInstructionKind.make_object a b o = (g.arguments a _ o.0, g.names b _ o.1)
  Operands-Grows x MirInstructionKind.make_instance a b o = (o.0, g.arguments b _ o.1)
  Operands-Grows x MirInstructionKind.store_index a b o = g.arguments a _ o
  Operands-Grows x MirInstructionKind.store_member a b o =
      (g.arguments a _ o.0, g.constants b _ o.1)
  Operands-Grows x _ a b o = o

  pub InstructionsCode-Grows :
      {xs : List MirInstruction} {is : List BytecodeInstruction}
      → InstructionsCode m xs is
      → InstructionsCode m' xs is
  InstructionsCode-Grows done = done
  InstructionsCode-Grows (next {x} {a} {b} w o c) =
      next w (Operands-Grows x x.kind a b o) (InstructionsCode-Grows c)

  pub BlocksCode-Grows :
      {offsets : List ℕ} {blocks : List MirBasicBlock} {is : List BytecodeInstruction}
      → BlocksCode m offsets blocks is
      → BlocksCode m' offsets blocks is
  BlocksCode-Grows done = done
  BlocksCode-Grows (next e c n rest) = next e (InstructionsCode-Grows c) n (BlocksCode-Grows rest)

-- An instruction takes one place, and a terminator its places.
pub length-InstructionsCode :
    {m : BytecodeModule} {xs : List MirInstruction} {is : List BytecodeInstruction}
    → InstructionsCode m xs is
    → length is ≡ length xs
length-InstructionsCode done = refl
length-InstructionsCode (next w o c) = ap suc (length-InstructionsCode c)

pub length-NodeCode :
    {offsets : List ℕ} {span : SourceSpan} {n : MirTerminatorNode} {js : List BytecodeInstruction}
    → NodeCode offsets span n js
    → length js ≡ places n
length-NodeCode return = refl
length-NodeCode (goto e) = refl
length-NodeCode (branch e e') = refl
length-NodeCode throw = refl
