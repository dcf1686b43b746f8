-- ===== src/Generator/Functions.antt =====
-- compiler/kyna_bytecode/src/generators/body_compiler.cpp: the function with the code of a valid body is a
-- valid function.
use kyna.Base.{
  none, inl, inr, Option, ℕ, suc, ◌<◌, ◌≡◌, ◌≢◌, subst, List, [], ◌∷◌, ◌++◌, some, length, arith,
  All, All-append,
}
use kyna.Diagnostics.{SourceSpan}
use kyna.Bytecode.Program.{BytecodeInstruction, ExceptionHandler, BytecodeFunction, BytecodeModule}
use kyna.Bytecode.Valid.{ValidOperation, ValidHandler, Ends, ValidFunction}
use kyna.Mir.Program.{
  MirTerminatorNode, MirTerminator, MirExceptionRegion, MirBasicBlock, MirProgram,
}
use kyna.Mir.Valid.{ValidNode, ValidTerminator, ValidBlock, ValidRegion, ValidBody}
use kyna.Generator.Encoding.{NodeCode, BlocksCode}
use kyna.Generator.Offsets.{size_pos, Offsets, Offsets-lt}
use kyna.Generator.Bodies.{HandlerFor, BlockHandlers, RegionHandlers, BodyOf, Offsets-block}
use kyna.Generator.Operations.{
  Declares, Receives, Direct, instructions-ValidOperation, instructions-DirectTarget,
}
use kyna.Vm.Safe.Targets.{DirectTarget}

abbrev pub BlockReceives : MirProgram → MirBasicBlock → Type 0
BlockReceives p block = All (λ x. Receives p x x.kind) block.instructions

abbrev pub BlockDirect : MirProgram → MirBasicBlock → Type 0
BlockDirect p block = All (λ x. Direct p x x.kind) block.instructions

Ends-append : (xs ys : List BytecodeInstruction) → Ends ys → Ends (xs ++ ys)
Ends-append [] ys e = e
Ends-append (x ∷ []) [] e = absurd e
Ends-append (x ∷ []) (y ∷ ys) e = e
Ends-append (x ∷ z ∷ xs) ys e = Ends-append (z ∷ xs) ys e

NodeCode-Ends :
    {offsets : List ℕ} {span : SourceSpan} {n : MirTerminatorNode} {js : List BytecodeInstruction}
    → NodeCode offsets span n js
    → Ends (js ++ [])
NodeCode-Ends NodeCode.return = tt
NodeCode-Ends (NodeCode.goto e) = tt
NodeCode-Ends (NodeCode.branch e e') = tt
NodeCode-Ends NodeCode.throw = tt

BlocksCode-Ends :
    {m : BytecodeModule} {offsets : List ℕ} {blocks : List MirBasicBlock}
    {is : List BytecodeInstruction}
    → BlocksCode m offsets blocks is
    → 0 < length blocks
    → Ends is
BlocksCode-Ends BlocksCode.done l = absurd (omega (arith, l))
BlocksCode-Ends (BlocksCode.next {is} {js} e c n BlocksCode.done) l =
    Ends-append is (js ++ []) (NodeCode-Ends n)
BlocksCode-Ends
      (BlocksCode.next {is} {js} e c n (BlocksCode.next {is = is'} {js = js'} {rest} e' c' n' more))
      l =
    Ends-append is (js ++ (is' ++ (js' ++ rest))) (
      Ends-append js (is' ++ (js' ++ rest))
        (BlocksCode-Ends (BlocksCode.next e' c' n' more) (omega arith)))

module _ (p : MirProgram) (m : BytecodeModule) (d : Declares p m) (f : BytecodeFunction) where
  module _ {blocks : List MirBasicBlock} {offsets : List ℕ}
      (os : Offsets 0 blocks offsets (length f.instructions)) where
    node-ValidOperation :
        (span : SourceSpan) (n : MirTerminatorNode) {js : List BytecodeInstruction}
        → ValidNode p f.register_count f.capture_count (length blocks) n
        → NodeCode offsets span n js
        → All (λ i. ValidOperation m f i i.opcode) js
    node-ValidOperation span (MirTerminatorNode.return v) valid NodeCode.return = (valid, tt)
    node-ValidOperation span (MirTerminatorNode.goto b) valid (NodeCode.goto {o} e) =
        ((Offsets-lt b o os e).1, tt)
    node-ValidOperation span (MirTerminatorNode.branch c t u) valid
          (NodeCode.branch {when_true} {when_false} e e') =
        ((valid.0, (Offsets-lt u when_false os e').1), ((Offsets-lt t when_true os e).1, tt))
    node-ValidOperation span (MirTerminatorNode.throw v) valid NodeCode.throw = (valid, tt)

    terminator-ValidOperation :
        (o : Option MirTerminator) (t : MirTerminator) {js : List BytecodeInstruction}
        → o ≡ some t
        → ValidTerminator p f.register_count f.capture_count (length blocks) o
        → NodeCode offsets t.span t.node js
        → All (λ i. ValidOperation m f i i.opcode) js
    terminator-ValidOperation none t e v n = absurd v
    terminator-ValidOperation (some s) t e v n =
        let same : s ≡ t = cc in
        node-ValidOperation t.span t.node
          (subst
            (λ (u : MirTerminator).
              ValidNode p f.register_count f.capture_count (length blocks) u.node)
            same v)
          n

    blocks-ValidOperation :
        {bs : List MirBasicBlock} {is : List BytecodeInstruction}
        → BlocksCode m offsets bs is
        → All (ValidBlock p f.register_count f.capture_count (length blocks)) bs
        → All (BlockReceives p) bs
        → All (λ i. ValidOperation m f i i.opcode) is
    blocks-ValidOperation BlocksCode.done v r = tt
    blocks-ValidOperation (BlocksCode.next {block} {t} {is} {js} {rest} e c n more) v r =
        All-append _ is (js ++ rest) (instructions-ValidOperation p m d f c v.0.0 r.0) (
          All-append _ js rest (terminator-ValidOperation block.terminator t e v.0.1 n)
            (blocks-ValidOperation more v.1 r.1))

    handler-Valid :
        (region : MirExceptionRegion) (k : ℕ) (h : ExceptionHandler)
        → ValidRegion p f.register_count f.capture_count (length blocks) region
        → HandlerFor blocks offsets region k h
        → ValidHandler m f h
    handler-Valid region k h v x =
        let (b, at, after) = Offsets-block k x.block x.terminator os x.found x.terminated in
        let same : b ≡ h.first_instruction = cc (at, x.starts) in
        let l = Offsets-lt k b os at in
        let target = Offsets-lt region.handler h.handler_instruction os x.target in
        let positive = size_pos x.terminator.node in
        (
          (
            (
              λ none_covered. omega (arith, none_covered, x.covers, positive),
              omega (arith, same, l),
            ),
            elim after [
              | inl next_at ↦ omega (arith, same, l, x.covers, Offsets-lt (suc k) _ os next_at)
              | inr last ↦ omega (arith, same, l, x.covers, last.1)
            ],
          ),
          (target.1, omega (arith, x.register, v.1.1.1)),
        )

    handlers-Valid :
        {region : MirExceptionRegion} {ks : List ℕ} {hs : List ExceptionHandler}
        → ValidRegion p f.register_count f.capture_count (length blocks) region
        → BlockHandlers blocks offsets region ks hs
        → All (ValidHandler m f) hs
    handlers-Valid v BlockHandlers.none_left = tt
    handlers-Valid {region} v (BlockHandlers.one {k} {h} x xs) =
        (handler-Valid region k h v x, handlers-Valid v xs)

    regions-Valid :
        {regions : List MirExceptionRegion} {hs : List ExceptionHandler}
        → All (ValidRegion p f.register_count f.capture_count (length blocks)) regions
        → RegionHandlers blocks offsets regions hs
        → All (ValidHandler m f) hs
    regions-Valid v RegionHandlers.none_left = tt
    regions-Valid v (RegionHandlers.one {hs} {more} x xs) =
        All-append _ hs more (handlers-Valid v.0 x) (regions-Valid v.1 xs)

  pub body-ValidFunction :
      (entry_block : ℕ) (blocks : List MirBasicBlock) (regions : List MirExceptionRegion)
      → ValidBody p f.register_count f.capture_count f.parameter_count entry_block blocks regions
      → f.register_count ≢ 0
      → All (BlockReceives p) blocks
      → BodyOf m blocks regions f
      → ValidFunction m f
  body-ValidFunction entry_block blocks regions v some_registers r b = record {
    registers = some_registers;
    parameters = v.room;
    instructions = blocks-ValidOperation b.starts b.code v.each_block r;
    handlers = regions-Valid b.starts v.each_region b.handlers;
    ending = BlocksCode-Ends b.code (omega (arith, v.entry));
  }

  node-DirectTarget :
      {offsets : List ℕ} {span : SourceSpan} {n : MirTerminatorNode} {js : List BytecodeInstruction}
      → NodeCode offsets span n js
      → All (λ i. DirectTarget m i i.opcode) js
  node-DirectTarget NodeCode.return = (tt, tt)
  node-DirectTarget (NodeCode.goto e) = (tt, tt)
  node-DirectTarget (NodeCode.branch e e') = (tt, (tt, tt))
  node-DirectTarget NodeCode.throw = (tt, tt)

  -- What the instructions of a body run without a closure captures nothing.
  pub blocks-DirectTarget :
      (n : ℕ) {offsets : List ℕ} {bs : List MirBasicBlock} {is : List BytecodeInstruction}
      → BlocksCode m offsets bs is
      → All (ValidBlock p f.register_count f.capture_count n) bs
      → All (BlockDirect p) bs
      → All (λ i. DirectTarget m i i.opcode) is
  blocks-DirectTarget n BlocksCode.done v r = tt
  blocks-DirectTarget n (BlocksCode.next {is} {js} {rest} e c t more) v r =
      All-append _ is (js ++ rest) (instructions-DirectTarget p m d f c v.0.0 r.0)
        (All-append _ js rest (node-DirectTarget t) (blocks-DirectTarget n more v.1 r.1))
