-- ===== src/Generator/Offsets.antt =====
-- compiler/kyna_bytecode/src/generators/body_compiler.cpp: `blockOffsets` says where the code of each block
-- starts.
use kyna.Base.{
  ℕ, zero, suc, ◌+◌, ◌≤◌, ◌<◌, ◌≡◌, refl, sym, ◌∙◌, subst, List, [], ◌∷◌, ◌++◌, some, length,
  get_elem?, drop, arith, ap, append_assoc, length-append, All, Yields, yields, bind-Yields,
}
use kyna.Bytecode.Program.{BytecodeInstruction, BytecodeModule}
use kyna.Mir.Program.{MirTerminatorNode, MirTerminator, MirBasicBlock, MirProgram}
use kyna.Mir.Valid.{ValidBlock}
use kyna.Generator.{terminator_size, block_offsets}
use kyna.Generator.Encoding.{
  places, InstructionsCode, NodeCode, BlocksCode, length-InstructionsCode, length-NodeCode,
}
use kyna.Generator.Encoding.Choices.{terminator_size-places}
use kyna.Generator.Emitting.{terminator-Yields}

-- The offsets of the blocks from the first offset on, and the offset behind them.
pub data Offsets : ℕ → List MirBasicBlock → List ℕ → ℕ → Type 0 where
  done : {o : ℕ} → Offsets o [] [] o
  next :
      {o stop : ℕ} {block : MirBasicBlock} {blocks : List MirBasicBlock} {os : List ℕ}
      {t : MirTerminator}
      → block.terminator ≡ some t
      → Offsets (o + length block.instructions + places t.node) blocks os stop
      → Offsets o (block ∷ blocks) (o ∷ os) stop

pub block_offsets-Offsets :
    (p : MirProgram) (temporaries captures n o : ℕ) (blocks : List MirBasicBlock)
    → All (ValidBlock p temporaries captures n) blocks
    → Yields (λ os. (stop : ℕ) × Offsets o blocks os stop) (block_offsets o blocks)
unfolding block_offsets
block_offsets-Offsets p t c n o [] v = yields (o, Offsets.done)
block_offsets-Offsets p temporaries captures n o (block ∷ blocks) v =
    bind-Yields (terminator-Yields p temporaries captures n block.terminator v.0.1) λ t terminated.
      bind-Yields
        (block_offsets-Offsets p temporaries captures n
          (o + length block.instructions + terminator_size t.node) blocks v.1)
        λ os rest. yields (
          rest.0,
          Offsets.next terminated.0 (
              subst (λ k. Offsets (o + length block.instructions + k) blocks os (rest.0))
                (terminator_size-places t.node) rest.1),
        )

pub length-Offsets :
    {o stop : ℕ} {blocks : List MirBasicBlock} {os : List ℕ}
    → Offsets o blocks os stop
    → length os ≡ length blocks
length-Offsets done = refl
length-Offsets (next e rest) = ap suc (length-Offsets rest)

pub size_pos : (n : MirTerminatorNode) → 0 < places n
size_pos (MirTerminatorNode.branch _ _ _) = omega arith
size_pos _ = omega arith

Offsets-le :
    {o stop : ℕ} {blocks : List MirBasicBlock} {os : List ℕ} → Offsets o blocks os stop → o ≤ stop
Offsets-le done = omega arith
Offsets-le (next {t} e rest) = omega (arith, Offsets-le rest)

-- Each block starts before the end, and before the block behind it.
pub Offsets-lt :
    {o stop : ℕ} {blocks : List MirBasicBlock} {os : List ℕ} (k b : ℕ)
    → Offsets o blocks os stop
    → get_elem? os k ≡ some b
    → (o ≤ b) × (b < stop)
Offsets-lt k b done at = absurd (cc)
Offsets-lt zero b (next {t} e rest) at = ground (arith, Offsets-le rest, size_pos t.node)
Offsets-lt (suc k) b (next {t} e rest) at = omega (arith, Offsets-lt k b rest at)

pub Offsets-next :
    {o stop : ℕ} {blocks : List MirBasicBlock} {os : List ℕ} (k b c : ℕ)
    → Offsets o blocks os stop
    → get_elem? os k ≡ some b
    → get_elem? os (suc k) ≡ some c
    → b < c
Offsets-next k b c done at at' = absurd (cc)
Offsets-next zero b c (next {t} e rest) at at' =
    ground (arith, Offsets-lt zero c rest at', size_pos t.node)
Offsets-next (suc k) b c (next e rest) at at' = Offsets-next k b c rest at at'

block_size :
    {m : BytecodeModule} {offsets : List ℕ} {block : MirBasicBlock} {t : MirTerminator}
    {is js : List BytecodeInstruction} (s : MirTerminator)
    → block.terminator ≡ some t
    → block.terminator ≡ some s
    → InstructionsCode m block.instructions is
    → NodeCode offsets t.span t.node js
    → length (is ++ js) ≡ length block.instructions + places s.node
block_size {t} {is} {js} s e e' c n = omega (
  arith,
  length-append is js,
  length-InstructionsCode c,
  length-NodeCode n,
  ap (λ u. places u.node) (same s t (sym e' ∙ e)),
)
  where
    same : (s t : MirTerminator) → some s ≡ some t → s ≡ t
    same s t e = cc

-- The offset behind the blocks is that behind their code.
pub Offsets-length :
    {m : BytecodeModule} {offsets os : List ℕ} {o stop : ℕ} {blocks : List MirBasicBlock}
    {is : List BytecodeInstruction}
    → Offsets o blocks os stop
    → BlocksCode m offsets blocks is
    → stop ≡ o + length is
Offsets-length done BlocksCode.done = omega arith
Offsets-length (next {t = s} e rest) (BlocksCode.next {is} {js} {rest = more} e' c n code) = omega (
  arith,
  Offsets-length rest code,
  block_size s e' e c n,
  length-append is (js ++ more),
  length-append js more,
  length-append is js,
)

-- The code of the block stands in the instructions at the offset: its instructions, its terminator, and
-- what follows.
pub record BlockAt (m : BytecodeModule) (offsets : List ℕ) (instructions : List BytecodeInstruction)
    (block : MirBasicBlock) (offset : ℕ) : Type 0 where
  pub terminator : MirTerminator
  pub code : List BytecodeInstruction
  pub ending : List BytecodeInstruction
  pub rest : List BytecodeInstruction
  pub terminated : block.terminator ≡ some terminator
  pub at : drop offset instructions ≡ code ++ (ending ++ rest)
  pub instructions_code : InstructionsCode m block.instructions code
  pub ending_code : NodeCode offsets terminator.span terminator.node ending

drop-append {ℓ} : {A : Type ℓ} (xs ys : List A) (n : ℕ) → length xs ≡ n → drop n (xs ++ ys) ≡ ys
drop-append [] ys zero e = refl
drop-append [] ys (suc n) e = absurd (omega (arith, e))
drop-append (x ∷ xs) ys zero e = absurd (omega (arith, e))
drop-append (x ∷ xs) ys (suc n) e = drop-append xs ys n (omega (arith, e))

pub BlocksCode-at :
    {m : BytecodeModule} {offsets os : List ℕ} {o stop : ℕ} {blocks : List MirBasicBlock}
    {is : List BytecodeInstruction} (before : List BytecodeInstruction) (k : ℕ)
    (block : MirBasicBlock)
    → length before ≡ o
    → Offsets o blocks os stop
    → BlocksCode m offsets blocks is
    → get_elem? blocks k ≡ some block
    → (b : ℕ) × (get_elem? os k ≡ some b) × BlockAt m offsets (before ++ is) block b
BlocksCode-at before k block l done BlocksCode.done at = absurd (cc)
BlocksCode-at {m} {offsets} {o} before zero block l (next e rest)
      (BlocksCode.next {block = first} {t} {is} {js} {rest = more} e' c n code) at =
    (
      o,
      refl,
      subst (λ x. BlockAt m offsets (before ++ (is ++ (js ++ more))) x o) (cc)
          (record {
            terminator = t;
            code = is;
            ending = js;
            rest = more;
            terminated = e';
            at = drop-append before (is ++ (js ++ more)) o l;
            instructions_code = c;
            ending_code = n;
          }),
    )
BlocksCode-at {m} {offsets} {o} before (suc k) block l (next {t = s} e rest)
      (BlocksCode.next {is} {js} {rest = more} e' c n code) at =
    let (b, found, x) =
      BlocksCode-at (before ++ (is ++ js)) k block
        (omega (arith, l, block_size s e' e c n, length-append before (is ++ js))) rest code at in
    (
      b,
      found,
      subst (λ xs. BlockAt m offsets xs block b)
          (append_assoc before (is ++ js) more ∙ ap (λ ys. before ++ ys) (append_assoc is js more))
          x,
    )
