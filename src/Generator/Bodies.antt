-- ===== src/Generator/Bodies.antt =====
-- compiler/kyna_bytecode/src/generators/body_compiler.cpp: the handlers of a body, and `compileBody`.
use kyna.Base.{
  sym, Yields-value, lt-get_elem?, All-get_elem?, ℕ, zero, suc, ◌+◌, ◌<◌, ◌≡◌, refl, ◌∙◌, subst,
  List, [], ◌∷◌, ◌++◌, some, length, get_elem?, get_elem?-lt, ltb, if◌then◌else◌, arith, ap, All,
  Yields, yields, bind-Yields, Yields-eq, Yields-if, inl, inr, ◌⊎◌,
}
use kyna.Bytecode.Program.{BytecodeInstruction, ExceptionHandler, BytecodeFunction, BytecodeModule}
use kyna.Mir.Program.{MirTerminator, MirExceptionRegion, MirBasicBlock, MirProgram}
use kyna.Mir.Valid.{ValidBlock, ValidRegion}
use kyna.Generator.{
  add_handlers, compile_body, Emission, block_handler, block_handlers, region_handlers,
}
use kyna.Generator.Growth.{Grows}
use kyna.Generator.Encoding.{places, BlocksCode}
use kyna.Generator.Emitting.{blocks-Emits, terminator-Yields}
use kyna.Generator.Offsets.{
  Offsets-length, block_offsets-Offsets, Offsets, done, next, length-Offsets,
}

-- The handler protects the code of the block with the number, and its own code is the region's.
pub record HandlerFor (blocks : List MirBasicBlock) (offsets : List ℕ) (region : MirExceptionRegion)
    (k : ℕ) (h : ExceptionHandler) : Type 0 where
  pub block : MirBasicBlock
  pub terminator : MirTerminator
  pub found : get_elem? blocks k ≡ some block
  pub terminated : block.terminator ≡ some terminator
  pub starts : get_elem? offsets k ≡ some h.first_instruction
  pub covers : h.instruction_count ≡ length block.instructions + places terminator.node
  pub target : get_elem? offsets region.handler ≡ some h.handler_instruction
  pub register : h.error_register ≡ region.error_destination

-- One handler for each protected block, in order.
pub data BlockHandlers (blocks : List MirBasicBlock) (offsets : List ℕ)
    (region : MirExceptionRegion) : List ℕ → List ExceptionHandler → Type 0 where
  none_left : BlockHandlers blocks offsets region [] []
  one :
      {k : ℕ} {ks : List ℕ} {h : ExceptionHandler} {hs : List ExceptionHandler}
      → HandlerFor blocks offsets region k h
      → BlockHandlers blocks offsets region ks hs
      → BlockHandlers blocks offsets region (k ∷ ks) (h ∷ hs)

pub data RegionHandlers (blocks : List MirBasicBlock) (offsets : List ℕ)
    : List MirExceptionRegion → List ExceptionHandler → Type 0 where
  none_left : RegionHandlers blocks offsets [] []
  one :
      {region : MirExceptionRegion} {regions : List MirExceptionRegion}
      {hs more : List ExceptionHandler}
      → BlockHandlers blocks offsets region region.protected_blocks hs
      → RegionHandlers blocks offsets regions more
      → RegionHandlers blocks offsets (region ∷ regions) (hs ++ more)

-- Where a block starts, and where the next one does.
pub Offsets-block :
    {o stop : ℕ} {blocks : List MirBasicBlock} {os : List ℕ} (k : ℕ) (block : MirBasicBlock)
    (t : MirTerminator)
    → Offsets o blocks os stop
    → get_elem? blocks k ≡ some block
    → block.terminator ≡ some t
    → let size = length block.instructions + places t.node in
      (b : ℕ) × (get_elem? os k ≡ some b)
      × ((get_elem? os (suc k) ≡ some (b + size)) ⊎ ((length os ≡ suc k) × (stop ≡ b + size)))
Offsets-block k block t done at e = absurd (cc)
Offsets-block {o} {stop} zero block t (next {block = first} {blocks} {os} {t = s} e' rest) at e =
    let same : length first.instructions + places s.node
        ≡ length block.instructions + places t.node =
      sizes first s block t at e' e in
    (o, refl, go (omega (arith, same)) rest)
  where
    sizes :
        (first : MirBasicBlock) (s : MirTerminator) (block : MirBasicBlock) (t : MirTerminator)
        → some first ≡ some block
        → first.terminator ≡ some s
        → block.terminator ≡ some t
        → length first.instructions + places s.node ≡ length block.instructions + places t.node
    sizes first s block t at e' e = cc

    go :
        {n o' stop' : ℕ} {bs : List MirBasicBlock} {os' : List ℕ}
        → o' ≡ n
        → Offsets o' bs os' stop'
        → (get_elem? os' 0 ≡ some n) ⊎ ((suc (length os') ≡ 1) × (stop' ≡ n))
    go same done = inr (refl, same)
    go same (next e rest) = inl (ap some same)
Offsets-block (suc k) block t (next e' rest) at e =
    let (b, found, after) = Offsets-block k block t rest at e in
    (b, found, elim after [ inl x ↦ inl x | inr x ↦ inr (ap suc x.0, x.1) ])

module _ (p : MirProgram) (temporaries captures : ℕ) {blocks : List MirBasicBlock}
    {offsets : List ℕ} {stop : ℕ} (os : Offsets 0 blocks offsets stop)
    (valid : All (ValidBlock p temporaries captures (length blocks)) blocks) where
  block-Yields :
      (k : ℕ)
      → k < length blocks
      → (block : MirBasicBlock) × (t : MirTerminator) × (get_elem? blocks k ≡ some block)
        × (block.terminator ≡ some t)
  block-Yields k l =
      let (block, at) = get_elem?-lt blocks k l in
      let v : ValidBlock p temporaries captures (length blocks) block =
        All-get_elem? _ blocks k block valid at in
      let (t, e, _) =
        Yields-value
          (terminator-Yields p temporaries captures (length blocks) block.terminator v.1) in
      (block, t, at, e)

  offset-Yields : (k : ℕ) → k < length blocks → (o : ℕ) × (get_elem? offsets k ≡ some o)
  offset-Yields k l = get_elem?-lt offsets k (omega (arith, length-Offsets os))

  handler-Yields :
      (region : MirExceptionRegion) (k : ℕ)
      → ValidRegion p temporaries captures (length blocks) region
      → k < length blocks
      → Yields (HandlerFor blocks offsets region k) (block_handler offsets stop region k)
  unfolding block_handler
  handler-Yields region k v l =
      let (block, t, found, terminated) = block-Yields k l in
      let (b, at, after) = Offsets-block k block t os found terminated in
      let (h, at') = offset-Yields region.handler v.1.1.0 in
      let size = length block.instructions + places t.node in
      bind-Yields (Yields-eq {P = λ x. b ≡ x} at refl) λ x same.
        bind-Yields (Yields-eq {P = λ y. h ≡ y} at' refl) λ y same'.
          bind-Yields (stops k b size after) λ s follows. yields (record {
            block = block;
            terminator = t;
            found = found;
            terminated = terminated;
            starts = at ∙ ap some same;
            covers = omega (arith, follows, same);
            target = at' ∙ ap some same';
            register = refl;
          })
    where
      stops :
          (k b size : ℕ)
          → (get_elem? offsets (suc k) ≡ some (b + size))
            ⊎ ((length offsets ≡ suc k) × (stop ≡ b + size))
          → Yields
              (λ s. s ≡ b + size)
              (if ltb (k + 1) (length offsets) then get_elem? offsets (k + 1) else some stop)
      stops k b size (inl at) =
          Yields-if (ltb (k + 1) (length offsets))
            (λ _.
              Yields-eq (subst (λ i. get_elem? offsets i ≡ some (b + size)) (omega arith) at) refl)
            (λ e. absurd (ground (arith, e, lt-get_elem? offsets (suc k) (b + size) at)))
      stops k b size (inr x) =
          Yields-if (ltb (k + 1) (length offsets)) (λ e. absurd (ground (arith, e, x.0)))
            (λ _. yields x.1)

  handlers-Yields :
      (region : MirExceptionRegion) (ks : List ℕ)
      → ValidRegion p temporaries captures (length blocks) region
      → All (λ k. k < length blocks) ks
      → Yields (BlockHandlers blocks offsets region ks) (block_handlers offsets stop region ks)
  unfolding block_handlers
  handlers-Yields region [] v l = yields BlockHandlers.none_left
  handlers-Yields region (k ∷ ks) v l =
      bind-Yields (handler-Yields region k v l.0) λ h x.
        bind-Yields (handlers-Yields region ks v l.1) λ hs xs. yields (BlockHandlers.one x xs)

  regions-Yields :
      (regions : List MirExceptionRegion)
      → All (ValidRegion p temporaries captures (length blocks)) regions
      → Yields (RegionHandlers blocks offsets regions) (region_handlers offsets stop regions)
  unfolding region_handlers
  regions-Yields [] v = yields RegionHandlers.none_left
  regions-Yields (region ∷ regions) v =
      bind-Yields (handlers-Yields region region.protected_blocks v.0 v.0.1.0)
        λ hs x. bind-Yields (regions-Yields regions v.1) λ more xs. yields (RegionHandlers.one x xs)

-- The function has the code of the blocks, and the handlers of the regions.
pub record BodyOf (m : BytecodeModule) (blocks : List MirBasicBlock)
    (regions : List MirExceptionRegion) (f : BytecodeFunction) : Type 0 where
  pub offsets : List ℕ
  pub starts : Offsets 0 blocks offsets (length f.instructions)
  pub code : BlocksCode m offsets blocks f.instructions
  pub handlers : RegionHandlers blocks offsets regions f.exception_handlers

-- The function has the head of the other, and a body.
abbrev pub with_body :
    BytecodeFunction → List BytecodeInstruction → List ExceptionHandler → BytecodeFunction
with_body f is hs = record f { instructions = is; exception_handlers = hs }

pub record Compiled (blocks : List MirBasicBlock) (regions : List MirExceptionRegion)
    (e e' : Emission) : Type 0 where
  pub grows : Grows e.unit e'.unit
  pub functions : e'.unit.functions ≡ e.unit.functions
  pub head :
      e'.function ≡ with_body e.function e'.function.instructions e'.function.exception_handlers
  pub body : BodyOf e'.unit blocks regions e'.function

-- `compileBody`, into a function without instructions and handlers.
pub compile_body-Compiled :
    (p : MirProgram) (temporaries captures : ℕ) (blocks : List MirBasicBlock)
    (regions : List MirExceptionRegion) (e : Emission)
    → All (ValidBlock p temporaries captures (length blocks)) blocks
    → All (ValidRegion p temporaries captures (length blocks)) regions
    → e.function.instructions ≡ []
    → e.function.exception_handlers ≡ []
    → Yields (Compiled blocks regions e) (compile_body blocks regions e)
unfolding compile_body add_handlers
compile_body-Compiled p temporaries captures blocks regions e v r no_code no_handlers =
    bind-Yields (block_offsets-Offsets p temporaries captures (length blocks) 0 blocks v) λ os x.
      bind-Yields
        (blocks-Emits p temporaries captures os blocks e (
          subst (λ n. All (ValidBlock p temporaries captures n) blocks) (sym (length-Offsets x.1))
            v))
        λ e' a.
          let instructions : e'.function.instructions ≡ a.code =
            ap (λ f. f.instructions) a.function ∙ ap (λ is. is ++ a.code) no_code in
          let code : BlocksCode e'.unit os blocks e'.function.instructions =
            subst (λ is. BlocksCode e'.unit os blocks is) (sym instructions) a.meaning in
          let starts : Offsets 0 blocks os (length e'.function.instructions) =
            subst (λ n. Offsets 0 blocks os n) (omega (arith, Offsets-length x.1 code)) x.1 in
          let handlers : e'.function.exception_handlers ≡ [] =
            ap (λ f. f.exception_handlers) a.function ∙ no_handlers in
          bind-Yields (regions-Yields p temporaries captures starts v regions r) λ hs y.
            yields (record {
              grows = a.grows;
              functions = a.functions;
              head =
                  ap
                    (λ f.
                      with_body f e'.function.instructions (e'.function.exception_handlers ++ hs))
                    a.function;
              body = record {
                offsets = os;
                starts = starts;
                code = code;
                handlers =
                    subst (λ ks. RegionHandlers blocks os regions (ks ++ hs)) (sym handlers) y;
              };
            })
