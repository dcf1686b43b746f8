-- ===== src/Generator/Emitting.antt =====
-- compiler/kyna_bytecode/src/generators/body_compiler.cpp: what `compileBody` emits for a valid body is the
-- code of its blocks.
use kyna.Base.{
  none, subst, Option, ℕ, ◌≡◌, refl, sym, ◌∙◌, List, [], ◌∷◌, ◌++◌, some, String, length, get_elem?,
  get_elem?-lt, get_elem?-append_last, append_assoc, append-nil, ap, All, Yields, yields,
  bind-Yields, Yields-eq, Yields-map,
}
use kyna.Bytecode.Program.{
  OpCode, BytecodeConstant, BytecodeInstruction, BytecodeFunction, BytecodeModule,
}
use kyna.Mir.Program.{
  MirTerminatorNode, MirBasicBlock, MirTerminator, MirInstructionKind, MirInstruction, MirProgram,
}
use kyna.Mir.Valid.{ValidBlock, ValidNode, ValidTerminator, ValidKind, ValidInstruction}
use kyna.Generator.{
  SourceSpan, compile_blocks, compile_node, Emission, opcode_for, string_of, emit, add_constant,
  add_arguments, add_captures, add_native, add_names, emitted, compile_constant, compile_closure,
  compile_call, compile_native, compile_member, compile_array, compile_object, compile_store_index,
  compile_store_member, compile_kind, compile_instructions,
}
use kyna.Generator.Growth.{
  Grows, Grows-refl, Grows-trans, Grows-constant, Grows-arguments, Grows-captures, Grows-native,
  Grows-names,
}
use kyna.Generator.Encoding.{
  Performs, bytecode, InstructionsCode-Grows, BlocksCode, NodeCode, Operands, InstructionsCode,
  Operands-Grows,
}
use kyna.Generator.Encoding.Choices.{opcode_for-Performs, capture_source-SourcesCode}

-- The function with more instructions.
abbrev pub extended : BytecodeFunction → List BytecodeInstruction → BytecodeFunction
extended f is = record f { instructions = f.instructions ++ is }

-- The second emission has what the first has, and behind it some code of which `P` holds.
pub record Emits (P : BytecodeModule → List BytecodeInstruction → Type 0) (e e' : Emission)
    : Type 0 where
  pub code : List BytecodeInstruction
  pub grows : Grows e.unit e'.unit
  pub functions : e'.unit.functions ≡ e.unit.functions
  pub function : e'.function ≡ extended e.function code
  pub meaning : P e'.unit code

data InstructionCode (x : MirInstruction) (k : MirInstructionKind) (m : BytecodeModule)
    : List BytecodeInstruction → Type 0 where
  coded :
      {op : OpCode} {a b : ℕ}
      → Performs k op
      → Operands m x k a b
      → InstructionCode x k m (bytecode op x.destination a b x.span ∷ [])

first_code :
    {m m' : BytecodeModule} (x : MirInstruction) {xs : List MirInstruction}
    {is js : List BytecodeInstruction}
    → Grows m m'
    → InstructionCode x x.kind m is
    → InstructionsCode m' xs js
    → InstructionsCode m' (x ∷ xs) (is ++ js)
first_code x g (coded {a} {b} w o) c = InstructionsCode.next w (Operands-Grows g x x.kind a b o) c

module _ (x : MirInstruction) (e : Emission) where
  emitted-Emits :
      (k : MirInstructionKind) (m : BytecodeModule) (a b : ℕ)
      → m.functions ≡ e.unit.functions
      → Grows e.unit m
      → Operands m x k a b
      → Yields (Emits (InstructionCode x k) e) (some (emitted x e m (opcode_for k) a b))
  unfolding emitted emit
  emitted-Emits k m a b same g o = yields (record {
    code = bytecode (opcode_for k) x.destination a b x.span ∷ [];
    grows = g;
    functions = same;
    function = refl;
    meaning = coded (opcode_for-Performs k) o;
  })

  -- The two tables that some kinds add to.
  last_arguments :
      (m : BytecodeModule)
      → get_elem? (add_arguments x.arguments m).call_arguments (length m.call_arguments)
        ≡ some x.arguments
  unfolding add_arguments
  last_arguments m = get_elem?-append_last m.call_arguments x.arguments

  last_constant :
      (m : BytecodeModule)
      → get_elem? (add_constant x.constant m).constants (length m.constants) ≡ some x.constant
  unfolding add_constant
  last_constant m = get_elem?-append_last m.constants x.constant

  native-Emits :
      (s : String)
      → x.constant ≡ BytecodeConstant.string s
      → Yields (Emits (InstructionCode x MirInstructionKind.call_native) e) (compile_native x e)
  unfolding compile_native string_of opcode_for add_native add_arguments
  native-Emits s named =
      bind-Yields (Yields-eq {P = λ t. s ≡ t} (ap string_of named) refl) λ t same.
        emitted-Emits MirInstructionKind.call_native _ _ _ refl
          (Grows-trans (Grows-arguments e.unit x.arguments) (Grows-native _ t))
          ((s, named, last_native t same), last_arguments e.unit)
    where
      last_native :
          (t : String)
          → s ≡ t
          → get_elem? (e.unit.native_functions ++ t ∷ []) (length e.unit.native_functions) ≡ some s
      last_native t same = get_elem?-append_last e.unit.native_functions t ∙ ap some (sym same)

  kind-Emits :
      (p : MirProgram) (temporaries captures : ℕ) (k : MirInstructionKind)
      → ValidKind p temporaries captures x k
      → Yields (Emits (InstructionCode x k) e) (compile_kind x e k)
  unfolding compile_kind compile_constant compile_closure compile_call compile_member compile_array
      compile_object compile_store_index compile_store_member opcode_for add_constant add_arguments
      add_captures add_names
  kind-Emits p t c MirInstructionKind.constant v =
      emitted-Emits _ _ _ _ refl (Grows-constant e.unit x.constant) (last_constant e.unit)
  kind-Emits p t c MirInstructionKind.function_reference v =
      emitted-Emits _ _ _ _ refl (Grows-refl e.unit) refl
  kind-Emits p t c MirInstructionKind.closure v =
      emitted-Emits _ _ _ _ refl (Grows-captures e.unit _) (
        refl,
        (
          _,
          get_elem?-append_last e.unit.closure_captures _,
          capture_source-SourcesCode x.capture_sources,
        ),
      )
  kind-Emits p t c MirInstructionKind.load_capture v =
      emitted-Emits _ _ _ _ refl (Grows-refl e.unit) refl
  kind-Emits p t c MirInstructionKind.store_capture v =
      emitted-Emits _ _ _ _ refl (Grows-refl e.unit) (refl, refl)
  kind-Emits p t c MirInstructionKind.call v =
      emitted-Emits _ _ _ _ refl (Grows-arguments e.unit x.arguments) (refl, last_arguments e.unit)
  kind-Emits p t c MirInstructionKind.call_indirect v =
      emitted-Emits _ _ _ _ refl (Grows-arguments e.unit x.arguments) (refl, last_arguments e.unit)
  kind-Emits p t c MirInstructionKind.call_native v = native-Emits v.0.0 v.0.1
  kind-Emits p t c MirInstructionKind.load_member v =
      emitted-Emits _ _ _ _ refl (Grows-constant e.unit x.constant) (refl, last_constant e.unit)
  kind-Emits p t c MirInstructionKind.bind_method v =
      emitted-Emits _ _ _ _ refl (Grows-refl e.unit) (refl, refl)
  kind-Emits p t c MirInstructionKind.make_array v =
      emitted-Emits _ _ _ _ refl (Grows-arguments e.unit x.arguments) (last_arguments e.unit)
  kind-Emits p t c MirInstructionKind.make_object v =
      emitted-Emits _ _ _ _ refl
        (Grows-trans (Grows-arguments e.unit x.arguments) (Grows-names _ x.names))
        (last_arguments e.unit, get_elem?-append_last e.unit.object_field_names x.names)
  kind-Emits p t c MirInstructionKind.make_instance v =
      emitted-Emits _ _ _ _ refl (Grows-arguments e.unit x.arguments) (refl, last_arguments e.unit)
  kind-Emits p t c MirInstructionKind.store_index v =
      emitted-Emits _ _ _ _ refl (Grows-arguments e.unit x.arguments) (last_arguments e.unit)
  kind-Emits p t c MirInstructionKind.store_member v =
      emitted-Emits _ _ _ _ refl
        (Grows-trans (Grows-arguments e.unit x.arguments) (Grows-constant _ x.constant))
        (last_arguments e.unit, last_constant e.unit)
  kind-Emits p t c _ v = emitted-Emits _ _ _ _ refl (Grows-refl e.unit) (refl, refl)

-- Nothing emitted, and two parts one behind the other.
Emits-nothing :
    {P : BytecodeModule → List BytecodeInstruction → Type 0} (e : Emission)
    → P e.unit []
    → Yields (Emits P e) (some e)
Emits-nothing e p = yields (record {
  code = [];
  grows = Grows-refl e.unit;
  functions = refl;
  function =
      ap (λ is. record e.function { instructions = is }) (sym (append-nil e.function.instructions));
  meaning = p;
})

Emits-then :
    {P Q R : BytecodeModule → List BytecodeInstruction → Type 0} {e e' e'' : Emission}
    (a : Emits P e e') (b : Emits Q e' e'')
    → (P e'.unit a.code → Q e''.unit b.code → R e''.unit (a.code ++ b.code))
    → Emits R e e''
Emits-then {e} {e'} {e''} a b r = record {
  code = a.code ++ b.code;
  grows = Grows-trans a.grows b.grows;
  functions = b.functions ∙ a.functions;
  function =
      b.function
      ∙ (ap (λ f. extended f b.code) a.function
          ∙ ap (λ is. record e.function { instructions = is })
              (append_assoc e.function.instructions a.code b.code));
  meaning = r a.meaning b.meaning;
}

module _ (p : MirProgram) (temporaries captures : ℕ) where
  instructions-Emits :
      (xs : List MirInstruction) (e : Emission)
      → All (ValidInstruction p temporaries captures) xs
      → Yields (Emits (λ m is. InstructionsCode m xs is) e) (compile_instructions xs e)
  unfolding compile_instructions
  instructions-Emits [] e v = Emits-nothing e InstructionsCode.done
  instructions-Emits (x ∷ xs) e v =
      bind-Yields (kind-Emits x e p temporaries captures x.kind v.0.1) λ e' a.
        Yields-map (λ e'' b. Emits-then a b λ i c. first_code x b.grows i c)
          (instructions-Emits xs e' v.1)

  -- A terminator whose blocks have offsets.
  node-Emits :
      (offsets : List ℕ) (span : SourceSpan) (n : MirTerminatorNode) (e : Emission)
      → ValidNode p temporaries captures (length offsets) n
      → Yields (Emits (λ m js. NodeCode offsets span n js) e) (compile_node offsets span n e)
  unfolding compile_node emit
  node-Emits offsets span (MirTerminatorNode.return v) e valid = yields (record {
    code = _;
    grows = Grows-refl e.unit;
    functions = refl;
    function = refl;
    meaning = NodeCode.return;
  })
  node-Emits offsets span (MirTerminatorNode.goto b) e valid =
      let (o, at) = get_elem?-lt offsets b valid in
      bind-Yields (Yields-eq {P = λ x. o ≡ x} at refl) λ x same. yields (record {
        code = _;
        grows = Grows-refl e.unit;
        functions = refl;
        function = refl;
        meaning = NodeCode.goto (at ∙ ap some same);
      })
  node-Emits offsets span (MirTerminatorNode.branch c t f) e valid =
      let (o, at) = get_elem?-lt offsets f valid.1.1 in
      let (q, at') = get_elem?-lt offsets t valid.1.0 in
      bind-Yields (Yields-eq {P = λ x. o ≡ x} at refl) λ x same.
        bind-Yields (Yields-eq {P = λ y. q ≡ y} at' refl) λ y same'. yields (record {
          code = _;
          grows = Grows-refl e.unit;
          functions = refl;
          function =
              ap (λ is. record e.function { instructions = is })
                (append_assoc e.function.instructions _ _);
          meaning = NodeCode.branch (at' ∙ ap some same') (at ∙ ap some same);
        })
  node-Emits offsets span (MirTerminatorNode.throw v) e valid = yields (record {
    code = _;
    grows = Grows-refl e.unit;
    functions = refl;
    function = refl;
    meaning = NodeCode.throw;
  })

  pub terminator-Yields :
      (n : ℕ) (o : Option MirTerminator)
      → ValidTerminator p temporaries captures n o
      → Yields (λ t. (o ≡ some t) × ValidNode p temporaries captures n t.node) o
  terminator-Yields n none v = absurd v
  terminator-Yields n (some t) v = yields (refl, v)

  abbrev NodeThen :
      List ℕ
      → MirTerminator
      → List MirBasicBlock
      → BytecodeModule
      → List BytecodeInstruction
      → Type 0
  NodeThen offsets t blocks m is =
      (js : List BytecodeInstruction) × (rest : List BytecodeInstruction) × (is ≡ js ++ rest)
      × NodeCode offsets t.span t.node js
      × BlocksCode m offsets blocks rest

  pub blocks-Emits :
      (offsets : List ℕ) (blocks : List MirBasicBlock) (e : Emission)
      → All (ValidBlock p temporaries captures (length offsets)) blocks
      → Yields (Emits (λ m is. BlocksCode m offsets blocks is) e) (compile_blocks offsets blocks e)
  unfolding compile_blocks
  blocks-Emits offsets [] e v = Emits-nothing e BlocksCode.done
  blocks-Emits offsets (block ∷ blocks) e v =
      bind-Yields (instructions-Emits block.instructions e v.0.0) λ e1 a.
        bind-Yields (terminator-Yields (length offsets) block.terminator v.0.1) λ t terminated.
          bind-Yields (node-Emits offsets t.span t.node e1 terminated.1) λ e2 b.
            Yields-map
              (λ e3 c.
                let both : Emits (NodeThen offsets t blocks) e1 e3 =
                  Emits-then b c λ n rest. (b.code, c.code, refl, n, rest) in
                Emits-then a both λ i more.
                  subst (λ is. BlocksCode e3.unit offsets (block ∷ blocks) (a.code ++ is))
                    (sym (more.2))
                    (BlocksCode.next terminated.0 (InstructionsCode-Grows both.grows i) (more.3)
                      (more.4)))
              (blocks-Emits offsets blocks e2 v.1)
