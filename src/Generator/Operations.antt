-- ===== src/Generator/Operations.antt =====
-- compiler/kyna_bytecode/src/generators/body_compiler.cpp: the code of a valid instruction is a valid
-- operation, in a module that declares the functions and the classes of the program.
use kyna.Base.{
  sym, subst, ◌-◌, ℕ, suc, ◌+◌, ◌<◌, ◌≡◌, ◌≢◌, refl, ◌∙◌, List, [], ◌∷◌, some, String, length,
  get_elem?, get_elem?-lt, lt-get_elem?, arith, ap, All,
}
use kyna.Bytecode.Program.{
  BytecodeConstant, BytecodeInstruction, BytecodeFunction, CaptureKind, BytecodeCaptureSource,
  BytecodeModule,
}
use kyna.Bytecode.Validator.Operation.{parameter_count_at, capture_count_at}
use kyna.Bytecode.Valid.{CaptureFits, ValidOperation, Entry}
use kyna.Mir.Program.{
  MirInstructionKind, MirCaptureKind, MirCaptureSource, MirInstruction, MirProgram,
}
use kyna.Mir.Verifier.{parameter_count, capture_count}
use kyna.Mir.Valid.{Target, SourceFits, ValidKind, ValidInstruction}
use kyna.Mir.Valid.Counts.{parameters_iff, captures_iff}
use kyna.Bytecode.Valid.Counts as Bytecode
use kyna.Generator.{opcode_for}
use kyna.Generator.Encoding.{Operands, InstructionsCode, SourcesCode, SameKind, bytecode}
use kyna.Generator.Encoding.Choices.{Performs-opcode}
use kyna.Vm.Safe.Fits.{Uncaptured}
use kyna.Vm.Safe.Targets.{DirectTarget}

-- The module has the functions of the program behind that of its body, and its classes.
pub record Declares (p : MirProgram) (m : BytecodeModule) : Type 0 where
  pub count : length m.functions ≡ length p.functions + 1
  pub parameters : (k : ℕ) → parameter_count_at m.functions k ≡ parameter_count p k
  pub captures : (k : ℕ) → capture_count_at m.functions k ≡ capture_count p k
  pub classes : length m.classes ≡ length p.classes
  pub entry : m.entry_function ≡ 0

-- What the validator asks of an instruction and the verifier does not: a bound method takes its receiver.
abbrev pub Receives : MirProgram → MirInstruction → MirInstructionKind → Type 0
Receives p x MirInstructionKind.bind_method = parameter_count p x.function ≢ 0
Receives p x _ = Unit

-- A function that the instruction runs without a closure captures nothing.
abbrev pub Direct : MirProgram → MirInstruction → MirInstructionKind → Type 0
Direct p x MirInstructionKind.function_reference = capture_count p x.function ≡ 0
Direct p x MirInstructionKind.call = capture_count p x.function ≡ 0
Direct p x MirInstructionKind.bind_method = capture_count p x.function ≡ 0
Direct p x _ = Unit

module _ (p : MirProgram) (m : BytecodeModule) (d : Declares p m) (f : BytecodeFunction) where
  kind_fits :
      (kind : MirCaptureKind) (kind' : CaptureKind) (index index' : ℕ)
      → SameKind kind kind'
      → index' ≡ index
      → elim kind as (λ _. Type 0) [
        | MirCaptureKind.local ↦ index < f.register_count
        | MirCaptureKind.capture ↦ index < f.capture_count
      ]
      → elim kind' as (λ _. Type 0) [
        | CaptureKind.local ↦ index' < f.register_count
        | CaptureKind.capture ↦ index' < f.capture_count
      ]
  kind_fits MirCaptureKind.local CaptureKind.local index index' k e x = omega (arith, e, x)
  kind_fits MirCaptureKind.capture CaptureKind.capture index index' k e x = omega (arith, e, x)
  kind_fits MirCaptureKind.local CaptureKind.capture index index' k e x = absurd k
  kind_fits MirCaptureKind.capture CaptureKind.local index index' k e x = absurd k

  sources_fit :
      (ss : List MirCaptureSource) (bs : List BytecodeCaptureSource)
      → SourcesCode ss bs
      → All (SourceFits p f.register_count f.capture_count) ss
      → (length bs ≡ length ss) × All (CaptureFits m f) bs
  sources_fit [] [] c v = (refl, tt)
  sources_fit [] (b ∷ bs) c v = absurd c
  sources_fit (s ∷ ss) [] c v = absurd c
  sources_fit (s ∷ ss) (b ∷ bs) c v =
      let (same, fits) = sources_fit ss bs c.1 v.1 in
      (ap suc same, (kind_fits s.kind b.kind s.index b.index c.0.0 c.0.1 v.0, fits))

  -- The function that an operand names.
  in_module :
      (x : MirInstruction) (a : ℕ)
      → Target p x.function
      → a ≡ x.function
      → (a < length m.functions) × (a ≢ m.entry_function)
  in_module x a target e =
      (omega (arith, target.1, e, d.count), λ same. target.0 (omega (arith, same, e, d.entry)))

  -- The function of the module that an operand names has the counts of that of the program.
  parameters_of :
      (x : MirInstruction) (a n : ℕ)
      → Target p x.function
      → a ≡ x.function
      → Entry p.functions (x.function - 1) (λ f. n ≡ f.parameter_count)
      → Entry m.functions a (λ g. n ≡ g.parameter_count)
  parameters_of x a n target e same =
      (Bytecode.parameters_iff m.functions a (λ k. n ≡ k) (in_module x a target e).0).0 (
        (parameters_iff p x.function n target).1 same
        ∙ sym (d.parameters a ∙ ap (parameter_count p) e))

  captures_of :
      (x : MirInstruction) (a n : ℕ)
      → Target p x.function
      → a ≡ x.function
      → Entry p.functions (x.function - 1) (λ f. n ≡ length f.captures)
      → Entry m.functions a (λ g. n ≡ g.capture_count)
  captures_of x a n target e same =
      (Bytecode.captures_iff m.functions a (λ k. n ≡ k) (in_module x a target e).0).0
        ((captures_iff p x.function n target).1 same ∙ sym (d.captures a ∙ ap (capture_count p) e))

  receiver_of :
      (x : MirInstruction) (a : ℕ)
      → Target p x.function
      → a ≡ x.function
      → parameter_count p x.function ≢ 0
      → Entry m.functions a (λ g. g.parameter_count ≢ 0)
  receiver_of x a target e r =
      (Bytecode.parameters_iff m.functions a (λ k. k ≢ 0) (in_module x a target e).0).0
        λ z. r (sym (d.parameters a ∙ ap (parameter_count p) e) ∙ z)

  named :
      (x : MirInstruction) (a : ℕ) (s : String)
      → x.constant ≡ BytecodeConstant.string s
      → get_elem? m.constants a ≡ some x.constant
      → get_elem? m.constants a ≡ some (BytecodeConstant.string s)
  named x a s e o = o ∙ ap some e

  module _ (x : MirInstruction) (a b : ℕ) (inside : x.destination < f.register_count) where
    abbrev Goal : MirInstructionKind → Type 0
    Goal k = ValidOperation m f (bytecode (opcode_for k) x.destination a b x.span) (opcode_for k)

    operation :
        (k : MirInstructionKind)
        → ValidKind p f.register_count f.capture_count x k
        → Receives p x k
        → Operands m x k a b
        → Goal k
    unfolding opcode_for
    operation MirInstructionKind.constant v r o = (inside, lt-get_elem? m.constants a x.constant o)
    operation MirInstructionKind.function_reference v r o =
        let (l, other) = in_module x a v o in (inside, (l, other))
    operation MirInstructionKind.closure v r o =
        let (l, other) = in_module x a v.0.0 o.0 in
        let (same, fits) = sources_fit x.capture_sources (o.1.0) (o.1.2) v.1 in
        let count = captures_of x a (length (o.1.0)) v.0.0 o.0 (
          subst (λ n. Entry p.functions (x.function - 1) (λ f. n ≡ length f.captures)) (sym same)
            v.0.1) in
        (inside, (l, (other, (o.1.0, o.1.1, (count, fits)))))
    operation MirInstructionKind.load_capture v r o = (inside, omega (arith, v, o))
    operation MirInstructionKind.store_capture v r o =
        (inside, (omega (arith, v, o), omega (arith, v, o)))
    operation MirInstructionKind.move v r o = (inside, omega (arith, v, o))
    operation MirInstructionKind.negate v r o = (inside, omega (arith, v, o))
    operation MirInstructionKind.not v r o = (inside, omega (arith, v, o))
    operation MirInstructionKind.call v r o =
        let (l, other) = in_module x a v.0.0 o.0 in
        (inside, (l, (other, (x.arguments, o.1, (parameters_of x a _ v.0.0 o.0 v.0.1, v.1)))))
    operation MirInstructionKind.call_indirect v r o =
        (inside, (omega (arith, v.0, o.0), (x.arguments, o.1, v.1)))
    operation MirInstructionKind.call_native v r o =
        (inside, (lt-get_elem? m.native_functions a (o.0.0) (o.0.2), (x.arguments, o.1, v.1)))
    operation MirInstructionKind.load_member v r o =
        (inside, (omega (arith, v.0, o.0), (v.1.0, named x b (v.1.0) (v.1.1) o.1)))
    operation MirInstructionKind.bind_method v r o =
        let (l, other) = in_module x b v.1 o.1 in
        (inside, (omega (arith, v.0, o.0), ((l, other), receiver_of x b v.1 o.1 r)))
    operation MirInstructionKind.make_array v r o = (inside, (x.arguments, o, v))
    operation MirInstructionKind.make_object v r o =
        (inside, (x.arguments, o.0, (v.0, (x.names, o.1, v.1))))
    operation MirInstructionKind.make_instance v r o =
        (inside, (omega (arith, v.1, o.0, d.classes), (x.arguments, o.1, v.0)))
    operation MirInstructionKind.store_index v r o = (inside, (x.arguments, o, (v.0, (v.1, tt))))
    operation MirInstructionKind.store_member v r o =
        (inside, (x.arguments, o.0, (v.0.0, (v.0.1, (v.1.0, named x b (v.1.0) (v.1.1) o.1)))))
    operation MirInstructionKind.add v r o = (inside, (omega (arith, v, o), omega (arith, v, o)))
    operation MirInstructionKind.subtract v r o =
        (inside, (omega (arith, v, o), omega (arith, v, o)))
    operation _ v r o = (inside, (omega (arith, v, o), omega (arith, v, o)))

    uncaptured :
        (k : ℕ)
        → k ≡ x.function
        → Target p x.function
        → capture_count p x.function ≡ 0
        → Uncaptured m k
    unfolding capture_count_at
    uncaptured k e target none_captured =
        let (g, at) = get_elem?-lt m.functions k (omega (arith, target.1, e, d.count)) in
        let count : capture_count_at m.functions k ≡ g.capture_count =
          rw (at, capture_count_at) refl in
        (g, at, omega (arith, count, d.captures k ∙ ap (capture_count p) e, none_captured))

    direct :
        (k : MirInstructionKind)
        → ValidKind p f.register_count f.capture_count x k
        → Direct p x k
        → Operands m x k a b
        → DirectTarget m (bytecode (opcode_for k) x.destination a b x.span) (opcode_for k)
    unfolding opcode_for
    direct MirInstructionKind.function_reference v e o = uncaptured a o v e
    direct MirInstructionKind.call v e o = uncaptured a o.0 v.0.0 e
    direct MirInstructionKind.bind_method v e o = uncaptured b o.1 v.1 e
    direct _ v e o = tt

  pub instructions-ValidOperation :
      {xs : List MirInstruction} {is : List BytecodeInstruction}
      → InstructionsCode m xs is
      → All (ValidInstruction p f.register_count f.capture_count) xs
      → All (λ x. Receives p x x.kind) xs
      → All (λ i. ValidOperation m f i i.opcode) is
  instructions-ValidOperation InstructionsCode.done v r = tt
  instructions-ValidOperation (InstructionsCode.next {x} {a} {b} w o c) v r = (
    subst (λ op. ValidOperation m f (bytecode op x.destination a b x.span) op) (Performs-opcode w)
        (operation x a b v.0.0 x.kind v.0.1 r.0 o),
    instructions-ValidOperation c v.1 r.1,
  )

  pub instructions-DirectTarget :
      {xs : List MirInstruction} {is : List BytecodeInstruction}
      → InstructionsCode m xs is
      → All (ValidInstruction p f.register_count f.capture_count) xs
      → All (λ x. Direct p x x.kind) xs
      → All (λ i. DirectTarget m i i.opcode) is
  instructions-DirectTarget InstructionsCode.done v r = tt
  instructions-DirectTarget (InstructionsCode.next {x} {a} {b} w o c) v r = (
    subst (λ op. DirectTarget m (bytecode op x.destination a b x.span) op) (Performs-opcode w)
        (direct x a b v.0.0 x.kind v.0.1 r.0 o),
    instructions-DirectTarget c v.1 r.1,
  )
