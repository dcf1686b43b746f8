-- ===== src/Bytecode/Valid/Modules.antt =====
-- compiler/kyna_bytecode/src/validators/bytecode_validator.cpp: `validateBytecode` reports nothing
-- exactly on valid modules.
use kyna.Base.{
  ℕ, zero, suc, ◌+◌, ◌-◌, ◌≤◌, ◌<◌, ◌≡◌, ◌≢◌, ◌↔◌, refl, subst, true, false, not, ◌||◌, concat,
  List, [], ◌∷◌, Option, none, some, String, arith, length, lt-get_elem?, ltb, leb, ◌==◌, All,
}
use native.Mathlib.Decide.{ℕ_discrete}
use kyna.Diagnostics.{SourceSpan, Diagnostic, unknown_span}
use kyna.Bytecode.Program.{
  BytecodeInstruction, ExceptionHandler, BytecodeFunction, BytecodeClass, BytecodeClassMethod,
  BytecodeModule,
}
use kyna.Bytecode.Report.{report, valid_register}
use kyna.Bytecode.Validator.Classes.{
  validate_method, validate_methods, validate_parent, validate_constructor, validate_class,
  validate_classes, cycle_from, validate_cycles,
}
use kyna.Bytecode.Validator.Functions.{
  validate_instructions, validate_handler, validate_handlers, ends_function, last_instruction,
  validate_ending, validate_body, validate_function, validate_functions, validate_version,
  validate_entry, validate_bytecode,
}
use kyna.Bytecode.Ancestors.{ends_within, cycle_from-none}
use kyna.Bytecode.Valid.{
  Entry, Leaves, ValidOperation, ValidHandler, Ends, ValidFunction, TakesReceiver, EachOf,
  ValidClass, ValidModule,
}
use kyna.Bytecode.Valid.Counts.{parameters_iff, ends-Leaves, Leaves-ends}
use kyna.Diagnostics.Decides.{
  iff_trans, Decides, Decides-nothing, Decides-append, leb_iff, ltb_iff, ne_iff, eq_iff,
  Decides-iff,
}
use kyna.Bytecode.Valid.Decides.{Decides-reported, Decides-report_if, Decides-guard, Decides-given}
use kyna.Bytecode.Valid.Operations.{operation}

Decides-each :
    (o : Option ℕ) (check : ℕ → List Diagnostic) (P : ℕ → Type 0)
    → ((x : ℕ) → Decides (check x) (P x))
    → Decides (elim o [ none ↦ [] | some x ↦ check x ]) (EachOf o P)
Decides-each none check P d = Decides-nothing
Decides-each (some x) check P d = d x

Decides-none :
    (o : Option BytecodeClass) (code : String) (message : BytecodeClass → String)
    (span : SourceSpan)
    → Decides (elim o [ none ↦ [] | some klass ↦ report code (message klass) span ]) (o ≡ none)
Decides-none none code message span = record { sound = λ _. refl; complete = λ _. refl }
Decides-none (some klass) code message span = Decides-reported code (message klass) span λ e. cc

range_iff :
    (count first size : ℕ)
    → ((count == 0 || leb size first || ltb (size - first) count) ≡ false)
      ↔ (((count ≢ 0) × (first < size)) × (count ≤ size - first))
range_iff count first size = (λ h. ground arith, λ h. ground arith)

register_iff :
    (index : ℕ) (f : BytecodeFunction)
    → (not (valid_register index f) ≡ false) ↔ (index < f.register_count)
unfolding valid_register
register_iff index f = (λ h. ground arith, λ h. ground arith)

ending_iff : (i : BytecodeInstruction) → (not (ends_function i.opcode) ≡ false) ↔ Leaves i.opcode
ending_iff i =
    (λ h. ends-Leaves i.opcode (ground arith), λ x. let e = Leaves-ends i.opcode x in ground arith)

module _ (m : BytecodeModule) where
  -- The function with the index exists, and takes a receiver.
  takes_receiver :
      (index : ℕ) {ds : List Diagnostic}
      → Decides ds
          ((index < length m.functions) × Entry m.functions index λ g. g.parameter_count ≢ 0)
      → Decides ds (TakesReceiver m index)
  takes_receiver index d =
      Decides-iff d (λ x. x.1) λ x. (lt-get_elem? m.functions index (x.0) (x.1), x)

  instructions :
      (f : BytecodeFunction) (offset : ℕ) (is : List BytecodeInstruction)
      → Decides (validate_instructions m f offset is) (All (λ i. ValidOperation m f i i.opcode) is)
  unfolding validate_instructions
  instructions f offset [] = Decides-nothing
  instructions f offset (i ∷ is) =
      Decides-append (operation m f offset i i.opcode) (instructions f (offset + 1) is)

  handler :
      (f : BytecodeFunction) (h : ExceptionHandler)
      → Decides (validate_handler f h) (ValidHandler m f h)
  unfolding validate_handler
  handler f h = Decides-append (Decides-report_if _ _ _ _ (range_iff _ _ _)) (
      Decides-append (Decides-report_if _ _ _ _ (leb_iff _ _))
        (Decides-report_if _ _ _ _ (register_iff h.error_register f)))

  handlers :
      (f : BytecodeFunction) (hs : List ExceptionHandler)
      → Decides (validate_handlers f hs) (All (ValidHandler m f) hs)
  unfolding validate_handlers
  handlers f [] = Decides-nothing
  handlers f (h ∷ hs) = Decides-append (handler f h) (handlers f hs)

  Ends-iff :
      (i : BytecodeInstruction) (is : List BytecodeInstruction)
      → (not (ends_function (last_instruction i is).opcode) ≡ false) ↔ Ends (i ∷ is)
  unfolding last_instruction
  Ends-iff i [] = ending_iff i
  Ends-iff i (j ∷ is) = Ends-iff j is

  -- The conditions of `validate_function` on its instructions.
  abbrev Body : BytecodeFunction → List BytecodeInstruction → Type 0
  Body f is =
      (f.parameter_count ≤ f.register_count)
      × (All (λ i. ValidOperation m f i i.opcode) is
          × (All (ValidHandler m f) f.exception_handlers × Ends is))

  body :
      (f : BytecodeFunction) (i : BytecodeInstruction) (is : List BytecodeInstruction)
      → Decides (validate_body m f i is) (Body f (i ∷ is))
  unfolding validate_body validate_ending
  body f i is = Decides-append (Decides-report_if _ _ _ _ (ltb_iff _ _)) (
      Decides-append (instructions f 0 (i ∷ is)) (
        Decides-append (handlers f f.exception_handlers)
          (Decides-report_if _ _ _ _ (Ends-iff i is))))

  function : (f : BytecodeFunction) → Decides (validate_function m f) (ValidFunction m f)
  unfolding validate_function
  function f =
      Decides-iff
        (Decides-append (Decides-report_if _ _ _ _ (ne_iff f.register_count 0)) (go f.instructions))
        (λ v. record {
          registers = v.0;
          parameters = v.1.0;
          instructions = v.1.1.0;
          handlers = v.1.1.1.0;
          ending = v.1.1.1.1;
        })
        λ v. (v.registers, (v.parameters, (v.instructions, (v.handlers, v.ending))))
    where
      go :
          (is : List BytecodeInstruction)
          → Decides
              (elim is [
                | [] ↦
                    report "KBC1102"
                      (concat ("function '" ∷ f.name ∷ "' has no instructions" ∷ []))
                      unknown_span
                | i ∷ rest ↦ validate_body m f i rest
              ])
              (Body f is)
      go [] = Decides-reported _ _ _ λ b. b.1.1.1
      go (i ∷ rest) = body f i rest

  functions :
      (fs : List BytecodeFunction) → Decides (validate_functions m fs) (All (ValidFunction m) fs)
  unfolding validate_functions
  functions [] = Decides-nothing
  functions (f ∷ fs) = Decides-append (function f) (functions fs)

  method :
      (klass : BytecodeClass) (x : BytecodeClassMethod)
      → Decides (validate_method m klass x) (TakesReceiver m x.function)
  unfolding validate_method
  method klass x = takes_receiver x.function (
      Decides-given _ _ _ _ (leb_iff _ _) λ l.
        Decides-report_if _ _ _ _
          (iff_trans (ne_iff _ _) (parameters_iff m.functions x.function (λ n. n ≢ 0) l)))

  methods :
      (klass : BytecodeClass) (xs : List BytecodeClassMethod)
      → Decides (validate_methods m klass xs) (All (λ x. TakesReceiver m x.function) xs)
  unfolding validate_methods
  methods klass [] = Decides-nothing
  methods klass (x ∷ xs) = Decides-append (method klass x) (methods klass xs)

  parent :
      (klass : BytecodeClass)
      → Decides (validate_parent m klass) (EachOf klass.parent (λ p. p < length m.classes))
  unfolding validate_parent
  parent klass = Decides-each klass.parent _ _ λ p. Decides-report_if _ _ _ _ (leb_iff _ _)

  constructor :
      (klass : BytecodeClass)
      → Decides (validate_constructor m klass) (EachOf klass.constructor (TakesReceiver m))
  unfolding validate_constructor
  constructor klass = Decides-each klass.constructor _ _ λ c. takes_receiver c (
      Decides-given _ _ _ _ (leb_iff _ _) λ l.
        Decides-report_if _ _ _ _
          (iff_trans (ne_iff _ _) (parameters_iff m.functions c (λ n. n ≢ 0) l)))

  class : (klass : BytecodeClass) → Decides (validate_class m klass) (ValidClass m klass)
  unfolding validate_class
  class klass =
      Decides-iff
        (Decides-append (parent klass)
          (Decides-append (constructor klass) (methods klass klass.methods)))
        (λ v. record { parent = v.0; constructor = v.1.0; methods = v.1.1 })
        λ v. (v.parent, (v.constructor, v.methods))

  classes : (ks : List BytecodeClass) → Decides (validate_classes m ks) (All (ValidClass m) ks)
  unfolding validate_classes
  classes [] = Decides-nothing
  classes (k ∷ ks) = Decides-append (class k) (classes ks)

  -- The chains of the classes from `index` on, `n` of them, end.
  abbrev Acyclic : ℕ → ℕ → Type 0
  Acyclic n index =
      (k : ℕ)
      → index ≤ k
      → k < index + n
      → ends_within (suc (length m.classes)) m.classes (some k) ≡ true

  cycles : (n index : ℕ) → Decides (validate_cycles m n index) (Acyclic n index)
  unfolding validate_cycles
  cycles zero index = record { sound = λ _ k h l. absurd (omega arith); complete = λ _. refl }
  cycles (suc n) index =
      Decides-iff
        (Decides-append
          (Decides-iff (Decides-none (cycle_from m.classes index) _ _ _)
            (cycle_from-none m.classes index).0 (cycle_from-none m.classes index).1)
          (cycles n (index + 1)))
        (λ v k h l. elim (ℕ_discrete index k) [
          | yes same ↦
              subst (λ x. ends_within (suc (length m.classes)) m.classes (some x) ≡ true) same v.0
          | no other ↦ v.1 k (omega arith) (omega arith)
        ])
        λ a. (a index (omega arith) (omega arith), λ k h l. a k (omega arith) (omega arith))

  entry : Decides (validate_entry m) (
      (m.entry_function < length m.functions)
      × Entry m.functions m.entry_function λ g. g.parameter_count ≡ 0)
  unfolding validate_entry
  entry = Decides-given _ _ _ _ (leb_iff _ _) λ l.
      Decides-report_if _ _ _ _
        (iff_trans (eq_iff _ _) (parameters_iff m.functions m.entry_function (λ n. n ≡ 0) l))

  checked : Decides (validate_bytecode m) (ValidModule m)
  unfolding validate_bytecode validate_version
  checked =
      Decides-iff
        (Decides-append (Decides-report_if _ _ _ _ (eq_iff _ _)) (
          Decides-guard _ _ _ _ (ne_iff _ _) (
            Decides-append entry (
              Decides-append (functions m.functions)
                (Decides-append (classes m.classes) (cycles (length m.classes) 0))))))
        (λ v. record {
          version = v.0;
          entry = v.1.1.0.0;
          no_parameters = v.1.1.0.1;
          functions = v.1.1.1.0;
          classes = v.1.1.1.1.0;
          acyclic = λ k h. v.1.1.1.1.1 k (omega arith) (omega arith);
        })
        λ v. (
          v.version,
          (
            (λ e. absurd (omega (arith, v.entry, e))),
            (
              (v.entry, v.no_parameters),
              (v.functions, (v.classes, λ k h l. v.acyclic k (omega arith))),
            ),
          ),
        )

-- `validateBytecode` reports nothing exactly when the module is valid: the format version is the
-- current one, the entry function exists and takes no parameters, every function is valid (it has registers,
-- no fewer than parameters, the operands of its instructions and its handlers are in range, calls have as many
-- arguments as the function that is named has parameters and closures as many sources as it has captures, and
-- it ends in a return, a throw or a jump), every class is valid (its parent is there, and its methods and
-- its constructor take a receiver), and the chain of the parents of every class ends.
pub validate_bytecode_iff : (m : BytecodeModule) → (validate_bytecode m ≡ []) ↔ ValidModule m
validate_bytecode_iff m = ((checked m).sound, (checked m).complete)
