-- ===== src/Bytecode/Valid.antt =====
-- compiler/kyna_bytecode: when a module is valid, as predicates on its indices.
pub mod Decides
pub mod Counts
pub mod Operations
pub mod Modules
use kyna.Base.{
  ℕ, suc, ◌+◌, ◌-◌, ◌≤◌, ◌<◌, ◌≡◌, ◌≢◌, Bool, true, List, [], ◌∷◌, Option, none, some, String,
  length, get_elem?, All,
}
use kyna.Bytecode.Program.{
  OpCode, BytecodeConstant, BytecodeInstruction, ExceptionHandler, BytecodeFunction, CaptureKind,
  BytecodeCaptureSource, BytecodeClass, BytecodeClassMethod, BytecodeModule, current_version,
}
use kyna.Bytecode.Ancestors.{ends_within}

-- The entry of a table at an index exists and satisfies `P`.
abbrev pub Entry {ℓ} : {A : Type ℓ} → List A → ℕ → (A → Type 0) → Type ℓ
Entry table index P = (x : _) × (get_elem? table index ≡ some x) × P x

module _ (m : BytecodeModule) (f : BytecodeFunction) where
  abbrev pub InRegister : ℕ → Type 0
  InRegister k = k < f.register_count

  -- A list of arguments that are registers of the function.
  abbrev pub Arguments : ℕ → Type 0
  Arguments index = Entry m.call_arguments index (All InRegister)

  -- The constant at an index is a string.
  abbrev pub IsName : ℕ → Type 0
  IsName index = (s : String) × (get_elem? m.constants index ≡ some (BytecodeConstant.string s))

  abbrev pub CaptureFits : BytecodeCaptureSource → Type 0
  CaptureFits source = elim source.kind [
    | CaptureKind.local ↦ InRegister source.index
    | CaptureKind.capture ↦ source.index < f.capture_count
  ]

  abbrev pub ValidClosure : BytecodeInstruction → Type 0
  ValidClosure i =
      InRegister i.destination
      × ((i.first < length m.functions)
          × ((i.first ≢ m.entry_function)
              × Entry m.closure_captures i.second λ sources.
                Entry m.functions i.first (λ g. length sources ≡ g.capture_count)
                × All CaptureFits sources))

  abbrev pub ValidCall : BytecodeInstruction → Type 0
  ValidCall i =
      InRegister i.destination
      × ((i.first < length m.functions)
          × ((i.first ≢ m.entry_function)
              × Entry m.call_arguments i.second λ arguments.
                Entry m.functions i.first (λ g. length arguments ≡ g.parameter_count)
                × All InRegister arguments))

  abbrev pub ValidBinding : BytecodeInstruction → Type 0
  ValidBinding i =
      InRegister i.destination
      × (InRegister i.first
          × (((i.second < length m.functions) × (i.second ≢ m.entry_function))
              × Entry m.functions i.second λ g. g.parameter_count ≢ 0))

  abbrev pub ValidObject : BytecodeInstruction → Type 0
  ValidObject i =
      InRegister i.destination
      × Entry m.call_arguments i.first λ elements.
        All InRegister elements
        × Entry m.object_field_names i.second λ names. length names ≡ length elements

  abbrev pub ValidStore : ℕ → Type 0 → BytecodeInstruction → Type 0
  ValidStore expected Named i =
      InRegister i.destination
      × Entry m.call_arguments i.first
          λ operands. (length operands ≡ expected) × (All InRegister operands × Named)

  -- What each operation needs of its operands.
  abbrev pub ValidOperation : BytecodeInstruction → OpCode → Type 0
  ValidOperation i OpCode.load_constant = InRegister i.destination × (i.first < length m.constants)
  ValidOperation i OpCode.load_null = InRegister i.destination
  ValidOperation i OpCode.load_function =
      InRegister i.destination × ((i.first < length m.functions) × (i.first ≢ m.entry_function))
  ValidOperation i OpCode.make_closure = ValidClosure i
  ValidOperation i OpCode.load_capture = InRegister i.destination × (i.first < f.capture_count)
  ValidOperation i OpCode.store_capture =
      InRegister i.destination × (InRegister i.second × (i.first < f.capture_count))
  ValidOperation i OpCode.move = InRegister i.destination × InRegister i.first
  ValidOperation i OpCode.negate = InRegister i.destination × InRegister i.first
  ValidOperation i OpCode.not = InRegister i.destination × InRegister i.first
  ValidOperation i OpCode.jump = i.first < length f.instructions
  ValidOperation i OpCode.jump_if_false = InRegister i.first × (i.second < length f.instructions)
  ValidOperation i OpCode.call = ValidCall i
  ValidOperation i OpCode.call_indirect =
      InRegister i.destination × (InRegister i.first × Arguments i.second)
  ValidOperation i OpCode.call_native =
      InRegister i.destination × ((i.first < length m.native_functions) × Arguments i.second)
  ValidOperation i OpCode.load_member =
      InRegister i.destination × (InRegister i.first × IsName i.second)
  ValidOperation i OpCode.bind_method = ValidBinding i
  ValidOperation i OpCode.make_array = InRegister i.destination × Arguments i.first
  ValidOperation i OpCode.make_object = ValidObject i
  ValidOperation i OpCode.make_instance =
      InRegister i.destination × ((i.first < length m.classes) × Arguments i.second)
  ValidOperation i OpCode.load_index =
      InRegister i.destination × (InRegister i.first × InRegister i.second)
  ValidOperation i OpCode.store_index = ValidStore 3 (Unit {0}) i
  ValidOperation i OpCode.store_member = ValidStore 2 (IsName i.second) i
  ValidOperation i OpCode.throw = InRegister i.first
  ValidOperation i OpCode.return = InRegister i.first
  ValidOperation i _ = InRegister i.destination × (InRegister i.first × InRegister i.second)

  -- A handler protects a nonempty range of the function's instructions, and starts inside it.
  abbrev pub ValidHandler : ExceptionHandler → Type 0
  ValidHandler h =
      (((h.instruction_count ≢ 0) × (h.first_instruction < length f.instructions))
        × (h.instruction_count ≤ length f.instructions - h.first_instruction))
      × ((h.handler_instruction < length f.instructions) × InRegister h.error_register)

-- An operation that leaves the function or jumps.
abbrev pub Leaves : OpCode → Type 0
Leaves OpCode.return = Unit
Leaves OpCode.jump = Unit
Leaves OpCode.throw = Unit
Leaves _ = ⊥

-- The last of the instructions leaves the function or jumps.
abbrev pub Ends : List BytecodeInstruction → Type 0
Ends [] = ⊥
Ends (i ∷ []) = Leaves i.opcode
Ends (i ∷ j ∷ instructions) = Ends (j ∷ instructions)

pub record ValidFunction (m : BytecodeModule) (f : BytecodeFunction) : Type 0 where
  pub registers : f.register_count ≢ 0
  pub parameters : f.parameter_count ≤ f.register_count
  pub instructions : All (λ i. ValidOperation m f i i.opcode) f.instructions
  pub handlers : All (ValidHandler m f) f.exception_handlers
  pub ending : Ends f.instructions

-- The function with an index takes the receiver of a method.
abbrev pub TakesReceiver : BytecodeModule → ℕ → Type 0
TakesReceiver m index = Entry m.functions index λ g. g.parameter_count ≢ 0

abbrev pub EachOf : Option ℕ → (ℕ → Type 0) → Type 0
EachOf none P = Unit
EachOf (some x) P = P x

pub record ValidClass (m : BytecodeModule) (klass : BytecodeClass) : Type 0 where
  pub parent : EachOf klass.parent (λ parent. parent < length m.classes)
  pub constructor : EachOf klass.constructor (TakesReceiver m)
  pub methods : All (λ method. TakesReceiver m method.function) klass.methods

pub record ValidModule (m : BytecodeModule) : Type 0 where
  pub version : m.format_version ≡ current_version
  pub entry : m.entry_function < length m.functions
  pub no_parameters : Entry m.functions m.entry_function λ g. g.parameter_count ≡ 0
  pub functions : All (ValidFunction m) m.functions
  pub classes : All (ValidClass m) m.classes
  -- The chain of the parents of each class ends.
  pub acyclic :
      (index : ℕ)
      → index < length m.classes
      → ends_within (suc (length m.classes)) m.classes (some index) ≡ true
