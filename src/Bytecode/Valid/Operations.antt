-- ===== src/Bytecode/Valid/Operations.antt =====
-- compiler/kyna_bytecode/src/validators/bytecode_validator.cpp: the checks of an instruction report
-- nothing exactly when its operands are valid.
use kyna.Base.{
  ℕ, ◌<◌, ◌≡◌, ◌≢◌, ◌↔◌, refl, true, false, not, ◌||◌, List, [], ◌∷◌, Option, none, some, String,
  arith, get_elem?, length, leb, ◌==◌, All,
}
use kyna.Diagnostics.{Diagnostic}
use kyna.Bytecode.Program.{
  OpCode, BytecodeConstant, BytecodeInstruction, BytecodeFunction, CaptureKind,
  BytecodeCaptureSource, BytecodeModule,
}
use kyna.Bytecode.Report.{report_if, register_error, register_errors}
use kyna.Bytecode.Validator.Operation.{
  names_string, validate_load_function, validate_captures, validate_make_closure,
  validate_load_capture, validate_store_capture, validate_binary, validate_call, validate_arguments,
  validate_call_indirect, validate_call_native, validate_load_member, validate_bind_method,
  validate_make_array, validate_make_object, validate_make_instance, validate_load_index,
  validate_store, validate_operation,
}
use kyna.Bytecode.Valid.{
  Arguments, IsName, CaptureFits, ValidClosure, ValidCall, ValidBinding, ValidObject, ValidStore,
  ValidOperation,
}
use kyna.Bytecode.Valid.Counts.{parameters_iff, captures_iff}
use kyna.Diagnostics.Decides.{
  iff_trans, Decides, Decides-nothing, Decides-append, leb_iff, ne_iff, eq_iff,
}
use kyna.Bytecode.Valid.Decides.{
  Decides-report_if, Decides-guard, Decides-given, Decides-entry, register_error-Decides,
  register_errors-Decides,
}

names_string_iff :
    (constants : List BytecodeConstant) (index : ℕ)
    → (not (names_string constants index) ≡ false)
      ↔ ((s : String) × (get_elem? constants index ≡ some (BytecodeConstant.string s)))
unfolding names_string
names_string_iff constants index = go (get_elem? constants index)
  where
    go :
        (o : Option BytecodeConstant)
        → (not (elim o [ some (BytecodeConstant.string _) ↦ true | _ ↦ false ]) ≡ false)
          ↔ ((s : String) × (o ≡ some (BytecodeConstant.string s)))
    go none = (λ e. absurd (cc), λ x. absurd (cc (x.1)))
    go (some (BytecodeConstant.string s)) = (λ _. (s, refl), λ _. refl)
    go (some BytecodeConstant.null) = (λ e. absurd (cc), λ x. absurd (cc (x.1)))
    go (some (BytecodeConstant.boolean _)) = (λ e. absurd (cc), λ x. absurd (cc (x.1)))
    go (some (BytecodeConstant.integer _)) = (λ e. absurd (cc), λ x. absurd (cc (x.1)))
    go (some (BytecodeConstant.floating _)) = (λ e. absurd (cc), λ x. absurd (cc (x.1)))
    go (some (BytecodeConstant.character _)) = (λ e. absurd (cc), λ x. absurd (cc (x.1)))

or_iff : (n k e : ℕ) → ((leb n k || k == e) ≡ false) ↔ ((k < n) × (k ≢ e))
or_iff n k e = (λ h. ground arith, λ h. ground arith)

module _ (m : BytecodeModule) (f : BytecodeFunction) (offset : ℕ) (i : BytecodeInstruction) where
  reg :
      (index : ℕ) (role : String)
      → Decides (register_error f offset i index role) (index < f.register_count)
  reg = register_error-Decides f offset i

  regs :
      (indices : List ℕ) (role : String)
      → Decides (register_errors f offset i indices role) (All (λ k. k < f.register_count) indices)
  regs = register_errors-Decides f offset i

  bound :
      (n k : ℕ) (code message : String) → Decides (report_if (leb n k) code message i.span) (k < n)
  bound n k code message = Decides-report_if code message i.span (leb n k) (leb_iff n k)

  arguments :
      (index : ℕ) (code message role : String)
      → Decides (validate_arguments m f offset i index code message role) (Arguments m f index)
  unfolding validate_arguments
  arguments index code message role =
      Decides-entry code message i.span (get_elem? m.call_arguments index) _ λ ks. regs ks role

  member-IsName :
      (code message : String)
      → Decides
          (report_if (not (names_string m.constants i.second)) code message i.span)
          (IsName m f i.second)
  member-IsName code message =
      Decides-report_if code message i.span _ (names_string_iff m.constants i.second)

  captures :
      (sources : List BytecodeCaptureSource)
      → Decides (validate_captures m f offset i sources) (All (CaptureFits m f) sources)
  unfolding validate_captures
  captures [] = Decides-nothing
  captures (source ∷ sources) = Decides-append (fits source.kind) (captures sources)
    where
      fits :
          (kind : CaptureKind)
          → Decides
              (elim kind [
                | CaptureKind.local ↦ register_error f offset i source.index "captured local"
                | CaptureKind.capture ↦
                    report_if
                      (leb f.capture_count source.index)
                      "KBC1118"
                      "parent capture index is out of range"
                      i.span
              ])
              (elim kind [
                | CaptureKind.local ↦ source.index < f.register_count
                | CaptureKind.capture ↦ source.index < f.capture_count
              ])
      fits CaptureKind.local = reg source.index "captured local"
      fits CaptureKind.capture = bound f.capture_count source.index _ _

  closure : Decides (validate_make_closure m f offset i) (ValidClosure m f i)
  unfolding validate_make_closure
  closure = Decides-append (reg i.destination _) (
      Decides-given _ _ i.span _ (leb_iff _ _) λ l.
        Decides-append (Decides-report_if _ _ i.span _ (ne_iff _ _)) (
          Decides-entry _ _ i.span (get_elem? m.closure_captures i.second) _ λ sources.
            Decides-append
              (Decides-report_if _ _ i.span _ (
                iff_trans (eq_iff _ _)
                  (captures_iff m.functions i.first (λ n. length sources ≡ n) l)))
              (captures sources)))

  call : Decides (validate_call m f offset i) (ValidCall m f i)
  unfolding validate_call
  call = Decides-append (reg i.destination _) (
      Decides-given _ _ i.span _ (leb_iff _ _) λ l. Decides-guard _ _ i.span _ (ne_iff _ _) (
        Decides-entry _ _ i.span (get_elem? m.call_arguments i.second) _ λ ks.
          Decides-append
            (Decides-report_if _ _ i.span _
              (iff_trans (eq_iff _ _) (parameters_iff m.functions i.first (λ n. length ks ≡ n) l)))
            (regs ks _)))

  binding : Decides (validate_bind_method m f offset i) (ValidBinding m f i)
  unfolding validate_bind_method
  binding = Decides-append (reg i.destination _) (
      Decides-append (reg i.first _) (
        Decides-given _ _ i.span _ (or_iff _ _ _) λ l.
          Decides-report_if _ _ i.span _
            (iff_trans (ne_iff _ _) (parameters_iff m.functions i.second (λ n. n ≢ 0) l.0))))

  object : Decides (validate_make_object m f offset i) (ValidObject m f i)
  unfolding validate_make_object
  object = Decides-append (reg i.destination _) (
      Decides-entry _ _ i.span (get_elem? m.call_arguments i.first) _ λ ks.
        Decides-append (regs ks _) (
          Decides-entry _ _ i.span (get_elem? m.object_field_names i.second) _
            λ names. Decides-report_if _ _ i.span _ (eq_iff _ _)))

  store :
      (expected : ℕ) (check : List Diagnostic) {Named : Type 0}
      → Decides check Named
      → Decides (validate_store m f offset i expected check) (ValidStore m f expected Named i)
  unfolding validate_store
  store expected check named = Decides-append (reg i.destination _) (
      Decides-entry _ _ i.span (get_elem? m.call_arguments i.first) _ λ ks.
        Decides-append (Decides-report_if _ _ i.span _ (eq_iff _ _))
          (Decides-append (regs ks _) named))

  binary : Decides (validate_binary m f offset i) (
      (i.destination < f.register_count)
      × ((i.first < f.register_count) × (i.second < f.register_count)))
  unfolding validate_binary
  binary = Decides-append (reg i.destination _) (Decides-append (reg i.first _) (reg i.second _))

  pub operation :
      (op : OpCode) → Decides (validate_operation m f offset i op) (ValidOperation m f i op)
  unfolding validate_operation validate_load_function validate_load_capture validate_store_capture
      validate_call_indirect validate_call_native validate_load_member validate_make_array
      validate_make_instance validate_load_index
  operation OpCode.load_constant = Decides-append (reg i.destination _) (bound _ _ _ _)
  operation OpCode.load_null = reg i.destination _
  operation OpCode.load_function =
      Decides-append (reg i.destination _)
        (Decides-guard _ _ i.span _ (leb_iff _ _) (Decides-report_if _ _ i.span _ (ne_iff _ _)))
  operation OpCode.make_closure = closure
  operation OpCode.load_capture = Decides-append (reg i.destination _) (bound _ _ _ _)
  operation OpCode.store_capture =
      Decides-append (reg i.destination _) (Decides-append (reg i.second _) (bound _ _ _ _))
  operation OpCode.move = Decides-append (reg i.destination _) (reg i.first _)
  operation OpCode.negate = Decides-append (reg i.destination _) (reg i.first _)
  operation OpCode.not = Decides-append (reg i.destination _) (reg i.first _)
  operation OpCode.jump = bound _ _ _ _
  operation OpCode.jump_if_false = Decides-append (reg i.first _) (bound _ _ _ _)
  operation OpCode.call = call
  operation OpCode.call_indirect =
      Decides-append (reg i.destination _)
        (Decides-append (reg i.first _) (arguments i.second _ _ _))
  operation OpCode.call_native =
      Decides-append (reg i.destination _)
        (Decides-append (bound _ _ _ _) (arguments i.second _ _ _))
  operation OpCode.load_member =
      Decides-append (reg i.destination _) (Decides-append (reg i.first _) (member-IsName _ _))
  operation OpCode.bind_method = binding
  operation OpCode.make_array = Decides-append (reg i.destination _) (arguments i.first _ _ _)
  operation OpCode.make_object = object
  operation OpCode.make_instance =
      Decides-append (reg i.destination _)
        (Decides-append (bound _ _ _ _) (arguments i.second _ _ _))
  operation OpCode.load_index =
      Decides-append (reg i.destination _) (Decides-append (reg i.first _) (reg i.second _))
  operation OpCode.store_index = store 3 [] Decides-nothing
  operation OpCode.store_member = store 2 _ (member-IsName _ _)
  operation OpCode.throw = reg i.first _
  operation OpCode.return = reg i.first _
  operation _ = binary
