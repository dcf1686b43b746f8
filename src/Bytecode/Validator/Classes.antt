-- ===== src/Bytecode/Validator/Classes.antt =====
-- compiler/kyna_bytecode/src/validators/bytecode_validator.cpp: the checks of the classes, and the
-- search for a cycle among their parents.
use kyna.Base.{
  ℕ, zero, suc, ◌+◌, Bool, true, false, List, [], ◌∷◌, ◌++◌, Option, none, some, concat, length,
  get_elem?, get_or, set, replicate, leb, ◌==◌, if◌then◌else◌,
}
use kyna.Bytecode.Program.{BytecodeClass, BytecodeClassMethod, BytecodeModule}
use kyna.Diagnostics.{Diagnostic, unknown_span}
use kyna.Bytecode.Report.{report, report_if}
use kyna.Bytecode.Validator.Operation.{parameter_count_at}

unfoldable pub validate_method :
    BytecodeModule → BytecodeClass → BytecodeClassMethod → List Diagnostic
validate_method m klass method =
    if leb (length m.functions) method.function
    then report "KBC1205"
        (concat ("class '" ∷ klass.name ∷ "' has an invalid method '" ∷ method.name ∷ "'" ∷ []))
        unknown_span
    else report_if (parameter_count_at m.functions method.function == 0) "KBC1207"
        (concat (
          "method '" ∷ klass.name ∷ "." ∷ method.name ∷ "' does not accept the implicit receiver"
          ∷ []))
        unknown_span

unfoldable pub validate_methods :
    BytecodeModule → BytecodeClass → List BytecodeClassMethod → List Diagnostic
validate_methods m klass [] = []
validate_methods m klass (method ∷ methods) =
    validate_method m klass method ++ validate_methods m klass methods

unfoldable pub validate_parent : BytecodeModule → BytecodeClass → List Diagnostic
validate_parent m klass = elim klass.parent [
  | none ↦ []
  | some parent ↦
      report_if (leb (length m.classes) parent) "KBC1203"
        (concat ("class '" ∷ klass.name ∷ "' has an invalid parent" ∷ [])) unknown_span
]

unfoldable pub validate_constructor : BytecodeModule → BytecodeClass → List Diagnostic
validate_constructor m klass = elim klass.constructor [
  | none ↦ []
  | some constructor ↦
      if leb (length m.functions) constructor
      then report "KBC1204" (concat ("class '" ∷ klass.name ∷ "' has an invalid constructor" ∷ []))
          unknown_span
      else report_if (parameter_count_at m.functions constructor == 0) "KBC1206"
          (concat (
            "constructor for class '" ∷ klass.name ∷ "' does not accept the implicit receiver"
            ∷ []))
          unknown_span
]

unfoldable pub validate_class : BytecodeModule → BytecodeClass → List Diagnostic
validate_class m klass =
    validate_parent m klass
    ++ (validate_constructor m klass ++ validate_methods m klass klass.methods)

unfoldable pub validate_classes : BytecodeModule → List BytecodeClass → List Diagnostic
validate_classes m [] = []
validate_classes m (klass ∷ classes) = validate_class m klass ++ validate_classes m classes

-- The `while` loop that follows the parents of a class and marks them in `visited`: the class at
-- which it finds a mark, if it does. Each round but the last marks one class more, so that there are
-- at most `size() + 1` of them.
unfoldable pub find_cycle : ℕ → List BytecodeClass → List Bool → Option ℕ → Option BytecodeClass
find_cycle zero classes visited cursor = none
find_cycle (suc n) classes visited none = none
find_cycle (suc n) classes visited (some cursor) = elim (get_elem? classes cursor) [
  | none ↦ none
  | some klass ↦ elim (get_or visited cursor false) [
    | true ↦ some klass
    | false ↦ find_cycle n classes (set visited cursor true) klass.parent
  ]
]

-- The search from one class.
unfoldable pub cycle_from : List BytecodeClass → ℕ → Option BytecodeClass
cycle_from classes index =
    find_cycle (suc (length classes)) classes (replicate (length classes) false) (some index)

-- The last loop of `validateBytecode`, for `n` classes from an index on.
unfoldable pub validate_cycles : BytecodeModule → ℕ → ℕ → List Diagnostic
validate_cycles m zero index = []
validate_cycles m (suc n) index =
    elim (cycle_from m.classes index) [
      | none ↦ []
      | some klass ↦
          report "KBC1208"
            (concat
              ("class inheritance metadata contains a cycle involving '" ∷ klass.name ∷ "'" ∷ []))
            unknown_span
    ]
    ++ validate_cycles m n (index + 1)
