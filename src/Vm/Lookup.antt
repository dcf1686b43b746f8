-- ===== src/Vm/Lookup.antt =====
-- runtime/kyna_vm/src/execution/bytecode_virtual_machine.cpp: `findVmMethod`, `findVmConstructor` and
-- `initializeVmFields`, which follow the parents of a class. Each takes a bound on the classes that it
-- visits; `none` is a class out of the table, or a chain that is longer than the bound.
use kyna.Base.{
  ℕ, zero, suc, List, [], ◌∷◌, ◌++◌, Option, none, some, String, length, get_elem?, if◌then◌else◌,
  str_eq, ◌>>=◌,
}
use kyna.Bytecode.Program.{BytecodeClassMethod, BytecodeModule}
use kyna.Vm.Value.{RuntimeValue}

unfoldable pub method_named : String → List BytecodeClassMethod → Option ℕ
method_named name [] = none
method_named name (method ∷ methods) =
    let later = method_named name methods in
    if str_eq method.name name then some method.function else later

-- A result that is found, or the search in the parent.
unfoldable pub or_else : Option ℕ → Option (Option ℕ) → Option (Option ℕ)
or_else (some x) later = some (some x)
or_else none later = later

-- `std::map::find` and `try_emplace` on the fields.
unfoldable pub find_field : String → List (String × RuntimeValue) → Option RuntimeValue
find_field name [] = none
find_field name ((field, v) ∷ fields) =
    let later = find_field name fields in if str_eq field name then some v else later

unfoldable pub emplace : List (String × RuntimeValue) → String → List (String × RuntimeValue)
emplace fields name = elim (find_field name fields) [
  | none ↦ fields ++ (name, RuntimeValue.null) ∷ []
  | some v ↦ fields
]

unfoldable pub emplace_all :
    List (String × RuntimeValue) → List String → List (String × RuntimeValue)
emplace_all fields [] = fields
emplace_all fields (name ∷ names) = emplace_all (emplace fields name) names

module _ (m : BytecodeModule) where
  unfoldable pub find_method : ℕ → String → Option ℕ → Option (Option ℕ)
  find_method n name none = some none
  find_method zero name (some cursor) = none
  find_method (suc n) name (some cursor) = do
    klass ← get_elem? m.classes cursor
    or_else (method_named name klass.methods) (find_method n name klass.parent)

  unfoldable pub find_constructor : ℕ → Option ℕ → Option (Option ℕ)
  find_constructor n none = some none
  find_constructor zero (some cursor) = none
  find_constructor (suc n) (some cursor) = do
    klass ← get_elem? m.classes cursor
    or_else klass.constructor (find_constructor n klass.parent)

  -- The fields of the parents first.
  unfoldable pub initialize_fields :
      ℕ → List (String × RuntimeValue) → Option ℕ → Option (List (String × RuntimeValue))
  initialize_fields n fields none = some fields
  initialize_fields zero fields (some index) = none
  initialize_fields (suc n) fields (some index) = do
    klass ← get_elem? m.classes index
    inherited ← initialize_fields n fields klass.parent
    some (emplace_all inherited klass.fields)

  -- The bound: a chain that does not repeat a class visits each once.
  abbrev pub enough : ℕ
  enough = suc (length m.classes)
