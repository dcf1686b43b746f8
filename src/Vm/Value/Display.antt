-- ===== src/Vm/Value/Display.antt =====
-- runtime/kyna_vm/src/values/runtime_value.cpp: how a value prints, the name of its type, its truth and
-- equality.
use kyna.Base.{
  ℕ, zero, suc, Bool, true, false, not, ◌||◌, List, [], ◌∷◌, Option, none, some, String, length,
  get_elem?, ◌==◌, if◌then◌else◌, concat, to_string, byte_text, str_eq,
}
use kyna.Base.Int.{ℤ, pos, negsuc, eqb_ℤ}
use kyna.Vm.Value.{RuntimeValue, Object, VmClosure, VmBoundMethod, ErrorObject, Heap, Platform}

-- `std::to_string` on an `std::int64_t`.
unfoldable pub integer_text : ℤ → String
integer_text (pos n) = to_string n
integer_text (negsuc n) = concat ("-" ∷ to_string (suc n) ∷ [])

-- The name of an object's class, or `object`.
unfoldable pub class_name : Option Object → String
class_name none = "object"
class_name (some o) = if str_eq o.vm_class_name "" then "object" else o.vm_class_name

unfoldable pub closure_text : Option VmClosure → String
closure_text none = "<closure>"
closure_text (some c) = concat ("<closure @" ∷ to_string c.function ∷ ">" ∷ [])

unfoldable pub bound_method_text : Option VmBoundMethod → String
bound_method_text none = "<bound method>"
bound_method_text (some c) = concat ("<bound method @" ∷ to_string c.function ∷ ">" ∷ [])

unfoldable pub error_text : Option ErrorObject → String
error_text none = "<error>"
error_text (some e) = e.message

unfoldable pub is_active : ℕ → List ℕ → Bool
is_active a [] = false
is_active a (b ∷ active) = a == b || is_active a active

-- The elements of an array with commas between them, each printed by `display`.
unfoldable pub elements_text : (RuntimeValue → String) → List RuntimeValue → String
elements_text display [] = ""
elements_text display (v ∷ []) = display v
elements_text display (v ∷ w ∷ vs) = concat (display v ∷ ", " ∷ elements_text display (w ∷ vs) ∷ [])

module _ (p : Platform) (h : Heap) where
  -- `displayValue`; `active` holds the arrays around the value, so that at most `length h.arrays` are
  -- open when it meets another one, and the bound `n` of the calls inside each other is that and two
  -- more.
  unfoldable pub display_value : ℕ → List ℕ → RuntimeValue → String
  display_value zero active v = ""
  display_value (suc n) active RuntimeValue.null = "null"
  display_value (suc n) active (RuntimeValue.boolean b) = if b then "true" else "false"
  display_value (suc n) active (RuntimeValue.integer x) = integer_text x
  display_value (suc n) active (RuntimeValue.floating x) = p.show x
  display_value (suc n) active (RuntimeValue.string s) = s
  display_value (suc n) active (RuntimeValue.character c) = byte_text c
  display_value (suc n) active (RuntimeValue.object a) =
      concat ("<" ∷ class_name (get_elem? h.objects a) ∷ ">" ∷ [])
  display_value (suc n) active (RuntimeValue.array a) = elim (get_elem? h.arrays a) [
    | none ↦ "null"
    | some elements ↦
        if is_active a active
        then "<cycle>"
        else concat ("[" ∷ elements_text (display_value n (a ∷ active)) elements ∷ "]" ∷ [])
  ]
  display_value (suc n) active (RuntimeValue.function_reference f) =
      concat ("<func @" ∷ to_string f ∷ ">" ∷ [])
  display_value (suc n) active (RuntimeValue.closure a) = closure_text (get_elem? h.closures a)
  display_value (suc n) active (RuntimeValue.bound_method a) =
      bound_method_text (get_elem? h.bound_methods a)
  display_value (suc n) active (RuntimeValue.error a) = error_text (get_elem? h.errors a)

  -- `Value::display`.
  unfoldable pub display : RuntimeValue → String
  display v = display_value (suc (suc (length h.arrays))) [] v

-- `Value::typeName`.
unfoldable pub type_name : Heap → RuntimeValue → String
type_name h RuntimeValue.null = "null"
type_name h (RuntimeValue.boolean b) = "bool"
type_name h (RuntimeValue.integer x) = "int"
type_name h (RuntimeValue.floating x) = "float"
type_name h (RuntimeValue.string s) = "str"
type_name h (RuntimeValue.character c) = "char"
type_name h (RuntimeValue.object a) = class_name (get_elem? h.objects a)
type_name h (RuntimeValue.array a) = "array"
type_name h (RuntimeValue.function_reference f) = "func"
type_name h (RuntimeValue.closure a) = "func"
type_name h (RuntimeValue.bound_method a) = "func"
type_name h (RuntimeValue.error a) = "Error"

module _ (p : Platform) where
  -- `Value::isTruthy`.
  unfoldable pub is_truthy : RuntimeValue → Bool
  is_truthy RuntimeValue.null = false
  is_truthy (RuntimeValue.boolean b) = b
  is_truthy (RuntimeValue.integer x) = not (eqb_ℤ x (pos 0))
  is_truthy (RuntimeValue.floating x) = not (p.is_zero x)
  is_truthy _ = true

  -- `Value::equals`: numbers as `double`s, other values of one type by their contents or address.
  unfoldable pub equals : RuntimeValue → RuntimeValue → Bool
  equals (RuntimeValue.integer x) (RuntimeValue.integer y) =
      p.equal (p.of_integer x) (p.of_integer y)
  equals (RuntimeValue.integer x) (RuntimeValue.floating y) = p.equal (p.of_integer x) y
  equals (RuntimeValue.floating x) (RuntimeValue.integer y) = p.equal x (p.of_integer y)
  equals (RuntimeValue.floating x) (RuntimeValue.floating y) = p.equal x y
  equals RuntimeValue.null RuntimeValue.null = true
  equals (RuntimeValue.boolean a) (RuntimeValue.boolean b) = if a then b else not b
  equals (RuntimeValue.string s) (RuntimeValue.string t) = str_eq s t
  equals (RuntimeValue.character a) (RuntimeValue.character b) = a == b
  equals (RuntimeValue.object a) (RuntimeValue.object b) = a == b
  equals (RuntimeValue.array a) (RuntimeValue.array b) = a == b
  equals (RuntimeValue.function_reference a) (RuntimeValue.function_reference b) = a == b
  equals (RuntimeValue.closure a) (RuntimeValue.closure b) = a == b
  equals (RuntimeValue.bound_method a) (RuntimeValue.bound_method b) = a == b
  equals (RuntimeValue.error a) (RuntimeValue.error b) = a == b
  equals _ _ = false
