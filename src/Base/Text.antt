-- ===== src/Base/Text.antt =====
-- Text: bytes of a source are numbers below 256; names and messages are native strings.
use Prim.Native.Nat.{ℕ, zero, suc, ◌/◌, ◌%◌, compare, Ordering}
use Prim.Native.Char.{Char, nul, code}
use Prim.Native.String.{String, ◌++◌}
use mathlib.Core.Path.{◌≡◌, refl}
use mathlib.Core.Bool.{Bool, true, false, ◌&&◌}
use mathlib.Core.List.{List, [], ◌∷◌}
use kyna.Base.Tests.{ltb, ◌==◌, if◌then◌else◌}
pub use text.Mathlib.Text.{◌==◌ as str_eq}
pub use text.Mathlib.TextEquality.{eq_iff as str_eq_iff}

-- The code points of a text: its bytes, if it is ASCII.
abbrev pub codes : String → List ℕ
codes String.[] = []
codes (String.◌∷◌ c s) = code c ∷ codes s

abbrev pub concat : List String → String
concat [] = ""
concat (s ∷ r) = s ++ concat r

scalar : (n : ℕ) (o : Ordering) → compare n 55296 ≡ o → Char
scalar n Ordering.lt e = Char.char n (rw e tt)
scalar n Ordering.eq e = nul
scalar n Ordering.gt e = nul

-- `std::string(1, c)`: a byte in a text stands as the character with its number.
unfoldable pub byte_text : ℕ → String
unfolding scalar
byte_text n = String.◌∷◌ (scalar n (compare n 55296) refl) String.[]

-- Equality of byte strings.
abbrev pub bytes_eq : List ℕ → List ℕ → Bool
bytes_eq [] [] = true
bytes_eq (a ∷ s) (b ∷ t) = a == b && bytes_eq s t
bytes_eq _ _ = false

digit : ℕ → String
digit n =
    if ltb n 1
    then "0"
    else if ltb n 2
    then "1"
    else if ltb n 3
    then "2"
    else if ltb n 4
    then "3"
    else if ltb n 5
    then "4"
    else if ltb n 6
    then "5"
    else if ltb n 7
    then "6"
    else if ltb n 8
    then "7"
    else if ltb n 9
    then "8"
    else "9"

to_string_fuel : ℕ → ℕ → String
to_string_fuel zero n = ""
to_string_fuel (suc fuel) n =
    let more = to_string_fuel fuel (n / 10) ++ digit (n % 10) in if ltb n 10 then digit n else more

-- `std::to_string` on a number; a number has at most `n + 1` digits.
unfoldable pub to_string : ℕ → String
unfolding to_string_fuel digit
to_string n = to_string_fuel (suc n) n

byte_text-65 : byte_text 65 ≡ "A"
unfolding byte_text
byte_text-65 = refl

to_string-1024 : to_string 1024 ≡ "1024"
unfolding to_string
to_string-1024 = refl
