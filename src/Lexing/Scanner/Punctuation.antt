-- ===== src/Lexing/Scanner/Punctuation.antt =====
-- compiler/kyna_lexing/src/checkers/punctuation_scanner.cpp: one call of `scanToken`.
use kyna.Base.{ℕ, ◌&&◌, ◌||◌, [], ◌∷◌, Option, none, some, ◌==◌, if◌then◌else◌, concat, byte_text}
use kyna.Lexing.Token.{TokenKind}
use kyna.Lexing.Scanner.{TokenScanner, Outcome, done, peek, advance, take_if, add, fail}
use kyna.Lexing.Scanner.Literal.{
  is_space, is_digit, is_alpha, scan_string, scan_character, scan_number, scan_identifier,
  scan_block_comment, skip_line,
}

-- The cases of the `switch` that add a token of one byte.
unfoldable pub single_kind : ℕ → Option TokenKind
single_kind c =
    if c == b'('
    then some TokenKind.left_paren
    else if c == b')'
    then some TokenKind.right_paren
    else if c == b'{'
    then some TokenKind.left_brace
    else if c == b'}'
    then some TokenKind.right_brace
    else if c == b'['
    then some TokenKind.left_bracket
    else if c == b']'
    then some TokenKind.right_bracket
    else if c == b','
    then some TokenKind.comma
    else if c == b':'
    then some TokenKind.colon
    else if c == b';'
    then some TokenKind.semicolon
    else if c == b'.'
    then some TokenKind.dot
    else if c == b'+'
    then some TokenKind.plus
    else if c == b'*'
    then some TokenKind.star
    else if c == b'%'
    then some TokenKind.percent
    else if c == b'?'
    then some TokenKind.question
    else if c == b'/'
    then some TokenKind.slash
    else none

-- `add(take(expected) ? taken : otherwise)`.
unfoldable pub add_taken : ℕ → TokenKind → TokenKind → TokenScanner → TokenScanner
add_taken expected taken otherwise s =
    let (found, s') = take_if expected s in add (if found then taken else otherwise) s'

-- The case of `=`.
unfoldable pub add_equal : TokenScanner → TokenScanner
add_equal s =
    let (found, s') = take_if b'=' s in
    if found
    then add TokenKind.equal_equal s'
    else add_taken b'>' TokenKind.fat_arrow TokenKind.equal s'

-- The case of `&`.
unfoldable pub add_and : TokenScanner → Outcome
add_and s =
    let (found, s') = take_if b'&' s in
    if found then done (add TokenKind.and_and s') else fail s' "expected '&' after '&'" "K1006"

-- The cases that look at one more byte.
unfoldable pub pair_token : ℕ → TokenScanner → Option TokenScanner
pair_token c s =
    if c == b'-'
    then some (add_taken b'>' TokenKind.arrow TokenKind.minus s)
    else if c == b'='
    then some (add_equal s)
    else if c == b'!'
    then some (add_taken b'=' TokenKind.bang_equal TokenKind.bang s)
    else if c == b'<'
    then some (add_taken b'=' TokenKind.less_equal TokenKind.less s)
    else if c == b'>'
    then some (add_taken b'=' TokenKind.greater_equal TokenKind.greater s)
    else if c == b'|'
    then some (add_taken b'|' TokenKind.or_or TokenKind.pipe s)
    else none

-- The cases of literals and the default. The message of K1000 also quotes the byte.
unfoldable pub literal_token : ℕ → TokenScanner → Outcome
literal_token c s =
    if c == b'&'
    then add_and s
    else if c == b'"'
    then scan_string s
    else if c == b'\''
    then scan_character s
    else if is_digit c
    then done (scan_number s)
    else if is_alpha c || c == b'_'
    then done (scan_identifier s)
    else fail s (concat ("unexpected character: " ∷ byte_text c ∷ [])) "K1000"

-- The `switch`.
unfoldable pub switch_token : ℕ → TokenScanner → Outcome
switch_token c s = elim (single_kind c) [
  | some kind ↦ done (add kind s)
  | none ↦ elim (pair_token c s) [ some s' ↦ done s' | none ↦ literal_token c s ]
]

-- `scanToken`.
unfoldable pub scan_token : TokenScanner → Outcome
scan_token s₀ =
    let c = peek s₀ in
    let s = advance s₀ in
    if is_space c
    then done s
    else if c == b'#'
    then done (skip_line s)
    else if c == b'/' && peek s == b'/'
    then done (skip_line s)
    else if c == b'/' && peek s == b'*'
    then scan_block_comment s
    else switch_token c s
