-- ===== src/Lexing/Scanner/Literal.antt =====
-- compiler/kyna_lexing/src/checkers/literal_scanner.cpp: strings, characters, numbers, identifiers
-- and block comments. A loop takes the number of bytes that are left for its number of rounds: each
-- round consumes one, and its clause for no round left is its exit at the end of the text.
use kyna.Base.{ℕ, zero, suc, Bool, true, false, not, ◌&&◌, ◌||◌, leb, ◌==◌, if◌then◌else◌}
use kyna.Lexing.Token.{TokenKind}
use kyna.Lexing.Keyword.{keyword_kind}
use kyna.Lexing.Scanner.{
  TokenScanner, Outcome, done, thrown, remaining, at_end, advance, peek, peek_next, take_if, lexeme,
  add, fail,
}

-- `std::isspace`, `std::isdigit`, `std::isalpha` and `std::isalnum` in the C locale.
unfoldable pub is_space : ℕ → Bool
is_space c = c == b' ' || leb 9 c && leb c 13

unfoldable pub is_digit : ℕ → Bool
is_digit c = leb b'0' c && leb c b'9'

unfoldable pub is_alpha : ℕ → Bool
is_alpha c = leb b'A' c && leb c b'Z' || leb b'a' c && leb c b'z'

unfoldable pub is_alnum : ℕ → Bool
is_alnum c = is_alpha c || is_digit c

-- The body of the loop of `scanString` behind its check for a line feed.
unfoldable pub string_step : TokenScanner → TokenScanner
string_step s = advance (if peek s == b'\\' && not (peek_next s == 0) then advance s else s)

unfoldable pub string_loop : ℕ → TokenScanner → Outcome
string_loop zero s = done s
string_loop (suc n) s =
    let next = string_loop n (string_step s) in
    if not (at_end s) && not (peek s == b'"')
    then (if peek s == b'\n' then fail s "newline in string literal" "K1002" else next)
    else done s

-- What `scanString` does behind its loop.
unfoldable pub string_close : TokenScanner → Outcome
string_close s =
    if at_end s
    then fail s "unterminated string literal" "K1001"
    else done (add TokenKind.string (advance s))

unfoldable pub scan_string : TokenScanner → Outcome
scan_string s = elim (string_loop (remaining s) s) [
  | done s' ↦ string_close s'
  | thrown d s' ↦ thrown d s'
]

-- The end of `scanCharacter`, from its second check on.
unfoldable pub character_close : TokenScanner → Outcome
character_close s =
    if at_end s
    then fail s "unterminated character literal" "K1003"
    else let (closed, s') = take_if b'\'' (advance s) in
      if not closed
      then fail s' "character literal must contain exactly one character" "K1004"
      else done (add TokenKind.char s')

unfoldable pub scan_character : TokenScanner → Outcome
scan_character s =
    if at_end s || peek s == b'\n'
    then fail s "unterminated character literal" "K1003"
    else character_close (if peek s == b'\\' then advance s else s)

-- `while (…) advance();` of the scanner, with a bound on the number of moves.
unfoldable pub advance_while : (TokenScanner → Bool) → ℕ → TokenScanner → TokenScanner
advance_while going zero s = s
advance_while going (suc n) s = elim (going s) [
  | false ↦ s
  | true ↦ advance_while going n (advance s)
]

-- `while (std::isdigit(peek())) advance();`
unfoldable pub skip_digits : TokenScanner → TokenScanner
skip_digits s = advance_while (λ t. is_digit (peek t)) (remaining s) s

unfoldable pub scan_number : TokenScanner → TokenScanner
scan_number s =
    let whole = skip_digits s in
    if peek whole == b'.' && is_digit (peek_next whole)
    then add TokenKind.float (skip_digits (advance whole))
    else add TokenKind.int whole

unfoldable pub is_word : ℕ → Bool
is_word c = is_alnum c || c == b'_'

unfoldable pub skip_word : TokenScanner → TokenScanner
skip_word s = advance_while (λ t. is_word (peek t)) (remaining s) s

unfoldable pub scan_identifier : TokenScanner → TokenScanner
scan_identifier s = let s' = skip_word s in add (keyword_kind (lexeme s')) s'

unfoldable pub closes_comment : TokenScanner → Bool
closes_comment s = peek s == b'*' && peek_next s == b'/'

-- The loop of `scanBlockComment` and the two moves behind it.
unfoldable pub comment_loop : ℕ → TokenScanner → Outcome
comment_loop zero s = fail s "unterminated block comment" "K1005"
comment_loop (suc n) s =
    let next = comment_loop n (advance s) in
    if closes_comment s
    then done (advance (advance s))
    else (if at_end s then fail s "unterminated block comment" "K1005" else next)

unfoldable pub scan_block_comment : TokenScanner → Outcome
scan_block_comment s = let s' = advance s in comment_loop (remaining s') s'

-- `while (!atEnd() && peek() != '\n') advance();`
unfoldable pub skip_line : TokenScanner → TokenScanner
skip_line s = advance_while (λ t. not (at_end t) && not (peek t == b'\n')) (remaining s) s
