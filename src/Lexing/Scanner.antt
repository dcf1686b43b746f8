-- ===== src/Lexing/Scanner.antt =====
-- compiler/kyna_lexing/src/checkers/token_scanner.hpp and token_scanner.cpp: the scanner's state and
-- its primitive moves.
pub mod Literal
pub mod Punctuation
pub mod Tokenize
use kyna.Base.{
  ℕ, zero, suc, ◌+◌, ◌-◌, Bool, true, false, List, [], ◌∷◌, ◌++◌, String, length, get_or, take,
  drop, ltb, leb, ◌==◌, if◌then◌else◌,
}
use kyna.Diagnostics.{SourceSpan, Diagnostic}
use kyna.Source.{SourceFile}
use kyna.Lexing.Token.{TokenKind, Token}

pub record TokenScanner : Type 0 where
  pub source : SourceFile
  pub tokens : List Token
  pub diagnostics : List Diagnostic
  pub token_start : ℕ
  pub current : ℕ
  pub line : ℕ
  pub column : ℕ
  pub start_line : ℕ
  pub start_column : ℕ

-- A member function returns, or throws a `KynaError`; the scanner keeps what it did before.
pub data Outcome : Type 0 where
  done : TokenScanner → Outcome
  thrown : Diagnostic → TokenScanner → Outcome

-- `source.text.size()`.
abbrev pub size : TokenScanner → ℕ
size s = length s.source.text

unfoldable pub at_end : TokenScanner → Bool
at_end s = leb (size s) s.current

-- The bytes that are not consumed yet: a bound on the rounds of each loop of the scanner.
abbrev pub remaining : TokenScanner → ℕ
remaining s = size s - s.current

-- `advance`, without the character that it returns (the one that `peek` gives before).
unfoldable pub advance : TokenScanner → TokenScanner
advance s =
    if get_or s.source.text s.current 0 == b'\n'
    then record s { current = s.current + 1; line = s.line + 1; column = 1 }
    else record s { current = s.current + 1; column = s.column + 1 }

unfoldable pub peek : TokenScanner → ℕ
peek s = if at_end s then 0 else get_or s.source.text s.current 0

unfoldable pub peek_next : TokenScanner → ℕ
peek_next s = if ltb (s.current + 1) (size s) then get_or s.source.text (s.current + 1) 0 else 0

-- `if (take(expected)) …`: whether the next byte is `expected`, and the scanner after it if so.
unfoldable pub take_if : ℕ → TokenScanner → Bool × TokenScanner
take_if expected s = if peek s == expected then (true, advance s) else (false, s)

-- `source.text.substr(start, count)`.
abbrev pub substr : List ℕ → ℕ → ℕ → List ℕ
substr text start count = take count (drop start text)

-- `currentSpan`.
unfoldable pub current_span : TokenScanner → SourceSpan
current_span s = record {
  source = s.source.id;
  start_byte = s.token_start;
  end_byte = s.current;
  line = s.start_line;
  column = s.start_column;
  end_line = s.line;
  end_column = s.column;
}

-- The text from the start of the token to the current position.
abbrev pub lexeme : TokenScanner → List ℕ
lexeme s = substr s.source.text s.token_start (s.current - s.token_start)

unfoldable pub add : TokenKind → TokenScanner → TokenScanner
add kind s = record s {
  tokens = s.tokens ++ (record { kind = kind; lexeme = lexeme s; location = current_span s } ∷ []);
}

unfoldable pub fail : TokenScanner → String → String → Outcome
fail s message code =
    Outcome.thrown
      (record {
        message = message;
        location = current_span s;
        warning = false;
        code = code;
        category = "language";
        help = "";
      })
      s
