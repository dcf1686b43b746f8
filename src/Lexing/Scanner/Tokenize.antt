-- ===== src/Lexing/Scanner/Tokenize.antt =====
-- compiler/kyna_lexing/src/checkers/token_scanner.cpp: `scan` and `tokenize`;
-- legacy_tokenizer_adapter.cpp: `lex`.
use kyna.Base.{ℕ, zero, suc, Bool, true, not, ◌&&◌, List, [], ◌∷◌, ◌++◌, if◌then◌else◌}
use kyna.Diagnostics.{Diagnostic}
use kyna.Source.{SourceFile}
use kyna.Lexing.Token.{TokenKind, Token}
use kyna.Lexing.Scanner.{
  TokenScanner, Outcome, done, thrown, at_end, remaining, current_span, lexeme,
}
use kyna.Lexing.Scanner.Punctuation.{scan_token}

pub record LexResult : Type 0 where
  pub tokens : List Token
  pub diagnostics : List Diagnostic

-- `LexResult::ok`: no diagnostic is an error.
unfoldable pub all_warnings : List Diagnostic → Bool
all_warnings [] = true
all_warnings (d ∷ ds) = d.warning && all_warnings ds

unfoldable pub ok : LexResult → Bool
ok r = all_warnings r.diagnostics

-- The `catch` of `scan`.
unfoldable pub recover : Diagnostic → TokenScanner → TokenScanner
recover d s = record s {
  diagnostics = s.diagnostics ++ d ∷ [];
  tokens =
      s.tokens
      ++ (record { kind = TokenKind.invalid; lexeme = lexeme s; location = current_span s } ∷ []);
}

-- The start of a round: the token begins at the current position.
unfoldable pub begin_token : TokenScanner → TokenScanner
begin_token s = record s { token_start = s.current; start_line = s.line; start_column = s.column }

-- The `try` and `catch` around a call of `scanToken`.
unfoldable pub guarded : Outcome → TokenScanner
guarded (done s) = s
guarded (thrown d s) = recover d s

-- One round of the loop of `scan`.
unfoldable pub scan_round : TokenScanner → TokenScanner
scan_round s = guarded (scan_token (begin_token s))

-- `while (!atEnd())`, one round for each byte that is left at most.
unfoldable pub scan_loop : ℕ → TokenScanner → TokenScanner
scan_loop zero s = s
scan_loop (suc n) s = let next = scan_loop n (scan_round s) in if not (at_end s) then next else s

-- The token behind the last byte.
unfoldable pub end_token : TokenScanner → Token
end_token s = record {
  kind = TokenKind.end;
  lexeme = [];
  location = record {
    source = s.source.id;
    start_byte = s.current;
    end_byte = s.current;
    line = s.line;
    column = s.column;
    end_line = s.line;
    end_column = s.column;
  };
}

-- The scanner that the constructor makes.
unfoldable pub fresh : SourceFile → TokenScanner
fresh source = record {
  source = source;
  tokens = [];
  diagnostics = [];
  token_start = 0;
  current = 0;
  line = 1;
  column = 1;
  start_line = 1;
  start_column = 1;
}

-- The scanner at the end of the loop of `scan`.
unfoldable pub scanned : SourceFile → TokenScanner
scanned source = scan_loop (remaining (fresh source)) (fresh source)

unfoldable pub tokenize : SourceFile → LexResult
tokenize source =
    let s = scanned source in
    record { tokens = s.tokens ++ end_token s ∷ []; diagnostics = s.diagnostics }

-- `lex`: the tokens, or the first diagnostic thrown.
pub data LexOutcome : Type 0 where
  tokens : List Token → LexOutcome
  throws : Diagnostic → LexOutcome

unfoldable pub lex_result : LexResult → LexOutcome
lex_result r = elim r.diagnostics [ [] ↦ LexOutcome.tokens r.tokens | d ∷ _ ↦ LexOutcome.throws d ]

unfoldable pub lex : List ℕ → LexOutcome
lex text = lex_result (tokenize (record { id = 0; path = ""; text = text }))
