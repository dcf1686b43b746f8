-- ===== src/Lexing/Tests.antt =====
-- compiler/kyna_lexing: runs of the tokenizer, and the properties at concrete sources.
use kyna.Base.{◌++◌, ◌↔◌, true, length, All, arith, ◌≡◌, refl, List, [], ◌∷◌, map, codes, String}
use kyna.Source
use kyna.Source.{SourceFile, span}
use kyna.Lexing.Chain.{Chain, invalid_spans}
use kyna.Lexing.Correct.{final_token, tokenize-Chain, tokenize-span, tokenize-errors, scanned-fuel}
use kyna.Lexing.Token.{TokenKind, Token}
use kyna.Lexing.Keyword.{keyword_kind, find_kind}
use kyna.Lexing.Scanner.{at_end, advance, peek, peek_next, take_if, current_span, add, fail}
use kyna.Lexing.Scanner.Literal.{
  advance_while, is_space, is_digit, is_alpha, is_alnum, is_word, string_step, string_loop,
  string_close, scan_string, character_close, scan_character, skip_digits, scan_number, skip_word,
  scan_identifier, closes_comment, comment_loop, scan_block_comment, skip_line,
}
use kyna.Lexing.Scanner.Punctuation.{
  single_kind, add_taken, add_equal, add_and, pair_token, literal_token, switch_token, scan_token,
}
use kyna.Lexing.Scanner.Tokenize.{
  LexResult, ok, guarded, recover, begin_token, scan_round, scan_loop, end_token, fresh, scanned,
  tokenize,
}

abbrev file : String → SourceFile
file text = record { id = 1; path = "main.kyna"; text = codes text }

-- The tokenizer, with all that it calls opened for a run.
lexed : SourceFile → LexResult
unfolding tokenize scanned fresh scan_loop scan_round guarded begin_token recover end_token
    scan_token switch_token single_kind pair_token literal_token add_taken add_equal add_and
    scan_string string_loop string_step string_close scan_character character_close scan_number
    skip_digits scan_identifier skip_word scan_block_comment comment_loop closes_comment skip_line
    is_space is_digit is_alpha is_alnum is_word keyword_kind find_kind advance_while at_end advance
    peek peek_next take_if current_span add fail
lexed = tokenize

abbrev kinds : LexResult → List TokenKind
kinds r = map (λ t. t.kind) r.tokens

declaration_kinds :
    kinds (lexed (file "var x1: int = 3.25; # note"))
    ≡ TokenKind.var ∷ TokenKind.identifier ∷ TokenKind.colon ∷ TokenKind.int_type ∷ TokenKind.equal
      ∷ TokenKind.float ∷ TokenKind.semicolon ∷ TokenKind.end ∷ []
unfolding lexed
declaration_kinds = refl

error_kinds :
    kinds (lexed (file "'a' & /* b"))
    ≡ TokenKind.char ∷ TokenKind.invalid ∷ TokenKind.invalid ∷ TokenKind.end ∷ []
unfolding lexed
error_kinds = refl

abbrev sample : SourceFile
sample = file "var s = \"a\n'b' & /* c"

tokenize-Chain_example :
    (body : List Token) × ((tokenize sample).tokens ≡ body ++ final_token sample ∷ [])
    × Chain sample 0 body (length sample.text)
tokenize-Chain_example = tokenize-Chain sample

tokenize-span_example :
    All
      (λ t.
        t.location
        ≡ span
            (Source.add [] "main.kyna" sample.text).0
            (Source.add [] "main.kyna" sample.text).1
            t.location.start_byte
            t.location.end_byte)
      (tokenize (record {
        id = (Source.add [] "main.kyna" sample.text).1;
        path = "main.kyna";
        text = sample.text;
      })).tokens
tokenize-span_example = tokenize-span [] "main.kyna" sample.text

tokenize-errors_example :
    (invalid_spans (tokenize sample).tokens ≡ map (λ d. d.location) (tokenize sample).diagnostics)
    × ((ok (tokenize sample) ≡ true) ↔ (invalid_spans (tokenize sample).tokens ≡ []))
tokenize-errors_example = tokenize-errors sample

scanned-fuel_example :
    (scan_loop 100 (fresh sample) ≡ scanned sample)
    × ((at_end (scan_loop 100 (fresh sample)) ≡ true)
        × ((scan_loop 100 (fresh sample)).current ≡ length sample.text))
scanned-fuel_example = scanned-fuel sample 100 (omega arith)
