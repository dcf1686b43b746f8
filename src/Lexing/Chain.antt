-- ===== src/Lexing/Chain.antt =====
-- compiler/kyna_lexing: tokens that read pieces of a source from left to right, and the spans of the
-- invalid ones.
use mathlib.Core.Bool.{false≢true}
use kyna.Base.{
  ℕ, ◌-◌, ◌≤◌, ◌<◌, ◌≡◌, ◌≢◌, refl, ap, sym, ◌∙◌, false, List, [], ◌∷◌, ◌++◌, map, arith, length,
}
use kyna.Diagnostics.{SourceSpan, Diagnostic}
use kyna.Source.{SourceFile}
use kyna.Source.Positions.{span_between}
use kyna.Lexing.Token.{TokenKind, Token}
use kyna.Lexing.Scanner.{substr}
use kyna.Lexing.Results.{is_reserved}

-- A token that reads a piece of the source: at least one byte, its lexeme the bytes of its span.
pub record Reads (source : SourceFile) (t : Token) : Type 0 where
  pub nonempty : t.location.start_byte < t.location.end_byte
  pub inside : t.location.end_byte ≤ length source.text
  pub lexeme :
      t.lexeme
      ≡ substr source.text t.location.start_byte (t.location.end_byte - t.location.start_byte)
  pub location : t.location ≡ span_between source t.location.start_byte t.location.end_byte
  pub not_end : t.kind ≢ TokenKind.end

-- Tokens that read pieces of the source between `lo` and `hi`, from left to right, none overlapping.
abbrev pub Chain : SourceFile → ℕ → List Token → ℕ → Type 0
Chain source lo [] hi = lo ≤ hi
Chain source lo (t ∷ ts) hi =
    (lo ≤ t.location.start_byte) × Reads source t × Chain source t.location.end_byte ts hi

-- The spans of the invalid tokens.
unfoldable pub invalid_spans : List Token → List SourceSpan
invalid_spans [] = []
invalid_spans (t ∷ ts) = elim t.kind [
  | TokenKind.invalid ↦ t.location ∷ invalid_spans ts
  | _ ↦ invalid_spans ts
]

-- The spans of the diagnostics.
abbrev pub spans : List Diagnostic → List SourceSpan
spans = map (λ d. d.location)

pub Chain-mono :
    (source : SourceFile) (lo : ℕ) (ts : List Token) (hi hi' : ℕ)
    → hi ≤ hi'
    → Chain source lo ts hi
    → Chain source lo ts hi'
Chain-mono source lo [] hi hi' h c = omega arith
Chain-mono source lo (t ∷ ts) hi hi' h c = (c.0, c.1, Chain-mono source _ ts hi hi' h c.2)

pub Chain-append :
    (source : SourceFile) (lo : ℕ) (ts : List Token) (hi : ℕ) (t : Token)
    → Chain source lo ts hi
    → hi ≤ t.location.start_byte
    → Reads source t
    → Chain source lo (ts ++ t ∷ []) t.location.end_byte
Chain-append source lo [] hi t c h r = (omega arith, r, omega arith)
Chain-append source lo (u ∷ ts) hi t c h r = (c.0, c.1, Chain-append source _ ts hi t c.2 h r)

pub invalid_spans-append :
    (ts us : List Token) → invalid_spans (ts ++ us) ≡ invalid_spans ts ++ invalid_spans us
unfolding invalid_spans
invalid_spans-append [] us = refl
invalid_spans-append (t ∷ ts) us = ground (arith, invalid_spans-append ts us)

pub not-end : (kind : TokenKind) → is_reserved kind ≡ false → kind ≢ TokenKind.end
not-end kind k e = false≢true (sym k ∙ ap is_reserved e)

-- A token of an unreserved kind is not invalid.
pub invalid_spans-unreserved :
    (kind : TokenKind) (l : List ℕ) (span : SourceSpan)
    → is_reserved kind ≡ false
    → invalid_spans (record { kind = kind; lexeme = l; location = span } ∷ []) ≡ []
unfolding invalid_spans
invalid_spans-unreserved kind l span k = ground arith
