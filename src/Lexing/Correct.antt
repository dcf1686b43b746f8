-- ===== src/Lexing/Correct.antt =====
-- compiler/kyna_lexing/src/checkers/token_scanner.cpp: what `tokenize` returns.
use kyna.Base.{
  ℕ, ◌+◌, ◌≤◌, ◌≡◌, ◌↔◌, refl, ap, sym, ◌∙◌, true, false, List, [], ◌∷◌, ◌++◌, map, arith, length,
  All, All-append, subst, append-nil, String,
}
use kyna.Diagnostics.{SourceSpan, Diagnostic}
use kyna.Source
use kyna.Source.{SourceFile, ManagedSource, SourceManager, span, span_of, starts_after, locate}
use kyna.Source.Positions.{span_between, span-add, newlines, trailing}
use kyna.Lexing.Token.{TokenKind, Token}
use kyna.Lexing.Scanner.{TokenScanner, at_end, remaining}
use kyna.Lexing.Scanner.Tokenize.{ok, all_warnings, scan_loop, end_token, fresh, scanned, tokenize}
use kyna.Lexing.Chain.{Chain, invalid_spans, invalid_spans-append}
use kyna.Lexing.Faithful.{IsConsistent, scan_loop-IsConsistent, scan_loop-fuel}

-- The token that stands for the end of a source.
abbrev pub final_token : SourceFile → Token
final_token source = record {
  kind = TokenKind.end;
  lexeme = [];
  location = span_between source (length source.text) (length source.text);
}

fresh-IsConsistent : (source : SourceFile) → IsConsistent source (fresh source)
unfolding fresh invalid_spans newlines trailing
fresh-IsConsistent source = record {
  kept = refl;
  placed = record { within = omega arith; line = refl; column = refl };
  chain = omega arith;
  errors = refl;
  loud = tt;
}

scanned_lem :
    (source : SourceFile) → IsConsistent source (scanned source) × (at_end (scanned source) ≡ true)
unfolding scanned
scanned_lem source =
    scan_loop-IsConsistent source (remaining (fresh source)) (fresh source) (omega arith)
      (fresh-IsConsistent source)

current-scanned : (source : SourceFile) → (scanned source).current ≡ length source.text
unfolding at_end
current-scanned source =
    let (c, e) = scanned_lem source in
    ground (arith, c.placed.within, ap (λ f. length f.text) c.kept, e)

end_token-final : (source : SourceFile) → end_token (scanned source) ≡ final_token source
unfolding end_token
end_token-final source =
    let (c, e) = scanned_lem source in
    ground (arith, c.kept, c.placed.line, c.placed.column, current-scanned source)

-- `tokenize` covers the source from left to right: its tokens are tokens that read nonempty pieces of
-- the source, in order and without overlap, each lexeme the bytes of its span and each span with the
-- lines and columns of its ends; then, and only last, the end token at the end of the source.
pub tokenize-Chain :
    (source : SourceFile)
    → (body : List Token) × ((tokenize source).tokens ≡ body ++ final_token source ∷ [])
      × Chain source 0 body (length source.text)
unfolding tokenize
tokenize-Chain source =
    let (c, e) = scanned_lem source in
    ((scanned source).tokens, rw (end_token-final source), rw current-scanned at c.chain)

tokenize-invalid :
    (source : SourceFile)
    → invalid_spans (tokenize source).tokens ≡ map (λ d. d.location) (tokenize source).diagnostics
unfolding tokenize invalid_spans
tokenize-invalid source =
    rw (invalid_spans-append, end_token-final source, invalid_spans, append-nil)
      (scanned_lem source).0.errors

all_warnings-nil :
    (ds : List Diagnostic) → All (λ d. d.warning ≡ false) ds → all_warnings ds ≡ true → ds ≡ []
unfolding all_warnings
all_warnings-nil [] h k = refl
all_warnings-nil (d ∷ ds) h k = ground arith

map-nil : (ds : List Diagnostic) → map (λ d. d.location) ds ≡ [] → all_warnings ds ≡ true
unfolding all_warnings
map-nil [] h = refl
map-nil (d ∷ ds) h = cc

tokenize-loud : (source : SourceFile) → All (λ d. d.warning ≡ false) (tokenize source).diagnostics
unfolding tokenize
tokenize-loud source = (scanned_lem source).0.loud

-- The diagnostics of `tokenize` are told by its invalid tokens: one for each, in order, with its span;
-- and the result is ok exactly when no token is invalid.
pub tokenize-errors :
    (source : SourceFile)
    → (invalid_spans (tokenize source).tokens ≡ map (λ d. d.location) (tokenize source).diagnostics)
      × ((ok (tokenize source) ≡ true) ↔ (invalid_spans (tokenize source).tokens ≡ []))
unfolding ok
tokenize-errors source = (
  tokenize-invalid source,
  (
    λ good. rw (tokenize-invalid source, all_warnings-nil _ (tokenize-loud source) good),
    λ none. map-nil _ (sym (tokenize-invalid source) ∙ none),
  ),
)

-- The loop of `scan` ends by its own test: after any number of rounds that is at least the number of bytes the
-- scanner is at the end of the source, having read all of it, and it is the same scanner.
pub scanned-fuel :
    (source : SourceFile) (n : ℕ)
    → length source.text ≤ n
    → (scan_loop n (fresh source) ≡ scanned source)
      × ((at_end (scan_loop n (fresh source)) ≡ true)
          × ((scan_loop n (fresh source)).current ≡ length source.text))
unfolding scanned fresh
scanned-fuel source n h =
    let same : scan_loop n (fresh source) ≡ scanned source =
      scan_loop-fuel source n (remaining (fresh source)) (fresh source) (omega arith) (omega arith)
        (fresh-IsConsistent source) in
    (
      same,
      (
        ap at_end same ∙ (scanned_lem source).1,
        ap (λ (s : TokenScanner). s.current) same ∙ current-scanned source,
      ),
    )

-- `P` holds of the spans of pieces of the source, so of the tokens'.
Chain-All :
    (source : SourceFile) (P : SourceSpan → Type 0)
    → ((start end : ℕ) → start ≤ end → end ≤ length source.text → P (span_between source start end))
    → (lo : ℕ) (ts : List Token) (hi : ℕ) → Chain source lo ts hi
    → All (λ t. P t.location) ts
Chain-All source P each lo [] hi c = tt
Chain-All source P each lo (t ∷ ts) hi c =
    let r = c.1 in
    (
      subst P (sym r.location) (each _ _ (omega (arith, r.nonempty)) r.inside),
      Chain-All source P each _ ts hi c.2,
    )

-- The span of a token is the one that the source manager computes by its search in the line starts,
-- for a source that it has added.
pub tokenize-span :
    (sources : SourceManager) (path : String) (text : List ℕ)
    → let id = (Source.add sources path text).1 in
      let source : SourceFile = record { id = id; path = path; text = text } in
      All
        (λ t.
          t.location
          ≡ span (Source.add sources path text).0 id t.location.start_byte t.location.end_byte)
        (tokenize source).tokens
unfolding Source.add
tokenize-span sources path text = rw all_tokens (
    All-append _ body (final_token source ∷ []) (Chain-All source P each 0 body _ chain)
      (each _ _ (omega arith) (omega arith), tt))
  where
    source : SourceFile
    source = record { id = length sources + 1; path = path; text = text }

    covered :
        (body : List Token) × ((tokenize source).tokens ≡ body ++ final_token source ∷ [])
        × Chain source 0 body (length text)
    covered = tokenize-Chain source

    body : List Token
    body = covered.0

    all_tokens : (tokenize source).tokens ≡ body ++ final_token source ∷ []
    all_tokens = covered.1

    chain : Chain source 0 body (length text)
    chain = covered.2

    P : SourceSpan → Type 0
    P l = l ≡ span (Source.add sources path text).0 (length sources + 1) l.start_byte l.end_byte

    each : (start end : ℕ) → start ≤ end → end ≤ length text → P (span_between source start end)
    each start end h k = sym (span-add sources path text start end h k)
