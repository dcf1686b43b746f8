-- ===== src/Lexing/Faithful.antt =====
-- compiler/kyna_lexing/src/checkers/token_scanner.cpp: the invariant of `scan`. The tokens made so
-- far lie one after another before the current position, and the diagnostics are told by the
-- invalid ones.
use mathlib.Core.List.{map-append}
use kyna.Base.{
  append-nil, ℕ, zero, suc, ◌-◌, ◌≤◌, ◌<◌, ◌≡◌, ◌≢◌, refl, ap, sym, ◌∙◌, true, false, [], ◌∷◌, ◌++◌,
  arith, length, All, All-append, inl, inr, Bool-cases,
}
use kyna.Diagnostics.{Diagnostic}
use kyna.Source.{SourceFile}
use kyna.Lexing.Token.{TokenKind, Token}
use kyna.Lexing.Scanner.{
  TokenScanner, Outcome, size, at_end, remaining, advance, current_span, lexeme, substr, add,
}
use kyna.Lexing.Scanner.Punctuation.{scan_token}
use kyna.Lexing.Scanner.Tokenize.{guarded, recover, begin_token, scan_round, scan_loop}
use kyna.Lexing.Moves.{IsPlaced, Moves, Moves-trans, advance-Moves, current-advance, lt-size-at_end}
use kyna.Lexing.Results.{is_reserved, Result, skipped, added, failed}
use kyna.Lexing.Rounds.{scan_token-Result}
use kyna.Lexing.Chain.{
  Reads, Chain, invalid_spans, spans, Chain-mono, Chain-append, not-end, invalid_spans-append,
  invalid_spans-unreserved,
}

pub record IsConsistent (source : SourceFile) (s : TokenScanner) : Type 0 where
  pub kept : s.source ≡ source
  pub placed : IsPlaced s
  pub chain : Chain source 0 s.tokens s.current
  pub errors : invalid_spans s.tokens ≡ spans s.diagnostics
  pub loud : All (λ d. d.warning ≡ false) s.diagnostics

abbrev token_of : TokenKind → TokenScanner → Token
token_of kind u = record { kind = kind; lexeme = lexeme u; location = current_span u }

current-add :
    (kind : TokenKind) (u : TokenScanner) {n : ℕ} → n < u.current → n < (add kind u).current
unfolding add
current-add kind u h = h

current-recover :
    (d : Diagnostic) (u : TokenScanner) {n : ℕ} → n < u.current → n < (recover d u).current
unfolding recover
current-recover d u h = h

module _ (source : SourceFile) (s : TokenScanner) (c : IsConsistent source s) where
  module _ (h : s.current < size s) (u : TokenScanner) (m : Moves (advance (begin_token s)) u) where
    -- What holds of each scanner that a round from `s` reaches.
    pub record Reached : Type 0 where
      pub tokens : u.tokens ≡ s.tokens
      pub diagnostics : u.diagnostics ≡ s.diagnostics
      pub kept : u.source ≡ source
      pub placed : IsPlaced u
      pub token_start : u.token_start ≡ s.current
      pub start_line : u.start_line ≡ s.line
      pub start_column : u.start_column ≡ s.column
      pub progress : s.current < u.current

    reached : Reached
    unfolding begin_token
    reached =
        let b = begin_token s in
        let p : IsPlaced b = record {
          within = c.placed.within;
          line = c.placed.line;
          column = c.placed.column;
        } in
        let whole = Moves-trans b (advance b) u (advance-Moves b p h) m in
        record {
          tokens = whole.tokens;
          diagnostics = whole.diagnostics;
          kept = whole.source ∙ c.kept;
          placed = whole.placed;
          token_start = whole.token_start;
          start_line = whole.start_line;
          start_column = whole.start_column;
          progress = omega (arith, m.forward, current-advance b);
        }

    token_of-Reads : (kind : TokenKind) → kind ≢ TokenKind.end → Reads source (token_of kind u)
    unfolding current_span
    token_of-Reads kind k =
        let r = reached in
        record {
          nonempty = omega (arith, r.progress, r.token_start);
          inside = omega (arith, r.placed.within, ap (λ f. length f.text) r.kept);
          lexeme = ap (λ f. substr f.text u.token_start (u.current - u.token_start)) r.kept;
          location = ground (
            arith, r.kept, r.token_start, r.start_line, r.start_column, r.placed.line,
            r.placed.column, c.kept, c.placed.line, c.placed.column,
          );
          not_end = k;
        }

    -- The round's three ends keep the invariant.
    skipped-IsConsistent : IsConsistent source u
    skipped-IsConsistent =
        let r = reached in
        record {
          kept = r.kept;
          placed = r.placed;
          chain = rw r.tokens (
              Chain-mono source 0 s.tokens s.current u.current (omega (arith, r.progress)) c.chain);
          errors = rw (r.tokens, r.diagnostics) c.errors;
          loud = rw r.diagnostics c.loud;
        }

    Chain-snoc :
        (kind : TokenKind)
        → kind ≢ TokenKind.end
        → Chain source 0 (u.tokens ++ token_of kind u ∷ []) u.current
    unfolding current_span
    Chain-snoc kind k =
        let r = reached in
        rw r.tokens (
          Chain-append source 0 s.tokens s.current (token_of kind u) c.chain
            (omega (arith, r.token_start)) (token_of-Reads kind k))

    added-IsConsistent :
        (kind : TokenKind) → is_reserved kind ≡ false → IsConsistent source (add kind u)
    unfolding add current_span
    added-IsConsistent kind k =
        let r = reached in
        record {
          kept = r.kept;
          placed = record {
            within = r.placed.within;
            line = r.placed.line;
            column = r.placed.column;
          };
          chain = Chain-snoc kind (not-end kind k);
          errors =
              rw
                (
                  r.tokens,
                  r.diagnostics,
                  invalid_spans-append,
                  invalid_spans-unreserved kind (lexeme u) (current_span u) k,
                  append-nil,
                )
                c.errors;
          loud = rw r.diagnostics c.loud;
        }

    failed-IsConsistent :
        (d : Diagnostic)
        → d.location ≡ current_span u
        → d.warning ≡ false
        → IsConsistent source (recover d u)
    unfolding recover invalid_spans current_span
    failed-IsConsistent d l w =
        let r = reached in
        record {
          kept = r.kept;
          placed = record {
            within = r.placed.within;
            line = r.placed.line;
            column = r.placed.column;
          };
          chain = Chain-snoc TokenKind.invalid (cc);
          errors =
              rw (r.tokens, r.diagnostics, invalid_spans-append, map-append, c.errors)
                (ap (λ l. spans s.diagnostics ++ l ∷ []) (sym l));
          loud = rw r.diagnostics (All-append _ s.diagnostics (d ∷ []) c.loud (w, tt));
        }

  -- A round inside the text keeps the invariant, and consumes a byte at least.
  scan_round-IsConsistent :
      s.current < size s → IsConsistent source (scan_round s) × (s.current < (scan_round s).current)
  unfolding scan_round begin_token guarded
  scan_round-IsConsistent h =
      settle (scan_token (begin_token s)) (scan_token-Result (begin_token s) placed h)
    where
      placed : IsPlaced (begin_token s)
      placed = record { within = c.placed.within; line = c.placed.line; column = c.placed.column }

      settle :
          (o : Outcome)
          → Result (advance (begin_token s)) o
          → IsConsistent source (guarded o) × (s.current < (guarded o).current)
      settle o (skipped m) = (skipped-IsConsistent h _ m, (reached h _ m).progress)
      settle o (added kind u k m e) =
          rw e (added-IsConsistent h u m kind k, current-add kind u (reached h u m).progress)
      settle o (failed {d} {t} l w m) =
          (failed-IsConsistent h t m d l w, current-recover d t (reached h t m).progress)

end-at_end : (s : TokenScanner) → remaining s ≤ 0 → at_end s ≡ true
unfolding at_end
end-at_end s h = ground arith

same-size :
    (source : SourceFile) (s t : TokenScanner)
    → IsConsistent source s
    → IsConsistent source t
    → size t ≡ size s
same-size source s t c d = ap (λ f. length f.text) (d.kept ∙ sym c.kept)

-- The loop ends at the end of the text, with the invariant.
pub scan_loop-IsConsistent :
    (source : SourceFile) (n : ℕ) (s : TokenScanner)
    → remaining s ≤ n
    → IsConsistent source s
    → IsConsistent source (scan_loop n s) × (at_end (scan_loop n s) ≡ true)
unfolding scan_loop at_end
scan_loop-IsConsistent source zero s h c = (c, ground arith)
scan_loop-IsConsistent source (suc n) s h c = elim (Bool-cases (at_end s)) [
  | inl stop ↦ rw stop (c, stop)
  | inr go ↦
      let round = scan_round-IsConsistent source s c (lt-size-at_end s go) in
      rw go (
        scan_loop-IsConsistent source n (scan_round s)
          (omega (arith, round.1, lt-size-at_end s go, same-size source s (scan_round s) c round.0))
          round.0)
]

-- Any two numbers of rounds that cover the bytes left give the same.
pub scan_loop-fuel :
    (source : SourceFile) (n m : ℕ) (s : TokenScanner)
    → remaining s ≤ n
    → remaining s ≤ m
    → IsConsistent source s
    → scan_loop n s ≡ scan_loop m s
unfolding scan_loop
scan_loop-fuel source zero zero s h k c = refl
scan_loop-fuel source zero (suc m) s h k c = rw (end-at_end s (omega arith))
scan_loop-fuel source (suc n) zero s h k c = rw (end-at_end s (omega arith))
scan_loop-fuel source (suc n) (suc m) s h k c = elim (Bool-cases (at_end s)) [
  | inl stop ↦ rw stop
  | inr go ↦
      let inside = lt-size-at_end s go in
      let round = scan_round-IsConsistent source s c inside in
      let same = same-size source s (scan_round s) c round.0 in
      rw go (
        scan_loop-fuel source n m (scan_round s) (omega (arith, round.1, inside, same))
          (omega (arith, round.1, inside, same)) round.0)
]
