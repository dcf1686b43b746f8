-- ===== src/Lexing/Moves.antt =====
-- compiler/kyna_lexing: what the primitive moves and the loops of the scanner keep.
use kyna.Base.{
  ℕ, ◌+◌, ◌≤◌, ◌<◌, ◌≡◌, ◌≢◌, refl, ◌∙◌, Bool, Bool-cases, inl, inr, true, false, not, ◌&&◌, arith,
  ◌==◌, zero, suc,
}
use kyna.Source.Positions.{line_at, column_at, line_at_suc, column_at_suc}
use kyna.Lexing.Scanner.{TokenScanner, size, at_end, remaining, advance, peek, peek_next, take_if}
use kyna.Lexing.Scanner.Literal.{
  is_digit, is_alpha, is_alnum, is_word, advance_while, skip_digits, skip_word, skip_line,
}

-- The scanner stands within its text, and its line and column are those of the position.
pub record IsPlaced (s : TokenScanner) : Type 0 where
  pub within : s.current ≤ size s
  pub line : s.line ≡ line_at s.source.text s.current
  pub column : s.column ≡ column_at s.source.text s.current

-- From `s` to `t` the scanner has only consumed bytes.
pub record Moves (s t : TokenScanner) : Type 0 where
  pub source : t.source ≡ s.source
  pub tokens : t.tokens ≡ s.tokens
  pub diagnostics : t.diagnostics ≡ s.diagnostics
  pub token_start : t.token_start ≡ s.token_start
  pub start_line : t.start_line ≡ s.start_line
  pub start_column : t.start_column ≡ s.start_column
  pub forward : s.current ≤ t.current
  pub placed : IsPlaced t

pub Moves-refl : (s : TokenScanner) → IsPlaced s → Moves s s
Moves-refl s p = record {
  source = refl;
  tokens = refl;
  diagnostics = refl;
  token_start = refl;
  start_line = refl;
  start_column = refl;
  forward = omega arith;
  placed = p;
}

pub Moves-trans : (s t u : TokenScanner) → Moves s t → Moves t u → Moves s u
Moves-trans s t u p q = record {
  source = q.source ∙ p.source;
  tokens = q.tokens ∙ p.tokens;
  diagnostics = q.diagnostics ∙ p.diagnostics;
  token_start = q.token_start ∙ p.token_start;
  start_line = q.start_line ∙ p.start_line;
  start_column = q.start_column ∙ p.start_column;
  forward = omega (arith, p.forward, q.forward);
  placed = q.placed;
}

advance-IsPlaced : (s : TokenScanner) → IsPlaced s → s.current < size s → IsPlaced (advance s)
unfolding advance
advance-IsPlaced s p h =
    ground (arith, line_at_suc s.source.text s.current h, column_at_suc s.source.text s.current h)

pub current-advance : (s : TokenScanner) → (advance s).current ≡ s.current + 1
unfolding advance
current-advance s = ground arith

pub advance-Moves : (s : TokenScanner) → IsPlaced s → s.current < size s → Moves s (advance s)
unfolding advance
advance-Moves s p h = record {
  source = ground arith;
  tokens = ground arith;
  diagnostics = ground arith;
  token_start = ground arith;
  start_line = ground arith;
  start_column = ground arith;
  forward = ground arith;
  placed = advance-IsPlaced s p h;
}

pub advance-size : (s : TokenScanner) → size (advance s) ≡ size s
unfolding advance
advance-size s = ground arith

-- A byte that is not zero was read inside the text.
pub lt-size-peek : (s : TokenScanner) → peek s ≢ 0 → s.current < size s
unfolding peek at_end
lt-size-peek s h = ground arith

pub lt-size-at_end : (s : TokenScanner) → at_end s ≡ false → s.current < size s
unfolding at_end
lt-size-at_end s h = ground arith

pub lt-size-peek_next : (s : TokenScanner) → peek_next s ≢ 0 → s.current + 1 < size s
unfolding peek_next
lt-size-peek_next s h = ground arith

-- One more move of a scanner that has moved, and what is left falls.
pub step-Moves :
    (s t : TokenScanner)
    → Moves s t
    → t.current < size t
    → Moves s (advance t) × (remaining (advance t) < remaining t)
step-Moves s t m h =
    let step = advance-Moves t m.placed h in
    (Moves-trans s t (advance t) m step, omega (arith, advance-size t, current-advance t))

pub take_if-Moves :
    (expected : ℕ) (s t : TokenScanner) → expected ≢ 0 → Moves s t → Moves s (take_if expected t).1
unfolding take_if
take_if-Moves expected s t e m = elim (Bool-cases (peek t == expected)) [
  | inl found ↦ rw found (step-Moves s t m (lt-size-peek t (ground arith))).0
  | inr other ↦ rw other m
]

-- The byte that `peek` gives at the end is no digit and no part of a word.
digit-ne-zero : (c : ℕ) → is_digit c ≡ true → c ≢ 0
unfolding is_digit
digit-ne-zero c h = ground arith

word-ne-zero : (c : ℕ) → is_word c ≡ true → c ≢ 0
unfolding is_word is_alnum is_alpha is_digit
word-ne-zero c h = ground arith

-- A loop that consumes bytes while a test holds, which the end of the text fails, ends by its test.
advance_while-Moves :
    (s : TokenScanner) (test : TokenScanner → Bool)
    → ((u : TokenScanner) → test u ≡ true → u.current < size u)
    → (n : ℕ) (t : TokenScanner) → remaining t ≤ n
    → Moves s t
    → Moves s (advance_while test n t) × (test (advance_while test n t) ≡ false)
unfolding advance_while
advance_while-Moves s test inside zero t h m = elim (Bool-cases (test t)) [
  | inl going ↦ let k = step-Moves s t m (inside t going) in absurd (omega (arith, k.1))
  | inr over ↦ (m, over)
]
advance_while-Moves s test inside (suc n) t h m = elim (Bool-cases (test t)) [
  | inl going ↦
      let k = step-Moves s t m (inside t going) in
      rw (going, advance_while)
        (advance_while-Moves s test inside n (advance t) (omega (arith, k.1)) k.0)
  | inr over ↦ rw (over, advance_while) (m, over)
]

module _ (s t : TokenScanner) (m : Moves s t) where
  -- A loop that consumes bytes while a test on the next byte holds that fails at the end.
  loop-Moves :
      (test : TokenScanner → Bool)
      → ((u : TokenScanner) → test u ≡ true → u.current < size u)
      → Moves s (advance_while test (remaining t) t)
        × (test (advance_while test (remaining t) t) ≡ false)
  loop-Moves test inside = advance_while-Moves s test inside (remaining t) t (omega arith) m

  -- The digits are consumed up to a byte that is none.
  pub skip_digits-Moves : Moves s (skip_digits t) × (is_digit (peek (skip_digits t)) ≡ false)
  unfolding skip_digits
  skip_digits-Moves = loop-Moves _ λ u h. lt-size-peek u (digit-ne-zero (peek u) h)

  pub skip_word-Moves : Moves s (skip_word t) × (is_word (peek (skip_word t)) ≡ false)
  unfolding skip_word
  skip_word-Moves = loop-Moves _ λ u h. lt-size-peek u (word-ne-zero (peek u) h)

  -- A line comment ends at a line feed or at the end of the text.
  pub skip_line-Moves :
      Moves s (skip_line t)
      × ((not (at_end (skip_line t)) && not (peek (skip_line t) == b'\n')) ≡ false)
  unfolding skip_line
  skip_line-Moves = loop-Moves _ λ u h. lt-size-at_end u (ground arith)
