-- ===== src/Lexing/Rounds.antt =====
-- compiler/kyna_lexing/src/checkers/punctuation_scanner.cpp: the result of `scanToken`, on each of
-- its branches.
use kyna.Base.{
  ℕ, ◌<◌, ◌≡◌, refl, Bool, true, false, ◌&&◌, ◌||◌, inl, inr, Bool-cases, Option, none, some, arith,
  ◌==◌, if◌then◌else◌, Each, nothing, just, Each-if,
}
use kyna.Lexing.Token.{TokenKind}
use kyna.Lexing.Scanner.{TokenScanner, done, size, peek, advance, take_if, add}
use kyna.Lexing.Scanner.Literal.{is_space, is_digit, is_alpha}
use kyna.Lexing.Scanner.Punctuation.{
  single_kind, add_taken, add_equal, add_and, pair_token, literal_token, switch_token, scan_token,
}
use kyna.Lexing.Moves.{
  IsPlaced, Moves, Moves-refl, advance-Moves, take_if-Moves, skip_line-Moves, lt-size-peek,
}
use kyna.Lexing.Results.{
  is_reserved, Result, skipped, Result-if, fail-Result, add-Result, scan_string-Result,
  scan_character-Result, scan_number-Result, scan_identifier-Result, scan_block_comment-Result,
}

single_kind-reserved : (c : ℕ) → Each (λ kind. is_reserved kind ≡ false) (single_kind c)
unfolding single_kind
single_kind-reserved c = search (Each-if, just, nothing) depth 18

-- A token that `pair_token` makes.
abbrev PairResult : TokenScanner → Option TokenScanner → Type 0
PairResult s = Each (λ t. Result s (done t))

module _ (s t : TokenScanner) (m : Moves s t) where
  add_taken-Result :
      (expected : ℕ) (taken otherwise : TokenKind)
      → (expected ≡ 0 → ⊥)
      → is_reserved taken ≡ false
      → is_reserved otherwise ≡ false
      → Result s (done (add_taken expected taken otherwise t))
  unfolding add_taken
  add_taken-Result expected taken otherwise e p q =
      add-Result s _ _ (either (take_if expected t).0) (take_if-Moves expected s t e m)
    where
      either : (b : Bool) → is_reserved (if b then taken else otherwise) ≡ false
      either true = p
      either false = q

module _ (s t : TokenScanner) (m : Moves s t) where
  add_equal-Result : Result s (done (add_equal t))
  unfolding add_equal
  add_equal-Result =
      let moved = take_if-Moves b'=' s t (omega arith) m in
      elim (Bool-cases (take_if b'=' t).0) [
        | inl e ↦ rw e (add-Result s _ _ refl moved)
        | inr e ↦ rw e (add_taken-Result s _ moved b'>' _ _ (omega arith) refl refl)
      ]

  add_and-Result : Result s (add_and t)
  unfolding add_and
  add_and-Result =
      let moved = take_if-Moves b'&' s t (omega arith) m in
      Result-if s (take_if b'&' t).0 (λ _. add-Result s _ _ refl moved)
        λ _. fail-Result s _ _ _ moved

  pair_token-Result : (c : ℕ) → PairResult s (pair_token c t)
  unfolding pair_token
  pair_token-Result c =
      let taken = add_taken-Result s t m in
      Each-if (c == b'-')
        (just (taken b'>' TokenKind.arrow TokenKind.minus (omega arith) refl refl))
        (Each-if (c == b'=') (just add_equal-Result) (
          Each-if (c == b'!')
            (just (taken b'=' TokenKind.bang_equal TokenKind.bang (omega arith) refl refl))
            (Each-if (c == b'<')
              (just (taken b'=' TokenKind.less_equal TokenKind.less (omega arith) refl refl))
              (Each-if (c == b'>')
                (just
                  (taken b'=' TokenKind.greater_equal TokenKind.greater (omega arith) refl refl))
                (Each-if (c == b'|')
                  (just (taken b'|' TokenKind.or_or TokenKind.pipe (omega arith) refl refl))
                  nothing)))))

  literal_token-Result : (c : ℕ) → Result s (literal_token c t)
  unfolding literal_token
  literal_token-Result c =
      Result-if s (c == b'&') (λ _. add_and-Result)
        λ _.
          Result-if s (c == b'"') (λ _. scan_string-Result s t m)
            λ _.
              Result-if s (c == b'\'') (λ _. scan_character-Result s t m)
                λ _.
                  Result-if s (is_digit c) (λ _. scan_number-Result s t m)
                    λ _.
                      Result-if s (is_alpha c || c == b'_') (λ _. scan_identifier-Result s t m)
                        λ _. fail-Result s t _ _ m

  switch_token-Result : (c : ℕ) → Result s (switch_token c t)
  unfolding switch_token
  switch_token-Result c =
      single (single_kind c) (pair_token c t) (single_kind-reserved c) (pair_token-Result c)
    where
      single :
          (o : Option TokenKind) (p : Option TokenScanner)
          → Each (λ kind. is_reserved kind ≡ false) o
          → PairResult s p
          → Result s (elim o [
            | some kind ↦ done (add kind t)
            | none ↦ elim p [ some s' ↦ done s' | none ↦ literal_token c t ]
          ])
      single (some kind) p (just k) r = add-Result s kind t k m
      single none (some t') k (just r) = r
      single none none k r = literal_token-Result c

-- From a position inside the text `scanToken` consumes a byte, and then gives a result.
pub scan_token-Result :
    (s : TokenScanner) → IsPlaced s → s.current < size s → Result (advance s) (scan_token s)
unfolding scan_token
scan_token-Result s p h =
    let t = advance s in
    let m = Moves-refl t (advance-Moves s p h).placed in
    Result-if t (is_space (peek s)) (λ _. skipped m)
      λ _.
        Result-if t (peek s == b'#') (λ _. skipped (skip_line-Moves t t m).0)
          λ _.
            Result-if t (peek s == b'/' && peek t == b'/') (λ _. skipped (skip_line-Moves t t m).0)
              λ _.
                Result-if t (peek s == b'/' && peek t == b'*')
                  (λ e. scan_block_comment-Result t t m (lt-size-peek t (ground arith)))
                  λ _. switch_token-Result t t m (peek s)
