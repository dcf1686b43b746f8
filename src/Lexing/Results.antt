-- ===== src/Lexing/Results.antt =====
-- compiler/kyna_lexing: what one call of `scanToken` does: it consumes bytes, and then returns, or
-- adds one token that spans what it consumed, or throws with that span.
use kyna.Base.{
  ℕ, zero, suc, ◌<◌, ◌≡◌, ◌≢◌, refl, Bool, true, false, not, ◌&&◌, ◌||◌, inl, inr, Bool-cases, List,
  [], ◌∷◌, arith, ◌==◌, if◌then◌else◌, String,
}
use kyna.Diagnostics.{Diagnostic}
use kyna.Lexing.Token.{TokenKind}
use kyna.Lexing.Keyword.{keywords, find_kind, keyword_kind}
use kyna.Lexing.Scanner.{
  TokenScanner, Outcome, done, thrown, size, at_end, remaining, advance, peek, peek_next, take_if,
  current_span, lexeme, add, fail,
}
use kyna.Lexing.Scanner.Literal.{
  is_digit, string_step, string_loop, string_close, scan_string, character_close, scan_character,
  skip_digits, scan_number, skip_word, scan_identifier, closes_comment, comment_loop,
  scan_block_comment,
}
use kyna.Lexing.Moves.{
  Moves, step-Moves, take_if-Moves, lt-size-peek, lt-size-at_end, lt-size-peek_next,
  skip_digits-Moves, skip_word-Moves, current-advance, advance-size,
}

-- The kinds that no scanning function adds: `scan` itself makes those tokens.
abbrev pub is_reserved : TokenKind → Bool
is_reserved TokenKind.invalid = true
is_reserved TokenKind.end = true
is_reserved _ = false

pub data Result (s : TokenScanner) : Outcome → Type 0 where
  skipped : {t : TokenScanner} → Moves s t → Result s (done t)
  added :
      {t : TokenScanner} (kind : TokenKind) (u : TokenScanner)
      → is_reserved kind ≡ false
      → Moves s u
      → t ≡ add kind u
      → Result s (done t)
  failed :
      {d : Diagnostic} {t : TokenScanner}
      → d.location ≡ current_span t
      → d.warning ≡ false
      → Moves s t
      → Result s (thrown d t)

abbrev table_reserves : List (List ℕ × TokenKind) → Bool
table_reserves [] = false
table_reserves ((key, kind) ∷ table) = is_reserved kind || table_reserves table

find_kind-reserved :
    (table : List (List ℕ × TokenKind)) (word : List ℕ)
    → table_reserves table ≡ false
    → is_reserved (find_kind table word) ≡ false
unfolding find_kind
find_kind-reserved [] word h = refl
find_kind-reserved ((key, kind) ∷ table) word h = ground (arith, find_kind-reserved table word)

pub keyword_kind-reserved : (word : List ℕ) → is_reserved (keyword_kind word) ≡ false
unfolding keyword_kind
keyword_kind-reserved word = find_kind-reserved keywords word refl

closing : (t : TokenScanner) → closes_comment t ≡ true → (peek t ≢ 0) × (peek_next t ≢ 0)
unfolding closes_comment
closing t h = (ground arith, ground arith)

module _ (s : TokenScanner) where
  pub fail-Result :
      (t : TokenScanner) (message code : String) → Moves s t → Result s (fail t message code)
  unfolding fail
  fail-Result t message code m = failed refl refl m

  pub add-Result :
      (kind : TokenKind) (t : TokenScanner)
      → is_reserved kind ≡ false
      → Moves s t
      → Result s (done (add kind t))
  add-Result kind t k m = added kind t k m refl

  -- A function that goes on from a test gives a result if both its branches do.
  pub Result-if :
      {x y : Outcome} (b : Bool)
      → (b ≡ true → Result s x)
      → (b ≡ false → Result s y)
      → Result s (if b then x else y)
  Result-if true p q = p refl
  Result-if false p q = q refl

  string_step-Moves :
      (t : TokenScanner)
      → Moves s t
      → at_end t ≡ false
      → Moves s (string_step t) × (remaining (string_step t) < remaining t)
  unfolding string_step
  string_step-Moves t m h = elim (Bool-cases (peek t == b'\\' && not (peek_next t == 0))) [
    | inl escape ↦
        let first = step-Moves s t m (lt-size-at_end t h) in
        let inside : (advance t).current < size (advance t) =
          omega (arith, advance-size t, current-advance t, lt-size-peek_next t (ground arith)) in
        let second = step-Moves s (advance t) first.0 inside in
        rw escape (second.0, omega (arith, first.1, second.1))
    | inr plain ↦ rw plain (step-Moves s t m (lt-size-at_end t h))
  ]

  -- The loop ends at a quote or at the end of the text, or fails at a line feed.
  pub data Loop : Outcome → Type 0 where
    loop_done : {t : TokenScanner} → Moves s t → Loop (done t)
    loop_failed :
        {d : Diagnostic} {t : TokenScanner}
        → d.location ≡ current_span t
        → d.warning ≡ false
        → Moves s t
        → Loop (thrown d t)

  Loop-if :
      {x y : Outcome} (b : Bool)
      → (b ≡ true → Loop x)
      → (b ≡ false → Loop y)
      → Loop (if b then x else y)
  Loop-if true p q = p refl
  Loop-if false p q = q refl

  string_loop-Moves : (n : ℕ) (t : TokenScanner) → Moves s t → Loop (string_loop n t)
  unfolding string_loop fail
  string_loop-Moves zero t m = loop_done m
  string_loop-Moves (suc n) t m =
      Loop-if (not (at_end t) && not (peek t == b'"'))
        (λ h.
          Loop-if (peek t == b'\n') (λ e. loop_failed refl refl m)
            λ e. string_loop-Moves n (string_step t) (string_step-Moves t m (ground arith)).0)
        λ h. loop_done m

  string_close-Result : (t : TokenScanner) → Moves s t → Result s (string_close t)
  unfolding string_close
  string_close-Result t m =
      Result-if (at_end t) (λ h. fail-Result t _ _ m)
        λ h. add-Result TokenKind.string (advance t) refl (step-Moves s t m (lt-size-at_end t h)).0

  pub scan_string-Result : (t : TokenScanner) → Moves s t → Result s (scan_string t)
  unfolding scan_string
  scan_string-Result t m = close (string_loop (remaining t) t) (string_loop-Moves _ t m)
    where
      close :
          (o : Outcome)
          → Loop o
          → Result s (elim o [ done s' ↦ string_close s' | thrown d s' ↦ thrown d s' ])
      close o (loop_done m') = string_close-Result _ m'
      close o (loop_failed l w m') = failed l w m'

  character_close-Result : (t : TokenScanner) → Moves s t → Result s (character_close t)
  unfolding character_close
  character_close-Result t m =
      Result-if (at_end t) (λ h. fail-Result t _ _ m)
        λ h.
          let u = advance t in
          let moved =
            take_if-Moves b'\'' s u (omega arith) (step-Moves s t m (lt-size-at_end t h)).0 in
          Result-if (not (take_if b'\'' u).0) (λ e. fail-Result _ _ _ moved)
            λ e. add-Result TokenKind.char _ refl moved

  pub scan_character-Result : (t : TokenScanner) → Moves s t → Result s (scan_character t)
  unfolding scan_character
  scan_character-Result t m =
      Result-if (at_end t || peek t == b'\n') (λ h. fail-Result t _ _ m)
        λ h. character_close-Result _ (escaped h)
    where
      escaped :
          (at_end t || peek t == b'\n') ≡ false → Moves s (if peek t == b'\\' then advance t else t)
      escaped h = elim (Bool-cases (peek t == b'\\')) [
        | inl e ↦ rw e (step-Moves s t m (lt-size-at_end t (ground arith))).0
        | inr e ↦ rw e m
      ]

  pub scan_number-Result : (t : TokenScanner) → Moves s t → Result s (done (scan_number t))
  unfolding scan_number
  scan_number-Result t m =
      let whole = (skip_digits-Moves s t m).0 in
      elim (Bool-cases (peek (skip_digits t) == b'.' && is_digit (peek_next (skip_digits t)))) [
        | inl e ↦
            let inside = lt-size-peek (skip_digits t) (ground arith) in
            let point = (step-Moves s (skip_digits t) whole inside).0 in
            rw e (add-Result TokenKind.float _ refl (skip_digits-Moves s _ point).0)
        | inr e ↦ rw e (add-Result TokenKind.int _ refl whole)
      ]

  pub scan_identifier-Result : (t : TokenScanner) → Moves s t → Result s (done (scan_identifier t))
  unfolding scan_identifier
  scan_identifier-Result t m =
      add-Result _ _ (keyword_kind-reserved (lexeme (skip_word t))) (skip_word-Moves s t m).0

  comment_loop-Result : (n : ℕ) (t : TokenScanner) → Moves s t → Result s (comment_loop n t)
  unfolding comment_loop
  comment_loop-Result zero t m = fail-Result t _ _ m
  comment_loop-Result (suc n) t m =
      Result-if (closes_comment t)
        (λ h.
          let star = step-Moves s t m (lt-size-peek t (closing t h).0) in
          let inside : (advance t).current < size (advance t) =
            omega (arith, advance-size t, current-advance t, lt-size-peek_next t (closing t h).1) in
          skipped (step-Moves s (advance t) star.0 inside).0)
        λ h.
          Result-if (at_end t) (λ e. fail-Result t _ _ m)
            λ e. comment_loop-Result n (advance t) (step-Moves s t m (lt-size-at_end t e)).0

  pub scan_block_comment-Result :
      (t : TokenScanner) → Moves s t → t.current < size t → Result s (scan_block_comment t)
  unfolding scan_block_comment
  scan_block_comment-Result t m h = comment_loop-Result _ (advance t) (step-Moves s t m h).0
