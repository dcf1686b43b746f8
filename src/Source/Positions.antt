-- ===== src/Source/Positions.antt =====
-- compiler/kyna_source: the line and the column of a byte offset, told from the bytes before it, and
-- what `locate` finds by its search in the line starts.
use kyna.Base.{
  ltb, min, max, String, get_elem?-append_last, length-append, ◌||◌, false, ℕ, zero, suc, ◌+◌, ◌-◌,
  ◌≤◌, ◌<◌, ◌≡◌, refl, List, [], ◌∷◌, ◌++◌, arith, length, get_or, take, ◌==◌, if◌then◌else◌,
  take-suc, Bool-cases, inl, inr,
}
use kyna.Diagnostics.{SourceSpan}
use kyna.Source.{
  SourceFile, ManagedSource, SourceManager, starts_after, upper_bound, locate, span_of, span, add,
}

-- How many line feeds a text holds.
unfoldable pub newlines : List ℕ → ℕ
newlines [] = 0
newlines (c ∷ text) = (if c == b'\n' then 1 else 0) + newlines text

-- The number of bytes behind the last line feed; before the first one, `acc` more.
unfoldable pub trailing : ℕ → List ℕ → ℕ
trailing acc [] = acc
trailing acc (c ∷ text) = trailing (if c == b'\n' then 0 else acc + 1) text

-- Line and column of the offset `n`, from one.
abbrev pub line_at : List ℕ → ℕ → ℕ
line_at text n = newlines (take n text) + 1

abbrev pub column_at : List ℕ → ℕ → ℕ
column_at text n = trailing 0 (take n text) + 1

newlines-append : (s t : List ℕ) → newlines (s ++ t) ≡ newlines s + newlines t
unfolding newlines
newlines-append [] t = omega arith
newlines-append (c ∷ s) t = omega (arith, newlines-append s t)

trailing-append : (acc : ℕ) (s t : List ℕ) → trailing acc (s ++ t) ≡ trailing (trailing acc s) t
unfolding trailing
trailing-append acc [] t = refl
trailing-append acc (c ∷ s) t = trailing-append (if c == b'\n' then 0 else acc + 1) s t

module _ (text : List ℕ) (n : ℕ) (h : n < length text) where
  pub line_at_suc :
      line_at text (n + 1) ≡ line_at text n + (if get_or text n 0 == b'\n' then 1 else 0)
  unfolding newlines
  line_at_suc =
      let e : n + 1 ≡ suc n = omega arith in
      rw (e, take-suc n text 0 h, newlines-append) (ground arith)

  pub column_at_suc :
      column_at text (n + 1) ≡ (if get_or text n 0 == b'\n' then 1 else column_at text n + 1)
  unfolding trailing
  column_at_suc =
      let e : n + 1 ≡ suc n = omega arith in
      rw (e, take-suc n text 0 h, trailing-append) (ground arith)

-- The line starts behind `offset` are greater than it.
upper_bound-before :
    (text : List ℕ) (offset n : ℕ) → n ≤ offset → upper_bound (starts_after offset text) n ≡ 0
unfolding starts_after upper_bound
upper_bound-before [] offset n h = refl
upper_bound-before (c ∷ text) offset n h = ground (arith, upper_bound-before text (offset + 1) n)

upper_bound-starts_after :
    (text : List ℕ) (offset k n : ℕ)
    → n ≡ offset + k
    → k ≤ length text
    → upper_bound (starts_after offset text) n ≡ newlines (take k text)
unfolding starts_after upper_bound newlines
upper_bound-starts_after [] offset zero n e h = refl
upper_bound-starts_after [] offset (suc k) n e h = absurd (omega arith)
upper_bound-starts_after (c ∷ text) offset zero n e h =
    ground (arith, upper_bound-before text (offset + 1) n)
upper_bound-starts_after (c ∷ text) offset (suc k) n e h =
    ground (arith, upper_bound-starts_after text (offset + 1) k n)

get_or-starts_after :
    (text : List ℕ) (start offset k n : ℕ)
    → start ≤ offset
    → n ≡ offset + k
    → k ≤ length text
    → n - get_or (start ∷ starts_after offset text) (newlines (take k text)) 0
      ≡ trailing (offset - start) (take k text)
unfolding starts_after newlines trailing
get_or-starts_after [] start offset zero n s e h = omega arith
get_or-starts_after [] start offset (suc k) n s e h = absurd (omega arith)
get_or-starts_after (c ∷ text) start offset zero n s e h = omega arith
get_or-starts_after (c ∷ text) start offset (suc k) n s e h = elim (Bool-cases (c == b'\n')) [
  | inl feed ↦
      let count : 1 + newlines (take k text) ≡ suc (newlines (take k text)) = omega arith in
      let here : offset + 1 - (offset + 1) ≡ 0 = omega arith in
      rw (feed, count, trailing)
        (rw here at (
          get_or-starts_after text (offset + 1) (offset + 1) k n (omega arith) (omega arith)
            (omega arith)))
  | inr other ↦
      let count : 0 + newlines (take k text) ≡ newlines (take k text) = omega arith in
      let next : offset + 1 - start ≡ offset - start + 1 = omega arith in
      rw (other, count, trailing)
        (rw next at (
          get_or-starts_after text start (offset + 1) k n (omega arith) (omega arith)
            (omega arith)))
]

-- The search in the line starts finds the line and the column that the bytes before tell.
pub locate_lem :
    (text : List ℕ) (n : ℕ)
    → n ≤ length text
    → locate (0 ∷ starts_after 0 text) n ≡ (line_at text n, column_at text n)
unfolding locate upper_bound
locate_lem text n h = ground (
  arith,
  upper_bound-starts_after text 0 n n (omega arith) h,
  get_or-starts_after text 0 0 n n (omega arith) (omega arith) h,
)

-- The span of the bytes from `start` to `end`, its lines and columns told from the text.
abbrev pub span_between : SourceFile → ℕ → ℕ → SourceSpan
span_between source start end = record {
  source = source.id;
  start_byte = start;
  end_byte = end;
  line = line_at source.text start;
  column = column_at source.text start;
  end_line = line_at source.text end;
  end_column = column_at source.text end;
}

span_of_lem :
    (source : ManagedSource) (id start end : ℕ)
    → source.line_starts ≡ 0 ∷ starts_after 0 source.file.text
    → id ≡ source.file.id
    → start ≤ end
    → end ≤ length source.file.text
    → span_of source id start end ≡ span_between source.file start end
unfolding span_of
span_of_lem source id start end starts same h k =
    let first : min start (length source.file.text) ≡ start = omega arith in
    let last : min (max end start) (length source.file.text) ≡ end = omega arith in
    rw
      (
        first,
        last,
        starts,
        locate_lem source.file.text start (omega arith),
        locate_lem source.file.text end k,
      )
      (ground arith)

-- The manager's span of a piece of a source that it has added is told by the bytes before its ends.
pub span-add :
    (sources : SourceManager) (path : String) (text : List ℕ) (start end : ℕ)
    → start ≤ end
    → end ≤ length text
    → span (add sources path text).0 (add sources path text).1 start end
      ≡ span_between (record { id = length sources + 1; path = path; text = text }) start end
unfolding span add
span-add sources path text start end h k =
    rw (known, index, get_elem?-append_last sources source)
      (span_of_lem source (length sources + 1) start end refl refl h k)
  where
    source : ManagedSource
    source = record {
      file = record { id = length sources + 1; path = path; text = text };
      line_starts = 0 ∷ starts_after 0 text;
    }

    known :
        (length sources + 1 == 0 || ltb (length (sources ++ source ∷ [])) (length sources + 1))
        ≡ false
    known = ground (arith, length-append sources (source ∷ []))

    index : length sources + 1 - 1 ≡ length sources
    index = omega arith
