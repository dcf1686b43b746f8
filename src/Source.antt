-- ===== src/Source.antt =====
-- compiler/kyna_source: source files and the source manager, which maps byte offsets to lines and
-- columns. A text is the list of its bytes; reading a file (`load`) is the host's.
pub mod Positions
mod Tests
use kyna.Base.{
  ℕ, zero, suc, ◌+◌, ◌-◌, ◌≤◌, min, max, Bool, ◌&&◌, ◌||◌, List, [], ◌∷◌, ◌++◌, Option, none, some,
  String, length, get_elem?, get_or, take, drop, ltb, leb, ◌==◌, if◌then◌else◌,
}
use kyna.Diagnostics.{SourceSpan, unknown_span}

pub record SourceFile : Type 0 where
  pub id : ℕ
  pub path : String
  pub text : List ℕ

pub record ManagedSource : Type 0 where
  pub file : SourceFile
  pub line_starts : List ℕ

abbrev pub SourceManager : Type 0
SourceManager = List ManagedSource

-- The loop of `add`: from `offset` on, the offsets after each line feed.
unfoldable pub starts_after : ℕ → List ℕ → List ℕ
starts_after offset [] = []
starts_after offset (c ∷ text) =
    (if c == b'\n' then (offset + 1) ∷ [] else []) ++ starts_after (offset + 1) text

-- `SourceManager::add`, with the new id.
unfoldable pub add : SourceManager → String → List ℕ → SourceManager × ℕ
add sources path text =
    let id = length sources + 1 in
    (
      sources
          ++ (record {
            file = record { id = id; path = path; text = text };
            line_starts = 0 ∷ starts_after 0 text;
          }
              ∷ []),
      id,
    )

-- `SourceManager::find`; `none` for a null pointer.
unfoldable pub find : SourceManager → ℕ → Option SourceFile
find sources id =
    if id == 0 || ltb (length sources) id
    then none
    else elim (get_elem? sources (id - 1)) [ none ↦ none | some source ↦ some source.file ]

-- `std::upper_bound` on the line starts: how many of the first ones are at most `offset`.
unfoldable pub upper_bound : List ℕ → ℕ → ℕ
upper_bound [] offset = 0
upper_bound (s ∷ starts) offset = if ltb offset s then 0 else suc (upper_bound starts offset)

-- `locate` of `SourceManager::span`: line and column, from one.
unfoldable pub locate : List ℕ → ℕ → ℕ × ℕ
locate starts offset =
    let line_index = upper_bound starts offset - 1 in
    (line_index + 1, offset - get_or starts line_index 0 + 1)

-- The body of `SourceManager::span` at a source that is there.
unfoldable pub span_of : ManagedSource → ℕ → ℕ → ℕ → SourceSpan
span_of source id start end =
    let size = length source.file.text in
    let start' = min start size in
    let end' = min (max end start') size in
    let first = locate source.line_starts start' in
    let last = locate source.line_starts end' in
    record {
      source = id;
      start_byte = start';
      end_byte = end';
      line = first.0;
      column = first.1;
      end_line = last.0;
      end_column = last.1;
    }

-- `SourceManager::span`.
unfoldable pub span : SourceManager → ℕ → ℕ → ℕ → SourceSpan
span sources id start end =
    if id == 0 || ltb (length sources) id then unknown_span else elim (get_elem? sources (id - 1)) [
      | none ↦ unknown_span
      | some source ↦ span_of source id start end
    ]

-- `std::string::find` of a line feed from `start`; the size stands for `npos`, as the caller reads it.
unfoldable pub line_end : List ℕ → ℕ → ℕ
line_end [] start = start
line_end (c ∷ text) start = if c == b'\n' then start else line_end text (start + 1)

-- The body of `SourceManager::line` at a source that is there.
unfoldable pub line_of : ManagedSource → ℕ → List ℕ
line_of source index =
    if leb (length source.line_starts) index
    then []
    else let text = source.file.text in
      let start = get_or source.line_starts index 0 in
      let end = line_end (drop start text) start in
      let cut = ltb start end && get_or text (end - 1) 0 == b'\r' in
      take ((if cut then end - 1 else end) - start) (drop start text)

-- `SourceManager::line`, the bytes of a line counted from one.
unfoldable pub line : SourceManager → ℕ → ℕ → List ℕ
line sources id one_based_line =
    if id == 0 || ltb (length sources) id || ltb one_based_line 1
    then []
    else elim (get_elem? sources (id - 1)) [
      | none ↦ []
      | some source ↦ line_of source (one_based_line - 1)
    ]
