-- ===== src/Source/Tests.antt =====
-- compiler/kyna_source: a text of two lines, and the properties at it.
use kyna.Base.{◌≡◌, ◌∷◌, List, ℕ, codes, arith}
use kyna.Source.{locate, starts_after}
use kyna.Source.Positions.{locate_lem, line_at, column_at}

abbrev two_lines : List ℕ
two_lines = codes "one\ntwo"

locate_example :
    locate (0 ∷ starts_after 0 two_lines) 5 ≡ (line_at two_lines 5, column_at two_lines 5)
locate_example = locate_lem two_lines 5 (omega arith)
