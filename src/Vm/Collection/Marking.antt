-- ===== src/Vm/Collection/Marking.antt =====
-- runtime/kyna_vm/src/memory/managed_heap.cpp: `collectRoots` keeps what the roots lead to, and only that.
use kyna.Base.{
  sym, subst, Bool-cases, ℕ, zero, suc, ◌+◌, ◌≤◌, ◌≡◌, ◌↔◌, refl, true, List, [], ◌∷◌, some, arith,
  length, inl, inr, All,
}
use kyna.Vm.Value.{RuntimeValue, Heap}
use kyna.Vm.Collection.{
  same, Reference, contains, reference, values_behind, cells_behind, Tracer, mark, visit,
  trace_round, trace, marked,
}
use kyna.Vm.Collection.Reach.{
  same-eq, In, first, next, Led, root, root_cell, value, cell, mark-Marked, Sound, Covered,
  CoveredCell, Complete, All-In, trace-keeps, round-Sound, round-Complete,
}
use kyna.Vm.Collection.Paths.{Reachable, Led-Reachable, Reachable-Led}
use kyna.Vm.Collection.Fuel.{everything, weight, potential, Marked-potential, visit-potential}

empty-length {ℓ} : {A : Type ℓ} (xs : List A) → length xs ≤ 0 → xs ≡ []
empty-length [] e = refl
empty-length (x ∷ xs) e = absurd (omega (arith, e))

-- The last one of a list that is empty.
In-nil {ℓ} : {A : Type ℓ} {x : A} {xs : List A} → In x xs → xs ≡ [] → ⊥
In-nil first e = absurd (cc)
In-nil (next i) e = absurd (cc)

pick {ℓ} : {A : Type ℓ} (P : A → Type 0) {x : A} (xs : List A) → All P xs → In x xs → P x
pick P [] p i = elim i [ ]
pick P (x ∷ xs) p first = p.0
pick P (y ∷ xs) p (next i) = pick P xs p.1 i

contains-In : (marks : List Reference) (r : Reference) → contains marks r ≡ true → In r marks
unfolding contains
contains-In [] r e = absurd (cc)
contains-In (x ∷ marks) r e = elim (Bool-cases (same x r)) [
  | inl found ↦ subst (λ y. In r (y ∷ marks)) (sym (same-eq x r found)) first
  | inr other ↦ next (contains-In marks r (ground (arith, other, e)))
]

module _ (h : Heap) where
  trace-Finished :
      (n : ℕ) (values : List RuntimeValue) (cells : List ℕ) (marks : List Reference)
      → potential h (record { marks = marks; values = values; cells = cells }) ≤ n
      → let t = trace h n (record { marks = marks; values = values; cells = cells }) in
        (t.values ≡ []) × (t.cells ≡ [])
  unfolding trace trace_round potential
  trace-Finished zero values cells marks e =
      (empty-length values (omega (arith, e)), empty-length cells (omega (arith, e)))
  trace-Finished (suc n) [] [] marks e = (refl, refl)
  trace-Finished (suc n) (v ∷ values) [] marks e =
      let t = visit h (reference v) (record { marks = marks; values = values; cells = [] }) in
      trace-Finished n t.values t.cells t.marks (
        omega (
          arith,
          e,
          visit-potential h (reference v) (record { marks = marks; values = values; cells = [] }),
        ))
  trace-Finished (suc n) values (c ∷ cells) marks e =
      let t =
        mark h (Reference.cell c) (record { marks = marks; values = values; cells = cells }) in
      trace-Finished n t.values t.cells t.marks (
        omega (
          arith,
          e,
          Marked-potential h (Reference.cell c) (
              mark-Marked h (Reference.cell c)
                (record { marks = marks; values = values; cells = cells })),
        ))

  module _ (values : List RuntimeValue) (cells : List ℕ) where
    abbrev begin : Tracer
    begin = record { marks = []; values = values; cells = cells }

    begin-Sound : Sound h values cells begin
    begin-Sound = record {
      pending = All-In h _ values λ v i r e. root i e;
      pending_cells = All-In h _ cells λ c i. root_cell i;
      marks = tt;
    }

    begin-Complete : Complete h values cells begin
    unfolding contains
    begin-Complete = record {
      roots = All-In h _ values λ v i r e. inl i;
      root_cells = All-In h _ cells λ c i. inl i;
      behind = λ q e. absurd (cc);
      cells_behind = λ q e. absurd (cc);
    }

    -- The rounds that the marking takes at most: one for each root and one for each push.
    abbrev pub enough_rounds : ℕ
    enough_rounds = length values + length cells + weight h (everything h) []

    trace-Complete : (n : ℕ) → Complete h values cells (trace h n begin)
    trace-Complete n =
        trace-keeps h (Complete h values cells)
          (λ vs cs marks c. round-Complete h values cells vs cs marks c) n begin begin-Complete

    trace-Sound : (n : ℕ) → Sound h values cells (trace h n begin)
    trace-Sound n =
        trace-keeps h (Sound h values cells)
          (λ vs cs marks s. round-Sound h values cells vs cs marks s) n begin begin-Sound

    trace-Empty :
        (n : ℕ)
        → enough_rounds ≤ n
        → ((trace h n begin).values ≡ []) × ((trace h n begin).cells ≡ [])
    unfolding potential
    trace-Empty n e = trace-Finished n values cells [] e

    Covered-marked :
        (t : Tracer)
        → t.values ≡ []
        → (v : RuntimeValue) (r : Reference) → Covered h values cells t v
        → reference v ≡ some r
        → contains t.marks r ≡ true
    Covered-marked t empty v r c e = elim (c r e) [ inl i ↦ absurd (In-nil i empty) | inr k ↦ k ]

    CoveredCell-marked :
        (t : Tracer)
        → t.cells ≡ []
        → (c : ℕ) → CoveredCell h values cells t c
        → contains t.marks (Reference.cell c) ≡ true
    CoveredCell-marked t empty c x = elim x [ inl i ↦ absurd (In-nil i empty) | inr k ↦ k ]

    Led-marked :
        (t : Tracer)
        → Complete h values cells t
        → t.values ≡ []
        → t.cells ≡ []
        → {r : Reference} → Led h values cells r
        → contains t.marks r ≡ true
    Led-marked t c e e' (root {v} {r} i at) =
        Covered-marked t e v r (pick (Covered h values cells t) values c.roots i) at
    Led-marked t c e e' (root_cell {c = k} i) =
        CoveredCell-marked t e' k (pick (CoveredCell h values cells t) cells c.root_cells i)
    Led-marked t c e e' (value {q} {r} {v} x i at) =
        let known = Led-marked t c e e' x in
        Covered-marked t e v r
          (pick (Covered h values cells t) (values_behind h q) (c.behind q known) i) at
    Led-marked t c e e' (cell {q} {c = k} x i) =
        let known = Led-marked t c e e' x in
        CoveredCell-marked t e' k
          (pick (CoveredCell h values cells t) (cells_behind h q) (c.cells_behind q known) i)

    -- The marking of a heap, when it is given a round for each root and for each value and capture
    -- cell in an object, marks a reference exactly if the roots lead to it: through the fields of objects, the
    -- elements of arrays, the cells of closures and what the cells hold, the receivers of bound methods, and
    -- the causes of errors.
    pub marked-Reachable :
        (n : ℕ)
        → enough_rounds ≤ n
        → (r : Reference) → In r (marked h n values cells) ↔ Reachable h values cells r
    unfolding marked
    marked-Reachable n enough r =
        let empty = trace-Empty n enough in
        (
          λ i. Led-Reachable h values cells (pick (Led h values cells) _ (trace-Sound n).marks i),
          λ x. contains-In _ r (
              Led-marked (trace h n begin) (trace-Complete n) empty.0 empty.1
                (Reachable-Led h values cells x)),
        )
