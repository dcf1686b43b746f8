-- ===== src/Vm/Collection/Reach.antt =====
-- runtime/kyna_vm/src/memory/managed_heap.cpp: the marking reaches what its own steps lead to from the
-- roots, and nothing else; Paths says what that is in the heap.
use kyna.Base.{
  ℕ, zero, suc, ◌≡◌, refl, sym, true, false, List, [], ◌∷◌, ◌++◌, Option, none, some, ap, Each,
  nothing, just, arith, Bool-cases, inl, inr, All, All-append, All-map, subst, ◌⊎◌,
}
use kyna.Vm.Value.{RuntimeValue, Heap}
use kyna.Vm.Collection.{
  Reference, same, contains, reference, values_behind, cells_behind, Tracer, mark, visit,
  trace_round, trace,
}

-- The element is on the list.
pub data In {ℓ} {A : Type ℓ} (x : A) : List A → Type ℓ where
  first : {xs : List A} → In x (x ∷ xs)
  next : {y : A} {xs : List A} → In x xs → In x (y ∷ xs)

-- The references that the marking can come to.
pub data Led (h : Heap) (values : List RuntimeValue) (cells : List ℕ) : Reference → Type 0 where
  root :
      {v : RuntimeValue} {r : Reference} → In v values → reference v ≡ some r → Led h values cells r
  root_cell : {c : ℕ} → In c cells → Led h values cells (Reference.cell c)
  value :
      {q r : Reference} {v : RuntimeValue}
      → Led h values cells q
      → In v (values_behind h q)
      → reference v ≡ some r
      → Led h values cells r
  cell :
      {q : Reference} {c : ℕ}
      → Led h values cells q
      → In c (cells_behind h q)
      → Led h values cells (Reference.cell c)

pub In-left {ℓ} : {A : Type ℓ} {x : A} {xs : List A} (ys : List A) → In x xs → In x (xs ++ ys)
In-left ys first = first
In-left ys (next i) = next (In-left ys i)

pub In-right {ℓ} : {A : Type ℓ} {x : A} (xs : List A) {ys : List A} → In x ys → In x (xs ++ ys)
In-right [] i = i
In-right (y ∷ xs) i = next (In-right xs i)

pub same_refl : (r : Reference) → same r r ≡ true
unfolding same
same_refl (Reference.object a) = ground arith
same_refl (Reference.array a) = ground arith
same_refl (Reference.cell a) = ground arith
same_refl (Reference.closure a) = ground arith
same_refl (Reference.bound_method a) = ground arith
same_refl (Reference.error a) = ground arith

pub same-eq : (q r : Reference) → same q r ≡ true → q ≡ r
unfolding same
same-eq (Reference.object a) (Reference.object b) e = ap Reference.object (ground arith)
same-eq (Reference.array a) (Reference.array b) e = ap Reference.array (ground arith)
same-eq (Reference.cell a) (Reference.cell b) e = ap Reference.cell (ground arith)
same-eq (Reference.closure a) (Reference.closure b) e = ap Reference.closure (ground arith)
same-eq (Reference.bound_method a) (Reference.bound_method b) e =
    ap Reference.bound_method (ground arith)
same-eq (Reference.error a) (Reference.error b) e = ap Reference.error (ground arith)
same-eq _ _ e = absurd (cc)

pub contains-All :
    (P : Reference → Type 0) (marks : List Reference) (r : Reference)
    → All P marks
    → contains marks r ≡ true
    → P r
unfolding contains
contains-All P [] r h e = absurd (cc)
contains-All P (x ∷ marks) r h e = elim (Bool-cases (same x r)) [
  | inl found ↦ subst P (same-eq x r found) h.0
  | inr other ↦ contains-All P marks r h.1 (ground (arith, other, e))
]

module _ (h : Heap) where
  -- What the marking of a reference does to the queues and the marks.
  pub data Marked (r : Reference) (t : Tracer) : Tracer → Type 0 where
    known : contains t.marks r ≡ true → Marked r t t
    fresh :
        contains t.marks r ≡ false
        → Marked r t (record {
          marks = r ∷ t.marks;
          values = t.values ++ values_behind h r;
          cells = t.cells ++ cells_behind h r;
        })

  pub mark-Marked : (r : Reference) (t : Tracer) → Marked r t (mark h r t)
  unfolding mark
  mark-Marked r t = elim (Bool-cases (contains t.marks r)) [
    | inl old ↦ rw (old, mark) (known old)
    | inr new ↦ rw (new, mark) (fresh new)
  ]

  -- The queues and the marks hold only what the roots lead to.
  pub record Sound (values : List RuntimeValue) (cells : List ℕ) (t : Tracer) : Type 0 where
    pub pending : All (λ v. (r : Reference) → reference v ≡ some r → Led h values cells r) t.values
    pub pending_cells : All (λ c. Led h values cells (Reference.cell c)) t.cells
    pub marks : All (Led h values cells) t.marks

  pub All-In {ℓ} :
      {A : Type ℓ} (P : A → Type 0) (xs : List A) → ((x : A) → In x xs → P x) → All P xs
  All-In P [] f = tt
  All-In P (x ∷ xs) f = (f x first, All-In P xs λ y i. f y (next i))

  Marked-Sound :
      (values : List RuntimeValue) (cells : List ℕ) (r : Reference) {t t' : Tracer}
      → Led h values cells r
      → Marked r t t'
      → Sound values cells t
      → Sound values cells t'
  Marked-Sound values cells r x (known e) s = s
  Marked-Sound values cells r x (fresh e) s = record {
    pending = All-append _ _ _ s.pending (All-In _ _ λ v i q e'. value x i e');
    pending_cells = All-append _ _ _ s.pending_cells (All-In _ _ λ c i. cell x i);
    marks = (x, s.marks);
  }

  -- What a round keeps, the loop keeps.
  after :
      (P : Tracer → Type 0) (n : ℕ) (t : Tracer) (o : Option Tracer)
      → P t
      → ((t' : Tracer) → P t' → P (trace h n t'))
      → Each P o
      → P (elim o [ none ↦ t | some t' ↦ trace h n t' ])
  after P n t _ x hyp nothing = x
  after P n t _ x hyp (just y) = hyp _ y

  pub trace-keeps :
      (P : Tracer → Type 0)
      → ((values : List RuntimeValue) (cells : List ℕ) (marks : List Reference)
          → P (record { marks = marks; values = values; cells = cells })
          → Each P (trace_round h values cells marks))
      → (n : ℕ) (t : Tracer) → P t
      → P (trace h n t)
  unfolding trace
  trace-keeps P step zero t x = x
  trace-keeps P step (suc n) t x =
      after P n t _ x (trace-keeps P step n) (step t.values t.cells t.marks x)

  module _ (values0 : List RuntimeValue) (cells0 : List ℕ) where
    visit-Sound :
        (o : Option Reference) (t : Tracer)
        → ((r : Reference) → o ≡ some r → Led h values0 cells0 r)
        → Sound values0 cells0 t
        → Sound values0 cells0 (visit h o t)
    unfolding visit
    visit-Sound none t x s = s
    visit-Sound (some r) t x s = Marked-Sound values0 cells0 r (x r refl) (mark-Marked r t) s

    pub round-Sound :
        (values : List RuntimeValue) (cells : List ℕ) (marks : List Reference)
        → Sound values0 cells0 (record { marks = marks; values = values; cells = cells })
        → Each (Sound values0 cells0) (trace_round h values cells marks)
    unfolding trace_round
    round-Sound [] [] marks s = nothing
    round-Sound (v ∷ values) [] marks s = just (
        visit-Sound (reference v) _ s.pending.0
          (record { pending = s.pending.1; pending_cells = tt; marks = s.marks }))
    round-Sound values (c ∷ cells) marks s = just (
        Marked-Sound values0 cells0 (Reference.cell c) s.pending_cells.0
          (mark-Marked (Reference.cell c) _)
          (record { pending = s.pending; pending_cells = s.pending_cells.1; marks = s.marks }))

    -- The value or the cell is in its queue, or marked.
    abbrev pub Covered : Tracer → RuntimeValue → Type 0
    Covered t v =
        (r : Reference) → reference v ≡ some r → In v t.values ⊎ (contains t.marks r ≡ true)

    abbrev pub CoveredCell : Tracer → ℕ → Type 0
    CoveredCell t c = In c t.cells ⊎ (contains t.marks (Reference.cell c) ≡ true)

    pub record Complete (t : Tracer) : Type 0 where
      pub roots : All (Covered t) values0
      pub root_cells : All (CoveredCell t) cells0
      pub behind : (q : Reference) → contains t.marks q ≡ true → All (Covered t) (values_behind h q)
      pub cells_behind :
          (q : Reference) → contains t.marks q ≡ true → All (CoveredCell t) (cells_behind h q)

    -- What is covered stays so.
    record Covers (t t' : Tracer) : Type 0 where
      pub value : (v : RuntimeValue) → Covered t v → Covered t' v
      pub cell : (c : ℕ) → CoveredCell t c → CoveredCell t' c

    Complete-Covers :
        {t t' : Tracer}
        → Covers t t'
        → ((q : Reference)
            → contains t'.marks q ≡ true
            → (contains t.marks q ≡ true)
              ⊎ (All (Covered t') (values_behind h q) × All (CoveredCell t') (cells_behind h q)))
        → Complete t
        → Complete t'
    Complete-Covers x split c = record {
      roots = All-map _ _ x.value values0 c.roots;
      root_cells = All-map _ _ x.cell cells0 c.root_cells;
      behind = λ q e. elim (split q e) [
        | inl old ↦ All-map _ _ x.value (values_behind h q) (c.behind q old)
        | inr new ↦ new.0
      ];
      cells_behind = λ q e. elim (split q e) [
        | inl old ↦ All-map _ _ x.cell (cells_behind h q) (c.cells_behind q old)
        | inr new ↦ new.1
      ];
    }

    Marked-contains : {r : Reference} {t t' : Tracer} → Marked r t t' → contains t'.marks r ≡ true
    unfolding contains
    Marked-contains (known e) = e
    Marked-contains {r} (fresh e) = ground (arith, same_refl r)

    Marked-keeps :
        {r : Reference} {t t' : Tracer}
        → Marked r t t'
        → (q : Reference) → contains t.marks q ≡ true
        → contains t'.marks q ≡ true
    unfolding contains
    Marked-keeps (known e) q x = x
    Marked-keeps {r} (fresh e) q x = ground (arith, x)

    Marked-split :
        {r : Reference} {t t' : Tracer}
        → Marked r t t'
        → (q : Reference) → contains t'.marks q ≡ true
        → (contains t.marks q ≡ true)
          ⊎ (All (Covered t') (values_behind h q) × All (CoveredCell t') (cells_behind h q))
    unfolding contains
    Marked-split (known e) q x = inl x
    Marked-split {r} {t} (fresh e) q x = elim (Bool-cases (same r q)) [
      | inl found ↦
          let eq : q ≡ r = sym (same-eq r q found) in
          inr (
            rw eq (All-In _ _ λ v i s e'. inl (In-right t.values i)),
            rw eq (All-In _ _ λ c i. inl (In-right t.cells i)),
          )
      | inr other ↦ inl (ground (arith, other, x))
    ]

    Marked-Covers : {r : Reference} {t t' : Tracer} → Marked r t t' → Covers t t'
    Marked-Covers (known e) = record { value = λ v x. x; cell = λ c x. x }
    Marked-Covers {r} {t} (fresh e) = record {
      value = λ v x q e'. elim (x q e') [
        | inl i ↦ inl (In-left _ i)
        | inr k ↦ inr (Marked-keeps {t = t} (fresh e) q k)
      ];
      cell = λ c x. elim x [
        | inl i ↦ inl (In-left _ i)
        | inr k ↦ inr (Marked-keeps {t = t} (fresh e) (Reference.cell c) k)
      ];
    }

    -- The round of a value: it is taken from the queue and what it leads to is marked.
    popped_value :
        (v w : RuntimeValue) (values : List RuntimeValue) (marks : List Reference)
        (o : Option Reference) (r : Reference)
        → reference v ≡ o
        → reference w ≡ some r
        → In w (v ∷ values)
        → In w (visit h o (record { marks = marks; values = values; cells = [] })).values
          ⊎ (contains (visit h o (record { marks = marks; values = values; cells = [] })).marks r
              ≡ true)
    unfolding visit
    popped_value v _ values marks none r e e' first = absurd (cc)
    popped_value v _ values marks (some q) r e e' first =
        let eq : q ≡ r = cc in
        let base : Tracer = record { marks = marks; values = values; cells = [] } in
        inr (
          subst (λ x. contains (mark h q base).marks x ≡ true) eq
            (Marked-contains {t = base} (mark-Marked q base)))
    popped_value v w values marks none r e e' (next i) = inl i
    popped_value v w values marks (some q) r e e' (next i) =
        (Marked-Covers (mark-Marked q _)).value w (λ _ _. inl i) r e'

    visit-Covers : (o : Option Reference) (t : Tracer) → Covers t (visit h o t)
    unfolding visit
    visit-Covers none t = record { value = λ v x. x; cell = λ c x. x }
    visit-Covers (some r) t = Marked-Covers (mark-Marked r t)

    visit-split :
        (o : Option Reference) (t : Tracer) (q : Reference)
        → contains (visit h o t).marks q ≡ true
        → (contains t.marks q ≡ true)
          ⊎ (All (Covered (visit h o t)) (values_behind h q)
              × All (CoveredCell (visit h o t)) (cells_behind h q))
    unfolding visit
    visit-split none t q x = inl x
    visit-split (some r) t q x = Marked-split (mark-Marked r t) q x

    value-Covers :
        (v : RuntimeValue) (values : List RuntimeValue) (marks : List Reference)
        → Covers
            (record { marks = marks; values = v ∷ values; cells = [] })
            (visit h (reference v) (record { marks = marks; values = values; cells = [] }))
    value-Covers v values marks = record {
      value = λ w x r e. elim (x r e) [
        | inl i ↦ popped_value v w values marks (reference v) r refl e i
        | inr k ↦ (visit-Covers (reference v) _).value w (λ _ e'. inr (known_mark w r e k _ e')) r e
      ];
      cell = λ c x. (visit-Covers (reference v) _).cell c x;
    }
      where
        known_mark :
            (w : RuntimeValue) (r : Reference)
            → reference w ≡ some r
            → contains marks r ≡ true
            → (q : Reference) → reference w ≡ some q
            → contains marks q ≡ true
        known_mark w r e k q e' = let eq : r ≡ q = cc in subst (λ x. contains marks x ≡ true) eq k

    popped_cell :
        (c d : ℕ) (values : List RuntimeValue) (cells : List ℕ) (marks : List Reference)
        {t' : Tracer}
        → Marked (Reference.cell c) (record { marks = marks; values = values; cells = cells }) t'
        → In d (c ∷ cells)
        → CoveredCell t' d
    popped_cell c _ values cells marks m first = inr (Marked-contains m)
    popped_cell c d values cells marks m (next i) = (Marked-Covers m).cell d (inl i)

    cell-Covers :
        (c : ℕ) (values : List RuntimeValue) (cells : List ℕ) (marks : List Reference) {t' : Tracer}
        → Marked (Reference.cell c) (record { marks = marks; values = values; cells = cells }) t'
        → Covers (record { marks = marks; values = values; cells = c ∷ cells }) t'
    cell-Covers c values cells marks m = record {
      value = λ v x. (Marked-Covers m).value v x;
      cell = λ d x. elim x [
        | inl i ↦ popped_cell c d values cells marks m i
        | inr k ↦ (Marked-Covers m).cell d (inr k)
      ];
    }

    pub round-Complete :
        (values : List RuntimeValue) (cells : List ℕ) (marks : List Reference)
        → Complete (record { marks = marks; values = values; cells = cells })
        → Each Complete (trace_round h values cells marks)
    unfolding trace_round
    round-Complete [] [] marks x = nothing
    round-Complete (v ∷ values) [] marks x =
        just (Complete-Covers (value-Covers v values marks) (visit-split (reference v) _) x)
    round-Complete values (c ∷ cells) marks x = just (
        Complete-Covers (cell-Covers c values cells marks (mark-Marked (Reference.cell c) _))
          (Marked-split (mark-Marked (Reference.cell c) _)) x)
