-- ===== src/Vm/Collection/Fuel.antt =====
-- runtime/kyna_vm/src/memory/managed_heap.cpp: the loop of the marking ends.
use kyna.Base.{
  ℕ, zero, suc, ◌+◌, ◌≤◌, ◌<◌, ◌≡◌, refl, false, List, [], ◌∷◌, ◌++◌, Option, none, some, arith,
  length, get_elem?, Bool-cases, inl, inr, ◌⊎◌, if◌then◌else◌, length-append, subst, ltb,
}
use native.Mathlib.Decide.{ℕ_discrete}
use kyna.Vm.Value.{Heap}
use kyna.Vm.Collection.{
  Reference, contains, values_behind, cells_behind, object_values, array_values, cell_values,
  receiver_values, cause_values, captured, Tracer, visit, edges,
}
use kyna.Vm.Collection.Reach.{
  In, first, next, In-left, In-right, same_refl, Marked, known, fresh, mark-Marked,
}

-- The references of a kind to the first `n` objects.
unfoldable pub enumerate : (ℕ → Reference) → ℕ → List Reference
enumerate kind zero = []
enumerate kind (suc n) = kind n ∷ enumerate kind n

In-enumerate : (kind : ℕ → Reference) (a n : ℕ) → a < n → In (kind a) (enumerate kind n)
unfolding enumerate
In-enumerate kind a zero l = absurd (omega arith)
In-enumerate kind a (suc n) l = elim (ℕ_discrete a n) [
  | yes at ↦ subst (λ x. In (kind a) (kind x ∷ enumerate kind n)) at first
  | no other ↦ next (In-enumerate kind a n (omega (arith, other)))
]

module _ (h : Heap) where
  -- The references to the objects of each kind, and all of them.
  abbrev pub objects_of : List Reference
  objects_of = enumerate Reference.object (length h.objects)

  abbrev pub arrays_of : List Reference
  arrays_of = enumerate Reference.array (length h.arrays)

  abbrev pub cells_of : List Reference
  cells_of = enumerate Reference.cell (length h.cells)

  abbrev pub closures_of : List Reference
  closures_of = enumerate Reference.closure (length h.closures)

  abbrev pub bound_methods_of : List Reference
  bound_methods_of = enumerate Reference.bound_method (length h.bound_methods)

  abbrev pub errors_of : List Reference
  errors_of = enumerate Reference.error (length h.errors)

  unfoldable pub everything : List Reference
  everything =
      objects_of ++ (arrays_of ++ (cells_of ++ (closures_of ++ (bound_methods_of ++ errors_of))))

  -- The pushes that unmarked references may still make.
  unfoldable pub weight : List Reference → List Reference → ℕ
  weight [] marks = 0
  weight (r ∷ refs) marks = (if contains marks r then 0 else edges h r) + weight refs marks

  weight_mono :
      (r : Reference) (refs marks : List Reference) → weight refs (r ∷ marks) ≤ weight refs marks
  unfolding weight contains
  weight_mono r [] marks = omega arith
  weight_mono r (q ∷ refs) marks = ground (arith, weight_mono r refs marks)

  weight-mark :
      (r : Reference) (refs marks : List Reference)
      → contains marks r ≡ false
      → In r refs
      → weight refs (r ∷ marks) + edges h r ≤ weight refs marks
  unfolding weight contains
  weight-mark r [] marks e i = elim i [ ]
  weight-mark r (_ ∷ refs) marks e first = ground (arith, same_refl r, e, weight_mono r refs marks)
  weight-mark r (q ∷ refs) marks e (next i) = ground (arith, weight-mark r refs marks e i)

  out_of {ℓ} :
      {A : Type ℓ} (xs : List A) (i : ℕ) → ltb i (length xs) ≡ false → get_elem? xs i ≡ none
  out_of [] i e = refl
  out_of (x ∷ xs) zero e = absurd (ground (arith, e))
  out_of (x ∷ xs) (suc i) e = out_of xs i (ground (arith, e))

  -- A reference that is not one of them leads nowhere.
  edges-everything : (r : Reference) → In r everything ⊎ (edges h r ≡ 0)
  unfolding everything edges values_behind cells_behind object_values array_values cell_values
      receiver_values cause_values captured
  edges-everything (Reference.object a) = elim (Bool-cases (ltb a (length h.objects))) [
    | inl l ↦ inl (
        In-left (arrays_of ++ (cells_of ++ (closures_of ++ (bound_methods_of ++ (errors_of)))))
          (In-enumerate Reference.object a (length h.objects) (ground arith)))
    | inr out ↦ inr (rw (out_of h.objects a out) refl)
  ]
  edges-everything (Reference.array a) = elim (Bool-cases (ltb a (length h.arrays))) [
    | inl l ↦ inl (
        In-right objects_of (
          In-left (cells_of ++ (closures_of ++ (bound_methods_of ++ (errors_of))))
            (In-enumerate Reference.array a (length h.arrays) (ground arith))))
    | inr out ↦ inr (rw (out_of h.arrays a out) refl)
  ]
  edges-everything (Reference.cell a) = elim (Bool-cases (ltb a (length h.cells))) [
    | inl l ↦ inl (
        In-right objects_of (
          In-right arrays_of (
            In-left (closures_of ++ (bound_methods_of ++ (errors_of)))
              (In-enumerate Reference.cell a (length h.cells) (ground arith)))))
    | inr out ↦ inr (rw (out_of h.cells a out) refl)
  ]
  edges-everything (Reference.closure a) = elim (Bool-cases (ltb a (length h.closures))) [
    | inl l ↦ inl (
        In-right objects_of (
          In-right arrays_of (
            In-right cells_of (
              In-left (bound_methods_of ++ (errors_of))
                (In-enumerate Reference.closure a (length h.closures) (ground arith))))))
    | inr out ↦ inr (rw (out_of h.closures a out) refl)
  ]
  edges-everything (Reference.bound_method a) = elim (Bool-cases (ltb a (length h.bound_methods))) [
    | inl l ↦ inl (
        In-right objects_of (
          In-right arrays_of (
            In-right cells_of (
              In-right closures_of (
                In-left (errors_of) (
                  In-enumerate Reference.bound_method a (length h.bound_methods)
                    (ground arith)))))))
    | inr out ↦ inr (rw (out_of h.bound_methods a out) refl)
  ]
  edges-everything (Reference.error a) = elim (Bool-cases (ltb a (length h.errors))) [
    | inl l ↦ inl (
        In-right objects_of (
          In-right arrays_of (
            In-right cells_of (
              In-right closures_of (
                In-right bound_methods_of
                  (In-enumerate Reference.error a (length h.errors) (ground arith)))))))
    | inr out ↦ inr (rw (out_of h.errors a out) refl)
  ]

  -- The rounds that are left at most.
  unfoldable pub potential : Tracer → ℕ
  potential t = length t.values + length t.cells + weight everything t.marks

  pub Marked-potential :
      (r : Reference) {t t' : Tracer} → Marked h r t t' → potential t' ≤ potential t
  unfolding potential edges
  Marked-potential r (known e) = omega arith
  Marked-potential r {t} (fresh e) = elim (edges-everything r) [
    | inl i ↦ omega (
      arith,
      weight-mark r everything t.marks e i,
      length-append t.values (values_behind h r),
      length-append t.cells (cells_behind h r),
    )
    | inr none_behind ↦ omega (
      arith,
      none_behind,
      weight_mono r everything t.marks,
      length-append t.values (values_behind h r),
      length-append t.cells (cells_behind h r),
    )
  ]

  pub visit-potential : (o : Option Reference) (t : Tracer) → potential (visit h o t) ≤ potential t
  unfolding visit
  visit-potential none t = omega arith
  visit-potential (some r) t = Marked-potential r (mark-Marked h r t)
