-- ===== src/Bytecode/Ancestors.antt =====
-- compiler/kyna_bytecode/src/validators/bytecode_validator.cpp: the search for a cycle among the
-- parents of classes finds none exactly when the parents of the class come to an end.
use kyna.Base.{
  ℕ, zero, suc, ◌+◌, ◌<◌, ◌≡◌, ◌↔◌, refl, sym, ap, subst, ◌∙◌, Bool, true, false, List, [], ◌∷◌,
  Option, none, some, arith, length, get_elem?, get_or, set, replicate, length-set,
  length-replicate, if◌then◌else◌, inl, inr, Bool-cases, Option-cases, lt-get_elem?,
}
use native.Mathlib.Decide.{ℕ_discrete}
use kyna.Bytecode.Program.{BytecodeClass}
use kyna.Bytecode.Validator.Classes.{find_cycle, cycle_from}

-- Following the parents from `cursor` comes to a class without one, or out of the table, in `n` steps
-- at most.
unfoldable pub ends_within : ℕ → List BytecodeClass → Option ℕ → Bool
ends_within n classes none = true
ends_within zero classes (some cursor) = false
ends_within (suc n) classes (some cursor) = elim (get_elem? classes cursor) [
  | none ↦ true
  | some klass ↦ ends_within n classes klass.parent
]

-- How many classes are not marked.
unfoldable pub unmarked : List Bool → ℕ
unmarked [] = 0
unmarked (b ∷ visited) = (if b then 0 else 1) + unmarked visited

unmarked-set :
    (visited : List Bool) (i : ℕ)
    → i < length visited
    → get_or visited i false ≡ false
    → unmarked (set visited i true) + 1 ≡ unmarked visited
unfolding unmarked
unmarked-set [] i h e = absurd (omega arith)
unmarked-set (b ∷ visited) zero h e = ground arith
unmarked-set (b ∷ visited) (suc i) h e = omega (arith, unmarked-set visited i (omega arith) e)

unmarked-replicate : (n : ℕ) → unmarked (replicate n false) ≡ n
unfolding unmarked
unmarked-replicate zero = refl
unmarked-replicate (suc n) = omega (arith, unmarked-replicate n)

get_or-set :
    (visited : List Bool) (i j : ℕ)
    → get_or (set visited i true) j false ≡ true
    → (i ≡ j → ⊥)
    → get_or visited j false ≡ true
get_or-set [] i j h ne = h
get_or-set (b ∷ visited) zero zero h ne = absurd (ne refl)
get_or-set (b ∷ visited) zero (suc j) h ne = h
get_or-set (b ∷ visited) (suc i) zero h ne = h
get_or-set (b ∷ visited) (suc i) (suc j) h ne = get_or-set visited i j h λ e. ne (ap suc e)

get_or-replicate : (n j : ℕ) → get_or (replicate n false) j false ≡ false
get_or-replicate zero j = refl
get_or-replicate (suc n) zero = refl
get_or-replicate (suc n) (suc j) = get_or-replicate n j

-- Each round that goes on marks a class that was not marked, so a search that finds no cycle has
-- come to the end of the chain.
find_cycle-none :
    (n : ℕ) (classes : List BytecodeClass) (visited : List Bool) (cursor : Option ℕ)
    → unmarked visited < n
    → length visited ≡ length classes
    → find_cycle n classes visited cursor ≡ none
    → ends_within n classes cursor ≡ true
unfolding find_cycle ends_within
find_cycle-none zero classes visited cursor h l e = absurd (omega arith)
find_cycle-none (suc n) classes visited none h l e = refl
find_cycle-none (suc n) classes visited (some cursor) h l e =
    elim (Option-cases (get_elem? classes cursor)) [
      | inl out ↦ rw (out, ends_within)
      | inr (klass, at) ↦
          let inside : cursor < length visited =
            omega (arith, lt-get_elem? classes cursor klass at) in
          elim (Bool-cases (get_or visited cursor false)) [
            | inl marked ↦
                let bad : some klass ≡ none = rw (at, marked, find_cycle) at e in absurd (cc)
            | inr new ↦
                rw (at, ends_within)
                  (find_cycle-none n classes (set visited cursor true) klass.parent
                    (omega (arith, unmarked-set visited cursor inside new))
                    (length-set visited cursor true ∙ l) (rw (at, new, find_cycle) at e))
          ]
    ]

-- A marked class has led to the cursor: a chain from it that ends is longer than one from the cursor.
abbrev Leads : List BytecodeClass → List Bool → Option ℕ → Type 0
Leads classes visited cursor =
    (c : ℕ)
    → get_or visited c false ≡ true
    → (n : ℕ) → ends_within n classes (some c) ≡ true
    → (m : ℕ) × (m < n) × (ends_within m classes cursor ≡ true)

-- A chain that leads back to its start does not end.
Leads-ends :
    (classes : List BytecodeClass) (visited : List Bool) (c : ℕ)
    → Leads classes visited (some c)
    → get_or visited c false ≡ true
    → (k n : ℕ) → n < k
    → ends_within n classes (some c) ≡ true
    → ⊥
Leads-ends classes visited c leads marked zero n h e = omega arith
Leads-ends classes visited c leads marked (suc k) n h e =
    let (m, lt, e') = leads c marked n e in
    Leads-ends classes visited c leads marked k m (omega arith) e'

ends_within-some :
    (n : ℕ) (classes : List BytecodeClass) (cursor : ℕ) (klass : BytecodeClass)
    → get_elem? classes cursor ≡ some klass
    → ends_within n classes (some cursor) ≡ true
    → (m : ℕ) × (n ≡ suc m) × (ends_within m classes klass.parent ≡ true)
unfolding ends_within
ends_within-some zero classes cursor klass at e = absurd (cc)
ends_within-some (suc n) classes cursor klass at e = (n, refl, rw (at, ends_within) at e)

set-Leads :
    (classes : List BytecodeClass) (visited : List Bool) (c : ℕ) (klass : BytecodeClass)
    → get_elem? classes c ≡ some klass
    → Leads classes visited (some c)
    → Leads classes (set visited c true) klass.parent
set-Leads classes visited c klass at leads j marked n e = elim (ℕ_discrete c j) [
  | yes same ↦
      let (m, up, e') =
        ends_within-some n classes c klass at
          (subst (λ i. ends_within n classes (some i) ≡ true) (sym same) e) in
      (m, omega arith, e')
  | no other ↦
      let (k, lt, e') = leads j (get_or-set visited c j marked other) n e in
      let (m, up, e'') = ends_within-some k classes c klass at e' in (m, omega arith, e'')
]

find_cycle-ends :
    (n : ℕ) (classes : List BytecodeClass) (visited : List Bool) (cursor : Option ℕ)
    → Leads classes visited cursor
    → (k : ℕ) → ends_within k classes cursor ≡ true
    → find_cycle n classes visited cursor ≡ none
unfolding find_cycle
find_cycle-ends zero classes visited cursor leads k e = refl
find_cycle-ends (suc n) classes visited none leads k e = refl
find_cycle-ends (suc n) classes visited (some c) leads k e =
    elim (Option-cases (get_elem? classes c)) [
      | inl out ↦ rw (out, find_cycle)
      | inr (klass, at) ↦ elim (Bool-cases (get_or visited c false)) [
        | inl marked ↦ absurd (Leads-ends classes visited c leads marked (suc k) k (omega arith) e)
        | inr new ↦
            let (m, up, e') = ends_within-some k classes c klass at e in
            rw (at, new, find_cycle)
              (find_cycle-ends n classes (set visited c true) klass.parent
                (set-Leads classes visited c klass at leads) m e')
      ]
    ]

-- The search from a class finds no cycle exactly when the chain of its parents ends, and then it ends
-- within one step for each class and one more.
pub cycle_from-none :
    (classes : List BytecodeClass) (index : ℕ)
    → (cycle_from classes index ≡ none)
      ↔ (ends_within (suc (length classes)) classes (some index) ≡ true)
unfolding cycle_from
cycle_from-none classes index = (
  λ e.
      find_cycle-none _ classes _ (some index) (omega (arith, unmarked-replicate (length classes)))
        (length-replicate (length classes) false) e,
  λ e.
      find_cycle-ends _ classes _ (some index)
        (λ c marked. absurd (cc (get_or-replicate (length classes) c))) _ e,
)

-- A chain that ends in any number of steps has no cycle for the search to find.
pub cycle_from-ends :
    (classes : List BytecodeClass) (index n : ℕ)
    → ends_within n classes (some index) ≡ true
    → cycle_from classes index ≡ none
unfolding cycle_from
cycle_from-ends classes index n e =
    find_cycle-ends _ classes _ (some index)
      (λ c marked. absurd (cc (get_or-replicate (length classes) c))) n e
