-- ===== src/Vm/Machine/Registers.antt =====
-- runtime/kyna_vm/src/execution/bytecode_virtual_machine.cpp: what `readRegister` finds after
-- `writeRegister`, for registers that closures share as cells and for others.
use kyna.Base.{
  ℕ, zero, suc, ◌<◌, ◌≡◌, ◌≢◌, refl, sym, ◌∙◌, ap, List, [], ◌∷◌, Option, none, some, arith, length,
  get_elem?, set, ltb, Bool-cases, inl, inr, ◌>>=◌, subst,
}
use kyna.Vm.Value.{RuntimeValue}
use kyna.Vm.Machine.{Machine, put, read_cell, read, write_cell, write}

pub some-inj {ℓ} : {A : Type ℓ} {a b : A} → some a ≡ some b → a ≡ b
some-inj e = cc

pub >>=-eq-some {ℓ κ} :
    {A : Type ℓ} {B : Type κ} (o : Option A) (f : A → Option B) {b : B}
    → (o >>= f) ≡ some b
    → (a : A) × (o ≡ some a) × (f a ≡ some b)
unfolding ◌>>=◌
>>=-eq-some none f e = absurd (cc)
>>=-eq-some (some a) f e = (a, refl, e)

module _ {ℓ} {A : Type ℓ} where
  get_elem?-set : (xs : List A) (i : ℕ) (v : A) → i < length xs → get_elem? (set xs i v) i ≡ some v
  get_elem?-set [] i v h = absurd (omega arith)
  get_elem?-set (x ∷ xs) zero v h = refl
  get_elem?-set (x ∷ xs) (suc i) v h = get_elem?-set xs i v (omega arith)

  get_elem?-set-other :
      (xs : List A) (i j : ℕ) (v : A) → i ≢ j → get_elem? (set xs i v) j ≡ get_elem? xs j
  get_elem?-set-other [] i j v h = refl
  get_elem?-set-other (x ∷ xs) zero zero v h = absurd (h refl)
  get_elem?-set-other (x ∷ xs) zero (suc j) v h = refl
  get_elem?-set-other (x ∷ xs) (suc i) zero v h = refl
  get_elem?-set-other (x ∷ xs) (suc i) (suc j) v h =
      get_elem?-set-other xs i j v (λ e. h (ap suc e))

  pub put-eq :
      (xs ys : List A) (i : ℕ) (v : A) → put xs i v ≡ some ys → (ys ≡ set xs i v) × (i < length xs)
  unfolding put
  put-eq xs ys i v e = elim (Bool-cases (ltb i (length xs))) [
    | inl inside ↦ (ground (arith, inside, e), ground arith)
    | inr out ↦ absurd (ground (arith, out, e))
  ]

-- What a write has done: it has set the register, and the cell of the register if there is one.
pub data Written (s : Machine) (index : ℕ) (v : RuntimeValue) : Machine → Type 0 where
  plain :
      get_elem? s.frame.register_cells index ≡ some none
      → index < length s.frame.registers
      → Written s index v
          (record s { frame = record s.frame { registers = set s.frame.registers index v } })
  shared :
      (c : ℕ)
      → get_elem? s.frame.register_cells index ≡ some (some c)
      → c < length s.heap.cells
      → Written s index v (record s {
        frame = record s.frame { registers = set s.frame.registers index v };
        heap = record s.heap { cells = set s.heap.cells c v };
      })

write_cell-Written :
    (s s' : Machine) (index : ℕ) (v : RuntimeValue) (registers : List RuntimeValue)
    (cell : Option ℕ)
    → registers ≡ set s.frame.registers index v
    → index < length s.frame.registers
    → get_elem? s.frame.register_cells index ≡ some cell
    → write_cell (record s { frame = record s.frame { registers = registers } }) cell v ≡ some s'
    → Written s index v s'
unfolding write_cell
write_cell-Written s s' index v registers none same inside at e =
    subst (Written s index v) (some-inj e) (rw same (plain at inside))
write_cell-Written s s' index v registers (some c) same inside at e =
    let (cells, e', e'') = >>=-eq-some (put s.heap.cells c v) _ e in
    let (stored, l) = put-eq s.heap.cells cells c v e' in
    subst (Written s index v) (some-inj e'') (rw (same, stored) (shared c at l))

pub write-Written :
    (s s' : Machine) (index : ℕ) (v : RuntimeValue)
    → write s index v ≡ some s'
    → Written s index v s'
unfolding write
write-Written s s' index v e =
    let (registers, e', rest) = >>=-eq-some (put s.frame.registers index v) _ e in
    let (cell, at, rest') = >>=-eq-some (get_elem? s.frame.register_cells index) _ rest in
    let (same, inside) = put-eq s.frame.registers registers index v e' in
    write_cell-Written s s' index v registers cell same inside at rest'

-- The register that was written, read again.
read-Written :
    (s : Machine) {s' : Machine} (index : ℕ) (v : RuntimeValue)
    → Written s index v s'
    → read s' index ≡ some v
unfolding read ◌>>=◌ read_cell
read-Written s index v (plain at inside) = rw at (get_elem?-set s.frame.registers index v inside)
read-Written s index v (shared c at l) = rw at (get_elem?-set s.heap.cells c v l)

-- No cell is that of both registers.
abbrev pub Unshared : Machine → ℕ → ℕ → Type 0
Unshared s i j =
    (c : ℕ)
    → get_elem? s.frame.register_cells i ≡ some (some c)
    → get_elem? s.frame.register_cells j ≡ some (some c)
    → ⊥

other-Written :
    (s : Machine) {s' : Machine} (index j : ℕ) (v : RuntimeValue) (cell : Option (Option ℕ))
    → get_elem? s.frame.register_cells j ≡ cell
    → index ≢ j
    → Unshared s index j
    → Written s index v s'
    → read s' j ≡ read s j
unfolding read ◌>>=◌ read_cell
other-Written s index j v none at ne un (plain _ inside) = rw at refl
other-Written s index j v (some none) at ne un (plain _ inside) =
    rw at (get_elem?-set-other s.frame.registers index j v ne)
other-Written s index j v (some (some d)) at ne un (plain _ inside) = rw at refl
other-Written s index j v none at ne un (shared c _ l) = rw at refl
other-Written s index j v (some none) at ne un (shared c _ l) =
    rw at (get_elem?-set-other s.frame.registers index j v ne)
other-Written s index j v (some (some d)) at ne un (shared c at' l) =
    rw at
      (get_elem?-set-other s.heap.cells c d v λ e. un c at' (at ∙ ap (λ x. some (some x)) (sym e)))

-- After a write of a register that succeeds, the register reads as the value that was written, also where
-- a closure shares it as a cell; and a register that is another one and shares no cell with it reads as
-- before.
pub read-write :
    (s s' : Machine) (index : ℕ) (v : RuntimeValue)
    → write s index v ≡ some s'
    → (read s' index ≡ some v) × ((j : ℕ) → index ≢ j → Unshared s index j → read s' j ≡ read s j)
read-write s s' index v e = (
  read-Written s index v (write-Written s s' index v e),
  λ j ne un. other-Written s index j v _ refl ne un (write-Written s s' index v e),
)
