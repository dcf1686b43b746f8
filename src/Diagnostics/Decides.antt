-- ===== src/Diagnostics/Decides.antt =====
-- compiler: checks that append diagnostics. A check reports nothing exactly when a condition holds, and
-- so do checks that are put together.
use mathlib.Core.List.{append-eq-nil_iff}
use kyna.Base.{
  subst, ℕ, ◌≤◌, ◌<◌, ◌≡◌, ◌≢◌, ◌↔◌, refl, Bool, true, false, not, List, [], ◌∷◌, ◌++◌, Option,
  none, some, arith, ltb, leb, ◌==◌, if◌then◌else◌,
}
use kyna.Diagnostics.{Diagnostic}

-- The check `ds` reports nothing exactly when `P` holds.
pub record Decides {ℓ} (ds : List Diagnostic) (P : Type ℓ) : Type ℓ where
  pub sound : ds ≡ [] → P
  pub complete : P → ds ≡ []

pub Decides-nothing : Decides [] (Unit {0})
Decides-nothing = record { sound = λ _. tt; complete = λ _. refl }

-- Two checks, one after the other.
pub Decides-append {ℓ κ} :
    {xs ys : List Diagnostic} {P : Type ℓ} {Q : Type κ}
    → Decides xs P
    → Decides ys Q
    → Decides (xs ++ ys) (P × Q)
Decides-append p q = record {
  sound = λ e. let (a, b) = append-eq-nil_iff.0 e in (p.sound a, q.sound b);
  complete = λ e. append-eq-nil_iff.1 (p.complete e.0, q.complete e.1);
}

-- The same check under an equivalent condition.
pub Decides-iff {ℓ κ} :
    {ds : List Diagnostic} {P : Type ℓ} {Q : Type κ}
    → Decides ds P
    → (P → Q)
    → (Q → P)
    → Decides ds Q
Decides-iff d f g = record { sound = λ e. f (d.sound e); complete = λ q. d.complete (g q) }

module _ (d : Diagnostic) where
  pub Decides-reported {ℓ} : {P : Type ℓ} → (P → ⊥) → Decides (d ∷ []) P
  Decides-reported no_p = record { sound = λ e. absurd (cc); complete = λ x. absurd (no_p x) }

  pub Decides-report_if :
      {P : Type 0} (b : Bool) → (b ≡ false) ↔ P → Decides (if b then d ∷ [] else []) P
  Decides-report_if true p = Decides-reported λ x. cc (p.1 x)
  Decides-report_if false p = record { sound = λ _. p.0 refl; complete = λ _. refl }

  -- A report that ends the checks, when `b` holds.
  pub Decides-guard {ℓ} :
      {P : Type 0} {Q : Type ℓ} {rest : List Diagnostic} (b : Bool)
      → (b ≡ false) ↔ P
      → Decides rest Q
      → Decides (if b then d ∷ [] else rest) (P × Q)
  Decides-guard true p q = Decides-reported λ x. cc (p.1 x.0)
  Decides-guard false p q = record {
    sound = λ e. (p.0 refl, q.sound e);
    complete = λ x. q.complete x.1;
  }

  -- The same, with checks that are known to follow only when `P` holds.
  pub Decides-given {ℓ} :
      {P : Type 0} {Q : Type ℓ} {rest : List Diagnostic} (b : Bool)
      → (b ≡ false) ↔ P
      → (P → Decides rest Q)
      → Decides (if b then d ∷ [] else rest) (P × Q)
  Decides-given true p q = Decides-reported λ x. cc (p.1 x.0)
  Decides-given false p q = Decides-guard false p (q (p.0 refl))

  -- A report when an entry is missing, and checks of the entry.
  pub Decides-entry {ℓ κ} :
      {A : Type ℓ} (o : Option A) (rest : A → List Diagnostic) {Q : A → Type κ}
      → ((x : A) → Decides (rest x) (Q x))
      → Decides (elim o [ none ↦ d ∷ [] | some x ↦ rest x ]) ((x : A) × (o ≡ some x) × Q x)
  Decides-entry none rest q = Decides-reported λ x. cc (x.1)
  Decides-entry (some a) rest {Q} q = record {
    sound = λ e. (a, refl, (q a).sound e);
    complete = λ x. (q a).complete (subst Q (cc (x.1)) x.2);
  }

pub leb_iff : (n k : ℕ) → (leb n k ≡ false) ↔ (k < n)
leb_iff n k = (λ h. ground arith, λ h. ground arith)

pub ltb_iff : (n k : ℕ) → (ltb n k ≡ false) ↔ (k ≤ n)
ltb_iff n k = (λ h. ground arith, λ h. ground arith)

pub ne_iff : (a b : ℕ) → ((a == b) ≡ false) ↔ (a ≢ b)
ne_iff a b = (λ h. ground arith, λ h. ground arith)

pub eq_iff : (a b : ℕ) → (not (a == b) ≡ false) ↔ (a ≡ b)
eq_iff a b = (λ h. ground arith, λ h. ground arith)

pub lt_iff : (k n : ℕ) → (not (ltb k n) ≡ false) ↔ (k < n)
lt_iff k n = (λ h. ground arith, λ h. ground arith)

pub iff_trans {ℓ κ μ} : {P : Type ℓ} {Q : Type κ} {R : Type μ} → P ↔ Q → Q ↔ R → P ↔ R
iff_trans p q = (λ x. q.0 (p.0 x), λ x. p.1 (q.1 x))
