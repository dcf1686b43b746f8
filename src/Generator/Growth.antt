-- ===== src/Generator/Growth.antt =====
-- compiler/kyna_bytecode/src/generators: the tables of a module grow, and the heads of its functions stay.
use kyna.Base.{
  ℕ, zero, suc, ◌≡◌, refl, sym, subst, ◌∙◌, List, [], ◌∷◌, ◌++◌, some, String, length, get_elem?,
}
use kyna.Bytecode.Program.{BytecodeFunction, BytecodeCaptureSource, BytecodeModule}
use kyna.Bytecode.Validator.Operation.{parameter_count_at, capture_count_at}
use kyna.Mir.Program.{HirConstant}
use kyna.Generator.{add_constant, add_arguments, add_captures, add_native, add_names}

-- The second table has the entries of the first at their indices.
abbrev pub Prefix {ℓ} : {A : Type ℓ} → List A → List A → Type ℓ
Prefix {A} xs ys = (i : ℕ) (x : A) → get_elem? xs i ≡ some x → get_elem? ys i ≡ some x

pub Prefix-append {ℓ} : {A : Type ℓ} (xs ys : List A) → Prefix xs (xs ++ ys)
Prefix-append [] ys i x e = absurd (cc)
Prefix-append (y ∷ xs) ys zero x e = e
Prefix-append (y ∷ xs) ys (suc i) x e = Prefix-append xs ys i x e

-- The heads of the functions, as calls and closures see them, are the same.
pub record SameHeads (fs gs : List BytecodeFunction) : Type 0 where
  pub count : length gs ≡ length fs
  pub parameters : (i : ℕ) → parameter_count_at gs i ≡ parameter_count_at fs i
  pub captures : (i : ℕ) → capture_count_at gs i ≡ capture_count_at fs i

pub record Grows (m m' : BytecodeModule) : Type 0 where
  pub constants : Prefix m.constants m'.constants
  pub arguments : Prefix m.call_arguments m'.call_arguments
  pub sources : Prefix m.closure_captures m'.closure_captures
  pub natives : Prefix m.native_functions m'.native_functions
  pub names : Prefix m.object_field_names m'.object_field_names
  pub heads : SameHeads m.functions m'.functions
  pub version : m'.format_version ≡ m.format_version
  pub classes : m'.classes ≡ m.classes
  pub entry : m'.entry_function ≡ m.entry_function
  pub name : m'.name ≡ m.name

pub SameHeads-refl : (fs : List BytecodeFunction) → SameHeads fs fs
SameHeads-refl fs = record { count = refl; parameters = λ i. refl; captures = λ i. refl }

-- Only the tables differ.
Grows-tables :
    {m m' : BytecodeModule}
    → Prefix m.constants m'.constants
    → Prefix m.call_arguments m'.call_arguments
    → Prefix m.closure_captures m'.closure_captures
    → Prefix m.native_functions m'.native_functions
    → Prefix m.object_field_names m'.object_field_names
    → m'.functions ≡ m.functions
    → m'.format_version ≡ m.format_version
    → m'.classes ≡ m.classes
    → m'.entry_function ≡ m.entry_function
    → m'.name ≡ m.name
    → Grows m m'
Grows-tables {m} c a s n o fs v k e label = record {
  constants = c;
  arguments = a;
  sources = s;
  natives = n;
  names = o;
  heads = subst (SameHeads m.functions) (sym fs) (SameHeads-refl m.functions);
  version = v;
  classes = k;
  entry = e;
  name = label;
}

same {ℓ} : {A : Type ℓ} (xs : List A) → Prefix xs xs
same xs i x e = e

pub Grows-refl : (m : BytecodeModule) → Grows m m
Grows-refl m = Grows-tables (same _) (same _) (same _) (same _) (same _) refl refl refl refl refl

pub Grows-trans : {m m' m'' : BytecodeModule} → Grows m m' → Grows m' m'' → Grows m m''
Grows-trans g h = record {
  constants = λ i x e. h.constants i x (g.constants i x e);
  arguments = λ i x e. h.arguments i x (g.arguments i x e);
  sources = λ i x e. h.sources i x (g.sources i x e);
  natives = λ i x e. h.natives i x (g.natives i x e);
  names = λ i x e. h.names i x (g.names i x e);
  heads = record {
    count = h.heads.count ∙ g.heads.count;
    parameters = λ i. h.heads.parameters i ∙ g.heads.parameters i;
    captures = λ i. h.heads.captures i ∙ g.heads.captures i;
  };
  version = h.version ∙ g.version;
  classes = h.classes ∙ g.classes;
  entry = h.entry ∙ g.entry;
  name = h.name ∙ g.name;
}

module _ (m : BytecodeModule) where
  pub Grows-constant : (c : HirConstant) → Grows m (add_constant c m)
  unfolding add_constant
  Grows-constant c =
      Grows-tables (Prefix-append m.constants (c ∷ [])) (same _) (same _) (same _) (same _) refl
        refl refl refl refl

  pub Grows-arguments : (ks : List ℕ) → Grows m (add_arguments ks m)
  unfolding add_arguments
  Grows-arguments ks =
      Grows-tables (same _) (Prefix-append m.call_arguments (ks ∷ [])) (same _) (same _) (same _)
        refl refl refl refl refl

  pub Grows-captures : (sources : List BytecodeCaptureSource) → Grows m (add_captures sources m)
  unfolding add_captures
  Grows-captures sources =
      Grows-tables (same _) (same _) (Prefix-append m.closure_captures (sources ∷ [])) (same _)
        (same _) refl refl refl refl refl

  pub Grows-native : (name : String) → Grows m (add_native name m)
  unfolding add_native
  Grows-native name =
      Grows-tables (same _) (same _) (same _) (Prefix-append m.native_functions (name ∷ []))
        (same _) refl refl refl refl refl

  pub Grows-names : (names : List String) → Grows m (add_names names m)
  unfolding add_names
  Grows-names names =
      Grows-tables (same _) (same _) (same _) (same _)
        (Prefix-append m.object_field_names (names ∷ [])) refl refl refl refl refl
