-- ===== src/Lowering/Total/Outcomes.antt =====
-- compiler/kyna_mir/src/lowering/hir_lowering.cpp: what `lowerHirToMir` returns, on programs that fit or not.
use kyna.Base.{◌≢◌, ◌+◌, ◌≡◌, List, [], ◌∷◌, none, some, length, map}
use kyna.Base
use kyna.Mir.Program.{MirFunction, MirClass, MirClassMethod, MirProgram}
use kyna.Mir.Verifier.Bodies.{verify_mir}
use kyna.Mir.Valid.{ValidProgram}
use kyna.Hir.{HirFunction, HirClass, HirClassMethod, HirProgram}
use kyna.Lowering.Programs.{MirLoweringResult}

-- The functions are those of the high-level program, in order: with their names, their spans, as many
-- parameters, and the same captures.
abbrev pub FunctionsMirror : List HirFunction → List MirFunction → Type 0
FunctionsMirror [] [] = Unit
FunctionsMirror (g ∷ gs) (f ∷ fs) =
    (((f.name ≡ g.name) × (f.span ≡ g.span))
      × ((f.parameter_count ≡ length g.parameters) × (f.captures ≡ g.captures)))
    × FunctionsMirror gs fs
FunctionsMirror _ _ = ⊥

abbrev pub MethodsMirror : List HirClassMethod → List MirClassMethod → Type 0
MethodsMirror [] [] = Unit
MethodsMirror (g ∷ gs) (f ∷ fs) =
    ((f.name ≡ g.name) × (f.function ≡ g.function)) × MethodsMirror gs fs
MethodsMirror _ _ = ⊥

abbrev pub ClassesMirror : List HirClass → List MirClass → Type 0
ClassesMirror [] [] = Unit
ClassesMirror (g ∷ gs) (f ∷ fs) =
    (((f.name ≡ g.name) × (f.parent ≡ g.parent))
      × ((f.fields ≡ map (λ field. field.name) g.fields)
          × ((f.constructor ≡ g.constructor) × MethodsMirror g.methods f.methods)))
    × ClassesMirror gs fs
ClassesMirror _ _ = ⊥

-- The program declares what the high-level one declares.
pub record Mirrors (hir : HirProgram) (p : MirProgram) : Type 0 where
  pub name : p.name ≡ hir.name
  pub functions : FunctionsMirror hir.functions p.functions
  pub classes : ClassesMirror hir.classes p.classes

-- What lowering returns: a valid program without diagnostics, or diagnostics and no program.
pub data LoweringOutcome (hir : HirProgram) : MirLoweringResult → Type 0 where
  lowered :
      (p : MirProgram)
      → Mirrors hir p
      → ValidProgram p
      → LoweringOutcome hir (record { program = some p; diagnostics = [] })
  rejected :
      (p : MirProgram)
      → Mirrors hir p
      → verify_mir p ≢ []
      → (ValidProgram p → ⊥)
      → LoweringOutcome hir (record { program = none; diagnostics = verify_mir p })
