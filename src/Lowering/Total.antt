-- ===== src/Lowering/Total.antt =====
-- compiler/kyna_mir/src/lowering: what lowering an expression or a statement is to achieve, where the depth of
-- calls that is left is enough.
pub mod Frames
pub mod Expressions
pub mod Captures
pub mod Control
pub mod Nodes
pub mod Leaving
pub mod Statements
pub mod Switches
pub mod Tries
pub mod Depth
pub mod Bodies
pub mod Programs
pub mod Outcomes
pub mod Compiled
use kyna.Base.{ℕ, ◌+◌, ◌≤◌, ◌<◌, ◌≡◌, ◌≢◌, ◌⊎◌, true, List, [], ◌∷◌, Option, some, length, Yields}
use kyna.Mir.Program.{MirProgram}
use kyna.Mir.Verifier.{parameter_count, capture_count}
use kyna.Hir.{HirProgram}
use kyna.Base.{get_elem?}
use kyna.Hir.{HirFunction}
use kyna.Lowering.{Lowering, Lower, terminated}
use kyna.Lowering.Fits.{Scope, IsIn, ExprFits, StmtFits, bound_by, enough}
use kyna.Lowering.States.{Frame, with_known, Inv, Open}

-- The program has the functions and the classes of the high-level one.
pub record Signature (hir : HirProgram) (p : MirProgram) : Type 0 where
  pub functions : length p.functions ≡ length hir.functions
  pub classes : length p.classes ≡ length hir.classes
  pub parameters :
      (k : ℕ) (f : HirFunction)
      → get_elem? hir.functions k ≡ some f
      → parameter_count p (k + 1) ≡ length f.parameters
  pub captures :
      (k : ℕ) (f : HirFunction)
      → get_elem? hir.functions k ≡ some f
      → capture_count p (k + 1) ≡ length f.captures

-- What a scope promises is there.
pub record Meets (sc : Scope) (g : Frame) : Type 0 where
  pub known : (k : ℕ) → IsIn k sc.known → IsIn k g.known
  pub looped : sc.looped ≡ true → g.loops ≢ []
  pub breakable : sc.breakable ≡ true → g.breaks ≢ []

module _ (hir : HirProgram) (captures : List ℕ) where
  -- Each of the active cleanups can be lowered where only those before it are active, with such a depth.
  abbrev pub CleanupsFit : ℕ → Frame → List ℕ → Type 0
  CleanupsFit budget g [] = Unit
  CleanupsFit budget g (c ∷ cs) =
      (h : ℕ) × (r : ℕ) × (sc : Scope) × (enough h + r ≤ budget)
      × StmtFits hir captures h sc c
      × Meets sc g
      × CleanupsFit r g cs

  pub record Ready (budget : ℕ) (sc : Scope) (g : Frame) : Type 0 where
    pub meets : Meets sc g
    pub cleanups : CleanupsFit budget g g.cleanups

  module _ (p : MirProgram) where
    -- The state behind a statement: the block has ended, or the statement has bound its locals.
    pub data Done (ts cs : List ℕ) (g : Frame) (P : ℕ → Type 0) (binds : List ℕ) (s : Lowering)
        : Type 0 where
      ended : terminated s ≡ some (true, s) → Inv p captures ts cs g P s → Done ts cs g P binds s
      bound : Open p captures ts cs (with_known binds g) P s → Done ts cs g P binds s

    -- A function lowers the expressions of at most such a height, with cleanups of such a depth around.
    pub record LowersExpressions (expression : ℕ → Lower ℕ) (n budget : ℕ) : Type 1 where
      pub expression_lowers :
          {ts cs : List ℕ} {g : Frame} {P : ℕ → Type 0} {sc : Scope} {s : Lowering} (id : ℕ)
          → ExprFits hir captures n sc id
          → Ready budget sc g
          → Open p captures ts cs g P s
          → Yields (λ r. Open p captures (r.0 ∷ ts) cs g P r.1) (expression id s)

    pub record LowersStatements (statement : ℕ → Lower (Unit {0})) (n budget : ℕ) : Type 1 where
      pub statement_lowers :
          {ts cs : List ℕ} {g : Frame} {P : ℕ → Type 0} {sc : Scope} {s : Lowering} (id : ℕ)
          → StmtFits hir captures n sc id
          → Ready budget sc g
          → Open p captures ts cs g P s
          → Yields (λ r. Done ts cs g P (bound_by hir captures n id) r.1) (statement id s)
      pub statement_skips :
          {s : Lowering} (sc : Scope) (id : ℕ)
          → StmtFits hir captures n sc id
          → terminated s ≡ some (true, s)
          → statement id s ≡ some (tt, s)
