-- ===== src/Lowering/Total/Compiled.antt =====
-- compiler/kyna_mir/src/lowering and compiler/kyna_bytecode/src/generators: a program of the high-level
-- representation is lowered, and a bytecode module is generated from what comes out.
use kyna.Base.{ℕ, ◌≤◌, ◌≡◌, [], some, none, Yields, Yields-map}
use kyna.Bytecode.Program.{BytecodeModule}
use kyna.Bytecode.Validator.Functions.{validate_bytecode}
use kyna.Bytecode.Valid.{ValidModule}
use kyna.Mir.Program.{MirProgram}
use kyna.Mir.Valid.{ValidProgram}
use kyna.Mir.Valid.Programs.{verify_mir_iff}
use kyna.Hir.{HirProgram}
use kyna.Generator.Programs.{BytecodeCompileResult, compile_mir_to_bytecode}
use kyna.Generator.Laid.{Laid}
use kyna.Generator.Outcomes.{CompileOutcome, compile-CompileOutcome}
use kyna.Lowering.Programs.{lower_hir_to_mir}
use kyna.Lowering.Fits.{enough}
use kyna.Lowering.Total.Programs.{ProgramFits, lower_hir_to_mir-ValidProgram}

-- A module of the program that is valid, or one that is not, with what the validator says of it and nothing else.
pub data Compiled (p : MirProgram) : BytecodeCompileResult → Type 0 where
  accepted :
      (m : BytecodeModule)
      → Laid p m
      → ValidModule m
      → Compiled p (record { unit = some m; diagnostics = [] })
  refused :
      (m : BytecodeModule)
      → Laid p m
      → (ValidModule m → ⊥)
      → Compiled p (record { unit = none; diagnostics = validate_bytecode m })

outcome-Compiled :
    (p : MirProgram) (r : BytecodeCompileResult)
    → ValidProgram p
    → CompileOutcome p r
    → Compiled p r
outcome-Compiled p _ v (CompileOutcome.rejected e) = absurd (e ((verify_mir_iff p).1 v))
outcome-Compiled p _ v (CompileOutcome.refused m w laid invalid) = Compiled.refused m laid invalid
outcome-Compiled p _ v (CompileOutcome.compiled m w laid valid) = Compiled.accepted m laid valid

-- A program of the high-level representation that fits is lowered without diagnostics, where the depth of calls is
-- enough for the height of its bodies, and the verifier at the start of the generator has nothing to report
-- either: the generator returns the module of the lowered program, where that is valid, and else the
-- diagnostics of the validator.
pub compile_mir_to_bytecode-Compiled :
    (hir : HirProgram) (height fuel : ℕ)
    → ProgramFits hir height
    → enough height ≤ fuel
    → (p : MirProgram) × (lower_hir_to_mir hir fuel
        ≡ some (record { program = some p; diagnostics = [] }))
      × Yields (Compiled p) (compile_mir_to_bytecode p)
compile_mir_to_bytecode-Compiled hir height fuel fits h =
    let (p, e, signature, valid) = lower_hir_to_mir-ValidProgram hir height fuel fits h in
    (p, e, Yields-map (λ r o. outcome-Compiled p r valid o) (compile-CompileOutcome p))
