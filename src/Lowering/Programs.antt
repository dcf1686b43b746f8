-- ===== src/Lowering/Programs.antt =====
-- compiler/kyna_mir/src/lowering/hir_lowering.cpp: the bodies of a program, and `lowerHirToMir`, with a bound
-- on the depth of the calls that lower a statement.
use kyna.Base.{ℕ, ◌+◌, List, [], ◌∷◌, Option, none, some, map, length}
use kyna.Diagnostics.{Diagnostic, unknown_span}
use kyna.Bytecode.Program.{BytecodeConstant}
use kyna.Mir.Program.{MirTerminatorNode, MirFunction, MirClassMethod, MirClass, MirProgram}
use kyna.Mir.Verifier.Bodies.{verify_mir}
use kyna.Hir.{HirFunction, HirClassMethod, HirClass, HirProgram}
use kyna.Base
use kyna.Lowering.{
  Lowering, Lower, ◌>>=◌, ◌>>◌, give, temporary, terminate, unless_terminated, empty_block,
  bind_local, constant,
}
use kyna.Lowering.Statements.{lower_each, lower_expression, lower_statement}

pub record MirLoweringResult : Type 0 where
  pub program : Option MirProgram
  pub diagnostics : List Diagnostic

unfoldable pub lower_method : HirClassMethod → MirClassMethod
lower_method method = record { name = method.name; function = method.function }

unfoldable pub lower_class : HirClass → MirClass
lower_class klass = record {
  name = klass.name;
  parent = klass.parent;
  fields = map (λ field. field.name) klass.fields;
  methods = map lower_method klass.methods;
  constructor = klass.constructor;
}

-- `captureIndexes`, from an index on.
unfoldable pub index_captures : ℕ → List (ℕ × ℕ) → List ℕ → List (ℕ × ℕ)
index_captures index found [] = found
index_captures index found (local ∷ locals) =
    index_captures (index + 1) ((local, index) ∷ found) locals

-- `activate`, on a body with an empty block. It leaves the break targets alone: there are none between two
-- bodies, since each that is put there is taken away.
unfoldable pub activated : List ℕ → Lowering
activated captures = record {
  temporary_count = 0;
  blocks = empty_block ∷ [];
  exception_regions = [];
  current_block = 0;
  locals = [];
  capture_indexes = index_captures 0 [] captures;
  loops = [];
  breaks = [];
  cleanups = [];
}

unfoldable pub bind_parameters : List ℕ → Lower (Unit {0})
bind_parameters [] = give tt
bind_parameters (local ∷ locals) = do t ← temporary; bind_local local t; bind_parameters locals

-- `finishFunction`.
unfoldable pub finish_function : Lower (Unit {0})
finish_function = unless_terminated do
  value ← temporary
  constant BytecodeConstant.null value unknown_span
  terminate (MirTerminatorNode.return value) unknown_span

unfoldable pub lower_function_body : HirProgram → ℕ → HirFunction → Lower (Unit {0})
lower_function_body hir fuel f = do
  bind_parameters f.parameters
  lower_statement hir fuel f.body
  finish_function

unfoldable pub lower_module_body : HirProgram → ℕ → Lower (Unit {0})
lower_module_body hir fuel = do
  lower_each (lower_expression hir fuel) (lower_statement hir fuel) hir.body
  finish_function

unfoldable pub function_of : HirFunction → Lowering → MirFunction
function_of f s = record {
  name = f.name;
  parameter_count = length f.parameters;
  temporary_count = s.temporary_count;
  entry_block = 0;
  blocks = s.blocks;
  exception_regions = s.exception_regions;
  span = f.span;
  captures = f.captures;
}

unfoldable pub lower_functions : HirProgram → ℕ → List HirFunction → Option (List MirFunction)
lower_functions hir fuel [] = some []
lower_functions hir fuel (f ∷ fs) =
    Base.◌>>=◌ (lower_function_body hir fuel f (activated f.captures)) λ r.
      Base.◌>>=◌ (lower_functions hir fuel fs) λ functions. some (function_of f r.1 ∷ functions)

unfoldable pub lower_program : HirProgram → ℕ → Option MirProgram
lower_program hir fuel = Base.◌>>=◌ (lower_module_body hir fuel (activated [])) λ r.
    Base.◌>>=◌ (lower_functions hir fuel hir.functions) λ functions. some (record {
      name = hir.name;
      temporary_count = r.1.temporary_count;
      entry_block = 0;
      blocks = r.1.blocks;
      exception_regions = r.1.exception_regions;
      functions = functions;
      classes = map lower_class hir.classes;
    })

unfoldable pub verified : MirProgram → List Diagnostic → MirLoweringResult
verified p [] = record { program = some p; diagnostics = [] }
verified p (d ∷ diagnostics) = record { program = none; diagnostics = d ∷ diagnostics }

-- `lowerHirToMir`.
unfoldable pub lower_hir_to_mir : HirProgram → ℕ → Option MirLoweringResult
lower_hir_to_mir hir fuel =
    Base.◌>>=◌ (lower_program hir fuel) λ p. some (verified p (verify_mir p))
