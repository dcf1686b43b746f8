-- ===== src/Generator/Heads.antt =====
-- compiler/kyna_bytecode/src/generators/program_bytecode_compiler.cpp: the functions before their bodies are compiled,
-- and the classes, told from the program alone.
use kyna.Base.{Option, ◌+◌, map, ℕ, ◌≡◌, refl, List, [], ◌∷◌, none, some, length}
use kyna.Bytecode.Program.{BytecodeFunction, BytecodeClass}
use kyna.Mir.Program.{MirFunction, MirClass, MirProgram}
use kyna.Generator.Programs.{shifted, compile_method, compile_class}

-- A function before its body is compiled: that of the module itself, and one of the program.
abbrev pub module_head : MirProgram → BytecodeFunction
module_head p = record {
  name = "<module>";
  register_count = p.temporary_count;
  instructions = [];
  parameter_count = 0;
  capture_count = 0;
  exception_handlers = [];
}

abbrev pub function_head : MirFunction → BytecodeFunction
function_head f = record {
  name = f.name;
  register_count = f.temporary_count;
  instructions = [];
  parameter_count = f.parameter_count;
  capture_count = length f.captures;
  exception_handlers = [];
}

-- The class is that of the program, where each function has its number and one, since the first function of
-- the module is that of the module itself.
abbrev pub ClassOf : MirClass → BytecodeClass → Type 0
ClassOf k b =
    ((b.name ≡ k.name) × (b.parent ≡ k.parent))
    × ((b.fields ≡ k.fields)
        × ((b.constructor ≡ elim k.constructor [ none ↦ none | some c ↦ some (c + 1) ])
            × (b.methods
                ≡ map (λ x. record { name = x.name; function = x.function + 1 }) k.methods)))

abbrev pub ClassesOf : List MirClass → List BytecodeClass → Type 0
ClassesOf [] [] = Unit
ClassesOf (k ∷ ks) (b ∷ bs) = ClassOf k b × ClassesOf ks bs
ClassesOf _ _ = ⊥

pub compile_class-ClassesOf : (ks : List MirClass) → ClassesOf ks (map compile_class ks)
unfolding compile_class compile_method shifted
compile_class-ClassesOf [] = tt
compile_class-ClassesOf (k ∷ ks) =
    (((refl, refl), (refl, (moved k.constructor, refl))), compile_class-ClassesOf ks)
  where
    moved : (o : Option ℕ) → shifted o ≡ elim o [ none ↦ none | some c ↦ some (c + 1) ]
    moved none = refl
    moved (some c) = refl
