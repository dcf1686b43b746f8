-- ===== src/Generator/Programs.antt =====
-- compiler/kyna_bytecode/src/generators/program_bytecode_compiler.cpp: `compileMirToBytecode`.
use kyna.Base.{ℕ, ◌+◌, List, [], ◌∷◌, Option, none, some, map, length, get_elem?, set, ◌>>=◌}
use kyna.Diagnostics.{Diagnostic}
use kyna.Bytecode.Program.{
  BytecodeFunction, BytecodeClass, BytecodeClassMethod, BytecodeModule, current_version,
}
use kyna.Bytecode.Validator.Functions.{validate_bytecode}
use kyna.Mir.Program.{
  MirExceptionRegion, MirBasicBlock, MirFunction, MirClassMethod, MirClass, MirProgram,
}
use kyna.Mir.Verifier.Bodies.{verify_mir}
use kyna.Generator.{compile_body}

pub record BytecodeCompileResult : Type 0 where
  pub unit : Option BytecodeModule
  pub diagnostics : List Diagnostic

-- The function `<module>`, before its body is compiled.
unfoldable pub module_function : MirProgram → BytecodeFunction
module_function p = record {
  name = "<module>";
  register_count = p.temporary_count;
  instructions = [];
  parameter_count = 0;
  capture_count = 0;
  exception_handlers = [];
}

unfoldable pub function_header : MirFunction → BytecodeFunction
function_header f = record {
  name = f.name;
  register_count = f.temporary_count;
  instructions = [];
  parameter_count = f.parameter_count;
  capture_count = length f.captures;
  exception_handlers = [];
}

-- A function of the module has its number in the program and one.
unfoldable pub shifted : Option ℕ → Option ℕ
shifted none = none
shifted (some function) = some (function + 1)

unfoldable pub compile_method : MirClassMethod → BytecodeClassMethod
compile_method method = record { name = method.name; function = method.function + 1 }

unfoldable pub compile_class : MirClass → BytecodeClass
compile_class klass = record {
  name = klass.name;
  parent = klass.parent;
  fields = klass.fields;
  methods = map compile_method klass.methods;
  constructor = shifted klass.constructor;
}

-- The module with the heads of its functions and its classes.
unfoldable pub declared : MirProgram → BytecodeModule
declared p = record {
  format_version = current_version;
  name = p.name;
  constants = [];
  call_arguments = [];
  native_functions = [];
  object_field_names = [];
  closure_captures = [];
  functions = module_function p ∷ map function_header p.functions;
  classes = map compile_class p.classes;
  entry_function = 0;
}

-- `compileBody(module, module.functions[index], …)`.
unfoldable pub compile_at :
    ℕ → List MirBasicBlock → List MirExceptionRegion → BytecodeModule → Option BytecodeModule
compile_at index blocks regions m = do
  f ← get_elem? m.functions index
  e ← compile_body blocks regions (record { unit = m; function = f })
  some (record e.unit { functions = set e.unit.functions index e.function })

-- The loop over the functions of the program, from an index of the module on.
unfoldable pub compile_functions : ℕ → List MirFunction → BytecodeModule → Option BytecodeModule
compile_functions index [] m = some m
compile_functions index (f ∷ functions) m = do
  m' ← compile_at index f.blocks f.exception_regions m
  compile_functions (index + 1) functions m'

-- The module of a program that the verifier has passed.
unfoldable pub generate : MirProgram → Option BytecodeModule
generate p = do
  m ← compile_at 0 p.blocks p.exception_regions (declared p)
  compile_functions 1 p.functions m

unfoldable pub validated : BytecodeModule → List Diagnostic → BytecodeCompileResult
validated m [] = record { unit = some m; diagnostics = [] }
validated m (d ∷ diagnostics) = record { unit = none; diagnostics = d ∷ diagnostics }

unfoldable pub compile_verified : MirProgram → List Diagnostic → Option BytecodeCompileResult
compile_verified p [] = do m ← generate p; some (validated m (validate_bytecode m))
compile_verified p (d ∷ diagnostics) = some (record { unit = none; diagnostics = d ∷ diagnostics })

-- `compileMirToBytecode`.
unfoldable pub compile_mir_to_bytecode : MirProgram → Option BytecodeCompileResult
compile_mir_to_bytecode p = compile_verified p (verify_mir p)
