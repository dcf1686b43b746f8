-- ===== src/Generator/Tests.antt =====
-- compiler/kyna_mir and compiler/kyna_bytecode/src/generators: a program that is verified, compiled and run.
use kyna.Base.{
  ℕ, zero, suc, ◌<◌, ◌≡◌, ◌↔◌, refl, true, List, [], ◌∷◌, Option, none, some, Each, just, Yields,
  ◌>>=◌, get_elem?, arith,
}
use kyna.Base.Int.{pos}
use kyna.Diagnostics.{unknown_span}
use kyna.Bytecode.Program.{BytecodeConstant, BytecodeModule}
use kyna.Bytecode.Ancestors.{ends_within}
use kyna.Bytecode.Valid.{ValidModule}
use kyna.Mir.Program.{
  MirInstructionKind, MirInstruction, MirTerminatorNode, MirBasicBlock, MirFunction, MirClass,
  MirProgram,
}
use kyna.Mir.Verifier.{
  add_error_if, bad_function, function_at, parameter_count, capture_count, check_temporary,
  check_temporaries, verify_binary, verify_call, verify_kind, verify_instruction,
}
use kyna.Mir.Verifier.Bodies.{
  verify_instructions, verify_node, verify_terminator, verify_blocks, verify_protected,
  verify_region, verify_regions, verify_body, verify_function, verify_functions, verify_methods,
  verify_class, verify_classes, verify_mir,
}
use kyna.Mir.Valid.{ValidProgram}
use kyna.Mir.Valid.Programs.{verify_mir_iff}
use kyna.Generator.{
  opcode_for, emit, add_constant, add_arguments, emitted, compile_constant, compile_call,
  compile_kind, compile_instructions, terminator_size, block_offsets, compile_node, compile_blocks,
  block_handler, block_handlers, region_handlers, add_handlers, compile_body,
}
use kyna.Generator.Programs.{
  module_function, function_header, compile_class, declared, compile_at, compile_functions,
  generate, compile_mir_to_bytecode,
}
use kyna.Generator.Laid.{Laid, generate-Laid}
use kyna.Generator.Sound.{Generable, generate-ValidModule}
use kyna.Generator.Outcomes.{
  ClosedProgram, CompileOutcome, compile-CompileOutcome, RunsSafely, compile-RunsSafely,
}
use kyna.Vm.Safe.Heaps.{Extends-refl}
use kyna.Vm.Safe.Natives.{AdapterFits}
use kyna.Vm.Samples.{platform}

abbrev plain : MirInstruction
plain = record {
  kind = MirInstructionKind.constant;
  destination = 0;
  first = 0;
  second = 0;
  constant = BytecodeConstant.null;
  span = unknown_span;
  function = 0;
  arguments = [];
  capture = 0;
  capture_sources = [];
  names = [];
}

abbrev terminated : List MirInstruction → MirTerminatorNode → MirBasicBlock
terminated instructions node = record {
  instructions = instructions;
  terminator = some (record { node = node; span = unknown_span });
}

-- A method that adds its two parameters.
abbrev add : MirFunction
add = record {
  name = "add";
  parameter_count = 2;
  temporary_count = 3;
  entry_block = 0;
  blocks =
      terminated
        (record plain { kind = MirInstructionKind.add; destination = 2; first = 0; second = 1 }
          ∷ [])
        (MirTerminatorNode.return 2)
      ∷ [];
  exception_regions = [];
  span = unknown_span;
  captures = [];
}

abbrev adder : MirClass
adder = record {
  name = "Adder";
  parent = none;
  fields = [];
  methods = record { name = "add"; function = 0 } ∷ [];
  constructor = none;
}

-- It calls the function, and returns the sum or, after an error, the error.
abbrev sample : MirProgram
sample = record {
  name = "sample";
  temporary_count = 4;
  entry_block = 0;
  blocks =
      terminated
        (record plain { constant = BytecodeConstant.integer (pos 2) }
          ∷ record plain { destination = 1; constant = BytecodeConstant.integer (pos 3) }
          ∷ record plain {
            kind = MirInstructionKind.call;
            destination = 2;
            function = 1;
            arguments = 0 ∷ 1 ∷ [];
          }
          ∷ [])
        (MirTerminatorNode.branch 2 1 2)
      ∷ terminated [] (MirTerminatorNode.return 2)
      ∷ terminated [] (MirTerminatorNode.return 3)
      ∷ [];
  exception_regions = record { protected_blocks = 0 ∷ []; handler = 2; error_destination = 3 } ∷ [];
  functions = add ∷ [];
  classes = adder ∷ [];
}

sample-verified : verify_mir sample ≡ []
unfolding verify_mir verify_body verify_blocks verify_instructions verify_instruction verify_kind
    verify_call verify_binary check_temporary check_temporaries add_error_if bad_function
    parameter_count function_at verify_terminator verify_node verify_regions verify_region
    verify_protected verify_functions verify_function verify_classes verify_class verify_methods
sample-verified = refl

verify_mir_iff_example : (verify_mir sample ≡ []) ↔ ValidProgram sample
verify_mir_iff_example = verify_mir_iff sample

sample-Valid : ValidProgram sample
sample-Valid = verify_mir_iff_example.0 sample-verified

generate-Laid_example : Yields (Laid sample) (generate sample)
generate-Laid_example = generate-Laid sample sample-Valid

-- The branch jumps to the third block, at 6, or goes on to a jump to the second, at 5. The handler
-- protects the five instructions of the first block.
abbrev targets : Option (List ℕ)
targets = do
  m ← generate sample
  f ← get_elem? m.functions 0
  i ← get_elem? f.instructions 3
  j ← get_elem? f.instructions 4
  h ← get_elem? f.exception_handlers 0
  some (i.second ∷ j.first ∷ h.first_instruction ∷ h.instruction_count ∷ h.handler_instruction ∷ [])

sample-targets : targets ≡ some (6 ∷ 5 ∷ 0 ∷ 5 ∷ 6 ∷ [])
unfolding generate declared module_function function_header compile_class compile_at
    compile_functions compile_body block_offsets terminator_size compile_blocks compile_instructions
    compile_kind compile_constant compile_call emitted emit add_constant add_arguments opcode_for
    compile_node region_handlers block_handlers block_handler add_handlers ◌>>=◌
sample-targets = refl

sample-Generable : Generable sample
unfolding parameter_count function_at ends_within compile_class
sample-Generable = record {
  temporaries = omega arith;
  function_temporaries = (omega arith, tt);
  receivers = ((tt, (tt, (tt, tt))), (tt, (tt, tt)));
  function_receivers = (((tt, tt), tt), tt);
  constructors = (tt, tt);
  methods = ((omega arith, tt), tt);
  acyclic = chain;
}
  where
    chain : (index : ℕ) → index < 1 → ends_within 2 (compile_class adder ∷ []) (some index) ≡ true
    chain zero l = refl
    chain (suc index) l = refl

sample-Closed : ClosedProgram sample
unfolding capture_count function_at
sample-Closed = record {
  direct = ((tt, (tt, (refl, tt))), (tt, (tt, tt)));
  function_direct = (((tt, tt), tt), tt);
  constructors = (tt, tt);
  methods = ((refl, tt), tt);
}

generate-ValidModule_example : Yields (λ m. Laid sample m × ValidModule m) (generate sample)
generate-ValidModule_example = generate-ValidModule sample sample-Valid sample-Generable

compile-CompileOutcome_example : Yields (CompileOutcome sample) (compile_mir_to_bytecode sample)
compile-CompileOutcome_example = compile-CompileOutcome sample

silent-Fits : (m : BytecodeModule) → Each (AdapterFits m) platform.natives
silent-Fits m = just λ name values h fits inside. (Extends-refl m h fits, tt)

compile-RunsSafely_example : Yields (RunsSafely sample platform 20) (compile_mir_to_bytecode sample)
compile-RunsSafely_example =
    compile-RunsSafely sample platform 20 silent-Fits sample-Generable sample-Closed sample-Valid
