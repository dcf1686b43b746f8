-- ===== src/Lib.antt =====
-- Kyna is a statically typed programming language. Its compiler reads a source file into tokens, a
-- syntax tree and two intermediate representations, and generates a bytecode module; the runtime
-- validates the module and executes it on a register machine with a tracing heap.
--
-- What is modelled, and where:
--   Diagnostics     compiler/kyna_diagnostics: a diagnostic; compiler/kyna_source: a span.
--   Source          compiler/kyna_source/src/io: the source manager, `add`, `find`, `line`, `span`, on
--                   texts as lists of bytes. Source.Positions says what its search finds.
--   Lexing          compiler/kyna_lexing: the tokenizer. Lexing.Token and Lexing.Keyword are the tokens
--                   and the keywords; Lexing.Scanner is the state of `TokenScanner` (position, line,
--                   column, start of the token, result) with `advance`, `peek`, `take`, `add`, `fail`;
--                   its children Literal, Punctuation and Tokenize are literal_scanner.cpp,
--                   punctuation_scanner.cpp, and `scan` and `tokenize` of token_scanner.cpp. A `fail`
--                   is a `KynaError`: an `Outcome` is the scanner after a normal return, or the
--                   diagnostic thrown with the scanner as it was left. Lexing.Moves, Results, Rounds,
--                   Chain, Faithful and Correct hold the proofs, from a single `advance` to `tokenize`.
--   Bytecode        compiler/kyna_bytecode: Bytecode.Program is bytecode_module.hpp, Bytecode.Report and
--                   Bytecode.Validator are bytecode_validator.cpp, with every report in the order of the
--                   code. Bytecode.Valid says what a valid module is, apart from the validator, and
--                   its children relate the two; Bytecode.Ancestors is the search for cycles.
--   Mir             compiler/kyna_mir: Mir.Program is mir_program.hpp and Mir.Verifier is mir_verifier.cpp,
--                   with every error in the order of the code; Mir.Valid says what a valid program is, apart
--                   from the verifier, and its children relate the two.
--   Hir             compiler/kyna_hir: hir_program.hpp, two tables of expressions and statements that name one
--                   another by their indices.
--   Lowering        compiler/kyna_mir/src/lowering: Lowering is the state of `HirLowerer` and its helpers;
--                   Lowering.Expressions, Statements and Programs are `lowerExpression`, `lowerStatement` and
--                   `lowerHirToMir`, with the visit of a node as a function of what lowers its parts.
--                   Lowering.Fits says which programs can be lowered, apart from the lowering;
--                   Lowering.States is what holds of the state between two steps, and Lowering.Total goes
--                   through the expressions and statements and joins them; Lowering.Total.Outcomes is about
--                   programs that need not fit.
--   Generator       compiler/kyna_bytecode/src/generators: Generator is body_compiler.cpp and
--                   Generator.Programs is `compileMirToBytecode`. Generator.Encoding says what code stands
--                   for a body, apart from the way in which it is emitted, and Heads what functions and classes are
--                   made of a program; Encoding.Choices, Growth, Emitting, Offsets, Bodies
--                   and Laid show that the generator makes that code, and Operations, Functions, Sound
--                   and Outcomes what follows for the validator and the machine.
--   Vm              runtime/kyna_vm: Vm.Numeric is checkedBytecodeIntegerArithmetic on integers that fit
--                   64 bits; Vm.Value is `Value` and the objects of the heap, and Vm.Value.Display prints
--                   and compares them (runtime_value.cpp). Vm.Machine is the state of `execute`: the last
--                   frame, the frames behind it and the heap, with `readRegister`, `writeRegister`,
--                   `unwindError` and `raise`; Vm.Machine.Registers and Handlers say what they do.
--                   Vm.Lookup follows the parents of a class; Vm.Arithmetic is the arithmetic of the
--                   opcodes. Vm.Step.Values, Calls, Members and Elements are the cases of the `switch`, one
--                   function for each, and Vm.Step.Round is a round of the loop, the loop, and `execute`;
--                   `none` stands for an access out of range, which C++
--                   does not define. Vm.Safe says when values, heaps and frames fit a module
--                   (Vm.Safe.Fits), and its other children go through the cases. Vm.Collection is the
--                   marking of `Heap::collectRoots`: its queues of values and capture cells, and its sets
--                   of marked objects as one; Vm.Collection.Paths says what the objects of a heap lead to, apart
--                   from the marking, and Vm.Collection.Marking what is marked.
--   Base            lists, options, texts and integers that the others share.
--
-- Numbers: `std::size_t`, `std::uint32_t` and the `int` of lines and columns are natural numbers; a text
-- is assumed to have fewer bytes than these types count. An `std::int64_t` is an integer, and where the
-- code guards against overflow, the guards are in the model as written.
--
-- Bounds: `scan_loop` and the loops inside a token take the number of bytes that are left as the bound
-- on their rounds, since every round reads a byte; `find_cycle` takes one round more than there are
-- classes, since every round but the last marks a class that was not marked, and the searches along the
-- parents of a class take as many, which is enough on a valid module. Execution takes a number of rounds,
-- since a program may run for ever. `display_value` takes two calls more than there are arrays, since it
-- opens no array inside itself. The lowering takes a bound on the depth of its calls: for bodies of height n,
-- `enough n` doubles at each level, since a statement that leaves a `try` lowers the `finally` branches around
-- it once more. The marking of the heap takes at most a round for each root and for each
-- value and capture cell in an object.
--
-- Parameters: what the machine uses and the sources do not define is the record `Platform`, an argument
-- of the machine: arithmetic on `double` (a `double` is its bit pattern), the names of opcodes, which the
-- build generates, and the native functions. Native functions do not call back into the machine.
--
-- Where the pieces meet: the validator of Bytecode is what `execute` calls before it runs, and what it
-- promises, told by Bytecode.Valid, is what Vm.Safe relies on. It is not quite enough: the validator does
-- not test that a function which is run without a closure captures nothing, and Vm.Safe.Targets names that
-- as a condition of its own. Vm.Tests has a module that the validator accepts and that reads out of range.
--
-- The lowering ends with the verifier of Mir, as the generator begins with it: on a program that fits, neither
-- has anything to report. In the lowering `none` stands for a `std::out_of_range` of `at`, and for an access
-- to the last loop, break target or default case where there is none. Lowering.Tests has a `try` whose
-- `finally` branch stands in a block that the `try` protects.
--
-- The generator meets three parts: it runs the verifier of Mir first and the validator of Bytecode last, and
-- Generator.Outcomes joins what the three promise with the safety of Vm. The verifier leaves to the
-- validator that bodies have temporaries, that methods take a receiver, and that classes have no cycle;
-- Generator.Sound names that as a condition. No code reads the entry block of a body: it is block 0.
--
-- Not modelled: the sweep of the heap, its thresholds and statistics, the safepoints of the machine (a
-- machine of the model keeps all its objects), callbacks from native functions, the
-- tree-walking evaluator, reading files (`SourceManager::load`), rendering, the host's capabilities, the
-- standard library, the command line, and, so far, the parser, the type checker, and the lowering of the
-- syntax tree to the high-level representation.
pub mod Base
pub mod Diagnostics
pub mod Mir
pub mod Hir
pub mod Lowering
pub mod Generator
pub mod Source
pub mod Lexing
pub mod Bytecode
pub mod Vm
