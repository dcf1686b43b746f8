-- ===== src/Lowering/Tests.antt =====
-- compiler/kyna_mir/src/lowering: the lowering at concrete programs.
use kyna.Base.{
  Yields, map, false, Bool, ℕ, List, Option, ◌≡◌, refl, inl, true, [], ◌∷◌, none, some, arith,
}
use kyna.Diagnostics.{unknown_span}
use kyna.Bytecode.Program.{BytecodeConstant}
use kyna.Mir.Program.{MirTerminatorNode, MirTerminator, MirProgram}
use kyna.Mir.Valid.{ValidProgram}
use kyna.Hir.{
  HirExpressionNode, HirExpression, HirBinaryOperator, HirStatementNode, HirStatement, HirProgram,
}
use kyna.Base
use kyna.Lowering.{
  unless_terminated, terminated, current, has_terminator, add_block, terminate, enter, push_cleanup,
  pop_cleanup, blocks_from, numbers, temporary, add_region, push, constant,
}
use kyna.Lowering.Expressions.{lower_node, fresh}
use kyna.Lowering.Statements.{
  lower_each, lower_expression, lower_statement, lower_statement_node, lower_try, finish,
  lower_optional, lower_handler,
}
use kyna.Lowering.Programs.{
  activated, index_captures, finish_function, lower_module_body, lower_functions, lower_program,
  lower_hir_to_mir,
}
use kyna.Base.{Yields}
use kyna.Generator.Programs.{compile_mir_to_bytecode}
use kyna.Lowering.Total.Compiled.{Compiled, compile_mir_to_bytecode-Compiled}
use kyna.Lowering.Fits.{ExprFits, StmtFits, bound_by, enough}
use kyna.Lowering.Total.{Signature}
use kyna.Lowering.Total.Programs.{ProgramFits, lower_hir_to_mir-ValidProgram}

abbrev expression : HirExpressionNode → HirExpression
expression node = record { node = node; span = unknown_span }

abbrev statement : HirStatementNode → HirStatement
statement node = record { node = node; span = unknown_span }

-- fn f(x) { return x && true; }  let v = true; while (v) { try { break; } finally { f(v); } }
abbrev sample : HirProgram
sample = record {
  name = "sample";
  expressions =
      expression (HirExpressionNode.constant (BytecodeConstant.boolean true))
      ∷ expression (HirExpressionNode.local 0)
      ∷ expression (HirExpressionNode.binary 1 HirBinaryOperator.and 0)
      ∷ expression (HirExpressionNode.call 0 (1 ∷ []))
      ∷ [];
  statements =
      statement (HirStatementNode.bind_local 0 0)
      ∷ statement (HirStatementNode.while_statement 1 2 "")
      ∷ statement (HirStatementNode.block (3 ∷ []))
      ∷ statement (
          HirStatementNode.try_statement (record {
            try_branch = 4;
            catch_local = none;
            catch_branch = none;
            finally_branch = some 5;
          }))
      ∷ statement (HirStatementNode.break_statement "")
      ∷ statement (HirStatementNode.evaluate 3)
      ∷ statement (HirStatementNode.return 2)
      ∷ [];
  locals = [];
  body = 0 ∷ 1 ∷ [];
  functions =
      record {
        name = "f";
        parameters = 0 ∷ [];
        body = 6;
        span = unknown_span;
        captures = [];
        parent = none;
      }
      ∷ [];
  classes = [];
}

sample-ProgramFits : ProgramFits sample 6
unfolding ExprFits StmtFits bound_by
sample-ProgramFits = record {
  body = (
    (_, refl, (_, refl, tt)),
    (
      (
        _,
        refl,
        (
          (_, refl, inl (inl refl)),
          (
            _,
            refl,
            (
              (
                _,
                refl,
                (
                  (_, refl, ((λ _. refl), λ _. refl)),
                  ((_, refl, (_, refl, ((_, refl, refl), ((_, refl, inl (inl refl)), tt)))), tt),
                ),
              ),
              tt,
            ),
          ),
        ),
      ),
      tt,
    ),
  );
  functions = ((_, refl, (_, refl, ((_, refl, inl (inl refl)), (_, refl, tt)))), tt);
  classes = tt;
}

lower_hir_to_mir-ValidProgram_example :
    (p : MirProgram) × (lower_hir_to_mir sample 63
      ≡ some (record { program = some p; diagnostics = [] }))
    × Signature sample p
    × ValidProgram p
unfolding enough
lower_hir_to_mir-ValidProgram_example =
    lower_hir_to_mir-ValidProgram sample 6 63 sample-ProgramFits (omega arith)

compile_mir_to_bytecode-Compiled_example :
    (p : MirProgram) × (lower_hir_to_mir sample 63
      ≡ some (record { program = some p; diagnostics = [] }))
    × Yields (Compiled p) (compile_mir_to_bytecode p)
unfolding enough
compile_mir_to_bytecode-Compiled_example =
    compile_mir_to_bytecode-Compiled sample 6 63 sample-ProgramFits (omega arith)

-- try { } finally { throw null; }
abbrev finally_throws : HirProgram
finally_throws = record {
  name = "finally";
  expressions = expression (HirExpressionNode.constant BytecodeConstant.null) ∷ [];
  statements =
      statement (
        HirStatementNode.try_statement (record {
          try_branch = 1;
          catch_local = none;
          catch_branch = none;
          finally_branch = some 2;
        }))
      ∷ statement (HirStatementNode.block [])
      ∷ statement (HirStatementNode.throw 0)
      ∷ [];
  locals = [];
  body = 0 ∷ [];
  functions = [];
  classes = [];
}

abbrev throws : Option MirTerminator → Bool
throws none = false
throws (some t) = elim t.node [
  | MirTerminatorNode.throw value ↦ true
  | MirTerminatorNode.return value ↦ false
  | MirTerminatorNode.goto target ↦ false
  | MirTerminatorNode.branch condition true_block false_block ↦ false
]

-- The blocks that the first exception region protects, and whether each block ends in a throw.
abbrev protection : Option MirProgram → List (List ℕ) × List Bool
protection none = ([], [])
protection (some p) =
    (map (λ r. r.protected_blocks) p.exception_regions, map (λ b. throws b.terminator) p.blocks)

-- The `finally` branch of a body that ends is in the last of the blocks that its own `try` protects.
finally_in_protected :
    protection (lower_program finally_throws 7) ≡ ((2 ∷ []) ∷ [], false ∷ false ∷ true ∷ true ∷ [])
unfolding lower_program lower_module_body activated index_captures lower_each lower_expression
    lower_statement unless_terminated terminated current has_terminator lower_statement_node
    lower_try add_block terminate enter push_cleanup pop_cleanup blocks_from numbers finish
    lower_optional temporary add_region lower_handler finish_function lower_node fresh push constant
    lower_functions Base.◌>>=◌
finally_in_protected = refl
