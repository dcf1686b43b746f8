-- ===== src/Hir.antt =====
-- compiler/kyna_hir/include/kyna/hir/hir_program.hpp: programs of the high-level representation. Expressions
-- and statements are in two tables and name one another by their indices; an `Hir…Id` is its number.
use kyna.Base.{ℕ, Bool, List, Option, String}
use kyna.Diagnostics.{SourceSpan}
use kyna.Mir.Program.{HirConstant}

pub data HirUnaryOperator : Type 0 where
  negate not : HirUnaryOperator

pub data HirBinaryOperator : Type 0 where
  add subtract multiply divide remainder equal not_equal : HirBinaryOperator
  less less_equal greater greater_equal and or : HirBinaryOperator

pub record HirObjectField : Type 0 where
  pub name : String
  pub value : ℕ

pub record HirMatchArm : Type 0 where
  pub pattern_value : Option ℕ
  pub value : ℕ

pub record HirIfExpression : Type 0 where
  pub condition : ℕ
  pub then_prelude : ℕ
  pub then_value : ℕ
  pub else_prelude : ℕ
  pub else_value : ℕ

-- `HirExpression::Node`.
pub data HirExpressionNode : Type 0 where
  constant : HirConstant → HirExpressionNode
  local function_reference closure : ℕ → HirExpressionNode
  unary : HirUnaryOperator → ℕ → HirExpressionNode
  await : ℕ → HirExpressionNode
  binary : ℕ → HirBinaryOperator → ℕ → HirExpressionNode
  assign_local : ℕ → ℕ → HirExpressionNode
  assign_index : ℕ → ℕ → ℕ → HirExpressionNode
  assign_member : ℕ → String → ℕ → HirExpressionNode
  call indirect_call new : ℕ → List ℕ → HirExpressionNode
  native_call : String → List ℕ → HirExpressionNode
  member : ℕ → String → HirExpressionNode
  bound_method index : ℕ → ℕ → HirExpressionNode
  array : List ℕ → HirExpressionNode
  object : List HirObjectField → HirExpressionNode
  if_expression : HirIfExpression → HirExpressionNode
  match_expression : ℕ → List HirMatchArm → HirExpressionNode

pub record HirExpression : Type 0 where
  pub node : HirExpressionNode
  pub span : SourceSpan

pub record HirLoopStatement : Type 0 where
  pub initializer : Option ℕ
  pub condition : ℕ
  pub increment : Option ℕ
  pub body : ℕ
  pub label : String

pub record HirSwitchCase : Type 0 where
  pub value : Option ℕ
  pub body : ℕ

pub record HirTryStatement : Type 0 where
  pub try_branch : ℕ
  pub catch_local : Option ℕ
  pub catch_branch : Option ℕ
  pub finally_branch : Option ℕ

-- `HirStatement::Node`.
pub data HirStatementNode : Type 0 where
  bind_local : ℕ → ℕ → HirStatementNode
  evaluate return throw : ℕ → HirStatementNode
  block : List ℕ → HirStatementNode
  if_statement : ℕ → ℕ → Option ℕ → HirStatementNode
  while_statement : ℕ → ℕ → String → HirStatementNode
  loop_statement : HirLoopStatement → HirStatementNode
  switch_statement : ℕ → List HirSwitchCase → HirStatementNode
  break_statement continue_statement : String → HirStatementNode
  try_statement : HirTryStatement → HirStatementNode

pub record HirStatement : Type 0 where
  pub node : HirStatementNode
  pub span : SourceSpan

pub record HirLocal : Type 0 where
  pub name : String
  pub mutable_binding : Bool
  pub span : SourceSpan

pub record HirFunction : Type 0 where
  pub name : String
  pub parameters : List ℕ
  pub body : ℕ
  pub span : SourceSpan
  pub captures : List ℕ
  pub parent : Option ℕ

pub record HirClassField : Type 0 where
  pub name : String
  pub span : SourceSpan

pub record HirClassMethod : Type 0 where
  pub name : String
  pub function : ℕ

pub record HirClass : Type 0 where
  pub name : String
  pub parent : Option ℕ
  pub fields : List HirClassField
  pub methods : List HirClassMethod
  pub constructor : Option ℕ
  pub span : SourceSpan

pub record HirProgram : Type 0 where
  pub name : String
  pub expressions : List HirExpression
  pub statements : List HirStatement
  pub locals : List HirLocal
  pub body : List ℕ
  pub functions : List HirFunction
  pub classes : List HirClass
