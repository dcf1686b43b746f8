-- ===== src/Lowering/Expressions.antt =====
-- compiler/kyna_mir/src/lowering/expression_lowering.cpp, expression_control_lowering.cpp and
-- expression_invocation_lowering.cpp: a step of `lowerExpression`. What it calls for the parts of the
-- expression are arguments, `expression` and `statement`.
use kyna.Base.{
  ℕ, ◌+◌, Bool, true, false, not, List, [], ◌∷◌, Option, none, some, map, get_elem?, if◌then◌else◌,
}
use kyna.Diagnostics.{SourceSpan}
use kyna.Bytecode.Program.{BytecodeConstant}
use kyna.Mir.Program.{
  MirInstructionKind, MirCaptureKind, MirCaptureSource, MirInstruction, MirTerminatorNode,
}
use kyna.Hir.{
  HirUnaryOperator, HirBinaryOperator, HirMatchArm, HirIfExpression, HirExpressionNode, HirProgram,
}
use kyna.Lowering.{
  Lowering, Lower, ◌>>=◌, ◌>>◌, give, need, get, temporary, add_block, push, terminate,
  unless_terminated, enter, lookup, instruction, move, constant,
}

unfoldable pub unary_kind : HirUnaryOperator → MirInstructionKind
unary_kind HirUnaryOperator.negate = MirInstructionKind.negate
unary_kind HirUnaryOperator.not = MirInstructionKind.not

-- `instructionFor`.
unfoldable pub instruction_for : HirBinaryOperator → MirInstructionKind
instruction_for HirBinaryOperator.add = MirInstructionKind.add
instruction_for HirBinaryOperator.subtract = MirInstructionKind.subtract
instruction_for HirBinaryOperator.multiply = MirInstructionKind.multiply
instruction_for HirBinaryOperator.divide = MirInstructionKind.divide
instruction_for HirBinaryOperator.remainder = MirInstructionKind.remainder
instruction_for HirBinaryOperator.equal = MirInstructionKind.equal
instruction_for HirBinaryOperator.not_equal = MirInstructionKind.not_equal
instruction_for HirBinaryOperator.less = MirInstructionKind.less
instruction_for HirBinaryOperator.less_equal = MirInstructionKind.less_equal
instruction_for HirBinaryOperator.greater = MirInstructionKind.greater
instruction_for HirBinaryOperator.greater_equal = MirInstructionKind.greater_equal
instruction_for HirBinaryOperator.and = MirInstructionKind.move
instruction_for HirBinaryOperator.or = MirInstructionKind.move

unfoldable pub capture_source : Lowering → ℕ → Option MirCaptureSource
capture_source s local = elim (lookup local s.locals) [
  | some t ↦ some (record { kind = MirCaptureKind.local; index = t })
  | none ↦ elim (lookup local s.capture_indexes) [
    | some c ↦ some (record { kind = MirCaptureKind.capture; index = c })
    | none ↦ none
  ]
]

unfoldable pub capture_sources : List ℕ → Lower (List MirCaptureSource)
capture_sources [] = give []
capture_sources (local ∷ locals) = do
  s ← get
  source ← need (capture_source s local)
  sources ← capture_sources locals
  give (source ∷ sources)

module _ (hir : HirProgram) (expression : ℕ → Lower ℕ) (statement : ℕ → Lower (Unit {0})) where
  unfoldable pub lower_all : List ℕ → Lower (List ℕ)
  lower_all [] = give []
  lower_all (e ∷ es) = do t ← expression e; ts ← lower_all es; give (t ∷ ts)

  module _ (span : SourceSpan) where
    -- An instruction whose destination is a new temporary, the result.
    unfoldable pub fresh : (ℕ → MirInstruction) → Lower ℕ
    fresh make = do target ← temporary; push (make target); give target

    unfoldable pub lower_capture : ℕ → Lower ℕ
    lower_capture local = do
      target ← temporary
      s ← get
      capture ← need (lookup local s.capture_indexes)
      push (record (instruction MirInstructionKind.load_capture target span) { capture = capture })
      give target

    unfoldable pub lower_local : ℕ → Lower ℕ
    lower_local local = do
      s ← get
      elim (lookup local s.locals) [ some t ↦ give t | none ↦ lower_capture local ]

    unfoldable pub lower_unary : MirInstructionKind → ℕ → Lower ℕ
    lower_unary kind operand = do
      t ← expression operand
      fresh λ target. record (instruction kind target span) { first = t }

    -- The value of `&&` and `||` where the left operand decides it.
    unfoldable pub short_circuit : Bool → ℕ → ℕ → Lower (Unit {0})
    short_circuit is_and target continuation = do
      value ← temporary
      constant (BytecodeConstant.boolean (not is_and)) value span
      move target value span
      terminate (MirTerminatorNode.goto continuation) span

    unfoldable pub right_operand : ℕ → ℕ → ℕ → Lower (Unit {0})
    right_operand right target continuation = do
      value ← expression right
      inverted ← temporary
      boolean ← temporary
      push (record (instruction MirInstructionKind.not inverted span) { first = value })
      push (record (instruction MirInstructionKind.not boolean span) { first = inverted })
      move target boolean span
      terminate (MirTerminatorNode.goto continuation) span

    unfoldable pub lower_logical : Bool → ℕ → ℕ → Lower ℕ
    lower_logical is_and left right = do
      target ← temporary
      right_block ← add_block
      short ← add_block
      continuation ← add_block
      terminate
          (MirTerminatorNode.branch left (if is_and then right_block else short)
            (if is_and then short else right_block))
          span
      enter short
      short_circuit is_and target continuation
      enter right_block
      right_operand right target continuation
      enter continuation
      give target

    unfoldable pub lower_arithmetic : MirInstructionKind → ℕ → ℕ → Lower ℕ
    lower_arithmetic kind left right = do
      value ← expression right
      fresh λ target. record (instruction kind target span) { first = left; second = value }

    unfoldable pub lower_binary : ℕ → HirBinaryOperator → ℕ → Lower ℕ
    lower_binary left HirBinaryOperator.and right = do
      value ← expression left
      lower_logical true value right
    lower_binary left HirBinaryOperator.or right = do
      value ← expression left
      lower_logical false value right
    lower_binary left operation right = do
      value ← expression left
      lower_arithmetic (instruction_for operation) value right

    -- A branch of an `if` expression.
    unfoldable pub lower_branch : ℕ → ℕ → ℕ → ℕ → Lower (Unit {0})
    lower_branch prelude value target continuation = do
      statement prelude
      unless_terminated do
        t ← expression value
        move target t span
        terminate (MirTerminatorNode.goto continuation) span

    -- `lowerIfExpression`.
    unfoldable pub lower_if_expression : HirIfExpression → Lower ℕ
    lower_if_expression node = do
      condition ← expression node.condition
      target ← temporary
      then_block ← add_block
      else_block ← add_block
      continuation ← add_block
      terminate (MirTerminatorNode.branch condition then_block else_block) span
      enter then_block
      lower_branch node.then_prelude node.then_value target continuation
      enter else_block
      lower_branch node.else_prelude node.else_value target continuation
      enter continuation
      give target

    -- The value of an arm, and the jump behind it.
    unfoldable pub lower_arm : ℕ → ℕ → ℕ → Lower (Unit {0})
    lower_arm value target continuation = do
      t ← expression value
      move target t span
      terminate (MirTerminatorNode.goto continuation) span

    -- The loop over the arms, and what is behind it where no arm has ended it.
    unfoldable pub lower_arms : ℕ → ℕ → ℕ → List HirMatchArm → Lower (Unit {0})
    lower_arms subject target continuation [] = unless_terminated do
      fallback ← temporary
      constant BytecodeConstant.null fallback span
      move target fallback span
      terminate (MirTerminatorNode.goto continuation) span
    lower_arms subject target continuation (arm ∷ arms) = elim arm.pattern_value [
      | none ↦ lower_arm arm.value target continuation
      | some value ↦ do
        t ← expression value
        matches ← temporary
        push (record (instruction MirInstructionKind.equal matches span) {
          first = subject;
          second = t;
        })
        arm_block ← add_block
        next ← add_block
        terminate (MirTerminatorNode.branch matches arm_block next) span
        enter arm_block
        lower_arm arm.value target continuation
        enter next
        lower_arms subject target continuation arms
    ]

    -- `lowerMatchExpression`.
    unfoldable pub lower_match_expression : ℕ → List HirMatchArm → Lower ℕ
    lower_match_expression subject arms = do
      value ← expression subject
      target ← temporary
      continuation ← add_block
      lower_arms value target continuation arms
      enter continuation
      give target

    -- An instruction that reads a list of expressions, into a temporary from before them.
    unfoldable pub lower_list : List ℕ → (ℕ → List ℕ → MirInstruction) → Lower ℕ
    lower_list es make = do
      target ← temporary
      ts ← lower_all es
      push (make target ts)
      give target

    unfoldable pub lower_access : ℕ → (ℕ → ℕ → MirInstruction) → Lower ℕ
    lower_access object make = do
      target ← temporary
      t ← expression object
      push (make target t)
      give target

    unfoldable pub lower_index : ℕ → ℕ → Lower ℕ
    lower_index object index = do
      target ← temporary
      t ← expression object
      u ← expression index
      push
          (record (instruction MirInstructionKind.load_index target span) { first = t; second = u })
      give target

    unfoldable pub lower_closure : ℕ → Lower ℕ
    lower_closure function = do
      target ← temporary
      f ← need (get_elem? hir.functions function)
      sources ← capture_sources f.captures
      push (record (instruction MirInstructionKind.closure target span) {
        function = function + 1;
        capture_sources = sources;
      })
      give target

    unfoldable pub store_capture : ℕ → ℕ → Lower ℕ
    store_capture local source = do
      s ← get
      capture ← need (lookup local s.capture_indexes)
      push (record (instruction MirInstructionKind.store_capture source span) {
        first = source;
        capture = capture;
      })
      give source

    unfoldable pub lower_assign_local : ℕ → ℕ → Lower ℕ
    lower_assign_local local value = do
      source ← expression value
      s ← get
      elim (lookup local s.locals) [
        | some t ↦ do move t source span; give t
        | none ↦ store_capture local source
      ]

    unfoldable pub lower_call : ℕ → List ℕ → Lower ℕ
    lower_call function es = do
      ts ← lower_all es
      fresh λ target. record (instruction MirInstructionKind.call target span) {
        function = function + 1;
        arguments = ts;
      }

    unfoldable pub lower_indirect_call : ℕ → List ℕ → Lower ℕ
    lower_indirect_call callee es = do
      t ← expression callee
      ts ← lower_all es
      fresh λ target. record (instruction MirInstructionKind.call_indirect target span) {
        first = t;
        arguments = ts;
      }

    -- The visit of the expression's node.
    unfoldable pub lower_node : HirExpressionNode → Lower ℕ
    lower_node (HirExpressionNode.constant value) =
        fresh λ target. record (instruction MirInstructionKind.constant target span) {
          constant = value;
        }
    lower_node (HirExpressionNode.local local) = lower_local local
    lower_node (HirExpressionNode.function_reference function) = fresh λ target.
        record (instruction MirInstructionKind.function_reference target span) {
          function = function + 1;
        }
    lower_node (HirExpressionNode.closure function) = lower_closure function
    lower_node (HirExpressionNode.unary operation operand) =
        lower_unary (unary_kind operation) operand
    lower_node (HirExpressionNode.await operand) = lower_unary MirInstructionKind.move operand
    lower_node (HirExpressionNode.binary left operation right) = lower_binary left operation right
    lower_node (HirExpressionNode.assign_local local value) = lower_assign_local local value
    lower_node (HirExpressionNode.assign_index object index value) =
        lower_list (object ∷ index ∷ value ∷ []) λ target ts.
          record (instruction MirInstructionKind.store_index target span) { arguments = ts }
    lower_node (HirExpressionNode.assign_member object member value) =
        lower_list (object ∷ value ∷ []) λ target ts.
          record (instruction MirInstructionKind.store_member target span) {
            constant = BytecodeConstant.string member;
            arguments = ts;
          }
    lower_node (HirExpressionNode.call function es) = lower_call function es
    lower_node (HirExpressionNode.indirect_call callee es) = lower_indirect_call callee es
    lower_node (HirExpressionNode.new class es) = lower_list es λ target ts.
        record (instruction MirInstructionKind.make_instance target span) {
          function = class;
          arguments = ts;
        }
    lower_node (HirExpressionNode.native_call name es) = lower_list es λ target ts.
        record (instruction MirInstructionKind.call_native target span) {
          constant = BytecodeConstant.string name;
          arguments = ts;
        }
    lower_node (HirExpressionNode.member object member) = lower_access object λ target t.
        record (instruction MirInstructionKind.load_member target span) {
          first = t;
          constant = BytecodeConstant.string member;
        }
    lower_node (HirExpressionNode.bound_method receiver function) =
        lower_access receiver λ target t.
          record (instruction MirInstructionKind.bind_method target span) {
            first = t;
            function = function + 1;
          }
    lower_node (HirExpressionNode.index object index) = lower_index object index
    lower_node (HirExpressionNode.array es) = lower_list es λ target ts.
        record (instruction MirInstructionKind.make_array target span) { arguments = ts }
    lower_node (HirExpressionNode.object fields) =
        lower_list (map (λ field. field.value) fields) λ target ts.
          record (instruction MirInstructionKind.make_object target span) {
            arguments = ts;
            names = map (λ field. field.name) fields;
          }
    lower_node (HirExpressionNode.if_expression node) = lower_if_expression node
    lower_node (HirExpressionNode.match_expression subject arms) =
        lower_match_expression subject arms
