-- ===== src/Lowering/Statements.antt =====
-- compiler/kyna_mir/src/lowering/statement_lowering.cpp: a step of `lowerStatement`, for calls that lower the
-- parts, and the two functions themselves, with a bound on the depth of their calls.
use kyna.Base.{
  ℕ, zero, suc, Bool, true, false, List, [], ◌∷◌, Option, none, some, String, get_elem?,
  if◌then◌else◌,
}
use kyna.Diagnostics.{SourceSpan}
use kyna.Mir.Program.{MirInstructionKind, MirTerminatorNode}
use kyna.Hir.{HirLoopStatement, HirSwitchCase, HirTryStatement, HirStatementNode, HirProgram}
use kyna.Lowering.{
  Lower, ◌>>=◌, ◌>>◌, give, need, get, temporary, add_block, push, terminate, terminated,
  unless_terminated, enter, bind_local, instruction, move, push_loop, pop_loop, push_break,
  pop_break, set_cleanups, push_cleanup, pop_cleanup, loop_target, break_target, add_region,
  blocks_from,
}
use kyna.Lowering.Expressions.{lower_node}

-- A new block for each case.
unfoldable pub add_arms : List HirSwitchCase → Lower (List (HirSwitchCase × ℕ))
add_arms [] = give []
add_arms (c ∷ cases) = do block ← add_block; arms ← add_arms cases; give ((c, block) ∷ arms)

-- The block of the last case without a value.
unfoldable pub default_arm : Option ℕ → List (HirSwitchCase × ℕ) → Option ℕ
default_arm found [] = found
default_arm found ((c, block) ∷ arms) =
    default_arm (elim c.value [ none ↦ some block | some value ↦ found ]) arms

-- The cases with a value: the value, and the block of the case.
unfoldable pub value_arms : List (HirSwitchCase × ℕ) → List (ℕ × ℕ)
value_arms [] = []
value_arms ((c, block) ∷ arms) = elim c.value [
  | none ↦ value_arms arms
  | some value ↦ (value, block) ∷ value_arms arms
]

-- A new block for the test of each case with a value, before its value and its block.
unfoldable pub add_tests : List (ℕ × ℕ) → Lower (List (ℕ × ℕ × ℕ))
add_tests [] = give []
add_tests ((value, block) ∷ arms) = do
  test ← add_block
  tests ← add_tests arms
  give ((test, value, block) ∷ tests)

-- Where the first of the tests is, or where they lead to that all fail.
unfoldable pub first_test : ℕ → List (ℕ × ℕ × ℕ) → ℕ
first_test otherwise [] = otherwise
first_test otherwise ((test, value, block) ∷ tests) = test

-- Where a `switch` goes when no case fits: without tests, `armBlocks[*defaultArm]`.
unfoldable pub otherwise_block : ℕ → Option ℕ → List (ℕ × ℕ × ℕ) → Option ℕ
otherwise_block continuation found [] = found
otherwise_block continuation found (test ∷ tests) =
    some (elim found [ none ↦ continuation | some block ↦ block ])

module _ (expression : ℕ → Lower ℕ) (statement : ℕ → Lower (Unit {0})) where
  unfoldable pub lower_each : List ℕ → Lower (Unit {0})
  lower_each [] = give tt
  lower_each (s ∷ statements) = do statement s; lower_each statements

  unfoldable pub lower_optional : Option ℕ → Lower (Unit {0})
  lower_optional none = give tt
  lower_optional (some s) = statement s

  -- The loop of `lowerActiveCleanups`, with what it saved: the last cleanup comes first, and while it is
  -- lowered only those before it are active.
  unfoldable pub lower_cleanups : List ℕ → List ℕ → Lower Bool
  lower_cleanups saved [] = do set_cleanups saved; give true
  lower_cleanups saved (c ∷ cleanups) = do
    set_cleanups cleanups
    statement c
    closed ← terminated
    if closed then (do set_cleanups saved; give false) else lower_cleanups saved cleanups

  -- `lowerActiveCleanups`.
  unfoldable pub lower_active_cleanups : Lower Bool
  lower_active_cleanups = do s ← get; lower_cleanups s.cleanups s.cleanups

  -- `if (lowerActiveCleanups()) terminate(…);`
  unfoldable pub leave : MirTerminatorNode → SourceSpan → Lower (Unit {0})
  leave node span = do ready ← lower_active_cleanups; if ready then terminate node span else give tt

  module _ (span : SourceSpan) where
    -- `if (!current().terminator) terminate(MirGotoTerminator{block}, …);`
    unfoldable pub close : ℕ → Lower (Unit {0})
    close block = unless_terminated (terminate (MirTerminatorNode.goto block) span)

    unfoldable pub lower_bind_local : ℕ → ℕ → Lower (Unit {0})
    lower_bind_local local initializer = do
      destination ← temporary
      bind_local local destination
      source ← expression initializer
      move destination source span

    unfoldable pub lower_if : ℕ → ℕ → Option ℕ → Lower (Unit {0})
    lower_if condition then_branch else_branch = do
      t ← expression condition
      then_block ← add_block
      else_block ← add_block
      continuation ← add_block
      terminate (MirTerminatorNode.branch t then_block else_block) span
      enter then_block
      statement then_branch
      close continuation
      enter else_block
      lower_optional else_branch
      close continuation
      enter continuation

    unfoldable pub lower_while : ℕ → ℕ → String → Lower (Unit {0})
    lower_while condition body label = do
      condition_block ← add_block
      body_block ← add_block
      exit_block ← add_block
      terminate (MirTerminatorNode.goto condition_block) span
      enter condition_block
      t ← expression condition
      terminate (MirTerminatorNode.branch t body_block exit_block) span
      enter body_block
      push_loop label exit_block condition_block
      statement body
      pop_loop
      close condition_block
      enter exit_block

    unfoldable pub lower_increment : Option ℕ → Lower (Unit {0})
    lower_increment none = give tt
    lower_increment (some e) = do expression e; give tt

    -- A `for` loop, behind its initializer.
    unfoldable pub lower_for : HirLoopStatement → Lower (Unit {0})
    lower_for node = do
      condition_block ← add_block
      body_block ← add_block
      increment_block ← add_block
      exit_block ← add_block
      terminate (MirTerminatorNode.goto condition_block) span
      enter condition_block
      t ← expression node.condition
      terminate (MirTerminatorNode.branch t body_block exit_block) span
      enter body_block
      push_loop node.label exit_block increment_block
      statement node.body
      pop_loop
      close increment_block
      enter increment_block
      lower_increment node.increment
      terminate (MirTerminatorNode.goto condition_block) span
      enter exit_block

    unfoldable pub lower_loop : HirLoopStatement → Lower (Unit {0})
    lower_loop node = do lower_optional node.initializer; unless_terminated (lower_for node)

    unfoldable pub lower_tests : ℕ → ℕ → List (ℕ × ℕ × ℕ) → Lower (Unit {0})
    lower_tests subject otherwise [] = give tt
    lower_tests subject otherwise ((test, value, block) ∷ tests) = do
      enter test
      t ← expression value
      equal ← temporary
      push
          (record (instruction MirInstructionKind.equal equal span) { first = subject; second = t })
      terminate (MirTerminatorNode.branch equal block (first_test otherwise tests)) span
      lower_tests subject otherwise tests

    unfoldable pub lower_arms : ℕ → List (HirSwitchCase × ℕ) → Lower (Unit {0})
    lower_arms continuation [] = give tt
    lower_arms continuation ((c, block) ∷ arms) = do
      enter block
      statement c.body
      close continuation
      lower_arms continuation arms

    unfoldable pub lower_switch : ℕ → List HirSwitchCase → Lower (Unit {0})
    lower_switch subject cases = do
      target ← temporary
      t ← expression subject
      move target t span
      continuation ← add_block
      arms ← add_arms cases
      tests ← add_tests (value_arms arms)
      otherwise ← need (otherwise_block continuation (default_arm none arms) tests)
      terminate (MirTerminatorNode.goto (first_test otherwise tests)) span
      lower_tests target otherwise tests
      push_break continuation
      lower_arms continuation arms
      pop_break
      enter continuation

    -- The `finally` branch, where there is one, and a jump behind the statement.
    unfoldable pub finish : Option ℕ → MirTerminatorNode → Lower (Unit {0})
    finish finally_branch node =
        unless_terminated do lower_optional finally_branch; unless_terminated (terminate node span)

    -- The handler that lowers the `finally` branch and throws on.
    unfoldable pub rethrow : List ℕ → Option ℕ → Lower (Unit {0})
    rethrow protected none = give tt
    rethrow protected (some finally_branch) = do
      rethrown ← temporary
      handler ← add_block
      add_region protected handler rethrown
      enter handler
      statement finally_branch
      unless_terminated (terminate (MirTerminatorNode.throw rethrown) span)

    unfoldable pub lower_catch : HirTryStatement → ℕ → ℕ → ℕ → ℕ → Lower (Unit {0})
    lower_catch node catch_branch handler error continuation = do
      local ← need node.catch_local
      bind_local local error
      push_cleanup node.finally_branch
      statement catch_branch
      pop_cleanup node.finally_branch
      protected ← blocks_from handler
      finish node.finally_branch (MirTerminatorNode.goto continuation)
      rethrow protected node.finally_branch

    -- The code of the handler.
    unfoldable pub lower_handler : HirTryStatement → Option ℕ → ℕ → ℕ → ℕ → Lower (Unit {0})
    lower_handler node none handler error continuation = do
      lower_optional node.finally_branch
      unless_terminated (terminate (MirTerminatorNode.throw error) span)
    lower_handler node (some catch_branch) handler error continuation =
        lower_catch node catch_branch handler error continuation

    unfoldable pub lower_try : HirTryStatement → Lower (Unit {0})
    lower_try node = do
      continuation ← add_block
      try_entry ← add_block
      terminate (MirTerminatorNode.goto try_entry) span
      enter try_entry
      push_cleanup node.finally_branch
      statement node.try_branch
      pop_cleanup node.finally_branch
      protected ← blocks_from try_entry
      finish node.finally_branch (MirTerminatorNode.goto continuation)
      error ← temporary
      handler ← add_block
      add_region protected handler error
      enter handler
      lower_handler node node.catch_branch handler error continuation
      enter continuation

    unfoldable pub lower_break : String → Lower (Unit {0})
    lower_break label = do
      s ← get
      target ← need (break_target label s)
      leave (MirTerminatorNode.goto target) span

    unfoldable pub lower_continue : String → Lower (Unit {0})
    lower_continue label = do
      s ← get
      l ← need (loop_target label s.loops)
      leave (MirTerminatorNode.goto l.continue_target) span

    -- The visit of the statement's node.
    unfoldable pub lower_statement_node : HirStatementNode → Lower (Unit {0})
    lower_statement_node (HirStatementNode.bind_local local initializer) =
        lower_bind_local local initializer
    lower_statement_node (HirStatementNode.evaluate e) = do expression e; give tt
    lower_statement_node (HirStatementNode.return e) = do
      t ← expression e
      leave (MirTerminatorNode.return t) span
    lower_statement_node (HirStatementNode.throw e) = do
      t ← expression e
      terminate (MirTerminatorNode.throw t) span
    lower_statement_node (HirStatementNode.block statements) = lower_each statements
    lower_statement_node (HirStatementNode.if_statement condition then_branch else_branch) =
        lower_if condition then_branch else_branch
    lower_statement_node (HirStatementNode.while_statement condition body label) =
        lower_while condition body label
    lower_statement_node (HirStatementNode.loop_statement node) = lower_loop node
    lower_statement_node (HirStatementNode.switch_statement subject cases) =
        lower_switch subject cases
    lower_statement_node (HirStatementNode.break_statement label) = lower_break label
    lower_statement_node (HirStatementNode.continue_statement label) = lower_continue label
    lower_statement_node (HirStatementNode.try_statement node) = lower_try node

unfoldable mutual
  -- `lowerExpression`.
  pub lower_expression : HirProgram → ℕ → ℕ → Lower ℕ
  lower_expression hir zero id = λ s. none
  lower_expression hir (suc n) id = do
    e ← need (get_elem? hir.expressions id)
    lower_node hir (lower_expression hir n) (lower_statement hir n) e.span e.node

  -- `lowerStatement`.
  pub lower_statement : HirProgram → ℕ → ℕ → Lower (Unit {0})
  lower_statement hir zero id = λ s. none
  lower_statement hir (suc n) id = unless_terminated do
    st ← need (get_elem? hir.statements id)
    lower_statement_node (lower_expression hir n) (lower_statement hir n) st.span st.node
