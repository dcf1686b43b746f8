-- ===== src/Lowering/Fits.antt =====
-- compiler/kyna_mir/src/lowering: when an expression or a statement of the high-level representation can be
-- lowered. The conditions are on the program alone: they do not mention the lowering.
use kyna.Base.{
  ℕ, zero, suc, ◌+◌, ◌<◌, ◌≡◌, ◌≢◌, ◌⊎◌, Bool, true, false, List, [], ◌∷◌, ◌++◌, Option, none, some,
  map, length, get_elem?, All, str_eq,
}
use kyna.Bytecode.Valid.{Entry, EachOf}
use kyna.Hir.{
  HirMatchArm, HirExpressionNode, HirLoopStatement, HirSwitchCase, HirStatementNode, HirProgram,
}

-- The locals that are known, and whether a loop, and a loop or a `switch`, is around.
pub record Scope : Type 0 where
  pub known : List ℕ
  pub looped : Bool
  pub breakable : Bool

abbrev pub knowing : List ℕ → Scope → Scope
knowing locals sc = record sc { known = locals ++ sc.known }

abbrev pub in_loop : Scope → Scope
in_loop sc = record sc { looped = true; breakable = true }

abbrev pub in_switch : Scope → Scope
in_switch sc = record sc { breakable = true }

abbrev pub IsIn : ℕ → List ℕ → Type 0
IsIn k [] = ⊥
IsIn k (x ∷ xs) = (x ≡ k) ⊎ IsIn k xs

module _ (hir : HirProgram) (captures : List ℕ) where
  -- Conditions on a node, for conditions on the expressions and the statements in it, and the locals that a
  -- statement binds for what follows.
  module _ (E S : Scope → ℕ → Type 0) (binds : ℕ → List ℕ) where
    -- A local that is known or captured.
    abbrev pub Resolved : Scope → ℕ → Type 0
    Resolved sc local = IsIn local sc.known ⊎ IsIn local captures

    abbrev pub ArmFits : Scope → HirMatchArm → Type 0
    ArmFits sc arm = EachOf arm.pattern_value (E sc) × E sc arm.value

    abbrev pub BranchFits : Scope → ℕ → ℕ → Type 0
    BranchFits sc prelude value = S sc prelude × E (knowing (binds prelude) sc) value

    abbrev pub ExpressionFits : Scope → HirExpressionNode → Type 0
    ExpressionFits sc (HirExpressionNode.constant value) = Unit
    ExpressionFits sc (HirExpressionNode.local local) = Resolved sc local
    ExpressionFits sc (HirExpressionNode.function_reference f) = f < length hir.functions
    ExpressionFits sc (HirExpressionNode.closure f) =
        Entry hir.functions f λ g. All (Resolved sc) g.captures
    ExpressionFits sc (HirExpressionNode.unary operation e) = E sc e
    ExpressionFits sc (HirExpressionNode.await e) = E sc e
    ExpressionFits sc (HirExpressionNode.binary left operation right) = E sc left × E sc right
    ExpressionFits sc (HirExpressionNode.assign_local local value) = E sc value × Resolved sc local
    ExpressionFits sc (HirExpressionNode.assign_index object index value) =
        All (E sc) (object ∷ index ∷ value ∷ [])
    ExpressionFits sc (HirExpressionNode.assign_member object member value) =
        All (E sc) (object ∷ value ∷ [])
    ExpressionFits sc (HirExpressionNode.call f es) =
        (Entry hir.functions f λ g. length es ≡ length g.parameters) × All (E sc) es
    ExpressionFits sc (HirExpressionNode.indirect_call callee es) = E sc callee × All (E sc) es
    ExpressionFits sc (HirExpressionNode.new k es) = (k < length hir.classes) × All (E sc) es
    ExpressionFits sc (HirExpressionNode.native_call name es) = All (E sc) es
    ExpressionFits sc (HirExpressionNode.member object name) = E sc object
    ExpressionFits sc (HirExpressionNode.bound_method receiver f) =
        E sc receiver × (f < length hir.functions)
    ExpressionFits sc (HirExpressionNode.index object index) = E sc object × E sc index
    ExpressionFits sc (HirExpressionNode.array es) = All (E sc) es
    ExpressionFits sc (HirExpressionNode.object fields) =
        All (E sc) (map (λ field. field.value) fields)
    ExpressionFits sc (HirExpressionNode.if_expression node) =
        E sc node.condition
        × (BranchFits sc node.then_prelude node.then_value
            × BranchFits sc node.else_prelude node.else_value)
    ExpressionFits sc (HirExpressionNode.match_expression subject arms) =
        E sc subject × All (ArmFits sc) arms

    -- Each statement knows what those before it have bound.
    abbrev pub StatementsFit : Scope → List ℕ → Type 0
    StatementsFit sc [] = Unit
    StatementsFit sc (s ∷ statements) = S sc s × StatementsFit (knowing (binds s) sc) statements

    abbrev pub optional_binds : Option ℕ → List ℕ
    optional_binds none = []
    optional_binds (some s) = binds s

    abbrev pub LoopBodyFits : Scope → HirLoopStatement → Type 0
    LoopBodyFits sc node =
        E sc node.condition × (EachOf node.increment (E sc) × S (in_loop sc) node.body)

    abbrev pub CaseFits : Scope → HirSwitchCase → Type 0
    CaseFits sc c = EachOf c.value (E sc) × S (in_switch sc) c.body

    abbrev pub CatchFits : Scope → Option ℕ → ℕ → Type 0
    CatchFits sc local catch_branch =
        (l : ℕ) × (local ≡ some l) × S (knowing (l ∷ []) sc) catch_branch

    abbrev pub StatementFits : Scope → HirStatementNode → Type 0
    StatementFits sc (HirStatementNode.bind_local local e) = E sc e
    StatementFits sc (HirStatementNode.evaluate e) = E sc e
    StatementFits sc (HirStatementNode.return e) = E sc e
    StatementFits sc (HirStatementNode.throw e) = E sc e
    StatementFits sc (HirStatementNode.block statements) = StatementsFit sc statements
    StatementFits sc (HirStatementNode.if_statement condition then_branch else_branch) =
        E sc condition × (S sc then_branch × EachOf else_branch (S sc))
    StatementFits sc (HirStatementNode.while_statement condition body label) =
        E sc condition × S (in_loop sc) body
    StatementFits sc (HirStatementNode.loop_statement node) =
        EachOf node.initializer (S sc)
        × LoopBodyFits (knowing (optional_binds node.initializer) sc) node
    StatementFits sc (HirStatementNode.switch_statement subject cases) =
        E sc subject × (All (CaseFits sc) cases × (cases ≢ []))
    StatementFits sc (HirStatementNode.break_statement label) =
        (str_eq label "" ≡ true → sc.breakable ≡ true)
        × (str_eq label "" ≡ false → sc.looped ≡ true)
    StatementFits sc (HirStatementNode.continue_statement label) = sc.looped ≡ true
    StatementFits sc (HirStatementNode.try_statement node) =
        S sc node.try_branch
        × (EachOf node.finally_branch (S sc)
            × EachOf node.catch_branch (CatchFits sc node.catch_local))

  abbrev pub concat_binds : (ℕ → List ℕ) → List ℕ → List ℕ
  concat_binds binds [] = []
  concat_binds binds (s ∷ statements) = concat_binds binds statements ++ binds s

  -- The locals that a statement binds for what follows, in statements of at most such a height.
  abbrev pub node_binds : (ℕ → List ℕ) → HirStatementNode → List ℕ
  node_binds binds (HirStatementNode.bind_local local e) = local ∷ []
  node_binds binds (HirStatementNode.block statements) = concat_binds binds statements
  node_binds binds _ = []

  unfoldable pub bound_by : ℕ → ℕ → List ℕ
  bound_by zero id = []
  bound_by (suc n) id = elim (get_elem? hir.statements id) [
    | none ↦ []
    | some st ↦ node_binds (bound_by n) st.node
  ]

  -- Expressions and statements of at most such a height that can be lowered in a scope.
  unfoldable mutual
    pub ExprFits : ℕ → Scope → ℕ → Type 0
    ExprFits zero sc id = ⊥
    ExprFits (suc n) sc id =
        Entry hir.expressions id
          λ e. ExpressionFits (ExprFits n) (StmtFits n) (bound_by n) sc e.node

    pub StmtFits : ℕ → Scope → ℕ → Type 0
    StmtFits zero sc id = ⊥
    StmtFits (suc n) sc id =
        Entry hir.statements id
          λ st. StatementFits (ExprFits n) (StmtFits n) (bound_by n) sc st.node

-- A depth of calls that is enough for a statement of such a height.
unfoldable pub enough : ℕ → ℕ
enough zero = 0
enough (suc n) = suc (enough n + enough n)
