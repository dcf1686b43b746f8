-- ===== src/Lowering/Total/Depth.antt =====
-- compiler/kyna_mir/src/lowering: a depth of calls that is enough for the height of an expression or a statement
-- and of the cleanups around it is enough to lower it.
use kyna.Base.{
  Option, none, ℕ, zero, suc, ◌+◌, ◌≤◌, ◌≡◌, refl, sym, ◌∙◌, ap, subst, inr, true, List, [], some,
  arith, Yields, yields, bind-Yields, Yields-map, Yields-value, get_elem?,
}
use kyna.Diagnostics.{SourceSpan}
use kyna.Mir.Program.{MirTerminatorNode, MirProgram}
use kyna.Hir.{HirStatementNode, HirStatement, HirProgram}
use kyna.Lowering.{unless_terminated, Lowering, Lower, terminated}
use kyna.Lowering.Statements.{lower_statement_node, lower_expression, lower_statement}
use kyna.Lowering.Fits.{Scope, ExprFits, StmtFits, StatementFits, bound_by, node_binds, enough}
use kyna.Lowering.States.{Frame, Inv, Open}
use kyna.Lowering.States.Steps.{Inv-weaken}
use kyna.Lowering.States.Blocks.{terminate-Open, unless-Open}
use kyna.Lowering.Total.{Signature, Ready, Done, LowersExpressions, LowersStatements}
use kyna.Lowering.Total.Frames.{unless-ended}
use kyna.Lowering.Total.Expressions.{need-bind}
use kyna.Lowering.Total.Nodes
use kyna.Lowering.Total.Leaving
use kyna.Lowering.Total.Statements
use kyna.Lowering.Total.Switches
use kyna.Lowering.Total.Tries

module _ (hir : HirProgram) (captures : List ℕ) (p : MirProgram) (n budget : ℕ)
    (expression : ℕ → Lower ℕ) (statement : ℕ → Lower (Unit {0}))
    (he : LowersExpressions hir captures p expression n budget)
    (hs : LowersStatements hir captures p statement n budget)
    (hf : LowersStatements hir captures p statement n (enough n + budget))
    (hc : (h r : ℕ) → enough h + r ≤ budget → LowersStatements hir captures p statement h r)
    (span : SourceSpan) {ts cs : List ℕ} {g : Frame} {P : ℕ → Type 0} {sc : Scope} {s : Lowering}
    (r : Ready hir captures budget sc g) (v : Open p captures ts cs g P s) where
  abbrev Lowered : List ℕ → Lower (Unit {0}) → Type 0
  Lowered binds m = Yields (λ r. Done hir captures p ts cs g P binds r.1) (m s)

  opened :
      {o : Option (Unit {0} × Lowering)}
      → Yields (λ r. Open p captures ts cs g P r.1) o
      → Yields (λ r. Done hir captures p ts cs g P [] r.1) o
  opened y = Yields-map (λ r w. Done.bound w) y

  closed :
      {o : Option (Unit {0} × Lowering)}
      → Yields (λ r. Inv p captures ts cs g P r.1) o
      → Yields (λ r. Done hir captures p ts cs g P [] r.1) o
  closed y =
      Yields-map (λ r w. Done.bound (Inv-weaken w w.in_temporaries w.in_blocks λ k m. inr m)) y

  statement_node :
      (node : HirStatementNode)
      → StatementFits hir captures
          (ExprFits hir captures n)
          (StmtFits hir captures n)
          (bound_by hir captures n)
          sc
          node
      → Lowered
          (node_binds hir captures (bound_by hir captures n) node)
          (lower_statement_node expression statement span node)
  unfolding lower_statement_node
  statement_node (HirStatementNode.bind_local local e) f =
      Statements.lower_bind_local-Done hir captures p n budget expression statement he hs span local
        e f r v
  statement_node (HirStatementNode.evaluate e) f =
      bind-Yields (he.expression_lowers e f r v)
        λ t v. yields (Done.bound (Inv-weaken v v.in_temporaries.1 v.in_blocks λ k m. m))
  statement_node (HirStatementNode.return e) f = bind-Yields (he.expression_lowers e f r v) λ t v.
      Yields-map (λ r w. Done.bound (Inv-weaken w w.in_temporaries.1 w.in_blocks λ k m. inr m))
        (Leaving.leave-Inv hir captures p n budget expression statement hc
          (MirTerminatorNode.return t.0) span (λ t b h k. h.0) r v)
  statement_node (HirStatementNode.throw e) f = bind-Yields (he.expression_lowers e f r v) λ t v.
      Yields-map (λ r w. Done.bound (Inv-weaken w w.in_temporaries.1 w.in_blocks λ k m. inr m))
        (terminate-Open (MirTerminatorNode.throw t.0) span v v.in_temporaries.0)
  statement_node (HirStatementNode.block statements) f =
      Statements.lower_each-Done hir captures p n budget expression statement he hs statements g sc
        f r v
  statement_node (HirStatementNode.if_statement c a b) f = opened (
      Statements.lower_if-Open hir captures p n budget expression statement he hs span c a b f.0
        f.1.0 f.1.1 r v)
  statement_node (HirStatementNode.while_statement c b label) f = opened (
      Statements.lower_while-Open hir captures p n budget expression statement he hs span c b label
        f.0 f.1 r v)
  statement_node (HirStatementNode.loop_statement node) f = opened (
      Statements.lower_loop-Open hir captures p n budget expression statement he hs span node f.0
        f.1 r v)
  statement_node (HirStatementNode.switch_statement subject cases) f = opened (
      Switches.lower_switch-Open hir captures p n budget expression statement he hs span sc subject
        cases f.0 f.1.0 f.1.1 r v)
  statement_node (HirStatementNode.break_statement label) f = closed (
      Leaving.lower_break-Inv hir captures p n budget expression statement hc label span f.0 f.1 r
        v)
  statement_node (HirStatementNode.continue_statement label) f =
      closed (
        Leaving.lower_continue-Inv hir captures p n budget expression statement hc label span f r v)
  statement_node (HirStatementNode.try_statement node) f = opened (
      Tries.lower_try-Open hir captures p n budget expression statement he hs hf span sc node f.1.0
        f.0 f.1.1 r v)

module _ (hir : HirProgram) (captures : List ℕ) (p : MirProgram) (sig : Signature hir p) where
  bound_of :
      (n id : ℕ) (st : HirStatement)
      → get_elem? hir.statements id ≡ some st
      → node_binds hir captures (bound_by hir captures n) st.node ≡ bound_by hir captures (suc n) id
  unfolding bound_by
  bound_of n id st found = sym (
      ap
        (λ o. elim o as (λ _. List ℕ) [
          | none ↦ []
          | some x ↦ node_binds hir captures (bound_by hir captures n) x.node
        ])
        found)

  Done-eq :
      {ts cs : List ℕ} {g : Frame} {P : ℕ → Type 0} {s : Lowering} {a b : List ℕ}
      → a ≡ b
      → Done hir captures p ts cs g P a s
      → Done hir captures p ts cs g P b s
  Done-eq {ts} {cs} {g} {P} {s} e d = subst (λ l. Done hir captures p ts cs g P l s) e d

  skipped :
      {s : Lowering} (m : Lower (Unit {0}))
      → terminated s ≡ some (true, s)
      → unless_terminated m s ≡ some (tt, s)
  skipped {s} m e =
      let (a, same, is) = Yields-value (unless-ended {R = λ r. r ≡ (tt, s)} m e refl) in
      same ∙ ap some is

  -- What is to be shown of a depth of calls.
  pub record Deep (depth : ℕ) : Type 1 where
    pub expressions :
        (n budget : ℕ)
        → enough n + budget ≤ depth
        → LowersExpressions hir captures p (lower_expression hir depth) n budget
    pub statements :
        (n budget : ℕ)
        → enough n + budget ≤ depth
        → LowersStatements hir captures p (lower_statement hir depth) n budget

  expressions_at :
      (depth n budget : ℕ)
      → enough n + budget ≤ suc depth
      → Deep depth
      → LowersExpressions hir captures p (lower_expression hir (suc depth)) n budget
  unfolding ExprFits lower_expression enough
  expressions_at depth zero budget h d = record { expression_lowers = λ id f r v. absurd f }
  expressions_at depth (suc n) budget h d = record {
    expression_lowers = λ id f r v.
        let (e, found, fits) = f in
        need-bind _ found (
          Nodes.node hir captures p sig n budget (lower_expression hir depth)
            (lower_statement hir depth) (d.expressions n budget (omega arith))
            (d.statements n budget (omega arith)) e.span r v e.node fits);
  }

  statements_at :
      (depth n budget : ℕ)
      → enough n + budget ≤ suc depth
      → Deep depth
      → LowersStatements hir captures p (lower_statement hir (suc depth)) n budget
  unfolding StmtFits lower_statement enough
  statements_at depth zero budget h d = record {
    statement_lowers = λ id f r v. absurd f;
    statement_skips = λ sc id f e. absurd f;
  }
  statements_at depth (suc n) budget h d = record {
    statement_lowers = λ id f r v.
        let (st, found, fits) = f in
        unless-Open _ v
          (need-bind _ found (
            Yields-map (λ x w. Done-eq (bound_of n id st found) w)
              (statement_node hir captures p n budget (lower_expression hir depth)
                (lower_statement hir depth) (d.expressions n budget (omega arith))
                (d.statements n budget (omega arith))
                (d.statements n (enough n + budget) (omega arith))
                (λ a b i. d.statements a b (omega arith)) st.span r v st.node fits)))
          λ e w. Done.ended e w;
    statement_skips = λ sc id f e. skipped _ e;
  }

  -- No depth at all is enough for nothing that fits.
  expressions_at_zero :
      (n budget : ℕ)
      → enough n + budget ≤ 0
      → LowersExpressions hir captures p (lower_expression hir 0) n budget
  unfolding enough ExprFits
  expressions_at_zero zero budget h = record { expression_lowers = λ id f r v. absurd f }
  expressions_at_zero (suc n) budget h = absurd (omega arith)

  statements_at_zero :
      (n budget : ℕ)
      → enough n + budget ≤ 0
      → LowersStatements hir captures p (lower_statement hir 0) n budget
  unfolding enough StmtFits
  statements_at_zero zero budget h = record {
    statement_lowers = λ id f r v. absurd f;
    statement_skips = λ sc id f e. absurd f;
  }
  statements_at_zero (suc n) budget h = absurd (omega arith)

  pub deep : (depth : ℕ) → Deep depth
  deep zero = record { expressions = expressions_at_zero; statements = statements_at_zero }
  deep (suc depth) = record {
    expressions = λ n budget h. expressions_at depth n budget h (deep depth);
    statements = λ n budget h. statements_at depth n budget h (deep depth);
  }
