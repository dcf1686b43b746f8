-- ===== src/Lowering/Total/Nodes.antt =====
-- compiler/kyna_mir/src/lowering/expression_lowering.cpp: each expression that fits is lowered to valid code.
use kyna.Base.{
  true, false, ℕ, suc, ◌+◌, ◌<◌, ◌≡◌, refl, sym, ◌∙◌, ap, List, [], ◌∷◌, length, map, All, arith,
  Yields, bind-Yields,
}
use kyna.Base
use kyna.Diagnostics.{SourceSpan}
use kyna.Mir.Program.{MirInstructionKind, MirInstruction, MirProgram}
use kyna.Mir.Valid.{ValidKind}
use kyna.Hir.{HirUnaryOperator, HirBinaryOperator, HirObjectField, HirExpressionNode, HirProgram}
use kyna.Lowering.{Lowering, Lower}
use kyna.Lowering.Expressions.{
  unary_kind, instruction_for, lower_arithmetic, lower_binary, lower_node,
}
use kyna.Lowering.Fits.{Scope, ExprFits, StmtFits, bound_by, ExpressionFits}
use kyna.Lowering.States.{Frame, Open}
use kyna.Lowering.Total.{Signature, Ready, LowersExpressions, LowersStatements}
use kyna.Lowering.Total.Expressions
use kyna.Lowering.Total.Captures
use kyna.Lowering.Total.Control

length-map {ℓ κ} :
    {A : Type ℓ} {B : Type κ} (f : A → B) (xs : List A) → length (map f xs) ≡ length xs
length-map f [] = refl
length-map f (x ∷ xs) = ap suc (length-map f xs)

module _ (hir : HirProgram) (captures : List ℕ) (p : MirProgram) (sig : Signature hir p)
    (n budget : ℕ) (expression : ℕ → Lower ℕ) (statement : ℕ → Lower (Unit {0}))
    (he : LowersExpressions hir captures p expression n budget)
    (hs : LowersStatements hir captures p statement n budget) (span : SourceSpan) {sc : Scope}
    {g : Frame} (ready : Ready hir captures budget sc g) where
  unary_reads :
      (op : HirUnaryOperator) (t : ℕ) (i : MirInstruction)
      → i.first < t
      → ValidKind p t (length captures) i (unary_kind op)
  unfolding unary_kind
  unary_reads HirUnaryOperator.negate t i h = h
  unary_reads HirUnaryOperator.not t i h = h

  module _ {ts cs : List ℕ} {P : ℕ → Type 0} {s : Lowering} (v : Open p captures ts cs g P s) where
    abbrev Lowered : Lower ℕ → Type 0
    Lowered m = Yields (λ r. Open p captures (r.0 ∷ ts) cs g P r.1) (m s)

    arithmetic :
        (kind : MirInstructionKind) (left right : ℕ)
        → ((t : ℕ) (i : MirInstruction)
            → i.first < t
            → i.second < t
            → ValidKind p t (length captures) i kind)
        → ExprFits hir captures n sc left
        → ExprFits hir captures n sc right
        → Lowered (λ s.
          Base.◌>>=◌
            (expression left s)
            λ r. lower_arithmetic hir expression statement span kind r.0 right r.1)
    arithmetic kind left right k f h = bind-Yields (he.expression_lowers left f ready v) λ x v.
        Expressions.lower_arithmetic-Open hir captures p sig n budget expression statement he span
          ready kind x.0 right k h v

    binary :
        (left : ℕ) (op : HirBinaryOperator) (right : ℕ)
        → ExprFits hir captures n sc left
        → ExprFits hir captures n sc right
        → Lowered (lower_binary hir expression statement span left op right)
    unfolding lower_binary instruction_for
    binary left HirBinaryOperator.and right f h =
        bind-Yields (he.expression_lowers left f ready v) λ x v.
          Control.lower_logical-Open hir captures p n budget expression statement he hs span true
            x.0 right h ready v
    binary left HirBinaryOperator.or right f h =
        bind-Yields (he.expression_lowers left f ready v) λ x v.
          Control.lower_logical-Open hir captures p n budget expression statement he hs span false
            x.0 right h ready v
    binary left HirBinaryOperator.add right f h = arithmetic _ left right (λ t i a b. (a, b)) f h
    binary left HirBinaryOperator.subtract right f h =
        arithmetic _ left right (λ t i a b. (a, b)) f h
    binary left HirBinaryOperator.multiply right f h =
        arithmetic _ left right (λ t i a b. (a, b)) f h
    binary left HirBinaryOperator.divide right f h = arithmetic _ left right (λ t i a b. (a, b)) f h
    binary left HirBinaryOperator.remainder right f h =
        arithmetic _ left right (λ t i a b. (a, b)) f h
    binary left HirBinaryOperator.equal right f h = arithmetic _ left right (λ t i a b. (a, b)) f h
    binary left HirBinaryOperator.not_equal right f h =
        arithmetic _ left right (λ t i a b. (a, b)) f h
    binary left HirBinaryOperator.less right f h = arithmetic _ left right (λ t i a b. (a, b)) f h
    binary left HirBinaryOperator.less_equal right f h =
        arithmetic _ left right (λ t i a b. (a, b)) f h
    binary left HirBinaryOperator.greater right f h =
        arithmetic _ left right (λ t i a b. (a, b)) f h
    binary left HirBinaryOperator.greater_equal right f h =
        arithmetic _ left right (λ t i a b. (a, b)) f h

    pub node :
        (e : HirExpressionNode)
        → ExpressionFits hir captures
            (ExprFits hir captures n)
            (StmtFits hir captures n)
            (bound_by hir captures n)
            sc
            e
        → Lowered (lower_node hir expression statement span e)
    unfolding lower_node
    node (HirExpressionNode.constant value) f =
        Expressions.fresh-Open hir captures p sig n budget expression statement he span ready _
          (λ t target h l. (h, tt)) v
    node (HirExpressionNode.local local) f =
        Captures.lower_local-Open hir captures p sig n budget expression statement he span ready
          local f v
    node (HirExpressionNode.function_reference k) f =
        Expressions.fresh-Open hir captures p sig n budget expression statement he span ready _
          (λ t target h l. (h, (λ z. omega arith, omega (arith, f, sig.functions)))) v
    node (HirExpressionNode.closure k) f =
        Captures.lower_closure-Open hir captures p sig n budget expression statement he span ready k
          f v
    node (HirExpressionNode.unary op e) f =
        Expressions.lower_unary-Open hir captures p sig n budget expression statement he span ready
          (unary_kind op) e (unary_reads op) f v
    node (HirExpressionNode.await e) f =
        Expressions.lower_unary-Open hir captures p sig n budget expression statement he span ready
          MirInstructionKind.move e (λ t i h. h) f v
    node (HirExpressionNode.binary left op right) f = binary left op right f.0 f.1
    node (HirExpressionNode.assign_local local value) f =
        Captures.lower_assign_local-Open hir captures p sig n budget expression statement he span
          ready local value f.0 f.1 v
    node (HirExpressionNode.assign_index object index value) f =
        Expressions.lower_list-Open hir captures p sig n budget expression statement he span ready
          (object ∷ index ∷ value ∷ []) _ f (λ t target xs h l k. (h, (k, l))) v
    node (HirExpressionNode.assign_member object member value) f =
        Expressions.lower_list-Open hir captures p sig n budget expression statement he span ready
          (object ∷ value ∷ []) _ f (λ t target xs h l k. (h, ((k, l), (member, refl)))) v
    node (HirExpressionNode.call k es) f =
        Expressions.lower_call-Open hir captures p sig n budget expression statement he span ready k
          es f.0 f.1 v
    node (HirExpressionNode.indirect_call callee es) f =
        Expressions.lower_indirect_call-Open hir captures p sig n budget expression statement he
          span ready callee es f.0 f.1 v
    node (HirExpressionNode.new k es) f =
        Expressions.lower_list-Open hir captures p sig n budget expression statement he span ready
          es _ f.1 (λ t target xs h l e. (h, (l, omega (arith, f.0, sig.classes)))) v
    node (HirExpressionNode.native_call name es) f =
        Expressions.lower_list-Open hir captures p sig n budget expression statement he span ready
          es _ f (λ t target xs h l k. (h, ((name, refl), l))) v
    node (HirExpressionNode.member object name) f =
        Expressions.lower_access-Open hir captures p sig n budget expression statement he span ready
          object _ f (λ t target x h l. (h, (l, (name, refl)))) v
    node (HirExpressionNode.bound_method receiver k) f =
        Expressions.lower_access-Open hir captures p sig n budget expression statement he span ready
          receiver _ f.0
          (λ t target x h l. (h, (l, (λ z. omega arith, omega (arith, f.1, sig.functions))))) v
    node (HirExpressionNode.index object index) f =
        Expressions.lower_index-Open hir captures p sig n budget expression statement he span ready
          object index f.0 f.1 v
    node (HirExpressionNode.array es) f =
        Expressions.lower_list-Open hir captures p sig n budget expression statement he span ready
          es _ f (λ t target xs h l k. (h, l)) v
    node (HirExpressionNode.object fields) f =
        Expressions.lower_list-Open hir captures p sig n budget expression statement he span ready
          (map (λ field. field.value) fields) _ f
          (λ t target xs h l k. (
            h,
            (
              l,
              length-map (λ (x : HirObjectField). x.name) fields
                  ∙ sym (length-map (λ (x : HirObjectField). x.value) fields)
                  ∙ sym k,
            ),
          ))
          v
    node (HirExpressionNode.if_expression e) f =
        Control.lower_if_expression-Open hir captures p n budget expression statement he hs span e
          f.0 f.1.0.0 f.1.0.1 f.1.1.0 f.1.1.1 ready v
    node (HirExpressionNode.match_expression subject arms) f =
        Control.lower_match_expression-Open hir captures p n budget expression statement he hs span
          subject arms f.0 f.1 ready v
