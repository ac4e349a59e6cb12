-- ===== src/Compiler/Effects/Parts.antt =====
-- The parts of the expressions of crates/syllog-compiler/src/hir.rs, and what an expression does by
-- itself in crates/syllog-compiler/src/effects.rs.
pub mod Inspect
use syllog.Prelude.{
  Bool, true, false, ◌||◌, List, Option, ◌≡◌, ◌↔◌, ◌⊎◌, inl, inr, refl, subst, sym, ◌∙◌, arith,
}
use syllog.Prelude.TreeMap.{member, member-add}
use syllog.Ir.Syntax.{DefId}
use syllog.Ir.Capability.{Effect}
use syllog.Compiler.Types.{Literal}
use syllog.Compiler.Hir.{
  TypedExpr, expr, HirExprKind, TypedExprs, no_exprs, and_expr, HirMatchArms, no_arms, arm, guarded,
  HirStatement, HirStatements, no_statements, and_statement, HirBlock, block_of,
}
use syllog.Compiler.Effects.{
  has, only, union, LocalEffects, add_direct, add_call, note_callee, note_literal, inspect_expr,
  inspect_all, inspect_arms, inspect_statement, inspect_statements, inspect_block, DefId-Key,
}
use syllog.Compiler.Effects.Growth.{has-union}

-- A condition on expressions holds of some part: of the expression itself, or of one that stands
-- anywhere in it, in a guard, an arm, a nested block or an argument.
module _ (P : HirExprKind → Type 0) where
  unfoldable mutual
    pub InExpr : TypedExpr → Type 0
    InExpr (expr kind ty span) = P kind ⊎ BelowKind kind

    pub BelowKind : HirExprKind → Type 0
    BelowKind (HirExprKind.borrow mutable operand) = InExpr operand
    BelowKind (HirExprKind.await operand) = InExpr operand
    BelowKind (HirExprKind.literal value) = ⊥
    BelowKind (HirExprKind.reference definition) = ⊥
    BelowKind (HirExprKind.array items) = InAll items
    BelowKind (HirExprKind.call callee arguments) = InExpr callee ⊎ InAll arguments
    BelowKind (HirExprKind.field base name) = InExpr base
    BelowKind (HirExprKind.unary operator operand) = InExpr operand
    BelowKind (HirExprKind.binary operator left right) = InExpr left ⊎ InExpr right
    BelowKind (HirExprKind.matching value arms) = InExpr value ⊎ InArms arms
    BelowKind (HirExprKind.block nested) = InBlock nested

    pub InAll : TypedExprs → Type 0
    InAll no_exprs = ⊥
    InAll (and_expr e rest) = InExpr e ⊎ InAll rest

    pub InArms : HirMatchArms → Type 0
    InArms no_arms = ⊥
    InArms (arm pattern body span rest) = InExpr body ⊎ InArms rest
    InArms (guarded pattern guard body span rest) = InExpr guard ⊎ (InExpr body ⊎ InArms rest)

    pub InStatement : HirStatement → Type 0
    InStatement (HirStatement.let_bind definition name ty value) = InExpr value
    InStatement HirStatement.return_unit = ⊥
    InStatement (HirStatement.return_value value) = InExpr value
    InStatement (HirStatement.expression value) = InExpr value

    pub InStatements : HirStatements → Type 0
    InStatements no_statements = ⊥
    InStatements (and_statement statement rest) = InStatement statement ⊎ InStatements rest

    pub InBlock : HirBlock → Type 0
    InBlock (block_of statements span) = InStatements statements

-- An expression has an effect by itself: `await` is asynchronous, a string or an array allocates.
abbrev pub UsesAt : Effect → HirExprKind → Type 0
UsesAt e (HirExprKind.await operand) = Effect.async ≡ e
UsesAt e (HirExprKind.literal (Literal.string text)) = Effect.alloc ≡ e
UsesAt e (HirExprKind.array items) = Effect.alloc ≡ e
UsesAt e _ = ⊥

-- An expression is the call of a definition by its name.
abbrev pub CallsAt : DefId → HirExprKind → Type 0
CallsAt id (HirExprKind.call (expr (HirExprKind.reference definition) ty span) arguments) =
    definition ≡ id
CallsAt id _ = ⊥
