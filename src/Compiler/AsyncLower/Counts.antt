-- ===== src/Compiler/AsyncLower/Counts.antt =====
-- The suspension points of the HIR of crates/syllog-compiler/src/hir.rs, and the count that
-- crates/syllog-compiler/src/async_lower.rs makes of them.
use syllog.Prelude.{ℕ, ◌+◌, ◌≤◌, ◌≡◌, refl, ap, ◌∙◌, arith, min, u32_max}
use syllog.Compiler.Hir.{
  TypedExpr, expr, HirExprKind, TypedExprs, no_exprs, and_expr, HirMatchArms, no_arms, arm, guarded,
  HirStatement, HirStatements, no_statements, and_statement, HirBlock, block_of, walk, walk_all,
  walk_arms, walk_statement, walk_statements,
}
use syllog.Compiler.AsyncLower.{
  is_await, count_await, count_expression_awaits, count_statement_awaits, count_awaits,
}

-- The number of `await`s in an expression, in the order of its parts.
unfoldable mutual
  pub awaits : TypedExpr → ℕ
  awaits (expr kind ty span) = awaits_kind kind

  pub awaits_kind : HirExprKind → ℕ
  awaits_kind (HirExprKind.borrow mutable operand) = awaits operand
  awaits_kind (HirExprKind.await operand) = 1 + awaits operand
  awaits_kind (HirExprKind.literal value) = 0
  awaits_kind (HirExprKind.reference definition) = 0
  awaits_kind (HirExprKind.array items) = awaits_all items
  awaits_kind (HirExprKind.call callee arguments) = awaits callee + awaits_all arguments
  awaits_kind (HirExprKind.field base name) = awaits base
  awaits_kind (HirExprKind.unary operator operand) = awaits operand
  awaits_kind (HirExprKind.binary operator left right) = awaits left + awaits right
  awaits_kind (HirExprKind.matching value arms) = awaits value + awaits_arms arms
  awaits_kind (HirExprKind.block nested) = awaits_block nested

  pub awaits_all : TypedExprs → ℕ
  awaits_all no_exprs = 0
  awaits_all (and_expr e rest) = awaits e + awaits_all rest

  pub awaits_arms : HirMatchArms → ℕ
  awaits_arms no_arms = 0
  awaits_arms (arm pattern body span rest) = awaits body + awaits_arms rest
  awaits_arms (guarded pattern guard body span rest) =
      awaits guard + (awaits body + awaits_arms rest)

  pub awaits_statement : HirStatement → ℕ
  awaits_statement (HirStatement.let_bind definition name ty value) = awaits value
  awaits_statement HirStatement.return_unit = 0
  awaits_statement (HirStatement.return_value value) = awaits value
  awaits_statement (HirStatement.expression value) = awaits value

  pub awaits_statements : HirStatements → ℕ
  awaits_statements no_statements = 0
  awaits_statements (and_statement statement rest) =
      awaits_statement statement + awaits_statements rest

  pub awaits_block : HirBlock → ℕ
  awaits_block (block_of statements span) = awaits_statements statements

-- A sum that stops at the greatest u32.
abbrev saturated : ℕ → ℕ → ℕ
saturated n a = min (n + a) u32_max

saturated_twice : (n a b : ℕ) → saturated (saturated n a) b ≡ saturated n (a + b)
saturated_twice n a b = omega arith

saturated_le : (n a : ℕ) → saturated n a ≤ u32_max
saturated_le n a = omega arith

saturated_zero : (n : ℕ) → n ≤ u32_max → n ≡ saturated n 0
saturated_zero n h = omega arith

-- Two walks, one after the other.
in_turn :
    (first second : ℕ → ℕ) (a b n : ℕ)
    → first n ≡ saturated n a
    → second (saturated n a) ≡ saturated (saturated n a) b
    → second (first n) ≡ saturated n (a + b)
in_turn first second a b n p q = ap second p ∙ q ∙ saturated_twice n a b

mutual
  unfolding walk count_await is_await awaits

  walk_lem : (e : TypedExpr) (n : ℕ) → n ≤ u32_max → walk count_await e n ≡ saturated n (awaits e)
  walk_lem (expr (HirExprKind.borrow mutable operand) ty span) n h = walk_lem operand n h
  walk_lem (expr (HirExprKind.await operand) ty span) n h =
      in_turn (λ m. saturated m 1) (walk count_await operand) 1 (awaits operand) n refl
        (walk_lem operand (saturated n 1) (saturated_le n 1))
  walk_lem (expr (HirExprKind.literal value) ty span) n h = saturated_zero n h
  walk_lem (expr (HirExprKind.reference definition) ty span) n h = saturated_zero n h
  walk_lem (expr (HirExprKind.array items) ty span) n h = walk_all_lem items n h
  walk_lem (expr (HirExprKind.call callee arguments) ty span) n h =
      in_turn (walk count_await callee) (walk_all count_await arguments) (awaits callee)
        (awaits_all arguments) n (walk_lem callee n h)
        (walk_all_lem arguments (saturated n (awaits callee)) (saturated_le n (awaits callee)))
  walk_lem (expr (HirExprKind.field base name) ty span) n h = walk_lem base n h
  walk_lem (expr (HirExprKind.unary operator operand) ty span) n h = walk_lem operand n h
  walk_lem (expr (HirExprKind.binary operator left right) ty span) n h =
      in_turn (walk count_await left) (walk count_await right) (awaits left) (awaits right) n
        (walk_lem left n h)
        (walk_lem right (saturated n (awaits left)) (saturated_le n (awaits left)))
  walk_lem (expr (HirExprKind.matching value arms) ty span) n h =
      in_turn (walk count_await value) (walk_arms count_await arms) (awaits value)
        (awaits_arms arms) n (walk_lem value n h)
        (walk_arms_lem arms (saturated n (awaits value)) (saturated_le n (awaits value)))
  walk_lem (expr (HirExprKind.block (block_of statements span')) ty span) n h =
      walk_statements_lem statements n h

  walk_all_lem :
      (es : TypedExprs) (n : ℕ)
      → n ≤ u32_max
      → walk_all count_await es n ≡ saturated n (awaits_all es)
  walk_all_lem no_exprs n h = saturated_zero n h
  walk_all_lem (and_expr e rest) n h =
      in_turn (walk count_await e) (walk_all count_await rest) (awaits e) (awaits_all rest) n
        (walk_lem e n h) (walk_all_lem rest (saturated n (awaits e)) (saturated_le n (awaits e)))

  walk_arms_lem :
      (arms : HirMatchArms) (n : ℕ)
      → n ≤ u32_max
      → walk_arms count_await arms n ≡ saturated n (awaits_arms arms)
  walk_arms_lem no_arms n h = saturated_zero n h
  walk_arms_lem (arm pattern body span rest) n h =
      in_turn (walk count_await body) (walk_arms count_await rest) (awaits body) (awaits_arms rest)
        n (walk_lem body n h)
        (walk_arms_lem rest (saturated n (awaits body)) (saturated_le n (awaits body)))
  walk_arms_lem (guarded pattern guard body span rest) n h =
      let m = saturated n (awaits guard) in
      in_turn (walk count_await guard) (λ k. walk_arms count_await rest (walk count_await body k))
        (awaits guard) (awaits body + awaits_arms rest) n (walk_lem guard n h)
        (in_turn (walk count_await body) (walk_arms count_await rest) (awaits body)
          (awaits_arms rest) m (walk_lem body m (saturated_le n (awaits guard)))
          (walk_arms_lem rest (saturated m (awaits body)) (saturated_le m (awaits body))))

  walk_statement_lem :
      (s : HirStatement) (n : ℕ)
      → n ≤ u32_max
      → walk_statement count_await s n ≡ saturated n (awaits_statement s)
  walk_statement_lem (HirStatement.let_bind definition name ty value) n h = walk_lem value n h
  walk_statement_lem HirStatement.return_unit n h = saturated_zero n h
  walk_statement_lem (HirStatement.return_value value) n h = walk_lem value n h
  walk_statement_lem (HirStatement.expression value) n h = walk_lem value n h

  walk_statements_lem :
      (ss : HirStatements) (n : ℕ)
      → n ≤ u32_max
      → walk_statements count_await ss n ≡ saturated n (awaits_statements ss)
  walk_statements_lem no_statements n h = saturated_zero n h
  walk_statements_lem (and_statement s rest) n h =
      in_turn (walk_statement count_await s) (walk_statements count_await rest) (awaits_statement s)
        (awaits_statements rest) n (walk_statement_lem s n h)
        (walk_statements_lem rest (saturated n (awaits_statement s))
          (saturated_le n (awaits_statement s)))

count_statement_lem :
    (s : HirStatement) (n : ℕ) → count_statement_awaits s n ≡ walk_statement count_await s n
unfolding count_statement_awaits count_expression_awaits walk_statement
count_statement_lem (HirStatement.let_bind definition name ty value) n = refl
count_statement_lem HirStatement.return_unit n = refl
count_statement_lem (HirStatement.return_value value) n = refl
count_statement_lem (HirStatement.expression value) n = refl

count_walk : (ss : HirStatements) (n : ℕ) → count_awaits ss n ≡ walk_statements count_await ss n
unfolding count_awaits walk_statements
count_walk no_statements n = refl
count_walk (and_statement s rest) n =
    count_walk rest (count_statement_awaits s n)
    ∙ ap (walk_statements count_await rest) (count_statement_lem s n)

-- The count of the awaits of a block is their number, up to the greatest u32.
pub count_awaits_lem : (ss : HirStatements) → count_awaits ss 0 ≡ min (awaits_statements ss) u32_max
count_awaits_lem ss =
    let counted : count_awaits ss 0 ≡ saturated 0 (awaits_statements ss) =
      count_walk ss 0 ∙ walk_statements_lem ss 0 (omega arith) in
    omega (arith, counted)
