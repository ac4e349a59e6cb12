-- ===== src/Compiler/Hir.antt =====
-- crates/syllog-compiler/src/hir.rs: the typed HIR, and the walk over its expressions. A list or an
-- option of nested values is a type of the mutual block. `DefId` is that of the MIR: `map_id` of
-- crates/syllog-compiler/src/async_lower.rs keeps both of its numbers.
use syllog.Prelude.{ℕ, String, Bool, ◌&&◌, ◌||◌, List, Option, ltb, ◌==◌}
use syllog.Ir.Syntax.{DefId}
use syllog.Compiler.Types.{Span, Literal, UnaryOperator, BinaryOperator, ResolvedType}

-- The derived order of `DefId`.
unfoldable pub id_lt : DefId → DefId → Bool
id_lt a b = ltb a.module_id b.module_id || (a.module_id == b.module_id && ltb a.index b.index)

mutual
  pub data HirPattern : Type 0 where
    wildcard : HirPattern
    binding : DefId → HirPattern
    variant : DefId → HirPatterns → HirPattern
    literal : Literal → HirPattern

  pub data HirPatterns : Type 0 where
    nil : HirPatterns
    cons : HirPattern → HirPatterns → HirPatterns

mutual
  -- An expression has a kind, a type and a range.
  pub data TypedExpr : Type 0 where
    expr : HirExprKind → ResolvedType → Span → TypedExpr

  pub data HirExprKind : Type 0 where
    borrow : Bool → TypedExpr → HirExprKind
    await : TypedExpr → HirExprKind
    literal : Literal → HirExprKind
    reference : DefId → HirExprKind
    array : TypedExprs → HirExprKind
    call : TypedExpr → TypedExprs → HirExprKind
    field : TypedExpr → DefId → HirExprKind
    unary : UnaryOperator → TypedExpr → HirExprKind
    binary : BinaryOperator → TypedExpr → TypedExpr → HirExprKind
    matching : TypedExpr → HirMatchArms → HirExprKind
    block : HirBlock → HirExprKind

  pub data TypedExprs : Type 0 where
    no_exprs : TypedExprs
    and_expr : TypedExpr → TypedExprs → TypedExprs

  -- An arm has a pattern, an optional guard, a body and a range.
  pub data HirMatchArms : Type 0 where
    no_arms : HirMatchArms
    arm : HirPattern → TypedExpr → Span → HirMatchArms → HirMatchArms
    guarded : HirPattern → TypedExpr → TypedExpr → Span → HirMatchArms → HirMatchArms

  pub data HirStatement : Type 0 where
    let_bind : DefId → String → ResolvedType → TypedExpr → HirStatement
    return_unit : HirStatement
    return_value : TypedExpr → HirStatement
    expression : TypedExpr → HirStatement

  pub data HirStatements : Type 0 where
    no_statements : HirStatements
    and_statement : HirStatement → HirStatements → HirStatements

  -- A block has statements and a range.
  pub data HirBlock : Type 0 where
    block_of : HirStatements → Span → HirBlock

pub record HirMember : Type 0 where
  pub id : DefId
  pub name : String
  pub ty : ResolvedType
  pub span : Span

pub record HirVariant : Type 0 where
  pub id : DefId
  pub name : String
  pub fields : List ResolvedType
  pub span : Span

pub record HirParameter : Type 0 where
  pub id : DefId
  pub name : String
  pub ty : ResolvedType
  pub span : Span

pub record HirFunction : Type 0 where
  pub is_test : Bool
  pub asynchronous : Bool
  pub public : Bool
  pub declared_effects : Option (List String)
  pub parameters : List HirParameter
  pub result : ResolvedType
  pub body : HirBlock

pub record HirPipeline : Type 0 where
  pub parameters : List HirParameter
  pub result : ResolvedType
  pub agent : Option DefId
  pub body : Option TypedExpr

pub data HirDefinitionKind : Type 0 where
  struct : List HirMember → HirDefinitionKind
  enum : List HirVariant → HirDefinitionKind
  function : HirFunction → HirDefinitionKind
  state : List HirMember → HirDefinitionKind
  agent : HirDefinitionKind
  pipeline : HirPipeline → HirDefinitionKind
  safety_bound : HirDefinitionKind

pub record HirDefinition : Type 0 where
  pub id : DefId
  pub name : String
  pub kind : HirDefinitionKind
  pub span : Span

pub record HirModule : Type 0 where
  pub id : ℕ
  pub definitions : List HirDefinition

pub record HirProgram : Type 0 where
  pub schema_version : ℕ
  pub modules : List HirModule
  pub entry : Option DefId

-- `TypedExpr::walk`: what is visited, in order, each visit taking a state to the next.
module _ {S : Type 0} (visit : TypedExpr → S → S) where
  unfoldable mutual
    pub walk : TypedExpr → S → S
    walk (expr kind ty span) s = walk_kind kind (visit (expr kind ty span) s)

    pub walk_kind : HirExprKind → S → S
    walk_kind (HirExprKind.borrow mutable operand) s = walk operand s
    walk_kind (HirExprKind.await operand) s = walk operand s
    walk_kind (HirExprKind.literal value) s = s
    walk_kind (HirExprKind.reference definition) s = s
    walk_kind (HirExprKind.array items) s = walk_all items s
    walk_kind (HirExprKind.call callee arguments) s = walk_all arguments (walk callee s)
    walk_kind (HirExprKind.field base name) s = walk base s
    walk_kind (HirExprKind.unary operator operand) s = walk operand s
    walk_kind (HirExprKind.binary operator left right) s = walk right (walk left s)
    walk_kind (HirExprKind.matching value arms) s = walk_arms arms (walk value s)
    walk_kind (HirExprKind.block nested) s = walk_block nested s

    pub walk_all : TypedExprs → S → S
    walk_all no_exprs s = s
    walk_all (and_expr e rest) s = walk_all rest (walk e s)

    pub walk_arms : HirMatchArms → S → S
    walk_arms no_arms s = s
    walk_arms (arm pattern body span rest) s = walk_arms rest (walk body s)
    walk_arms (guarded pattern guard body span rest) s = walk_arms rest (walk body (walk guard s))

    pub walk_statement : HirStatement → S → S
    walk_statement (HirStatement.let_bind definition name ty value) s = walk value s
    walk_statement HirStatement.return_unit s = s
    walk_statement (HirStatement.return_value value) s = walk value s
    walk_statement (HirStatement.expression value) s = walk value s

    pub walk_statements : HirStatements → S → S
    walk_statements no_statements s = s
    walk_statements (and_statement statement rest) s =
        walk_statements rest (walk_statement statement s)

    pub walk_block : HirBlock → S → S
    walk_block (block_of statements span) s = walk_statements statements s
