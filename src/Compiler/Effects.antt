-- ===== src/Compiler/Effects.antt =====
-- crates/syllog-compiler/src/effects.rs: effect inference and the check of declared bounds. A set of
-- effects is one flag for each of the five effects.
pub mod Infer
pub mod Growth
pub mod Exact
pub mod Analyze
pub mod Parts
pub mod Collect
pub mod Needs
pub mod Declared
pub mod Bounds
pub mod Reported
pub mod Verdict
use text.Mathlib.Text.{◌==◌ as string_eq}
use Prim.Native.Nat.{◌*◌}
use syllog.Prelude.{
  ℕ, zero, suc, ◌+◌, String, Bool, true, false, not, ◌&&◌, ◌||◌, List, [], ◌∷◌, ◌++◌, map, Option,
  none, some, Result, ok, err, length, ltb, ◌==◌, if◌then◌else◌, ◌≡◌, ◌↔◌, arith,
}
use syllog.Prelude.Text.{◌<>◌}
use syllog.Prelude.TreeMap.{TreeMap, TreeSet, Key, lookup, insert, member, add, String-Key}
use syllog.Ir.Syntax.{DefId, def_id_eq, def_id_eq→eq}
use syllog.Ir.Capability.{Effect, from_source, as_str, CapabilityManifest}
use syllog.Compiler.Types.{Span, Literal}
use syllog.Compiler.Hir.{
  id_lt, TypedExpr, expr, HirExprKind, TypedExprs, no_exprs, and_expr, HirMatchArms, no_arms, arm,
  guarded, HirStatement, HirStatements, no_statements, and_statement, HirBlock, block_of,
  HirFunction, HirPipeline, HirDefinitionKind, HirDefinition, HirModule, HirProgram,
}

pub record EffectSet : Type 0 where
  pub alloc : Bool
  pub async : Bool
  pub io : Bool
  pub network : Bool
  pub provider : Bool

abbrev pub no_effects : EffectSet
no_effects = record { alloc = false; async = false; io = false; network = false; provider = false }

abbrev pub has : EffectSet → Effect → Bool
has s Effect.alloc = s.alloc
has s Effect.async = s.async
has s Effect.io = s.io
has s Effect.network = s.network
has s Effect.provider = s.provider

abbrev pub only : Effect → EffectSet
only Effect.alloc = record {
  alloc = true;
  async = false;
  io = false;
  network = false;
  provider = false;
}
only Effect.async = record {
  alloc = false;
  async = true;
  io = false;
  network = false;
  provider = false;
}
only Effect.io = record {
  alloc = false;
  async = false;
  io = true;
  network = false;
  provider = false;
}
only Effect.network = record {
  alloc = false;
  async = false;
  io = false;
  network = true;
  provider = false;
}
only Effect.provider = record {
  alloc = false;
  async = false;
  io = false;
  network = false;
  provider = true;
}

-- `extend`.
abbrev pub union : EffectSet → EffectSet → EffectSet
union s t = record {
  alloc = s.alloc || t.alloc;
  async = s.async || t.async;
  io = s.io || t.io;
  network = s.network || t.network;
  provider = s.provider || t.provider;
}

abbrev pub difference : EffectSet → EffectSet → EffectSet
difference s t = record {
  alloc = s.alloc && not t.alloc;
  async = s.async && not t.async;
  io = s.io && not t.io;
  network = s.network && not t.network;
  provider = s.provider && not t.provider;
}

abbrev pub one_if : Bool → ℕ
one_if true = 1
one_if false = 0

-- `len`.
abbrev pub size : EffectSet → ℕ
size s = one_if s.alloc + one_if s.async + one_if s.io + one_if s.network + one_if s.provider

unfoldable pub listed : Bool → Effect → List Effect
listed true e = e ∷ []
listed false e = []

-- The elements in the derived order.
unfoldable pub elements : EffectSet → List Effect
unfolding listed
elements s =
    listed s.alloc Effect.alloc
    ++ (listed s.async Effect.async
        ++ (listed s.io Effect.io
            ++ (listed s.network Effect.network ++ listed s.provider Effect.provider)))

pub def_id_iff : (a b : DefId) → (def_id_eq a b ≡ true) ↔ (a ≡ b)
unfolding def_id_eq
def_id_iff a b = (def_id_eq→eq a b, λ e. ground arith)

instance unfoldable pub DefId-Key : Key DefId
DefId-Key = record { lt = id_lt; eq = def_id_eq; eq_iff = def_id_iff }

pub record EffectError : Type 0 where
  pub code : String
  pub message : String
  pub span : Span

pub record EffectAnalysis : Type 0 where
  pub functions : TreeMap DefId EffectSet
  pub manifest : CapabilityManifest

pub record LocalEffects : Type 0 where
  pub direct : EffectSet
  pub calls : TreeSet DefId

abbrev pub no_local : LocalEffects
no_local = record { direct = no_effects; calls = [] }

unfoldable pub add_direct : Effect → LocalEffects → LocalEffects
add_direct e s = record { direct = union s.direct (only e); calls = s.calls }

unfoldable pub add_call : DefId → LocalEffects → LocalEffects
add_call id s = record { direct = s.direct; calls = add id s.calls }

-- The callee, where it is a reference.
unfoldable pub note_callee : TypedExpr → LocalEffects → LocalEffects
note_callee (expr (HirExprKind.reference definition) ty span) s = add_call definition s
note_callee _ s = s

unfoldable pub note_literal : Literal → LocalEffects → LocalEffects
note_literal (Literal.string text) s = add_direct Effect.alloc s
note_literal _ s = s

unfoldable mutual
  pub inspect_expr : TypedExpr → LocalEffects → LocalEffects
  inspect_expr (expr kind ty span) s = inspect_kind kind s

  pub inspect_kind : HirExprKind → LocalEffects → LocalEffects
  inspect_kind (HirExprKind.await operand) s = inspect_expr operand (add_direct Effect.async s)
  inspect_kind (HirExprKind.literal value) s = note_literal value s
  inspect_kind (HirExprKind.array items) s = inspect_all items (add_direct Effect.alloc s)
  inspect_kind (HirExprKind.call callee arguments) s =
      inspect_all arguments (inspect_expr callee (note_callee callee s))
  inspect_kind (HirExprKind.borrow mutable operand) s = inspect_expr operand s
  inspect_kind (HirExprKind.field base name) s = inspect_expr base s
  inspect_kind (HirExprKind.unary operator operand) s = inspect_expr operand s
  inspect_kind (HirExprKind.binary operator left right) s = inspect_expr right (inspect_expr left s)
  inspect_kind (HirExprKind.matching value arms) s = inspect_arms arms (inspect_expr value s)
  inspect_kind (HirExprKind.block nested) s = inspect_block nested s
  inspect_kind (HirExprKind.reference definition) s = s

  pub inspect_all : TypedExprs → LocalEffects → LocalEffects
  inspect_all no_exprs s = s
  inspect_all (and_expr e rest) s = inspect_all rest (inspect_expr e s)

  pub inspect_arms : HirMatchArms → LocalEffects → LocalEffects
  inspect_arms no_arms s = s
  inspect_arms (arm pattern body span rest) s = inspect_arms rest (inspect_expr body s)
  inspect_arms (guarded pattern guard body span rest) s =
      inspect_arms rest (inspect_expr body (inspect_expr guard s))

  pub inspect_statement : HirStatement → LocalEffects → LocalEffects
  inspect_statement (HirStatement.let_bind definition name ty value) s = inspect_expr value s
  inspect_statement HirStatement.return_unit s = s
  inspect_statement (HirStatement.return_value value) s = inspect_expr value s
  inspect_statement (HirStatement.expression value) s = inspect_expr value s

  pub inspect_statements : HirStatements → LocalEffects → LocalEffects
  inspect_statements no_statements s = s
  inspect_statements (and_statement statement rest) s =
      inspect_statements rest (inspect_statement statement s)

  pub inspect_block : HirBlock → LocalEffects → LocalEffects
  inspect_block (block_of statements span) s = inspect_statements statements s
