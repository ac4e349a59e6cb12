-- ===== src/Compiler/Effects/Parts/Inspect.antt =====
-- What `inspect_expr` of crates/syllog-compiler/src/effects.rs notes of the parts of an expression.
use syllog.Prelude.{Bool, true, false, ◌||◌, ◌≡◌, ◌↔◌, ◌⊎◌, inl, inr, refl, subst, sym, ◌∙◌}
use syllog.Prelude.TreeMap.{member, member-add}
use syllog.Ir.Syntax.{DefId}
use syllog.Ir.Capability.{Effect}
use syllog.Compiler.Types.{Literal}
use syllog.Compiler.Hir.{
  TypedExpr, expr, HirExprKind, TypedExprs, no_exprs, and_expr, HirMatchArms, no_arms, arm, guarded,
  HirStatement, HirStatements, no_statements, and_statement, HirBlock, block_of,
}
use syllog.Compiler.Effects.{
  has, only, LocalEffects, add_direct, add_call, note_callee, note_literal, inspect_expr,
  inspect_all, inspect_arms, inspect_statement, inspect_statements, inspect_block, DefId-Key,
}
use syllog.Compiler.Effects.Growth.{has-union}
use syllog.Compiler.Effects.Parts.{
  InExpr, InAll, InArms, InStatement, InStatements, InBlock, UsesAt, CallsAt,
}

-- A condition after some work, where the work adds another to it.
abbrev pub Adds : (LocalEffects → Type 0) → Type 0 → (LocalEffects → LocalEffects) → Type 0
Adds O A f = (s : LocalEffects) → O (f s) ↔ (O s ⊎ A)

-- What is noted of an expression before its parts.
abbrev note_kind : HirExprKind → LocalEffects → LocalEffects
note_kind (HirExprKind.await operand) = add_direct Effect.async
note_kind (HirExprKind.literal value) = note_literal value
note_kind (HirExprKind.array items) = add_direct Effect.alloc
note_kind (HirExprKind.call callee arguments) = note_callee callee
note_kind _ = λ s. s

module _ (O : LocalEffects → Type 0) (P : HirExprKind → Type 0) where
  unchanged : (A : Type 0) → ¬ A → Adds O A (λ s. s)
  unchanged A none s = (λ o. inl o, λ h. elim h [ inl o ↦ o | inr a ↦ absurd (none a) ])

  in_turn :
      {A B : Type 0} {f g : LocalEffects → LocalEffects}
      → Adds O A f
      → Adds O B g
      → Adds O (A ⊎ B) (λ s. g (f s))
  in_turn {f = f} p q s = (
    λ o. elim ((q (f s)).0 o) [
      | inr b ↦ inr (inr b)
      | inl before ↦ elim ((p s).0 before) [ inl o' ↦ inl o' | inr a ↦ inr (inl a) ]
    ],
    λ h. elim h [
      | inl o ↦ (q (f s)).1 (inl ((p s).1 (inl o)))
      | inr ab ↦ elim ab [
        | inl a ↦ (q (f s)).1 (inl ((p s).1 (inr a)))
        | inr b ↦ (q (f s)).1 (inr b)
      ]
    ],
  )

  module _ (at : (kind : HirExprKind) → Adds O (P kind) (note_kind kind)) where
    mutual
      unfolding inspect_expr InExpr

      inspect_expr-Adds : (e : TypedExpr) → Adds O (InExpr P e) (inspect_expr e)
      inspect_expr-Adds (expr (HirExprKind.borrow mutable operand) ty span) =
          in_turn (at (HirExprKind.borrow mutable operand)) (inspect_expr-Adds operand)
      inspect_expr-Adds (expr (HirExprKind.await operand) ty span) =
          in_turn (at (HirExprKind.await operand)) (inspect_expr-Adds operand)
      inspect_expr-Adds (expr (HirExprKind.literal value) ty span) =
          in_turn (at (HirExprKind.literal value)) (unchanged ⊥ (λ a. a))
      inspect_expr-Adds (expr (HirExprKind.reference definition) ty span) =
          in_turn (at (HirExprKind.reference definition)) (unchanged ⊥ (λ a. a))
      inspect_expr-Adds (expr (HirExprKind.array items) ty span) =
          in_turn (at (HirExprKind.array items)) (inspect_all-Adds items)
      inspect_expr-Adds (expr (HirExprKind.call callee arguments) ty span) =
          in_turn (at (HirExprKind.call callee arguments))
            (in_turn (inspect_expr-Adds callee) (inspect_all-Adds arguments))
      inspect_expr-Adds (expr (HirExprKind.field base name) ty span) =
          in_turn (at (HirExprKind.field base name)) (inspect_expr-Adds base)
      inspect_expr-Adds (expr (HirExprKind.unary operator operand) ty span) =
          in_turn (at (HirExprKind.unary operator operand)) (inspect_expr-Adds operand)
      inspect_expr-Adds (expr (HirExprKind.binary operator left right) ty span) =
          in_turn (at (HirExprKind.binary operator left right))
            (in_turn (inspect_expr-Adds left) (inspect_expr-Adds right))
      inspect_expr-Adds (expr (HirExprKind.matching value arms) ty span) =
          in_turn (at (HirExprKind.matching value arms))
            (in_turn (inspect_expr-Adds value) (inspect_arms-Adds arms))
      inspect_expr-Adds (expr (HirExprKind.block (block_of statements span')) ty span) =
          in_turn (at (HirExprKind.block (block_of statements span')))
            (inspect_statements-Adds statements)

      inspect_all-Adds : (es : TypedExprs) → Adds O (InAll P es) (inspect_all es)
      inspect_all-Adds no_exprs = unchanged ⊥ (λ a. a)
      inspect_all-Adds (and_expr e rest) = in_turn (inspect_expr-Adds e) (inspect_all-Adds rest)

      inspect_arms-Adds : (arms : HirMatchArms) → Adds O (InArms P arms) (inspect_arms arms)
      inspect_arms-Adds no_arms = unchanged ⊥ (λ a. a)
      inspect_arms-Adds (arm pattern body span rest) =
          in_turn (inspect_expr-Adds body) (inspect_arms-Adds rest)
      inspect_arms-Adds (guarded pattern guard body span rest) =
          in_turn (inspect_expr-Adds guard)
            (in_turn (inspect_expr-Adds body) (inspect_arms-Adds rest))

      inspect_statement-Adds : (s : HirStatement) → Adds O (InStatement P s) (inspect_statement s)
      inspect_statement-Adds (HirStatement.let_bind definition name ty value) =
          inspect_expr-Adds value
      inspect_statement-Adds HirStatement.return_unit = unchanged ⊥ (λ a. a)
      inspect_statement-Adds (HirStatement.return_value value) = inspect_expr-Adds value
      inspect_statement-Adds (HirStatement.expression value) = inspect_expr-Adds value

      inspect_statements-Adds :
          (ss : HirStatements) → Adds O (InStatements P ss) (inspect_statements ss)
      inspect_statements-Adds no_statements = unchanged ⊥ (λ a. a)
      inspect_statements-Adds (and_statement s rest) =
          in_turn (inspect_statement-Adds s) (inspect_statements-Adds rest)

    inspect_block-Adds : (b : HirBlock) → Adds O (InBlock P b) (inspect_block b)
    unfolding inspect_expr InExpr
    inspect_block-Adds (block_of statements span) = inspect_statements-Adds statements

abbrev pub HasDirect : Effect → LocalEffects → Type 0
HasDirect e s = has s.direct e ≡ true

abbrev pub HasCall : DefId → LocalEffects → Type 0
HasCall id s = member s.calls id ≡ true

or_iff : (a b : Bool) → ((a || b) ≡ true) ↔ ((a ≡ true) ⊎ (b ≡ true))
or_iff true b = (λ h. inl refl, λ h. refl)
or_iff false b = (λ h. inr h, λ h. elim h [ inl e ↦ absurd (cc) | inr e ↦ e ])

only_iff : (d e : Effect) → (has (only d) e ≡ true) ↔ (d ≡ e)
only_iff d e = (only-to d e, λ h. subst (λ x. has (only d) x ≡ true) h (only_self d))
  where
    only_self : (d : Effect) → has (only d) d ≡ true
    only_self Effect.alloc = refl
    only_self Effect.async = refl
    only_self Effect.io = refl
    only_self Effect.network = refl
    only_self Effect.provider = refl

    only-to : (d e : Effect) → has (only d) e ≡ true → d ≡ e
    only-to Effect.alloc Effect.alloc h = refl
    only-to Effect.async Effect.async h = refl
    only-to Effect.io Effect.io h = refl
    only-to Effect.network Effect.network h = refl
    only-to Effect.provider Effect.provider h = refl
    only-to _ _ h = absurd (cc)

-- What an effect is added to has it, and no other new one.
pub add_direct_iff :
    (d e : Effect) (s : LocalEffects) → HasDirect e (add_direct d s) ↔ (HasDirect e s ⊎ (d ≡ e))
unfolding add_direct
add_direct_iff d e s =
    let (to, from) = or_iff (has s.direct e) (has (only d) e) in
    let same = has-union s.direct (only d) e in
    (
      λ h. elim (to (sym same ∙ h)) [ inl a ↦ inl a | inr b ↦ inr ((only_iff d e).0 b) ],
      λ h. same ∙ from (elim h [ inl a ↦ inl a | inr b ↦ inr ((only_iff d e).1 b) ]),
    )

add_call_iff :
    (c id : DefId) (s : LocalEffects) → HasCall id (add_call c s) ↔ (HasCall id s ⊎ (c ≡ id))
unfolding add_call
add_call_iff c id s =
    let (to, from) = or_iff (DefId-Key.eq c id) (member s.calls id) in
    let same = member-add c id s.calls in
    (
      λ h. elim (to (sym same ∙ h)) [ inl a ↦ inr ((DefId-Key.eq_iff c id).0 a) | inr b ↦ inl b ],
      λ h. same ∙ from (elim h [ inl a ↦ inr a | inr b ↦ inl ((DefId-Key.eq_iff c id).1 b) ]),
    )

note_literal-Adds :
    (e : Effect) (value : Literal)
    → Adds (HasDirect e) (UsesAt e (HirExprKind.literal value)) (note_literal value)
unfolding note_literal
note_literal-Adds e (Literal.string text) = add_direct_iff Effect.alloc e
note_literal-Adds e (Literal.identifier text) = unchanged (HasDirect e) (λ k. ⊥) ⊥ (λ a. a)
note_literal-Adds e (Literal.integer n) = unchanged (HasDirect e) (λ k. ⊥) ⊥ (λ a. a)
note_literal-Adds e (Literal.float text) = unchanged (HasDirect e) (λ k. ⊥) ⊥ (λ a. a)
note_literal-Adds e (Literal.boolean b) = unchanged (HasDirect e) (λ k. ⊥) ⊥ (λ a. a)

-- The callee is no effect.
note_callee-direct : (e : Effect) (callee : TypedExpr) → Adds (HasDirect e) ⊥ (note_callee callee)
unfolding note_callee add_call
note_callee-direct e (expr (HirExprKind.reference definition) ty span) s =
    unchanged (HasDirect e) (λ k. ⊥) ⊥ (λ a. a) s
note_callee-direct e _ s = unchanged (HasDirect e) (λ k. ⊥) ⊥ (λ a. a) s

note_callee-calls :
    (id : DefId) (callee : TypedExpr) (arguments : TypedExprs)
    → Adds (HasCall id) (CallsAt id (HirExprKind.call callee arguments)) (note_callee callee)
unfolding note_callee
note_callee-calls id (expr (HirExprKind.reference definition) ty span) arguments =
    add_call_iff definition id
note_callee-calls id _ arguments = unchanged (HasCall id) (λ k. ⊥) ⊥ (λ a. a)

note_literal-calls : (id : DefId) (value : Literal) → Adds (HasCall id) ⊥ (note_literal value)
unfolding note_literal add_direct
note_literal-calls id (Literal.string text) s = unchanged (HasCall id) (λ k. ⊥) ⊥ (λ a. a) s
note_literal-calls id _ s = unchanged (HasCall id) (λ k. ⊥) ⊥ (λ a. a) s

note_kind-direct :
    (e : Effect) (kind : HirExprKind) → Adds (HasDirect e) (UsesAt e kind) (note_kind kind)
note_kind-direct e (HirExprKind.await operand) = add_direct_iff Effect.async e
note_kind-direct e (HirExprKind.literal value) = note_literal-Adds e value
note_kind-direct e (HirExprKind.array items) = add_direct_iff Effect.alloc e
note_kind-direct e (HirExprKind.call callee arguments) = note_callee-direct e callee
note_kind-direct e _ = unchanged (HasDirect e) (λ k. ⊥) ⊥ (λ a. a)

note_kind-calls :
    (id : DefId) (kind : HirExprKind) → Adds (HasCall id) (CallsAt id kind) (note_kind kind)
unfolding add_direct
note_kind-calls id (HirExprKind.await operand) = unchanged (HasCall id) (λ k. ⊥) ⊥ (λ a. a)
note_kind-calls id (HirExprKind.literal value) = note_literal-calls id value
note_kind-calls id (HirExprKind.array items) = unchanged (HasCall id) (λ k. ⊥) ⊥ (λ a. a)
note_kind-calls id (HirExprKind.call callee arguments) = note_callee-calls id callee arguments
note_kind-calls id _ = unchanged (HasCall id) (λ k. ⊥) ⊥ (λ a. a)

-- What `inspect_expr` and `inspect_block` add: the effects that some part has by itself, and the
-- definitions that some part calls.
pub inspect_expr-direct :
    (e : Effect) (x : TypedExpr) → Adds (HasDirect e) (InExpr (UsesAt e) x) (inspect_expr x)
inspect_expr-direct e x = inspect_expr-Adds (HasDirect e) (UsesAt e) (note_kind-direct e) x

pub inspect_expr-calls :
    (id : DefId) (x : TypedExpr) → Adds (HasCall id) (InExpr (CallsAt id) x) (inspect_expr x)
inspect_expr-calls id x = inspect_expr-Adds (HasCall id) (CallsAt id) (note_kind-calls id) x

pub inspect_block-direct :
    (e : Effect) (b : HirBlock) → Adds (HasDirect e) (InBlock (UsesAt e) b) (inspect_block b)
inspect_block-direct e b = inspect_block-Adds (HasDirect e) (UsesAt e) (note_kind-direct e) b

pub inspect_block-calls :
    (id : DefId) (b : HirBlock) → Adds (HasCall id) (InBlock (CallsAt id) b) (inspect_block b)
inspect_block-calls id b = inspect_block-Adds (HasCall id) (CallsAt id) (note_kind-calls id) b
