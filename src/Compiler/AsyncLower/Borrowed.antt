-- ===== src/Compiler/AsyncLower/Borrowed.antt =====
-- Which locals of a function count as borrowed in crates/syllog-compiler/src/async_lower.rs, told by
-- the shape of their types. A `let` is inspected where it is a statement of the function's body
-- itself, and not inside the blocks and arms of its expressions.
use syllog.Prelude.{
  ◌≡◌, ◌⊎◌, inl, inr, refl, Bool, true, false, ◌||◌, List, [], ◌∷◌, ◌++◌, if-cases, arith,
}
use syllog.Ir.Syntax.{DefId}
use syllog.Compiler.Types.{PrimitiveType, ResolvedType, ResolvedTypes}
use syllog.Compiler.Hir.{
  HirStatement, let_bind, HirStatements, no_statements, and_statement, HirParameter, HirFunction,
}
use syllog.Compiler.AsyncLower.{
  contains_borrow, any_borrow, borrowed_lets, borrowed_parameters, statements_of, borrowed_of,
}

mutual
  -- A type is `str`, or is an option, array, result, tuple or function of such a type. A reference,
  -- even to `str`, is not.
  pub data HasStr : ResolvedType → Type 0 where
    str : HasStr (ResolvedType.primitive PrimitiveType.str)
    option : {inner : ResolvedType} → HasStr inner → HasStr (ResolvedType.option inner)
    array : {inner : ResolvedType} → HasStr inner → HasStr (ResolvedType.array inner)
    success : {a e : ResolvedType} → HasStr a → HasStr (ResolvedType.result a e)
    failure : {a e : ResolvedType} → HasStr e → HasStr (ResolvedType.result a e)
    tuple : {items : ResolvedTypes} → SomeHasStr items → HasStr (ResolvedType.tuple items)
    parameter :
        {parameters : ResolvedTypes} {returned : ResolvedType}
        → SomeHasStr parameters
        → HasStr (ResolvedType.function parameters returned)
    returned :
        {parameters : ResolvedTypes} {out : ResolvedType}
        → HasStr out
        → HasStr (ResolvedType.function parameters out)

  pub data SomeHasStr : ResolvedTypes → Type 0 where
    first :
        {item : ResolvedType} {rest : ResolvedTypes}
        → HasStr item
        → SomeHasStr (ResolvedTypes.cons item rest)
    later :
        {item : ResolvedType} {rest : ResolvedTypes}
        → SomeHasStr rest
        → SomeHasStr (ResolvedTypes.cons item rest)

-- The parameters with such a type, in their order.
pub data BorrowedParameters : List HirParameter → List DefId → Type 0 where
  none_left : BorrowedParameters [] []
  borrowed :
      {p : HirParameter} {rest : List HirParameter} {ids : List DefId}
      → HasStr p.ty
      → BorrowedParameters rest ids
      → BorrowedParameters (p ∷ rest) (p.id ∷ ids)
  owned :
      {p : HirParameter} {rest : List HirParameter} {ids : List DefId}
      → ¬ HasStr p.ty
      → BorrowedParameters rest ids
      → BorrowedParameters (p ∷ rest) ids

-- The locals that the statements of a body bind with such a type, in their order.
abbrev pub BorrowedLets : HirStatements → List DefId → Type 0
BorrowedLets no_statements ids = ids ≡ []
BorrowedLets (and_statement (let_bind id name ty value) rest) ids =
    (HasStr ty × ((others : List DefId) × (ids ≡ id ∷ others) × BorrowedLets rest others))
    ⊎ ((¬ HasStr ty) × BorrowedLets rest ids)
BorrowedLets (and_statement _ rest) ids = BorrowedLets rest ids

-- The borrowed locals of a function: parameters, then those of its body's statements.
pub record Borrowed (function : HirFunction) (ids : List DefId) : Type 0 where
  pub of_parameters : List DefId
  pub of_body : List DefId
  pub parameters_are : BorrowedParameters function.parameters of_parameters
  pub body_is : BorrowedLets (statements_of function.body) of_body
  pub together : ids ≡ of_parameters ++ of_body

or-cases : (a b : Bool) → (a || b) ≡ true → (a ≡ true) ⊎ (b ≡ true)
or-cases true b h = inl refl
or-cases false b h = inr h

mutual
  unfolding contains_borrow any_borrow

  contains_borrow-HasStr : (ty : ResolvedType) → contains_borrow ty ≡ true → HasStr ty
  contains_borrow-HasStr (ResolvedType.primitive PrimitiveType.str) h = str
  contains_borrow-HasStr (ResolvedType.option inner) h = option (contains_borrow-HasStr inner h)
  contains_borrow-HasStr (ResolvedType.array inner) h = array (contains_borrow-HasStr inner h)
  contains_borrow-HasStr (ResolvedType.result a e) h =
      elim (or-cases (contains_borrow a) (contains_borrow e) h) [
        | inl p ↦ success (contains_borrow-HasStr a p)
        | inr p ↦ failure (contains_borrow-HasStr e p)
      ]
  contains_borrow-HasStr (ResolvedType.tuple items) h = tuple (any_borrow-SomeHasStr items h)
  contains_borrow-HasStr (ResolvedType.function parameters out) h =
      elim (or-cases (any_borrow parameters) (contains_borrow out) h) [
        | inl p ↦ parameter (any_borrow-SomeHasStr parameters p)
        | inr p ↦ returned (contains_borrow-HasStr out p)
      ]
  contains_borrow-HasStr _ h = absurd (cc)

  any_borrow-SomeHasStr : (items : ResolvedTypes) → any_borrow items ≡ true → SomeHasStr items
  any_borrow-SomeHasStr ResolvedTypes.nil h = absurd (cc)
  any_borrow-SomeHasStr (ResolvedTypes.cons item rest) h =
      elim (or-cases (contains_borrow item) (any_borrow rest) h) [
        | inl p ↦ first (contains_borrow-HasStr item p)
        | inr p ↦ later (any_borrow-SomeHasStr rest p)
      ]

or-left : (a b : Bool) → a ≡ true → (a || b) ≡ true
or-left a b h = ground arith

or-right : (a b : Bool) → b ≡ true → (a || b) ≡ true
or-right a b h = ground arith

mutual
  unfolding contains_borrow any_borrow

  HasStr-contains_borrow : (ty : ResolvedType) → HasStr ty → contains_borrow ty ≡ true
  HasStr-contains_borrow ty str = refl
  HasStr-contains_borrow ty (option {inner = t} h) = HasStr-contains_borrow t h
  HasStr-contains_borrow ty (array {inner = t} h) = HasStr-contains_borrow t h
  HasStr-contains_borrow ty (success {a = a} {e = e} h) =
      or-left (contains_borrow a) (contains_borrow e) (HasStr-contains_borrow a h)
  HasStr-contains_borrow ty (failure {a = a} {e = e} h) =
      or-right (contains_borrow a) (contains_borrow e) (HasStr-contains_borrow e h)
  HasStr-contains_borrow ty (tuple {items = items} h) = SomeHasStr-any_borrow items h
  HasStr-contains_borrow ty (parameter {parameters = ps} {returned = r} h) =
      or-left (any_borrow ps) (contains_borrow r) (SomeHasStr-any_borrow ps h)
  HasStr-contains_borrow ty (returned {parameters = ps} {out = r} h) =
      or-right (any_borrow ps) (contains_borrow r) (HasStr-contains_borrow r h)

  SomeHasStr-any_borrow : (items : ResolvedTypes) → SomeHasStr items → any_borrow items ≡ true
  SomeHasStr-any_borrow items (first {item = item} {rest = rest} h) =
      or-left (contains_borrow item) (any_borrow rest) (HasStr-contains_borrow item h)
  SomeHasStr-any_borrow items (later {item = item} {rest = rest} h) =
      or-right (contains_borrow item) (any_borrow rest) (SomeHasStr-any_borrow rest h)

not-HasStr : (ty : ResolvedType) → contains_borrow ty ≡ false → ¬ HasStr ty
not-HasStr ty h s = let yes = HasStr-contains_borrow ty s in absurd (cc)

borrowed_parameters-BorrowedParameters :
    (ps : List HirParameter) → BorrowedParameters ps (borrowed_parameters ps)
unfolding borrowed_parameters
borrowed_parameters-BorrowedParameters [] = none_left
borrowed_parameters-BorrowedParameters (p ∷ rest) =
    if-cases (BorrowedParameters (p ∷ rest)) (contains_borrow p.ty)
      (λ yes.
        borrowed (contains_borrow-HasStr p.ty yes) (borrowed_parameters-BorrowedParameters rest))
      (λ no. owned (not-HasStr p.ty no) (borrowed_parameters-BorrowedParameters rest))

borrowed_lets-BorrowedLets : (ss : HirStatements) → BorrowedLets ss (borrowed_lets ss)
unfolding borrowed_lets
borrowed_lets-BorrowedLets no_statements = refl
borrowed_lets-BorrowedLets (and_statement (let_bind id name ty value) rest) =
    if-cases (BorrowedLets (and_statement (let_bind id name ty value) rest)) (contains_borrow ty)
      (λ yes. inl (
        contains_borrow-HasStr ty yes,
        (borrowed_lets rest, refl, borrowed_lets-BorrowedLets rest),
      ))
      (λ no. inr (not-HasStr ty no, borrowed_lets-BorrowedLets rest))
borrowed_lets-BorrowedLets (and_statement HirStatement.return_unit rest) =
    borrowed_lets-BorrowedLets rest
borrowed_lets-BorrowedLets (and_statement (HirStatement.return_value value) rest) =
    borrowed_lets-BorrowedLets rest
borrowed_lets-BorrowedLets (and_statement (HirStatement.expression value) rest) =
    borrowed_lets-BorrowedLets rest

pub borrowed_of-Borrowed : (function : HirFunction) → Borrowed function (borrowed_of function)
unfolding borrowed_of
borrowed_of-Borrowed function = record {
  of_parameters = borrowed_parameters function.parameters;
  of_body = borrowed_lets (statements_of function.body);
  parameters_are = borrowed_parameters-BorrowedParameters function.parameters;
  body_is = borrowed_lets-BorrowedLets (statements_of function.body);
  together = refl;
}
