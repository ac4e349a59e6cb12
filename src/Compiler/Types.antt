-- ===== src/Compiler/Types.antt =====
-- crates/syllog-semantic/src/types.rs: resolved types; and the positions, literals and operators of
-- crates/syllog-parser/src/ast.rs that the HIR keeps.
use syllog.Prelude.{ℕ, String, Bool, Option}
use syllog.Prelude.Int.{ℤ}

pub record Span : Type 0 where
  pub start : ℕ
  pub end : ℕ
  pub line : ℕ
  pub column : ℕ

-- A float keeps its text.
pub data Literal : Type 0 where
  string : String → Literal
  identifier : String → Literal
  integer : ℤ → Literal
  float : String → Literal
  boolean : Bool → Literal

pub data UnaryOperator : Type 0 where
  negate not : UnaryOperator

pub data BinaryOperator : Type 0 where
  add subtract multiply divide remainder : BinaryOperator
  equal not_equal less less_equal greater greater_equal : BinaryOperator
  and or : BinaryOperator

pub data PrimitiveType : Type 0 where
  bool string str char bytes : PrimitiveType
  signed : String → PrimitiveType
  unsigned : String → PrimitiveType
  float : String → PrimitiveType
  duration size agent_ref provider text : PrimitiveType

mutual
  pub data ResolvedType : Type 0 where
    reference : Option String → Bool → ResolvedType → ResolvedType
    primitive : PrimitiveType → ResolvedType
    struct : String → ResolvedType
    enum : String → ResolvedType
    state : String → ResolvedType
    option : ResolvedType → ResolvedType
    result : ResolvedType → ResolvedType → ResolvedType
    array : ResolvedType → ResolvedType
    tuple : ResolvedTypes → ResolvedType
    function : ResolvedTypes → ResolvedType → ResolvedType
    unit unknown error integer_literal float_literal : ResolvedType

  -- `Vec<ResolvedType>`
  pub data ResolvedTypes : Type 0 where
    nil : ResolvedTypes
    cons : ResolvedType → ResolvedTypes → ResolvedTypes
