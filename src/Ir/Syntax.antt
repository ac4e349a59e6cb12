-- ===== src/Ir/Syntax.antt =====
-- crates/syllog-ir/src/lib.rs: the mid-level representation, and the equality that Rust derives for
-- its types. A newtype over `u32` is a number.
use syllog.Prelude.{ℕ, String, List, Option, Bool, true, false, ◌&&◌, ◌==◌, ◌≡◌, refl, arith}
use syllog.Prelude.Int.{ℤ}

-- `module` is a word of the language, so the field has another name.
pub record DefId : Type 0 where
  pub module_id : ℕ
  pub index : ℕ

abbrev pub BlockId : Type 0
BlockId = ℕ

abbrev pub LocalId : Type 0
LocalId = ℕ

pub data MirType : Type 0 where
  reference : Bool → MirType → MirType
  unit bool i64 u64 string : MirType
  aggregate : DefId → MirType

pub data Constant : Type 0 where
  unit : Constant
  bool : Bool → Constant
  i64 : ℤ → Constant
  u64 : ℕ → Constant
  string : String → Constant

unfoldable pub ty : Constant → MirType
ty Constant.unit = MirType.unit
ty (Constant.bool _) = MirType.bool
ty (Constant.i64 _) = MirType.i64
ty (Constant.u64 _) = MirType.u64
ty (Constant.string _) = MirType.string

pub data Operand : Type 0 where
  constant : Constant → Operand
  copy : LocalId → Operand
  move : LocalId → Operand

-- `field base field`.
pub data Place : Type 0 where
  local : LocalId → Place
  field : LocalId → ℕ → Place

pub data BinaryOp : Type 0 where
  add subtract multiply divide equal less and or : BinaryOp

pub data Rvalue : Type 0 where
  borrow : Bool → Place → Rvalue
  use_operand : Operand → Rvalue
  binary : BinaryOp → Operand → Operand → Rvalue
  aggregate : DefId → ℕ → List Operand → Rvalue
  discriminant : Operand → Rvalue

pub data Statement : Type 0 where
  assign : Place → Rvalue → Statement
  drop : Place → Statement

pub data Terminator : Type 0 where
  return : Terminator
  goto : BlockId → Terminator
  switch_int : Operand → List (ℕ × BlockId) → BlockId → Terminator
  call : DefId → List Operand → Place → BlockId → Terminator

pub record BasicBlock : Type 0 where
  pub statements : List Statement
  pub terminator : Option Terminator

pub record MirFunction : Type 0 where
  pub id : DefId
  pub parameter_count : ℕ
  pub return_type : MirType
  pub locals : List MirType
  pub blocks : List BasicBlock

pub record MirProgram : Type 0 where
  pub functions : List MirFunction
  pub entry : Option DefId

-- The derived equalities.
unfoldable pub def_id_eq : DefId → DefId → Bool
def_id_eq a b = a.module_id == b.module_id && a.index == b.index

bool_eq : Bool → Bool → Bool
bool_eq true b = b
bool_eq false true = false
bool_eq false false = true

unfoldable pub mir_type_eq : MirType → MirType → Bool
unfolding bool_eq def_id_eq
mir_type_eq (MirType.reference m a) (MirType.reference n b) = bool_eq m n && mir_type_eq a b
mir_type_eq MirType.unit MirType.unit = true
mir_type_eq MirType.bool MirType.bool = true
mir_type_eq MirType.i64 MirType.i64 = true
mir_type_eq MirType.u64 MirType.u64 = true
mir_type_eq MirType.string MirType.string = true
mir_type_eq (MirType.aggregate a) (MirType.aggregate b) = def_id_eq a b
mir_type_eq _ _ = false

pub def_id_eq→eq : (a b : DefId) → def_id_eq a b ≡ true → a ≡ b
unfolding def_id_eq
def_id_eq→eq a b h = ground arith

bool_eq→eq : (a b : Bool) → bool_eq a b ≡ true → a ≡ b
unfolding bool_eq
bool_eq→eq a b h = ground arith

pub mir_type_eq→eq : (a b : MirType) → mir_type_eq a b ≡ true → a ≡ b
unfolding mir_type_eq
mir_type_eq→eq (MirType.reference m a) (MirType.reference n b) h =
    ground (arith, bool_eq→eq m n, mir_type_eq→eq a b)
mir_type_eq→eq (MirType.aggregate a) (MirType.aggregate b) h = ground (arith, def_id_eq→eq a b)
mir_type_eq→eq MirType.unit MirType.unit h = refl
mir_type_eq→eq _ _ h = ground arith
