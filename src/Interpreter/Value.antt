-- ===== src/Interpreter/Value.antt =====
-- crates/syllog-interpreter/src/lib.rs: the values of a run, the values that it hands out, and the
-- equality that Rust derives. A vector of values is a type of its own in the block.
use text.Mathlib.Text.{◌==◌ as str_eq}
use syllog.Prelude.{ℕ, suc, zero, String, Bool, true, false, ◌&&◌, Option, none, some, ◌==◌}
use syllog.Prelude.Int.{ℤ, pos, negsuc}

mutual
  pub data Value : Type 0 where
    reference : Value → Value
    unit : Value
    bool : Bool → Value
    i64 : ℤ → Value
    u64 : ℕ → Value
    string : String → Value
    aggregate : ℕ → Values → Value

  pub data Values : Type 0 where
    nil : Values
    cons : Value → Values → Values

mutual
  pub data RuntimeValue : Type 0 where
    reference : RuntimeValue → RuntimeValue
    unit : RuntimeValue
    bool : Bool → RuntimeValue
    i64 : ℤ → RuntimeValue
    u64 : ℕ → RuntimeValue
    string : String → RuntimeValue
    aggregate : RuntimeValues → RuntimeValue

  pub data RuntimeValues : Type 0 where
    nil : RuntimeValues
    cons : RuntimeValue → RuntimeValues → RuntimeValues

unfoldable mutual
  pub into_runtime : Value → RuntimeValue
  into_runtime (Value.reference v) = RuntimeValue.reference (into_runtime v)
  into_runtime Value.unit = RuntimeValue.unit
  into_runtime (Value.bool b) = RuntimeValue.bool b
  into_runtime (Value.i64 n) = RuntimeValue.i64 n
  into_runtime (Value.u64 n) = RuntimeValue.u64 n
  into_runtime (Value.string s) = RuntimeValue.string s
  into_runtime (Value.aggregate tag fields) = RuntimeValue.aggregate (into_runtimes fields)

  pub into_runtimes : Values → RuntimeValues
  into_runtimes Values.nil = RuntimeValues.nil
  into_runtimes (Values.cons v vs) = RuntimeValues.cons (into_runtime v) (into_runtimes vs)

int_eq : ℤ → ℤ → Bool
int_eq (pos a) (pos b) = a == b
int_eq (negsuc a) (negsuc b) = a == b
int_eq _ _ = false

same_bool : Bool → Bool → Bool
same_bool true b = b
same_bool false true = false
same_bool false false = true

unfoldable mutual
  unfolding int_eq same_bool

  pub value_eq : Value → Value → Bool
  value_eq (Value.reference v) (Value.reference w) = value_eq v w
  value_eq Value.unit Value.unit = true
  value_eq (Value.bool a) (Value.bool b) = same_bool a b
  value_eq (Value.i64 a) (Value.i64 b) = int_eq a b
  value_eq (Value.u64 a) (Value.u64 b) = a == b
  value_eq (Value.string a) (Value.string b) = str_eq a b
  value_eq (Value.aggregate a vs) (Value.aggregate b ws) = a == b && values_eq vs ws
  value_eq _ _ = false

  pub values_eq : Values → Values → Bool
  values_eq Values.nil Values.nil = true
  values_eq (Values.cons v vs) (Values.cons w ws) = value_eq v w && values_eq vs ws
  values_eq _ _ = false

abbrev pub values_length : Values → ℕ
values_length Values.nil = 0
values_length (Values.cons v vs) = suc (values_length vs)

-- `fields.get(index)`.
unfoldable pub get_value? : Values → ℕ → Option Value
get_value? Values.nil i = none
get_value? (Values.cons v vs) zero = some v
get_value? (Values.cons v vs) (suc i) = get_value? vs i

-- `*fields.get_mut(index)? = value`.
unfoldable pub set_value : Values → ℕ → Value → Values
set_value Values.nil i w = Values.nil
set_value (Values.cons v vs) zero w = Values.cons w vs
set_value (Values.cons v vs) (suc i) w = Values.cons v (set_value vs i w)
