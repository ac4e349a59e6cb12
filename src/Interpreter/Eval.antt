-- ===== src/Interpreter/Eval.antt =====
-- crates/syllog-interpreter/src/lib.rs: locals, operands, places, assignments, drops and the
-- computations of an assignment. A conversion of a `u32` index to `usize` cannot fail, so its error
-- is left out.
use Prim.Native.String.{len}
use syllog.Prelude.{
  ℕ, ◌*◌, true, false, List, [], ◌∷◌, Option, none, some, get_elem?, set, min, saturating_add,
  u64_max,
}
use syllog.Prelude.Int.{pos, negsuc}
use syllog.Ir.Syntax.{
  LocalId, Constant, Operand, constant, copy, move, Place, Rvalue, borrow, use_operand,
  discriminant, Statement, assign, drop,
}
use syllog.Interpreter.Value.{
  Value, reference, unit, bool, i64, u64, string, Values, nil, cons, values_length, get_value?,
  set_value,
}
use syllog.Interpreter.Machine.{
  InterpreterLimits, TrapMessage, negative_switch_value, switch_not_integer,
  discriminant_not_aggregate, field_base_empty, field_base_not_aggregate, field_out_of_range,
  local_empty, moved_local_empty, local_out_of_range, drop_target_empty, trap, Outcome, done, fail,
  M, ◌>>=◌, ◌>>◌, pure, trap_with, charge_allocation,
}
use syllog.Interpreter.Arith

-- A pure result inside an action.
abbrev pub lift : {A : Type 0} → Outcome A → M A
lift r s = elim r [
  | done a ↦ done (a, s)
  | fail e ↦ fail e
  | Outcome.panic ↦ Outcome.panic
  | Outcome.out_of_fuel ↦ Outcome.out_of_fuel
]

unfoldable pub local_value : LocalId → M Value
local_value l s = elim (get_elem? s.locals l) [
  | none ↦ fail (trap local_empty)
  | some none ↦ fail (trap local_empty)
  | some (some v) ↦ done (v, s)
]

-- `local_value_mut(locals, local)?`: what the slot holds.
unfoldable pub local_value_mut : LocalId → M (Option Value)
local_value_mut l s = elim (get_elem? s.locals l) [
  | none ↦ fail (trap local_out_of_range)
  | some slot ↦ done (slot, s)
]

-- A write through the slot that `local_value_mut` returned.
unfoldable pub write_local : LocalId → Option Value → M (Unit {0})
write_local l slot s = done (tt, record s { locals = set s.locals l slot })

-- `.take().ok_or_else(|| trap(message))` on a slot.
unfoldable pub take_local : LocalId → TrapMessage → M Value
unfolding local_value_mut write_local
take_local l message = do
  slot ← local_value_mut l
  write_local l none
  elim slot [ none ↦ trap_with message | some v ↦ pure v ]

module _ (limits : InterpreterLimits) where
  unfoldable pub constant_value : Constant → M Value
  constant_value Constant.unit = pure unit
  constant_value (Constant.bool b) = pure (bool b)
  constant_value (Constant.i64 n) = pure (i64 n)
  constant_value (Constant.u64 n) = pure (u64 n)
  constant_value (Constant.string text) = do
    charge_allocation limits (min (len text) u64_max)
    pure (string text)

  unfoldable pub operand : Operand → M Value
  operand (constant c) = constant_value c
  operand (copy l) = local_value l
  operand (move l) = take_local l moved_local_empty

  unfoldable pub operands : List Operand → M Values
  operands [] = pure nil
  operands (o ∷ os) = do v ← operand o; vs ← operands os; pure (cons v vs)

-- `fields.get(field)` of a value that should be an aggregate.
unfoldable pub field_of : Value → ℕ → Outcome Value
field_of (Value.aggregate tag fields) index = elim (get_value? fields index) [
  | none ↦ fail (trap field_out_of_range)
  | some v ↦ done v
]
field_of _ index = fail (trap field_base_not_aggregate)

-- The aggregate with one field written.
unfoldable pub with_field : Value → ℕ → Value → Outcome Value
with_field (Value.aggregate tag fields) index value = elim (get_value? fields index) [
  | none ↦ fail (trap field_out_of_range)
  | some _ ↦ done (Value.aggregate tag (set_value fields index value))
]
with_field _ index value = fail (trap field_base_not_aggregate)

-- A write of one field of the aggregate that a local holds.
unfoldable pub write_field : LocalId → ℕ → Value → M (Unit {0})
write_field base index value = do
  slot ← local_value_mut base
  aggregate ← elim slot [ none ↦ trap_with field_base_empty | some v ↦ pure v ]
  written ← lift (with_field aggregate index value)
  write_local base (some written)

unfoldable pub assign_place : Place → Value → M (Unit {0})
assign_place (Place.local l) value = do _ ← local_value_mut l; write_local l (some value)
assign_place (Place.field base index) value = write_field base index value

unfoldable pub read_place : Place → M Value
read_place (Place.local l) = local_value l
read_place (Place.field base index) = do
  aggregate ← local_value base
  lift (field_of aggregate index)

unfoldable pub count_drop : M (Unit {0})
count_drop s = done (
  tt,
  record s {
    machine = record (s.machine) { drops_executed = saturating_add s.machine.drops_executed 1 };
  },
)

unfoldable pub drop_place : Place → M (Unit {0})
unfolding count_drop
drop_place (Place.local l) = do _ ← take_local l drop_target_empty; count_drop
drop_place (Place.field base index) = do write_field base index unit; count_drop

-- `Value::Aggregate { discriminant, .. } => Ok(Value::U64(discriminant))`
unfoldable pub discriminant_of : Value → Outcome Value
discriminant_of (Value.aggregate tag fields) = done (u64 tag)
discriminant_of _ = fail (trap discriminant_not_aggregate)

unfoldable pub switch_value : Value → Outcome ℕ
switch_value (bool true) = done 1
switch_value (bool false) = done 0
switch_value (u64 n) = done n
switch_value (i64 (pos n)) = done n
switch_value (i64 (negsuc n)) = fail (trap negative_switch_value)
switch_value _ = fail (trap switch_not_integer)

module _ (limits : InterpreterLimits) where
  unfoldable pub rvalue : Rvalue → M Value
  rvalue (borrow mutable place) = do v ← read_place place; pure (reference v)
  rvalue (use_operand o) = operand limits o
  rvalue (discriminant o) = do v ← operand limits o; lift (discriminant_of v)
  rvalue (Rvalue.aggregate id tag fields) = do
    vs ← operands limits fields
    charge_allocation limits (min (min (values_length vs) u64_max * 16) u64_max)
    pure (Value.aggregate tag vs)
  rvalue (Rvalue.binary op left right) = do
    l ← operand limits left
    r ← operand limits right
    lift (Arith.binary op l r)

  unfoldable pub integer_operand : Operand → M ℕ
  integer_operand o = do v ← operand limits o; lift (switch_value v)

  unfoldable pub execute_statement : Statement → M (Unit {0})
  execute_statement (assign destination value) = do v ← rvalue value; assign_place destination v
  execute_statement (drop place) = drop_place place
