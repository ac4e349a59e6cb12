-- ===== src/Interpreter/Limits/Actions.antt =====
-- The actions on one frame in crates/syllog-interpreter/src/lib.rs and the instruction counter.
use syllog.Prelude.{
  ℕ, suc, ◌<◌, ◌≤◌, arith, Bool, true, false, List, [], ◌∷◌, Option, none, some, ltb, if◌then◌else◌,
  get_elem?, Bool-cases, Option-cases, inl, inr, saturating_add, u64_max,
}
use syllog.Prelude.Int.{pos, negsuc}
use syllog.Ir.Syntax.{
  LocalId, Constant, Operand, constant, copy, move, Place, BinaryOp, add, subtract, multiply,
  divide, equal, less, and, or, Rvalue, borrow, use_operand, binary, discriminant, Statement,
  assign, drop, MirFunction,
}
use syllog.Interpreter.Value.{Value, Values, bool, i64, u64, get_value?}
use syllog.Interpreter.Machine.{
  InterpreterLimits, TrapMessage, Outcome, done, fail, panic, out_of_fuel, State, M, RuntimeError,
  ◌>>=◌, pure, trap_with, tick, charge_allocation,
}
use syllog.Interpreter.Arith
use syllog.Interpreter.Eval.{
  lift, local_value, local_value_mut, write_local, take_local, constant_value, operand, operands,
  field_of, with_field, write_field, assign_place, read_place, count_drop, drop_place,
  discriminant_of, switch_value, rvalue, integer_operand, execute_statement,
}
use syllog.Interpreter.Run.{execute_statements, take_result}
use syllog.Interpreter.Limits.{Settles, Ends, Keeps, Settles-weaken, Settles-bind}

module _ (high : ℕ) where
  pub Keeps-bind :
      {A B : Type 0} (m : M A) (f : A → M B)
      → Keeps high m
      → ((a : A) → Keeps high (f a))
      → Keeps high (m >>= f)
  Keeps-bind m f h k s le =
      Settles-bind s.machine.instructions high (m s) f (h s le) λ a s' low le'.
        Settles-weaken s'.machine.instructions s.machine.instructions high (f a s') low (k a s' le')

  pub Keeps-pure : {A : Type 0} (a : A) → Keeps high (pure a)
  Keeps-pure a s le = (omega (arith), le)

  Keeps-lift : {A : Type 0} (r : Outcome A) → Ends r → Keeps high (lift r)
  Keeps-lift (done a) h s le = (omega (arith), le)
  Keeps-lift (fail e) h s le = tt
  Keeps-lift panic h s le = tt
  Keeps-lift out_of_fuel h s le = h

  slot-Keeps :
      (slot : Option Value) (message : TrapMessage)
      → Keeps {A = Value} high (elim slot [ none ↦ trap_with message | some v ↦ pure v ])
  slot-Keeps none message s le = tt
  slot-Keeps (some v) message s le = (omega (arith), le)

  local_value-Keeps : (l : LocalId) → Keeps high (local_value l)
  unfolding local_value
  local_value-Keeps l s le = elim (Option-cases (get_elem? s.locals l)) [
    | inl e ↦ rw (e, local_value) tt
    | inr (none, e) ↦ rw (e, local_value) tt
    | inr (some v, e) ↦ rw (e, local_value) (Keeps-pure v s le)
  ]

  local_value_mut-Keeps : (l : LocalId) → Keeps high (local_value_mut l)
  unfolding local_value_mut
  local_value_mut-Keeps l s le = elim (Option-cases (get_elem? s.locals l)) [
    | inl e ↦ rw (e, local_value_mut) tt
    | inr (slot, e) ↦ rw (e, local_value_mut) (Keeps-pure slot s le)
  ]

  write_local-Keeps : (l : LocalId) (slot : Option Value) → Keeps high (write_local l slot)
  unfolding write_local
  write_local-Keeps l slot s le = (omega (arith), le)

  take_local-Keeps : (l : LocalId) (message : TrapMessage) → Keeps high (take_local l message)
  unfolding take_local
  take_local-Keeps l message = Keeps-bind _ _ (local_value_mut-Keeps l) λ slot.
      Keeps-bind (write_local l none) _ (write_local-Keeps l none) λ _. slot-Keeps slot message

  pub take_result-Keeps : Keeps high take_result
  unfolding take_result
  take_result-Keeps s le = elim (Option-cases (get_elem? s.locals 0)) [
    | inl e ↦ rw (e, take_result) tt
    | inr (none, e) ↦ rw (e, take_result) tt
    | inr (some v, e) ↦ rw (e, take_result) (omega (arith), le)
  ]

  count_drop-Keeps : Keeps high count_drop
  unfolding count_drop
  count_drop-Keeps s le = (omega (arith), le)

  module _ (limits : InterpreterLimits) where
    charge-Keeps : (bytes : ℕ) → Keeps high (charge_allocation limits bytes)
    unfolding charge_allocation
    charge-Keeps bytes s le =
        elim (Bool-cases
          (ltb limits.max_allocated_bytes (saturating_add s.machine.allocated_bytes bytes))) [
            | inl e ↦ rw (e, charge_allocation) tt
            | inr e ↦ rw (e, charge_allocation) (omega (arith), le)
          ]

    operand-Keeps : (o : Operand) → Keeps high (operand limits o)
    unfolding operand constant_value
    operand-Keeps (copy l) = local_value-Keeps l
    operand-Keeps (move l) = take_local-Keeps l _
    operand-Keeps (constant (Constant.string text)) =
        Keeps-bind _ _ (charge-Keeps _) λ _. Keeps-pure (Value.string text)
    operand-Keeps (constant Constant.unit) = Keeps-pure Value.unit
    operand-Keeps (constant (Constant.bool b)) = Keeps-pure (Value.bool b)
    operand-Keeps (constant (Constant.i64 n)) = Keeps-pure (Value.i64 n)
    operand-Keeps (constant (Constant.u64 n)) = Keeps-pure (Value.u64 n)

    pub operands-Keeps : (os : List Operand) → Keeps high (operands limits os)
    unfolding operands
    operands-Keeps [] = Keeps-pure Values.nil
    operands-Keeps (o ∷ os) =
        Keeps-bind _ _ (operand-Keeps o)
          λ v. Keeps-bind _ _ (operands-Keeps os) λ vs. Keeps-pure (Values.cons v vs)

field_of-Ends : (v : Value) (index : ℕ) → Ends (field_of v index)
unfolding field_of
field_of-Ends (Value.aggregate tag fields) index = elim (Option-cases (get_value? fields index)) [
  | inl e ↦ rw (e, field_of) tt
  | inr (w, e) ↦ rw (e, field_of) tt
]
field_of-Ends Value.unit index = tt
field_of-Ends _ index = tt

with_field-Ends : (v : Value) (index : ℕ) (w : Value) → Ends (with_field v index w)
unfolding with_field
with_field-Ends (Value.aggregate tag fields) index w =
    elim (Option-cases (get_value? fields index)) [
      | inl e ↦ rw (e, with_field) tt
      | inr (u, e) ↦ rw (e, with_field) tt
    ]
with_field-Ends Value.unit index w = tt
with_field-Ends _ index w = tt

test-Ends : (b : Bool) (v : Value) (e : RuntimeError) → Ends (if b then done v else fail e)
test-Ends true v e = tt
test-Ends false v e = tt

binary-Ends : (op : BinaryOp) (left right : Value) → Ends (Arith.binary op left right)
unfolding Arith.binary
binary-Ends add (u64 a) (u64 b) = test-Ends _ _ _
binary-Ends add (i64 a) (i64 b) = test-Ends _ _ _
binary-Ends add _ _ = tt
binary-Ends subtract (u64 a) (u64 b) = ground arith
binary-Ends subtract (i64 a) (i64 b) = test-Ends _ _ _
binary-Ends subtract _ _ = tt
binary-Ends multiply (u64 a) (u64 b) = test-Ends _ _ _
binary-Ends multiply (i64 a) (i64 b) = test-Ends _ _ _
binary-Ends multiply _ _ = tt
binary-Ends divide (u64 a) (u64 b) = ground arith
binary-Ends divide (i64 a) (i64 b) = ground arith
binary-Ends divide _ _ = tt
binary-Ends equal _ _ = tt
binary-Ends less (u64 a) (u64 b) = tt
binary-Ends less (i64 a) (i64 b) = tt
binary-Ends less _ _ = tt
binary-Ends and (bool a) (bool b) = tt
binary-Ends and _ _ = tt
binary-Ends or (bool a) (bool b) = tt
binary-Ends or _ _ = tt

discriminant_of-Ends : (v : Value) → Ends (discriminant_of v)
unfolding discriminant_of
discriminant_of-Ends (Value.aggregate tag fields) = tt
discriminant_of-Ends _ = tt

switch_value-Ends : (v : Value) → Ends (switch_value v)
unfolding switch_value
switch_value-Ends (bool true) = tt
switch_value-Ends (bool false) = tt
switch_value-Ends (i64 (pos n)) = tt
switch_value-Ends (i64 (negsuc n)) = tt
switch_value-Ends _ = tt

module _ (high : ℕ) where
  write_field-Keeps :
      (base : LocalId) (index : ℕ) (v : Value) → Keeps high (write_field base index v)
  unfolding write_field
  write_field-Keeps base index v = Keeps-bind high _ _ (local_value_mut-Keeps high base) λ slot.
      Keeps-bind high _ _ (slot-Keeps high slot _) λ aggregate.
        Keeps-bind high _ _
          (Keeps-lift high (with_field aggregate index v) (with_field-Ends aggregate index v))
          λ written. write_local-Keeps high base (some written)

  pub assign_place-Keeps : (p : Place) (v : Value) → Keeps high (assign_place p v)
  unfolding assign_place
  assign_place-Keeps (Place.local l) v =
      Keeps-bind high _ _ (local_value_mut-Keeps high l) λ slot. write_local-Keeps high l (some v)
  assign_place-Keeps (Place.field base index) v = write_field-Keeps base index v

  read_place-Keeps : (p : Place) → Keeps high (read_place p)
  unfolding read_place
  read_place-Keeps (Place.local l) = local_value-Keeps high l
  read_place-Keeps (Place.field base index) =
      Keeps-bind high _ _ (local_value-Keeps high base)
        λ aggregate. Keeps-lift high (field_of aggregate index) (field_of-Ends aggregate index)

  drop_place-Keeps : (p : Place) → Keeps high (drop_place p)
  unfolding drop_place
  drop_place-Keeps (Place.local l) =
      Keeps-bind high _ _ (take_local-Keeps high l _) λ v. count_drop-Keeps high
  drop_place-Keeps (Place.field base index) =
      Keeps-bind high _ _ (write_field-Keeps base index _) λ _. count_drop-Keeps high

  module _ (limits : InterpreterLimits) where
    rvalue-Keeps : (v : Rvalue) → Keeps high (rvalue limits v)
    unfolding rvalue
    rvalue-Keeps (borrow mutable place) =
        Keeps-bind high _ _ (read_place-Keeps place) λ v. Keeps-pure high (Value.reference v)
    rvalue-Keeps (use_operand o) = operand-Keeps high limits o
    rvalue-Keeps (discriminant o) =
        Keeps-bind high _ _ (operand-Keeps high limits o)
          λ v. Keeps-lift high (discriminant_of v) (discriminant_of-Ends v)
    rvalue-Keeps (Rvalue.aggregate id tag fields) =
        Keeps-bind high _ _ (operands-Keeps high limits fields) λ vs.
          Keeps-bind high _ _ (charge-Keeps high limits _)
            λ _. Keeps-pure high (Value.aggregate tag vs)
    rvalue-Keeps (binary op left right) = Keeps-bind high _ _ (operand-Keeps high limits left) λ l.
        Keeps-bind high _ _ (operand-Keeps high limits right)
          λ r. Keeps-lift high (Arith.binary op l r) (binary-Ends op l r)

    pub integer_operand-Keeps : (o : Operand) → Keeps high (integer_operand limits o)
    unfolding integer_operand
    integer_operand-Keeps o =
        Keeps-bind high _ _ (operand-Keeps high limits o)
          λ v. Keeps-lift high (switch_value v) (switch_value-Ends v)

    execute_statement-Keeps : (x : Statement) → Keeps high (execute_statement limits x)
    unfolding execute_statement
    execute_statement-Keeps (assign destination value) =
        Keeps-bind high _ _ (rvalue-Keeps value) λ v. assign_place-Keeps destination v
    execute_statement-Keeps (drop place) = drop_place-Keeps place

module _ (limits : InterpreterLimits) (machine : limits.max_instructions < u64_max) where
  -- A tick spends one instruction, or the limit is reached.
  pub tick-Settles :
      (s : State)
      → s.machine.instructions ≤ limits.max_instructions
      → Settles (suc s.machine.instructions) limits.max_instructions (tick limits s)
  unfolding tick
  tick-Settles s le =
      elim (Bool-cases (ltb limits.max_instructions (saturating_add s.machine.instructions 1))) [
        | inl e ↦ rw (e, tick) tt
        | inr e ↦ rw (e, tick) (ground (arith, e, machine, le), ground (arith, e))
      ]

  pub execute_statements-Keeps :
      (functions : List MirFunction) (xs : List Statement)
      → Keeps limits.max_instructions (execute_statements functions limits xs)
  unfolding execute_statements
  execute_statements-Keeps functions [] = Keeps-pure limits.max_instructions tt
  execute_statements-Keeps functions (x ∷ xs) =
      Keeps-bind limits.max_instructions _ _
        (λ s le. Settles-weaken _ _ _ (tick limits s) (omega (arith)) (tick-Settles s le))
        λ _.
          Keeps-bind limits.max_instructions _ _
            (execute_statement-Keeps limits.max_instructions limits x)
            λ _. execute_statements-Keeps functions xs
