-- ===== src/Interpreter/Safety/Steps.antt =====
-- Operands, computations and statements of crates/syllog-interpreter/src/lib.rs, run on a frame that
-- holds the values that they read.
use syllog.Prelude.{
  ℕ, suc, ap, ◌≡◌, refl, Bool, true, false, List, [], ◌∷◌, arith, length, if◌then◌else◌,
  lt-length_of_get_elem?,
}
use syllog.Prelude.Int.{pos, negsuc}
use syllog.Ir.Syntax.{
  Constant, Operand, constant, copy, move, Place, BinaryOp, add, subtract, multiply, divide, equal,
  less, and, or, Rvalue, borrow, use_operand, binary, discriminant, Statement, assign, drop,
  MirFunction,
}
use syllog.Ir.Verify.LocalSet.{LocalSet, contains, remove, contains-remove}
use syllog.Ir.Verify.Control.{place_local}
use syllog.Ir.Verify.Transfer.{
  consume_operand, consume_operands, consume_rvalue, define_place, transfer_statement,
  transfer_statements,
}
use syllog.Ir.Verify.Safety.{Readable, AllReadable, RvalueReadable, StatementSafe, StatementsSafe}
use syllog.Interpreter.Value.{Value, Values, values_length, bool, i64, u64, unit}
use syllog.Interpreter.Machine.{
  InterpreterLimits, moved_local_empty, drop_target_empty, RuntimeError, Outcome, done, fail, State,
}
use syllog.Interpreter.Arith
use syllog.Interpreter.Eval.{
  constant_value, operand, operands, field_of, read_place, drop_place, discriminant_of,
  switch_value, rvalue, integer_operand, execute_statement,
}
use syllog.Interpreter.Run.{execute_statements}
use syllog.Interpreter.Safety.{ErrorAllowed, Ensures, Ensures-bind}
use syllog.Interpreter.Safety.Frame.{
  Frame, Frame-weaken, Leaves, tick-Leaves, charge-Leaves, local_value-Leaves, take_local-Leaves,
  lift-Leaves, field_of_lem, write_field-Leaves, assign_place-Leaves,
}

abbrev Harmless : Outcome Value → Type 0
Harmless = Ensures (λ _. Unit {0})

test_lem :
    (b : Bool) (v : Value) (e : RuntimeError)
    → ErrorAllowed e
    → Harmless (if b then done v else fail e)
test_lem true v e h = tt
test_lem false v e h = h

binary_lem : (op : BinaryOp) (left right : Value) → Harmless (Arith.binary op left right)
unfolding Arith.binary
binary_lem add (u64 a) (u64 b) = test_lem _ _ _ tt
binary_lem add (i64 a) (i64 b) = test_lem _ _ _ tt
binary_lem add _ _ = tt
binary_lem subtract (u64 a) (u64 b) = ground arith
binary_lem subtract (i64 a) (i64 b) = test_lem _ _ _ tt
binary_lem subtract _ _ = tt
binary_lem multiply (u64 a) (u64 b) = test_lem _ _ _ tt
binary_lem multiply (i64 a) (i64 b) = test_lem _ _ _ tt
binary_lem multiply _ _ = tt
binary_lem divide (u64 a) (u64 b) = ground arith
binary_lem divide (i64 a) (i64 b) = ground arith
binary_lem divide _ _ = tt
binary_lem equal _ _ = tt
binary_lem less (u64 a) (u64 b) = tt
binary_lem less (i64 a) (i64 b) = tt
binary_lem less _ _ = tt
binary_lem and (bool a) (bool b) = tt
binary_lem and _ _ = tt
binary_lem or (bool a) (bool b) = tt
binary_lem or _ _ = tt

discriminant_of_lem : (v : Value) → Ensures (λ _. Unit {0}) (discriminant_of v)
unfolding discriminant_of
discriminant_of_lem (Value.aggregate tag fields) = tt
discriminant_of_lem _ = tt

switch_value_lem : (v : Value) → Ensures (λ _. Unit {0}) (switch_value v)
unfolding switch_value
switch_value_lem (bool true) = tt
switch_value_lem (bool false) = tt
switch_value_lem (i64 (pos n)) = tt
switch_value_lem (i64 (negsuc n)) = tt
switch_value_lem _ = tt

-- As many values as operands, beside the frame.
abbrev pub LeavesValues : ℕ → LocalSet → ℕ → Values × State → Type 0
LeavesValues n held count r = Frame n held r.1 × (values_length r.0 ≡ count)

module _ (limits : InterpreterLimits) (n : ℕ) where
  operand-Leaves :
      (held : LocalSet) (s : State) (o : Operand)
      → Frame n held s
      → Readable o held
      → Ensures (Leaves n (consume_operand o held)) (operand limits o s)
  unfolding operand constant_value consume_operand
  operand-Leaves held s (copy l) frame h = local_value-Leaves n held s frame l h
  operand-Leaves held s (move l) frame h = take_local-Leaves n held s frame l moved_local_empty h
  operand-Leaves held s (constant (Constant.string text)) frame h =
      Ensures-bind (Leaves n held) (Leaves n held) _ _ (charge-Leaves n held s frame limits _)
        λ _ s₁ f₁. f₁
  operand-Leaves held s (constant Constant.unit) frame h = frame
  operand-Leaves held s (constant _) frame h = frame

  pub operands-Leaves :
      (held : LocalSet) (s : State) (os : List Operand)
      → Frame n held s
      → AllReadable os held
      → Ensures (LeavesValues n (consume_operands os held) (length os)) (operands limits os s)
  unfolding operands consume_operands
  operands-Leaves held s [] frame h = (frame, refl)
  operands-Leaves held s (o ∷ os) frame h =
      let here = consume_operand o held in
      let rest = consume_operands os here in
      let count = length os in
      Ensures-bind (Leaves n here) (LeavesValues n rest (suc count)) _ _
        (operand-Leaves held s o frame h.0)
        λ v s₁ f₁.
          Ensures-bind (LeavesValues n rest count) (LeavesValues n rest (suc count)) _ _
            (operands-Leaves here s₁ os f₁ h.1) λ vs s₂ f₂. (f₂.0, ap suc f₂.1)

  read_place-Leaves :
      (held : LocalSet) (s : State) (p : Place)
      → Frame n held s
      → contains held (place_local p) ≡ true
      → Ensures (Leaves n held) (read_place p s)
  unfolding read_place place_local
  read_place-Leaves held s (Place.local l) frame h = local_value-Leaves n held s frame l h
  read_place-Leaves held s (Place.field base index) frame h =
      Ensures-bind (Leaves n held) (Leaves n held) _ _ (local_value-Leaves n held s frame base h)
        λ aggregate s₁ f₁.
          lift-Leaves n held s₁ f₁ (field_of aggregate index) (field_of_lem aggregate index)

  rvalue-Leaves :
      (held : LocalSet) (s : State) (v : Rvalue)
      → Frame n held s
      → RvalueReadable v held
      → Ensures (Leaves n (consume_rvalue v held)) (rvalue limits v s)
  unfolding rvalue consume_rvalue
  rvalue-Leaves held s (borrow mutable place) frame h =
      Ensures-bind (Leaves n held) (Leaves n held) _ _ (read_place-Leaves held s place frame h)
        λ v s₁ f₁. f₁
  rvalue-Leaves held s (use_operand o) frame h = operand-Leaves held s o frame h
  rvalue-Leaves held s (discriminant o) frame h =
      let after = consume_operand o held in
      Ensures-bind (Leaves n after) (Leaves n after) _ _ (operand-Leaves held s o frame h)
        λ v s₁ f₁. lift-Leaves n after s₁ f₁ (discriminant_of v) (discriminant_of_lem v)
  rvalue-Leaves held s (Rvalue.aggregate id tag fields) frame h =
      let after = consume_operands fields held in
      Ensures-bind (LeavesValues n after (length fields)) (Leaves n after) _ _
        (operands-Leaves held s fields frame h)
        λ vs s₁ f₁.
          Ensures-bind (Leaves n after) (Leaves n after) _ _
            (charge-Leaves n after s₁ f₁.0 limits _) λ _ s₂ f₂. f₂
  rvalue-Leaves held s (binary op left right) frame h =
      let middle = consume_operand left held in
      let after = consume_operand right middle in
      Ensures-bind (Leaves n middle) (Leaves n after) _ _ (operand-Leaves held s left frame h.0)
        λ l s₁ f₁.
          Ensures-bind (Leaves n after) (Leaves n after) _ _ (operand-Leaves middle s₁ right f₁ h.1)
            λ r s₂ f₂. lift-Leaves n after s₂ f₂ (Arith.binary op l r) (binary_lem op l r)

  pub integer_operand-Leaves :
      (held : LocalSet) (s : State) (o : Operand)
      → Frame n held s
      → Readable o held
      → Ensures (Leaves n (consume_operand o held)) (integer_operand limits o s)
  unfolding integer_operand
  integer_operand-Leaves held s o frame h =
      let after = consume_operand o held in
      Ensures-bind (Leaves n after) (Leaves n after) _ _ (operand-Leaves held s o frame h)
        λ v s₁ f₁. lift-Leaves n after s₁ f₁ (switch_value v) (switch_value_lem v)

  drop_place-Leaves :
      (held : LocalSet) (s : State) (p : Place)
      → Frame n held s
      → contains held (place_local p) ≡ true
      → Ensures (Leaves n (remove held (place_local p))) (drop_place p s)
  unfolding drop_place place_local
  drop_place-Leaves held s (Place.local l) frame h =
      let after = remove held l in
      Ensures-bind (Leaves n after) (Leaves n after) _ _
        (take_local-Leaves n held s frame l drop_target_empty h)
        λ v s₁ f₁. record { size = f₁.size; covers = f₁.covers }
  drop_place-Leaves held s (Place.field base index) frame h =
      let after = remove held base in
      Ensures-bind (Leaves n held) (Leaves n after) _ _
        (write_field-Leaves n held s base index unit frame
          (omega (arith, frame.size, lt-length_of_get_elem? s.locals base (frame.covers base h).1)))
        λ _ s₁ f₁.
          Frame-weaken n held after _ (λ l m. ground (arith, contains-remove held base l))
            (record { size = f₁.size; covers = f₁.covers })

  execute_statement-Leaves :
      (functions : List MirFunction) (f : MirFunction) (held : LocalSet) (s : State) (x : Statement)
      → length f.locals ≡ n
      → Frame n held s
      → StatementSafe functions f x held
      → Ensures (Leaves n (transfer_statement x held)) (execute_statement limits x s)
  unfolding execute_statement transfer_statement
  execute_statement-Leaves functions f held s (drop place) size frame h =
      drop_place-Leaves held s place frame h
  execute_statement-Leaves functions f held s (assign destination value) size frame h =
      let middle = consume_rvalue value held in
      let after = define_place destination middle in
      Ensures-bind (Leaves n middle) (Leaves n after) _ _ (rvalue-Leaves held s value frame h.0)
        λ v s₁ f₁. assign_place-Leaves n middle s₁ destination v f₁ (omega (arith, size, h.1))

  pub execute_statements-Leaves :
      (functions : List MirFunction) (f : MirFunction) (held : LocalSet) (s : State)
      (xs : List Statement)
      → length f.locals ≡ n
      → Frame n held s
      → StatementsSafe functions f xs held
      → Ensures (Leaves n (transfer_statements xs held)) (execute_statements functions limits xs s)
  unfolding execute_statements transfer_statements
  execute_statements-Leaves functions f held s [] size frame h = frame
  execute_statements-Leaves functions f held s (x ∷ xs) size frame h =
      let middle = transfer_statement x held in
      let after = transfer_statements xs middle in
      Ensures-bind (Leaves n held) (Leaves n after) _ _ (tick-Leaves n held s frame limits)
        λ _ s₁ f₁.
          Ensures-bind (Leaves n middle) (Leaves n after) _ _
            (execute_statement-Leaves functions f held s₁ x size f₁ h.0)
            λ _ s₂ f₂. execute_statements-Leaves functions f middle s₂ xs size f₂ h.1
