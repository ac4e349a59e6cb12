-- ===== src/Interpreter/Arith.antt =====
-- crates/syllog-interpreter/src/lib.rs: `Machine::binary`, over checked 64-bit arithmetic.
use syllog.Prelude.{
  ℕ, ◌+◌, ◌-◌, ◌*◌, ◌/◌, ◌^◌, Bool, ◌&&◌, ◌||◌, ltb, leb, ◌==◌, if◌then◌else◌, u64_max,
}
use syllog.Prelude.Int.{ℤ, pos_part, neg_part, ◌+ℤ◌, ◌-ℤ◌, ◌*ℤ◌, ◌/ℤ◌, ltb_ℤ}
use syllog.Ir.Syntax.{BinaryOp, add, subtract, multiply, divide, equal, less, and, or}
use syllog.Interpreter.Value.{Value, bool, i64, u64, value_eq}
use syllog.Interpreter.Machine

-- `checked_add` and its like for `u64`, on the exact result.
abbrev pub checked_u64 : ℕ → Machine.TrapMessage → Machine.Outcome Value
checked_u64 n message =
    if leb n u64_max then Machine.done (u64 n) else Machine.fail (Machine.trap message)

abbrev pub in_i64 : ℤ → Bool
in_i64 n = leb (pos_part n) (2 ^ 63 - 1) && leb (neg_part n) (2 ^ 63)

abbrev pub checked_i64 : ℤ → Machine.TrapMessage → Machine.Outcome Value
checked_i64 n message =
    if in_i64 n then Machine.done (i64 n) else Machine.fail (Machine.trap message)

abbrev is_zero : ℤ → Bool
is_zero n = pos_part n == 0 && neg_part n == 0

unfoldable pub binary : BinaryOp → Value → Value → Machine.Outcome Value
binary add (u64 a) (u64 b) = checked_u64 (a + b) Machine.u64_addition_overflow
binary subtract (u64 a) (u64 b) =
    if ltb a b
    then Machine.fail (Machine.trap Machine.u64_subtraction_overflow)
    else Machine.done (u64 (a - b))
binary multiply (u64 a) (u64 b) = checked_u64 (a * b) Machine.u64_multiplication_overflow
binary divide (u64 a) (u64 b) =
    if b == 0
    then Machine.fail (Machine.trap Machine.u64_division_by_zero)
    else Machine.done (u64 (a / b))
binary add (i64 a) (i64 b) = checked_i64 (a +ℤ b) Machine.i64_addition_overflow
binary subtract (i64 a) (i64 b) = checked_i64 (a -ℤ b) Machine.i64_subtraction_overflow
binary multiply (i64 a) (i64 b) = checked_i64 (a *ℤ b) Machine.i64_multiplication_overflow
binary divide (i64 a) (i64 b) =
    if is_zero b
    then Machine.fail (Machine.trap Machine.i64_division_failure)
    else checked_i64 (a /ℤ b) Machine.i64_division_failure
binary equal left right = Machine.done (bool (value_eq left right))
binary less (u64 a) (u64 b) = Machine.done (bool (ltb a b))
binary less (i64 a) (i64 b) = Machine.done (bool (ltb_ℤ a b))
binary and (bool a) (bool b) = Machine.done (bool (a && b))
binary or (bool a) (bool b) = Machine.done (bool (a || b))
binary _ _ _ = Machine.fail (Machine.trap Machine.invalid_binary_types)
