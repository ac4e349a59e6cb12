-- ===== src/Interpreter/Safety/Frame.antt =====
-- The locals of a frame beside the set of those that hold a value, under each operation of
-- crates/syllog-interpreter/src/lib.rs on places and operands.
use syllog.Prelude.{
  ℕ, ◌<◌, ◌≡◌, ◌∙◌, true, Option, none, some, arith, length, get_elem?, set, length-set,
  get_elem?-set_self, get_elem?-set_ne, get_elem?_of_lt-length, Bool-cases, inl, inr, ==_iff, ◌==◌,
  subst, Option-cases, ltb, saturating_add,
}
use syllog.Ir.Syntax.{LocalId, Place}
use syllog.Ir.Verify.LocalSet.{LocalSet, contains, insert, remove, contains-insert, contains-remove}
use syllog.Ir.Verify.Control.{place_local}
use syllog.Ir.Verify.Dataflow.Fixpoint.{Subset}
use syllog.Ir.Verify.Transfer.{define_place}
use syllog.Interpreter.Value.{Value, get_value?}
use syllog.Interpreter.Machine.{
  InterpreterLimits, TrapMessage, Outcome, done, fail, Locals, State, M, tick, charge_allocation,
  trap_with, pure, field_base_empty,
}
use syllog.Interpreter.Eval.{
  lift, local_value, local_value_mut, write_local, take_local, field_of, with_field, write_field,
  assign_place,
}
use syllog.Interpreter.Safety.{Ensures, Ensures-bind}

abbrev pub Covers : LocalSet → Locals → Type 0
Covers held locals =
    (l : LocalId) → contains held l ≡ true → (v : Value) × (get_elem? locals l ≡ some (some v))

Covers-remove :
    (held : LocalSet) (locals : Locals) (l : LocalId)
    → Covers held locals
    → Covers (remove held l) (set locals l none)
Covers-remove held locals l h k m =
    let m' = contains-remove held l k in
    let (v, e) = h k (ground arith) in
    (v, get_elem?-set_ne locals none (λ same. ground (arith, (==_iff l k).1 same)) ∙ e)

pub Covers-insert :
    (held : LocalSet) (locals : Locals) (l : LocalId) (v : Value)
    → l < length locals
    → Covers held locals
    → Covers (insert held l) (set locals l (some v))
Covers-insert held locals l v lt h k m = elim (Bool-cases (l == k)) [
  | inl same ↦ (
    v,
    subst (λ x. get_elem? (set locals l (some v)) x ≡ some (some v)) ((==_iff l k).0 same)
        (get_elem?-set_self locals l (some v) lt),
  )
  | inr other ↦
      let (w, e) = h k (ground (arith, contains-insert held l k)) in
      (w, get_elem?-set_ne locals (some v) (λ same. cc ((==_iff l k).1 same)) ∙ e)
]

-- A write to a local leaves it and all others with the values that they must hold.
Covers-write :
    (held : LocalSet) (locals : Locals) (l : LocalId) (v : Value)
    → l < length locals
    → Covers held locals
    → Covers held (set locals l (some v))
Covers-write held locals l v lt h k m =
    Covers-insert held locals l v lt h k (ground (arith, contains-insert held l k))

take_local-some :
    (l : LocalId) (message : TrapMessage) (s : State) (v : Value)
    → get_elem? s.locals l ≡ some (some v)
    → take_local l message s ≡ done (v, record s { locals = set s.locals l none })
unfolding take_local
take_local-some l message s v e = ground arith

pub record Frame (n : ℕ) (held : LocalSet) (s : State) : Type 0 where
  pub size : length s.locals ≡ n
  pub covers : Covers held s.locals

pub Frame-weaken :
    (n : ℕ) (held kept : LocalSet) (s : State) → Subset kept held → Frame n held s → Frame n kept s
Frame-weaken n held kept s sub frame = record {
  size = frame.size;
  covers = λ l h. frame.covers l (sub l h);
}

-- The result of an action that leaves such a frame.
abbrev pub Leaves : {A : Type 0} → ℕ → LocalSet → A × State → Type 0
Leaves n held r = Frame n held r.1

module _ (n : ℕ) (held : LocalSet) (s : State) (frame : Frame n held s) where
  pub tick-Leaves : (limits : InterpreterLimits) → Ensures (Leaves n held) (tick limits s)
  unfolding tick
  tick-Leaves limits =
      elim (Bool-cases (ltb limits.max_instructions (saturating_add s.machine.instructions 1))) [
        | inl e ↦ rw (e, tick) tt
        | inr e ↦ rw (e, tick) (record { size = frame.size; covers = frame.covers })
      ]

  pub charge-Leaves :
      (limits : InterpreterLimits) (bytes : ℕ)
      → Ensures (Leaves n held) (charge_allocation limits bytes s)
  unfolding charge_allocation
  charge-Leaves limits bytes =
      elim (Bool-cases
        (ltb limits.max_allocated_bytes (saturating_add s.machine.allocated_bytes bytes))) [
          | inl e ↦ rw (e, charge_allocation) tt
          | inr e ↦ rw (e, charge_allocation) (record { size = frame.size; covers = frame.covers })
        ]

  pub local_value-Leaves :
      (l : LocalId) → contains held l ≡ true → Ensures (Leaves n held) (local_value l s)
  unfolding local_value
  local_value-Leaves l h = let (v, e) = frame.covers l h in rw (e, local_value) frame

  pub take_local-Leaves :
      (l : LocalId) (message : TrapMessage)
      → contains held l ≡ true
      → Ensures (Leaves n (remove held l)) (take_local l message s)
  unfolding take_local
  take_local-Leaves l message h =
      let (v, e) = frame.covers l h in
      rw (take_local-some l message s v e) (record {
        size = length-set s.locals l none ∙ frame.size;
        covers = Covers-remove held s.locals l frame.covers;
      })

  local_value_mut-Leaves : (l : LocalId) → l < n → Ensures (Leaves n held) (local_value_mut l s)
  unfolding local_value_mut
  local_value_mut-Leaves l lt =
      let (slot, e) = get_elem?_of_lt-length s.locals l (omega (arith, frame.size)) in
      rw (e, local_value_mut) frame

  define_local-Leaves :
      (l : LocalId) (v : Value)
      → l < n
      → Ensures (Leaves n (insert held l)) (write_local l (some v) s)
  unfolding write_local
  define_local-Leaves l v lt = record {
    size = length-set s.locals l (some v) ∙ frame.size;
    covers = Covers-insert held s.locals l v (omega (arith, frame.size)) frame.covers;
  }

  write_local-Leaves :
      (l : LocalId) (v : Value) → l < n → Ensures (Leaves n held) (write_local l (some v) s)
  unfolding write_local
  write_local-Leaves l v lt = record {
    size = length-set s.locals l (some v) ∙ frame.size;
    covers = Covers-write held s.locals l v (omega (arith, frame.size)) frame.covers;
  }

  -- A result of its own, or a trap that is allowed.
  pub lift-Leaves :
      {A : Type 0} (r : Outcome A) → Ensures (λ _. Unit {0}) r → Ensures (Leaves n held) (lift r s)
  lift-Leaves (done a) h = frame
  lift-Leaves (fail e) h = h
  lift-Leaves Outcome.panic h = h
  lift-Leaves Outcome.out_of_fuel h = tt

  slot-Leaves :
      (slot : Option Value)
      → Ensures (Leaves n held) (
          let m : M Value = elim slot [ none ↦ trap_with field_base_empty | some v ↦ pure v ] in
          m s)
  slot-Leaves none = tt
  slot-Leaves (some v) = frame

with_field_lem :
    (v : Value) (index : ℕ) (value : Value) → Ensures (λ _. Unit {0}) (with_field v index value)
unfolding with_field
with_field_lem (Value.aggregate tag fields) index value =
    elim (Option-cases (get_value? fields index)) [
      | inl e ↦ rw (e, with_field) tt
      | inr (w, e) ↦ rw (e, with_field) tt
    ]
with_field_lem Value.unit index value = tt
with_field_lem _ index value = tt

pub field_of_lem : (v : Value) (index : ℕ) → Ensures (λ _. Unit {0}) (field_of v index)
unfolding field_of
field_of_lem (Value.aggregate tag fields) index = elim (Option-cases (get_value? fields index)) [
  | inl e ↦ rw (e, field_of) tt
  | inr (w, e) ↦ rw (e, field_of) tt
]
field_of_lem Value.unit index = tt
field_of_lem _ index = tt

module _ (n : ℕ) (held : LocalSet) where
  -- A write of one field traps where the base holds no aggregate with that field.
  pub write_field-Leaves :
      (s : State) (base : LocalId) (index : ℕ) (value : Value)
      → Frame n held s
      → base < n
      → Ensures (Leaves n held) (write_field base index value s)
  unfolding write_field
  write_field-Leaves s base index value frame lt =
      Ensures-bind (Leaves n held) (Leaves n held) _ _
        (local_value_mut-Leaves n held s frame base lt)
        λ slot s₁ f₁.
          Ensures-bind (Leaves n held) (Leaves n held) _ _ (slot-Leaves n held s₁ f₁ slot)
            λ aggregate s₂ f₂.
              Ensures-bind (Leaves n held) (Leaves n held) _ _
                (lift-Leaves n held s₂ f₂ (with_field aggregate index value)
                  (with_field_lem aggregate index value))
                λ written s₃ f₃. write_local-Leaves n held s₃ f₃ base written lt

  pub assign_place-Leaves :
      (s : State) (p : Place) (value : Value)
      → Frame n held s
      → place_local p < n
      → Ensures (Leaves n (define_place p held)) (assign_place p value s)
  unfolding assign_place define_place place_local
  assign_place-Leaves s (Place.field base index) value frame lt =
      write_field-Leaves s base index value frame lt
  assign_place-Leaves s (Place.local l) value frame lt =
      Ensures-bind (Leaves n held) (Leaves n (insert held l)) _ _
        (local_value_mut-Leaves n held s frame l lt)
        λ slot s₁ f₁. define_local-Leaves n held s₁ f₁ l value lt
