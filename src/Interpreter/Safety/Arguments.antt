-- ===== src/Interpreter/Safety/Arguments.antt =====
-- The frame of a call in crates/syllog-interpreter/src/lib.rs, filled with the arguments, and the
-- target that a switch chooses.
use syllog.Prelude.{
  ℕ, ◌+◌, ◌<◌, ◌≡◌, refl, ◌∙◌, true, List, [], ◌∷◌, ◌++◌, map, Option, none, some, arith, length,
  set, replicate, length-set, length-replicate, Bool-cases, inl, inr, ◌==◌,
}
use syllog.Ir.Syntax.{BlockId, MirFunction}
use syllog.Ir.Verify.LocalSet.{LocalSet, contains, insert, range, contains-insert}
use syllog.Ir.Verify.Dataflow.{parameters}
use syllog.Ir.Verify.Dataflow.Fixpoint.{Subset}
use syllog.Interpreter.Value.{Value, Values, nil, cons, values_length}
use syllog.Interpreter.Machine.{done, Locals}
use syllog.Interpreter.Run.{fill, switch_target}
use syllog.Interpreter.Safety.Frame.{Covers, Covers-insert}

-- The locals that the arguments are written to, beside those of a set.
filled : ℕ → Values → LocalSet → LocalSet
filled index nil held = held
filled index (cons v vs) held = filled (index + 1) vs (insert held (index + 1))

filled-Subset : (index : ℕ) (vs : Values) (held : LocalSet) → Subset held (filled index vs held)
unfolding filled
filled-Subset index nil held l h = h
filled-Subset index (cons v vs) held l h =
    filled-Subset (index + 1) vs (insert held (index + 1)) l
      (ground (arith, contains-insert held (index + 1) l))

filled-range :
    (index : ℕ) (vs : Values) (held : LocalSet)
    → Subset (range (index + 1) (values_length vs)) (filled index vs held)
unfolding filled range contains
filled-range index nil held l h = absurd (cc)
filled-range index (cons v vs) held l h = elim (Bool-cases (index + 1 == l)) [
  | inl same ↦
      filled-Subset (index + 1) vs (insert held (index + 1)) l
        (ground (arith, contains-insert held (index + 1) l))
  | inr other ↦ filled-range (index + 1) vs (insert held (index + 1)) l (rw other at h)
]

-- Arguments that fit behind the return local are all written.
fill_lem :
    (index : ℕ) (vs : Values) (locals : Locals) (held : LocalSet)
    → index + values_length vs < length locals
    → Covers held locals
    → (t : Locals) × (fill index vs locals ≡ done t)
      × (length t ≡ length locals)
      × Covers (filled index vs held) t
unfolding fill filled
fill_lem index nil locals held fits h = (locals, refl, refl, h)
fill_lem index (cons v vs) locals held fits h =
    let (t, e, size, covers) =
      fill_lem (index + 1) vs (set locals (index + 1) (some v)) (insert held (index + 1))
        (omega (arith, length-set locals (index + 1) (some v)))
        (Covers-insert held locals (index + 1) v (omega arith) h) in
    (t, ground arith, size ∙ length-set locals (index + 1) (some v), covers)

-- A new frame with the arguments in it holds the parameters.
pub arguments_lem :
    (g : MirFunction) (vs : Values)
    → values_length vs ≡ g.parameter_count
    → g.parameter_count < length g.locals
    → (t : Locals) × (fill 0 vs (replicate (length g.locals) none) ≡ done t)
      × (length t ≡ length g.locals)
      × Covers (parameters g) t
unfolding parameters contains
arguments_lem g vs count fits =
    let size = length-replicate {A = Option Value} (length g.locals) none in
    let (t, e, size', covers) =
      fill_lem 0 vs (replicate (length g.locals) none) [] (omega arith) (λ l h. absurd (cc h)) in
    (t, e, size' ∙ size, λ l h. covers l (filled-range 0 vs [] l (rw count h)))

pub switch_target-successor :
    (n : ℕ) (targets : List (ℕ × BlockId)) (otherwise : BlockId)
    → contains (map (λ t. t.1) targets ++ otherwise ∷ []) (switch_target n targets otherwise) ≡ true
unfolding switch_target contains
switch_target-successor n [] otherwise = ground arith
switch_target-successor n ((candidate, target) ∷ targets) otherwise =
    elim (Bool-cases (candidate == n)) [
      | inl same ↦ rw same (ground arith)
      | inr other ↦ rw other (ground (arith, switch_target-successor n targets otherwise))
    ]
