-- ===== src/Pipeline/Joins.antt =====
-- Proofs about the fan-out of crates/syllog-runtime/src/pipeline.rs: results and the order in which
-- the branches arrive.
use syllog.Prelude.{
  ℕ, suc, ◌<◌, String, true, List, [], ◌∷◌, ◌++◌, map, Option, none, some, ok, err, ◌≡◌, ◌≢◌, refl,
  sym, ap, subst, ◌∙◌, arith, All,
}
use mathlib.Core.List.{append_assoc, append-nil, Permᴰ}
use syllog.Pipeline.Types.{Stage, StageError, JoinPolicy, PipelineEvent, Shared}
use syllog.Pipeline.Stage.{cancel, is_cancelled}
use syllog.Pipeline.Groups.{
  Arrival, Schedule, get_or_insert, log_events, collect_output, collect_failure, collect,
  collect_all, insert_indexed, sort_indexed, in_order, join_outputs, run_fan_out,
}

-- Outputs under ascending indices.
abbrev pub enumerate : ℕ → List String → List (ℕ × String)
enumerate index [] = []
enumerate index (output ∷ outputs) = (index, output) ∷ enumerate (suc index) outputs

-- The indices differ from one, and from each other.
abbrev Fresh : ℕ → List (ℕ × String) → Type 0
Fresh index results = All (λ r. r.0 ≢ index) results

abbrev Distinct : List (ℕ × String) → Type 0
Distinct [] = Unit
Distinct (x ∷ rest) = Fresh x.0 rest × Distinct rest

insert_indexed_comm :
    (x y : ℕ × String) (rest : List (ℕ × String))
    → x.0 ≢ y.0
    → insert_indexed x (insert_indexed y rest) ≡ insert_indexed y (insert_indexed x rest)
unfolding insert_indexed
insert_indexed_comm x y [] h = ground arith
insert_indexed_comm x y (z ∷ rest) h = ground (arith, insert_indexed_comm x y rest h)

Fresh-Perm : {xs ys : List (ℕ × String)} (n : ℕ) → Permᴰ xs ys → Fresh n xs → Fresh n ys
Fresh-Perm n Permᴰ.nil h = h
Fresh-Perm n (Permᴰ.cons e p) h = (λ q. h.0 (ap (λ r. r.0) e ∙ q), Fresh-Perm n p h.1)
Fresh-Perm n (Permᴰ.swap e f) h =
    (λ q. h.1.0 (ap (λ r. r.0) f ∙ q), (λ q. h.0 (ap (λ r. r.0) e ∙ q), h.1.1))
Fresh-Perm n (Permᴰ.trans p q) h = Fresh-Perm n q (Fresh-Perm n p h)

Distinct-Perm : {xs ys : List (ℕ × String)} → Permᴰ xs ys → Distinct xs → Distinct ys
Distinct-Perm Permᴰ.nil d = d
Distinct-Perm (Permᴰ.cons {a} {b} {l₁} {l₂} e p) d =
    (subst (λ r. Fresh r.0 l₂) e (Fresh-Perm a.0 p d.0), Distinct-Perm p d.1)
Distinct-Perm (Permᴰ.swap {a} {b} {a'} {b'} {l} e f) d =
    subst (λ r. Distinct (r ∷ b' ∷ l)) f
      (subst (λ r. Distinct (b ∷ r ∷ l)) e ((λ q. d.0.0 (sym q), d.1.0), (d.0.1, d.1.1)))
Distinct-Perm (Permᴰ.trans p q) d = Distinct-Perm q (Distinct-Perm p d)

sort_indexed-Perm :
    {xs ys : List (ℕ × String)} → Permᴰ xs ys → Distinct xs → sort_indexed xs ≡ sort_indexed ys
unfolding sort_indexed
sort_indexed-Perm Permᴰ.nil d = refl
sort_indexed-Perm (Permᴰ.cons {a} {b} {l₁} {l₂} e p) d =
    ap (insert_indexed a) (sort_indexed-Perm p d.1) ∙ ap (λ r. insert_indexed r (sort_indexed l₂)) e
sort_indexed-Perm (Permᴰ.swap {a} {b} {a'} {b'} {l} e f) d =
    insert_indexed_comm a b (sort_indexed l) (λ q. d.0.0 (sym q))
    ∙ ap (λ r. insert_indexed r (insert_indexed a (sort_indexed l))) f
    ∙ ap (λ r. insert_indexed a' (insert_indexed r (sort_indexed l))) e
sort_indexed-Perm (Permᴰ.trans p q) d =
    sort_indexed-Perm p d ∙ sort_indexed-Perm q (Distinct-Perm p d)

enumerate-Fresh : (n k : ℕ) (outputs : List String) → n < k → Fresh n (enumerate k outputs)
enumerate-Fresh n k [] h = tt
enumerate-Fresh n k (o ∷ outputs) h =
    (λ e. omega arith, enumerate-Fresh n (suc k) outputs (omega arith))

enumerate-Distinct : (k : ℕ) (outputs : List String) → Distinct (enumerate k outputs)
enumerate-Distinct k [] = tt
enumerate-Distinct k (o ∷ outputs) =
    (enumerate-Fresh k (suc k) outputs (omega arith), enumerate-Distinct (suc k) outputs)

sort_indexed-enumerate :
    (k : ℕ) (outputs : List String) → sort_indexed (enumerate k outputs) ≡ enumerate k outputs
unfolding sort_indexed insert_indexed
sort_indexed-enumerate k [] = refl
sort_indexed-enumerate k (o ∷ []) = refl
sort_indexed-enumerate k (o ∷ p ∷ outputs) =
    rw (sort_indexed-enumerate (suc k) (p ∷ outputs)) (ground arith)

map-enumerate :
    (k : ℕ) (outputs : List String) → map (λ (r : ℕ × String). r.1) (enumerate k outputs) ≡ outputs
map-enumerate k [] = refl
map-enumerate k (o ∷ outputs) = ap (λ rest. o ∷ rest) (map-enumerate (suc k) outputs)

-- The branches that arrive are successes, with these results.
pub data Succeeds : List Arrival → List (ℕ × String) → Type 0 where
  none_left : Succeeds [] []
  arrives :
      (index : ℕ) (output : String) (events : List PipelineEvent) {arrivals : List Arrival}
      {results : List (ℕ × String)}
      → Succeeds arrivals results
      → Succeeds (some (index, ok output, events) ∷ arrivals) ((index, output) ∷ results)

cancel-is_cancelled :
    (shared : Shared) → is_cancelled (cancel shared).cancelled_at (cancel shared).clock ≡ true
unfolding cancel is_cancelled
cancel-is_cancelled shared = ground arith

module _ (capacity : ℕ) where
  collect_all-Succeeds :
      {arrivals : List Arrival} {results : List (ℕ × String)}
      → Succeeds arrivals results
      → (before : List (ℕ × String)) (shared : Shared)
      → (after : Shared) × (collect_all capacity arrivals (before, none, shared)
          ≡ (before ++ results, none, after))
  unfolding collect_all collect collect_output
  collect_all-Succeeds none_left before shared = (shared, rw (append-nil before) refl)
  collect_all-Succeeds (arrives index output events {arrivals} {results} s) before shared =
      let (after, e) =
        collect_all-Succeeds s (before ++ (index, output) ∷ [])
          (log_events capacity events shared) in
      (
        after,
        subst
            (λ all.
              collect_all capacity arrivals
                (before ++ (index, output) ∷ [], none, log_events capacity events shared)
              ≡ (all, none, after))
            (append_assoc before ((index, output) ∷ []) results) e,
      )

  -- The error of the first arrival that is not a success.
  abbrev pub first_failure : List Arrival → Option StageError
  first_failure [] = none
  first_failure (none ∷ arrivals) = some StageError.join
  first_failure (some (index, ok output, events) ∷ arrivals) = first_failure arrivals
  first_failure (some (index, err e, events) ∷ arrivals) = some e

  -- A failure that was met stays, and so does the cancellation.
  collect_all-failed :
      (arrivals : List Arrival) (results : List (ℕ × String)) (e : StageError) (shared : Shared)
      → is_cancelled shared.cancelled_at shared.clock ≡ true
      → (results' : List (ℕ × String)) × (after : Shared) × (collect_all capacity arrivals
            (results, some e, shared)
          ≡ (results', some e, after))
        × (is_cancelled after.cancelled_at after.clock ≡ true)
  unfolding collect_all collect collect_output collect_failure get_or_insert
  collect_all-failed [] results e shared h = (results, shared, refl, h)
  collect_all-failed (none ∷ arrivals) results e shared h =
      collect_all-failed arrivals results e (cancel shared) (cancel-is_cancelled shared)
  collect_all-failed (some (index, ok output, events) ∷ arrivals) results e shared h =
      collect_all-failed arrivals results e (log_events capacity events shared) h
  collect_all-failed (some (index, err e', events) ∷ arrivals) results e shared h =
      collect_all-failed arrivals results e (cancel (log_events capacity events shared))
        (cancel-is_cancelled (log_events capacity events shared))

  collect_all-first :
      (arrivals : List Arrival) (results : List (ℕ × String)) (e : StageError) (shared : Shared)
      → first_failure arrivals ≡ some e
      → (results' : List (ℕ × String)) × (after : Shared) × (collect_all capacity arrivals
            (results, none, shared)
          ≡ (results', some e, after))
        × (is_cancelled after.cancelled_at after.clock ≡ true)
  unfolding collect_all collect collect_output collect_failure get_or_insert
  collect_all-first [] results e shared h = absurd (cc)
  collect_all-first (none ∷ arrivals) results e shared h =
      let same : StageError.join ≡ e = cc in
      subst
        (λ x.
          (results' : List (ℕ × String)) × (after : Shared) × (collect_all capacity
              (none ∷ arrivals) (results, none, shared)
            ≡ (results', some x, after))
          × (is_cancelled after.cancelled_at after.clock ≡ true))
        same
        (collect_all-failed arrivals results StageError.join (cancel shared)
          (cancel-is_cancelled shared))
  collect_all-first (some (index, ok output, events) ∷ arrivals) results e shared h =
      collect_all-first arrivals (results ++ (index, output) ∷ []) e
        (log_events capacity events shared) h
  collect_all-first (some (index, err e', events) ∷ arrivals) results e shared h =
      let same : e' ≡ e = cc in
      let logged = log_events capacity events shared in
      subst
        (λ x.
          (results' : List (ℕ × String)) × (after : Shared) × (collect_all capacity
              (some (index, err e', events) ∷ arrivals) (results, none, shared)
            ≡ (results', some x, after))
          × (is_cancelled after.cancelled_at after.clock ≡ true))
        same (collect_all-failed arrivals results e' (cancel logged) (cancel-is_cancelled logged))

  module _ (schedule : Schedule) (stages : List Stage) (input : String) (shared : Shared) where
    -- Where every branch arrives with a success, in whatever order, a fan-out that preserves the
    -- input order returns the outputs in the order of the branches.
    pub run_fan_out-in_order :
        (outputs : List String) (results : List (ℕ × String))
        → Succeeds (schedule stages input shared).0 results
        → Permᴰ (enumerate 0 outputs) results
        → (run_fan_out capacity schedule stages JoinPolicy.preserve_input_order input shared).0
          ≡ ok outputs
    unfolding run_fan_out join_outputs in_order
    run_fan_out-in_order outputs results s p =
        let (after, e) = collect_all-Succeeds s [] (schedule stages input shared).1 in
        let sorted : sort_indexed results ≡ enumerate 0 outputs =
          sym (sort_indexed-Perm (p) (enumerate-Distinct 0 outputs))
          ∙ sort_indexed-enumerate 0 outputs in
        rw (e, sorted, map-enumerate 0 outputs) refl

    -- A fan-out fails with the error of the first branch to arrive that failed, whatever arrives
    -- before and after it, and leaves the cancellation requested.
    pub run_fan_out-first_failure :
        (policy : JoinPolicy) (e : StageError)
        → first_failure (schedule stages input shared).0 ≡ some e
        → let ran = run_fan_out capacity schedule stages policy input shared in
          (ran.0 ≡ err e) × (is_cancelled ran.1.cancelled_at ran.1.clock ≡ true)
    unfolding run_fan_out join_outputs
    run_fan_out-first_failure policy e h =
        let (results, after, p, c) =
          collect_all-first (schedule stages input shared).0 [] e (schedule stages input shared).1
            h in
        rw p (refl, c)
