-- ===== src/Pipeline/Log.antt =====
-- crates/syllog-runtime/src/pipeline.rs: `LifecycleLog`, a list of events with a capacity. The
-- executor's capacity is not zero, so no event is removed from an empty list.
use syllog.Prelude.{
  ℕ, zero, suc, ◌-◌, ◌<◌, ◌≤◌, Bool, true, false, ◌||◌, List, [], ◌∷◌, ◌++◌, ◌≡◌, refl, ap, sym,
  ◌∙◌, arith, length, length-append, ◌==◌, if◌then◌else◌,
}
use mathlib.Core.List.{append_assoc, append-nil}
use native.Mathlib.Decide.{dec_le}
use syllog.Pipeline.Types.{PipelineEvent}

-- `Vec::remove(0)`
unfoldable pub remove_first : List PipelineEvent → List PipelineEvent
remove_first [] = []
remove_first (e ∷ events) = events

unfoldable pub push : ℕ → List PipelineEvent → PipelineEvent → List PipelineEvent
push capacity events event =
    (if length events == capacity then remove_first events else events) ++ event ∷ []

unfoldable pub extend : ℕ → List PipelineEvent → List PipelineEvent → List PipelineEvent
extend capacity events [] = events
extend capacity events (e ∷ incoming) = extend capacity (push capacity events e) incoming

unfoldable pub is_cancelled_event : PipelineEvent → Bool
is_cancelled_event PipelineEvent.cancelled = true
is_cancelled_event _ = false

-- `events.contains(&PipelineEvent::Cancelled)`
unfoldable pub contains_cancelled : List PipelineEvent → Bool
contains_cancelled [] = false
contains_cancelled (e ∷ events) = is_cancelled_event e || contains_cancelled events

unfoldable pub cancelled : ℕ → List PipelineEvent → List PipelineEvent
cancelled capacity events =
    if contains_cancelled events then events else push capacity events PipelineEvent.cancelled

-- The abstract log: what is left without the first events.
abbrev pub drop : ℕ → List PipelineEvent → List PipelineEvent
drop zero events = events
drop (suc n) [] = []
drop (suc n) (e ∷ events) = drop n events

abbrev pub last_events : ℕ → List PipelineEvent → List PipelineEvent
last_events capacity history = drop (length history - capacity) history

drop-append :
    (n : ℕ) (xs ys : List PipelineEvent) → n ≤ length xs → drop n (xs ++ ys) ≡ drop n xs ++ ys
drop-append zero xs ys h = refl
drop-append (suc n) [] ys h = absurd (omega arith)
drop-append (suc n) (x ∷ xs) ys h = drop-append n xs ys (omega arith)

length-drop : (n : ℕ) (xs : List PipelineEvent) → length (drop n xs) ≡ length xs - n
length-drop zero xs = omega arith
length-drop (suc n) [] = omega arith
length-drop (suc n) (x ∷ xs) = omega (arith, length-drop n xs)

remove_first-drop : (n : ℕ) (xs : List PipelineEvent) → remove_first (drop n xs) ≡ drop (suc n) xs
unfolding remove_first
remove_first-drop zero [] = refl
remove_first-drop zero (x ∷ xs) = refl
remove_first-drop (suc n) [] = refl
remove_first-drop (suc n) (x ∷ xs) = remove_first-drop n xs

push-last_events :
    (capacity : ℕ) (history : List PipelineEvent) (e : PipelineEvent)
    → 0 < capacity
    → push capacity (last_events capacity history) e ≡ last_events capacity (history ++ e ∷ [])
unfolding push
push-last_events capacity history e h =
    let n = length history in
    let sized = length-drop (n - capacity) history in
    let longer : length (history ++ e ∷ []) ≡ suc n =
      omega (arith, length-append history (e ∷ [])) in
    elim (dec_le capacity n) [
      | yes full ↦
          let next : length (history ++ e ∷ []) - capacity ≡ suc (n - capacity) = omega arith in
          let at_capacity : (length (drop (n - capacity) history) == capacity) ≡ true =
            ground arith in
          rw (next, at_capacity, remove_first-drop (n - capacity) history)
            (sym (drop-append (suc (n - capacity)) history (e ∷ []) (omega arith)))
      | no room ↦
          let short : n - capacity ≡ 0 = omega arith in
          let next : length (history ++ e ∷ []) - capacity ≡ 0 = omega arith in
          let below : (length (drop (n - capacity) history) == capacity) ≡ false = ground arith in
          rw (next, below, short) refl
    ]

-- Pushing events into a log that holds the last events of a history leaves the last events of the
-- longer history: the log of positive capacity drops the oldest events and nothing else.
pub extend-last_events :
    (capacity : ℕ) (history incoming : List PipelineEvent)
    → 0 < capacity
    → extend capacity (last_events capacity history) incoming
      ≡ last_events capacity (history ++ incoming)
unfolding extend
extend-last_events capacity history [] h = ap (last_events capacity) (sym (append-nil history))
extend-last_events capacity history (e ∷ incoming) h = rw (push-last_events capacity history e h) (
    extend-last_events capacity (history ++ e ∷ []) incoming h
    ∙ ap (last_events capacity) (append_assoc history (e ∷ []) incoming))
