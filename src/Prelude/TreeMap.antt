-- ===== src/Prelude/TreeMap.antt =====
-- `BTreeMap` and `BTreeSet` as lists in the order of their keys, and the interface of a key.
use Prim.Native.String.{String}
use Prim.Native.String
use text.Mathlib.Text.{is_lt, ◌==◌ as string_eq}
use text.Mathlib.TextEquality.{eq_iff}
use mathlib.Core.Path.{◌≡◌, refl}
use mathlib.Core.Logic.{◌↔◌, ◌⊎◌, inl, inr}
use mathlib.Core.Bool.{Bool, true, false, ◌||◌}
use mathlib.Core.Option.{Option, none, some}
use mathlib.Core.List.{List, [], ◌∷◌}
use native.Mathlib.Omega.{arith}
use syllog.Prelude.Lists.{All}
use syllog.Prelude.Tests.{Bool-cases, if-cases, if◌then◌else◌}

-- What the order of a map needs of its keys: a strict order and an equality, of which the laws use
-- the equality only.
pub record Key (K : Type 0) : Type 0 where
  pub lt : K → K → Bool
  pub eq : K → K → Bool
  pub eq_iff : (a b : K) → (eq a b ≡ true) ↔ (a ≡ b)

instance unfoldable pub String-Key : Key String
String-Key = record { lt = λ a b. is_lt (String.compare a b); eq = string_eq; eq_iff = eq_iff }

abbrev pub TreeMap : Type 0 → Type 0 → Type 0
TreeMap K V = List (K × V)

abbrev pub TreeSet : Type 0 → Type 0
TreeSet K = List K

module _ {K V : Type 0} ⦃key : Key K⦄ where
  unfoldable pub lookup : K → TreeMap K V → Option V
  lookup k [] = none
  lookup k ((j, v) ∷ m) = if key.eq j k then some v else lookup k m

  unfoldable pub insert : K → V → TreeMap K V → TreeMap K V
  insert k v [] = (k, v) ∷ []
  insert k v ((j, w) ∷ m) =
      let rest = insert k v m in
      if key.lt k j then (k, v) ∷ (j, w) ∷ m else if key.eq j k then (k, v) ∷ m else (j, w) ∷ rest

  pub lookup-insert :
      (k j : K) (v : V) (m : TreeMap K V)
      → lookup j (insert k v m) ≡ (if key.eq k j then some v else lookup j m)
  unfolding lookup insert
  lookup-insert k j v [] = refl
  lookup-insert k j v ((x, w) ∷ m) =
      ground (arith, lookup-insert k j v m, key.eq_iff k j, key.eq_iff x j, key.eq_iff x k)

  -- What a lookup finds in a map with an entry in front or with a key set.
  pub lookup-cons-inv :
      (k j : K) (v w : V) (m : TreeMap K V)
      → lookup j ((k, v) ∷ m) ≡ some w
      → ((k ≡ j) × (v ≡ w)) ⊎ (lookup j m ≡ some w)
  unfolding lookup
  lookup-cons-inv k j v w m h = elim (Bool-cases (key.eq k j)) [
    | inl e ↦ inl ((key.eq_iff k j).0 e, ground arith)
    | inr e ↦ inr (ground arith)
  ]

  pub lookup-insert-inv :
      (k j : K) (v w : V) (m : TreeMap K V)
      → lookup j (insert k v m) ≡ some w
      → ((k ≡ j) × (v ≡ w)) ⊎ (lookup j m ≡ some w)
  lookup-insert-inv k j v w m h = elim (Bool-cases (key.eq k j)) [
    | inl e ↦ inl ((key.eq_iff k j).0 e, ground (arith, lookup-insert k j v m))
    | inr e ↦ inr (ground (arith, lookup-insert k j v m))
  ]

  -- A predicate of the keys.
  pub insert-All :
      (P : K → Type 0) (k : K) (v : V) (m : TreeMap K V)
      → P k
      → All (λ (e : K × V). P e.0) m
      → All (λ (e : K × V). P e.0) (insert k v m)
  unfolding insert
  insert-All P k v [] p h = (p, tt)
  insert-All P k v ((j, w) ∷ m) p h =
      if-cases (All (λ (e : K × V). P e.0)) (key.lt k j) (λ _. (p, h))
        (λ _.
          if-cases (All (λ (e : K × V). P e.0)) (key.eq j k) (λ _. (p, h.1))
            (λ _. (h.0, insert-All P k v m p h.1)))

module _ {K : Type 0} ⦃key : Key K⦄ where
  unfoldable pub member : TreeSet K → K → Bool
  member [] k = false
  member (x ∷ s) k = key.eq x k || member s k

  unfoldable pub add : K → TreeSet K → TreeSet K
  add k [] = k ∷ []
  add k (x ∷ s) =
      let rest = add k s in if key.lt k x then k ∷ x ∷ s else if key.eq x k then x ∷ s else x ∷ rest

  -- `extend`.
  unfoldable pub union : TreeSet K → TreeSet K → TreeSet K
  union s [] = s
  union s (x ∷ t) = union (add x s) t

  pub member-add : (k j : K) (s : TreeSet K) → member (add k s) j ≡ (key.eq k j || member s j)
  unfolding member add
  member-add k j [] = refl
  member-add k j (x ∷ s) =
      ground (arith, member-add k j s, key.eq_iff k j, key.eq_iff x j, key.eq_iff x k)

  pub member-union : (s t : TreeSet K) (j : K) → member (union s t) j ≡ (member s j || member t j)
  unfolding member union
  member-union s [] j = ground arith
  member-union s (x ∷ t) j = ground (arith, member-union (add x s) t j, member-add x j s)
