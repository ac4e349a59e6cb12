-- ===== src/Ir/Verify/LocalSet.antt =====
-- `BTreeSet<LocalId>` as the list of its elements, ascending, and the operations that verify.rs
-- uses of it.
use mathlib.Core.Bool.{not}
use syllog.Prelude.{
  ℕ, zero, suc, ◌+◌, ◌≤◌, ◌<◌, ◌≡◌, refl, ap, inl, inr, Bool, true, false, ◌&&◌, ◌||◌, List, [],
  ◌∷◌, ◌++◌, arith, ltb, ◌==◌, ==_iff, if◌then◌else◌, length, Bool-cases,
}
use syllog.Ir.Syntax.{LocalId}

abbrev pub LocalSet : Type 0
LocalSet = List LocalId

unfoldable pub contains : LocalSet → LocalId → Bool
contains [] l = false
contains (x ∷ s) l = x == l || contains s l

unfoldable pub insert : LocalSet → LocalId → LocalSet
insert [] l = l ∷ []
insert (x ∷ s) l =
    let rest = insert s l in if ltb l x then l ∷ x ∷ s else if l == x then x ∷ s else x ∷ rest

unfoldable pub remove : LocalSet → LocalId → LocalSet
remove [] l = []
remove (x ∷ s) l = let rest = remove s l in if x == l then rest else x ∷ rest

-- The elements of the first set that the second contains.
unfoldable pub intersection : LocalSet → LocalSet → LocalSet
intersection [] t = []
intersection (x ∷ s) t = let rest = intersection s t in if contains t x then x ∷ rest else rest

unfoldable pub set_eq : LocalSet → LocalSet → Bool
set_eq [] [] = true
set_eq (x ∷ s) (y ∷ t) = x == y && set_eq s t
set_eq _ _ = false

-- The numbers `first`, `first + 1`, …, as many as `count`.
unfoldable pub range : ℕ → ℕ → LocalSet
range first zero = []
range first (suc count) = first ∷ range (first + 1) count

pub contains-insert :
    (s : LocalSet) (l k : LocalId) → contains (insert s l) k ≡ (l == k || contains s k)
unfolding contains insert
contains-insert [] l k = refl
contains-insert (x ∷ s) l k = ground (arith, contains-insert s l k)

pub contains-remove :
    (s : LocalSet) (l k : LocalId) → contains (remove s l) k ≡ (not (l == k) && contains s k)
unfolding contains remove
contains-remove [] l k = ground arith
contains-remove (x ∷ s) l k = ground (arith, contains-remove s l k)

-- To remove what is not there changes nothing.
pub remove_absent : (s : LocalSet) (l : LocalId) → contains s l ≡ false → remove s l ≡ s
unfolding contains remove
remove_absent [] l h = refl
remove_absent (x ∷ s) l h = ground (arith, remove_absent s l)

pub contains-intersection :
    (s t : LocalSet) (k : LocalId) → contains (intersection s t) k ≡ (contains s k && contains t k)
unfolding contains intersection
contains-intersection [] t k = refl
contains-intersection (x ∷ s) t k = elim (Bool-cases (x == k)) [
  | inl e ↦ ground (arith, contains-intersection s t k, ap (contains t) ((==_iff x k).0 e))
  | inr e ↦ ground (arith, contains-intersection s t k)
]

pub set_eq→eq : (s t : LocalSet) → set_eq s t ≡ true → s ≡ t
unfolding set_eq
set_eq→eq [] [] h = refl
set_eq→eq (x ∷ s) (y ∷ t) h = ground (arith, set_eq→eq s t)
set_eq→eq [] (y ∷ t) h = absurd (cc)
set_eq→eq (x ∷ s) [] h = absurd (cc)

pub length-intersection-le : (s t : LocalSet) → length (intersection s t) ≤ length s
unfolding intersection
length-intersection-le [] t = omega arith
length-intersection-le (x ∷ s) t = ground (arith, length-intersection-le s t)

-- An intersection that differs from the set is smaller.
pub length-intersection-lt :
    (s t : LocalSet) → set_eq (intersection s t) s ≡ false → length (intersection s t) < length s
unfolding intersection set_eq
length-intersection-lt [] t h = absurd (cc)
length-intersection-lt (x ∷ s) t h =
    ground (arith, length-intersection-lt s t, length-intersection-le s t)

pub contains-range :
    (first count k : ℕ) → contains (range first count) k ≡ true → (first ≤ k) × (k < first + count)
unfolding contains range
contains-range first zero k h = absurd (cc)
contains-range first (suc count) k h = ground (arith, contains-range (first + 1) count k)

pub contains-append :
    (s t : LocalSet) (k : LocalId) → contains (s ++ t) k ≡ (contains s k || contains t k)
unfolding contains
contains-append [] t k = refl
contains-append (x ∷ s) t k = ground (arith, contains-append s t k)
