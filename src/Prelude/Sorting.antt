-- ===== src/Prelude/Sorting.antt =====
-- Python's `sorted` on numbers, as an insertion sort.
use Prim.Native.Nat.{ℕ, ◌≤◌}
use mathlib.Core.Path.{◌≡◌, refl}
use mathlib.Core.Bool.{◌||◌}
use mathlib.Core.List.{List, [], ◌∷◌}
use native.Mathlib.Omega.{arith}
use fake_big_little.Prelude.Tests.{if◌then◌else◌, ◌==◌, leb}
use fake_big_little.Prelude.Lists.{mem}

unfoldable pub insert_sorted : ℕ → List ℕ → List ℕ
insert_sorted a [] = a ∷ []
insert_sorted a (x ∷ xs) = if leb a x then a ∷ x ∷ xs else x ∷ insert_sorted a xs

unfoldable pub sorted : List ℕ → List ℕ
unfolding insert_sorted
sorted [] = []
sorted (x ∷ xs) = insert_sorted x (sorted xs)

pub mem-insert_sorted : (c a : ℕ) (xs : List ℕ) → mem c (insert_sorted a xs) ≡ (c == a || mem c xs)
unfolding insert_sorted
mem-insert_sorted c a [] = refl
mem-insert_sorted c a (x ∷ xs) = ground (arith, mem-insert_sorted c a xs)

pub mem-sorted : (c : ℕ) (xs : List ℕ) → mem c (sorted xs) ≡ mem c xs
unfolding sorted
mem-sorted c [] = refl
mem-sorted c (x ∷ xs) = ground (arith, mem-insert_sorted c x (sorted xs), mem-sorted c xs)

-- Every element is at least `lo`, and none is below the one before it.
abbrev pub IsAscending : ℕ → List ℕ → Type 0
IsAscending lo [] = Unit
IsAscending lo (x ∷ xs) = (lo ≤ x) × IsAscending x xs

insert_sorted_below :
    (a x : ℕ) (xs : List ℕ) → a ≤ x → IsAscending x xs → insert_sorted a xs ≡ a ∷ xs
unfolding insert_sorted
insert_sorted_below a x [] le h = refl
insert_sorted_below a x (y ∷ ys) le h = ground arith

-- A list in order is not changed.
pub sorted-IsAscending : (lo : ℕ) (xs : List ℕ) → IsAscending lo xs → sorted xs ≡ xs
unfolding sorted
sorted-IsAscending lo [] h = refl
sorted-IsAscending lo (x ∷ xs) h =
    ground (arith, sorted-IsAscending x xs h.1, insert_sorted_below x x xs (omega arith) h.1)
