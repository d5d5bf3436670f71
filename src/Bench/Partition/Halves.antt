-- ===== src/Bench/Partition/Halves.antt =====
-- `default_partition` of scripts/bench.py: the lower-numbered cores become big.
use fake_big_little.Prelude.{
  ℕ, zero, suc, ◌/◌, ◌≤◌, ◌<◌, ◌≡◌, refl, sym, ◌∙◌, inl, inr, Bool, true, false, ◌||◌, List, [],
  ◌∷◌, arith, ◌==◌, leb, if◌then◌else◌, mem, mem-range_from, range, map, take, length, Bool-cases,
}
use Prim.Native.Nat.{max}
use fake_big_little.Prelude.Sorting.{sorted, insert_sorted, mem-sorted}
use fake_big_little.Bench.Partition.{distinct, big_cores, default_partition, mem-big}

-- Every element is at least `lo`, and above the one before it.
abbrev Rises : ℕ → List ℕ → Type 0
Rises lo [] = Unit
Rises lo (x ∷ xs) = (lo ≤ x) × Rises (suc x) xs

abbrev Differ : List ℕ → Type 0
Differ [] = Unit
Differ (x ∷ xs) = (mem x xs ≡ false) × Differ xs

insert_sorted-Rises :
    (lo a : ℕ) (xs : List ℕ)
    → lo ≤ a
    → mem a xs ≡ false
    → Rises lo xs
    → Rises lo (insert_sorted a xs)
unfolding insert_sorted
insert_sorted-Rises lo a [] le m h = (le, tt)
insert_sorted-Rises lo a (x ∷ xs) le m h = choose (leb a x) refl (insert_sorted-Rises (suc x) a xs)
  where
    choose :
        (b : Bool)
        → leb a x ≡ b
        → (suc x ≤ a → mem a xs ≡ false → Rises (suc x) xs → Rises (suc x) (insert_sorted a xs))
        → Rises lo (if b then a ∷ x ∷ xs else x ∷ insert_sorted a xs)
    choose true e k = (le, (ground arith, h.1))
    choose false e k = (h.0, k (ground arith) (ground arith) h.1)

sorted-Rises : (xs : List ℕ) → Differ xs → Rises 0 (sorted xs)
unfolding sorted
sorted-Rises [] h = tt
sorted-Rises (x ∷ xs) h =
    insert_sorted-Rises 0 x (sorted xs) (omega arith) (mem-sorted x xs ∙ h.0) (sorted-Rises xs h.1)

distinct-Differ : (xs : List ℕ) → Differ (distinct xs)
unfolding distinct
distinct-Differ [] = tt
distinct-Differ (x ∷ xs) = choose (mem x (distinct xs)) refl (distinct-Differ xs)
  where
    choose :
        (b : Bool)
        → mem x (distinct xs) ≡ b
        → Differ (distinct xs)
        → Differ (if b then distinct xs else x ∷ distinct xs)
    choose true e h = h
    choose false e h = (e, h)

mem-distinct : (c : ℕ) (xs : List ℕ) → mem c (distinct xs) ≡ mem c xs
unfolding distinct
mem-distinct c [] = refl
mem-distinct c (x ∷ xs) = elim (Bool-cases (c == x)) [
  | inl e ↦ let same : x ≡ c = ground arith in rw same (choose_same (mem c (distinct xs)) refl)
  | inr e ↦ choose (mem x (distinct xs)) e (mem-distinct c xs)
]
  where
    choose_same :
        (b : Bool)
        → mem c (distinct xs) ≡ b
        → mem c (if b then distinct xs else c ∷ distinct xs) ≡ (c == c || mem c xs)
    choose_same true e = ground arith
    choose_same false e = ground arith

    choose :
        (b : Bool)
        → (c == x) ≡ false
        → mem c (distinct xs) ≡ mem c xs
        → mem c (if b then distinct xs else x ∷ distinct xs) ≡ (c == x || mem c xs)
    choose true e h = ground arith
    choose false e h = ground arith

Rises-above : (lo d : ℕ) (xs : List ℕ) → Rises lo xs → mem d xs ≡ true → lo ≤ d
Rises-above lo d [] h m = cc
Rises-above lo d (x ∷ xs) h m = elim (Bool-cases (d == x)) [
  | inl e ↦ ground arith
  | inr e ↦
      let above : suc x ≤ d = Rises-above (suc x) d xs h.1 (ground arith) in
      let le = h.0 in omega arith
]

-- What is taken from a rising list is below what is not.
below_rest :
    (k lo c d : ℕ) (xs : List ℕ)
    → Rises lo xs
    → mem c (take k xs) ≡ true
    → mem d (take k xs) ≡ false
    → mem d xs ≡ true
    → c < d
below_rest zero lo c d xs h mc nd md = cc
below_rest (suc k) lo c d [] h mc nd md = cc
below_rest (suc k) lo c d (x ∷ xs) h mc nd md = elim (Bool-cases (c == x)) [
  | inl e ↦ let above : suc x ≤ d = Rises-above (suc x) d xs h.1 (ground arith) in ground arith
  | inr e ↦ below_rest k (suc x) c d xs h.1 (ground arith) (ground arith) (ground arith)
]

mem-map : (f : ℕ → ℕ) (c : ℕ) (xs : List ℕ) → mem c xs ≡ true → mem (f c) (map f xs) ≡ true
mem-map f c [] h = cc
mem-map f c (x ∷ xs) h = elim (Bool-cases (c == x)) [
  | inl e ↦ let same : x ≡ c = ground arith in rw same (ground arith)
  | inr e ↦ let rest : mem (f c) (map f xs) ≡ true = mem-map f c xs (ground arith) in ground arith
]

-- A big CPU's core is numbered below the core of any CPU that is not big.
pub default_partition_halves :
    (n : ℕ) (core_id : ℕ → ℕ) (c d : ℕ)
    → c < n
    → d < n
    → mem c (default_partition n core_id).0 ≡ true
    → mem d (default_partition n core_id).0 ≡ false
    → core_id c < core_id d
default_partition_halves n core_id c d hc hd mc md =
    let cores = distinct (map core_id (range n)) in
    let on_core : mem (core_id d) (sorted cores) ≡ true =
      mem-sorted (core_id d) cores
      ∙ mem-distinct (core_id d) (map core_id (range n))
      ∙ mem-map core_id d (range n) (mem-range_from d 0 n ∙ ground arith) in
    below_rest (max 1 (length (sorted cores) / 2)) 0 (core_id c) (core_id d) (sorted cores)
      (sorted-Rises cores (distinct-Differ (map core_id (range n))))
      (unfold big_cores in sym (mem-big n core_id c hc) ∙ mc)
      (unfold big_cores in sym (mem-big n core_id d hd) ∙ md) on_core
