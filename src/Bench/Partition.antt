-- ===== src/Bench/Partition.antt =====
-- `topology` and `default_partition` of scripts/bench.py: big and little CPUs by physical core.
pub mod Halves
use fake_big_little.Prelude.{
  ℕ, ◌/◌, ◌<◌, ◌≡◌, not, List, [], ◌∷◌, arith, if◌then◌else◌, mem, mem-keep, mem-range_from, keep,
  range, map, take, length,
}
use Prim.Native.Nat.{max}
use fake_big_little.Prelude.Sorting.{sorted, mem-sorted}

-- `set(xs)`, kept as the list of its elements
unfoldable pub distinct : List ℕ → List ℕ
distinct [] = []
distinct (x ∷ xs) = let rest = distinct xs in if mem x rest then rest else x ∷ rest

-- The first half of the physical cores, and at least one.
unfoldable pub big_cores : ℕ → (ℕ → ℕ) → List ℕ
unfolding distinct
big_cores n core_id =
    let cores = sorted (distinct (map core_id (range n))) in take (max 1 (length cores / 2)) cores

-- `(big, little)` for `n` CPUs, where CPU `c` is on core `core_id c`.
unfoldable pub default_partition : ℕ → (ℕ → ℕ) → List ℕ × List ℕ
unfolding big_cores
default_partition n core_id =
    let is_big = λ (c : ℕ). mem (core_id c) (big_cores n core_id) in
    (sorted (keep is_big (range n)), sorted (keep (λ c. not (is_big c)) (range n)))

module _ (n : ℕ) (core_id : ℕ → ℕ) where
  -- `c` is big just if its core is.
  pub mem-big :
      (c : ℕ)
      → c < n
      → mem c (default_partition n core_id).0 ≡ mem (core_id c) (big_cores n core_id)
  unfolding default_partition
  mem-big c h =
      let is_big = λ (i : ℕ). mem (core_id i) (big_cores n core_id) in
      rw (mem-sorted c (keep is_big (range n)), mem-keep is_big c (range n), mem-range_from c 0 n)
        (ground arith)

  mem-little :
      (c : ℕ)
      → c < n
      → mem c (default_partition n core_id).1 ≡ not (mem (core_id c) (big_cores n core_id))
  unfolding default_partition
  mem-little c h =
      let is_little = λ (i : ℕ). not (mem (core_id i) (big_cores n core_id)) in
      rw
        (
          mem-sorted c (keep is_little (range n)),
          mem-keep is_little c (range n),
          mem-range_from c 0 n,
        )
        (ground arith)

  -- Each CPU is in exactly one of the two lists.
  pub default_partition_splits :
      (c : ℕ)
      → c < n
      → mem c (default_partition n core_id).1 ≡ not (mem c (default_partition n core_id).0)
  default_partition_splits c h = rw (mem-little c h, mem-big c h)

  -- Two CPUs of one physical core are on the same side.
  pub default_partition_keeps_siblings :
      (c d : ℕ)
      → c < n
      → d < n
      → core_id c ≡ core_id d
      → mem c (default_partition n core_id).0 ≡ mem d (default_partition n core_id).0
  default_partition_keeps_siblings c d hc hd e = rw (mem-big c hc, mem-big d hd, e)
