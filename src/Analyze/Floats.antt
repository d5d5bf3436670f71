-- ===== src/Analyze/Floats.antt =====
-- The arithmetic of scripts/analyze.py: `num`, `clean`, `mean`, `median`, `sd`, `pooled_sd`, the ranks
-- and the correlations.
use fake_big_little.Prelude.{
  ℕ, ◌+◌, ◌-◌, ◌/◌, ◌%◌, Bool, ◌||◌, Option, none, some, List, [], ◌∷◌, ◌++◌, map, ltb, ◌==◌,
  if◌then◌else◌, length, get_elem?, range,
}
use fake_big_little.Prelude.Int.{ℤ}
use fake_big_little.Prelude.Texts.{Text}
use fake_big_little.Json.{Value, int, real, str}

-- Python's `float` and what the script does with it; `ratio m n` is the literal of that value.
pub record Floats (F : Type 0) : Type 0 where
  pub of_ℕ : ℕ → F
  pub of_ℤ : ℤ → F
  pub of_text : Text → Option F
  pub ratio : ℕ → ℕ → F
  pub neg : F → F
  pub add : F → F → F
  pub sub : F → F → F
  pub mul : F → F → F
  pub div : F → F → F
  pub sqrt : F → F
  pub lt : F → F → Bool
  pub le : F → F → Bool
  pub eq : F → F → Bool
  pub is_finite : F → Bool
  pub trunc : F → ℤ

-- `sorted(xs, key=…)`: a stable sort, by whether one item comes before another.
unfoldable pub insert_by : {A : Type 0} → (A → A → Bool) → A → List A → List A
insert_by before x [] = x ∷ []
insert_by before x (y ∷ ys) = if before y x then y ∷ insert_by before x ys else x ∷ y ∷ ys

unfoldable pub sort_by : {A : Type 0} → (A → A → Bool) → List A → List A
unfolding insert_by
sort_by before [] = []
sort_by before (x ∷ xs) = insert_by before x (sort_by before xs)

-- The items that are there.
unfoldable pub somes : {A : Type 0} → List (Option A) → List A
somes [] = []
somes (none ∷ xs) = somes xs
somes (some a ∷ xs) = a ∷ somes xs

module _ {F : Type 0} (ops : Floats F) where
  unfoldable pub finite : F → Option F
  finite x = if ops.is_finite x then some x else none

  -- `num` of a value that may be missing.
  unfoldable pub num : Option Value → Option F
  unfolding finite
  num (some (int n)) = finite (ops.of_ℤ n)
  num (some (real s)) = elim (ops.of_text s) [ none ↦ none | some x ↦ finite x ]
  num (some (str s)) = elim (ops.of_text s) [ none ↦ none | some x ↦ finite x ]
  num _ = none

  -- `clean` of values that are floats already.
  unfoldable pub clean : List (Option F) → List F
  unfolding finite
  clean [] = []
  clean (none ∷ xs) = clean xs
  clean (some x ∷ xs) = if ops.is_finite x then x ∷ clean xs else clean xs

  unfoldable pub sum_from : F → List F → F
  sum_from s [] = s
  sum_from s (x ∷ xs) = sum_from (ops.add s x) xs

  unfoldable pub sum : List F → F
  unfolding sum_from
  sum xs = sum_from (ops.of_ℕ 0) xs

  -- `sum(xs) / len(xs)`
  unfoldable pub average : List F → F
  unfolding sum
  average xs = ops.div (sum xs) (ops.of_ℕ (length xs))

  unfoldable pub mean : List F → Option F
  unfolding average
  mean [] = none
  mean (x ∷ xs) = some (average (x ∷ xs))

  unfoldable pub median : List F → Option F
  unfolding sort_by
  median xs =
      let s = sort_by ops.lt xs in
      let mid = length xs / 2 in
      if length xs % 2 == 1 then get_elem? s mid else elim (get_elem? s (mid - 1)) [
        | none ↦ none
        | some a ↦ elim (get_elem? s mid) [
          | none ↦ none
          | some b ↦ some (ops.mul (ops.ratio 1 2) (ops.add a b))
        ]
      ]

  unfoldable pub abs : F → F
  abs x = if ops.lt x (ops.of_ℕ 0) then ops.neg x else x

  unfoldable pub square : F → F
  square x = ops.mul x x

  -- `sum((x - m) ** 2 for x in xs)`
  unfoldable pub squares : F → List F → F
  unfolding sum square
  squares m xs = sum (map (λ x. square (ops.sub x m)) xs)

  unfoldable pub sd : List F → Option F
  unfolding average squares
  sd xs =
      if ltb (length xs) 2
      then none
      else some (ops.sqrt (ops.div (squares (average xs) xs) (ops.of_ℕ (length xs - 1))))

  -- `((na - 1) * sa * sa + (nb - 1) * sb * sb) / (na + nb - 2)`, under the root
  unfoldable pub pooled_variance : List F → List F → F → F → F
  pooled_variance a b sa sb =
      ops.div
        (ops.add (ops.mul (ops.mul (ops.of_ℕ (length a - 1)) sa) sa)
          (ops.mul (ops.mul (ops.of_ℕ (length b - 1)) sb) sb))
        (ops.of_ℕ (length a + length b - 2))

  unfoldable pub pooled_sd : List F → List F → Option F
  unfolding sd pooled_variance
  pooled_sd a b = elim (sd a) [
    | none ↦ none
    | some sa ↦ elim (sd b) [ none ↦ none | some sb ↦ some (ops.sqrt (pooled_variance a b sa sb)) ]
  ]

  -- Each of the positions gets the mean of the ranks that `i` and the number of positions span.
  unfoldable pub tied : ℕ → List ℕ → List (ℕ × F)
  tied i members =
      let twice = i + (i + length members - 1) in
      let rank = ops.add (ops.div (ops.of_ℕ twice) (ops.of_ℕ 2)) (ops.of_ℕ 1) in
      map (λ k. (k, rank)) members

  -- The loop of `rankdata`: a run of equal values from rank `i` on, and the sorted rest.
  unfoldable pub rank_runs : ℕ → List ℕ → F → List (ℕ × F) → List (ℕ × F)
  unfolding tied
  rank_runs i members v [] = tied i members
  rank_runs i members v ((k, x) ∷ rest) =
      let same = rank_runs i (k ∷ members) v rest in
      let next = rank_runs (i + length members) (k ∷ []) x rest in
      if ops.eq x v then same else tied i members ++ next

  unfoldable pub numbered : {A : Type 0} → ℕ → List A → List (ℕ × A)
  numbered i [] = []
  numbered i (x ∷ xs) = (i, x) ∷ numbered (i + 1) xs

  -- The rank that a position has, or 0.0 as the list starts out.
  unfoldable pub rank_at : List (ℕ × F) → ℕ → F
  rank_at [] k = ops.of_ℕ 0
  rank_at ((j, r) ∷ ranks) k = if j == k then r else rank_at ranks k

  unfoldable pub ranks_of : List (ℕ × F) → List (ℕ × F)
  unfolding rank_runs
  ranks_of [] = []
  ranks_of ((k, x) ∷ rest) = rank_runs 0 (k ∷ []) x rest

  unfoldable pub rankdata : List F → List F
  unfolding ranks_of rank_at numbered sort_by
  rankdata xs =
      let order = sort_by (λ (a b : ℕ × F). ops.lt a.1 b.1) (numbered 0 xs) in
      map (rank_at (ranks_of order)) (range (length xs))

  -- `sum((a - mx) * (b - my) for a, b in zip(xs, ys))`
  unfoldable pub products : F → F → List (F × F) → F
  unfolding sum
  products mx my ps = sum (map (λ (p : F × F). ops.mul (ops.sub p.0 mx) (ops.sub p.1 my)) ps)

  unfoldable pub pearson : List (F × F) → Option F
  unfolding average products squares
  pearson ps =
      let xs = map (λ (p : F × F). p.0) ps in
      let ys = map (λ (p : F × F). p.1) ps in
      let sxx = squares (average xs) xs in
      let syy = squares (average ys) ys in
      if ltb (length ps) 3 || ops.le sxx (ops.of_ℕ 0) || ops.le syy (ops.of_ℕ 0)
      then none
      else some (ops.div (products (average xs) (average ys) ps) (ops.sqrt (ops.mul sxx syy)))

  unfoldable pub both : Option F × Option F → Option (F × F)
  both (some a, some b) = some (a, b)
  both _ = none

  unfoldable pub zip : {A B : Type 0} → List A → List B → List (A × B)
  zip [] ys = []
  zip (x ∷ xs) [] = []
  zip (x ∷ xs) (y ∷ ys) = (x, y) ∷ zip xs ys

  unfoldable pub spearman : List (Option F × Option F) → Option F
  unfolding both somes rankdata pearson zip
  spearman given =
      let pairs = somes (map both given) in
      if ltb (length pairs) 3
      then none
      else pearson (zip (rankdata (map (λ p. p.0) pairs)) (rankdata (map (λ p. p.1) pairs)))

  unfoldable pub max_from : F → List F → F
  max_from m [] = m
  max_from m (x ∷ xs) = max_from (if ops.lt m x then x else m) xs

  unfoldable pub min_from : F → List F → F
  min_from m [] = m
  min_from m (x ∷ xs) = min_from (if ops.lt x m then x else m) xs

  -- `max(xs, default=None)` and `min(xs, default=None)`
  unfoldable pub max : List F → Option F
  unfolding max_from
  max [] = none
  max (x ∷ xs) = some (max_from x xs)

  unfoldable pub min : List F → Option F
  unfolding min_from
  min [] = none
  min (x ∷ xs) = some (min_from x xs)
