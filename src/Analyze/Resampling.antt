-- ===== src/Analyze/Resampling.antt =====
-- `bootstrap_ci`, `mean_ci` and `diff_ci` of scripts/analyze.py. The random numbers are
-- given as the resamples and the permutations that they make.
pub mod Bootstrap
use fake_big_little.Prelude.{
  ℕ, zero, suc, ◌+◌, ◌-◌, ◌*◌, ◌≡◌, Bool, true, false, not, ◌&&◌, ◌||◌, Option, none, some, List,
  [], ◌∷◌, ◌++◌, map, ltb, leb, ◌==◌, if◌then◌else◌, length, get_elem?, any, range, keep, take,
  drop,
}
use fake_big_little.Prelude.Int.{ℤ, pos, pos_part}
use fake_big_little.Analyze.Floats.{
  Floats, sum, average, squares, square, sort_by, pooled_sd, mean, somes,
}
use fake_big_little.Analyze.Distributions.{Special, norm_cdf, norm_ppf}

pub data Method : Type 0 where
  bca percentile : Method

-- `dict(point, lo, hi, method)`
pub record Interval (F : Type 0) : Type 0 where
  pub point : Option F
  pub lo : Option F
  pub hi : Option F
  pub method : Option Method

-- What `random.Random(seed)` gives: the resample of a group, by the number of the replicate and of
-- the group, and the permutations of the pooled values one after the other; and what the
-- distributions take from `math`, with the power 1.5 of a double.
pub record Chance (F : Type 0) : Type 0 where
  pub choices : ℕ → ℕ → List F → List F
  pub shuffle : ℕ → List F → List F
  pub n_boot : ℕ
  pub n_perm : ℕ
  pub special : Special F
  pub pow_3_2 : F → F

abbrev pub no_interval : {F : Type 0} → Interval F
no_interval = record { point = none; lo = none; hi = none; method = none }

module _ {F : Type 0} (ops : Floats F) (chance : Chance F) where
  abbrev zero_f : F
  zero_f = ops.of_ℕ 0

  abbrev one : F
  one = ops.of_ℕ 1

  abbrev between : F → F → F → F
  between a b frac = ops.add (ops.mul a (ops.sub one frac)) (ops.mul b frac)

  -- `_percentile_of_sorted`
  unfoldable pub percentile_of_sorted : List F → F → Option F
  percentile_of_sorted [] q = none
  percentile_of_sorted (x ∷ []) q = some x
  percentile_of_sorted (x ∷ y ∷ s) q =
      let n = length s + 2 in
      let idx = ops.mul q (ops.of_ℕ (n - 1)) in
      let lo = pos_part (ops.trunc idx) in
      let hi = if ltb (lo + 1) (n - 1) then lo + 1 else n - 1 in
      elim (get_elem? (x ∷ y ∷ s) lo) [
        | none ↦ none
        | some a ↦ elim (get_elem? (x ∷ y ∷ s) hi) [
          | none ↦ none
          | some b ↦ some (between a b (ops.sub idx (ops.of_ℕ lo)))
        ]
      ]

  unfoldable pub resample : ℕ → ℕ → List (List F) → List (List F)
  resample b g [] = []
  resample b g (xs ∷ groups) = chance.choices b g xs ∷ resample b (g + 1) groups

  -- The replicates of the statistic.
  unfoldable pub replicates : (List (List F) → F) → List (List F) → List F
  unfolding resample
  replicates stat groups = map (λ b. stat (resample b 0 groups)) (range chance.n_boot)

  -- A group without its `i`-th value, for each `i`.
  unfoldable pub leave_one_out : List F → List F → List (List F)
  leave_one_out done [] = []
  leave_one_out done (x ∷ xs) = (done ++ xs) ∷ leave_one_out (done ++ x ∷ []) xs

  -- The loop of the jackknife over the groups; `none` where a group is too small.
  unfoldable pub jackknife : (List (List F) → F) → List (List F) → List (List F) → Option (List F)
  unfolding leave_one_out
  jackknife stat done [] = some []
  jackknife stat done (g ∷ groups) = elim (jackknife stat (done ++ g ∷ []) groups) [
    | none ↦ none
    | some later ↦
        if ltb (length g) 3
        then none
        else some (map (λ red. stat (done ++ red ∷ groups)) (leave_one_out [] g) ++ later)
  ]

  abbrev cubes : F → List F → F
  cubes m xs = sum ops (map (λ v. ops.mul (ops.mul (ops.sub m v) (ops.sub m v)) (ops.sub m v)) xs)

  abbrev deviations : F → List F → F
  deviations m xs = sum ops (map (λ v. ops.mul (ops.sub m v) (ops.sub m v)) xs)

  -- The acceleration: the skewness of the jackknife values.
  unfoldable pub skewness : List F → Option F
  skewness jack =
      let jm = average ops jack in
      let d2 = deviations jm jack in
      if leb 3 (length jack) && ops.lt zero_f d2
      then some (ops.div (cubes jm jack) (ops.mul (ops.of_ℕ 6) (chance.pow_3_2 d2)))
      else none

  unfoldable pub acceleration : (List (List F) → F) → List (List F) → Option F
  unfolding jackknife skewness
  acceleration stat groups = elim (jackknife stat [] groups) [
    | none ↦ none
    | some jack ↦ skewness jack
  ]

  -- `norm_cdf(z0 + (z0 + za) / denom)`, unless the denominator is 0
  unfoldable pub adjusted : F → F → F → Option F
  adjusted accel z0 za =
      let denom = ops.sub one (ops.mul accel (ops.add z0 za)) in
      if ops.eq denom zero_f
      then none
      else some (norm_cdf ops chance.special (ops.add z0 (ops.div (ops.add z0 za) denom)))

  abbrev pub alpha_half : F
  alpha_half = ops.div (ops.ratio 5 100) (ops.of_ℕ 2)

  -- The two adjusted levels, where they are usable.
  unfoldable pub bca_levels : F → F → Option (F × F)
  unfolding adjusted
  bca_levels prop accel =
      let z0 = norm_ppf ops chance.special prop in
      elim (adjusted accel z0 (norm_ppf ops chance.special alpha_half)) [
        | none ↦ none
        | some a1 ↦
            elim (adjusted accel z0 (norm_ppf ops chance.special (ops.sub one alpha_half))) [
              | none ↦ none
              | some a2 ↦
                  if ops.lt zero_f a1 && ops.lt a1 a2 && ops.lt a2 one then some (a1, a2) else none
            ]
      ]

  -- The share of the replicates below the point estimate, those at it counted half.
  unfoldable pub share_below : F → List F → F
  share_below theta reps =
      ops.div
        (ops.add (ops.of_ℕ (length (keep (λ r. ops.lt r theta) reps)))
          (ops.mul (ops.ratio 1 2) (ops.of_ℕ (length (keep (λ r. ops.eq r theta) reps)))))
        (ops.of_ℕ (length reps))

  unfoldable pub levels : (List (List F) → F) → List (List F) → List F → Option (F × F)
  unfolding acceleration bca_levels share_below
  levels stat groups reps =
      let prop = share_below (stat groups) reps in
      if ops.lt zero_f prop && ops.lt prop one
      then elim (acceleration stat groups) [ none ↦ none | some accel ↦ bca_levels prop accel ]
      else none

  unfoldable pub interval_at : F → List F → Method → F × F → Interval F
  unfolding percentile_of_sorted
  interval_at theta reps method (a, b) = record {
    point = some theta;
    lo = percentile_of_sorted reps a;
    hi = percentile_of_sorted reps b;
    method = some method;
  }

  -- With the fallback, labelled as such.
  unfoldable pub interval_from : F → List F → Option (F × F) → Interval F
  unfolding interval_at
  interval_from theta reps (some ab) = interval_at theta reps bca ab
  interval_from theta reps none =
      interval_at theta reps percentile (alpha_half, ops.sub one alpha_half)

  unfoldable pub interval_of : (List (List F) → F) → List (List F) → List F → Interval F
  unfolding levels interval_from
  interval_of stat groups reps = interval_from (stat groups) reps (levels stat groups reps)

  -- For a statistic that no resample of the groups makes fail.
  unfoldable pub bootstrap_ci : (List (List F) → F) → List (List F) → Interval F
  unfolding replicates sort_by interval_of
  bootstrap_ci stat [] = no_interval
  bootstrap_ci stat (g ∷ groups) =
      let reps = replicates stat (g ∷ groups) in
      if any (λ xs. ltb (length xs) 2) (g ∷ groups)
      then no_interval
      else if ltb (length reps) 100
      then record { point = some (stat (g ∷ groups)); lo = none; hi = none; method = none }
      else interval_of stat (g ∷ groups) (sort_by ops.lt reps)

  -- `sum(g[i]) / len(g[i])`
  abbrev average_of_group : List (List F) → ℕ → F
  average_of_group groups i = elim (get_elem? groups i) [ none ↦ zero_f | some g ↦ average ops g ]

  unfoldable pub mean_ci : List F → Interval F
  unfolding bootstrap_ci average
  mean_ci xs = bootstrap_ci (λ g. average_of_group g 0) (xs ∷ [])

  unfoldable pub diff_ci : List F → List F → Interval F
  unfolding bootstrap_ci average
  diff_ci control arm =
      bootstrap_ci (λ g. ops.sub (average_of_group g 1) (average_of_group g 0)) (control ∷ arm ∷ [])
