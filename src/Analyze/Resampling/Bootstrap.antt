-- ===== src/Analyze/Resampling/Bootstrap.antt =====
-- `bootstrap_ci` and `permutation_p` of scripts/analyze.py: what their results rest on.
use fake_big_little.Prelude.{
  ℕ, zero, suc, ◌+◌, ◌≤◌, ◌≡◌, refl, Bool, true, false, ◌&&◌, ◌||◌, Option, none, some, List, [],
  ◌∷◌, arith, ltb, if◌then◌else◌, length, take, drop, any, keep, ◌++◌,
}
use mathlib.Core.Path.{subst}
use fake_big_little.Analyze.Floats.{abs, Floats, sort_by, average}
use fake_big_little.Analyze.Resampling.{
  Chance, Interval, bca, percentile, no_interval, percentile_of_sorted, replicates, levels,
  bca_levels, interval_at, interval_of, interval_from, bootstrap_ci, acceleration, share_below,
  adjusted, alpha_half,
}
use fake_big_little.Analyze.Distributions.{norm_cdf, norm_ppf}
use fake_big_little.Analyze.Effects.{count_hits, permutation_p}

module _ {F : Type 0} (ops : Floats F) (chance : Chance F) where
  -- The pooled values as the permutations leave them one after the other.
  abbrev pub permutations : ℕ → ℕ → List F → List (List F)
  permutations zero i pooled = []
  permutations (suc rounds) i pooled =
      chance.shuffle i pooled ∷ permutations rounds (i + 1) (chance.shuffle i pooled)

  -- The size of the difference of the means, where the first `n0` values are the control's.
  abbrev pub difference : ℕ → List F → F
  difference n0 xs = abs ops (ops.sub (average ops (drop n0 xs)) (average ops (take n0 xs)))

  -- As large as the observed one, up to the rounding of doubles.
  abbrev pub as_large : F → ℕ → List F → Bool
  as_large obs n0 xs = ops.le (ops.sub obs (ops.ratio 1 1000000000000000)) (difference n0 xs)

  length-if :
      (b : Bool) (x : List F) (xs : List (List F)) (k : ℕ)
      → k ≡ length xs
      → (if b then k + 1 else k) ≡ length (if b then x ∷ xs else xs)
  length-if true x xs k h = omega (arith, h)
  length-if false x xs k h = h

  count_hits-as_large :
      (rounds i : ℕ) (obs : F) (n0 : ℕ) (pooled : List F)
      → count_hits ops chance rounds i obs n0 pooled
        ≡ length (keep (as_large obs n0) (permutations rounds i pooled))
  unfolding count_hits
  count_hits-as_large zero i obs n0 pooled = refl
  count_hits-as_large (suc rounds) i obs n0 pooled =
      let xs = chance.shuffle i pooled in
      length-if (as_large obs n0 xs) xs (keep (as_large obs n0) (permutations rounds (i + 1) xs))
        (count_hits ops chance rounds (i + 1) obs n0 xs)
        (count_hits-as_large rounds (i + 1) obs n0 xs)

  -- The permutations of the pooled values whose difference is as large as that of the two lists.
  abbrev pub hits_of : List F → List F → List (List F)
  hits_of control arm =
      keep (as_large (abs ops (ops.sub (average ops arm) (average ops control))) (length control))
        (permutations chance.n_perm 0 (control ++ arm))

  -- Between two values or more on each side there is a p-value: one more than the number of the
  -- permutations of all values whose difference of the means is as large as the observed one, up to
  -- the rounding of doubles, over one more than the number of permutations.
  pub permutation_p_counts :
      (control arm : List F)
      → 2 ≤ length control
      → 2 ≤ length arm
      → permutation_p ops chance control arm
        ≡ some (
            ops.div
              (ops.add (ops.of_ℕ 1) (ops.of_ℕ (length (hits_of control arm))))
              (ops.add (ops.of_ℕ chance.n_perm) (ops.of_ℕ 1)))
  unfolding permutation_p
  permutation_p_counts control arm hc ha =
      let enough : (ltb (length control) 2 || ltb (length arm) 2) ≡ false = ground arith in
      rw
        (
          enough,
          count_hits-as_large chance.n_perm 0
              (abs ops (ops.sub (average ops arm) (average ops control))) (length control)
              (control ++ arm),
        )
        refl

  -- Efron's adjusted level of the normal quantile `z`, for the bias `z0` and the acceleration.
  abbrev pub bca_level : F → F → F → F
  bca_level accel z0 z =
      norm_cdf ops chance.special
        (ops.add z0 (ops.div (ops.add z0 z) (ops.sub (ops.of_ℕ 1) (ops.mul accel (ops.add z0 z)))))

  abbrev Ordered : F × F → Type 0
  Ordered ab =
      (ops.lt (ops.of_ℕ 0) ab.0 ≡ true)
      × (ops.lt ab.0 ab.1 ≡ true)
      × (ops.lt ab.1 (ops.of_ℕ 1) ≡ true)

  -- The two levels of a bias and an acceleration, of which the first is the smaller one.
  abbrev Levels : F → F → F × F → Type 0
  Levels prop accel ab =
      Ordered ab
      × ((ab.0
            ≡ bca_level accel (norm_ppf ops chance.special prop)
                (norm_ppf ops chance.special (alpha_half ops chance)))
          × (ab.1
              ≡ bca_level accel (norm_ppf ops chance.special prop)
                  (norm_ppf ops chance.special (ops.sub (ops.of_ℕ 1) (alpha_half ops chance)))))

  adjusted-bca_level :
      (accel z0 z a : F) → adjusted ops chance accel z0 z ≡ some a → a ≡ bca_level accel z0 z
  unfolding adjusted
  adjusted-bca_level accel z0 z a h =
      choose (ops.eq (ops.sub (ops.of_ℕ 1) (ops.mul accel (ops.add z0 z))) (ops.of_ℕ 0)) h
    where
      choose :
          (b : Bool)
          → (if b then none else some (bca_level accel z0 z)) ≡ some a
          → a ≡ bca_level accel z0 z
      choose true e = absurd (cc)
      choose false e = cc

  both_levels : Option F → Option F → Option (F × F)
  both_levels x y = elim x [
    | none ↦ none
    | some a1 ↦ elim y [
      | none ↦ none
      | some a2 ↦
          if ops.lt (ops.of_ℕ 0) a1 && ops.lt a1 a2 && ops.lt a2 (ops.of_ℕ 1)
          then some (a1, a2)
          else none
    ]
  ]

  both_levels-Ordered :
      (x y : Option F) (ab : F × F)
      → both_levels x y ≡ some ab
      → Ordered ab × ((x ≡ some ab.0) × (y ≡ some ab.1))
  unfolding both_levels
  both_levels-Ordered none y ab h = absurd (cc)
  both_levels-Ordered (some a) none ab h = absurd (cc)
  both_levels-Ordered (some a) (some b) ab h =
      choose (ops.lt (ops.of_ℕ 0) a) (ops.lt a b) (ops.lt b (ops.of_ℕ 1)) refl refl refl h
    where
      choose :
          (p q r : Bool)
          → ops.lt (ops.of_ℕ 0) a ≡ p
          → ops.lt a b ≡ q
          → ops.lt b (ops.of_ℕ 1) ≡ r
          → (if p && q && r then some (a, b) else none) ≡ some ab
          → Ordered ab × ((some a ≡ some ab.0) × (some b ≡ some ab.1))
      choose true true true i j k e =
          let same : (a, b) ≡ ab = cc in
          subst (λ (u : F × F). Ordered u × ((some a ≡ some u.0) × (some b ≡ some u.1))) same
            ((i, j, k), (refl, refl))
      choose false q r i j k e = absurd (cc)
      choose true false r i j k e = absurd (cc)
      choose true true false i j k e = absurd (cc)

  bca_levels-Levels :
      (prop accel : F) (ab : F × F)
      → bca_levels ops chance prop accel ≡ some ab
      → Levels prop accel ab
  unfolding bca_levels both_levels
  bca_levels-Levels prop accel ab h =
      let z0 = norm_ppf ops chance.special prop in
      let za = norm_ppf ops chance.special (alpha_half ops chance) in
      let zb = norm_ppf ops chance.special (ops.sub (ops.of_ℕ 1) (alpha_half ops chance)) in
      let (o, (x, y)) =
        both_levels-Ordered (adjusted ops chance accel z0 za) (adjusted ops chance accel z0 zb) ab
          h in
      (o, (adjusted-bca_level accel z0 za ab.0 x, adjusted-bca_level accel z0 zb ab.1 y))

  -- The levels come from a share of the replicates that is neither 0 nor 1 and an acceleration.
  abbrev Computed : (List (List F) → F) → List (List F) → List F → F × F → Type 0
  Computed stat groups reps ab =
      (accel : F) × ((acceleration ops chance stat groups ≡ some accel)
        × Levels (share_below ops chance (stat groups) reps) accel ab)

  levels-Computed :
      (stat : List (List F) → F) (groups : List (List F)) (reps : List F) (ab : F × F)
      → levels ops chance stat groups reps ≡ some ab
      → Computed stat groups reps ab
  unfolding levels
  levels-Computed stat groups reps ab h =
      on_share (ops.lt (ops.of_ℕ 0) prop && ops.lt prop (ops.of_ℕ 1))
        (acceleration ops chance stat groups) refl h
    where
      prop : F
      prop = share_below ops chance (stat groups) reps

      on_accel :
          (accel : Option F)
          → acceleration ops chance stat groups ≡ accel
          → elim accel [ none ↦ none | some x ↦ bca_levels ops chance prop x ] ≡ some ab
          → Computed stat groups reps ab
      on_accel none e k = absurd (cc)
      on_accel (some x) e k = (x, (e, bca_levels-Levels prop x ab k))

      on_share :
          (b : Bool) (accel : Option F)
          → acceleration ops chance stat groups ≡ accel
          → (if b then elim accel [ none ↦ none | some x ↦ bca_levels ops chance prop x ] else none)
            ≡ some ab
          → Computed stat groups reps ab
      on_share true accel e k = on_accel accel e k
      on_share false accel e k = absurd (cc)

  module _ (stat : List (List F) → F) (groups : List (List F)) where
    -- The sorted replicates.
    abbrev pub sorted_reps : List F
    sorted_reps = sort_by ops.lt (replicates ops chance stat groups)

    -- The bias: the normal quantile of the share of the replicates below the estimate.
    abbrev pub bias : F
    bias = norm_ppf ops chance.special (share_below ops chance (stat groups) sorted_reps)

    -- The interval lies at the two adjusted levels, between 0 and 1, of which the first is the smaller
    -- one.
    pub record Adjusted (i : Interval F) : Type 0 where
      pub accel : F
      pub accel_is : acceleration ops chance stat groups ≡ some accel
      pub low_level : F
      pub high_level : F
      pub low_is :
          low_level ≡ bca_level accel bias (norm_ppf ops chance.special (alpha_half ops chance))
      pub high_is :
          high_level
          ≡ bca_level accel bias
              (norm_ppf ops chance.special (ops.sub (ops.of_ℕ 1) (alpha_half ops chance)))
      pub above_zero : ops.lt (ops.of_ℕ 0) low_level ≡ true
      pub in_order : ops.lt low_level high_level ≡ true
      pub below_one : ops.lt high_level (ops.of_ℕ 1) ≡ true
      pub lo_is : i.lo ≡ percentile_of_sorted ops chance sorted_reps low_level
      pub hi_is : i.hi ≡ percentile_of_sorted ops chance sorted_reps high_level

    interval_of-Adjusted :
        (interval_of ops chance stat groups sorted_reps).method ≡ some bca
        → Adjusted (interval_of ops chance stat groups sorted_reps)
    unfolding interval_of interval_from interval_at
    interval_of-Adjusted h = on_levels (levels ops chance stat groups sorted_reps) refl h
      where
        on_levels :
            (l : Option (F × F))
            → levels ops chance stat groups sorted_reps ≡ l
            → (interval_from ops chance (stat groups) sorted_reps l).method ≡ some bca
            → Adjusted (interval_from ops chance (stat groups) sorted_reps l)
        on_levels none e k = absurd (no_percentile k)
          where
            no_percentile : some percentile ≡ some bca → ⊥
            no_percentile k = cc
        on_levels (some (a1, a2)) e k =
            let (x, (x_is, (o, (l, u)))) = levels-Computed stat groups sorted_reps (a1, a2) e in
            record {
              accel = x;
              accel_is = x_is;
              low_level = a1;
              high_level = a2;
              low_is = l;
              high_is = u;
              above_zero = o.0;
              in_order = o.1;
              below_one = o.2;
              lo_is = refl;
              hi_is = refl;
            }

-- An interval that is labelled BCa lies in the sorted replicates at the two levels that Efron's
-- formula gives for 2.5% and 97.5%, the share of the replicates below the estimate and the
-- acceleration; these levels are between 0 and 1, the first below the second.
pub bootstrap_ci_labels :
    {F : Type 0} (ops : Floats F) (chance : Chance F) (stat : List (List F) → F)
    (groups : List (List F))
    → (bootstrap_ci ops chance stat groups).method ≡ some bca
    → Adjusted ops chance stat groups (bootstrap_ci ops chance stat groups)
unfolding bootstrap_ci
bootstrap_ci_labels ops chance stat [] h = absurd (cc)
bootstrap_ci_labels {F} ops chance stat (g ∷ groups) h =
    on_size (any (λ xs. ltb (length xs) 2) (g ∷ groups))
      (ltb (length (replicates ops chance stat (g ∷ groups))) 100) h
  where
    bare : Interval F
    bare = record { point = some (stat (g ∷ groups)); lo = none; hi = none; method = none }

    full : Interval F
    full = interval_of ops chance stat (g ∷ groups) (sorted_reps ops chance stat (g ∷ groups))

    on_size :
        (few short : Bool)
        → (if few then no_interval else if short then bare else full).method ≡ some bca
        → Adjusted ops chance stat
            (g ∷ groups)
            (if few then no_interval else if short then bare else full)
    on_size true short k = absurd (cc)
    on_size false true k = absurd (cc)
    on_size false false k = interval_of-Adjusted ops chance stat (g ∷ groups) k
