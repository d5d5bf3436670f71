-- ===== src/Analyze/Contrast.antt =====
-- `contrast` of scripts/analyze.py, without the texts of its sentences.
pub mod Verdicts
use fake_big_little.Prelude.{
  ℕ, ◌+◌, Bool, true, false, not, ◌&&◌, ◌||◌, Option, none, some, List, [], ◌∷◌, ltb, ◌==◌,
  if◌then◌else◌, length,
}
use fake_big_little.Prelude.Texts.{Text, codes, text_eq}
use fake_big_little.Analyze.Floats.{abs, Floats, average, mean}
use fake_big_little.Analyze.Rows.{
  Row, Column, energy_to_solution_j, edp_js, pkg_j_per_s, energy_number, rest_frac, pinger_number,
  bzy_mhz_big_mean, bzy_mhz_little_mean,
}
use fake_big_little.Analyze.Resampling.{Chance, Interval, Method, diff_ci}
use fake_big_little.Analyze.Effects.{permutation_p, hedges_g, mde}

-- A row of `METRICS`.
pub data Metric : Type 0 where
  energy_to_solution edp mean_power wall core_energy rest_share wake_p99 wake_p50 : Metric
  big_mhz little_mhz : Metric

unfoldable pub metrics : List Metric
metrics =
    energy_to_solution ∷ edp ∷ mean_power ∷ wall ∷ core_energy ∷ rest_share ∷ wake_p99 ∷ wake_p50
    ∷ big_mhz ∷ little_mhz ∷ []

unfoldable pub column : Metric → Column
column energy_to_solution = energy_to_solution_j
column edp = edp_js
column mean_power = pkg_j_per_s
column wall = energy_number (codes "wall_s")
column core_energy = energy_number (codes "core_j")
column rest_share = rest_frac
column wake_p99 = pinger_number (codes "wake_us_p99")
column wake_p50 = pinger_number (codes "wake_us_p50")
column big_mhz = bzy_mhz_big_mean
column little_mhz = bzy_mhz_little_mean

-- `METRIC_LOWER_BETTER`: none for a metric in which neither direction is a win.
unfoldable pub lower_better : Metric → Option Bool
lower_better rest_share = none
lower_better big_mhz = none
lower_better little_mhz = none
lower_better _ = some true

-- `metric == HEADLINE_METRIC`
unfoldable pub is_headline : Metric → Bool
is_headline energy_to_solution = true
is_headline _ = false

pub data Direction : Type 0 where
  lower higher : Direction

pub data Verdict : Type 0 where
  insufficient_data no_detectable_difference : Verdict
  diagnostic better worse : Direction → Verdict

pub record Contrast (F : Type 0) : Type 0 where
  pub metric : Metric
  pub n_control : ℕ
  pub n_arm : ℕ
  pub mean_control : Option F
  pub mean_arm : Option F
  pub diff : Option F
  pub interval : Option (Interval F)
  pub pct_change : Option F
  pub effect : Option F
  pub p_perm : Option F
  pub mde_abs : Option F
  pub mde_pct : Option F
  pub detectable : Option Bool
  pub verdict : Verdict

module _ {F : Type 0} (ops : Floats F) where
  -- Whether the interval is unknown or includes zero.
  unfoldable pub straddles : Interval F → Bool
  straddles i = elim i.lo [
    | none ↦ true
    | some lo ↦ elim i.hi [
      | none ↦ true
      | some hi ↦ ops.le lo (ops.of_ℕ 0) && ops.le (ops.of_ℕ 0) hi
    ]
  ]

  abbrev pub direction_of : F → Direction
  direction_of d = if ops.lt d (ops.of_ℕ 0) then lower else higher

  unfoldable pub judge : Option Bool → F → Verdict
  judge none d = diagnostic (direction_of d)
  judge (some true) d = if ops.lt d (ops.of_ℕ 0) then better lower else worse higher
  judge (some false) d = if ops.lt d (ops.of_ℕ 0) then worse lower else better higher

  -- `100.0 * x / m`, unless `m` is 0
  unfoldable pub percent_of : F → F → Option F
  percent_of x m =
      if ops.eq m (ops.of_ℕ 0) then none else some (ops.div (ops.mul (ops.of_ℕ 100) x) m)

  module _ (chance : Chance F) where
    unfoldable pub insufficient : Metric → List F → List F → Contrast F
    unfolding mean
    insufficient metric a b = record {
      metric = metric;
      n_control = length a;
      n_arm = length b;
      mean_control = mean ops a;
      mean_arm = mean ops b;
      diff = none;
      interval = none;
      pct_change = none;
      effect = none;
      p_perm = none;
      mde_abs = none;
      mde_pct = none;
      detectable = none;
      verdict = insufficient_data;
    }

    unfoldable pub compared : Metric → List F → List F → Contrast F
    unfolding mean average diff_ci hedges_g permutation_p mde straddles judge percent_of abs
        lower_better
    compared metric a b =
        let mc = average ops a in
        let d = ops.sub (average ops b) mc in
        let i = diff_ci ops chance a b in
        let m = mde ops chance a b in
        record {
          metric = metric;
          n_control = length a;
          n_arm = length b;
          mean_control = mean ops a;
          mean_arm = mean ops b;
          diff = some d;
          interval = some i;
          pct_change = percent_of d mc;
          effect = hedges_g ops chance a b;
          p_perm = permutation_p ops chance a b;
          mde_abs = m;
          mde_pct = elim m [
            | none ↦ none
            | some x ↦
                if ops.eq mc (ops.of_ℕ 0)
                then none
                else some (ops.div (ops.mul (ops.of_ℕ 100) x) (abs ops mc))
          ];
          detectable = some (not (straddles i));
          verdict = if straddles i then no_detectable_difference else judge (lower_better metric) d;
        }

    -- Of the values of the metric in the control arm and in the other.
    unfoldable pub contrast : Metric → List F → List F → Contrast F
    unfolding insufficient compared
    contrast metric a b =
        if ltb (length a) 2 || ltb (length b) 2
        then insufficient metric a b
        else compared metric a b
