-- ===== src/Analyze/Gates.antt =====
-- `quality_gates` of scripts/analyze.py. The texts of
-- the details are not modelled.
pub mod Passing
pub mod Vouched
use fake_big_little.Prelude.{
  ℕ, ◌+◌, Bool, true, false, not, ◌&&◌, ◌||◌, Option, none, some, List, [], ◌∷◌, ◌++◌, map, ltb,
  leb, ◌==◌, if◌then◌else◌, any, every, keep, length, range,
}
use fake_big_little.Prelude.Int.{ℤ, pos, eqb_ℤ}
use fake_big_little.Prelude.Texts.{Text, codes}
use fake_big_little.Json.{Value, null, bool, value_eq}
use fake_big_little.Analyze.Floats.{abs, Floats, average, mean, median, spearman, max, min, somes}
use fake_big_little.Analyze.Rows.{
  Column, Row, start_temp_c, energy_number, cpu_bzy_mhz, cpu_avg_mhz, cpu_busy, cpu_epp, bls_number,
  bls_cross_frac, bls_run_big_frac, bls_run_little_frac, bls_dsq_big_frac, bzy_mhz_big_mean,
  bzy_mhz_little_mean, bzy_ratio_little_over_big, n_cpus,
}
use fake_big_little.Analyze.Groups.{Dict, Arms, get_or, keys, sorted_keys, values}
use fake_big_little.Analyze.Resampling.{Chance, Interval, mean_ci}
use fake_big_little.Analyze.Contrast.{Metric, column}

pub data Status : Type 0 where
  pass fail skip info : Status

pub data GateName : Type 0 where
  run_completion start_temperature_spread on_ac_consistent thermal_headroom balanced_reps : GateName
  run_order_drift placement_counters : GateName
  placement : Text → Bool → GateName
  physically_real : Text → GateName

pub record Gate : Type 0 where
  pub name : GateName
  pub status : Status

abbrev pub gate : GateName → Status → Gate
gate n s = record { name = n; status = s }

abbrev pub is_fail : Status → Bool
is_fail fail = true
is_fail _ = false

-- `any(g["status"] == "FAIL" for g in gates)`
unfoldable pub any_fail : List Gate → Bool
any_fail gates = any (λ g. is_fail g.status) gates

abbrev pub fail_if : Bool → Status
fail_if b = if b then fail else pass

-- A drift of a metric with the run order, in an arm.
pub record Drift (F : Type 0) : Type 0 where
  pub arm : Text
  pub metric : Metric
  pub rho : F
  pub n : ℕ

-- `v is True`
abbrev pub is_true : Option Value → Bool
is_true (some (bool b)) = b
is_true _ = false

-- `exit_code in (0,)`
abbrev pub exit_is_zero : Option ℤ → Bool
exit_is_zero none = false
exit_is_zero (some n) = eqb_ℤ n (pos 0)

abbrev or_null : Option Value → Value
or_null none = null
or_null (some v) = v

module _ {F : Type 0} (ops : Floats F) (chance : Chance F) where
  unfoldable pub all_rows : Arms ops → List (Row F)
  all_rows [] = []
  all_rows ((_, rs) ∷ arms) = rs ++ all_rows arms

  abbrev pub is_complete : Row F → Bool
  is_complete r = is_true r.is_ok && exit_is_zero r.exit_code

  unfoldable pub completion_gate : List (Row F) → Gate
  completion_gate rows = gate run_completion (fail_if (any (λ r. not (is_complete r)) rows))

  -- The mean start temperatures of the arms that have one.
  unfoldable pub arm_temperatures : Arms ops → List F
  unfolding values mean
  arm_temperatures [] = []
  arm_temperatures ((_, rs) ∷ arms) = elim (mean ops (values ops rs start_temp_c)) [
    | none ↦ arm_temperatures arms
    | some t ↦ t ∷ arm_temperatures arms
  ]

  unfoldable pub temperature_gate : Arms ops → Gate
  unfolding arm_temperatures max min
  temperature_gate arms =
      let have = arm_temperatures arms in
      gate start_temperature_spread (
        if ltb (length have) 2 then skip else elim (max ops have) [
          | none ↦ skip
          | some hot ↦ elim (min ops have) [
            | none ↦ skip
            | some cold ↦ if ops.lt (ops.sub hot cold) (ops.of_ℕ 5) then pass else fail
          ]
        ])

  -- Whether there is a run, and all runs have the power state of the first.
  unfoldable pub one_power_state : List (Row F) → Bool
  one_power_state [] = false
  one_power_state (r ∷ rows) =
      every (λ (s : Row F). value_eq (or_null s.on_ac) (or_null r.on_ac)) rows

  abbrev pub throttle_limit : F
  throttle_limit = ops.sub (ops.of_ℕ 100) (ops.of_ℕ 3)

  abbrev pub max_temps : List (Row F) → List F
  max_temps rows = somes (map (λ (r : Row F). r.cell (energy_number (codes "pkg_c_max"))) rows)

  unfoldable pub thermal_gate : List (Row F) → Gate
  unfolding somes
  thermal_gate rows = gate thermal_headroom (elim (max_temps rows) [
    | [] ↦ skip
    | t ∷ ts ↦ fail_if (any (λ v. ops.le throttle_limit v) (t ∷ ts))
  ])

  -- Whether all arms have as many rows as the first.
  unfoldable pub is_balanced : Arms ops → Bool
  is_balanced [] = true
  is_balanced ((_, rs) ∷ arms) = every (λ (a : Text × List (Row F)). length a.1 == length rs) arms

  -- `spearman` of the repetitions and a metric, where it is more than 0.6 in size
  unfoldable pub drift_of : List (Row F) → Text → Metric → Option (Drift F)
  unfolding spearman abs column
  drift_of rs arm metric =
      elim (spearman ops (map (λ (r : Row F). (r.rep, r.cell (column metric))) rs)) [
        | none ↦ none
        | some rho ↦
            if ops.lt (ops.ratio 6 10) (abs ops rho)
            then some (record { arm = arm; metric = metric; rho = rho; n = length rs })
            else none
      ]

  unfoldable pub drifts : Arms ops → List Metric → List Text → List (Drift F)
  unfolding drift_of get_or somes
  drifts arms ms [] = []
  drifts arms ms (a ∷ named) =
      somes (map (drift_of (get_or a [] arms) a) ms) ++ drifts arms ms named

  abbrev pub has_any : {A : Type 0} → List A → Bool
  has_any [] = false
  has_any (_ ∷ _) = true

  unfoldable pub quality_gates : Arms ops → List Metric → List Gate × List (Drift F)
  unfolding all_rows completion_gate temperature_gate one_power_state thermal_gate is_balanced
      drifts sorted_keys
  quality_gates arms ms =
      let rows = all_rows arms in
      let drift = drifts arms ms (sorted_keys arms) in
      (
        completion_gate rows
            ∷ temperature_gate arms
            ∷ gate on_ac_consistent (fail_if (not (one_power_state rows)))
            ∷ thermal_gate rows
            ∷ gate balanced_reps (fail_if (not (is_balanced arms)))
            ∷ gate run_order_drift (fail_if (has_any drift))
            ∷ [],
        drift,
      )
