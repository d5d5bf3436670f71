-- ===== src/Rail/Crossover.antt =====
-- `experiment_c` of sim/rail_model.py: the energy of a fixed work at each frequency of a sweep.
pub mod Sweep
use fake_big_little.Prelude.{
  ℕ, zero, suc, ◌+◌, ◌-◌, ◌*◌, Bool, true, false, Option, none, some, List, [], ◌∷◌, ◌++◌, keep,
  replicate, if◌then◌else◌,
}
use fake_big_little.Analyze.Floats.{abs, Floats}
use fake_big_little.Rail.{Params, f_min, hz, ghz, package_power, turbo_limit_hz}
use fake_big_little.Rail.Partition.{least_by}

-- An entry of `curve`.
pub record CurvePoint (F : Type 0) : Type 0 where
  pub f_ghz : F
  pub v_v : F
  pub t_s : F
  pub p_w : F
  pub p_dyn_w : F
  pub p_leak_w : F
  pub p_uncore_w : F
  pub e_j : F
  pub e_j_no_fixed_floor : F
  pub e_j_core_only : F

pub record CrossoverSummary (F : Type 0) : Type 0 where
  pub n_cores : ℕ
  pub work_gcycles : F
  pub crossover_f_ghz : F
  pub crossover_v_v : F
  pub crossover_energy_j : F
  pub crossover_runtime_s : F
  pub f_opt_ghz_without_fixed_floor : F
  pub f_opt_ghz_core_only : F
  pub energy_at_f_min_j : F
  pub energy_penalty_of_running_at_f_min_pct : F
  pub uncore_share_at_f_min_pct : F
  pub uncore_share_at_crossover_pct : F

-- `while f <= limit: …; f += step`, for at most so many rounds.
unfoldable pub sweep : {A F : Type 0} → Floats F → (F → A) → F → F → ℕ → F → List A
sweep ops point limit step zero f = []
sweep ops point limit step (suc rounds) f =
    let rest = sweep ops point limit step rounds (ops.add f step) in
    if ops.le f limit then point f ∷ rest else []

module _ {F : Type 0} (ops : Floats F) (exp pow2 : F → F) (params : Params F) where
  -- The body of the loop.
  unfoldable pub curve_point : ℕ → F → F → F → CurvePoint F
  unfolding package_power
  curve_point n_cores work t f =
      let states =
        replicate n_cores (f, ops.of_ℕ 1)
        ++ replicate (4 - n_cores) (f_min ops exp pow2 params, ops.of_ℕ 0) in
      let p = package_power ops exp pow2 params states true t in
      let runtime = ops.div (ops.mul work (ops.of_ℕ 1000000000)) (ops.mul (ops.of_ℕ n_cores) f) in
      record {
        f_ghz = ghz ops exp pow2 params f;
        v_v = p.v_rail;
        t_s = runtime;
        p_w = p.total;
        p_dyn_w = p.dyn;
        p_leak_w = p.leak;
        p_uncore_w = p.uncore;
        e_j = ops.mul p.total runtime;
        e_j_no_fixed_floor = ops.mul (ops.sub p.total p.uncore_sa) runtime;
        e_j_core_only = ops.mul (ops.add p.dyn p.leak) runtime;
      }

  -- 145 steps of 25 MHz lead from 400 MHz past the highest ceiling, 4 GHz.
  unfoldable pub curve : ℕ → ℕ → F → F → List (CurvePoint F)
  unfolding sweep curve_point turbo_limit_hz
  curve rounds n_cores work t =
      sweep ops (curve_point n_cores work t)
        (ops.add (turbo_limit_hz ops exp pow2 params n_cores) (ops.of_ℕ 1))
        (hz ops exp pow2 params 25) rounds (f_min ops exp pow2 params)

  -- `[r for r in curve if abs(r["f_ghz"] - F_MIN_HZ / 1e9) < 1e-6]`
  unfoldable pub at_f_min : List (CurvePoint F) → List (CurvePoint F)
  unfolding abs
  at_f_min points =
      keep
        (λ (r : CurvePoint F).
          ops.lt (abs ops (ops.sub r.f_ghz (ghz ops exp pow2 params (f_min ops exp pow2 params))))
            (ops.ratio 1 1000000))
        points

  abbrev percent : F → F → F
  percent x y = ops.div (ops.mul (ops.of_ℕ 100) x) y

  unfoldable pub crossover_of :
      ℕ → F → CurvePoint F → CurvePoint F → CurvePoint F → CurvePoint F → CrossoverSummary F
  crossover_of n_cores work best best_nofloor best_coreonly e_at_min = record {
    n_cores = n_cores;
    work_gcycles = work;
    crossover_f_ghz = best.f_ghz;
    crossover_v_v = best.v_v;
    crossover_energy_j = best.e_j;
    crossover_runtime_s = best.t_s;
    f_opt_ghz_without_fixed_floor = best_nofloor.f_ghz;
    f_opt_ghz_core_only = best_coreonly.f_ghz;
    energy_at_f_min_j = e_at_min.e_j;
    energy_penalty_of_running_at_f_min_pct = percent (ops.sub e_at_min.e_j best.e_j) best.e_j;
    uncore_share_at_f_min_pct = percent e_at_min.p_uncore_w e_at_min.p_w;
    uncore_share_at_crossover_pct = percent best.p_uncore_w best.p_w;
  }

  -- `min` of an empty curve is a `ValueError`, and no point at the lowest frequency an `IndexError`.
  unfoldable pub summary_of : ℕ → F → List (CurvePoint F) → Option (CrossoverSummary F)
  unfolding least_by at_f_min crossover_of
  summary_of n_cores work [] = none
  summary_of n_cores work (p ∷ ps) = elim (at_f_min (p ∷ ps)) [
    | [] ↦ none
    | e_at_min ∷ _ ↦ some (
        crossover_of n_cores work (least_by ops (λ (r : CurvePoint F). r.e_j) p ps)
          (least_by ops (λ (r : CurvePoint F). r.e_j_no_fixed_floor) p ps)
          (least_by ops (λ (r : CurvePoint F). r.e_j_core_only) p ps) e_at_min)
  ]

  unfoldable pub experiment_c : ℕ → F → F → List (CurvePoint F) × Option (CrossoverSummary F)
  experiment_c n_cores work t =
      let points = curve 145 n_cores work t in (points, summary_of n_cores work points)
