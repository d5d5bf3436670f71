-- ===== src/Rail/Partition/Rows.antt =====
-- The loop of `experiment_b` of sim/rail_model.py: the states of the cores while the compile runs and
-- after it, and the energy.
use fake_big_little.Prelude.{
  ℕ, ◌+◌, ◌-◌, Bool, true, false, ◌&&◌, Option, List, [], ◌∷◌, ◌++◌, map, keep, not, range,
  replicate, ltb, ◌==◌, if◌then◌else◌,
}
use fake_big_little.Analyze.Floats.{Floats}
use fake_big_little.Rail.{
  Params, Core, f_min, hz, ghz, package_power, turbo_limit_hz, freq_under_power_cap,
}
use fake_big_little.Rail.Partition.{
  PartitionRow, PartitionSummary, n_work, n_bg_cores, partition_summary,
}

module _ {F : Type 0} (ops : Floats F) (exp pow2 : F → F) (params : Params F) where
  -- `F_LITTLE_HZ`
  abbrev pub f_little : F
  f_little = hz ops exp pow2 params 800

  abbrev giga : F → F
  giga x = ops.mul x (ops.of_ℕ 1000000000)

  abbrev idle : Core F
  idle = (f_min ops exp pow2 params, ops.of_ℕ 0)

  -- `f_work` before the power limit
  unfoldable pub f_ceiling : ℕ → F
  unfolding turbo_limit_hz
  f_ceiling n_big =
      if n_big == 0
      then f_little
      else turbo_limit_hz ops exp pow2 params (if ltb n_big 1 then 1 else n_big)

  unfoldable pub f_bg : ℕ → F
  unfolding f_ceiling
  f_bg n_big = if ltb 0 (4 - n_big) then f_little else f_ceiling n_big

  -- The part of the time that a core needs for its tasks, or all of it.
  unfoldable pub a_bg : ℕ → F
  unfolding f_bg n_bg_cores
  a_bg n_big =
      let cores = if ltb (n_bg_cores n_big) 1 then 1 else n_bg_cores n_big in
      let cycles = ops.div (ops.mul (ops.of_ℕ 3) (ops.of_ℕ 15)) (ops.of_ℕ cores) in
      let need = ops.div (giga cycles) (ops.mul (f_bg n_big) (ops.of_ℕ 30)) in
      if ops.lt need (ops.of_ℕ 1) then need else ops.of_ℕ 1

  abbrev background : ℕ → Core F
  background n_big = (f_bg n_big, a_bg n_big)

  -- `bg_states_fixed`
  unfoldable pub other_cores : ℕ → List (Core F)
  unfolding n_work n_bg_cores
  other_cores n_big =
      map (λ i. if ltb i (n_bg_cores n_big) then background n_big else idle)
        (range (4 - n_work n_big))

  -- `f_work`
  unfoldable pub f_work : ℕ → Bool → Bool → F → F
  unfolding f_ceiling n_work other_cores
  f_work n_big shared apply_pl1 t =
      if apply_pl1 && ltb 0 n_big
      then freq_under_power_cap ops exp pow2 params (n_work n_big) (ops.of_ℕ 1) (f_ceiling n_big)
          (ops.of_ℕ 15) shared t (other_cores n_big)
      else f_ceiling n_big

  -- `s1`
  unfoldable pub compile_states : ℕ → F → List (Core F)
  unfolding n_work n_bg_cores
  compile_states n_big f =
      map
        (λ i.
          if ltb i (n_work n_big)
          then (f, ops.of_ℕ 1)
          else if ltb i (n_work n_big + n_bg_cores n_big)
          then background n_big
          else idle)
        (range 4)

  -- `s2`
  unfoldable pub later_states : ℕ → List (Core F)
  unfolding n_work n_bg_cores
  later_states n_big =
      if ltb 0 (n_bg_cores n_big) && (4 - n_big == 0)
      then replicate (n_bg_cores n_big) (background n_big) ++ replicate (4 - n_bg_cores n_big) idle
      else map
          (λ i.
            if ltb i (n_work n_big)
            then idle
            else if ltb i (n_work n_big + n_bg_cores n_big)
            then background n_big
            else idle)
          (range 4)

  -- The body of the loop, from `f_work` on.
  unfoldable pub row_at : ℕ → Bool → F → F → PartitionRow F
  unfolding n_work package_power compile_states later_states
  row_at n_big shared t f =
      let t_compile = ops.div (giga (ops.of_ℕ 120)) (ops.mul (ops.of_ℕ (n_work n_big)) f) in
      let horizon = ops.of_ℕ 30 in
      let t_end = if ops.lt t_compile horizon then horizon else t_compile in
      let p1 = package_power ops exp pow2 params (compile_states n_big f) shared t in
      let rest = ops.sub t_end t_compile in
      let t2 = if ops.lt (ops.of_ℕ 0) rest then rest else ops.of_ℕ 0 in
      let p2 = package_power ops exp pow2 params (later_states n_big) shared t in
      record {
        n_big = n_big;
        n_little = 4 - n_big;
        shared_rail = shared;
        f_work_ghz = ghz ops exp pow2 params f;
        f_bg_ghz = ghz ops exp pow2 params (f_bg n_big);
        bg_activity = a_bg n_big;
        t_compile_s = t_compile;
        t_window_s = t_end;
        finished_in_horizon = ops.le t_compile horizon;
        p_phase1_w = p1.total;
        p_phase2_w = p2.total;
        v_rail_phase1_v = p1.v_rail;
        energy_j = ops.add (ops.mul p1.total t_compile) (ops.mul p2.total t2);
      }

  unfoldable pub partition_row : Bool → F → ℕ → Bool → PartitionRow F
  unfolding f_work row_at
  partition_row apply_pl1 t n_big shared = row_at n_big shared t (f_work n_big shared apply_pl1 t)

  -- `results`, in the order of the loops
  unfoldable pub partition_rows : Bool → F → List ℕ → List (PartitionRow F)
  unfolding partition_row
  partition_rows apply_pl1 t [] = []
  partition_rows apply_pl1 t (n ∷ ns) =
      partition_row apply_pl1 t n true
      ∷ partition_row apply_pl1 t n false
      ∷ partition_rows apply_pl1 t ns

  unfoldable pub experiment_b : F → Bool → List (PartitionRow F) × Option (PartitionSummary F)
  unfolding partition_rows partition_summary
  experiment_b t apply_pl1 =
      let results = partition_rows apply_pl1 t (range 5) in
      (
        results,
        partition_summary ops apply_pl1 (keep (λ (r : PartitionRow F). r.shared_rail) results)
            (keep (λ (r : PartitionRow F). not r.shared_rail) results),
      )
