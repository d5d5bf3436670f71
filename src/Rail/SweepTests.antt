-- ===== src/Rail/SweepTests.antt =====
-- Runs of the experiments of sim/rail_model.py in thousandths, with a flat leakage.
use fake_big_little.Prelude.{
  ◌+◌, ◌*◌, ◌-◌, ◌/◌, ◌≡◌, refl, true, false, none, some, List, [], ◌∷◌, map, get_elem?, range_from,
  arith,
}
use fake_big_little.Prelude.Int.{ℤ, pos, ltb_ℤ, leb_ℤ}
use fake_big_little.Analyze.Floats.{abs, Floats, somes}
use fake_big_little.Analyze.Fixed.{fixed, fixed_with}
use fake_big_little.Rail.{Params, turbo_limit_hz, freq_under_power_cap}
use fake_big_little.Rail.Partition.{PartitionRow, PartitionSummary, best_of}
use fake_big_little.Rail.Partition.Rows.{a_bg, f_work, partition_row, experiment_b}
use fake_big_little.Rail.Partition.Best.{Best, best_of-Best}
use fake_big_little.Rail.Partition.Limit.{Limited, partition_row-Limited}
use fake_big_little.Rail.Crossover.{experiment_c}
use fake_big_little.Rail.Crossover.Sweep.{Crosses, experiment_c-Crosses}
use fake_big_little.Rail.Light.{light_core, light_activities, siblings_on_big}
use fake_big_little.Rail.Light.Placed.{added, threads_on, light_activities-threads_on}

abbrev flat : ℤ → ℤ
flat x = pos 1000

abbrev params : Params ℤ
params = record { c_eff = pos 2200; k_leak = pos 10; p_sa_floor = pos 900 }

abbrev three_big : PartitionRow ℤ
three_big = partition_row fixed flat flat params true (pos 60000) 3 true

abbrev results : List (PartitionRow ℤ)
results = (experiment_b fixed flat flat params (pos 60000) true).0

-- The background of the row with three big cores needs 45 gigacycles from one core with 0.8 GHz, so it
-- is not done after 30 seconds; the row is in time, and it is taken.
three_big_overloaded :
    (three_big.finished_in_horizon ≡ true)
    × ((three_big.bg_activity ≡ pos 1000)
        × (fixed.lt (fixed.mul (fixed.of_ℕ 30) three_big.f_bg_ghz) (fixed.of_ℕ 45) ≡ true))
unfolding partition_row freq_under_power_cap a_bg
three_big_overloaded = (refl, (refl, refl))

best_has_three_big :
    map
      (λ (s : PartitionSummary ℤ). s.best_n_big_shared)
      (somes ((experiment_b fixed flat flat params (pos 60000) true).1 ∷ []))
    ≡ 3 ∷ []
unfolding experiment_b freq_under_power_cap somes a_bg
best_has_three_big = refl

above : (x y : ℤ) → ltb_ℤ x y ≡ true → ltb_ℤ y x ≡ false
above x y h = ground arith

not_below_through : (x y z : ℤ) → ltb_ℤ x y ≡ false → ltb_ℤ y z ≡ false → ltb_ℤ x z ≡ false
not_below_through x y z h k = ground arith

best_of-Best_example :
    (b : PartitionRow ℤ) × ((best_of fixed (three_big ∷ results) ≡ some b)
      × Best fixed (three_big ∷ results) b)
best_of-Best_example = best_of-Best fixed above not_below_through three_big results

not_above : (x : ℤ) → leb_ℤ (pos 15000) x ≡ false → ltb_ℤ (pos 15000) x ≡ false
not_above x h = ground arith

partition_row-Limited_example :
    Limited fixed flat flat params
      (f_work fixed flat flat params 3 true true (pos 60000))
      three_big.p_phase1_w
partition_row-Limited_example =
    partition_row-Limited fixed flat flat params not_above 3 true (pos 60000) (omega arith)
      (omega arith)

-- Literals are rounded up, so that a millionth is above 0.
abbrev rounded_up : Floats ℤ
rounded_up = fixed_with (λ _. none) (λ m n. pos ((1000 * m + (n - 1)) / n))

experiment_c-Crosses_example :
    let (points, found) = experiment_c rounded_up flat flat params 4 (pos 120000) (pos 60000) in
    Crosses rounded_up points found
unfolding turbo_limit_hz abs
experiment_c-Crosses_example =
    experiment_c-Crosses rounded_up flat flat params above not_below_through 4 (pos 120000)
      (pos 60000) refl refl

light_activities-threads_on_example :
    (get_elem? (light_activities fixed (pos 150) 7) 0
      ≡ some (added fixed (pos 150) (threads_on 0 (range_from 0 7)) (pos 0)))
    × (threads_on 0 (range_from 0 7) ≡ siblings_on_big 7)
light_activities-threads_on_example = light_activities-threads_on fixed (pos 150) 7 0 (omega arith)

-- The fourth light thread is on the sibling of a little core.
fourth_on_little : light_core 3 ≡ 1
unfolding light_core
fourth_on_little = refl
