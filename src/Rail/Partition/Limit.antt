-- ===== src/Rail/Partition/Limit.antt =====
-- `experiment_b` of sim/rail_model.py: the power of a row while the compile runs is the one that the
-- frequency was chosen for, so the limit PL1 holds.
use fake_big_little.Prelude.{
  ℕ, zero, suc, ◌≤◌, ◌<◌, ◌≡◌, refl, sym, ap, ◌⊎◌, Bool, true, false, ◌++◌, replicate, ltb,
  if◌then◌else◌, arith,
}
use mathlib.Core.Path.{subst}
use fake_big_little.Analyze.Floats.{Floats}
use fake_big_little.Rail.{Params, f_min, power_at, package_power, freq_under_power_cap}
use fake_big_little.Rail.Cap.{freq_under_power_cap_meets}
use fake_big_little.Rail.Partition.{n_work}
use fake_big_little.Rail.Partition.Rows.{
  f_ceiling, other_cores, f_work, compile_states, row_at, partition_row,
}

module _ {F : Type 0} (ops : Floats F) (exp pow2 : F → F) (params : Params F) where
  -- While the compile runs the cores are in the states that the limit was applied to.
  compile_states_limited :
      (n_big : ℕ) (f : F)
      → 0 < n_big
      → n_big ≤ 4
      → compile_states ops exp pow2 params n_big f
        ≡ replicate (n_work n_big) (f, ops.of_ℕ 1) ++ other_cores ops exp pow2 params n_big
  unfolding compile_states other_cores
  compile_states_limited zero f h k = absurd (omega arith)
  compile_states_limited (suc zero) f h k = refl
  compile_states_limited (suc (suc zero)) f h k = refl
  compile_states_limited (suc (suc (suc zero))) f h k = refl
  compile_states_limited (suc (suc (suc (suc zero)))) f h k = refl
  compile_states_limited (suc (suc (suc (suc (suc n))))) f h k = absurd (omega arith)

  phase1_lem :
      (n_big : ℕ) (shared : Bool) (t f : F)
      → 0 < n_big
      → n_big ≤ 4
      → (row_at ops exp pow2 params n_big shared t f).p_phase1_w
        ≡ power_at ops exp pow2 params
            (n_work n_big)
            (ops.of_ℕ 1)
            shared
            t
            (other_cores ops exp pow2 params n_big)
            f
  unfolding row_at power_at
  phase1_lem n_big shared t f h k =
      ap (λ states. (package_power ops exp pow2 params states shared t).total)
        (compile_states_limited n_big f h k)

  f_work_lem :
      (n_big : ℕ) (shared : Bool) (t : F)
      → 0 < n_big
      → f_work ops exp pow2 params n_big shared true t
        ≡ freq_under_power_cap ops exp pow2 params
            (n_work n_big)
            (ops.of_ℕ 1)
            (f_ceiling ops exp pow2 params n_big)
            (ops.of_ℕ 15)
            shared
            t
            (other_cores ops exp pow2 params n_big)
  unfolding f_work
  f_work_lem n_big shared t h =
      let some_big : ltb 0 n_big ≡ true = ground arith in
      ap
        (λ b.
          if b
          then freq_under_power_cap ops exp pow2 params (n_work n_big) (ops.of_ℕ 1)
              (f_ceiling ops exp pow2 params n_big) (ops.of_ℕ 15) shared t
              (other_cores ops exp pow2 params n_big)
          else f_ceiling ops exp pow2 params n_big)
        some_big

  -- The frequency is the lowest one, at which the limit is reached, or the power is within the limit or
  -- not above it.
  abbrev pub Limited : F → F → Type 0
  Limited f p =
      ((f ≡ f_min ops exp pow2 params) × (ops.le (ops.of_ℕ 15) p ≡ true))
      ⊎ ((ops.le p (ops.of_ℕ 15) ≡ true) ⊎ (ops.lt (ops.of_ℕ 15) p ≡ false))

  -- With PL1 applied and one to four big cores, a row's power while the compile runs is at most PL1, or
  -- the compile runs at the lowest frequency and the power reaches PL1, if a power that does not reach
  -- PL1 is never above it.
  pub partition_row-Limited :
      ((x : F) → ops.le (ops.of_ℕ 15) x ≡ false → ops.lt (ops.of_ℕ 15) x ≡ false)
      → (n_big : ℕ) (shared : Bool) (t : F) → 0 < n_big
      → n_big ≤ 4
      → Limited
          (f_work ops exp pow2 params n_big shared true t)
          (partition_row ops exp pow2 params true t n_big shared).p_phase1_w
  unfolding partition_row
  partition_row-Limited law n_big shared t h k =
      let others = other_cores ops exp pow2 params n_big in
      let p = power_at ops exp pow2 params (n_work n_big) (ops.of_ℕ 1) shared t others in
      let f = f_work ops exp pow2 params n_big shared true t in
      subst (Limited f) (sym (phase1_lem n_big shared t f h k)) (
        subst (λ g. Limited g (p g)) (sym (f_work_lem n_big shared t h))
          (freq_under_power_cap_meets ops exp pow2 params (n_work n_big) (ops.of_ℕ 1)
            (f_ceiling ops exp pow2 params n_big) (ops.of_ℕ 15) shared t others law))
