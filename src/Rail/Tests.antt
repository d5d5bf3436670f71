-- ===== src/Rail/Tests.antt =====
-- A run of sim/rail_model.py in thousandths, with a flat leakage.
use fake_big_little.Prelude.{◌≡◌, ◌⊎◌, true, false, [], arith}
use fake_big_little.Prelude.Int.{ℤ, pos, ltb_ℤ, leb_ℤ}
use fake_big_little.Analyze.Fixed.{fixed}
use fake_big_little.Rail.{Params, f_min, power_at, freq_under_power_cap}
use fake_big_little.Rail.Cap.{freq_under_power_cap_meets}

abbrev params : Params ℤ
params = record { c_eff = pos 2200; k_leak = pos 10; p_sa_floor = pos 900 }

-- A power that does not reach the cap is not above it.
not_above : (x : ℤ) → leb_ℤ (pos 15000) x ≡ false → ltb_ℤ (pos 15000) x ≡ false
not_above x h = ground arith

freq_under_power_cap_meets_example :
    let p = power_at fixed (λ x. x) (λ x. x) params 4 (pos 1000) true (pos 60000) [] in
    let f =
      freq_under_power_cap fixed
        (λ x. x)
        (λ x. x)
        params
        4
        (pos 1000)
        (pos 3700000000000)
        (pos 15000)
        true
        (pos 60000)
        [] in
    ((f ≡ f_min fixed (λ x. x) (λ x. x) params) × (fixed.le (pos 15000) (p f) ≡ true))
    ⊎ ((fixed.le (p f) (pos 15000) ≡ true) ⊎ (fixed.lt (pos 15000) (p f) ≡ false))
freq_under_power_cap_meets_example =
    freq_under_power_cap_meets fixed (λ x. x) (λ x. x) params 4 (pos 1000) (pos 3700000000000)
      (pos 15000) true (pos 60000) [] not_above
