-- ===== src/Rail/Cap.antt =====
-- `freq_under_power_cap` of sim/rail_model.py: the cap holds at the frequency that it gives.
use fake_big_little.Prelude.{
  ℕ, zero, suc, ◌≡◌, refl, ◌⊎◌, inl, inr, Bool, true, false, List, if◌then◌else◌,
}
use fake_big_little.Analyze.Floats.{Floats}
use fake_big_little.Rail.{Params, Core, f_min, power_at, bisect, under_cap, freq_under_power_cap}

module _ {F : Type 0} (ops : Floats F) (exp pow2 : F → F) (params : Params F) where
  -- The power at the lower end never exceeds the cap.
  bisect_meets_cap :
      (p : F → F) (top : F) (rounds : ℕ) (lo hi : F)
      → ops.lt top (p lo) ≡ false
      → ops.lt top (p (bisect ops exp pow2 params p top rounds lo hi)) ≡ false
  unfolding bisect
  bisect_meets_cap p top zero lo hi h = h
  bisect_meets_cap p top (suc rounds) lo hi h =
      let mid = ops.mul (ops.ratio 1 2) (ops.add lo hi) in
      let over = ops.lt top (p mid) in
      let lo' = if over then lo else mid in
      let hi' = if over then mid else hi in
      let kept : ops.lt top (p lo') ≡ false = still mid over refl in
      ends (ops.lt (ops.sub hi' lo') (ops.of_ℕ 100000)) lo' _ kept
        (bisect_meets_cap p top rounds lo' hi' kept)
    where
      still :
          (mid : F) (over : Bool)
          → ops.lt top (p mid) ≡ over
          → ops.lt top (p (if over then lo else mid)) ≡ false
      still mid true e = h
      still mid false e = e

      ends :
          (near : Bool) (a b : F)
          → ops.lt top (p a) ≡ false
          → ops.lt top (p b) ≡ false
          → ops.lt top (p (if near then a else b)) ≡ false
      ends true a b k l = k
      ends false a b k l = l

  Meets : (F → F) → F → F → F → Type 0
  Meets p top low f =
      ((f ≡ low) × (ops.le top (p f) ≡ true))
      ⊎ ((ops.le (p f) top ≡ true) ⊎ (ops.lt top (p f) ≡ false))

  under_cap-Meets :
      (rounds : ℕ) (p : F → F) (top low ceiling : F)
      → ((x : F) → ops.le top x ≡ false → ops.lt top x ≡ false)
      → Meets p top low (under_cap ops exp pow2 params rounds p top low ceiling)
  unfolding under_cap Meets
  under_cap-Meets rounds p top low ceiling law =
      choose (ops.le top (p low)) (ops.le (p ceiling) top) refl refl
    where
      choose :
          (at_min at_ceiling : Bool)
          → ops.le top (p low) ≡ at_min
          → ops.le (p ceiling) top ≡ at_ceiling
          → Meets p top low (
              if at_min
              then low
              else if at_ceiling
              then ceiling
              else bisect ops exp pow2 params p top rounds low ceiling)
      choose true c e k = inl (refl, e)
      choose false true e k = inr (inl k)
      choose false false e k = inr (inr (bisect_meets_cap p top rounds low ceiling (law _ e)))

  -- The frequency is the lowest one where the power at that one already reaches the cap; else the
  -- power at the frequency is within the top or not above it, if a power that does not reach the cap
  -- is never above it.
  pub freq_under_power_cap_meets :
      (n_active : ℕ) (activity ceiling top : F) (shared : Bool) (t : F) (others : List (Core F))
      → ((x : F) → ops.le top x ≡ false → ops.lt top x ≡ false)
      → let p = power_at ops exp pow2 params n_active activity shared t others in
        let f =
          freq_under_power_cap ops exp pow2 params n_active activity ceiling top shared t others in
        ((f ≡ f_min ops exp pow2 params) × (ops.le top (p f) ≡ true))
        ⊎ ((ops.le (p f) top ≡ true) ⊎ (ops.lt top (p f) ≡ false))
  unfolding freq_under_power_cap Meets
  freq_under_power_cap_meets n_active activity ceiling top shared t others law =
      under_cap-Meets 60 (power_at ops exp pow2 params n_active activity shared t others) top
        (f_min ops exp pow2 params) ceiling law
