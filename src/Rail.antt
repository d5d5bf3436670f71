-- ===== src/Rail.antt =====
-- The power model of sim/rail_model.py: voltage, leakage, package power, turbo bins and the frequency
-- that a power cap allows.
pub mod Cap
pub mod Exact
pub mod Linear
pub mod Prior
pub mod Partition
pub mod Light
pub mod Crossover
pub mod Parity
mod FitTests
mod SweepTests
pub mod Samples
pub mod Calibrate
mod Tests
use fake_big_little.Prelude.{
  ℕ, zero, suc, ◌+◌, ◌*◌, Bool, true, false, not, ◌&&◌, Option, none, some, List, [], ◌∷◌, ◌++◌,
  map, ltb, if◌then◌else◌, keep, replicate,
}
use fake_big_little.Analyze.Floats.{Floats, sum, max_from}

-- `PARAMS`, which calibration overwrites.
pub record Params (F : Type 0) : Type 0 where
  pub c_eff : F
  pub k_leak : F
  pub p_sa_floor : F

-- A physical core: its frequency, and the share of the time in which it runs.
abbrev pub Core : Type 0 → Type 0
Core F = F × F

-- What `package_power` returns.
pub record Power (F : Type 0) : Type 0 where
  pub dyn : F
  pub leak : F
  pub uncore_sa : F
  pub uncore_ring : F
  pub uncore_traffic : F
  pub uncore : F
  pub total : F
  pub v_rail : F
  pub f_max_active : F

-- `math.exp` and `2.0 ** x` are given.
module _ {F : Type 0} (ops : Floats F) (exp pow2 : F → F) (params : Params F) where
  abbrev pub hz : ℕ → F
  hz mhz = ops.of_ℕ (mhz * 1000000)

  abbrev pub f_min : F
  f_min = hz 400

  abbrev pub milli : ℕ → F
  milli n = ops.ratio n 1000

  -- `VF_ANCHORS`: megahertz and volts
  unfoldable pub vf_anchors : List (F × F)
  vf_anchors =
      (ops.of_ℕ 400, milli 650)
      ∷ (ops.of_ℕ 800, milli 680)
      ∷ (ops.of_ℕ 1200, milli 725)
      ∷ (ops.of_ℕ 1800, milli 830)
      ∷ (ops.of_ℕ 2400, milli 925)
      ∷ (ops.of_ℕ 3000, milli 1020)
      ∷ (ops.of_ℕ 3400, milli 1075)
      ∷ (ops.of_ℕ 3700, milli 1115)
      ∷ (ops.of_ℕ 4000, milli 1150)
      ∷ []

  abbrev on_line : F × F → F × F → F → F
  on_line (f0, v0) (f1, v1) f =
      ops.add v0 (ops.mul (ops.div (ops.sub f f0) (ops.sub f1 f0)) (ops.sub v1 v0))

  -- The segments, of which the first starts at the given anchor; behind them the last voltage.
  unfoldable pub in_segments : F × F → List (F × F) → F → F
  in_segments (_, v0) [] f = v0
  in_segments (f0, v0) ((f1, v1) ∷ anchors) f =
      let later = in_segments (f1, v1) anchors f in
      if ops.le f0 f && ops.le f f1 then on_line (f0, v0) (f1, v1) f else later

  abbrev last_anchor : F × F → List (F × F) → F × F
  last_anchor a [] = a
  last_anchor a (b ∷ anchors) = last_anchor b anchors

  unfoldable pub interpolate : List (F × F) → F → F
  unfolding in_segments
  interpolate [] f = ops.of_ℕ 0
  interpolate ((f0, v0) ∷ anchors) f =
      let top = last_anchor (f0, v0) anchors in
      if ops.le f f0 then v0 else if ops.le top.0 f then top.1 else in_segments (f0, v0) anchors f

  unfoldable pub v_of_f : F → F
  unfolding interpolate vf_anchors
  v_of_f f_hz = interpolate vf_anchors (ops.div f_hz (ops.of_ℕ 1000000))

  unfoldable pub leak_shape : F → F
  leak_shape v = ops.mul v (exp (ops.div v (ops.ratio 3 10)))

  unfoldable pub leak_temp_factor : F → F
  leak_temp_factor t = pow2 (ops.div (ops.sub t (ops.of_ℕ 60)) (ops.of_ℕ 25))

  unfoldable pub core_leakage_w : F → Bool → F → F
  unfolding leak_shape leak_temp_factor
  core_leakage_w v active t =
      let g = ops.mul (ops.mul params.k_leak (leak_shape v)) (leak_temp_factor t) in
      if active then g else ops.mul g (ops.ratio 1 10)

  abbrev pub ghz : F → F
  ghz f = ops.div f (ops.of_ℕ 1000000000)

  abbrev pub is_active : Core F → Bool
  is_active c = ops.lt (ops.ratio 1 1000000) c.1

  -- The loop over the cores, which adds up dynamic power and leakage.
  unfoldable pub add_cores : Bool → F → F → List (Core F) → F × F → F × F
  unfolding core_leakage_w v_of_f
  add_cores shared v_rail t [] sums = sums
  add_cores shared v_rail t ((f, a) ∷ cores) (dyn, leak) =
      let active = is_active (f, a) in
      let v = if shared then v_rail else v_of_f (if active then f else f_min) in
      let term = ops.mul (ops.mul (ops.mul a params.c_eff) (ops.mul v v)) (ghz f) in
      add_cores shared v_rail t cores
        (if active then ops.add dyn term else dyn, ops.add leak (core_leakage_w v active t))

  -- All cores asleep.
  unfoldable pub idle_power : List (Core F) → F → Power F
  unfolding core_leakage_w v_of_f sum
  idle_power cores t =
      let v_idle = v_of_f f_min in
      let leak = sum ops (map (λ _. core_leakage_w v_idle false t) cores) in
      let p_c6 = ops.ratio 15 100 in
      record {
        dyn = ops.of_ℕ 0;
        leak = leak;
        uncore_sa = p_c6;
        uncore_ring = ops.of_ℕ 0;
        uncore_traffic = ops.of_ℕ 0;
        uncore = p_c6;
        total = ops.add leak p_c6;
        v_rail = v_idle;
        f_max_active = ops.of_ℕ 0;
      }

  abbrev pub clamp_ring : F → F
  clamp_ring f =
      let up = if ops.lt f (hz 800) then hz 800 else f in
      if ops.lt (hz 3900) up then hz 3900 else up

  unfoldable pub active_power : List (Core F) → F → Bool → F → Power F
  unfolding add_cores v_of_f sum
  active_power cores f_max shared t =
      let v_rail = v_of_f f_max in
      let (dyn, leak) = add_cores shared v_rail t cores (ops.of_ℕ 0, ops.of_ℕ 0) in
      let f_ring = clamp_ring f_max in
      let v_ring = v_of_f f_ring in
      let ring = ops.mul (ops.mul (ops.ratio 55 100) (ops.mul v_ring v_ring)) (ghz f_ring) in
      let agg =
        sum ops (map (λ (c : Core F). ghz (ops.mul c.1 c.0)) (keep (λ c. is_active c) cores)) in
      let traffic = ops.mul (ops.ratio 12 100) agg in
      let uncore = ops.add (ops.add params.p_sa_floor ring) traffic in
      record {
        dyn = dyn;
        leak = leak;
        uncore_sa = params.p_sa_floor;
        uncore_ring = ring;
        uncore_traffic = traffic;
        uncore = uncore;
        total = ops.add (ops.add dyn leak) uncore;
        v_rail = v_rail;
        f_max_active = f_max;
      }

  unfoldable pub package_power : List (Core F) → Bool → F → Power F
  unfolding idle_power active_power max_from
  package_power cores shared t = elim (keep (λ (c : Core F). is_active c) cores) [
    | [] ↦ idle_power cores t
    | (f, _) ∷ active ↦
        active_power cores (max_from ops f (map (λ (c : Core F). c.0) active)) shared t
  ]

  -- `TURBO_BINS_HZ`, with no core the minimum and beyond four cores the last bin
  unfoldable pub turbo_limit_hz : ℕ → F
  turbo_limit_hz zero = f_min
  turbo_limit_hz (suc zero) = hz 4000
  turbo_limit_hz (suc (suc zero)) = hz 4000
  turbo_limit_hz (suc (suc (suc zero))) = hz 3900
  turbo_limit_hz _ = hz 3700

  -- `p_at`
  unfoldable pub power_at : ℕ → F → Bool → F → List (Core F) → F → F
  unfolding package_power
  power_at n_active activity shared t others f =
      (package_power (replicate n_active (f, activity) ++ others) shared t).total

  -- The loop of the bisection, for at most so many rounds.
  unfoldable pub bisect : (F → F) → F → ℕ → F → F → F
  bisect p cap zero lo hi = lo
  bisect p cap (suc rounds) lo hi =
      let mid = ops.mul (ops.ratio 1 2) (ops.add lo hi) in
      let over = ops.lt cap (p mid) in
      let lo' = if over then lo else mid in
      let hi' = if over then mid else hi in
      let rest = bisect p cap rounds lo' hi' in
      if ops.lt (ops.sub hi' lo') (ops.of_ℕ 100000) then lo' else rest

  -- The highest frequency from `low` to `ceiling` at which the power `p` is within the cap.
  unfoldable pub under_cap : ℕ → (F → F) → F → F → F → F
  unfolding bisect
  under_cap rounds p cap low ceiling =
      if ops.le cap (p low)
      then low
      else if ops.le (p ceiling) cap
      then ceiling
      else bisect p cap rounds low ceiling

  unfoldable pub freq_under_power_cap : ℕ → F → F → F → Bool → F → List (Core F) → F
  unfolding power_at under_cap
  freq_under_power_cap n_active activity ceiling cap shared t others =
      under_cap 60 (power_at n_active activity shared t others) cap f_min ceiling
