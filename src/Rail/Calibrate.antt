-- ===== src/Rail/Calibrate.antt =====
-- `calibrate` of sim/rail_model.py: the least squares fit of three parameters of the power model to the
-- measured package power.
pub mod Fits
pub mod Sums
pub mod Residual
pub mod Physical
use fake_big_little.Prelude.{
  ℕ, Bool, Option, none, some, List, [], ◌∷◌, ◌++◌, map, keep, length, ltb, if◌then◌else◌,
}
use fake_big_little.Prelude.Texts.{Text, codes}
use fake_big_little.Analyze.Floats.{abs, Floats, sum, average, squares, max, max_from}
use fake_big_little.Rail.{
  Params, Core, f_min, v_of_f, leak_shape, leak_temp_factor, ghz, is_active, clamp_ring,
}
use fake_big_little.Rail.Linear.{Vec, Equation, triple, entries, solve_linear}
use fake_big_little.Rail.Samples.{LogRow, Sample, load_samples}

-- A row of `rows_x`, and its entry in `rows_y`.
pub record Design (F : Type 0) : Type 0 where
  pub x1 : F
  pub x2 : F
  pub x3 : F
  pub y : F

-- What `calibrate` reports, without the path.
pub record Info (F : Type 0) : Type 0 where
  pub n_samples_used : ℕ
  pub n_rows_skipped : ℕ
  pub fit : Params F
  pub prior : Params F
  pub clamped_to_prior : List Text
  pub residual_rms_w : F
  pub residual_max_abs_w : Option F
  pub r_squared : Option F

-- The two ends by `SystemExit`, and the new `PARAMS` with the report.
pub data Calibration (F : Type 0) : Type 0 where
  too_few_rows : ℕ → ℕ → Calibration F
  singular : Calibration F
  calibrated : Params F → Info F → Calibration F

-- `beta`
abbrev pub params_of : {F : Type 0} → Vec F 3 → Params F
params_of beta = record {
  c_eff = (entries beta).0;
  k_leak = (entries beta).1.0;
  p_sa_floor = (entries beta).1.1;
}

module _ {F : Type 0} (ops : Floats F) (exp pow2 : F → F) (params : Params F) where
  -- `max((f for f, _ in active), default=F_MIN_HZ)`
  unfoldable pub fastest : List (Core F) → F
  unfolding max_from
  fastest [] = f_min ops exp pow2 params
  fastest ((f, _) ∷ active) = max_from ops f (map (λ (c : Core F). c.0) active)

  -- `r`: the power of the ring and of the traffic, which is not fitted
  unfoldable pub fixed_power : F → List (Core F) → F
  unfolding v_of_f sum
  fixed_power f_max [] = ops.of_ℕ 0
  fixed_power f_max (c ∷ cs) =
      let f_ring = clamp_ring ops exp pow2 params f_max in
      let v_ring = v_of_f ops exp pow2 params f_ring in
      let ring =
        ops.mul (ops.mul (ops.ratio 55 100) (ops.mul v_ring v_ring))
          (ghz ops exp pow2 params f_ring) in
      let agg =
        sum ops (map (λ (c : Core F). ghz ops exp pow2 params (ops.mul c.1 c.0)) (c ∷ cs)) in
      ops.add ring (ops.mul (ops.ratio 12 100) agg)

  -- The body of the loop over the samples.
  unfoldable pub design : Sample F → Design F
  unfolding fastest fixed_power v_of_f leak_shape leak_temp_factor sum
  design s =
      let active = keep (λ c. is_active ops exp pow2 params c) s.phys in
      let f_max = fastest active in
      let v = v_of_f ops exp pow2 params f_max in
      let tf = leak_temp_factor ops exp pow2 params s.temp_c in
      let shape = leak_shape ops exp pow2 params v in
      record {
        x1 = sum ops (
            map (λ (c : Core F). ops.mul (ops.mul c.1 (ops.mul v v)) (ghz ops exp pow2 params c.0))
              active);
        x2 = sum ops (
            map
              (λ (c : Core F).
                ops.mul (ops.mul shape tf)
                  (if is_active ops exp pow2 params c then ops.of_ℕ 1 else ops.ratio 1 10))
              s.phys);
        x3 = ops.of_ℕ 1;
        y = ops.sub s.pkg_w (fixed_power f_max active);
      }

-- The fit itself does not read the parameters.
module _ {F : Type 0} (ops : Floats F) where
  -- `sum(rx[i] * rx[j] for rx in rows_x)`
  unfoldable pub moment : (Design F → F) → (Design F → F) → List (Design F) → F
  unfolding sum
  moment p q rows = sum ops (map (λ d. ops.mul (p d) (q d)) rows)

  -- `lam`: the trace, or 1.0 where that is 0.0, times 1e-9
  unfoldable pub tikhonov : List (Design F) → F
  unfolding moment sum
  tikhonov rows =
      let trace = sum ops (
        moment (λ d. d.x1) (λ d. d.x1) rows
        ∷ moment (λ d. d.x2) (λ d. d.x2) rows
        ∷ moment (λ d. d.x3) (λ d. d.x3) rows
        ∷ []) in
      ops.mul (ops.ratio 1 1000000000) (if ops.eq trace (ops.of_ℕ 0) then ops.of_ℕ 1 else trace)

  -- The rows of `XtX` and `Xty`.
  unfoldable pub normal_equations : List (Design F) → Vec (Equation F 3) 3
  unfolding moment tikhonov
  normal_equations rows =
      let lam = tikhonov rows in
      let m12 = moment (λ d. d.x1) (λ d. d.x2) rows in
      let m13 = moment (λ d. d.x1) (λ d. d.x3) rows in
      let m21 = moment (λ d. d.x2) (λ d. d.x1) rows in
      let m23 = moment (λ d. d.x2) (λ d. d.x3) rows in
      let m31 = moment (λ d. d.x3) (λ d. d.x1) rows in
      let m32 = moment (λ d. d.x3) (λ d. d.x2) rows in
      let m11 = ops.add (moment (λ d. d.x1) (λ d. d.x1) rows) lam in
      let m22 = ops.add (moment (λ d. d.x2) (λ d. d.x2) rows) lam in
      let m33 = ops.add (moment (λ d. d.x3) (λ d. d.x3) rows) lam in
      triple (triple m11 m12 m13, moment (λ d. d.x1) (λ d. d.y) rows)
        (triple m21 m22 m23, moment (λ d. d.x2) (λ d. d.y) rows)
        (triple m31 m32 m33, moment (λ d. d.x3) (λ d. d.y) rows)

  -- The three tests after the fit: a parameter that is not physical is replaced and named.
  unfoldable pub clamp : Params F → Params F × List Text
  clamp beta =
      let no_dyn = ops.le beta.c_eff (ops.of_ℕ 0) in
      let no_leak = ops.lt beta.k_leak (ops.of_ℕ 0) in
      let no_floor = ops.lt beta.p_sa_floor (ops.of_ℕ 0) in
      (
        record {
          c_eff = if no_dyn then ops.ratio 220 100 else beta.c_eff;
          k_leak = if no_leak then ops.of_ℕ 0 else beta.k_leak;
          p_sa_floor = if no_floor then ops.of_ℕ 0 else beta.p_sa_floor;
        },
        (if no_dyn then codes "C_eff" ∷ [] else [])
            ++ (if no_leak then codes "k_leak" ∷ [] else [])
            ++ (if no_floor then codes "p_sa_floor" ∷ [] else []),
      )

  -- `y - sum(b * x for b, x in zip(beta, rx))`
  unfoldable pub residual : Params F → Design F → F
  unfolding sum
  residual beta d = ops.sub d.y (
      sum ops
        (ops.mul beta.c_eff d.x1 ∷ ops.mul beta.k_leak d.x2 ∷ ops.mul beta.p_sa_floor d.x3 ∷ []))

  unfoldable pub r_squared_of : F → List F → Option F
  unfolding average squares
  r_squared_of explained ys =
      let sstot = squares ops (average ops ys) ys in
      if ops.lt (ops.ratio 1 1000000000000) sstot
      then some (ops.sub (ops.of_ℕ 1) (ops.div explained sstot))
      else none

  unfoldable pub info_of : Params F → ℕ → ℕ → Params F → List (Design F) → Info F
  unfolding clamp residual r_squared_of sum max abs
  info_of prior used skipped beta rows =
      let resid = map (residual beta) rows in
      let squared = sum ops (map (λ r. ops.mul r r) resid) in
      record {
        n_samples_used = used;
        n_rows_skipped = skipped;
        fit = (clamp beta).0;
        prior = prior;
        clamped_to_prior = (clamp beta).1;
        residual_rms_w = ops.sqrt (ops.div squared (ops.of_ℕ (length resid)));
        residual_max_abs_w = max ops (map (abs ops) resid);
        r_squared = r_squared_of squared (map (λ d. d.y) rows);
      }

module _ {F : Type 0} (ops : Floats F) (exp pow2 : F → F) where
  -- From the samples on, with the number of rows that were skipped.
  unfoldable pub fit_samples : Params F → List (Sample F) → ℕ → Calibration F
  unfolding design normal_equations solve_linear clamp info_of
  fit_samples prior samples skipped =
      let rows = map (design ops exp pow2 prior) samples in
      if ltb (length samples) 4
      then too_few_rows (length samples) skipped
      else elim (solve_linear ops 3 (normal_equations ops rows)) [
        | none ↦ singular
        | some beta ↦
            calibrated (clamp ops (params_of beta)).0
              (info_of ops prior (length samples) skipped (params_of beta) rows)
      ]

  unfoldable pub calibrate : Params F → List LogRow → Calibration F
  unfolding load_samples fit_samples
  calibrate prior rows =
      let (samples, skipped) = load_samples ops rows in fit_samples prior samples skipped
