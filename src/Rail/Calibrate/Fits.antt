-- ===== src/Rail/Calibrate/Fits.antt =====
-- `calibrate` of sim/rail_model.py: the parameters that it sets.
use fake_big_little.Prelude.{
  ℕ, ◌≤◌, ◌≡◌, refl, Bool, true, false, Option, none, some, List, map, length, ltb, if◌then◌else◌,
  arith,
}
use fake_big_little.Analyze.Floats.{Floats}
use fake_big_little.Rail.{Params}
use fake_big_little.Rail.Linear.{Vec, solve_linear}
use fake_big_little.Rail.Linear.Solves.{Every, Holds, solve_linear_solves}
use fake_big_little.Rail.Exact.{Exact}
use fake_big_little.Rail.Samples.{LogRow, Sample, load_samples}
use fake_big_little.Rail.Calibrate.{
  Design, Info, too_few_rows, singular, calibrated, params_of, design, normal_equations, clamp,
  info_of, fit_samples, calibrate,
}

module _ {F : Type 0} (ops : Floats F) (exp pow2 : F → F) where
  -- What holds of the parameters that are fitted to the samples.
  abbrev pub Fitted : Params F → List (Sample F) → Params F → Type 0
  Fitted prior samples params =
      (4 ≤ length samples)
      × ((beta : Vec F 3) × (Every (Holds ops beta)
              (normal_equations ops (map (design ops exp pow2 prior) samples))
            × (params ≡ (clamp ops (params_of beta)).0)))

  fit_samples-Fitted :
      Exact ops
      → (prior : Params F) (samples : List (Sample F)) (skipped : ℕ) (params : Params F)
        (info : Info F)
      → fit_samples ops exp pow2 prior samples skipped ≡ calibrated params info
      → Fitted prior samples params
  unfolding fit_samples
  fit_samples-Fitted law prior samples skipped params info =
      split (ltb (length samples) 4) (solve_linear ops 3 (normal_equations ops rows)) refl
        (solve_linear_solves ops law 3 (normal_equations ops rows))
    where
      rows : List (Design F)
      rows = map (design ops exp pow2 prior) samples

      split :
          (few : Bool) (solved : Option (Vec F 3))
          → ltb (length samples) 4 ≡ few
          → ((beta : Vec F 3)
              → solved ≡ some beta
              → Every (Holds ops beta) (normal_equations ops rows))
          → (if few then too_few_rows (length samples) skipped else elim solved [
            | none ↦ singular
            | some beta ↦
                calibrated
                  (clamp ops (params_of beta)).0
                  (info_of ops prior (length samples) skipped (params_of beta) rows)
          ])
            ≡ calibrated params info
          → Fitted prior samples params
      split true solved p q e = cc
      split false none p q e = cc
      split false (some beta) p q e = (ground arith, (beta, (q beta refl, cc)))

  -- Parameters that the calibration sets stand, in exact arithmetic, for a solution of the normal
  -- equations of at least four samples, up to the replacement of those that are not physical.
  pub calibrate-Fitted :
      Exact ops
      → (prior : Params F) (rows : List LogRow) (params : Params F) (info : Info F)
      → calibrate ops exp pow2 prior rows ≡ calibrated params info
      → Fitted prior (load_samples ops rows).0 params
  unfolding calibrate
  calibrate-Fitted law prior rows params info e =
      fit_samples-Fitted law prior (load_samples ops rows).0 (load_samples ops rows).1 params info e
