-- ===== src/Rail/Calibrate/Physical.antt =====
-- `calibrate` of sim/rail_model.py: the bounds of the parameters that it sets, and that they do not
-- depend on those before.
use fake_big_little.Prelude.{
  ℕ, ◌≡◌, refl, sym, ap, ◌∙◌, Bool, true, false, Option, none, some, List, map, length, ltb,
  if◌then◌else◌,
}
use mathlib.Core.Path.{subst, fun_ext}
use mathlib.Core.Option.{some-injective}
use fake_big_little.Analyze.Floats.{Floats}
use fake_big_little.Rail.{Params}
use fake_big_little.Rail.Linear.{Vec, solve_linear}
use fake_big_little.Rail.Prior.{design_same}
use fake_big_little.Rail.Samples.{LogRow, Sample, load_samples}
use fake_big_little.Rail.Calibrate.{
  Design, Info, Calibration, too_few_rows, singular, calibrated, params_of, design,
  normal_equations, clamp, info_of, fit_samples, calibrate,
}

module _ {F : Type 0} (ops : Floats F) where
  abbrev pub Physical : Params F → Type 0
  Physical params =
      (ops.le params.c_eff (ops.of_ℕ 0) ≡ false)
      × ((ops.lt params.k_leak (ops.of_ℕ 0) ≡ false)
          × (ops.lt params.p_sa_floor (ops.of_ℕ 0) ≡ false))

  replaced :
      (test : F → Bool) (default x : F)
      → test default ≡ false
      → test (if test x then default else x) ≡ false
  replaced test default x e = split (test x) refl
    where
      split : (b : Bool) → test x ≡ b → test (if b then default else x) ≡ false
      split true h = e
      split false h = h

  clamp-Physical :
      ops.le (ops.ratio 220 100) (ops.of_ℕ 0) ≡ false
      → ops.lt (ops.of_ℕ 0) (ops.of_ℕ 0) ≡ false
      → (beta : Params F) → Physical (clamp ops beta).0
  unfolding clamp
  clamp-Physical positive zero beta = (
    replaced (λ x. ops.le x (ops.of_ℕ 0)) _ beta.c_eff positive,
    (
      replaced (λ x. ops.lt x (ops.of_ℕ 0)) _ beta.k_leak zero,
      replaced (λ x. ops.lt x (ops.of_ℕ 0)) _ beta.p_sa_floor zero,
    ),
  )

module _ {F : Type 0} (ops : Floats F) (exp pow2 : F → F) where
  -- The parameters that are set, if any.
  abbrev pub new_params : Calibration F → Option (Params F)
  new_params (calibrated params _) = some params
  new_params _ = none

  fitted_params : List (Design F) → Bool → Option (Params F)
  fitted_params rows few = elim few [
    | true ↦ none
    | false ↦ elim (solve_linear ops 3 (normal_equations ops rows)) [
      | none ↦ none
      | some beta ↦ some (clamp ops (params_of beta)).0
    ]
  ]

  new_params-fit_samples :
      (prior : Params F) (samples : List (Sample F)) (skipped : ℕ)
      → new_params (fit_samples ops exp pow2 prior samples skipped)
        ≡ fitted_params (map (design ops exp pow2 prior) samples) (ltb (length samples) 4)
  unfolding fit_samples fitted_params
  new_params-fit_samples prior samples skipped =
      split (ltb (length samples) 4) (solve_linear ops 3 (normal_equations ops rows))
    where
      rows : List (Design F)
      rows = map (design ops exp pow2 prior) samples

      split :
          (few : Bool) (solved : Option (Vec F 3))
          → new_params (
              if few then too_few_rows (length samples) skipped else elim solved [
                | none ↦ singular
                | some beta ↦
                    calibrated
                      (clamp ops (params_of beta)).0
                      (info_of ops prior (length samples) skipped (params_of beta) rows)
              ])
            ≡ elim few [
              | true ↦ none
              | false ↦ elim solved [
                | none ↦ none
                | some beta ↦ some (clamp ops (params_of beta)).0
              ]
            ]
      split true solved = refl
      split false none = refl
      split false (some beta) = refl

  fitted_params-Physical :
      ops.le (ops.ratio 220 100) (ops.of_ℕ 0) ≡ false
      → ops.lt (ops.of_ℕ 0) (ops.of_ℕ 0) ≡ false
      → (rows : List (Design F)) (few : Bool) (params : Params F)
      → fitted_params rows few ≡ some params
      → Physical ops params
  unfolding fitted_params
  fitted_params-Physical positive zero rows true params e = cc
  fitted_params-Physical positive zero rows false params e =
      split (solve_linear ops 3 (normal_equations ops rows)) e
    where
      split :
          (solved : Option (Vec F 3))
          → elim solved [ none ↦ none | some beta ↦ some (clamp ops (params_of beta)).0 ]
            ≡ some params
          → Physical ops params
      split none e = cc
      split (some beta) e =
          subst (Physical ops) (some-injective _ _ e)
            (clamp-Physical ops positive zero (params_of beta))

  -- The parameters that a calibration sets are physical: a capacitance above zero, a leakage and a floor
  -- not below, if 2.2 is above 0 and 0 not below itself.
  pub calibrate-Physical :
      ops.le (ops.ratio 220 100) (ops.of_ℕ 0) ≡ false
      → ops.lt (ops.of_ℕ 0) (ops.of_ℕ 0) ≡ false
      → (prior : Params F) (rows : List LogRow) (params : Params F) (info : Info F)
      → calibrate ops exp pow2 prior rows ≡ calibrated params info
      → Physical ops params
  unfolding calibrate
  calibrate-Physical positive zero prior rows params info e =
      let loaded = load_samples ops rows in
      fitted_params-Physical positive zero (map (design ops exp pow2 prior) loaded.0)
        (ltb (length loaded.0) 4) params
        (sym (new_params-fit_samples prior loaded.0 loaded.1) ∙ ap new_params e)

  -- The parameters that a calibration sets do not depend on those that were set before: a parameter that
  -- is not physical becomes a constant.
  pub calibrate_forgets :
      (p q : Params F) (rows : List LogRow)
      → new_params (calibrate ops exp pow2 p rows) ≡ new_params (calibrate ops exp pow2 q rows)
  unfolding calibrate
  calibrate_forgets p q rows =
      let loaded = load_samples ops rows in
      new_params-fit_samples p loaded.0 loaded.1
      ∙ ap (λ f. fitted_params (map f loaded.0) (ltb (length loaded.0) 4))
          (fun_ext (design_same ops exp pow2 p q))
      ∙ sym (new_params-fit_samples q loaded.0 loaded.1)
