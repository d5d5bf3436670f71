-- ===== src/Rail/Crossover/Sweep.antt =====
-- `experiment_c` of sim/rail_model.py: the sweep ends, and the crossover has the least energy.
use fake_big_little.Prelude.{
  ℕ, zero, suc, ◌<◌, arith, ◌≡◌, refl, sym, ap, ◌∙◌, true, false, Option, none, some, List, [], ◌∷◌,
  All, if◌then◌else◌,
}
use mathlib.Core.Path.{subst}
use fake_big_little.Analyze.Floats.{abs, Floats}
use fake_big_little.Rail.{Params, f_min, hz, ghz, turbo_limit_hz}
use fake_big_little.Rail.Partition.{least_by}
use fake_big_little.Rail.Partition.Best.{least_by-Least}
use fake_big_little.Rail.Crossover.{
  CurvePoint, CrossoverSummary, sweep, curve_point, curve, at_f_min, crossover_of, summary_of,
  experiment_c,
}

-- The number after so many steps.
unfoldable pub stepped : {F : Type 0} → Floats F → F → ℕ → F → F
stepped ops step zero f = f
stepped ops step (suc n) f = stepped ops step n (ops.add f step)

module _ {A F : Type 0} (ops : Floats F) (point : F → A) (limit step : F) where
  -- Once a number of the sweep is above the limit, more rounds add nothing.
  pub sweep_ends :
      (n rounds : ℕ) (f : F)
      → n < rounds
      → ops.le (stepped ops step n f) limit ≡ false
      → sweep ops point limit step rounds f ≡ sweep ops point limit step (suc n) f
  unfolding sweep stepped
  sweep_ends n zero f k h = absurd (omega arith)
  sweep_ends zero (suc rounds) f k h = stop _ ∙ sym (stop _)
    where
      stop : (rest : List A) → (if ops.le f limit then point f ∷ rest else []) ≡ []
      stop rest = ap (λ b. if b then point f ∷ rest else []) h
  sweep_ends (suc n) (suc rounds) f k h =
      ap (λ rest. if ops.le f limit then point f ∷ rest else [])
        (sweep_ends n rounds (ops.add f step) (omega arith) h)

  sweep_starts :
      (n : ℕ) (f : F)
      → ops.le f limit ≡ true
      → sweep ops point limit step (suc n) f
        ≡ point f ∷ sweep ops point limit step n (ops.add f step)
  unfolding sweep
  sweep_starts n f h =
      ap (λ b. if b then point f ∷ sweep ops point limit step n (ops.add f step) else []) h

module _ {F : Type 0} (ops : Floats F) where
  -- The crossover is found, and no point takes less energy.
  abbrev pub Crosses : List (CurvePoint F) → Option (CrossoverSummary F) → Type 0
  Crosses points found =
      (s : CrossoverSummary F) × ((found ≡ some s)
        × ((ops.lt s.energy_at_f_min_j s.crossover_energy_j ≡ false)
            × All (λ (r : CurvePoint F). ops.lt r.e_j s.crossover_energy_j ≡ false) points))

module _ {F : Type 0} (ops : Floats F) (exp pow2 : F → F) (params : Params F)
    (asym : (x y : F) → ops.lt x y ≡ true → ops.lt y x ≡ false)
    (trans : (x y z : F) → ops.lt x y ≡ false → ops.lt y z ≡ false → ops.lt x z ≡ false) where
  summary_of-Least :
      (n_cores : ℕ) (work : F) (p : CurvePoint F) (ps : List (CurvePoint F))
      → ops.lt
          (abs ops (ops.sub p.f_ghz (ghz ops exp pow2 params (f_min ops exp pow2 params))))
          (ops.ratio 1 1000000)
        ≡ true
      → (s : CrossoverSummary F) × ((summary_of ops exp pow2 params n_cores work (p ∷ ps) ≡ some s)
          × ((s.energy_at_f_min_j ≡ p.e_j)
              × All (λ (r : CurvePoint F). ops.lt r.e_j s.crossover_energy_j ≡ false) (p ∷ ps)))
  unfolding summary_of at_f_min crossover_of
  summary_of-Least n_cores work p ps h = (
    summary p,
    (
      ap
          (λ b.
            finish
              (if b then p ∷ at_f_min ops exp pow2 params ps else at_f_min ops exp pow2 params ps))
          h,
      (refl, (least_by-Least ops asym trans (λ (r : CurvePoint F). r.e_j) p ps).1),
    ),
  )
    where
      summary : CurvePoint F → CrossoverSummary F
      summary =
          crossover_of ops exp pow2 params n_cores work
            (least_by ops (λ (r : CurvePoint F). r.e_j) p ps)
            (least_by ops (λ (r : CurvePoint F). r.e_j_no_fixed_floor) p ps)
            (least_by ops (λ (r : CurvePoint F). r.e_j_core_only) p ps)

      finish : List (CurvePoint F) → Option (CrossoverSummary F)
      finish [] = none
      finish (e ∷ _) = some (summary e)

  curve-Crosses :
      (rounds n_cores : ℕ) (work t : F)
      → ops.le
          (f_min ops exp pow2 params)
          (ops.add (turbo_limit_hz ops exp pow2 params n_cores) (ops.of_ℕ 1))
        ≡ true
      → (let g = ghz ops exp pow2 params (f_min ops exp pow2 params) in
          ops.lt (abs ops (ops.sub g g)) (ops.ratio 1 1000000) ≡ true)
      → let points = curve ops exp pow2 params (suc rounds) n_cores work t in
        Crosses ops points (summary_of ops exp pow2 params n_cores work points)
  unfolding curve curve_point
  curve-Crosses rounds n_cores work t h same =
      subst (λ points. Crosses ops points (summary_of ops exp pow2 params n_cores work points))
        (sym starts)
        (let (s, (e, (m, hs))) = summary_of-Least n_cores work _ _ same in
          (s, (e, (subst (λ x. ops.lt x s.crossover_energy_j ≡ false) (sym m) hs.0, hs))))
    where
      starts :
          curve ops exp pow2 params (suc rounds) n_cores work t
          ≡ curve_point ops exp pow2 params n_cores work t (f_min ops exp pow2 params)
            ∷ sweep ops
                (curve_point ops exp pow2 params n_cores work t)
                (ops.add (turbo_limit_hz ops exp pow2 params n_cores) (ops.of_ℕ 1))
                (hz ops exp pow2 params 25)
                rounds
                (ops.add (f_min ops exp pow2 params) (hz ops exp pow2 params 25))
      starts =
          sweep_starts ops (curve_point ops exp pow2 params n_cores work t)
            (ops.add (turbo_limit_hz ops exp pow2 params n_cores) (ops.of_ℕ 1))
            (hz ops exp pow2 params 25) rounds (f_min ops exp pow2 params) h

  -- If the lowest frequency is within the limit, the sweep has a crossover: no point of the curve, and so
  -- not the lowest frequency, takes less energy, for an order that is asymmetric and whose negation is
  -- transitive, and in which that frequency differs from itself by less than a millionth.
  pub experiment_c-Crosses :
      (n_cores : ℕ) (work t : F)
      → ops.le
          (f_min ops exp pow2 params)
          (ops.add (turbo_limit_hz ops exp pow2 params n_cores) (ops.of_ℕ 1))
        ≡ true
      → (let g = ghz ops exp pow2 params (f_min ops exp pow2 params) in
          ops.lt (abs ops (ops.sub g g)) (ops.ratio 1 1000000) ≡ true)
      → let (points, found) = experiment_c ops exp pow2 params n_cores work t in
        Crosses ops points found
  unfolding experiment_c
  experiment_c-Crosses n_cores work t h same = curve-Crosses 144 n_cores work t h same
