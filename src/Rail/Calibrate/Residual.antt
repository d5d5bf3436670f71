-- ===== src/Rail/Calibrate/Residual.antt =====
-- `calibrate` of sim/rail_model.py: what is fitted is `package_power` with one rail, so a residual is the
-- measured power without the power of the model.
use fake_big_little.Prelude.{
  ◌≡◌, refl, sym, ap, ◌∙◌, Bool, true, false, List, [], ◌∷◌, map, any, ◌||◌, if◌then◌else◌,
}
use fake_big_little.Analyze.Floats.{Floats, sum, max_from}
use fake_big_little.Rail.{Params, Core, Power, is_active, idle_power, active_power, package_power}
use fake_big_little.Rail.Exact.{Exact, left, right, sub_unique}
use fake_big_little.Rail.Prior.{design_same}
use fake_big_little.Rail.Samples.{Sample}
use fake_big_little.Rail.Calibrate.{fastest, design, residual}
use fake_big_little.Rail.Calibrate.Sums.{
  active_cores, fitted, not_fitted, fitted_total, active_power_total,
}

module _ {F : Type 0} (ops : Floats F) (exp pow2 : F → F) (params : Params F)
    (law : Exact ops) where
  -- The power of the model is what is fitted ops exp pow2 params law and the rest.
  package_power_linear :
      (s : Sample F) (c : Core F) (cs : List (Core F))
      → active_cores ops exp pow2 params law s.phys ≡ c ∷ cs
      → (package_power ops exp pow2 params s.phys true s.temp_c).total
        ≡ ops.add
            (sum ops (fitted ops exp pow2 params law s))
            (not_fitted ops exp pow2 params law s)
  unfolding package_power fastest
  package_power_linear s c cs e =
      choice (active_cores ops exp pow2 params law s.phys) e
      ∙ active_power_total ops exp pow2 params law s.phys
          (fastest ops exp pow2 params (active_cores ops exp pow2 params law s.phys)) s.temp_c c cs
          e
      ∙ left ops law (sym (fitted_total ops exp pow2 params law s))
    where
      chosen : List (Core F) → Power F
      chosen [] = idle_power ops exp pow2 params s.phys s.temp_c
      chosen ((f, _) ∷ rest) =
          active_power ops exp pow2 params s.phys (max_from ops f (map (λ (c : Core F). c.0) rest))
            true s.temp_c

      choice :
          (active : List (Core F))
          → active ≡ c ∷ cs
          → (chosen active).total
            ≡ (active_power ops exp pow2 params s.phys
                (fastest ops exp pow2 params active)
                true
                s.temp_c).total
      choice [] h = cc
      choice (b ∷ rest) h = refl

  residual_total :
      (s : Sample F) (p : F)
      → p
        ≡ ops.add
            (sum ops (fitted ops exp pow2 params law s))
            (not_fitted ops exp pow2 params law s)
      → residual ops params (design ops exp pow2 params s) ≡ ops.sub s.pkg_w p
  unfolding residual design
  residual_total s p e =
      sub_unique ops law (residual ops params (design ops exp pow2 params s)) s.pkg_w p (
        right ops law e
        ∙ sym (law.add_assoc _ _ _)
        ∙ left ops law (law.sub_add _ _)
        ∙ law.sub_add s.pkg_w (not_fitted ops exp pow2 params law s))

  some_active :
      (cores : List (Core F))
      → any (λ c. is_active ops exp pow2 params c) cores ≡ true
      → (c : Core F) × ((cs : List (Core F)) × (active_cores ops exp pow2 params law cores
            ≡ c ∷ cs))
  some_active [] h = cc
  some_active (c ∷ cores) h = first (is_active ops exp pow2 params c) h (some_active cores)
    where
      first :
          (active : Bool)
          → (active || any (λ c. is_active ops exp pow2 params c) cores) ≡ true
          → (any (λ c. is_active ops exp pow2 params c) cores ≡ true
              → (b : Core F) × ((cs : List (Core F)) × (active_cores ops exp pow2 params law cores
                    ≡ b ∷ cs)))
          → (b : Core F) × ((cs : List (Core F)) × ((if active
                  then c ∷ active_cores ops exp pow2 params law cores
                  else active_cores ops exp pow2 params law cores)
                ≡ b ∷ cs))
      first true h later = (c, (active_cores ops exp pow2 params law cores, refl))
      first false h later = later h

module _ {F : Type 0} (ops : Floats F) (exp pow2 : F → F) where
  -- In exact arithmetic the residual of a sample with an active core is the measured package power
  -- without the one that the model with one rail and the fitted parameters gives for the sample.
  pub residual-package_power :
      Exact ops
      → (prior beta : Params F) (s : Sample F)
      → any (λ c. is_active ops exp pow2 beta c) s.phys ≡ true
      → residual ops beta (design ops exp pow2 prior s)
        ≡ ops.sub s.pkg_w (package_power ops exp pow2 beta s.phys true s.temp_c).total
  residual-package_power law prior beta s h =
      let (c, (cs, e)) = some_active ops exp pow2 beta law s.phys h in
      ap (residual ops beta) (design_same ops exp pow2 prior beta s)
      ∙ residual_total ops exp pow2 beta law s _
          (package_power_linear ops exp pow2 beta law s c cs e)
