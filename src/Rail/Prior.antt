-- ===== src/Rail/Prior.antt =====
-- `PARAMS` of sim/rail_model.py: the rows of a fit do not depend on the parameters that it sets.
use fake_big_little.Prelude.{◌≡◌, refl}
use fake_big_little.Analyze.Floats.{Floats}
use fake_big_little.Rail.{Params, v_of_f, leak_shape, leak_temp_factor}
use fake_big_little.Rail.Samples.{Sample}
use fake_big_little.Rail.Calibrate.{fastest, fixed_power, design}

module _ {F : Type 0} (ops : Floats F) (exp pow2 : F → F) (p q : Params F) where
  pub design_same : (s : Sample F) → design ops exp pow2 p s ≡ design ops exp pow2 q s
  unfolding design v_of_f leak_shape leak_temp_factor fastest fixed_power
  design_same s = refl
