-- ===== src/Rail/Light.antt =====
-- `experiment_a` of sim/rail_model.py: light threads beside a core at turbo, and their marginal power.
pub mod Placed
use fake_big_little.Prelude.{
  ℕ, zero, suc, ◌+◌, ◌-◌, ◌*◌, ◌%◌, Bool, true, false, Option, none, some, List, [], ◌∷◌, map,
  range_from, replicate, leb, if◌then◌else◌,
}
use fake_big_little.Analyze.Floats.{Floats, sum}
use fake_big_little.Rail.{
  Params, Core, f_min, v_of_f, leak_shape, core_leakage_w, ghz, is_active, package_power,
  turbo_limit_hz,
}

-- An entry of `rows`; `none` is the NaN or the infinity in place of a quotient by almost nothing.
pub record LightRow (F : Type 0) : Type 0 where
  pub n_light : ℕ
  pub n_light_on_big_sibling : ℕ
  pub marginal_w_shared : F
  pub marginal_w_split : F
  pub marginal_w_no_partition : F
  pub rail_tax_w : F
  pub cost_ratio_shared_over_split : Option F
  pub saving_retained_frac : Option F
  pub saving_destroyed_frac : Option F
  pub pkg_w_shared : F
  pub pkg_w_split : F

-- `detail`
pub record LightDetail (F : Type 0) : Type 0 where
  pub f_big_ghz : F
  pub v_rail_big_v : F
  pub f_light_ghz : F
  pub v_light_if_split_v : F
  pub light_activity : F
  pub one_light_core_shared_dyn_w : F
  pub one_light_core_shared_leak_w : F
  pub one_light_core_split_dyn_w : F
  pub one_light_core_split_leak_w : F
  pub one_light_core_shared_total_w : F
  pub one_light_core_split_total_w : F
  pub one_light_core_cost_ratio : F
  pub v_squared_penalty : F
  pub leak_penalty : F

-- The core that a light thread is put on: three cores, their siblings, and then the big core.
unfoldable pub light_core : ℕ → ℕ
light_core k = if leb (2 * 3) k then 0 else 1 + k % 3

-- `n_siblings_on_big`: subtraction stops at 0
unfoldable pub siblings_on_big : ℕ → ℕ
siblings_on_big n_light = n_light - 2 * 3

module _ {F : Type 0} (ops : Floats F) where
  -- `phys_light_activity[pc] += light_activity`
  unfoldable pub add_at : F → ℕ → List F → List F
  add_at a pc [] = []
  add_at a zero (x ∷ xs) = ops.add x a ∷ xs
  add_at a (suc pc) (x ∷ xs) = x ∷ add_at a pc xs

  -- The loop over the light threads.
  unfoldable pub add_lights : F → List ℕ → List F → List F
  unfolding add_at light_core
  add_lights a [] activities = activities
  add_lights a (k ∷ ks) activities = add_lights a ks (add_at a (light_core k) activities)

  unfoldable pub light_activities : F → ℕ → List F
  unfolding add_lights
  light_activities a n_light = add_lights a (range_from 0 n_light) (replicate 4 (ops.of_ℕ 0))

  -- `min(activity, 1.0)`
  abbrev at_most_one : F → F
  at_most_one a = if ops.lt (ops.of_ℕ 1) a then ops.of_ℕ 1 else a

module _ {F : Type 0} (ops : Floats F) (exp pow2 : F → F) (params : Params F) where
  abbrev f_big : F
  f_big = turbo_limit_hz ops exp pow2 params 1

  -- A core with light threads at the given frequency, or asleep.
  abbrev light_state : F → F → Core F
  light_state f activity =
      let a = at_most_one ops activity in
      if is_active ops exp pow2 params (f, a)
      then (f, a)
      else (f_min ops exp pow2 params, ops.of_ℕ 0)

  -- `build`, and with the frequency of the big core `naive_states`: the big core and the other three
  unfoldable pub states_with : F → List F → List (Core F)
  unfolding turbo_limit_hz
  states_with f [] = []
  states_with f (_ ∷ others) = (f_big, ops.of_ℕ 1) ∷ map (light_state f) others

  unfoldable pub base_states : List (Core F)
  unfolding turbo_limit_hz
  base_states = (f_big, ops.of_ℕ 1) ∷ replicate 3 (f_min ops exp pow2 params, ops.of_ℕ 0)

  -- `x / y if y > 1e-9`
  abbrev ratio_of : F → F → Option F
  ratio_of x y = if ops.lt (ops.ratio 1 1000000000) y then some (ops.div x y) else none

  abbrev missing : Option F → Option F
  missing none = none
  missing (some r) = some (ops.sub (ops.of_ℕ 1) r)

  -- The body of the loop over the numbers of light threads.
  unfoldable pub light_row : F → F → F → ℕ → LightRow F
  unfolding light_activities siblings_on_big states_with base_states package_power
  light_row light_activity f_light t n_light =
      let activities = light_activities ops light_activity n_light in
      let with_states = states_with f_light activities in
      let power = λ (states : List (Core F)) (shared : Bool).
        (package_power ops exp pow2 params states shared t).total in
      let p_base_sh = power base_states true in
      let p_with_sh = power with_states true in
      let p_with_sp = power with_states false in
      let marg_sh = ops.sub p_with_sh p_base_sh in
      let marg_sp = ops.sub p_with_sp (power base_states false) in
      let marg_naive = ops.sub (power (states_with f_big activities) true) p_base_sh in
      let retained = ratio_of (ops.sub marg_naive marg_sh) (ops.sub marg_naive marg_sp) in
      record {
        n_light = n_light;
        n_light_on_big_sibling = siblings_on_big n_light;
        marginal_w_shared = marg_sh;
        marginal_w_split = marg_sp;
        marginal_w_no_partition = marg_naive;
        rail_tax_w = ops.sub marg_sh marg_sp;
        cost_ratio_shared_over_split = ratio_of marg_sh marg_sp;
        saving_retained_frac = retained;
        saving_destroyed_frac = missing retained;
        pkg_w_shared = p_with_sh;
        pkg_w_split = p_with_sp;
      }

  -- `rows`
  unfoldable pub light_rows : F → F → F → ℕ → List (LightRow F)
  unfolding light_row
  light_rows light_activity f_light t max_light_cores =
      map (light_row light_activity f_light t) (range_from 1 max_light_cores)

  abbrev one_light_dyn : F → F → F → F
  one_light_dyn activity v f =
      ops.div (ops.mul (ops.mul (ops.mul activity params.c_eff) (ops.mul v v)) f)
        (ops.of_ℕ 1000000000)

  unfoldable pub light_detail : F → F → F → LightDetail F
  unfolding turbo_limit_hz v_of_f core_leakage_w leak_shape sum
  light_detail light_activity f_light t =
      let v_big = v_of_f ops exp pow2 params f_big in
      let v_lit = v_of_f ops exp pow2 params f_light in
      let dyn_shared = one_light_dyn light_activity v_big f_light in
      let leak_shared = core_leakage_w ops exp pow2 params v_big true t in
      let dyn_split = one_light_dyn light_activity v_lit f_light in
      let leak_split = core_leakage_w ops exp pow2 params v_lit true t in
      let one_shared = sum ops (dyn_shared ∷ leak_shared ∷ []) in
      let one_split = sum ops (dyn_split ∷ leak_split ∷ []) in
      let penalty = ops.div v_big v_lit in
      record {
        f_big_ghz = ghz ops exp pow2 params f_big;
        v_rail_big_v = v_big;
        f_light_ghz = ghz ops exp pow2 params f_light;
        v_light_if_split_v = v_lit;
        light_activity = light_activity;
        one_light_core_shared_dyn_w = dyn_shared;
        one_light_core_shared_leak_w = leak_shared;
        one_light_core_split_dyn_w = dyn_split;
        one_light_core_split_leak_w = leak_split;
        one_light_core_shared_total_w = one_shared;
        one_light_core_split_total_w = one_split;
        one_light_core_cost_ratio = ops.div one_shared one_split;
        v_squared_penalty = ops.mul penalty penalty;
        leak_penalty =
            ops.div (leak_shape ops exp pow2 params v_big) (leak_shape ops exp pow2 params v_lit);
      }

  unfoldable pub experiment_a : F → F → F → ℕ → List (LightRow F) × LightDetail F
  unfolding light_rows light_detail
  experiment_a light_activity f_light t max_light_cores =
      (light_rows light_activity f_light t max_light_cores, light_detail light_activity f_light t)
