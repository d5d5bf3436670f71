-- ===== src/Rail/Calibrate/Sums.antt =====
-- `package_power` and `calibrate` of sim/rail_model.py: the sums over the cores, with one rail, are linear
-- in the fitted parameters.
use fake_big_little.Prelude.{
  ◌≡◌, refl, sym, ap, ◌∙◌, Bool, true, false, List, [], ◌∷◌, map, keep, if◌then◌else◌,
}
use fake_big_little.Analyze.Floats.{Floats, sum, sum_from}
use fake_big_little.Rail.{
  Params, Core, v_of_f, leak_shape, leak_temp_factor, core_leakage_w, ghz, is_active, add_cores,
  clamp_ring, active_power,
}
use fake_big_little.Rail.Exact.{Exact, left, right, add_zero, mul_zero}
use fake_big_little.Rail.Samples.{Sample}
use fake_big_little.Rail.Calibrate.{fastest, fixed_power, design}

module _ {F : Type 0} (ops : Floats F) (law : Exact ops) where
  -- The sum by recursion.
  abbrev total : List F → F
  total [] = ops.of_ℕ 0
  total (x ∷ xs) = ops.add x (total xs)

  sum_from-total : (s : F) (xs : List F) → sum_from ops s xs ≡ ops.add s (total xs)
  unfolding sum_from
  sum_from-total s [] = sym (add_zero ops law s)
  sum_from-total s (x ∷ xs) = sum_from-total (ops.add s x) xs ∙ law.add_assoc s x (total xs)

  sum-total : (xs : List F) → sum ops xs ≡ total xs
  unfolding sum
  sum-total xs = sum_from-total (ops.of_ℕ 0) xs ∙ law.zero_add (total xs)

module _ {F : Type 0} (ops : Floats F) (exp pow2 : F → F) (params : Params F)
    (law : Exact ops) where
  abbrev x1_term : F → Core F → F
  x1_term v c = ops.mul (ops.mul c.1 (ops.mul v v)) (ghz ops exp pow2 params c.0)

  abbrev x2_term : F → F → Core F → F
  x2_term v t c =
      ops.mul (ops.mul (leak_shape ops exp pow2 params v) (leak_temp_factor ops exp pow2 params t))
        (if is_active ops exp pow2 params c then ops.of_ℕ 1 else ops.ratio 1 10)

  -- One core's share of the two sums.
  dyn_term :
      (v : F) (c : Core F)
      → ops.mul (ops.mul (ops.mul c.1 params.c_eff) (ops.mul v v)) (ghz ops exp pow2 params c.0)
        ≡ ops.mul params.c_eff (x1_term v c)
  dyn_term v c =
      ap (λ z. ops.mul z (ghz ops exp pow2 params c.0))
        (ap (λ z. ops.mul z (ops.mul v v)) (law.mul_comm c.1 params.c_eff)
          ∙ law.mul_assoc params.c_eff c.1 (ops.mul v v))
      ∙ law.mul_assoc params.c_eff (ops.mul c.1 (ops.mul v v)) (ghz ops exp pow2 params c.0)

  leak_term :
      (v t : F) (c : Core F)
      → core_leakage_w ops exp pow2 params v (is_active ops exp pow2 params c) t
        ≡ ops.mul params.k_leak (x2_term v t c)
  unfolding core_leakage_w
  leak_term v t c = by_state (is_active ops exp pow2 params c)
    where
      shape : F
      shape = leak_shape ops exp pow2 params v

      tf : F
      tf = leak_temp_factor ops exp pow2 params t

      by_state :
          (active : Bool)
          → let g = ops.mul (ops.mul params.k_leak shape) tf in
            (if active then g else ops.mul g (ops.ratio 1 10))
            ≡ ops.mul params.k_leak
                (ops.mul (ops.mul shape tf) (if active then ops.of_ℕ 1 else ops.ratio 1 10))
      by_state true =
          law.mul_assoc params.k_leak shape tf
          ∙ ap (ops.mul params.k_leak) (sym (law.mul_one (ops.mul shape tf)))
      by_state false =
          ap (λ z. ops.mul z (ops.ratio 1 10)) (law.mul_assoc params.k_leak shape tf)
          ∙ law.mul_assoc params.k_leak (ops.mul shape tf) (ops.ratio 1 10)

  -- A term that is added and then the sum of the others is the sum of them all.
  add_term :
      (s k x rest : F)
      → ops.add (ops.add s (ops.mul k x)) (ops.mul k rest) ≡ ops.add s (ops.mul k (ops.add x rest))
  add_term s k x rest =
      law.add_assoc s (ops.mul k x) (ops.mul k rest) ∙ right ops law (sym (law.mul_add k x rest))

  abbrev pub active_cores : List (Core F) → List (Core F)
  active_cores cores = keep (λ c. is_active ops exp pow2 params c) cores

  abbrev X1 : F → List (Core F) → F
  X1 v cores = total ops law (map (x1_term v) cores)

  abbrev X2 : F → F → List (Core F) → F
  X2 v t cores = total ops law (map (x2_term v t) cores)

  dyn_step :
      (v : F) (c : Core F) (rest : List (Core F)) (active : Bool) (dyn : F)
      → ops.add
          (if active
            then ops.add dyn (
                ops.mul
                  (ops.mul (ops.mul c.1 params.c_eff) (ops.mul v v))
                  (ghz ops exp pow2 params c.0))
            else dyn)
          (ops.mul params.c_eff (X1 v rest))
        ≡ ops.add dyn (ops.mul params.c_eff (X1 v (if active then c ∷ rest else rest)))
  dyn_step v c rest true dyn =
      left ops law (right ops law (dyn_term v c))
      ∙ add_term dyn params.c_eff (x1_term v c) (X1 v rest)
  dyn_step v c rest false dyn = refl

  pair_eq : {x y z w : F} → x ≡ y → z ≡ w → ◌≡◌ {A = F × F} (x, z) (y, w)
  pair_eq {y} {z} e h = ap (λ k. (k, z)) e ∙ ap (λ k. (y, k)) h

  add_cores_sums :
      (v t : F) (cores : List (Core F)) (dyn leak : F)
      → add_cores ops exp pow2 params true v t cores (dyn, leak) ≡ (
        ops.add dyn (ops.mul params.c_eff (X1 v (active_cores cores))),
        ops.add leak (ops.mul params.k_leak (X2 v t cores)),
      )
  unfolding add_cores
  add_cores_sums v t [] dyn leak =
      pair_eq (sym (right ops law (mul_zero ops law params.c_eff) ∙ add_zero ops law dyn))
        (sym (right ops law (mul_zero ops law params.k_leak) ∙ add_zero ops law leak))
  add_cores_sums v t ((f, a) ∷ cores) dyn leak =
      add_cores_sums v t cores _ _
      ∙ pair_eq (dyn_step v (f, a) (active_cores cores) (is_active ops exp pow2 params (f, a)) dyn)
          (left ops law (right ops law (leak_term v t (f, a)))
            ∙ add_term leak params.k_leak (x2_term v t (f, a)) (X2 v t cores))

  regroup :
      (a b p ring traffic : F)
      → ops.add
          (ops.add (ops.add (ops.of_ℕ 0) a) (ops.add (ops.of_ℕ 0) b))
          (ops.add (ops.add p ring) traffic)
        ≡ ops.add
            (ops.add a (ops.add b (ops.add (ops.mul p (ops.of_ℕ 1)) (ops.of_ℕ 0))))
            (ops.add ring traffic)
  regroup a b p ring traffic =
      left ops law (left ops law (law.zero_add a) ∙ right ops law (law.zero_add b))
      ∙ right ops law (law.add_assoc p ring traffic)
      ∙ sym (law.add_assoc (ops.add a b) p (ops.add ring traffic))
      ∙ left ops law (
          law.add_assoc a b p
          ∙ right ops law
              (right ops law (sym (add_zero ops law (ops.mul p (ops.of_ℕ 1)) ∙ law.mul_one p))))

  abbrev pub fitted : Sample F → List F
  fitted s =
      ops.mul params.c_eff (design ops exp pow2 params s).x1
      ∷ ops.mul params.k_leak (design ops exp pow2 params s).x2
      ∷ ops.mul params.p_sa_floor (design ops exp pow2 params s).x3
      ∷ []

  abbrev pub not_fitted : Sample F → F
  not_fitted s =
      fixed_power ops exp pow2 params (fastest ops exp pow2 params (active_cores s.phys))
        (active_cores s.phys)

  pub fitted_total :
      (s : Sample F)
      → let v = v_of_f ops exp pow2 params (fastest ops exp pow2 params (active_cores s.phys)) in
        sum ops (fitted s)
        ≡ ops.add (ops.mul params.c_eff (X1 v (active_cores s.phys))) (
            ops.add
              (ops.mul params.k_leak (X2 v s.temp_c s.phys))
              (ops.add (ops.mul params.p_sa_floor (ops.of_ℕ 1)) (ops.of_ℕ 0)))
  unfolding design
  fitted_total s =
      let v = v_of_f ops exp pow2 params (fastest ops exp pow2 params (active_cores s.phys)) in
      sum-total ops law (fitted s)
      ∙ left ops law
          (ap (ops.mul params.c_eff) (sum-total ops law (map (x1_term v) (active_cores s.phys))))
      ∙ right ops law (
          left ops law
            (ap (ops.mul params.k_leak) (sum-total ops law (map (x2_term v s.temp_c) s.phys))))

  abbrev ring_power : F → F
  ring_power f =
      let f_ring = clamp_ring ops exp pow2 params f in
      let v_ring = v_of_f ops exp pow2 params f_ring in
      ops.mul (ops.mul (ops.ratio 55 100) (ops.mul v_ring v_ring)) (ghz ops exp pow2 params f_ring)

  abbrev traffic_power : List (Core F) → F
  traffic_power active =
      ops.mul (ops.ratio 12 100)
        (sum ops (map (λ (c : Core F). ghz ops exp pow2 params (ops.mul c.1 c.0)) active))

  fixed_power_lem :
      (f : F) (active : List (Core F)) (c : Core F) (cs : List (Core F))
      → active ≡ c ∷ cs
      → fixed_power ops exp pow2 params f active ≡ ops.add (ring_power f) (traffic_power active)
  unfolding fixed_power
  fixed_power_lem f [] c cs e = cc
  fixed_power_lem f (b ∷ active) c cs e = refl

  pub active_power_total :
      (cores : List (Core F)) (f t : F) (c : Core F) (cs : List (Core F))
      → active_cores cores ≡ c ∷ cs
      → let v = v_of_f ops exp pow2 params f in
        (active_power ops exp pow2 params cores f true t).total
        ≡ ops.add
            (ops.add (ops.mul params.c_eff (X1 v (active_cores cores))) (
              ops.add
                (ops.mul params.k_leak (X2 v t cores))
                (ops.add (ops.mul params.p_sa_floor (ops.of_ℕ 1)) (ops.of_ℕ 0))))
            (fixed_power ops exp pow2 params f (active_cores cores))
  unfolding active_power
  active_power_total cores f t c cs e =
      left ops law (
        ap (λ (z : F × F). ops.add z.0 z.1)
          (add_cores_sums (v_of_f ops exp pow2 params f) t cores (ops.of_ℕ 0) (ops.of_ℕ 0)))
      ∙ regroup _ _ params.p_sa_floor (ring_power f) (traffic_power (active_cores cores))
      ∙ right ops law (sym (fixed_power_lem f (active_cores cores) c cs e))
