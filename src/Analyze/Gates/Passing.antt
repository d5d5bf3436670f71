-- ===== src/Analyze/Gates/Passing.antt =====
-- `quality_gates` and `placement_sanity` of scripts/analyze.py: what passing gates rule out.
use fake_big_little.Prelude.{
  ◌≡◌, refl, sym, ◌∙◌, Bool, true, false, not, ◌&&◌, ◌||◌, Option, none, some, List, [], ◌∷◌, ◌++◌,
  arith, if◌then◌else◌, any, every, ◌==◌,
}
use fake_big_little.Analyze.Floats.{Floats}
use fake_big_little.Analyze.Rows.{Row}
use fake_big_little.Analyze.Groups.{Arms}
use fake_big_little.Analyze.Resampling.{Chance}
use fake_big_little.Analyze.Contrast.{Metric}
use fake_big_little.Analyze.Gates.{
  Gate, GateName, gate, skip, info, placement_counters, any_fail, is_fail, fail_if, is_true,
  all_rows, is_complete, completion_gate, thermal_gate, throttle_limit, max_temps, quality_gates,
}
use fake_big_little.Analyze.Placement.{
  Placement, is_over, placement_gate, placement_gates, placements, placement_sanity,
}

pub any-append :
    {A : Type 0} (p : A → Bool) (xs ys : List A) → any p (xs ++ ys) ≡ (any p xs || any p ys)
any-append p [] ys = refl
any-append p (x ∷ xs) ys = ground (arith, any-append p xs ys)

every_of_any :
    {A : Type 0} (p : A → Bool) (xs : List A) → any (λ a. not (p a)) xs ≡ false → every p xs ≡ true
every_of_any p [] h = refl
every_of_any p (x ∷ xs) h = ground (arith, every_of_any p xs)

first_and_fourth :
    (a b c d : Gate) (gates : List Gate)
    → any_fail (a ∷ b ∷ c ∷ d ∷ gates) ≡ false
    → (is_fail a.status ≡ false) × (is_fail d.status ≡ false)
unfolding any_fail
first_and_fourth a b c d gates h = ground arith

module _ {F : Type 0} (ops : Floats F) (chance : Chance F) where
  fail_if_fails : (b : Bool) → is_fail (fail_if b) ≡ b
  fail_if_fails true = refl
  fail_if_fails false = refl

  completion_gate_passes :
      (rows : List (Row F))
      → is_fail (completion_gate ops chance rows).status ≡ false
      → every (is_complete ops chance) rows ≡ true
  unfolding completion_gate
  completion_gate_passes rows h =
      every_of_any (is_complete ops chance) rows (sym (fail_if_fails _) ∙ h)

  thermal_gate_passes :
      (rows : List (Row F))
      → is_fail (thermal_gate ops chance rows).status ≡ false
      → any (λ v. ops.le (throttle_limit ops chance) v) (max_temps ops chance rows) ≡ false
  unfolding thermal_gate
  thermal_gate_passes rows h = on_temps (max_temps ops chance rows) h
    where
      on_temps :
          (ts : List F)
          → is_fail (elim ts [
            | [] ↦ skip
            | t ∷ ts' ↦ fail_if (any (λ v. ops.le (throttle_limit ops chance) v) (t ∷ ts'))
          ])
            ≡ false
          → any (λ v. ops.le (throttle_limit ops chance) v) ts ≡ false
      on_temps [] k = refl
      on_temps (t ∷ ts') k = sym (fail_if_fails _) ∙ k

  -- Where no quality gate fails, each run has ended well with exit code 0, and no highest temperature
  -- that was recorded came near the one at which the processor throttles.
  pub quality_gates_pass :
      (arms : Arms ops) (ms : List Metric)
      → any_fail (quality_gates ops chance arms ms).0 ≡ false
      → (every (is_complete ops chance) (all_rows ops chance arms) ≡ true)
        × (any
              (λ v. ops.le (throttle_limit ops chance) v)
              (max_temps ops chance (all_rows ops chance arms))
            ≡ false)
  unfolding quality_gates
  quality_gates_pass arms ms h =
      let rows = all_rows ops chance arms in
      let passed = first_and_fourth _ _ _ _ _ h in
      (completion_gate_passes rows passed.0, thermal_gate_passes rows passed.1)

  -- A strict arm with more cross-domain traffic than its budget.
  abbrev pub leaves_domain : Placement ops chance → Bool
  leaves_domain p = is_true p.strict && is_over ops chance p.cross_frac_mean

  placement_gate_fails :
      (p : Placement ops chance) → any_fail (placement_gate ops chance p) ≡ leaves_domain p
  unfolding placement_gate any_fail
  placement_gate_fails p = on_mean p.cross_frac_mean (is_true p.strict)
    where
      on_mean :
          (m : Option F) (strict : Bool)
          → any
              (λ g. is_fail g.status)
              (elim m as (λ _. List Gate) [
                | none ↦ []
                | some x ↦
                    if strict
                    then gate
                        (GateName.placement p.arm true)
                        (fail_if (is_over ops chance (some x)))
                      ∷ []
                    else gate (GateName.placement p.arm false) info ∷ []
              ])
            ≡ (strict && is_over ops chance m)
      on_mean none true = refl
      on_mean none false = refl
      on_mean (some x) true = ground (arith, fail_if_fails (is_over ops chance (some x)))
      on_mean (some x) false = refl

  placement_gates_fail :
      (ps : List (Placement ops chance))
      → any_fail (placement_gates ops chance ps) ≡ any leaves_domain ps
  unfolding placement_gates any_fail
  placement_gates_fail [] = refl
  placement_gates_fail (p ∷ ps) =
      any-append _ (placement_gate ops chance p) (placement_gates ops chance ps)
      ∙ rw (placement_gate_fails p, placement_gates_fail ps) refl

  -- The placement fails just if some strict arm left its domain more often than its budget allows.
  pub placement_sanity_fails :
      (arms : Arms ops)
      → any_fail (placement_sanity ops chance arms).1
        ≡ any leaves_domain (placements ops chance arms)
  unfolding placement_sanity any_fail
  placement_sanity_fails arms =
      let ps = placements ops chance arms in
      any-append _ (placement_gates ops chance ps) _
      ∙ without (any (λ p. not (p.n_with_bls == 0)) ps)
    where
      without :
          (b : Bool)
          → (any_fail (placement_gates ops chance (placements ops chance arms))
              || any_fail (if b then [] else gate placement_counters skip ∷ []))
            ≡ any leaves_domain (placements ops chance arms)
      without true = ground (arith, placement_gates_fail (placements ops chance arms))
      without false = ground (arith, placement_gates_fail (placements ops chance arms))
