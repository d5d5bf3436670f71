-- ===== src/Analyze/Gates/Vouched.antt =====
-- `quality_gates` of scripts/analyze.py: what passing gates say of each run and each arm.
use fake_big_little.Prelude.{
  ℕ, ◌≡◌, refl, sym, ◌∙◌, Bool, true, false, not, Option, none, some, List, [], ◌∷◌, ◌++◌, All,
  arith, any, every, ◌==◌, length, map,
}
use fake_big_little.Prelude.Texts.{Text, codes}
use fake_big_little.Analyze.Floats.{Floats, somes}
use fake_big_little.Analyze.Rows.{Row, energy_number}
use fake_big_little.Analyze.Groups.{Arms}
use fake_big_little.Analyze.Resampling.{Chance}
use fake_big_little.Analyze.Contrast.{Metric}
use fake_big_little.Analyze.Gates.{
  Gate, any_fail, is_fail, fail_if, is_true, exit_is_zero, all_rows, is_complete, is_balanced,
  has_any, max_temps, throttle_limit, quality_gates,
}
use fake_big_little.Analyze.Gates.Passing.{quality_gates_pass}

All-append_left :
    {A : Type 0} (P : A → Type 0) (xs ys : List A) → All P (xs ++ ys) → All P xs × All P ys
All-append_left P [] ys h = (tt, h)
All-append_left P (x ∷ xs) ys (h, hs) = let (l, r) = All-append_left P xs ys hs in ((h, l), r)

fifth_and_sixth :
    (a b c d e f : Gate)
    → any_fail (a ∷ b ∷ c ∷ d ∷ e ∷ f ∷ []) ≡ false
    → (is_fail e.status ≡ false) × (is_fail f.status ≡ false)
unfolding any_fail
fifth_and_sixth a b c d e f h = ground arith

fail_if_fails : (b : Bool) → is_fail (fail_if b) ≡ b
fail_if_fails true = refl
fail_if_fails false = refl

passes : (b : Bool) → is_fail (fail_if b) ≡ false → b ≡ false
passes b h = sym (fail_if_fails b) ∙ h

module _ {F : Type 0} (ops : Floats F) (chance : Chance F) where
  none_of_has_any : {A : Type 0} (xs : List A) → has_any ops chance xs ≡ false → xs ≡ []
  none_of_has_any [] h = refl
  none_of_has_any (x ∷ xs) h = absurd (cc)

  -- A highest temperature that was not recorded, or stayed below that of throttling.
  abbrev pub Cool : Option F → Type 0
  Cool none = Unit
  Cool (some v) = ops.le (throttle_limit ops chance) v ≡ false

  -- The run ended well with exit code 0, and where its highest temperature was recorded it stayed
  -- below that of throttling.
  abbrev pub RunPassed : Row F → Type 0
  RunPassed r =
      (is_true r.is_ok ≡ true)
      × ((exit_is_zero r.exit_code ≡ true) × Cool (r.cell (energy_number (codes "pkg_c_max"))))

  temps-Cool :
      (v : Option F) (vs : List (Option F))
      → any (λ t. ops.le (throttle_limit ops chance) t) (somes (v ∷ vs)) ≡ false
      → Cool v × (any (λ t. ops.le (throttle_limit ops chance) t) (somes vs) ≡ false)
  unfolding somes
  temps-Cool none vs h = (tt, h)
  temps-Cool (some t) vs h = (ground arith, ground arith)

  rows-RunPassed :
      (rows : List (Row F))
      → every (is_complete ops chance) rows ≡ true
      → any (λ t. ops.le (throttle_limit ops chance) t) (max_temps ops chance rows) ≡ false
      → All RunPassed rows
  rows-RunPassed [] h k = tt
  rows-RunPassed (r ∷ rows) h k =
      let (cool, later) =
        temps-Cool (r.cell (energy_number (codes "pkg_c_max")))
          (map (λ (s : Row F). s.cell (energy_number (codes "pkg_c_max"))) rows) k in
      ((ground arith, (ground arith, cool)), rows-RunPassed rows (ground arith) later)

  -- Each arm has `n` runs, which passed.
  abbrev pub ArmPassed : ℕ → Text × List (Row F) → Type 0
  ArmPassed n a = (length a.1 ≡ n) × All RunPassed a.1

  every-length :
      (n : ℕ) (arms : Arms ops)
      → every (λ (a : Text × List (Row F)). length a.1 == n) arms ≡ true
      → All RunPassed (all_rows ops chance arms)
      → All (ArmPassed n) arms
  unfolding all_rows
  every-length n [] h k = tt
  every-length n ((name, rs) ∷ arms) h k =
      let (now, later) = All-append_left RunPassed rs (all_rows ops chance arms) k in
      ((ground arith, now), every-length n arms (ground arith) later)

  balanced-ArmPassed :
      (arms : Arms ops)
      → is_balanced ops chance arms ≡ true
      → All RunPassed (all_rows ops chance arms)
      → (n : ℕ) × All (ArmPassed n) arms
  unfolding is_balanced all_rows
  balanced-ArmPassed [] h k = (0, tt)
  balanced-ArmPassed ((name, rs) ∷ arms) h k =
      let (now, later) = All-append_left RunPassed rs (all_rows ops chance arms) k in
      (length rs, ((refl, now), every-length (length rs) arms h later))

  -- Where no quality gate fails, all arms have the same number of runs; each run ended well with exit
  -- code 0 and, where its highest temperature was recorded, stayed below the temperature near which
  -- the processor throttles; and no metric drifts with the order of the runs.
  pub quality_gates_vouch :
      (arms : Arms ops) (ms : List Metric)
      → any_fail (quality_gates ops chance arms ms).0 ≡ false
      → ((n : ℕ) × All (ArmPassed n) arms) × ((quality_gates ops chance arms ms).1 ≡ [])
  unfolding quality_gates
  quality_gates_vouch arms ms h =
      let rows = all_rows ops chance arms in
      let (complete, cool) = quality_gates_pass ops chance arms ms h in
      let (even, steady) = fifth_and_sixth _ _ _ _ _ _ h in
      let unbalanced : not (is_balanced ops chance arms) ≡ false = passes _ even in
      (
        balanced-ArmPassed arms (ground arith) (rows-RunPassed rows complete cool),
        none_of_has_any _ (passes _ steady),
      )
