-- ===== src/Analyze/Contrast/Verdicts.antt =====
-- `contrast` of scripts/analyze.py: what its verdict may say.
use fake_big_little.Prelude.{
  ◌≤◌, ◌≡◌, refl, ap, Bool, true, false, not, ◌&&◌, ◌||◌, Option, none, some, List, arith, ltb,
  if◌then◌else◌, length, inl, inr, ◌⊎◌,
}
use mathlib.Core.Path.{subst}
use fake_big_little.Analyze.Floats.{Floats, average}
use fake_big_little.Analyze.Resampling.{Chance, Interval, diff_ci}
use fake_big_little.Analyze.Contrast.{
  Metric, energy_to_solution, edp, mean_power, wall, core_energy, rest_share, wake_p99, wake_p50,
  big_mhz, little_mhz, Verdict, Direction, lower, higher, insufficient_data,
  no_detectable_difference, diagnostic, better, worse, Contrast, straddles, judge, lower_better,
  insufficient, compared, contrast,
}

-- Whether a verdict claims a difference.
abbrev pub claims : Verdict → Bool
claims insufficient_data = false
claims no_detectable_difference = false
claims (diagnostic _) = true
claims (better _) = true
claims (worse _) = true

lower_better_cases :
    (metric : Metric) → (lower_better metric ≡ some true) ⊎ (lower_better metric ≡ none)
unfolding lower_better
lower_better_cases energy_to_solution = inl refl
lower_better_cases edp = inl refl
lower_better_cases mean_power = inl refl
lower_better_cases wall = inl refl
lower_better_cases core_energy = inl refl
lower_better_cases rest_share = inr refl
lower_better_cases wake_p99 = inl refl
lower_better_cases wake_p50 = inl refl
lower_better_cases big_mhz = inr refl
lower_better_cases little_mhz = inr refl

module _ {F : Type 0} (ops : Floats F) where
  judge-claims : (l : Option Bool) (d : F) → claims (judge ops l d) ≡ true
  unfolding judge
  judge-claims none d = refl
  judge-claims (some true) d = on_sign (ops.lt d (ops.of_ℕ 0))
    where
      on_sign : (b : Bool) → claims (if b then better lower else worse higher) ≡ true
      on_sign true = refl
      on_sign false = refl
  judge-claims (some false) d = on_sign (ops.lt d (ops.of_ℕ 0))
    where
      on_sign : (b : Bool) → claims (if b then worse lower else better higher) ≡ true
      on_sign true = refl
      on_sign false = refl

  -- An interval that does not straddle zero is known, and zero is outside.
  abbrev Excludes : Option F → Option F → Type 0
  Excludes lo hi =
      (l : F) × ((h : F) × ((lo ≡ some l)
          × ((hi ≡ some h) × ((ops.le l (ops.of_ℕ 0) ≡ false) ⊎ (ops.le (ops.of_ℕ 0) h ≡ false)))))

  straddles-Excludes : (i : Interval F) → straddles ops i ≡ false → Excludes i.lo i.hi
  unfolding straddles
  straddles-Excludes i e = on_ends i.lo i.hi e
    where
      outside : (p q : Bool) → (p && q) ≡ false → (p ≡ false) ⊎ (q ≡ false)
      outside true q e = inr e
      outside false q e = inl refl

      on_ends :
          (lo hi : Option F)
          → elim lo [
            | none ↦ true
            | some l ↦ elim hi [
              | none ↦ true
              | some h ↦ ops.le l (ops.of_ℕ 0) && ops.le (ops.of_ℕ 0) h
            ]
          ]
            ≡ false
          → Excludes lo hi
      on_ends none hi e = absurd (cc)
      on_ends (some l) none e = absurd (cc)
      on_ends (some l) (some h) e =
          (l, (h, (refl, (refl, outside (ops.le l (ops.of_ℕ 0)) (ops.le (ops.of_ℕ 0) h) e))))

  module _ (chance : Chance F) (metric : Metric) (a b : List F) where
    -- What a claimed difference rests on.
    pub record Rests (c : Contrast F) : Type 0 where
      pub enough_control : 2 ≤ length a
      pub enough_arm : 2 ≤ length b
      pub detected : c.detectable ≡ some true
      pub interval_is : c.interval ≡ some (diff_ci ops chance a b)
      pub low : F
      pub high : F
      pub low_known : (diff_ci ops chance a b).lo ≡ some low
      pub high_known : (diff_ci ops chance a b).hi ≡ some high
      pub excludes_zero : (ops.le low (ops.of_ℕ 0) ≡ false) ⊎ (ops.le (ops.of_ℕ 0) high ≡ false)

    compared-Rests :
        2 ≤ length a
        → 2 ≤ length b
        → claims (compared ops chance metric a b).verdict ≡ true
        → Rests (compared ops chance metric a b)
    unfolding compared
    compared-Rests ha hb h = on_straddle (straddles ops (diff_ci ops chance a b)) refl h
      where
        d : F
        d = ops.sub (average ops b) (average ops a)

        on_straddle :
            (s : Bool)
            → straddles ops (diff_ci ops chance a b) ≡ s
            → claims (if s then no_detectable_difference else judge ops (lower_better metric) d)
              ≡ true
            → Rests (compared ops chance metric a b)
        on_straddle true e k = absurd (cc)
        on_straddle false e k =
            let (l, (u, (lo_is, (hi_is, out)))) = straddles-Excludes (diff_ci ops chance a b) e in
            record {
              enough_control = ha;
              enough_arm = hb;
              detected = ap (λ (x : Bool). some (not x)) e;
              interval_is = refl;
              low = l;
              high = u;
              low_known = lo_is;
              high_known = hi_is;
              excludes_zero = out;
            }

    -- A verdict claims a difference only between two values or more on each side, where both ends of
    -- the interval of the difference are known and zero is below the one or above the other, and the
    -- contrast is marked as detectable.
    pub contrast-claims :
        claims (contrast ops chance metric a b).verdict ≡ true
        → Rests (contrast ops chance metric a b)
    unfolding contrast insufficient
    contrast-claims h = on_size (ltb (length a) 2 || ltb (length b) 2) refl h
      where
        on_size :
            (s : Bool)
            → (ltb (length a) 2 || ltb (length b) 2) ≡ s
            → claims
                (if s
                  then insufficient ops chance metric a b
                  else compared ops chance metric a b).verdict
              ≡ true
            → Rests
                (if s then insufficient ops chance metric a b else compared ops chance metric a b)
        on_size true e k = absurd (cc)
        on_size false e k = compared-Rests (ground arith) (ground arith) k

    compared_detectable :
        (compared ops chance metric a b).detectable
        ≡ some (claims (compared ops chance metric a b).verdict)
    unfolding compared
    compared_detectable = on_straddle (straddles ops (diff_ci ops chance a b))
      where
        on_straddle :
            (s : Bool)
            → some (not s)
              ≡ some (
                  claims (
                    if s
                    then no_detectable_difference
                    else judge ops (lower_better metric) (ops.sub (average ops b) (average ops a))))
        on_straddle true = refl
        on_straddle false = rw judge-claims refl

    judged_better :
        (d : F) (dir : Direction)
        → judge ops (lower_better metric) d ≡ better dir
        → (dir ≡ lower) × (ops.lt d (ops.of_ℕ 0) ≡ true) × (lower_better metric ≡ some true)
    judged_better d dir h = elim (lower_better_cases metric) [
      | inl e ↦
          (unfold judge in
            on_sign (ops.lt d (ops.of_ℕ 0)) refl e (subst (λ l. judge ops l d ≡ better dir) e h))
      | inr e ↦ absurd (unfold judge in never (subst (λ l. judge ops l d ≡ better dir) e h))
    ]
      where
        never : {x : Direction} → diagnostic x ≡ better dir → ⊥
        never k = cc

        on_sign :
            (s : Bool)
            → ops.lt d (ops.of_ℕ 0) ≡ s
            → lower_better metric ≡ some true
            → (if s then better lower else worse higher) ≡ better dir
            → (dir ≡ lower) × (ops.lt d (ops.of_ℕ 0) ≡ true) × (lower_better metric ≡ some true)
        on_sign true e l k = (cc, e, l)
        on_sign false e l k = absurd (cc)

    -- An arm is better only in a metric in which less is better, and only where its mean is lower.
    pub contrast_better :
        (dir : Direction)
        → (contrast ops chance metric a b).verdict ≡ better dir
        → (dir ≡ lower)
          × (ops.lt (ops.sub (average ops b) (average ops a)) (ops.of_ℕ 0) ≡ true)
          × (lower_better metric ≡ some true)
    unfolding contrast insufficient compared
    contrast_better dir h = on_size (ltb (length a) 2 || ltb (length b) 2) h
      where
        d : F
        d = ops.sub (average ops b) (average ops a)

        Wanted : Type 0
        Wanted = (dir ≡ lower) × (ops.lt d (ops.of_ℕ 0) ≡ true) × (lower_better metric ≡ some true)

        on_straddle :
            (s : Bool)
            → (if s then no_detectable_difference else judge ops (lower_better metric) d)
              ≡ better dir
            → Wanted
        on_straddle true k = absurd (cc)
        on_straddle false k = judged_better d dir k

        on_size :
            (s : Bool)
            → (if s
                then insufficient ops chance metric a b
                else compared ops chance metric a b).verdict
              ≡ better dir
            → Wanted
        on_size true k = absurd (cc)
        on_size false k = on_straddle (straddles ops (diff_ci ops chance a b)) k
