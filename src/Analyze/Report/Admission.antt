-- ===== src/Analyze/Report/Admission.antt =====
-- `analyze` of scripts/analyze.py: what an experiment without a failing gate has shown.
use fake_big_little.Prelude.{
  ◌≡◌, Bool, true, false, List, [], ◌∷◌, arith, if◌then◌else◌, any, every, length, keep, ◌+◌, ◌-◌,
  ◌≤◌, suc, All,
}
use fake_big_little.Prelude.Texts.{Text}
use fake_big_little.Analyze.Floats.{Floats}
use fake_big_little.Analyze.Rows.{Row}
use fake_big_little.Analyze.Groups.{Arms}
use fake_big_little.Analyze.Resampling.{Chance}
use fake_big_little.Analyze.Gates.{all_rows, is_complete, max_temps, throttle_limit}
use fake_big_little.Analyze.Placement.{placements}
use fake_big_little.Analyze.Gates.Passing.{leaves_domain}
use fake_big_little.Analyze.Frequency.{too_close, frequency_divergence, measured_splits}
use fake_big_little.Analyze.Report.{coverage}

module _ {F : Type 0} (ops : Floats F) (chance : Chance F) where
  module _ (name : Text) (arms : Arms ops) where
    -- The ratios of the arms that requested a split.
    abbrev pub requested_splits : List (Text × F)
    requested_splits = measured_splits ops chance (frequency_divergence ops chance arms).0

    -- What the gates of an experiment vouch for.
    pub record Admitted : Type 0 where
      pub complete : every (is_complete ops chance) (all_rows ops chance arms) ≡ true
      pub cool :
          any
            (λ v. ops.le (throttle_limit ops chance) v)
            (max_temps ops chance (all_rows ops chance arms))
          ≡ false
      pub split : any (λ s. too_close ops chance s.1) requested_splits ≡ false
      pub placed : any (leaves_domain ops chance) (placements ops chance arms) ≡ false

length-keep_at_most : {A : Type 0} (p : A → Bool) (xs : List A) → length (keep p xs) ≤ length xs
length-keep_at_most p [] = omega arith
length-keep_at_most p (x ∷ xs) = counted (p x) (length-keep_at_most p xs)
  where
    counted :
        (b : Bool)
        → length (keep p xs) ≤ length xs
        → length (if b then x ∷ keep p xs else keep p xs) ≤ suc (length xs)
    counted true h = omega arith
    counted false h = omega arith

present_and_missing :
    {A : Type 0} (xs : List A) (p : A → Bool)
    → length (keep p xs) + (length xs - length (keep p xs)) ≡ length xs
present_and_missing xs p = omega (arith, length-keep_at_most p xs)

-- Each line of the coverage counts every row, as one that has the value or as one that has not.
pub coverage_counts-All :
    {F : Type 0} (ops : Floats F) (rows : List (Row F))
    → All (λ c. c.present + c.missing ≡ length rows) (coverage ops rows)
unfolding coverage
coverage_counts-All ops rows =
    let l = present_and_missing rows in
    (l _, (l _, (l _, (l _, (l _, (l _, (l _, (l _, (l _, (l _, tt))))))))))
