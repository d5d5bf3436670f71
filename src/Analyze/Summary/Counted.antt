-- ===== src/Analyze/Summary/Counted.antt =====
-- `summarize_arm` of scripts/analyze.py: the runs with and without a value.
use fake_big_little.Prelude.{
  ◌+◌, ◌≤◌, ◌≡◌, Option, none, some, List, [], ◌∷◌, map, length, length-map, arith,
}
use fake_big_little.Analyze.Floats.{Floats, clean}
use fake_big_little.Analyze.Rows.{Row, Column}
use fake_big_little.Analyze.Groups.{values}
use fake_big_little.Analyze.Resampling.{Chance}
use fake_big_little.Analyze.Summary.{summarize_arm}

module _ {F : Type 0} (ops : Floats F) where
  length-clean : (xs : List (Option F)) → length (clean ops xs) ≤ length xs
  unfolding clean
  length-clean [] = omega arith
  length-clean (none ∷ xs) = omega (arith, length-clean xs)
  length-clean (some x ∷ xs) = ground (arith, length-clean xs)

  length-values :
      (rows : List (Row F)) (metric : Column) → length (values ops rows metric) ≤ length rows
  unfolding values
  length-values rows metric = omega (
    arith,
    length-clean (map (λ (r : Row F). r.cell metric) rows),
    length-map (λ (r : Row F). r.cell metric) rows,
  )

  -- Each run of the arm has a value of the metric or is counted as missing one.
  pub summarize_arm_counts :
      (chance : Chance F) (rows : List (Row F)) (metric : Column)
      → (summarize_arm ops chance rows metric).n + (summarize_arm ops chance rows metric).n_missing
        ≡ (summarize_arm ops chance rows metric).n_runs
  unfolding summarize_arm
  summarize_arm_counts chance rows metric = omega (arith, length-values rows metric)
