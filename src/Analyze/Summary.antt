-- ===== src/Analyze/Summary.antt =====
-- `summarize_arm` of scripts/analyze.py, and the loop of `analyze` that calls it; the unit of the metric
-- is left out.
pub mod Counted
use fake_big_little.Prelude.{
  ℕ, ◌-◌, Bool, true, false, Option, none, some, List, [], ◌∷◌, ◌++◌, map, ltb, length,
  if◌then◌else◌,
}
use fake_big_little.Prelude.Texts.{Text}
use fake_big_little.Analyze.Floats.{Floats, mean, median, sd, min, max}
use fake_big_little.Analyze.Rows.{Row, Column}
use fake_big_little.Analyze.Groups.{Arms, values, get_or, sorted_keys}
use fake_big_little.Analyze.Resampling.{Chance, Interval, Method, no_interval, mean_ci}

pub record ArmSummary (F : Type 0) : Type 0 where
  pub metric : Column
  pub n : ℕ
  pub n_runs : ℕ
  pub n_missing : ℕ
  pub mean : Option F
  pub median : Option F
  pub sd : Option F
  pub min : Option F
  pub max : Option F
  pub ci_lo : Option F
  pub ci_hi : Option F
  pub ci_method : Option Method

module _ {F : Type 0} (ops : Floats F) (chance : Chance F) where
  unfoldable pub summarize_arm : List (Row F) → Column → ArmSummary F
  unfolding values mean median sd min max mean_ci
  summarize_arm rows metric =
      let xs = values ops rows metric in
      let ci : Interval F = if ltb (length xs) 2 then no_interval else mean_ci ops chance xs in
      record {
        metric = metric;
        n = length xs;
        n_runs = length rows;
        n_missing = length rows - length xs;
        mean = mean ops xs;
        median = median ops xs;
        sd = sd ops xs;
        min = min ops xs;
        max = max ops xs;
        ci_lo = ci.lo;
        ci_hi = ci.hi;
        ci_method = ci.method;
      }

  unfoldable pub metric_summaries : Text → List (Row F) → List Column → List (Text × ArmSummary F)
  unfolding summarize_arm
  metric_summaries arm rows metrics = map (λ m. (arm, summarize_arm rows m)) metrics

  unfoldable pub summaries_of : Arms ops → List Column → List Text → List (Text × ArmSummary F)
  unfolding metric_summaries get_or
  summaries_of arms metrics [] = []
  summaries_of arms metrics (a ∷ names) =
      metric_summaries a (get_or a [] arms) metrics ++ summaries_of arms metrics names

  -- `erec["summary"]`
  unfoldable pub arm_summaries : Arms ops → List Column → List (Text × ArmSummary F)
  unfolding summaries_of sorted_keys
  arm_summaries arms metrics = summaries_of arms metrics (sorted_keys arms)
