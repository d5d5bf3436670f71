-- ===== src/Analyze/Tests.antt =====
-- Runs of scripts/analyze.py in thousandths, with a few rows and resamples.
use fake_big_little.Prelude.{
  ℕ, All, length, ◌*◌, ◌%◌, ◌≡◌, refl, true, false, not, ◌&&◌, none, some, List, [], ◌∷◌, ◌==◌,
  if◌then◌else◌, arith, keep, any,
}
use fake_big_little.Prelude.Int.{ℤ, pos}
use fake_big_little.Prelude.Texts.{Text, codes, text_eq}
use fake_big_little.Json.{bool, str, equals_text}
use fake_big_little.Analyze.Floats.{sort_by, sum, average}
use fake_big_little.Analyze.Fixed.{fixed}
use fake_big_little.Analyze.Rows.{Row}
use fake_big_little.Analyze.Groups.{
  Arms, get_or, group_runs, row_before, pick_control, is_flat_eevdf,
}
use fake_big_little.Analyze.Groups.Grouping.{group_runs_by_name}
use fake_big_little.Analyze.Groups.Sorted.{pick_control_is_flat}
use fake_big_little.Analyze.Distributions.{Special, norm_ppf}
use fake_big_little.Analyze.Resampling.{Chance, bootstrap_ci}
use fake_big_little.Analyze.Effects.{permutation_p}
use fake_big_little.Analyze.Resampling.Bootstrap.{
  Adjusted, bootstrap_ci_labels, hits_of, permutation_p_counts,
}
use fake_big_little.Analyze.Contrast.{
  energy_to_solution, lower, lower_better, judge, contrast, is_headline,
}
use fake_big_little.Analyze.Contrast.Verdicts.{Rests, contrast-claims, contrast_better}
use fake_big_little.Analyze.Gates.{Gate, gate, balanced_reps, fail, any_fail, quality_gates}
use fake_big_little.Analyze.Placement.{placements, placement_sanity}
use fake_big_little.Analyze.Gates.Passing.{leaves_domain, placement_sanity_fails}
use fake_big_little.Analyze.Gates.Vouched.{ArmPassed, quality_gates_vouch}
use fake_big_little.Analyze.Frequency.{no_split_requested}
use fake_big_little.Analyze.Report.{
  ArmContrast, Experiment, gate_fails, find, no_usable_contrast, overall_headline,
}
use fake_big_little.Analyze.Report.Headline.{find_wins_admissible, overall_headline_of_rises}

abbrev row : Text → Text → ℕ → Row ℤ
row arm epp_mode rep = record {
  file = codes "a.json";
  experiment = codes "e3-ab";
  arm = arm;
  sched = some (str (codes "eevdf"));
  epp_mode = some (str epp_mode);
  strict = some (bool true);
  rep = some (pos (1000 * rep));
  timestamp = [];
  is_ok = some (bool true);
  on_ac = some (bool true);
  exit_code = some (pos 0);
  domains = record { big = []; little = []; partitioned = false };
  smt_pairs_split = 0;
  spin_threads = 0;
  pinger_present = false;
  spin_present = false;
  bls_present = true;
  cell = λ _. some (pos 500);
}

abbrev rows : List (Row ℤ)
rows =
    row (codes "b") (codes "partitioned") 1
    ∷ row (codes "a") (codes "flat") 1
    ∷ row (codes "b") (codes "partitioned") 0
    ∷ []

group_runs_by_name_example :
    get_or (codes "b") [] (get_or (codes "e3-ab") [] (group_runs fixed rows))
    ≡ sort_by
        (row_before fixed)
        (keep (λ r. text_eq (codes "e3-ab") r.experiment && text_eq (codes "b") r.arm) rows)
group_runs_by_name_example = group_runs_by_name fixed rows (codes "e3-ab") (codes "b")

abbrev arms : Arms fixed
arms =
    (codes "b", row (codes "b") (codes "partitioned") 0 ∷ [])
    ∷ (codes "a", row (codes "a") (codes "flat") 0 ∷ [])
    ∷ []

pick_control_is_flat_example :
    elim (pick_control fixed arms) [ none ↦ false | some a ↦ is_flat_eevdf (get_or a [] arms) ]
    ≡ true
unfolding get_or is_flat_eevdf text_eq equals_text
pick_control_is_flat_example = pick_control_is_flat fixed arms refl

-- Resamples that leave a group of two as it is and turn a group of three into ones or threes.
abbrev chosen : ℕ → List ℤ → List ℤ
chosen b (x ∷ y ∷ z ∷ []) = if b % 2 == 0 then x ∷ x ∷ x ∷ [] else z ∷ z ∷ z ∷ []
chosen b xs = xs

-- Linear stand-ins for the functions of `math`, without the refinement of the quantile.
abbrev special : Special ℤ
special = record {
  exp = λ x. pos 0;
  log = λ x. fixed.sub x (pos 1000);
  log1p = λ x. x;
  lgamma = λ x. pos 0;
  erf = λ x. fixed.div x (pos 2000);
  pi = pos 3141;
  infinity = pos 1000000000;
  nan = pos 0;
}

abbrev chance : Chance ℤ
chance = record {
  choices = λ b g xs. chosen b xs;
  shuffle = λ i xs. xs;
  n_boot = 100;
  n_perm = 3;
  special = special;
  pow_3_2 = λ x. x;
}

abbrev lows : List ℤ
lows = pos 1000 ∷ pos 3000 ∷ []

abbrev highs : List ℤ
highs = pos 10000 ∷ pos 12000 ∷ []

permutation_p_counts_example :
    permutation_p fixed chance highs lows
    ≡ some (
        fixed.div
          (fixed.add (fixed.of_ℕ 1) (fixed.of_ℕ (length (hits_of fixed chance highs lows))))
          (fixed.add (fixed.of_ℕ chance.n_perm) (fixed.of_ℕ 1)))
permutation_p_counts_example =
    permutation_p_counts fixed chance highs lows (omega arith) (omega arith)

abbrev first_sum : List (List ℤ) → ℤ
first_sum ((x ∷ y ∷ _) ∷ _) = fixed.add x y
first_sum _ = pos 0

abbrev sample : List (List ℤ)
sample = (pos 1000 ∷ pos 2000 ∷ pos 4000 ∷ []) ∷ []

bootstrap_ci_labels_example :
    Adjusted fixed chance first_sum sample (bootstrap_ci fixed chance first_sum sample)
unfolding bootstrap_ci sum average norm_ppf
bootstrap_ci_labels_example = bootstrap_ci_labels fixed chance first_sum sample refl

contrast-claims_example :
    Rests fixed chance energy_to_solution highs lows
      (contrast fixed chance energy_to_solution highs lows)
unfolding contrast sum average bootstrap_ci judge
contrast-claims_example = contrast-claims fixed chance energy_to_solution highs lows refl

quality_gates_vouch_example :
    ((n : ℕ) × All (ArmPassed fixed chance n) arms)
    × ((quality_gates fixed chance arms (energy_to_solution ∷ [])).1 ≡ [])
unfolding quality_gates any_fail text_eq
quality_gates_vouch_example = quality_gates_vouch fixed chance arms (energy_to_solution ∷ []) refl

contrast_better_example :
    (lower ≡ lower)
    × (fixed.lt (fixed.sub (average fixed lows) (average fixed highs)) (pos 0) ≡ true)
    × (lower_better energy_to_solution ≡ some true)
unfolding contrast sum average bootstrap_ci judge
contrast_better_example = contrast_better fixed chance energy_to_solution highs lows lower refl

placement_sanity_fails_example :
    any_fail (placement_sanity fixed chance arms).1
    ≡ any (leaves_domain fixed chance) (placements fixed chance arms)
placement_sanity_fails_example = placement_sanity_fails fixed chance arms

abbrev rise : ArmContrast fixed
rise = record { arm = codes "b"; result = contrast fixed chance energy_to_solution lows highs }

abbrev saving : ArmContrast fixed
saving = record { arm = codes "c"; result = contrast fixed chance energy_to_solution highs lows }

abbrev experiment_with : List (ArmContrast fixed) → List Gate → Experiment fixed
experiment_with cs gates = record {
  name = codes "e3-ab";
  control = some (codes "a");
  gates = gates;
  placement_gates = [];
  contrasts = cs;
  note = no_split_requested;
}

find_wins_admissible_example :
    (find fixed (experiment_with (saving ∷ []) (gate balanced_reps fail ∷ []) ∷ [])).wins
    ≡ (find fixed (
        keep
          (λ e. not (gate_fails fixed e))
          (experiment_with (saving ∷ []) (gate balanced_reps fail ∷ []) ∷ []))).wins
find_wins_admissible_example =
    find_wins_admissible fixed (experiment_with (saving ∷ []) (gate balanced_reps fail ∷ []) ∷ [])

overall_headline_of_rises_example :
    overall_headline fixed (experiment_with (rise ∷ []) [] ∷ []) ≡ no_usable_contrast ∷ []
unfolding contrast sum average bootstrap_ci judge is_headline
overall_headline_of_rises_example =
    overall_headline_of_rises fixed (experiment_with (rise ∷ []) []) [] refl

-- An arm in which the little CPUs ran at a tenth of the frequency, beside a flat one.
abbrev split_arms : Arms fixed
split_arms =
    (
      codes "b",
      record (row (codes "b") (codes "partitioned") 0) {
        cell = λ _. some (pos 100);
        domains = record { big = 0 ∷ []; little = 1 ∷ []; partitioned = true };
      }
          ∷ [],
    )
    ∷ (codes "a", record (row (codes "a") (codes "flat") 0) { cell = λ _. some (pos 100) } ∷ [])
    ∷ []

-- The middle of the normal distribution.
norm_ppf_half : norm_ppf fixed special (pos 500) ≡ pos 0
unfolding norm_ppf
norm_ppf_half = refl
