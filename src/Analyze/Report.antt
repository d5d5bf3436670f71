-- ===== src/Analyze/Report.antt =====
-- `coverage`, `analyze`, `experiment_verdict` and `overall_headline` of scripts/analyze.py, with the
-- lines as data in place of their texts.
pub mod Headline
pub mod Admission
use fake_big_little.Prelude.{
  ℕ, ◌+◌, ◌-◌, ◌*◌, Bool, true, false, not, ◌&&◌, ◌||◌, Option, none, some, List, [], ◌∷◌, ◌++◌,
  map, ltb, if◌then◌else◌, any, keep, length,
}
use fake_big_little.Prelude.Texts.{Text, codes, text_eq}
use fake_big_little.Analyze.Floats.{Floats, pooled_sd, clean, max, min, somes}
use fake_big_little.Analyze.Rows.{Row, Column, start_temp_c, energy_number, cpu_bzy_mhz, cpu_epp}
use fake_big_little.Analyze.Groups.{
  Arms, Dict, keys, get_or, sorted_keys, group_runs, pick_control, values,
}
use fake_big_little.Analyze.Resampling.{Chance}
use fake_big_little.Analyze.Contrast.{Metric, metrics, column, is_headline, Contrast, contrast}
use fake_big_little.Analyze.Gates.{Gate, any_fail, all_rows, quality_gates, Drift}
use fake_big_little.Analyze.Placement.{placement_sanity}
use fake_big_little.Analyze.Frequency.{
  Note, ArmFrequency, frequency_divergence, measured_splits, reality_gates,
}

module _ {F : Type 0} (ops : Floats F) where
  abbrev is_there : Option F → Bool
  is_there none = false
  is_there (some x) = ops.is_finite x

  -- A line of `coverage`: how many rows have the value, and how many do not.
  pub record Covered : Type 0 where
    pub field : Text
    pub present : ℕ
    pub missing : ℕ

  abbrev covered_by : List (Row F) → Text → (Row F → Bool) → Covered
  covered_by rows label test =
      let have = length (keep test rows) in
      record { field = label; present = have; missing = length rows - have }

  abbrev number_there : Column → Row F → Bool
  number_there c r = is_there (r.cell c)

  unfoldable pub coverage : List (Row F) → List Covered
  coverage rows =
      covered_by rows (codes "energy.pkg_j") (number_there (energy_number (codes "pkg_j")))
      ∷ covered_by rows (codes "energy.wall_s") (number_there (energy_number (codes "wall_s")))
      ∷ covered_by rows (codes "energy.rest_j") (number_there (energy_number (codes "rest_j")))
      ∷ covered_by rows (codes "energy.cpu_bzy_mhz") (number_there (cpu_bzy_mhz 0))
      ∷ covered_by rows (codes "energy.epp") (number_there (cpu_epp 0))
      ∷ covered_by rows (codes "env.start_temp_c") (number_there start_temp_c)
      ∷ covered_by rows (codes "energy.pkg_c_max")
          (number_there (energy_number (codes "pkg_c_max")))
      ∷ covered_by rows (codes "pinger") (λ (r : Row F). r.pinger_present)
      ∷ covered_by rows (codes "spin") (λ (r : Row F). r.spin_present)
      ∷ covered_by rows (codes "bls") (λ (r : Row F). r.bls_present)
      ∷ []

  unfoldable pub available_metrics : List (Row F) → List Metric
  unfolding metrics column
  available_metrics rows =
      keep (λ m. any (λ (r : Row F). is_there (r.cell (column m))) rows) metrics

  -- A contrast of an arm with the control arm.
  pub record ArmContrast : Type 0 where
    pub arm : Text
    pub result : Contrast F

  pub record Experiment : Type 0 where
    pub name : Text
    pub control : Option Text
    pub gates : List Gate
    pub placement_gates : List Gate
    pub contrasts : List ArmContrast
    pub note : Note

  unfoldable pub gate_fails : Experiment → Bool
  unfolding any_fail
  gate_fails e = any_fail e.gates || any_fail e.placement_gates

  abbrev pub is_detectable : Contrast F → Bool
  is_detectable c = elim c.detectable [ none ↦ false | some b ↦ b ]

  -- What is said of an energy contrast in `experiment_verdict`; the failed gates' caution is a flag.
  pub data VerdictLine : Type 0 where
    no_energy_data insufficient not_detectable failing_gates : VerdictLine
    frequency_note : Note → VerdictLine
    lower_energy higher_energy : Bool → VerdictLine

  unfoldable pub verdict_line : Bool → Contrast F → VerdictLine
  verdict_line failed c = elim c.diff [
    | none ↦ insufficient
    | some d ↦
        if not (is_detectable c)
        then not_detectable
        else if ops.lt d (ops.of_ℕ 0)
        then lower_energy failed
        else higher_energy failed
  ]

  abbrev pub headline_contrasts : List ArmContrast → List ArmContrast
  headline_contrasts cs = keep (λ c. is_headline c.result.metric) cs

  unfoldable pub energy_lines : Experiment → List ArmContrast → List VerdictLine
  unfolding verdict_line gate_fails
  energy_lines e [] = no_energy_data ∷ []
  energy_lines e (c ∷ cs) = map (λ k. verdict_line (gate_fails e) k.result) (c ∷ cs)

  unfoldable pub experiment_verdict : Experiment → List VerdictLine
  unfolding energy_lines gate_fails is_headline
  experiment_verdict e =
      energy_lines e (headline_contrasts e.contrasts)
      ++ frequency_note e.note ∷ (if gate_fails e then failing_gates ∷ [] else [])

  -- `wins`, `blocked` and `nulls`
  pub record Found : Type 0 where
    pub wins : List (Text × Text)
    pub blocked : List (Text × Text)
    pub nulls : List (Contrast F)

  -- The contrast of an arm by its place: a win, a blocked one, neither, or a null result.
  unfoldable pub filed : Bool → Bool → Bool → Text × Text → Contrast F → Found → Found
  filed true true true tag c found = record {
    wins = found.wins;
    blocked = tag ∷ found.blocked;
    nulls = found.nulls;
  }
  filed true true false tag c found = record {
    wins = tag ∷ found.wins;
    blocked = found.blocked;
    nulls = found.nulls;
  }
  filed true false failed tag c found = found
  filed false saves failed tag c found = record {
    wins = found.wins;
    blocked = found.blocked;
    nulls = c ∷ found.nulls;
  }

  abbrev pub saves : Option F → Bool
  saves none = false
  saves (some d) = ops.lt d (ops.of_ℕ 0)

  abbrev pub is_compared : Option F → Bool
  is_compared none = false
  is_compared (some _) = true

  unfoldable pub file_contrast : Experiment → ArmContrast → Found → Found
  unfolding gate_fails is_headline filed
  file_contrast e c found =
      if is_headline c.result.metric && is_compared c.result.diff
      then filed (is_detectable c.result) (saves c.result.diff) (gate_fails e) (e.name, c.arm)
          c.result found
      else found

  unfoldable pub file_all : Experiment → List ArmContrast → Found → Found
  unfolding file_contrast
  file_all e [] later = later
  file_all e (c ∷ cs) later = file_contrast e c (file_all e cs later)

  unfoldable pub find : List Experiment → Found
  unfolding file_all
  find [] = record { wins = []; blocked = []; nulls = [] }
  find (e ∷ es) = file_all e e.contrasts (find es)

  pub data HeadlineLine : Type 0 where
    saving_found not_admissible : List (Text × Text) → HeadlineLine
    confirm_first no_experiments no_usable_contrast : HeadlineLine
    no_detectable_saving : ℕ → HeadlineLine
    bounded : F → F → HeadlineLine

  abbrev bound_lines : List F → List HeadlineLine
  bound_lines mdes = elim (min ops mdes) [
    | none ↦ []
    | some best ↦ elim (max ops mdes) [ none ↦ [] | some worst ↦ bounded best worst ∷ [] ]
  ]

  unfoldable pub lines_of : Found → List HeadlineLine
  unfolding min max somes
  lines_of found =
      let win_lines : List HeadlineLine = elim found.wins [
        | [] ↦ []
        | w ∷ ws ↦ saving_found (w ∷ ws) ∷ confirm_first ∷ []
      ] in
      let blocked_lines : List HeadlineLine = elim found.blocked [
        | [] ↦ []
        | b ∷ bs ↦ not_admissible (b ∷ bs) ∷ []
      ] in
      let null_lines : List HeadlineLine = elim found.wins [
        | _ ∷ _ ↦ []
        | [] ↦ elim found.nulls [
          | [] ↦ []
          | n ∷ ns ↦
              no_detectable_saving (length (n ∷ ns))
              ∷ bound_lines (somes (map (λ (c : Contrast F). c.mde_pct) (n ∷ ns)))
        ]
      ] in
      win_lines ++ blocked_lines ++ null_lines

  abbrev pub or_unusable : List HeadlineLine → List HeadlineLine
  or_unusable [] = no_usable_contrast ∷ []
  or_unusable (l ∷ ls) = l ∷ ls

  unfoldable pub overall_headline : List Experiment → List HeadlineLine
  unfolding find lines_of
  overall_headline [] = lines_of (find []) ++ no_experiments ∷ []
  overall_headline (e ∷ es) = or_unusable (lines_of (find (e ∷ es)))

  module _ (chance : Chance F) where
    abbrev contrasts_of : Arms ops → List (Row F) → List Metric → Text → List ArmContrast
    contrasts_of arms ctrl ms a =
        map
          (λ m. record {
            arm = a;
            result =
                contrast ops chance m (values ops ctrl (column m))
                  (values ops (get_or a [] arms) (column m));
          })
          ms

    unfoldable pub all_contrasts :
        Arms ops → Option Text → List Metric → List Text → List ArmContrast
    unfolding contrast values column get_or
    all_contrasts arms none ms named = []
    all_contrasts arms (some control) ms [] = []
    all_contrasts arms (some control) ms (a ∷ named) =
        let later = all_contrasts arms (some control) ms named in
        if text_eq a control
        then later
        else contrasts_of arms (get_or control [] arms) ms a ++ later

    unfoldable pub analyze_experiment : Text → Arms ops → Experiment
    unfolding available_metrics pick_control quality_gates all_rows frequency_divergence
        measured_splits reality_gates placement_sanity all_contrasts sorted_keys
    analyze_experiment name arms =
        let ms = available_metrics (all_rows ops chance arms) in
        let control = pick_control ops arms in
        let (frequency, note) = frequency_divergence ops chance arms in
        record {
          name = name;
          control = control;
          gates =
              (quality_gates ops chance arms ms).0
              ++ reality_gates ops chance (measured_splits ops chance frequency);
          placement_gates = (placement_sanity ops chance arms).1;
          contrasts = all_contrasts arms control ms (sorted_keys arms);
          note = note;
        }

    -- `analyze`: the experiments by name, and the headline.
    unfoldable pub analyze : List (Row F) → List Experiment × List HeadlineLine
    unfolding analyze_experiment group_runs sorted_keys get_or overall_headline
    analyze rows =
        let exps = group_runs ops rows in
        let analyzed =
          map (λ name. analyze_experiment name (get_or name [] exps)) (sorted_keys exps) in
        (analyzed, overall_headline analyzed)
