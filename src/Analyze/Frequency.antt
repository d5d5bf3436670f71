-- ===== src/Analyze/Frequency.antt =====
-- `frequency_divergence` of scripts/analyze.py. The texts are not modelled, but for what they say.
use fake_big_little.Prelude.{
  ℕ, Bool, true, false, Option, none, some, List, [], ◌∷◌, map, ltb, if◌then◌else◌, any, every,
  length, range,
}
use fake_big_little.Prelude.Texts.{Text}
use fake_big_little.Analyze.Floats.{Floats, mean, median}
use fake_big_little.Analyze.Rows.{
  Row, cpu_bzy_mhz, cpu_avg_mhz, cpu_busy, cpu_epp, bzy_mhz_big_mean, bzy_mhz_little_mean,
  bzy_ratio_little_over_big, n_cpus,
}
use fake_big_little.Analyze.Groups.{Arms, get_or, sorted_keys, values}
use fake_big_little.Analyze.Resampling.{Chance, Interval, no_interval, mean_ci}
use fake_big_little.Analyze.Gates.{Gate, gate, physically_real, pass, fail}
use fake_big_little.Analyze.Placement.{mean_of}

pub data Split : Type 0 where
  flat_epp no_frequency not_real real : Split

pub data Note : Type 0 where
  no_split_requested moot : Note
  split_is_real : Text → Note

module _ {F : Type 0} (ops : Floats F) (chance : Chance F) where
  pub record CpuRecord : Type 0 where
    pub cpu : ℕ
    pub bzy_mhz : Option F
    pub avg_mhz : Option F
    pub busy : Option F
    pub epp : Option F

  pub record ArmFrequency : Type 0 where
    pub arm : Text
    pub n : ℕ
    pub partitioned : Bool
    pub smt_pairs_split : ℕ
    pub per_cpu : List CpuRecord
    pub big_mhz : Option F
    pub little_mhz : Option F
    pub ratio : Option F
    pub ratio_ci : Interval F
    pub verdict : Split

  -- `ratio >= FREQ_RATIO_REAL`
  abbrev pub too_close : F → Bool
  too_close r = ops.le (ops.ratio 9 10) r

  unfoldable pub split_of : Bool → Option F → Split
  split_of false r = flat_epp
  split_of true none = no_frequency
  split_of true (some r) = if too_close r then not_real else real

  abbrev max_ℕ : List ℕ → ℕ
  max_ℕ [] = 0
  max_ℕ (n ∷ ns) = let m = max_ℕ ns in if ltb m n then n else m

  unfoldable pub cpu_record : List (Row F) → ℕ → CpuRecord
  unfolding values mean median
  cpu_record rs i = record {
    cpu = i;
    bzy_mhz = mean_of ops chance rs (cpu_bzy_mhz i);
    avg_mhz = mean_of ops chance rs (cpu_avg_mhz i);
    busy = mean_of ops chance rs (cpu_busy i);
    epp = median ops (values ops rs (cpu_epp i));
  }

  unfoldable pub frequency_of : Text → List (Row F) → ArmFrequency
  unfolding cpu_record split_of mean_ci
  frequency_of a rs =
      let ratios = values ops rs bzy_ratio_little_over_big in
      let partitioned = any (λ (r : Row F). r.domains.partitioned) rs in
      record {
        arm = a;
        n = length rs;
        partitioned = partitioned;
        smt_pairs_split = max_ℕ (map (λ (r : Row F). r.smt_pairs_split) rs);
        per_cpu = map (cpu_record rs) (range n_cpus);
        big_mhz = mean_of ops chance rs bzy_mhz_big_mean;
        little_mhz = mean_of ops chance rs bzy_mhz_little_mean;
        ratio = mean ops ratios;
        ratio_ci = if ltb (length ratios) 2 then no_interval else mean_ci ops chance ratios;
        verdict = split_of partitioned (mean ops ratios);
      }

  -- The arms that requested a split and have a ratio, with the ratio.
  unfoldable pub measured_splits : List ArmFrequency → List (Text × F)
  measured_splits [] = []
  measured_splits (a ∷ arms) =
      let later = measured_splits arms in
      elim a.ratio [ none ↦ later | some r ↦ if a.partitioned then (a.arm, r) ∷ later else later ]

  -- `min(real, key=…)`
  abbrev least : Text × F → List (Text × F) → Text × F
  least best [] = best
  least best (a ∷ arms) = least (if ops.lt a.1 best.1 then a else best) arms

  unfoldable pub note_of : List (Text × F) → Note
  note_of [] = no_split_requested
  note_of (a ∷ arms) =
      if every (λ s. too_close s.1) (a ∷ arms) then moot else split_is_real (least a arms).0

  unfoldable pub frequency_divergence : Arms ops → List ArmFrequency × Note
  unfolding frequency_of measured_splits note_of sorted_keys get_or
  frequency_divergence arms =
      let out = map (λ a. frequency_of a (get_or a [] arms)) (sorted_keys arms) in
      (out, note_of (measured_splits out))

  -- The gates that `analyze` adds for the arms that requested a split.
  unfoldable pub reality_gates : List (Text × F) → List Gate
  reality_gates splits =
      map (λ s. gate (physically_real s.0) (if too_close s.1 then fail else pass)) splits
