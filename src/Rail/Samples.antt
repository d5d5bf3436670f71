-- ===== src/Rail/Samples.antt =====
-- `_fnum` and `load_samples` of sim/rail_model.py: the rows of measurements, and the siblings of a
-- physical core folded into one.
pub mod Counts
use fake_big_little.Prelude.{
  ℕ, zero, suc, ◌+◌, Bool, true, false, ◌||◌, Option, none, some, List, [], ◌∷◌, ◌++◌, map, ltb,
  any, keep, every, range, get_elem?, if◌then◌else◌,
}
use fake_big_little.Prelude.Texts.{Text, codes, text_eq}
use fake_big_little.Prelude.Decimal.{str_ℕ, strip, lower}
use fake_big_little.Analyze.Floats.{Floats, finite, somes, sum, max_from}
use fake_big_little.Rail.{Core}

-- `row.get`: the cell under a field's name, if the row has one. Reading the file is `csv`'s work.
abbrev pub LogRow : Type 0
LogRow = Text → Option Text

-- What stands for no number.
abbrev blanks : List Text
blanks = [] ∷ codes "nan" ∷ codes "na" ∷ codes "n/a" ∷ codes "null" ∷ codes "-" ∷ codes "none" ∷ []

abbrev pub is_none : {A : Type 0} → Option A → Bool
is_none none = true
is_none (some a) = false

-- A row of the measurements.
pub record Sample (F : Type 0) : Type 0 where
  pub t_s : Option F
  pub pkg_w : F
  pub core_w : Option F
  pub uncore_w : Option F
  pub dram_w : Option F
  pub psys_w : Option F
  pub temp_c : F
  pub phys : List (Core F)

module _ {F : Type 0} (ops : Floats F) where
  unfoldable pub fnum : Option Text → Option F
  unfolding lower strip text_eq finite
  fnum none = none
  fnum (some cell) =
      let s = strip cell in
      if any (text_eq (map lower s)) blanks
      then none
      else elim (ops.of_text s) [ none ↦ none | some v ↦ finite ops v ]

  -- `"cpu%d_mhz" % i` and `"cpu%d_busy" % i`
  abbrev cpu_column : LogRow → Text → ℕ → Option F
  cpu_column row suffix i = fnum (row (codes "cpu" ++ str_ℕ i ++ suffix))

  -- `[values[i] for i in sibs if i < N_LOGICAL_CPUS and values[i] is not None]`
  unfoldable pub of_siblings : List (Option F) → List ℕ → List F
  unfolding somes
  of_siblings values sibs =
      somes (
        map (λ i. elim (get_elem? values i) [ none ↦ none | some v ↦ v ])
          (keep (λ i. ltb i 8) sibs))

  -- `min(1.0, sum(bs)) if bs else 0.0`
  unfoldable pub activity : List F → F
  unfolding sum
  activity [] = ops.of_ℕ 0
  activity (b ∷ bs) = let s = sum ops (b ∷ bs) in if ops.lt s (ops.of_ℕ 1) then s else ops.of_ℕ 1

  -- The body of the loop over the physical cores; without a frequency the row is dropped.
  unfoldable pub fold_core : List (Option F) → List (Option F) → ℕ → Option (Core F)
  unfolding of_siblings activity max_from
  fold_core mhz busy pc =
      let sibs = pc ∷ (pc + 4) ∷ [] in
      let a = activity (of_siblings busy sibs) in
      elim (of_siblings mhz sibs) [
        | [] ↦ none
        | f ∷ fs ↦ some (ops.mul (max_from ops f fs) (ops.of_ℕ 1000000), a)
      ]

  unfoldable pub fold_cores : List (Option F) → List (Option F) → List ℕ → Option (List (Core F))
  unfolding fold_core
  fold_cores mhz busy [] = some []
  fold_cores mhz busy (pc ∷ pcs) =
      let rest = fold_cores mhz busy pcs in
      elim (fold_core mhz busy pc) [
        | none ↦ none
        | some c ↦ elim rest [ none ↦ none | some cs ↦ some (c ∷ cs) ]
      ]

  abbrev or_default : Option F → F
  or_default none = ops.of_ℕ 60
  or_default (some t) = t

  unfoldable pub sample_of : LogRow → F → List (Core F) → Sample F
  unfolding fnum
  sample_of row pkg phys = record {
    t_s = fnum (row (codes "t_s"));
    pkg_w = pkg;
    core_w = fnum (row (codes "core_w"));
    uncore_w = fnum (row (codes "uncore_w"));
    dram_w = fnum (row (codes "dram_w"));
    psys_w = fnum (row (codes "psys_w"));
    temp_c = or_default (fnum (row (codes "pkg_c")));
    phys = phys;
  }

  -- The body of the loop over the rows, first behind `pkg`; `none` is a skipped row.
  unfoldable pub read_cores : LogRow → List (Option F) → List (Option F) → F → Option (Sample F)
  unfolding fold_cores sample_of
  read_cores row mhz busy pkg =
      if ops.le pkg (ops.of_ℕ 0) || every is_none mhz
      then none
      else elim (fold_cores mhz busy (range 4)) [
        | none ↦ none
        | some phys ↦ some (sample_of row pkg phys)
      ]

  unfoldable pub read_row : LogRow → Option (Sample F)
  unfolding fnum read_cores str_ℕ
  read_row row =
      let mhz = map (cpu_column row (codes "_mhz")) (range 8) in
      let busy = map (cpu_column row (codes "_busy")) (range 8) in
      elim (fnum (row (codes "pkg_w"))) [ none ↦ none | some pkg ↦ read_cores row mhz busy pkg ]

  -- `samples.append(…)` or `skipped += 1`
  unfoldable pub count_row : Option (Sample F) → List (Sample F) × ℕ → List (Sample F) × ℕ
  count_row none (samples, skipped) = (samples, suc skipped)
  count_row (some s) (samples, skipped) = (s ∷ samples, skipped)

  unfoldable pub load_samples : List LogRow → List (Sample F) × ℕ
  unfolding read_row count_row
  load_samples [] = ([], 0)
  load_samples (row ∷ rows) = count_row (read_row row) (load_samples rows)
