-- ===== src/Analyze/Rows.antt =====
-- From a raw run to a row: `split_domains`, and the shape of a row, of scripts/analyze.py.
pub mod Flatten
pub mod Split
pub mod Arrays
use fake_big_little.Prelude.{
  ℕ, zero, suc, ◌+◌, ◌-◌, Bool, true, false, not, ◌&&◌, ◌||◌, Option, none, some, List, [], ◌∷◌,
  ◌++◌, map, ltb, leb, ◌==◌, if◌then◌else◌, length, get_elem?, range, range_from, replicate, take,
  any, keep,
}
use fake_big_little.Prelude.Int.{ℤ, pos, eqb_ℤ, ltb_ℤ}
use fake_big_little.Prelude.Texts.{Text, codes, text_eq}
use fake_big_little.Json.{
  Value, null, bool, int, real, str, arr, obj, Items, nil, cons, Fields, end, field, get,
  equals_text,
}
use fake_big_little.Analyze.Floats.{Floats, num, clean, mean, sum, somes}

abbrev pub n_cpus : ℕ
n_cpus = 8

abbrev pub smt_stride : ℕ
smt_stride = 4

abbrev pub epp_big_max : ℤ
epp_big_max = pos 128

-- The columns of a row that are numbers; those of `energy`, `pinger` and `bls` by their keys.
pub data Column : Type 0 where
  start_temp_c energy_to_solution_j edp_js pkg_j_per_s rest_frac : Column
  energy_number pinger_number bls_number : Text → Column
  cpu_avg_mhz cpu_bzy_mhz cpu_busy cpu_epp : ℕ → Column
  bzy_mhz_big_mean bzy_mhz_little_mean bzy_ratio_little_over_big : Column
  spin_miters_total spin_miters_mean : Column
  bls_cross_frac bls_run_big_frac bls_run_little_frac bls_dsq_big_frac : Column

pub record Domains : Type 0 where
  pub big : List ℕ
  pub little : List ℕ
  pub partitioned : Bool

pub record Row (F : Type 0) : Type 0 where
  pub file : Text
  pub experiment : Text
  pub arm : Text
  pub sched : Option Value
  pub epp_mode : Option Value
  pub strict : Option Value
  pub rep : Option F
  pub timestamp : Text
  pub is_ok : Option Value
  pub on_ac : Option Value
  pub exit_code : Option ℤ
  pub domains : Domains
  pub smt_pairs_split : ℕ
  pub spin_threads : ℕ
  pub pinger_present : Bool
  pub spin_present : Bool
  pub bls_present : Bool
  pub cell : Column → Option F

-- `run.get(key) if isinstance(run.get(key), dict) else {}`
unfoldable pub object_at : Text → Fields → Fields
object_at key run = elim (get key run) as (λ _. Fields) [ none ↦ end | some v ↦ fields_of v ]
  where
    fields_of : Value → Fields
    fields_of (obj d) = d
    fields_of _ = end

unfoldable pub is_object : Option Value → Bool
is_object (some (obj d)) = true
is_object _ = false

-- `run.get(key) or default`. What `record` writes is a text; another value that is true, which the
-- script would keep, is taken for missing here.
unfoldable pub text_or : Text → Option Value → Text
text_or default (some (str (c ∷ s))) = c ∷ s
text_or default _ = default

abbrev pub item_list : Items → List Value
item_list nil = []
item_list (cons v vs) = v ∷ item_list vs

-- The items of a list, if the value is one.
unfoldable pub list_of : Option Value → Option (List Value)
list_of (some (arr items)) = some (item_list items)
list_of _ = none

-- `[(i, int(e)) for i, e in enumerate(epp) if e is not None]`, from position `i` on
unfoldable pub reported : List (Option ℤ) → ℕ → List (ℕ × ℤ)
reported [] i = []
reported (none ∷ es) i = reported es (i + 1)
reported (some e ∷ es) i = (i, e) ∷ reported es (i + 1)

-- Whether a value differs from the first one.
unfoldable pub has_distinct : List (ℕ × ℤ) → Bool
has_distinct [] = false
has_distinct ((_, e) ∷ vals) = any (λ v. not (eqb_ℤ v.1 e)) vals

unfoldable pub by_epp : List (ℕ × ℤ) → Domains
by_epp vals = record {
  big = map (λ p. p.0) (keep (λ p. ltb_ℤ p.1 epp_big_max) vals);
  little = map (λ p. p.0) (keep (λ p. not (ltb_ℤ p.1 epp_big_max)) vals);
  partitioned = true;
}

unfoldable pub flat : List (ℕ × ℤ) → Domains
flat [] = record { big = range n_cpus; little = []; partitioned = false }
flat (v ∷ vals) = record { big = map (λ p. p.0) (v ∷ vals); little = []; partitioned = false }

unfoldable pub split_reported : List (ℕ × ℤ) → Domains
unfolding has_distinct by_epp flat
split_reported vals = if has_distinct vals then by_epp vals else flat vals

unfoldable pub split_domains : List (Option ℤ) → Domains
unfolding reported split_reported
split_domains epp = split_reported (reported epp 0)
