-- ===== src/Rail/Partition.antt =====
-- `experiment_b` of sim/rail_model.py: a fixed work on big and little cores, for each partition of the
-- four cores and both kinds of rail.
pub mod Best
pub mod Rows
pub mod Limit
use fake_big_little.Prelude.{
  ℕ, zero, suc, ◌+◌, ◌-◌, ◌*◌, Bool, true, false, not, ◌&&◌, ◌||◌, Option, none, some, List, [],
  ◌∷◌, ◌++◌, map, keep, range, replicate, ltb, ◌==◌, if◌then◌else◌,
}
use fake_big_little.Analyze.Floats.{Floats, max_from, min_from}
use fake_big_little.Rail.{
  Params, Core, Power, f_min, hz, ghz, package_power, turbo_limit_hz, freq_under_power_cap,
}

infixl 5 ◌>>=◌
abbrev ◌>>=◌ : {A B : Type 0} → Option A → (A → Option B) → Option B
none >>= f = none
some a >>= f = f a

-- An entry of `results`, with `shared_rail` and the other settings first.
pub record PartitionRow (F : Type 0) : Type 0 where
  pub n_big : ℕ
  pub n_little : ℕ
  pub shared_rail : Bool
  pub f_work_ghz : F
  pub f_bg_ghz : F
  pub bg_activity : F
  pub t_compile_s : F
  pub t_window_s : F
  pub finished_in_horizon : Bool
  pub p_phase1_w : F
  pub p_phase2_w : F
  pub v_rail_phase1_v : F
  pub energy_j : F

-- An entry of `per_n`.
pub record RailTax (F : Type 0) : Type 0 where
  pub n_big : ℕ
  pub energy_j_shared : F
  pub energy_j_split : F
  pub rail_tax_j : F
  pub rail_tax_pct : F
  pub feasible : Bool

pub record PartitionSummary (F : Type 0) : Type 0 where
  pub best_n_big_shared : ℕ
  pub best_energy_j_shared : F
  pub best_n_big_split : ℕ
  pub best_energy_j_split : F
  pub interior_optimum_shared : Bool
  pub interior_optimum_split : Bool
  pub energy_gap_j : F
  pub energy_gap_pct : F
  pub partition_benefit_j_shared : F
  pub partition_benefit_j_split : F
  pub partition_benefit_retained_frac : Option F
  pub curve_spread_frac_shared : F
  pub curve_spread_frac_split : F
  pub rail_tax_by_n_big : List (RailTax F)
  pub pl1_applied : Bool

-- `min(a, b)` of counts
abbrev smaller : ℕ → ℕ → ℕ
smaller a b = if ltb b a then b else a

-- The number of cores that compile: the big ones, or without a big one the little ones. It is never 0.
unfoldable pub n_work : ℕ → ℕ
n_work n_big = if n_big == 0 then 4 - n_big else n_big

-- The number of cores with background tasks, of which there are three.
unfoldable pub n_bg_cores : ℕ → ℕ
n_bg_cores n_big = if ltb 0 (4 - n_big) then smaller (4 - n_big) 3 else smaller n_big 3

-- The first item for which the key is least, of a list that is not empty.
unfoldable pub least_by : {A F : Type 0} → Floats F → (A → F) → A → List A → A
least_by ops key best [] = best
least_by ops key best (x ∷ xs) = least_by ops key (if ops.lt (key x) (key best) then x else best) xs

-- `xs[0]`
abbrev head : {A : Type 0} → List A → Option A
head [] = none
head (x ∷ xs) = some x

module _ {F : Type 0} (ops : Floats F) where
  -- `[r for r in rows if r["finished_in_horizon"]]`
  unfoldable pub feasible_rows : List (PartitionRow F) → List (PartitionRow F)
  feasible_rows rows = keep (λ (r : PartitionRow F). r.finished_in_horizon) rows

  -- `feas or rows`
  unfoldable pub candidates : List (PartitionRow F) → List (PartitionRow F)
  unfolding feasible_rows
  candidates rows = elim (feasible_rows rows) [ [] ↦ rows | r ∷ rs ↦ r ∷ rs ]

  -- `min` of no rows is a `ValueError`.
  unfoldable pub best_of : List (PartitionRow F) → Option (PartitionRow F)
  unfolding candidates least_by
  best_of rows = elim (candidates rows) [
    | [] ↦ none
    | r ∷ rs ↦ some (least_by ops (λ (r : PartitionRow F). r.energy_j) r rs)
  ]

  unfoldable pub interior : PartitionRow F → Bool
  interior b = ltb 0 b.n_big && ltb b.n_big 4

  unfoldable pub with_n_big : ℕ → List (PartitionRow F) → Option (PartitionRow F)
  with_n_big n rows = head (keep (λ (r : PartitionRow F). r.n_big == n) rows)

  unfoldable pub spread : List (PartitionRow F) → Option F
  unfolding candidates max_from min_from
  spread rows = elim (map (λ (r : PartitionRow F). r.energy_j) (candidates rows)) [
    | [] ↦ none
    | e ∷ es ↦ some (ops.div (ops.sub (max_from ops e es) (min_from ops e es)) (min_from ops e es))
  ]

  -- `100.0 * (x - y) / y`
  abbrev percent_above : F → F → F
  percent_above x y = ops.div (ops.mul (ops.of_ℕ 100) (ops.sub x y)) y

  unfoldable pub rail_tax : ℕ → PartitionRow F → PartitionRow F → RailTax F
  rail_tax n rs rp = record {
    n_big = n;
    energy_j_shared = rs.energy_j;
    energy_j_split = rp.energy_j;
    rail_tax_j = ops.sub rs.energy_j rp.energy_j;
    rail_tax_pct = percent_above rs.energy_j rp.energy_j;
    feasible = rs.finished_in_horizon && rp.finished_in_horizon;
  }

  -- `per_n`
  unfoldable pub rail_taxes :
      List (PartitionRow F) → List (PartitionRow F) → List ℕ → Option (List (RailTax F))
  unfolding rail_tax with_n_big
  rail_taxes shared split [] = some []
  rail_taxes shared split (n ∷ ns) = do
    rs ← with_n_big n shared
    rp ← with_n_big n split
    rest ← rail_taxes shared split ns
    some (rail_tax n rs rp ∷ rest)

  -- `summary`, from the results for each of the two kinds of rail
  unfoldable pub partition_summary :
      Bool → List (PartitionRow F) → List (PartitionRow F) → Option (PartitionSummary F)
  unfolding best_of interior with_n_big spread rail_taxes
  partition_summary apply_pl1 shared split = do
    best_shared ← best_of shared
    best_split ← best_of split
    all_shared ← with_n_big 4 shared
    all_split ← with_n_big 4 split
    taxes ← rail_taxes shared split (range 5)
    spread_shared ← spread shared
    spread_split ← spread split
    let ben_shared = ops.sub all_shared.energy_j best_shared.energy_j
    let ben_split = ops.sub all_split.energy_j best_split.energy_j
    some (record {
      best_n_big_shared = best_shared.n_big;
      best_energy_j_shared = best_shared.energy_j;
      best_n_big_split = best_split.n_big;
      best_energy_j_split = best_split.energy_j;
      interior_optimum_shared = interior best_shared;
      interior_optimum_split = interior best_split;
      energy_gap_j = ops.sub best_shared.energy_j best_split.energy_j;
      energy_gap_pct = percent_above best_shared.energy_j best_split.energy_j;
      partition_benefit_j_shared = ben_shared;
      partition_benefit_j_split = ben_split;
      partition_benefit_retained_frac =
          if ops.lt (ops.ratio 1 1000000000) ben_split
          then some (ops.div ben_shared ben_split)
          else none;
      curve_spread_frac_shared = spread_shared;
      curve_spread_frac_split = spread_split;
      rail_tax_by_n_big = taxes;
      pl1_applied = apply_pl1;
    })
