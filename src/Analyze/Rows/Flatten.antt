-- ===== src/Analyze/Rows/Flatten.antt =====
-- `_arr` and `flatten_run` of scripts/analyze.py: one raw run becomes one row.
use fake_big_little.Prelude.{
  ℕ, ◌+◌, ◌-◌, Bool, false, not, Option, none, some, List, [], ◌∷◌, ◌++◌, map, if◌then◌else◌,
  length, get_elem?, range, replicate, take, keep,
}
use fake_big_little.Prelude.Int.{ℤ}
use fake_big_little.Prelude.Texts.{Text, codes}
use fake_big_little.Json.{Value, int, real, obj, Fields, get}
use fake_big_little.Analyze.Floats.{Floats, num, clean, mean, sum}
use fake_big_little.Analyze.Rows.{
  Column, start_temp_c, energy_to_solution_j, edp_js, pkg_j_per_s, rest_frac, energy_number,
  pinger_number, bls_number, cpu_avg_mhz, cpu_bzy_mhz, cpu_busy, cpu_epp, bzy_mhz_big_mean,
  bzy_mhz_little_mean, bzy_ratio_little_over_big, spin_miters_total, spin_miters_mean,
  bls_cross_frac, bls_run_big_frac, bls_run_little_frac, bls_dsq_big_frac, Row, Domains, n_cpus,
  smt_stride, object_at, is_object, text_or, list_of, split_domains,
}

-- The item at an index, if there is one and it is not missing.
unfoldable pub at : {A : Type 0} → List (Option A) → ℕ → Option A
at xs i = elim (get_elem? xs i) [ none ↦ none | some v ↦ v ]

-- The given CPUs' values that are there, in their order.
unfoldable pub select : {A : Type 0} → List (Option A) → List ℕ → List (Option A)
unfolding at
select xs cpus = map (at xs) cpus

module _ {F : Type 0} (ops : Floats F) where
  unfoldable pub arr_at : Text → Fields → List (Option F)
  unfolding num list_of
  arr_at key d = elim (list_of (get key d)) [
    | none ↦ replicate n_cpus none
    | some vs ↦
        let out = map (λ v. num ops (some v)) (take n_cpus vs) in
        out ++ replicate (n_cpus - length out) none
  ]

  unfoldable pub number_at : Text → Fields → Option F
  unfolding num
  number_at key d = num ops (get key d)

  abbrev pub is_zero : F → Bool
  is_zero x = ops.eq x (ops.of_ℕ 0)

  -- `x / y` if both are there and `y` is not 0
  unfoldable pub quotient : Option F → Option F → Option F
  quotient (some x) (some y) = if is_zero y then none else some (ops.div x y)
  quotient _ _ = none

  unfoldable pub product : Option F → Option F → Option F
  product (some x) (some y) = some (ops.mul x y)
  product _ _ = none

  -- `x or 0.0`
  unfoldable pub or_zero : Option F → F
  or_zero none = ops.of_ℕ 0
  or_zero (some x) = x

  -- `x / tot` for `tot = (a or 0.0) + (b or 0.0)`, where `x` is there and `tot > 0`
  unfoldable pub fraction : Option F → Option F → Option F → Option F
  unfolding or_zero
  fraction none a b = none
  fraction (some x) a b =
      let tot = ops.add (or_zero a) (or_zero b) in
      if ops.lt (ops.of_ℕ 0) tot then some (ops.div x tot) else none

  -- `int(ec) if isinstance(ec, (int, float)) and not isinstance(ec, bool) else None`
  unfoldable pub int_of : Option Value → Option ℤ
  int_of (some (int n)) = some n
  int_of (some (real s)) = elim (ops.of_text s) [ none ↦ none | some x ↦ some (ops.trunc x) ]
  int_of _ = none

  unfoldable pub differ : Option F → Option F → Bool
  differ (some a) (some b) =
      let is_big = λ (x : F). ops.lt x (ops.of_ℕ 128) in
      if is_big a then not (is_big b) else is_big b
  differ _ _ = false

  -- The sibling pairs of which one CPU is big and the other is not.
  unfoldable pub count_split : List (Option F) → ℕ
  unfolding differ at
  count_split epp =
      length (keep (λ i. differ (at epp i) (at epp (i + smt_stride))) (range smt_stride))

  unfoldable pub rates_of : List Value → List F
  unfolding number_at clean object_at
  rates_of [] = []
  rates_of (obj t ∷ threads) =
      clean ops (number_at (codes "miters_per_busy_s") t ∷ []) ++ rates_of threads
  rates_of (_ ∷ threads) = rates_of threads

  -- The parts of a run that the columns are made of.
  pub record Parts : Type 0 where
    pub energy : Fields
    pub pinger : Fields
    pub bls : Fields
    pub env : Fields
    pub rates : List F
    pub domains : Domains

  unfoldable pub cell_of : Parts → Column → Option F
  unfolding number_at arr_at quotient product fraction select at clean mean sum
  cell_of p start_temp_c = number_at (codes "start_temp_c") p.env
  cell_of p (energy_number k) = number_at k p.energy
  cell_of p (pinger_number k) = number_at k p.pinger
  cell_of p (bls_number k) = number_at k p.bls
  cell_of p energy_to_solution_j = number_at (codes "pkg_j") p.energy
  cell_of p edp_js =
      product (number_at (codes "pkg_j") p.energy) (number_at (codes "wall_s") p.energy)
  cell_of p pkg_j_per_s =
      quotient (number_at (codes "pkg_j") p.energy) (number_at (codes "wall_s") p.energy)
  cell_of p rest_frac =
      quotient (number_at (codes "rest_j") p.energy) (number_at (codes "pkg_j") p.energy)
  cell_of p (cpu_avg_mhz i) = at (arr_at (codes "cpu_avg_mhz") p.energy) i
  cell_of p (cpu_bzy_mhz i) = at (arr_at (codes "cpu_bzy_mhz") p.energy) i
  cell_of p (cpu_busy i) = at (arr_at (codes "cpu_busy") p.energy) i
  cell_of p (cpu_epp i) = at (arr_at (codes "epp") p.energy) i
  cell_of p bzy_mhz_big_mean =
      mean ops (clean ops (select (arr_at (codes "cpu_bzy_mhz") p.energy) p.domains.big))
  cell_of p bzy_mhz_little_mean =
      mean ops (clean ops (select (arr_at (codes "cpu_bzy_mhz") p.energy) p.domains.little))
  cell_of p bzy_ratio_little_over_big =
      let bzy = arr_at (codes "cpu_bzy_mhz") p.energy in
      quotient (mean ops (clean ops (select bzy p.domains.little)))
        (mean ops (clean ops (select bzy p.domains.big)))
  cell_of p spin_miters_total = elim p.rates [ [] ↦ none | r ∷ rs ↦ some (sum ops (r ∷ rs)) ]
  cell_of p spin_miters_mean = mean ops p.rates
  cell_of p bls_cross_frac =
      quotient (number_at (codes "cross_domain") p.bls) (number_at (codes "enqueue") p.bls)
  cell_of p bls_run_big_frac =
      let big = number_at (codes "run_big_ms") p.bls in
      fraction big big (number_at (codes "run_little_ms") p.bls)
  cell_of p bls_run_little_frac =
      let little = number_at (codes "run_little_ms") p.bls in
      fraction little (number_at (codes "run_big_ms") p.bls) little
  cell_of p bls_dsq_big_frac =
      let big = number_at (codes "dsq_big") p.bls in
      fraction big big (number_at (codes "dsq_little") p.bls)

  abbrev int_epp : Option F → Option ℤ
  int_epp none = none
  int_epp (some e) = some (ops.trunc e)

  abbrev threads_of : Fields → List Value
  threads_of spin = elim (list_of (get (codes "threads") spin)) [ none ↦ [] | some ts ↦ ts ]

  -- `flatten_run`, of a run that was read from a file.
  unfoldable pub flatten_run : Text → Fields → Row F
  unfolding object_at is_object text_or num int_of count_split rates_of cell_of arr_at split_domains
      list_of
  flatten_run file run =
      let energy = object_at (codes "energy") run in
      let factors = object_at (codes "factors") run in
      let env = object_at (codes "env") run in
      let threads = threads_of (object_at (codes "spin") run) in
      let epp = arr_at (codes "epp") energy in
      let domains = split_domains (map int_epp epp) in
      let parts : Parts = record {
        energy = energy;
        pinger = object_at (codes "pinger") run;
        bls = object_at (codes "bls") run;
        env = env;
        rates = rates_of threads;
        domains = domains;
      } in
      record {
        file = file;
        experiment = text_or (codes "(unknown)") (get (codes "experiment") run);
        arm = text_or (codes "(unknown)") (get (codes "arm") run);
        sched = get (codes "sched") factors;
        epp_mode = get (codes "epp") factors;
        strict = get (codes "strict") factors;
        rep = num ops (get (codes "rep") run);
        timestamp = text_or [] (get (codes "timestamp") run);
        is_ok = get (codes "ok") run;
        on_ac = get (codes "on_ac") env;
        exit_code = int_of (get (codes "exit_code") energy);
        domains = domains;
        smt_pairs_split = count_split epp;
        spin_threads = length threads;
        pinger_present = is_object (get (codes "pinger") run);
        spin_present = is_object (get (codes "spin") run);
        bls_present = is_object (get (codes "bls") run);
        cell = cell_of parts;
      }
