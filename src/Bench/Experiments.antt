-- ===== src/Bench/Experiments.antt =====
-- `e1_rail`, `e1b_poison` and `e2_coupling` of scripts/bench.py.
use fake_big_little.Prelude.{
  ℕ, Option, none, some, List, [], ◌∷◌, ◌++◌, leb, if◌then◌else◌, range, keep, take, length, not,
  ◌==◌,
}
use fake_big_little.Prelude.Sorting.{sorted}
use fake_big_little.Prelude.Texts.{Text, codes}
use fake_big_little.Prelude.Decimal.{str_ℕ}
use fake_big_little.Bench.CpuList.{cpulist}
use fake_big_little.Bench.Partition.{distinct}
use fake_big_little.Bench.World.{Env, Io, Command, Factors, ◌>>=◌, ◌>>◌, for_each}
use fake_big_little.Bench.Epp.{
  Mapping, insert, with_all, epp_big, epp_little, epp_flat, partitioned_mapping, uniform_mapping,
  apply_epp,
}
use fake_big_little.Bench.Session.{Bench, first, measured_run}

-- An arm of `e1_rail` or `e1b_poison`: its name and the EPP of each CPU.
abbrev pub Arm : Type 0
Arm = Text × Mapping

module _ (env : Env) (self : Bench) where
  unfoldable pub rail_arms : List Arm
  rail_arms =
      (codes "both-performance", uniform_mapping env.nr_cpus epp_big)
      ∷ (codes "both-power", uniform_mapping env.nr_cpus epp_little)
      ∷ (codes "both-balance", uniform_mapping env.nr_cpus epp_flat)
      ∷ (codes "partitioned", partitioned_mapping self.big self.little)
      ∷ []

  unfoldable pub rail_arm : ℕ → ℕ → ℕ → Arm → Io (Unit {0})
  rail_arm probe_big probe_little rep (name, mapping) = do
    apply_epp env mapping
    measured_run env self (codes "e1-rail") name (Factors.rail name probe_big probe_little) rep
        (codes "one spinner pinned to one CPU of each domain")
        (Command.energy_spin name (str_ℕ probe_big ++ b',' ∷ str_ℕ probe_little) self.args.dur)

  unfoldable pub e1_rail : ℕ → Io (Unit {0})
  e1_rail rep = do
    probe_big ← first self.big
    probe_little ← first self.little
    for_each rail_arms (rail_arm probe_big probe_little rep)

  -- The EPP of the CPUs other than the probe, by arm.
  unfoldable pub poison_arms : List (Text × Text)
  poison_arms =
      (codes "others-power", epp_little)
      ∷ (codes "others-balance", epp_flat)
      ∷ (codes "others-performance", epp_big)
      ∷ (codes "others-balance-power", codes "balance_power")
      ∷ []

  -- `mapping = {c: other_epp for c in others}; mapping[probe] = EPP_LITTLE`
  unfoldable pub poison_mapping : ℕ → Text → Mapping
  poison_mapping probe other =
      insert probe epp_little (with_all (keep (λ c. not (c == probe)) (range env.nr_cpus)) other [])

  unfoldable pub poison_arm : ℕ → ℕ → Text × Text → Io (Unit {0})
  poison_arm probe rep (name, other) = do
    apply_epp env (poison_mapping probe other)
    measured_run env self (codes "e1b-poison") name (Factors.poison probe epp_little other) rep
        (codes "probe CPU held at EPP power; only idle CPUs vary")
        (Command.energy_spin name (str_ℕ probe) self.args.dur)

  unfoldable pub e1b_poison : ℕ → Io (Unit {0})
  e1b_poison rep = do probe ← first self.little; for_each poison_arms (poison_arm probe rep)

  -- The two conditions of `k` light threads, or none where there are fewer little CPUs.
  conditions_for : List ℕ → List (Text × Option Text)
  conditions_for [] = []
  conditions_for (k ∷ ks) =
      let rest = conditions_for ks in
      if leb k (length self.little)
      then (codes "little" ++ str_ℕ k, some (cpulist (take k self.little)))
        ∷ (
          codes "big1+little" ++ str_ℕ k,
          some (cpulist (sorted (take 1 self.big ++ take k self.little))),
        )
        ∷ rest
      else rest

  unfoldable pub e2_conditions : List (Text × Option Text)
  unfolding conditions_for
  e2_conditions =
      (codes "idle", none) ∷ conditions_for (sorted (distinct (1 ∷ 2 ∷ length self.little ∷ [])))
      ++ (codes "big1", some (cpulist (take 1 self.big))) ∷ []

  -- `energy` alone, or around a spinner
  unfoldable pub coupling_command : Text → Option Text → Command
  coupling_command arm none = Command.energy_idle arm self.args.dur
  coupling_command arm (some cpus) = Command.energy_spin arm cpus self.args.dur

  unfoldable pub coupling_run : ℕ → Text → Text × Option Text → Io (Unit {0})
  unfolding coupling_command
  coupling_run rep epp_name (cond, cpus) =
      let arm = epp_name ++ b'.' ∷ cond in
      measured_run env self (codes "e2-coupling") arm (Factors.coupling epp_name cond cpus) rep []
        (coupling_command arm cpus)

  unfoldable pub coupling_block : ℕ → Arm → Io (Unit {0})
  coupling_block rep (epp_name, mapping) = do
    apply_epp env mapping
    for_each e2_conditions (coupling_run rep epp_name)

  unfoldable pub coupling_blocks : List Arm
  coupling_blocks =
      (codes "partitioned", partitioned_mapping self.big self.little)
      ∷ (codes "flat", uniform_mapping env.nr_cpus epp_flat)
      ∷ []

  unfoldable pub e2_coupling : ℕ → Io (Unit {0})
  e2_coupling rep = for_each coupling_blocks (coupling_block rep)
