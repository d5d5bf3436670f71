-- ===== src/Bench/Driver.antt =====
-- The driver of scripts/bench.py: `Bench.__init__`, `preflight`, `plan`, `print_plan`, `warmup` and
-- `go`.
pub mod Init
use fake_big_little.Prelude.{
  ℕ, zero, suc, ◌+◌, ◌*◌, Bool, true, false, not, ◌&&◌, ◌||◌, Option, none, some, List, [], ◌∷◌,
  ◌++◌, if◌then◌else◌, range, keep, mem, length, any,
}
use fake_big_little.Prelude.Texts.{Text, codes, text_eq}
use fake_big_little.Bench.CpuList.{parse_cpulist}
use fake_big_little.Bench.Partition.{default_partition}
use fake_big_little.Bench.World.{
  Env, World, Io, value_error, Command, ok, err, pure, throw, ◌>>=◌, ◌>>◌, finally, ask, for_each,
  now,
}
use fake_big_little.Bench.Epp.{read_epp_all, restore_epp}
use fake_big_little.Bench.Cooling.{measure_idle_floor}
use fake_big_little.Bench.Session.{
  Choice, all_of_them, only_rail, only_poison, only_coupling, only_ab, Args, Bench, run,
}
use fake_big_little.Bench.Experiments.{e1_rail, e1b_poison, e2_conditions, e2_coupling}
use fake_big_little.Bench.Ab.{AbArm, e3_arms, e3_one, is_loaded}

-- What `preflight` looks at besides the CPUs. A supply's text is `none` where it cannot be read.
pub record Host : Type 0 where
  pub is_root : Bool
  pub has_energy : Bool
  pub has_pinger : Bool
  pub has_spin : Bool
  pub has_bls : Bool
  pub has_workload : Bool
  pub has_msr : Bool
  pub scaling_driver : Option Text
  pub supplies : List (Option Text)

pub data Problem : Type 0 where
  not_root no_msr no_workload no_bls on_battery : Problem
  no_tool : Text → Problem
  wrong_driver : Option Text → Problem
  scheduler_loaded : Option Text → Problem

-- `on_ac`: the first supply that can be read says.
unfoldable pub on_ac : List (Option Text) → Option Bool
on_ac [] = none
on_ac (none ∷ rest) = on_ac rest
on_ac (some s ∷ _) = some (text_eq s (codes "1"))

abbrev pub problem_if : Bool → Problem → List Problem
problem_if b p = if b then p ∷ [] else []

abbrev pub is_pstate : Option Text → Bool
is_pstate none = false
is_pstate (some d) = text_eq d (codes "intel_pstate")

abbrev pub is_false : Option Bool → Bool
is_false none = false
is_false (some b) = not b

unfoldable pub wants_rail : Choice → Bool
wants_rail all_of_them = true
wants_rail only_rail = true
wants_rail _ = false

unfoldable pub wants_poison : Choice → Bool
wants_poison all_of_them = true
wants_poison only_poison = true
wants_poison _ = false

unfoldable pub wants_coupling : Choice → Bool
wants_coupling all_of_them = true
wants_coupling only_coupling = true
wants_coupling _ = false

unfoldable pub wants_ab : Choice → Bool
wants_ab all_of_them = true
wants_ab only_ab = true
wants_ab _ = false

-- The problems in the order in which they are found, given the state of sched_ext.
unfoldable pub preflight : Host → Args → Option Text → List Problem
unfolding on_ac wants_ab is_loaded
preflight host args scx =
    problem_if (not host.is_root) not_root
    ++ problem_if (not host.has_energy) (no_tool (codes "energy"))
    ++ problem_if (not host.has_pinger) (no_tool (codes "pinger"))
    ++ problem_if (not host.has_spin) (no_tool (codes "spin"))
    ++ problem_if (wants_ab args.choice && not host.has_bls) no_bls
    ++ problem_if (not host.has_workload) no_workload
    ++ problem_if (not host.has_msr) no_msr
    ++ problem_if (not (is_pstate host.scaling_driver)) (wrong_driver host.scaling_driver)
    ++ problem_if (is_loaded scx) (scheduler_loaded scx)
    ++ problem_if (is_false (on_ac host.supplies) && not args.allow_battery) on_battery

-- An experiment, the number of its arms, and the measured time of a run.
pub record PlanRow : Type 0 where
  pub experiment : Text
  pub arms : ℕ
  pub run_ms : ℕ

abbrev pub row_if : Bool → Text → ℕ → ℕ → List PlanRow
row_if b name n ms = if b then record { experiment = name; arms = n; run_ms = ms } ∷ [] else []

-- `(total_runs, lo, hi)` of `print_plan`, with the times in milliseconds.
unfoldable pub plan_totals : Args → List PlanRow → ℕ × ℕ × ℕ
plan_totals args [] = (0, 0, 0)
plan_totals args (r ∷ rows) =
    let (total, lo, hi) = plan_totals args rows in
    let runs = r.arms * args.reps in
    (
      runs + total,
      runs * (r.run_ms + args.settle) + lo,
      runs * (r.run_ms + args.settle + args.cool_max) + hi,
    )

module _ (env : Env) where
  -- `Bench.__init__`: an override of the big CPUs leaves all the others to the little ones.
  unfoldable pub init : Args → World → Option Bench
  init args w =
      let (big, little) = default_partition env.nr_cpus env.core_id in
      let made = λ (b l : List ℕ).
        let self : Bench = record {
          args = args;
          big = b;
          little = l;
          saved_epp = read_epp_all env w;
          idle_floor = none;
        } in
        self in
      elim args.big_override [
        | none ↦ some (made big little)
        | some [] ↦ some (made big little)
        | some (c ∷ s) ↦ elim (parse_cpulist (c ∷ s)) [
          | none ↦ none
          | some b ↦ some (made b (keep (λ i. not (mem i b)) (range env.nr_cpus)))
        ]
      ]

  unfoldable pub plan : Bench → List PlanRow
  unfolding wants_rail wants_poison wants_coupling wants_ab
  plan self =
      let choice = self.args.choice in
      row_if (wants_rail choice) (codes "e1-rail") 4 self.args.dur
      ++ row_if (wants_poison choice) (codes "e1b-poison") 4 self.args.dur
      ++ row_if (wants_coupling choice) (codes "e2-coupling") (2 * length (e2_conditions env self))
          self.args.dur
      ++ row_if (wants_ab choice) (codes "e3-ab") (length e3_arms) 30000

  unfoldable pub warmup : Io (Unit {0})
  warmup = do
    run env Command.make_clean
    run env (Command.make_all env.nr_cpus)
    run env Command.make_clean
    pure tt

  unfoldable pub when : Bool → Io (Unit {0}) → Io (Unit {0})
  when b m = if b then m else pure tt

  -- `rng.shuffle` of the arms, by repetition.
  module _ (shuffled : ℕ → List AbArm) (self : Bench) where
    unfoldable pub ab_rep : ℕ → Io (Unit {0})
    ab_rep rep = for_each (shuffled rep) (e3_one env self rep)

    unfoldable pub experiments : Io (Unit {0})
    experiments = do
      when (wants_rail self.args.choice) (for_each (range self.args.reps) (e1_rail env self))
      when (wants_poison self.args.choice) (for_each (range self.args.reps) (e1b_poison env self))
      when (wants_coupling self.args.choice)
          (for_each (range self.args.reps) (e2_coupling env self))
      when (wants_ab self.args.choice) (for_each (range self.args.reps) ab_rep)

  -- What follows the preflight; the printed lines are not modelled.
  unfoldable pub session : (ℕ → List AbArm) → Bench → Io ℕ
  session shuffled self = do
    floor ← measure_idle_floor env self.args.floor_probe
    let self' : Bench = record self { idle_floor = floor }
    if self.args.plan_only then pure 0 else (do
      warmup
      finally (experiments shuffled self') (restore_epp env self.saved_epp)
      pure 0)

  -- The exit status of `go`.
  unfoldable pub go : Host → (ℕ → List AbArm) → Bench → Io ℕ
  go host shuffled self = do
    state ← ask env.scx_state
    let refused = any (λ _. true) (preflight host self.args state) && not self.args.plan_only
    if refused then pure 1 else session shuffled self
