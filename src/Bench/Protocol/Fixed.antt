-- ===== src/Bench/Protocol/Fixed.antt =====
-- The runs of `e1_rail`, `e1b_poison` and `e2_coupling` of scripts/bench.py.
use fake_big_little.Prelude.{
  ℕ, ◌<◌, ◌≡◌, true, ◌||◌, Option, List, [], ◌∷◌, ◌++◌, All-of_forall, mem,
}
use fake_big_little.Prelude.Texts.{Text, codes}
use fake_big_little.Bench.World.{absent, Io, pure, throw, ◌>>=◌, ◌>>◌, for_each, Env}
use fake_big_little.Bench.Epp.{Mapping, apply_epp}
use fake_big_little.Bench.Epp.Mappings.{
  value_in, IsFull, uniform_mapping-IsFull, partitioned_mapping-IsFull,
}
use fake_big_little.Bench.Session.{Bench, first}
use fake_big_little.Bench.Protocol.Poison.{poison_mapping-IsFull}
use fake_big_little.Bench.Protocol.Applying.{apply_epp-Makes}
use fake_big_little.Bench.Protocol.Measuring.{measured_run-Makes}
use fake_big_little.Bench.Session.Effects.{first-Keeps}
use fake_big_little.Bench.Experiments.{
  Arm, rail_arms, rail_arm, e1_rail, poison_arms, poison_mapping, poison_arm, e1b_poison,
  e2_conditions, coupling_run, coupling_block, coupling_blocks, e2_coupling,
}
use fake_big_little.Bench.Protocol.{Spec, Cond, Idle, Ready, Makes}
use fake_big_little.Bench.Protocol.Steps.{
  Quiet, Quiet-IsPassive, then-Makes, after-Quiet, flat, for_each-Makes, weaken-Makes,
}

-- The CPUs of the two lists are all CPUs.
abbrev pub Covers : ℕ → Bench → Type 0
Covers n self = (c : ℕ) → c < n → (mem c self.big || mem c self.little) ≡ true

-- The first of the little CPUs, where there is one.
abbrev pub probe_of : List ℕ → ℕ
probe_of [] = 0
probe_of (c ∷ _) = c

module _ (env : Env) (self : Bench) where
  -- The run of an arm whose EPP is a mapping.
  unfoldable pub arm_spec : Text → ℕ → Arm → Spec
  arm_spec experiment rep (name, mapping) = record {
    experiment = experiment;
    arm = name;
    rep = rep;
    epp = value_in mapping;
    scx = absent;
  }

  abbrev pub single : {A : Type 0} → (A → Spec) → A → List Spec
  single f a = f a ∷ []

  unfoldable pub rail_specs : ℕ → List Spec
  rail_specs rep = flat (single (arm_spec (codes "e1-rail") rep)) (rail_arms env self)

  unfoldable pub poison_specs : ℕ → ℕ → List Spec
  poison_specs rep probe =
      flat
        (single λ (arm : Text × Text).
          arm_spec (codes "e1b-poison") rep (arm.0, poison_mapping env self probe arm.1))
        (poison_arms env self)

  unfoldable pub coupling_spec : ℕ → Arm → Text × Option Text → Spec
  coupling_spec rep (epp_name, mapping) (cond, _) =
      arm_spec (codes "e2-coupling") rep (epp_name ++ b'.' ∷ cond, mapping)

  unfoldable pub coupling_specs : ℕ → List Spec
  coupling_specs rep =
      flat (λ block. flat (single (coupling_spec rep block)) (e2_conditions env self))
        (coupling_blocks env self)

  -- Setting the EPP of a mapping, then runs that leave it alone.
  under_mapping :
      (d : Mapping) (specs : List Spec) (m : Io (Unit {0}))
      → IsFull env.nr_cpus d
      → Makes env (Ready env (value_in d) absent) (Ready env (value_in d) absent) specs m
      → Makes env Idle Idle specs (apply_epp env d >> m)
  under_mapping d specs m full h =
      then-Makes env Idle (Ready env (value_in d) absent) Idle [] specs (apply_epp env d) m
        (apply_epp-Makes env d full) (weaken-Makes env _ _ _ specs m (λ epp scx r. r.1) h)

  module _ (covers : Covers env.nr_cpus self) where
    rail_arm-Makes :
        (pb pl rep : ℕ) (arm : Arm)
        → IsFull env.nr_cpus arm.1
        → Makes env Idle Idle
            (single (arm_spec (codes "e1-rail") rep) arm)
            (rail_arm env self pb pl rep arm)
    unfolding rail_arm arm_spec
    rail_arm-Makes pb pl rep (name, mapping) full =
        under_mapping mapping _ _ full
          (measured_run-Makes env self (value_in mapping) absent _ name _ rep _ _)

    -- `e1_rail` makes its four runs.
    pub e1_rail-Makes : (rep : ℕ) → Makes env Idle Idle (rail_specs rep) (e1_rail env self rep)
    unfolding e1_rail rail_specs rail_arms
    e1_rail-Makes rep =
        after-Quiet env Idle Idle _ _ _ (first-Keeps Quiet Quiet-IsPassive env self.big) (λ pb.
          after-Quiet env Idle Idle _ _ _ (first-Keeps Quiet Quiet-IsPassive env self.little) (λ pl.
            for_each-Makes env Idle (single (arm_spec (codes "e1-rail") rep)) _ _ (
              rail_arm-Makes pb pl rep _ (uniform_mapping-IsFull env.nr_cpus _),
              (
                rail_arm-Makes pb pl rep _ (uniform_mapping-IsFull env.nr_cpus _),
                (
                  rail_arm-Makes pb pl rep _ (uniform_mapping-IsFull env.nr_cpus _),
                  (
                    rail_arm-Makes pb pl rep _
                        (partitioned_mapping-IsFull env.nr_cpus self.big self.little covers),
                    tt,
                  ),
                ),
              ),
            )))

    poison_arm-Makes :
        (probe rep : ℕ) (arm : Text × Text)
        → Makes env Idle Idle
            (arm_spec (codes "e1b-poison") rep (arm.0, poison_mapping env self probe arm.1) ∷ [])
            (poison_arm env self probe rep arm)
    unfolding poison_arm arm_spec
    poison_arm-Makes probe rep (name, other) =
        under_mapping (poison_mapping env self probe other) _ _
          (poison_mapping-IsFull env self probe other)
          (measured_run-Makes env self _ absent _ name _ rep _ _)

    poison_loop-Makes :
        (rep probe : ℕ)
        → Makes env Idle Idle
            (poison_specs rep probe)
            (for_each (poison_arms env self) (poison_arm env self probe rep))
    unfolding poison_specs
    poison_loop-Makes rep probe =
        for_each-Makes env Idle _ (poison_arms env self) _
          (All-of_forall _ (poison_arm-Makes probe rep) (poison_arms env self))

    coupling_run-Makes :
        (rep : ℕ) (block : Arm) (condition : Text × Option Text)
        → let E : Cond = Ready env (value_in block.1) absent in
          Makes env E E
            (coupling_spec rep block condition ∷ [])
            (coupling_run env self rep block.0 condition)
    unfolding coupling_run coupling_spec arm_spec
    coupling_run-Makes rep (epp_name, mapping) (cond, cpus) =
        measured_run-Makes env self (value_in mapping) absent _ _ _ rep _ _

    coupling_block-Makes :
        (rep : ℕ) (block : Arm)
        → IsFull env.nr_cpus block.1
        → Makes env Idle Idle
            (flat (single (coupling_spec rep block)) (e2_conditions env self))
            (coupling_block env self rep block)
    unfolding coupling_block
    coupling_block-Makes rep (epp_name, mapping) full = under_mapping mapping _ _ full (
        for_each-Makes env _ (single (coupling_spec rep (epp_name, mapping)))
          (e2_conditions env self) _
          (All-of_forall _ (coupling_run-Makes rep (epp_name, mapping)) (e2_conditions env self)))

    -- `e2_coupling` makes a run for each condition, under the two mappings in turn.
    pub e2_coupling-Makes :
        (rep : ℕ) → Makes env Idle Idle (coupling_specs rep) (e2_coupling env self rep)
    unfolding e2_coupling coupling_specs coupling_blocks
    e2_coupling-Makes rep = for_each-Makes env Idle _ _ _ (
      coupling_block-Makes rep _
          (partitioned_mapping-IsFull env.nr_cpus self.big self.little covers),
      (coupling_block-Makes rep _ (uniform_mapping-IsFull env.nr_cpus _), tt),
    )

    poison_from-Makes :
        (rep : ℕ) (little : List ℕ)
        → Makes env Idle Idle (poison_specs rep (probe_of little)) (
            first little >>= λ probe.
            for_each (poison_arms env self) (poison_arm env self probe rep))
    unfolding first throw pure ◌>>=◌
    poison_from-Makes rep [] = record { makes = λ w e. tt }
    poison_from-Makes rep (probe ∷ rest) = record {
      makes = λ w e. (poison_loop-Makes rep probe).makes w e;
    }

    -- `e1b_poison` makes its four runs, with the first little CPU as the probe.
    pub e1b_poison-Makes :
        (rep : ℕ)
        → Makes env Idle Idle (poison_specs rep (probe_of self.little)) (e1b_poison env self rep)
    unfolding e1b_poison
    e1b_poison-Makes rep = poison_from-Makes rep self.little
