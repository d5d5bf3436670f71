-- ===== src/Bench/Protocol/Whole.antt =====
-- The runs of a whole session of scripts/bench.py, and the plan that `print_plan` announces.
use mathlib.Core.Path.{subst}
use fake_big_little.Prelude.{
  ℕ, ◌≡◌, refl, ◌∙◌, Bool, true, false, if◌then◌else◌, Option, List, [], ◌∷◌, ◌++◌, append-nil,
  arith, range, All-of_forall,
}
use fake_big_little.Prelude.Int.{ℤ}
use fake_big_little.Prelude.Texts.{Text}
use fake_big_little.Bench.World.{
  absent, World, Result, ok, err, Io, pure, ◌>>◌, finally, for_each, Env,
}
use fake_big_little.Bench.Rules.{
  Keeps, IsPassive, keep_rules, pure-Keeps, then-Keeps, swallow-Keeps,
}
use fake_big_little.Bench.Epp.{Mapping, write_epp, restore_epp}
use fake_big_little.Bench.Cooling.Effects.{measure_idle_floor-Keeps}
use fake_big_little.Bench.Session.{Bench}
use fake_big_little.Bench.Session.Effects.{run-Keeps}
use fake_big_little.Bench.Experiments.{
  rail_arms, poison_arms, poison_mapping, e2_conditions, coupling_blocks,
}
use fake_big_little.Bench.Ab.{AbArm}
use fake_big_little.Bench.Driver.{
  wants_rail, wants_poison, wants_coupling, wants_ab, warmup, when, ab_rep, experiments, session,
}
use fake_big_little.Bench.Protocol.{Spec, Saved, Cond, Idle, Made, Makes}
use fake_big_little.Bench.Protocol.Steps.{
  Quiet, Quiet-IsPassive, Quiet-Makes, then-Makes, after-Quiet, then-Quiet, flat, if-Makes,
  for_each-Makes,
}
use fake_big_little.Bench.Protocol.Fixed.{
  Covers, arm_spec, coupling_spec, probe_of, single, rail_specs, poison_specs, coupling_specs,
  e1_rail-Makes, e1b_poison-Makes, e2_coupling-Makes,
}
use fake_big_little.Bench.Protocol.Ab.{ab_mapping, ab_spec, e3_one-Makes}

module _ (env : Env) (shuffled : ℕ → List AbArm) (self : Bench) where
  unfoldable pub ab_rep_specs : ℕ → List Spec
  ab_rep_specs rep = flat (single env self (ab_spec env self rep)) (shuffled rep)

  -- The runs of a session, repetition by repetition.
  unfoldable pub session_specs : List Spec
  session_specs =
      let reps = range self.args.reps in
      let choice = self.args.choice in
      (if wants_rail choice then flat (rail_specs env self) reps else [])
      ++ ((if wants_poison choice
            then flat (λ rep. poison_specs env self rep (probe_of self.little)) reps
            else [])
          ++ ((if wants_coupling choice then flat (coupling_specs env self) reps else [])
              ++ (if wants_ab choice then flat ab_rep_specs reps else [])))

when-Makes :
    (env : Env) (E : Cond) (b : Bool) (specs : List Spec) (m : Io (Unit {0}))
    → Makes env E E specs m
    → Makes env E E (if b then specs else []) (when env b m)
unfolding when
when-Makes env E true specs m h = h
when-Makes env E false specs m h = Quiet-Makes env E _ (pure-Keeps Quiet Quiet-IsPassive tt)

module _ (env : Env) (shuffled : ℕ → List AbArm) (self : Bench)
    (covers : Covers env.nr_cpus self) where
  ab_rep-Makes :
      (rep : ℕ)
      → Makes env Idle Idle (ab_rep_specs env shuffled self rep) (ab_rep env shuffled self rep)
  unfolding ab_rep ab_rep_specs
  ab_rep-Makes rep =
      for_each-Makes env Idle _ (shuffled rep) _
        (All-of_forall _ (e3_one-Makes env self covers rep) (shuffled rep))

  reps-Makes :
      (specs : ℕ → List Spec) (body : ℕ → Io (Unit {0}))
      → ((rep : ℕ) → Makes env Idle Idle (specs rep) (body rep))
      → (b : Bool)
      → Makes env Idle Idle
          (if b then flat specs (range self.args.reps) else [])
          (when env b (for_each (range self.args.reps) body))
  reps-Makes specs body h b = when-Makes env Idle b _ _ (
      for_each-Makes env Idle specs (range self.args.reps) body
        (All-of_forall _ h (range self.args.reps)))

  pub experiments-Makes :
      Makes env Idle Idle (session_specs env shuffled self) (experiments env shuffled self)
  unfolding experiments session_specs
  experiments-Makes =
      let choice = self.args.choice in
      then-Makes env Idle Idle Idle _ _ _ _
        (reps-Makes _ _ (e1_rail-Makes env self covers) (wants_rail choice))
        (then-Makes env Idle Idle Idle _ _ _ _
          (reps-Makes _ _ (e1b_poison-Makes env self covers) (wants_poison choice))
          (then-Makes env Idle Idle Idle _ _ _ _
            (reps-Makes _ _ (e2_coupling-Makes env self covers) (wants_coupling choice))
            (reps-Makes _ _ ab_rep-Makes (wants_ab choice))))

-- What the session asks for does not depend on the temperature floor.
session_specs_floor :
    (env : Env) (shuffled : ℕ → List AbArm) (self : Bench) (floor : Option ℤ)
    → session_specs env shuffled (record self { idle_floor = floor })
      ≡ session_specs env shuffled self
unfolding session_specs rail_specs poison_specs coupling_specs ab_rep_specs arm_spec rail_arms
    poison_mapping poison_arms coupling_spec e2_conditions coupling_blocks ab_spec ab_mapping
session_specs_floor env shuffled self floor = refl

-- The EPP may change; no file is saved, and no scheduler starts or ends.
record Silent (w w' : World) : Type 0 where
  same_scheduler : w'.scheduler ≡ w.scheduler
  same_saved : w'.saved ≡ w.saved

Silent-IsPassive : IsPassive Silent
Silent-IsPassive = record {
  trans = λ u v w h k. record {
    same_scheduler = k.same_scheduler ∙ h.same_scheduler;
    same_saved = k.same_saved ∙ h.same_saved;
  };
  passes = λ w t n. record { same_scheduler = refl; same_saved = refl };
}

write_epp-Silent : (env : Env) (cpu : ℕ) (value : Text) → Keeps Silent (write_epp env cpu value)
write_epp-Silent env cpu value = record {
  keeps = λ w. record {
    same_scheduler = unfold write_epp in ground arith;
    same_saved = unfold write_epp in ground arith;
  };
}

restore_epp-Silent : (env : Env) (d : Mapping) → Keeps Silent (restore_epp env d)
unfolding restore_epp
restore_epp-Silent env [] = pure-Keeps Silent Silent-IsPassive tt
restore_epp-Silent env ((k, v) ∷ d) =
    then-Keeps Silent Silent-IsPassive _ _
      (swallow-Keeps Silent Silent-IsPassive _ (write_epp-Silent env k v))
      (restore_epp-Silent env d)

module _ (env : Env) where
  Silent-end :
      (ss : List Spec) {A : Type 0} (w : World) (p : Result A × World) (k : Io (Unit {0}))
      → Keeps Silent k
      → Made env Idle ss w p
      → Made env Idle ss w (elim (k p.1).0 as (λ _. Result A × World) [
        | ok _ ↦ (p.0, (k p.1).1)
        | err e ↦ (err e, (k p.1).1)
      ])
  Silent-end ss {A} w (err e, w') k q h = with_error (k w')
    where
      with_error :
          (q : Result (Unit {0}) × World)
          → Made env Idle ss w
              (elim q.0 as (λ _. Result A × World) [ ok _ ↦ (err e, q.1) | err e' ↦ (err e', q.1) ])
      with_error (ok _, w'') = tt
      with_error (err _, w'') = tt
  Silent-end ss {A} w (ok a, w') k q h = with_value (k w') (q.keeps w')
    where
      with_value :
          (r : Result (Unit {0}) × World)
          → Silent w' r.1
          → Made env Idle ss w
              (elim r.0 as (λ _. Result A × World) [ ok _ ↦ (ok a, r.1) | err e' ↦ (err e', r.1) ])
      with_value (err _, w'') s = tt
      with_value (ok _, w'') s = (
        record { new = h.0.new; behind = s.same_saved ∙ h.0.behind; fit = h.0.fit },
        s.same_scheduler ∙ h.1,
      )

  finally-Makes :
      (ss : List Spec) {A : Type 0} (m : Io A) (k : Io (Unit {0}))
      → Keeps Silent k
      → Makes env Idle Idle ss m
      → Makes env Idle Idle ss (finally m k)
  unfolding finally
  finally-Makes ss m k q h = record { makes = λ w e. Silent-end ss w (m w) k q (h.makes w e) }

warmup-Quiet : (env : Env) → Keeps Quiet (warmup env)
unfolding warmup
warmup-Quiet env = search (keep_rules, Quiet-IsPassive, run-Keeps)

-- The part of a session behind the warm-up.
measured-Makes :
    (env : Env) (specs : List Spec) (m : Io (Unit {0})) (d : Mapping)
    → Makes env Idle Idle specs m
    → Makes env Idle Idle specs (finally m (restore_epp env d) >> pure {A = ℕ} 0)
measured-Makes env specs m d h =
    subst
      (λ (ss : List Spec). Makes env Idle Idle ss (finally m (restore_epp env d) >> pure {A = ℕ} 0))
      (append-nil specs)
      (then-Makes env Idle Idle Idle specs [] _ _
        (finally-Makes env specs m (restore_epp env d) (restore_epp-Silent env d) h)
        (Quiet-Makes env Idle _ (pure-Keeps Quiet Quiet-IsPassive 0)))

module _ (env : Env) (shuffled : ℕ → List AbArm) (self : Bench)
    (covers : Covers env.nr_cpus self) where
  specs_with :
      (floor : Option ℤ)
      → Makes env Idle Idle
          (session_specs env shuffled self)
          (experiments env shuffled (record self { idle_floor = floor }))
  specs_with floor =
      subst
        (λ (ss : List Spec).
          Makes env Idle Idle ss (experiments env shuffled (record self { idle_floor = floor })))
        (session_specs_floor env shuffled self floor)
        (experiments-Makes env shuffled (record self { idle_floor = floor }) covers)

  session-Makes :
      self.args.plan_only ≡ false
      → Makes env Idle Idle (session_specs env shuffled self) (session env shuffled self)
  unfolding session
  session-Makes measured =
      after-Quiet env Idle Idle _ _ _ (measure_idle_floor-Keeps env Quiet Quiet-IsPassive _)
        (λ floor.
          if-Makes env Idle Idle _ self.args.plan_only _ _ (λ on. absurd (cc))
            (λ off.
              then-Quiet env Idle Idle _ _ _ (warmup-Quiet env)
                (measured-Makes env _ _ self.saved_epp (specs_with floor))))

result_of :
    (env : Env) (specs : List Spec) {A : Type 0} (a : A) (w w' : World) (p : Result A × World)
    → p ≡ (ok a, w')
    → Made env Idle specs w p
    → Saved env specs w w' × (w'.scheduler ≡ absent)
result_of env specs a w w' p e h = subst (Made env Idle specs w) e h

pub session_saves_protocol :
    (env : Env) (shuffled : ℕ → List AbArm) (self : Bench) (w w' : World) (status : ℕ)
    → Covers env.nr_cpus self
    → self.args.plan_only ≡ false
    → w.scheduler ≡ absent
    → session env shuffled self w ≡ (ok status, w')
    → Saved env (session_specs env shuffled self) w w' × (w'.scheduler ≡ absent)
session_saves_protocol env shuffled self w w' status covers measured idle e =
    result_of env _ status w w' _ e ((session-Makes env shuffled self covers measured).makes w idle)
