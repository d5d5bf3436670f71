-- ===== src/Bench/Driver/Init.antt =====
-- `Bench.__init__` and `preflight` of scripts/bench.py.
use fake_big_little.Prelude.{
  ℕ, ◌<◌, ◌≡◌, ◌∙◌, ◌++◌, ◌&&◌, refl, ap, any, Bool, true, false, not, ◌||◌, Option, none, some,
  List, [], ◌∷◌, arith, range, keep, mem, mem-keep, mem-range_from, ◌+◌,
}
use mathlib.Core.Path.{subst}
use fake_big_little.Prelude.Texts.{Text, codes}
use fake_big_little.Bench.CpuList.{parse_cpulist}
use fake_big_little.Bench.Partition.{default_partition_splits}
use fake_big_little.Bench.World.{Env, World, ok, ask, ◌>>=◌, pure}
use fake_big_little.Bench.Epp.{read_epp_all}
use fake_big_little.Bench.Session.{Args, Bench}
use fake_big_little.Bench.Ab.{AbArm, is_loaded}
use fake_big_little.Bench.Driver.{
  Host, Problem, not_root, no_msr, no_workload, no_bls, on_battery, no_tool, wrong_driver,
  scheduler_loaded, problem_if, is_pstate, is_false, on_ac, wants_ab, preflight, init, go,
}
use fake_big_little.Bench.Protocol.Fixed.{Covers}

module _ (env : Env) (args : Args) (w : World) where
  abbrev n : ℕ
  n = env.nr_cpus

  -- The object that `init` makes of two lists of CPUs.
  abbrev made : Option Text → List ℕ → List ℕ → Bench
  made o b l = record {
    args = record args { big_override = o };
    big = b;
    little = l;
    saved_epp = read_epp_all env w;
    idle_floor = none;
  }

  either_side : (b l : Bool) → l ≡ not b → (b || l) ≡ true
  either_side b l e = ground arith

  made-Covers :
      (o : Option Text) (b l : List ℕ) (self : Bench)
      → ((c : ℕ) → c < n → mem c l ≡ not (mem c b))
      → some (made o b l) ≡ some self
      → Covers n self
  made-Covers o b l self split e =
      let same : made o b l ≡ self = cc in
      subst (Covers n) same (λ c h. either_side (mem c b) (mem c l) (split c h))

  rest_splits :
      (b : List ℕ) (c : ℕ) → c < n → mem c (keep (λ i. not (mem i b)) (range n)) ≡ not (mem c b)
  rest_splits b c h =
      rw (mem-keep (λ i. not (mem i b)) c (range n), mem-range_from c 0 n) (ground arith)

  abbrev of_parsed : Option Text → Option (List ℕ) → Option Bench
  of_parsed o none = none
  of_parsed o (some b) = some (made o b (keep (λ i. not (mem i b)) (range n)))

  of_parsed-Covers :
      (o : Option Text) (p : Option (List ℕ)) (self : Bench)
      → of_parsed o p ≡ some self
      → Covers n self
  of_parsed-Covers o none self e = cc
  of_parsed-Covers o (some b) self e = made-Covers o b _ self (rest_splits b) e

  init-Covers_from :
      (o : Option Text) (self : Bench)
      → init env (record args { big_override = o }) w ≡ some self
      → Covers n self
  unfolding init
  init-Covers_from none self e =
      made-Covers none _ _ self (default_partition_splits n env.core_id) e
  init-Covers_from (some []) self e =
      made-Covers (some []) _ _ self (default_partition_splits n env.core_id) e
  init-Covers_from (some (b ∷ s)) self e =
      of_parsed-Covers (some (b ∷ s)) (parse_cpulist (b ∷ s)) self e

-- Whatever `--big` says, if it can be read every CPU is a big or a little one.
pub init-Covers :
    (env : Env) (args : Args) (w : World) (self : Bench)
    → init env args w ≡ some self
    → Covers env.nr_cpus self
init-Covers env args w self e = init-Covers_from env args w args.big_override self e

-- What keeps a measurement from starting, given the state of sched_ext.
pub data Unready (host : Host) (args : Args) (scx : Option Text) : Type 0 where
  no_root : host.is_root ≡ false → Unready host args scx
  without_energy : host.has_energy ≡ false → Unready host args scx
  without_pinger : host.has_pinger ≡ false → Unready host args scx
  without_spin : host.has_spin ≡ false → Unready host args scx
  without_scheduler : wants_ab args.choice ≡ true → host.has_bls ≡ false → Unready host args scx
  without_workload : host.has_workload ≡ false → Unready host args scx
  without_msr : host.has_msr ≡ false → Unready host args scx
  other_driver : is_pstate host.scaling_driver ≡ false → Unready host args scx
  other_scheduler : is_loaded scx ≡ true → Unready host args scx
  without_mains :
      on_ac host.supplies ≡ some false → args.allow_battery ≡ false → Unready host args scx

problem_last : (b : Bool) (p : Problem) → any (λ _. true) (problem_if b p) ≡ b
problem_last true p = refl
problem_last false p = refl

problem_then :
    (ps : List Problem) (c b : Bool) (p : Problem)
    → any (λ _. true) ps ≡ c
    → any (λ _. true) (ps ++ problem_if b p) ≡ (c || b)
problem_then [] c b p h = problem_last b p ∙ ap (λ x. x || b) h
problem_then (q ∷ ps) c b p h = ap (λ x. x || b) h

preflight_checks :
    (host : Host) (args : Args) (scx : Option Text)
    → any (λ _. true) (preflight host args scx) ≡ (
        (((((((((not host.is_root) || (not host.has_energy)) || (not host.has_pinger))
                    || (not host.has_spin))
                  || (wants_ab args.choice && not host.has_bls))
                || (not host.has_workload))
              || (not host.has_msr))
            || (not (is_pstate host.scaling_driver)))
          || (is_loaded scx))
        || (is_false (on_ac host.supplies) && not args.allow_battery))
unfolding preflight
preflight_checks host args scx =
    problem_then _ _ (is_false (on_ac host.supplies) && not args.allow_battery) on_battery (
      problem_then _ _ (is_loaded scx) (scheduler_loaded scx) (
        problem_then _ _ (not (is_pstate host.scaling_driver)) (wrong_driver host.scaling_driver) (
          problem_then _ _ (not host.has_msr) no_msr (
            problem_then _ _ (not host.has_workload) no_workload (
              problem_then _ _ (wants_ab args.choice && not host.has_bls) no_bls (
                problem_then _ _ (not host.has_spin) (no_tool (codes "spin")) (
                  problem_then _ _ (not host.has_pinger) (no_tool (codes "pinger")) (
                    problem_then _ _ (not host.has_energy) (no_tool (codes "energy"))
                      (problem_last (not host.is_root) not_root)))))))))

preflight_finds :
    (host : Host) (args : Args) (scx : Option Text)
    → Unready host args scx
    → any (λ _. true) (preflight host args scx) ≡ true
preflight_finds host args scx (no_root e) = preflight_checks host args scx ∙ ground arith
preflight_finds host args scx (without_energy e) = preflight_checks host args scx ∙ ground arith
preflight_finds host args scx (without_pinger e) = preflight_checks host args scx ∙ ground arith
preflight_finds host args scx (without_spin e) = preflight_checks host args scx ∙ ground arith
preflight_finds host args scx (without_scheduler e n) =
    preflight_checks host args scx ∙ ground arith
preflight_finds host args scx (without_workload e) = preflight_checks host args scx ∙ ground arith
preflight_finds host args scx (without_msr e) = preflight_checks host args scx ∙ ground arith
preflight_finds host args scx (other_driver e) = preflight_checks host args scx ∙ ground arith
preflight_finds host args scx (other_scheduler e) = preflight_checks host args scx ∙ ground arith
preflight_finds host args scx (without_mains e n) =
    let on_battery_power : is_false (on_ac host.supplies) ≡ true = ap is_false e in
    preflight_checks host args scx ∙ ground arith

-- Where more than the plan is wanted and something is missing, of the rights, the tools, the workload,
-- the registers, the driver and the mains, or another scheduler is loaded, `go` ends with status 1
-- and nothing has changed but that the state of sched_ext was asked for.
pub go_refuses :
    (env : Env) (host : Host) (shuffled : ℕ → List AbArm) (self : Bench) (w : World)
    → self.args.plan_only ≡ false
    → Unready host self.args (env.scx_state w.asked)
    → go env host shuffled self w ≡ (ok 1, record w { asked = w.asked + 1 })
unfolding go ask ◌>>=◌ pure
go_refuses env host shuffled self w measured unready =
    simp (preflight_finds host self.args (env.scx_state w.asked) unready, measured)
