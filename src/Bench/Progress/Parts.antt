-- ===== src/Bench/Progress/Parts.antt =====
-- The functions of scripts/bench.py up to a run that return on a machine that cooperates.
use fake_big_little.Prelude.{
  ℕ, zero, suc, ◌+◌, ◌≡◌, sym, Bool, true, false, Option, List, [], ◌∷◌, if◌then◌else◌,
}
use mathlib.Core.Path.{subst}
use fake_big_little.Prelude.Int.{ℤ}
use fake_big_little.Prelude.Texts.{Text}
use fake_big_little.Bench.World.{
  Scheduler, started, absent, Result, Outcome, missing, undecodable, exited, ok, err, os_error,
  value_error, Env, World, Command, Factors, Slots, Measurement,
}
use fake_big_little.Bench.Epp.{Mapping, update, write_epp, apply_epp, restore_epp}
use fake_big_little.Bench.Cooling.{read_temp, sample_until, measure_idle_floor, cool_loop, cooldown}
use fake_big_little.Bench.Session.{Bench, run, make_dirs, save, record_run, cool_down, measured_run}
use fake_big_little.Bench.Ab.{
  AbArm, set_scheduler, set_pinging, popen_bls, popen_pinger, wait_attached, stop_pinger, stop_bls,
  set_epp_for, timed_build, not_attached, with_scheduler, e3_one,
}
use fake_big_little.Bench.Progress.Printing.{Prints, print_run-Always, classify_json-Prints}
use fake_big_little.Bench.Progress.{
  Always, IsOk, Cooperates, always_rules, ask_yes-Always, bind-Always, then-Always, if-Always,
  pure-Always, swallow-Always, ask-Always, now-Always,
}

module _ (env : Env) where
  pub read_temp-Always : Always (read_temp env)
  unfolding read_temp
  read_temp-Always = search (always_rules)

  pub sample_until-Always : (f end : ℕ) (samples : List ℤ) → Always (sample_until env f end samples)
  unfolding sample_until
  sample_until-Always zero end samples = search (always_rules)
  sample_until-Always (suc f) end samples = search (always_rules, sample_until-Always f)

  pub measure_idle_floor-Always : (floor_probe : ℕ) → Always (measure_idle_floor env floor_probe)
  unfolding measure_idle_floor
  measure_idle_floor-Always floor_probe = search (always_rules, sample_until-Always)

  pub cool_loop-Always :
      (f : ℕ) (target : ℤ) (deadline : ℕ) (t : Option ℤ)
      → Always (cool_loop env f target deadline t)
  unfolding cool_loop
  cool_loop-Always zero target deadline t = search (always_rules)
  cool_loop-Always (suc f) target deadline t = search (always_rules, cool_loop-Always f)

  pub cooldown-Always :
      (target : ℤ) (cool_max settle : ℕ) → Always (cooldown env target cool_max settle)
  unfolding cooldown
  cooldown-Always target cool_max settle = search (always_rules, cool_loop-Always) depth 9

  pub set_scheduler-Always : (b : Scheduler) → Always (set_scheduler b)
  unfolding set_scheduler
  set_scheduler-Always b = record { is_ok = λ _. tt }

  pub wait_attached-Always : (f end : ℕ) → Always (wait_attached env f end)
  unfolding wait_attached
  wait_attached-Always zero end = search (always_rules)
  wait_attached-Always (suc f) end =
      search (always_rules, set_scheduler-Always, wait_attached-Always f) depth 12

  pub save-Always : (file : _) → Always (save env file)
  unfolding save
  save-Always file = record { is_ok = λ _. tt }

  pub restore_epp-Always : (d : Mapping) → Always (restore_epp env d)
  unfolding restore_epp
  restore_epp-Always [] = search (always_rules)
  restore_epp-Always ((k, v) ∷ d) =
      then-Always _ _ (swallow-Always (write_epp env k v)) (restore_epp-Always d)

  module _ (good : Cooperates env) where
    pub write_epp-Always : (c : ℕ) (v : Text) → Always (write_epp env c v)
    unfolding write_epp
    write_epp-Always c v = record {
      is_ok = λ w. written w (env.accepts w.asked c v) (good.accepts w.asked c v);
    }
      where
        written :
            (w : World) (b : Bool)
            → b ≡ true
            → IsOk
                (if◌then◌else◌ {A = Result (Unit {0}) × World} b
                  (ok tt, record w { asked = w.asked + 1; epp = update w.epp c v })
                  (err os_error, record w { asked = w.asked + 1 })).0
        written w true h = tt
        written w false h = absurd (cc)

    pub apply_epp-Always : (d : Mapping) → Always (apply_epp env d)
    unfolding apply_epp
    apply_epp-Always [] = search (always_rules)
    apply_epp-Always ((c, v) ∷ d) = then-Always _ _ (write_epp-Always c v) (apply_epp-Always d)

    pub run-Always : (command : Command) → Always (run env command)
    unfolding run
    run-Always command = record {
      is_ok = λ w.
          let w' = record w { time = w.time + env.took w.asked; asked = w.asked + 1 } in
          let seen : Measurement = record {
            command = command;
            epp_seen = w.epp;
            scheduler_seen = w.scheduler;
          } in
          subst
            (λ (o : Outcome).
              IsOk
                (elim o as (λ _. Result (Measurement × ℤ × Text) × World) [
                  | missing ↦ (err os_error, w')
                  | undecodable ↦ (err value_error, w')
                  | exited code out ↦ (ok (seen, code, out), w')
                ]).0)
            (sym (good.exits w.asked)) tt;
    }

    pub make_dirs-Always : Always (make_dirs env)
    unfolding make_dirs
    make_dirs-Always = ask_yes-Always env.writable _ _ good.writable (pure-Always tt)

    pub record_run-Always :
        (e a : Text) (f : Factors) (rep : ℕ) (s : Slots) (m : Option Measurement) (b : Bool)
        (n : Text) (t : Option ℤ)
        → Prints s.energy
        → Always (record_run env e a f rep s m b n t)
    unfolding record_run
    record_run-Always e a f rep s m b n t h =
        then-Always _ _ make_dirs-Always (then-Always _ _ (save-Always _) (print_run-Always s h))

    pub set_pinging-Always : (b : Bool) → Always (set_pinging b)
    unfolding set_pinging
    set_pinging-Always b = record { is_ok = λ _. tt }

    pub popen_bls-Always : Always (popen_bls env)
    unfolding popen_bls
    popen_bls-Always = ask_yes-Always env.starts _ _ good.starts (set_scheduler-Always started)

    pub popen_pinger-Always : Always (popen_pinger env)
    unfolding popen_pinger
    popen_pinger-Always = ask_yes-Always env.starts _ _ good.starts (set_pinging-Always true)

    pub stop_pinger-Always : Always (stop_pinger env)
    unfolding stop_pinger
    stop_pinger-Always =
        ask_yes-Always env.terminates _ _ good.terminates
          (then-Always _ _ (set_pinging-Always false) (ask-Always env.stdout_of))

    pub stop_bls-Always : Always (stop_bls env)
    unfolding stop_bls
    stop_bls-Always =
        ask_yes-Always env.terminates _ _ good.terminates
          (then-Always _ _ (set_scheduler-Always absent) (ask-Always env.stdout_of))

    module _ (self : Bench) where
      pub cool_down-Always : Always (cool_down env self)
      unfolding cool_down
      cool_down-Always = cooldown-Always _ _ _

      pub measured_run-Always :
          (e a : Text) (f : Factors) (rep : ℕ) (n : Text) (command : Command)
          → Always (measured_run env self e a f rep n command)
      unfolding measured_run
      measured_run-Always e a f rep n command = bind-Always _ _ cool_down-Always (λ t.
          then-Always _ _ make_dirs-Always (
            bind-Always _ _ (run-Always command)
              (λ p. record_run-Always _ _ _ _ _ _ _ _ _ (classify_json-Prints env good p.2))))

      pub timed_build-Always :
          (a : AbArm) (rep : ℕ) (t : Option ℤ) → Always (timed_build env self a rep t)
      unfolding timed_build
      timed_build-Always a rep t = then-Always _ _ popen_pinger-Always (
          then-Always _ _ make_dirs-Always (
            bind-Always _ _ (run-Always _) (λ p. bind-Always _ _ stop_pinger-Always (λ ping_out.
              bind-Always _ _ (if-Always a.scx _ _ stop_bls-Always (pure-Always _)) (λ bls_out.
                record_run-Always _ _ _ _ _ _ _ _ _ (classify_json-Prints env good _))))))

      pub e3_one-Always : (rep : ℕ) (a : AbArm) → Always (e3_one env self rep a)
      unfolding e3_one set_epp_for with_scheduler not_attached
      e3_one-Always rep a =
          then-Always _ _ (if-Always a.partitioned _ _ (apply_epp-Always _) (apply_epp-Always _)) (
            then-Always _ _ (run-Always _) (
              bind-Always _ _ cool_down-Always (λ t.
                if-Always a.scx _ _
                  (then-Always _ _ popen_bls-Always (
                    bind-Always _ _ now-Always (λ start.
                      bind-Always _ _ (wait_attached-Always 52 (start + 10000)) (λ attached.
                        if-Always attached _ _ (timed_build-Always a rep t) (
                          then-Always _ _ (set_scheduler-Always absent)
                            (record_run-Always _ _ _ _ _ _ _ _ _ tt))))))
                  (timed_build-Always a rep t))))
