-- ===== src/Bench/Ab.antt =====
-- `E3_ARMS` and `e3_one` of scripts/bench.py, with the scheduler's and the pinger's processes.
pub mod Processes
pub mod Attach
use fake_big_little.Prelude.{
  ℕ, zero, suc, ◌+◌, Bool, true, false, not, ◌&&◌, ◌||◌, Option, none, some, List, [], ◌∷◌, ◌++◌,
  ltb, if◌then◌else◌,
}
use fake_big_little.Prelude.Int.{ℤ}
use fake_big_little.Prelude.Texts.{Text, codes, text_eq}
use fake_big_little.Json.{get, equals_zero}
use fake_big_little.Bench.World.{
  Env, Io, Scheduler, absent, started, attached, os_error, timeout_expired, Command, Slots, Factors,
  ok, pure, throw, ◌>>=◌, ◌>>◌, ask, sleep, now, branch,
}
use fake_big_little.Bench.Output.{collect_json, classify_json, no_slots}
use fake_big_little.Bench.Epp.{epp_flat, partitioned_mapping, uniform_mapping, apply_epp}
use fake_big_little.Bench.Session.{Bench, run, make_dirs, record_run, run_is_ok, cool_down}

pub record AbArm : Type 0 where
  pub name : Text
  pub scx : Bool
  pub partitioned : Bool
  pub strict : Bool

abbrev ab_arm : Text → Bool → Bool → Bool → AbArm
ab_arm n s p t = record { name = n; scx = s; partitioned = p; strict = t }

unfoldable pub e3_arms : List AbArm
e3_arms =
    ab_arm (codes "eevdf-flat") false false false
    ∷ ab_arm (codes "eevdf-partitioned") false true false
    ∷ ab_arm (codes "scx-flat") true false false
    ∷ ab_arm (codes "scx-partitioned") true true false
    ∷ ab_arm (codes "scx-partitioned-strict") true true true
    ∷ []

abbrev pub ab_factors : AbArm → Factors
ab_factors a =
    Factors.ab (if a.scx then codes "scx" else codes "eevdf")
      (if a.partitioned then codes "partitioned" else codes "flat") a.strict

-- `state and state not in ("disabled", "none")`
unfoldable pub is_loaded : Option Text → Bool
is_loaded none = false
is_loaded (some []) = false
is_loaded (some (c ∷ s)) =
    not (text_eq (c ∷ s) (codes "disabled") || text_eq (c ∷ s) (codes "none"))

-- `ok`: the run, its command and the pinger all succeeded.
unfoldable pub ab_is_ok : ℤ → Slots → Bool
ab_is_ok code slots =
    run_is_ok code slots
    && elim slots.energy [ none ↦ false | some e ↦ equals_zero (get (codes "exit_code") e) ]
    && elim slots.pinger [ none ↦ false | some _ ↦ true ]

unfoldable pub set_scheduler : Scheduler → Io (Unit {0})
set_scheduler s w = (ok tt, record w { scheduler = s })

unfoldable pub set_pinging : Bool → Io (Unit {0})
set_pinging b w = (ok tt, record w { pinging = b })

module _ (env : Env) where
  -- `Popen(bls …)` and `Popen(pinger …)`: an `OSError` if the program cannot be started.
  unfoldable pub popen_bls : Io (Unit {0})
  popen_bls = do starts ← ask env.starts; if starts then set_scheduler started else throw os_error

  unfoldable pub popen_pinger : Io (Unit {0})
  popen_pinger = do starts ← ask env.starts; if starts then set_pinging true else throw os_error

  -- `_wait_attached`: the loop asks every 200 ms for ten seconds, so 52 rounds of fuel are enough.
  -- A state of sched_ext that is loaded is what the script takes for its `bls` being attached.
  unfoldable pub wait_attached : ℕ → ℕ → Io Bool
  unfolding is_loaded
  wait_attached zero end = pure false
  wait_attached (suc f) end =
      let again : Io Bool = (do sleep 200; wait_attached f end) in
      branch (λ time. ltb time end)
        (do
          gone ← ask env.exited_early
          state ← ask env.scx_state
          if gone
              then pure false
              else if is_loaded state
              then (do sleep 500; set_scheduler attached; pure true)
              else again)
        (pure false)

  -- `ping.send_signal(SIGTERM); ping.communicate(timeout=30)`
  unfoldable pub stop_pinger : Io Text
  stop_pinger = do
    ended ← ask env.terminates
    if ended
        then (do set_pinging false; ask env.stdout_of)
        else (do sleep 30000; throw timeout_expired)

  -- The same for `bls`, where a timeout is caught and the process killed (`_kill`).
  unfoldable pub stop_bls : Io Text
  stop_bls = do
    ended ← ask env.terminates
    if ended
        then (do set_scheduler absent; ask env.stdout_of)
        else (do sleep 30000; set_scheduler absent; pure [])

  module _ (self : Bench) where
    unfoldable pub set_epp_for : AbArm → Io (Unit {0})
    set_epp_for a =
        if a.partitioned
        then apply_epp env (partitioned_mapping self.big self.little)
        else apply_epp env (uniform_mapping env.nr_cpus epp_flat)

    -- The pinger, the build and what they print, once the scheduler is as the arm wants it.
    unfoldable pub timed_build : AbArm → ℕ → Option ℤ → Io (Unit {0})
    unfolding ab_is_ok
    timed_build a rep t = do
      popen_pinger
      make_dirs env
      p ← run env (Command.energy_make a.name env.nr_cpus)
      ping_out ← stop_pinger
      bls_out ← (if a.scx then stop_bls else pure [])
      let out = p.2 ++ b'\n' ∷ (ping_out ++ b'\n' ∷ bls_out)
      let slots = classify_json (collect_json env.loads out)
      record_run env (codes "e3-ab") a.name (ab_factors a) rep slots (some p.0) (ab_is_ok p.1 slots)
          [] t

    -- A scheduler that does not attach in time is killed, and the failure is recorded.
    unfoldable pub not_attached : AbArm → ℕ → Option ℤ → Io (Unit {0})
    not_attached a rep t = do
      set_scheduler absent
      record_run env (codes "e3-ab") a.name (ab_factors a) rep no_slots none false
          (codes "scheduler failed to attach") t

    unfoldable pub with_scheduler : AbArm → ℕ → Option ℤ → Io (Unit {0})
    with_scheduler a rep t = do
      popen_bls
      start ← now
      is_attached ← wait_attached 52 (start + 10000)
      if is_attached then timed_build a rep t else not_attached a rep t

    unfoldable pub e3_one : ℕ → AbArm → Io (Unit {0})
    e3_one rep a = do
      set_epp_for a
      run env Command.make_clean
      t ← cool_down env self
      if a.scx then with_scheduler a rep t else timed_build a rep t
