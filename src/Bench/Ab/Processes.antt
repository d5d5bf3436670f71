-- ===== src/Bench/Ab/Processes.antt =====
-- The scheduler's and the pinger's processes in `e3_one` of scripts/bench.py.
use fake_big_little.Prelude.{
  ℕ, ◌+◌, ◌≡◌, ap, ◌∙◌, Bool, true, false, Option, some, [], ◌∷◌, ◌++◌, if◌then◌else◌,
}
use fake_big_little.Prelude.Int.{ℤ}
use fake_big_little.Prelude.Texts.{Text, codes}
use fake_big_little.Bench.World.{
  Env, World, Error, Command, Measurement, Result, Outcome, missing, undecodable, exited,
  timeout_expired, os_error, value_error, ok, err, Io, pure, throw, ◌>>=◌, ◌>>◌, ask, sleep,
}
use fake_big_little.Bench.Session.{Bench, run, make_dirs, record_run}
use fake_big_little.Bench.Output.{collect_json, classify_json}
use fake_big_little.Bench.Ab.{
  AbArm, ab_factors, ab_is_ok, stop_bls, timed_build, popen_pinger, stop_pinger, set_pinging,
}

module _ {A B : Type 0} where
  -- A step that returns, and what the rest comes to.
  bind_ok :
      (m : Io A) (f : A → Io B) (w w' : World) (a : A) (r : Result B × World)
      → m w ≡ (ok a, w')
      → f a w' ≡ r
      → (m >>= f) w ≡ r
  unfolding ◌>>=◌
  bind_ok m f w w' a r h k =
      ap
        (λ (p : Result A × World). elim p.0 as (λ _. Result B × World) [
          | ok x ↦ f x p.1
          | err e ↦ (err e, p.1)
        ])
        h
      ∙ k

  bind_err :
      (m : Io A) (f : A → Io B) (w w' : World) (e : Error)
      → m w ≡ (err e, w')
      → (m >>= f) w ≡ (err e, w')
  unfolding ◌>>=◌
  bind_err m f w w' e h =
      ap
        (λ (p : Result A × World). elim p.0 as (λ _. Result B × World) [
          | ok x ↦ f x p.1
          | err e' ↦ (err e', p.1)
        ])
        h

module _ (env : Env) (w : World) where
  popen_pinger_starts :
      env.starts w.asked ≡ true
      → popen_pinger env w ≡ (ok tt, record w { asked = w.asked + 1; pinging = true })
  unfolding popen_pinger ask ◌>>=◌ set_pinging
  popen_pinger_starts h =
      ap
        (λ (b : Bool).
          (if b then set_pinging true else throw os_error) (record w { asked = w.asked + 1 }))
        h

  make_dirs_works :
      env.writable w.asked ≡ true → make_dirs env w ≡ (ok tt, record w { asked = w.asked + 1 })
  unfolding make_dirs ask ◌>>=◌ pure
  make_dirs_works h =
      ap (λ (b : Bool). (if b then pure tt else throw os_error) (record w { asked = w.asked + 1 }))
        h

  stop_pinger_timeout :
      env.terminates w.asked ≡ false
      → stop_pinger env w
        ≡ (err timeout_expired, record w { asked = w.asked + 1; time = w.time + 30000 })
  unfolding stop_pinger ask ◌>>=◌ ◌>>◌ sleep throw
  stop_pinger_timeout h =
      ap
        (λ (b : Bool).
          (if b
              then (do set_pinging false; ask env.stdout_of)
              else (do sleep 30000; throw timeout_expired))
            (record w { asked = w.asked + 1 }))
        h

  abbrev measured : Command → Measurement
  measured command = record { command = command; epp_seen = w.epp; scheduler_seen = w.scheduler }

  run_exits :
      (command : Command) (code : ℤ) (out : Text)
      → env.outcome w.asked ≡ exited code out
      → run env command w ≡ (
        ok (measured command, code, out),
        record w { asked = w.asked + 1; time = w.time + env.took w.asked },
      )
  unfolding run
  run_exits command code out h =
      ap
        (λ (o : Outcome). elim o as (λ _. Result (Measurement × ℤ × Text) × World) [
          | missing ↦
              (err os_error, record w { asked = w.asked + 1; time = w.time + env.took w.asked })
          | undecodable ↦
              (err value_error, record w { asked = w.asked + 1; time = w.time + env.took w.asked })
          | exited c text ↦ (
            ok (measured command, c, text),
            record w { asked = w.asked + 1; time = w.time + env.took w.asked },
          )
        ])
        h

-- The end of `timed_build`, behind the pinger's output.
abbrev finished : Env → AbArm → ℕ → Option ℤ → Measurement × ℤ × Text → Text → Io (Unit {0})
finished env a rep t p ping_out = do
  bls_out ← (if a.scx then stop_bls env else pure [])
  let out = p.2 ++ b'\n' ∷ (ping_out ++ b'\n' ∷ bls_out)
  let slots = classify_json (collect_json env.loads out)
  record_run env (codes "e3-ab") a.name (ab_factors a) rep slots (some p.0) (ab_is_ok p.1 slots) []
      t

abbrev stopped : Env → AbArm → ℕ → Option ℤ → Measurement × ℤ × Text → Io (Unit {0})
stopped env a rep t p = do ping_out ← stop_pinger env; finished env a rep t p ping_out

-- Where the pinger starts, the build runs and the pinger does not end in time, the timeout leaves
-- the run, and neither the scheduler, where there is one, nor the pinger is stopped.
pub timed_build_timeout :
    (env : Env) (w : World) (self : Bench) (a : AbArm) (rep : ℕ) (t : Option ℤ) (code : ℤ)
    (out : Text)
    → env.starts w.asked ≡ true
    → env.writable (w.asked + 1) ≡ true
    → env.outcome (w.asked + 1 + 1) ≡ exited code out
    → env.terminates (w.asked + 1 + 1 + 1) ≡ false
    → timed_build env self a rep t w ≡ (
      err timeout_expired,
      record w {
        asked = w.asked + 1 + 1 + 1 + 1;
        time = w.time + env.took (w.asked + 1 + 1) + 30000;
        pinging = true;
      },
    )
unfolding timed_build ◌>>◌
timed_build_timeout env w self a rep t code out h1 h2 h3 h4 =
    let w1 : World = record w { asked = w.asked + 1; pinging = true } in
    let w2 : World = record w1 { asked = w1.asked + 1 } in
    let w3 : World = record w2 { asked = w2.asked + 1; time = w2.time + env.took w2.asked } in
    let command = Command.energy_make a.name env.nr_cpus in
    let build = run env command in
    let p : Measurement × ℤ × Text = (measured env w2 command, code, out) in
    bind_ok (popen_pinger env) (λ _. make_dirs env >> (build >>= stopped env a rep t)) w w1 tt _
      (popen_pinger_starts env w h1)
      (bind_ok (make_dirs env) (λ _. build >>= stopped env a rep t) w1 w2 tt _
        (make_dirs_works env w1 h2)
        (bind_ok build (stopped env a rep t) w2 w3 p _ (run_exits env w2 command code out h3) (
          bind_err (stop_pinger env) (finished env a rep t p) w3 _ timeout_expired
            (stop_pinger_timeout env w3 h4))))
