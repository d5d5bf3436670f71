-- ===== src/Bench/Ab/Attach.antt =====
-- `_wait_attached` of scripts/bench.py: how it ends, and that the rounds of its loop are enough.
use mathlib.Core.Path.{subst}
use fake_big_little.Prelude.{
  ℕ, zero, suc, ◌+◌, ◌*◌, ◌≤◌, ◌<◌, ◌≡◌, ◌⊎◌, inl, inr, refl, sym, Bool, true, false, arith, ltb,
  if◌then◌else◌,
}
use fake_big_little.Bench.World.{
  Env, World, Result, attached, ok, err, pure, ◌>>=◌, ◌>>◌, ask, sleep, branch,
}
use fake_big_little.Bench.Ab.{is_loaded, set_scheduler, wait_attached}

module _ (env : Env) where
  -- One round, when the time is not up.
  abbrev round : World → (World → Result Bool × World) → Result Bool × World
  round w again =
      if env.exited_early w.asked
      then (ok false, record w { asked = w.asked + 1 + 1 })
      else if is_loaded (env.scx_state (w.asked + 1))
      then (
        ok true,
        record w { asked = w.asked + 1 + 1; time = w.time + 500; scheduler = attached },
      )
      else again (record w { asked = w.asked + 1 + 1; time = w.time + 200 })

  abbrev timed : ℕ → World → (World → Result Bool × World) → Result Bool × World
  timed end w again = if ltb w.time end then round w again else (ok false, w)

  wait_attached-suc :
      (f end : ℕ) (w : World)
      → wait_attached env (suc f) end w ≡ timed end w (λ w'. wait_attached env f end w')
  unfolding wait_attached branch ask ◌>>=◌ ◌>>◌ sleep pure set_scheduler
  wait_attached-suc f end w =
      on_tests (ltb w.time end) (env.exited_early w.asked) (is_loaded (env.scx_state (w.asked + 1)))
    where
      w' : World
      w' = record w { asked = w.asked + 1 + 1 }

      again : Result Bool × World
      again = wait_attached env f end (record w' { time = w.time + 200 })

      on_tests :
          (b gone loaded : Bool)
          → (elim b as (λ _. Result Bool × World) [
            | true ↦
                (if gone
                    then pure false
                    else if loaded
                    then (do sleep 500; set_scheduler attached; pure true)
                    else (do sleep 200; wait_attached env f end))
                  w'
            | false ↦ pure false w
          ])
            ≡ (if b
                then (if gone
                    then (ok false, w')
                    else if loaded
                    then (ok true, record w' { time = w.time + 500; scheduler = attached })
                    else again)
                else (ok false, w))
      on_tests true true l = refl
      on_tests true false true = refl
      on_tests true false false = refl
      on_tests false g l = refl

  wait_attached-zero : (end : ℕ) (w : World) → wait_attached env zero end w ≡ (ok false, w)
  unfolding wait_attached pure
  wait_attached-zero end w = refl

  -- A question that is asked between the two worlds and answered like that.
  abbrev pub During : World → World → (ℕ → Type 0) → Type 0
  During w w' P = (k : ℕ) × ((w.asked ≤ k) × ((k < w'.asked) × P k))

  abbrev pub Gone : ℕ → Type 0
  Gone k = env.exited_early k ≡ true

  -- `bls` had not ended, and then sched_ext was loaded, or not.
  abbrev SeenLoaded : ℕ → Type 0
  SeenLoaded k = (env.exited_early k ≡ false) × (is_loaded (env.scx_state (k + 1)) ≡ true)

  abbrev pub NotLoaded : ℕ → Type 0
  NotLoaded k = (env.exited_early k ≡ false) × (is_loaded (env.scx_state (k + 1)) ≡ false)

  -- How the wait ends: `bls` had not ended and sched_ext was loaded; or `bls` had ended; or the time
  -- is up and, if it was not up before, `bls` had not ended and sched_ext was not loaded.
  abbrev pub Waited : ℕ → World → Result Bool × World → Type 0
  Waited end w (ok true, w') =
      (w' ≡ record w { time = w'.time; asked = w'.asked; scheduler = attached })
      × During w w' SeenLoaded
  Waited end w (ok false, w') =
      (w' ≡ record w { time = w'.time; asked = w'.asked })
      × (During w w' Gone
          ⊎ ((end ≤ w'.time) × ((w.asked ≤ w'.asked) × (w.time < end → During w w' NotLoaded))))
  Waited end w (err _, w') = ⊥

  module _ (end : ℕ) (w : World) where
    abbrev w1 : World
    w1 = record w { asked = w.asked + 1 + 1; time = w.time + 200 }

    earlier : (P : ℕ → Type 0) (w' : World) → During w1 w' P → During w w' P
    earlier P w' (k, (lo, (hi, p))) = (k, (omega (arith, lo), (hi, p)))

    -- A round in which nothing is seen.
    later : (p : Result Bool × World) → NotLoaded w.asked → Waited end w1 p → Waited end w p
    later (ok true, w') unseen (same, d) = (same, earlier SeenLoaded w' d)
    later (ok false, w') unseen (same, inl d) = (same, inl (earlier Gone w' d))
    later (ok false, w') unseen (same, inr (late, (lt, d))) = (
      same,
      inr (late, (omega (arith, lt), λ _. (w.asked, (omega arith, (omega (arith, lt), unseen))))),
    )
    later (err _, w') unseen h = absurd h

    round-Waited :
        (p : Result Bool × World) (b gone loaded : Bool)
        → ltb w.time end ≡ b
        → env.exited_early w.asked ≡ gone
        → is_loaded (env.scx_state (w.asked + 1)) ≡ loaded
        → Waited end w1 p
        → Waited end w (
            if b
            then (if gone
                then (ok false, record w { asked = w.asked + 1 + 1 })
                else if loaded
                then (
                  ok true,
                  record w { asked = w.asked + 1 + 1; time = w.time + 500; scheduler = attached },
                )
                else p)
            else (ok false, w))
    round-Waited p false g l e1 e2 e3 h =
        (refl, inr (ground arith, (omega arith, λ early. absurd (ground arith))))
    round-Waited p true true l e1 e2 e3 h = (refl, inl (w.asked, (omega arith, (omega arith, e2))))
    round-Waited p true false true e1 e2 e3 h =
        (refl, (w.asked, (omega arith, (omega arith, (e2, e3)))))
    round-Waited p true false false e1 e2 e3 h = later p (e2, e3) h

  -- `_wait_attached` reports an attached scheduler only where it saw that `bls` had not ended and then
  -- that sched_ext was loaded, and then the scheduler is noted as attached and nothing else changes
  -- but the time; and it gives up only where `bls` had ended or the time is up, and then nothing else
  -- changes: if the rounds reach the end of the time at 200 ms a round.
  pub wait_attached-Waited :
      (f end : ℕ) (w : World) → end ≤ w.time + 200 * f → Waited end w (wait_attached env f end w)
  wait_attached-Waited zero end w h =
      subst (Waited end w) (sym (wait_attached-zero end w))
        (refl, inr (omega (arith, h), (omega arith, λ early. absurd (omega (arith, h, early)))))
  wait_attached-Waited (suc f) end w h = subst (Waited end w) (sym (wait_attached-suc f end w)) (
      round-Waited end w (wait_attached env f end (w1 end w)) (ltb w.time end)
        (env.exited_early w.asked) (is_loaded (env.scx_state (w.asked + 1))) refl refl refl
        (wait_attached-Waited f end (w1 end w) (omega (arith, h))))

-- At some question `bls` had ended by itself, or sched_ext was not loaded.
abbrev pub NotAttached : Env → Type 0
NotAttached env = (k : ℕ) × ((env.exited_early k ≡ true) ⊎ (is_loaded (env.scx_state k) ≡ false))
