-- ===== src/Bench/Progress/Whole.antt =====
-- A measured session of scripts/bench.py returns, on a machine that cooperates and has CPUs of both kinds.
use fake_big_little.Prelude.{ℕ, ◌≡◌, true, false, none, All, List}
use fake_big_little.Bench.World.{RunFile, absent, ok, Env, World}
use fake_big_little.Bench.Session.{Bench}
use fake_big_little.Bench.Ab.{AbArm, is_loaded}
use fake_big_little.Bench.Driver.{session}
use fake_big_little.Bench.Protocol.{Saved}
use fake_big_little.Bench.Protocol.Whole.{session_specs}

-- `bls` does not end by itself, and sched_ext is loaded whenever its state is asked for.
pub record Attaches (env : Env) : Type 0 where
  pub stays : (n : ℕ) → env.exited_early n ≡ false
  pub loaded : (n : ℕ) → is_loaded (env.scx_state n) ≡ true

abbrev pub IsMeasured : RunFile → Type 0
IsMeasured f = ¬ (f.seen ≡ none)

-- The session has returned, with the protocol's files saved, each of a measured run, and no scheduler
-- left.
pub record Completed (env : Env) (shuffled : ℕ → List AbArm) (self : Bench) (w : World)
    : Type 0 where
  pub status : ℕ
  pub world : World
  pub returned : session env shuffled self w ≡ (ok status, world)
  pub protocol : Saved env (session_specs env shuffled self) w world
  pub measured : All IsMeasured protocol.new
  pub no_scheduler : world.scheduler ≡ absent
