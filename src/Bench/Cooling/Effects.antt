-- ===== src/Bench/Cooling/Effects.antt =====
-- What the pauses of scripts/bench.py leave alone, and how they end.
use fake_big_little.Prelude.{ℕ, zero, suc, Option, List}
use fake_big_little.Prelude.Int.{ℤ}
use fake_big_little.Bench.World.{Env, World}
use fake_big_little.Bench.Rules.{Keeps, IsPassive, pure-Keeps, ask-Keeps, keep_rules}
use fake_big_little.Bench.Cooling.{read_temp, sample_until, measure_idle_floor, cool_loop, cooldown}

module _ (env : Env) (R : World → World → Type 0) (p : IsPassive R) where
  read_temp-Keeps : Keeps R (read_temp env)
  unfolding read_temp
  read_temp-Keeps = ask-Keeps R p _

  sample_round-Keeps :
      (f end : ℕ) (samples : List ℤ)
      → ((s : List ℤ) → Keeps R (sample_until env f end s))
      → Keeps R (sample_until env (suc f) end samples)
  unfolding sample_until
  sample_round-Keeps f end samples rest = search (keep_rules, p, rest)

  sample_until-Keeps : (f end : ℕ) (samples : List ℤ) → Keeps R (sample_until env f end samples)
  sample_until-Keeps zero end samples = unfold sample_until in pure-Keeps R p samples
  sample_until-Keeps (suc f) end samples =
      sample_round-Keeps f end samples (λ s. sample_until-Keeps f end s)

  pub measure_idle_floor-Keeps : (ms : ℕ) → Keeps R (measure_idle_floor env ms)
  unfolding measure_idle_floor
  measure_idle_floor-Keeps ms = search (keep_rules, p, sample_until-Keeps)

  cool_round-Keeps :
      (f deadline : ℕ) (target : ℤ) (t : Option ℤ)
      → ((t' : Option ℤ) → Keeps R (cool_loop env f target deadline t'))
      → Keeps R (cool_loop env (suc f) target deadline t)
  unfolding cool_loop
  cool_round-Keeps f deadline target t rest = search (keep_rules, p, rest)

  cool_loop-Keeps :
      (f deadline : ℕ) (target : ℤ) (t : Option ℤ) → Keeps R (cool_loop env f target deadline t)
  cool_loop-Keeps zero deadline target t = unfold cool_loop in pure-Keeps R p t
  cool_loop-Keeps (suc f) deadline target t =
      cool_round-Keeps f deadline target t (λ t'. cool_loop-Keeps f deadline target t')

  pub cooldown-Keeps :
      (target : ℤ) (cool_max settle : ℕ) → Keeps R (cooldown env target cool_max settle)
  unfolding cooldown
  cooldown-Keeps target cool_max settle = search (keep_rules, p, cool_loop-Keeps) depth 9
