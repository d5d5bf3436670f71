-- ===== src/Bench/Cooling/Limits.antt =====
-- `cooldown` and `measure_idle_floor` of scripts/bench.py end within their time limits.
use fake_big_little.Prelude.{
  ℕ, zero, suc, ◌+◌, ◌*◌, ◌/◌, ◌<◌, ◌≤◌, ◌≡◌, refl, ap, Bool, true, false, ◌&&◌, Option, List, [],
  arith, ltb,
}
use fake_big_little.Prelude.Int.{ℤ}
use fake_big_little.Bench.World.{
  Env, World, Result, ok, err, pure, ◌>>=◌, ◌>>◌, ask, sleep, now, branch,
}
use fake_big_little.Bench.Cooling.{
  pkg_temp_c, too_hot, cool_loop, cooldown, with_sample, sample_until, measure_idle_floor,
  min_sample,
}

-- The step has returned, before the time given.
pub record Returns {A : Type 0} (before : ℕ) (p : Result A × World) : Type 0 where
  pub value : A
  pub world : World
  pub returned : p ≡ (ok value, world)
  pub in_time : world.time < before

module _ (env : Env) where
  -- The loop of `cooldown` has ended by its own test, and not for lack of fuel.
  record Cooled (target : ℤ) (deadline : ℕ) (p : Result (Option ℤ) × World) : Type 0 where
    last : Option ℤ
    world : World
    returned : p ≡ (ok last, world)
    stops : (too_hot last target && ltb world.time deadline) ≡ false
    in_time : world.time < deadline + 2000

  cool_loop-Cooled :
      (f : ℕ) (target : ℤ) (deadline : ℕ) (t : Option ℤ) (w : World)
      → w.time < deadline + 2000
      → deadline + 2000 ≤ w.time + 2000 * f
      → Cooled target deadline (cool_loop env f target deadline t w)
  unfolding cool_loop branch pure ◌>>◌ sleep ask
  cool_loop-Cooled zero target deadline t w h k = absurd (omega arith)
  cool_loop-Cooled (suc f) target deadline t w h k =
      on_test (too_hot t target && ltb w.time deadline) refl (λ lt.
        cool_loop-Cooled f target deadline (pkg_temp_c (env.hwmon w.asked))
          (record w { time = w.time + 2000; asked = w.asked + 1 }) (omega arith) (omega arith))
    where
      on_test :
          (b : Bool)
          → (too_hot t target && ltb w.time deadline) ≡ b
          → (w.time < deadline
              → Cooled target deadline (
                  cool_loop env f target deadline
                    (pkg_temp_c (env.hwmon w.asked))
                    (record w { time = w.time + 2000; asked = w.asked + 1 })))
          → Cooled target deadline (elim b as (λ _. Result (Option ℤ) × World) [
            | true ↦
                cool_loop env f target deadline
                  (pkg_temp_c (env.hwmon w.asked))
                  (record w { time = w.time + 2000; asked = w.asked + 1 })
            | false ↦ (ok t, w)
          ])
      on_test true e m = m (ground arith)
      on_test false e m = record { last = t; world = w; returned = refl; stops = e; in_time = h }

  -- What follows the loop of `cooldown`.
  abbrev settled : ℕ → Result (Option ℤ) × World → Result (Option ℤ) × World
  settled settle p = elim p.0 as (λ _. Result (Option ℤ) × World) [
    | ok _ ↦ (
      ok (pkg_temp_c (env.hwmon p.1.asked)),
      record p.1 { time = p.1.time + settle; asked = p.1.asked + 1 },
    )
    | err e ↦ (err e, p.1)
  ]

  settled-Returns :
      (target : ℤ) (deadline settle : ℕ) (p : Result (Option ℤ) × World)
      → Cooled target deadline p
      → Returns (deadline + 2000 + settle) (settled settle p)
  settled-Returns target deadline settle p c = record {
    value = pkg_temp_c (env.hwmon c.world.asked);
    world = record c.world { time = c.world.time + settle; asked = c.world.asked + 1 };
    returned = ap (settled settle) c.returned;
    in_time = let inside = c.in_time in omega arith;
  }

  -- A pause returns with the last temperature, within its longest time and the settling time and two
  -- seconds more, whatever the sensors say.
  pub cooldown-Returns :
      (target : ℤ) (cool_max settle : ℕ) (w : World)
      → Returns (w.time + cool_max + 2000 + settle) (cooldown env target cool_max settle w)
  unfolding cooldown now ◌>>=◌ ask ◌>>◌ sleep
  cooldown-Returns target cool_max settle w = settled-Returns target (w.time + cool_max) settle _ (
      cool_loop-Cooled (cool_max / 2000 + 2) target (w.time + cool_max) _ _ (omega arith)
        (omega arith))

  sample_until-Returns :
      (f end : ℕ) (samples : List ℤ) (w : World)
      → w.time < end + 1000
      → end + 1000 ≤ w.time + 1000 * f
      → Returns (end + 1000) (sample_until env f end samples w)
  unfolding sample_until branch pure ◌>>◌ sleep ask ◌>>=◌
  sample_until-Returns zero end samples w h k = absurd (omega arith)
  sample_until-Returns (suc f) end samples w h k = on_test (ltb w.time end) refl (λ lt.
      sample_until-Returns f end (with_sample (pkg_temp_c (env.hwmon w.asked)) samples)
        (record w { time = w.time + 1000; asked = w.asked + 1 }) (omega arith) (omega arith))
    where
      again : Result (List ℤ) × World
      again =
          sample_until env f end (with_sample (pkg_temp_c (env.hwmon w.asked)) samples)
            (record w { time = w.time + 1000; asked = w.asked + 1 })

      on_test :
          (b : Bool)
          → ltb w.time end ≡ b
          → (w.time < end → Returns (end + 1000) again)
          → Returns
              (end + 1000)
              (elim b as (λ _. Result (List ℤ) × World) [ true ↦ again | false ↦ (ok samples, w) ])
      on_test true e m = m (ground arith)
      on_test false e m = record { value = samples; world = w; returned = refl; in_time = h }

  abbrev least_of : Result (List ℤ) × World → Result (Option ℤ) × World
  least_of p = elim p.0 as (λ _. Result (Option ℤ) × World) [
    | ok samples ↦ (ok (min_sample samples), p.1)
    | err e ↦ (err e, p.1)
  ]

  -- The idle floor is measured within its time and one second more.
  pub measure_idle_floor-Returns :
      (floor_probe : ℕ) (w : World)
      → Returns (w.time + floor_probe + 1000) (measure_idle_floor env floor_probe w)
  unfolding measure_idle_floor now ◌>>=◌ pure
  measure_idle_floor-Returns floor_probe w =
      let sampled =
        sample_until-Returns (floor_probe / 1000 + 2) (w.time + floor_probe) [] w (omega arith)
          (omega arith) in
      record {
        value = min_sample sampled.value;
        world = sampled.world;
        returned = ap least_of sampled.returned;
        in_time = sampled.in_time;
      }
