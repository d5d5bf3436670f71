-- ===== src/Bench/Cooling.antt =====
-- The package temperature and the pauses between runs: `pkg_temp_c`, `measure_idle_floor`,
-- `cool_target` and `cooldown` of scripts/bench.py.
pub mod Effects
pub mod Limits
use fake_big_little.Prelude.{
  ℕ, zero, suc, ◌+◌, ◌/◌, Bool, true, false, Option, none, some, List, [], ◌∷◌, ◌++◌, ltb, leb,
  ◌&&◌, ◌||◌, not, ◌-◌, if◌then◌else◌,
}
use fake_big_little.Prelude.Int.{ℤ, ◌+ℤ◌, ltb_ℤ, max_ℤ}
use fake_big_little.Prelude.Texts.{Text, codes, text_eq}
use fake_big_little.Prelude.Decimal.{strip, lower}
use fake_big_little.Bench.World.{Env, Hwmon, World, Io, pure, ◌>>=◌, ◌>>◌, ask, sleep, now, branch}

-- `s.lower().startswith(prefix)`, for ASCII letters
starts_with_lower : Text → Text → Bool
unfolding lower
starts_with_lower [] s = true
starts_with_lower (p ∷ ps) [] = false
starts_with_lower (p ∷ ps) (c ∷ s) = text_eq (p ∷ []) (lower c ∷ []) && starts_with_lower ps s

-- The first sensor with a package label; a read that fails ends the search in this directory.
package_sensor : List (Option Text × Option ℤ) → Option ℤ
unfolding starts_with_lower
package_sensor [] = none
package_sensor ((none, _) ∷ rest) = none
package_sensor ((some label, input) ∷ rest) =
    if starts_with_lower (codes "package") (strip label) then input else package_sensor rest

-- The directories come sorted by name, as `sorted(glob(…))` gives them.
unfoldable pub pkg_temp_c : List Hwmon → Option ℤ
unfolding package_sensor
pkg_temp_c [] = none
pkg_temp_c (hw ∷ rest) = elim hw.name [
  | none ↦ pkg_temp_c rest
  | some name ↦
      if text_eq (strip name) (codes "coretemp")
      then elim (package_sensor hw.sensors) [ none ↦ pkg_temp_c rest | some t ↦ some t ]
      else pkg_temp_c rest
]

abbrev min_of : ℤ → List ℤ → ℤ
min_of m [] = m
min_of m (x ∷ xs) = min_of (if ltb_ℤ x m then x else m) xs

-- `min(samples) if samples else None`
abbrev min_sample : List ℤ → Option ℤ
min_sample [] = none
min_sample (x ∷ xs) = some (min_of x xs)

abbrev with_sample : Option ℤ → List ℤ → List ℤ
with_sample none samples = samples
with_sample (some t) samples = samples ++ t ∷ []

unfoldable pub too_hot : Option ℤ → ℤ → Bool
too_hot none target = false
too_hot (some t) target = ltb_ℤ target t

-- `cool_to` if the floor is unknown, else `max(cool_to, floor + cool_margin)`
unfoldable pub cool_target : ℤ → ℤ → Option ℤ → ℤ
cool_target cool_to cool_margin none = cool_to
cool_target cool_to cool_margin (some floor) = max_ℤ cool_to (floor +ℤ cool_margin)

module _ (env : Env) where
  unfoldable pub read_temp : Io (Option ℤ)
  read_temp = ask (λ n. pkg_temp_c (env.hwmon n))

  -- `while time.time() < end`, one sample a second; the fuel is a round for each second and one more.
  unfoldable pub sample_until : ℕ → ℕ → List ℤ → Io (List ℤ)
  unfolding read_temp
  sample_until zero end samples = pure samples
  sample_until (suc f) end samples =
      branch (λ t. ltb t end)
        (do t ← read_temp; sleep 1000; sample_until f end (with_sample t samples)) (pure samples)

  unfoldable pub measure_idle_floor : ℕ → Io (Option ℤ)
  unfolding sample_until
  measure_idle_floor floor_probe = do
    start ← now
    samples ← sample_until (floor_probe / 1000 + 2) (start + floor_probe) []
    pure (min_sample samples)

  -- `while t is not None and t > target and time.time() < deadline`; the loop asks for the
  -- temperature every two seconds, so the fuel is a round for each two seconds and one more.
  unfoldable pub cool_loop : ℕ → ℤ → ℕ → Option ℤ → Io (Option ℤ)
  unfolding read_temp too_hot
  cool_loop zero target deadline t = pure t
  cool_loop (suc f) target deadline t =
      branch (λ time. too_hot t target && ltb time deadline)
        (do sleep 2000; t' ← read_temp; cool_loop f target deadline t') (pure t)

  unfoldable pub cooldown : ℤ → ℕ → ℕ → Io (Option ℤ)
  unfolding cool_loop
  cooldown target cool_max settle = do
    start ← now
    t ← read_temp
    cool_loop (cool_max / 2000 + 2) target (start + cool_max) t
    sleep settle
    read_temp
