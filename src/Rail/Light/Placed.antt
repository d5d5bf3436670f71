-- ===== src/Rail/Light/Placed.antt =====
-- The placement of the light threads in `experiment_a` of sim/rail_model.py.
use fake_big_little.Prelude.{
  ℕ, zero, suc, ◌+◌, ◌<◌, ◌≡◌, refl, ap, ◌∙◌, Bool, true, false, some, List, [], ◌∷◌, ◌++◌,
  range_from, range_from-suc, get_elem?, replicate, ◌==◌, if◌then◌else◌, arith,
}
use fake_big_little.Analyze.Floats.{Floats}
use fake_big_little.Rail.Light.{light_core, siblings_on_big, add_at, add_lights, light_activities}

-- How many of the threads are put on the core.
unfoldable pub threads_on : ℕ → List ℕ → ℕ
threads_on pc [] = 0
threads_on pc (k ∷ ks) =
    let rest = threads_on pc ks in if light_core k == pc then suc rest else rest

threads_on-append :
    (pc : ℕ) (ks ls : List ℕ) → threads_on pc (ks ++ ls) ≡ threads_on pc ks + threads_on pc ls
unfolding threads_on
threads_on-append pc [] ls = omega arith
threads_on-append pc (k ∷ ks) ls = ground (arith, threads_on-append pc ks ls)

one_more_big : (n : ℕ) → siblings_on_big n + threads_on 0 (n ∷ []) ≡ siblings_on_big (suc n)
unfolding threads_on siblings_on_big light_core
one_more_big n = ground arith

-- Just the threads after the first six are on the big core.
threads_on_big : (n : ℕ) → threads_on 0 (range_from 0 n) ≡ siblings_on_big n
unfolding threads_on siblings_on_big
threads_on_big zero = refl
threads_on_big (suc n) =
    let last : 0 + n ≡ n = omega arith in
    ap (threads_on 0) (range_from-suc 0 n ∙ ap (λ m. range_from 0 n ++ m ∷ []) last)
    ∙ threads_on-append 0 (range_from 0 n) (n ∷ [])
    ∙ ap (λ m. m + threads_on 0 (n ∷ [])) (threads_on_big n)
    ∙ one_more_big n

module _ {F : Type 0} (ops : Floats F) where
  -- So many times the activity of a light thread, added up.
  unfoldable pub added : F → ℕ → F → F
  added a zero x = x
  added a (suc n) x = added a n (ops.add x a)

  same_test :
      (pc core : ℕ) (y z : F)
      → (if pc == core then y else z) ≡ (if suc pc == suc core then y else z)
  same_test pc core y z = ground arith

  get_elem?-add_at :
      (a x : F) (pc core : ℕ) (xs : List F)
      → get_elem? xs core ≡ some x
      → get_elem? (add_at ops a pc xs) core ≡ some (if pc == core then ops.add x a else x)
  unfolding add_at
  get_elem?-add_at a x pc core [] e = cc
  get_elem?-add_at a x zero zero (y ∷ ys) e = ground arith
  get_elem?-add_at a x zero (suc core) (y ∷ ys) e = ground arith
  get_elem?-add_at a x (suc pc) zero (y ∷ ys) e = ground arith
  get_elem?-add_at a x (suc pc) (suc core) (y ∷ ys) e =
      get_elem?-add_at a x pc core ys e ∙ ap some (same_test pc core _ _)

  get_elem?-add_lights :
      (a : F) (core : ℕ) (ks : List ℕ) (x : F) (xs : List F)
      → get_elem? xs core ≡ some x
      → get_elem? (add_lights ops a ks xs) core ≡ some (added a (threads_on core ks) x)
  unfolding add_lights threads_on added
  get_elem?-add_lights a core [] x xs e = e
  get_elem?-add_lights a core (k ∷ ks) x xs e =
      get_elem?-add_lights a core ks _ (add_at ops a (light_core k) xs)
        (get_elem?-add_at a x (light_core k) core xs e)
      ∙ ap some (once (light_core k == core))
    where
      once :
          (b : Bool)
          → added a (threads_on core ks) (if b then ops.add x a else x)
            ≡ added a (let rest = threads_on core ks in if b then suc rest else rest) x
      once true = refl
      once false = refl

  get_elem?-replicate : (n core : ℕ) (x : F) → core < n → get_elem? (replicate n x) core ≡ some x
  get_elem?-replicate zero core x h = absurd (omega arith)
  get_elem?-replicate (suc n) zero x h = refl
  get_elem?-replicate (suc n) (suc core) x h = get_elem?-replicate n core x (omega arith)

  -- Each of the four cores gets the activity of the light threads that are put on it, added up from
  -- zero, and on the core of the big thread are just the threads that are counted as on its sibling.
  pub light_activities-threads_on :
      (a : F) (n_light core : ℕ)
      → core < 4
      → (get_elem? (light_activities ops a n_light) core
          ≡ some (added a (threads_on core (range_from 0 n_light)) (ops.of_ℕ 0)))
        × (threads_on 0 (range_from 0 n_light) ≡ siblings_on_big n_light)
  unfolding light_activities
  light_activities-threads_on a n_light core h = (
    get_elem?-add_lights a core (range_from 0 n_light) (ops.of_ℕ 0) _
        (get_elem?-replicate 4 core (ops.of_ℕ 0) h),
    threads_on_big n_light,
  )
