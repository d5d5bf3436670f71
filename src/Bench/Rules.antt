-- ===== src/Bench/Rules.antt =====
-- What a step does to the world, in general: rules for sequences, branches, loops and handlers.
use fake_big_little.Prelude.{ℕ, ◌+◌, Bool, true, false, if◌then◌else◌, List, [], ◌∷◌}
use fake_big_little.Bench.World.{
  Error, Result, ok, err, World, Io, pure, throw, ◌>>=◌, ◌>>◌, ask, sleep, now, branch, swallow,
  for_each,
}

-- `R` relates the world before to the world after, whatever the result is.
pub record Keeps (R : World → World → Type 0) {A : Type 0} (m : Io A) : Type 0 where
  pub keeps : (w : World) → R w (m w).1

-- A relation that is kept by what takes time or asks a question.
pub record IsPassive (R : World → World → Type 0) : Type 0 where
  pub trans : (u v w : World) → R u v → R v w → R u w
  pub passes : (w : World) (t n : ℕ) → R w (record w { time = t; asked = n })

bind_after :
    (R : World → World → Type 0)
    → IsPassive R
    → {A B : Type 0} (w : World) (p : Result A × World) (f : A → Io B) → R w p.1
    → ((a : A) → Keeps R (f a))
    → R w (elim p.0 as (λ _. Result B × World) [ ok a ↦ f a p.1 | err e ↦ (err e, p.1) ]).1
bind_after R p w (ok a, w') f h k = p.trans w w' (f a w').1 h ((k a).keeps w')
bind_after R p w (err e, w') f h k = h

choose_after :
    (R : World → World → Type 0) (w : World) (b : Bool) {A : Type 0} (p q : Result A × World)
    → R w p.1
    → R w q.1
    → R w (elim b as (λ _. Result A × World) [ true ↦ p | false ↦ q ]).1
choose_after R w true p q h k = h
choose_after R w false p q h k = k

module _ (R : World → World → Type 0) (p : IsPassive R) where
  pub bind-Keeps :
      {A B : Type 0} (m : Io A) (f : A → Io B)
      → Keeps R m
      → ((a : A) → Keeps R (f a))
      → Keeps R (m >>= f)
  unfolding ◌>>=◌
  bind-Keeps m f h k = record { keeps = λ w. bind_after R p w (m w) f (h.keeps w) k }

  pub then-Keeps : {A B : Type 0} (m : Io A) (k : Io B) → Keeps R m → Keeps R k → Keeps R (m >> k)
  unfolding ◌>>◌
  then-Keeps m k h h' = bind-Keeps m (λ _. k) h (λ _. h')

  pub pure-Keeps : {A : Type 0} (a : A) → Keeps R (pure a)
  unfolding pure
  pure-Keeps a = record { keeps = λ w. p.passes w w.time w.asked }

  pub throw-Keeps : {A : Type 0} (e : Error) → Keeps R (throw {A = A} e)
  unfolding throw
  throw-Keeps e = record { keeps = λ w. p.passes w w.time w.asked }

  pub ask-Keeps : {A : Type 0} (f : ℕ → A) → Keeps R (ask f)
  unfolding ask
  ask-Keeps f = record { keeps = λ w. p.passes w w.time (w.asked + 1) }

  pub sleep-Keeps : (ms : ℕ) → Keeps R (sleep ms)
  unfolding sleep
  sleep-Keeps ms = record { keeps = λ w. p.passes w (w.time + ms) w.asked }

  pub now-Keeps : Keeps R now
  unfolding now
  now-Keeps = record { keeps = λ w. p.passes w w.time w.asked }

  pub branch-Keeps :
      {A : Type 0} (test : ℕ → Bool) (m k : Io A)
      → Keeps R m
      → Keeps R k
      → Keeps R (branch test m k)
  unfolding branch
  branch-Keeps test m k h h' = record {
    keeps = λ w. choose_after R w (test w.time) (m w) (k w) (h.keeps w) (h'.keeps w);
  }

  pub if-Keeps :
      {A : Type 0} (b : Bool) (m k : Io A) → Keeps R m → Keeps R k → Keeps R (if b then m else k)
  if-Keeps true m k h h' = h
  if-Keeps false m k h h' = h'

  pub swallow-Keeps : (m : Io (Unit {0})) → Keeps R m → Keeps R (swallow m)
  unfolding swallow
  swallow-Keeps m h = record { keeps = h.keeps }

  for_each_nil-Keeps : {A : Type 0} (body : A → Io (Unit {0})) → Keeps R (for_each [] body)
  unfolding for_each
  for_each_nil-Keeps body = pure-Keeps tt

  for_each_cons-Keeps :
      {A : Type 0} (a : A) (items : List A) (body : A → Io (Unit {0}))
      → Keeps R (body a)
      → Keeps R (for_each items body)
      → Keeps R (for_each (a ∷ items) body)
  unfolding for_each
  for_each_cons-Keeps a items body h k = then-Keeps (body a) (for_each items body) h k

  pub for_each-Keeps :
      {A : Type 0} (items : List A) (body : A → Io (Unit {0}))
      → ((a : A) → Keeps R (body a))
      → Keeps R (for_each items body)
  for_each-Keeps [] body h = for_each_nil-Keeps body
  for_each-Keeps (a ∷ items) body h =
      for_each_cons-Keeps a items body (h a) (for_each-Keeps items body h)

pub ruleset keep_rules = (
  bind-Keeps, then-Keeps, pure-Keeps, throw-Keeps, ask-Keeps, sleep-Keeps, now-Keeps, branch-Keeps,
  if-Keeps, swallow-Keeps, for_each-Keeps,
)
