-- ===== src/Bench/Protocol/Applying.antt =====
-- `apply_epp` of scripts/bench.py: after it each CPU has the value that a full mapping gives to it.
use fake_big_little.Prelude.{
  ℕ, ◌+◌, ◌≡◌, refl, ◌∙◌, ap, true, false, Option, none, some, [], ◌∷◌, ◌==◌, arith, Bool-cases,
  inl, inr,
}
use mathlib.Core.Path.{subst}
use fake_big_little.Prelude.Texts.{Text}
use fake_big_little.Bench.World.{absent, World, Result, os_error, ok, err, pure, ◌>>◌, Env}
use fake_big_little.Bench.Epp.{Mapping, update, write_epp, apply_epp}
use fake_big_little.Bench.Epp.Mappings.{lookup, IsDict, value_or, value_in, IsFull}
use fake_big_little.Bench.Protocol.{Saved-none, Now, Idle, Ready, Made, Makes}

-- What an `apply_epp` that returns has done.
record Applied (d : Mapping) (w w' : World) : Type 0 where
  values : (c : ℕ) → w'.epp c ≡ value_or (lookup c d) (w.epp c)
  same_scheduler : w'.scheduler ≡ w.scheduler
  same_saved : w'.saved ≡ w.saved

abbrev AppliedEnd : Mapping → World → Result (Unit {0}) × World → Type 0
AppliedEnd d w (ok _, w') = Applied d w w'
AppliedEnd d w (err _, _) = Unit

-- A write of the first item, and what the rest makes of it.
applied_value :
    (k : ℕ) (v : Text) (d : Mapping) (old : ℕ → Text) (c : ℕ)
    → lookup k d ≡ none
    → value_or (lookup c d) (update old k v c) ≡ value_or (lookup c ((k, v) ∷ d)) (old c)
unfolding lookup value_or
applied_value k v d old c h = elim (Bool-cases (c == k)) [
  | inl e ↦ let same : k ≡ c = ground arith in rw (e, subst (λ (j : ℕ). lookup j d ≡ none) same h)
  | inr e ↦ rw e
]

applied_cons :
    (k : ℕ) (v : Text) (d : Mapping) (w w1 : World) (q : Result (Unit {0}) × World)
    → lookup k d ≡ none
    → w1.epp ≡ update w.epp k v
    → w1.scheduler ≡ w.scheduler
    → w1.saved ≡ w.saved
    → AppliedEnd d w1 q
    → AppliedEnd ((k, v) ∷ d) w q
applied_cons k v d w w1 (err _, w2) fresh e1 e2 e3 h = tt
applied_cons k v d w w1 (ok _, w2) fresh e1 e2 e3 h = record {
  values = λ c.
      h.values c
      ∙ ap (λ (f : ℕ → Text). value_or (lookup c d) (f c)) e1
      ∙ applied_value k v d w.epp c fresh;
  same_scheduler = h.same_scheduler ∙ e2;
  same_saved = h.same_saved ∙ e3;
}

-- The world after a write that succeeds, and after one that fails.
abbrev written : ℕ → Text → World → World
written k v w = record w { epp = update w.epp k v; asked = w.asked + 1 }

abbrev after_write : Env → Mapping → Result (Unit {0}) × World → Result (Unit {0}) × World
after_write env d p = elim p.0 as (λ _. Result (Unit {0}) × World) [
  | ok _ ↦ apply_epp env d p.1
  | err e ↦ (err e, p.1)
]

apply_epp_cons :
    (env : Env) (k : ℕ) (v : Text) (d : Mapping) (w : World)
    → apply_epp env ((k, v) ∷ d) w ≡ after_write env d (write_epp env k v w)
unfolding apply_epp ◌>>◌
apply_epp_cons env k v d w = refl

write_accepted :
    (env : Env) (k : ℕ) (v : Text) (w : World)
    → env.accepts w.asked k v ≡ true
    → write_epp env k v w ≡ (ok tt, written k v w)
unfolding write_epp
write_accepted env k v w e = rw e

write_refused :
    (env : Env) (k : ℕ) (v : Text) (w : World)
    → env.accepts w.asked k v ≡ false
    → write_epp env k v w ≡ (err os_error, record w { asked = w.asked + 1 })
unfolding write_epp
write_refused env k v w e = rw e

applied_nil : (env : Env) (w : World) → AppliedEnd [] w (apply_epp env [] w)
unfolding apply_epp pure lookup value_or
applied_nil env w = record { values = λ c. refl; same_scheduler = refl; same_saved = refl }

apply_epp-AppliedEnd :
    (env : Env) (d : Mapping) (w : World) → IsDict d → AppliedEnd d w (apply_epp env d w)
apply_epp-AppliedEnd env [] w h = applied_nil env w
apply_epp-AppliedEnd env ((k, v) ∷ d) w h = elim (Bool-cases (env.accepts w.asked k v)) [
  | inl e ↦
      let w1 : World = written k v w in
      rw (apply_epp_cons env k v d w, write_accepted env k v w e)
        (applied_cons k v d w w1 (apply_epp env d w1) h.0 refl refl refl
          (apply_epp-AppliedEnd env d w1 h.1))
  | inr e ↦ rw (apply_epp_cons env k v d w, write_refused env k v w e) tt
]

no_value : ¬ (value_or none [] ≡ value_or none (b'?' ∷ []))
unfolding value_or
no_value e = cc

module _ (env : Env) where
  -- After `apply_epp` of a full mapping each CPU has the value that the mapping gives to it.
  ready_end :
      (d : Mapping) (w : World) (p : Result (Unit {0}) × World)
      → IsFull env.nr_cpus d
      → Now Idle w
      → AppliedEnd d w p
      → Made env (Ready env (value_in d) absent) [] w p
  unfolding value_in
  ready_end d w (err _, w') full idle h = tt
  ready_end d w (ok _, w') full idle h = (
    Saved-none env w w' h.same_saved,
    (
      λ c lt. h.values c ∙ full_value (lookup c d) (w.epp c) (full.has_key c lt),
      h.same_scheduler ∙ idle,
    ),
  )
    where
      full_value :
          (o : Option Text) (old : Text)
          → value_or o [] ≡ value_or o (b'?' ∷ [])
          → value_or o old ≡ value_or o []
      full_value none old e = absurd (no_value e)
      full_value (some v) old e = unfold value_or in refl

  pub apply_epp-Makes :
      (d : Mapping)
      → IsFull env.nr_cpus d
      → Makes env Idle (Ready env (value_in d) absent) [] (apply_epp env d)
  unfolding value_in
  apply_epp-Makes d full = record {
    makes = λ w idle.
        ready_end d w (apply_epp env d w) full idle (apply_epp-AppliedEnd env d w full.dict);
  }
