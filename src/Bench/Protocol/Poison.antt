-- ===== src/Bench/Protocol/Poison.antt =====
-- The EPP of the CPUs in an arm of `e1b_poison` of scripts/bench.py.
use fake_big_little.Prelude.{
  ℕ, ◌<◌, ◌≡◌, refl, Bool, true, false, not, if◌then◌else◌, some, [], ◌∷◌, ◌==◌, arith, mem-keep,
  keep, range,
}
use fake_big_little.Prelude.Texts.{Text}
use fake_big_little.Bench.World.{Env}
use fake_big_little.Bench.Epp.{with_all, epp_little}
use fake_big_little.Bench.Epp.Mappings.{
  lookup, lookup-insert, lookup-with_all, insert-IsDict, with_all-IsDict, value_or, value_in,
  IsFull, mem-range,
}
use fake_big_little.Bench.Session.{Bench}
use fake_big_little.Bench.Experiments.{poison_mapping}

module _ (env : Env) (self : Bench) (probe : ℕ) (other : Text) where
  lookup-poison_mapping :
      (c : ℕ)
      → c < env.nr_cpus
      → lookup c (poison_mapping env self probe other)
        ≡ (if c == probe then some epp_little else some other)
  unfolding poison_mapping
  lookup-poison_mapping c h =
      rw
        (
          lookup-insert c probe epp_little
              (with_all (keep (λ i. not (i == probe)) (range env.nr_cpus)) other []),
          lookup-with_all c (keep (λ i. not (i == probe)) (range env.nr_cpus)) other [],
          mem-keep (λ i. not (i == probe)) c (range env.nr_cpus),
          mem-range c env.nr_cpus h,
        )
        (ground arith)

  both_values :
      (b : Bool)
      → value_or (if b then some epp_little else some other) []
        ≡ value_or (if b then some epp_little else some other) (b'?' ∷ [])
  unfolding value_or
  both_values true = refl
  both_values false = refl

  pub poison_mapping-IsFull : IsFull env.nr_cpus (poison_mapping env self probe other)
  poison_mapping-IsFull = record {
    dict =
        unfold poison_mapping in
        insert-IsDict probe epp_little _
          (with_all-IsDict (keep (λ i. not (i == probe)) (range env.nr_cpus)) other [] tt);
    has_key = λ c h. rw (lookup-poison_mapping c h) (both_values (c == probe));
  }

  -- The probe is held at `power`, and every other CPU has the value of the arm.
  pub value_in-poison_mapping :
      (c : ℕ)
      → c < env.nr_cpus
      → value_in (poison_mapping env self probe other) c
        ≡ (if c == probe then epp_little else other)
  unfolding value_in value_or
  value_in-poison_mapping c h = rw (lookup-poison_mapping c h) (ground arith)
