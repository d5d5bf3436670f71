-- ===== src/Bench/Protocol/Ab.antt =====
-- The runs of `e3_one` of scripts/bench.py, and its two processes.
use fake_big_little.Prelude.{
  ℕ, ◌+◌, ◌≡◌, ◌≤◌, ◌<◌, ◌⊎◌, inl, inr, ap, ◌∙◌, refl, List, arith, Bool, true, false,
  if◌then◌else◌, Option, none, some, [], ◌∷◌,
}
use mathlib.Core.Path.{subst}
use fake_big_little.Prelude.Texts.{Text, codes}
use fake_big_little.Prelude.Int.{ℤ}
use fake_big_little.Bench.World.{
  absent, started, attached, Scheduler, World, Io, Result, ok, err, now, ◌>>=◌, os_error, Error,
  pure, throw, Measurement, Env, Command,
}
use fake_big_little.Bench.Rules.{Keeps, keep_rules, ask-Keeps, sleep-Keeps, pure-Keeps}
use fake_big_little.Bench.Epp.{Mapping, partitioned_mapping, uniform_mapping, epp_flat, apply_epp}
use fake_big_little.Bench.Epp.Mappings.{
  value_in, IsFull, uniform_mapping-IsFull, partitioned_mapping-IsFull,
}
use fake_big_little.Bench.Session.{Bench}
use fake_big_little.Bench.Session.Effects.{run-Keeps, make_dirs-Keeps, cool_down-Keeps}
use fake_big_little.Bench.Ab.{
  AbArm, set_scheduler, set_pinging, popen_bls, popen_pinger, wait_attached, stop_pinger, stop_bls,
  set_epp_for, timed_build, not_attached, with_scheduler, e3_one,
}
use fake_big_little.Bench.Ab.Attach.{
  NotAttached, During, Gone, NotLoaded, Waited, wait_attached-Waited,
}
use fake_big_little.Bench.Protocol.{Made, Spec, Saved-none, Cond, Idle, Ready, Makes}
use fake_big_little.Bench.Protocol.Steps.{
  then_end, Quiet, Quiet-IsPassive, Quiet-Makes, bind-Makes, then-Makes, after-Quiet, then-Quiet,
  if-Makes, weaken-Makes,
}
use fake_big_little.Bench.Protocol.Applying.{apply_epp-Makes}
use fake_big_little.Bench.Protocol.Measuring.{run-Makes, record_run-Makes, Sees-of_some}
use fake_big_little.Bench.Protocol.Fixed.{Covers}

-- The EPP that an arm of `e3_one` sets.
unfoldable pub ab_mapping : Env → Bench → AbArm → Mapping
ab_mapping env self a =
    if a.partitioned
    then partitioned_mapping self.big self.little
    else uniform_mapping env.nr_cpus epp_flat

-- The scheduler that an arm wants.
abbrev pub wanted_scheduler : Bool → Scheduler
wanted_scheduler true = attached
wanted_scheduler false = absent

unfoldable pub ab_spec : Env → Bench → ℕ → AbArm → Spec
ab_spec env self rep a = record {
  experiment = codes "e3-ab";
  arm = a.name;
  rep = rep;
  epp = value_in (ab_mapping env self a);
  scx = wanted_scheduler a.scx;
}

apply_epp-if :
    (env : Env) (b : Bool) (d e : Mapping)
    → (if b then apply_epp env d else apply_epp env e) ≡ apply_epp env (if b then d else e)
apply_epp-if env true d e = refl
apply_epp-if env false d e = refl

choose-IsFull :
    {n : ℕ} (b : Bool) (d e : Mapping) → IsFull n d → IsFull n e → IsFull n (if b then d else e)
choose-IsFull true d e h k = h
choose-IsFull false d e h k = k

none_seen : (m : Measurement) → ¬ (none ≡ some m)
none_seen m e = cc

set_pinging-Keeps : (b : Bool) → Keeps Quiet (set_pinging b)
unfolding set_pinging
set_pinging-Keeps b = record {
  keeps = λ w. record { same_epp = refl; same_scheduler = refl; same_saved = refl };
}

module _ (env : Env) where
  popen_pinger-Keeps : Keeps Quiet (popen_pinger env)
  unfolding popen_pinger
  popen_pinger-Keeps = search (keep_rules, Quiet-IsPassive, set_pinging-Keeps)

  stop_pinger-Keeps : Keeps Quiet (stop_pinger env)
  unfolding stop_pinger
  stop_pinger-Keeps = search (keep_rules, Quiet-IsPassive, set_pinging-Keeps)

  failed :
      (w w' : World)
      → During env w w' (Gone env)
        ⊎ ((w.time + 10000 ≤ w'.time)
            × ((w.asked ≤ w'.asked) × (w.time < w.time + 10000 → During env w w' (NotLoaded env))))
      → NotAttached env
  failed w w' (inl (k, (_, (_, gone)))) = (k, inl gone)
  failed w w' (inr (_, (_, seen))) =
      let (k, (_, (_, (_, unseen)))) = seen (omega arith) in (k + 1, inr unseen)

  module _ (e : ℕ → Text) where
    set_scheduler-Makes :
        (b c : Scheduler) → Makes env (Ready env e b) (Ready env e c) [] (set_scheduler c)
    unfolding set_scheduler
    set_scheduler-Makes b c = record { makes = λ w r. (Saved-none env w _ refl, (r.0, refl)) }

    clear_scheduler-Makes : (E : Cond) → Makes env E Idle [] (set_scheduler absent)
    unfolding set_scheduler
    clear_scheduler-Makes E = record { makes = λ w r. (Saved-none env w _ refl, refl) }

    -- Whether the process ends in time or is killed, it is gone.
    stop_bls-Makes : (E : Cond) → Makes env E Idle [] (stop_bls env)
    unfolding stop_bls
    stop_bls-Makes E =
        after-Quiet env E Idle [] _ _ (ask-Keeps Quiet Quiet-IsPassive env.terminates) (λ ended.
          if-Makes env E Idle [] ended _ _
            (λ _.
              then-Makes env E Idle Idle [] [] _ _ (clear_scheduler-Makes E)
                (Quiet-Makes env Idle _ (ask-Keeps Quiet Quiet-IsPassive env.stdout_of)))
            (λ _. then-Quiet env E Idle [] _ _ (sleep-Keeps Quiet Quiet-IsPassive 30000) (
              then-Makes env E Idle Idle [] [] _ _ (clear_scheduler-Makes E)
                (Quiet-Makes env Idle _ (pure-Keeps Quiet Quiet-IsPassive [])))))

    popen_bls-Makes : Makes env (Ready env e absent) (Ready env e started) [] (popen_bls env)
    unfolding popen_bls
    popen_bls-Makes =
        after-Quiet env _ _ [] _ _ (ask-Keeps Quiet Quiet-IsPassive env.starts) (λ starts.
          if-Makes env _ _ [] starts _ _ (λ _. set_scheduler-Makes absent started)
            (λ _. throws os_error))
      where
        throws :
            (x : Error)
            → Makes env (Ready env e absent) (Ready env e started) [] {A = Unit {0}} (throw x)
        throws x = unfold throw in record { makes = λ w r. tt }

    -- The wait for the scheduler: what follows finds it attached, or it was not.
    wait-Makes :
        (G : Cond) (ts : List Spec) {B : Type 0} (k : Bool → Io B)
        → Makes env (Ready env e attached) G ts (k true)
        → (NotAttached env → Makes env (Ready env e started) G ts (k false))
        → Makes env
            (Ready env e started)
            G
            ts
            (now >>= λ start. wait_attached env 52 (start + 10000) >>= k)
    unfolding now ◌>>=◌
    wait-Makes G ts {B} k h h' = record {
      makes = λ w r.
          waited w r (wait_attached env 52 (w.time + 10000) w)
            (wait_attached-Waited env 52 (w.time + 10000) w (omega arith));
    }
      where
        waited :
            (w : World)
            → Ready env e started w.epp w.scheduler
            → (p : Result Bool × World) → Waited env (w.time + 10000) w p
            → Made env G ts w
                (elim p.0 as (λ _. Result B × World) [ ok a ↦ k a p.1 | err x ↦ (err x, p.1) ])
        waited w r (ok true, w') (same, _) =
            then_end env G [] ts w w' (k true w') (Saved-none env w w' (ap (λ v. v.saved) same))
              (h.makes w' (λ c lt. ap (λ v. v.epp c) same ∙ r.0 c lt, ap (λ v. v.scheduler) same))
        waited w r (ok false, w') (same, why) =
            then_end env G [] ts w w' (k false w') (Saved-none env w w' (ap (λ v. v.saved) same)) (
              (h' (failed w w' why)).makes w'
                (λ c lt. ap (λ v. v.epp c) same ∙ r.0 c lt, ap (λ v. v.scheduler) same ∙ r.1))
        waited w r (err x, w') a = absurd a

    -- The end of an scx arm or of an eevdf arm leaves no scheduler running.
    stop_if-Makes :
        (b : Bool)
        → Makes env (Ready env e (wanted_scheduler b)) Idle [] (if b then stop_bls env else pure [])
    stop_if-Makes true = stop_bls-Makes (Ready env e attached)
    stop_if-Makes false =
        weaken-Makes env _ _ _ [] _ (λ epp scx r. r.1)
          (Quiet-Makes env (Ready env e absent) _ (pure-Keeps Quiet Quiet-IsPassive []))

    module _ (self : Bench) (a : AbArm) (rep : ℕ) (t : Option ℤ) where
      abbrev spec : Spec
      spec = record {
        experiment = codes "e3-ab";
        arm = a.name;
        rep = rep;
        epp = e;
        scx = wanted_scheduler a.scx;
      }

      timed_build-Makes :
          Makes env
            (Ready env e (wanted_scheduler a.scx))
            Idle
            (spec ∷ [])
            (timed_build env self a rep t)
      unfolding timed_build
      timed_build-Makes = then-Quiet env _ _ _ _ _ popen_pinger-Keeps (
          then-Quiet env _ _ _ _ _ (make_dirs-Keeps Quiet Quiet-IsPassive env) (
            run-Makes env e (wanted_scheduler a.scx) Idle _ _ _ (λ m code out sees.
              after-Quiet env _ _ _ _ _ stop_pinger-Keeps (λ ping_out.
                bind-Makes env _ Idle Idle [] _ _ _ (stop_if-Makes a.scx) (λ bls_out.
                  record_run-Makes env e (wanted_scheduler a.scx) Idle _ a.name _ rep _ (some m) _ _
                    t (λ m' eq. Sees-of_some env e (wanted_scheduler a.scx) m m' sees eq)
                    (λ unseen. absurd (cc)))))))

      not_attached-Makes :
          a.scx ≡ true
          → NotAttached env
          → Makes env (Ready env e started) Idle (spec ∷ []) (not_attached env self a rep t)
      unfolding not_attached
      not_attached-Makes on failed =
          then-Makes env _ Idle Idle [] _ _ _ (clear_scheduler-Makes (Ready env e started)) (
            record_run-Makes env e (wanted_scheduler a.scx) Idle _ a.name _ rep _ none _ _ t
              (λ m eq. absurd (none_seen m eq)) (λ _. (ap wanted_scheduler on, (refl, failed))))

      with_scheduler-Makes :
          a.scx ≡ true
          → Makes env (Ready env e absent) Idle (spec ∷ []) (with_scheduler env self a rep t)
      unfolding with_scheduler
      with_scheduler-Makes on =
          then-Makes env _ (Ready env e started) Idle [] _ _ _ popen_bls-Makes (
            wait-Makes Idle (spec ∷ [])
              (λ is_attached.
                if is_attached then timed_build env self a rep t else not_attached env self a rep t)
              (subst
                (λ b.
                  Makes env (Ready env e (wanted_scheduler b)) Idle (spec ∷ [])
                    (timed_build env self a rep t))
                on timed_build-Makes)
              (not_attached-Makes on))

  module _ (self : Bench) (covers : Covers env.nr_cpus self) where
    ab_mapping-IsFull : (a : AbArm) → IsFull env.nr_cpus (ab_mapping env self a)
    unfolding ab_mapping
    ab_mapping-IsFull a =
        choose-IsFull a.partitioned _ _
          (partitioned_mapping-IsFull env.nr_cpus self.big self.little covers)
          (uniform_mapping-IsFull env.nr_cpus epp_flat)

    set_epp_for-eq : (a : AbArm) → set_epp_for env self a ≡ apply_epp env (ab_mapping env self a)
    unfolding set_epp_for ab_mapping
    set_epp_for-eq a = apply_epp-if env a.partitioned _ _

    -- `e3_one` makes one run, and no scheduler of ours runs after it.
    pub e3_one-Makes :
        (rep : ℕ) (a : AbArm)
        → Makes env Idle Idle (ab_spec env self rep a ∷ []) (e3_one env self rep a)
    unfolding e3_one ab_spec
    e3_one-Makes rep a =
        let e : ℕ → Text = value_in (ab_mapping env self a) in
        then-Makes env Idle (Ready env e absent) Idle [] _ _ _
          (rw (set_epp_for-eq a) (apply_epp-Makes env _ (ab_mapping-IsFull a)))
          (then-Quiet env _ _ _ _ _ (run-Keeps Quiet Quiet-IsPassive env Command.make_clean) (
            after-Quiet env _ _ _ _ _ (cool_down-Keeps Quiet Quiet-IsPassive env self) (λ t.
              if-Makes env _ _ _ a.scx _ _ (λ on. with_scheduler-Makes e self a rep t on)
                (λ off.
                  subst
                    (λ b.
                      Makes env (Ready env e (wanted_scheduler b)) Idle (spec e self a rep t ∷ [])
                        (timed_build env self a rep t))
                    off (timed_build-Makes e self a rep t)))))
