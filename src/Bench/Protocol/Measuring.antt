-- ===== src/Bench/Protocol/Measuring.antt =====
-- `run`, `record` and a measured run of scripts/bench.py: what is seen is what is saved.
use fake_big_little.Prelude.{ℕ, ◌+◌, ◌<◌, ◌≡◌, refl, Bool, false, Option, none, some, List, [], ◌∷◌}
use mathlib.Core.Path.{subst}
use fake_big_little.Prelude.Texts.{Text}
use fake_big_little.Prelude.Int.{ℤ}
use fake_big_little.Bench.World.{
  Scheduler, attached, World, Result, Outcome, missing, undecodable, exited, ok, err, Io, ◌>>=◌,
  Measurement, RunFile, Env, Command, Slots, Factors,
}
use fake_big_little.Bench.Session.{Bench, run, save, record_run, measured_run}
use fake_big_little.Bench.Session.Effects.{
  run_end, print_run-Keeps, make_dirs-Keeps, cool_down-Keeps,
}
use fake_big_little.Bench.Ab.Attach.{NotAttached}
use fake_big_little.Bench.Protocol.{Spec, Fits, Saved-none, Cond, Now, Ready, Made, Makes}
use fake_big_little.Bench.Protocol.Steps.{
  Quiet, Quiet-IsPassive, Quiet-Makes, then-Makes, then_end, after-Quiet, then-Quiet,
}

module _ (env : Env) where
  -- What a run sees while it is measured.
  pub Sees : (ℕ → Text) → Scheduler → Measurement → Type 0
  Sees e b m = ((c : ℕ) → c < env.nr_cpus → m.epp_seen c ≡ e c) × (m.scheduler_seen ≡ b)

  run_bind :
      (E G : Cond) (ts : List Spec) {B : Type 0} (w : World) (o : Outcome) (m : Measurement)
      (f : Measurement × ℤ × Text → Io B)
      → Now E w
      → ((code : ℤ) (out : Text) → Makes env E G ts (f (m, code, out)))
      → Made env G ts w (elim (run_end o m w).0 as (λ _. Result B × World) [
        | ok a ↦ f a (run_end o m w).1
        | err e ↦ (err e, (run_end o m w).1)
      ])
  run_bind E G ts w missing m f h k = tt
  run_bind E G ts w undecodable m f h k = tt
  run_bind E G ts w (exited code out) m f h k = (k code out).makes w h

  pub run-Makes :
      (e : ℕ → Text) (b : Scheduler) (G : Cond) (ts : List Spec) (command : Command) {B : Type 0}
      (f : Measurement × ℤ × Text → Io B)
      → ((m : Measurement) (code : ℤ) (out : Text)
          → Sees e b m
          → Makes env (Ready env e b) G ts (f (m, code, out)))
      → Makes env (Ready env e b) G ts (run env command >>= f)
  unfolding run Sees ◌>>=◌
  run-Makes e b G ts command f k = record {
    makes = λ w h.
        let m : Measurement = record {
          command = command;
          epp_seen = w.epp;
          scheduler_seen = w.scheduler;
        } in
        let w' : World = record w { time = w.time + env.took w.asked; asked = w.asked + 1 } in
        then_end env G [] ts w w' _ (Saved-none env w w' refl) (
          run_bind (Ready env e b) G ts w' (env.outcome w.asked) m f h
            (λ code out. k m code out h));
  }

  save-Makes :
      (E : Cond) (s : Spec) (file : ℕ → RunFile)
      → ((time : ℕ) → Fits env s (file time))
      → Makes env E E (s ∷ []) (save env file)
  unfolding save
  save-Makes E s file h = record {
    makes = λ w e. (record { new = file w.time ∷ []; behind = refl; fit = (h w.time, tt) }, e);
  }

  -- `record` saves one run, of the measurement that it is given.
  pub record_run-Makes :
      (e : ℕ → Text) (b : Scheduler) (E : Cond) (experiment arm : Text) (factors : Factors)
      (rep : ℕ) (slots : Slots) (seen : Option Measurement) (is_ok : Bool) (notes : Text)
      (t : Option ℤ)
      → ((m : Measurement) → seen ≡ some m → Sees e b m)
      → (seen ≡ none → (b ≡ attached) × ((is_ok ≡ false) × NotAttached env))
      → Makes env E E
          (record { experiment = experiment; arm = arm; rep = rep; epp = e; scx = b } ∷ [])
          (record_run env experiment arm factors rep slots seen is_ok notes t)
  unfolding record_run Sees
  record_run-Makes e b E experiment arm factors rep slots seen is_ok notes t h u =
      then-Quiet env E E _ _ _ (make_dirs-Keeps Quiet Quiet-IsPassive env) (
        then-Makes env E E E _ [] _ _
          (save-Makes E _ _ (λ time. record {
            same_experiment = refl;
            same_arm = refl;
            same_rep = refl;
            same_epp = λ m c e lt. (h m e).0 c lt;
            same_scx = λ m e. (h m e).1;
            unmeasured = u;
          }))
          (Quiet-Makes env E _ (print_run-Keeps Quiet Quiet-IsPassive slots)))

  pub Sees-of_some :
      (e : ℕ → Text) (b : Scheduler) (m m' : Measurement)
      → Sees e b m
      → some m ≡ some m'
      → Sees e b m'
  Sees-of_some e b m m' h eq = let same : m ≡ m' = cc in subst (Sees e b) same h

  -- A measured run, made where the machine is ready, is the run that was asked for.
  pub measured_run-Makes :
      (self : Bench) (e : ℕ → Text) (b : Scheduler) (experiment arm : Text) (factors : Factors)
      (rep : ℕ) (notes : Text) (command : Command)
      → let E : Cond = Ready env e b in
        Makes env E E
          (record { experiment = experiment; arm = arm; rep = rep; epp = e; scx = b } ∷ [])
          (measured_run env self experiment arm factors rep notes command)
  unfolding measured_run
  measured_run-Makes self e b experiment arm factors rep notes command =
      let E : Cond = Ready env e b in
      after-Quiet env E E _ _ _ (cool_down-Keeps Quiet Quiet-IsPassive env self) (λ t.
        then-Quiet env E E _ _ _ (make_dirs-Keeps Quiet Quiet-IsPassive env) (
          run-Makes e b E _ command _ (λ m code out sees.
            record_run-Makes e b E experiment arm factors rep _ (some m) _ notes t
              (λ m' eq. Sees-of_some e b m m' sees eq) (λ none_seen. absurd (cc)))))
