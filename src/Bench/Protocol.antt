-- ===== src/Bench/Protocol.antt =====
-- What the runs of scripts/bench.py are to be, and what it means that a step makes just these runs.
pub mod Steps
pub mod Applying
pub mod Measuring
pub mod Poison
pub mod Fixed
pub mod Ab
pub mod Whole
pub mod Count
use fake_big_little.Prelude.{
  ℕ, ◌<◌, ◌≡◌, Bool, true, false, Option, none, some, List, [], ◌∷◌, ◌++◌, append_assoc, append-nil,
  refl,
}
use fake_big_little.Prelude.Texts.{Text}
use fake_big_little.Bench.Ab.Attach.{NotAttached}
use fake_big_little.Bench.World.{
  Env, Scheduler, absent, attached, World, Result, ok, err, Io, Measurement, RunFile,
}

-- A run that the protocol asks for: its names, the EPP of each CPU and our scheduler.
pub record Spec : Type 0 where
  pub experiment : Text
  pub arm : Text
  pub rep : ℕ
  pub epp : ℕ → Text
  pub scx : Scheduler

-- The file holds that run. If it was measured, each CPU had its EPP while `energy` ran, and the
-- scheduler had been seen attached, or there was none, as the run asks. If not, it is a failed run
-- of a scheduler that was not attached.
pub record Fits (env : Env) (s : Spec) (f : RunFile) : Type 0 where
  pub same_experiment : f.experiment ≡ s.experiment
  pub same_arm : f.arm ≡ s.arm
  pub same_rep : f.rep ≡ s.rep
  pub same_epp :
      (m : Measurement) (c : ℕ) → f.seen ≡ some m → c < env.nr_cpus → m.epp_seen c ≡ s.epp c
  pub same_scx : (m : Measurement) → f.seen ≡ some m → m.scheduler_seen ≡ s.scx
  pub unmeasured : f.seen ≡ none → (s.scx ≡ attached) × ((f.is_ok ≡ false) × NotAttached env)

-- The files are those runs, one for each and in their order.
abbrev pub AllFit : Env → List Spec → List RunFile → Type 0
AllFit env [] [] = Unit
AllFit env [] (_ ∷ _) = ⊥
AllFit env (_ ∷ _) [] = ⊥
AllFit env (s ∷ ss) (f ∷ fs) = Fits env s f × AllFit env ss fs

pub AllFit-append :
    (env : Env) (ss ts : List Spec) (fs gs : List RunFile)
    → AllFit env ss fs
    → AllFit env ts gs
    → AllFit env (ss ++ ts) (fs ++ gs)
AllFit-append env [] ts [] gs h k = k
AllFit-append env [] ts (f ∷ fs) gs h k = absurd h
AllFit-append env (s ∷ ss) ts [] gs h k = absurd h
AllFit-append env (s ∷ ss) ts (f ∷ fs) gs h k = (h.0, AllFit-append env ss ts fs gs h.1 k)

-- Between the two worlds just these runs were saved, behind what was saved before.
pub record Saved (env : Env) (specs : List Spec) (w w' : World) : Type 0 where
  pub new : List RunFile
  pub behind : w'.saved ≡ w.saved ++ new
  pub fit : AllFit env specs new

pub Saved-none : (env : Env) (w w' : World) → w'.saved ≡ w.saved → Saved env [] w w'
Saved-none env w w' h = record { new = []; behind = rw h (rw append-nil); fit = tt }

pub Saved-trans :
    (env : Env) (ss ts : List Spec) (u v w : World)
    → Saved env ss u v
    → Saved env ts v w
    → Saved env (ss ++ ts) u w
Saved-trans env ss ts u v w h k = record {
  new = h.new ++ k.new;
  behind = rw (k.behind, h.behind) (append_assoc u.saved h.new k.new);
  fit = AllFit-append env ss ts h.new k.new h.fit k.fit;
}

-- A condition on the EPP files and on our scheduler.
abbrev pub Cond : Type 1
Cond = (ℕ → Text) → Scheduler → Type 0

abbrev pub Now : Cond → World → Type 0
Now E w = E w.epp w.scheduler

-- There is no scheduler of ours, whatever the EPP is.
abbrev pub Idle : Cond
Idle epp scx = scx ≡ absent

-- Each CPU has its EPP, and the scheduler is as given.
abbrev pub Ready : Env → (ℕ → Text) → Scheduler → Cond
Ready env want b epp scx = ((c : ℕ) → c < env.nr_cpus → epp c ≡ want c) × (scx ≡ b)

abbrev pub Made : Env → Cond → List Spec → {A : Type 0} → World → Result A × World → Type 0
Made env F specs w (ok _, w') = Saved env specs w w' × Now F w'
Made env F specs w (err _, _) = Unit

-- A step that starts where `E` holds and returns has made just these runs, and `F` holds then.
pub record Makes (env : Env) (E F : Cond) (specs : List Spec) {A : Type 0} (m : Io A) : Type 0 where
  pub makes : (w : World) → Now E w → Made env F specs w (m w)
