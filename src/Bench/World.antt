-- ===== src/Bench/World.antt =====
-- What scripts/bench.py acts on: the machine, the files that it writes, and what the kernel and
-- the tools answer; with Python's exceptions as a state monad.
use fake_big_little.Prelude.{ℕ, ◌+◌, Bool, true, false, Option, List, [], ◌∷◌}
use fake_big_little.Prelude.Int.{ℤ}
use fake_big_little.Prelude.Texts.{Text}
use fake_big_little.Json.{Fields}

pub data Error : Type 0 where
  os_error index_error value_error type_error timeout_expired : Error

pub data Result (A : Type 0) : Type 0 where
  ok : A → Result A
  err : Error → Result A

-- How an external command ended; `missing` is an `OSError` of its start, and
-- the output of one that is `undecodable` is no text, which is a `ValueError`.
pub data Outcome : Type 0 where
  missing undecodable : Outcome
  exited : ℤ → Text → Outcome

-- A directory of /sys/class/hwmon: its name and its label and input files, `none` where the read is
-- an `OSError`.
pub record Hwmon : Type 0 where
  pub name : Option Text
  pub sensors : List (Option Text × Option ℤ)

-- What is not the script's: the kernel's files and the tools, by the number of questions asked
-- before. Times are in milliseconds, temperatures in thousandths of a degree.
pub record Env : Type 0 where
  pub nr_cpus : ℕ
  pub core_id : ℕ → ℕ
  -- whether a write of an EPP name to a CPU succeeds
  pub accepts : ℕ → ℕ → Text → Bool
  pub hwmon : ℕ → List Hwmon
  pub scx_state : ℕ → Option Text
  -- a command's end, and how long it took
  pub outcome : ℕ → Outcome
  pub took : ℕ → ℕ
  -- whether a process starts, has exited by itself, and ends in time after SIGTERM
  pub starts : ℕ → Bool
  pub exited_early : ℕ → Bool
  pub terminates : ℕ → Bool
  pub stdout_of : ℕ → Text
  -- whether a result file can be written
  pub writable : ℕ → Bool
  pub loads : Text → Option Fields

-- The commands that are run to their end.
pub data Command : Type 0 where
  energy_idle : Text → ℕ → Command
  energy_spin : Text → Text → ℕ → Command
  energy_make : Text → ℕ → Command
  make_clean : Command
  make_all : ℕ → Command

-- What the script knows of its scheduler: it has no `bls`, has started one, or has seen it attached.
-- A `bls` that then ends by itself changes nothing here, since the script does not look again.
pub data Scheduler : Type 0 where
  absent started attached : Scheduler

-- What the script knows of the machine while `energy` runs: each CPU's EPP, and its scheduler.
pub record Measurement : Type 0 where
  pub command : Command
  pub epp_seen : ℕ → Text
  pub scheduler_seen : Scheduler

pub record Slots : Type 0 where
  pub energy : Option Fields
  pub pinger : Option Fields
  pub spin : Option Fields
  pub bls : Option Fields
  pub partition : Option Fields

pub data Factors : Type 0 where
  rail : Text → ℕ → ℕ → Factors
  poison : ℕ → Text → Text → Factors
  coupling : Text → Text → Option Text → Factors
  ab : Text → Text → Bool → Factors

-- A result file, as `record` writes it, with the measurement that it holds.
pub record RunFile : Type 0 where
  pub path : Text
  pub experiment : Text
  pub arm : Text
  pub factors : Factors
  pub rep : ℕ
  pub timestamp : ℕ
  pub is_ok : Bool
  pub start_temp : Option ℤ
  pub slots : Slots
  pub seen : Option Measurement
  pub notes : Text

pub record World : Type 0 where
  pub epp : ℕ → Text
  -- the `bls` process of ours, and whether a pinger of ours is running
  pub scheduler : Scheduler
  pub pinging : Bool
  pub time : ℕ
  -- the number of questions asked of the kernel and the tools
  pub asked : ℕ
  pub saved : List RunFile

abbrev pub Io : Type 0 → Type 0
Io A = World → Result A × World

module _ {A : Type 0} where
  unfoldable pub pure : A → Io A
  pure a w = (ok a, w)

  unfoldable pub throw : Error → Io A
  throw e w = (err e, w)

infixl 5 ◌>>=◌ ◌>>◌
unfoldable pub ◌>>=◌ : {A B : Type 0} → Io A → (A → Io B) → Io B
◌>>=◌ m f w = let (r, w') = m w in elim r [ ok a ↦ f a w' | err e ↦ (err e, w') ]

unfoldable pub ◌>>◌ : {A B : Type 0} → Io A → Io B → Io B
unfolding ◌>>=◌
m >> k = m >>= λ _. k

-- `try: m; except: pass`
unfoldable pub swallow : Io (Unit {0}) → Io (Unit {0})
swallow m w = (ok tt, (m w).1)

-- `try: m; finally: k`: an error of `k` takes the place of that of `m`.
unfoldable pub finally : {A : Type 0} → Io A → Io (Unit {0}) → Io A
finally m k w =
    let (r, w') = m w in let (r', w'') = k w' in elim r' [ ok _ ↦ (r, w'') | err e ↦ (err e, w'') ]

unfoldable pub sleep : ℕ → Io (Unit {0})
sleep ms w = (ok tt, record w { time = w.time + ms })

-- The answer to the next question.
unfoldable pub ask : {A : Type 0} → (ℕ → A) → Io A
ask answer w = (ok (answer w.asked), record w { asked = w.asked + 1 })

-- `time.time()`
unfoldable pub now : Io ℕ
now w = (ok w.time, w)

-- The test of a loop, which looks at the time.
unfoldable pub branch : {A : Type 0} → (ℕ → Bool) → Io A → Io A → Io A
branch test m k w = elim (test w.time) [ true ↦ m w | false ↦ k w ]

-- `for a in items: body(a)`
unfoldable pub for_each : {A : Type 0} → List A → (A → Io (Unit {0})) → Io (Unit {0})
for_each [] body = pure tt
for_each (a ∷ items) body = do body a; for_each items body
