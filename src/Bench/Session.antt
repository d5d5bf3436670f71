-- ===== src/Bench/Session.antt =====
-- `class Bench` of scripts/bench.py: its attributes, and what one measured run consists of.
pub mod Effects
use fake_big_little.Prelude.{
  ℕ, ◌+◌, ◌/◌, ◌%◌, ◌*◌, Bool, true, false, ◌&&◌, Option, none, some, List, [], ◌∷◌, ◌++◌, ltb,
  if◌then◌else◌, range, keep, mem, not,
}
use fake_big_little.Prelude.Int.{ℤ, pos, eqb_ℤ}
use fake_big_little.Prelude.Texts.{Text, codes}
use fake_big_little.Prelude.Decimal.{str_ℕ}
use fake_big_little.Json.{Value, null, bool, int, real, str, arr, obj, Fields, get}
use fake_big_little.Bench.World.{
  Env, Error, World, Io, type_error, value_error, Outcome, missing, undecodable, exited, os_error,
  index_error, Command, Measurement, Slots, Factors, RunFile, ok, err, pure, throw, ◌>>=◌, ◌>>◌,
  ask,
}
use fake_big_little.Bench.Output.{collect_json, classify_json}
use fake_big_little.Bench.Epp.{Mapping}
use fake_big_little.Bench.Cooling.{cool_target, cooldown}

-- The choices of the command line's `experiment`.
pub data Choice : Type 0 where
  all_of_them only_rail only_poison only_coupling only_ab : Choice

-- The options, with times in milliseconds and temperatures in thousandths of a degree.
pub record Args : Type 0 where
  pub choice : Choice
  pub reps : ℕ
  pub dur : ℕ
  pub big_override : Option Text
  pub cool_to : ℤ
  pub cool_max : ℕ
  pub cool_margin : ℤ
  pub floor_probe : ℕ
  pub plan_only : Bool
  pub settle : ℕ
  pub allow_battery : Bool

pub record Bench : Type 0 where
  pub args : Args
  pub big : List ℕ
  pub little : List ℕ
  pub saved_epp : Mapping
  pub idle_floor : Option ℤ

-- `xs[0]`
unfoldable pub first : {A : Type 0} → List A → Io A
first [] = throw index_error
first (a ∷ _) = pure a

-- `f"{n:02d}"`
unfoldable pub two_digits : ℕ → Text
two_digits n = if ltb n 10 then b'0' ∷ str_ℕ n else str_ℕ n

-- `{experiment}/{arm}.rep{rep:02d}.json`
unfoldable pub run_path : Text → Text → ℕ → Text
unfolding two_digits
run_path experiment arm rep =
    experiment ++ b'/' ∷ (arm ++ (codes ".rep" ++ (two_digits rep ++ codes ".json")))

-- `p.returncode == 0 and slots["energy"] is not None`
unfoldable pub run_is_ok : ℤ → Slots → Bool
run_is_ok code slots = eqb_ℤ code (pos 0) && elim slots.energy [ none ↦ false | some _ ↦ true ]

-- What `f"{v:.2f}"` raises. An integer is taken to be in the range of the doubles.
unfoldable pub format_error : Value → Option Error
format_error null = some type_error
format_error (str _) = some value_error
format_error (arr _) = some type_error
format_error (obj _) = some type_error
format_error _ = none

-- `f"{e.get(key, float('nan')):.2f}"`
unfoldable pub print_field : Text → Fields → Io (Unit {0})
unfolding format_error
print_field key e = elim (get key e) [
  | none ↦ pure tt
  | some v ↦ elim (format_error v) [ none ↦ pure tt | some x ↦ throw x ]
]

-- The line that `record` prints, of which only the errors of its fields are kept.
unfoldable pub print_run : Slots → Io (Unit {0})
unfolding print_field
print_run slots = elim slots.energy [
  | none ↦ pure tt
  | some e ↦ do print_field (codes "wall_s") e; print_field (codes "pkg_j") e
]

module _ (env : Env) where
  -- `run(cmd)`: what is known of the machine while the command runs, its exit status and its output.
  unfoldable pub run : Command → Io (Measurement × ℤ × Text)
  run command w =
      let seen : Measurement = record {
        command = command;
        epp_seen = w.epp;
        scheduler_seen = w.scheduler;
      } in
      let w' = record w { time = w.time + env.took w.asked; asked = w.asked + 1 } in
      elim (env.outcome w.asked) [
        | missing ↦ (err os_error, w')
        | undecodable ↦ (err value_error, w')
        | exited code out ↦ (ok (seen, code, out), w')
      ]

  -- Making the experiment's directory, which may fail.
  unfoldable pub make_dirs : Io (Unit {0})
  make_dirs = do is_writable ← ask env.writable; if is_writable then pure tt else throw os_error

  -- `json.dump` of a record that holds the time.
  unfoldable pub save : (ℕ → RunFile) → Io (Unit {0})
  save file w = (ok tt, record w { saved = w.saved ++ file w.time ∷ [] })

  -- `Bench.record`: the file is written, and then a line is printed.
  unfoldable pub record_run :
      Text
      → Text
      → Factors
      → ℕ
      → Slots
      → Option Measurement
      → Bool
      → Text
      → Option ℤ
      → Io (Unit {0})
  unfolding run_path print_run
  record_run experiment arm factors rep slots seen is_ok notes start_temp = do
    make_dirs
    save λ time. record {
      path = run_path experiment arm rep;
      experiment = experiment;
      arm = arm;
      factors = factors;
      rep = rep;
      timestamp = time;
      is_ok = is_ok;
      start_temp = start_temp;
      slots = slots;
      seen = seen;
      notes = notes;
    }
    print_run slots

  module _ (self : Bench) where
    unfoldable pub cool_down : Io (Option ℤ)
    unfolding cool_target
    cool_down =
        let target = cool_target self.args.cool_to self.args.cool_margin self.idle_floor in
        cooldown env target self.args.cool_max self.args.settle

    -- The part that the loops of `e1_rail`, `e1b_poison` and `e2_coupling` share: cool down, run
    -- `energy` and record what it printed.
    unfoldable pub measured_run : Text → Text → Factors → ℕ → Text → Command → Io (Unit {0})
    unfolding run_is_ok
    measured_run experiment arm factors rep notes command = do
      t ← cool_down
      make_dirs
      p ← run command
      let slots = classify_json (collect_json env.loads p.2)
      record_run experiment arm factors rep slots (some p.0) (run_is_ok p.1 slots) notes t
