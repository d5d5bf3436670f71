-- ===== src/Bench/Session/Effects.antt =====
-- The steps of a measured run that touch nothing but the time and the questions asked.
use fake_big_little.Prelude.{◌+◌, ◌≡◌, refl, Option, none, some, List, [], ◌∷◌}
use fake_big_little.Prelude.Int.{ℤ}
use fake_big_little.Prelude.Texts.{Text, codes}
use fake_big_little.Json.{Value, Fields, get}
use fake_big_little.Bench.World.{
  Env, Error, Slots, pure, throw, ◌>>◌, World, Result, Outcome, missing, undecodable, exited,
  os_error, value_error, Command, Measurement, ok, err,
}
use fake_big_little.Bench.Rules.{Keeps, IsPassive, keep_rules, pure-Keeps, throw-Keeps, then-Keeps}
use fake_big_little.Bench.Cooling.Effects.{cooldown-Keeps}
use fake_big_little.Bench.Session.{
  Bench, format_error, print_field, print_run, first, run, make_dirs, cool_down,
}

abbrev pub run_end : Outcome → Measurement → World → Result (Measurement × ℤ × Text) × World
run_end o m w = elim o [
  | missing ↦ (err os_error, w)
  | undecodable ↦ (err value_error, w)
  | exited code out ↦ (ok (m, code, out), w)
]

run_end_world : (o : Outcome) (m : Measurement) (w : World) → (run_end o m w).1 ≡ w
run_end_world missing m w = refl
run_end_world undecodable m w = refl
run_end_world (exited code out) m w = refl

module _ (R : World → World → Type 0) (p : IsPassive R) where
  result-Keeps : (x : Option Error) → Keeps R (elim x [ none ↦ pure tt | some e ↦ throw e ])
  result-Keeps none = pure-Keeps R p tt
  result-Keeps (some e) = throw-Keeps R p e

  field-Keeps :
      (v : Option Value)
      → Keeps R (elim v [
        | none ↦ pure tt
        | some u ↦ elim (format_error u) [ none ↦ pure tt | some e ↦ throw e ]
      ])
  field-Keeps none = pure-Keeps R p tt
  field-Keeps (some u) = result-Keeps (format_error u)

  print_field-Keeps : (key : Text) (e : Fields) → Keeps R (print_field key e)
  unfolding print_field
  print_field-Keeps key e = field-Keeps (get key e)

  line-Keeps :
      (o : Option Fields)
      → Keeps R (elim o [
        | none ↦ pure tt
        | some e ↦ do print_field (codes "wall_s") e; print_field (codes "pkg_j") e
      ])
  line-Keeps none = pure-Keeps R p tt
  line-Keeps (some e) =
      then-Keeps R p _ _ (print_field-Keeps (codes "wall_s") e)
        (print_field-Keeps (codes "pkg_j") e)

  -- The line that `record` prints changes nothing.
  pub print_run-Keeps : (slots : Slots) → Keeps R (print_run slots)
  unfolding print_run
  print_run-Keeps slots = line-Keeps slots.energy

module _ (R : World → World → Type 0) (p : IsPassive R) (env : Env) where
  pub run-Keeps : (command : Command) → Keeps R (run env command)
  unfolding run
  run-Keeps command = record {
    keeps = λ w.
        let m : Measurement = record {
          command = command;
          epp_seen = w.epp;
          scheduler_seen = w.scheduler;
        } in
        let w' : World = record w { time = w.time + env.took w.asked; asked = w.asked + 1 } in
        rw (run_end_world (env.outcome w.asked) m w') (p.passes w w'.time w'.asked);
  }

  pub make_dirs-Keeps : Keeps R (make_dirs env)
  unfolding make_dirs
  make_dirs-Keeps = search (keep_rules, p)

  pub cool_down-Keeps : (self : Bench) → Keeps R (cool_down env self)
  unfolding cool_down
  cool_down-Keeps self = search (keep_rules, p, cooldown-Keeps)

  pub first-Keeps : {A : Type 0} (xs : List A) → Keeps R (first xs)
  unfolding first
  first-Keeps [] = search (keep_rules, p)
  first-Keeps (a ∷ xs) = search (keep_rules, p)
