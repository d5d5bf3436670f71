-- ===== src/Bench/Progress/Printing.antt =====
-- The line that `record` of scripts/bench.py prints, where the tools print numbers.
use fake_big_little.Prelude.{
  ◌≡◌, refl, sym, Bool, true, false, Option, none, some, List, [], ◌∷◌, All, if◌then◌else◌,
}
use mathlib.Core.Path.{subst}
use fake_big_little.Prelude.Texts.{Text, codes}
use fake_big_little.Prelude.Decimal.{strip}
use fake_big_little.Json.{Value, Fields, get, has, equals_text}
use fake_big_little.Bench.World.{Env, Error, Slots, pure, throw, ◌>>◌}
use fake_big_little.Bench.Output.{
  split_lines, looks_like_json, collect_lines, collect_json, no_slots, put, put_all, classify_json,
}
use fake_big_little.Bench.Session.{format_error, print_field, print_run}
use fake_big_little.Bench.Progress.{
  Always, Cooperates, IsFormatted, Printable, pure-Always, then-Always,
}

formatted-Always :
    (v : Option Value)
    → IsFormatted v
    → Always (elim v [
      | none ↦ pure tt
      | some u ↦ elim (format_error u) [ none ↦ pure tt | some e ↦ throw e ]
    ])
formatted-Always none h = pure-Always tt
formatted-Always (some u) h =
    subst (λ (x : Option Error). Always (elim x [ none ↦ pure tt | some e ↦ throw e ])) (sym h)
      (pure-Always tt)

print_field-Always :
    (key : Text) (o : Fields) → IsFormatted (get key o) → Always (print_field key o)
unfolding print_field
print_field-Always key o h = formatted-Always (get key o) h

-- The slot of `energy` is empty or can be printed.
abbrev pub Prints : Option Fields → Type 0
Prints none = Unit
Prints (some o) = Printable o

line-Always :
    (o : Option Fields)
    → Prints o
    → Always (elim o [
      | none ↦ pure tt
      | some e ↦ do print_field (codes "wall_s") e; print_field (codes "pkg_j") e
    ])
line-Always none h = pure-Always tt
line-Always (some e) h =
    then-Always _ _ (print_field-Always (codes "wall_s") e h.0)
      (print_field-Always (codes "pkg_j") e h.1)

pub print_run-Always : (slots : Slots) → Prints slots.energy → Always (print_run slots)
unfolding print_run
print_run-Always slots h = line-Always slots.energy h

put-Prints : (s : Slots) (o : Fields) → Prints s.energy → Printable o → Prints (put s o).energy
unfolding put
put-Prints s o h p =
    choose (has (codes "pkg_j") o) (has (codes "wake_us_p50") o) (has (codes "threads") o)
      (equals_text (get (codes "event") o) (codes "stats"))
      (equals_text (get (codes "event") o) (codes "partition"))
  where
    choose :
        (a b c d e : Bool)
        → Prints
            (if a
              then record s { energy = some o }
              else if b
              then record s { pinger = some o }
              else if c
              then record s { spin = some o }
              else if d
              then record s { bls = some o }
              else if e
              then record s { partition = some o }
              else s).energy
    choose true b c d e = p
    choose false true c d e = h
    choose false false true d e = h
    choose false false false true e = h
    choose false false false false true = h
    choose false false false false false = h

put_all-Prints :
    (s : Slots) (os : List Fields)
    → Prints s.energy
    → All Printable os
    → Prints (put_all s os).energy
unfolding put_all
put_all-Prints s [] h p = h
put_all-Prints s (o ∷ os) h p = put_all-Prints (put s o) os (put-Prints s o h p.0) p.1

module _ (env : Env) (good : Cooperates env) where
  read_line-Printable :
      (line : Text) (rest : List Fields) (b : Bool) (v : Option Fields)
      → env.loads line ≡ v
      → All Printable rest
      → All Printable (if b then elim v [ none ↦ rest | some o ↦ o ∷ rest ] else rest)
  read_line-Printable line rest false v e h = h
  read_line-Printable line rest true none e h = h
  read_line-Printable line rest true (some o) e h = (good.prints line o e, h)

  collect_lines-Printable : (ls : List Text) → All Printable (collect_lines env.loads ls)
  unfolding collect_lines
  collect_lines-Printable [] = tt
  collect_lines-Printable (l ∷ ls) =
      read_line-Printable (strip l) (collect_lines env.loads ls) (looks_like_json (strip l))
        (env.loads (strip l)) refl (collect_lines-Printable ls)

  -- Whatever the tools print, what is in the slot of `energy` can be printed.
  pub classify_json-Prints :
      (out : Text) → Prints (classify_json (collect_json env.loads out)).energy
  unfolding classify_json collect_json
  classify_json-Prints out =
      put_all-Prints no_slots (collect_lines env.loads (split_lines out [])) tt
        (collect_lines-Printable (split_lines out []))
