-- ===== src/Bench/Output.antt =====
-- `collect_json` and `classify_json` of scripts/bench.py: from what the tools print to named slots.
use mathlib.Core.List.{reverse}
use fake_big_little.Prelude.{
  ℕ, Bool, true, false, ◌&&◌, ◌||◌, Option, none, some, List, [], ◌∷◌, ◌++◌, ◌==◌, leb,
  if◌then◌else◌,
}
use fake_big_little.Prelude.Texts.{Text, codes}
use fake_big_little.Prelude.Decimal.{strip}
use fake_big_little.Json.{Fields, get, has, equals_text}
use fake_big_little.Bench.World.{Slots}

-- The line ends of `str.splitlines`. Here `\r\n` ends two lines; the empty one between is no JSON.
is_line_end : ℕ → Bool
is_line_end c =
    (leb 10 c && leb c 13) || (leb 28 c && leb c 30) || c == 0x85 || c == 0x2028 || c == 0x2029

pub split_lines : Text → Text → List Text
unfolding is_line_end
split_lines [] line = line ∷ []
split_lines (c ∷ s) line = elim (is_line_end c) [
  | true ↦ line ∷ split_lines s []
  | false ↦ split_lines s (line ++ c ∷ [])
]

starts_with : ℕ → Text → Bool
starts_with b [] = false
starts_with b (c ∷ _) = c == b

-- `line.startswith("{") and line.endswith("}")`
pub looks_like_json : Text → Bool
unfolding starts_with
looks_like_json line = starts_with b'{' line && starts_with b'}' (reverse line)

unfoldable pub collect_lines : (Text → Option Fields) → List Text → List Fields
unfolding looks_like_json
collect_lines loads [] = []
collect_lines loads (l ∷ ls) =
    let line = strip l in
    let rest = collect_lines loads ls in
    if looks_like_json line then elim (loads line) [ none ↦ rest | some o ↦ o ∷ rest ] else rest

unfoldable pub collect_json : (Text → Option Fields) → Text → List Fields
unfolding split_lines collect_lines
collect_json loads text = collect_lines loads (split_lines text [])

abbrev pub no_slots : Slots
no_slots = record { energy = none; pinger = none; spin = none; bls = none; partition = none }

-- One object goes to one slot, or to none; a later one replaces an earlier one.
unfoldable pub put : Slots → Fields → Slots
put s o =
    if has (codes "pkg_j") o
    then record s { energy = some o }
    else if has (codes "wake_us_p50") o
    then record s { pinger = some o }
    else if has (codes "threads") o
    then record s { spin = some o }
    else if equals_text (get (codes "event") o) (codes "stats")
    then record s { bls = some o }
    else if equals_text (get (codes "event") o) (codes "partition")
    then record s { partition = some o }
    else s

unfoldable pub put_all : Slots → List Fields → Slots
unfolding put
put_all s [] = s
put_all s (o ∷ os) = put_all (put s o) os

unfoldable pub classify_json : List Fields → Slots
unfolding put_all
classify_json = put_all no_slots
