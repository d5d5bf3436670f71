-- ===== src/Analyze/OutputTests.antt =====
-- Runs of the loading and of `sanitize` and `write_markdown` of scripts/analyze.py.
use fake_big_little.Prelude.{◌≡◌, refl, true, false, not, Option, some, [], ◌∷◌, if◌then◌else◌}
use fake_big_little.Prelude.Int.{ℤ, pos, eqb_ℤ}
use fake_big_little.Prelude.Texts.{Text, codes, text_eq}
use fake_big_little.Json.{Value, str, arr, obj, nil, field, end}
use fake_big_little.Analyze.Floats.{Floats}
use fake_big_little.Analyze.Fixed.{fixed}
use fake_big_little.Analyze.RunFiles.{
  Walk, find_run_files, load_runs, may_write, content, not_an_object,
}
use fake_big_little.Analyze.RunFiles.Loaded.{Loaded, load_runs-Loaded}
use fake_big_little.Analyze.Sanitize.{
  Datum, nothing, number, words, sequence, dict, stop, item, empty, entry, sanitize,
}
use fake_big_little.Analyze.Sanitize.Safe.{Safe, sanitize-Safe}

-- A directory with two runs and what else may lie in it.
abbrev walk : Walk
walk = (codes "raw", codes "b.json" ∷ codes "notes.txt" ∷ codes "a.json" ∷ []) ∷ []

finds_sorted : find_run_files walk ≡ codes "raw/a.json" ∷ codes "raw/b.json" ∷ []
unfolding find_run_files
finds_sorted = refl

-- The file `b.json` holds a list.
abbrev load : Text → Option Value
load path = if text_eq path (codes "raw/a.json") then some (obj end) else some (arr nil)

loads : load_runs load walk ≡ (
  field (codes "_file") (str (codes "raw/a.json")) end ∷ [],
  record { file = codes "raw/b.json"; error = not_an_object } ∷ [],
)
unfolding load_runs text_eq
loads = refl

keeps_by_hand : may_write (content (codes "# By hand")) ≡ false
unfolding may_write
keeps_by_hand = refl

marker_anywhere :
    may_write (content (codes "# By hand <!-- GENERATED FILE -- DO NOT EDIT BY HAND.")) ≡ true
unfolding may_write
marker_anywhere = refl

load_runs-Loaded_example : Loaded load (find_run_files walk) (load_runs load walk)
load_runs-Loaded_example = load_runs-Loaded load walk

-- Thousandths of which one stands for a number that is not finite.
abbrev with_infinity : Floats ℤ
with_infinity = record fixed { is_finite = λ x. not (eqb_ℤ x (pos 999)) }

-- A metric with its values, an infinite one among them, and a private key.
abbrev metric : Datum ℤ
metric = dict (
    entry (codes "name") (words (codes "energy")) (
      entry (codes "_samples") (number (pos 5)) (
        entry (codes "values") (sequence (item (number (pos 7)) (item (number (pos 999)) stop)))
          empty)))

cleans :
    sanitize with_infinity metric
    ≡ dict (
        entry
          (codes "name")
          (words (codes "energy"))
          (entry (codes "values") (sequence (item (number (pos 7)) (item nothing stop))) empty))
unfolding sanitize
cleans = refl

sanitize-Safe_example :
    Safe with_infinity (sanitize with_infinity metric)
    × (sanitize with_infinity (sanitize with_infinity metric) ≡ sanitize with_infinity metric)
sanitize-Safe_example = sanitize-Safe with_infinity metric
