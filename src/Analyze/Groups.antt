-- ===== src/Analyze/Groups.antt =====
-- `group_runs`, `pick_control` and `values` of scripts/analyze.py.
pub mod Sorted
pub mod Grouping
use fake_big_little.Prelude.{
  ℕ, ◌+◌, Bool, true, false, not, ◌&&◌, ◌||◌, Option, none, some, List, [], ◌∷◌, ◌++◌, map, ltb,
  ◌==◌, if◌then◌else◌, any,
}
use fake_big_little.Prelude.Texts.{Text, codes, text_eq}
use fake_big_little.Json.{Value, equals_text}
use fake_big_little.Analyze.Floats.{Floats, sort_by, clean}
use fake_big_little.Analyze.Rows.{Row, Column}

-- A Python dict whose keys are texts, in the order in which the keys came.
abbrev pub Dict : Type 0 → Type 0
Dict A = List (Text × A)

-- `f(d.setdefault(key, new))`, where `f` changes the value in its place.
unfoldable pub change : {A : Type 0} → Text → A → (A → A) → Dict A → Dict A
change key new f [] = (key, f new) ∷ []
change key new f ((k, a) ∷ d) = if text_eq key k then (k, f a) ∷ d else (k, a) ∷ change key new f d

-- `d.get(key, default)`
unfoldable pub get_or : {A : Type 0} → Text → A → Dict A → A
get_or key default [] = default
get_or key default ((k, a) ∷ d) = if text_eq key k then a else get_or key default d

abbrev pub keys : {A : Type 0} → Dict A → List Text
keys [] = []
keys ((k, _) ∷ d) = k ∷ keys d

unfoldable pub map_values : {A B : Type 0} → (A → B) → Dict A → Dict B
map_values f [] = []
map_values f ((k, a) ∷ d) = (k, f a) ∷ map_values f d

-- `s < t` of two texts
unfoldable pub text_lt : Text → Text → Bool
text_lt s [] = false
text_lt [] (_ ∷ _) = true
text_lt (c ∷ s) (d ∷ t) = ltb c d || (c == d && text_lt s t)

-- `sorted(d)`
unfoldable pub sorted_keys : {A : Type 0} → Dict A → List Text
unfolding sort_by text_lt
sorted_keys d = sort_by text_lt (keys d)

-- Whether the arm's first row is of EEVDF with a flat EPP.
unfoldable pub is_flat_eevdf : {F : Type 0} → List (Row F) → Bool
is_flat_eevdf [] = false
is_flat_eevdf (r ∷ _) = equals_text r.sched (codes "eevdf") && equals_text r.epp_mode (codes "flat")

abbrev lower : ℕ → ℕ
lower c = if not (ltb c b'A') && not (ltb b'Z' c) then c + 32 else c

-- `a.lower() == "control"`, for ASCII letters
unfoldable pub is_named_control : Text → Bool
is_named_control a = text_eq (map lower a) (codes "control")

unfoldable pub first_where : (Text → Bool) → List Text → Option Text
first_where p [] = none
first_where p (a ∷ named) = if p a then some a else first_where p named

abbrev pub first_of : List Text → Option Text
first_of [] = none
first_of (a ∷ _) = some a

module _ {F : Type 0} (ops : Floats F) where
  abbrev pub Arms : Type 0
  Arms = Dict (List (Row F))

  abbrev rep_or_zero : Option F → F
  rep_or_zero none = ops.of_ℕ 0
  rep_or_zero (some x) = x

  -- The order of the keys `(rep or 0, timestamp or "", file)`.
  unfoldable pub row_before : Row F → Row F → Bool
  unfolding text_lt
  row_before a b =
      let ra = rep_or_zero a.rep in
      let rb = rep_or_zero b.rep in
      if ops.eq ra rb
      then (if text_eq a.timestamp b.timestamp
          then text_lt a.file b.file
          else text_lt a.timestamp b.timestamp)
      else ops.lt ra rb

  unfoldable pub add_row : Row F → Dict Arms → Dict Arms
  unfolding change
  add_row r exps = change r.experiment [] (change r.arm [] (λ rs. rs ++ r ∷ [])) exps

  unfoldable pub add_rows : List (Row F) → Dict Arms → Dict Arms
  unfolding add_row
  add_rows [] exps = exps
  add_rows (r ∷ rows) exps = add_rows rows (add_row r exps)

  unfoldable pub group_runs : List (Row F) → Dict Arms
  unfolding add_rows map_values sort_by row_before
  group_runs rows = map_values (map_values (sort_by row_before)) (add_rows rows [])

  unfoldable pub pick_control : Arms → Option Text
  unfolding sorted_keys first_where get_or is_flat_eevdf is_named_control
  pick_control arms =
      let named = sorted_keys arms in
      elim (first_where (λ a. is_flat_eevdf (get_or a [] arms)) named) [
        | some a ↦ some a
        | none ↦ elim (first_where is_named_control named) [
          | some a ↦ some a
          | none ↦ first_of named
        ]
      ]

  unfoldable pub values : List (Row F) → Column → List F
  unfolding clean
  values rows column = clean ops (map (λ (r : Row F). r.cell column) rows)
