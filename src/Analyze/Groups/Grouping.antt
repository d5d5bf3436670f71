-- ===== src/Analyze/Groups/Grouping.antt =====
-- `group_runs` of scripts/analyze.py: which rows a group holds.
use fake_big_little.Prelude.{
  ◌≡◌, refl, sym, ◌∙◌, ap, inl, inr, Bool, true, false, ◌&&◌, List, [], ◌∷◌, ◌++◌, arith,
  if◌then◌else◌, keep, Bool-cases, append_assoc, append-nil,
}
use mathlib.Core.Path.{subst}
use fake_big_little.Prelude.Texts.{Text, text_eq, text_eq_self, eq_of_text_eq}
use fake_big_little.Analyze.Floats.{Floats, sort_by}
use fake_big_little.Analyze.Rows.{Row}
use fake_big_little.Analyze.Groups.{
  Dict, Arms, change, get_or, map_values, add_row, add_rows, group_runs, row_before,
}

module _ {A : Type 0} (new : A) (f : A → A) where
  get_or_changed : (k : Text) (d : Dict A) → get_or k new (change k new f d) ≡ f (get_or k new d)
  unfolding get_or change
  get_or_changed k [] = rw text_eq_self refl
  get_or_changed k ((j, a) ∷ d) = elim (Bool-cases (text_eq k j)) [
    | inl e ↦ ground arith
    | inr e ↦ ground (arith, get_or_changed k d)
  ]

  get_or_unchanged :
      (k key : Text) (d : Dict A)
      → text_eq k key ≡ false
      → get_or k new (change key new f d) ≡ get_or k new d
  unfolding get_or change
  get_or_unchanged k key [] h = ground arith
  get_or_unchanged k key ((j, a) ∷ d) h = elim (Bool-cases (text_eq key j)) [
    | inl e ↦
        let off : text_eq k j ≡ false =
          subst (λ t. text_eq k t ≡ false) (eq_of_text_eq key j e) h in
        ground arith
    | inr e ↦ ground (arith, get_or_unchanged k key d h)
  ]

get_or-change :
    {A : Type 0} (new : A) (f : A → A) (k key : Text) (d : Dict A)
    → get_or k new (change key new f d)
      ≡ (if text_eq k key then f (get_or k new d) else get_or k new d)
get_or-change new f k key d = elim (Bool-cases (text_eq k key)) [
  | inr e ↦ rw e (get_or_unchanged new f k key d e)
  | inl e ↦ rw e (
      subst (λ (t : Text). get_or k new (change t new f d) ≡ f (get_or k new d))
        (eq_of_text_eq k key e) (get_or_changed new f k d))
]

get_or-map_values :
    {A B : Type 0} (f : A → B) (k : Text) (default : A) (d : Dict A)
    → get_or k (f default) (map_values f d) ≡ f (get_or k default d)
unfolding get_or map_values
get_or-map_values f k default [] = refl
get_or-map_values f k default ((j, a) ∷ d) = ground (arith, get_or-map_values f k default d)

module _ {F : Type 0} (ops : Floats F) (exp arm : Text) where
  -- The rows of the arm in the experiment, in the order in which they were read.
  abbrev pub belongs : Row F → Bool
  belongs r = text_eq exp r.experiment && text_eq arm r.arm

  abbrev group : Dict (Arms ops) → List (Row F)
  group exps = get_or arm [] (get_or exp [] exps)

  group-add_row :
      (r : Row F) (exps : Dict (Arms ops))
      → group (add_row ops r exps) ≡ group exps ++ keep belongs (r ∷ [])
  unfolding add_row
  group-add_row r exps =
      rw (get_or-change [] (change r.arm [] (λ rs. rs ++ r ∷ [])) exp r.experiment exps)
        (added (text_eq exp r.experiment))
    where
      added :
          (b : Bool)
          → get_or arm [] (
              if b
              then change r.arm [] (λ rs. rs ++ r ∷ []) (get_or exp [] exps)
              else get_or exp [] exps)
            ≡ group exps ++ (if b && text_eq arm r.arm then r ∷ [] else [])
      added false = sym (append-nil _)
      added true =
          rw (get_or-change [] (λ rs. rs ++ r ∷ []) arm r.arm (get_or exp [] exps))
            (in_arm (text_eq arm r.arm))
        where
          in_arm :
              (b : Bool)
              → (if b then group exps ++ r ∷ [] else group exps)
                ≡ group exps ++ (if b then r ∷ [] else [])
          in_arm false = sym (append-nil _)
          in_arm true = refl

  group-add_rows :
      (rows : List (Row F)) (exps : Dict (Arms ops))
      → group (add_rows ops rows exps) ≡ group exps ++ keep belongs rows
  unfolding add_rows
  group-add_rows [] exps = sym (append-nil _)
  group-add_rows (r ∷ rows) exps =
      group-add_rows rows (add_row ops r exps)
      ∙ ap (λ g. g ++ keep belongs rows) (group-add_row r exps)
      ∙ append_assoc (group exps) (keep belongs (r ∷ [])) (keep belongs rows)
      ∙ ap (λ g. group exps ++ g) (kept (belongs r))
    where
      kept :
          (b : Bool)
          → (if b then r ∷ [] else []) ++ keep belongs rows
            ≡ (if b then r ∷ keep belongs rows else keep belongs rows)
      kept true = refl
      kept false = refl

-- The group of an arm of an experiment holds just the rows with those two names, sorted by
-- repetition, time and file.
pub group_runs_by_name :
    {F : Type 0} (ops : Floats F) (rows : List (Row F)) (exp arm : Text)
    → get_or arm [] (get_or exp [] (group_runs ops rows))
      ≡ sort_by (row_before ops) (keep (λ r. text_eq exp r.experiment && text_eq arm r.arm) rows)
unfolding group_runs get_or
group_runs_by_name ops rows exp arm =
    let by_arm = map_values (sort_by (row_before ops)) in
    ap (get_or arm []) (get_or-map_values by_arm exp [] (add_rows ops rows []))
    ∙ get_or-map_values (sort_by (row_before ops)) arm [] (get_or exp [] (add_rows ops rows []))
    ∙ ap (sort_by (row_before ops)) (group-add_rows ops exp arm rows [])
