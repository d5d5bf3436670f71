-- ===== src/Analyze/Groups/Sorted.antt =====
-- `pick_control` of scripts/analyze.py, over the sorted names of the arms.
use fake_big_little.Prelude.{
  ◌≡◌, refl, ◌∙◌, Bool, true, false, ◌||◌, Option, none, some, List, [], ◌∷◌, arith, if◌then◌else◌,
  any,
}
use fake_big_little.Prelude.Texts.{Text}
use fake_big_little.Analyze.Floats.{Floats, sort_by, insert_by}
use fake_big_little.Analyze.Groups.{
  Arms, keys, get_or, text_lt, first_where, sorted_keys, is_flat_eevdf, pick_control,
}

module _ {A : Type 0} (before : A → A → Bool) (p : A → Bool) where
  any-insert_by : (x : A) (xs : List A) → any p (insert_by before x xs) ≡ (p x || any p xs)
  unfolding insert_by
  any-insert_by x [] = refl
  any-insert_by x (y ∷ ys) = ground (arith, any-insert_by x ys)

  -- Sorting keeps the items.
  pub any-sort_by : (xs : List A) → any p (sort_by before xs) ≡ any p xs
  unfolding sort_by
  any-sort_by [] = refl
  any-sort_by (x ∷ xs) = rw (any-insert_by x (sort_by before xs), any-sort_by xs)

abbrev passes : (Text → Bool) → Option Text → Bool
passes p none = false
passes p (some a) = p a

-- The search finds an item that passes, and no other, if there is one.
first_where_passes :
    (p : Text → Bool) (named : List Text) (other : Option Text)
    → any p named ≡ true
    → passes p (elim (first_where p named) [ some a ↦ some a | none ↦ other ]) ≡ true
unfolding first_where
first_where_passes p [] other h = cc
first_where_passes p (a ∷ named) other h = split_on (p a) refl (first_where_passes p named other)
  where
    split_on :
        (b : Bool)
        → p a ≡ b
        → (any p named ≡ true
            → passes p (elim (first_where p named) [ some a ↦ some a | none ↦ other ]) ≡ true)
        → passes p
            (elim (if b then some a else first_where p named) [ some a ↦ some a | none ↦ other ])
          ≡ true
    split_on true e k = e
    split_on false e k = k (ground arith)

-- If some arm is of EEVDF with a flat EPP, the control is such an arm.
pub pick_control_is_flat :
    {F : Type 0} (ops : Floats F) (arms : Arms ops)
    → any (λ a. is_flat_eevdf (get_or a [] arms)) (keys arms) ≡ true
    → elim (pick_control ops arms) [ none ↦ false | some a ↦ is_flat_eevdf (get_or a [] arms) ]
      ≡ true
unfolding pick_control sorted_keys
pick_control_is_flat ops arms h =
    let p = λ (a : Text). is_flat_eevdf (get_or a [] arms) in
    first_where_passes p (sorted_keys arms) _ (any-sort_by text_lt p (keys arms) ∙ h)
