-- ===== src/Rail/Partition/Best.antt =====
-- `best_of` in `experiment_b` of sim/rail_model.py: the row that it takes.
use fake_big_little.Prelude.{
  ◌≡◌, refl, sym, ◌∙◌, inl, inr, Bool, true, false, not, ◌&&◌, ◌||◌, Option, none, some, List, [],
  ◌∷◌, All, IsIn, IsIn-keep, All-of_keep, any_of_keep, any_of_kept, All-weaken, keep, any,
  if◌then◌else◌, arith,
}
use mathlib.Core.Path.{subst}
use fake_big_little.Analyze.Floats.{Floats}
use fake_big_little.Rail.Partition.{PartitionRow, least_by, feasible_rows, candidates, best_of}

module _ {F : Type 0} (ops : Floats F) where
  abbrev in_time : PartitionRow F → Bool
  in_time r = r.finished_in_horizon

  abbrev energy : PartitionRow F → F
  energy r = r.energy_j

  -- A row that may be taken: one in time, or any if none is.
  abbrev pub may_be_best : List (PartitionRow F) → PartitionRow F → Bool
  may_be_best rows r = in_time r || not (any in_time rows)

  -- The row is taken from the rows, may be, and none that may be has less energy.
  abbrev pub Best : List (PartitionRow F) → PartitionRow F → Type 0
  Best rows b =
      IsIn b rows
      × ((may_be_best rows b ≡ true)
          × All
              (λ (r : PartitionRow F). (may_be_best rows r && ops.lt (energy r) (energy b)) ≡ false)
              rows)

module _ {F : Type 0} (ops : Floats F) (asym : (x y : F) → ops.lt x y ≡ true → ops.lt y x ≡ false)
    (trans : (x y z : F) → ops.lt x y ≡ false → ops.lt y z ≡ false → ops.lt x z ≡ false) where
  irrefl : (x : F) → ops.lt x x ≡ false
  irrefl x = split (ops.lt x x) refl
    where
      split : (b : Bool) → ops.lt x x ≡ b → ops.lt x x ≡ false
      split true e = asym x x e
      split false e = e

  -- The item found is one of them, and none has a smaller key.
  pub least_by-Least :
      {A : Type 0} (key : A → F) (best : A) (xs : List A)
      → let b = least_by ops key best xs in
        IsIn b (best ∷ xs) × All (λ x. ops.lt (key x) (key b) ≡ false) (best ∷ xs)
  unfolding least_by
  least_by-Least key best [] = (inl refl, (irrefl (key best), tt))
  least_by-Least {A} key best (x ∷ xs) =
      split (ops.lt (key x) (key best)) refl
        (least_by-Least key (if ops.lt (key x) (key best) then x else best) xs)
    where
      split :
          (c : Bool)
          → ops.lt (key x) (key best) ≡ c
          → (let b = least_by ops key (if c then x else best) xs in
              IsIn b ((if c then x else best) ∷ xs)
              × All (λ z. ops.lt (key z) (key b) ≡ false) ((if c then x else best) ∷ xs))
          → let b = least_by ops key (if c then x else best) xs in
            IsIn b (best ∷ x ∷ xs) × All (λ z. ops.lt (key z) (key b) ≡ false) (best ∷ x ∷ xs)
      split true e (i, (h, hs)) = (inr i, (trans _ _ _ (asym _ _ e) h, (h, hs)))
      split false e (inl i, (h, hs)) = (inl i, (h, (trans _ _ _ e h, hs)))
      split false e (inr i, (h, hs)) = (inr (inr i), (h, (trans _ _ _ e h, hs)))

  Best-any :
      (b : PartitionRow F) (rows : List (PartitionRow F))
      → any (in_time ops) rows ≡ false
      → IsIn b rows
      → All (λ r. ops.lt (energy ops r) (energy ops b) ≡ false) rows
      → Best ops rows b
  Best-any b rows e i h = (
    i,
    (
      ground arith,
      All-weaken (λ r. ops.lt (energy ops r) (energy ops b) ≡ false)
          (λ r. (may_be_best ops rows r && ops.lt (energy ops r) (energy ops b)) ≡ false)
          (λ r k. ground arith) rows h,
    ),
  )

  Best-in_time :
      (b : PartitionRow F) (rows : List (PartitionRow F))
      → any (in_time ops) rows ≡ true
      → IsIn b (keep (in_time ops) rows)
      → All (λ r. ops.lt (energy ops r) (energy ops b) ≡ false) (keep (in_time ops) rows)
      → Best ops rows b
  Best-in_time b rows e i h =
      let (j, k) = IsIn-keep (in_time ops) b rows i in
      (
        j,
        (
          ground arith,
          All-of_keep (λ r. ops.lt (energy ops r) (energy ops b) ≡ false) (in_time ops)
              (λ r. (may_be_best ops rows r && ops.lt (energy ops r) (energy ops b)) ≡ false)
              (λ r t l. ground arith) (λ r t. ground arith) rows h,
        ),
      )

  best_by : List (PartitionRow F) → List (PartitionRow F) → Option (PartitionRow F)
  best_by rows feasible =
      let chosen : List (PartitionRow F) = elim feasible [ [] ↦ rows | r ∷ rs ↦ r ∷ rs ] in
      elim chosen [ [] ↦ none | r ∷ rs ↦ some (least_by ops (energy ops) r rs) ]

  best_of_lem :
      (rows : List (PartitionRow F)) → best_of ops rows ≡ best_by rows (keep (in_time ops) rows)
  unfolding best_of candidates feasible_rows best_by
  best_of_lem rows = refl

  best_by-Best :
      (row : PartitionRow F) (rows feasible : List (PartitionRow F))
      → keep (in_time ops) (row ∷ rows) ≡ feasible
      → (b : PartitionRow F) × ((best_by (row ∷ rows) feasible ≡ some b) × Best ops (row ∷ rows) b)
  unfolding best_by
  best_by-Best row rows [] e =
      let (i, h) = least_by-Least (energy ops) row rows in
      (
        least_by ops (energy ops) row rows,
        (refl, Best-any _ (row ∷ rows) (any_of_keep (in_time ops) (row ∷ rows) e) i h),
      )
  best_by-Best row rows (r ∷ rs) e =
      let b = least_by ops (energy ops) r rs in
      let (i, h) = least_by-Least (energy ops) r rs in
      (
        b,
        (
          refl,
          Best-in_time b (row ∷ rows) (any_of_kept (in_time ops) (row ∷ rows) r rs e)
              (subst (IsIn b) (sym e) i)
              (subst (All (λ z. ops.lt (energy ops z) (energy ops b) ≡ false)) (sym e) h),
        ),
      )

  -- Of at least one row the best is found: one of them that is in time, or any if none is, and none of
  -- those has less energy, for an order that is asymmetric and whose negation is transitive.
  pub best_of-Best :
      (row : PartitionRow F) (rows : List (PartitionRow F))
      → (b : PartitionRow F) × ((best_of ops (row ∷ rows) ≡ some b) × Best ops (row ∷ rows) b)
  best_of-Best row rows =
      let (b, (e, h)) = best_by-Best row rows (keep (in_time ops) (row ∷ rows)) refl in
      (b, (best_of_lem (row ∷ rows) ∙ e, h))
