-- ===== src/Rail/Linear.antt =====
-- `_solve_linear` of sim/rail_model.py. A row of its `M` is kept from the current column on, since the
-- entries before that one are not read again.
pub mod Solves
use fake_big_little.Prelude.{ℕ, zero, suc, Bool, Option, none, some, if◌then◌else◌}
use fake_big_little.Analyze.Floats.{abs, Floats}

infixr 67 ◌∷◌
pub data Vec (A : Type 0) : ℕ → Type 0 where
  [] : Vec A zero
  ◌∷◌ : {n : ℕ} → A → Vec A n → Vec A (suc n)

unfoldable pub map : {A B : Type 0} {n : ℕ} → (A → B) → Vec A n → Vec B n
map f [] = []
map f (x ∷ xs) = f x ∷ map f xs

-- The three unknowns of the calibration.
abbrev pub triple : {A : Type 0} → A → A → A → Vec A 3
triple a b c = a ∷ b ∷ c ∷ []

abbrev pub entries : {A : Type 0} → Vec A 3 → A × (A × A)
entries (a ∷ b ∷ c ∷ []) = (a, (b, c))

-- `list(A[i]) + [b[i]]`
abbrev pub Equation : Type 0 → ℕ → Type 0
Equation F n = Vec F n × F

-- `M[col], M[piv] = M[piv], M[col]`, where the row `piv` is so many rows below `col`
unfoldable pub swap_rows : {A : Type 0} {n : ℕ} → ℕ → A → Vec A n → A × Vec A n
swap_rows k first [] = (first, [])
swap_rows zero first (row ∷ rows) = (first, row ∷ rows)
swap_rows (suc zero) first (row ∷ rows) = (row, first ∷ rows)
swap_rows (suc (suc k)) first (row ∷ rows) =
    let swapped = swap_rows (suc k) first rows in (swapped.0, row ∷ swapped.1)

module _ {F : Type 0} (ops : Floats F) where
  unfoldable pub lead : {n : ℕ} → Equation F (suc n) → F
  lead (a ∷ _, _) = a

  -- The key function of `max`, over the rows below; `at` is the row that is largest so far.
  unfoldable pub largest_row : {n m : ℕ} → F → ℕ → ℕ → Vec (Equation F (suc n)) m → ℕ
  unfolding abs lead
  largest_row best at i [] = at
  largest_row best at i (row ∷ rows) =
      let size = abs ops (lead row) in
      let larger = ops.lt best size in
      largest_row (if larger then size else best) (if larger then i else at) (suc i) rows

  -- `M[r][c] -= fac * M[col][c]`
  unfoldable pub subtract_row : {n : ℕ} → F → Vec F n → Vec F n → Vec F n
  subtract_row fac [] [] = []
  subtract_row fac (p ∷ ps) (a ∷ row) = ops.sub a (ops.mul fac p) ∷ subtract_row fac ps row

  -- The body of the loop over the rows below the pivot row.
  unfoldable pub eliminate_row : {n : ℕ} → Equation F (suc n) → Equation F (suc n) → Equation F n
  unfolding subtract_row
  eliminate_row (pv ∷ ps, pb) (a ∷ row, b) =
      let fac = ops.div a pv in
      let untouched = ops.eq fac (ops.of_ℕ 0) in
      if untouched then (row, b) else (subtract_row fac ps row, ops.sub b (ops.mul fac pb))

  -- `sum(M[r][c] * x[c] for c in …)`, with what is summed so far
  unfoldable pub dot_from : {n : ℕ} → F → Vec F n → Vec F n → F
  dot_from s [] [] = s
  dot_from s (a ∷ row) (x ∷ xs) = dot_from (ops.add s (ops.mul a x)) row xs

  unfoldable pub dot : {n : ℕ} → Vec F n → Vec F n → F
  unfolding dot_from
  dot row xs = dot_from (ops.of_ℕ 0) row xs

  -- The body of the loop of the back substitution.
  unfoldable pub back_substitute : {n : ℕ} → Equation F (suc n) → Vec F n → Vec F (suc n)
  unfolding dot
  back_substitute (pv ∷ ps, pb) xs = ops.div (ops.sub pb (dot ps xs)) pv ∷ xs

  -- A round of the loop over the columns, the rounds after it, and the row's part of the back
  -- substitution; `M[piv][col]` below 1e-14 makes the system singular.
  unfoldable pub solve_linear : (n : ℕ) → Vec (Equation F n) n → Option (Vec F n)
  unfolding map swap_rows abs lead largest_row eliminate_row back_substitute
  solve_linear zero [] = some []
  solve_linear (suc n) (first ∷ rows) =
      let (pivot, others) = swap_rows (largest_row (abs ops (lead first)) 0 1 rows) first rows in
      let below = solve_linear n (map (eliminate_row pivot) others) in
      if ops.lt (abs ops (lead pivot)) (ops.ratio 1 100000000000000)
      then none
      else elim below [ none ↦ none | some xs ↦ some (back_substitute pivot xs) ]
