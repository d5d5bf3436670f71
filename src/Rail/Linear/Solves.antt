-- ===== src/Rail/Linear/Solves.antt =====
-- `_solve_linear` of sim/rail_model.py: what it returns solves the system.
use fake_big_little.Prelude.{
  ℕ, zero, suc, ◌≡◌, refl, sym, ap, ◌∙◌, Bool, true, false, Option, none, some, if◌then◌else◌,
}
use mathlib.Core.Path.{subst}
use mathlib.Core.Option.{some-injective}
use fake_big_little.Analyze.Floats.{abs, Floats}
use fake_big_little.Rail.Linear.{
  Vec, [], ◌∷◌, map, Equation, swap_rows, lead, largest_row, subtract_row, eliminate_row, dot_from,
  dot, back_substitute, solve_linear,
}
use fake_big_little.Rail.Exact.{Exact, left, right, add_zero, add_swap, add_mul, mul_zero, zero_mul}

-- A predicate on every row.
abbrev pub Every : {A : Type 0} {n : ℕ} → (A → Type 0) → Vec A n → Type 0
Every P [] = Unit
Every P (x ∷ xs) = P x × Every P xs

Every-swap_rows :
    {A : Type 0} {n : ℕ} (P : A → Type 0) (k : ℕ) (first : A) (rows : Vec A n)
    → P (swap_rows k first rows).0
    → Every P (swap_rows k first rows).1
    → P first × Every P rows
unfolding swap_rows
Every-swap_rows P k first [] p q = (p, q)
Every-swap_rows P zero first (row ∷ rows) p q = (p, q)
Every-swap_rows P (suc zero) first (row ∷ rows) p q = (q.0, (p, q.1))
Every-swap_rows P (suc (suc k)) first (row ∷ rows) p q =
    let r = Every-swap_rows P (suc k) first rows p q.1 in (r.0, (q.0, r.1))

Every-map :
    {A B : Type 0} {n : ℕ} (P : A → Type 0) (Q : B → Type 0) (f : A → B)
    → ((x : A) → Q (f x) → P x)
    → (xs : Vec A n) → Every Q (map f xs)
    → Every P xs
unfolding map
Every-map P Q f back [] q = q
Every-map P Q f back (x ∷ xs) (q, qs) = (back x q, Every-map P Q f back xs qs)

-- The left side of the equation has the value of the right one.
abbrev pub Holds : {F : Type 0} (ops : Floats F) {n : ℕ} → Vec F n → Equation F n → Type 0
Holds ops xs row = dot ops row.0 xs ≡ row.1

module _ {F : Type 0} (ops : Floats F) (law : Exact ops) where
  dot_from_lem :
      {n : ℕ} (s : F) (row xs : Vec F n) → dot_from ops s row xs ≡ ops.add s (dot ops row xs)
  unfolding dot dot_from
  dot_from_lem s [] [] = sym (add_zero ops law s)
  dot_from_lem s (a ∷ row) (x ∷ xs) =
      dot_from_lem (ops.add s (ops.mul a x)) row xs
      ∙ law.add_assoc s (ops.mul a x) (dot ops row xs)
      ∙ ap (ops.add s) (
          sym (
            dot_from_lem (ops.add (ops.of_ℕ 0) (ops.mul a x)) row xs
            ∙ ap (λ z. ops.add z (dot ops row xs)) (law.zero_add _)))

  dot-cons :
      {n : ℕ} (a x : F) (row xs : Vec F n)
      → dot ops (a ∷ row) (x ∷ xs) ≡ ops.add (ops.mul a x) (dot ops row xs)
  unfolding dot dot_from
  dot-cons a x row xs =
      dot_from_lem (ops.add (ops.of_ℕ 0) (ops.mul a x)) row xs
      ∙ ap (λ z. ops.add z (dot ops row xs)) (law.zero_add _)

  -- The coefficient and the part of the pivot row that was taken off it.
  mul_back :
      (fac p a x : F)
      → ops.add (ops.mul (ops.sub a (ops.mul fac p)) x) (ops.mul fac (ops.mul p x)) ≡ ops.mul a x
  mul_back fac p a x =
      right ops law (sym (law.mul_assoc fac p x))
      ∙ sym (add_mul ops law (ops.sub a (ops.mul fac p)) (ops.mul fac p) x)
      ∙ ap (λ z. ops.mul z x) (law.sub_add a (ops.mul fac p))

  dot_nothing :
      (fac : F)
      → ops.add (dot ops {n = 0} [] []) (ops.mul fac (dot ops {n = 0} [] []))
        ≡ dot ops {n = 0} [] []
  unfolding dot dot_from
  dot_nothing fac = law.zero_add _ ∙ mul_zero ops law fac

  dot-subtract_row :
      {n : ℕ} (fac : F) (ps row xs : Vec F n)
      → ops.add (dot ops (subtract_row ops fac ps row) xs) (ops.mul fac (dot ops ps xs))
        ≡ dot ops row xs
  unfolding subtract_row
  dot-subtract_row fac [] [] [] = dot_nothing fac
  dot-subtract_row fac (p ∷ ps) (a ∷ row) (x ∷ xs) =
      let rest = subtract_row ops fac ps row in
      left ops law (dot-cons (ops.sub a (ops.mul fac p)) x rest xs)
      ∙ right ops law (ap (ops.mul fac) (dot-cons p x ps xs) ∙ law.mul_add fac _ _)
      ∙ add_swap ops law (ops.mul (ops.sub a (ops.mul fac p)) x) (dot ops rest xs)
          (ops.mul fac (ops.mul p x)) (ops.mul fac (dot ops ps xs))
      ∙ left ops law (mul_back fac p a x)
      ∙ right ops law (dot-subtract_row fac ps row xs)
      ∙ sym (dot-cons a x row xs)

  -- A row holds when the reduced one and the pivot row do: first with nothing to take off.
  row_untouched :
      {n : ℕ} (fac pv a x b : F) (row xs : Vec F n)
      → ops.mul fac pv ≡ a
      → fac ≡ ops.of_ℕ 0
      → dot ops row xs ≡ b
      → dot ops (a ∷ row) (x ∷ xs) ≡ b
  row_untouched fac pv a x b row xs e z h =
      dot-cons a x row xs
      ∙ left ops law (
          ap (λ y. ops.mul y x) (sym e ∙ ap (λ y. ops.mul y pv) z ∙ zero_mul ops law pv)
          ∙ zero_mul ops law x)
      ∙ law.zero_add _
      ∙ h

  row_reduced :
      {n : ℕ} (fac pv a x b pb : F) (ps row xs : Vec F n)
      → ops.mul fac pv ≡ a
      → dot ops (pv ∷ ps) (x ∷ xs) ≡ pb
      → dot ops (subtract_row ops fac ps row) xs ≡ ops.sub b (ops.mul fac pb)
      → dot ops (a ∷ row) (x ∷ xs) ≡ b
  row_reduced fac pv a x b pb ps row xs e p h =
      dot-cons a x row xs
      ∙ left ops law (ap (λ y. ops.mul y x) (sym e) ∙ law.mul_assoc fac pv x)
      ∙ right ops law (sym (dot-subtract_row fac ps row xs) ∙ law.add_comm _ _)
      ∙ sym (law.add_assoc _ _ _)
      ∙ left ops law (
          sym (law.mul_add fac (ops.mul pv x) (dot ops ps xs))
          ∙ ap (ops.mul fac) (sym (dot-cons pv x ps xs) ∙ p))
      ∙ law.add_comm _ _
      ∙ left ops law h
      ∙ law.sub_add b (ops.mul fac pb)

  abbrev Nonzero : F → Type 0
  Nonzero y = ops.lt (abs ops y) (ops.ratio 1 100000000000000) ≡ false

  Holds-eliminate_row :
      {n : ℕ} (pivot row : Equation F (suc n)) (x : F) (xs : Vec F n)
      → Nonzero (lead ops pivot)
      → Holds ops (x ∷ xs) pivot
      → Holds ops xs (eliminate_row ops pivot row)
      → Holds ops (x ∷ xs) row
  unfolding eliminate_row lead
  Holds-eliminate_row (pv ∷ ps, pb) (a ∷ row, b) x xs nonzero p h =
      split (ops.eq (ops.div a pv) (ops.of_ℕ 0)) refl h
    where
      fac : F
      fac = ops.div a pv

      split :
          (untouched : Bool)
          → ops.eq fac (ops.of_ℕ 0) ≡ untouched
          → Holds ops xs (
              if untouched
              then (row, b)
              else (subtract_row ops fac ps row, ops.sub b (ops.mul fac pb)))
          → dot ops (a ∷ row) (x ∷ xs) ≡ b
      split true e h =
          row_untouched fac pv a x b row xs (law.div_mul a pv nonzero) (law.eq_sound _ _ e) h
      split false e h = row_reduced fac pv a x b pb ps row xs (law.div_mul a pv nonzero) p h

  Holds-back_substitute :
      {n : ℕ} (pivot : Equation F (suc n)) (xs : Vec F n)
      → Nonzero (lead ops pivot)
      → Holds ops (back_substitute ops pivot xs) pivot
  unfolding back_substitute lead
  Holds-back_substitute (pv ∷ ps, pb) xs nonzero =
      dot-cons pv (ops.div (ops.sub pb (dot ops ps xs)) pv) ps xs
      ∙ left ops law (law.mul_comm pv _ ∙ law.div_mul _ pv nonzero)
      ∙ law.sub_add pb (dot ops ps xs)

  Every-back_substitute :
      {n m : ℕ} (pivot : Equation F (suc n)) (others : Vec (Equation F (suc n)) m) (ys : Vec F n)
      → Nonzero (lead ops pivot)
      → Every (Holds ops ys) (map (eliminate_row ops pivot) others)
      → let zs = back_substitute ops pivot ys in Holds ops zs pivot × Every (Holds ops zs) others
  unfolding back_substitute
  Every-back_substitute {n} (pv ∷ ps, pb) others ys nonzero h =
      let pivot : Equation F (suc n) = (pv ∷ ps, pb) in
      let x = ops.div (ops.sub pb (dot ops ps ys)) pv in
      let p : Holds ops (x ∷ ys) pivot = Holds-back_substitute pivot ys nonzero in
      (
        p,
        Every-map (Holds ops (x ∷ ys)) (Holds ops ys) (eliminate_row ops pivot)
            (λ row q. Holds-eliminate_row pivot row x ys nonzero p q) others h,
      )

  column_solves :
      {n m : ℕ} (pivot : Equation F (suc n)) (others : Vec (Equation F (suc n)) m) (singular : Bool)
      (below : Option (Vec F n)) (xs : Vec F (suc n))
      → ops.lt (abs ops (lead ops pivot)) (ops.ratio 1 100000000000000) ≡ singular
      → ((ys : Vec F n)
          → below ≡ some ys
          → Every (Holds ops ys) (map (eliminate_row ops pivot) others))
      → (if singular
          then none
          else elim below [ none ↦ none | some ys ↦ some (back_substitute ops pivot ys) ])
        ≡ some xs
      → Holds ops xs pivot × Every (Holds ops xs) others
  column_solves pivot others true below xs t inner e = cc
  column_solves pivot others false none xs t inner e = cc
  column_solves pivot others false (some ys) xs t inner e =
      subst (λ zs. Holds ops zs pivot × Every (Holds ops zs) others) (some-injective _ _ e)
        (Every-back_substitute pivot others ys t (inner ys refl))

  -- In exact arithmetic what `_solve_linear` returns is a solution of each of the equations.
  pub solve_linear_solves :
      (n : ℕ) (rows : Vec (Equation F n) n) (xs : Vec F n)
      → solve_linear ops n rows ≡ some xs
      → Every (Holds ops xs) rows
  unfolding solve_linear
  solve_linear_solves zero [] xs e = tt
  solve_linear_solves (suc n) (first ∷ rows) xs e =
      let k = largest_row ops (abs ops (lead ops first)) 0 1 rows in
      let chosen = swap_rows k first rows in
      let reduced = map (eliminate_row ops chosen.0) chosen.1 in
      let r =
        column_solves chosen.0 chosen.1 _ (solve_linear ops n reduced) xs refl
          (solve_linear_solves n reduced) e in
      Every-swap_rows (Holds ops xs) k first rows r.0 r.1
