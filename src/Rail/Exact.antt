-- ===== src/Rail/Exact.antt =====
-- The laws of exact arithmetic, under which sim/rail_model.py is judged: those of a commutative ring,
-- with a division by what `_solve_linear` takes for a pivot.
use fake_big_little.Prelude.{◌≡◌, sym, ap, ◌∙◌, true, false}
use fake_big_little.Analyze.Floats.{abs, Floats}

pub record Exact {F : Type 0} (ops : Floats F) : Type 0 where
  pub add_assoc : (x y z : F) → ops.add (ops.add x y) z ≡ ops.add x (ops.add y z)
  pub add_comm : (x y : F) → ops.add x y ≡ ops.add y x
  pub zero_add : (x : F) → ops.add (ops.of_ℕ 0) x ≡ x
  pub sub_add : (x y : F) → ops.add (ops.sub x y) y ≡ x
  pub mul_assoc : (x y z : F) → ops.mul (ops.mul x y) z ≡ ops.mul x (ops.mul y z)
  pub mul_comm : (x y : F) → ops.mul x y ≡ ops.mul y x
  pub mul_add : (x y z : F) → ops.mul x (ops.add y z) ≡ ops.add (ops.mul x y) (ops.mul x z)
  pub mul_one : (x : F) → ops.mul x (ops.of_ℕ 1) ≡ x
  pub div_mul :
      (x y : F)
      → ops.lt (abs ops y) (ops.ratio 1 100000000000000) ≡ false
      → ops.mul (ops.div x y) y ≡ x
  pub eq_sound : (x y : F) → ops.eq x y ≡ true → x ≡ y

module _ {F : Type 0} (ops : Floats F) (law : Exact ops) where
  -- A step in one operand.
  pub left : {x y z : F} → x ≡ y → ops.add x z ≡ ops.add y z
  left {z} e = ap (λ w. ops.add w z) e

  pub right : {x y z : F} → x ≡ y → ops.add z x ≡ ops.add z y
  right {z} e = ap (ops.add z) e

  pub add_zero : (x : F) → ops.add x (ops.of_ℕ 0) ≡ x
  add_zero x = law.add_comm x _ ∙ law.zero_add x

  pub add_swap :
      (a b c d : F) → ops.add (ops.add a b) (ops.add c d) ≡ ops.add (ops.add a c) (ops.add b d)
  add_swap a b c d =
      law.add_assoc a b _
      ∙ ap (ops.add a) (
          sym (law.add_assoc b c d)
          ∙ ap (λ x. ops.add x d) (law.add_comm b c)
          ∙ law.add_assoc c b d)
      ∙ sym (law.add_assoc a c _)

  pub add_mul : (x y z : F) → ops.mul (ops.add x y) z ≡ ops.add (ops.mul x z) (ops.mul y z)
  add_mul x y z = law.mul_comm _ z ∙ law.mul_add z x y ∙ rw (law.mul_comm z x, law.mul_comm z y)

  -- What is added twice can be taken off.
  add_cancel : (a c : F) → ops.add (ops.add a c) (ops.sub (ops.of_ℕ 0) c) ≡ a
  add_cancel a c =
      law.add_assoc a c _ ∙ ap (ops.add a) (law.add_comm c _ ∙ law.sub_add _ c) ∙ add_zero a

  pub zero_of_double : (a : F) → ops.add a a ≡ a → a ≡ ops.of_ℕ 0
  zero_of_double a h =
      sym (add_cancel a a)
      ∙ ap (λ x. ops.add x (ops.sub (ops.of_ℕ 0) a)) h
      ∙ law.add_comm a _
      ∙ law.sub_add _ a

  pub mul_zero : (x : F) → ops.mul x (ops.of_ℕ 0) ≡ ops.of_ℕ 0
  mul_zero x =
      zero_of_double _ (sym (law.mul_add x _ _) ∙ ap (ops.mul x) (law.zero_add (ops.of_ℕ 0)))

  pub zero_mul : (x : F) → ops.mul (ops.of_ℕ 0) x ≡ ops.of_ℕ 0
  zero_mul x = law.mul_comm _ x ∙ mul_zero x

  pub sub_unique : (a x y : F) → ops.add a y ≡ x → a ≡ ops.sub x y
  sub_unique a x y e =
      sym (add_cancel a y) ∙ left (e ∙ sym (law.sub_add x y)) ∙ add_cancel (ops.sub x y) y
