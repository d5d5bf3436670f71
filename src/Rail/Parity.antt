-- ===== src/Rail/Parity.antt =====
-- The field of two elements, an arithmetic in which the laws of Exact hold and the fit of
-- sim/rail_model.py runs. Among the literals only those of a billionth and less are 1.
use fake_big_little.Prelude.{
  ◌≡◌, refl, ◌%◌, Bool, true, false, not, ◌&&◌, ◌||◌, some, ◌==◌, ltb, arith,
}
use fake_big_little.Prelude.Int.{ℤ, pos, negsuc}
use fake_big_little.Prelude.Texts.{codes, text_eq}
use fake_big_little.Analyze.Floats.{abs, Floats}
use fake_big_little.Rail.Exact.{Exact}

abbrev xor : Bool → Bool → Bool
xor true b = not b
xor false b = b

abbrev odd : ℤ → Bool
odd (pos n) = n % 2 == 1
odd (negsuc n) = n % 2 == 0

abbrev pub parity : Floats Bool
parity = record {
  of_ℕ = λ n. n % 2 == 1;
  of_ℤ = odd;
  of_text = λ t. some (text_eq t (codes "1"));
  ratio = λ m n. ltb 1000000 n;
  neg = λ x. x;
  add = xor;
  sub = xor;
  mul = λ x y. x && y;
  div = λ x y. x && y;
  sqrt = λ x. x;
  lt = λ x y. not x && y;
  le = λ x y. not x || y;
  eq = λ x y. not (xor x y);
  is_finite = λ _. true;
  trunc = λ x. pos 0;
}

xor_assoc : (x y z : Bool) → xor (xor x y) z ≡ xor x (xor y z)
xor_assoc true true true = refl
xor_assoc true true false = refl
xor_assoc true false z = refl
xor_assoc false y z = refl

xor_comm : (x y : Bool) → xor x y ≡ xor y x
xor_comm x y = ground arith

xor_back : (x y : Bool) → xor (xor x y) y ≡ x
xor_back x y = ground arith

and_assoc : (x y z : Bool) → ((x && y) && z) ≡ (x && (y && z))
and_assoc x y z = ground arith

and_comm : (x y : Bool) → (x && y) ≡ (y && x)
and_comm x y = ground arith

and_xor : (x y z : Bool) → (x && xor y z) ≡ xor (x && y) (x && z)
and_xor x y z = ground arith

and_one : (x : Bool) → (x && true) ≡ x
and_one x = ground arith

and_div : (x y : Bool) → (not (abs parity y) && true) ≡ false → ((x && y) && y) ≡ x
unfolding abs
and_div x y h = ground arith

same : (x y : Bool) → not (xor x y) ≡ true → x ≡ y
same x y h = ground arith

pub parity-Exact : Exact parity
parity-Exact = record {
  add_assoc = xor_assoc;
  add_comm = xor_comm;
  zero_add = λ x. refl;
  sub_add = xor_back;
  mul_assoc = and_assoc;
  mul_comm = and_comm;
  mul_add = and_xor;
  mul_one = and_one;
  div_mul = and_div;
  eq_sound = same;
}
