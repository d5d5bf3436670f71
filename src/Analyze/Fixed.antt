-- ===== src/Analyze/Fixed.antt =====
-- Thousandths as a stand-in for the doubles of scripts/analyze.py, to run the model with.
use fake_big_little.Prelude.{ℕ, ◌+◌, ◌*◌, ◌/◌, true, Option, none}
use fake_big_little.Prelude.Int.{ℤ, pos, negsuc, pos_part, neg_part, ltb_ℤ, leb_ℤ, eqb_ℤ, sub_ℕ}
use fake_big_little.Prelude.Texts.{Text}
use fake_big_little.Analyze.Floats.{Floats}

-- The quotient of two sizes with the sign of the first.
abbrev divide_by : ℤ → ℕ → ℤ
divide_by (pos a) n = pos (a / n)
divide_by (negsuc a) n = sub_ℕ 0 ((a + 1) / n)

abbrev times : ℤ → ℤ → ℤ
times (pos a) (pos b) = pos (a * b / 1000)
times (pos a) (negsuc b) = sub_ℕ 0 (a * (b + 1) / 1000)
times (negsuc a) (pos b) = sub_ℕ 0 ((a + 1) * b / 1000)
times (negsuc a) (negsuc b) = pos ((a + 1) * (b + 1) / 1000)

abbrev over : ℤ → ℤ → ℤ
over (pos a) (pos b) = pos (a * 1000 / b)
over (pos a) (negsuc b) = sub_ℕ 0 (a * 1000 / (b + 1))
over (negsuc a) (pos b) = sub_ℕ 0 ((a + 1) * 1000 / b)
over (negsuc a) (negsuc b) = pos ((a + 1) * 1000 / (b + 1))

-- With what a text reads as, and what a literal is.
abbrev pub fixed_with : (Text → Option ℤ) → (ℕ → ℕ → ℤ) → Floats ℤ
fixed_with of_text ratio = record {
  of_ℕ = λ n. pos (1000 * n);
  of_ℤ = λ n. sub_ℕ (1000 * pos_part n) (1000 * neg_part n);
  of_text = of_text;
  ratio = ratio;
  neg = λ x. sub_ℕ (neg_part x) (pos_part x);
  add = λ x y. sub_ℕ (pos_part x + pos_part y) (neg_part x + neg_part y);
  sub = λ x y. sub_ℕ (pos_part x + neg_part y) (neg_part x + pos_part y);
  mul = times;
  div = over;
  sqrt = λ x. x;
  lt = ltb_ℤ;
  le = leb_ℤ;
  eq = eqb_ℤ;
  is_finite = λ _. true;
  trunc = λ x. divide_by x 1000;
}

abbrev pub fixed : Floats ℤ
fixed = fixed_with (λ _. none) (λ m n. pos (1000 * m / n))
