-- ===== src/Analyze/Rows/Arrays.antt =====
-- `_arr` of scripts/analyze.py: every per-CPU list has a place for each CPU.
use fake_big_little.Prelude.{
  ℕ, zero, suc, ◌-◌, ◌≤◌, ◌≡◌, Option, none, some, List, [], ◌∷◌, ◌++◌, arith, map, length, take,
  replicate, length-append, length-replicate, length-map,
}
use fake_big_little.Prelude.Texts.{Text}
use fake_big_little.Json.{Value, Fields, get}
use fake_big_little.Analyze.Floats.{Floats, num}
use fake_big_little.Analyze.Rows.{n_cpus, list_of}
use fake_big_little.Analyze.Rows.Flatten.{arr_at}

length-take_at_most : {A : Type 0} (n : ℕ) (xs : List A) → length (take n xs) ≤ n
length-take_at_most zero xs = omega arith
length-take_at_most (suc n) [] = omega arith
length-take_at_most (suc n) (x ∷ xs) = omega (arith, length-take_at_most n xs)

module _ {F : Type 0} (ops : Floats F) where
  filled : (n : ℕ) → length (replicate {A = Option F} n none) ≡ n
  filled n = length-replicate n _

  padded :
      (n : ℕ) (out : List (Option F))
      → length out ≤ n
      → length (out ++ replicate (n - length out) none) ≡ n
  padded n out h =
      omega (arith, length-append out (replicate (n - length out) none), filled (n - length out))

  -- A per-CPU list has eight places, whatever the run holds under its key: longer lists are cut, and
  -- shorter ones and other values are filled up.
  pub length-arr_at : (key : Text) (d : Fields) → length (arr_at ops key d) ≡ n_cpus
  unfolding arr_at
  length-arr_at key d = on_list (list_of (get key d))
    where
      on_list :
          (v : Option (List Value))
          → length (elim v as (λ _. List (Option F)) [
            | none ↦ replicate n_cpus none
            | some vs ↦
                let out = map (λ x. num ops (some x)) (take n_cpus vs) in
                out ++ replicate (n_cpus - length out) none
          ])
            ≡ n_cpus
      on_list none = filled n_cpus
      on_list (some vs) = padded n_cpus (map (λ x. num ops (some x)) (take n_cpus vs)) (
          omega (
            arith,
            length-map (λ x. num ops (some x)) (take n_cpus vs),
            length-take_at_most n_cpus vs,
          ))
