-- ===== src/Analyze/Effects.antt =====
-- `permutation_p`, `hedges_g` and `mde` of scripts/analyze.py.
use fake_big_little.Prelude.{
  ℕ, zero, suc, ◌+◌, ◌-◌, ◌||◌, Option, none, some, List, ◌++◌, ltb, if◌then◌else◌, length, take,
  drop,
}
use fake_big_little.Analyze.Floats.{abs, Floats, average, pooled_sd}
use fake_big_little.Analyze.Distributions.{t_ppf}
use fake_big_little.Analyze.Resampling.{Chance, alpha_half}

module _ {F : Type 0} (ops : Floats F) (chance : Chance F) where
  -- The loop of `permutation_p`: each round shuffles what the last (ops.of_ℕ 1) left.
  unfoldable pub count_hits : ℕ → ℕ → F → ℕ → List F → ℕ
  unfolding average abs
  count_hits zero i obs n0 pooled = 0
  count_hits (suc rounds) i obs n0 pooled =
      let shuffled = chance.shuffle i pooled in
      let diff =
        abs ops (ops.sub (average ops (drop n0 shuffled)) (average ops (take n0 shuffled))) in
      let later = count_hits rounds (i + 1) obs n0 shuffled in
      if ops.le (ops.sub obs (ops.ratio 1 1000000000000000)) diff then later + 1 else later

  unfoldable pub permutation_p : List F → List F → Option F
  unfolding count_hits abs average
  permutation_p control arm =
      let obs = abs ops (ops.sub (average ops arm) (average ops control)) in
      let hits = count_hits chance.n_perm 0 obs (length control) (control ++ arm) in
      if ltb (length control) 2 || ltb (length arm) 2
      then none
      else some (
          ops.div (ops.add (ops.of_ℕ 1) (ops.of_ℕ hits))
            (ops.add (ops.of_ℕ chance.n_perm) (ops.of_ℕ 1)))

  unfoldable pub hedges_g : List F → List F → Option F
  unfolding pooled_sd average
  hedges_g control arm = elim (pooled_sd ops control arm) [
    | none ↦ none
    | some sp ↦
        let d = ops.div (ops.sub (average ops arm) (average ops control)) sp in
        let n = ops.of_ℕ (length control + length arm) in
        let j =
          ops.sub (ops.of_ℕ 1)
            (ops.div (ops.of_ℕ 3) (ops.sub (ops.mul (ops.of_ℕ 4) n) (ops.of_ℕ 9))) in
        if ops.eq sp (ops.of_ℕ 0) then none else some (ops.mul j d)
  ]

  unfoldable pub mde : List F → List F → Option F
  unfolding pooled_sd
  mde control arm =
      let df = length control + length arm - 2 in
      let tcrit = t_ppf ops chance.special (ops.sub (ops.of_ℕ 1) (alpha_half ops chance)) df in
      let tpow = t_ppf ops chance.special (ops.ratio 80 100) df in
      let inverse = λ (xs : List F). ops.div (ops.of_ℕ 1) (ops.of_ℕ (length xs)) in
      if ltb (length control) 2 || ltb (length arm) 2
      then none
      else elim (pooled_sd ops control arm) [
        | none ↦ none
        | some sp ↦ some (
            ops.mul (ops.mul (ops.add tcrit tpow) sp)
              (ops.sqrt (ops.add (inverse control) (inverse arm))))
      ]
