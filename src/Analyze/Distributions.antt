-- ===== src/Analyze/Distributions.antt =====
-- `norm_cdf`, `norm_ppf`, `_betacf`, `betainc`, `t_cdf` and `t_ppf` of scripts/analyze.py.
use Prim.Native.Nat.{◌^◌}
use fake_big_little.Prelude.{ℕ, zero, suc, ◌+◌, List, [], ◌∷◌, ◌==◌, if◌then◌else◌}
use fake_big_little.Analyze.Floats.{Floats, abs}

-- What the script takes from `math`, and the two doubles that are not finite.
pub record Special (F : Type 0) : Type 0 where
  pub exp : F → F
  pub log : F → F
  pub log1p : F → F
  pub lgamma : F → F
  pub erf : F → F
  pub pi : F
  pub infinity : F
  pub nan : F

module _ {F : Type 0} (ops : Floats F) (special : Special F) where
  abbrev one : F
  one = ops.of_ℕ 1

  abbrev two : F
  two = ops.of_ℕ 2

  abbrev half : F
  half = ops.ratio 1 2

  unfoldable pub norm_cdf : F → F
  norm_cdf z = ops.mul half (ops.add one (special.erf (ops.div z (ops.sqrt two))))

  -- `(((c[0] * q + c[1]) * q + …) * q + c[n]`
  unfoldable pub horner : F → List F → F → F
  horner acc [] q = acc
  horner acc (c ∷ cs) q = horner (ops.add (ops.mul acc q) c) cs q

  -- The coefficients behind the first of `a`, `b`, `c` and `d`, with the 1.0 that ends a denominator.
  abbrev a_0 : F
  a_0 = ops.neg (ops.ratio 3969683028665376 100000000000000)

  abbrev a_rest : List F
  a_rest =
      ops.ratio 2209460984245205 10000000000000
      ∷ ops.neg (ops.ratio 2759285104469687 10000000000000)
      ∷ ops.ratio 1383577518672690 10000000000000
      ∷ ops.neg (ops.ratio 3066479806614716 100000000000000)
      ∷ ops.ratio 2506628277459239 1000000000000000
      ∷ []

  abbrev b_0 : F
  b_0 = ops.neg (ops.ratio 5447609879822406 100000000000000)

  abbrev b_rest : List F
  b_rest =
      ops.ratio 1615858368580409 10000000000000
      ∷ ops.neg (ops.ratio 1556989798598866 10000000000000)
      ∷ ops.ratio 6680131188771972 100000000000000
      ∷ ops.neg (ops.ratio 1328068155288572 100000000000000)
      ∷ one
      ∷ []

  abbrev c_0 : F
  c_0 = ops.neg (ops.ratio 7784894002430293 1000000000000000000)

  abbrev c_rest : List F
  c_rest =
      ops.neg (ops.ratio 3223964580411365 10000000000000000)
      ∷ ops.neg (ops.ratio 2400758277161838 1000000000000000)
      ∷ ops.neg (ops.ratio 2549732539343734 1000000000000000)
      ∷ ops.ratio 4374664141464968 1000000000000000
      ∷ ops.ratio 2938163982698783 1000000000000000
      ∷ []

  abbrev d_0 : F
  d_0 = ops.ratio 7784695709041462 1000000000000000000

  abbrev d_rest : List F
  d_rest =
      ops.ratio 3224671290700398 10000000000000000
      ∷ ops.ratio 2445134137142996 1000000000000000
      ∷ ops.ratio 3754408661907416 1000000000000000
      ∷ one
      ∷ []

  -- The rational approximation near an end.
  unfoldable pub tail : F → F
  unfolding horner
  tail q = ops.div (horner c_0 c_rest q) (horner d_0 d_rest q)

  -- `x` before the refinement
  unfoldable pub acklam : F → F
  unfolding horner tail
  acklam p =
      let plow = ops.ratio 2425 100000 in
      let phigh = ops.sub one plow in
      let low = ops.sqrt (ops.mul (ops.neg two) (special.log p)) in
      let high = ops.sqrt (ops.mul (ops.neg two) (special.log (ops.sub one p))) in
      let q = ops.sub p half in
      let r = ops.mul q q in
      if ops.lt p plow
      then tail low
      else if ops.lt phigh p
      then ops.neg (tail high)
      else ops.div (ops.mul (horner a_0 a_rest r) q) (horner b_0 b_rest r)

  -- The Halley step.
  unfoldable pub refined : F → F → F
  unfolding norm_cdf
  refined p x =
      let e = ops.sub (norm_cdf x) p in
      let u =
        ops.mul (ops.mul e (ops.sqrt (ops.mul two special.pi)))
          (special.exp (ops.div (ops.mul x x) two)) in
      ops.sub x (ops.div u (ops.add one (ops.div (ops.mul x u) two)))

  unfoldable pub norm_ppf : F → F
  unfolding acklam refined
  norm_ppf p =
      if ops.le p (ops.of_ℕ 0)
      then ops.neg special.infinity
      else if ops.le one p
      then special.infinity
      else refined p (acklam p)

  -- `if abs(d) < FPMIN: d = FPMIN`; the literal is 10 to the power of -300.
  abbrev fpmin : F
  fpmin = ops.ratio 1 (10 ^ 300)

  unfoldable pub not_tiny : F → F
  unfolding abs
  not_tiny d = if ops.lt (abs ops d) fpmin then fpmin else d

  -- The two halves of a round: `c` and `d` with the next coefficient `aa`.
  unfoldable pub lentz : F → F × F → F × F
  unfolding not_tiny
  lentz aa (c, d) =
      (not_tiny (ops.add one (ops.div aa c)), ops.div one (not_tiny (ops.add one (ops.mul aa d))))

  unfoldable pub even_coefficient : F → F → F → F → F
  even_coefficient a b x m =
      let m2 = ops.mul two m in
      ops.div (ops.mul (ops.mul m (ops.sub b m)) x)
        (ops.mul (ops.add (ops.sub a one) m2) (ops.add a m2))

  unfoldable pub odd_coefficient : F → F → F → F → F
  odd_coefficient a b x m =
      let m2 = ops.mul two m in
      ops.div (ops.mul (ops.mul (ops.neg (ops.add a m)) (ops.add (ops.add a b) m)) x)
        (ops.mul (ops.add a m2) (ops.add (ops.add a one) m2))

  -- The loop of `_betacf`, with the rounds that are left, the next `m`, `c` and `d`, and `h`.
  unfoldable pub continued : F → F → F → ℕ → ℕ → F × F → F → F
  unfolding lentz even_coefficient odd_coefficient abs
  continued a b x zero m cd h = h
  continued a b x (suc rounds) m cd h =
      let even = lentz (even_coefficient a b x (ops.of_ℕ m)) cd in
      let odd = lentz (odd_coefficient a b x (ops.of_ℕ m)) even in
      let de = ops.mul odd.1 odd.0 in
      let h' = ops.mul (ops.mul h (ops.mul even.1 even.0)) de in
      let rest = continued a b x rounds (m + 1) odd h' in
      if ops.lt (abs ops (ops.sub de one)) (ops.ratio 3 (10 ^ 16)) then h' else rest

  unfoldable pub betacf : F → F → F → F
  unfolding continued not_tiny
  betacf a b x =
      let d =
        ops.div one (not_tiny (ops.sub one (ops.div (ops.mul (ops.add a b) x) (ops.add a one)))) in
      continued a b x 300 1 (one, d) d

  abbrev log_gammas : F → F → F
  log_gammas a b =
      ops.sub (ops.sub (special.lgamma (ops.add a b)) (special.lgamma a)) (special.lgamma b)

  unfoldable pub betainc : F → F → F → F
  unfolding betacf
  betainc a b x =
      let log_x = ops.mul a (special.log x) in
      let log_1_x = ops.mul b (special.log1p (ops.neg x)) in
      let front = special.exp (ops.add (ops.add (log_gammas a b) log_x) log_1_x) in
      let back = special.exp (ops.add (ops.add (log_gammas a b) log_1_x) log_x) in
      let below = ops.div (ops.mul front (betacf a b x)) a in
      let above = ops.sub one (ops.div (ops.mul back (betacf b a (ops.sub one x))) b) in
      if ops.le x (ops.of_ℕ 0)
      then ops.of_ℕ 0
      else if ops.le one x
      then one
      else if ops.lt x (ops.div (ops.add a one) (ops.add (ops.add a b) two))
      then below
      else above

  unfoldable pub t_cdf : F → ℕ → F
  unfolding betainc
  t_cdf t df =
      let n = ops.of_ℕ df in
      let x = ops.div n (ops.add n (ops.mul t t)) in
      let p = ops.mul half (betainc (ops.div n two) half x) in
      if df == 0 then special.nan else if ops.le t (ops.of_ℕ 0) then p else ops.sub one p

  -- The loop of `t_ppf`, with the rounds that are left: the ends between which the quantile is.
  unfoldable pub narrow : (F → F) → F → ℕ → F → F → F × F
  narrow cdf p zero lo hi = (lo, hi)
  narrow cdf p (suc rounds) lo hi =
      let mid = ops.mul half (ops.add lo hi) in
      let below = ops.lt (cdf mid) p in
      let lo' = if below then mid else lo in
      let hi' = if below then hi else mid in
      let rest = narrow cdf p rounds lo' hi' in
      if ops.lt (ops.sub hi' lo') (ops.ratio 1 (10 ^ 10)) then (lo', hi') else rest

  unfoldable pub bracket : F → ℕ → F × F
  unfolding narrow t_cdf
  bracket p df = narrow (λ t. t_cdf t df) p 200 (ops.neg (ops.of_ℕ 1000)) (ops.of_ℕ 1000)

  unfoldable pub t_ppf : F → ℕ → F
  unfolding bracket
  t_ppf p df =
      let (lo, hi) = bracket p df in if df == 0 then special.nan else ops.mul half (ops.add lo hi)
