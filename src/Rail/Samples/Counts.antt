-- ===== src/Rail/Samples/Counts.antt =====
-- `load_samples` of sim/rail_model.py: no row is lost, and what a sample consists of.
use fake_big_little.Prelude.{
  ℕ, suc, ◌+◌, ◌≡◌, refl, ap, Bool, true, false, ◌||◌, Option, none, some, List, [], ◌∷◌, All,
  length, every, range, map, ◌++◌, if◌then◌else◌, arith,
}
use mathlib.Core.Path.{subst}
use mathlib.Core.Option.{some-injective}
use fake_big_little.Prelude.Texts.{codes}
use fake_big_little.Prelude.Decimal.{str_ℕ}
use fake_big_little.Analyze.Floats.{Floats, sum, max_from}
use fake_big_little.Rail.{Core}
use fake_big_little.Rail.Samples.{
  LogRow, Sample, activity, fold_core, fold_cores, of_siblings, sample_of, is_none, fnum,
  read_cores, read_row, count_row, load_samples,
}

module _ {F : Type 0} (ops : Floats F) where
  abbrev pub Capped : Core F → Type 0
  Capped c = ops.lt (ops.of_ℕ 1) c.1 ≡ false

  -- The power is above zero, and there are four cores, none busier than all of the time.
  abbrev pub Sound : Sample F → Type 0
  Sound s = (ops.le s.pkg_w (ops.of_ℕ 0) ≡ false) × ((length s.phys ≡ 4) × All Capped s.phys)

module _ {F : Type 0} (ops : Floats F) (asym : (x y : F) → ops.lt x y ≡ true → ops.lt y x ≡ false)
    (below : ops.lt (ops.of_ℕ 1) (ops.of_ℕ 0) ≡ false) (irrefl : (x : F) → ops.lt x x ≡ false) where
  activity_capped : (bs : List F) → ops.lt (ops.of_ℕ 1) (activity ops bs) ≡ false
  unfolding activity
  activity_capped [] = below
  activity_capped (b ∷ bs) = least (ops.lt (sum ops (b ∷ bs)) (ops.of_ℕ 1)) refl
    where
      least :
          (small : Bool)
          → ops.lt (sum ops (b ∷ bs)) (ops.of_ℕ 1) ≡ small
          → ops.lt (ops.of_ℕ 1) (if small then sum ops (b ∷ bs) else ops.of_ℕ 1) ≡ false
      least true e = asym _ _ e
      least false e = irrefl _

  fold_core-Capped :
      (mhz busy : List (Option F)) (pc : ℕ) (c : Core F)
      → fold_core ops mhz busy pc ≡ some c
      → Capped ops c
  unfolding fold_core
  fold_core-Capped mhz busy pc c = split (of_siblings ops mhz (pc ∷ (pc + 4) ∷ []))
    where
      split :
          (fs : List F)
          → elim fs [
            | [] ↦ none
            | f ∷ rest ↦ some (
              ops.mul (max_from ops f rest) (ops.of_ℕ 1000000),
              activity ops (of_siblings ops busy (pc ∷ (pc + 4) ∷ [])),
            )
          ]
            ≡ some c
          → Capped ops c
      split [] e = cc
      split (f ∷ rest) e =
          subst (Capped ops) (some-injective _ _ e)
            (activity_capped (of_siblings ops busy (pc ∷ (pc + 4) ∷ [])))

  fold_cores-All :
      (mhz busy : List (Option F)) (pcs : List ℕ) (cs : List (Core F))
      → fold_cores ops mhz busy pcs ≡ some cs
      → (length cs ≡ length pcs) × All (Capped ops) cs
  unfolding fold_cores
  fold_cores-All mhz busy [] cs e =
      subst (λ l. (length l ≡ 0) × All (Capped ops) l) (some-injective _ _ e) (refl, tt)
  fold_cores-All mhz busy (pc ∷ pcs) cs e =
      split (fold_core ops mhz busy pc) (fold_cores ops mhz busy pcs) refl refl
        (fold_cores-All mhz busy pcs) e
    where
      split :
          (first : Option (Core F)) (rest : Option (List (Core F)))
          → fold_core ops mhz busy pc ≡ first
          → fold_cores ops mhz busy pcs ≡ rest
          → ((l : List (Core F))
              → fold_cores ops mhz busy pcs ≡ some l
              → (length l ≡ length pcs) × All (Capped ops) l)
          → elim first [ none ↦ none | some c ↦ elim rest [ none ↦ none | some l ↦ some (c ∷ l) ] ]
            ≡ some cs
          → (length cs ≡ suc (length pcs)) × All (Capped ops) cs
      split none rest p q ih e = cc
      split (some c) none p q ih e = cc
      split (some c) (some l) p q ih e =
          subst (λ l. (length l ≡ suc (length pcs)) × All (Capped ops) l) (some-injective _ _ e)
            (ap suc (ih l q).0, (fold_core-Capped mhz busy pc c p, (ih l q).1))

  read_cores-Sound :
      (row : LogRow) (mhz busy : List (Option F)) (pkg : F) (s : Sample F)
      → read_cores ops row mhz busy pkg ≡ some s
      → Sound ops s
  unfolding read_cores sample_of
  read_cores-Sound row mhz busy pkg s =
      split (ops.le pkg (ops.of_ℕ 0)) (every is_none mhz) (fold_cores ops mhz busy (range 4)) refl
        (fold_cores-All mhz busy (range 4))
    where
      split :
          (low blank : Bool) (cores : Option (List (Core F)))
          → ops.le pkg (ops.of_ℕ 0) ≡ low
          → ((l : List (Core F)) → cores ≡ some l → (length l ≡ 4) × All (Capped ops) l)
          → (if low || blank
              then none
              else elim cores [ none ↦ none | some l ↦ some (sample_of ops row pkg l) ])
            ≡ some s
          → Sound ops s
      split true blank cores p q e = cc
      split false true cores p q e = cc
      split false false none p q e = cc
      split false false (some l) p q e = subst (Sound ops) (some-injective _ _ e) (p, q l refl)

  read_row-Sound : (row : LogRow) (s : Sample F) → read_row ops row ≡ some s → Sound ops s
  unfolding read_row
  read_row-Sound row s = split (fnum ops (row (codes "pkg_w")))
    where
      mhz : List (Option F)
      mhz = map (λ i. fnum ops (row (codes "cpu" ++ str_ℕ i ++ codes "_mhz"))) (range 8)

      busy : List (Option F)
      busy = map (λ i. fnum ops (row (codes "cpu" ++ str_ℕ i ++ codes "_busy"))) (range 8)

      split :
          (power : Option F)
          → elim power [ none ↦ none | some pkg ↦ read_cores ops row mhz busy pkg ] ≡ some s
          → Sound ops s
      split none e = cc
      split (some pkg) e = read_cores-Sound row mhz busy pkg s e

  count_row-Sound :
      (first : Option (Sample F)) (loaded : List (Sample F) × ℕ) (n : ℕ)
      → ((s : Sample F) → first ≡ some s → Sound ops s)
      → (length loaded.0 + loaded.1 ≡ n) × All (Sound ops) loaded.0
      → let (samples, skipped) = count_row ops first loaded in
        (length samples + skipped ≡ suc n) × All (Sound ops) samples
  unfolding count_row
  count_row-Sound none (samples, skipped) n sound (e, h) = (omega arith, h)
  count_row-Sound (some s) (samples, skipped) n sound (e, h) = (omega arith, (sound s refl, h))

  -- Each row is a sample or skipped, and each sample has a power above zero and four cores, none of
  -- them active for more than all of the time, for an order of the numbers that is asymmetric and
  -- irreflexive and has 0 not above 1.
  pub load_samples-Sound :
      (rows : List LogRow)
      → let (samples, skipped) = load_samples ops rows in
        (length samples + skipped ≡ length rows) × All (Sound ops) samples
  unfolding load_samples
  load_samples-Sound [] = (refl, tt)
  load_samples-Sound (row ∷ rows) =
      count_row-Sound (read_row ops row) (load_samples ops rows) (length rows) (read_row-Sound row)
        (load_samples-Sound rows)
