-- ===== src/Analyze/Rows/Split.antt =====
-- `split_domains` of scripts/analyze.py: what the two lists of CPUs hold.
use fake_big_little.Prelude.{
  ℕ, zero, suc, ◌+◌, ◌<◌, ◌≡◌, refl, ◌∙◌, Bool, true, false, not, ◌&&◌, ◌||◌, Option, none, some,
  List, [], ◌∷◌, arith, map, ◌==◌, if◌then◌else◌, get_elem?, keep, mem,
}
use fake_big_little.Prelude.Int.{ℤ, ltb_ℤ}
use fake_big_little.Analyze.Rows.{
  Domains, reported, has_distinct, split_reported, split_domains, epp_big_max, by_epp, flat,
}

-- Whether the positions hold `c` with an EPP that passes the test.
abbrev holds : (ℤ → Bool) → ℕ → List (ℕ × ℤ) → Bool
holds p c [] = false
holds p c ((i, e) ∷ vals) = (c == i && p e) || holds p c vals

mem-kept :
    (p : ℤ → Bool) (c : ℕ) (vals : List (ℕ × ℤ))
    → mem c (map (λ (v : ℕ × ℤ). v.0) (keep (λ (v : ℕ × ℤ). p v.1) vals)) ≡ holds p c vals
mem-kept p c [] = refl
mem-kept p c ((i, e) ∷ vals) = ground (arith, mem-kept p c vals)

-- Whether a CPU reports an EPP that passes the test.
abbrev pub passes : (ℤ → Bool) → Option (Option ℤ) → Bool
passes p none = false
passes p (some none) = false
passes p (some (some e)) = p e

-- Behind a position `i` the reported CPUs start at `i`.
holds_before :
    (p : ℤ → Bool) (c i : ℕ) (epp : List (Option ℤ)) → c < i → holds p c (reported epp i) ≡ false
unfolding reported
holds_before p c i [] h = refl
holds_before p c i (none ∷ es) h = holds_before p c (i + 1) es (omega arith)
holds_before p c i (some e ∷ es) h = ground (arith, holds_before p c (i + 1) es (omega arith))

holds-reported :
    (p : ℤ → Bool) (c k i : ℕ) (epp : List (Option ℤ))
    → c ≡ k + i
    → holds p c (reported epp i) ≡ passes p (get_elem? epp k)
unfolding reported
holds-reported p c k i [] h = refl
holds-reported p c zero i (none ∷ es) h = holds_before p c (i + 1) es (omega arith)
holds-reported p c zero i (some e ∷ es) h =
    ground (arith, holds_before p c (i + 1) es (omega arith))
holds-reported p c (suc k) i (none ∷ es) h = holds-reported p c k (i + 1) es (omega arith)
holds-reported p c (suc k) i (some e ∷ es) h =
    ground (arith, holds-reported p c k (i + 1) es (omega arith))

abbrev ByTest : ℕ → List (ℕ × ℤ) → Domains → Type 0
ByTest c vals d =
    (mem c d.big ≡ holds (λ e. ltb_ℤ e epp_big_max) c vals)
    × (mem c d.little ≡ holds (λ e. not (ltb_ℤ e epp_big_max)) c vals)

by_epp-ByTest : (c : ℕ) (vals : List (ℕ × ℤ)) → ByTest c vals (by_epp vals)
unfolding by_epp
by_epp-ByTest c vals =
    (mem-kept (λ e. ltb_ℤ e epp_big_max) c vals, mem-kept (λ e. not (ltb_ℤ e epp_big_max)) c vals)

flat_is_one_domain :
    (vals : List (ℕ × ℤ)) → ((flat vals).partitioned ≡ false) × ((flat vals).little ≡ [])
unfolding flat
flat_is_one_domain [] = (refl, refl)
flat_is_one_domain (v ∷ vals) = (refl, refl)

-- What holds of the split, and of a flat machine where there is none.
either_way :
    (P : Domains → Type 0) (vals : List (ℕ × ℤ))
    → P (by_epp vals)
    → P (flat vals)
    → P (split_reported vals)
unfolding split_reported
either_way P vals h k = choose (has_distinct vals)
  where
    choose : (b : Bool) → P (if b then by_epp vals else flat vals)
    choose true = h
    choose false = k

abbrev Reports : List (Option ℤ) → ℕ → Domains → Type 0
Reports epp c d =
    (mem c d.big ≡ passes (λ e. ltb_ℤ e epp_big_max) (get_elem? epp c))
    × (mem c d.little ≡ passes (λ e. not (ltb_ℤ e epp_big_max)) (get_elem? epp c))

split_domains-Reports :
    (epp : List (Option ℤ)) (c : ℕ)
    → (((split_domains epp).partitioned ≡ true) → Reports epp c (split_domains epp))
      × (((split_domains epp).partitioned ≡ false) → (split_domains epp).little ≡ [])
unfolding split_domains
split_domains-Reports epp c =
    let found = λ (p : ℤ → Bool). holds-reported p c c 0 epp (omega arith) in
    let both = by_epp-ByTest c (reported epp 0) in
    either_way
      (λ d. ((d.partitioned ≡ true) → Reports epp c d) × ((d.partitioned ≡ false) → d.little ≡ []))
      (reported epp 0)
      (
        λ _. (
          both.0 ∙ found (λ e. ltb_ℤ e epp_big_max),
          both.1 ∙ found (λ e. not (ltb_ℤ e epp_big_max)),
        ),
        λ e. absurd (unfold by_epp in cc),
      )
      (
        λ e. absurd (split_from (flat_is_one_domain (reported epp 0)).0 e),
        λ _. (flat_is_one_domain (reported epp 0)).1,
      )
  where
    split_from : {b : Bool} → b ≡ false → b ≡ true → ⊥
    split_from h k = cc

-- Where the EPP values split the CPUs, the big ones are just those that report an EPP below 128 and
-- the little ones just those that report another.
split_domains_by_epp :
    (epp : List (Option ℤ)) (c : ℕ)
    → (split_domains epp).partitioned ≡ true
    → (mem c (split_domains epp).big ≡ passes (λ e. ltb_ℤ e epp_big_max) (get_elem? epp c))
      × (mem c (split_domains epp).little
          ≡ passes (λ e. not (ltb_ℤ e epp_big_max)) (get_elem? epp c))
split_domains_by_epp epp c h = (split_domains-Reports epp c).0 h

-- Where the EPP values do not split the CPUs, no CPU is a little one.
pub split_domains_flat :
    (epp : List (Option ℤ))
    → (split_domains epp).partitioned ≡ false
    → (split_domains epp).little ≡ []
split_domains_flat epp h = (split_domains-Reports epp 0).1 h
