-- ===== src/Analyze/Placement.antt =====
-- `placement_sanity` of scripts/analyze.py: did the tasks stay in their domains?
use fake_big_little.Prelude.{
  ℕ, Bool, true, false, not, Option, none, some, List, [], ◌∷◌, ◌++◌, map, ◌==◌, if◌then◌else◌, any,
  keep, length,
}
use fake_big_little.Prelude.Texts.{Text, codes}
use fake_big_little.Json.{Value}
use fake_big_little.Analyze.Floats.{Floats, mean, max}
use fake_big_little.Analyze.Rows.{
  Column, Row, bls_number, bls_cross_frac, bls_run_big_frac, bls_run_little_frac, bls_dsq_big_frac,
}
use fake_big_little.Analyze.Groups.{Arms, get_or, sorted_keys, values}
use fake_big_little.Analyze.Resampling.{Chance}
use fake_big_little.Analyze.Gates.{
  Gate, gate, placement, placement_counters, info, skip, fail_if, is_true,
}

module _ {F : Type 0} (ops : Floats F) (chance : Chance F) where
  -- A record of `placement_sanity`; `strict` is none where no row has the counters.
  pub record Placement : Type 0 where
    pub arm : Text
    pub n : ℕ
    pub n_with_bls : ℕ
    pub strict : Option Value
    pub enqueue_mean : Option F
    pub cross_frac_mean : Option F
    pub cross_frac_max : Option F
    pub run_big_frac_mean : Option F
    pub run_little_frac_mean : Option F
    pub dsq_big_frac_mean : Option F

  abbrev pub mean_of : List (Row F) → Column → Option F
  mean_of rs c = mean ops (values ops rs c)

  abbrev strict_of : List (Row F) → Option Value
  strict_of [] = none
  strict_of (r ∷ _) = r.strict

  unfoldable pub placement_of : Text → List (Row F) → Placement
  unfolding values mean max
  placement_of a rs =
      let with_bls = keep (λ (r : Row F). r.bls_present) rs in
      record {
        arm = a;
        n = length rs;
        n_with_bls = length with_bls;
        strict = strict_of with_bls;
        enqueue_mean = mean_of with_bls (bls_number (codes "enqueue"));
        cross_frac_mean = mean_of with_bls bls_cross_frac;
        cross_frac_max = max ops (values ops with_bls bls_cross_frac);
        run_big_frac_mean = mean_of with_bls bls_run_big_frac;
        run_little_frac_mean = mean_of with_bls bls_run_little_frac;
        dsq_big_frac_mean = mean_of with_bls bls_dsq_big_frac;
      }

  -- Whether a share of the tasks crossed the domains that a strict arm may not have.
  abbrev pub is_over : Option F → Bool
  is_over none = false
  is_over (some x) = ops.lt (ops.ratio 2 10) x

  unfoldable pub placement_gate : Placement → List Gate
  placement_gate p = elim p.cross_frac_mean [
    | none ↦ []
    | some x ↦
        if is_true p.strict
        then gate (placement p.arm true) (fail_if (is_over (some x))) ∷ []
        else gate (placement p.arm false) info ∷ []
  ]

  unfoldable pub placement_gates : List Placement → List Gate
  unfolding placement_gate
  placement_gates [] = []
  placement_gates (p ∷ ps) = placement_gate p ++ placement_gates ps

  unfoldable pub placements : Arms ops → List Placement
  unfolding placement_of get_or sorted_keys
  placements arms = map (λ a. placement_of a (get_or a [] arms)) (sorted_keys arms)

  unfoldable pub placement_sanity : Arms ops → List Placement × List Gate
  unfolding placements placement_gates
  placement_sanity arms =
      let ps = placements arms in
      (
        ps,
        placement_gates ps
            ++ (if any (λ p. not (p.n_with_bls == 0)) ps
                then []
                else gate placement_counters skip ∷ []),
      )
