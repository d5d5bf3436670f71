-- ===== src/Bench/Protocol/Count.antt =====
-- `plan` and `print_plan` of scripts/bench.py: the announced number of runs is the number made.
use fake_big_little.Prelude.{
  ℕ, ◌+◌, ◌*◌, ◌≡◌, refl, sym, suc, ◌∙◌, ap, Bool, true, false, if◌then◌else◌, List, [], ◌∷◌, ◌++◌,
  arith, range, length, length-append, length-range_from,
}
use fake_big_little.Prelude.Texts.{Text}
use fake_big_little.Bench.World.{absent, World, Env, RunFile, ok}
use fake_big_little.Bench.Session.{Args, Bench}
use fake_big_little.Bench.Experiments.{rail_arms, poison_arms, e2_conditions, coupling_blocks}
use fake_big_little.Bench.Ab.{AbArm, e3_arms}
use fake_big_little.Bench.Driver.{
  PlanRow, row_if, wants_rail, wants_poison, wants_coupling, wants_ab, plan, plan_totals, session,
}
use fake_big_little.Bench.Protocol.{Spec, AllFit, Saved}
use fake_big_little.Bench.Protocol.Steps.{flat}
use fake_big_little.Bench.Protocol.Fixed.{
  Covers, probe_of, single, rail_specs, poison_specs, coupling_specs,
}
use fake_big_little.Bench.Protocol.Whole.{ab_rep_specs, session_specs, session_saves_protocol}

length-flat :
    {A : Type 0} (k : ℕ) (f : A → List Spec) (xs : List A)
    → ((a : A) → length (f a) ≡ k)
    → length (flat f xs) ≡ length xs * k
unfolding flat
length-flat k f [] h = omega arith
length-flat k f (a ∷ xs) h =
    grind (arith, length-append (f a) (flat f xs), length-flat k f xs h, h a)

module _ (args : Args) where
  abbrev total : List PlanRow → ℕ
  total rows = (plan_totals args rows).0

  total-append : (rows more : List PlanRow) → total (rows ++ more) ≡ total rows + total more
  unfolding plan_totals
  total-append [] more = omega arith
  total-append (r ∷ rows) more = omega (arith, total-append rows more)

  total_row :
      (b : Bool) (name : Text) (k ms : ℕ)
      → total (row_if b name k ms) ≡ (if b then k * args.reps else 0)
  unfolding plan_totals
  total_row b name k ms = ground arith

  length_part :
      (b : Bool) (k : ℕ) (specs : ℕ → List Spec)
      → ((rep : ℕ) → length (specs rep) ≡ k)
      → length (if b then flat specs (range args.reps) else []) ≡ (if b then k * args.reps else 0)
  length_part false k specs h = refl
  length_part true k specs h =
      grind (arith, length-flat k specs (range args.reps) h, length-range_from 0 args.reps)

  part_row :
      (b : Bool) (name : Text) (k ms : ℕ) (specs : ℕ → List Spec)
      → ((rep : ℕ) → length (specs rep) ≡ k)
      → length (if b then flat specs (range args.reps) else []) ≡ total (row_if b name k ms)
  part_row b name k ms specs h = length_part b k specs h ∙ sym (total_row b name k ms)

module _ (env : Env) (shuffled : ℕ → List AbArm) (self : Bench) where
  length-rail : (rep : ℕ) → length (rail_specs env self rep) ≡ 4
  unfolding rail_specs flat rail_arms
  length-rail rep = refl

  length-poison : (rep : ℕ) → length (poison_specs env self rep (probe_of self.little)) ≡ 4
  unfolding poison_specs flat poison_arms
  length-poison rep = refl

  length-single :
      {A : Type 0} (f : A → Spec) (xs : List A) → length (flat (single env self f) xs) ≡ length xs
  length-single f xs = length-flat 1 (single env self f) xs (λ a. refl) ∙ omega arith

  length-coupling :
      (rep : ℕ) → length (coupling_specs env self rep) ≡ 2 * length (e2_conditions env self)
  length-coupling rep =
      unfold coupling_specs in
      length-flat (length (e2_conditions env self)) _ (coupling_blocks env self)
        (λ block. length-single _ (e2_conditions env self))
      ∙ unfold coupling_blocks in refl

  length-ab :
      ((rep : ℕ) → length (shuffled rep) ≡ length e3_arms)
      → (rep : ℕ) → length (ab_rep_specs env shuffled self rep) ≡ length e3_arms
  unfolding ab_rep_specs
  length-ab h rep = length-single _ (shuffled rep) ∙ h rep

  four_parts :
      (a b c d : List Spec) (r s t u : List PlanRow)
      → length a ≡ total self.args r
      → length b ≡ total self.args s
      → length c ≡ total self.args t
      → length d ≡ total self.args u
      → length (a ++ (b ++ (c ++ d))) ≡ total self.args (r ++ s ++ t ++ u)
  four_parts a b c d r s t u ha hb hc hd = omega (
    arith,
    length-append a (b ++ (c ++ d)),
    length-append b (c ++ d),
    length-append c d,
    total-append self.args (r ++ s ++ t) u,
    total-append self.args (r ++ s) t,
    total-append self.args r s,
  )

  -- The runs that the protocol asks for are as many as the plan says.
  length-session_specs :
      ((rep : ℕ) → length (shuffled rep) ≡ length e3_arms)
      → length (session_specs env shuffled self) ≡ total self.args (plan env self)
  unfolding session_specs plan
  length-session_specs h =
      let args = self.args in
      let choice = args.choice in
      four_parts _ _ _ _ _ _ _ _
        (part_row args (wants_rail choice) _ 4 args.dur (rail_specs env self) length-rail)
        (part_row args (wants_poison choice) _ 4 args.dur _ length-poison)
        (part_row args (wants_coupling choice) _ _ args.dur (coupling_specs env self)
          length-coupling)
        (part_row args (wants_ab choice) _ _ 30000 (ab_rep_specs env shuffled self) (length-ab h))

length-AllFit :
    (env : Env) (specs : List Spec) (files : List RunFile)
    → AllFit env specs files
    → length files ≡ length specs
length-AllFit env [] [] h = refl
length-AllFit env [] (f ∷ fs) h = absurd h
length-AllFit env (s ∷ ss) [] h = absurd h
length-AllFit env (s ∷ ss) (f ∷ fs) h = ap suc (length-AllFit env ss fs h.1)

length_saved :
    (env : Env) (k : ℕ) (specs : List Spec) (w w' : World)
    → Saved env specs w w'
    → length specs ≡ k
    → length w'.saved ≡ length w.saved + k
length_saved env k specs w w' h e =
    ap length h.behind
    ∙ length-append w.saved h.new
    ∙ ap (λ (t : ℕ). length w.saved + t) (length-AllFit env specs h.new h.fit ∙ e)

-- A measured session that ends with an exit status has saved as many files as `print_plan`
-- announced, if each shuffle keeps the number of arms.
pub session_saves_plan :
    (env : Env) (shuffled : ℕ → List AbArm) (self : Bench) (w w' : World) (status : ℕ)
    → Covers env.nr_cpus self
    → ((rep : ℕ) → length (shuffled rep) ≡ length e3_arms)
    → self.args.plan_only ≡ false
    → w.scheduler ≡ absent
    → session env shuffled self w ≡ (ok status, w')
    → length w'.saved ≡ length w.saved + (plan_totals self.args (plan env self)).0
session_saves_plan env shuffled self w w' status covers keeps measured idle e =
    length_saved env _ _ w w'
      (session_saves_protocol env shuffled self w w' status covers measured idle e).0
      (length-session_specs env shuffled self keeps)
