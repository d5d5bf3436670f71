-- ===== src/Analyze/Report/Headline.antt =====
-- `overall_headline` of scripts/analyze.py: which savings it may claim.
use fake_big_little.Prelude.{
  ◌≡◌, refl, ◌∙◌, ap, Bool, true, false, not, ◌&&◌, ◌||◌, List, [], ◌∷◌, arith, if◌then◌else◌,
  every, keep,
}
use fake_big_little.Prelude.Texts.{Text}
use fake_big_little.Analyze.Floats.{Floats}
use fake_big_little.Analyze.Contrast.{Contrast, is_headline}
use fake_big_little.Analyze.Report.{
  ArmContrast, Experiment, Found, filed, saves, is_compared, is_detectable, gate_fails,
  file_contrast, file_all, find, lines_of, or_unusable, overall_headline, no_usable_contrast,
}

module _ {F : Type 0} (ops : Floats F) where
  filed_blocked :
      (d s : Bool) (tag : Text × Text) (c : Contrast F) (f : Found ops)
      → (filed ops d s true tag c f).wins ≡ f.wins
  unfolding filed
  filed_blocked true true tag c f = refl
  filed_blocked true false tag c f = refl
  filed_blocked false s tag c f = refl

  filed_same :
      (d s b : Bool) (tag : Text × Text) (c : Contrast F) (f g : Found ops)
      → f.wins ≡ g.wins
      → (filed ops d s b tag c f).wins ≡ (filed ops d s b tag c g).wins
  unfolding filed
  filed_same true true true tag c f g h = h
  filed_same true true false tag c f g h = ap (λ ws. tag ∷ ws) h
  filed_same true false b tag c f g h = h
  filed_same false s b tag c f g h = h

  file_all_blocked :
      (e : Experiment ops) (cs : List (ArmContrast ops)) (f : Found ops)
      → gate_fails ops e ≡ true
      → (file_all ops e cs f).wins ≡ f.wins
  unfolding file_all
  file_all_blocked e [] f h = refl
  file_all_blocked e (c ∷ cs) f h =
      unfold file_contrast in
      rw h (placed (is_headline c.result.metric && is_compared ops c.result.diff) _ _)
      ∙ file_all_blocked e cs f h
    where
      placed :
          (b : Bool) (d s : Bool)
          → (if b
              then filed ops d s true (e.name, c.arm) c.result (file_all ops e cs f)
              else file_all ops e cs f).wins
            ≡ (file_all ops e cs f).wins
      placed true d s = filed_blocked d s (e.name, c.arm) c.result (file_all ops e cs f)
      placed false d s = refl

  file_all_same :
      (e : Experiment ops) (cs : List (ArmContrast ops)) (f g : Found ops)
      → f.wins ≡ g.wins
      → (file_all ops e cs f).wins ≡ (file_all ops e cs g).wins
  unfolding file_all file_contrast
  file_all_same e [] f g h = h
  file_all_same e (c ∷ cs) f g h =
      placed (is_headline c.result.metric && is_compared ops c.result.diff) (file_all ops e cs f)
        (file_all ops e cs g) (file_all_same e cs f g h)
    where
      put : Bool → Found ops → Found ops
      put b k =
          if b
          then filed ops (is_detectable ops c.result) (saves ops c.result.diff) (gate_fails ops e)
              (e.name, c.arm) c.result k
          else k

      placed : (b : Bool) (k l : Found ops) → k.wins ≡ l.wins → (put b k).wins ≡ (put b l).wins
      placed true k l q = filed_same _ _ _ _ _ k l q
      placed false k l q = q

  -- The savings that the headline names stay the same when each experiment with a failing gate is
  -- left out.
  pub find_wins_admissible :
      (es : List (Experiment ops))
      → (find ops es).wins ≡ (find ops (keep (λ e. not (gate_fails ops e)) es)).wins
  unfolding find
  find_wins_admissible [] = refl
  find_wins_admissible (e ∷ es) = on_gate (gate_fails ops e) refl (find_wins_admissible es)
    where
      rest : List (Experiment ops)
      rest = keep (λ x. not (gate_fails ops x)) es

      on_gate :
          (b : Bool)
          → gate_fails ops e ≡ b
          → (find ops es).wins ≡ (find ops rest).wins
          → (file_all ops e e.contrasts (find ops es)).wins
            ≡ (find ops (if not b then e ∷ rest else rest)).wins
      on_gate true h k = file_all_blocked e e.contrasts (find ops es) h ∙ k
      on_gate false h k = file_all_same e e.contrasts (find ops es) (find ops rest) k

  -- Whether each energy contrast that was computed is a detectable rise or no change.
  abbrev pub is_rise : ArmContrast ops → Bool
  is_rise c =
      not (is_headline c.result.metric)
      || not (is_compared ops c.result.diff)
      || (is_detectable ops c.result && not (saves ops c.result.diff))

  abbrev nothing : Found ops
  nothing = record { wins = []; blocked = []; nulls = [] }

  file_all_rises :
      (e : Experiment ops) (cs : List (ArmContrast ops)) (f : Found ops)
      → every is_rise cs ≡ true
      → file_all ops e cs f ≡ f
  unfolding file_all
  file_all_rises e [] f h = refl
  file_all_rises e (c ∷ cs) f h =
      unfold file_contrast in
      placed (is_headline c.result.metric) (is_compared ops c.result.diff)
        (is_detectable ops c.result) (saves ops c.result.diff) (gate_fails ops e)
        (file_all ops e cs f) (ground arith)
      ∙ file_all_rises e cs f (ground arith)
    where
      placed :
          (m p d s b : Bool) (k : Found ops)
          → (not m || not p || (d && not s)) ≡ true
          → (if m && p then filed ops d s b (e.name, c.arm) c.result k else k) ≡ k
      placed false p d s b k q = refl
      placed true false d s b k q = refl
      placed true true true false b k q = unfold filed in refl
      placed true true true true b k q = absurd (cc)
      placed true true false s b k q = absurd (cc)

  find_rises :
      (es : List (Experiment ops))
      → every (λ (e : Experiment ops). every is_rise e.contrasts) es ≡ true
      → find ops es ≡ nothing
  unfolding find
  find_rises [] h = refl
  find_rises (e ∷ es) h =
      file_all_rises e e.contrasts (find ops es) (ground arith) ∙ find_rises es (ground arith)

-- Where there are experiments and each energy contrast that was computed shows a detectable rise or
-- none of the energy, the headline says that no usable contrast could be computed.
pub overall_headline_of_rises :
    {F : Type 0} (ops : Floats F) (e : Experiment ops) (es : List (Experiment ops))
    → every (λ (x : Experiment ops). every (is_rise ops) x.contrasts) (e ∷ es) ≡ true
    → overall_headline ops (e ∷ es) ≡ no_usable_contrast ∷ []
unfolding overall_headline lines_of
overall_headline_of_rises ops e es h =
    ap (λ f. or_unusable ops (lines_of ops f)) (find_rises ops (e ∷ es) h)
