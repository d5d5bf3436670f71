-- ===== src/Prelude/Texts.antt =====
-- Texts as lists of code points, with the `str` methods that the scripts use, and decimal numbers.
use Prim.Native.Nat.{ℕ}
use Prim.Native.Char.{code}
use Prim.Native.String.{String}
use mathlib.Core.Path.{◌≡◌, refl}
use mathlib.Core.Logic.{◌≢◌}
use mathlib.Core.Bool.{Bool, true, false, ◌&&◌}
use mathlib.Core.List.{List, [], ◌∷◌, ◌++◌}
use native.Mathlib.Omega.{arith}
use fake_big_little.Prelude.Tests.{if◌then◌else◌, ◌==◌}
use fake_big_little.Prelude.Lists.{All}

abbrev pub Text : Type 0
Text = List ℕ

abbrev pub codes : String → Text
codes String.[] = []
codes (String.◌∷◌ c s) = code c ∷ codes s

unfoldable pub text_eq : Text → Text → Bool
text_eq [] [] = true
text_eq [] _ = false
text_eq (a ∷ s) [] = false
text_eq (a ∷ s) (b ∷ t) = a == b && text_eq s t

pub text_eq_self : (s : Text) → text_eq s s ≡ true
unfolding text_eq
text_eq_self [] = refl
text_eq_self (a ∷ s) = ground (arith, text_eq_self s)

pub eq_of_text_eq : (s t : Text) → text_eq s t ≡ true → s ≡ t
unfolding text_eq
eq_of_text_eq [] [] h = refl
eq_of_text_eq [] (b ∷ t) h = cc
eq_of_text_eq (a ∷ s) [] h = cc
eq_of_text_eq (a ∷ s) (b ∷ t) h = ground (arith, eq_of_text_eq s t)

abbrev pub Lacks : ℕ → Text → Type 0
Lacks b = All (λ c. c ≢ b)

-- `s.split(sep)`, at a separator of one character
unfoldable pub prepend : ℕ → List Text → List Text
prepend c [] = (c ∷ []) ∷ []
prepend c (p ∷ ps) = (c ∷ p) ∷ ps

unfoldable pub split : ℕ → Text → List Text
unfolding prepend
split sep [] = [] ∷ []
split sep (c ∷ s) = let parts = split sep s in if c == sep then [] ∷ parts else prepend c parts

-- `sep.join(parts)`
unfoldable pub join : ℕ → List Text → Text
join sep [] = []
join sep (p ∷ []) = p
join sep (p ∷ q ∷ ps) = p ++ sep ∷ join sep (q ∷ ps)

pub split-Lacks : (sep : ℕ) (p : Text) → Lacks sep p → split sep p ≡ p ∷ []
unfolding split
split-Lacks sep [] h = refl
split-Lacks sep (c ∷ p) h = ground (arith, split-Lacks sep p h.1)

pub split-append : (sep : ℕ) (p s : Text) → Lacks sep p → split sep (p ++ sep ∷ s) ≡ p ∷ split sep s
unfolding split
split-append sep [] s h = ground arith
split-append sep (c ∷ p) s h = ground (arith, split-append sep p s h.1)

-- Splitting a join at the separator gives the parts back, if none of them holds it.
pub split-join :
    (sep : ℕ) (p : Text) (ps : List Text)
    → Lacks sep p
    → All (Lacks sep) ps
    → split sep (join sep (p ∷ ps)) ≡ p ∷ ps
unfolding join
split-join sep p [] hp h = split-Lacks sep p hp
split-join sep p (q ∷ ps) hp h =
    rw (split-append sep p (join sep (q ∷ ps)) hp, split-join sep q ps h.0 h.1)
