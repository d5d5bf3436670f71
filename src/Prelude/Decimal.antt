-- ===== src/Prelude/Decimal.antt =====
-- Python's `str` and `int` on numbers without a sign.
use Prim.Native.Nat.{ℕ, zero, suc, ◌+◌, ◌-◌, ◌*◌, ◌/◌, ◌%◌, ◌≤◌, ◌<◌}
use mathlib.Core.Path.{◌≡◌, refl, ap}
use mathlib.Core.Logic.{◌≢◌, inl, inr}
use mathlib.Core.Bool.{Bool, true, false, ◌&&◌, ◌||◌}
use mathlib.Core.List.{[], ◌∷◌, reverse, reverse_aux, reverse-reverse}
use mathlib.Core.Option.{Option, none, some}
use native.Mathlib.Omega.{arith}
use fake_big_little.Prelude.Tests.{if◌then◌else◌, ◌==◌, leb, Bool-cases}
use fake_big_little.Prelude.Lists.{All}
use fake_big_little.Prelude.Texts.{Text}

-- The digits of `n`, the last one first found, with fuel above `n`.
emit : ℕ → ℕ → Text → Text
emit zero n out = out
emit (suc f) n out =
    let rest = emit f (n / 10) ((b'0' + n % 10) ∷ out) in if n == 0 then out else rest

-- `str(n)`
unfoldable pub str_ℕ : ℕ → Text
unfolding emit
str_ℕ n = if n == 0 then b'0' ∷ [] else emit (suc n) n []

is_space : ℕ → Bool
is_space c = c == 32 || (leb 9 c && leb c 13)

unfoldable pub lstrip : Text → Text
unfolding is_space
lstrip [] = []
lstrip (c ∷ s) = let rest = lstrip s in if is_space c then rest else c ∷ s

-- `s.strip()`, for ASCII white space
unfoldable pub strip : Text → Text
unfolding lstrip
strip s = reverse (lstrip (reverse (lstrip s)))

-- One character of `s.lower()`, for ASCII letters.
unfoldable pub lower : ℕ → ℕ
lower c = if leb b'A' c && leb c b'Z' then c + 32 else c

-- Digits, with single underscores between them; the flag says that a digit was the last character.
unfoldable pub scan : Text → ℕ → Bool → Option ℕ
scan [] n after = if after then some n else none
scan (c ∷ s) n after =
    let digit = scan s (n * 10 + (c - b'0')) true in
    let underscore = scan s n false in
    if leb b'0' c && leb c b'9' then digit else if c == b'_' && after then underscore else none

unfoldable pub drop_plus : Text → Text
drop_plus [] = []
drop_plus (c ∷ s) = if c == b'+' then s else c ∷ s

-- `int(s)` of a text with no minus sign; `none` is a `ValueError`.
unfoldable pub int : Text → Option ℕ
unfolding strip scan drop_plus
int s = scan (drop_plus (strip s)) 0 false

abbrev pub IsDigit : ℕ → Type 0
IsDigit c = (b'0' ≤ c) × (c ≤ b'9')

emit-IsDigit : (f n : ℕ) (out : Text) → All IsDigit out → All IsDigit (emit f n out)
unfolding emit
emit-IsDigit zero n out h = h
emit-IsDigit (suc f) n out h = elim (Bool-cases (n == 0)) [
  | inl e ↦ rw e h
  | inr e ↦ rw e (emit-IsDigit f (n / 10) ((b'0' + n % 10) ∷ out) (omega arith, h))
]

emit_zero : (f : ℕ) (out : Text) → emit f 0 out ≡ out
unfolding emit
emit_zero zero out = refl
emit_zero (suc f) out = refl

emit_step :
    (f n : ℕ) (out : Text) → (n ≢ 0) → emit (suc f) n out ≡ emit f (n / 10) ((b'0' + n % 10) ∷ out)
unfolding emit
emit_step f n out h = ground arith

pub str_ℕ-IsDigit : (n : ℕ) → All IsDigit (str_ℕ n)
unfolding str_ℕ
str_ℕ-IsDigit n = elim (Bool-cases (n == 0)) [
  | inl e ↦ rw e (omega arith)
  | inr e ↦ rw (emit_step n n [] (ground arith), e) (emit-IsDigit n (n / 10) _ (omega arith, tt))
]

scan_digit :
    (c n : ℕ) (s : Text) (after : Bool)
    → IsDigit c
    → scan (c ∷ s) n after ≡ scan s (n * 10 + (c - b'0')) true
unfolding scan
scan_digit c n s after h = ground arith

-- Reading the digits of `n` before a digit `d` gives `n`, then goes on from `d`.
scan-emit :
    (f n d : ℕ) (out : Text) (after : Bool)
    → n < f
    → IsDigit d
    → scan (emit f n (d ∷ out)) 0 after ≡ scan out (n * 10 + (d - b'0')) true
scan-emit zero n d out after h digit = absurd (omega arith)
scan-emit (suc f) zero d out after h digit = rw emit_zero (scan_digit d 0 out after digit)
scan-emit (suc f) (suc k) d out after h digit =
    let n = suc k in
    rw
      (
        emit_step f n (d ∷ out) (omega arith),
        scan-emit f (n / 10) (b'0' + n % 10) (d ∷ out) after (omega arith) (omega arith),
        scan_digit d _ out true digit,
      )
      (ap (λ (t : ℕ). scan out t true) (omega arith))

str_ℕ_pos : (n : ℕ) → (n ≢ 0) → str_ℕ n ≡ emit n (n / 10) ((b'0' + n % 10) ∷ [])
unfolding str_ℕ
str_ℕ_pos n h = rw (emit_step n n [] h) (ground arith)

scan_end : (n : ℕ) → scan [] n true ≡ some n
unfolding scan
scan_end n = refl

scan-str_ℕ : (n : ℕ) → scan (str_ℕ n) 0 false ≡ some n
scan-str_ℕ zero = unfold str_ℕ scan in refl
scan-str_ℕ (suc k) =
    let n = suc k in
    rw
      (
        str_ℕ_pos n (omega arith),
        scan-emit n (n / 10) (b'0' + n % 10) [] false (omega arith) (omega arith),
        scan_end,
      )
      (ap some (omega arith))

-- White space and a plus sign are no digits, so `strip` and `drop_plus` keep a text of digits.
lstrip-IsDigit : (s : Text) → All IsDigit s → lstrip s ≡ s
unfolding lstrip
lstrip-IsDigit [] h = refl
lstrip-IsDigit (c ∷ s) h = ground arith

All-reverse_aux : (s t : Text) → All IsDigit s → All IsDigit t → All IsDigit (reverse_aux s t)
All-reverse_aux [] t h k = k
All-reverse_aux (c ∷ s) t h k = All-reverse_aux s (c ∷ t) h.1 (h.0, k)

strip-IsDigit : (s : Text) → All IsDigit s → strip s ≡ s
unfolding strip
strip-IsDigit s h =
    rw (lstrip-IsDigit s h, lstrip-IsDigit (reverse s) (All-reverse_aux s [] h tt))
      (reverse-reverse s)

drop_plus-IsDigit : (s : Text) → All IsDigit s → drop_plus s ≡ s
unfolding drop_plus
drop_plus-IsDigit [] h = refl
drop_plus-IsDigit (c ∷ s) h = ground arith

-- `int` undoes `str`.
pub int-str_ℕ : (n : ℕ) → int (str_ℕ n) ≡ some n
int-str_ℕ n =
    let digits = str_ℕ-IsDigit n in
    unfold int in
    rw (strip-IsDigit (str_ℕ n) digits, drop_plus-IsDigit (str_ℕ n) digits) (scan-str_ℕ n)
