-- ===== src/Bench/CpuList.antt =====
-- `cpulist` and `parse_cpulist` of scripts/bench.py: CPU numbers as text such as `0-1,4-5`.
use fake_big_little.Prelude.{
  ℕ, suc, ◌+◌, ◌-◌, ◌≤◌, ◌≡◌, ◌≢◌, refl, ap, ◌∙◌, true, false, Option, none, some, List, [], ◌∷◌,
  ◌++◌, append_assoc, append-nil, arith, ◌==◌, if◌then◌else◌, ◌>>=?◌, Bool-cases, Option-cases, inl,
  inr, All, All-append, range_from, range_from-suc, mem,
}
use mathlib.Core.List.{concat-ne-nil}
use fake_big_little.Prelude.Sorting.{sorted}
use fake_big_little.Prelude.Texts.{Text, Lacks, split, split-Lacks, split-append, split-join, join}
use fake_big_little.Prelude.Decimal.{str_ℕ, str_ℕ-IsDigit, int, int-str_ℕ, IsDigit}

-- `str(start) if start == prev else f"{start}-{prev}"`
span : ℕ → ℕ → Text
span start prev = if start == prev then str_ℕ start else str_ℕ start ++ b'-' ∷ str_ℕ prev

-- The loop over `cpus[1:] + [None]`: the last round finds no CPU and closes the open span.
spans : List ℕ → ℕ → ℕ → List Text → List Text
spans [] start prev parts = parts ++ span start prev ∷ []
spans (c ∷ cs) start prev parts = elim (c == prev + 1) [
  | true ↦ spans cs start c parts
  | false ↦ spans cs c c (parts ++ span start prev ∷ [])
]

unfoldable pub cpulist : List ℕ → Text
unfolding spans span
cpulist [] = []
cpulist (c ∷ cs) = join b',' (spans cs c c [])

-- `a, b = part.split("-")`: any other number of pieces is a `ValueError`.
int_range : List Text → Option (List ℕ)
int_range (a ∷ b ∷ []) = int a >>=? λ lo. int b >>=? λ hi. some (range_from lo (hi + 1 - lo))
int_range _ = none

parse_part : Text → Option (List ℕ)
unfolding int_range
parse_part part =
    if mem b'-' part then int_range (split b'-' part) else int part >>=? λ n. some (n ∷ [])

parse_parts : List Text → List ℕ → Option (List ℕ)
parse_parts [] out = some out
parse_parts (p ∷ ps) out = parse_part p >>=? λ cpus. parse_parts ps (out ++ cpus)

-- `none` is a `ValueError`.
unfoldable pub parse_cpulist : Text → Option (List ℕ)
unfolding parse_parts parse_part
parse_cpulist s = parse_parts (split b',' s) [] >>=? λ out. some (sorted out)

digits-Lacks : (b : ℕ) (s : Text) → b ≤ 45 → All IsDigit s → Lacks b s
digits-Lacks b [] h d = tt
digits-Lacks b (c ∷ s) h d = (omega arith, digits-Lacks b s h d.1)

str_ℕ-Lacks : (b n : ℕ) → b ≤ 45 → Lacks b (str_ℕ n)
str_ℕ-Lacks b n h = digits-Lacks b (str_ℕ n) h (str_ℕ-IsDigit n)

mem-Lacks : (b : ℕ) (s : Text) → Lacks b s → mem b s ≡ false
mem-Lacks b [] h = refl
mem-Lacks b (c ∷ s) h = ground (arith, mem-Lacks b s h.1)

mem_middle : (b : ℕ) (s t : Text) → mem b (s ++ b ∷ t) ≡ true
mem_middle b [] t = ground arith
mem_middle b (c ∷ s) t = ground (arith, mem_middle b s t)

parse_part_number : (n : ℕ) → parse_part (str_ℕ n) ≡ some (n ∷ [])
unfolding parse_part
parse_part_number n = rw (mem-Lacks b'-' (str_ℕ n) (str_ℕ-Lacks b'-' n (omega arith)), int-str_ℕ n)

parse_part_range :
    (a b : ℕ) → parse_part (str_ℕ a ++ b'-' ∷ str_ℕ b) ≡ some (range_from a (b + 1 - a))
unfolding parse_part
parse_part_range a b = rw (
  mem_middle b'-' (str_ℕ a) (str_ℕ b),
  split-append b'-' (str_ℕ a) (str_ℕ b) (str_ℕ-Lacks b'-' a (omega arith)),
  split-Lacks b'-' (str_ℕ b) (str_ℕ-Lacks b'-' b (omega arith)),
  int_range,
  int-str_ℕ a,
  int-str_ℕ b,
)

parse_part-span :
    (start prev : ℕ) → parse_part (span start prev) ≡ some (range_from start (prev + 1 - start))
unfolding span
parse_part-span start prev = elim (Bool-cases (start == prev)) [
  | inl e ↦
      let same : start ≡ prev = ground arith in
      let one : prev + 1 - start ≡ 1 = omega arith in rw (e, one) (parse_part_number start)
  | inr e ↦ rw e (parse_part_range start prev)
]

parse_parts-append :
    (ps : List Text) (p : Text) (out : List ℕ) {done cpus : List ℕ}
    → parse_parts ps out ≡ some done
    → parse_part p ≡ some cpus
    → parse_parts (ps ++ p ∷ []) out ≡ some (done ++ cpus)
unfolding parse_parts
parse_parts-append [] p out {done} {cpus} h e = rw e (ap some (ap (λ (t : List ℕ). t ++ cpus) (cc)))
parse_parts-append (q ∷ ps) p out {done} {cpus} h e = elim (Option-cases (parse_part q)) [
  | inl none_at ↦ ground arith
  | inr (xs, at) ↦ rw at (parse_parts-append ps p (out ++ xs) (ground arith) e)
]

spans_next :
    (c start prev : ℕ) (cs : List ℕ) (parts : List Text)
    → (c == prev + 1) ≡ true
    → spans (c ∷ cs) start prev parts ≡ spans cs start c parts
unfolding spans
spans_next c start prev cs parts e = rw (e, spans)

spans_gap :
    (c start prev : ℕ) (cs : List ℕ) (parts : List Text)
    → (c == prev + 1) ≡ false
    → spans (c ∷ cs) start prev parts ≡ spans cs c c (parts ++ span start prev ∷ [])
unfolding spans
spans_gap c start prev cs parts e = rw (e, spans)

-- The CPUs of a span that grows by one, and of a span that begins.
span_grows :
    (start prev : ℕ) (cs : List ℕ)
    → start ≤ prev
    → range_from start (prev + 1 + 1 - start) ++ cs
      ≡ range_from start (prev + 1 - start) ++ (prev + 1) ∷ cs
span_grows start prev cs le =
    let width : prev + 1 + 1 - start ≡ suc (prev + 1 - start) = omega arith in
    let last : start + (prev + 1 - start) ≡ prev + 1 = omega arith in
    let k = prev + 1 - start in
    ap (λ (t : ℕ). range_from start t ++ cs) width
    ∙ ap (λ (t : List ℕ). t ++ cs) (range_from-suc start k)
    ∙ append_assoc (range_from start k) ((start + k) ∷ []) cs
    ∙ ap (λ (t : ℕ). range_from start k ++ t ∷ cs) last

span_begins : (c : ℕ) → range_from c (c + 1 - c) ≡ c ∷ []
span_begins c = let one : c + 1 - c ≡ 1 = omega arith in rw one

-- Reading the parts written so far, then the open span and the CPUs to come.
parse_parts-spans :
    (cs : List ℕ) (start prev : ℕ) (parts : List Text) {done : List ℕ}
    → start ≤ prev
    → parse_parts parts [] ≡ some done
    → parse_parts (spans cs start prev parts) []
      ≡ some (done ++ (range_from start (prev + 1 - start) ++ cs))
parse_parts-spans [] start prev parts {done} le h =
    unfold spans in
    rw append-nil (parse_parts-append parts (span start prev) [] h (parse_part-span start prev))
parse_parts-spans (c ∷ cs) start prev parts {done} le h = elim (Bool-cases (c == prev + 1)) [
  | inl e ↦
      let next : c ≡ prev + 1 = ground arith in
      rw (spans_next c start prev cs parts e, parse_parts-spans cs start c parts (omega arith) h)
        (rw next (ap (λ (t : List ℕ). some (done ++ t)) (span_grows start prev cs le)))
  | inr e ↦
      let closed = parse_parts-append parts (span start prev) [] h (parse_part-span start prev) in
      rw
        (
          spans_gap c start prev cs parts e,
          parse_parts-spans cs c c (parts ++ span start prev ∷ []) (omega arith) closed,
          span_begins c,
        )
        (ap some (append_assoc done (range_from start (prev + 1 - start)) (c ∷ cs)))
]

span-Lacks : (start prev : ℕ) → Lacks b',' (span start prev)
unfolding span
span-Lacks start prev = elim (Bool-cases (start == prev)) [
  | inl e ↦ rw e (str_ℕ-Lacks b',' start (omega arith))
  | inr e ↦ rw e (
      All-append _ (str_ℕ start) (b'-' ∷ str_ℕ prev) (str_ℕ-Lacks b',' start (omega arith))
        (omega arith, str_ℕ-Lacks b',' prev (omega arith)))
]

-- No part holds a comma, and there is a part.
abbrev IsParts : List Text → Type 0
IsParts ps = All (Lacks b',') ps × (ps ≢ [])

close_span :
    (parts : List Text) (start prev : ℕ)
    → All (Lacks b',') parts
    → All (Lacks b',') (parts ++ span start prev ∷ [])
close_span parts start prev h =
    All-append (Lacks b',') parts (span start prev ∷ []) h (span-Lacks start prev, tt)

spans-IsParts :
    (cs : List ℕ) (start prev : ℕ) (parts : List Text)
    → All (Lacks b',') parts
    → IsParts (spans cs start prev parts)
spans-IsParts [] start prev parts h =
    unfold spans in (close_span parts start prev h, concat-ne-nil (span start prev) parts)
spans-IsParts (c ∷ cs) start prev parts h = elim (Bool-cases (c == prev + 1)) [
  | inl e ↦ rw (spans_next c start prev cs parts e) (spans-IsParts cs start c parts h)
  | inr e ↦
      rw (spans_gap c start prev cs parts e)
        (spans-IsParts cs c c (parts ++ span start prev ∷ []) (close_span parts start prev h))
]

split-join-IsParts : (ps : List Text) → IsParts ps → split b',' (join b',' ps) ≡ ps
split-join-IsParts [] h = absurd (h.1 refl)
split-join-IsParts (p ∷ ps) h = split-join b',' p ps h.0.0 h.0.1

-- Reading back what `cpulist` writes for a list with at least one CPU gives the same CPUs, sorted.
pub parse_cpulist-cpulist :
    (cpus : List ℕ) → (cpus ≢ []) → parse_cpulist (cpulist cpus) ≡ some (sorted cpus)
parse_cpulist-cpulist [] h = absurd (h refl)
parse_cpulist-cpulist (c ∷ cs) h =
    unfold cpulist parse_cpulist in
    rw (
      split-join-IsParts (spans cs c c []) (spans-IsParts cs c c [] tt),
      parse_parts-spans cs c c [] {done = []} (omega arith) (unfold parse_parts in refl),
      span_begins c,
    )
