-- ===== src/Workload/Source.antt =====
-- The texts that scripts/workload.py writes: `gen_function`, the C files and the Makefile.
use fake_big_little.Prelude.{
  ℕ, ◌+◌, ◌-◌, ◌*◌, none, some, List, [], ◌∷◌, ◌++◌, map, range, range_from, ltb, get_elem?,
  if◌then◌else◌,
}
use fake_big_little.Prelude.Texts.{Text, codes}
use fake_big_little.Prelude.Decimal.{str_ℕ}

-- `random.Random`, with the state made explicit; `choice` gives an index below the length, and
-- `random_9f` the text of a number with nine decimals.
pub record Rng (R : Type 0) : Type 0 where
  pub seeded : ℕ → R
  pub randint : ℕ → ℕ → R → ℕ × R
  pub choice : ℕ → R → ℕ × R
  pub random_9f : R → Text × R

-- `sep.join(parts)`
unfoldable pub join_by : Text → List Text → Text
join_by sep [] = []
join_by sep (p ∷ []) = p
join_by sep (p ∷ q ∷ ps) = p ++ sep ++ join_by sep (q ∷ ps)

abbrev newline : Text
newline = 10 ∷ []

abbrev tab : Text
tab = 9 ∷ []

abbrev operators : List Text
operators = codes "+" ∷ codes "-" ∷ codes "*" ∷ []

abbrev calls : List Text
calls = codes "sin" ∷ codes "cos" ∷ codes "sqrt" ∷ codes "fabs" ∷ codes "exp" ∷ codes "log1p" ∷ []

-- `xs[i]`; the index is below the length.
abbrev text_at : List Text → ℕ → Text
text_at xs i = elim (get_elem? xs i) [ none ↦ [] | some t ↦ t ]

module _ {R : Type 0} (rng : Rng R) where
  -- The line of the variable `v`.
  unfoldable pub local_line : ℕ → R → Text × R
  unfolding str_ℕ
  local_line v r =
      let (p, r1) = rng.randint 0 (v - 1) r in
      let (q, r2) = rng.randint 0 (v - 1) r1 in
      let (op, r3) = rng.choice 3 r2 in
      let (fn, r4) = rng.choice 6 r3 in
      let (x, r5) = rng.random_9f r4 in
      (
        tab
            ++ codes "double a"
            ++ str_ℕ v
            ++ codes " = "
            ++ text_at calls fn
            ++ codes "(a"
            ++ str_ℕ p
            ++ codes " "
            ++ text_at operators op
            ++ codes " a"
            ++ str_ℕ q
            ++ codes " + "
            ++ x
            ++ codes ");",
        r5,
      )

  unfoldable pub case_line : ℕ → ℕ → R → Text × R
  unfolding str_ℕ
  case_line nvars c r =
      let (v, r') = rng.randint 0 (nvars - 1) r in
      (
        tab
            ++ codes "case "
            ++ str_ℕ c
            ++ codes ": return a"
            ++ str_ℕ v
            ++ codes " * "
            ++ str_ℕ (c + 1)
            ++ codes ".5;",
        r',
      )

  -- A loop that appends one text for each number.
  unfoldable pub each : (ℕ → R → Text × R) → List ℕ → R → List Text × R
  each line [] r = ([], r)
  each line (k ∷ ks) r =
      let (t, r1) = line k r in let (rest, r2) = each line ks r1 in (t ∷ rest, r2)

  unfoldable pub gen_function : ℕ → R → Text × R
  unfolding each local_line case_line join_by str_ℕ
  gen_function idx r =
      let (nvars, r1) = rng.randint 24 40 r in
      let (locals, r2) = each local_line (range_from 1 (nvars - 1)) r1 in
      let (cases, r3) = each (case_line nvars) (range 8) r2 in
      let last = str_ℕ (nvars - 1) in
      (
        join_by newline (
            (codes "double f" ++ str_ℕ idx ++ codes "(double x, double y)")
              ∷ codes "{"
              ∷ (tab ++ codes "double a0 = x + y;")
              ∷ locals
            ++ (tab ++ codes "switch ((int)a" ++ last ++ codes " & 7) {") ∷ cases
            ++ (tab ++ codes "}")
              ∷ (tab ++ codes "return a" ++ last ++ codes ";")
              ∷ codes "}"
              ∷ []),
        r3,
      )

  abbrev header : Text
  header = join_by newline (
      codes "/* generated by scripts/workload.py - do not edit */"
      ∷ codes "#include <stdint.h>"
      ∷ codes "#include <math.h>"
      ∷ []
      ∷ [])

  -- The body of the loop over the files: file `i` with its functions.
  unfoldable pub source : ℕ → ℕ → R → Text × R
  unfolding each gen_function join_by
  source nfuncs i r =
      let (functions, r') = each (λ j. gen_function (i * nfuncs + j)) (range nfuncs) r in
      (join_by (newline ++ newline) (header ∷ functions) ++ newline, r')

  -- The number and the text of each of the files.
  unfoldable pub sources : ℕ → List ℕ → R → List (ℕ × Text)
  unfolding source
  sources nfuncs [] r = []
  sources nfuncs (i ∷ is) r = let (text, r') = source nfuncs i r in (i, text) ∷ sources nfuncs is r'

-- `f"mod{i:03d}"`
unfoldable pub stem : ℕ → Text
unfolding str_ℕ
stem i =
    codes "mod" ++ (if ltb i 10 then codes "00" else if ltb i 100 then codes "0" else []) ++ str_ℕ i

unfoldable pub file_name : ℕ → Text
unfolding stem
file_name i = stem i ++ codes ".c"

unfoldable pub makefile : ℕ → Text
unfolding stem join_by
makefile nfiles = join_by newline (
    codes "# generated by scripts/workload.py - do not edit"
    ∷ codes "CC ?= cc"
    ∷ codes "CFLAGS ?= -O2 -fno-lto -w"
    ∷ (codes "OBJS := " ++ join_by (codes " ") (map (λ i. stem i ++ codes ".o") (range nfiles)))
    ∷ codes "all: $(OBJS)"
    ∷ codes "%.o: %.c"
    ∷ (tab ++ codes "$(CC) $(CFLAGS) -c $< -o $@")
    ∷ codes "clean:"
    ∷ (tab ++ codes "rm -f $(OBJS)")
    ∷ codes ".PHONY: all clean"
    ∷ []
    ∷ [])
