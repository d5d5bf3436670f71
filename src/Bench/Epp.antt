-- ===== src/Bench/Epp.antt =====
-- The EPP files of the CPUs: `read_epp_all`, `write_epp` and `apply_epp` of scripts/bench.py, and the
-- methods of `Bench` that set and restore them.
pub mod Mappings
use fake_big_little.Prelude.{
  ℕ, ◌+◌, ◌≡◌, ◌≢◌, refl, Bool, true, false, Option, none, some, List, [], ◌∷◌, ◌++◌, arith, ◌==◌,
  if◌then◌else◌, range, map, mem,
}
use fake_big_little.Prelude.Texts.{Text, codes}
use fake_big_little.Bench.World.{
  Env, World, Result, Error, ok, err, os_error, Io, pure, throw, ◌>>=◌, ◌>>◌, swallow,
}

-- A Python dict from CPUs to EPP names, in insertion order.
abbrev pub Mapping : Type 0
Mapping = List (ℕ × Text)

-- `d[k] = v`
unfoldable pub insert : ℕ → Text → Mapping → Mapping
insert k v [] = (k, v) ∷ []
insert k v ((j, u) ∷ d) = if k == j then (j, v) ∷ d else (j, u) ∷ insert k v d

-- `{**d, **{c: value for c in cpus}}`
unfoldable pub with_all : List ℕ → Text → Mapping → Mapping
unfolding insert
with_all [] value d = d
with_all (c ∷ cs) value d = with_all cs value (insert c value d)

abbrev pub epp_big : Text
epp_big = codes "performance"

abbrev pub epp_little : Text
epp_little = codes "power"

abbrev pub epp_flat : Text
epp_flat = codes "balance_performance"

-- `{**{c: EPP_BIG for c in big}, **{c: EPP_LITTLE for c in little}}`
unfoldable pub partitioned_mapping : List ℕ → List ℕ → Mapping
unfolding with_all
partitioned_mapping big little = with_all little epp_little (with_all big epp_big [])

-- `{c: value for c in range(nr_cpus())}`
unfoldable pub uniform_mapping : ℕ → Text → Mapping
unfolding with_all
uniform_mapping n value = with_all (range n) value []

abbrev pub read_all : (ℕ → Text) → List ℕ → Mapping
read_all epp [] = []
read_all epp (c ∷ cs) = (c, epp c) ∷ read_all epp cs

abbrev pub update : (ℕ → Text) → ℕ → Text → ℕ → Text
update epp cpu value c = if c == cpu then value else epp c

module _ (env : Env) where
  unfoldable pub read_epp_all : World → Mapping
  read_epp_all w = read_all w.epp (range env.nr_cpus)

  unfoldable pub write_epp : ℕ → Text → Io (Unit {0})
  write_epp cpu value w =
      let w' = record w { asked = w.asked + 1 } in
      if env.accepts w.asked cpu value
      then (ok tt, record w' { epp = update w.epp cpu value })
      else (err os_error, w')

  unfoldable pub apply_epp : Mapping → Io (Unit {0})
  apply_epp [] = pure tt
  apply_epp ((cpu, value) ∷ rest) = do write_epp cpu value; apply_epp rest

  -- The loop of `restore_epp`, over the items of `saved_epp`.
  unfoldable pub restore_epp : Mapping → Io (Unit {0})
  restore_epp [] = pure tt
  restore_epp ((cpu, value) ∷ rest) = do swallow (write_epp cpu value); restore_epp rest
