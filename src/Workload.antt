-- ===== src/Workload.antt =====
-- scripts/workload.py: the generator of the C project that the harness compiles, and the stamp by which
-- it tells whether the project is there.
pub mod Source
pub mod Steps
pub mod Again
mod Tests
use fake_big_little.Prelude.{
  ℕ, zero, suc, ◌+◌, Bool, true, false, not, ◌&&◌, Option, none, some, List, [], ◌∷◌, ◌++◌, map,
  range, if◌then◌else◌,
}
use fake_big_little.Prelude.Texts.{Text, codes, text_eq}
use fake_big_little.Prelude.Decimal.{str_ℕ}
use fake_big_little.Workload.Source.{Rng, file_name, sources, makefile}

-- The directory `--path`, if it exists: its files with their contents.
abbrev pub Tree : Type 0
Tree = Option (List (Text × Text))

-- What is done to it, one system call after the other.
pub data Step : Type 0 where
  unlink : Text → Step
  remove_dir make_dirs : Step
  write : Text → Text → Step

unfoldable pub without : Text → List (Text × Text) → List (Text × Text)
without name [] = []
without name ((n, t) ∷ files) =
    let rest = without name files in if text_eq name n then rest else (n, t) ∷ rest

unfoldable pub read : Text → List (Text × Text) → Option Text
read name [] = none
read name ((n, t) ∷ files) = let later = read name files in if text_eq name n then some t else later

-- `makedirs` is called where there is no directory, and `open` for writing where there is one.
unfoldable pub take_step : Step → Tree → Tree
unfolding without
take_step (unlink name) none = none
take_step (unlink name) (some files) = some (without name files)
take_step remove_dir tree = none
take_step make_dirs none = some []
take_step make_dirs (some files) = some files
take_step (write name text) none = none
take_step (write name text) (some files) = some ((name, text) ∷ without name files)

unfoldable pub take_steps : List Step → Tree → Tree
unfolding take_step
take_steps [] tree = tree
take_steps (s ∷ steps) tree = take_steps steps (take_step s tree)

pub record WorkloadArgs : Type 0 where
  pub files : ℕ
  pub funcs : ℕ
  pub seed : ℕ
  pub force : Bool

unfoldable pub stamp : Text
stamp = codes ".stamp"

-- `want`
unfoldable pub wanted : WorkloadArgs → Text
unfolding str_ℕ
wanted args = str_ℕ args.files ++ b':' ∷ str_ℕ args.funcs ++ b':' ∷ str_ℕ args.seed ++ 10 ∷ []

unfoldable pub up_to_date : WorkloadArgs → Tree → Bool
unfolding read stamp wanted text_eq
up_to_date args none = false
up_to_date args (some files) = elim (read stamp files) [
  | none ↦ false
  | some t ↦ text_eq t (wanted args)
]

-- `shutil.rmtree`, which meets the files in some order
unfoldable pub removal : (List (Text × Text) → List Text) → Tree → List Step
removal listing none = []
removal listing (some files) = map unlink (listing files) ++ remove_dir ∷ []

-- The files that `generate` writes.
unfoldable pub writes : {R : Type 0} → Rng R → WorkloadArgs → List Step
unfolding sources file_name makefile
writes rng args =
    map (λ (f : ℕ × Text). write (file_name f.0) f.1)
      (sources rng args.funcs (range args.files) (rng.seeded args.seed))
    ++ write (codes "Makefile") (makefile args.files) ∷ []

unfoldable pub generate :
    {R : Type 0} → Rng R → (List (Text × Text) → List Text) → WorkloadArgs → Tree → List Step
unfolding removal writes
generate rng listing args tree = removal listing tree ++ make_dirs ∷ writes rng args

-- `main`
unfoldable pub steps_of :
    {R : Type 0} → Rng R → (List (Text × Text) → List Text) → WorkloadArgs → Tree → List Step
unfolding up_to_date generate stamp wanted
steps_of rng listing args tree =
    let steps = generate rng listing args tree ++ write stamp (wanted args) ∷ [] in
    if not args.force && up_to_date args tree then [] else steps

unfoldable pub main :
    {R : Type 0} → Rng R → (List (Text × Text) → List Text) → WorkloadArgs → Tree → Tree
unfolding steps_of take_steps
main rng listing args tree = take_steps (steps_of rng listing args tree) tree
