-- ===== src/Analyze/RunFiles.antt =====
-- `find_run_files`, `load_runs`, `write_markdown` and the order of the steps of `main` of
-- scripts/analyze.py.
pub mod Loaded
use fake_big_little.Prelude.{
  ℕ, ◌+◌, Bool, true, false, not, Option, none, some, List, [], ◌∷◌, ◌++◌, map, keep, ◌==◌, take,
  drop, length, ◌-◌, if◌then◌else◌,
}
use fake_big_little.Prelude.Texts.{Text, codes, text_eq}
use fake_big_little.Json.{Value, obj, str, Fields, end, field}
use fake_big_little.Analyze.Floats.{sort_by}
use fake_big_little.Analyze.Groups.{text_lt}

-- What `os.walk` gives: each directory with the names of its files.
abbrev pub Walk : Type 0
Walk = List (Text × List Text)

unfoldable pub ends_with : Text → Text → Bool
unfolding text_eq
ends_with suffix name = text_eq (drop (length name - length suffix) name) suffix

-- `os.path.join`
unfoldable pub join_path : Text → Text → Text
unfolding ends_with
join_path dir name = if ends_with (codes "/") dir then dir ++ name else dir ++ b'/' ∷ name

unfoldable pub hits_in : Text × List Text → List Text
unfolding ends_with join_path sort_by text_lt
hits_in (dir, names) =
    map (join_path dir) (keep (λ n. ends_with (codes ".json") n) (sort_by text_lt names))

unfoldable pub hits : Walk → List Text
unfolding hits_in
hits [] = []
hits (d ∷ walk) = hits_in d ++ hits walk

unfoldable pub find_run_files : Walk → List Text
unfolding hits sort_by text_lt
find_run_files walk = sort_by text_lt (hits walk)

-- `obj["_file"] = path`
unfoldable pub with_file : Text → Fields → Fields
unfolding text_eq
with_file path end = field (codes "_file") (str path) end
with_file path (field k v rest) =
    let rest' = with_file path rest in
    if text_eq (codes "_file") k then field k (str path) rest else field k v rest'

pub data Fault : Type 0 where
  unreadable not_an_object : Fault

-- An entry of `errors`.
pub record LoadError : Type 0 where
  pub file : Text
  pub error : Fault

-- The body of the loop; the file is read and parsed by `json.load`, which may fail.
unfoldable pub add_file :
    Text → Option Value → List Fields × List LoadError → List Fields × List LoadError
unfolding with_file
add_file path none (runs, errors) = (runs, record { file = path; error = unreadable } ∷ errors)
add_file path (some (obj fields)) (runs, errors) = (with_file path fields ∷ runs, errors)
add_file path (some _) (runs, errors) =
    (runs, record { file = path; error = not_an_object } ∷ errors)

unfoldable pub load_files : (Text → Option Value) → List Text → List Fields × List LoadError
unfolding add_file
load_files load [] = ([], [])
load_files load (path ∷ paths) = add_file path (load path) (load_files load paths)

unfoldable pub load_runs : (Text → Option Value) → Walk → List Fields × List LoadError
unfolding find_run_files load_files
load_runs load walk = load_files load (find_run_files walk)

-- The text of a file, if there is one and it can be read.
pub data Existing : Type 0 where
  missing unreadable_file : Existing
  content : Text → Existing

-- `needle in hay`
unfoldable pub starts_with : Text → Text → Bool
unfolding text_eq
starts_with needle hay = text_eq (take (length needle) hay) needle

unfoldable pub contains : Text → Text → Bool
unfolding starts_with
contains needle [] = starts_with needle []
contains needle (c ∷ hay) =
    let later = contains needle hay in if starts_with needle (c ∷ hay) then true else later

unfoldable pub generated_marker : Text
generated_marker = codes "<!-- GENERATED FILE -- DO NOT EDIT BY HAND."

-- Whether `write_markdown` writes; otherwise it ends the script.
unfoldable pub may_write : Existing → Bool
unfolding contains generated_marker
may_write missing = true
may_write unreadable_file = contains generated_marker []
may_write (content text) = contains generated_marker (take 4096 text)

-- How `main` ends, with what it has written.
pub data MainEnd (R : Type 0) : Type 0 where
  no_directory no_runs : MainEnd R
  refused : MainEnd R
  reported : R → MainEnd R

-- The steps of `main`: the runs are loaded, and `results` of them are written and reported.
unfoldable pub main_end :
    {R : Type 0} → (Text → Option Value) → Bool → Walk → Existing → (List Fields → R) → MainEnd R
unfolding load_runs may_write
main_end load is_dir walk report results =
    let runs = (load_runs load walk).0 in
    if not is_dir then no_directory else elim runs [
      | [] ↦ no_runs
      | r ∷ rs ↦ if may_write report then reported (results (r ∷ rs)) else refused
    ]
