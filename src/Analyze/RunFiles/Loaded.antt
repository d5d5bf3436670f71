-- ===== src/Analyze/RunFiles/Loaded.antt =====
-- `load_runs` of scripts/analyze.py: each file is a run, with its path, or an error.
use fake_big_little.Prelude.{
  ◌≡◌, refl, ap, sym, ◌∙◌, ◌⊎◌, inl, inr, Bool, true, false, Option, none, some, List, [], ◌∷◌,
  if◌then◌else◌,
}
use fake_big_little.Prelude.Texts.{Text, codes, text_eq}
use fake_big_little.Json.{Value, null, bool, int, real, str, arr, obj, Fields, end, field, get}
use fake_big_little.Analyze.RunFiles.{
  Walk, unreadable, not_an_object, LoadError, find_run_files, with_file, add_file, load_files,
  load_runs,
}

get-with_file :
    (path : Text) (fields : Fields) → get (codes "_file") (with_file path fields) ≡ some (str path)
unfolding get with_file text_eq
get-with_file path end = refl
get-with_file path (field k v rest) =
    split (text_eq (codes "_file") k) refl (get-with_file path rest)
  where
    split :
        (b : Bool)
        → text_eq (codes "_file") k ≡ b
        → get (codes "_file") (with_file path rest) ≡ some (str path)
        → get
            (codes "_file")
            (if b then field k (str path) rest else field k v (with_file path rest))
          ≡ some (str path)
    split true e h = ap (λ c. if c then some (str path) else get (codes "_file") rest) e
    split false e h =
        ap (λ c. if c then some v else get (codes "_file") (with_file path rest)) e ∙ h

-- The file holds an object, and the run is that object with the path of the file.
abbrev pub IsRunOf : (Text → Option Value) → Text → Fields → Type 0
IsRunOf load path run =
    (fields : Fields) × ((load path ≡ some (obj fields))
      × ((run ≡ with_file path fields) × (get (codes "_file") run ≡ some (str path))))

-- The error names the file, which could not be read or holds no object.
abbrev pub IsErrorOf : (Text → Option Value) → Text → LoadError → Type 0
IsErrorOf load path e =
    (e.file ≡ path)
    × (((load path ≡ none) × (e.error ≡ unreadable))
        ⊎ (((value : Value) × (load path ≡ some value))
            × (((fields : Fields) → ¬ (load path ≡ some (obj fields)))
                × (e.error ≡ not_an_object))))

-- The files, in their order, as they are taken for runs and for errors: each is one of both.
pub data Splits (load : Text → Option Value)
    : List Text → List Fields → List LoadError → Type 0 where
  done : Splits load [] [] []
  a_run :
      {path : Text} {run : Fields} {paths : List Text} {runs : List Fields}
      {errors : List LoadError}
      → IsRunOf load path run
      → Splits load paths runs errors
      → Splits load (path ∷ paths) (run ∷ runs) errors
  an_error :
      {path : Text} {e : LoadError} {paths : List Text} {runs : List Fields}
      {errors : List LoadError}
      → IsErrorOf load path e
      → Splits load paths runs errors
      → Splits load (path ∷ paths) runs (e ∷ errors)

abbrev pub Loaded : (Text → Option Value) → List Text → List Fields × List LoadError → Type 0
Loaded load paths (runs, errors) = Splits load paths runs errors

module _ (load : Text → Option Value) (path : Text) (paths : List Text) (runs : List Fields)
    (errors : List LoadError) (h : Loaded load paths (runs, errors)) where
  no_object :
      (value : Value)
      → load path ≡ some value
      → ((fields : Fields) → ¬ (some value ≡ some (obj fields)))
      → Loaded load (path ∷ paths) (runs, record { file = path; error = not_an_object } ∷ errors)
  no_object value e other =
      an_error (refl, inr ((value, e), (λ fields f. other fields (sym e ∙ f), refl))) h

  add_file-Loaded :
      (value : Option Value)
      → load path ≡ value
      → Loaded load (path ∷ paths) (add_file path value (runs, errors))
  unfolding add_file
  add_file-Loaded none e = an_error (refl, inl (e, refl)) h
  add_file-Loaded (some (obj fields)) e = a_run (fields, (e, (refl, get-with_file path fields))) h
  add_file-Loaded (some null) e = no_object null e (λ fields f. cc)
  add_file-Loaded (some (bool b)) e = no_object (bool b) e (λ fields f. cc)
  add_file-Loaded (some (int n)) e = no_object (int n) e (λ fields f. cc)
  add_file-Loaded (some (real s)) e = no_object (real s) e (λ fields f. cc)
  add_file-Loaded (some (str s)) e = no_object (str s) e (λ fields f. cc)
  add_file-Loaded (some (arr vs)) e = no_object (arr vs) e (λ fields f. cc)

load_files-Loaded :
    (load : Text → Option Value) (paths : List Text) → Loaded load paths (load_files load paths)
unfolding load_files
load_files-Loaded load [] = done
load_files-Loaded load (path ∷ paths) =
    add_file-Loaded load path paths (load_files load paths).0 (load_files load paths).1
      (load_files-Loaded load paths) (load path) refl

-- The files that are found, in their order, are each a run or an error: a run is the object that the
-- file holds with the path of that file, and an error names a file that could not be read or holds no
-- object.
pub load_runs-Loaded :
    (load : Text → Option Value) (walk : Walk)
    → Loaded load (find_run_files walk) (load_runs load walk)
unfolding load_runs
load_runs-Loaded load walk = load_files-Loaded load (find_run_files walk)
