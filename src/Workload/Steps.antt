-- ===== src/Workload/Steps.antt =====
-- The steps of scripts/workload.py: what removing the old project and writing the files does.
use fake_big_little.Prelude.{
  ℕ, zero, suc, ◌≡◌, refl, ap, ◌∙◌, false, none, some, List, [], ◌∷◌, ◌++◌, map, range, take, All,
  All-append, if◌then◌else◌, arith,
}
use fake_big_little.Prelude.Texts.{Text, text_eq}
use fake_big_little.Workload.Source.{Rng, file_name, sources, stem}
use fake_big_little.Workload.{
  Tree, Step, unlink, remove_dir, make_dirs, write, without, read, take_step, take_steps,
  WorkloadArgs, stamp, removal, writes,
}

pub take_steps-append :
    (s t : List Step) (tree : Tree) → take_steps (s ++ t) tree ≡ take_steps t (take_steps s tree)
unfolding take_steps
take_steps-append [] t tree = refl
take_steps-append (x ∷ s) t tree = take_steps-append s t (take_step x tree)

-- After the removal there is no directory.
unlinks_clear :
    (names : List Text) (files : List (Text × Text))
    → take_steps (map unlink names ++ remove_dir ∷ []) (some files) ≡ none
unfolding take_steps
unlinks_clear [] files = refl
unlinks_clear (n ∷ names) files = unlinks_clear names (without n files)

pub removal_clears :
    (listing : List (Text × Text) → List Text) (tree : Tree)
    → take_steps (removal listing tree) tree ≡ none
unfolding removal take_steps
removal_clears listing none = refl
removal_clears listing (some files) = unlinks_clear (listing files) files

-- A file other than the stamp is written.
abbrev pub Other : Step → Type 0
Other (write name text) = text_eq stamp name ≡ false
Other _ = ⊥

read-without :
    (name other : Text) (files : List (Text × Text))
    → read name files ≡ none
    → read name (without other files) ≡ none
unfolding read without
read-without name other [] h = h
read-without name other ((n, t) ∷ files) h = ground (arith, read-without name other files)

read-other :
    (name text : Text) (files : List (Text × Text))
    → text_eq stamp name ≡ false
    → read stamp files ≡ none
    → read stamp ((name, text) ∷ without name files) ≡ none
unfolding read
read-other name text files h e =
    ap (λ b. if b then some text else read stamp (without name files)) h
    ∙ read-without stamp name files e

-- Writing others keeps the directory, and does not make a stamp.
pub Other-take_steps :
    (steps : List Step) (files : List (Text × Text))
    → All Other steps
    → read stamp files ≡ none
    → (later : List (Text × Text)) × ((take_steps steps (some files) ≡ some later)
        × (read stamp later ≡ none))
unfolding take_steps
Other-take_steps [] files h e = (files, (refl, e))
Other-take_steps (write name text ∷ steps) files (h, hs) e =
    Other-take_steps steps ((name, text) ∷ without name files) hs (read-other name text files h e)
Other-take_steps (unlink name ∷ steps) files (h, hs) e = absurd h
Other-take_steps (remove_dir ∷ steps) files (h, hs) e = absurd h
Other-take_steps (make_dirs ∷ steps) files (h, hs) e = absurd h

pub All-take : (P : Step → Type 0) (k : ℕ) (steps : List Step) → All P steps → All P (take k steps)
All-take P zero steps h = tt
All-take P (suc k) [] h = tt
All-take P (suc k) (s ∷ steps) (h, hs) = (h, All-take P k steps hs)

file_writes-All :
    (fs : List (ℕ × Text)) → All Other (map (λ (f : ℕ × Text). write (file_name f.0) f.1) fs)
unfolding stamp file_name stem text_eq
file_writes-All [] = tt
file_writes-All ((i, t) ∷ fs) = (refl, file_writes-All fs)

pub writes-All : {R : Type 0} (rng : Rng R) (args : WorkloadArgs) → All Other (writes rng args)
unfolding writes stamp text_eq
writes-All rng args =
    All-append Other _ _
      (file_writes-All (sources rng args.funcs (range args.files) (rng.seeded args.seed)))
      (refl, tt)
