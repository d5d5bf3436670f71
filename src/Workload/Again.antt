-- ===== src/Workload/Again.antt =====
-- scripts/workload.py: a second run does nothing, and a run that was interrupted is made good by the next.
use fake_big_little.Prelude.{
  ℕ, zero, suc, ◌≡◌, refl, sym, ap, ◌∙◌, Bool, true, false, not, ◌&&◌, Option, none, some, List, [],
  ◌∷◌, ◌++◌, take, if◌then◌else◌, and_true,
}
use fake_big_little.Prelude.Texts.{Text, text_eq, text_eq_self}
use fake_big_little.Workload.Source.{Rng}
use fake_big_little.Workload.{
  Tree, Step, make_dirs, write, without, read, take_steps, WorkloadArgs, stamp, wanted, up_to_date,
  removal, writes, generate, steps_of, main,
}
use fake_big_little.Workload.Steps.{
  take_steps-append, removal_clears, Other, Other-take_steps, All-take, writes-All,
}

module _ {R : Type 0} (rng : Rng R) (args : WorkloadArgs) where
  -- What is done where there is no directory, up to the stamp.
  abbrev pub building : List Step
  building = make_dirs ∷ writes rng args

  building_gives :
      (later : List (Text × Text)) × ((take_steps building none ≡ some later)
        × (read stamp later ≡ none))
  unfolding take_steps read
  building_gives = Other-take_steps (writes rng args) [] (writes-All rng args) refl

  -- Interrupted on the way, it leaves no stamp.
  building_unfinished : (k : ℕ) → up_to_date args (take_steps (take k building) none) ≡ false
  unfolding take_steps up_to_date read
  building_unfinished zero = refl
  building_unfinished (suc k) =
      let (later, (e, r)) =
        Other-take_steps (take k (writes rng args)) []
          (All-take Other k (writes rng args) (writes-All rng args)) refl in
      ap (up_to_date args) e
      ∙ ap (λ (o : Option Text). elim o [ none ↦ false | some t ↦ text_eq t (wanted args) ]) r

  stamped :
      (files : List (Text × Text)) → up_to_date args (some ((stamp, wanted args) ∷ files)) ≡ true
  unfolding up_to_date read
  stamped files =
      ap
        (λ b.
          let found = if b then some (wanted args) else read stamp files in
          elim found [ none ↦ false | some t ↦ text_eq t (wanted args) ])
        (text_eq_self stamp)
      ∙ text_eq_self (wanted args)

  finished : up_to_date args (take_steps (building ++ write stamp (wanted args) ∷ []) none) ≡ true
  unfolding take_steps
  finished =
      let (later, (e, r)) = building_gives in
      ap (up_to_date args) (
        take_steps-append building (write stamp (wanted args) ∷ []) none
        ∙ ap (take_steps (write stamp (wanted args) ∷ [])) e)
      ∙ stamped (without stamp later)

  -- Where the project is not up to date, the run makes the same one whatever was there.
  main_regenerates :
      (listing : List (Text × Text) → List Text) (tree : Tree)
      → (not args.force && up_to_date args tree) ≡ false
      → main rng listing args tree ≡ take_steps (building ++ write stamp (wanted args) ∷ []) none
  unfolding main steps_of generate
  main_regenerates listing tree h =
      ap (λ b. take_steps (if b then [] else steps) tree) h
      ∙ take_steps-append (removal listing tree ++ building) last tree
      ∙ ap (take_steps last) (
          take_steps-append (removal listing tree) building tree
          ∙ ap (take_steps building) (removal_clears listing tree))
      ∙ sym (take_steps-append building last none)
    where
      last : List Step
      last = write stamp (wanted args) ∷ []

      steps : List Step
      steps = (removal listing tree ++ building) ++ last

  main_kept :
      (listing : List (Text × Text) → List Text) (tree : Tree)
      → (not args.force && up_to_date args tree) ≡ true
      → main rng listing args tree ≡ tree
  unfolding main steps_of take_steps
  main_kept listing tree h =
      ap
        (λ b.
          take_steps
            (if b then [] else generate rng listing args tree ++ write stamp (wanted args) ∷ [])
            tree)
        h

  main-up_to_date :
      (listing : List (Text × Text) → List Text) (tree : Tree)
      → up_to_date args (main rng listing args tree) ≡ true
  main-up_to_date listing tree = split (not args.force && up_to_date args tree) refl
    where
      split :
          (b : Bool)
          → (not args.force && up_to_date args tree) ≡ b
          → up_to_date args (main rng listing args tree) ≡ true
      split true h =
          ap (up_to_date args) (main_kept listing tree h) ∙ (and_true (not args.force) _ h).1
      split false h = ap (up_to_date args) (main_regenerates listing tree h) ∙ finished

  -- `--force` left out
  abbrev pub unforced : WorkloadArgs
  unforced = record { files = args.files; funcs = args.funcs; seed = args.seed; force = false }

  unforced_same : (tree : Tree) → up_to_date unforced tree ≡ up_to_date args tree
  unfolding up_to_date wanted
  unforced_same none = refl
  unforced_same (some files) = refl

  nothing_to_do :
      (listing : List (Text × Text) → List Text) (tree : Tree)
      → up_to_date unforced tree ≡ true
      → steps_of rng listing unforced tree ≡ []
  unfolding steps_of
  nothing_to_do listing tree h =
      ap
        (λ b.
          if b
          then []
          else generate rng listing unforced tree ++ write stamp (wanted unforced) ∷ [])
        h

  -- After a run with these arguments, whatever was there, a run without `--force` has nothing to do.
  pub main_again :
      (listing listing' : List (Text × Text) → List Text) (tree : Tree)
      → steps_of rng listing' unforced (main rng listing args tree) ≡ []
  main_again listing listing' tree =
      nothing_to_do listing' (main rng listing args tree)
        (unforced_same (main rng listing args tree) ∙ main-up_to_date listing tree)

  -- A run that does generate and is interrupted after it has removed what was there and before it writes
  -- the stamp is made good: the next run with the same arguments leaves what the whole run leaves.
  pub main_interrupted :
      (listing listing' : List (Text × Text) → List Text) (tree : Tree) (k : ℕ)
      → (not args.force && up_to_date args tree) ≡ false
      → main rng listing' args (take_steps (removal listing tree ++ take k building) tree)
        ≡ main rng listing args tree
  main_interrupted listing listing' tree k h =
      main_regenerates listing' _ (unfinished args.force) ∙ sym (main_regenerates listing tree h)
    where
      unfinished :
          (force : Bool)
          → (not force
              && up_to_date args (take_steps (removal listing tree ++ take k building) tree))
            ≡ false
      unfinished true = refl
      unfinished false =
          ap (up_to_date args) (
            take_steps-append (removal listing tree) (take k building) tree
            ∙ ap (take_steps (take k building)) (removal_clears listing tree))
          ∙ building_unfinished k
