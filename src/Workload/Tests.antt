-- ===== src/Workload/Tests.antt =====
-- Runs of scripts/workload.py with a generator that counts.
use fake_big_little.Prelude.{ℕ, suc, ◌≡◌, refl, true, false, some, List, [], ◌∷◌, ◌++◌, map, take}
use fake_big_little.Prelude.Texts.{Text, codes}
use fake_big_little.Workload.Source.{Rng, gen_function}
use fake_big_little.Workload.{Tree, WorkloadArgs, take_steps, up_to_date, removal, main, steps_of}
use fake_big_little.Workload.Again.{building, unforced, main_again, main_interrupted}

-- It gives the lower bound, the first choice and a half, and counts the calls.
abbrev counting : Rng ℕ
counting = record {
  seeded = λ seed. 0;
  randint = λ lo hi r. (lo, suc r);
  choice = λ n r. (0, suc r);
  random_9f = λ r. (codes "0.500000000", suc r);
}

abbrev names : List (Text × Text) → List Text
names files = map (λ (f : Text × Text). f.0) files

abbrev args : WorkloadArgs
args = record { files = 2; funcs = 1; seed = 7; force = false }

abbrev stale : Tree
stale = some ((codes "mod000.c", codes "x") ∷ (codes ".stamp", codes "1:1:7") ∷ [])

-- 24 variables with five draws each but the first, the number of them, and eight cases
draws : (gen_function counting 0 0).1 ≡ 124
unfolding gen_function
draws = refl

main_again_example :
    steps_of counting names (unforced counting args) (main counting names args stale) ≡ []
main_again_example = main_again counting args names names stale

main_interrupted_example :
    main counting names args
      (take_steps (removal names stale ++ take 2 (building counting args)) stale)
    ≡ main counting names args stale
unfolding up_to_date
main_interrupted_example = main_interrupted counting args names names stale 2 refl

abbrev made : Tree
made = some ((codes "mod000.c", codes "x") ∷ (codes ".stamp", codes "2:1:7" ++ 10 ∷ []) ∷ [])

-- A run with `--force` that is interrupted while it removes the files can leave the stamp without them.
stamp_survives : up_to_date args (take_steps (take 1 (removal names made)) made) ≡ true
unfolding up_to_date removal take_steps
stamp_survives = refl
