-- ===== src/Bench/Protocol/Steps.antt =====
-- Rules for steps that make runs: sequences, loops, and the steps that make none.
use fake_big_little.Prelude.{
  All, ℕ, ◌≡◌, refl, ◌∙◌, Bool, true, false, if◌then◌else◌, List, [], ◌∷◌, ◌++◌,
}
use fake_big_little.Prelude.Texts.{Text}
use fake_big_little.Bench.World.{
  Env, Scheduler, World, Result, ok, err, Io, pure, ◌>>=◌, ◌>>◌, for_each,
}
use fake_big_little.Bench.Rules.{Keeps, IsPassive}
use fake_big_little.Bench.Protocol.{Spec, Saved, Saved-none, Saved-trans, Cond, Now, Made, Makes}

-- Nothing of what the protocol speaks of changes.
pub record Quiet (w w' : World) : Type 0 where
  pub same_epp : w'.epp ≡ w.epp
  pub same_scheduler : w'.scheduler ≡ w.scheduler
  pub same_saved : w'.saved ≡ w.saved

pub Quiet-IsPassive : IsPassive Quiet
Quiet-IsPassive = record {
  trans = λ u v w h k. record {
    same_epp = k.same_epp ∙ h.same_epp;
    same_scheduler = k.same_scheduler ∙ h.same_scheduler;
    same_saved = k.same_saved ∙ h.same_saved;
  };
  passes = λ w t n. record { same_epp = refl; same_scheduler = refl; same_saved = refl };
}

module _ (env : Env) where
  Now-of_Quiet : (E : Cond) (w w' : World) → Quiet w w' → Now E w → Now E w'
  Now-of_Quiet E w w' q h = rw (q.same_epp, q.same_scheduler) h

  Quiet-end :
      (E : Cond) {A : Type 0} (w : World) (p : Result A × World)
      → Quiet w p.1
      → Now E w
      → Made env E [] w p
  Quiet-end E w (ok a, w') q h = (Saved-none env w w' q.same_saved, Now-of_Quiet E w w' q h)
  Quiet-end E w (err e, w') q h = tt

  -- A step that leaves all this alone makes no runs.
  pub Quiet-Makes : (E : Cond) {A : Type 0} (m : Io A) → Keeps Quiet m → Makes env E E [] m
  Quiet-Makes E m q = record { makes = λ w h. Quiet-end E w (m w) (q.keeps w) h }

  pub then_end :
      (G : Cond) (ss ts : List Spec) {A : Type 0} (u v : World) (q : Result A × World)
      → Saved env ss u v
      → Made env G ts v q
      → Made env G (ss ++ ts) u q
  then_end G ss ts u v (ok a, w) h k = (Saved-trans env ss ts u v w h k.0, k.1)
  then_end G ss ts u v (err e, w) h k = tt

  bind_end :
      (F G : Cond) (ss ts : List Spec) {A B : Type 0} (w : World) (p : Result A × World)
      (f : A → Io B)
      → Made env F ss w p
      → ((a : A) → Makes env F G ts (f a))
      → Made env G
          (ss ++ ts)
          w
          (elim p.0 as (λ _. Result B × World) [ ok a ↦ f a p.1 | err e ↦ (err e, p.1) ])
  bind_end F G ss ts w (ok a, w') f h k = then_end G ss ts w w' (f a w') h.0 ((k a).makes w' h.1)
  bind_end F G ss ts w (err e, w') f h k = tt

  pub bind-Makes :
      (E F G : Cond) (ss ts : List Spec) {A B : Type 0} (m : Io A) (f : A → Io B)
      → Makes env E F ss m
      → ((a : A) → Makes env F G ts (f a))
      → Makes env E G (ss ++ ts) (m >>= f)
  unfolding ◌>>=◌
  bind-Makes E F G ss ts m f h k = record {
    makes = λ w e. bind_end F G ss ts w (m w) f (h.makes w e) k;
  }

  pub then-Makes :
      (E F G : Cond) (ss ts : List Spec) {A B : Type 0} (m : Io A) (k : Io B)
      → Makes env E F ss m
      → Makes env F G ts k
      → Makes env E G (ss ++ ts) (m >> k)
  unfolding ◌>>◌
  then-Makes E F G ss ts m k h h' = bind-Makes E F G ss ts m (λ _. k) h (λ _. h')

  -- Quiet steps before the runs.
  pub after-Quiet :
      (E G : Cond) (ts : List Spec) {A B : Type 0} (m : Io A) (f : A → Io B)
      → Keeps Quiet m
      → ((a : A) → Makes env E G ts (f a))
      → Makes env E G ts (m >>= f)
  after-Quiet E G ts m f q k = bind-Makes E E G [] ts m f (Quiet-Makes E m q) k

  pub then-Quiet :
      (E G : Cond) (ts : List Spec) {A B : Type 0} (m : Io A) (k : Io B)
      → Keeps Quiet m
      → Makes env E G ts k
      → Makes env E G ts (m >> k)
  then-Quiet E G ts m k q h = then-Makes E E G [] ts m k (Quiet-Makes E m q) h

  pub if-Makes :
      (E G : Cond) (ts : List Spec) {A : Type 0} (b : Bool) (m k : Io A)
      → (b ≡ true → Makes env E G ts m)
      → (b ≡ false → Makes env E G ts k)
      → Makes env E G ts (if b then m else k)
  if-Makes E G ts true m k h h' = h refl
  if-Makes E G ts false m k h h' = h' refl

-- The runs of a loop, item by item.
unfoldable pub flat : {A : Type 0} → (A → List Spec) → List A → List Spec
flat specs [] = []
flat specs (a ∷ items) = specs a ++ flat specs items

for_each_nil :
    (env : Env) (E : Cond) {A : Type 0} (specs : A → List Spec) (body : A → Io (Unit {0}))
    → Makes env E E (flat specs []) (for_each [] body)
unfolding flat for_each pure
for_each_nil env E specs body = record { makes = λ w e. (Saved-none env w w refl, e) }

for_each_cons :
    (env : Env) (E : Cond) {A : Type 0} (specs : A → List Spec) (a : A) (items : List A)
    (body : A → Io (Unit {0}))
    → Makes env E E (specs a) (body a)
    → Makes env E E (flat specs items) (for_each items body)
    → Makes env E E (flat specs (a ∷ items)) (for_each (a ∷ items) body)
unfolding flat for_each
for_each_cons env E specs a items body h k =
    then-Makes env E E E (specs a) (flat specs items) (body a) (for_each items body) h k

pub for_each-Makes :
    (env : Env) (E : Cond) {A : Type 0} (specs : A → List Spec) (items : List A)
    (body : A → Io (Unit {0}))
    → All (λ a. Makes env E E (specs a) (body a)) items
    → Makes env E E (flat specs items) (for_each items body)
for_each-Makes env E specs [] body h = for_each_nil env E specs body
for_each-Makes env E specs (a ∷ items) body h =
    for_each_cons env E specs a items body h.0 (for_each-Makes env E specs items body h.1)

weaken_end :
    (env : Env) (F G : Cond) (specs : List Spec) {A : Type 0} (w : World) (p : Result A × World)
    → ((epp : ℕ → Text) (scx : Scheduler) → F epp scx → G epp scx)
    → Made env F specs w p
    → Made env G specs w p
weaken_end env F G specs w (ok a, w') weaker h = (h.0, weaker w'.epp w'.scheduler h.1)
weaken_end env F G specs w (err e, w') weaker h = tt

-- A weaker condition afterwards.
pub weaken-Makes :
    (env : Env) (E F G : Cond) (specs : List Spec) {A : Type 0} (m : Io A)
    → ((epp : ℕ → Text) (scx : Scheduler) → F epp scx → G epp scx)
    → Makes env E F specs m
    → Makes env E G specs m
weaken-Makes env E F G specs m weaker h = record {
  makes = λ w e. weaken_end env F G specs w (m w) weaker (h.makes w e);
}
