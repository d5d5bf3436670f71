-- ===== src/Bench/Progress.antt =====
-- The steps of scripts/bench.py that return rather than raise, on a machine that cooperates.
pub mod Printing
pub mod Parts
pub mod Whole
use fake_big_little.Prelude.{
  ℕ, zero, suc, ◌+◌, ◌≡◌, refl, sym, Bool, true, false, ◌&&◌, Option, none, some, List, [], ◌∷◌,
  if◌then◌else◌,
}
use mathlib.Core.Path.{subst}
use fake_big_little.Prelude.Int.{ℤ}
use fake_big_little.Prelude.Texts.{Text, codes}
use fake_big_little.Json.{Value, Fields, get}
use fake_big_little.Bench.Session.{format_error}
use fake_big_little.Bench.World.{
  Error, Result, Outcome, missing, exited, ok, err, os_error, Env, World, Io, pure, throw, ◌>>=◌,
  ◌>>◌, ask, sleep, now, branch, swallow, finally, for_each,
}

abbrev pub IsOk : {A : Type 0} → Result A → Type 0
IsOk (ok _) = Unit
IsOk (err _) = ⊥

-- The step returns, from any world.
pub record Always {A : Type 0} (m : Io A) : Type 0 where
  pub is_ok : (w : World) → IsOk (m w).0

-- A missing field, or one that `f"{v:.2f}"` takes.
abbrev pub IsFormatted : Option Value → Type 0
IsFormatted none = Unit
IsFormatted (some v) = format_error v ≡ none

-- What `record` prints of an object can be formatted.
abbrev pub Printable : Fields → Type 0
Printable o = IsFormatted (get (codes "wall_s") o) × IsFormatted (get (codes "pkg_j") o)

-- Every write of an EPP name is taken, every program starts and ends, every file can be written, and
-- what `record` prints of a line that is read as an object can be formatted.
pub record Cooperates (env : Env) : Type 0 where
  pub accepts : (n c : ℕ) (v : Text) → env.accepts n c v ≡ true
  pub starts : (n : ℕ) → env.starts n ≡ true
  pub terminates : (n : ℕ) → env.terminates n ≡ true
  pub writable : (n : ℕ) → env.writable n ≡ true
  pub code : ℕ → ℤ
  pub out : ℕ → Text
  pub exits : (n : ℕ) → env.outcome n ≡ exited (code n) (out n)
  pub prints : (line : Text) (o : Fields) → env.loads line ≡ some o → Printable o

ok_after :
    {A B : Type 0} (p : Result A × World) (f : A → Io B)
    → IsOk p.0
    → ((a : A) → Always (f a))
    → IsOk (elim p.0 as (λ _. Result B × World) [ ok a ↦ f a p.1 | err e ↦ (err e, p.1) ]).0
ok_after (ok a, w) f h k = (k a).is_ok w
ok_after (err e, w) f h k = absurd h

pub bind-Always :
    {A B : Type 0} (m : Io A) (f : A → Io B)
    → Always m
    → ((a : A) → Always (f a))
    → Always (m >>= f)
unfolding ◌>>=◌
bind-Always m f h k = record { is_ok = λ w. ok_after (m w) f (h.is_ok w) k }

pub then-Always : {A B : Type 0} (m : Io A) (k : Io B) → Always m → Always k → Always (m >> k)
unfolding ◌>>◌
then-Always m k h h' = bind-Always m (λ _. k) h (λ _. h')

pub pure-Always : {A : Type 0} (a : A) → Always (pure a)
unfolding pure
pure-Always a = record { is_ok = λ _. tt }

pub ask-Always : {A : Type 0} (f : ℕ → A) → Always (ask f)
unfolding ask
ask-Always f = record { is_ok = λ _. tt }

pub sleep-Always : (ms : ℕ) → Always (sleep ms)
unfolding sleep
sleep-Always ms = record { is_ok = λ _. tt }

pub now-Always : Always now
unfolding now
now-Always = record { is_ok = λ _. tt }

pub if-Always :
    {A : Type 0} (b : Bool) (m k : Io A) → Always m → Always k → Always (if b then m else k)
if-Always true m k h h' = h
if-Always false m k h h' = h'

pub branch-Always :
    {A : Type 0} (test : ℕ → Bool) (m k : Io A) → Always m → Always k → Always (branch test m k)
unfolding branch
branch-Always {A = A} test m k h h' = record { is_ok = λ w. choose w (test w.time) }
  where
    choose :
        (w : World) (b : Bool)
        → IsOk (elim b as (λ _. Result A × World) [ true ↦ m w | false ↦ k w ]).0
    choose w true = h.is_ok w
    choose w false = h'.is_ok w

pub swallow-Always : (m : Io (Unit {0})) → Always (swallow m)
unfolding swallow
swallow-Always m = record { is_ok = λ _. tt }

pub finally-Always :
    {A : Type 0} (m : Io A) (k : Io (Unit {0})) → Always m → Always k → Always (finally m k)
unfolding finally
finally-Always {A} m k h h' = record {
  is_ok = λ w. ended (m w).0 (k (m w).1) (h.is_ok w) (h'.is_ok (m w).1);
}
  where
    ended :
        (r : Result A) (q : Result (Unit {0}) × World)
        → IsOk r
        → IsOk q.0
        → IsOk (elim q.0 as (λ _. Result A × World) [ ok _ ↦ (r, q.1) | err e ↦ (err e, q.1) ]).0
    ended r (ok _, w) a b = a
    ended r (err _, w) a b = b

pub for_each-Always :
    {A : Type 0} (xs : List A) (body : A → Io (Unit {0}))
    → ((a : A) → Always (body a))
    → Always (for_each xs body)
unfolding for_each
for_each-Always [] body h = pure-Always tt
for_each-Always (a ∷ xs) body h =
    then-Always (body a) (for_each xs body) (h a) (for_each-Always xs body h)

-- A question whose answer is always yes.
pub ask_yes-Always :
    {A : Type 0} (answer : ℕ → Bool) (m k : Io A)
    → ((n : ℕ) → answer n ≡ true)
    → Always m
    → Always (ask answer >>= λ b. if b then m else k)
unfolding ask ◌>>=◌
ask_yes-Always answer m k says h = record {
  is_ok = λ w.
      subst (λ (b : Bool). IsOk ((if b then m else k) (record w { asked = w.asked + 1 })).0)
        (sym (says w.asked)) (h.is_ok (record w { asked = w.asked + 1 }));
}

pub ruleset always_rules = (
  bind-Always, then-Always, pure-Always, ask-Always, sleep-Always, now-Always, if-Always,
  branch-Always, swallow-Always, for_each-Always, finally-Always,
)
