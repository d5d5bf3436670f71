-- ===== src/Prelude/Lists.antt =====
-- Lists over the native numbers, under the library's names, and predicates on their elements.
use Prim.Native.Nat.{ℕ, zero, suc, ◌+◌}
use mathlib.Core.Path.{◌≡◌, refl, ap, ◌∙◌}
use mathlib.Core.Logic.{◌⊎◌, inl, inr}
use mathlib.Core.Bool.{Bool, true, false, ◌||◌, ◌&&◌}
use mathlib.Core.List.{List, [], ◌∷◌, ◌++◌, map}
use mathlib.Core.Option.{Option, none, some}
use native.Mathlib.Omega.{arith}
use fake_big_little.Prelude.Tests.{if◌then◌else◌, ◌==◌, leb, ltb}

module _ {ℓ} {A : Type ℓ} where
  abbrev pub length : List A → ℕ
  length [] = 0
  length (x ∷ xs) = suc (length xs)

  abbrev pub get_elem? : List A → ℕ → Option A
  get_elem? [] i = none
  get_elem? (x ∷ xs) zero = some x
  get_elem? (x ∷ xs) (suc i) = get_elem? xs i

  abbrev pub take : ℕ → List A → List A
  take zero xs = []
  take (suc n) [] = []
  take (suc n) (x ∷ xs) = x ∷ take n xs

  abbrev pub drop : ℕ → List A → List A
  drop zero xs = xs
  drop (suc n) [] = []
  drop (suc n) (x ∷ xs) = drop n xs

  abbrev pub replicate : ℕ → A → List A
  replicate zero a = []
  replicate (suc n) a = a ∷ replicate n a

  -- `[x for x in xs if p(x)]`
  abbrev pub keep : (A → Bool) → List A → List A
  keep p [] = []
  keep p (x ∷ xs) = let rest = keep p xs in if p x then x ∷ rest else rest

  abbrev pub any : (A → Bool) → List A → Bool
  any p [] = false
  any p (x ∷ xs) = p x || any p xs

  abbrev pub every : (A → Bool) → List A → Bool
  every p [] = true
  every p (x ∷ xs) = p x && every p xs

  pub length-append : (xs ys : List A) → length (xs ++ ys) ≡ length xs + length ys
  length-append [] ys = omega arith
  length-append (x ∷ xs) ys = omega (arith, length-append xs ys)

  pub length-replicate : (n : ℕ) (a : A) → length (replicate n a) ≡ n
  length-replicate zero a = refl
  length-replicate (suc n) a = ap suc (length-replicate n a)

pub length-map {ℓ κ} :
    {A : Type ℓ} {B : Type κ} (f : A → B) (xs : List A) → length (map f xs) ≡ length xs
length-map f [] = refl
length-map f (x ∷ xs) = ap suc (length-map f xs)

module _ {ℓ κ} {A : Type ℓ} (P : A → Type κ) where
  abbrev pub All : List A → Type κ
  All [] = Unit
  All (x ∷ xs) = P x × All xs

  pub All-append : (xs ys : List A) → All xs → All ys → All (xs ++ ys)
  All-append [] ys _ hy = hy
  All-append (x ∷ xs) ys (px, hx) hy = (px, All-append xs ys hx hy)

  -- A predicate that holds everywhere holds of every element.
  pub All-of_forall : ((x : A) → P x) → (xs : List A) → All xs
  All-of_forall h [] = tt
  All-of_forall h (x ∷ xs) = (h x, All-of_forall h xs)

-- `range(lo, lo + n)`
abbrev pub range_from : ℕ → ℕ → List ℕ
range_from lo zero = []
range_from lo (suc n) = lo ∷ range_from (lo + 1) n

-- `range(n)`
abbrev pub range : ℕ → List ℕ
range n = range_from 0 n

pub length-range_from : (lo n : ℕ) → length (range_from lo n) ≡ n
length-range_from lo zero = refl
length-range_from lo (suc n) = ap suc (length-range_from (lo + 1) n)

-- `range(lo, hi)` by one more at the end.
pub range_from-suc : (lo n : ℕ) → range_from lo (suc n) ≡ range_from lo n ++ (lo + n) ∷ []
range_from-suc lo zero = ground arith
range_from-suc lo (suc n) =
    let e : lo + suc n ≡ lo + 1 + n = omega arith in
    rw e (ap (λ (t : List ℕ). lo ∷ t) (range_from-suc (lo + 1) n))

-- `c in cpus`
abbrev pub mem : ℕ → List ℕ → Bool
mem c [] = false
mem c (x ∷ xs) = c == x || mem c xs

pub mem-range_from : (c lo n : ℕ) → mem c (range_from lo n) ≡ (leb lo c && ltb c (lo + n))
mem-range_from c lo zero = ground arith
mem-range_from c lo (suc n) = ground (arith, mem-range_from c (lo + 1) n)

test_of_eq : (p : ℕ → Bool) (c x : ℕ) → (c == x) ≡ true → p c ≡ p x
test_of_eq p c x h = ap p (ground arith)

pub mem-keep : (p : ℕ → Bool) (c : ℕ) (xs : List ℕ) → mem c (keep p xs) ≡ (mem c xs && p c)
mem-keep p c [] = refl
mem-keep p c (x ∷ xs) = ground (arith, mem-keep p c xs, test_of_eq p c x)

pub mem-append : (c : ℕ) (xs ys : List ℕ) → mem c (xs ++ ys) ≡ (mem c xs || mem c ys)
mem-append c [] ys = refl
mem-append c (x ∷ xs) ys = ground (arith, mem-append c xs ys)

pub All-weaken {ℓ κ} :
    {A : Type ℓ} (P Q : A → Type κ) → ((x : A) → P x → Q x) → (xs : List A) → All P xs → All Q xs
All-weaken P Q f [] h = tt
All-weaken P Q f (x ∷ xs) (h, hs) = (f x h, All-weaken P Q f xs hs)

-- An item of the list.
abbrev pub IsIn : {A : Type 0} → A → List A → Type 0
IsIn a [] = ⊥
IsIn a (x ∷ xs) = (a ≡ x) ⊎ IsIn a xs

pub IsIn-keep :
    {A : Type 0} (p : A → Bool) (a : A) (xs : List A)
    → IsIn a (keep p xs)
    → IsIn a xs × (p a ≡ true)
IsIn-keep p a [] h = absurd h
IsIn-keep p a (x ∷ xs) h = split (p x) refl h (IsIn-keep p a xs)
  where
    split :
        (b : Bool)
        → p x ≡ b
        → IsIn a (if b then x ∷ keep p xs else keep p xs)
        → (IsIn a (keep p xs) → IsIn a xs × (p a ≡ true))
        → IsIn a (x ∷ xs) × (p a ≡ true)
    split true e (inl q) later = (inl q, ap p q ∙ e)
    split true e (inr q) later = let r = later q in (inr r.0, r.1)
    split false e q later = let r = later q in (inr r.0, r.1)

pub All-of_keep {ℓ κ} :
    {A : Type ℓ} (P : A → Type κ) (p : A → Bool) (Q : A → Type κ)
    → ((x : A) → p x ≡ true → P x → Q x)
    → ((x : A) → p x ≡ false → Q x)
    → (xs : List A) → All P (keep p xs)
    → All Q xs
All-of_keep P p Q kept dropped [] h = tt
All-of_keep P p Q kept dropped (x ∷ xs) h = split (p x) refl h (All-of_keep P p Q kept dropped xs)
  where
    split :
        (b : Bool)
        → p x ≡ b
        → All P (if b then x ∷ keep p xs else keep p xs)
        → (All P (keep p xs) → All Q xs)
        → Q x × All Q xs
    split true e (h, hs) later = (kept x e h, later hs)
    split false e h later = (dropped x e, later h)

pub any_of_keep {ℓ} : {A : Type ℓ} (p : A → Bool) (xs : List A) → keep p xs ≡ [] → any p xs ≡ false
any_of_keep p [] e = refl
any_of_keep p (x ∷ xs) e = split (p x) e (any_of_keep p xs)
  where
    split :
        (b : Bool)
        → (if b then x ∷ keep p xs else keep p xs) ≡ []
        → (keep p xs ≡ [] → any p xs ≡ false)
        → (b || any p xs) ≡ false
    split true e later = cc
    split false e later = later e

pub any_of_kept {ℓ} :
    {A : Type ℓ} (p : A → Bool) (xs : List A) (y : A) (ys : List A)
    → keep p xs ≡ y ∷ ys
    → any p xs ≡ true
any_of_kept p [] y ys e = cc
any_of_kept p (x ∷ xs) y ys e = split (p x) e (any_of_kept p xs y ys)
  where
    split :
        (b : Bool)
        → (if b then x ∷ keep p xs else keep p xs) ≡ y ∷ ys
        → (keep p xs ≡ y ∷ ys → any p xs ≡ true)
        → (b || any p xs) ≡ true
    split true e later = refl
    split false e later = later e
