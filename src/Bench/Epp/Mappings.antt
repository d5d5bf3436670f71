-- ===== src/Bench/Epp/Mappings.antt =====
-- The dicts of scripts/bench.py from CPUs to EPP names, and what `apply_epp` makes of one.
use fake_big_little.Prelude.{
  ℕ, ◌≡◌, refl, Bool, true, false, ◌||◌, Option, none, some, List, [], ◌∷◌, arith, ◌==◌,
  if◌then◌else◌, mem, range, mem-range_from, ◌<◌,
}
use fake_big_little.Prelude.Texts.{Text}
use fake_big_little.Bench.Epp.{
  Mapping, insert, with_all, epp_big, epp_little, partitioned_mapping, uniform_mapping,
}

-- `d.get(k)`
unfoldable pub lookup : ℕ → Mapping → Option Text
lookup k [] = none
lookup k ((j, v) ∷ d) = if k == j then some v else lookup k d

-- No key stands twice.
abbrev pub IsDict : Mapping → Type 0
IsDict [] = Unit
IsDict ((k, _) ∷ d) = (lookup k d ≡ none) × IsDict d

pub lookup-insert :
    (c k : ℕ) (v : Text) (d : Mapping)
    → lookup c (insert k v d) ≡ (if c == k then some v else lookup c d)
unfolding lookup insert
lookup-insert c k v [] = refl
lookup-insert c k v ((j, u) ∷ d) = ground (arith, lookup-insert c k v d)

pub insert-IsDict : (k : ℕ) (v : Text) (d : Mapping) → IsDict d → IsDict (insert k v d)
unfolding lookup insert
insert-IsDict k v [] h = (refl, tt)
insert-IsDict k v ((j, u) ∷ d) h = ground (arith, insert-IsDict k v d h.1, lookup-insert j k v d)

pub lookup-with_all :
    (c : ℕ) (cs : List ℕ) (v : Text) (d : Mapping)
    → lookup c (with_all cs v d) ≡ (if mem c cs then some v else lookup c d)
unfolding with_all
lookup-with_all c [] v d = refl
lookup-with_all c (k ∷ cs) v d =
    ground (arith, lookup-with_all c cs v (insert k v d), lookup-insert c k v d)

pub with_all-IsDict : (cs : List ℕ) (v : Text) (d : Mapping) → IsDict d → IsDict (with_all cs v d)
unfolding with_all
with_all-IsDict [] v d h = h
with_all-IsDict (k ∷ cs) v d h = with_all-IsDict cs v (insert k v d) (insert-IsDict k v d h)

-- The value of a key, and one for no key.
unfoldable pub value_or : Option Text → Text → Text
value_or none old = old
value_or (some v) old = v

unfoldable pub value_in : Mapping → ℕ → Text
value_in d c = value_or (lookup c d) []

-- The mapping names each of the first `n` CPUs, and names none twice.
pub record IsFull (n : ℕ) (d : Mapping) : Type 0 where
  pub dict : IsDict d
  pub has_key : (c : ℕ) → c < n → value_or (lookup c d) [] ≡ value_or (lookup c d) (b'?' ∷ [])

pub mem-range : (c n : ℕ) → c < n → mem c (range n) ≡ true
mem-range c n h = rw (mem-range_from c 0 n) (ground arith)

pub lookup_nil : (c : ℕ) → lookup c [] ≡ none
unfolding lookup
lookup_nil c = refl

pub uniform_mapping-IsFull : (n : ℕ) (v : Text) → IsFull n (uniform_mapping n v)
unfolding uniform_mapping
uniform_mapping-IsFull n v = record {
  dict = with_all-IsDict (range n) v [] tt;
  has_key = λ c h. rw (lookup-with_all c (range n) v [], mem-range c n h) (unfold value_or in refl);
}

-- The value that a uniform mapping gives to each CPU.
pub value_in-uniform_mapping :
    (n : ℕ) (v : Text) (c : ℕ) → c < n → value_in (uniform_mapping n v) c ≡ v
unfolding uniform_mapping value_in value_or
value_in-uniform_mapping n v c h = rw (lookup-with_all c (range n) v [], mem-range c n h)

lookup-partitioned_mapping :
    (big little : List ℕ) (c : ℕ)
    → lookup c (partitioned_mapping big little)
      ≡ (if mem c little then some epp_little else if mem c big then some epp_big else none)
unfolding partitioned_mapping
lookup-partitioned_mapping big little c = rw (
  lookup-with_all c little epp_little (with_all big epp_big []),
  lookup-with_all c big epp_big [],
  lookup_nil c,
)

pub partitioned_mapping-IsFull :
    (n : ℕ) (big little : List ℕ)
    → ((c : ℕ) → c < n → (mem c big || mem c little) ≡ true)
    → IsFull n (partitioned_mapping big little)
partitioned_mapping-IsFull n big little covers = record {
  dict =
      unfold partitioned_mapping in
      with_all-IsDict little epp_little _ (with_all-IsDict big epp_big [] tt);
  has_key = λ c h.
      rw (lookup-partitioned_mapping big little c)
        (has_value (mem c big) (mem c little) (covers c h));
}
  where
    has_value :
        (b l : Bool)
        → (b || l) ≡ true
        → value_or (if l then some epp_little else if b then some epp_big else none) []
          ≡ value_or (if l then some epp_little else if b then some epp_big else none) (b'?' ∷ [])
    has_value true true h = unfold value_or in refl
    has_value true false h = unfold value_or in refl
    has_value false true h = unfold value_or in refl
    has_value false false h = cc

-- A little CPU gets `power`; any other big CPU gets `performance`.
pub value_in-partitioned_mapping :
    (big little : List ℕ) (c : ℕ)
    → (mem c big || mem c little) ≡ true
    → value_in (partitioned_mapping big little) c ≡ (if mem c little then epp_little else epp_big)
unfolding value_in value_or
value_in-partitioned_mapping big little c h =
    rw (lookup-partitioned_mapping big little c) (ground arith)
