-- ===== src/Analyze/Sanitize.antt =====
-- `sanitize` of scripts/analyze.py: the result as it goes into JSON.
pub mod Safe
use fake_big_little.Prelude.{
  ℕ, Bool, true, false, Option, none, some, List, [], ◌∷◌, ◌==◌, if◌then◌else◌,
}
use fake_big_little.Prelude.Int.{ℤ}
use fake_big_little.Prelude.Texts.{Text}
use fake_big_little.Analyze.Floats.{Floats}

-- A value of the result: a dict, a list or a tuple, a float, or something else.
mutual
  pub data Datum (F : Type 0) : Type 0 where
    nothing : Datum F
    truth : Bool → Datum F
    whole : ℤ → Datum F
    number : F → Datum F
    words : Text → Datum F
    sequence : Data F → Datum F
    dict : Entries F → Datum F

  pub data Data (F : Type 0) : Type 0 where
    stop : Data F
    item : Datum F → Data F → Data F

  pub data Entries (F : Type 0) : Type 0 where
    empty : Entries F
    entry : Text → Datum F → Entries F → Entries F

-- `str(k).startswith("_")`
abbrev pub is_private : Text → Bool
is_private [] = false
is_private (c ∷ _) = c == b'_'

module _ {F : Type 0} (ops : Floats F) where
  unfoldable mutual
    pub sanitize : Datum F → Datum F
    sanitize (number x) = if ops.is_finite x then number x else nothing
    sanitize (sequence items) = sequence (sanitize_items items)
    sanitize (dict entries) = dict (sanitize_entries entries)
    sanitize d = d

    pub sanitize_items : Data F → Data F
    sanitize_items stop = stop
    sanitize_items (item d items) = item (sanitize d) (sanitize_items items)

    pub sanitize_entries : Entries F → Entries F
    sanitize_entries empty = empty
    sanitize_entries (entry k d entries) =
        let rest = sanitize_entries entries in
        if is_private k then rest else entry k (sanitize d) rest
