-- ===== src/Analyze/Sanitize/Safe.antt =====
-- `sanitize` of scripts/analyze.py: what it leaves, and that it leaves that alone.
use fake_big_little.Prelude.{◌≡◌, refl, ap, ◌∙◌, Bool, true, false, if◌then◌else◌}
use fake_big_little.Prelude.Texts.{Text}
use fake_big_little.Analyze.Floats.{Floats}
use fake_big_little.Analyze.Sanitize.{
  Datum, nothing, truth, whole, number, words, sequence, dict, Data, stop, item, Entries, empty,
  entry, is_private, sanitize, sanitize_items, sanitize_entries,
}

module _ {F : Type 0} (ops : Floats F) where
  -- No number that is not finite and no private key.
  abbrev mutual
    pub Safe : Datum F → Type 0
    Safe (number x) = ops.is_finite x ≡ true
    Safe (sequence items) = SafeItems items
    Safe (dict entries) = SafeEntries entries
    Safe _ = Unit

    pub SafeItems : Data F → Type 0
    SafeItems stop = Unit
    SafeItems (item d items) = Safe d × SafeItems items

    pub SafeEntries : Entries F → Type 0
    SafeEntries empty = Unit
    SafeEntries (entry k d entries) = (is_private k ≡ false) × (Safe d × SafeEntries entries)

  Safe-number : (x : F) (b : Bool) → ops.is_finite x ≡ b → Safe (if b then number x else nothing)
  Safe-number x true e = e
  Safe-number x false e = tt

  Safe-entry :
      (k : Text) (d : Datum F) (rest : Entries F) (b : Bool)
      → is_private k ≡ b
      → Safe d
      → SafeEntries rest
      → SafeEntries (if b then rest else entry k d rest)
  Safe-entry k d rest true e h hs = hs
  Safe-entry k d rest false e h hs = (e, (h, hs))

  entry_same :
      (k : Text) (d d' : Datum F) (rest rest' : Entries F)
      → is_private k ≡ false
      → d' ≡ d
      → rest' ≡ rest
      → (if is_private k then rest' else entry k d' rest') ≡ entry k d rest
  entry_same k d d' rest rest' e p q = ap (λ b. if b then rest' else entry k d' rest') e ∙ cc

  mutual
    unfolding sanitize

    Safe-sanitize : (d : Datum F) → Safe (sanitize ops d)
    Safe-sanitize (number x) = Safe-number x (ops.is_finite x) refl
    Safe-sanitize (sequence items) = Safe-sanitize_items items
    Safe-sanitize (dict entries) = Safe-sanitize_entries entries
    Safe-sanitize nothing = tt
    Safe-sanitize (truth _) = tt
    Safe-sanitize (whole _) = tt
    Safe-sanitize (words _) = tt

    Safe-sanitize_items : (items : Data F) → SafeItems (sanitize_items ops items)
    Safe-sanitize_items stop = tt
    Safe-sanitize_items (item d items) = (Safe-sanitize d, Safe-sanitize_items items)

    Safe-sanitize_entries : (entries : Entries F) → SafeEntries (sanitize_entries ops entries)
    Safe-sanitize_entries empty = tt
    Safe-sanitize_entries (entry k d entries) =
        Safe-entry k (sanitize ops d) (sanitize_entries ops entries) (is_private k) refl
          (Safe-sanitize d) (Safe-sanitize_entries entries)

  mutual
    unfolding sanitize

    sanitize_same : (d : Datum F) → Safe d → sanitize ops d ≡ d
    sanitize_same (number x) h = ap (λ b. if b then number x else nothing) h
    sanitize_same (sequence items) h = ap sequence (sanitize_items_same items h)
    sanitize_same (dict entries) h = ap dict (sanitize_entries_same entries h)
    sanitize_same nothing h = refl
    sanitize_same (truth _) h = refl
    sanitize_same (whole _) h = refl
    sanitize_same (words _) h = refl

    sanitize_items_same : (items : Data F) → SafeItems items → sanitize_items ops items ≡ items
    sanitize_items_same stop h = refl
    sanitize_items_same (item d items) (h, hs) =
        cc (sanitize_same d h, sanitize_items_same items hs)

    sanitize_entries_same :
        (entries : Entries F) → SafeEntries entries → sanitize_entries ops entries ≡ entries
    sanitize_entries_same empty h = refl
    sanitize_entries_same (entry k d entries) (e, (h, hs)) =
        entry_same k d (sanitize ops d) entries (sanitize_entries ops entries) e (sanitize_same d h)
          (sanitize_entries_same entries hs)

  -- What is written has no number that is not finite and no key that starts with an underscore, and
  -- writing it again would change nothing.
  pub sanitize-Safe :
      (d : Datum F) → Safe (sanitize ops d) × (sanitize ops (sanitize ops d) ≡ sanitize ops d)
  sanitize-Safe d = (Safe-sanitize d, sanitize_same (sanitize ops d) (Safe-sanitize d))
