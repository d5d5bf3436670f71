-- ===== src/Json.antt =====
-- JSON values as Python's `json.loads` builds them. A number with a fraction or an exponent keeps
-- its text, since what a double makes of it is no part of the scripts.
use fake_big_little.Prelude.{
  Bool, true, false, ◌||◌, ◌&&◌, Option, none, some, [], ◌∷◌, ◌==◌, if◌then◌else◌,
}
use fake_big_little.Prelude.Int.{ℤ, pos, eqb_ℤ}
use fake_big_little.Prelude.Texts.{Text, text_eq}

mutual
  pub data Value : Type 0 where
    null : Value
    bool : Bool → Value
    int : ℤ → Value
    real : Text → Value
    str : Text → Value
    arr : Items → Value
    obj : Fields → Value

  pub data Items : Type 0 where
    nil : Items
    cons : Value → Items → Items

  pub data Fields : Type 0 where
    end : Fields
    field : Text → Value → Fields → Fields

-- `d.get(key)`: the fields of a Python dict have distinct keys, the last value of a key winning.
unfoldable pub get : Text → Fields → Option Value
get key end = none
get key (field k v rest) = if text_eq key k then some v else get key rest

-- `key in d`
unfoldable pub has : Text → Fields → Bool
unfolding get
has key fields = elim (get key fields) [ none ↦ false | some _ ↦ true ]

-- Whether the digits before an exponent are all zero.
unfoldable pub zero_literal : Text → Bool
zero_literal [] = true
zero_literal (c ∷ s) =
    c == b'e' || c == b'E' || ((c == b'0' || c == b'.' || c == b'-') && zero_literal s)

-- `v == 0` of a value that `get` may not have found; `False == 0` holds in Python.
unfoldable pub equals_zero : Option Value → Bool
unfolding zero_literal
equals_zero (some (bool b)) = if b then false else true
equals_zero (some (int n)) = eqb_ℤ n (pos 0)
equals_zero (some (real s)) = zero_literal s
equals_zero (some _) = false
equals_zero none = false

-- `v == s` for a text `s`.
unfoldable pub equals_text : Option Value → Text → Bool
equals_text (some (str t)) s = text_eq t s
equals_text _ s = false

-- Equal values, numbers by their texts.
abbrev mutual
  pub value_eq : Value → Value → Bool
  value_eq null null = true
  value_eq (bool a) (bool b) = if a then b else (if b then false else true)
  value_eq (int m) (int n) = eqb_ℤ m n
  value_eq (real s) (real t) = text_eq s t
  value_eq (str s) (str t) = text_eq s t
  value_eq (arr xs) (arr ys) = items_eq xs ys
  value_eq (obj d) (obj e) = fields_eq d e
  value_eq _ _ = false

  pub items_eq : Items → Items → Bool
  items_eq nil nil = true
  items_eq (cons x xs) (cons y ys) = value_eq x y && items_eq xs ys
  items_eq _ _ = false

  pub fields_eq : Fields → Fields → Bool
  fields_eq end end = true
  fields_eq (field k x d) (field j y e) = text_eq k j && (value_eq x y && fields_eq d e)
  fields_eq _ _ = false
