-- ===== src/Python/Json.antt =====
-- The values that `json.loads` returns, and the operations of Python that the code applies to
-- them without knowing their type.
use shard_vpn.Prelude.{
  zero, Text, ◌==◌, Bool, true, false, ◌||◌, Option, none, some, List, [], ◌∷◌, if◌then◌else◌,
}
use shard_vpn.Prelude.{ℤ, pos}

mutual
  pub data Json : Type 0 where
    null : Json
    bool : Bool → Json
    int : ℤ → Json
    -- whether it is other than zero, and its literal
    float : Bool → Text → Json
    str : Text → Json
    arr : Items → Json
    obj : Fields → Json

  pub data Items : Type 0 where
    nil : Items
    item : Json → Items → Items

  -- A dict in insertion order. A key stands once.
  pub data Fields : Type 0 where
    end : Fields
    field : Text → Json → Fields → Fields

-- d.get(key) on a dict
unfoldable pub get : Text → Fields → Option Json
get k end = none
get k (field j v fs) = if k == j then some v else get k fs

-- bool(value)
unfoldable pub truthy : Json → Bool
truthy null = false
truthy (bool b) = b
truthy (int (pos zero)) = false
truthy (int _) = true
truthy (float nonzero _) = nonzero
truthy (str []) = false
truthy (str (_ ∷ _)) = true
truthy (arr nil) = false
truthy (arr (item _ _)) = true
truthy (obj end) = false
truthy (obj (field _ _ _)) = true

-- value.get(key), value or default: what the code writes `d.get(key) or default` for
unfoldable pub get_or : Text → Json → Fields → Json
unfolding get truthy
get_or k d fs = elim (get k fs) [ none ↦ d | some v ↦ if truthy v then v else d ]

-- value == text
unfoldable pub is_str : Text → Json → Bool
is_str t (str s) = s == t
is_str t _ = false

-- text in list
unfoldable pub member : Text → Items → Bool
unfolding is_str
member t nil = false
member t (item v vs) = is_str t v || member t vs

-- text in dict
unfoldable pub has_key : Text → Fields → Bool
has_key t end = false
has_key t (field k _ fs) = k == t || has_key t fs

-- The list of a list of values.
unfoldable pub items : Items → List Json
items nil = []
items (item v vs) = v ∷ items vs
