-- ===== src/Prelude/Json.antt =====
-- Values that `json.loads` gives. The fields of an object are a dict: `get` finds the first.
use Prim.Native.Nat.{ℕ, zero, ◌^◌}
use mathlib.Core.Bool.{Bool, true, false}
use mathlib.Core.List.{List, [], ◌∷◌}
use mathlib.Core.Option.{Option, none, some}
use optimizr_actions.Prelude.Tests.{◌==◌, if◌then◌else◌}
use optimizr_actions.Prelude.Strings.{Text, same}
use optimizr_actions.Prelude.Integers.{ℤ, pos}

-- `decimal m k` is the number m / 10 ^ k, a Python float.
mutual
  pub data Json : Type 0 where
    null : Json
    bool : Bool → Json
    int : ℤ → Json
    decimal : ℤ → ℕ → Json
    text : Text → Json
    array : Items → Json
    object : Fields → Json

  pub data Items : Type 0 where
    end : Items
    item : Json → Items → Items

  pub data Fields : Type 0 where
    no_more : Fields
    field : Text → Json → Fields → Fields

-- The elements of an array as a list.
unfoldable pub elements : Items → List Json
elements end = []
elements (item v rest) = v ∷ elements rest

-- `payload.get(name)`
unfoldable pub get : Fields → Text → Option Json
get no_more name = none
get (field key v rest) name = let other = get rest name in if same key name then some v else other

-- An array or an object from a list.
abbrev pub to_items : List Json → Items
to_items [] = end
to_items (v ∷ vs) = item v (to_items vs)

abbrev pub to_fields : List (Text × Json) → Fields
to_fields [] = no_more
to_fields ((k, v) ∷ rest) = field k v (to_fields rest)

-- `value == 1` for a JSON value
abbrev pub is_one : Option Json → Bool
is_one (some (int (pos n))) = n == 1
is_one (some (bool b)) = b
is_one (some (decimal (pos m) k)) = m == 10 ^ k
is_one _ = false

abbrev pub object_of : Option Json → Option Fields
object_of (some (object fields)) = some fields
object_of _ = none

-- `payload.get(name)` as a value: a missing one is `None`.
abbrev pub or_null : Option Json → Json
or_null none = null
or_null (some v) = v

-- The elements of an array.
unfoldable pub array_of : Json → Option (List Json)
unfolding elements
array_of (array items) = some (elements items)
array_of _ = none

-- `bool(value)`
abbrev pub is_truthy : Json → Bool
is_truthy null = false
is_truthy (bool b) = b
is_truthy (int (pos zero)) = false
is_truthy (int _) = true
is_truthy (decimal (pos zero) k) = false
is_truthy (decimal _ k) = true
is_truthy (text []) = false
is_truthy (text _) = true
is_truthy (array end) = false
is_truthy (array (item _ _)) = true
is_truthy (object no_more) = false
is_truthy (object (field _ _ _)) = true

abbrev pub is_set : Option Json → Bool
is_set none = false
is_set (some value) = is_truthy value

-- `str(value or "")`, where `str_of` is `str` of a value that is no text.
abbrev pub text_or_empty : (Json → Text) → Option Json → Text
text_or_empty str_of none = []
text_or_empty str_of (some (text s)) = s
text_or_empty str_of (some value) = if is_truthy value then str_of value else []
