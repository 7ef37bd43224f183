-- ===== src/Common/Json.antt =====
-- JSON values, where `number n` is the number n and `negative n` is -(n + 1), and the functions of Python's library on `json` and `str` that the program calls, as
-- parameters (utils/serialization.py under src calls the former with `sort_keys`).
use Prim.Native.Nat.{ℕ, zero, suc}
use mathlib.Core.Path.{◌≡◌}
use mathlib.Core.Bool.{Bool, true, false, ◌&&◌, ◌||◌}
use mathlib.Core.Option.{Option, none, some}
use mathlib.Core.List.{List, [], ◌∷◌}
use kemtls.Common.Tests.{◌==◌, str_eq, if◌then◌else◌}
use kemtls.Common.Int.{ℤ}
use kemtls.Common.Words.{Bytes, Str}
use kemtls.Common.Error.{
  value_error, type_error, key_error, attribute_error, Result, ok, raised, or_raise,
}

mutual
  pub data Json : Type 0 where
    null : Json
    boolean : Bool → Json
    number : ℕ → Json
    negative : ℕ → Json
    text : Str → Json
    object : Members → Json
    array : Items → Json

  pub data Members : Type 0 where
    nothing : Members
    member : Str → Json → Members → Members

  pub data Items : Type 0 where
    no_items : Items
    item : Json → Items → Items

-- `d.get(key)` on the members of an object.
unfoldable pub find : Str → Members → Option Json
find key nothing = none
find key (member k v rest) = if str_eq k key then some v else find key rest

-- `d.get(key)` on a value that is a dictionary.
abbrev pub field : Str → Json → Option Json
field key (object members) = find key members
field key null = none
field key (boolean b) = none
field key (number n) = none
field key (negative n) = none
field key (text s) = none
field key (array i) = none

-- `d[key] = v`, `d.update({key: v})`
unfoldable pub set_member : Str → Json → Members → Members
set_member key v nothing = member key v nothing
set_member key v (member k w rest) =
    if str_eq k key then member k v rest else member k w (set_member key v rest)

-- `isinstance(value, str)`
abbrev pub as_text : Option Json → Option Str
as_text none = none
as_text (some null) = none
as_text (some (boolean b)) = none
as_text (some (number n)) = none
as_text (some (negative n)) = none
as_text (some (text s)) = some s
as_text (some (object m)) = none
as_text (some (array i)) = none

-- `isinstance(value, dict)`
abbrev pub as_object : Option Json → Option Members
as_object none = none
as_object (some null) = none
as_object (some (boolean b)) = none
as_object (some (number n)) = none
as_object (some (negative n)) = none
as_object (some (text s)) = none
as_object (some (object m)) = some m
as_object (some (array i)) = none

-- `json.dumps` with the canonical encoder, in UTF-8, and `json.loads`, whose `none` is an error;
-- `s.encode("utf-8")`, `s.upper()` and `s.strip()`.
pub record Python : Type 0 where
  pub dumps : Members → Bytes
  pub loads : Bytes → Option Json
  pub utf8 : Str → Bytes
  pub upper : Str → Str
  pub strip : Str → Str
  -- `s.split()`
  pub words : Str → List Str
  -- `int(value)`; `none` is an error.
  pub int : Json → Option ℤ

unfoldable pub deserialize_message : Python → Bytes → Result Json
deserialize_message p d = or_raise (p.loads d) (value_error "Invalid JSON data")

pub as_object_inv : (j : Json) {m : Members} → as_object (some j) ≡ some m → j ≡ object m
as_object_inv null h = cc
as_object_inv (boolean b) h = cc
as_object_inv (number n) h = cc
as_object_inv (negative n) h = cc
as_object_inv (text s) h = cc
as_object_inv (object m) h = cc
as_object_inv (array i) h = cc

-- `bool(d.get(key))`
abbrev pub truthy : Option Json → Bool
truthy none = false
truthy (some null) = false
truthy (some (boolean b)) = b
truthy (some (number zero)) = false
truthy (some (number (suc n))) = true
truthy (some (negative n)) = true
truthy (some (text [])) = false
truthy (some (text (c ∷ s))) = true
truthy (some (object nothing)) = false
truthy (some (object (member k v m))) = true
truthy (some (array no_items)) = false
truthy (some (array (item v i))) = true

-- `d.get(key)`, as a value: `None` is null.
abbrev pub or_null : Option Json → Json
or_null none = null
or_null (some v) = v

-- `d[key]`
unfoldable pub get_item : Str → Members → Result Json
get_item key d = or_raise (find key d) (key_error "missing key")

-- The dictionary that `.get` is called on.
abbrev pub as_dict : Json → Result Members
as_dict v = or_raise (as_object (some v)) (attribute_error "object has no attribute 'get'")

-- `value == expected`, for what `get` found and a text.
abbrev pub is_text : Option Json → Str → Bool
is_text value expected = elim (as_text value) [ none ↦ false | some s ↦ str_eq s expected ]

-- The texts of a list of values, for `expected in values`.
abbrev pub has_item : Str → Items → Bool
has_item expected no_items = false
has_item expected (item v rest) = is_text (some v) expected || has_item expected rest

-- `s.startswith(prefix)`, and `part in s` for two texts.
unfoldable pub starts_with : Str → Str → Bool
starts_with [] s = true
starts_with (c ∷ prefix) [] = false
starts_with (c ∷ prefix) (d ∷ s) = c == d && starts_with prefix s

unfoldable pub has_part : Str → Str → Bool
unfolding starts_with
has_part part [] = starts_with part []
has_part part (c ∷ s) = starts_with part (c ∷ s) || has_part part s

abbrev pub is_found : Option Json → Bool
is_found none = false
is_found (some v) = true

-- `expected in value`: a list, a text, or the keys of a dictionary.
unfoldable pub contained : Str → Json → Result Bool
unfolding has_part
contained expected null = raised (type_error "argument is not iterable")
contained expected (boolean b) = raised (type_error "argument is not iterable")
contained expected (number n) = raised (type_error "argument is not iterable")
contained expected (negative n) = raised (type_error "argument is not iterable")
contained expected (text s) = ok (has_part expected s)
contained expected (object m) = ok (is_found (find expected m))
contained expected (array i) = ok (has_item expected i)
