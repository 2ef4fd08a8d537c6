-- ===== src/Common/Config.antt =====
-- common/config.go: the values of the configuration, found by a key with dots. encoding/json gives the
-- content.
pub mod Nested
pub mod Load
use optimusprime.Prelude.{
  ℕ, Bool, true, false, ◌&&◌, ◌==◌, if◌then◌else◌, Option, none, some, List, [], ◌∷◌,
}
use optimusprime.Prelude.Text.{Bytes}
use optimusprime.Prelude.Split.{split, bytes_eq}
use optimusprime.Prelude.Int.{ℤ}

mutual
  -- What json.Unmarshal gives; a number is a float64.
  pub data Json (Float : Type 0) : Type 0 where
    object : Fields Float → Json Float
    list : Items Float → Json Float
    text : Bytes → Json Float
    number : Float → Json Float
    boolean : Bool → Json Float
    null : Json Float

  -- A map; a key stands in it once.
  pub data Fields (Float : Type 0) : Type 0 where
    no_fields : Fields Float
    field : Bytes → Json Float → Fields Float → Fields Float

  pub data Items (Float : Type 0) : Type 0 where
    no_items : Items Float
    item : Json Float → Items Float → Items Float

-- An interface value: one of the content, or the default of a caller.
pub data Any (Float : Type 0) : Type 0 where
  from_config : Json Float → Any Float
  a_string : Bytes → Any Float
  an_int : ℤ → Any Float
  a_bool : Bool → Any Float

module _ {Float : Type 0} where
  unfoldable pub field_at : Bytes → Fields Float → Option (Json Float)
  unfolding bytes_eq
  field_at k no_fields = none
  field_at k (field j v m) = if bytes_eq j k then some v else field_at k m

  -- A value that is no object has no keys.
  unfoldable pub get_data : Json Float → Fields Float
  get_data (object m) = m
  get_data (list is) = no_fields
  get_data (text s) = no_fields
  get_data (number x) = no_fields
  get_data (boolean b) = no_fields
  get_data null = no_fields

  unfoldable pub get_value : Bytes → Json Float → Option (Json Float)
  unfolding field_at get_data
  get_value k b = field_at k (get_data b)

  -- The loop over the keys; `get_then` is its test for nil.
  unfoldable pub walk : List Bytes → Option (Json Float) → Option (Json Float)
  unfolding get_value
  walk ks none = none
  walk [] (some b) = some b
  walk (k ∷ ks) (some b) = walk ks (get_value k b)

  -- The content is a nil map until one was loaded; a key that is not there is an error.
  unfoldable pub get_config_by_key : Bytes → Option (Fields Float) → Option (Json Float)
  unfolding walk
  get_config_by_key keys none = none
  get_config_by_key keys (some m) = walk (split keys) (some (object m))

  unfoldable pub or_default : Any Float → Option (Json Float) → Any Float
  or_default d none = d
  or_default d (some v) = from_config v

  unfoldable pub value_default : Bytes → Any Float → Option (Fields Float) → Any Float
  unfolding or_default get_config_by_key
  value_default key d content = or_default d (get_config_by_key key content)

  -- The type assertions; `none` is their panic.
  unfoldable pub as_string : Any Float → Option Bytes
  as_string (from_config (text s)) = some s
  as_string (from_config v) = none
  as_string (a_string s) = some s
  as_string (an_int i) = none
  as_string (a_bool b) = none

  unfoldable pub as_float : Any Float → Option Float
  as_float (from_config (number x)) = some x
  as_float (from_config v) = none
  as_float (a_string s) = none
  as_float (an_int i) = none
  as_float (a_bool b) = none

  unfoldable pub as_bool : Any Float → Option Bool
  as_bool (from_config (boolean b)) = some b
  as_bool (from_config v) = none
  as_bool (a_string s) = none
  as_bool (an_int i) = none
  as_bool (a_bool b) = some b

  unfoldable pub string_default : Bytes → Bytes → Option (Fields Float) → Option Bytes
  unfolding as_string value_default
  string_default key d content = as_string (value_default key (a_string d) content)

  unfoldable pub int_or_panic : (Float → ℤ) → Option Float → Option ℤ
  int_or_panic to_int none = none
  int_or_panic to_int (some x) = some (to_int x)

  unfoldable pub int_default : (Float → ℤ) → Bytes → ℤ → Option (Fields Float) → Option ℤ
  unfolding int_or_panic as_float value_default
  int_default to_int key d content =
      int_or_panic to_int (as_float (value_default key (an_int d) content))

  unfoldable pub bool_default : Bytes → Bool → Option (Fields Float) → Option Bool
  unfolding as_bool value_default
  bool_default key d content = as_bool (value_default key (a_bool d) content)
