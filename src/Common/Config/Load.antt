-- ===== src/Common/Config/Load.antt =====
-- common/config.go: loading. encoding/json gives the object of a text, or that it is null; it adds the
-- keys of the object to the map that is there.
use mathlib.Core.Path.{subst}
use optimusprime.Prelude.{
  ◌≡◌, refl, arith, Bool, true, false, ◌↔◌, ==_iff, if◌then◌else◌, Option, none, some, [], ◌∷◌,
}
use optimusprime.Prelude.Text.{Bytes}
use optimusprime.Prelude.Split.{bytes_eq}
use optimusprime.Common.Config.{Json, Fields, no_fields, field, field_at}

-- The two variables of the package.
pub record Content (Float : Type 0) : Type 0 where
  pub config_content_byte : Bytes
  pub config_content_json : Option (Fields Float)

pub data Loaded (Float : Type 0) : Type 0 where
  bad_json : Loaded Float
  null_json : Loaded Float
  object_json : Fields Float → Loaded Float

bytes_eq_to : (xs ys : Bytes) → bytes_eq xs ys ≡ true → xs ≡ ys
unfolding bytes_eq
bytes_eq_to [] [] h = refl
bytes_eq_to [] (y ∷ ys) h = ground arith
bytes_eq_to (x ∷ xs) [] h = ground arith
bytes_eq_to (x ∷ xs) (y ∷ ys) h = ground (arith, ==_iff x y, bytes_eq_to xs ys)

bytes_eq_refl : (xs : Bytes) → bytes_eq xs xs ≡ true
unfolding bytes_eq
bytes_eq_refl [] = refl
bytes_eq_refl (x ∷ xs) = rw ((==_iff x x).1 refl) (bytes_eq_refl xs)

bytes_eq_iff : (xs ys : Bytes) → (bytes_eq xs ys ≡ true) ↔ (xs ≡ ys)
bytes_eq_iff xs ys =
    (bytes_eq_to xs ys, λ e. subst (λ zs. bytes_eq xs zs ≡ true) e (bytes_eq_refl xs))

module _ {Float : Type 0} where
  unfoldable pub put_field : Bytes → Json Float → Fields Float → Fields Float
  unfolding bytes_eq
  put_field k v no_fields = field k v no_fields
  put_field k v (field j w m) = if bytes_eq j k then field k v m else field j w (put_field k v m)

  unfoldable pub merge : Fields Float → Fields Float → Fields Float
  unfolding put_field
  merge no_fields old = old
  merge (field k v m) old = put_field k v (merge m old)

  unfoldable pub old_fields : Option (Fields Float) → Fields Float
  old_fields none = no_fields
  old_fields (some m) = m

  -- `json.Unmarshal(data, &configContentJson)`: whether it gives no error, and the map.
  unfoldable pub unmarshal : Loaded Float → Option (Fields Float) → Bool × Option (Fields Float)
  unfolding merge old_fields
  unmarshal bad_json old = (false, old)
  unmarshal null_json old = (true, none)
  unmarshal (object_json m) old = (true, some (merge m (old_fields old)))

  unfoldable pub with_json : Bytes → Bool × Option (Fields Float) → Bool × Content Float
  with_json text (good, m) = (good, record { config_content_byte = text; config_content_json = m })

  unfoldable pub load_config_from_data :
      (Bytes → Loaded Float) → Bytes → Content Float → Bool × Content Float
  unfolding unmarshal with_json
  load_config_from_data json text c = with_json text (unmarshal (json text) c.config_content_json)

  -- A file that cannot be read leaves no text.
  unfoldable pub load_config_from_file :
      (Bytes → Loaded Float) → Option Bytes → Content Float → Bool × Content Float
  unfolding load_config_from_data
  load_config_from_file json none c = (false, record c { config_content_byte = [] })
  load_config_from_file json (some text) c = load_config_from_data json text c

  field_at-put_field :
      (i k : Bytes) (v : Json Float) (m : Fields Float)
      → field_at i (put_field k v m) ≡ (if bytes_eq k i then some v else field_at i m)
  unfolding put_field field_at
  field_at-put_field i k v no_fields = refl
  field_at-put_field i k v (field j w m) =
      ground
        (arith, bytes_eq_iff j k, bytes_eq_iff j i, bytes_eq_iff k i, field_at-put_field i k v m)

  -- The value of a key: that of the new object, and else that of the old one.
  abbrev or_old : Option (Json Float) → Option (Json Float) → Option (Json Float)
  or_old none old = old
  or_old (some v) old = some v

  field_at-merge :
      (i : Bytes) (m old : Fields Float)
      → field_at i (merge m old) ≡ or_old (field_at i m) (field_at i old)
  unfolding merge field_at
  field_at-merge i no_fields old = refl
  field_at-merge i (field k v m) old =
      ground (arith, field_at-put_field i k v (merge m old), field_at-merge i m old)

  -- Loading a configuration over one that is there takes each key of the new text, and keeps all keys of
  -- the old one that the new text does not have.
  pub reload_keeps :
      (json : Bytes → Loaded Float) (text : Bytes) (m old : Fields Float) (c : Content Float)
      (i : Bytes)
      → json text ≡ object_json m
      → c.config_content_json ≡ some old
      → (now : Fields Float) × ((load_config_from_data json text c).1.config_content_json
          ≡ some now)
        × (field_at i now ≡ or_old (field_at i m) (field_at i old))
  unfolding load_config_from_data unmarshal with_json old_fields
  reload_keeps json text m old c i read before =
      (merge m old, rw (read, before) refl, field_at-merge i m old)
