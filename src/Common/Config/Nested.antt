-- ===== src/Common/Config/Nested.antt =====
-- Keys with dots, and the defaults of keys that are not there.
use optimusprime.Prelude.{◌≡◌, refl, ap, ◌∙◌, Bool, Option, none, some, List, [], ◌∷◌, ◌++◌}
use optimusprime.Prelude.Text.{Bytes}
use optimusprime.Prelude.Split.{split, dot, split-append}
use optimusprime.Prelude.Int.{ℤ}
use optimusprime.Common.Config.{
  Json, object, Fields, walk, get_value, get_config_by_key, or_default, value_default, as_string,
  as_float, as_bool, string_default, int_or_panic, int_default, bool_default,
}

module _ {Float : Type 0} where
  walk-append :
      (ks js : List Bytes) (o : Option (Json Float)) → walk (ks ++ js) o ≡ walk js (walk ks o)
  unfolding walk
  walk-append ks [] none = refl
  walk-append ks (j ∷ js) none = refl
  walk-append [] js (some b) = refl
  walk-append (k ∷ ks) js (some b) = walk-append ks js (get_value k b)

  -- A key is found step by step: where the key p has an object, the key p.q has what q has in it.
  pub get_config_by_key-nested :
      (p q : Bytes) (content : Option (Fields Float)) (m : Fields Float)
      → get_config_by_key p content ≡ some (object m)
      → get_config_by_key (p ++ dot ∷ q) content ≡ get_config_by_key q (some m)
  unfolding get_config_by_key
  get_config_by_key-nested p q none m found = cc
  get_config_by_key-nested p q (some c) m found =
      ap (λ ks. walk ks (some (object c))) (split-append p q)
      ∙ walk-append (split p) (split q) (some (object c))
      ∙ ap (walk (split q)) found

  -- Where a key is not there, StringDefault and BoolDefault return their default, and IntDefault
  -- panics, whatever its default is: the assertion of a float64 fails on the default, an int.
  pub int_default_panics :
      (to_int : Float → ℤ) (key s : Bytes) (b : Bool) (d : ℤ) (content : Option (Fields Float))
      → get_config_by_key key content ≡ none
      → (string_default key s content ≡ some s)
        × (bool_default key b content ≡ some b)
        × (int_default to_int key d content ≡ none)
  unfolding string_default bool_default int_default value_default or_default as_string as_bool
      as_float int_or_panic
  int_default_panics to_int key s b d content missing = rw missing (refl, refl, refl)
