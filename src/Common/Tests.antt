-- ===== src/Common/Tests.antt =====
-- The theorems of package common at a concrete configuration.
use optimusprime.Prelude.{List, [], ◌∷◌, length, length-append, ℕ, ◌≡◌, refl, some}
use optimusprime.Common.Table.{Row, new_table}
use optimusprime.Common.Table.Aligned.{AllAligned, add_rows, add_rows-AllAligned}
use optimusprime.Prelude.Text.{codes}
use optimusprime.Prelude.Split.{bytes_eq, split, put_byte}
use optimusprime.Common.Config.{
  Fields, field, no_fields, object, text, number, get_config_by_key, walk, get_value, field_at,
  get_data,
}
use optimusprime.Common.Config.Load.{
  Content, Loaded, object_json, load_config_from_data, reload_keeps,
}
use optimusprime.Common.Config.Nested.{get_config_by_key-nested}

-- {"db": {"host": "a", "port": 3}}, where a float stands for itself.
abbrev database : Fields ℕ
database = field (codes "host") (text (codes "a")) (field (codes "port") (number 3) no_fields)

abbrev config : Fields ℕ
config = field (codes "db") (object database) no_fields

get_config_by_key-nested_example :
    get_config_by_key (codes "db.port") (some config)
    ≡ get_config_by_key (codes "port") (some database)
unfolding get_config_by_key walk get_value field_at get_data bytes_eq split put_byte
get_config_by_key-nested_example =
    get_config_by_key-nested (codes "db") (codes "port") (some config) database refl

abbrev two_rows : List Row
two_rows =
    (("Id", codes "7") ∷ ("Name", codes "serve") ∷ [])
    ∷ (("Name", codes "a much longer name") ∷ [])
    ∷ []

-- Each byte has the width 1.
add_rows-AllAligned_example :
    AllAligned length
      (add_rows length two_rows (new_table ("Id" ∷ "Name" ∷ [])))
      (add_rows length two_rows (new_table ("Id" ∷ "Name" ∷ []))).rows
add_rows-AllAligned_example =
    add_rows-AllAligned length ("Id" ∷ "Name" ∷ []) two_rows
      (record { nothing = refl; adds = length-append; space = refl })

-- The new text has a port only.
abbrev loaded : Content ℕ
loaded = record { config_content_byte = []; config_content_json = some database }

abbrev to_json : List ℕ → Loaded ℕ
to_json bytes = object_json (field (codes "port") (number 4) no_fields)

reload_keeps_example :
    (now : Fields ℕ) × ((load_config_from_data to_json (codes "{}") loaded).1.config_content_json
      ≡ some now)
    × (field_at (codes "host") now ≡ some (text (codes "a")))
unfolding field_at bytes_eq
reload_keeps_example =
    reload_keeps to_json (codes "{}") (field (codes "port") (number 4) no_fields) database loaded
      (codes "host") refl refl
