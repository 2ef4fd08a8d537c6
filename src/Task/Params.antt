-- ===== src/Task/Params.antt =====
-- task/api_task.go: how an API task reads its parameters, calls its handler and answers. What
-- encoding/json, io and net/http make of the request is given.
use Prim.Native.String.{String}
use optimusprime.Prelude.{
  ◌≡◌, refl, false, if◌then◌else◌, Option, none, some, List, [], ◌∷◌, Bool-cases, inl, inr, ap, ◌∙◌,
}
use mathlib.Core.Path.{subst}
use optimusprime.Prelude.Text.{Bytes, str_eq}
use optimusprime.Prelude.Map.{lookup, insert, string_eq, Lacks, IsMap, lookup-insert}

-- A value of a JSON object, as far as `parseJsonParams` tells the types apart.
pub data Value (Float : Type 0) : Type 0 where
  text : Bytes → Value Float
  number : Float → Value Float
  other : Value Float

-- What json.Unmarshal into an interface gives: an object, with each key once, or anything else.
pub data Decoded (Float : Type 0) : Type 0 where
  object : List (String × Value Float) → Decoded Float
  not_object : Decoded Float

abbrev pub ParamMap : Type 0
ParamMap = List (String × Bytes)

pub data Failure : Type 0 where
  read_fails json_fails marshal_fails : Failure

-- A panic has no recover in the goroutine of an API task.
pub data Parsed (A : Type 0) : Type 0 where
  ok : A → Parsed A
  fails : Failure → Parsed A
  panic : Parsed A

pub record Request : Type 0 where
  pub content_type : String
  -- What ReadAll gives, and the form that ParseForm leaves.
  pub body : Option Bytes
  pub form : List (String × List Bytes)

module _ {Float Result : Type 0} (format_float : Float → Bytes)
    (unmarshal : Bytes → Option (Decoded Float)) (marshal : Result → Option Bytes) where
  unfoldable pub add_value : String → Value Float → ParamMap → ParamMap
  add_value k (text s) ret = insert k s ret
  add_value k (number x) ret = insert k (format_float x) ret
  add_value k other ret = ret

  unfoldable pub add_values : List (String × Value Float) → ParamMap → ParamMap
  unfolding add_value
  add_values [] ret = ret
  add_values ((k, v) ∷ m) ret = add_values m (add_value k v ret)

  -- The conversion to a map panics for a value that is no object.
  unfoldable pub from_decoded : Option (Decoded Float) → Parsed ParamMap
  unfolding add_values
  from_decoded none = fails json_fails
  from_decoded (some (object m)) = ok (add_values m [])
  from_decoded (some not_object) = panic

  unfoldable pub parse_json_params : Bytes → Parsed ParamMap
  unfolding from_decoded
  parse_json_params b = from_decoded (unmarshal b)

  unfoldable pub from_body : Option Bytes → Parsed ParamMap
  unfolding parse_json_params
  from_body none = fails read_fails
  from_body (some b) = parse_json_params b

  -- The first value of each key of the form; `values[0]` panics where there is none.
  unfoldable pub from_form : List (String × List Bytes) → ParamMap → Parsed ParamMap
  from_form [] p = ok p
  from_form ((k, []) ∷ fs) p = panic
  from_form ((k, v ∷ vs) ∷ fs) p = from_form fs (insert k v p)

  unfoldable pub request_params : Request → Parsed ParamMap
  unfolding from_body from_form
  request_params r =
      if str_eq r.content_type "application/json" then from_body r.body else from_form r.form []

  unfoldable pub answer : Option Bytes → Parsed Bytes
  answer none = fails marshal_fails
  answer (some data_bytes) = ok data_bytes

  unfoldable pub serve_params : (ParamMap → Result) → Parsed ParamMap → Parsed Bytes
  unfolding answer
  serve_params h (ok p) = answer (marshal (h p))
  serve_params h (fails e) = fails e
  serve_params h panic = panic

  -- What `execute` writes as the answer.
  unfoldable pub execute : Request → (ParamMap → Result) → Parsed Bytes
  unfolding serve_params request_params
  execute r h = serve_params h (request_params r)

  -- What a value is as a parameter.
  abbrev pub as_param : Option (Value Float) → Option Bytes
  as_param none = none
  as_param (some (text s)) = some s
  as_param (some (number x)) = some (format_float x)
  as_param (some other) = none

  add_value_other :
      (k j : String) (v : Value Float) (ret : ParamMap)
      → str_eq k j ≡ false
      → lookup j (add_value k v ret) ≡ lookup j ret
  unfolding add_value
  add_value_other k j (text s) ret apart = rw (lookup-insert k j s ret, apart) refl
  add_value_other k j (number x) ret apart = rw (lookup-insert k j (format_float x) ret, apart) refl
  add_value_other k j other ret apart = refl

  add_value_same :
      (k : String) (v : Value Float) (ret : ParamMap)
      → lookup k ret ≡ none
      → lookup k (add_value k v ret) ≡ as_param (some v)
  unfolding add_value
  add_value_same k (text s) ret fresh =
      rw (lookup-insert k k s ret, (string_eq.beq_iff k k).1 refl) refl
  add_value_same k (number x) ret fresh =
      rw (lookup-insert k k (format_float x) ret, (string_eq.beq_iff k k).1 refl) refl
  add_value_same k other ret fresh = fresh

  add_values-Lacks :
      (j : String) (m : List (String × Value Float)) (ret : ParamMap)
      → Lacks j m
      → lookup j (add_values m ret) ≡ lookup j ret
  unfolding add_values
  add_values-Lacks j [] ret l = refl
  add_values-Lacks j ((k, v) ∷ m) ret (apart, l) =
      add_values-Lacks j m (add_value k v ret) l ∙ add_value_other k j v ret apart

  add_values_head :
      (k j : String) (v : Value Float) (m : List (String × Value Float)) (ret : ParamMap)
      → k ≡ j
      → Lacks k m
      → lookup j ret ≡ none
      → lookup j (add_values m (add_value k v ret)) ≡ as_param (some v)
  add_values_head k j v m ret same l fresh =
      subst (λ i. lookup i (add_values m (add_value k v ret)) ≡ as_param (some v)) same
        (add_values-Lacks k m (add_value k v ret) l
          ∙ add_value_same k v ret (ap (λ i. lookup i ret) same ∙ fresh))

  lookup-add_values :
      (j : String) (m : List (String × Value Float)) (ret : ParamMap)
      → IsMap m
      → lookup j ret ≡ none
      → lookup j (add_values m ret) ≡ as_param (lookup j m)
  unfolding add_values lookup
  lookup-add_values j [] ret is_map fresh = fresh
  lookup-add_values j ((k, v) ∷ m) ret (l, is_map) fresh = elim (Bool-cases (str_eq k j)) [
    | inl same ↦ rw same (add_values_head k j v m ret ((string_eq.beq_iff k j).0 same) l fresh)
    | inr apart ↦
        rw apart (
          lookup-add_values j m (add_value k v ret) is_map
            (add_value_other k j v ret apart ∙ fresh))
  ]

  -- A body that decodes to an object gives the parameters that its texts and numbers are, each under
  -- its key, and nothing else: a parameter is the text, or the number written out, and the value of
  -- any other type is no parameter. The object has each key once.
  pub parse_json_params-lookup :
      (b : Bytes) (m : List (String × Value Float))
      → IsMap m
      → unmarshal b ≡ some (object m)
      → (p : ParamMap) × (parse_json_params b ≡ ok p)
        × ((j : String) → lookup j p ≡ as_param (lookup j m))
  unfolding parse_json_params from_decoded lookup
  parse_json_params-lookup b m is_map decodes =
      (add_values m [], ap from_decoded decodes, λ j. lookup-add_values j m [] is_map refl)

  -- A request of type application/json whose body decodes to something else than an object (a list,
  -- a number, null) makes `execute` panic, whatever the handler is; the goroutine of an API task
  -- has no recover.
  pub execute_panics :
      (r : Request) (b : Bytes) (h : ParamMap → Result)
      → r.content_type ≡ "application/json"
      → r.body ≡ some b
      → unmarshal b ≡ some not_object
      → execute r h ≡ panic
  unfolding execute request_params from_body parse_json_params from_decoded serve_params
  execute_panics r b h json body_read decodes =
      rw ((string_eq.beq_iff r.content_type "application/json").1 json, body_read, decodes) refl
