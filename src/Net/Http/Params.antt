-- ===== src/Net/Http/Params.antt =====
-- The query that a GET sends.
use Prim.Native.String.{String}
use optimusprime.Prelude.{
  ◌≡◌, refl, ap, sym, ◌∙◌, Bool, true, false, Bool-cases, inl, inr, ◌⊎◌, if◌then◌else◌, Option,
  none, some, List, [], ◌∷◌,
}
use optimusprime.Prelude.Text.{Bytes, str_eq, str_eq_iff}
use optimusprime.Prelude.Map.{
  lookup, insert, string_eq, lookup-insert, Lacks, IsMap, lookup_of_Lacks,
}
use optimusprime.Net.Http.{
  ParamValue, text, other, Query, set_param, set_params, Sent, panics, HttpAnswer,
  send_http_request, get_with, read_answer, seconds,
}
use optimusprime.Prelude.{ℕ}
use optimusprime.Prelude.Int.{ℤ}

-- Whether a value is no string.
unfoldable pub has_other : List (String × ParamValue) → Bool
has_other [] = false
has_other ((k, text v) ∷ ps) = has_other ps
has_other ((k, other) ∷ ps) = true

-- The values of a name: that of the parameters, if they have it, and else those of the URL.
abbrev pub sent_values : String → Option ParamValue → Query → Option (List Bytes)
sent_values k none q = lookup k q
sent_values k (some (text v)) q = some (v ∷ [])
sent_values k (some other) q = none

-- Setting the parameters gives up at a value that is no string, and else the query has their values.
abbrev IsSetBy : List (String × ParamValue) → Query → Option Query → Type 0
IsSetBy ps q none = has_other ps ≡ true
IsSetBy ps q (some q') =
    (has_other ps ≡ false) × ((k : String) → lookup k q' ≡ sent_values k (lookup k ps) q)

add_param :
    (k : String) (v : Bytes) (ps : List (String × ParamValue)) (q q' : Query)
    → Lacks k ps
    → ((j : String) → lookup j q' ≡ sent_values j (lookup j ps) (insert k (v ∷ []) q))
    → (j : String) → lookup j q' ≡ sent_values j (lookup j ((k, text v) ∷ ps)) q
unfolding lookup
add_param k v ps q q' fresh h j = elim (Bool-cases (str_eq k j)) [
  | inl same ↦
      let e : k ≡ j = (str_eq_iff k j).0 same in
      rw same (
        h j
        ∙ ap (λ o. sent_values j o (insert k (v ∷ []) q))
            (ap (λ i. lookup i ps) (sym e) ∙ lookup_of_Lacks k ps fresh)
        ∙ lookup-insert k j (v ∷ []) q
        ∙ ap (λ b. if b then some (v ∷ []) else lookup j q) same)
  | inr apart ↦ rw apart (
      h j
      ∙ untouched (lookup j ps)
          (lookup-insert k j (v ∷ []) q ∙ ap (λ b. if b then some (v ∷ []) else lookup j q) apart))
]
  where
    untouched :
        (o : Option ParamValue)
        → lookup j (insert k (v ∷ []) q) ≡ lookup j q
        → sent_values j o (insert k (v ∷ []) q) ≡ sent_values j o q
    untouched none e = e
    untouched (some (text w)) e = refl
    untouched (some other) e = refl

onto-IsSetBy :
    (k : String) (v : Bytes) (ps : List (String × ParamValue)) (q : Query) (o : Option Query)
    → Lacks k ps
    → IsSetBy ps (insert k (v ∷ []) q) o
    → IsSetBy ((k, text v) ∷ ps) q o
unfolding has_other
onto-IsSetBy k v ps q none fresh h = h
onto-IsSetBy k v ps q (some q') fresh (all, h) = (all, add_param k v ps q q' fresh h)

set_params-IsSetBy :
    (ps : List (String × ParamValue)) (q : Query) → IsMap ps → IsSetBy ps q (set_params ps (some q))
unfolding set_params set_param lookup has_other
set_params-IsSetBy [] q m = (refl, λ k. refl)
set_params-IsSetBy ((k, text v) ∷ ps) q (fresh, m) =
    onto-IsSetBy k v ps q (set_params ps (some (insert k (v ∷ []) q))) fresh
      (set_params-IsSetBy ps (insert k (v ∷ []) q) m)
set_params-IsSetBy ((k, other) ∷ []) q m = refl
set_params-IsSetBy ((k, other) ∷ p ∷ ps) q m = refl

-- What a GET comes to: a panic if a value is no string, and else the answer of the server for a query.
abbrev pub IsGot : (Query → ℤ → HttpAnswer) → List (String × ParamValue) → Query → ℕ → Sent → Type 0
IsGot server ps q time_out s =
    ((has_other ps ≡ true) × (s ≡ panics))
    ⊎ ((has_other ps ≡ false)
        × ((q' : Query) × (s ≡ read_answer (server q' (seconds time_out)))
            × ((k : String) → lookup k q' ≡ sent_values k (lookup k ps) q)))

get_with-IsGot :
    (server : Query → ℤ → HttpAnswer) (ps : List (String × ParamValue)) (q : Query) (time_out : ℕ)
    (o : Option Query)
    → IsSetBy ps q o
    → IsGot server ps q time_out (get_with server time_out o)
unfolding get_with
get_with-IsGot server ps q time_out none h = inl (h, refl)
get_with-IsGot server ps q time_out (some q') (all, h) = inr (all, (q', refl, h))

-- A GET whose URL can be parsed panics if a value of its parameters is no string. Otherwise the server
-- gets, in the query, the value of each parameter under its name alone, and the values of the URL under
-- all other names. The parameters are a map.
pub send_http_request-IsGot :
    (server : Query → ℤ → HttpAnswer) (ps : List (String × ParamValue)) (q : Query) (time_out : ℕ)
    → IsMap ps
    → IsGot server ps q time_out (send_http_request server (some q) ps time_out)
unfolding send_http_request
send_http_request-IsGot server ps q time_out m =
    get_with-IsGot server ps q time_out (set_params ps (some q)) (set_params-IsSetBy ps q m)
