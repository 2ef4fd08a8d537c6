-- ===== src/Net/Http.antt =====
-- net/http_client.go: the requests of a client over package net/http, whose answers are given, and the
-- parameters of a GET, which are set in the query of its URL.
pub mod Params
mod Tests
use optimusprime.Prelude.{
  ℕ, ◌+◌, ◌*◌, ◌%◌, ◌^◌, Bool, true, false, if◌then◌else◌, leb, Option, none, some, List, [], ◌∷◌,
}
use optimusprime.Prelude.Text.{Bytes}
use optimusprime.Prelude.Int.{ℤ, pos, ltb_ℤ}
use optimusprime.Prelude.Word.{add64, mul64}
use optimusprime.Prelude.Map.{insert, string_eq}
use Prim.Native.String.{String}

-- A value of the parameters: a string, or anything else.
pub data ParamValue : Type 0 where
  text : Bytes → ParamValue
  other : ParamValue

-- url.Values.
abbrev pub Query : Type 0
Query = List (String × List Bytes)

pub data HttpError : Type 0 where
  bad_url bad_method no_answer bad_body : HttpError

-- What a request comes to: the body that was read and an error, or a panic.
pub data Sent : Type 0 where
  sent : Bytes → Option HttpError → Sent
  panics : Sent

-- What the server answers: none, or a body with the error that ended the reading of it, if there is
-- one.
pub data HttpAnswer : Type 0 where
  nothing : HttpAnswer
  body : Bytes → Bool → HttpAnswer

-- `req_params.Set(k, v.(string))` for the parameters in any order: a value that is no string panics
-- (`none`).
unfoldable pub set_param : String → ParamValue → Query → Option Query
set_param k (text v) q = some (insert k (v ∷ []) q)
set_param k other q = none

unfoldable pub set_params : List (String × ParamValue) → Option Query → Option Query
unfolding set_param
set_params ps none = none
set_params [] (some q) = some q
set_params ((k, v) ∷ ps) (some q) = set_params ps (set_param k v q)

-- ioutil.ReadAll of the body.
unfoldable pub read_answer : HttpAnswer → Sent
read_answer nothing = sent [] (some no_answer)
read_answer (body bs true) = sent bs none
read_answer (body bs false) = sent bs (some bad_body)

-- `time.Duration(timeOut) * time.Second`, for a uint32.
unfoldable pub seconds : ℕ → ℤ
seconds time_out = mul64 (pos (time_out % 2 ^ 32)) (pos 1000000000)

-- The dialler of a client: the deadline that it sets on the connection, if there is a time limit.
unfoldable pub dial_http_timeout : ℤ → ℤ → Option ℤ
dial_http_timeout now time_out = if ltb_ℤ (pos 0) time_out then some (add64 now time_out) else none

-- The server, by the query and the time limit of the client.
unfoldable pub get_with : (Query → ℤ → HttpAnswer) → ℕ → Option Query → Sent
unfolding read_answer seconds
get_with server time_out none = panics
get_with server time_out (some q) = read_answer (server q (seconds time_out))

-- The query of the URL, if it can be parsed.
unfoldable pub send_http_request :
    (Query → ℤ → HttpAnswer) → Option Query → List (String × ParamValue) → ℕ → Sent
unfolding get_with set_params
send_http_request server none params time_out = sent [] (some bad_url)
send_http_request server (some q) params time_out =
    get_with server time_out (set_params params (some q))

unfoldable pub send_http_post_request : (ℤ → HttpAnswer) → ℕ → Sent
unfolding read_answer seconds
send_http_post_request server time_out = read_answer (server (seconds time_out))

-- Whether http.NewRequest takes the method and the URL.
unfoldable pub send_http_method_request : (ℤ → HttpAnswer) → Bool → ℕ → Sent
unfolding read_answer seconds
send_http_method_request server valid time_out =
    if valid then read_answer (server (seconds time_out)) else sent [] (some bad_method)
