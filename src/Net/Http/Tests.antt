-- ===== src/Net/Http/Tests.antt =====
-- The parameters of a GET at a concrete server.
use Prim.Native.String.{String}
use optimusprime.Prelude.{refl, true, some, List, [], ◌∷◌}
use optimusprime.Prelude.Text.{codes}
use optimusprime.Prelude.Int.{ℤ}
use optimusprime.Net.Http.{ParamValue, text, Query, HttpAnswer, body, send_http_request}
use optimusprime.Net.Http.Params.{IsGot, send_http_request-IsGot}

abbrev params : List (String × ParamValue)
params = ("page", text (codes "2")) ∷ ("name", text (codes "Ann")) ∷ []

-- The URL has a page of its own.
abbrev query : Query
query = ("page", codes "1" ∷ codes "7" ∷ []) ∷ ("sort", codes "up" ∷ []) ∷ []

abbrev server : Query → ℤ → HttpAnswer
server q time_out = body (codes "ok") true

send_http_request-IsGot_example :
    IsGot server params query 3 (send_http_request server (some query) params 3)
send_http_request-IsGot_example =
    send_http_request-IsGot server params query 3 ((refl, tt), (tt, tt))
