-- ===== src/Ws/Uri.antt =====
-- The request of a dial, cleanedRequestURI of internal/rfc8441_raw_h2.go: a query is its parameters in
-- order, and the escaping of package net/url is a parameter.
pub mod Left
use text.Mathlib.Text.{◌==◌ as str_eq}
use Prim.Native.String.{String, ◌++◌}
use outline_cli_ws.Common.{List, [], ◌∷◌, if◌then◌else◌}

abbrev pub Values : Type 0
Values = List (String × String)

-- `q.Get(k)`, and `q.Del(k)`
unfoldable pub get_value : Values → String → String
get_value [] k = ""
get_value (v ∷ q) k = if str_eq v.0 k then v.1 else get_value q k

unfoldable pub del_value : String → Values → Values
del_value k [] = []
del_value k (v ∷ q) = if str_eq v.0 k then del_value k q else v ∷ del_value k q

unfoldable pub del_all : List String → Values → Values
unfolding del_value
del_all [] q = q
del_all (k ∷ ks) q = del_all ks (del_value k q)

abbrev pub control_parameters : List String
control_parameters =
    "h2" ∷ "http2" ∷ "h2only" ∷ "h2c" ∷ "h3" ∷ "http3" ∷ "h3only" ∷ "quic" ∷ "test_path"
    ∷ "health_path" ∷ "hc_path" ∷ []

-- The query of `cleanedRequestURI`.
unfoldable pub cleaned_query : Values → Values
unfolding del_all
cleaned_query q = del_all control_parameters q

-- `cleanedRequestURI`, with `u.EscapedPath()` and `q.Encode()`.
unfoldable pub cleaned_request_uri : (Values → String) → String → Values → String
unfolding cleaned_query
cleaned_request_uri encode escaped q =
    let path : String = if str_eq escaped "" then "/" else escaped in
    let qs : String = encode (cleaned_query q) in if str_eq qs "" then path else path ++ ("?" ++ qs)
