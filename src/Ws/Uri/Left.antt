-- ===== src/Ws/Uri/Left.antt =====
-- The hints that a request still carries, internal/rfc8441_raw_h2.go against internal/ws.go.
use text.Mathlib.Text.{◌==◌ as str_eq}
use Prim.Native.String.{String}
use text.Mathlib.TextEquality.{eq_iff}
use outline_cli_ws.Ws.Dial.{Hints, settle_hints, parse_transport_hints}
use outline_cli_ws.Ws.Uri.{Values, get_value, del_value, del_all, control_parameters, cleaned_query}
use outline_cli_ws.Common.{
  ◌≡◌, refl, sym, ap, ◌∙◌, subst, inl, inr, Bool, true, false, ◌||◌, List, [], ◌∷◌, if◌then◌else◌,
  Bool-cases,
}

get_value-del_value_self : (k : String) (q : Values) → get_value (del_value k q) k ≡ ""
unfolding get_value del_value
get_value-del_value_self k [] = refl
get_value-del_value_self k (v ∷ q) = elim (Bool-cases (str_eq v.0 k)) [
  | inl t ↦ rw (t, del_value) (get_value-del_value_self k q)
  | inr f ↦ rw (f, del_value) (rw (f, get_value) (get_value-del_value_self k q))
]

get_value-del_value_ne :
    (j k : String) (q : Values) → str_eq j k ≡ false → get_value (del_value j q) k ≡ get_value q k
unfolding get_value del_value
get_value-del_value_ne j k [] n = refl
get_value-del_value_ne j k (v ∷ q) n = elim (Bool-cases (str_eq v.0 j)) [
  | inl t ↦
      let same : v.0 ≡ j = (eq_iff v.0 j).0 t in
      let other : str_eq v.0 k ≡ false = subst (λ x. str_eq x k ≡ false) (sym same) n in
      rw (t, other, del_value, get_value) (get_value-del_value_ne j k q n)
  | inr f ↦
      rw (f, del_value) (ap (λ x. if str_eq v.0 k then v.1 else x) (get_value-del_value_ne j k q n))
]

abbrev pub among : String → List String → Bool
among k [] = false
among k (j ∷ ks) = str_eq j k || among k ks

either : (b : Bool) → let e : String = "" in (if b then e else e) ≡ e
either true = refl
either false = refl

get_value-del_all :
    (ks : List String) (k : String) (q : Values)
    → get_value (del_all ks q) k ≡ (if among k ks then "" else get_value q k)
unfolding del_all
get_value-del_all [] k q = refl
get_value-del_all (j ∷ ks) k q = elim (Bool-cases (str_eq j k)) [
  | inl t ↦
      let gone : get_value (del_value j q) k ≡ "" =
        subst (λ x. get_value (del_value j q) x ≡ "") ((eq_iff j k).0 t)
          (get_value-del_value_self j q) in
      rw t (get_value-del_all ks k (del_value j q) ∙ rw gone (either (among k ks)))
  | inr f ↦ rw f (get_value-del_all ks k (del_value j q) ∙ rw (get_value-del_value_ne j k q f) refl)
]

-- The hints that a query gives by the parameters which no deletion names.
abbrev pub left_hints : Values → Hints
left_hints q =
    let get : String → String = get_value q in
    settle_hints (str_eq (get "rfc8441") "1") (str_eq (get "rfc8441") "only")
      (str_eq (get "rfc9220") "1") (str_eq (get "rfc9220") "only")
      (str_eq (get "connect") "only"
        || str_eq (get "extended_connect") "only"
        || str_eq (get "extended-connect") "only"
        || str_eq (get "connect_protocol") "only")

gone_or_left :
    (q : Values) (k : String)
    → get_value (cleaned_query q) k ≡ (if among k control_parameters then "" else get_value q k)
unfolding cleaned_query
gone_or_left q k = get_value-del_all control_parameters k q

-- The query that cleanedRequestURI leaves gives the hints that rfc8441, rfc9220, connect,
-- extended_connect, extended-connect and connect_protocol give in the query before, and no others.
pub parse_transport_hints-cleaned_query :
    (q : Values) → parse_transport_hints (get_value (cleaned_query q)) ≡ left_hints q
unfolding parse_transport_hints
parse_transport_hints-cleaned_query q =
    rw
      (
        gone_or_left q "h2",
        gone_or_left q "http2",
        gone_or_left q "h2c",
        gone_or_left q "h2only",
        gone_or_left q "h3",
        gone_or_left q "http3",
        gone_or_left q "quic",
        gone_or_left q "h3only",
        gone_or_left q "rfc8441",
        gone_or_left q "rfc9220",
        gone_or_left q "connect",
        gone_or_left q "extended_connect",
        gone_or_left q "extended-connect",
        gone_or_left q "connect_protocol",
      )
      refl
