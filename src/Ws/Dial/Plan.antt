-- ===== src/Ws/Dial/Plan.antt =====
-- `DialWSStream` of internal/ws.go against a plan: the protocols that the hints allow, best first.
use Prim.Native.String.{String}
use outline_cli_ws.Common.{
  ◌≡◌, ◌≢◌, Bool, true, false, ◌||◌, Option, none, some, List, [], ◌∷◌, ◌++◌, arith, if◌then◌else◌,
  All,
}
use outline_cli_ws.Common.{Error, Result, ok, err}
use outline_cli_ws.Ws.Dial.{
  settle_hints, Hints, parse_transport_hints, Protocol, h1, h2, h3, Dials, is_not_supported, Trace,
  dial_ws_stream,
}

-- The protocols to try. HTTP/2 follows a failed HTTP/3 also where no hint asks for it.
abbrev pub plan : Hints → Bool → List Protocol
plan h false = if h.h3_only || h.h2_only || h.connect_only_mode then [] else h1 ∷ []
plan h true =
    if h.h3_only
    then h3 ∷ []
    else (if h.try_h3 then h3 ∷ [] else [])
      ++ (if h.try_h2 || h.try_h3 || h.h2_only then h2 ∷ [] else [])
      ++ (if h.h2_only || h.connect_only_mode then [] else h1 ∷ [])

-- Every failure of HTTP/3 goes on, and of HTTP/2 the lack of support.
abbrev pub goes_on : Protocol → Error → Bool
goes_on h3 e = true
goes_on h2 e = is_not_supported e
goes_on h1 e = false

module _ {C : Type 0} where
  abbrev pub dial_of : Dials C → Protocol → Result C
  dial_of d h1 = d.by_h1
  dial_of d h2 = d.by_h2
  dial_of d h3 = d.by_h3

  -- The plan, run: what is tried, and the connection.
  abbrev pub followed :
      Protocol → Result C → (Error → Bool) → List Protocol × Option C → List Protocol × Option C
  followed p (ok c) on rest = (p ∷ [], some c)
  followed p (err e) on rest = if on e then (p ∷ rest.0, rest.1) else (p ∷ [], none)

  abbrev pub follow : Dials C → List Protocol → List Protocol × Option C
  follow d [] = ([], none)
  follow d (p ∷ ps) = followed p (dial_of d p) (goes_on p) (follow d ps)

  abbrev pub connection : Trace C → List Protocol × Option C
  connection (ps, ok c) = (ps, some c)
  connection (ps, err e) = (ps, none)

  settled :
      (a b c e f : Bool) (is_ws : Bool) (d : Dials C)
      → connection (dial_ws_stream (settle_hints a b c e f) is_ws d)
        ≡ follow d (plan (settle_hints a b c e f) is_ws)
  unfolding dial_ws_stream settle_hints
  settled a b c e f false d = ground arith
  settled a b c e f true d = ground arith

  -- For every query of the URL, scheme and outcome of the three handshakes, DialWSStream makes the
  -- handshakes of a list that the hints determine, in its order and up to the one that ends it,
  -- and returns the connection that the list gives: HTTP/3, HTTP/2, HTTP/1.1, where every failure
  -- of HTTP/3 goes on, and a failure of HTTP/2 only for lack of support.
  pub dial_ws_stream_follows :
      (get : String → String) (is_ws : Bool) (d : Dials C)
      → connection (dial_ws_stream (parse_transport_hints get) is_ws d)
        ≡ follow d (plan (parse_transport_hints get) is_ws)
  unfolding parse_transport_hints
  dial_ws_stream_follows get is_ws d = search settled

  -- Where HTTP/2 is to be tried, or HTTP/3, and the HTTP/2 handshake fails with any error but
  -- errRFC8441NotSupported, DialWSStream never makes the HTTP/1.1 handshake.
  pub dial_ws_stream_without_h1 :
      (h : Hints) (d : Dials C) (e : Error)
      → (h.try_h2 || h.try_h3) ≡ true
      → d.by_h2 ≡ err e
      → is_not_supported e ≡ false
      → All (λ p. p ≢ h1) (dial_ws_stream h true d).0
  unfolding dial_ws_stream
  dial_ws_stream_without_h1 h d e t b n = ground arith
