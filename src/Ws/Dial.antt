-- ===== src/Ws/Dial.antt =====
-- The dial of a WebSocket: `DialWSStream` and `parseTransportHints` of internal/ws.go, `dialRFC9220`
-- of internal/ws_h3.go, and the timeouts that internal/lb.go derives from the hints. The URL library,
-- strings.ToLower and the handshakes themselves are parameters.
pub mod Plan
use Prim.Native.String.{String}
use text.Mathlib.Text.{◌==◌ as str_eq}
use outline_cli_ws.Common.Int.{ℤ, pos, ltb_ℤ}
use outline_cli_ws.Common.{
  h3_only_failed, h2_only_failed, h3_only_scheme, h2_only_scheme, connect_only,
  rfc8441_not_supported,
}
use outline_cli_ws.Common.{
  ℕ, zero, suc, ◌+◌, ◌-◌, ◌*◌, ◌/◌, ◌%◌, ◌^◌, ◌≤◌, ◌<◌, min, bit_and, bit_or, bit_xor, ◌≡◌, refl,
  sym, ap, ◌∙◌, subst, ◌≢◌, ◌↔◌, ◌⊎◌, inl, inr, Bool, true, false, not, ◌&&◌, ◌||◌, Option, none,
  some, List, [], ◌∷◌, ◌++◌, map, foldl, append-nil, append_assoc, arith, ltb, leb, ◌==◌,
  if◌then◌else◌, ==_iff, leb→le, Bool-cases, Option-cases, is_some, length, get_elem?, get_or, set,
  take, drop, All, length-append, take-append, drop-append, length-set, get_elem?-set_self,
  get_elem?-set_ne, length-drop, take-append-drop, get_elem?-some-lt, All-get_or, All-append,
}
use outline_cli_ws.Common.{Error, Result, ok, err}
use outline_cli_ws.Common.{◌>>=◌, ◌>>◌, fail_if, >>=-eq-ok}
use outline_cli_ws.Common.Bytes.{
  Bytes, IsByte, put_uint16, put_uint64, big_endian, big_endian-put_uint16, big_endian-put_uint64,
}

pub record Hints : Type 0 where
  pub try_h2 : Bool
  pub h2_only : Bool
  pub try_h3 : Bool
  pub h3_only : Bool
  pub connect_only_mode : Bool

-- The end of `parseTransportHints`: an `only` implies the rest.
pub settle_hints : Bool → Bool → Bool → Bool → Bool → Hints
settle_hints h2 only2 h3 only3 connect = record {
  try_h2 = if only2 then true else h2;
  h2_only = only2;
  try_h3 = if only3 then true else h3;
  h3_only = only3;
  connect_only_mode = if only2 || only3 then true else connect;
}

-- `q.Get(k)` is `get k`.
unfoldable pub parse_transport_hints : (String → String) → Hints
unfolding settle_hints
parse_transport_hints get =
    let h2 : Bool =
      str_eq (get "h2") "1"
      || str_eq (get "http2") "1"
      || str_eq (get "h2c") "1"
      || str_eq (get "rfc8441") "1" in
    let only2 : Bool =
      str_eq (get "h2") "only"
      || str_eq (get "http2") "only"
      || str_eq (get "h2only") "1"
      || str_eq (get "rfc8441") "only" in
    let h3 : Bool =
      str_eq (get "h3") "1"
      || str_eq (get "http3") "1"
      || str_eq (get "quic") "1"
      || str_eq (get "rfc9220") "1" in
    let only3 : Bool =
      str_eq (get "h3") "only"
      || str_eq (get "http3") "only"
      || str_eq (get "h3only") "1"
      || str_eq (get "quic") "only"
      || str_eq (get "rfc9220") "only" in
    let connect : Bool =
      str_eq (get "connect") "only"
      || str_eq (get "extended_connect") "only"
      || str_eq (get "extended-connect") "only"
      || str_eq (get "connect_protocol") "only" in
    settle_hints h2 only2 h3 only3 connect

-- `isWebSocketLikeScheme`
unfoldable pub is_websocket_like_scheme : (String → String) → String → Bool
is_websocket_like_scheme to_lower s =
    let t : String = to_lower s in
    str_eq t "ws" || str_eq t "wss" || str_eq t "http" || str_eq t "https"

-- `wsDialTimeoutForURL` and `shouldUseH3Healthcheck`: `none` is a URL that does not parse. The floor
-- is `h3HandshakeTimeout`.
unfoldable pub should_use_h3_healthcheck : Option Hints → Bool
should_use_h3_healthcheck none = false
should_use_h3_healthcheck (some h) = h.try_h3 || h.h3_only

unfoldable pub ws_dial_timeout_for_url : ℤ → ℤ → Option Hints → ℤ
ws_dial_timeout_for_url floor base none = base
ws_dial_timeout_for_url floor base (some h) =
    if ltb_ℤ (pos 0) base && (h.try_h3 || h.h3_only) && ltb_ℤ base floor then floor else base

pub data Protocol : Type 0 where
  h1 h2 h3 : Protocol

-- What the dial of each protocol gives.
pub record Dials (C : Type 0) : Type 0 where
  pub by_h1 : Result C
  pub by_h2 : Result C
  pub by_h3 : Result C

-- errors.Is(err, errRFC8441NotSupported)
abbrev pub is_not_supported : Error → Bool
is_not_supported rfc8441_not_supported = true
is_not_supported e = false

-- The handshakes that were tried, in order, and the result.
abbrev pub Trace : Type 0 → Type 0
Trace C = List Protocol × Result C

module _ {C : Type 0} where
  abbrev pub tried : Protocol → Trace C → Trace C
  tried p (ps, r) = (p ∷ ps, r)

  -- The end of `DialWSStream`: the classic upgrade, unless only Extended CONNECT is allowed.
  dial_classic : Hints → Dials C → Trace C
  dial_classic h d = if h.connect_only_mode then ([], err connect_only) else (h1 ∷ [], d.by_h1)

  h2_only_result : Result C → Trace C
  h2_only_result (ok c) = (h2 ∷ [], ok c)
  h2_only_result (err e) = (h2 ∷ [], err (h2_only_failed e))

  try_h2_result : Hints → Dials C → Result C → Trace C
  unfolding dial_classic
  try_h2_result h d (ok c) = (h2 ∷ [], ok c)
  try_h2_result h d (err e) =
      if not (is_not_supported e) then (h2 ∷ [], err e) else tried h2 (dial_classic h d)

  -- From `if h2Only` on; `try_it` is the variable `tryH2` there.
  dial_h2 : Hints → Bool → Bool → Dials C → Trace C
  unfolding h2_only_result try_h2_result
  dial_h2 h is_ws try_it d =
      if h.h2_only
      then (if not is_ws then ([], err h2_only_scheme) else h2_only_result d.by_h2)
      else (if try_it && is_ws then try_h2_result h d d.by_h2 else dial_classic h d)

  try_h3_result : Hints → Dials C → Result C → Trace C
  unfolding dial_h2
  try_h3_result h d (ok c) = (h3 ∷ [], ok c)
  try_h3_result h d (err e) =
      if h.h3_only then (h3 ∷ [], err (h3_only_failed e)) else tried h3 (dial_h2 h true true d)

  unfoldable pub dial_ws_stream : Hints → Bool → Dials C → Trace C
  unfolding try_h3_result
  dial_ws_stream h is_ws d =
      if h.try_h3 && is_ws
      then try_h3_result h d d.by_h3
      else (if h.h3_only then ([], err h3_only_scheme) else dial_h2 h is_ws h.try_h2 d)

  -- `dialRFC9220`: the dial with the first profile of client streams, and with the second behind an
  -- error of the frame order.
  unfoldable pub dial_rfc9220 : (Error → Bool) → Result C → Result C → Result C
  dial_rfc9220 is_frame_order (ok c) second = ok c
  dial_rfc9220 is_frame_order (err e) second = if not (is_frame_order e) then err e else second
