-- ===== src/H3/Dial.antt =====
-- `dialRFC9220Profile` of internal/ws_h3.go: what it has opened when it returns. Each step of QUIC and
-- of the stream is an answer from outside, and so is what comes first: the response, an error of
-- h3ReadResponseHeaders, or the end of the context.
pub mod Opened
use outline_cli_ws.H3.Qpack.Table.{codes}
use outline_cli_ws.H3.Control.{Observations, peer_support_hint}
use outline_cli_ws.Common.{
  Bool, true, false, not, ◌&&◌, Option, none, some, if◌then◌else◌, Error, Result, ok, err,
  h3_scheme, h3_timeout, h3_unsupported, h3_bad_status,
}
use outline_cli_ws.Common.Bytes.{Bytes, bytes_equal}

-- A refusal says whether a quic.StreamErrorCode of H3_MESSAGE_ERROR is in its chain; a timeout, whether
-- the deadline has passed.
pub data Response : Type 0 where
  timed_out : Bool → Error → Response
  refused : Bool → Error → Response
  answered : Bytes → Response

pub record Answers : Type 0 where
  pub scheme : Bytes
  pub listen : Option Error
  pub dial : Option Error
  pub open_streams : Option Error
  pub new_stream : Option Error
  pub write_request : Option Error
  pub response : Response
  pub seen : Observations

-- The QUIC endpoint, its connection, and the goroutine that drains the peer's streams.
pub record Resources : Type 0 where
  pub endpoint : Bool
  pub conn : Bool
  pub drainer : Bool

abbrev nothing_open : Resources
nothing_open = record { endpoint = false; conn = false; drainer = false }

-- A return behind the dial: the deferred function has stopped the drainer, and nothing else.
abbrev left_open : Resources
left_open = record { endpoint = true; conn = true; drainer = false }

unfoldable pub on_response : Observations → Response → Resources × Result (Unit {0})
unfolding bytes_equal
on_response seen (timed_out deadline e) = (nothing_open, err (if deadline then h3_timeout else e))
on_response seen (refused message_err e) =
    (left_open, err (if peer_support_hint message_err seen then h3_unsupported else e))
on_response seen (answered status) =
    if not (bytes_equal status (codes "200"))
    then (left_open, err h3_bad_status)
    else (record { endpoint = true; conn = true; drainer = true }, ok tt)

-- `if err != nil { return nil, err }`, with what is open there.
abbrev pub unless_failed :
    Resources → Option Error → Resources × Result (Unit {0}) → Resources × Result (Unit {0})
unless_failed o (some e) rest = (o, err e)
unless_failed o none rest = rest

unfoldable pub dial_profile : Answers → Resources × Result (Unit {0})
unfolding bytes_equal on_response
dial_profile a =
    if not (bytes_equal a.scheme (codes "wss")) && not (bytes_equal a.scheme (codes "https"))
    then (nothing_open, err h3_scheme)
    else unless_failed nothing_open a.listen (
        unless_failed nothing_open a.dial (
          unless_failed left_open a.open_streams (
            unless_failed left_open a.new_stream
              (unless_failed left_open a.write_request (on_response a.seen a.response)))))
