-- ===== src/H3/Dial/Opened.antt =====
-- What dialRFC9220Profile of internal/ws_h3.go leaves open.
use outline_cli_ws.H3.Qpack.Table.{codes}
use outline_cli_ws.H3.Dial.{
  Response, timed_out, refused, answered, Answers, Resources, on_response, dial_profile,
}
use outline_cli_ws.H3.Control.{Observations}
use outline_cli_ws.Common.{
  ◌≡◌, refl, Bool, true, false, not, ◌&&◌, ◌||◌, is_some, Result, ok, err, arith,
}
use outline_cli_ws.Common.Bytes.{bytes_equal}

abbrev pub succeeded : Result (Unit {0}) → Bool
succeeded (ok u) = true
succeeded (err e) = false

abbrev pub is_timeout : Response → Bool
is_timeout (timed_out d e) = true
is_timeout (refused m e) = false
is_timeout (answered s) = false

-- The dial has given a connection.
abbrev pub connected : Answers → Bool
connected a =
    (bytes_equal a.scheme (codes "wss") || bytes_equal a.scheme (codes "https"))
    && not (is_some a.listen)
    && not (is_some a.dial)

-- The request has gone out, and the wait for the response ended by the context.
abbrev pub gave_up : Answers → Bool
gave_up a =
    not (is_some a.open_streams)
    && not (is_some a.new_stream)
    && not (is_some a.write_request)
    && is_timeout a.response

-- The drainer runs on behind a success only; the connection and the endpoint stay open wherever there
-- has been a connection, but for a wait that gave up.
pub record LeftOpen (a : Answers) (r : Resources × Result (Unit {0})) : Type 0 where
  pub drained : r.0.drainer ≡ succeeded r.1
  pub connection : r.0.conn ≡ (connected a && not (gave_up a))
  pub socket : r.0.endpoint ≡ (connected a && not (gave_up a))

on_response-drained :
    (o : Observations) (p : Response) → (on_response o p).0.drainer ≡ succeeded (on_response o p).1
unfolding on_response
on_response-drained o (timed_out d e) = refl
on_response-drained o (refused m e) = refl
on_response-drained o (answered s) = ground arith

on_response-open :
    (o : Observations) (p : Response)
    → ((on_response o p).0.conn ≡ not (is_timeout p))
      × ((on_response o p).0.endpoint ≡ not (is_timeout p))
unfolding on_response
on_response-open o (timed_out d e) = (refl, refl)
on_response-open o (refused m e) = (refl, refl)
on_response-open o (answered s) = (ground arith, ground arith)

-- Whatever QUIC, the stream and the peer answer, dialRFC9220Profile leaves the goroutine that
-- drains the streams of the peer running only where it succeeds, and leaves the connection and the
-- endpoint open wherever the dial has connected, with the one exception of a wait for the response
-- that the context has ended.
pub dial_profile-LeftOpen : (a : Answers) → LeftOpen a (dial_profile a)
unfolding dial_profile
dial_profile-LeftOpen a = record {
  drained = ground (arith, on_response-drained a.seen a.response);
  connection = ground (arith, on_response-open a.seen a.response);
  socket = ground (arith, on_response-open a.seen a.response);
}
