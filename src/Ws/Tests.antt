-- ===== src/Ws/Tests.antt =====
-- The theorems on frames, write loops and connections at concrete bytes.
use Prim.Native.String.{String}
use text.Mathlib.Text.{◌==◌ as str_eq}
use outline_cli_ws.Common.{ℕ, if◌then◌else◌, err, eof}
use outline_cli_ws.Ws.Dial.{Dials, parse_transport_hints, dial_ws_stream}
use outline_cli_ws.Ws.Uri.{Values, get_value, cleaned_query}
use outline_cli_ws.Ws.Uri.Left.{left_hints, parse_transport_hints-cleaned_query}
use outline_cli_ws.Ws.Dial.Plan.{plan, follow, connection, dial_ws_stream_follows}
use outline_cli_ws.Ws.RawH2.{Event, frame, data_in, Pump, read_loop, write_stream}
use outline_cli_ws.Ws.RawH2.Flow.{Pumped, read_loop-Pumped}
use outline_cli_ws.Ws.RawH2.Chunks.{Carries, write_stream-Carries}
use outline_cli_ws.Common.{
  ◌≡◌, refl, ◌≢◌, inl, Bool, true, false, none, some, List, [], ◌∷◌, arith, ltb, if◌then◌else◌,
}
use outline_cli_ws.Common.{ok}
use outline_cli_ws.Common.Bytes.{Bytes}
use outline_cli_ws.Common.Reader.{got}
use outline_cli_ws.Common.{short_write}
use outline_cli_ws.Common.Reader.{read_full}
use outline_cli_ws.Ws.Frame.{
  Frame, read_frame, build_frame, read_body, read_length, read_key, apply_mask,
}
use outline_cli_ws.Ws.Frame.RoundTrip.{read_frame-build_frame, reads_back}
use outline_cli_ws.Ws.Sink.{Writer, Sink, write_all, write_all-Wrote, Wrote}
use outline_cli_ws.Ws.Conn.{Env, Conn, read}
use outline_cli_ws.Ws.Conn.Closing.{Call, reads, writes, closes, run, run-Silent, Silent}
use outline_cli_ws.Ws.Conn.Messages.{Delivers, done, frame, Continues, Spells, read-Proper, Proper}
use outline_cli_ws.Ws.Conn.Refinement.{read-Spells, Returns}
use outline_cli_ws.Ws.Alive.{alive_check, alive_check-framed, framed}

abbrev key : Bytes
key = 1 ∷ 2 ∷ 3 ∷ 4 ∷ []

abbrev hello : Bytes
hello = 104 ∷ 101 ∷ 108 ∷ 108 ∷ 111 ∷ []

read_frame-build_frame_example :
    reads_back (build_frame (ok key) 1 hello true) true (7 ∷ [])
    ≡ got (record { typ = 1; payload = hello; fin = true }) (7 ∷ [])
read_frame-build_frame_example =
    read_frame-build_frame key 1 hello (7 ∷ []) true (omega arith) (omega arith)
      (omega arith, (omega arith, (omega arith, (omega arith, (omega arith, tt)))))
      (omega arith, (omega arith, (omega arith, (omega arith, tt)))) refl

abbrev unused_sink : Sink
unused_sink = record { sent = []; calls = 0 }

-- Two bytes at a time, and an error at the third call.
abbrev tired : Writer
tired = λ k. (2, if ltb k 2 then none else some short_write)

write_all-Wrote_example : Wrote unused_sink hello (write_all tired unused_sink hello)
write_all-Wrote_example = write_all-Wrote tired unused_sink hello

abbrev slow : Writer
slow = λ k. (2, none)

abbrev env : Env
env = record { ctx_err = λ k. none; random = λ k. ok key; writer = slow }

abbrev conn : Bytes → Bool → Conn
conn input sent = record {
  input = input;
  sink = unused_sink;
  close_sent = sent;
  closed = false;
  close_scheduled = false;
  clock = 0;
}

-- A ping and the peer's close frame come in behind the connection's own close frame.
abbrev calls : List Call
calls = reads ∷ writes 1 hello ∷ closes 1000 [] ∷ []

abbrev ping_close : Bytes
ping_close = 0x89 ∷ 1 ∷ 5 ∷ 0x88 ∷ 0 ∷ []

run-Silent_example : Silent (conn ping_close true) (run env (conn ping_close true) calls)
run-Silent_example = run-Silent env (conn ping_close true) calls refl

-- "he", a ping, "llo".
abbrev fragmented : Bytes
fragmented = 0x01 ∷ 2 ∷ 104 ∷ 101 ∷ 0x89 ∷ 0 ∷ 0x80 ∷ 3 ∷ 108 ∷ 108 ∷ 111 ∷ 7 ∷ []

abbrev first_frame : Frame
first_frame = record { typ = 1; payload = 104 ∷ 101 ∷ []; fin = false }

abbrev ping_frame : Frame
ping_frame = record { typ = 9; payload = []; fin = true }

abbrev last_frame : Frame
last_frame = record { typ = 0; payload = 108 ∷ 108 ∷ 111 ∷ []; fin = true }

delivered : Delivers fragmented (first_frame ∷ ping_frame ∷ last_frame ∷ []) (7 ∷ [])
unfolding read_frame read_body read_length read_key read_full apply_mask
delivered =
    frame {r = 0x89 ∷ 0 ∷ 0x80 ∷ 3 ∷ 108 ∷ 108 ∷ 111 ∷ 7 ∷ []} refl (
      frame {r = 0x80 ∷ 3 ∷ 108 ∷ 108 ∷ 111 ∷ 7 ∷ []} refl
        (frame {r = 7 ∷ []} refl (done (7 ∷ []))))

read-Spells_example :
    Returns (record { typ = 1; payload = hello }) (7 ∷ []) (read env (conn fragmented false))
read-Spells_example =
    read-Spells env (λ k. refl) (conn fragmented false) (first_frame ∷ ping_frame ∷ last_frame ∷ [])
      (record { typ = 1; payload = hello }) (7 ∷ []) delivered
      (Spells.start (inl refl) refl (Continues.skip (inl refl) (Continues.last refl refl)))

read-Proper_example : Proper (read env (conn ping_close false))
read-Proper_example = read-Proper env (conn ping_close false) (λ k h. cc)

-- The peer answers the ping at once.
alive_check-framed_example :
    (alive_check (framed env) 5 (conn (0x8a ∷ 1 ∷ 5 ∷ []) false) (5 ∷ [])).1 ≢ some true
alive_check-framed_example =
    alive_check-framed env 5 (conn (0x8a ∷ 1 ∷ 5 ∷ []) false) (5 ∷ []) (λ k h. cc)

-- The query h3=1 on a network that has HTTP/1.1 only.
abbrev query : String → String
query k = if str_eq k "h3" then "1" else ""

abbrev dials : Dials ℕ
dials = record { by_h1 = ok 1; by_h2 = err eof; by_h3 = err eof }

dial_ws_stream_follows_example :
    connection (dial_ws_stream (parse_transport_hints query) true dials)
    ≡ follow dials (plan (parse_transport_hints query) true)
dial_ws_stream_follows_example = dial_ws_stream_follows query true dials

abbrev pump : Pump
pump = record { piped = []; sent = []; pending = 0; pipe_error = none }

-- Data of the stream, data of another one, the end of the stream, and a frame behind it.
abbrev frames : List Event
frames =
    frame (data_in 1 hello false)
    ∷ frame (data_in 3 hello false)
    ∷ frame (data_in 1 hello true)
    ∷ frame (data_in 1 hello false)
    ∷ []

read_loop-Pumped_example : Pumped pump frames (read_loop pump frames)
read_loop-Pumped_example =
    read_loop-Pumped pump frames (record { connection = refl; stream = refl })

write_stream-Carries_example : Carries 0 hello (write_stream (λ k. none) none hello)
write_stream-Carries_example = write_stream-Carries (λ k. none) none hello

-- A query with two hints, of which the request keeps one.
abbrev values : Values
values = ("h3", "1") ∷ ("rfc8441", "only") ∷ ("x", "y") ∷ []

parse_transport_hints-cleaned_query_example :
    parse_transport_hints (get_value (cleaned_query values)) ≡ left_hints values
parse_transport_hints-cleaned_query_example = parse_transport_hints-cleaned_query values
