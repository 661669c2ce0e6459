-- ===== src/Ws/RawH2.antt =====
-- The raw HTTP/2 connection of internal/rfc8441_raw_h2.go with its one stream: the handshake, the
-- writes in chunks, and the read loop with its window updates. The framer is a library: it gives the
-- frames that come in, and takes the frames that go out.
pub mod Flow
pub mod Chunks
use outline_cli_ws.Common.{handshake_failed, connect_protocol_off, bad_status, bad_accept, eof}
use outline_cli_ws.Common.Bytes.{bytes_equal}
use outline_cli_ws.Common.{
  ℕ, zero, suc, ◌+◌, ◌-◌, ◌*◌, ◌/◌, ◌%◌, ◌^◌, ◌≤◌, ◌<◌, min, bit_and, bit_or, bit_xor, ◌≡◌, refl,
  sym, ap, ◌∙◌, subst, ◌≢◌, ◌↔◌, ◌⊎◌, inl, inr, Bool, true, false, not, ◌&&◌, ◌||◌, Option, none,
  some, List, [], ◌∷◌, ◌++◌, map, foldl, append-nil, append_assoc, arith, ltb, leb, ◌==◌,
  if◌then◌else◌, ==_iff, leb→le, Bool-cases, Option-cases, is_some, length, get_elem?, get_or, set,
  take, drop, All, length-append, take-append, drop-append, length-set, get_elem?-set_self,
  get_elem?-set_ne, length-drop, take-append-drop, get_elem?-some-lt, All-get_or, All-append,
}
use outline_cli_ws.Common.{Error, Result, ok, err}
use outline_cli_ws.Common.{◌>>=◌, ◌>>◌, fail_if, >>=-eq-ok}
use outline_cli_ws.Common.Bytes.{
  Bytes, IsByte, put_uint16, put_uint64, big_endian, big_endian-put_uint16, big_endian-put_uint64,
}

-- What http2.Framer reads, by the fields that the code looks at.
pub data InFrame : Type 0 where
  settings : Bool → List (ℕ × ℕ) → InFrame
  headers continuation : ℕ → Bytes → Bool → InFrame
  data_in : ℕ → Bytes → Bool → InFrame
  rst_in : ℕ → InFrame
  go_away other : InFrame

-- What a round of a reading loop meets: a frame, an error of the framer, or the end of the context or
-- of the connection.
pub data Event : Type 0 where
  frame : InFrame → Event
  broken cancelled : Error → Event

-- What goes out.
pub data OutFrame : Type 0 where
  settings_ack : OutFrame
  data_out : Bytes → OutFrame
  window_update : ℕ → ℕ → OutFrame
  reset : OutFrame

-- The last value of SETTINGS_ENABLE_CONNECT_PROTOCOL among the settings.
connect_setting : List (ℕ × ℕ) → Option ℕ → Option ℕ
connect_setting [] found = found
connect_setting ((id, v) ∷ s) found = connect_setting s (if id == 8 then some v else found)

accepts : Option ℕ → Bool
accepts none = false
accepts (some v) = v == 1

-- The loop of `init`: the frames behind the server's settings, or an error. `ack` is the error of the
-- write of the acknowledgement.
unfoldable pub await_settings : Option Error → List Event → Result (List Event)
unfolding connect_setting accepts
await_settings ack [] = err eof
await_settings ack (broken e ∷ es) = err e
await_settings ack (cancelled e ∷ es) = err e
await_settings ack (frame (settings true s) ∷ es) = await_settings ack es
await_settings ack (frame (settings false s) ∷ es) =
    if not (accepts (connect_setting s none))
    then err connect_protocol_off
    else elim ack [ none ↦ ok es | some e ↦ err e ]
await_settings ack (frame f ∷ es) = await_settings ack es

-- `readResponseHeaders` for stream `id`: the acknowledgements sent, and the header block with the
-- frames behind it. `block` is the block so far.
unfoldable pub read_response_headers :
    ℕ → Bytes → List Event → List OutFrame × Result (Bytes × List Event)
read_response_headers id block [] = ([], err eof)
read_response_headers id block (broken e ∷ es) = ([], err e)
read_response_headers id block (cancelled e ∷ es) = ([], err e)
read_response_headers id block (frame (settings ack s) ∷ es) =
    let rest = read_response_headers id block es in
    if ack then rest else (settings_ack ∷ rest.0, rest.1)
read_response_headers id block (frame (headers i b end) ∷ es) =
    let more = read_response_headers id (block ++ b) es in
    let rest = read_response_headers id block es in
    if i == id then (if end then ([], ok (block ++ b, es)) else more) else rest
read_response_headers id block (frame (continuation i b end) ∷ es) =
    let more = read_response_headers id (block ++ b) es in
    let rest = read_response_headers id block es in
    if i == id then (if end then ([], ok (block ++ b, es)) else more) else rest
read_response_headers id block (frame (data_in i b end) ∷ es) = read_response_headers id block es
read_response_headers id block (frame (rst_in i) ∷ es) =
    let rest = read_response_headers id block es in
    if i == id then ([], err handshake_failed) else rest
read_response_headers id block (frame go_away ∷ es) = ([], err handshake_failed)
read_response_headers id block (frame other ∷ es) = read_response_headers id block es

-- The tests of `openWebSocketStream` on the response: the status, and the accept key where there is
-- one. `accept` is computeAccept of the request's key.
unfoldable pub check_response : Bytes → Bytes → Bytes → Bytes → Result (Unit {0})
unfolding bytes_equal
check_response ok_status accept status got_accept = do
  fail_if (not (bytes_equal status ok_status)) bad_status
  fail_if (not (length got_accept == 0) && not (bytes_equal got_accept accept)) bad_accept
  ok tt

abbrev pub max_chunk : ℕ
max_chunk = 16384

-- `rawH2Stream.Write`: the chunks; `write` is the error of the k-th write of a DATA frame, and
-- `flush` that of the flush. The result is the number of bytes or the error with `off`.
write_chunks :
    ℕ → (ℕ → Option Error) → Option Error → ℕ → ℕ → Bytes → List OutFrame × ℕ × Option Error
write_chunks zero write flush k off p = ([], off, some eof)
write_chunks (suc fuel) write flush k off [] = ([], off, flush)
write_chunks (suc fuel) write flush k off (b ∷ bs) =
    let n : ℕ = min max_chunk (length (b ∷ bs)) in
    let rest = write_chunks fuel write flush (k + 1) (off + n) (drop max_chunk (b ∷ bs)) in
    elim (write k) [
      | some e ↦ ([], off, some e)
      | none ↦ (data_out (take max_chunk (b ∷ bs)) ∷ rest.0, rest.1, rest.2)
    ]

unfoldable pub write_stream :
    (ℕ → Option Error) → Option Error → Bytes → List OutFrame × ℕ × Option Error
unfolding write_chunks
write_stream write flush p = write_chunks (length p + 1) write flush 0 0 p

abbrev pub update_batch : ℕ
update_batch = 65536

-- What the read loop has done: the bytes put into the pipe, the frames sent, the count that waits for
-- a window update, and how the pipe was closed.
pub record Pump : Type 0 where
  pub piped : Bytes
  pub sent : List OutFrame
  pub pending : ℕ
  pub pipe_error : Option Error

-- `flushWindowUpdate(force)`
unfoldable pub flush_update : Bool → Pump → Pump
flush_update force p =
    if p.pending == 0
    then p
    else (if not force && ltb p.pending update_batch then p else record p {
      sent = p.sent ++ (window_update 0 p.pending ∷ window_update 1 p.pending ∷ []);
      pending = 0;
    })

-- A DATA frame of the stream; an empty one moves nothing.
pub receive : Bytes → Pump → Pump
unfolding flush_update
receive [] p = p
receive (b ∷ bs) p =
    flush_update false
      (record p { piped = p.piped ++ (b ∷ bs); pending = p.pending + length (b ∷ bs) })

-- The loop of `readLoop`, with the deferred flush at its ends. The code discards the errors of its
-- writes to the pipe and of the window updates; here the pipe takes each write, as it does while its
-- reader is open.
unfoldable pub read_loop : Pump → List Event → Pump
unfolding receive
read_loop p [] = flush_update true p
read_loop p (cancelled e ∷ es) = flush_update true p
read_loop p (broken e ∷ es) = flush_update true (record p { pipe_error = some e })
read_loop p (frame (data_in i b end) ∷ es) =
    let on = read_loop (receive b p) es in
    let past = read_loop p es in
    if i == 1 then (if end then flush_update true (receive b p) else on) else past
read_loop p (frame (rst_in i) ∷ es) =
    let past = read_loop p es in if i == 1 then flush_update true p else past
read_loop p (frame go_away ∷ es) = flush_update true p
read_loop p (frame f ∷ es) = read_loop p es
