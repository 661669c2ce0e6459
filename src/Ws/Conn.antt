-- ===== src/Ws/Conn.antt =====
-- `framedWSConn` of internal/ws_h2.go: messages over frames.
-- The environment answers by the number of the call: whether the context is over, what
-- crypto/rand gives, and what the stream's Write does. The stream ends where its bytes end.
pub mod Messages
pub mod Closing
pub mod Refinement
use outline_cli_ws.Common.{
  eof, stuck, unexpected_continuation, expected_continuation, reserved_opcode,
}
use outline_cli_ws.Common.Reader.{Read, got, failed}
use outline_cli_ws.Ws.Frame.{Frame, read_frame, build_frame}
use outline_cli_ws.Ws.Sink.{Sink, Writer, write_all}
use outline_cli_ws.Common.{
  ℕ, zero, suc, ◌+◌, ◌-◌, ◌*◌, ◌/◌, ◌%◌, ◌^◌, ◌≤◌, ◌<◌, min, bit_and, bit_or, bit_xor, ◌≡◌, refl,
  sym, ap, ◌∙◌, subst, ◌≢◌, ◌↔◌, ◌⊎◌, inl, inr, Bool, true, false, not, ◌&&◌, ◌||◌, Option, none,
  some, List, [], ◌∷◌, ◌++◌, map, foldl, append-nil, append_assoc, arith, ltb, leb, ◌==◌,
  if◌then◌else◌, ==_iff, leb→le, Bool-cases, Option-cases, is_some, length, get_elem?, get_or, set,
  take, drop, All, length-append, take-append, drop-append, length-set, get_elem?-set_self,
  get_elem?-set_ne, length-drop, take-append-drop, get_elem?-some-lt, All-get_or, All-append,
}
use outline_cli_ws.Common.{Error, Result, ok, err}
use outline_cli_ws.Common.{◌>>=◌, ◌>>◌, fail_if, >>=-eq-ok}
use outline_cli_ws.Common.Bytes.{
  Bytes, IsByte, put_uint16, put_uint64, big_endian, big_endian-put_uint16, big_endian-put_uint64,
}

-- The opcodes of internal/ws_api.go.
abbrev pub op_continuation : ℕ
op_continuation = 0

abbrev pub op_text : ℕ
op_text = 1

abbrev pub op_binary : ℕ
op_binary = 2

abbrev pub op_close : ℕ
op_close = 8

abbrev pub op_ping : ℕ
op_ping = 9

abbrev pub op_pong : ℕ
op_pong = 10

pub record Env : Type 0 where
  pub ctx_err : ℕ → Option Error
  pub random : ℕ → Result Bytes
  pub writer : Writer

-- `input` is what the stream still delivers; `clock` counts the questions to the environment.
pub record Conn : Type 0 where
  pub input : Bytes
  pub sink : Sink
  pub close_sent : Bool
  pub closed : Bool
  pub close_scheduled : Bool
  pub clock : ℕ

pub record Message : Type 0 where
  pub typ : ℕ
  pub payload : Bytes

abbrev pub tick : Conn → Conn
tick c = record c { clock = c.clock + 1 }

-- The write loop on the connection's stream.
abbrev emit : Env → Conn → Bytes → Conn × Result (Unit {0})
emit env c frame = let r = write_all env.writer c.sink frame in (record c { sink = r.0 }, r.1)

unfoldable pub write_raw : Env → Conn → Bytes → Conn × Result (Unit {0})
write_raw env c frame = if c.close_sent then (c, err eof) else emit env c frame

send_close_frame : Env → Conn → Result Bytes → Conn × Result (Unit {0})
send_close_frame env c (err e) = (c, err e)
send_close_frame env c (ok frame) =
    if c.close_sent then (c, ok tt) else emit env (record c { close_sent = true }) frame

unfoldable pub send_close : Env → Conn → Bytes → Conn × Result (Unit {0})
unfolding send_close_frame
send_close env c payload =
    send_close_frame env (tick c) (build_frame (env.random c.clock) op_close payload true)

write_frame : Env → Conn → Result Bytes → Conn × Result (Unit {0})
unfolding write_raw
write_frame env c (err e) = (c, err e)
write_frame env c (ok frame) = write_raw env c frame

unfoldable pub write : Env → Conn → ℕ → Bytes → Conn × Result (Unit {0})
unfolding write_frame
write env c typ payload = elim (env.ctx_err c.clock) [
  | some e ↦ (tick c, err e)
  | none ↦
      let c' : Conn = tick c in
      write_frame env (tick c') (build_frame (env.random c'.clock) typ payload true)
]

-- `Close`: the close frame, and the stream's Close after 150 ms.
unfoldable pub close : Env → Conn → ℕ → Bytes → Conn
unfolding send_close
close env c code reason =
    let payload : Bytes = if code == 0 then [] else put_uint16 code ++ reason in
    record (send_close env c payload).0 { close_scheduled = true }

-- The peer's close frame: it is echoed, the stream is closed, and the read ends with io.EOF.
unfoldable pub answer_close : Env → Conn → Bytes → Conn × Result Message
unfolding send_close
answer_close env c payload = (record (send_close env c payload).0 { closed = true }, err eof)

-- One frame of a fragmented message; `again` is the next round of the loop.
unfoldable pub on_fragment :
    Env → (Conn → Bytes → Conn × Result Message) → Conn → ℕ → Bytes → Frame → Conn × Result Message
unfolding write answer_close
on_fragment env again c typ buf f =
    if f.typ == op_ping
    then again (write env c op_pong f.payload).0 buf
    else (if f.typ == op_pong
        then again c buf
        else (if f.typ == op_close
            then answer_close env c f.payload
            else (if f.typ == op_continuation
                then (if f.fin
                    then (c, ok (record { typ = typ; payload = buf ++ f.payload }))
                    else again c (buf ++ f.payload))
                else (c, err expected_continuation))))

-- `for { ctx.Err(); readFrame; ... }`: `use` is what the round does with the frame.
abbrev pub round : Env → Conn → (Conn → Frame → Conn × Result Message) → Conn × Result Message
round env c handle = elim (env.ctx_err c.clock) [
  | some e ↦ (tick c, err e)
  | none ↦ elim (read_frame false c.input) [
    | failed e r ↦ (record c { clock = c.clock + 1; input = r }, err e)
    | got f r ↦ handle (record c { clock = c.clock + 1; input = r }) f
  ]
]

unfoldable pub fragments : ℕ → Env → ℕ → Conn → Bytes → Conn × Result Message
unfolding on_fragment
fragments zero env typ c buf = (c, err stuck)
fragments (suc fuel) env typ c buf =
    let again : Conn → Bytes → Conn × Result Message = fragments fuel env typ in
    round env c (λ c' f. on_fragment env again c' typ buf f)

unfoldable pub read_fragmented : ℕ → Env → Conn → Frame → Conn × Result Message
unfolding fragments
read_fragmented fuel env c f =
    if f.fin
    then (c, ok (record { typ = f.typ; payload = f.payload }))
    else fragments fuel env f.typ c f.payload

-- One frame where no message has begun.
unfoldable pub on_frame :
    ℕ → Env → (Conn → Conn × Result Message) → Conn → Frame → Conn × Result Message
unfolding read_fragmented write answer_close
on_frame fuel env again c f =
    if f.typ == op_ping
    then again (write env c op_pong f.payload).0
    else (if f.typ == op_pong
        then again c
        else (if f.typ == op_close
            then answer_close env c f.payload
            else (if f.typ == op_continuation
                then (c, err unexpected_continuation)
                else (if f.typ == op_text || f.typ == op_binary
                    then (if f.fin
                        then (c, ok (record { typ = f.typ; payload = f.payload }))
                        else read_fragmented fuel env c f)
                    else (c, err reserved_opcode)))))

unfoldable pub read_loop : ℕ → Env → Conn → Conn × Result Message
unfolding on_frame
read_loop zero env c = (c, err stuck)
read_loop (suc fuel) env c =
    let again : Conn → Conn × Result Message = read_loop fuel env in
    round env c (on_frame fuel env again)

-- `Read`. Each round takes a byte of the stream at least, so `length c.input + 1` rounds are enough.
unfoldable pub read : Env → Conn → Conn × Result Message
unfolding read_loop
read env c = read_loop (length c.input + 1) env c
