-- ===== src/Ws/Conn/Closing.antt =====
-- Calls on a framedWSConn of internal/ws_h2.go behind its close frame.
use outline_cli_ws.Common.{eof}
use outline_cli_ws.Ws.Frame.{Frame, read_frame}
use outline_cli_ws.Common.Reader.{Read, got, failed}
use outline_cli_ws.Ws.Conn.{
  Env, Conn, Message, tick, write_raw, send_close, send_close_frame, write_frame, write, close,
  round, on_fragment, fragments, on_frame, read_loop, read,
}
use outline_cli_ws.Common.{
  ℕ, zero, suc, ◌+◌, ◌≡◌, refl, inl, inr, true, false, Option, none, some, List, [], ◌∷◌, ◌++◌,
  arith, ◌==◌, if◌then◌else◌, Option-cases,
}
use outline_cli_ws.Common.{Error, Result, ok, err}
use outline_cli_ws.Common.Bytes.{Bytes, put_uint16}

-- What holds of each end of a round holds of the round.
pub round_rule {ℓ} :
    (P : Conn × Result Message → Type ℓ) (env : Env) (c : Conn)
    (handle : Conn → Frame → Conn × Result Message)
    → ((e : Error) → env.ctx_err c.clock ≡ some e → P (tick c, err e))
    → ((e : Error) (r : Bytes)
        → read_frame false c.input ≡ failed e r
        → P (record c { clock = c.clock + 1; input = r }, err e))
    → ((f : Frame) (r : Bytes)
        → read_frame false c.input ≡ got f r
        → P (handle (record c { clock = c.clock + 1; input = r }) f))
    → P (round env c handle)
round_rule P env c handle over broken framed = on_ctx (env.ctx_err c.clock) refl
  where
    on_read :
        (m : Read Frame)
        → read_frame false c.input ≡ m
        → P (elim m [
          | failed e r ↦ (record c { clock = c.clock + 1; input = r }, err e)
          | got f r ↦ handle (record c { clock = c.clock + 1; input = r }) f
        ])
    on_read (failed e r) h = broken e r h
    on_read (got f r) h = framed f r h

    on_ctx :
        (o : Option Error)
        → env.ctx_err c.clock ≡ o
        → P (elim o [
          | some e ↦ (tick c, err e)
          | none ↦ elim (read_frame false c.input) [
            | failed e r ↦ (record c { clock = c.clock + 1; input = r }, err e)
            | got f r ↦ handle (record c { clock = c.clock + 1; input = r }) f
          ]
        ])
    on_ctx (some e) h = over e h
    on_ctx none h = on_read (read_frame false c.input) refl

-- `d` has put out no byte since `c`, and its close frame counts as sent.
abbrev pub Silent : Conn → Conn → Type 0
Silent c d = (d.sink ≡ c.sink) × (d.close_sent ≡ true)

send_close_frame-Silent :
    (env : Env) (c : Conn) (m : Result Bytes)
    → c.close_sent ≡ true
    → Silent c (send_close_frame env c m).0
unfolding send_close_frame
send_close_frame-Silent env c (err e) h = (refl, h)
send_close_frame-Silent env c (ok frame) h = ground arith

send_close-Silent :
    (env : Env) (c : Conn) (payload : Bytes)
    → c.close_sent ≡ true
    → Silent c (send_close env c payload).0
unfolding send_close
send_close-Silent env c payload h = send_close_frame-Silent env (tick c) _ h

write_frame-Silent :
    (env : Env) (c : Conn) (m : Result Bytes)
    → c.close_sent ≡ true
    → Silent c (write_frame env c m).0
unfolding write_frame
write_frame-Silent env c (err e) h = (refl, h)
write_frame-Silent env c (ok frame) h = ground arith

write-Silent :
    (env : Env) (c : Conn) (typ : ℕ) (payload : Bytes)
    → c.close_sent ≡ true
    → Silent c (write env c typ payload).0
unfolding write
write-Silent env c typ payload h = elim (Option-cases (env.ctx_err c.clock)) [
  | inl e ↦ rw (e, write) (write_frame-Silent env (tick (tick c)) _ h)
  | inr (x, e) ↦ rw (e, write) (refl, h)
]

abbrev Quiet : Conn → Conn × Result Message → Type 0
Quiet c r = Silent c r.0

on_fragment-Quiet :
    (env : Env) (b c : Conn) (typ : ℕ) (buf : Bytes) (f : Frame)
    (again : Conn → Bytes → Conn × Result Message)
    → Silent b c
    → ((d : Conn) (p : Bytes) → Silent b d → Quiet b (again d p))
    → Quiet b (on_fragment env again c typ buf f)
unfolding on_fragment
on_fragment-Quiet env b c typ buf f again h k = ground (
  arith,
  write-Silent env c 10 f.payload,
  send_close-Silent env c f.payload,
  k (write env c 10 f.payload).0 buf,
  k c buf,
  k c (buf ++ f.payload),
)

fragments-Quiet :
    (fuel : ℕ) (env : Env) (typ : ℕ) (b c : Conn) (buf : Bytes)
    → Silent b c
    → Quiet b (fragments fuel env typ c buf)
unfolding fragments
fragments-Quiet zero env typ b c buf h = h
fragments-Quiet (suc fuel) env typ b c buf h =
    round_rule (Quiet b) env c (λ d f. on_fragment env (fragments fuel env typ) d typ buf f)
      (λ e _. h) (λ e r _. h)
      λ f r _.
        on_fragment-Quiet env b (record c { clock = c.clock + 1; input = r }) typ buf f
          (fragments fuel env typ) h (λ d p k. fragments-Quiet fuel env typ b d p k)

on_frame-Quiet :
    (fuel : ℕ) (env : Env) (b c : Conn) (f : Frame) (again : Conn → Conn × Result Message)
    → Silent b c
    → ((d : Conn) → Silent b d → Quiet b (again d))
    → Quiet b (on_frame fuel env again c f)
unfolding on_frame
on_frame-Quiet fuel env b c f again h k = ground (
  arith,
  write-Silent env c 10 f.payload,
  send_close-Silent env c f.payload,
  k (write env c 10 f.payload).0,
  k c,
  fragments-Quiet fuel env f.typ b c f.payload h,
)

read_loop-Quiet : (fuel : ℕ) (env : Env) (b c : Conn) → Silent b c → Quiet b (read_loop fuel env c)
unfolding read_loop
read_loop-Quiet zero env b c h = h
read_loop-Quiet (suc fuel) env b c h =
    round_rule (Quiet b) env c (on_frame fuel env (read_loop fuel env)) (λ e _. h) (λ e r _. h)
      λ f r _.
        on_frame-Quiet fuel env b (record c { clock = c.clock + 1; input = r }) f
          (read_loop fuel env) h (λ d k. read_loop-Quiet fuel env b d k)

-- A call on the connection, by any of its goroutines.
pub data Call : Type 0 where
  reads : Call
  writes : ℕ → Bytes → Call
  closes : ℕ → Bytes → Call

pub step : Env → Conn → Call → Conn
step env c reads = (read env c).0
step env c (writes typ payload) = (write env c typ payload).0
step env c (closes code reason) = close env c code reason

pub run : Env → Conn → List Call → Conn
unfolding step
run env c [] = c
run env c (k ∷ ks) = run env (step env c k) ks

step-Silent : (env : Env) (b c : Conn) (k : Call) → Silent b c → Silent b (step env c k)
unfolding step read close
step-Silent env b c reads h = read_loop-Quiet _ env b c h
step-Silent env b c (writes typ payload) h = ground (arith, write-Silent env c typ payload)
step-Silent env b c (closes code reason) h =
    ground (arith, send_close-Silent env c (if code == 0 then [] else put_uint16 code ++ reason))

run-Silent' : (env : Env) (b c : Conn) (ks : List Call) → Silent b c → Silent b (run env c ks)
unfolding run
run-Silent' env b c [] h = h
run-Silent' env b c (k ∷ ks) h = run-Silent' env b (step env c k) ks (step-Silent env b c k h)

-- Once the close frame has been sent, no sequence of Read, Write and Close calls puts another byte
-- on the stream, automatic pongs and echoed close frames included.
pub run-Silent :
    (env : Env) (c : Conn) (ks : List Call) → c.close_sent ≡ true → Silent c (run env c ks)
run-Silent env c ks h = run-Silent' env c c ks (refl, h)

-- A data frame that is refused because of the close frame is refused with io.EOF.
pub write_closed :
    (env : Env) (c : Conn) (frame : Bytes)
    → c.close_sent ≡ true
    → write_raw env c frame ≡ (c, err eof)
unfolding write_raw
write_closed env c frame h = rw h
