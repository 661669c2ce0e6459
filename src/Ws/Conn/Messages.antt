-- ===== src/Ws/Conn/Messages.antt =====
-- `Read` against a description of messages as sequences of frames.
use outline_cli_ws.Common.{stuck}
use outline_cli_ws.Common.Reader.{got, failed}
use outline_cli_ws.Ws.Frame.{Frame, read_frame}
use outline_cli_ws.Ws.Frame.Bounds.{Clean, read_frame_takes, read_frame-Clean}
use outline_cli_ws.Ws.Conn.Closing.{round_rule}
use outline_cli_ws.Ws.Conn.{
  Env, Conn, Message, write, write_frame, write_raw, send_close, send_close_frame, answer_close,
  on_fragment, fragments, read_fragmented, on_frame, read_loop, read,
}
use outline_cli_ws.Common.{
  ℕ, zero, suc, ◌+◌, ◌<◌, ◌≡◌, refl, ap, subst, ◌≢◌, ◌⊎◌, true, false, some, List, [], ◌∷◌, ◌++◌,
  arith, length,
}
use outline_cli_ws.Common.{Error, Result, ok, err}
use outline_cli_ws.Common.Bytes.{Bytes}

-- The stream delivers these frames, and then `rest`.
pub data Delivers : Bytes → List Frame → Bytes → Type 0 where
  done : (rest : Bytes) → Delivers rest [] rest
  frame :
      {input r rest : Bytes} {f : Frame} {fs : List Frame}
      → read_frame false input ≡ got f r
      → Delivers r fs rest
      → Delivers input (f ∷ fs) rest

abbrev pub IsControl : Frame → Type 0
IsControl f = (f.typ ≡ 9) ⊎ (f.typ ≡ 10)

-- The frames that finish a message whose first frame has come, and what they add to it.
pub data Continues : List Frame → Bytes → Type 0 where
  skip :
      {f : Frame} {fs : List Frame} {p : Bytes}
      → IsControl f
      → Continues fs p
      → Continues (f ∷ fs) p
  more :
      {f : Frame} {fs : List Frame} {p : Bytes}
      → f.typ ≡ 0
      → f.fin ≡ false
      → Continues fs p
      → Continues (f ∷ fs) (f.payload ++ p)
  last : {f : Frame} → f.typ ≡ 0 → f.fin ≡ true → Continues (f ∷ []) f.payload

-- The frames of one message, RFC 6455 section 5.4: control frames may stand between them.
pub data Spells : List Frame → Message → Type 0 where
  skip : {f : Frame} {fs : List Frame} {m : Message} → IsControl f → Spells fs m → Spells (f ∷ fs) m
  whole :
      {f : Frame}
      → (f.typ ≡ 1) ⊎ (f.typ ≡ 2)
      → f.fin ≡ true
      → Spells (f ∷ []) (record { typ = f.typ; payload = f.payload })
  start :
      {f : Frame} {fs : List Frame} {p : Bytes}
      → (f.typ ≡ 1) ⊎ (f.typ ≡ 2)
      → f.fin ≡ false
      → Continues fs p
      → Spells (f ∷ fs) (record { typ = f.typ; payload = f.payload ++ p })

-- A pong leaves the input alone.
pub write-input :
    (env : Env) (c : Conn) (typ : ℕ) (payload : Bytes) → (write env c typ payload).0.input ≡ c.input
unfolding write write_frame write_raw
write-input env c typ payload = ground arith

send_close-input :
    (env : Env) (c : Conn) (payload : Bytes) → (send_close env c payload).0.input ≡ c.input
unfolding send_close send_close_frame
send_close-input env c payload = ground arith

-- What the loops promise of an end, from `n` bytes of input: a message is text or binary, and the
-- loop has not run out of rounds.
abbrev pub Proper : Conn × Result Message → Type 0
Proper (c, ok m) = (m.typ ≡ 1) ⊎ (m.typ ≡ 2)
Proper (c, err e) = e ≢ stuck

-- The context reports an error of its own.
abbrev pub Sane : Env → Type 0
Sane env = (k : ℕ) → env.ctx_err k ≢ some stuck

ctx-Sane : (env : Env) (k : ℕ) (e : Error) → Sane env → env.ctx_err k ≡ some e → e ≢ stuck
ctx-Sane env k e s h x = s k (rw h (ap some x))

failed-Clean : (input r : Bytes) (e : Error) → read_frame false input ≡ failed e r → e ≢ stuck
failed-Clean input r e h = subst Clean h (read_frame-Clean false input)

on_fragment-Proper :
    (env : Env) (c : Conn) (typ : ℕ) (buf : Bytes) (f : Frame)
    (again : Conn → Bytes → Conn × Result Message)
    → (typ ≡ 1) ⊎ (typ ≡ 2)
    → ((d : Conn) (p : Bytes) → d.input ≡ c.input → Proper (again d p))
    → Proper (on_fragment env again c typ buf f)
unfolding on_fragment answer_close
on_fragment-Proper env c typ buf f again t k = ground (
  arith,
  k (write env c 10 f.payload).0 buf (write-input env c 10 f.payload),
  k c buf refl,
  k c (buf ++ f.payload) refl,
)

fragments-Proper :
    (fuel : ℕ) (env : Env) (typ : ℕ) (c : Conn) (buf : Bytes)
    → Sane env
    → (typ ≡ 1) ⊎ (typ ≡ 2)
    → length c.input < fuel
    → Proper (fragments fuel env typ c buf)
unfolding fragments
fragments-Proper zero env typ c buf s t h = absurd (omega arith)
fragments-Proper (suc fuel) env typ c buf s t h =
    round_rule Proper env c (λ d f. on_fragment env (fragments fuel env typ) d typ buf f)
      (λ e k. ctx-Sane env c.clock e s k) (λ e r k. failed-Clean c.input r e k)
      λ f r k.
        on_fragment-Proper env (record c { clock = c.clock + 1; input = r }) typ buf f
          (fragments fuel env typ) t
          λ d p q.
            fragments-Proper fuel env typ d p s t
              (omega (arith, read_frame_takes false c.input k, ap length q))

on_frame-Proper :
    (fuel : ℕ) (env : Env) (c : Conn) (f : Frame) (again : Conn → Conn × Result Message)
    → Sane env
    → length c.input < fuel
    → ((d : Conn) → d.input ≡ c.input → Proper (again d))
    → Proper (on_frame fuel env again c f)
unfolding on_frame answer_close read_fragmented
on_frame-Proper fuel env c f again s h k = ground (
  arith,
  k (write env c 10 f.payload).0 (write-input env c 10 f.payload),
  k c refl,
  fragments-Proper fuel env f.typ c f.payload s,
)

read_loop-Proper :
    (fuel : ℕ) (env : Env) (c : Conn)
    → Sane env
    → length c.input < fuel
    → Proper (read_loop fuel env c)
unfolding read_loop
read_loop-Proper zero env c s h = absurd (omega arith)
read_loop-Proper (suc fuel) env c s h =
    round_rule Proper env c (on_frame fuel env (read_loop fuel env))
      (λ e k. ctx-Sane env c.clock e s k) (λ e r k. failed-Clean c.input r e k)
      λ f r k.
        on_frame-Proper fuel env (record c { clock = c.clock + 1; input = r }) f
          (read_loop fuel env) s (omega (arith, read_frame_takes false c.input k))
          λ d q.
            read_loop-Proper fuel env d s
              (omega (arith, read_frame_takes false c.input k, ap length q))

-- Read comes to an end on every stream, and a message that it returns is text or binary, where the
-- context reports errors of its own.
pub read-Proper : (env : Env) (c : Conn) → Sane env → Proper (read env c)
unfolding read
read-Proper env c s = read_loop-Proper (length c.input + 1) env c s (omega arith)
