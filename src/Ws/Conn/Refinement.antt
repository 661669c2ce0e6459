-- ===== src/Ws/Conn/Refinement.antt =====
-- `Read` of framedWSConn, internal/ws_h2.go, on a stream of frames that spell a message.
use outline_cli_ws.Common.Reader.{got}
use outline_cli_ws.Ws.Frame.{Frame, read_frame}
use outline_cli_ws.Ws.Frame.Bounds.{read_frame_takes}
use outline_cli_ws.Ws.Conn.Messages.{Delivers, done, frame, Continues, Spells, write-input}
use outline_cli_ws.Ws.Conn.{
  Env, Conn, Message, write, round, on_fragment, fragments, read_fragmented, on_frame, read_loop,
  read,
}
use outline_cli_ws.Common.{
  ℕ, zero, suc, ◌+◌, ◌<◌, ◌≡◌, refl, sym, ap, subst, false, none, List, [], ◌∷◌, ◌++◌, append_assoc,
  arith, length,
}
use outline_cli_ws.Common.{Result, ok, err}
use outline_cli_ws.Common.Bytes.{Bytes}

-- The read ended with this message, and left these bytes.
abbrev pub Returns : Message → Bytes → Conn × Result Message → Type 0
Returns m rest (d, ok m') = (m' ≡ m) × (d.input ≡ rest)
Returns m rest (d, err e) = ⊥

-- The context is never over.
abbrev pub Live : Env → Type 0
Live env = (k : ℕ) → env.ctx_err k ≡ none

advance : Conn → Bytes → Conn
advance c r = record c { clock = c.clock + 1; input = r }

round_step :
    (env : Env) (c : Conn) (handle : Conn → Frame → Conn × Result Message) {f : Frame} {r : Bytes}
    → Live env
    → read_frame false c.input ≡ got f r
    → round env c handle ≡ handle (advance c r) f
unfolding advance
round_step env c handle l h = rw (l c.clock, round) (rw (h, round))

Delivers-nil : {input rest : Bytes} → Delivers input [] rest → input ≡ rest
Delivers-nil (done rest) = refl

module _ (env : Env) where
  on_fragment-Continues :
      (c : Conn) (typ : ℕ) (buf rest : Bytes) (f : Frame) (fs : List Frame) {p : Bytes}
      (again : Conn → Bytes → Conn × Result Message)
      → Delivers c.input fs rest
      → Continues (f ∷ fs) p
      → ((d : Conn) (b q : Bytes)
          → d.input ≡ c.input
          → Continues fs q
          → Returns (record { typ = typ; payload = b ++ q }) rest (again d b))
      → Returns (record { typ = typ; payload = buf ++ p }) rest (on_fragment env again c typ buf f)
  unfolding on_fragment
  on_fragment-Continues c typ buf rest f fs {p = p} again d (Continues.skip s k) ih = ground (
    arith,
    ih (write env c 10 f.payload).0 buf p (write-input env c 10 f.payload) k,
    ih c buf p refl k,
  )
  on_fragment-Continues c typ buf rest f fs again d (Continues.more {p = p} t n k) ih =
      let e = sym (append_assoc buf f.payload p) in
      rw e (ground (arith, ih c (buf ++ f.payload) p refl k))
  on_fragment-Continues c typ buf rest f fs again d (Continues.last t y) ih =
      ground (arith, Delivers-nil d)

  on_frame-Spells :
      (fuel : ℕ) (c : Conn) (rest : Bytes) (f : Frame) (fs : List Frame) {m : Message}
      (again : Conn → Conn × Result Message)
      → Delivers c.input fs rest
      → Spells (f ∷ fs) m
      → ((d : Conn) → d.input ≡ c.input → Spells fs m → Returns m rest (again d))
      → ((q : Bytes)
          → Continues fs q
          → Returns
              (record { typ = f.typ; payload = f.payload ++ q })
              rest
              (fragments fuel env f.typ c f.payload))
      → Returns m rest (on_frame fuel env again c f)
  unfolding on_frame read_fragmented
  on_frame-Spells fuel c rest f fs again d (Spells.skip s k) ih tail =
      ground
        (arith, ih (write env c 10 f.payload).0 (write-input env c 10 f.payload) k, ih c refl k)
  on_frame-Spells fuel c rest f fs again d (Spells.whole t y) ih tail =
      ground (arith, Delivers-nil d)
  on_frame-Spells fuel c rest f fs again d (Spells.start {p = p} t n k) ih tail =
      ground (arith, tail p k)

module _ (env : Env) (live : Live env) where
  fragments-Continues :
      (fuel typ : ℕ) (c : Conn) (buf : Bytes) {fs : List Frame} {p rest : Bytes}
      → length c.input < fuel
      → Delivers c.input fs rest
      → Continues fs p
      → Returns (record { typ = typ; payload = buf ++ p }) rest (fragments fuel env typ c buf)
  unfolding fragments advance
  fragments-Continues zero typ c buf h d k = absurd (omega arith)
  fragments-Continues (suc fuel) typ c buf h (done _) k = elim k [ ]
  fragments-Continues (suc fuel) typ c buf {rest = rest} h (frame {r = r} {f = f} {fs = fs} e d) k =
      rw (round_step env c (λ c' f'. on_fragment env (fragments fuel env typ) c' typ buf f') live e)
        (on_fragment-Continues env (advance c r) typ buf rest f fs (fragments fuel env typ) d k
          λ c' b q same k'.
            fragments-Continues fuel typ c' b
              (omega (arith, read_frame_takes false c.input e, ap length same))
              (subst (λ x. Delivers x fs rest) (sym same) d) k')

  read_loop-Spells :
      (fuel : ℕ) (c : Conn) {fs : List Frame} {m : Message} {rest : Bytes}
      → length c.input < fuel
      → Delivers c.input fs rest
      → Spells fs m
      → Returns m rest (read_loop fuel env c)
  unfolding read_loop advance
  read_loop-Spells zero c h d k = absurd (omega arith)
  read_loop-Spells (suc fuel) c h (done _) k = elim k [ ]
  read_loop-Spells (suc fuel) c {rest = rest} h (frame {r = r} {f = f} {fs = fs} e d) k =
      rw (round_step env c (on_frame fuel env (read_loop fuel env)) live e) (
        on_frame-Spells env fuel (advance c r) rest f fs (read_loop fuel env) d k
          (λ c' same k'.
            read_loop-Spells fuel c'
              (omega (arith, read_frame_takes false c.input e, ap length same))
              (subst (λ x. Delivers x fs rest) (sym same) d) k')
          (λ q k'.
            fragments-Continues fuel f.typ (advance c r) f.payload
              (omega (arith, read_frame_takes false c.input e)) d k'))

  -- Where the frames on the stream spell a message, in one frame or in fragments with pings and
  -- pongs between them, and the context stays alive, Read returns that message and leaves the
  -- bytes behind its last frame.
  pub read-Spells :
      (c : Conn) (fs : List Frame) (m : Message) (rest : Bytes)
      → Delivers c.input fs rest
      → Spells fs m
      → Returns m rest (read env c)
  unfolding read
  read-Spells c fs m rest d k = read_loop-Spells (length c.input + 1) c (omega arith) d k
