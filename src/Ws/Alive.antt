-- ===== src/Ws/Alive.antt =====
-- The interface `WSConn` of internal/ws_api.go, and `wsAliveCheck` of internal/warm_standby.go over it.
use outline_cli_ws.Ws.Conn.{Env, Conn, Message, write, read, op_ping, op_pong, op_close}
use outline_cli_ws.Ws.Conn.Messages.{Proper, Sane, read-Proper}
use outline_cli_ws.Common.{
  ℕ, zero, suc, ◌≡◌, refl, ◌≢◌, ◌⊎◌, Bool, true, false, ◌||◌, Option, none, some, arith, ◌==◌,
  if◌then◌else◌, length,
}
use outline_cli_ws.Common.{Result, ok, err}
use outline_cli_ws.Common.Bytes.{bytes_equal, Bytes}

pub record WsConn : Type 1 where
  pub State : Type 0
  pub read : State → State × Result Message
  pub write : State → ℕ → Bytes → State × Result (Unit {0})

module _ (w : WsConn) where
  open w use {State}

  -- What the switch does with a message: an answer, or the next round.
  on_message : (State → State × Option Bool) → State → Bytes → Message → State × Option Bool
  unfolding bytes_equal
  on_message again s payload m =
      if m.typ == op_pong
      then (s, some (length m.payload == 0 || bytes_equal m.payload payload))
      else (if m.typ == op_ping
          then again (w.write s op_pong m.payload).0
          else (if m.typ == op_close then (s, some false) else again s))

  on_read : (State → State × Option Bool) → Bytes → State × Result Message → State × Option Bool
  unfolding on_message
  on_read again payload (s, err e) = (s, some false)
  on_read again payload (s, ok m) = on_message again s payload m

  -- `none`: the check has not come to an end within `fuel` messages.
  alive_loop : ℕ → Bytes → State → State × Option Bool
  unfolding on_read
  alive_loop zero payload s = (s, none)
  alive_loop (suc fuel) payload s =
      let again : State → State × Option Bool = alive_loop fuel payload in
      on_read again payload (w.read s)

  after_ping : ℕ → Bytes → State × Result (Unit {0}) → State × Option Bool
  unfolding alive_loop
  after_ping fuel payload (s, err e) = (s, some false)
  after_ping fuel payload (s, ok u) = alive_loop fuel payload s

  unfoldable pub alive_check : ℕ → State → Bytes → State × Option Bool
  unfolding after_ping
  alive_check fuel s payload = after_ping fuel payload (w.write s op_ping payload)

  -- A connection whose Read hands out text and binary messages only.
  abbrev pub DataOnly : Type 0
  DataOnly = (s : State) (m : Message) → (w.read s).1 ≡ ok m → (m.typ ≡ 1) ⊎ (m.typ ≡ 2)

  on_read-ne-true :
      (again : State → State × Option Bool) (payload : Bytes) (r : State × Result Message)
      → ((s : State) → (again s).1 ≢ some true)
      → ((m : Message) → r.1 ≡ ok m → (m.typ ≡ 1) ⊎ (m.typ ≡ 2))
      → (on_read again payload r).1 ≢ some true
  unfolding on_read
  on_read-ne-true again payload (s, err e) k d = λ h. cc
  on_read-ne-true again payload (s, ok m) k d = ground (arith, d m refl, k s)

  alive_loop-ne-true :
      (fuel : ℕ) (payload : Bytes) (s : State)
      → DataOnly
      → (alive_loop fuel payload s).1 ≢ some true
  unfolding alive_loop
  alive_loop-ne-true zero payload s d = λ h. cc
  alive_loop-ne-true (suc fuel) payload s d =
      on_read-ne-true (alive_loop fuel payload) payload (w.read s)
        (λ t. alive_loop-ne-true fuel payload t d) (d s)

  pub alive_check-ne-true :
      (fuel : ℕ) (s : State) (payload : Bytes)
      → DataOnly
      → (alive_check fuel s payload).1 ≢ some true
  unfolding alive_check
  alive_check-ne-true fuel s payload d = go (w.write s op_ping payload)
    where
      go : (r : State × Result (Unit {0})) → (after_ping fuel payload r).1 ≢ some true
      go (t, err e) = λ h. cc
      go (t, ok u) = alive_loop-ne-true fuel payload t d

-- The framed connection as an implementation of the interface.
abbrev pub framed : Env → WsConn
framed env = record { State = Conn; read = read env; write = write env }

framed-DataOnly : (env : Env) → Sane env → DataOnly (framed env)
framed-DataOnly env s c m h = go (read env c) (read-Proper env c s) h
  where
    go : (r : Conn × Result Message) → Proper r → r.1 ≡ ok m → (m.typ ≡ 1) ⊎ (m.typ ≡ 2)
    go (d, ok m') p e = ground (arith, p)
    go (d, err x) p e = cc

-- Over a framed connection (HTTP/2 and HTTP/3) the liveness check never reports a live standby,
-- whatever the peer sends and however long it waits, since Read consumes the pong that it waits
-- for; the context reports errors of its own.
pub alive_check-framed :
    (env : Env) (fuel : ℕ) (c : Conn) (payload : Bytes)
    → Sane env
    → (alive_check (framed env) fuel c payload).1 ≢ some true
alive_check-framed env fuel c payload s =
    alive_check-ne-true (framed env) fuel c payload (framed-DataOnly env s)
