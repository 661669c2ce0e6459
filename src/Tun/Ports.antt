-- ===== src/Tun/Ports.antt =====
-- The table of UDP port sessions, internal/tun_udp_porttable.go: getOrCreate and gcOnce as stages
-- between two critical sections. A session is the number of its creation.
pub mod Ownership
pub mod Unique
use outline_cli_ws.Common.Bytes.{Bytes, bytes_equal}
use outline_cli_ws.Common.Int.{ℤ, pos, ltb_ℤ}
use outline_cli_ws.Common.{
  ℕ, ◌+◌, ◌*◌, ◌^◌, ◌≡◌, Bool, true, false, not, ◌&&◌, Option, none, some, List, [], ◌∷◌, ◌++◌, ltb,
  leb, ◌==◌, if◌then◌else◌, length, get_elem?, set, Error, Result, ok, err, session_limit_reached,
}
use outline_cli_ws.Lb.State.{sub_time, not_positive}

pub record PortKey : Type 0 where
  pub net_proto : ℕ
  pub src_ip : Bytes
  pub src_port : ℕ

unfoldable pub same_key : PortKey → PortKey → Bool
same_key k l =
    k.net_proto == l.net_proto && bytes_equal k.src_ip l.src_ip && k.src_port == l.src_port

pub record PortSession : Type 0 where
  pub key : PortKey
  pub sess : ℕ
  pub last_seen : ℕ

-- The map, the sessions closed so far, and the number of sessions opened.
pub record Table : Type 0 where
  pub ports : List PortSession
  pub closed : List ℕ
  pub opened : ℕ

-- `t.ports[key]`
unfoldable pub find : PortKey → List PortSession → Option ℕ
find k [] = none
find k (p ∷ ps) = if same_key p.key k then some p.sess else find k ps

-- `ps.lastSeen = now` at a key.
unfoldable pub touch : PortKey → ℕ → List PortSession → List PortSession
touch k now [] = []
touch k now (p ∷ ps) =
    (if same_key p.key k then record p { last_seen = now } else p) ∷ touch k now ps

-- The limit in use, and the idle time in use.
abbrev pub or_positive : ℤ → ℤ → ℤ
or_positive v d = if not_positive v then d else v

abbrev pub port_idle : ℤ → ℤ
port_idle v = or_positive v (pos (60 * 10 ^ 9))

-- One round of the collection: what stays, and what is to be closed.
unfoldable pub collect : ℤ → ℕ → List PortSession → List PortSession × List ℕ
collect idle now [] = ([], [])
collect idle now (p ∷ ps) =
    let rest = collect idle now ps in
    if ltb_ℤ (port_idle idle) (sub_time now p.last_seen)
    then (rest.0, p.sess ∷ rest.1)
    else (p ∷ rest.0, rest.1)

pub data Stage : Type 0 where
  -- getOrCreate: at its start, at the choice of an upstream and the dial, and with a new session
  getting : PortKey → Stage
  opening : PortKey → ℕ → Stage
  storing : PortKey → ℕ → ℕ → Stage
  -- a session that another goroutine has forestalled, and the one that it has stored
  duplicate : ℕ → ℕ → Stage
  returned : Result ℕ → Stage
  -- gcOnce: at its start, and with the sessions to close
  collecting : Stage
  closing : List ℕ → Stage
  done : Stage

-- What a step hears from outside: the time, and the result of PickUDP and NewOutlineUDPSession.
pub record Answer : Type 0 where
  pub now : ℕ
  pub open_error : Option Error

pub record TunLimits : Type 0 where
  pub udp_max_flows : ℤ
  pub udp_idle_timeout : ℤ

module _ (cfg : TunLimits) where
  -- The first critical section of getOrCreate.
  get_existing : Answer → Table → PortKey → Option ℕ → Table × Stage
  unfolding touch
  get_existing a t k (some s) = (record t { ports = touch k a.now t.ports }, returned (ok s))
  get_existing a t k none =
      if ltb_ℤ (pos (length t.ports)) (or_positive cfg.udp_max_flows (pos 4096))
      then (t, opening k a.now)
      else (t, returned (err session_limit_reached))

  open_session : Table → PortKey → ℕ → Option Error → Table × Stage
  open_session t k now (some e) = (t, returned (err e))
  open_session t k now none = (record t { opened = t.opened + 1 }, storing k t.opened now)

  -- The last critical section of getOrCreate.
  store : Table → PortKey → ℕ → ℕ → Option ℕ → Table × Stage
  store t k s now (some other) = (t, duplicate s other)
  store t k s now none = (
    record t { ports = record { key = k; sess = s; last_seen = now } ∷ t.ports },
    returned (ok s),
  )

  unfoldable pub advance : Answer → Table → Stage → Table × Stage
  unfolding get_existing open_session store find collect
  advance a t (getting k) = get_existing a t k (find k t.ports)
  advance a t (opening k now) = open_session t k now a.open_error
  advance a t (storing k s now) = store t k s now (find k t.ports)
  advance a t (duplicate s other) = (record t { closed = s ∷ t.closed }, returned (ok other))
  advance a t (returned r) = (t, returned r)
  advance a t collecting =
      let r = collect cfg.udp_idle_timeout a.now t.ports in (record t { ports = r.0 }, closing r.1)
  advance a t (closing ss) = (record t { closed = ss ++ t.closed }, done)
  advance a t done = (t, done)

-- The table and its goroutines.
pub record World : Type 0 where
  pub table : Table
  pub threads : List Stage

-- A new call of getOrCreate or gcOnce, or a step of the goroutine with this index.
pub data Move : Type 0 where
  call_get : PortKey → Move
  call_gc : Move
  go_on : ℕ → Answer → Move

module _ (cfg : TunLimits) where
  go_on_at : World → ℕ → Answer → Option Stage → World
  unfolding advance
  go_on_at w i a none = w
  go_on_at w i a (some t) =
      let r = advance cfg a w.table t in record { table = r.0; threads = set w.threads i r.1 }

  pub move : World → Move → World
  unfolding go_on_at
  move w (call_get k) = record w { threads = getting k ∷ w.threads }
  move w call_gc = record w { threads = collecting ∷ w.threads }
  move w (go_on i a) = go_on_at w i a (get_elem? w.threads i)

  unfoldable pub run : World → List Move → World
  unfolding move
  run w [] = w
  run w (m ∷ ms) = run (move w m) ms

abbrev pub empty : World
empty = record { table = record { ports = []; closed = []; opened = 0 }; threads = [] }
