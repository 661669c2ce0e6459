-- ===== src/Udp/Session.antt =====
-- The subscriptions of an OutlineUDPSession, internal/outline_udp_session.go: the map from addresses
-- to channels, and the goroutines that share it. A channel is its place in a store, since a goroutine
-- keeps a channel that the map has dropped. The operations that panic return `none`.
pub mod Channels
pub mod Safety
pub mod Delivery
pub mod Keys
pub mod Lookups
use outline_cli_ws.Common.Bytes.{bytes_equal}
use outline_cli_ws.Common.Partial.{◌>>=◌}
use outline_cli_ws.Socks.Addr.{AddrKey, no_ip, parse_addr_key}
use outline_cli_ws.Common.{
  ℕ, zero, suc, ◌+◌, ◌-◌, ◌*◌, ◌/◌, ◌%◌, ◌^◌, ◌≤◌, ◌<◌, min, bit_and, bit_or, bit_xor, ◌≡◌, refl,
  sym, ap, ◌∙◌, subst, ◌≢◌, ◌↔◌, ◌⊎◌, inl, inr, Bool, true, false, not, ◌&&◌, ◌||◌, Option, none,
  some, List, [], ◌∷◌, ◌++◌, map, foldl, append-nil, append_assoc, arith, ltb, leb, ◌==◌,
  if◌then◌else◌, ==_iff, leb→le, Bool-cases, Option-cases, is_some, length, get_elem?, get_or, set,
  take, drop, All, length-append, take-append, drop-append, length-set, get_elem?-set_self,
  get_elem?-set_ne, length-drop, take-append-drop, get_elem?-some-lt, All-get_or, All-append,
}
use outline_cli_ws.Common.Bytes.{
  Bytes, IsByte, put_uint16, put_uint64, big_endian, big_endian-put_uint16, big_endian-put_uint64,
}

-- What net.ParseIP gives: four bytes where To4 does, sixteen where only To16 does.
pub data Ip : Type 0 where
  v4 v6 : Bytes → Ip

-- `addrKeyFromHostPort`, with net.SplitHostPort, strconv.ParseUint of sixteen bits and net.ParseIP.
unfoldable pub addr_key_from_host_port :
    (Bytes → Option (Bytes × Bytes))
    → (Bytes → Option ℕ)
    → (Bytes → Option Ip)
    → Bytes
    → Option AddrKey
addr_key_from_host_port split parse_uint parse_ip hp = do
  (host, port_str) ← split hp
  port ← parse_uint port_str
  elim (parse_ip host) [
    | some (v4 b) ↦ some (record { atyp = 1; ip = b ++ drop 4 no_ip; port = port; domain = [] })
    | some (v6 b) ↦ some (record { atyp = 4; ip = b; port = port; domain = [] })
    | none ↦ some (record { atyp = 3; ip = no_ip; port = port; domain = host })
  ]

-- `==` on keys.
unfoldable pub key_equal : AddrKey → AddrKey → Bool
key_equal k l =
    k.atyp == l.atyp && bytes_equal k.ip l.ip && k.port == l.port && bytes_equal k.domain l.domain

pub record Channel : Type 0 where
  pub queue : List Bytes
  pub closed : Bool

abbrev pub dead : Channel
dead = record { queue = []; closed = true }

abbrev pub capacity : ℕ
capacity = 128

-- The map, the store of the channels, the message that the reader holds with the channel it has looked
-- up, and counts of the payloads: taken from the pool, released to it, and handed to a subscriber.
pub record Session : Type 0 where
  pub subs : List (AddrKey × ℕ)
  pub channels : List Channel
  pub held : Option (ℕ × Bytes)
  pub taken : ℕ
  pub released : ℕ
  pub handed : ℕ

unfoldable pub lookup : AddrKey → List (AddrKey × ℕ) → Option ℕ
lookup k [] = none
lookup k (e ∷ es) = if key_equal e.0 k then some e.1 else lookup k es

unfoldable pub remove : AddrKey → List (AddrKey × ℕ) → List (AddrKey × ℕ)
remove k [] = []
remove k (e ∷ es) = if key_equal e.0 k then remove k es else e ∷ remove k es

abbrev pub channel : Session → ℕ → Channel
channel s c = get_or s.channels c dead

-- `close(ch)` and `drainUDPPayloadChan(ch)`: closing a closed channel panics.
unfoldable pub shut : ℕ → Session → Option Session
shut c s =
    if (channel s c).closed
    then none
    else some (record s {
      channels = set s.channels c dead;
      released = s.released + length (channel s c).queue;
    })

unfoldable pub subscribe : Option AddrKey → Session → Session × ℕ
subscribe none s = (record s { channels = s.channels ++ (dead ∷ []) }, length s.channels)
subscribe (some k) s = elim (lookup k s.subs) [
  | some c ↦ (s, c)
  | none ↦ (
    record s {
      subs = (k, length s.channels) ∷ s.subs;
      channels = s.channels ++ (record { queue = []; closed = false } ∷ []);
    },
    length s.channels,
  )
]

unfoldable pub unsubscribe : Option AddrKey → Session → Option Session
unsubscribe none s = some s
unsubscribe (some k) s = elim (lookup k s.subs) [
  | none ↦ some s
  | some c ↦ shut c (record s { subs = remove k s.subs })
]

-- The loop of `Close` over the map.
unfoldable pub shut_all : List (AddrKey × ℕ) → Session → Option Session
shut_all [] s = some s
shut_all (e ∷ es) s = do s' ← shut e.1 s; shut_all es s'

unfoldable pub close : Session → Option Session
close s = do s' ← shut_all s.subs s; some (record s' { subs = [] })

-- The packets that a round of `readLoop` goes on with: the key, and the payload, which is not empty.
unfoldable pub read_packet : Bytes → Option (AddrKey × Bytes)
read_packet plain = elim (parse_addr_key plain) [
  | none ↦ none
  | some (k, off) ↦
      if ltb (length plain) off
      then none
      else (if length plain - off == 0 then none else some (k, drop off plain))
]

-- The first part of a round, to the end of the read lock.
unfoldable pub look : Bytes → Session → Session
look plain s = elim (read_packet plain) [
  | none ↦ s
  | some (k, payload) ↦ elim (lookup k s.subs) [
    | none ↦ record s { taken = s.taken + 1; released = s.released + 1 }
    | some c ↦ record s { taken = s.taken + 1; held = some (c, payload) }
  ]
]

-- The `select` of a round: a send on a closed channel panics, a full one drops the message.
unfoldable pub send : ℕ → Bytes → Session → Option Session
send c payload s =
    if (channel s c).closed
    then none
    else some (
        if ltb (length (channel s c).queue) capacity
        then record s {
          held = none;
          channels =
              set s.channels c
                (record { queue = (channel s c).queue ++ (payload ∷ []); closed = false });
        }
        else record s { held = none; released = s.released + 1 })

-- A subscriber's `<-ch`, where a payload is there.
unfoldable pub take_payload : ℕ → Session → Session
take_payload c s = elim (channel s c).queue [
  | [] ↦ s
  | b ∷ bs ↦ record s {
    channels = set s.channels c (record { queue = bs; closed = (channel s c).closed });
    handed = s.handed + 1;
  }
]

pub data Step : Type 0 where
  subscribing unsubscribing : Option AddrKey → Step
  closing sending : Step
  looking : Bytes → Step
  taking : ℕ → Step

-- The critical section of one goroutine. The reader looks only when it holds no message, and sends
-- only when it holds one.
unfoldable pub step : Step → Session → Option Session
step (subscribing k) s = some (subscribe k s).0
step (unsubscribing k) s = unsubscribe k s
step closing s = close s
step (looking plain) s = some (elim s.held [ none ↦ look plain s | some h ↦ s ])
step sending s = elim s.held [ none ↦ some s | some (c, payload) ↦ send c payload s ]
step (taking c) s = some (take_payload c s)
