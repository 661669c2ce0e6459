-- ===== src/Udp/Session/Keys.antt =====
-- The keys of a UDP session, internal/outline_udp_session.go: the key of an address in a packet and
-- the key of the same address as a text.
use outline_cli_ws.Common.Bytes.{Bytes, put_uint16}
use outline_cli_ws.Common.{
  ℕ, suc, ◌+◌, ◌-◌, ◌*◌, ◌/◌, ◌%◌, ◌^◌, ◌<◌, ◌≡◌, refl, sym, ap, ◌∙◌, subst, inl, inr, false,
  Option, none, some, [], ◌∷◌, ◌++◌, arith, ltb, ◌==◌, Option-cases, length, get_or, drop, take,
  length-append, take-append, drop-append, drop-add,
}
use outline_cli_ws.Socks.Addr.{AddrKey, no_ip, parse_addr_key, with_port}
use outline_cli_ws.Udp.Session.{
  Ip, v4, v6, Session, lookup, subscribe, read_packet, addr_key_from_host_port,
}
use outline_cli_ws.Udp.Session.Channels.{WellFormed, key_equal_refl}
use outline_cli_ws.Udp.Session.Safety.{subscribe-Sound}
use outline_cli_ws.Udp.Session.Delivery.{round, Delivered, round-Delivered}

-- A packet: the address, of an IP address or of a domain, and the data.
abbrev pub packet : Option Ip → Bytes → ℕ → Bytes → Bytes
packet (some (v4 b)) host port rest = 1 ∷ (b ++ (put_uint16 port ++ rest))
packet (some (v6 b)) host port rest = 4 ∷ (b ++ (put_uint16 port ++ rest))
packet none host port rest = 3 ∷ length host ∷ (host ++ (put_uint16 port ++ rest))

abbrev pub Fits : Option Ip → Bytes → Type 0
Fits (some (v4 b)) host = length b ≡ 4
Fits (some (v6 b)) host = length b ≡ 16
Fits none host = length host < 256

abbrev pub key : Option Ip → Bytes → ℕ → AddrKey
key (some (v4 b)) host port = record { atyp = 1; ip = b ++ drop 4 no_ip; port = port; domain = [] }
key (some (v6 b)) host port = record { atyp = 4; ip = b; port = port; domain = [] }
key none host port = record { atyp = 3; ip = no_ip; port = port; domain = host }

lookup-subscribe :
    (k : AddrKey) (s : Session)
    → lookup k (subscribe (some k) s).0.subs ≡ some (subscribe (some k) s).1
unfolding lookup subscribe
lookup-subscribe k s = elim (Option-cases (lookup k s.subs)) [
  | inl e ↦ rw (e, subscribe, key_equal_refl k) refl
  | inr (c, e) ↦ rw (e, subscribe) e
]

subscribe-idle : (k : Option AddrKey) (s : Session) → s.held ≡ none → (subscribe k s).0.held ≡ none
unfolding subscribe
subscribe-idle none s h = h
subscribe-idle (some k) s h = elim (Option-cases (lookup k s.subs)) [
  | inl e ↦ rw (e, subscribe) h
  | inr (c, e) ↦ rw (e, subscribe) h
]

key-addr_key_from_host_port :
    (split : Bytes → Option (Bytes × Bytes)) (parse_uint : Bytes → Option ℕ)
    (parse_ip : Bytes → Option Ip) (hp host port_str : Bytes) (port : ℕ)
    → split hp ≡ some (host, port_str)
    → parse_uint port_str ≡ some port
    → addr_key_from_host_port split parse_uint parse_ip hp ≡ some (key (parse_ip host) host port)
unfolding addr_key_from_host_port
key-addr_key_from_host_port split parse_uint parse_ip hp host port_str port e f =
    rw (e, f) (split_ip (parse_ip host))
  where
    split_ip :
        (ip : Option Ip)
        → elim ip [
          | some (v4 b) ↦
              some (record { atyp = 1; ip = b ++ drop 4 no_ip; port = port; domain = [] })
          | some (v6 b) ↦ some (record { atyp = 4; ip = b; port = port; domain = [] })
          | none ↦ some (record { atyp = 3; ip = no_ip; port = port; domain = host })
        ]
          ≡ some (key ip host port)
    split_ip (some (v4 b)) = refl
    split_ip (some (v6 b)) = refl
    split_ip none = refl

-- A round over `plain` puts the payload into the channel of a subscription just made.
abbrev pub Reaches : Bytes → Session × ℕ → Bytes → Type 0
Reaches payload (s, c) plain =
    (t : Session) × (round plain s ≡ some t) × (t.held ≡ none) × Delivered c payload s t

get_or-append : (xs ys : Bytes) (i : ℕ) → get_or (xs ++ ys) (length xs + i) 0 ≡ get_or ys i 0
get_or-append [] ys i = let e : 0 + i ≡ i = omega arith in rw e refl
get_or-append (x ∷ xs) ys i =
    let e : length (x ∷ xs) + i ≡ suc (length xs + i) = omega arith in rw e (get_or-append xs ys i)

-- What stands behind a field of `n` bytes.
module _ (b rest : Bytes) (n port : ℕ) (e : length b ≡ n) (p : port < 2 ^ 16) where
  field : take n (b ++ (put_uint16 port ++ rest)) ≡ b
  field = rw (← e) (take-append b (put_uint16 port ++ rest))

  high : get_or (b ++ (put_uint16 port ++ rest)) n 0 ≡ port / 256 % 256
  high =
      let z : n ≡ length b + 0 = omega (arith, e) in
      rw z (get_or-append b (put_uint16 port ++ rest) 0)

  low : get_or (b ++ (put_uint16 port ++ rest)) (n + 1) 0 ≡ port % 256
  low = rw (← e) (get_or-append b (put_uint16 port ++ rest) 1)

  value :
      get_or (b ++ (put_uint16 port ++ rest)) n 0 * 256
        + get_or (b ++ (put_uint16 port ++ rest)) (n + 1) 0
      ≡ port
  value = omega (arith, high, low)

  data_behind : drop (n + 2) (b ++ (put_uint16 port ++ rest)) ≡ rest
  data_behind =
      drop-add n 2 (b ++ (put_uint16 port ++ rest))
      ∙ ap (drop 2) (
          subst (λ m. drop m (b ++ (put_uint16 port ++ rest)) ≡ put_uint16 port ++ rest) e
            (drop-append b (put_uint16 port ++ rest)))

  size : length (b ++ (put_uint16 port ++ rest)) ≡ n + 2 + length rest
  size = omega (arith, e, length-append b (put_uint16 port ++ rest))

-- The packet of a field of `n` bytes that the parser has found.
read_packet-found :
    (plain : Bytes) (k : AddrKey) (off : ℕ) (payload : Bytes)
    → parse_addr_key plain ≡ some (k, off)
    → drop off plain ≡ payload
    → length plain ≡ off + length payload
    → 0 < length payload
    → read_packet plain ≡ some (k, payload)
unfolding read_packet
read_packet-found plain k off payload e d n l =
    let short : ltb (length plain) off ≡ false = ground arith in
    let empty : (length plain - off == 0) ≡ false = ground arith in
    rw (read_packet, e, short, empty, d) refl

module _ (port : ℕ) (payload : Bytes) (p : port < 2 ^ 16) where
  parse_v4 :
      (b : Bytes)
      → length b ≡ 4
      → parse_addr_key (packet (some (v4 b)) [] port payload) ≡ some (key (some (v4 b)) [] port, 7)
  unfolding parse_addr_key with_port
  parse_v4 b f =
      ground
        (arith, field b payload 4 port f p, value b payload 4 port f p, size b payload 4 port f p)

  parse_v6 :
      (b : Bytes)
      → length b ≡ 16
      → parse_addr_key (packet (some (v6 b)) [] port payload) ≡ some (key (some (v6 b)) [] port, 19)
  unfolding parse_addr_key with_port
  parse_v6 b f =
      ground (
        arith,
        field b payload 16 port f p,
        value b payload 16 port f p,
        size b payload 16 port f p,
      )

  parse_domain :
      (host : Bytes)
      → parse_addr_key (packet none host port payload)
        ≡ some (key none host port, 2 + length host + 2)
  unfolding parse_addr_key with_port
  parse_domain host =
      let b : Bytes = 3 ∷ length host ∷ host in
      let n : ℕ = 2 + length host in
      let e : length b ≡ n = omega arith in
      ground (
        arith,
        field host payload (length host) port refl p,
        value b payload n port e p,
        size b payload n port e p,
      )

  read_packet-packet :
      (ip : Option Ip) (host : Bytes)
      → Fits ip host
      → 0 < length payload
      → read_packet (packet ip host port payload) ≡ some (key ip host port, payload)
  read_packet-packet (some (v4 b)) host f l =
      read_packet-found (packet (some (v4 b)) [] port payload) (key (some (v4 b)) [] port) 7 payload
        (parse_v4 b f) (data_behind b payload 4 port f p) (omega (arith, size b payload 4 port f p))
        l
  read_packet-packet (some (v6 b)) host f l =
      read_packet-found (packet (some (v6 b)) [] port payload) (key (some (v6 b)) [] port) 19
        payload (parse_v6 b f) (data_behind b payload 16 port f p)
        (omega (arith, size b payload 16 port f p)) l
  read_packet-packet none host f l =
      let b : Bytes = 3 ∷ length host ∷ host in
      let n : ℕ = 2 + length host in
      let e : length b ≡ n = omega arith in
      read_packet-found (packet none host port payload) (key none host port) (n + 2) payload
        (parse_domain host) (data_behind b payload n port e p)
        (omega (arith, size b payload n port e p)) l

-- Behind a subscription to an address, a round of the read loop that no other goroutine interrupts
-- puts the data of a packet from that address into the channel of the subscription, or drops it
-- where the channel is full, in a well-formed session whose reader is idle; the port is below
-- 65536, the address has the length of its kind, and the data is not empty.
pub round-subscribe :
    (split : Bytes → Option (Bytes × Bytes)) (parse_uint : Bytes → Option ℕ)
    (parse_ip : Bytes → Option Ip) (hp host port_str : Bytes) (port : ℕ) (payload : Bytes)
    (s : Session)
    → split hp ≡ some (host, port_str)
    → parse_uint port_str ≡ some port
    → Fits (parse_ip host) host
    → port < 2 ^ 16
    → 0 < length payload
    → WellFormed s
    → s.held ≡ none
    → Reaches payload
        (subscribe (addr_key_from_host_port split parse_uint parse_ip hp) s)
        (packet (parse_ip host) host port payload)
round-subscribe split parse_uint parse_ip hp host port_str port payload s e f fits p l h idle =
    let k : AddrKey = key (parse_ip host) host port in
    let plain : Bytes = packet (parse_ip host) host port payload in
    let c : ℕ = (subscribe (some k) s).1 in
    let s' : Session = (subscribe (some k) s).0 in
    let (t, r, q, d, others) =
      round-Delivered s' plain payload k c (subscribe-Sound (some k) s h)
        (subscribe-idle (some k) s idle)
        (read_packet-packet port payload p (parse_ip host) host fits l) (lookup-subscribe k s) in
    subst (λ o. Reaches payload (subscribe o s) plain)
      (sym (key-addr_key_from_host_port split parse_uint parse_ip hp host port_str port e f))
      (t, r, q, d)
