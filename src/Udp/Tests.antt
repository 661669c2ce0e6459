-- ===== src/Udp/Tests.antt =====
-- The theorems on the UDP session at concrete sessions, packets and steps.
use outline_cli_ws.Socks.Addr.{Parsed, parse_socks_addr_at}
use outline_cli_ws.Common.{◌++◌}
use outline_cli_ws.Udp.Association.{Association, read_from_client, read_from_upstream}
use outline_cli_ws.Udp.Association.Echo.{
  Request, AddrHeader, Answer, read_from_upstream-read_from_client,
}
use outline_cli_ws.Common.{ℕ, ◌≡◌, refl, true, false, Option, none, some, [], ◌∷◌, arith}
use outline_cli_ws.Common.Bytes.{Bytes, bytes_equal}
use outline_cli_ws.Socks.Addr.{AddrKey, parse_addr_key}
use outline_cli_ws.Udp.Session.{
  Session, Ip, v4, unsubscribing, sending, looking, lookup, key_equal, read_packet, step, subscribe,
  unsubscribe, look, shut, remove, addr_key_from_host_port,
}
use outline_cli_ws.Udp.Session.Channels.{WellFormed}
use outline_cli_ws.Udp.Session.Safety.{Sane, step-Sane}
use outline_cli_ws.Udp.Session.Delivery.{sending-unsubscribing}
use outline_cli_ws.Udp.Session.Keys.{packet, Reaches, round-subscribe}

-- 10.0.0.1, port 53.
abbrev dns : AddrKey
dns = record {
  atyp = 1;
  ip = 10 ∷ 0 ∷ 0 ∷ 1 ∷ 0 ∷ 0 ∷ 0 ∷ 0 ∷ 0 ∷ 0 ∷ 0 ∷ 0 ∷ 0 ∷ 0 ∷ 0 ∷ 0 ∷ [];
  port = 53;
  domain = [];
}

-- One subscriber, with one payload that waits.
abbrev session : Session
session = record {
  subs = (dns, 0) ∷ [];
  channels = record { queue = (7 ∷ []) ∷ []; closed = false } ∷ [];
  held = none;
  taken = 3;
  released = 1;
  handed = 1;
}

session-WellFormed : WellFormed session
session-WellFormed = record {
  live = (refl, tt);
  separate = (tt, tt);
  kept = ((omega arith, λ e. cc), tt);
  counted = refl;
}

abbrev reply : Bytes
reply = 1 ∷ 10 ∷ 0 ∷ 0 ∷ 1 ∷ 0 ∷ 53 ∷ 8 ∷ 9 ∷ []

step-Sane_example : Sane (step (looking reply) session)
step-Sane_example = step-Sane (looking reply) session session-WellFormed (λ e. cc)

reads : read_packet reply ≡ some (dns, 8 ∷ 9 ∷ [])
unfolding read_packet parse_addr_key
reads = refl

found : lookup dns session.subs ≡ some 0
unfolding lookup key_equal bytes_equal
found = refl

abbrev looked : Session
looked = record session { taken = 4; held = some (0, 8 ∷ 9 ∷ []) }

abbrev cut_off : Session
cut_off = record looked {
  subs = [];
  channels = record { queue = []; closed = true } ∷ [];
  released = 2;
}

looks : step (looking reply) session ≡ some looked
unfolding step look read_packet parse_addr_key lookup key_equal bytes_equal
looks = refl

unsubscribes : step (unsubscribing (some dns)) looked ≡ some cut_off
unfolding step unsubscribe lookup key_equal bytes_equal shut remove
unsubscribes = refl

sending-unsubscribing_example : step sending cut_off ≡ none
sending-unsubscribing_example =
    sending-unsubscribing session reply (8 ∷ 9 ∷ []) dns 0 session-WellFormed refl reads found
      looked cut_off looks unsubscribes

-- One text of an address, for the tests: what net.SplitHostPort, ParseUint and ParseIP make of it.
abbrev split : Bytes → Option (Bytes × Bytes)
split hp = some (1 ∷ [], 2 ∷ [])

abbrev parse_uint : Bytes → Option ℕ
parse_uint s = some 80

abbrev parse_ip : Bytes → Option Ip
parse_ip s = some (v4 (10 ∷ 0 ∷ 0 ∷ 2 ∷ []))

round-subscribe_example :
    Reaches
      (8 ∷ 9 ∷ [])
      (subscribe (addr_key_from_host_port split parse_uint parse_ip (1 ∷ 3 ∷ 2 ∷ [])) session)
      (packet (some (v4 (10 ∷ 0 ∷ 0 ∷ 2 ∷ []))) (1 ∷ []) 80 (8 ∷ 9 ∷ []))
round-subscribe_example =
    round-subscribe split parse_uint parse_ip (1 ∷ 3 ∷ 2 ∷ []) (1 ∷ []) (2 ∷ []) 80 (8 ∷ 9 ∷ [])
      session refl refl refl (omega arith) (omega arith) session-WellFormed refl

-- A datagram to 10.0.0.1, port 53, from the first sender.
abbrev datagram : Bytes
datagram = 0 ∷ 0 ∷ 0 ∷ 1 ∷ 10 ∷ 0 ∷ 0 ∷ 1 ∷ 0 ∷ 53 ∷ 8 ∷ 9 ∷ []

abbrev header : Bytes
header = 1 ∷ 10 ∷ 0 ∷ 0 ∷ 1 ∷ 0 ∷ 53 ∷ []

abbrev same : Bytes → Bytes
same s = s

abbrev one_point : ℕ → Bytes
one_point n = n ∷ []

abbrev joined : Bytes → Bytes → Bytes
joined h p = h ++ p

abbrev dns_only : Bytes → Option Bytes
dns_only t = some header

abbrev dns_parsed : Parsed
dns_parsed = record { host = 10 ∷ 0 ∷ 0 ∷ 1 ∷ []; port = 53 ∷ []; new_off = 10 }

datagram-Request : Request same one_point joined dns_only datagram dns_parsed
unfolding parse_socks_addr_at
datagram-Request = record {
  long = omega arith;
  reserved = (refl, refl);
  whole = refl;
  address = refl;
}

header-AddrHeader : AddrHeader same one_point joined dns_only dns_parsed header
unfolding parse_socks_addr_at
header-AddrHeader = record { made = refl; reads = λ rest. ground arith }

abbrev unknown : Association
unknown = record { peer_udp = none }

abbrev sent : Association × Option Bytes
sent = read_from_client same one_point joined dns_only (some 4) datagram unknown

read_from_upstream-read_from_client_example :
    (plain : Bytes) × (sent.1 ≡ some plain)
    × (resp : Bytes) × (read_from_upstream same one_point joined dns_only plain sent.0
        ≡ some (4, resp))
    × Answer same one_point joined dns_only datagram dns_parsed resp
read_from_upstream-read_from_client_example =
    read_from_upstream-read_from_client same one_point joined dns_only 4 datagram unknown dns_parsed
      header datagram-Request header-AddrHeader
