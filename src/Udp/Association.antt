-- ===== src/Udp/Association.antt =====
-- The UDP association of a SOCKS5 client, internal/outline_udp.go: the two loops of UDPAssociation, a
-- datagram at a time. The texts of package net and socks.ParseAddr are parameters, an address of a
-- sender is a number, and `none` is a sender that is no UDP address.
pub mod Echo
use outline_cli_ws.Socks.Addr.{Parsed, parse_socks_addr_at, byte_at}
use outline_cli_ws.Common.{
  ℕ, ◌+◌, not, ◌||◌, Option, none, some, [], ◌∷◌, ◌++◌, take, drop, length, ltb, ◌==◌,
  if◌then◌else◌, Result, ok, err,
}
use outline_cli_ws.Common.Bytes.{Bytes}

pub record Association : Type 0 where
  pub peer_udp : Option ℕ

-- `if a.peerUDP == nil { a.peerUDP = ua }`, for a sender that is a UDP address.
unfoldable pub learn : Option ℕ → Association → Association
learn none a = a
learn (some ua) a = elim a.peer_udp [ none ↦ record { peer_udp = some ua } | some p ↦ a ]

module _ (ip_string : Bytes → Bytes) (itoa : ℕ → Bytes) (join : Bytes → Bytes → Bytes)
    (parse_addr : Bytes → Option Bytes) where
  with_data : Bytes → Option Bytes → Option Bytes
  with_data payload none = none
  with_data payload (some ss_addr) = some (ss_addr ++ payload)

  plain_of : Bytes → Result Parsed → Option Bytes
  unfolding with_data
  plain_of pkt (err e) = none
  plain_of pkt (ok p) = with_data (drop p.new_off pkt) (parse_addr (join p.host p.port))

  -- A round of `readFromClientLoop`, up to the write: what is written, if anything.
  unfoldable pub read_from_client : Option ℕ → Bytes → Association → Association × Option Bytes
  unfolding learn plain_of
  read_from_client from pkt a =
      if ltb (length pkt) (4 + 2 + 2)
      then (a, none)
      else (if not (byte_at pkt 0 == 0) || not (byte_at pkt 1 == 0)
          then (learn from a, none)
          else (if not (byte_at pkt 2 == 0)
              then (learn from a, none)
              else (learn from a, plain_of pkt (parse_socks_addr_at ip_string itoa pkt 3))))

  response : Bytes → Option ℕ → Result Parsed → Option (ℕ × Bytes)
  response plain peer (err e) = none
  response plain none (ok p) = none
  response plain (some peer) (ok p) =
      some (peer, (0 ∷ 0 ∷ 0 ∷ []) ++ (take p.new_off plain ++ drop p.new_off plain))

  -- A round of `readFromUpstreamLoop`: the datagram sent and its receiver, if any.
  unfoldable pub read_from_upstream : Bytes → Association → Option (ℕ × Bytes)
  unfolding response
  read_from_upstream plain a =
      response plain a.peer_udp (parse_socks_addr_at ip_string itoa plain 0)
