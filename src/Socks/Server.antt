-- ===== src/Socks/Server.antt =====
-- The SOCKS5 server of internal/socks5.go: handshake, request, reply, and what a CONNECT does with the
-- balancer. The client's bytes are a stream; a write is known by its error. The functions of package
-- net are parameters.
pub mod Requests
pub mod Replies
pub mod Connect
use outline_cli_ws.Common.{not_socks5, no_acceptable_auth, bad_ver, bad_atyp}
use outline_cli_ws.Common.Float.{Float}
use outline_cli_ws.Lb.State.{LoadBalancer}
use outline_cli_ws.Lb.Select.{pick_tcp}
use outline_cli_ws.Lb.Health.{report_tcp_failure}
use outline_cli_ws.Socks.Addr.{byte_at}
use outline_cli_ws.Common.{
  ℕ, zero, suc, ◌+◌, ◌-◌, ◌*◌, ◌/◌, ◌%◌, ◌^◌, ◌≤◌, ◌<◌, min, bit_and, bit_or, bit_xor, ◌≡◌, refl,
  sym, ap, ◌∙◌, subst, ◌≢◌, ◌↔◌, ◌⊎◌, inl, inr, Bool, true, false, not, ◌&&◌, ◌||◌, Option, none,
  some, List, [], ◌∷◌, ◌++◌, map, foldl, append-nil, append_assoc, arith, ltb, leb, ◌==◌,
  if◌then◌else◌, ==_iff, leb→le, Bool-cases, Option-cases, is_some, length, get_elem?, get_or, set,
  take, drop, All, length-append, take-append, drop-append, length-set, get_elem?-set_self,
  get_elem?-set_ne, length-drop, take-append-drop, get_elem?-some-lt, All-get_or, All-append,
}
use outline_cli_ws.Common.{Error, Result, ok, err}
use outline_cli_ws.Common.Bytes.{
  Bytes, IsByte, put_uint16, put_uint64, big_endian, big_endian-put_uint16, big_endian-put_uint64,
}
use outline_cli_ws.Common.Reader.{
  Read, got, failed, Reader, next, ◌>>=◌, ◌>>◌, give, fail, fail_if, read_byte, read_full,
  read_full-append, Read-cases,
}

-- `for _, method := range m { if method == 0x00 ... }`
offers_none : Bytes → Bool
offers_none [] = false
offers_none (m ∷ ms) = m == 0 || offers_none ms

-- What is read: version and methods.
read_methods : Reader Bytes
read_methods = do
  h ← read_full 2
  fail_if (not (byte_at h 0 == 5)) not_socks5
  read_full (byte_at h 1)

write_error : Bytes → Option Error → Read (Unit {0})
write_error r none = got tt r
write_error r (some e) = failed e r

-- `socks5Handshake`: the bytes written, and the result. `write` is the error of the one write.
answer_methods : Option Error → Read Bytes → Bytes × Read (Unit {0})
unfolding offers_none write_error
answer_methods write (failed e r) = ([], failed e r)
answer_methods write (got m r) =
    if offers_none m
    then (5 ∷ 0 ∷ [], write_error r write)
    else (5 ∷ 0xff ∷ [], failed no_acceptable_auth r)

unfoldable pub handshake : Option Error → Bytes → Bytes × Read (Unit {0})
unfolding read_methods answer_methods
handshake write input = answer_methods write (read_methods input)

pub data Command : Type 0 where
  connect udp_associate : Command
  unsupported : ℕ → Command

-- The `switch` of HandleConn.
unfoldable pub command : ℕ → Command
command cmd = if cmd == 1 then connect else if cmd == 3 then udp_associate else unsupported cmd

module _ (ip_string : Bytes → Bytes) (itoa : ℕ → Bytes) where
  -- `readAddrPort`
  read_host : ℕ → Reader Bytes
  read_host atyp =
      if atyp == 1
      then (do b ← read_full 4; give (ip_string b))
      else (if atyp == 3
          then (do l ← read_full 1; read_full (byte_at l 0))
          else (if atyp == 4 then (do b ← read_full 16; give (ip_string b)) else fail bad_atyp))

  unfoldable pub read_addr_port : ℕ → Reader (Bytes × Bytes)
  unfolding read_host
  read_addr_port atyp = do
    host ← read_host atyp
    pb ← read_full 2
    give (host, itoa (big_endian pb))

  -- `socks5ReadRequest`; `join` is net.JoinHostPort.
  unfoldable pub read_request : (Bytes → Bytes → Bytes) → Reader (ℕ × Bytes)
  unfolding read_addr_port
  read_request join = do
    h ← read_full 4
    fail_if (not (byte_at h 0 == 5)) bad_ver
    (host, port) ← read_addr_port (byte_at h 3)
    give (byte_at h 1, join host port)

-- An address as net.ParseIP and To4 see it.
pub data Ip : Type 0 where
  v4 v6 : Bytes → Ip

-- The address field of a reply.
reply_addr : Bytes → Option Ip → ℕ × Bytes
reply_addr host (some (v4 b)) = (1, b)
reply_addr host (some (v6 b)) = (4, b)
reply_addr host none = (3, (length host % 256) ∷ host)

-- What `socks5Reply` writes, behind net.SplitHostPort (with "0.0.0.0" and "0" in place of an error),
-- net.LookupPort (0 in place of an error) and net.ParseIP.
unfoldable pub reply : ℕ → Bytes → Option Ip → ℕ → Bytes
unfolding reply_addr
reply rep host ip port =
    let a = reply_addr host ip in (5 ∷ rep ∷ 0 ∷ a.0 ∷ []) ++ (a.1 ++ put_uint16 port)

-- How `handleConnect` leaves a CONNECT: in the tunnel, on an upstream and a connection; with the
-- connection closed, where the reply of success could not be written; or after a reply of failure.
pub data Ending : Type 0 where
  tunnel unanswered : ℕ → ℕ → Ending
  refused : Ending

-- `if err := socks5Reply(c, 0x00, ...); err != nil { return }`, behind `defer wsc.Close(...)`: the
-- argument is the error of that write.
after_reply : Option Error → ℕ → ℕ → Ending
after_reply none i c = tunnel i c
after_reply (some e) i c = unanswered i c

module _ (fl : Float) where
  open fl use {F}

  -- The balancer that is left, the code of the reply that is written, and the ending. `acquire` is
  -- the result of AcquireTCPWSForFlow, a connection's number, `reply_error` what socks5Reply returns
  -- for the reply of success, and `later` the time of a failure report. The error of a reply of
  -- failure is discarded.
  connect_with :
      (ℕ → Result ℕ)
      → Option Error
      → ℕ
      → ℕ
      → LoadBalancer F × Result ℕ
      → LoadBalancer F × ℕ × Ending
  unfolding after_reply
  connect_with acquire reply_error later draw (lb, err e) =
      (report_tcp_failure fl lb none e later draw, 4, refused)
  connect_with acquire reply_error later draw (lb, ok i) = elim (acquire i) [
    | err e ↦ (report_tcp_failure fl lb (some i) e later draw, 4, refused)
    | ok c ↦ (lb, 0, after_reply reply_error i c)
  ]

  unfoldable pub handle_connect :
      (ℕ → Result ℕ) → Option Error → LoadBalancer F → ℕ → ℕ → ℕ → LoadBalancer F × ℕ × Ending
  unfolding connect_with
  handle_connect acquire reply_error lb now later draw =
      connect_with acquire reply_error later draw (pick_tcp fl lb now)
