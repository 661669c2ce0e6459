-- ===== src/Socks/Addr/Laws.antt =====
-- `parseSocksAddrAt` and `parseAddrKeyFromPlain`: the offsets that they return, and the one against
-- the other.
use outline_cli_ws.Common.{
  ℕ, zero, suc, ◌+◌, ◌*◌, ◌≤◌, ◌≡◌, inl, inr, Option, none, some, [], ◌∷◌, arith, ltb, Bool-cases,
  length,
}
use outline_cli_ws.Common.{Result, ok, err}
use outline_cli_ws.Common.{>>=-eq-ok}
use outline_cli_ws.Common.Bytes.{Bytes, big_endian}
use outline_cli_ws.Socks.Addr.{
  slice, byte_at, Parsed, parse_socks_addr_at, AddrKey, with_port, parse_addr_key, parse_host,
}

module _ (ip_string : Bytes → Bytes) (itoa : ℕ → Bytes) where
  -- The offset that `parse_host` gives leaves two bytes for the port.
  host_bounds :
      (b : Bytes) (atyp off : ℕ) (host : Bytes) (off' : ℕ)
      → parse_host ip_string itoa b atyp off ≡ ok (host, off')
      → (off + 1 ≤ off') × (off' + 2 ≤ length b)
  unfolding parse_host
  host_bounds b atyp off host off' h = ground arith

  -- Where an address parses, the offset behind it is at least four bytes on, and not past the end
  -- of the packet.
  pub parse_socks_addr_at_bounds :
      (b : Bytes) (off : ℕ) (p : Parsed)
      → parse_socks_addr_at ip_string itoa b off ≡ ok p
      → (off + 4 ≤ p.new_off) × (p.new_off ≤ length b)
  unfolding parse_socks_addr_at
  parse_socks_addr_at_bounds b off p h = elim (Bool-cases (ltb (length b) (off + 1))) [
    | inl short ↦ cc (rw short at h)
    | inr long ↦
        let ((host, off'), e, q) =
          >>=-eq-ok (parse_host ip_string itoa b (byte_at b off) (off + 1))
            (λ (host, off'). ok (record {
              host = host;
              port = itoa (big_endian (slice b off' 2));
              new_off = off' + 2;
            }))
            (rw long at h) in
        let (l, u) = host_bounds b (byte_at b off) (off + 1) host off' e in ground (arith, q)
  ]

pair_at :
    (b : Bytes) (off : ℕ)
    → off + 2 ≤ length b
    → big_endian (slice b off 2) ≡ byte_at b off * 256 + byte_at b (off + 1)
pair_at [] off h = omega arith
pair_at (x ∷ []) off h = omega arith
pair_at (x ∷ y ∷ b) zero h = omega arith
pair_at (x ∷ y ∷ b) (suc off) h =
    let e : suc off + 1 ≡ suc (off + 1) = omega arith in rw e (pair_at (y ∷ b) off (omega arith))

-- What a caller of either parser goes on with: the port and the offset of the data.
abbrev pub key_view : (ℕ → Bytes) → Option (AddrKey × ℕ) → Option (Bytes × ℕ)
key_view itoa none = none
key_view itoa (some (k, off)) = some (itoa k.port, off)

abbrev pub parsed_view : Result Parsed → Option (Bytes × ℕ)
parsed_view (err e) = none
parsed_view (ok p) = some (p.port, p.new_off)

module _ (ip_string : Bytes → Bytes) (itoa : ℕ → Bytes) where
  -- The parser of the UDP session and the parser of the SOCKS server accept the same packets, and
  -- read the same port and the same offset of the data.
  pub parsers_agree :
      (b : Bytes)
      → key_view itoa (parse_addr_key b) ≡ parsed_view (parse_socks_addr_at ip_string itoa b 0)
  unfolding parse_addr_key parse_socks_addr_at parse_host with_port
  parsers_agree b = ground (arith, pair_at b 5, pair_at b 17, pair_at b (2 + byte_at b 1))
