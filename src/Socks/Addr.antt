-- ===== src/Socks/Addr.antt =====
-- `parseSocksAddrAt` of internal/socksaddr.go and `parseAddrKeyFromPlain` of
-- internal/outline_udp_session.go: ATYP, address, port. The texts that net.IP.String and
-- strconv.Itoa make are parameters.
pub mod Laws
use outline_cli_ws.Common.{short, short_ipv4, short_domain_len, short_domain, short_ipv6, bad_atyp}
use outline_cli_ws.Common.{
  ℕ, zero, suc, ◌+◌, ◌-◌, ◌*◌, ◌/◌, ◌%◌, ◌^◌, ◌≤◌, ◌<◌, min, bit_and, bit_or, bit_xor, ◌≡◌, refl,
  sym, ap, ◌∙◌, subst, ◌≢◌, ◌↔◌, ◌⊎◌, inl, inr, Bool, true, false, not, ◌&&◌, ◌||◌, Option, none,
  some, List, [], ◌∷◌, ◌++◌, map, foldl, append-nil, append_assoc, arith, ltb, leb, ◌==◌,
  if◌then◌else◌, ==_iff, leb→le, Bool-cases, Option-cases, is_some, length, get_elem?, get_or, set,
  take, drop, All, length-append, take-append, drop-append, length-set, get_elem?-set_self,
  get_elem?-set_ne, length-drop, take-append-drop, get_elem?-some-lt, All-get_or, All-append,
}
use outline_cli_ws.Common.{Error, Result, ok, err}
use outline_cli_ws.Common.{◌>>=◌, ◌>>◌, fail_if, >>=-eq-ok}
use outline_cli_ws.Common.Bytes.{
  Bytes, IsByte, put_uint16, put_uint64, big_endian, big_endian-put_uint16, big_endian-put_uint64,
}

-- b[off : off+n], behind a test that the bytes are there.
abbrev pub slice : Bytes → ℕ → ℕ → Bytes
slice b off n = take n (drop off b)

-- b[off], behind such a test.
abbrev pub byte_at : Bytes → ℕ → ℕ
byte_at b off = get_or b off 0

pub record Parsed : Type 0 where
  pub host : Bytes
  pub port : Bytes
  pub new_off : ℕ

module _ (ip_string : Bytes → Bytes) (itoa : ℕ → Bytes) where
  -- The switch over ATYP: the host, and the offset of the port. `off` is behind ATYP.
  unfoldable pub parse_host : Bytes → ℕ → ℕ → Result (Bytes × ℕ)
  parse_host b atyp off =
      if atyp == 1
      then (if ltb (length b) (off + 4 + 2)
          then err short_ipv4
          else ok (ip_string (slice b off 4), off + 4))
      else (if atyp == 3
          then (if ltb (length b) (off + 1)
              then err short_domain_len
              else (let l : ℕ = byte_at b off in
                  if ltb (length b) (off + 1 + l + 2)
                  then err short_domain
                  else ok (slice b (off + 1) l, off + 1 + l)))
          else (if atyp == 4
              then (if ltb (length b) (off + 16 + 2)
                  then err short_ipv6
                  else ok (ip_string (slice b off 16), off + 16))
              else err bad_atyp))

  unfoldable pub parse_socks_addr_at : Bytes → ℕ → Result Parsed
  unfolding parse_host
  parse_socks_addr_at b off = if ltb (length b) (off + 1) then err short else (do
    (host, off') ← parse_host b (byte_at b off) (off + 1)
    ok (record { host = host; port = itoa (big_endian (slice b off' 2)); new_off = off' + 2 }))

-- `ip` has sixteen bytes, of which an IPv4 address takes the first four.
pub record AddrKey : Type 0 where
  pub atyp : ℕ
  pub ip : Bytes
  pub port : ℕ
  pub domain : Bytes

abbrev pub no_ip : Bytes
no_ip = 0 ∷ 0 ∷ 0 ∷ 0 ∷ 0 ∷ 0 ∷ 0 ∷ 0 ∷ 0 ∷ 0 ∷ 0 ∷ 0 ∷ 0 ∷ 0 ∷ 0 ∷ 0 ∷ []

-- `uint16(plain[off])<<8 | uint16(plain[off+1])`
unfoldable pub with_port : Bytes → AddrKey → ℕ → AddrKey × ℕ
with_port plain k off =
    (record k { port = byte_at plain off * 256 + byte_at plain (off + 1) }, off + 2)

-- `none` is the result with `ok` false.
unfoldable pub parse_addr_key : Bytes → Option (AddrKey × ℕ)
unfolding with_port
parse_addr_key plain =
    if ltb (length plain) 1
    then none
    else (let t : ℕ = byte_at plain 0 in
        if t == 1
        then (if ltb (length plain) (1 + 4 + 2)
            then none
            else some (
                with_port plain
                  (record { atyp = t; ip = slice plain 1 4 ++ drop 4 no_ip; port = 0; domain = [] })
                  (1 + 4)))
        else (if t == 4
            then (if ltb (length plain) (1 + 16 + 2)
                then none
                else some (
                    with_port plain
                      (record { atyp = t; ip = slice plain 1 16; port = 0; domain = [] }) (1 + 16)))
            else (if t == 3
                then (if ltb (length plain) (1 + 1)
                    then none
                    else (let l : ℕ = byte_at plain 1 in
                        if ltb (length plain) (2 + l + 2)
                        then none
                        else some (
                            with_port plain
                              (record { atyp = t; ip = no_ip; port = 0; domain = slice plain 2 l })
                              (2 + l))))
                else none)))
