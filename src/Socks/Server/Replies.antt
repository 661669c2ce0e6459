-- ===== src/Socks/Server/Replies.antt =====
-- The reply of the SOCKS5 server, internal/socks5.go, read by a parser of addresses.
use outline_cli_ws.Common.{
  ℕ, ◌%◌, ◌^◌, ◌<◌, ◌≡◌, refl, Option, none, some, ◌∷◌, ◌++◌, arith, length, take, drop,
  length-append, take-append, drop-append,
}
use outline_cli_ws.Common.{ok}
use outline_cli_ws.Common.Bytes.{Bytes, put_uint16, big_endian-put_uint16}
use outline_cli_ws.Common.{drop-add}
use outline_cli_ws.Socks.Addr.{parse_host, parse_socks_addr_at}
use outline_cli_ws.Socks.Server.{Ip, v4, v6, reply_addr, reply}

-- Four bytes, sixteen, or a name whose length fits one.
abbrev pub Fits : Bytes → Option Ip → Type 0
Fits host (some (v4 b)) = length b ≡ 4
Fits host (some (v6 b)) = length b ≡ 16
Fits host none = length host < 256

-- A field and the two bytes of a port behind it.
front : (b : Bytes) (n port : ℕ) → length b ≡ n → take n (b ++ put_uint16 port) ≡ b
front b n port e = rw (← e) (take-append b (put_uint16 port))

back : (b : Bytes) (n port : ℕ) → length b ≡ n → drop n (b ++ put_uint16 port) ≡ put_uint16 port
back b n port e = rw (← e) (drop-append b (put_uint16 port))

module _ (ip_string : Bytes → Bytes) (itoa : ℕ → Bytes) where
  abbrev pub text : Bytes → Option Ip → Bytes
  text host (some (v4 b)) = ip_string b
  text host (some (v6 b)) = ip_string b
  text host none = host

  -- A reply of the SOCKS server, parsed at its address by the parser of UDP packets, gives back
  -- the address and the port and ends where the reply ends, for a port below 65536 and an IP
  -- address of four or sixteen bytes or a name below 256 bytes.
  pub parse_socks_addr_at-reply :
      (rep : ℕ) (host : Bytes) (ip : Option Ip) (port : ℕ)
      → Fits host ip
      → port < 2 ^ 16
      → parse_socks_addr_at ip_string itoa (reply rep host ip port) 3
        ≡ ok (record {
          host = text host ip;
          port = itoa port;
          new_off = length (reply rep host ip port);
        })
  unfolding parse_socks_addr_at parse_host reply reply_addr
  parse_socks_addr_at-reply rep host (some (v4 b)) port f p = ground (
    arith,
    length-append b (put_uint16 port),
    front b 4 port f,
    back b 4 port f,
    big_endian-put_uint16 port p,
  )
  parse_socks_addr_at-reply rep host (some (v6 b)) port f p = ground (
    arith,
    length-append b (put_uint16 port),
    front b 16 port f,
    back b 16 port f,
    big_endian-put_uint16 port p,
  )
  parse_socks_addr_at-reply rep host none port f p =
      let short_name : length host % 256 ≡ length host = omega arith in
      rw short_name (
        ground (
          arith,
          length-append host (put_uint16 port),
          front host (length host) port refl,
          back host (length host) port refl,
          drop-add 5 (length host) (5 ∷ rep ∷ 0 ∷ 3 ∷ length host ∷ (host ++ put_uint16 port)),
          big_endian-put_uint16 port p,
        ))
