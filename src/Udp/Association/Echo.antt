-- ===== src/Udp/Association/Echo.antt =====
-- A datagram of a client and the answer to it, internal/outline_udp.go.
use outline_cli_ws.Socks.Addr.{Parsed, parse_host, parse_socks_addr_at, byte_at}
use outline_cli_ws.Udp.Association.{
  Association, learn, with_data, plain_of, read_from_client, response, read_from_upstream,
}
use outline_cli_ws.Common.{
  ℕ, ◌+◌, ◌≤◌, ◌≡◌, refl, ap, ◌∙◌, true, false, Option, none, some, ◌∷◌, ◌++◌, drop,
  take-append-drop, drop-append, drop-add, length, ltb, ◌==◌, Result, ok, arith, Option-cases, inl,
  inr,
}
use outline_cli_ws.Common.Bytes.{Bytes}

module _ (ip_string : Bytes → Bytes) (itoa : ℕ → Bytes) where
  abbrev pub shifted : Parsed → Parsed
  shifted p = record p { new_off = p.new_off + 3 }

  -- The address stands three bytes further on in a SOCKS datagram.
  parse_socks_addr_at-shifted :
      (b : Bytes) (p : Parsed)
      → parse_socks_addr_at ip_string itoa b 0 ≡ ok p
      → parse_socks_addr_at ip_string itoa (0 ∷ 0 ∷ 0 ∷ b) 3 ≡ ok (shifted p)
  unfolding parse_socks_addr_at parse_host
  parse_socks_addr_at-shifted b p h = ground (arith)

-- Who answers go to, once a datagram has come from `ua`: the first sender of all.
abbrev pub first_sender : Option ℕ → ℕ → ℕ
first_sender none ua = ua
first_sender (some p) ua = p

learn_lem :
    (ua : ℕ) (a : Association) → (learn (some ua) a).peer_udp ≡ some (first_sender a.peer_udp ua)
unfolding learn
learn_lem ua a = elim (Option-cases a.peer_udp) [
  | inl e ↦ rw (e, learn) refl
  | inr (p, e) ↦ rw (e, learn) e
]

module _ (ip_string : Bytes → Bytes) (itoa : ℕ → Bytes) (join : Bytes → Bytes → Bytes)
    (parse_addr : Bytes → Option Bytes) where
  -- A datagram that is long enough, whole, and for the address `p`.
  pub record Request (pkt : Bytes) (p : Parsed) : Type 0 where
    pub long : 8 ≤ length pkt
    pub reserved : (byte_at pkt 0 ≡ 0) × (byte_at pkt 1 ≡ 0)
    pub whole : byte_at pkt 2 ≡ 0
    pub address : parse_socks_addr_at ip_string itoa pkt 3 ≡ ok p

  -- socks.ParseAddr makes the header `b` of the address of `p`, and the header reads back.
  pub record AddrHeader (p : Parsed) (b : Bytes) : Type 0 where
    pub made : parse_addr (join p.host p.port) ≡ some b
    pub reads :
        (rest : Bytes)
        → parse_socks_addr_at ip_string itoa (b ++ rest) 0
          ≡ ok (record { host = p.host; port = p.port; new_off = length b })

  read_from_client_lem :
      (ua : ℕ) (pkt : Bytes) (a : Association) (p : Parsed) (b : Bytes)
      → Request pkt p
      → AddrHeader p b
      → read_from_client ip_string itoa join parse_addr (some ua) pkt a
        ≡ (learn (some ua) a, some (b ++ drop p.new_off pkt))
  unfolding read_from_client plain_of with_data
  read_from_client_lem ua pkt a p b r h =
      let long : ltb (length pkt) (4 + 2 + 2) ≡ false = ground (arith, r.long) in
      let e0 : (byte_at pkt 0 == 0) ≡ true = ground (arith, r.reserved) in
      let e1 : (byte_at pkt 1 == 0) ≡ true = ground (arith, r.reserved) in
      let e2 : (byte_at pkt 2 == 0) ≡ true = ground (arith, r.whole) in
      rw (long, e0, e1, e2, r.address, plain_of, h.made) refl

  read_from_upstream_lem :
      (b rest : Bytes) (a : Association) (p : Parsed) (peer : ℕ)
      → a.peer_udp ≡ some peer
      → AddrHeader p b
      → read_from_upstream ip_string itoa join parse_addr (b ++ rest) a
        ≡ some (peer, 0 ∷ 0 ∷ 0 ∷ (b ++ rest))
  unfolding read_from_upstream response
  read_from_upstream_lem b rest a p peer e h =
      let q : Parsed = record { host = p.host; port = p.port; new_off = length b } in
      ap (λ (r : Result Parsed). response ip_string itoa join parse_addr (b ++ rest) a.peer_udp r)
        (h.reads rest)
      ∙ ap (λ (o : Option ℕ). response ip_string itoa join parse_addr (b ++ rest) o (ok q)) e
      ∙ ap (λ (d : Bytes). some (peer, 0 ∷ 0 ∷ 0 ∷ d)) (take-append-drop (length b) (b ++ rest))

  -- The answer, as the client reads it.
  pub record Answer (pkt : Bytes) (p : Parsed) (resp : Bytes) : Type 0 where
    pub off : ℕ
    pub same_address :
        parse_socks_addr_at ip_string itoa resp 3
        ≡ ok (record { host = p.host; port = p.port; new_off = off })
    pub same_data : drop off resp ≡ drop p.new_off pkt

  answer_lem : (b rest : Bytes) → drop (length b + 3) (0 ∷ 0 ∷ 0 ∷ (b ++ rest)) ≡ rest
  answer_lem b rest =
      let e : length b + 3 ≡ 3 + length b = omega arith in
      rw e (drop-add 3 (length b) (0 ∷ 0 ∷ 0 ∷ (b ++ rest)) ∙ drop-append b rest)

  -- A whole SOCKS datagram of a client, passed on by readFromClientLoop and echoed by the
  -- upstream, comes back from readFromUpstreamLoop to the first sender of the association with the
  -- same address and the same data, where it has eight bytes at least, its address parses, and
  -- socks.ParseAddr gives a header for that address that parses back.
  pub read_from_upstream-read_from_client :
      (ua : ℕ) (pkt : Bytes) (a : Association) (p : Parsed) (b : Bytes)
      → Request pkt p
      → AddrHeader p b
      → let sent = read_from_client ip_string itoa join parse_addr (some ua) pkt a in
        (plain : Bytes) × (sent.1 ≡ some plain)
        × (resp : Bytes) × (read_from_upstream ip_string itoa join parse_addr plain sent.0
            ≡ some (first_sender a.peer_udp ua, resp))
        × Answer pkt p resp
  read_from_upstream-read_from_client ua pkt a p b r h =
      let rest : Bytes = drop p.new_off pkt in
      let e = read_from_client_lem ua pkt a p b r h in
      rw e (
        b ++ rest,
        refl,
        0 ∷ 0 ∷ 0 ∷ (b ++ rest),
        read_from_upstream_lem b rest (learn (some ua) a) p (first_sender a.peer_udp ua)
            (learn_lem ua a) h,
        record {
          off = length b + 3;
          same_address =
              parse_socks_addr_at-shifted ip_string itoa (b ++ rest)
                (record { host = p.host; port = p.port; new_off = length b }) (h.reads rest);
          same_data = answer_lem b rest;
        },
      )
