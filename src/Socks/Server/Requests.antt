-- ===== src/Socks/Server/Requests.antt =====
-- The request of a SOCKS5 client, read from a stream by internal/socks5.go, against the parser of
-- internal/socksaddr.go.
use outline_cli_ws.Common.{short_domain, short_domain_len}
use outline_cli_ws.Common.{
  ℕ, suc, ◌+◌, ◌≡◌, refl, ◌∙◌, inl, inr, true, false, Option, none, some, [], ◌∷◌, arith, ltb, leb,
  ◌==◌, if◌then◌else◌, Bool-cases, length, take, drop, length-drop,
}
use outline_cli_ws.Common.{Result, ok, err}
use outline_cli_ws.Common.Bytes.{Bytes, big_endian}
use outline_cli_ws.Common.Reader.{Read, got, failed, next, ◌>>=◌, give, read_full}
use outline_cli_ws.Common.{drop-add}
use outline_cli_ws.Socks.Addr.{Parsed, slice, byte_at, parse_host, parse_socks_addr_at}
use outline_cli_ws.Socks.Server.{read_host, read_addr_port}

-- The host, the port, and the bytes behind the address.
abbrev pub read_view : Read (Bytes × Bytes) → Option (Bytes × Bytes × Bytes)
read_view (got (host, port) r) = some (host, port, r)
read_view (failed e r) = none

abbrev pub parse_view : Bytes → Result Parsed → Option (Bytes × Bytes × Bytes)
parse_view b (ok p) = some (p.host, p.port, drop p.new_off b)
parse_view b (err e) = none

module _ (ip_string : Bytes → Bytes) (itoa : ℕ → Bytes) where
  -- A field of `n` bytes and the port behind it.
  abbrev framed : (Bytes → Bytes) → ℕ → Bytes → Option (Bytes × Bytes × Bytes)
  framed f n b =
      if leb (n + 2) (length b)
      then some (f (take n b), itoa (big_endian (take 2 (drop n b))), drop (n + 2) b)
      else none

  abbrev with_port : Read Bytes → Read (Bytes × Bytes)
  with_port m = next m (λ host. read_full 2 >>= λ pb. give (host, itoa (big_endian pb)))

  read_field :
      (f : Bytes → Bytes) (n : ℕ) (b : Bytes)
      → read_view (with_port (next (read_full n b) (λ x. give (f x)))) ≡ framed f n b
  unfolding read_full
  read_field f n b = ground (arith, drop-add n 2 b, length-drop n b)

  read_name : (n : ℕ) (b : Bytes) → read_view (with_port (read_full n b)) ≡ framed (λ x. x) n b
  unfolding read_full
  read_name n b = ground (arith, drop-add n 2 b, length-drop n b)

  -- What the parser makes of the host's end, behind ATYP.
  abbrev ended : Bytes → Result (Bytes × ℕ) → Option (Bytes × Bytes × Bytes)
  ended b (ok (host, off)) = some (host, itoa (big_endian (slice b off 2)), drop (off + 2) b)
  ended b (err e) = none

  parse_view-host :
      (atyp : ℕ) (b : Bytes)
      → parse_view (atyp ∷ b) (parse_socks_addr_at ip_string itoa (atyp ∷ b) 0)
        ≡ ended (atyp ∷ b) (parse_host ip_string itoa (atyp ∷ b) atyp 1)
  unfolding parse_socks_addr_at
  parse_view-host atyp b = ground arith

  framed-name :
      (atyp l : ℕ) (b : Bytes)
      → framed (λ x. x) l b
        ≡ ended (atyp ∷ l ∷ b) (
            if ltb (length (atyp ∷ l ∷ b)) (2 + l + 2)
            then err short_domain
            else ok (slice (atyp ∷ l ∷ b) 2 l, 2 + l))
  framed-name atyp l b =
      ground (arith, drop-add 2 l (atyp ∷ l ∷ b), drop-add (2 + l) 2 (atyp ∷ l ∷ b), drop-add l 2 b)

  read_domain :
      (atyp : ℕ) (b : Bytes)
      → read_view (with_port (next (read_full 1 b) (λ l. read_full (byte_at l 0))))
        ≡ ended (atyp ∷ b) (
            if ltb (length (atyp ∷ b)) 2
            then err short_domain_len
            else (if ltb (length (atyp ∷ b)) (2 + byte_at (atyp ∷ b) 1 + 2)
                then err short_domain
                else ok (slice (atyp ∷ b) 2 (byte_at (atyp ∷ b) 1), 2 + byte_at (atyp ∷ b) 1)))
  unfolding read_full
  read_domain atyp [] = refl
  read_domain atyp (l ∷ b) =
      let one : leb 1 (suc (length b)) ≡ true = ground arith in
      let long : ltb (suc (suc (length b))) 2 ≡ false = ground arith in
      rw (one, long) (read_name l b ∙ framed-name atyp l b)

  -- On every input, the SOCKS server reads the address of a request from the stream exactly where
  -- the parser of UDP packets accepts the same bytes behind the type of the address: both fail, or
  -- both give the same host, port and bytes behind them.
  pub read_addr_port-parse :
      (atyp : ℕ) (b : Bytes)
      → read_view (read_addr_port ip_string itoa atyp b)
        ≡ parse_view (atyp ∷ b) (parse_socks_addr_at ip_string itoa (atyp ∷ b) 0)
  unfolding read_addr_port read_host parse_host read_full
  read_addr_port-parse atyp b = elim (Bool-cases (atyp == 1)) [
    | inl t ↦ rw (parse_view-host atyp b, t) (read_field ip_string 4 b ∙ ground arith)
    | inr t ↦ elim (Bool-cases (atyp == 3)) [
      | inl n ↦ rw (parse_view-host atyp b, t, n) (read_domain atyp b)
      | inr n ↦ elim (Bool-cases (atyp == 4)) [
        | inl s ↦ rw (parse_view-host atyp b, t, n, s) (read_field ip_string 16 b ∙ ground arith)
        | inr s ↦ rw (parse_view-host atyp b, t, n, s) refl
      ]
    ]
  ]
