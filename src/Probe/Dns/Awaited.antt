-- ===== src/Probe/Dns/Awaited.antt =====
-- The packets that end the wait of ProbeUDPQuality, internal/active_probe.go.
use outline_cli_ws.Socks.Addr.{Parsed, parse_socks_addr_at}
use outline_cli_ws.Probe.Dns.{is_answer, answers, await_answer}
use outline_cli_ws.Common.{
  ℕ, ◌^◌, ◌≤◌, ◌<◌, ◌≡◌, refl, ◌∙◌, false, ◌&&◌, List, [], ◌∷◌, ◌++◌, arith, leb, ◌==◌,
  if◌then◌else◌, length, drop, All, length-append, drop-append,
}
use outline_cli_ws.Common.{Result, ok, err}
use outline_cli_ws.Common.Bytes.{Bytes, put_uint16, big_endian, big_endian-put_uint16}

-- A message of DNS: identifier, flags and the rest.
abbrev pub message : ℕ → ℕ → Bytes → Bytes
message id flags body = put_uint16 id ++ (put_uint16 flags ++ body)

-- The identifier is that of the query, and the bit QR is set.
is_answer-message :
    (txid id flags : ℕ) (body : Bytes)
    → id < 2 ^ 16
    → flags < 2 ^ 16
    → 8 ≤ length body
    → is_answer txid (message id flags body) ≡ (id == txid && leb (2 ^ 15) flags)
unfolding is_answer
is_answer-message txid id flags body i f l =
    let same : big_endian (put_uint16 id) ≡ id = big_endian-put_uint16 id i in
    let bits : big_endian (put_uint16 flags) ≡ flags = big_endian-put_uint16 flags f in
    ground (arith, same, bits)

module _ (ip_string : Bytes → Bytes) (itoa : ℕ → Bytes) where
  -- A packet that does not end the wait, and no error.
  abbrev pub Passed : ℕ → Result Bytes → Type 0
  Passed txid (err e) = ⊥
  Passed txid (ok p) =
      answers ip_string itoa txid p (parse_socks_addr_at ip_string itoa p 0) ≡ false

  await_answer-Passed :
      (txid : ℕ) (others rs : List (Result Bytes))
      → All (Passed txid) others
      → await_answer ip_string itoa txid (others ++ rs) ≡ await_answer ip_string itoa txid rs
  unfolding await_answer
  await_answer-Passed txid [] rs h = refl
  await_answer-Passed txid (err e ∷ others) rs h = elim h.0 [ ]
  await_answer-Passed txid (ok p ∷ others) rs h = rw h.0 (await_answer-Passed txid others rs h.1)

  -- Behind packets that do not end the wait of ProbeUDPQuality and are no errors, a packet with an
  -- address and a DNS message behind it ends the wait with success exactly where the identifier is
  -- that of the query and the bit QR is set, and otherwise the wait goes on with the packets that
  -- follow; the identifier and the flags are below 65536, and the message has twelve bytes at
  -- least.
  pub await_answer-message :
      (txid id flags : ℕ) (body b : Bytes) (a : Parsed) (others rest : List (Result Bytes))
      → id < 2 ^ 16
      → flags < 2 ^ 16
      → 8 ≤ length body
      → parse_socks_addr_at ip_string itoa (b ++ message id flags body) 0 ≡ ok a
      → a.new_off ≡ length b
      → All (Passed txid) others
      → await_answer ip_string itoa txid (others ++ (ok (b ++ message id flags body) ∷ rest)) ≡ (
          if id == txid && leb (2 ^ 15) flags then ok tt else await_answer ip_string itoa txid rest)
  unfolding await_answer answers
  await_answer-message txid id flags body b a others rest i f l p o h =
      let dns : Bytes = message id flags body in
      let behind : drop a.new_off (b ++ dns) ≡ dns = rw o (drop-append b dns) in
      let inside : leb (length (b ++ dns)) a.new_off ≡ false =
        ground (arith, length-append b dns, o) in
      await_answer-Passed txid others (ok (b ++ dns) ∷ rest) h
      ∙ rw (p, inside, behind, is_answer-message txid id flags body i f l) refl
