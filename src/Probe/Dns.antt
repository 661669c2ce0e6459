-- ===== src/Probe/Dns.antt =====
-- The UDP probe of internal/active_probe.go: buildDNSQuery, and the loop of ProbeUDPQuality over the
-- packets that come back. A name is its bytes; a packet is what the ciphered connection gives.
pub mod Question
pub mod Awaited
use outline_cli_ws.Socks.Addr.{Parsed, parse_socks_addr_at}
use outline_cli_ws.Common.{
  ℕ, ◌/◌, ◌%◌, ◌^◌, Bool, false, not, ◌&&◌, ◌||◌, List, [], ◌∷◌, ◌++◌, take, drop, length, ltb, leb,
  ◌==◌, if◌then◌else◌, Result, ok, err, eof,
}
use outline_cli_ws.Common.Bytes.{Bytes, put_uint16, big_endian}

abbrev pub dot : ℕ
dot = 46

-- strings.TrimSuffix(name, ".")
unfoldable pub trim_dot : Bytes → Bytes
trim_dot [] = []
trim_dot (b ∷ []) = if b == dot then [] else b ∷ []
trim_dot (b ∷ c ∷ bs) = b ∷ trim_dot (c ∷ bs)

-- strings.Split(name, "."), with the part in front of the first dot at the head.
cons_label : ℕ → List Bytes → List Bytes
cons_label b [] = (b ∷ []) ∷ []
cons_label b (l ∷ ls) = (b ∷ l) ∷ ls

unfoldable pub split_dots : Bytes → List Bytes
unfolding cons_label
split_dots [] = [] ∷ []
split_dots (b ∷ bs) = let rest = split_dots bs in if b == dot then [] ∷ rest else cons_label b rest

-- The loop over the labels.
unfoldable pub put_labels : List Bytes → Bytes
put_labels [] = []
put_labels (l ∷ ls) =
    let rest = put_labels ls in
    if length l == 0 || ltb 63 (length l) then rest else (length l % 256) ∷ (l ++ rest)

unfoldable pub build_dns_query : ℕ → Bytes → ℕ → Bytes
unfolding trim_dot split_dots put_labels
build_dns_query txid name qtype =
    (put_uint16 txid ++ (put_uint16 0x0100 ++ (put_uint16 1 ++ (0 ∷ 0 ∷ 0 ∷ 0 ∷ 0 ∷ 0 ∷ []))))
    ++ (put_labels (split_dots (trim_dot name))
        ++ (0 ∷ (qtype / 2 ^ 8 % 256) ∷ (qtype % 256) ∷ 0 ∷ 1 ∷ []))

-- The tests on the DNS part of a packet: its length, its id and the bit QR.
unfoldable pub is_answer : ℕ → Bytes → Bool
is_answer txid dns =
    not (ltb (length dns) 12)
    && (big_endian (take 2 dns) == txid && big_endian (take 2 (drop 2 dns)) / 2 ^ 15 % 2 == 1)

module _ (ip_string : Bytes → Bytes) (itoa : ℕ → Bytes) where
  -- A round: whether the packet ends the loop.
  unfoldable pub answers : ℕ → Bytes → Result Parsed → Bool
  unfolding is_answer
  answers txid p (err e) = false
  answers txid p (ok a) = not (leb (length p) a.new_off) && is_answer txid (drop a.new_off p)

  -- The loop over what ReadFrom gives; at the end of the list the connection has no more to give.
  unfoldable pub await_answer : ℕ → List (Result Bytes) → Result (Unit {0})
  unfolding answers
  await_answer txid [] = err eof
  await_answer txid (err e ∷ rs) = err e
  await_answer txid (ok p ∷ rs) =
      let rest = await_answer txid rs in
      if answers txid p (parse_socks_addr_at ip_string itoa p 0) then ok tt else rest
