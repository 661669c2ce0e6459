-- ===== src/Probe/Dns/Question.antt =====
-- The question that buildDNSQuery of internal/active_probe.go asks, as a DNS server reads it, and the
-- answer that ProbeUDPQuality waits for.
use outline_cli_ws.Probe.Dns.{trim_dot, split_dots, put_labels, build_dns_query}
use outline_cli_ws.Common.{
  ℕ, zero, suc, ◌/◌, ◌%◌, ◌^◌, ◌<◌, ◌≡◌, refl, false, ◌||◌, List, [], ◌∷◌, ◌++◌, append_assoc,
  length, ltb, ◌==◌, if◌then◌else◌, arith, Bool-cases, inl, inr, stuck,
}
use outline_cli_ws.Common.Bytes.{Bytes, put_uint16, big_endian, big_endian-put_uint16}
use outline_cli_ws.Common.Reader.{
  got, failed, Reader, next, ◌>>=◌, give, read_byte, read_full, read_full-append,
}

-- A DNS name: labels behind their lengths, up to a zero. The number bounds the labels.
read_label : Reader (List Bytes) → ℕ → Reader (List Bytes)
read_label more n = do l ← read_full n; ls ← more; give (l ∷ ls)

pub read_name : ℕ → Reader (List Bytes)
unfolding read_label
read_name zero r = failed stuck r
read_name (suc k) r =
    next (read_byte r)
      (λ n s. let rest = read_label (λ t. read_name k t) n s in if n == 0 then got [] s else rest)

-- The labels of a name that a query can carry.
abbrev pub carried : List Bytes → List Bytes
carried [] = []
carried (l ∷ ls) = if length l == 0 || ltb 63 (length l) then carried ls else l ∷ carried ls

read_name-put_labels :
    (k : ℕ) (ls : List Bytes) (rest : Bytes)
    → length ls < k
    → read_name k (put_labels ls ++ (0 ∷ rest)) ≡ got (carried ls) rest
unfolding read_name read_label put_labels
read_name-put_labels zero ls rest h = absurd (omega arith)
read_name-put_labels (suc k) [] rest h = refl
read_name-put_labels (suc k) (l ∷ ls) rest h =
    elim (Bool-cases (length l == 0 || ltb 63 (length l))) [
      | inl skip ↦ rw (skip, put_labels) (read_name-put_labels (suc k) ls rest (omega arith))
      | inr keep ↦
          let small : length l % 256 ≡ length l = ground arith in
          let some_there : (length l == 0) ≡ false = ground arith in
          rw
            (
              keep,
              put_labels,
              small,
              some_there,
              append_assoc l (put_labels ls) (0 ∷ rest),
              read_full-append l (put_labels ls ++ (0 ∷ rest)) (length l) refl,
              read_name-put_labels k ls rest (omega arith),
            )
            refl
    ]

-- A query as a server takes it apart.
pub record Question : Type 0 where
  pub id : ℕ
  pub flags : ℕ
  pub count : ℕ
  pub labels : List Bytes
  pub behind : Bytes

-- The header, the name and the four bytes behind it.
abbrev pub read_question : ℕ → Reader Question
read_question k = do
  i ← read_full 2
  f ← read_full 2
  c ← read_full 2
  _ ← read_full 6
  ls ← read_name k
  b ← read_full 4
  give (record {
    id = big_endian i;
    flags = big_endian f;
    count = big_endian c;
    labels = ls;
    behind = b;
  })

-- A DNS server that reads the query of buildDNSQuery finds the identifier, one question in it, the
-- labels of the name between its dots that have 1 to 63 bytes, and the type, and nothing behind
-- them, for an identifier below 65536 and a reader that takes more labels than the name has.
pub read_question-build_dns_query :
    (txid : ℕ) (name : Bytes) (qtype k : ℕ)
    → txid < 2 ^ 16
    → length (split_dots (trim_dot name)) < k
    → read_question k (build_dns_query txid name qtype)
      ≡ got
          (record {
            id = txid;
            flags = 0x0100;
            count = 1;
            labels = carried (split_dots (trim_dot name));
            behind = put_uint16 qtype ++ put_uint16 1;
          })
          []
unfolding build_dns_query read_full
read_question-build_dns_query txid name qtype k small enough =
    let ls : List Bytes = split_dots (trim_dot name) in
    let tail : Bytes = 0 ∷ (qtype / 2 ^ 8 % 256) ∷ (qtype % 256) ∷ 0 ∷ 1 ∷ [] in
    let r : Bytes = put_labels ls ++ tail in
    let e : big_endian (put_uint16 txid) ≡ txid = big_endian-put_uint16 txid small in
    let zeros : Bytes = 0 ∷ 0 ∷ 0 ∷ 0 ∷ 0 ∷ 0 ∷ [] in
    rw
      (read_full-append (put_uint16 txid) (put_uint16 0x0100 ++ (put_uint16 1 ++ (zeros ++ r))) 2
        refl)
      (rw (read_full-append (put_uint16 0x0100) (put_uint16 1 ++ (zeros ++ r)) 2 refl) (
        rw (read_full-append (put_uint16 1) (zeros ++ r) 2 refl) (
          rw (read_full-append zeros r 6 refl) (
            rw (read_name-put_labels k ls (put_uint16 qtype ++ put_uint16 1) enough)
              (rw (e) refl)))))
