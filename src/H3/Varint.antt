-- ===== src/H3/Varint.antt =====
-- QUIC's variable-length integers: `appendVarint` and `readVarint` of internal/ws_h3.go.
use outline_cli_ws.Common.Bits.{or_0x40, or_0x80, or_0xc0, and_low_six}
use outline_cli_ws.Common.{
  ℕ, suc, ◌+◌, ◌-◌, ◌*◌, ◌/◌, ◌%◌, ◌^◌, ◌≤◌, ◌<◌, bit_and, bit_or, ◌≡◌, refl, sym, ap, ◌∙◌, inl,
  inr, true, [], ◌∷◌, ◌++◌, arith, ltb, leb, if◌then◌else◌, Bool-cases, length, get_or,
}
use outline_cli_ws.Common.Bytes.{Bytes}
use outline_cli_ws.Common.Reader.{got, Reader, ◌>>=◌, give, read_full, read_full-append}

-- A uint64 that a varint can hold.
abbrev pub max_varint : ℕ
max_varint = 2 ^ 62

-- `byte(x)` keeps the low eight bits, and `(v>>8)|0x40` is taken before it.
unfoldable pub append_varint : Bytes → ℕ → Bytes
append_varint b v =
    if leb v 63
    then b ++ ((v % 256) ∷ [])
    else (if leb v 16383
        then b ++ ((bit_or (v / 2 ^ 8) 0x40 % 256) ∷ (v % 256) ∷ [])
        else (if leb v 1073741823
            then b
              ++ ((bit_or (v / 2 ^ 24) 0x80 % 256)
                  ∷ (v / 2 ^ 16 % 256)
                  ∷ (v / 2 ^ 8 % 256)
                  ∷ (v % 256)
                  ∷ [])
            else b
              ++ ((bit_or (v / 2 ^ 56) 0xc0 % 256)
                  ∷ (v / 2 ^ 48 % 256)
                  ∷ (v / 2 ^ 40 % 256)
                  ∷ (v / 2 ^ 32 % 256)
                  ∷ (v / 2 ^ 24 % 256)
                  ∷ (v / 2 ^ 16 % 256)
                  ∷ (v / 2 ^ 8 % 256)
                  ∷ (v % 256)
                  ∷ [])))

-- `for _, b := range buf { v = (v << 8) | uint64(b) }`: the low eight bits are zero before the or.
abbrev pub shift_in : ℕ → Bytes → ℕ
shift_in v [] = v
shift_in v (b ∷ bs) = shift_in (v * 256 % 2 ^ 64 + b) bs

-- The first byte says in its two top bits how many bytes follow: 0, 1, 3 or 7.
read_tail : ℕ → Reader ℕ
read_tail b0 = do
  let n : ℕ = 2 ^ (b0 / 2 ^ 6)
  tail ← (if ltb 1 n then read_full (n - 1) else give [])
  give (shift_in 0 (bit_and b0 0x3f ∷ tail))

unfoldable pub read_varint : Reader ℕ
unfolding read_tail
read_varint = do first ← read_full 1; read_tail (get_or first 0 0)

-- A first byte `b0` with the size bits of n + 1 and `x` in its low bits, and n bytes behind it.
read_tail_lem :
    (b0 x n : ℕ) (tail rest : Bytes)
    → 2 ^ (b0 / 2 ^ 6) ≡ suc (suc n)
    → b0 < 256
    → b0 % 64 ≡ x
    → length tail ≡ suc n
    → read_tail b0 (tail ++ rest) ≡ got (shift_in x tail) rest
unfolding read_tail
read_tail_lem b0 x n tail rest e h m l =
    let size : suc (suc n) - 1 ≡ suc n = omega arith in
    let many : ltb 1 (suc (suc n)) ≡ true = ground arith in
    let start : 0 + x ≡ x = omega arith in
    rw (e, many, size, read_full-append tail rest (suc n) (sym l), and_low_six b0 h, m)
      (ap (λ (v : ℕ). got (shift_in v tail) rest) (omega arith))

one_byte : (v : ℕ) (rest : Bytes) → v < 64 → read_tail (v % 256) rest ≡ got v rest
unfolding read_tail
one_byte v rest h =
    let low : v % 256 ≡ v = omega arith in
    let size : v / 2 ^ 6 ≡ 0 = omega arith in
    rw (low, size, and_low_six v (omega arith)) (ap (λ (x : ℕ). got x rest) (omega arith))

two_bytes :
    (v : ℕ) (rest : Bytes)
    → v ≤ 16383
    → read_tail (bit_or (v / 2 ^ 8) 0x40 % 256) (((v % 256) ∷ []) ++ rest) ≡ got v rest
two_bytes v rest h = rw (or_0x40 (v / 2 ^ 8) (omega arith)) (
    let size : ((v / 2 ^ 8 + 64) % 256) / 2 ^ 6 ≡ 1 = omega arith in
    read_tail_lem ((v / 2 ^ 8 + 64) % 256) (v / 2 ^ 8) 0 ((v % 256) ∷ []) rest (rw size refl)
      (omega arith) (omega arith) refl
    ∙ ap (λ (x : ℕ). got x rest) (omega arith))

four_bytes :
    (v : ℕ) (rest : Bytes)
    → v ≤ 1073741823
    → read_tail
        (bit_or (v / 2 ^ 24) 0x80 % 256)
        (((v / 2 ^ 16 % 256) ∷ (v / 2 ^ 8 % 256) ∷ (v % 256) ∷ []) ++ rest)
      ≡ got v rest
four_bytes v rest h = rw (or_0x80 (v / 2 ^ 24) (omega arith)) (
    let size : ((v / 2 ^ 24 + 128) % 256) / 2 ^ 6 ≡ 2 = omega arith in
    read_tail_lem ((v / 2 ^ 24 + 128) % 256) (v / 2 ^ 24) 2
      ((v / 2 ^ 16 % 256) ∷ (v / 2 ^ 8 % 256) ∷ (v % 256) ∷ []) rest (rw size refl) (omega arith)
      (omega arith) refl
    ∙ ap (λ (x : ℕ). got x rest) (omega arith))

eight_bytes :
    (v : ℕ) (rest : Bytes)
    → v < max_varint
    → read_tail (bit_or (v / 2 ^ 56) 0xc0 % 256) (
        ((v / 2 ^ 48 % 256)
          ∷ (v / 2 ^ 40 % 256)
          ∷ (v / 2 ^ 32 % 256)
          ∷ (v / 2 ^ 24 % 256)
          ∷ (v / 2 ^ 16 % 256)
          ∷ (v / 2 ^ 8 % 256)
          ∷ (v % 256)
          ∷ [])
        ++ rest)
      ≡ got v rest
eight_bytes v rest h = rw (or_0xc0 (v / 2 ^ 56) (omega arith)) (
    let size : ((v / 2 ^ 56 + 192) % 256) / 2 ^ 6 ≡ 3 = omega arith in
    read_tail_lem ((v / 2 ^ 56 + 192) % 256) (v / 2 ^ 56) 6
      ((v / 2 ^ 48 % 256)
        ∷ (v / 2 ^ 40 % 256)
        ∷ (v / 2 ^ 32 % 256)
        ∷ (v / 2 ^ 24 % 256)
        ∷ (v / 2 ^ 16 % 256)
        ∷ (v / 2 ^ 8 % 256)
        ∷ (v % 256)
        ∷ [])
      rest (rw size refl) (omega arith) (omega arith) refl
    ∙ ap (λ (x : ℕ). got x rest) (omega arith))

read_varint-cons : (b0 : ℕ) (r : Bytes) → read_varint (b0 ∷ r) ≡ read_tail b0 r
unfolding read_varint
read_varint-cons b0 r = rw (read_full-append (b0 ∷ []) r 1 refl)

-- readVarint reads back every integer below 2 ^ 62 that appendVarint wrote, and leaves what
-- follows it on the stream.
pub read_varint-append_varint :
    (v : ℕ) (rest : Bytes) → v < max_varint → read_varint (append_varint [] v ++ rest) ≡ got v rest
unfolding append_varint
read_varint-append_varint v rest h = elim (Bool-cases (leb v 63)) [
  | inl a ↦ rw a (read_varint-cons _ _ ∙ one_byte v rest (ground arith))
  | inr a ↦ rw a (elim (Bool-cases (leb v 16383)) [
    | inl b ↦ rw b (read_varint-cons _ _ ∙ two_bytes v rest (ground arith))
    | inr b ↦ rw b (elim (Bool-cases (leb v 1073741823)) [
      | inl c ↦ rw c (read_varint-cons _ _ ∙ four_bytes v rest (ground arith))
      | inr c ↦ rw c (read_varint-cons _ _ ∙ eight_bytes v rest h)
    ])
  ])
]

-- Every encoding starts with the bytes it is appended to.
pub append_varint_lem : (b : Bytes) (v : ℕ) → append_varint b v ≡ b ++ append_varint [] v
unfolding append_varint
append_varint_lem b v = ground arith

pub length-append_varint : (v : ℕ) → 1 ≤ length (append_varint [] v)
unfolding append_varint
length-append_varint v = ground arith
