-- ===== src/H3/Qpack/Ints.antt =====
-- Prefixed integers: `appendPrefixedInt` and `readPrefixedIntWithFirst`. An int64 is its bit pattern,
-- a number below 2 ^ 64; the patterns from 2 ^ 63 on are the negative numbers.
use outline_cli_ws.Common.{qpack_failed}
use native.Mathlib.Nat.{div-add-mod}
use native.Mathlib.Numerals.{towards_suc}
use outline_cli_ws.Common.Bits.{and_low_seven, and_top_bit}
use outline_cli_ws.Common.{
  ℕ, zero, suc, ◌+◌, ◌-◌, ◌*◌, ◌/◌, ◌%◌, ◌^◌, ◌≤◌, ◌<◌, bit_and, bit_or, ◌≡◌, refl, ap, ◌∙◌, inl,
  inr, true, false, not, [], ◌∷◌, ◌++◌, arith, ltb, leb, ◌==◌, if◌then◌else◌, ==_iff, Bool-cases,
}
use outline_cli_ws.Common.Bytes.{Bytes}
use outline_cli_ws.Common.Reader.{got, failed, Reader, give}

-- `for v >= 128 { append(byte(v%128 + 128)); v /= 128 }` and the last byte, for v below 128 ^ (k + 1).
unfoldable pub append_groups : ℕ → ℕ → Bytes
append_groups zero v = (v % 256) ∷ []
append_groups (suc k) v =
    let rest = append_groups k (v / 128) in
    if leb 128 v then (v % 128 + 128) % 256 ∷ rest else (v % 256) ∷ []

-- What `appendPrefixedInt` appends. Nine groups hold each int64 that is not negative.
unfoldable pub prefixed_int : ℕ → ℕ → ℕ → Bytes
prefixed_int first prefix v =
    let mask : ℕ = 2 ^ prefix - 1 in
    if ltb v mask
    then bit_or first (v % 256) ∷ []
    else bit_or first (mask % 256) ∷ append_groups 8 (v - mask)

-- `v += int64(x&127) << m` in the loop of `readPrefixedIntWithFirst`.
abbrev pub add_group : ℕ → ℕ → ℕ → ℕ
add_group v x m = (v + bit_and x 127 * 2 ^ m % 2 ^ 64) % 2 ^ 64

unfoldable pub read_groups : ℕ → ℕ → Reader ℕ
read_groups v m [] = failed qpack_failed []
read_groups v m (x ∷ r) =
    let rest = read_groups (add_group v x m) (m + 7) r in
    if bit_and x 128 == 0 then got (add_group v x m) r else rest

-- `b` is the byte that has been read already.
unfoldable pub read_int_with_first : ℕ → ℕ → Reader ℕ
unfolding read_groups
read_int_with_first b prefix =
    let mask : ℕ = (2 ^ prefix - 1) % 256 in
    let v : ℕ = bit_and b mask in if not (v == mask) then give v else read_groups v 0

unfoldable pub read_int : ℕ → Reader ℕ
unfolding read_int_with_first
read_int prefix [] = failed qpack_failed []
read_int prefix (b ∷ r) = read_int_with_first b prefix r

-- One round of the reading loop on the last byte, and on one that has the top bit set.
last_group :
    (x v m : ℕ) (rest : Bytes)
    → x < 128
    → v + x * 2 ^ m < 2 ^ 64
    → read_groups v m (x ∷ rest) ≡ got (v + x * 2 ^ m) rest
unfolding read_groups
last_group x v m rest h fits =
    rw (and_low_seven x (omega arith), and_top_bit x (omega arith)) (ground arith)

inner_group :
    (x v m : ℕ) (rest : Bytes)
    → x < 128
    → v + x * 2 ^ m < 2 ^ 64
    → read_groups v m ((x + 128) ∷ rest) ≡ read_groups (v + x * 2 ^ m) (m + 7) rest
unfolding read_groups
inner_group x v m rest h fits =
    let top : ((x + 128) / 128 * 128 == 0) ≡ false = ground arith in
    let low : (x + 128) % 128 ≡ x = omega arith in
    let sum : (v + x * 2 ^ m % 2 ^ 64) % 2 ^ 64 ≡ v + x * 2 ^ m = omega arith in
    rw (and_low_seven (x + 128) (omega arith), and_top_bit (x + 128) (omega arith), top, low)
      (ap (λ (t : ℕ). read_groups t (m + 7) rest) sum)

shift_seven : (m : ℕ) → 2 ^ (m + 7) ≡ 128 * 2 ^ m
shift_seven m = simp towards_suc (omega arith)

-- `w` split into its lowest group and the rest, both shifted by `m`.
split_shift : (w m : ℕ) → w * 2 ^ m ≡ w % 128 * 2 ^ m + w / 128 * 2 ^ (m + 7)
split_shift w m = omega (
  arith,
  ap (λ (t : ℕ). t * 2 ^ m) (div-add-mod w 128),
  ap (λ (t : ℕ). w / 128 * t) (shift_seven m),
)

-- The reader makes any pattern of 64 bits again from its groups, the sign bit included.
pub read_groups-append_groups :
    (k w v m : ℕ) (rest : Bytes)
    → w < 128 ^ suc k
    → v + w * 2 ^ m < 2 ^ 64
    → read_groups v m (append_groups k w ++ rest) ≡ got (v + w * 2 ^ m) rest
unfolding append_groups
read_groups-append_groups zero w v m rest h fits =
    let low : w % 256 ≡ w = omega arith in rw low (last_group w v m rest (omega arith) fits)
read_groups-append_groups (suc k) w v m rest h fits = elim (Bool-cases (leb 128 w)) [
  | inl big ↦
      let top : (w % 128 + 128) % 256 ≡ w % 128 + 128 = omega arith in
      let fits' : v + w % 128 * 2 ^ m < 2 ^ 64 = omega (arith, split_shift w m) in
      rw (big, top)
        (inner_group (w % 128) v m _ (omega arith) fits'
          ∙ read_groups-append_groups k (w / 128) (v + w % 128 * 2 ^ m) (m + 7) rest (omega arith)
              (omega (arith, split_shift w m))
          ∙ ap (λ (t : ℕ). got t rest) (omega (arith, split_shift w m)))
  | inr small ↦
      let below : w < 128 = ground arith in
      let low : w % 256 ≡ w = omega arith in rw (small, low) (last_group w v m rest below fits)
]

-- The flags `first` leave the prefix free: the reader gets back the low bits that are put there.
pub record Splits (first prefix : ℕ) : Type 0 where
  pub fits : 2 ^ prefix ≤ 256
  pub some_bit : 2 ≤ 2 ^ prefix
  pub low : (x : ℕ) → x < 2 ^ prefix → bit_and (bit_or first x) ((2 ^ prefix - 1) % 256) ≡ x

-- The reader of prefixed integers gets every non-negative int64 back from what the writer made of
-- it, and leaves what follows it; the bits of the first byte above the prefix do not disturb the
-- prefix.
pub read_int_with_first-prefixed_int :
    (first prefix v : ℕ) (rest : Bytes)
    → Splits first prefix
    → v < 2 ^ 63
    → (low : ℕ) × (tail : Bytes) × (low < 2 ^ prefix)
      × (prefixed_int first prefix v ≡ bit_or first low ∷ tail)
      × (read_int_with_first (bit_or first low) prefix (tail ++ rest) ≡ got v rest)
unfolding prefixed_int read_int_with_first
read_int_with_first-prefixed_int first prefix v rest s h =
    elim (Bool-cases (ltb v (2 ^ prefix - 1))) [
      | inl short ↦
          let below : v < 2 ^ prefix - 1 = ground arith in
          let byte : v % 256 ≡ v = omega (arith, s.fits) in
          let mask : (2 ^ prefix - 1) % 256 ≡ 2 ^ prefix - 1 = omega (arith, s.fits) in
          let other : (v == 2 ^ prefix - 1) ≡ false = ground arith in
          (v, [], omega arith, rw (short, byte), rw (s.low v (omega arith), mask, other))
      | inr long ↦
          let mask : (2 ^ prefix - 1) % 256 ≡ 2 ^ prefix - 1 = omega (arith, s.fits, s.some_bit) in
          let above : 2 ^ prefix - 1 ≤ v = ground arith in
          let same : (2 ^ prefix - 1 == 2 ^ prefix - 1) ≡ true = (==_iff _ _).1 refl in
          let start : bit_and (bit_or first (2 ^ prefix - 1)) (2 ^ prefix - 1) ≡ 2 ^ prefix - 1 =
            rw mask at (s.low (2 ^ prefix - 1) (omega (arith, s.some_bit))) in
          (
            2 ^ prefix - 1,
            append_groups 8 (v - (2 ^ prefix - 1)),
            omega (arith, s.some_bit),
            rw (long, mask),
            rw (mask, start, same)
                (read_groups-append_groups 8 (v - (2 ^ prefix - 1)) (2 ^ prefix - 1) 0 rest
                    (omega arith) (omega arith)
                  ∙ ap (λ (t : ℕ). got t rest) (omega arith)),
          )
    ]
