-- ===== src/H3/Qpack/Fields/Flags.antt =====
-- The first bytes of the field lines that `h3EncodeHeaders` writes, and the decoder's tests of them.
use outline_cli_ws.Common.Bits.{all_below, agree}
use outline_cli_ws.H3.Qpack.Ints.{Splits}
use outline_cli_ws.Common.{ℕ, ◌^◌, ◌<◌, bit_and, bit_or, ◌≡◌, refl, arith}

pub indexed-Splits : Splits 0xc0 6
unfolding all_below
indexed-Splits = record { fits = omega arith; some_bit = omega arith; low = agree 64 _ _ refl }

pub named-Splits : Splits 0x50 4
unfolding all_below
named-Splits = record { fits = omega arith; some_bit = omega arith; low = agree 16 _ _ refl }

pub name-Splits : Splits 0x20 3
unfolding all_below
name-Splits = record { fits = omega arith; some_bit = omega arith; low = agree 8 _ _ refl }

pub string-Splits : Splits 0 7
unfolding all_below
string-Splits = record { fits = omega arith; some_bit = omega arith; low = agree 128 _ _ refl }

-- What the tests of the decoder say of a first byte.
pub indexed_flags : (x : ℕ) → x < 64 → bit_and (bit_or 0xc0 x) 0x80 ≡ 0x80
unfolding all_below
indexed_flags = agree 64 _ _ refl

pub named_top : (x : ℕ) → x < 16 → bit_and (bit_or 0x50 x) 0x80 ≡ 0
unfolding all_below
named_top = agree 16 _ _ refl

pub named_flags : (x : ℕ) → x < 16 → bit_and (bit_or 0x50 x) 0xe0 ≡ 0x40
unfolding all_below
named_flags = agree 16 _ _ refl

pub named_static : (x : ℕ) → x < 16 → bit_and (bit_or 0x50 x) 0x10 ≡ 0x10
unfolding all_below
named_static = agree 16 _ _ refl

pub literal_top : (x : ℕ) → x < 8 → bit_and (bit_or 0x20 x) 0x80 ≡ 0
unfolding all_below
literal_top = agree 8 _ _ refl

pub literal_flags : (x : ℕ) → x < 8 → bit_and (bit_or 0x20 x) 0xe0 ≡ 0x20
unfolding all_below
literal_flags = agree 8 _ _ refl

pub literal_plain : (x : ℕ) → x < 8 → bit_and (bit_or 0x20 x) (2 ^ 3) ≡ 0
unfolding all_below
literal_plain = agree 8 _ _ refl

pub string_plain : (x : ℕ) → x < 128 → bit_and (bit_or 0 x) (2 ^ 7) ≡ 0
unfolding all_below
string_plain = agree 128 _ _ refl
