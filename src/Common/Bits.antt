-- ===== src/Common/Bits.antt =====
-- Masks on one byte as arithmetic. Each fact is a table of at most 65536 entries, checked by
-- evaluation.
use Prim.Native.Nat.{ℕ, zero, suc, ◌+◌, ◌*◌, ◌/◌, ◌%◌, ◌<◌, bit_and, bit_or, bit_xor}
use mathlib.Core.Path.{◌≡◌, refl}
use mathlib.Core.Bool.{Bool, true, ◌&&◌}
use native.Mathlib.Omega.{arith}
use outline_cli_ws.Common.Tests.{◌==◌, ==_iff}

-- The test passes at each number below the bound.
unfoldable pub all_below : ℕ → (ℕ → Bool) → Bool
all_below zero test = true
all_below (suc bound) test = all_below bound test && test bound

below_passes :
    (test : ℕ → Bool) {x : ℕ} (bound : ℕ) → x < bound → all_below bound test ≡ true → test x ≡ true
unfolding all_below
below_passes test zero lt all = absurd (omega arith)
below_passes test {x = x} (suc bound) lt all = ground (arith, below_passes test {x = x} bound)

-- Two functions that agree on a range by evaluation.
pub agree :
    (n : ℕ) (f g : ℕ → ℕ) → all_below n (λ x. f x == g x) ≡ true → (x : ℕ) → x < n → f x ≡ g x
agree n f g h x lt = (==_iff (f x) (g x)).0 (below_passes (λ y. f y == g y) n lt h)

xor_table : all_below 256 (λ k. all_below 256 (λ x. bit_xor (bit_xor x k) k == x)) ≡ true
unfolding all_below
xor_table = refl

-- Masking a byte twice by one key byte gives the byte back.
pub bit_xor_twice : (x k : ℕ) → x < 256 → k < 256 → bit_xor (bit_xor x k) k ≡ x
bit_xor_twice x k hx hk = (==_iff (bit_xor (bit_xor x k) k) x).0 (
    below_passes (λ y. bit_xor (bit_xor y k) k == y) 256 hx
      (below_passes (λ j. all_below 256 (λ y. bit_xor (bit_xor y j) j == y)) 256 hk xor_table))

pub and_top_bit : (b : ℕ) → b < 256 → bit_and b 0x80 ≡ b / 128 * 128
unfolding all_below
and_top_bit = agree 256 _ _ refl

pub and_low_seven : (b : ℕ) → b < 256 → bit_and b 0x7f ≡ b % 128
unfolding all_below
and_low_seven = agree 256 _ _ refl

pub and_low_four : (b : ℕ) → b < 256 → bit_and b 0x0f ≡ b % 16
unfolding all_below
and_low_four = agree 256 _ _ refl

pub or_top_bit : (b : ℕ) → b < 128 → bit_or b 0x80 ≡ b + 128
unfolding all_below
or_top_bit = agree 128 _ _ refl

pub top_bit_or : (b : ℕ) → b < 128 → bit_or 0x80 b ≡ b + 128
unfolding all_below
top_bit_or = agree 128 _ _ refl

pub or_0x40 : (b : ℕ) → b < 64 → bit_or b 0x40 ≡ b + 64
unfolding all_below
or_0x40 = agree 64 _ _ refl

pub or_0x80 : (b : ℕ) → b < 64 → bit_or b 0x80 ≡ b + 128
unfolding all_below
or_0x80 = agree 64 _ _ refl

pub or_0xc0 : (b : ℕ) → b < 64 → bit_or b 0xc0 ≡ b + 192
unfolding all_below
or_0xc0 = agree 64 _ _ refl

pub and_low_six : (b : ℕ) → b < 256 → bit_and b 0x3f ≡ b % 64
unfolding all_below
and_low_six = agree 256 _ _ refl
