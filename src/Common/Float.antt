-- ===== src/Common/Float.antt =====
-- Go's float64 as a parameter: the operations that the balancer uses, and the two laws of IEEE 754 that
-- its choice rests on. A value is a carrier that nothing else is known of.
use Prim.Native.Nat.{ℕ, ◌+◌, ◌*◌, ◌/◌, ◌^◌}
use mathlib.Core.Path.{◌≡◌}
use mathlib.Core.Bool.{Bool, true, false}
use native.Mathlib.Omega.{arith}
use outline_cli_ws.Common.Tests.{ltb, leb}
use outline_cli_ws.Common.Int.{ℤ, pos, pos_part}

pub record Float : Type 1 where
  pub F : Type 0
  -- float64(i), time.Duration(f)
  pub of_int : ℤ → F
  pub to_int : F → ℤ
  -- The decimal literal m / 10 ^ k.
  pub lit : ℕ → ℕ → F
  pub add : F → F → F
  pub mul : F → F → F
  pub div : F → F → F
  -- `<` and `<=`
  pub lt : F → F → Bool
  pub le : F → F → Bool
  -- `<` is transitive and holds of no value with itself, also where an operand is not a number.
  pub lt_irrefl : (a : F) → lt a a ≡ false
  pub lt_trans : (a b c : F) → lt a b ≡ true → lt b c ≡ true → lt a c ≡ true

pub milli_lt_trans : (a b c : ℕ) → ltb a b ≡ true → ltb b c ≡ true → ltb a c ≡ true
milli_lt_trans a b c p q = ground arith

pub milli_lt_irrefl : (a : ℕ) → ltb a a ≡ false
milli_lt_irrefl a = ground arith

-- Thousandths with no sign meet what is asked of `Float`, and compute.
abbrev pub milli : Float
milli = record {
  F = ℕ;
  of_int = λ i. pos_part i * 1000;
  to_int = λ f. pos (f / 1000);
  lit = λ m k. m * 1000 / 10 ^ k;
  add = λ a b. a + b;
  mul = λ a b. a * b / 1000;
  div = λ a b. a * 1000 / b;
  lt = ltb;
  le = leb;
  lt_irrefl = milli_lt_irrefl;
  lt_trans = milli_lt_trans;
}
