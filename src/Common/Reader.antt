-- ===== src/Common/Reader.antt =====
-- A computation that reads from a stream: what `io.Reader`, `bufio.Reader` and `bytes.Reader` do on
-- the bytes that are left. The end of the bytes is io.EOF.
use Prim.Native.Nat.{ℕ}
use mathlib.Core.Path.{◌≡◌, refl}
use mathlib.Core.Logic.{◌⊎◌, inl, inr}
use mathlib.Core.Bool.{Bool, true, false}
use mathlib.Core.List.{[], ◌∷◌, ◌++◌}
use native.Mathlib.Omega.{arith}
use outline_cli_ws.Common.Tests.{if◌then◌else◌, leb, ◌==◌}
use outline_cli_ws.Common.Lists.{length, take, drop, length-append, take-append, drop-append}
use outline_cli_ws.Common.Errors.{Error, eof, unexpected_eof}
use outline_cli_ws.Common.Bytes.{Bytes}

-- The value or the error, with the bytes that are left.
pub data Read {ℓ} (A : Type ℓ) : Type ℓ where
  got : A → Bytes → Read A
  failed : Error → Bytes → Read A

abbrev pub Reader {ℓ} : Type ℓ → Type ℓ
Reader A = Bytes → Read A

abbrev pub next {ℓ κ} : {A : Type ℓ} {B : Type κ} → Read A → (A → Reader B) → Read B
next (got a r) f = f a r
next (failed e r) f = failed e r

infixl 5 ◌>>=◌ ◌>>◌
abbrev pub ◌>>=◌ {ℓ κ} : {A : Type ℓ} {B : Type κ} → Reader A → (A → Reader B) → Reader B
◌>>=◌ m f r = next (m r) f

abbrev pub ◌>>◌ {ℓ} : {B : Type ℓ} → Reader (Unit {0}) → Reader B → Reader B
m >> k = m >>= λ _. k

abbrev pub give {ℓ} : {A : Type ℓ} → A → Reader A
give a r = got a r

abbrev pub fail {ℓ} : {A : Type ℓ} → Error → Reader A
fail e r = failed e r

-- `if b { return e }`
abbrev pub fail_if : Bool → Error → Reader (Unit {0})
fail_if true e = fail e
fail_if false e = give tt

-- r.ReadByte()
abbrev pub read_byte : Reader ℕ
read_byte [] = failed eof []
read_byte (b ∷ r) = got b r

-- io.ReadFull of n bytes: nothing read is io.EOF, a part only is io.ErrUnexpectedEOF.
unfoldable pub read_full : ℕ → Reader Bytes
read_full n r =
    if leb n (length r)
    then got (take n r) (drop n r)
    else failed (if length r == 0 then eof else unexpected_eof) []

pub read_full-append : (xs r : Bytes) (n : ℕ) → n ≡ length xs → read_full n (xs ++ r) ≡ got xs r
unfolding read_full
read_full-append xs r n e = ground (arith, length-append xs r, take-append xs r, drop-append xs r)

pub Read-cases {ℓ} :
    {A : Type ℓ} (m : Read A)
    → ((a : A) × (r : Bytes) × (m ≡ got a r)) ⊎ ((e : Error) × (r : Bytes) × (m ≡ failed e r))
Read-cases (got a r) = inl (a, r, refl)
Read-cases (failed e r) = inr (e, r, refl)
