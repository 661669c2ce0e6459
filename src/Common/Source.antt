-- ===== src/Common/Source.antt =====
-- What the program relies on in an `io.Reader` of bytes: a read gives the next bytes, at least one and
-- no more than asked for, or an error. And io.ReadAtLeast over it. No code of the program.
use Prim.Native.Nat.{ℕ, zero, suc, ◌-◌, ◌≤◌, ◌<◌}
use mathlib.Core.Path.{◌≡◌, refl, sym, ap, ◌∙◌}
use mathlib.Core.List.{[], ◌∷◌, ◌++◌, append_assoc}
use mathlib.Core.Logic.{◌≢◌, ◌⊎◌, inl, inr}
use native.Mathlib.Omega.{arith}
use outline_cli_ws.Common.Tests.{◌==◌, if◌then◌else◌, Bool-cases}
use outline_cli_ws.Common.Lists.{length, length-append}
use outline_cli_ws.Common.Errors.{Error, Result, ok, err, eof, unexpected_eof, stuck}
use outline_cli_ws.Common.Bytes.{Bytes}

-- `left` is what the source has still to give.
pub record Source (S : Type 0) : Type 0 where
  pub read : ℕ → S → Result Bytes × S
  pub left : S → Bytes
  pub gives :
      (n : ℕ) (s s' : S) (p : Bytes)
      → read n s ≡ (ok p, s')
      → (left s ≡ p ++ left s') × (length p ≤ n) × (0 < n → 0 < length p)
  pub keeps : (n : ℕ) (s s' : S) (e : Error) → read n s ≡ (err e, s') → left s' ≡ left s

-- An error behind some bytes.
abbrev pub cut_short : Bytes → Error → Error
cut_short [] e = e
cut_short (b ∷ bs) eof = unexpected_eof
cut_short (b ∷ bs) e = e

module _ {S : Type 0} (src : Source S) where
  -- What stands in front of what the rest of the loop gives.
  abbrev pub behind : Bytes → Result Bytes × S → Result Bytes × S
  behind p (ok q, s) = (ok (p ++ q), s)
  behind p (err e, s) = (err (cut_short p e), s)

  abbrev pub read_more :
      (ℕ → ℕ → S → Result Bytes × S) → ℕ → ℕ → Result Bytes × S → Result Bytes × S
  read_more more m cap (err e, s) = (err e, s)
  read_more more m cap (ok p, s) = behind p (more (m - length p) (cap - length p) s)

  -- io.ReadAtLeast of `m` bytes into a buffer of `cap`, on fuel.
  unfoldable pub read_at_least : ℕ → ℕ → ℕ → S → Result Bytes × S
  read_at_least zero m cap s = (err stuck, s)
  read_at_least (suc k) m cap s =
      let rest = read_more (λ i j t. read_at_least k i j t) m cap (src.read cap s) in
      if m == 0 then (ok [], s) else rest

  -- States in which the source fails only at its end.
  pub record Whole (Good : S → Type 0) : Type 0 where
    pub stays : (n : ℕ) (s s' : S) (r : Result Bytes) → Good s → src.read n s ≡ (r, s') → Good s'
    pub ends :
        (n : ℕ) (s s' : S) (e : Error)
        → Good s
        → src.read n s ≡ (err e, s')
        → (e ≢ stuck) × (src.left s ≡ [])

  -- The bytes are the next ones of the source, enough of them and no more than the buffer takes.
  pub record Enough (m cap : ℕ) (s : S) (p : Bytes) (s' : S) : Type 0 where
    pub next_bytes : src.left s ≡ p ++ src.left s'
    pub at_least : m ≤ length p
    pub at_most : length p ≤ cap

  abbrev pub Ends : ℕ → ℕ → S → Result Bytes × S → Type 0
  Ends m cap s (ok p, s') = Enough m cap s p s'
  Ends m cap s (err e, s') = (e ≢ stuck) × (length (src.left s) < m)

  read-cases :
      (r : Result Bytes × S)
      → ((p : Bytes) × (s' : S) × (r ≡ (ok p, s'))) ⊎ ((e : Error) × (s' : S) × (r ≡ (err e, s')))
  read-cases (ok p, s) = inl (p, s, refl)
  read-cases (err e, s) = inr (e, s, refl)

  cut_short-honest : (p : Bytes) (e : Error) → e ≢ stuck → cut_short p e ≢ stuck
  cut_short-honest [] e h = h
  cut_short-honest (b ∷ bs) eof h = λ x. cc
  cut_short-honest (b ∷ bs) e h = h

  behind-Ends :
      (m cap : ℕ) (s t : S) (p : Bytes) (r : Result Bytes × S)
      → src.left s ≡ p ++ src.left t
      → length p ≤ cap
      → Ends (m - length p) (cap - length p) t r
      → Ends m cap s (behind p r)
  behind-Ends m cap s t p (err e, s') l c h =
      (cut_short-honest p e h.0, omega (arith, h.1, length-append p (src.left t), ap length l))
  behind-Ends m cap s t p (ok q, s') l c h = record {
    next_bytes = l ∙ ap (◌++◌ p) h.next_bytes ∙ sym (append_assoc p q (src.left s'));
    at_least = omega (arith, h.at_least, length-append p q);
    at_most = omega (arith, h.at_most, length-append p q);
  }

  -- With fuel above the number of bytes asked for the loop ends by itself: with enough bytes, or
  -- with an error where the source has fewer left.
  pub read_at_least-Ends :
      {Good : S → Type 0} (k m cap : ℕ) (s : S)
      → Whole Good
      → Good s
      → m < k
      → m ≤ cap
      → Ends m cap s (read_at_least k m cap s)
  unfolding read_at_least
  read_at_least-Ends zero m cap s w g h c = absurd (omega arith)
  read_at_least-Ends (suc k) m cap s w g h c = elim (Bool-cases (m == 0)) [
    | inl t ↦
        rw (t, read_at_least)
          (record { next_bytes = refl; at_least = ground arith; at_most = omega arith })
    | inr f ↦
        rw (f, read_at_least)
          (elim (read-cases (src.read cap s)) [
            | inl (p, t, e) ↦
                let (l, small, some_there) = src.gives cap s t p e in
                let more : 0 < length p = some_there (ground arith) in
                let rest =
                  read_at_least-Ends k (m - length p) (cap - length p) t w
                    (w.stays cap s t (ok p) g e) (ground arith) (omega arith) in
                rw e (behind-Ends m cap s t p _ l small rest)
            | inr (e, t, q) ↦
                let (true_error, nothing) = w.ends cap s t e g q in
                rw q (true_error, ground (arith, ap length nothing))
          ])
  ]
