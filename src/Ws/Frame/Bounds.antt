-- ===== src/Ws/Frame/Bounds.antt =====
-- How much `readFrame` of internal/ws_h2.go takes from the stream, and with which errors it ends.
use outline_cli_ws.Ws.Frame.{Frame, max_frame, read_length, read_key, read_body, read_frame}
use outline_cli_ws.Common.{
  stuck, ◌≢◌, ap, expected_masked, server_frame_masked, frame_too_large, ℕ, ◌+◌, ◌≤◌, bit_and, ◌≡◌,
  ap, ◌≢◌, Bool, true, false, not, ◌&&◌, [], ◌∷◌, arith, ltb, ◌==◌, if◌then◌else◌, length,
  length-drop,
}
use outline_cli_ws.Common.{Error}
use outline_cli_ws.Common.Bytes.{Bytes}
use outline_cli_ws.Common.Reader.{Read, got, failed, Reader, next, ◌>>=◌, give, fail_if, read_full}

-- The number of bytes that are left.
abbrev pub left {ℓ} : {A : Type ℓ} → Read A → ℕ
left (got a r) = length r
left (failed e r) = length r

-- The error is one that the code makes.
abbrev pub Clean {ℓ} : {A : Type ℓ} → Read A → Type 0
Clean (got a r) = Unit
Clean (failed e r) = e ≢ stuck

-- A reader that puts nothing back, and always comes to an end.
pub record Shrinks {ℓ} {A : Type ℓ} (m : Reader A) : Type 0 where
  pub at : (r : Bytes) → left (m r) ≤ length r
  pub clean : (r : Bytes) → Clean (m r)

left-next {ℓ κ} :
    {A : Type ℓ} {B : Type κ} (n : ℕ) (m : Read A) (f : A → Reader B)
    → left m ≤ n
    → ((a : A) (r : Bytes) → length r ≤ n → left (f a r) ≤ n)
    → left (next m f) ≤ n
left-next n (got a r) f h k = k a r h
left-next n (failed e r) f h k = h

next-Clean {ℓ κ} :
    {A : Type ℓ} {B : Type κ} (m : Read A) (f : A → Reader B)
    → Clean m
    → ((a : A) → Shrinks (f a))
    → Clean (next m f)
next-Clean (got a r) f h k = (k a).clean r
next-Clean (failed e r) f h k = h

after {ℓ} :
    {A : Type ℓ} (m : Reader A) (r : Bytes) {n : ℕ} → Shrinks m → length r ≤ n → left (m r) ≤ n
after m r s h = omega (arith, s.at r)

pub bind-Shrinks {ℓ κ} :
    {A : Type ℓ} {B : Type κ} (m : Reader A) (f : A → Reader B)
    → Shrinks m
    → ((a : A) → Shrinks (f a))
    → Shrinks (m >>= f)
bind-Shrinks m f s t = record {
  at = λ r. left-next (length r) (m r) f (s.at r) (λ a r' h. after (f a) r' (t a) h);
  clean = λ r. next-Clean (m r) f (s.clean r) t;
}

pub fail_if-Shrinks : (b : Bool) (e : Error) → e ≢ stuck → Shrinks (fail_if b e)
fail_if-Shrinks true e h = record { at = λ r. omega arith; clean = λ r. h }
fail_if-Shrinks false e h = record { at = λ r. omega arith; clean = λ r. tt }

pub give-Shrinks {ℓ} : {A : Type ℓ} (a : A) → Shrinks (give a)
give-Shrinks a = record { at = λ r. omega arith; clean = λ r. tt }

left-read_full : (k : ℕ) (r : Bytes) → left (read_full k r) ≤ length r
unfolding read_full
left-read_full k r = ground (arith, length-drop k r)

read_full-Clean : (k : ℕ) (r : Bytes) → Clean (read_full k r)
unfolding read_full
read_full-Clean k r = ground arith

pub read_full-Shrinks : (k : ℕ) → Shrinks (read_full k)
read_full-Shrinks k = record { at = left-read_full k; clean = read_full-Clean k }

if-Shrinks {ℓ} :
    {A : Type ℓ} (b : Bool) (m n : Reader A) → Shrinks m → Shrinks n → Shrinks (if b then m else n)
if-Shrinks true m n s t = s
if-Shrinks false m n s t = t

read_length-Shrinks : (ln : ℕ) → Shrinks (read_length ln)
unfolding read_length
read_length-Shrinks ln =
    if-Shrinks (ln == 126) _ _
      (bind-Shrinks (read_full 2) _ (read_full-Shrinks 2) (λ b. give-Shrinks _))
      (if-Shrinks (ln == 127) _ _
        (bind-Shrinks (read_full 8) _ (read_full-Shrinks 8) (λ b. give-Shrinks _))
        (give-Shrinks ln))

read_key-Shrinks : (masked : Bool) → Shrinks (read_key masked)
unfolding read_key
read_key-Shrinks masked = if-Shrinks masked _ _ (read_full-Shrinks 4) (give-Shrinks _)

read_body-Shrinks : (masked : Bool) (b0 b1 : ℕ) → Shrinks (read_body masked b0 b1)
unfolding read_body
read_body-Shrinks masked b0 b1 =
    let m : Bool = not (bit_and b1 0x80 == 0) in
    bind-Shrinks _ _ (fail_if-Shrinks (masked && not m) expected_masked (λ e. cc)) λ _.
      bind-Shrinks _ _ (fail_if-Shrinks (not masked && m) server_frame_masked (λ e. cc)) λ _.
        bind-Shrinks _ _ (read_length-Shrinks (bit_and b1 0x7f)) λ plen.
          bind-Shrinks _ _ (read_key-Shrinks m) λ key.
            bind-Shrinks _ _ (fail_if-Shrinks (ltb max_frame plen) frame_too_large (λ e. cc)) λ _.
              bind-Shrinks _ _ (read_full-Shrinks plen)
                λ payload. record { at = λ r. omega arith; clean = λ r. tt }

-- Each frame takes two bytes of the stream at least, and a failed read takes nothing back.
pub read_frame_takes :
    (masked : Bool) (input : Bytes) {f : Frame} {r : Bytes}
    → read_frame masked input ≡ got f r
    → length r + 2 ≤ length input
unfolding read_frame
read_frame_takes masked [] e = cc
read_frame_takes masked (b0 ∷ []) e = cc
read_frame_takes masked (b0 ∷ b1 ∷ r) e =
    omega (arith, ap left e, (read_body-Shrinks masked b0 b1).at r)

pub read_frame-Clean : (masked : Bool) (input : Bytes) → Clean (read_frame masked input)
unfolding read_frame
read_frame-Clean masked [] = λ e. cc
read_frame-Clean masked (b0 ∷ []) = λ e. cc
read_frame-Clean masked (b0 ∷ b1 ∷ r) = (read_body-Shrinks masked b0 b1).clean r
