-- ===== src/Ws/Sink.antt =====
-- The write loops over an `io.Writer`: `writeRaw` and `sendClose` of internal/ws_h2.go and
-- `h3wsStream.Write` of internal/ws_h3.go share the loop of this file.
use outline_cli_ws.Common.{
  ℕ, zero, suc, ◌+◌, ◌≤◌, ◌<◌, ◌≡◌, refl, sym, ap, ◌∙◌, inl, inr, Option, none, some, [], ◌∷◌, ◌++◌,
  append-nil, append_assoc, arith, ◌==◌, if◌then◌else◌, Bool-cases, length, take, drop, length-drop,
  take-append-drop,
}
use outline_cli_ws.Common.{Error, Result, ok, err}
use outline_cli_ws.Common.Bytes.{Bytes}
use outline_cli_ws.Common.{stuck, short_write}

-- What the k-th call of Write does: how many bytes it takes, and its error.
abbrev pub Writer : Type 0
Writer = ℕ → ℕ × Option Error

-- What has gone out, and how many calls have been made.
pub record Sink : Type 0 where
  pub sent : Bytes
  pub calls : ℕ

-- One call of Write.
abbrev pub push : Sink → ℕ → Bytes → Sink
push s n p = record { sent = s.sent ++ take n p; calls = s.calls + 1 }

-- The two tests behind a call of Write that took `n` bytes; `rest` is the next round.
settle : Sink → ℕ → Option Error → Sink × Result (Unit {0}) → Sink × Result (Unit {0})
settle s n (some e) rest = (s, err e)
settle s n none rest = if n == 0 then (s, err short_write) else rest

-- `for len(remaining) > 0 { ... }`. A round that goes on takes a byte at least.
write_loop : ℕ → Writer → Sink → Bytes → Sink × Result (Unit {0})
unfolding settle
write_loop fuel w s [] = (s, ok tt)
write_loop zero w s (b ∷ p) = (s, err stuck)
write_loop (suc fuel) w s (b ∷ p) =
    let n : ℕ = (w s.calls).0 in
    let rest = write_loop fuel w (push s n (b ∷ p)) (drop n (b ∷ p)) in
    settle (push s n (b ∷ p)) n (w s.calls).1 rest

unfoldable pub write_all : Writer → Sink → Bytes → Sink × Result (Unit {0})
unfolding write_loop
write_all w s p = write_loop (length p) w s p

-- The outcome of the loop on `p`, begun in `s`: success means that all of `p` went out, a failure
-- that a part from its front did.
abbrev pub Wrote : Sink → Bytes → Sink × Result (Unit {0}) → Type 0
Wrote s p (t, ok u) = t.sent ≡ s.sent ++ p
Wrote s p (t, err e) = (front back : Bytes) × (front ++ back ≡ p) × (t.sent ≡ s.sent ++ front)

rejoin : (s : Sink) (n : ℕ) (p q : Bytes) → (s.sent ++ take n p) ++ q ≡ s.sent ++ (take n p ++ q)
rejoin s n p q = append_assoc s.sent (take n p) q

round-Wrote :
    (s : Sink) (n : ℕ) (p : Bytes) (r : Sink × Result (Unit {0}))
    → Wrote (push s n p) (drop n p) r
    → Wrote s p r
round-Wrote s n p (t, ok u) h =
    h ∙ rejoin s n p (drop n p) ∙ ap (◌++◌ s.sent) (take-append-drop n p)
round-Wrote s n p (t, err e) (front, back, j, h) = (
  take n p ++ front,
  back,
  append_assoc (take n p) front back ∙ ap (◌++◌ (take n p)) j ∙ take-append-drop n p,
  h ∙ rejoin s n p front,
)

settle-Wrote :
    (s : Sink) (n : ℕ) (p : Bytes) (e : Option Error) (r : Sink × Result (Unit {0}))
    → Wrote (push s n p) (drop n p) r
    → Wrote s p (settle (push s n p) n e r)
unfolding settle
settle-Wrote s n p (some e) r h = (take n p, drop n p, take-append-drop n p, refl)
settle-Wrote s n p none r h = elim (Bool-cases (n == 0)) [
  | inl z ↦ rw z (take n p, drop n p, take-append-drop n p, refl)
  | inr z ↦ rw z (round-Wrote s n p r h)
]

write_loop-Wrote :
    (fuel : ℕ) (w : Writer) (s : Sink) (p : Bytes) → Wrote s p (write_loop fuel w s p)
unfolding write_loop
write_loop-Wrote fuel w s [] = sym (append-nil s.sent)
write_loop-Wrote zero w s (b ∷ p) = ([], b ∷ p, refl, sym (append-nil s.sent))
write_loop-Wrote (suc fuel) w s (b ∷ p) =
    let n : ℕ = (w s.calls).0 in
    settle-Wrote s n (b ∷ p) (w s.calls).1 _
      (write_loop-Wrote fuel w (push s n (b ∷ p)) (drop n (b ∷ p)))

-- Whatever the writer does, the write loop reports success only when all of the bytes have gone
-- out, once and in order, and otherwise a part from their front has.
pub write_all-Wrote : (w : Writer) (s : Sink) (p : Bytes) → Wrote s p (write_all w s p)
unfolding write_all
write_all-Wrote w s p = write_loop-Wrote (length p) w s p

-- A writer that takes a byte at least at each call, with no error.
abbrev pub Accepts : Writer → Type 0
Accepts w = (k : ℕ) → (0 < (w k).0) × ((w k).1 ≡ none)

settle_ok :
    (s : Sink) (n : ℕ) (e : Option Error) (r : Sink × Result (Unit {0}))
    → 0 < n
    → e ≡ none
    → settle s n e r ≡ r
unfolding settle
settle_ok s n (some x) r h q = cc
settle_ok s zero none r h q = absurd (omega arith)
settle_ok s (suc n) none r h q = ground arith

write_loop_ok :
    (fuel : ℕ) (w : Writer) (s : Sink) (p : Bytes)
    → Accepts w
    → length p ≤ fuel
    → (write_loop fuel w s p).1 ≡ ok tt
unfolding write_loop
write_loop_ok fuel w s [] a h = refl
write_loop_ok zero w s (b ∷ p) a h = absurd (omega arith)
write_loop_ok (suc fuel) w s (b ∷ p) a h =
    let n : ℕ = (w s.calls).0 in
    rw
      (settle_ok (push s n (b ∷ p)) n (w s.calls).1
        (write_loop fuel w (push s n (b ∷ p)) (drop n (b ∷ p))) (a s.calls).0 (a s.calls).1)
      (write_loop_ok fuel w (push s n (b ∷ p)) (drop n (b ∷ p)) a
        (omega (arith, length-drop n (b ∷ p), (a s.calls).0)))

-- The write loop ends with success, all bytes sent, whenever each call of Write takes a byte and
-- reports no error.
pub write_all_ok :
    (w : Writer) (s : Sink) (p : Bytes)
    → Accepts w
    → ((write_all w s p).1 ≡ ok tt) × ((write_all w s p).0.sent ≡ s.sent ++ p)
unfolding write_all
write_all_ok w s p a = (done, finish (write_all w s p) done (write_all-Wrote w s p))
  where
    done : (write_all w s p).1 ≡ ok tt
    done = write_loop_ok (length p) w s p a (omega arith)

    finish : (r : Sink × Result (Unit {0})) → r.1 ≡ ok tt → Wrote s p r → r.0.sent ≡ s.sent ++ p
    finish (t, ok u) e h = h
    finish (t, err x) e h = cc
