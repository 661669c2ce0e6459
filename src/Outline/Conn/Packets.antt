-- ===== src/Outline/Conn/Packets.antt =====
-- The packets that a WSPacketConn gives, internal/ws_packet_conn.go.
use outline_cli_ws.Ws.Conn.{Message}
use outline_cli_ws.Outline.Conn.{message_binary, read_from}
use outline_cli_ws.Common.{
  ℕ, zero, suc, ◌≡◌, refl, ap, ◌∙◌, inl, inr, true, false, List, [], ◌∷◌, ◌==◌, if◌then◌else◌,
  Bool-cases, length, take,
}
use outline_cli_ws.Common.{Result, ok, err}
use outline_cli_ws.Common.Bytes.{Bytes}

-- What a WSPacketConn gives: the binary messages, each cut to the buffer, and the errors.
abbrev pub packets : ℕ → List (Result Message) → List (Result Bytes)
packets n [] = []
packets n (err e ∷ ms) = err e ∷ packets n ms
packets n (ok m ∷ ms) =
    if m.typ == message_binary then ok (take n m.payload) ∷ packets n ms else packets n ms

-- A read of each, in a row.
abbrev pub read_packets : ℕ → ℕ → List (Result Message) → List (Result Bytes)
read_packets zero n ms = []
read_packets (suc k) n ms = let r = read_from n ms in r.0 ∷ read_packets k n r.1

skip_lem :
    (k n : ℕ) (m : Message) (ms : List (Result Message))
    → (m.typ == message_binary) ≡ false
    → read_packets k n (ok m ∷ ms) ≡ read_packets k n ms
unfolding read_from
skip_lem zero n m ms f = refl
skip_lem (suc k) n m ms f = rw (f, read_from) refl

keep_lem :
    (k n : ℕ) (m : Message) (ms : List (Result Message))
    → (m.typ == message_binary) ≡ true
    → read_packets (suc k) n (ok m ∷ ms) ≡ ok (take n m.payload) ∷ read_packets k n ms
unfolding read_from
keep_lem k n m ms t = rw (t, read_from) refl

-- As many reads as there are binary messages and errors give each of them once and in order, a
-- message cut to the buffer.
pub read_packets-packets :
    (n : ℕ) (ms : List (Result Message)) → read_packets (length (packets n ms)) n ms ≡ packets n ms
unfolding read_from
read_packets-packets n [] = refl
read_packets-packets n (err e ∷ ms) = ap (◌∷◌ (err e)) (read_packets-packets n ms)
read_packets-packets n (ok m ∷ ms) = elim (Bool-cases (m.typ == message_binary)) [
  | inl t ↦ rw t (
      keep_lem (length (packets n ms)) n m ms t
      ∙ ap (◌∷◌ (ok (take n m.payload))) (read_packets-packets n ms))
  | inr f ↦ rw f (skip_lem (length (packets n ms)) n m ms f ∙ read_packets-packets n ms)
]
