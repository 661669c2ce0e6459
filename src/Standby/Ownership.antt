-- ===== src/Standby/Ownership.antt =====
-- Who owns a connection of the warm standby, internal/warm_standby.go, in an interleaved run.
use outline_cli_ws.Common.{
  ℕ, ◌+◌, ◌≡◌, inl, inr, Option, none, some, List, [], ◌∷◌, arith, Option-cases, get_elem?,
}
use outline_cli_ws.Common.{ok, err}
use outline_cli_ws.Common.Owners.{one, in_list, made, total, total-set}
use outline_cli_ws.Standby.{
  Stage, Answer, Slot, World, Move, advance, take_slot, offer, reset, dial, turn_of, move, run,
  empty, begin, checking, dialing, resetting, looking, warming, offering, keeping, restoring,
  discarding, returned, done, spawn, turn, acquire_tcp, acquire_udp, ensure, keepalive, shutdown,
}

abbrev in_option : ℕ → Option ℕ → ℕ
in_option x none = 0
in_option x (some c) = one x c

-- What a goroutine holds, and what it has handed to its caller.
abbrev held : ℕ → Stage → ℕ
held x (checking c) = one x c
held x (offering c) = one x c
held x (keeping c) = one x c
held x (restoring c) = one x c
held x (discarding c) = one x c
held x (returned (ok c)) = one x c
held x (returned (err e)) = 0
held x (begin op) = 0
held x dialing = 0
held x resetting = 0
held x looking = 0
held x warming = 0
held x done = 0

-- The owners of `x`, where a closed connection counts as owned.
abbrev pub owners : ℕ → World → ℕ
owners x w = in_option x w.slot.conn + in_list x w.slot.closed + total (held x) w.threads

abbrev at_slot : ℕ → Slot → ℕ
at_slot x s = in_option x s.conn + in_list x s.closed

-- What one step takes from the slot it gives to the goroutine, and the reverse; a dial adds one owner.
advance-held :
    (x : ℕ) (a : Answer) (s : Slot) (t : Stage)
    → (at_slot x (advance a s t).0 + held x (advance a s t).1) + made x s.dialed
      ≡ (at_slot x s + held x t) + made x (advance a s t).0.dialed
unfolding advance take_slot offer reset dial
advance-held x a s (begin acquire_tcp) = ground arith
advance-held x a s (begin acquire_udp) = ground arith
advance-held x a s (begin ensure) = ground arith
advance-held x a s (begin keepalive) = ground arith
advance-held x a s (begin shutdown) = ground arith
advance-held x a s (checking c) = ground arith
advance-held x a s dialing = ground arith
advance-held x a s resetting = ground arith
advance-held x a s looking = ground arith
advance-held x a s warming = ground arith
advance-held x a s (offering c) = ground arith
advance-held x a s (keeping c) = ground arith
advance-held x a s (restoring c) = ground arith
advance-held x a s (discarding c) = ground arith
advance-held x a s (returned (ok c)) = ground arith
advance-held x a s (returned (err e)) = ground arith
advance-held x a s done = ground arith

move-owners :
    (x : ℕ) (w : World) (m : Move)
    → owners x (move w m) + made x w.slot.dialed ≡ owners x w + made x (move w m).slot.dialed
unfolding move turn_of
move-owners x w (spawn op) = omega arith
move-owners x w (turn i a) = elim (Option-cases (get_elem? w.threads i)) [
  | inl e ↦ rw e (omega arith)
  | inr (t, e) ↦ rw e (
      omega (
        arith,
        advance-held x a w.slot t,
        total-set (held x) w.threads i t (advance a w.slot t).1 e,
      ))
]

run-owners' :
    (x : ℕ) (w : World) (ms : List Move)
    → owners x w ≡ made x w.slot.dialed
    → owners x (run w ms) ≡ made x (run w ms).slot.dialed
unfolding run
run-owners' x w [] h = h
run-owners' x w (m ∷ ms) h = run-owners' x (move w m) ms (omega (arith, move-owners x w m))

-- Under every interleaving of acquires, refills, keepalives and shutdowns that starts with an
-- empty slot, each connection that has been dialed has one owner, the slot, a goroutine or its
-- caller, or has been closed once, and no other connection appears.
pub run-owners :
    (x : ℕ) (ms : List Move) → owners x (run empty ms) ≡ made x (run empty ms).slot.dialed
run-owners x ms = run-owners' x empty ms (ground arith)
