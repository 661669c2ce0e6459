-- ===== src/Standby.antt =====
-- The warm standby of internal/warm_standby.go: one slot of one upstream, TCP or UDP, and the
-- goroutines that run on it. A stage is the point between two critical sections where a goroutine
-- waits, and a connection is the number of its dial.
pub mod Ownership
mod Tests
use outline_cli_ws.Common.{
  ℕ, zero, suc, ◌+◌, ◌-◌, ◌*◌, ◌/◌, ◌%◌, ◌^◌, ◌≤◌, ◌<◌, min, bit_and, bit_or, bit_xor, ◌≡◌, refl,
  sym, ap, ◌∙◌, subst, ◌≢◌, ◌↔◌, ◌⊎◌, inl, inr, Bool, true, false, not, ◌&&◌, ◌||◌, Option, none,
  some, List, [], ◌∷◌, ◌++◌, map, foldl, append-nil, append_assoc, arith, ltb, leb, ◌==◌,
  if◌then◌else◌, ==_iff, leb→le, Bool-cases, Option-cases, is_some, length, get_elem?, get_or, set,
  take, drop, All, length-append, take-append, drop-append, length-set, get_elem?-set_self,
  get_elem?-set_ne, length-drop, take-append-drop, get_elem?-some-lt, All-get_or, All-append,
}
use outline_cli_ws.Common.{Error, Result, ok, err}
use outline_cli_ws.Common.{◌>>=◌, ◌>>◌, fail_if, >>=-eq-ok}
use outline_cli_ws.Common.Bytes.{
  Bytes, IsByte, put_uint16, put_uint64, big_endian, big_endian-put_uint16, big_endian-put_uint64,
}

-- AcquireTCPWS, AcquireUDPWS, EnsureStandbyTCP or EnsureStandbyUDP, keepaliveOneStandby, and the
-- shutdown branch of RunWarmStandby.
pub data Op : Type 0 where
  acquire_tcp acquire_udp ensure keepalive shutdown : Op

pub data Stage : Type 0 where
  begin : Op → Stage
  -- acquireTCPWS: the liveness check of a candidate, and the dial
  checking : ℕ → Stage
  dialing : Stage
  -- EnsureStandby: behind the test of the endpoint's health, at the dial, and with its result
  resetting looking warming : Stage
  offering : ℕ → Stage
  -- keepaliveOneStandby: the check, behind a good one, and with a connection too many
  keeping restoring discarding : ℕ → Stage
  returned : Result ℕ → Stage
  done : Stage

-- What a step hears from outside: the health of the endpoint, the check, and the dial.
pub record Answer : Type 0 where
  pub healthy : Bool
  pub alive : Bool
  pub dial_error : Option Error

-- The slot, the connections closed so far, and the number of dials that have succeeded.
pub record Slot : Type 0 where
  pub conn : Option ℕ
  pub closed : List ℕ
  pub dialed : ℕ

abbrev shut : Slot → ℕ → Slot
shut s c = record s { closed = c ∷ s.closed }

-- `c := up.standby; up.standby = nil`, under the lock.
take_slot : Slot → (ℕ → Stage) → Stage → Slot × Stage
take_slot s some_stage none_stage =
    (record s { conn = none }, elim s.conn [ none ↦ none_stage | some c ↦ some_stage c ])

-- Puts `c` into an empty slot, under the lock.
offer : Slot → ℕ → (Slot × Stage) → Slot × Stage
offer s c full = elim s.conn [ none ↦ (record s { conn = some c }, done) | some d ↦ full ]

reset : Slot → Slot
reset s = elim s.conn [ none ↦ s | some c ↦ record (shut s c) { conn = none } ]

-- A dial, with what follows a connection and an error.
dial : Slot → Option Error → (ℕ → Stage) → (Error → Stage) → Slot × Stage
dial s none good bad = (record s { dialed = s.dialed + 1 }, good s.dialed)
dial s (some e) good bad = (s, bad e)

-- One critical section, or one call of the check, of the dial or of Close, of one goroutine.
unfoldable pub advance : Answer → Slot → Stage → Slot × Stage
unfolding take_slot offer reset dial
advance a s (begin acquire_tcp) = take_slot s checking dialing
advance a s (begin acquire_udp) = take_slot s (λ c. returned (ok c)) dialing
advance a s (begin ensure) = (s, if a.healthy then looking else resetting)
advance a s (begin keepalive) = take_slot s keeping done
advance a s (begin shutdown) = (reset s, done)
advance a s (checking c) = if a.alive then (s, returned (ok c)) else (shut s c, dialing)
advance a s dialing = dial s a.dial_error (λ c. returned (ok c)) (λ e. returned (err e))
advance a s resetting = (reset s, done)
advance a s looking = (s, if is_some s.conn then done else warming)
advance a s warming = dial s a.dial_error offering (λ e. done)
advance a s (offering c) = offer s c (shut s c, done)
advance a s (keeping c) = if a.alive then (s, restoring c) else (shut s c, done)
advance a s (restoring c) = offer s c (s, discarding c)
advance a s (discarding c) = (shut s c, done)
advance a s (returned r) = (s, returned r)
advance a s done = (s, done)

-- The slot and its goroutines.
pub record World : Type 0 where
  pub slot : Slot
  pub threads : List Stage

-- A new goroutine, or a turn of the one with this index.
pub data Move : Type 0 where
  spawn : Op → Move
  turn : ℕ → Answer → Move

turn_of : World → ℕ → Answer → Option Stage → World
unfolding advance
turn_of w i a none = w
turn_of w i a (some t) =
    let r = advance a w.slot t in record { slot = r.0; threads = set w.threads i r.1 }

pub move : World → Move → World
unfolding turn_of
move w (spawn op) = record w { threads = begin op ∷ w.threads }
move w (turn i a) = turn_of w i a (get_elem? w.threads i)

pub run : World → List Move → World
unfolding move
run w [] = w
run w (m ∷ ms) = run (move w m) ms

abbrev pub empty : World
empty = record { slot = record { conn = none; closed = []; dialed = 0 }; threads = [] }
