-- ===== src/Standby/Tests.antt =====
-- The theorems on the standby slot at concrete runs.
use outline_cli_ws.Common.{◌≡◌, true, false, none, List, [], ◌∷◌}
use outline_cli_ws.Standby.{Answer, Move, run, empty, spawn, turn, acquire_tcp, ensure, keepalive}
use outline_cli_ws.Common.Owners.{made}
use outline_cli_ws.Standby.Ownership.{owners, run-owners}

abbrev fine : Answer
fine = record { healthy = true; alive = true; dial_error = none }

abbrev stale : Answer
stale = record { healthy = true; alive = false; dial_error = none }

-- A keepalive takes the connection out, a refill fills the slot again, the keepalive comes back with a
-- connection too many, and an acquire finds the standby stale.
abbrev crossing : List Move
crossing =
    spawn ensure
    ∷ turn 0 fine
    ∷ turn 0 fine
    ∷ turn 0 fine
    ∷ turn 0 fine
    ∷ spawn keepalive
    ∷ turn 0 fine
    ∷ spawn ensure
    ∷ turn 0 fine
    ∷ turn 0 fine
    ∷ turn 0 fine
    ∷ turn 0 fine
    ∷ turn 1 fine
    ∷ turn 1 fine
    ∷ turn 1 fine
    ∷ spawn acquire_tcp
    ∷ turn 0 stale
    ∷ turn 0 stale
    ∷ turn 0 stale
    ∷ []

run-owners_example : owners 0 (run empty crossing) ≡ made 0 (run empty crossing).slot.dialed
run-owners_example = run-owners 0 crossing
