-- ===== src/Lb/Tests.antt =====
-- The theorems on the balancer's checks at concrete results, with thousandths for float64.
use outline_cli_ws.Lb.Slots.{Users, Turn, enter, go, turns, Bounded, turns-Bounded}
use outline_cli_ws.Common.{
  List, ℕ, ◌+◌, ◌≡◌, refl, Bool, true, false, ◌&&◌, none, some, [], ◌∷◌, arith, ltb,
}
use outline_cli_ws.Common.{eof, ok}
use outline_cli_ws.Common.Float.{milli}
use outline_cli_ws.Common.Int.{ℤ, pos}
use outline_cli_ws.Lb.State.{HcState, HealthcheckConfig}
use outline_cli_ws.Lb.Health.{apply_hc_result}
use outline_cli_ws.Lb.Health.InFlight.{
  Checks, Event, tick_at, tcp_ends, tcp_fails, on_events, Counted, on_events-Counted,
}
use outline_cli_ws.Lb.Health.Laws.{Within, hc_every_bounds, Check, Consistent, run, run-Failing}

-- Two failures take an upstream down, two successes take it up.
abbrev pub config : HealthcheckConfig ℕ
config = record {
  interval = pos 30;
  timeout = pos 5;
  fail_threshold = 2;
  success_threshold = 2;
  min_interval = pos 10;
  max_interval = pos 60;
  jitter = pos 2;
  backoff_factor = 2000;
  rtt_scale = 0;
}

abbrev pub health_of : Bool → ℤ → HcState
health_of up rtt = record {
  healthy = up;
  fail_count = 0;
  success_count = 0;
  in_flight = false;
  last_error = none;
  last_check_time = 0;
  last_rtt = rtt;
  rtt_ewma = rtt;
  next_hc = 0;
  hc_every = pos 0;
}

hc_every_bounds_example :
    Within
      (pos 10)
      (pos 60)
      (apply_hc_result milli config (health_of true (pos 5)) (some eof) (pos 5) 100 1).hc_every
hc_every_bounds_example =
    hc_every_bounds milli config (health_of true (pos 5)) (some eof) (pos 5) 100 1 (omega arith)

abbrev failing : Check milli
failing = record { error = some eof; rtt = pos 0; at = 100; draw = 0 }

abbrev up : HcState
up = health_of true (pos 5)

abbrev down : HcState
down = health_of false (pos 5)

up-Consistent : Consistent milli config up
up-Consistent = record { up = λ h. omega arith; down = λ h. omega arith }

run-Failing_example :
    ((run milli config up (failing ∷ failing ∷ [])).fail_count ≡ 0 + 2)
    × ((run milli config up (failing ∷ failing ∷ [])).healthy ≡ (true && ltb (0 + 2) 2))
run-Failing_example =
    run-Failing milli config up (failing ∷ failing ∷ []) (omega arith, omega arith) up-Consistent
      (λ h. cc, (λ h. cc, tt))

abbrev idle : Checks milli config
idle = record {
  upstream = record {
    name = [];
    weight = 1000;
    tcp = up;
    udp = down;
    tcp_cooldown_until = 0;
    udp_cooldown_until = 0;
  };
  tcp_running = 0;
  udp_running = 0;
}

-- Both checks are due, the scheduler ticks again, a failure is reported, and the TCP check ends.
abbrev events : List Event
events =
    tick_at 10
    ∷ tick_at 20
    ∷ tcp_fails eof 25 0
    ∷ tcp_ends
        (record { slot_error = none; transport = ok (pos 5); quality = none; at = 30; draw = 1 })
    ∷ []

on_events-Counted_example : Counted milli config (on_events milli config idle events)
on_events-Counted_example = on_events-Counted milli config idle events (refl, refl)

-- One slot and two goroutines: the second waits till the first is done.
abbrev users : Users ℕ
users = record { slots = record { held = 0; cap = 1 }; stages = [] }

abbrev two_calls : List (Turn ℕ)
two_calls =
    enter
    ∷ enter
    ∷ go 0 none false (ok 5)
    ∷ go 1 none false (ok 6)
    ∷ go 0 none false (ok 5)
    ∷ go 1 none false (ok 6)
    ∷ []

turns-Bounded_example : Bounded (turns users two_calls)
turns-Bounded_example = turns-Bounded users two_calls (refl, omega arith)
