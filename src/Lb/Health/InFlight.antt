-- ===== src/Lb/Health/InFlight.antt =====
-- The flag `inFlight` under runDueChecks, the checks that it launches, and failure reports, in any
-- order.
use outline_cli_ws.Common.{
  ℕ, ◌+◌, ◌-◌, ◌≡◌, Bool, Option, none, some, List, [], ◌∷◌, arith, ◌==◌, if◌then◌else◌,
}
use outline_cli_ws.Common.{Error, Result}
use outline_cli_ws.Common.Int.{ℤ}
use outline_cli_ws.Common.Float.{Float}
use outline_cli_ws.Lb.State.{UpstreamState, HealthcheckConfig}
use outline_cli_ws.Lb.Health.{launch_due, check_one_tcp, check_one_udp, failed_state}

-- How a check ends: the error of the probe slot, the transport probe, the quality probe if enabled,
-- the time and the draw of the jitter.
pub record Outcome : Type 0 where
  pub slot_error : Option Error
  pub transport : Result ℤ
  pub quality : Option (Result ℤ)
  pub at : ℕ
  pub draw : ℕ

pub data Event : Type 0 where
  tick_at : ℕ → Event
  tcp_ends udp_ends : Outcome → Event
  tcp_fails udp_fails : Error → ℕ → ℕ → Event

module _ (fl : Float) (c : HealthcheckConfig fl.F) where
  open fl use {F}

  -- The upstream, and the number of its checks that run.
  pub record Checks : Type 0 where
    pub upstream : UpstreamState F
    pub tcp_running : ℕ
    pub udp_running : ℕ

  launched : Bool → ℕ
  launched b = if b then 1 else 0

  after_launch : Checks → UpstreamState F × Bool × Bool → Checks
  unfolding launched
  after_launch w (s, tcp, udp) = record {
    upstream = s;
    tcp_running = w.tcp_running + launched tcp;
    udp_running = w.udp_running + launched udp;
  }

  -- An end where no check runs is no event.
  pub on_event : Checks → Event → Checks
  unfolding after_launch launch_due check_one_tcp check_one_udp failed_state
  on_event w (tick_at now) = after_launch w (launch_due fl w.upstream now)
  on_event w (tcp_ends o) = if w.tcp_running == 0 then w else record w {
    tcp_running = w.tcp_running - 1;
    upstream = check_one_tcp fl c w.upstream o.slot_error o.transport o.quality o.at o.draw;
  }
  on_event w (udp_ends o) = if w.udp_running == 0 then w else record w {
    udp_running = w.udp_running - 1;
    upstream = check_one_udp fl c w.upstream o.slot_error o.transport o.quality o.at o.draw;
  }
  on_event w (tcp_fails e now draw) =
      let s : UpstreamState F = w.upstream in
      record w { upstream = record s { tcp = failed_state fl c s.tcp e now draw } }
  on_event w (udp_fails e now draw) =
      let s : UpstreamState F = w.upstream in
      record w { upstream = record s { udp = failed_state fl c s.udp e now draw } }

  pub on_events : Checks → List Event → Checks
  unfolding on_event
  on_events w [] = w
  on_events w (e ∷ es) = on_events (on_event w e) es

  -- The flags count the checks that run.
  abbrev pub Counted : Checks → Type 0
  Counted w =
      (w.tcp_running ≡ (if w.upstream.tcp.in_flight then 1 else 0))
      × (w.udp_running ≡ (if w.upstream.udp.in_flight then 1 else 0))

  tcp_ends-Counted :
      (w : Checks) (slot : Option Error) (o : Outcome)
      → Counted w
      → Counted (on_event w (tcp_ends (record o { slot_error = slot })))
  unfolding on_event check_one_tcp
  tcp_ends-Counted w none o h = ground arith
  tcp_ends-Counted w (some e) o h = ground arith

  udp_ends-Counted :
      (w : Checks) (slot : Option Error) (o : Outcome)
      → Counted w
      → Counted (on_event w (udp_ends (record o { slot_error = slot })))
  unfolding on_event check_one_udp
  udp_ends-Counted w none o h = ground arith
  udp_ends-Counted w (some e) o h = ground arith

  on_event-Counted : (w : Checks) (e : Event) → Counted w → Counted (on_event w e)
  unfolding on_event after_launch launched launch_due failed_state
  on_event-Counted w (tick_at now) h = ground arith
  on_event-Counted w (tcp_ends o) h = tcp_ends-Counted w o.slot_error o h
  on_event-Counted w (udp_ends o) h = udp_ends-Counted w o.slot_error o h
  on_event-Counted w (tcp_fails e now draw) h = ground arith
  on_event-Counted w (udp_fails e now draw) h = ground arith

  -- Where the in-flight flags of an upstream count its running checks, they do so after every
  -- sequence of scheduler ticks, ends of checks and failure reports: no endpoint has two checks at
  -- once, and a check that ends, with whatever result, makes room for the next.
  pub on_events-Counted : (w : Checks) (es : List Event) → Counted w → Counted (on_events w es)
  unfolding on_events
  on_events-Counted w [] h = h
  on_events-Counted w (e ∷ es) h = on_events-Counted (on_event w e) es (on_event-Counted w e h)
