-- ===== src/Lb/Start.antt =====
-- How a balancer begins: NewLoadBalancer and DisableBackgroundProbes of internal/lb.go.
pub mod Ready
use outline_cli_ws.Common.Int.{pos}
use outline_cli_ws.Lb.State.{
  HcState, UpstreamState, HealthcheckConfig, SelectionConfig, LoadBalancer,
}
use outline_cli_ws.Common.{ℕ, ◌+◌, [], ◌∷◌, true, false, none, List, map}
use outline_cli_ws.Common.Bytes.{Bytes}

-- The zero value of `hcState`, with `healthy` set to false.
abbrev pub unchecked : HcState
unchecked = record {
  healthy = false;
  fail_count = 0;
  success_count = 0;
  in_flight = false;
  last_error = none;
  last_check_time = 0;
  last_rtt = pos 0;
  rtt_ewma = pos 0;
  next_hc = 0;
  hc_every = pos 0;
}

-- The fields of `UpstreamConfig` that the balancer reads.
pub record UpstreamConfig (F : Type 0) : Type 0 where
  pub name : Bytes
  pub weight : F

abbrev pub new_upstream : {F : Type 0} → UpstreamConfig F → UpstreamState F
new_upstream u = record {
  name = u.name;
  weight = u.weight;
  tcp = unchecked;
  udp = unchecked;
  tcp_cooldown_until = 0;
  udp_cooldown_until = 0;
}

unfoldable pub new_load_balancer :
    {F : Type 0} → List (UpstreamConfig F) → HealthcheckConfig F → SelectionConfig → LoadBalancer F
new_load_balancer ups hc sel = record {
  hc = hc;
  sel = sel;
  pool = map new_upstream ups;
  current = none;
  sticky_until = 0;
}

-- What DisableBackgroundProbes makes of an endpoint; the latency and the schedule stay.
abbrev pub taken_as_up : ℕ → HcState → HcState
taken_as_up now h = record h {
  healthy = true;
  fail_count = 0;
  success_count = 1;
  last_error = none;
  last_check_time = now;
}

abbrev pub up_from : {F : Type 0} → ℕ → UpstreamState F → UpstreamState F
up_from now s = record s {
  tcp = taken_as_up now s.tcp;
  udp = taken_as_up now s.udp;
  tcp_cooldown_until = 0;
  udp_cooldown_until = 0;
}

-- The loop over the pool; `clock i` is what it reads for the upstream `i`.
unfoldable pub all_up : {F : Type 0} → (ℕ → ℕ) → ℕ → List (UpstreamState F) → List (UpstreamState F)
all_up clock i [] = []
all_up clock i (s ∷ ss) = up_from (clock i) s ∷ all_up clock (i + 1) ss

unfoldable pub disable_background_probes : {F : Type 0} → (ℕ → ℕ) → LoadBalancer F → LoadBalancer F
unfolding all_up
disable_background_probes clock lb = record lb { pool = all_up clock 0 lb.pool }
