-- ===== src/Config/Tests.antt =====
-- The theorems on the configuration at a file that says little, with thousandths for float64.
use outline_cli_ws.Common.{ℕ, ◌≡◌, refl, Bool, true, false, [], ◌∷◌, ◌==◌}
use outline_cli_ws.Common.Bytes.{Bytes}
use outline_cli_ws.Common.Float.{milli}
use outline_cli_ws.Common.Int.{pos, negsuc}
use outline_cli_ws.Config.HostPort.{has_prefix, left_bracket}
use outline_cli_ws.Config.Defaults.{Config, with_defaults, seconds}
use outline_cli_ws.Config.Defaults.Health.{with_defaults-run}
use outline_cli_ws.Config.HostPort.{normalize_host_port}
use outline_cli_ws.Config.HostPort.Brackets.{Normalized, normalize_host_port-Normalized}
use outline_cli_ws.Lb.Health.Laws.{Within, Check, check, run}
use outline_cli_ws.Lb.State.{HcState}
use outline_cli_ws.Common.{none, some, eof}

-- For the test, what starts with a bracket splits.
abbrev splits : Bytes → Bool
splits s = has_prefix left_bracket s

abbrev is_ip : Bytes → Bool
is_ip s = true

-- An address with no brackets, a negative weight, and a limit that is set.
abbrev config : Config ℕ
config = record {
  tun = record {
    mtu = pos 0;
    udp_max_flows = negsuc 0;
    udp_idle_timeout = pos 0;
    udp_gc_interval = pos 5;
    udp_flow_idle_timeout = pos 0;
    udp_max_dst_per_port = pos 0;
  };
  healthcheck = record {
    interval = pos 0;
    timeout = pos 0;
    fail_threshold = 0;
    success_threshold = 0;
    min_interval = pos 0;
    max_interval = pos 0;
    jitter = pos 0;
    backoff_factor = 0;
    rtt_scale = 0;
  };
  selection = record { sticky_ttl = pos 0; cooldown = pos 7; min_switch = pos 0 };
  standby = record {
    warm_standby_n = pos 0;
    warm_standby_interval = pos 0;
    standby_keepalive_interval = pos 0;
    standby_keepalive_probe_timeout = pos 0;
  };
  probe = record {
    enable_tcp = false;
    enable_udp = false;
    timeout = pos 0;
    tcp_target = [];
    udp_target = 58 ∷ 58 ∷ 49 ∷ 58 ∷ 53 ∷ [];
    dns_name = [];
    dns_type = [];
  };
  weights = 0 ∷ 2000 ∷ [];
}

abbrev is_zero : ℕ → Bool
is_zero f = f == 0

-- An upstream that is up.
abbrev up : HcState
up = record {
  healthy = true;
  fail_count = 0;
  success_count = 0;
  in_flight = false;
  last_error = none;
  last_check_time = 0;
  last_rtt = pos 20000000;
  rtt_ewma = pos 20000000;
  next_hc = 0;
  hc_every = pos 0;
}

abbrev failing : Check milli
failing = record { error = some eof; rtt = pos 0; at = 5; draw = 1 }

abbrev passing : Check milli
passing = record { error = none; rtt = pos 30000000; at = 9; draw = 1 }

-- Two failed checks under the file above, and a passed one.
with_defaults-run_example :
    let hc = (with_defaults milli is_zero splits is_ip config).healthcheck in
    ((run milli hc up (failing ∷ failing ∷ [])).healthy ≡ false)
    × ((check milli hc (run milli hc up (failing ∷ failing ∷ [])) passing).healthy ≡ true)
    × Within
        (seconds 1)
        (seconds 30)
        (check milli hc (run milli hc up (failing ∷ failing ∷ [])) passing).hc_every
with_defaults-run_example =
    with_defaults-run milli is_zero splits is_ip config up (failing ∷ failing ∷ []) passing passing
      refl refl refl refl refl (λ e. cc, (λ e. cc, tt)) refl

-- "::1:53" is "::1" and a port.
normalize_host_port-Normalized_example :
    Normalized splits is_ip
      (58 ∷ 58 ∷ 49 ∷ 58 ∷ 53 ∷ [])
      (normalize_host_port splits is_ip (58 ∷ 58 ∷ 49 ∷ 58 ∷ 53 ∷ []))
normalize_host_port-Normalized_example =
    normalize_host_port-Normalized splits is_ip (58 ∷ 58 ∷ 49 ∷ 58 ∷ 53 ∷ [])
