-- ===== src/Config/Defaults.antt =====
-- The defaults of `LoadConfig`, internal/config.go, behind the YAML parser: the fields that a file
-- leaves out have the zero of their type.
pub mod Health
use outline_cli_ws.Common.Float.{Float}
use outline_cli_ws.Common.Int.{ℤ, pos, negsuc}
use outline_cli_ws.Common.Bytes.{Bytes}
use outline_cli_ws.Common.{
  ℕ, ◌*◌, ◌^◌, Bool, true, false, not, ◌&&◌, List, [], ◌∷◌, map, ◌==◌, if◌then◌else◌,
}
use outline_cli_ws.Lb.State.{HealthcheckConfig, SelectionConfig}
use outline_cli_ws.Config.HostPort.{normalize_host_port}

pub record TunConfig : Type 0 where
  pub mtu : ℤ
  pub udp_max_flows : ℤ
  pub udp_idle_timeout : ℤ
  pub udp_gc_interval : ℤ
  pub udp_flow_idle_timeout : ℤ
  pub udp_max_dst_per_port : ℤ

-- The fields of the selection that the warm standby reads.
pub record StandbyConfig : Type 0 where
  pub warm_standby_n : ℤ
  pub warm_standby_interval : ℤ
  pub standby_keepalive_interval : ℤ
  pub standby_keepalive_probe_timeout : ℤ

pub record ProbeConfig : Type 0 where
  pub enable_tcp : Bool
  pub enable_udp : Bool
  pub timeout : ℤ
  pub tcp_target : Bytes
  pub udp_target : Bytes
  pub dns_name : Bytes
  pub dns_type : Bytes

pub record Config (F : Type 0) : Type 0 where
  pub tun : TunConfig
  pub healthcheck : HealthcheckConfig F
  pub selection : SelectionConfig
  pub standby : StandbyConfig
  pub probe : ProbeConfig
  pub weights : List F

abbrev pub seconds : ℕ → ℤ
seconds n = pos (n * 10 ^ 9)

abbrev pub milliseconds : ℕ → ℤ
milliseconds n = pos (n * 10 ^ 6)

-- `if v == 0 { v = d }`, for a number, a count and a text.
unfoldable pub int_or : ℤ → ℤ → ℤ
int_or (pos n) d = if n == 0 then d else pos n
int_or (negsuc n) d = negsuc n

unfoldable pub count_or : ℕ → ℕ → ℕ
count_or n d = if n == 0 then d else n

unfoldable pub text_or : Bytes → Bytes → Bytes
text_or [] d = d
text_or (b ∷ bs) d = b ∷ bs

unfoldable pub fill_tun : TunConfig → TunConfig
fill_tun c = record {
  mtu = int_or c.mtu (pos 1500);
  udp_max_flows = int_or c.udp_max_flows (pos 4096);
  udp_idle_timeout = int_or c.udp_idle_timeout (seconds 60);
  udp_gc_interval = int_or c.udp_gc_interval (seconds 10);
  udp_flow_idle_timeout = int_or c.udp_flow_idle_timeout (seconds 30);
  udp_max_dst_per_port = int_or c.udp_max_dst_per_port (pos 512);
}

unfoldable pub fill_selection : SelectionConfig → SelectionConfig
fill_selection c = record {
  sticky_ttl = int_or c.sticky_ttl (seconds 60);
  cooldown = int_or c.cooldown (seconds 20);
  min_switch = int_or c.min_switch (milliseconds 20);
}

unfoldable pub fill_standby : StandbyConfig → StandbyConfig
fill_standby c = record {
  warm_standby_n = int_or c.warm_standby_n (pos 2);
  warm_standby_interval = int_or c.warm_standby_interval (seconds 2);
  standby_keepalive_interval = int_or c.standby_keepalive_interval (seconds 15);
  standby_keepalive_probe_timeout = int_or c.standby_keepalive_probe_timeout (milliseconds 1200);
}

-- "example.com:80", "1.1.1.1:53", "example.com" and "A"
abbrev pub default_host : Bytes
default_host = 101 ∷ 120 ∷ 97 ∷ 109 ∷ 112 ∷ 108 ∷ 101 ∷ 46 ∷ 99 ∷ 111 ∷ 109 ∷ []

abbrev pub default_tcp_target : Bytes
default_tcp_target =
    101 ∷ 120 ∷ 97 ∷ 109 ∷ 112 ∷ 108 ∷ 101 ∷ 46 ∷ 99 ∷ 111 ∷ 109 ∷ 58 ∷ 56 ∷ 48 ∷ []

abbrev pub default_udp_target : Bytes
default_udp_target = 49 ∷ 46 ∷ 49 ∷ 46 ∷ 49 ∷ 46 ∷ 49 ∷ 58 ∷ 53 ∷ 51 ∷ []

abbrev pub default_dns_type : Bytes
default_dns_type = 65 ∷ []

module _ (splits is_ip : Bytes → Bool) where
  unfoldable pub fill_probe : ProbeConfig → ProbeConfig
  fill_probe c =
      let neither : Bool = not c.enable_tcp && not c.enable_udp in
      record {
        enable_tcp = if neither then true else c.enable_tcp;
        enable_udp = if neither then true else c.enable_udp;
        timeout = int_or c.timeout (seconds 2);
        tcp_target = text_or c.tcp_target default_tcp_target;
        udp_target = normalize_host_port splits is_ip (text_or c.udp_target default_udp_target);
        dns_name = text_or c.dns_name default_host;
        dns_type = text_or c.dns_type default_dns_type;
      }

-- `is_zero` is `f == 0`.
module _ (fl : Float) (is_zero : Float.F fl → Bool) where
  unfoldable pub float_or : Float.F fl → Float.F fl → Float.F fl
  float_or f d = if is_zero f then d else f

  unfoldable pub fill_healthcheck : HealthcheckConfig (Float.F fl) → HealthcheckConfig (Float.F fl)
  fill_healthcheck c = record {
    interval = int_or c.interval (seconds 5);
    timeout = int_or c.timeout (seconds 3);
    fail_threshold = count_or c.fail_threshold 2;
    success_threshold = count_or c.success_threshold 1;
    min_interval = int_or c.min_interval (seconds 1);
    max_interval = int_or c.max_interval (seconds 30);
    jitter = int_or c.jitter (milliseconds 200);
    backoff_factor = float_or c.backoff_factor (fl.lit 16 1);
    rtt_scale = float_or c.rtt_scale (fl.lit 25 2);
  }

  -- `if Weight <= 0 { Weight = 1 }`
  unfoldable pub fill_weight : Float.F fl → Float.F fl
  fill_weight w = if fl.le w (fl.lit 0 0) then fl.lit 1 0 else w

  unfoldable pub with_defaults :
      (Bytes → Bool) → (Bytes → Bool) → Config (Float.F fl) → Config (Float.F fl)
  with_defaults splits is_ip c = record {
    tun = fill_tun c.tun;
    healthcheck = fill_healthcheck c.healthcheck;
    selection = fill_selection c.selection;
    standby = fill_standby c.standby;
    probe = fill_probe splits is_ip c.probe;
    weights = map fill_weight c.weights;
  }
