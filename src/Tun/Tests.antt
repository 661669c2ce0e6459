-- ===== src/Tun/Tests.antt =====
-- The theorem on the table of port sessions at a race of two flows with one source port.
use outline_cli_ws.Common.{Option, some, true, false, refl, arith}
use outline_cli_ws.Common.Bytes.{Bytes, bytes_equal}
use outline_cli_ws.Socks.Addr.{AddrKey}
use outline_cli_ws.Udp.Session.{Ip, v4, lookup, key_equal, addr_key_from_host_port}
use outline_cli_ws.Tun.Flows.{PortFlows, pruning, is_idle, prune_flows, mark, flow_step}
use outline_cli_ws.Tun.Flows.Served.{Key}
use outline_cli_ws.Tun.Flows.Steps.{Served, flow_step-Served}
use outline_cli_ws.Tun.Flows.Lost.{Unserved, mark-prune_flows}
use outline_cli_ws.Common.{ℕ, ◌≡◌, none, List, [], ◌∷◌}
use outline_cli_ws.Common.Int.{pos}
use outline_cli_ws.Common.Owners.{made}
use outline_cli_ws.Tun.Ports.{
  PortKey, Answer, TunLimits, Move, call_get, call_gc, go_on, run, empty,
}
use outline_cli_ws.Tun.Ports.Unique.{Unique}
use outline_cli_ws.Tun.Ports.Ownership.{owners, run-owned}

abbrev limits : TunLimits
limits = record { udp_max_flows = pos 2; udp_idle_timeout = pos 0 }

abbrev source : PortKey
source = record { net_proto = 4; src_ip = 10 ∷ 0 ∷ 0 ∷ 2 ∷ []; src_port = 5353 }

abbrev at_time : ℕ → Answer
at_time n = record { now = n; open_error = none }

-- Both flows open a session, the second one is closed, and the table is collected a long time later.
abbrev race : List Move
race =
    call_get source
    ∷ call_get source
    ∷ go_on 0 (at_time 1)
    ∷ go_on 1 (at_time 2)
    ∷ go_on 0 (at_time 3)
    ∷ go_on 1 (at_time 4)
    ∷ go_on 0 (at_time 5)
    ∷ go_on 1 (at_time 6)
    ∷ go_on 1 (at_time 7)
    ∷ call_gc
    ∷ go_on 0 (at_time 90000000000)
    ∷ go_on 0 (at_time 90000000001)
    ∷ []

run-owned_example :
    ((x : ℕ) → owners x (run limits empty race) ≡ made x (run limits empty race).table.opened)
    × Unique (run limits empty race).table.ports
run-owned_example = run-owned limits race

-- Texts for the test: an address with its port is two bytes, each a number.
abbrev split : Bytes → Option (Bytes × Bytes)
split [] = none
split (h ∷ p) = some (h ∷ [], p)

abbrev parse_uint : Bytes → Option ℕ
parse_uint [] = none
parse_uint (n ∷ ns) = some n

abbrev parse_ip : Bytes → Option Ip
parse_ip h = some (v4 (10 ∷ 0 ∷ 0 ∷ h))

abbrev dns : Bytes
dns = 1 ∷ 53 ∷ []

abbrev dns_key : AddrKey
dns_key = record {
  atyp = 1;
  ip = 10 ∷ 0 ∷ 0 ∷ 1 ∷ 0 ∷ 0 ∷ 0 ∷ 0 ∷ 0 ∷ 0 ∷ 0 ∷ 0 ∷ 0 ∷ 0 ∷ 0 ∷ 0 ∷ [];
  port = 53;
  domain = [];
}

-- One flow with its subscription.
abbrev port_flows : PortFlows
port_flows = record {
  flows = (dns, 5) ∷ [];
  session = record {
    subs = (dns_key, 0) ∷ [];
    channels = record { queue = []; closed = false } ∷ [];
    held = none;
    taken = 0;
    released = 0;
    handed = 0;
  };
}

dns-Key : Key split parse_uint parse_ip dns dns_key
unfolding addr_key_from_host_port
dns-Key = refl

port_flows-Served : Served split parse_uint parse_ip (pos 2) port_flows
unfolding lookup key_equal bytes_equal
port_flows-Served = record {
  sound = record {
    live = (refl, tt);
    separate = (tt, tt);
    kept = ((omega arith, λ e. cc), tt);
    counted = refl;
  };
  served = ((dns_key, dns-Key, refl), tt);
  apart = ((λ k e. tt), tt);
  within = refl;
}

flow_step-Served_example :
    (q : PortFlows) × (flow_step split parse_uint parse_ip (pos 2) (pos 30) (pruning 99) port_flows
      ≡ some q)
    × Served split parse_uint parse_ip (pos 2) q
flow_step-Served_example =
    flow_step-Served split parse_uint parse_ip (pos 2) (pos 30) (pruning 99) port_flows
      port_flows-Served tt

old : is_idle (pos 30) 99 (dns, 5) ≡ true
old = refl

-- The collection at 99 prunes the flow, last seen at 5, and a packet comes at 100.
mark-prune_flows_example :
    (q : PortFlows) × (prune_flows split parse_uint parse_ip (pos 30) 99 port_flows ≡ some q)
    × Unserved split parse_uint parse_ip (pos 2) dns dns_key (mark 100 dns q)
mark-prune_flows_example =
    mark-prune_flows split parse_uint parse_ip (pos 2) (pos 30) 99 100 0 dns 5 dns_key port_flows
      port_flows-Served refl old dns-Key
