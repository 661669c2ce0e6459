-- ===== src/Lb/Select/Tests.antt =====
-- The theorems on the choice of an upstream at concrete pools, with thousandths for float64.
use outline_cli_ws.Lb.Select.TopN.{pick_top_n}
use outline_cli_ws.Lb.Select.TopN.Chosen.{Chosen, pick_top_n-Chosen}
use outline_cli_ws.Common.{ℕ, true, false, none, some, List, [], ◌∷◌}
use outline_cli_ws.Common.{eof}
use outline_cli_ws.Common.Float.{milli}
use outline_cli_ws.Common.Int.{pos}
use outline_cli_ws.Common.{ok}
use outline_cli_ws.Socks.Server.{handle_connect}
use outline_cli_ws.Socks.Server.Connect.{Handled, handle_connect-Handled}
use outline_cli_ws.Lb.State.{HcState, UpstreamState, LoadBalancer}
use outline_cli_ws.Lb.Tests.{config, health_of}
use outline_cli_ws.Lb.Select.{pick_best, pick_tcp}
use outline_cli_ws.Common.{◌≡◌, refl, get_elem?, ltb}
use outline_cli_ws.Lb.Select.{score, score_of, limit, zero_float}
use outline_cli_ws.Lb.Select.Total.{HandsOut}
use outline_cli_ws.Lb.Start.{up_from, all_up, disable_background_probes}
use outline_cli_ws.Lb.Start.Ready.{pick, pick-disable_background_probes}
use outline_cli_ws.Lb.Select.Optimal.{Optimal, pick_best-Optimal}
use outline_cli_ws.Lb.Select.Sticky.{Picked, pick_tcp-Picked}

abbrev upstream : HcState → UpstreamState ℕ
upstream h = record {
  name = [];
  weight = 1000;
  tcp = h;
  udp = h;
  tcp_cooldown_until = 0;
  udp_cooldown_until = 0;
}

-- A slow upstream, one that is down, and a fast one.
abbrev pool : List (UpstreamState ℕ)
pool =
    upstream (health_of true (pos 90000000))
    ∷ upstream (health_of false (pos 5000000))
    ∷ upstream (health_of true (pos 20000000))
    ∷ []

abbrev balancer : LoadBalancer ℕ
balancer = record {
  hc = config;
  sel = record { sticky_ttl = pos 50; cooldown = pos 20; min_switch = pos 1 };
  pool = pool;
  current = none;
  sticky_until = 0;
}

pick_best-Optimal_example : Optimal milli config true 20 pool (pick_best milli config pool 20 true)
pick_best-Optimal_example = pick_best-Optimal milli config true 20 pool

pick_tcp-Picked_example : Picked milli balancer 20 (pick_tcp milli balancer 20)
pick_tcp-Picked_example = pick_tcp-Picked milli balancer 20

-- Two are wanted, and the one that is down is passed over.
pick_top_n-Chosen_example : Chosen milli config 20 pool 2 [] (pick_top_n milli config 20 pool 2)
pick_top_n-Chosen_example = pick_top_n-Chosen milli config 20 pool 2

-- A CONNECT that has a connection, but whose reply cannot be written.
handle_connect-Handled_example :
    Handled milli
      (λ i. ok 7)
      (some eof)
      (pick_tcp milli balancer 20)
      (handle_connect milli (λ i. ok 7) (some eof) balancer 20 25 1)
handle_connect-Handled_example =
    handle_connect-Handled milli (λ i. ok 7) (some eof) balancer 20 25 1

-- The pool taken as up at 5; its second upstream was down.
abbrev five : ℕ → ℕ
five i = 5

abbrev revived : UpstreamState ℕ
revived = up_from 5 (upstream (health_of false (pos 5000000)))

revived_there : get_elem? (disable_background_probes five balancer).pool 1 ≡ some revived
unfolding disable_background_probes all_up
revived_there = refl

revived_below : ltb (score_of milli config true 20 revived) (limit milli) ≡ true
unfolding score zero_float
revived_below = refl

pick-disable_background_probes_example :
    HandsOut milli (pick milli true (disable_background_probes five balancer) 20)
pick-disable_background_probes_example =
    pick-disable_background_probes milli true balancer five 20 1 revived revived_there revived_below
