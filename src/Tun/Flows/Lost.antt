-- ===== src/Tun/Flows/Lost.antt =====
-- A flow that the collection has pruned while its handler goes on, internal/tun_native.go and
-- internal/tun_udp_porttable.go.
use outline_cli_ws.Common.Int.{ℤ}
use outline_cli_ws.Socks.Addr.{AddrKey}
use outline_cli_ws.Udp.Session.{Ip, lookup}
use outline_cli_ws.Tun.Flows.{
  Flow, PortFlows, joined, is_idle, has_flow, open_flow, mark, prune_flows,
}
use outline_cli_ws.Tun.Flows.Entries.{has_flow-set_flow}
use outline_cli_ws.Tun.Flows.Served.{Key, prune-Pruned}
use outline_cli_ws.Tun.Flows.Steps.{Served}
use outline_cli_ws.Common.{
  ℕ, zero, suc, ◌≡◌, refl, subst, true, Option, none, some, List, [], ◌∷◌, get_elem?, All,
}
use outline_cli_ws.Common.Bytes.{Bytes}

All-get_elem? :
    (P : Flow → Type 0) (fs : List Flow) (i : ℕ) (f : Flow)
    → get_elem? fs i ≡ some f
    → All P fs
    → P f
All-get_elem? P [] i f e h = cc
All-get_elem? P (x ∷ fs) zero f e h = let q : x ≡ f = cc in subst P q h.0
All-get_elem? P (x ∷ fs) (suc i) f e h = All-get_elem? P fs i f e h.1

module _ (split : Bytes → Option (Bytes × Bytes)) (parse_uint : Bytes → Option ℕ)
    (parse_ip : Bytes → Option Ip) where
  -- The flow is in the map, its key has no subscription, and a new handler joins it as it is.
  pub record Unserved (max_dst : ℤ) (d : Bytes) (k : AddrKey) (p : PortFlows) : Type 0 where
    pub there : has_flow d p.flows ≡ true
    pub unsubscribed : lookup k p.session.subs ≡ none
    pub not_opened : (now : ℕ) → open_flow split parse_uint parse_ip max_dst now d p ≡ (p, joined)

  -- A flow that gcOnce prunes as idle, and that its handler then marks with a further packet, is
  -- in the map without a subscription, and a new handler for the destination joins it without
  -- subscribing.
  pub mark-prune_flows :
      (max_dst idle : ℤ) (now later i : ℕ) (d : Bytes) (t : ℕ) (k : AddrKey) (p : PortFlows)
      → Served split parse_uint parse_ip max_dst p
      → get_elem? p.flows i ≡ some (d, t)
      → is_idle idle now (d, t) ≡ true
      → Key split parse_uint parse_ip d k
      → (q : PortFlows) × (prune_flows split parse_uint parse_ip idle now p ≡ some q)
        × Unserved max_dst d k (mark later d q)
  unfolding prune_flows mark open_flow
  mark-prune_flows max_dst idle now later i d t k p h e old key =
      let (r, g, y) =
        prune-Pruned split parse_uint parse_ip idle now p.flows p.session h.sound h.served
          h.apart in
      let here = has_flow-set_flow d later r.0 in
      (
        record { flows = r.0; session = r.1 },
        rw g refl,
        record {
          there = here;
          unsubscribed =
              All-get_elem?
                (λ f.
                  is_idle idle now f ≡ true
                  → (l : AddrKey) → Key split parse_uint parse_ip f.0 l
                  → lookup l r.1.subs ≡ none)
                p.flows i (d, t) e y.ended old k key;
          not_opened = λ n. rw (here, open_flow) refl;
        },
      )
