-- ===== src/Tun/Flows/Steps.antt =====
-- Each critical section on the flows of a source port, internal/tun_native.go and
-- internal/tun_udp_porttable.go.
use outline_cli_ws.Common.Int.{ℤ, pos, negsuc, ltb_ℤ}
use outline_cli_ws.Socks.Addr.{AddrKey}
use outline_cli_ws.Udp.Session.{Ip, Session, subscribe}
use outline_cli_ws.Udp.Session.Channels.{WellFormed}
use outline_cli_ws.Udp.Session.Safety.{subscribe-Sound}
use outline_cli_ws.Udp.Session.Lookups.{
  IsSubscribed, unsubscribe-Unsubscribed, subscribe-IsSubscribed_self, subscribe-IsSubscribed,
}
use outline_cli_ws.Tun.Ports.{or_positive}
use outline_cli_ws.Tun.Flows.{
  Flow, PortFlows, FlowStep, opening, marking, deleting, unsubscribing_flow, pruning, has_flow,
  set_flow, delete_flow, open_flow, mark, unsubscribe_flow, drop_flow, prune_flows, flow_step,
}
use outline_cli_ws.Tun.Flows.Entries.{
  set_flow-All, delete_flow-All, has_flow-All, length-set_flow, length-delete_flow,
}
use outline_cli_ws.Tun.Flows.Served.{Key, Serves, Other, Apart, prune-Pruned, still_served}
use outline_cli_ws.Tun.Flows.Apart.{Free, set_flow-Apart, delete_flow-Apart}
use outline_cli_ws.Common.{
  ℕ, suc, ◌≤◌, ◌≡◌, refl, sym, ◌∙◌, subst, inl, inr, true, false, Option, some, List, [], ◌∷◌,
  arith, Bool-cases, length, All,
}
use outline_cli_ws.Common.Bytes.{Bytes}

-- The number of flows is within UDPMaxDstPerPort.
abbrev pub Within : ℤ → List Flow → Type 0
Within max_dst fs = ltb_ℤ (or_positive max_dst (pos 512)) (pos (length fs)) ≡ false

below_limit : (m : ℤ) (n : ℕ) → ltb_ℤ (pos n) m ≡ true → ltb_ℤ m (pos (suc n)) ≡ false
below_limit (pos k) n h = ground arith
below_limit (negsuc k) n h = ground arith

fewer : (m : ℤ) (n k : ℕ) → k ≤ n → ltb_ℤ m (pos n) ≡ false → ltb_ℤ m (pos k) ≡ false
fewer (pos j) n k h e = ground arith
fewer (negsuc j) n k h e = ground arith

module _ (split : Bytes → Option (Bytes × Bytes)) (parse_uint : Bytes → Option ℕ)
    (parse_ip : Bytes → Option Ip) where
  -- The session is sound, each flow has a subscription, no two flows share one, and there are not
  -- more flows than the limit.
  pub record Served (max_dst : ℤ) (p : PortFlows) : Type 0 where
    pub sound : WellFormed p.session
    pub served : All (Serves split parse_uint parse_ip p.session) p.flows
    pub apart : Apart split parse_uint parse_ip p.flows
    pub within : Within max_dst p.flows

  -- What the code takes for granted at a step: a destination has a key, which no flow of another
  -- destination has; a packet comes for a flow that is in the map, and a
  -- destination is unsubscribed when its flow is not.
  abbrev pub Keyed : Bytes → PortFlows → Type 0
  Keyed d p =
      ((k : AddrKey) × Key split parse_uint parse_ip d k) × Free split parse_uint parse_ip d p.flows

  abbrev pub Expected : FlowStep → PortFlows → Type 0
  Expected (opening now d) p = Keyed d p
  Expected (marking now d) p = has_flow d p.flows ≡ true
  Expected (deleting d) p = Unit {0}
  Expected (unsubscribing_flow d) p = Keyed d p × (has_flow d p.flows ≡ false)
  Expected (pruning now) p = Unit {0}

  more_served :
      (s t : Session) (fs : List Flow)
      → ((l : AddrKey) → IsSubscribed l s → IsSubscribed l t)
      → All (Serves split parse_uint parse_ip s) fs
      → All (Serves split parse_uint parse_ip t) fs
  more_served s t [] m h = tt
  more_served s t (f ∷ fs) m ((k, e, b), h) = ((k, e, m k b), more_served s t fs m h)

  -- The length behind a write, by whether the flow was there.
  grown_Within :
      (max_dst : ℤ) (now : ℕ) (d : Bytes) (fs : List Flow)
      → has_flow d fs ≡ false
      → ltb_ℤ (pos (length fs)) (or_positive max_dst (pos 512)) ≡ true
      → Within max_dst (set_flow d now fs)
  grown_Within max_dst now d fs n room =
      let size : length (set_flow d now fs) ≡ suc (length fs) =
        length-set_flow d now fs ∙ rw n refl in
      let m = or_positive max_dst (pos 512) in
      subst (λ x. ltb_ℤ m (pos x) ≡ false) (sym size) (below_limit m (length fs) room)

  kept_Within :
      (max_dst : ℤ) (fs gs : List Flow)
      → length gs ≤ length fs
      → Within max_dst fs
      → Within max_dst gs
  kept_Within max_dst fs gs h w = fewer (or_positive max_dst (pos 512)) (length fs) (length gs) h w

  open_flow-Served :
      (max_dst : ℤ) (now : ℕ) (d : Bytes) (p : PortFlows)
      → Served max_dst p
      → Keyed d p
      → Served max_dst (open_flow split parse_uint parse_ip max_dst now d p).0
  unfolding open_flow
  open_flow-Served max_dst now d p h ((k, e), free) = elim (Bool-cases (has_flow d p.flows)) [
    | inl t ↦ rw (t, open_flow) h
    | inr n ↦ elim (Bool-cases (ltb_ℤ (pos (length p.flows)) (or_positive max_dst (pos 512)))) [
      | inr full ↦ rw (n, full, open_flow) h
      | inl room ↦
          let s = (subscribe (some k) p.session).0 in
          rw (n, room, e, open_flow)
            (record {
              sound = subscribe-Sound (some k) p.session h.sound;
              served =
                  set_flow-All (Serves split parse_uint parse_ip s) d now p.flows
                    (k, e, subscribe-IsSubscribed_self k p.session)
                    (more_served p.session s p.flows (λ l b. subscribe-IsSubscribed k l p.session b)
                      h.served);
              apart = set_flow-Apart split parse_uint parse_ip d now p.flows h.apart free;
              within = grown_Within max_dst now d p.flows n room;
            })
    ]
  ]

  mark-Served :
      (max_dst : ℤ) (now : ℕ) (d : Bytes) (p : PortFlows)
      → Served max_dst p
      → has_flow d p.flows ≡ true
      → Served max_dst (mark now d p)
  unfolding mark
  mark-Served max_dst now d p h t =
      let here = has_flow-All (Serves split parse_uint parse_ip p.session) d p.flows t h.served in
      let size : length (set_flow d now p.flows) ≡ length p.flows =
        length-set_flow d now p.flows ∙ rw t refl in
      record {
        sound = h.sound;
        served =
            set_flow-All (Serves split parse_uint parse_ip p.session) d now p.flows here.1 h.served;
        apart =
            set_flow-Apart split parse_uint parse_ip d now p.flows h.apart
              (λ k e n. let q = sym t ∙ n in cc);
        within =
            kept_Within max_dst p.flows (set_flow d now p.flows) (omega (arith, size)) h.within;
      }

  abbrev Sane : ℤ → Option PortFlows → Type 0
  Sane max_dst r = (q : PortFlows) × (r ≡ some q) × Served max_dst q

  -- An Unsubscribe where no flow has the key.
  unsubscribe_flow-Sane :
      (max_dst : ℤ) (d : Bytes) (k : AddrKey) (p : PortFlows)
      → Served max_dst p
      → Key split parse_uint parse_ip d k
      → All (Other split parse_uint parse_ip k) p.flows
      → Sane max_dst (unsubscribe_flow split parse_uint parse_ip d p)
  unfolding unsubscribe_flow
  unsubscribe_flow-Sane max_dst d k p h e o =
      let (t, u, q) = unsubscribe-Unsubscribed k p.session h.sound in
      (
        record p { session = t },
        rw (e, u) refl,
        record {
          sound = q.sound;
          served = still_served split parse_uint parse_ip p.session t k p.flows q.others o h.served;
          apart = h.apart;
          within = h.within;
        },
      )

  drop_flow-Served :
      (max_dst : ℤ) (d : Bytes) (p : PortFlows) → Served max_dst p → Served max_dst (drop_flow d p)
  unfolding drop_flow
  drop_flow-Served max_dst d p h = record {
    sound = h.sound;
    served = delete_flow-All (Serves split parse_uint parse_ip p.session) d p.flows h.served;
    apart = delete_flow-Apart split parse_uint parse_ip d p.flows h.apart;
    within =
        kept_Within max_dst p.flows (delete_flow d p.flows) (length-delete_flow d p.flows) h.within;
  }

  prune_flows-Sane :
      (max_dst idle : ℤ) (now : ℕ) (p : PortFlows)
      → Served max_dst p
      → Sane max_dst (prune_flows split parse_uint parse_ip idle now p)
  unfolding prune_flows
  prune_flows-Sane max_dst idle now p h =
      let (r, e, y) =
        prune-Pruned split parse_uint parse_ip idle now p.flows p.session h.sound h.served
          h.apart in
      (
        record { flows = r.0; session = r.1 },
        rw e refl,
        record {
          sound = y.sound;
          served = y.served;
          apart = y.apart;
          within = kept_Within max_dst p.flows r.0 y.fewer h.within;
        },
      )

  -- From flows and a UDP session where each flow has its subscription and the flows are within the
  -- limit, no critical section of tunHandleUDP and gcOnce panics, and each leaves them so, if a
  -- destination has a key that no flow of another destination has, a packet comes for a flow that
  -- is in the map, and a destination is unsubscribed when its flow is not.
  pub flow_step-Served :
      (max_dst idle : ℤ) (st : FlowStep) (p : PortFlows)
      → Served max_dst p
      → Expected st p
      → Sane max_dst (flow_step split parse_uint parse_ip max_dst idle st p)
  unfolding flow_step
  flow_step-Served max_dst idle (opening now d) p h x =
      (_, refl, open_flow-Served max_dst now d p h x)
  flow_step-Served max_dst idle (marking now d) p h x = (_, refl, mark-Served max_dst now d p h x)
  flow_step-Served max_dst idle (deleting d) p h x = (_, refl, drop_flow-Served max_dst d p h)
  flow_step-Served max_dst idle (unsubscribing_flow d) p h (((k, e), free), n) =
      unsubscribe_flow-Sane max_dst d k p h e (free k e n)
  flow_step-Served max_dst idle (pruning now) p h x = prune_flows-Sane max_dst idle now p h
