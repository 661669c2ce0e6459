-- ===== src/Tun/Flows.antt =====
-- The flows of a source port: tunHandleUDP of internal/tun_native.go, and the pruning by gcOnce of
-- internal/tun_udp_porttable.go, each critical section a step on the map of flows and the UDP session
-- below it. A flow is its destination; a step that panics returns `none`.
pub mod Entries
pub mod Served
pub mod Apart
pub mod Steps
pub mod Lost
use outline_cli_ws.Common.Partial.{◌>>=◌}
use outline_cli_ws.Common.Bytes.{bytes_equal}
use outline_cli_ws.Common.Int.{ℤ, pos, ltb_ℤ}
use outline_cli_ws.Lb.State.{sub_time}
use outline_cli_ws.Tun.Ports.{or_positive}
use outline_cli_ws.Socks.Addr.{AddrKey}
use outline_cli_ws.Udp.Session.{Ip, Session, addr_key_from_host_port, subscribe, unsubscribe}
use outline_cli_ws.Common.{
  ℕ, ◌*◌, ◌^◌, Bool, false, ◌||◌, Option, some, List, [], ◌∷◌, if◌then◌else◌, length,
}
use outline_cli_ws.Common.Bytes.{Bytes}

-- A destination with the time of its last packet.
abbrev pub Flow : Type 0
Flow = Bytes × ℕ

pub record PortFlows : Type 0 where
  pub flows : List Flow
  pub session : Session

-- `flows[dst]`, `delete(flows, dst)` and `flows[dst] = now`
unfoldable pub has_flow : Bytes → List Flow → Bool
has_flow d [] = false
has_flow d (f ∷ fs) = bytes_equal f.0 d || has_flow d fs

unfoldable pub delete_flow : Bytes → List Flow → List Flow
delete_flow d [] = []
delete_flow d (f ∷ fs) = if bytes_equal f.0 d then delete_flow d fs else f ∷ delete_flow d fs

unfoldable pub set_flow : Bytes → ℕ → List Flow → List Flow
set_flow d now [] = (d, now) ∷ []
set_flow d now (f ∷ fs) = if bytes_equal f.0 d then (d, now) ∷ fs else f ∷ set_flow d now fs

-- What the first critical section of a handler comes to.
pub data Opening : Type 0 where
  joined dropped : Opening
  opened : ℕ → Opening

-- UDPFlowIdleTimeout, and whether a flow is older.
abbrev pub is_idle : ℤ → ℕ → Flow → Bool
is_idle idle now f = ltb_ℤ (or_positive idle (pos (30 * 10 ^ 9))) (sub_time now f.1)

-- The write of `flows[dst]` behind each packet, of the handler and of the goroutine of the replies.
unfoldable pub mark : ℕ → Bytes → PortFlows → PortFlows
unfolding set_flow
mark now d p = record p { flows = set_flow d now p.flows }

-- The deletion of `flows[dst]` at the end of a handler, in front of its Unsubscribe.
unfoldable pub drop_flow : Bytes → PortFlows → PortFlows
unfolding delete_flow
drop_flow d p = record p { flows = delete_flow d p.flows }

-- The critical sections of the handlers, of the goroutines of the replies and of the collection.
pub data FlowStep : Type 0 where
  opening marking : ℕ → Bytes → FlowStep
  deleting unsubscribing_flow : Bytes → FlowStep
  pruning : ℕ → FlowStep

module _ (split : Bytes → Option (Bytes × Bytes)) (parse_uint : Bytes → Option ℕ)
    (parse_ip : Bytes → Option Ip) where
  abbrev pub key_of : Bytes → Option AddrKey
  key_of d = addr_key_from_host_port split parse_uint parse_ip d

  -- tunHandleUDP, to the first Unlock, with UDPMaxDstPerPort.
  unfoldable pub open_flow : ℤ → ℕ → Bytes → PortFlows → PortFlows × Opening
  unfolding has_flow set_flow
  open_flow max_dst now d p =
      if has_flow d p.flows
      then (p, joined)
      else (if ltb_ℤ (pos (length p.flows)) (or_positive max_dst (pos 512))
          then (let r = subscribe (key_of d) p.session in
              (record { flows = set_flow d now p.flows; session = r.0 }, opened r.1))
          else (p, dropped))

  -- `ps.sess.Unsubscribe(dst)`
  unfoldable pub unsubscribe_flow : Bytes → PortFlows → Option PortFlows
  unsubscribe_flow d p = do s ← unsubscribe (key_of d) p.session; some (record p { session = s })

  -- The loop of gcOnce over the flows of a session: what is left of those it goes over.
  unfoldable pub prune : ℤ → ℕ → List Flow → Session → Option (List Flow × Session)
  prune idle now [] s = some ([], s)
  prune idle now (f ∷ fs) s =
      if is_idle idle now f
      then (do s' ← unsubscribe (key_of f.0) s; prune idle now fs s')
      else (do r ← prune idle now fs s; some (f ∷ r.0, r.1))

  unfoldable pub prune_flows : ℤ → ℕ → PortFlows → Option PortFlows
  unfolding prune
  prune_flows idle now p = do
    r ← prune idle now p.flows p.session
    some (record { flows = r.0; session = r.1 })

  unfoldable pub flow_step : ℤ → ℤ → FlowStep → PortFlows → Option PortFlows
  unfolding open_flow mark drop_flow unsubscribe_flow prune_flows
  flow_step max_dst idle (opening now d) p = some (open_flow max_dst now d p).0
  flow_step max_dst idle (marking now d) p = some (mark now d p)
  flow_step max_dst idle (deleting d) p = some (drop_flow d p)
  flow_step max_dst idle (unsubscribing_flow d) p = unsubscribe_flow d p
  flow_step max_dst idle (pruning now) p = prune_flows idle now p
