-- ===== src/Lb/Select/Sticky.antt =====
-- `pickByEndpoint`: what it returns, what it remembers, and a reported failure in between.
use outline_cli_ws.Common.{no_healthy_upstreams}
use outline_cli_ws.Common.Int.{ℤ, pos, ltb_ℤ, ◌-ℤ◌}
use outline_cli_ws.Common.Float.{Float}
use outline_cli_ws.Lb.State.{UpstreamState, LoadBalancer, before, add_time}
use outline_cli_ws.Lb.Health.{report_tcp_failure, report_tcp, failed_state}
use outline_cli_ws.Lb.Select.{eligible, usable, pick_best, with_current, without_current, pick_tcp}
use outline_cli_ws.Lb.Select.Optimal.{Optimal, pick_best-Optimal}
use outline_cli_ws.Common.{
  ℕ, ◌≡◌, refl, ap, ◌∙◌, subst, ◌≢◌, inl, inr, Bool, true, false, not, ◌&&◌, Option, none, some,
  List, arith, ◌==◌, if◌then◌else◌, Bool-cases, get_elem?, get_elem?-set_self, get_elem?-some-lt,
}
use outline_cli_ws.Common.{Error, Result, ok, err}

module _ (fl : Float) where
  open fl use {F}

  -- The upstream at the index is there, healthy, and out of its cooldown.
  abbrev pub Serves : Bool → ℕ → List (UpstreamState F) → ℕ → Type 0
  Serves is_tcp now pool i =
      (s : UpstreamState F) × (get_elem? pool i ≡ some s) × (eligible fl is_tcp now s ≡ true)

  usable-eligible :
      (now : ℕ) (s : UpstreamState F) → usable fl now s ≡ true → eligible fl true now s ≡ true
  usable-eligible now s h = ground arith

  -- A success hands out a serving upstream; a failure leaves the balancer as it was.
  abbrev pub Picked : LoadBalancer F → ℕ → LoadBalancer F × Result ℕ → Type 0
  Picked lb now (lb', ok i) =
      Serves true now lb.pool i × (lb'.pool ≡ lb.pool) × (lb'.current ≡ some i)
  Picked lb now (lb', err e) = (lb' ≡ lb) × (e ≡ no_healthy_upstreams)

  without_current-Picked :
      (lb : LoadBalancer F) (now : ℕ) (r : Result (ℕ × ℤ))
      → Optimal fl lb.hc true now lb.pool r
      → Picked lb now (without_current fl lb now r)
  unfolding without_current
  without_current-Picked lb now (err e) o = (refl, o.0)
  without_current-Picked lb now (ok (i, rtt)) (s, g, f, _, _) = ((s, g, f), refl, refl)

  with_current-Picked :
      (lb : LoadBalancer F) (now k : ℕ) (cur : UpstreamState F) (r : Result (ℕ × ℤ))
      → get_elem? lb.pool k ≡ some cur
      → Optimal fl lb.hc true now lb.pool r
      → Picked lb now (with_current fl lb now k cur r)
  unfolding with_current
  with_current-Picked lb now k cur (err e) g o = (refl, o.0)
  with_current-Picked lb now k cur (ok (i, rtt)) g (s, g', f, _, _) =
      elim (Bool-cases (
        not (k == i)
        && usable fl now cur
        && ltb_ℤ (pos 0) cur.tcp.rtt_ewma
        && ltb_ℤ (pos 0) rtt
        && ltb_ℤ (cur.tcp.rtt_ewma -ℤ rtt) lb.sel.min_switch)) [
          | inl h ↦ rw h ((cur, g, ground arith), refl, refl)
          | inr h ↦ rw h ((s, g', f), refl, refl)
        ]

  -- PickTCP hands out only an upstream of the pool that is healthy and past its cooldown, by the
  -- sticky choice, the hysteresis and the best candidate alike, and makes it the current one;
  -- where it fails, the balancer stays as it was.
  pub pick_tcp-Picked : (lb : LoadBalancer F) (now : ℕ) → Picked lb now (pick_tcp fl lb now)
  unfolding pick_tcp
  pick_tcp-Picked lb now = on_current lb.current refl
    where
      best : Result (ℕ × ℤ)
      best = pick_best fl lb.hc lb.pool now true

      optimal : Optimal fl lb.hc true now lb.pool best
      optimal = pick_best-Optimal fl lb.hc true now lb.pool

      on_cur :
          (k : ℕ) (o : Option (UpstreamState F))
          → lb.current ≡ some k
          → get_elem? lb.pool k ≡ o
          → Picked lb now (elim o [
            | none ↦ without_current fl lb now best
            | some cur ↦
                if before now lb.sticky_until && usable fl now cur
                then (lb, ok k)
                else with_current fl lb now k cur best
          ])
      on_cur k none c g = without_current-Picked lb now best optimal
      on_cur k (some cur) c g =
          elim (Bool-cases (before now lb.sticky_until && usable fl now cur)) [
            | inl h ↦ rw h ((cur, g, ground arith), refl, c)
            | inr h ↦ rw h (with_current-Picked lb now k cur best g optimal)
          ]

      on_current :
          (o : Option ℕ)
          → lb.current ≡ o
          → Picked lb now (elim o [
            | none ↦ without_current fl lb now best
            | some k ↦ elim (get_elem? lb.pool k) [
              | none ↦ without_current fl lb now best
              | some cur ↦
                  if before now lb.sticky_until && usable fl now cur
                  then (lb, ok k)
                  else with_current fl lb now k cur best
            ]
          ])
      on_current none c = without_current-Picked lb now best optimal
      on_current (some k) c = on_cur k (get_elem? lb.pool k) c refl

  Picked-Serves :
      (lb : LoadBalancer F) (now i : ℕ) (r : LoadBalancer F × Result ℕ)
      → Picked lb now r
      → r.1 ≡ ok i
      → Serves true now lb.pool i
  Picked-Serves lb now i (lb', ok j) p e =
      let same : j ≡ i = cc in subst (Serves true now lb.pool) same p.0
  Picked-Serves lb now i (lb', err x) p e = cc

  reported_down :
      (lb : LoadBalancer F) (i : ℕ) (e : Error) (now draw : ℕ) (s : UpstreamState F)
      → get_elem? (report_tcp_failure fl lb (some i) e now draw).pool i ≡ some s
      → s.tcp.healthy ≡ false
  unfolding report_tcp_failure report_tcp failed_state
  reported_down lb i e now draw s = on (get_elem? lb.pool i) refl
    where
      failed : UpstreamState F → UpstreamState F
      failed x = record x {
        tcp = failed_state fl lb.hc x.tcp e now draw;
        tcp_cooldown_until = add_time now lb.sel.cooldown;
      }

      on :
          (o : Option (UpstreamState F))
          → get_elem? lb.pool i ≡ o
          → (let after : LoadBalancer F = elim o [
            | none ↦ lb
            | some x ↦ report_tcp fl lb i x e now draw
          ] in
              get_elem? after.pool i ≡ some s)
          → s.tcp.healthy ≡ false
      on none g h = cc
      on (some x) g h =
          let written = get_elem?-set_self lb.pool i (failed x) (get_elem?-some-lt lb.pool i x g) in
          let same : failed x ≡ s = cc in rw (← same) refl

  -- Once a TCP failure of an upstream has been reported, PickTCP does not hand that upstream out,
  -- at whatever time, from the balancer that the report left.
  pub pick_tcp-report_tcp_failure :
      (lb : LoadBalancer F) (i : ℕ) (e : Error) (now draw later : ℕ)
      → (pick_tcp fl (report_tcp_failure fl lb (some i) e now draw) later).1 ≢ ok i
  pick_tcp-report_tcp_failure lb i e now draw later h = contradiction
    where
      lb' : LoadBalancer F
      lb' = report_tcp_failure fl lb (some i) e now draw

      serves : Serves true later lb'.pool i
      serves = Picked-Serves lb' later i (pick_tcp fl lb' later) (pick_tcp-Picked lb' later) h

      contradiction : ⊥
      contradiction = let (s, g, f) = serves in ground (arith, reported_down lb i e now draw s g)

  Picked-current :
      (lb : LoadBalancer F) (now i : ℕ) (r : LoadBalancer F × Result ℕ)
      → Picked lb now r
      → r.1 ≡ ok i
      → (r.0.pool ≡ lb.pool) × (r.0.current ≡ some i)
  Picked-current lb now i (lb', ok j) p e = let same : j ≡ i = cc in (p.1, p.2 ∙ ap some same)
  Picked-current lb now i (lb', err x) p e = cc

  -- PickTCP makes the choice it made again, and changes nothing, as long as the chosen upstream is
  -- healthy, out of its cooldown and within the sticky time.
  pub pick_tcp_sticky :
      (lb : LoadBalancer F) (now later i : ℕ) (s : UpstreamState F)
      → (pick_tcp fl lb now).1 ≡ ok i
      → get_elem? lb.pool i ≡ some s
      → usable fl later s ≡ true
      → before later (pick_tcp fl lb now).0.sticky_until ≡ true
      → pick_tcp fl (pick_tcp fl lb now).0 later ≡ ((pick_tcp fl lb now).0, ok i)
  unfolding pick_tcp
  pick_tcp_sticky lb now later i s e g u b = again (pick_tcp fl lb now).0 kept.0 kept.1 b
    where
      kept : ((pick_tcp fl lb now).0.pool ≡ lb.pool) × ((pick_tcp fl lb now).0.current ≡ some i)
      kept = Picked-current lb now i (pick_tcp fl lb now) (pick_tcp-Picked lb now) e

      again :
          (l : LoadBalancer F)
          → l.pool ≡ lb.pool
          → l.current ≡ some i
          → before later l.sticky_until ≡ true
          → pick_tcp fl l later ≡ (l, ok i)
      again l p c t = let there : get_elem? l.pool i ≡ some s = rw p g in ground (arith, there)
