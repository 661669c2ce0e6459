-- ===== src/Lb/Start/Ready.antt =====
-- What a balancer of internal/lb.go hands out before the first health check.
use outline_cli_ws.Common.{no_healthy_upstreams, map}
use outline_cli_ws.Common.Int.{ℤ}
use outline_cli_ws.Common.Float.{Float}
use outline_cli_ws.Lb.State.{UpstreamState, HealthcheckConfig, SelectionConfig, LoadBalancer}
use outline_cli_ws.Lb.Start.{
  UpstreamConfig, new_upstream, new_load_balancer, up_from, all_up, disable_background_probes,
}
use outline_cli_ws.Lb.Select.{eligible, score_of, limit, pick_best, pick_tcp, pick_udp}
use outline_cli_ws.Lb.Select.Sticky.{Picked, pick_tcp-Picked}
use outline_cli_ws.Lb.Select.Total.{HandsOut, pick_tcp-HandsOut, pick_udp-HandsOut}
use outline_cli_ws.Lb.Select.Optimal.{Optimal, pick_best-Optimal}
use outline_cli_ws.Common.{
  ℕ, zero, suc, ◌+◌, ◌≡◌, refl, sym, ap, ◌∙◌, subst, Bool, true, false, some, List, [], ◌∷◌, map,
  arith, get_elem?,
}
use outline_cli_ws.Common.{Result, ok, err}

get_elem?-map :
    {A B : Type 0} (f : A → B) (P : B → Type 0) (xs : List A) (i : ℕ) (y : B)
    → ((x : A) → P (f x))
    → get_elem? (map f xs) i ≡ some y
    → P y
get_elem?-map f P [] i y h e = cc
get_elem?-map f P (x ∷ xs) zero y h e = let same : f x ≡ y = cc in subst P same (h x)
get_elem?-map f P (x ∷ xs) (suc i) y h e = get_elem?-map f P xs i y h e

get_elem?-all_up :
    {F : Type 0} (P : UpstreamState F → Type 0) (clock : ℕ → ℕ) (i d : ℕ)
    (ss : List (UpstreamState F)) (y : UpstreamState F)
    → ((t : ℕ) (x : UpstreamState F) → P (up_from t x))
    → get_elem? (all_up clock i ss) d ≡ some y
    → P y
unfolding all_up
get_elem?-all_up P clock i d [] y h e = cc
get_elem?-all_up P clock i zero (s ∷ ss) y h e =
    let same : up_from (clock i) s ≡ y = cc in subst P same (h (clock i) s)
get_elem?-all_up P clock i (suc d) (s ∷ ss) y h e = get_elem?-all_up P clock (i + 1) d ss y h e

module _ (fl : Float) where
  open fl use {F, lt}

  new_down :
      (u : UpstreamConfig F) (now : ℕ) (is_tcp : Bool)
      → eligible fl is_tcp now (new_upstream u) ≡ false
  new_down u now true = refl
  new_down u now false = refl

  up_eligible :
      (x : UpstreamState F) (start now : ℕ) (is_tcp : Bool)
      → eligible fl is_tcp now (up_from start x) ≡ true
  up_eligible x start now true = ground arith
  up_eligible x start now false = ground arith

  -- No endpoint of a new balancer is eligible.
  best_of_new :
      (ups : List (UpstreamConfig F)) (hc : HealthcheckConfig F) (now : ℕ) (is_tcp : Bool)
      (r : Result (ℕ × ℤ))
      → Optimal fl hc is_tcp now (map new_upstream ups) r
      → r ≡ err no_healthy_upstreams
  best_of_new ups hc now is_tcp (err e) o = ap err o.0
  best_of_new ups hc now is_tcp (ok (i, rtt)) (s, g, f, _, _) =
      let down : eligible fl is_tcp now s ≡ false =
        get_elem?-map new_upstream (λ x. eligible fl is_tcp now x ≡ false) ups i s
          (λ u. new_down u now is_tcp) g in
      cc

  -- With an upstream whose score is below the limit there is a best candidate.
  best_of_up :
      (pool : List (UpstreamState F)) (hc : HealthcheckConfig F) (clock : ℕ → ℕ) (now d : ℕ)
      (is_tcp : Bool) (s : UpstreamState F) (r : Result (ℕ × ℤ))
      → get_elem? (all_up clock 0 pool) d ≡ some s
      → lt (score_of fl hc is_tcp now s) (limit fl) ≡ true
      → Optimal fl hc is_tcp now (all_up clock 0 pool) r
      → (i : ℕ) × (rtt : ℤ) × (r ≡ ok (i, rtt))
  best_of_up pool hc clock now d is_tcp s (ok (i, rtt)) g b o = (i, rtt, refl)
  best_of_up pool hc clock now d is_tcp s (err e) g b o =
      let up : eligible fl is_tcp now s ≡ true =
        get_elem?-all_up (λ x. eligible fl is_tcp now x ≡ true) clock 0 d pool s
          (λ t x. up_eligible x t now is_tcp) g in
      let not_below : lt (score_of fl hc is_tcp now s) (limit fl) ≡ false = o.1 d s g up in
      let contradiction : true ≡ false = sym b ∙ not_below in cc

  new_Picked :
      (ups : List (UpstreamConfig F)) (lb : LoadBalancer F) (now : ℕ)
      (r : LoadBalancer F × Result ℕ)
      → lb.pool ≡ map new_upstream ups
      → Picked fl lb now r
      → r ≡ (lb, err no_healthy_upstreams)
  new_Picked ups lb now (lb', err e) p (same, cause) = λ i. (same i, err (cause i))
  new_Picked ups lb now (lb', ok i) p ((s, g, f), _, _) =
      let here : get_elem? (map new_upstream ups) i ≡ some s =
        ap (λ x. get_elem? x i) (sym p) ∙ g in
      let down : eligible fl true now s ≡ false =
        get_elem?-map new_upstream (λ x. eligible fl true now x ≡ false) ups i s
          (λ u. new_down u now true) here in
      let contradiction : true ≡ false = sym f ∙ down in cc

  -- PickTCP and PickUDP of a new balancer hand out nothing, and PickTCP leaves it as it is.
  pub pick_tcp-new_load_balancer :
      (ups : List (UpstreamConfig F)) (hc : HealthcheckConfig F) (sel : SelectionConfig) (now : ℕ)
      → let lb = new_load_balancer ups hc sel in
        (pick_tcp fl lb now ≡ (lb, err no_healthy_upstreams))
        × (pick_udp fl lb now ≡ err no_healthy_upstreams)
  unfolding new_load_balancer pick_udp
  pick_tcp-new_load_balancer ups hc sel now =
      let lb : LoadBalancer F = new_load_balancer ups hc sel in
      let pool : List (UpstreamState F) = map new_upstream ups in
      let udp =
        best_of_new ups hc now false (pick_best fl hc pool now false)
          (pick_best-Optimal fl hc false now pool) in
      (
        new_Picked ups lb now (pick_tcp fl lb now) refl (pick_tcp-Picked fl lb now),
        rw (udp, pick_udp) refl,
      )

  -- PickTCP or PickUDP
  abbrev pub pick : Bool → LoadBalancer F → ℕ → Result ℕ
  pick true lb now = (pick_tcp fl lb now).1
  pick false lb now = pick_udp fl lb now

  pick-HandsOut :
      (is_tcp : Bool) (lb : LoadBalancer F) (now i : ℕ) (rtt : ℤ)
      → pick_best fl lb.hc lb.pool now is_tcp ≡ ok (i, rtt)
      → HandsOut fl (pick is_tcp lb now)
  pick-HandsOut true lb now i rtt e = pick_tcp-HandsOut fl lb now i rtt e
  pick-HandsOut false lb now i rtt e = pick_udp-HandsOut fl lb now i rtt e

  -- After DisableBackgroundProbes, at whatever time, PickTCP hands out an upstream where one of
  -- the pool has a TCP score below 1e18, and PickUDP where one has such a UDP score, whatever the
  -- health, the cooldowns and the choice were before.
  pub pick-disable_background_probes :
      (is_tcp : Bool) (lb : LoadBalancer F) (clock : ℕ → ℕ) (now d : ℕ) (s : UpstreamState F)
      → get_elem? (disable_background_probes clock lb).pool d ≡ some s
      → lt (score_of fl lb.hc is_tcp now s) (limit fl) ≡ true
      → HandsOut fl (pick is_tcp (disable_background_probes clock lb) now)
  unfolding disable_background_probes
  pick-disable_background_probes is_tcp lb clock now d s g b =
      let pool : List (UpstreamState F) = all_up clock 0 lb.pool in
      let (i, rtt, e) =
        best_of_up lb.pool lb.hc clock now d is_tcp s (pick_best fl lb.hc pool now is_tcp) g b
          (pick_best-Optimal fl lb.hc is_tcp now pool) in
      pick-HandsOut is_tcp (record lb { pool = pool }) now i rtt e
