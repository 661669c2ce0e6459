-- ===== src/Lb/Select.antt =====
-- The choice of an upstream: `pickBestCandidateByEndpoint` and `pickByEndpoint` of
-- internal/lb.go. Log lines and metrics are left out.
pub mod Optimal
pub mod Sticky
pub mod Total
pub mod TopN
mod Tests
use outline_cli_ws.Common.{no_healthy_upstreams}
use outline_cli_ws.Common.Int.{ℤ, pos, negsuc, ◌-ℤ◌, ltb_ℤ, pos_part, neg_part}
use outline_cli_ws.Common.Float.{Float}
use outline_cli_ws.Lb.State.{
  HcState, UpstreamState, HealthcheckConfig, LoadBalancer, before, after, add_time, sub_time,
}
use outline_cli_ws.Common.{
  ℕ, zero, suc, ◌+◌, ◌-◌, ◌*◌, ◌/◌, ◌%◌, ◌^◌, ◌≤◌, ◌<◌, min, bit_and, bit_or, bit_xor, ◌≡◌, refl,
  sym, ap, ◌∙◌, subst, ◌≢◌, ◌↔◌, ◌⊎◌, inl, inr, Bool, true, false, not, ◌&&◌, ◌||◌, Option, none,
  some, List, [], ◌∷◌, ◌++◌, map, foldl, append-nil, append_assoc, arith, ltb, leb, ◌==◌,
  if◌then◌else◌, ==_iff, leb→le, Bool-cases, Option-cases, is_some, length, get_elem?, get_or, set,
  take, drop, All, length-append, take-append, drop-append, length-set, get_elem?-set_self,
  get_elem?-set_ne, length-drop, take-append-drop, get_elem?-some-lt, All-get_or, All-append,
}
use outline_cli_ws.Common.{Error, Result, ok, err}
use outline_cli_ws.Common.{◌>>=◌, ◌>>◌, fail_if, >>=-eq-ok}
use outline_cli_ws.Common.Bytes.{
  Bytes, IsByte, put_uint16, put_uint64, big_endian, big_endian-put_uint16, big_endian-put_uint64,
}

-- d.Milliseconds(), which truncates towards zero.
abbrev milliseconds : ℤ → ℤ
milliseconds (pos n) = pos (n / 1000000)
milliseconds (negsuc n) = pos 0 -ℤ pos ((n + 1) / 1000000)

-- 2 * d
abbrev double : ℤ → ℤ
double (pos n) = pos (2 * n)
double (negsuc n) = negsuc (2 * n + 1)

-- The endpoint's health and cooldown.
abbrev pub health : {F : Type 0} → Bool → UpstreamState F → HcState
health is_tcp s = if is_tcp then s.tcp else s.udp

abbrev pub cooldown : {F : Type 0} → Bool → UpstreamState F → ℕ
cooldown is_tcp s = if is_tcp then s.tcp_cooldown_until else s.udp_cooldown_until

module _ (fl : Float) where
  open fl use {F, of_int, lit, add, mul, div, lt, le}

  zero_float : F
  zero_float = lit 0 0

  -- The score of an upstream: latency and penalties over its weight. Lower is better.
  pub score : HealthcheckConfig F → ℕ → HcState → F → F
  unfolding zero_float
  score c now h w =
      let ms : F = of_int (milliseconds h.rtt_ewma) in
      let base : F = if le ms zero_float then lit 1000 0 else ms in
      let staleness : ℤ = sub_time now h.last_check_time in
      let stale_penalty : F =
        if ltb_ℤ (double c.interval) staleness
        then mul (of_int (milliseconds staleness)) (lit 2 1)
        else zero_float in
      let fail_penalty : F = mul (of_int (pos h.fail_count)) (lit 500 0) in
      let err_penalty : F = if is_some h.last_error then lit 500 0 else zero_float in
      let weight : F = if le w zero_float then lit 1 0 else w in
      mul (add (add (add base stale_penalty) fail_penalty) err_penalty) (div (lit 1 0) weight)

  -- `!h.healthy || now.Before(cooldownUntil)` skips the upstream.
  abbrev pub eligible : Bool → ℕ → UpstreamState F → Bool
  eligible is_tcp now s = (health is_tcp s).healthy && not (before now (cooldown is_tcp s))

  abbrev pub score_of : HealthcheckConfig F → Bool → ℕ → UpstreamState F → F
  score_of c is_tcp now s = score c now (health is_tcp s) s.weight

  -- The loop's variables: the index of `best`, `bestScore` and `bestRTT`.
  pub record Best : Type 0 where
    pub index : Option ℕ
    pub score : F
    pub rtt : ℤ

  -- One round of the loop.
  pub consider : HealthcheckConfig F → Bool → ℕ → ℕ → UpstreamState F → Best → Best
  consider c is_tcp now i s b =
      let sc : F = score_of c is_tcp now s in
      if eligible is_tcp now s && lt sc b.score
      then record { index = some i; score = sc; rtt = (health is_tcp s).rtt_ewma }
      else b

  pub best_loop : HealthcheckConfig F → Bool → ℕ → ℕ → List (UpstreamState F) → Best → Best
  best_loop c is_tcp now i [] b = b
  best_loop c is_tcp now i (s ∷ ss) b =
      best_loop c is_tcp now (i + 1) ss (consider c is_tcp now i s b)

  -- float64(1e18)
  abbrev pub limit : F
  limit = lit 1000000000000000000 0

  abbrev pub start : Best
  start = record { index = none; score = limit; rtt = pos 0 }

  pub pick_best : HealthcheckConfig F → List (UpstreamState F) → ℕ → Bool → Result (ℕ × ℤ)
  unfolding best_loop consider
  pick_best c pool now is_tcp =
      let b : Best = best_loop c is_tcp now 0 pool start in
      elim b.index [ none ↦ err no_healthy_upstreams | some i ↦ ok (i, b.rtt) ]

  -- `cur.tcp.healthy && now.After(cur.tcpCooldownUntil)`
  abbrev pub usable : ℕ → UpstreamState F → Bool
  usable now s = s.tcp.healthy && after now s.tcp_cooldown_until

  abbrev select : LoadBalancer F → ℕ → ℕ → LoadBalancer F
  select lb now i = record lb { current = some i; sticky_until = add_time now lb.sel.sticky_ttl }

  -- The TCP choice behind the sticky test, with the current upstream `k`.
  with_current :
      LoadBalancer F → ℕ → ℕ → UpstreamState F → Result (ℕ × ℤ) → LoadBalancer F × Result ℕ
  with_current lb now k cur (err e) = (lb, err e)
  with_current lb now k cur (ok (i, rtt)) =
      let stays : Bool =
        not (k == i)
        && usable now cur
        && ltb_ℤ (pos 0) cur.tcp.rtt_ewma
        && ltb_ℤ (pos 0) rtt
        && ltb_ℤ (cur.tcp.rtt_ewma -ℤ rtt) lb.sel.min_switch in
      if stays then (select lb now k, ok k) else (select lb now i, ok i)

  without_current : LoadBalancer F → ℕ → Result (ℕ × ℤ) → LoadBalancer F × Result ℕ
  without_current lb now (err e) = (lb, err e)
  without_current lb now (ok (i, rtt)) = (select lb now i, ok i)

  -- `PickTCP`
  unfoldable pub pick_tcp : LoadBalancer F → ℕ → LoadBalancer F × Result ℕ
  unfolding with_current without_current
  pick_tcp lb now =
      let best : Result (ℕ × ℤ) = pick_best lb.hc lb.pool now true in
      elim lb.current [
        | none ↦ without_current lb now best
        | some k ↦ elim (get_elem? lb.pool k) [
          | none ↦ without_current lb now best
          | some cur ↦
              if before now lb.sticky_until && usable now cur
              then (lb, ok k)
              else with_current lb now k cur best
        ]
      ]

  -- `PickUDP`: no sticky choice, and the balancer stays as it is.
  unfoldable pub pick_udp : LoadBalancer F → ℕ → Result ℕ
  pick_udp lb now = elim (pick_best lb.hc lb.pool now false) [ err e ↦ err e | ok (i, rtt) ↦ ok i ]
