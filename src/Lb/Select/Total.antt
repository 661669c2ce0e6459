-- ===== src/Lb/Select/Total.antt =====
-- When PickTCP and PickUDP of internal/lb.go hand out an upstream at all.
use outline_cli_ws.Common.Int.{ℤ, pos, ltb_ℤ, ◌-ℤ◌}
use outline_cli_ws.Common.Float.{Float}
use outline_cli_ws.Lb.State.{UpstreamState, LoadBalancer, before}
use outline_cli_ws.Lb.Select.{usable, pick_best, with_current, without_current, pick_tcp, pick_udp}
use outline_cli_ws.Common.{
  ℕ, ◌≡◌, refl, inl, inr, true, false, not, ◌&&◌, ◌==◌, Bool-cases, Option-cases, get_elem?,
}
use outline_cli_ws.Common.{Result, ok}

module _ (fl : Float) where
  open fl use {F}

  abbrev pub HandsOut : Result ℕ → Type 0
  HandsOut r = (i : ℕ) × (r ≡ ok i)

  with_current-HandsOut :
      (lb : LoadBalancer F) (now k i : ℕ) (cur : UpstreamState F) (rtt : ℤ)
      → HandsOut (with_current fl lb now k cur (ok (i, rtt))).1
  unfolding with_current
  with_current-HandsOut lb now k i cur rtt =
      elim (Bool-cases (
        not (k == i)
        && usable fl now cur
        && ltb_ℤ (pos 0) cur.tcp.rtt_ewma
        && ltb_ℤ (pos 0) rtt
        && ltb_ℤ (cur.tcp.rtt_ewma -ℤ rtt) lb.sel.min_switch)) [
          | inl h ↦ rw h (k, refl)
          | inr h ↦ rw h (i, refl)
        ]

  -- A best candidate is enough.
  pub pick_tcp-HandsOut :
      (lb : LoadBalancer F) (now i : ℕ) (rtt : ℤ)
      → pick_best fl lb.hc lb.pool now true ≡ ok (i, rtt)
      → HandsOut (pick_tcp fl lb now).1
  unfolding pick_tcp without_current
  pick_tcp-HandsOut lb now i rtt e = elim (Option-cases lb.current) [
    | inl n ↦ rw (n, e, pick_tcp) (i, refl)
    | inr (k, c) ↦ elim (Option-cases (get_elem? lb.pool k)) [
      | inl g ↦ rw (c, g, e, pick_tcp) (i, refl)
      | inr (cur, g) ↦ elim (Bool-cases (before now lb.sticky_until && usable fl now cur)) [
        | inl t ↦ rw (c, g, t, pick_tcp) (k, refl)
        | inr f ↦ rw (c, g, f, e, pick_tcp) (with_current-HandsOut lb now k i cur rtt)
      ]
    ]
  ]

  pub pick_udp-HandsOut :
      (lb : LoadBalancer F) (now i : ℕ) (rtt : ℤ)
      → pick_best fl lb.hc lb.pool now false ≡ ok (i, rtt)
      → HandsOut (pick_udp fl lb now)
  unfolding pick_udp
  pick_udp-HandsOut lb now i rtt e = rw (e, pick_udp) (i, refl)
