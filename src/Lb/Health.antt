-- ===== src/Lb/Health.antt =====
-- Health checks: `applyHCResult`, the intervals between checks, `runDueChecks` and the failure reports
-- of internal/lb.go, and `applyJitter` of internal/util.go.
pub mod Laws
pub mod InFlight
use outline_cli_ws.Common.Int.{
  ℤ, pos, negsuc, ◌+ℤ◌, ◌-ℤ◌, ◌≤ℤ◌, ltb_ℤ, pos_part, neg_part, +ℤ_parts, -ℤ_parts,
}
use outline_cli_ws.Common.Float.{Float}
use outline_cli_ws.Lb.State.{
  HcState, UpstreamState, HealthcheckConfig, SelectionConfig, LoadBalancer, add_time, not_positive,
  after, before,
}
use outline_cli_ws.Common.{
  ℕ, zero, suc, ◌+◌, ◌-◌, ◌*◌, ◌/◌, ◌%◌, ◌^◌, ◌≤◌, ◌<◌, min, bit_and, bit_or, bit_xor, ◌≡◌, refl,
  sym, ap, ◌∙◌, subst, ◌≢◌, ◌↔◌, ◌⊎◌, inl, inr, Bool, true, false, not, ◌&&◌, ◌||◌, Option, none,
  some, List, [], ◌∷◌, ◌++◌, map, foldl, append-nil, append_assoc, arith, ltb, leb, ◌==◌,
  if◌then◌else◌, ==_iff, leb→le, Bool-cases, Option-cases, is_some, length, get_elem?, get_or, set,
  take, drop, All, length-append, take-append, drop-append, length-set, get_elem?-set_self,
  get_elem?-set_ne, length-drop, take-append-drop, get_elem?-some-lt, All-get_or, All-append,
}
use outline_cli_ws.Common.{Error, Result, ok, err}
use outline_cli_ws.Common.{◌>>=◌, ◌>>◌, fail_if, >>=-eq-ok}
use outline_cli_ws.Common.Bytes.{
  Bytes, IsByte, put_uint16, put_uint64, big_endian, big_endian-put_uint16, big_endian-put_uint64,
}

-- `minDur`
abbrev min_dur : ℤ → ℤ → ℤ
min_dur a b = if ltb_ℤ a b then a else b

-- The two tests that end both interval functions.
unfoldable pub clamp : ℤ → ℤ → ℤ → ℤ
clamp lo hi next =
    let raised : ℤ = if ltb_ℤ next lo then lo else next in if ltb_ℤ hi raised then hi else raised

-- `applyJitter`: `draw` is what `randInt63n(2*jitter + 1)` returned.
unfoldable pub apply_jitter : ℤ → ℤ → ℕ → ℤ
apply_jitter d jitter draw =
    let j : ℤ = pos draw -ℤ jitter in
    if not_positive jitter then d else (if ltb_ℤ (d +ℤ j) (pos 0) then d else d +ℤ j)

module _ (fl : Float) where
  open fl use {F, of_int, to_int, lit, add, mul}

  next_interval_on_failure : HealthcheckConfig F → HcState → ℤ
  next_interval_on_failure c h =
      let known : ℤ = if ltb_ℤ (pos 0) h.hc_every then h.hc_every else c.min_interval in
      let base : ℤ = if h.healthy then c.min_interval else known in
      clamp c.min_interval c.max_interval (to_int (mul (of_int base) c.backoff_factor))

  next_interval_on_success : HealthcheckConfig F → HcState → ℤ
  next_interval_on_success c h =
      let known : ℤ = elim h.hc_every [
        | pos n ↦ if n == 0 then c.interval else pos n
        | negsuc n ↦ negsuc n
      ] in
      let base : ℤ = if ltb h.success_count 3 then min_dur known c.interval else known in
      let extra : ℤ = to_int (mul (of_int h.rtt_ewma) c.rtt_scale) in
      clamp c.min_interval c.max_interval (to_int (mul (of_int base) (lit 12 1)) +ℤ extra)

  -- The failure branch of `applyHCResult`, up to the intervals.
  failed_check : HealthcheckConfig F → HcState → Error → ℕ → HcState
  failed_check c h e now =
      let counted : HcState = record h {
        last_check_time = now;
        last_error = some e;
        success_count = 0;
        fail_count = h.fail_count + 1;
      } in
      record counted {
        healthy = if leb c.fail_threshold counted.fail_count then false else counted.healthy;
      }

  -- The success branch, up to the intervals.
  passed_check : HealthcheckConfig F → HcState → ℤ → ℕ → HcState
  passed_check c h rtt now =
      let mean : ℤ =
        to_int (add (mul (of_int h.rtt_ewma) (lit 8 1)) (mul (of_int rtt) (lit 2 1))) in
      let ewma : ℤ = elim h.rtt_ewma [ pos n ↦ if n == 0 then rtt else mean | negsuc n ↦ mean ] in
      let count : ℕ = h.success_count + 1 in
      record h {
        last_check_time = now;
        last_error = none;
        fail_count = 0;
        success_count = count;
        last_rtt = rtt;
        rtt_ewma = ewma;
        healthy = if leb c.success_threshold count then true else h.healthy;
      }

  schedule : HealthcheckConfig F → HcState → ℤ → ℕ → ℕ → HcState
  unfolding apply_jitter
  schedule c h every now draw = record h {
    hc_every = every;
    next_hc = add_time now (apply_jitter every c.jitter draw);
  }

  -- `now` is the time of both calls of time.Now.
  unfoldable pub apply_hc_result :
      HealthcheckConfig F → HcState → Option Error → ℤ → ℕ → ℕ → HcState
  unfolding failed_check passed_check schedule next_interval_on_failure next_interval_on_success
  apply_hc_result c h (some e) rtt now draw =
      let h' : HcState = failed_check c h e now in
      schedule c h' (next_interval_on_failure c h') now draw
  apply_hc_result c h none rtt now draw =
      let h' : HcState = passed_check c h rtt now in
      schedule c h' (next_interval_on_success c h') now draw

  -- `checkOneTCP` and `checkOneUDP` behind the probes: the slot's error, the transport probe, and the
  -- quality probe if it is enabled. A failed quality probe is ignored.
  probe_rtt : Result ℤ → Option (Result ℤ) → ℤ
  probe_rtt (err e) quality = pos 0
  probe_rtt (ok rtt) none = rtt
  probe_rtt (ok rtt) (some (ok quality)) = quality
  probe_rtt (ok rtt) (some (err e)) = rtt

  probe_error : Result ℤ → Option Error
  probe_error (ok rtt) = none
  probe_error (err e) = some e

  unfoldable pub check_one_tcp :
      HealthcheckConfig F
      → UpstreamState F
      → Option Error
      → Result ℤ
      → Option (Result ℤ)
      → ℕ
      → ℕ
      → UpstreamState F
  unfolding probe_rtt probe_error
  check_one_tcp c st (some e) transport quality now draw =
      let h : HcState = st.tcp in record st { tcp = record h { in_flight = false } }
  check_one_tcp c st none transport quality now draw =
      let h : HcState =
        apply_hc_result c st.tcp (probe_error transport) (probe_rtt transport quality) now draw in
      record st {
        tcp = record h { in_flight = false };
        tcp_cooldown_until = if h.healthy then 0 else st.tcp_cooldown_until;
      }

  unfoldable pub check_one_udp :
      HealthcheckConfig F
      → UpstreamState F
      → Option Error
      → Result ℤ
      → Option (Result ℤ)
      → ℕ
      → ℕ
      → UpstreamState F
  unfolding probe_rtt probe_error
  check_one_udp c st (some e) transport quality now draw =
      let h : HcState = st.udp in record st { udp = record h { in_flight = false } }
  check_one_udp c st none transport quality now draw =
      let h : HcState =
        apply_hc_result c st.udp (probe_error transport) (probe_rtt transport quality) now draw in
      record st {
        udp = record h { in_flight = false };
        udp_cooldown_until = if h.healthy then 0 else st.udp_cooldown_until;
      }

  -- One upstream in `runDueChecks`: the new state, and which checks are launched.
  unfoldable pub launch_due : UpstreamState F → ℕ → UpstreamState F × Bool × Bool
  launch_due st now =
      let t : HcState = st.tcp in
      let u : HcState = st.udp in
      let due_tcp : Bool = not t.in_flight && not (after t.next_hc now) in
      let due_udp : Bool = not u.in_flight && not (after u.next_hc now) in
      (
        record st {
          tcp = record t { in_flight = if due_tcp then true else t.in_flight };
          udp = record u { in_flight = if due_udp then true else u.in_flight };
        },
        due_tcp,
        due_udp,
      )

  -- The part of `ReportTCPFailure` and `ReportUDPFailure` under the upstream's lock.
  unfoldable pub failed_state : HealthcheckConfig F → HcState → Error → ℕ → ℕ → HcState
  unfolding apply_jitter
  failed_state c h e now draw = record h {
    last_error = some e;
    fail_count = h.fail_count + 1;
    success_count = 0;
    healthy = false;
    hc_every = c.min_interval;
    next_hc = add_time now (apply_jitter c.min_interval c.jitter draw);
  }

  -- `ReportTCPFailure(s, err)`; no upstream is the nil pointer, and nothing happens.
  unfoldable pub report_tcp : LoadBalancer F → ℕ → UpstreamState F → Error → ℕ → ℕ → LoadBalancer F
  unfolding failed_state
  report_tcp lb i s e now draw =
      let s' : UpstreamState F = record s {
        tcp = failed_state lb.hc s.tcp e now draw;
        tcp_cooldown_until = add_time now lb.sel.cooldown;
      } in
      record lb {
        pool = set lb.pool i s';
        sticky_until = elim lb.current [
          | none ↦ lb.sticky_until
          | some k ↦ if k == i then 0 else lb.sticky_until
        ];
      }

  unfoldable pub report_tcp_failure : LoadBalancer F → Option ℕ → Error → ℕ → ℕ → LoadBalancer F
  unfolding report_tcp
  report_tcp_failure lb none e now draw = lb
  report_tcp_failure lb (some i) e now draw = elim (get_elem? lb.pool i) [
    | none ↦ lb
    | some s ↦ report_tcp lb i s e now draw
  ]

  report_udp : LoadBalancer F → ℕ → UpstreamState F → Error → ℕ → ℕ → LoadBalancer F
  unfolding failed_state
  report_udp lb i s e now draw =
      let s' : UpstreamState F = record s {
        udp = failed_state lb.hc s.udp e now draw;
        udp_cooldown_until = add_time now lb.sel.cooldown;
      } in
      record lb { pool = set lb.pool i s' }

  unfoldable pub report_udp_failure : LoadBalancer F → Option ℕ → Error → ℕ → ℕ → LoadBalancer F
  unfolding report_udp
  report_udp_failure lb none e now draw = lb
  report_udp_failure lb (some i) e now draw = elim (get_elem? lb.pool i) [
    | none ↦ lb
    | some s ↦ report_udp lb i s e now draw
  ]
