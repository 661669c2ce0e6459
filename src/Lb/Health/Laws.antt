-- ===== src/Lb/Health/Laws.antt =====
-- The intervals and the counters of `applyHCResult`, internal/lb.go, over one check and over many.
use outline_cli_ws.Common.Int.{ℤ, pos, ◌+ℤ◌, ◌-ℤ◌, ◌≤ℤ◌, +ℤ_parts, -ℤ_parts}
use outline_cli_ws.Common.Float.{Float}
use outline_cli_ws.Lb.State.{HcState, HealthcheckConfig}
use outline_cli_ws.Lb.Health.{
  clamp, apply_jitter, failed_check, passed_check, schedule, apply_hc_result,
  next_interval_on_failure, next_interval_on_success, failed_state,
}
use outline_cli_ws.Common.{
  ℕ, ◌+◌, ◌*◌, ◌≤◌, ◌<◌, ◌≡◌, ◌≢◌, true, false, not, ◌&&◌, ◌||◌, Option, none, some, List, [], ◌∷◌,
  arith, ltb, leb, length, All,
}
use outline_cli_ws.Common.{Error}

pub record Within (lo hi x : ℤ) : Type 0 where
  pub above : lo ≤ℤ x
  pub below : x ≤ℤ hi

clamp-Within : (lo hi x : ℤ) → lo ≤ℤ hi → Within lo hi (clamp lo hi x)
unfolding clamp
clamp-Within lo hi x h = ground arith

-- With a draw in the range of randInt63n the jittered duration lies within the jitter of the
-- duration, and it is not negative where the duration is not.
pub apply_jitter_bounds :
    (d : ℤ) (jitter draw : ℕ)
    → draw ≤ 2 * jitter
    → pos 0 ≤ℤ d
    → (pos 0 ≤ℤ apply_jitter d (pos jitter) draw)
      × (apply_jitter d (pos jitter) draw ≤ℤ d +ℤ pos jitter)
      × (d ≤ℤ apply_jitter d (pos jitter) draw +ℤ pos jitter)
unfolding apply_jitter
apply_jitter_bounds d jitter draw h p = ground (
  arith,
  +ℤ_parts d (pos jitter),
  -ℤ_parts (pos draw) (pos jitter),
  +ℤ_parts d (pos draw -ℤ pos jitter),
  +ℤ_parts (d +ℤ (pos draw -ℤ pos jitter)) (pos jitter),
)

module _ (fl : Float) where
  open fl use {F}

  -- After a check, whatever its result, the interval to the next check is at least MinInterval and
  -- at most MaxInterval before the jitter, where these two are in order.
  pub hc_every_bounds :
      (c : HealthcheckConfig F) (h : HcState) (e : Option Error) (rtt : ℤ) (now draw : ℕ)
      → c.min_interval ≤ℤ c.max_interval
      → Within c.min_interval c.max_interval (apply_hc_result fl c h e rtt now draw).hc_every
  unfolding apply_hc_result schedule next_interval_on_failure next_interval_on_success
  hc_every_bounds c h (some e) rtt now draw o = clamp-Within c.min_interval c.max_interval _ o
  hc_every_bounds c h none rtt now draw o = clamp-Within c.min_interval c.max_interval _ o

  -- The counters of an upstream agree with its health: below the threshold of the other state.
  pub record Consistent (c : HealthcheckConfig F) (h : HcState) : Type 0 where
    pub up : h.healthy ≡ true → h.fail_count < c.fail_threshold
    pub down : h.healthy ≡ false → h.success_count < c.success_threshold

  -- Thresholds of at least one, as LoadConfig sets them where they are left out.
  abbrev pub Positive : HealthcheckConfig F → Type 0
  Positive c = (0 < c.fail_threshold) × (0 < c.success_threshold)

  pub record Check : Type 0 where
    pub error : Option Error
    pub rtt : ℤ
    pub at : ℕ
    pub draw : ℕ

  pub check : HealthcheckConfig F → HcState → Check → HcState
  check c h k = apply_hc_result fl c h k.error k.rtt k.at k.draw

  pub check-Within :
      (c : HealthcheckConfig F) (h : HcState) (k : Check)
      → c.min_interval ≤ℤ c.max_interval
      → Within c.min_interval c.max_interval (check c h k).hc_every
  unfolding check
  check-Within c h k o = hc_every_bounds c h k.error k.rtt k.at k.draw o

  -- Where the thresholds are positive, a check keeps the counters in agreement with the health: a
  -- healthy upstream is below the threshold of failures, and one that is down below the threshold
  -- of successes.
  pub check-Consistent :
      (c : HealthcheckConfig F) (h : HcState) (k : Check)
      → Positive c
      → Consistent c h
      → Consistent c (check c h k)
  unfolding check apply_hc_result schedule failed_check passed_check
  check-Consistent c h k p v = result k.error
    where
      result : (e : Option Error) → Consistent c (apply_hc_result fl c h e k.rtt k.at k.draw)
      result (some e) = record { up = λ x. ground arith; down = λ x. p.1 }
      result none = record { up = λ x. p.0; down = λ x. ground arith }

  report-Consistent :
      (c : HealthcheckConfig F) (h : HcState) (e : Error) (now draw : ℕ)
      → Positive c
      → Consistent c (failed_state fl c h e now draw)
  unfolding failed_state
  report-Consistent c h e now draw p = record { up = λ x. cc; down = λ x. p.1 }

  pub run : HealthcheckConfig F → HcState → List Check → HcState
  unfolding check
  run c h [] = h
  run c h (k ∷ ks) = run c (check c h k) ks

  abbrev pub Failing : List Check → Type 0
  Failing = All (λ k. k.error ≢ none)

  abbrev Passing : List Check → Type 0
  Passing = All (λ k. k.error ≡ none)

  -- One failed and one passed check, by the fields that the counts go through.
  failed_lem :
      (c : HealthcheckConfig F) (h : HcState) (k : Check)
      → k.error ≢ none
      → ((check c h k).fail_count ≡ h.fail_count + 1)
        × ((check c h k).healthy ≡ (h.healthy && not (leb c.fail_threshold (h.fail_count + 1))))
  unfolding check apply_hc_result schedule failed_check
  failed_lem c h k n = ground arith

  pub passed_lem :
      (c : HealthcheckConfig F) (h : HcState) (k : Check)
      → k.error ≡ none
      → ((check c h k).success_count ≡ h.success_count + 1)
        × ((check c h k).fail_count ≡ 0)
        × ((check c h k).last_error ≡ none)
        × ((check c h k).healthy ≡ (h.healthy || leb c.success_threshold (h.success_count + 1)))
  unfolding check apply_hc_result schedule passed_check
  passed_lem c h k n = ground arith

  -- Where the thresholds are positive and the counters agree with the health, a run of failed
  -- checks takes an upstream down when the count of failures reaches the threshold, not before,
  -- and never takes it up.
  pub run-Failing :
      (c : HealthcheckConfig F) (h : HcState) (ks : List Check)
      → Positive c
      → Consistent c h
      → Failing ks
      → ((run c h ks).fail_count ≡ h.fail_count + length ks)
        × ((run c h ks).healthy ≡ (h.healthy && ltb (h.fail_count + length ks) c.fail_threshold))
  unfolding run
  run-Failing c h [] p v f = ground arith
  run-Failing c h (k ∷ ks) p v (e, f) =
      ground
        (arith, failed_lem c h k e, run-Failing c (check c h k) ks p (check-Consistent c h k p v) f)

  -- Where the thresholds are positive and the counters agree with the health, a run of passed
  -- checks takes an upstream up when the count of successes reaches the threshold, not before, and
  -- never takes it down.
  pub run-Passing :
      (c : HealthcheckConfig F) (h : HcState) (ks : List Check)
      → Positive c
      → Consistent c h
      → Passing ks
      → ((run c h ks).success_count ≡ h.success_count + length ks)
        × ((run c h ks).healthy
            ≡ (h.healthy || leb c.success_threshold (h.success_count + length ks)))
  unfolding run
  run-Passing c h [] p v f = ground arith
  run-Passing c h (k ∷ ks) p v (e, f) =
      ground
        (arith, passed_lem c h k e, run-Passing c (check c h k) ks p (check-Consistent c h k p v) f)
