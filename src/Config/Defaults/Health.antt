-- ===== src/Config/Defaults/Health.antt =====
-- The defaults of `LoadConfig`, internal/config.go, in the health checks of internal/lb.go.
use outline_cli_ws.Common.{
  ℕ, ◌+◌, ◌≡◌, refl, subst, ◌∙◌, Bool, true, none, ◌==◌, List, length, if◌then◌else◌, arith, ltb,
  leb,
}
use outline_cli_ws.Common.Float.{Float}
use outline_cli_ws.Common.Int.{pos, ◌≤ℤ◌}
use outline_cli_ws.Common.Bytes.{Bytes}
use outline_cli_ws.Lb.State.{HcState, HealthcheckConfig}
use outline_cli_ws.Lb.Health.Laws.{
  Within, check-Within, Consistent, Positive, Check, check, run, run-Failing, Failing, passed_lem,
}
use outline_cli_ws.Config.Defaults.{
  Config, int_or, count_or, fill_healthcheck, with_defaults, seconds,
}

-- The failed checks in a row that take an upstream down, for a file's `fail_threshold`.
abbrev pub tolerated : ℕ → ℕ
tolerated n = if n == 0 then 2 else n

module _ (fl : Float) (is_zero : Float.F fl → Bool) where
  open fl use {F}

  fill_healthcheck-Positive :
      (c : HealthcheckConfig F) → Positive fl (fill_healthcheck fl is_zero c)
  unfolding fill_healthcheck count_or
  fill_healthcheck-Positive c = ground arith

  fill_healthcheck_thresholds :
      (c : HealthcheckConfig F)
      → c.success_threshold ≡ 0
      → ((fill_healthcheck fl is_zero c).fail_threshold ≡ tolerated c.fail_threshold)
        × ((fill_healthcheck fl is_zero c).success_threshold ≡ 1)
  unfolding fill_healthcheck count_or
  fill_healthcheck_thresholds c s = (refl, rw s refl)

  fill_healthcheck_intervals :
      (c : HealthcheckConfig F)
      → c.min_interval ≡ pos 0
      → c.max_interval ≡ pos 0
      → ((fill_healthcheck fl is_zero c).min_interval ≡ seconds 1)
        × ((fill_healthcheck fl is_zero c).max_interval ≡ seconds 30)
  unfolding fill_healthcheck int_or
  fill_healthcheck_intervals c a b = (rw a refl, rw b refl)

  -- The interval that a check leaves, under the bounds of a file that has none.
  every_check :
      (c : HealthcheckConfig F) (h : HcState) (j : Check fl)
      → c.min_interval ≡ pos 0
      → c.max_interval ≡ pos 0
      → Within (seconds 1) (seconds 30) (check fl (fill_healthcheck fl is_zero c) h j).hc_every
  every_check c h j a b =
      let hc = fill_healthcheck fl is_zero c in
      let (lo, hi) = fill_healthcheck_intervals c a b in
      let order : hc.min_interval ≤ℤ hc.max_interval = rw (lo, hi) (omega arith) in
      subst (λ m. Within m (seconds 30) (check fl hc h j).hc_every) lo
        (subst (λ m. Within hc.min_interval m (check fl hc h j).hc_every) hi
          (check-Within fl hc h j order))

  -- Failed checks of an upstream that is up, under thresholds of `n` and one, and a passed check.
  run_thresholds :
      (hc : HealthcheckConfig F) (n : ℕ) (h : HcState) (ks : List (Check fl)) (k : Check fl)
      → Positive fl hc
      → hc.fail_threshold ≡ n
      → hc.success_threshold ≡ 1
      → h.healthy ≡ true
      → h.fail_count ≡ 0
      → Failing fl ks
      → k.error ≡ none
      → ((run fl hc h ks).healthy ≡ ltb (length ks) n)
        × ((check fl hc (run fl hc h ks) k).healthy ≡ true)
  run_thresholds hc n h ks k p fails successes up none_yet f passed =
      let start : Consistent fl hc h = record { up = λ x. ground arith; down = λ x. cc } in
      let (count, down) = run-Failing fl hc h ks p start f in
      let (_, _, _, back) = passed_lem fl hc (run fl hc h ks) k passed in
      let one : leb hc.success_threshold ((run fl hc h ks).success_count + 1) ≡ true =
        ground arith in
      (down ∙ rw (up, none_yet, fails) (ground arith), back ∙ rw one (ground arith))

  -- With the defaults of LoadConfig, where the file leaves out success_threshold, min_interval and
  -- max_interval: an upstream that is up with no failure counted stays up in a run of failed
  -- checks while the run is shorter than the fail_threshold of the file, or than 2 where the file
  -- has none, and is down from then on; the first passed check after the run leaves it up; and
  -- every check after the run leaves an interval of 1 to 30 seconds, before the jitter.
  pub with_defaults-run :
      (splits is_ip : Bytes → Bool) (c : Config F) (h : HcState) (ks : List (Check fl))
      (j k : Check fl)
      → c.healthcheck.success_threshold ≡ 0
      → c.healthcheck.min_interval ≡ pos 0
      → c.healthcheck.max_interval ≡ pos 0
      → h.healthy ≡ true
      → h.fail_count ≡ 0
      → Failing fl ks
      → k.error ≡ none
      → let hc = (with_defaults fl is_zero splits is_ip c).healthcheck in
        ((run fl hc h ks).healthy ≡ ltb (length ks) (tolerated c.healthcheck.fail_threshold))
        × ((check fl hc (run fl hc h ks) k).healthy ≡ true)
        × Within (seconds 1) (seconds 30) (check fl hc (run fl hc h ks) j).hc_every
  unfolding with_defaults
  with_defaults-run splits is_ip c h ks j k s lo hi up none_yet f passed =
      let hc = fill_healthcheck fl is_zero c.healthcheck in
      let (fails, successes) = fill_healthcheck_thresholds c.healthcheck s in
      let (down, back) =
        run_thresholds hc (tolerated c.healthcheck.fail_threshold) h ks k
          (fill_healthcheck-Positive c.healthcheck) fails successes up none_yet f passed in
      (down, back, every_check c.healthcheck (run fl hc h ks) j lo hi)
