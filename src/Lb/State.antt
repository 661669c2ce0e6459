-- ===== src/Lb/State.antt =====
-- The state of internal/lb.go. A pointer to an upstream is its index in the pool. An instant is a
-- number of nanoseconds, and the zero `time.Time` is 0. A duration is an integer; sums of instants and
-- durations are taken as exact. A mutex-protected call is one step.
use outline_cli_ws.Common.Int.{ℤ, pos, negsuc, sub_ℕ, pos_part, neg_part}
use outline_cli_ws.Common.{ℕ, ◌+◌, ◌-◌, Bool, true, Option, List, ltb, ◌==◌}
use outline_cli_ws.Common.{Error}
use outline_cli_ws.Common.Bytes.{Bytes}

-- now.Before(t), now.After(t), now.Add(d), now.Sub(t)
abbrev pub before : ℕ → ℕ → Bool
before a b = ltb a b

abbrev pub after : ℕ → ℕ → Bool
after a b = ltb b a

abbrev pub add_time : ℕ → ℤ → ℕ
add_time t d = t + pos_part d - neg_part d

abbrev pub sub_time : ℕ → ℕ → ℤ
sub_time a b = sub_ℕ a b

-- `d <= 0`
abbrev pub not_positive : ℤ → Bool
not_positive (pos n) = n == 0
not_positive (negsuc n) = true

pub record HcState : Type 0 where
  pub healthy : Bool
  pub fail_count : ℕ
  pub success_count : ℕ
  pub in_flight : Bool
  pub last_error : Option Error
  pub last_check_time : ℕ
  pub last_rtt : ℤ
  pub rtt_ewma : ℤ
  pub next_hc : ℕ
  pub hc_every : ℤ

-- `Weight` is a float64, of the carrier `F`.
pub record UpstreamState (F : Type 0) : Type 0 where
  pub name : Bytes
  pub weight : F
  pub tcp : HcState
  pub udp : HcState
  pub tcp_cooldown_until : ℕ
  pub udp_cooldown_until : ℕ

pub record HealthcheckConfig (F : Type 0) : Type 0 where
  pub interval : ℤ
  pub timeout : ℤ
  pub fail_threshold : ℕ
  pub success_threshold : ℕ
  pub min_interval : ℤ
  pub max_interval : ℤ
  pub jitter : ℤ
  pub backoff_factor : F
  pub rtt_scale : F

pub record SelectionConfig : Type 0 where
  pub sticky_ttl : ℤ
  pub cooldown : ℤ
  pub min_switch : ℤ

pub record LoadBalancer (F : Type 0) : Type 0 where
  pub hc : HealthcheckConfig F
  pub sel : SelectionConfig
  pub pool : List (UpstreamState F)
  pub current : Option ℕ
  pub sticky_until : ℕ
