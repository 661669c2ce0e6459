-- ===== src/Socks/Server/Connect.antt =====
-- `handleConnect` of internal/socks5.go together with the balancer.
use outline_cli_ws.Common.{ℕ, ◌≡◌, ◌≢◌, refl, Option, none, some, Error, Result, ok, err}
use outline_cli_ws.Common.Float.{Float}
use outline_cli_ws.Lb.State.{LoadBalancer}
use outline_cli_ws.Lb.Select.{pick_tcp}
use outline_cli_ws.Lb.Health.{report_tcp_failure}
use outline_cli_ws.Lb.Select.Sticky.{pick_tcp-report_tcp_failure}
use outline_cli_ws.Socks.Server.{
  Ending, tunnel, unanswered, refused, after_reply, connect_with, handle_connect,
}

module _ (fl : Float) where
  open fl use {F}

  -- A refusal: no upstream was picked, and the balancer is as the pick left it; or the one picked gave
  -- no connection and is not handed out any more.
  abbrev pub Refused : (ℕ → Result ℕ) → LoadBalancer F × Result ℕ → LoadBalancer F → Type 0
  Refused acquire (before, err e) lb = lb ≡ before
  Refused acquire (before, ok i) lb =
      ((c : ℕ) → acquire i ≢ ok c) × ((t : ℕ) → (pick_tcp fl lb t).1 ≢ ok i)

  -- How the ending agrees with the pick: a tunnel and an unanswered connection stand on the upstream
  -- picked and the connection acquired for it, behind the code of success, with the balancer as the
  -- pick left it; a refusal has the code of failure.
  abbrev pub Handled :
      (ℕ → Result ℕ)
      → Option Error
      → LoadBalancer F × Result ℕ
      → LoadBalancer F × ℕ × Ending
      → Type 0
  Handled acquire reply_error (before, picked) (lb, rep, tunnel i c) =
      (rep ≡ 0) × (picked ≡ ok i) × (acquire i ≡ ok c) × (reply_error ≡ none) × (lb ≡ before)
  Handled acquire reply_error (before, picked) (lb, rep, unanswered i c) =
      (rep ≡ 0) × (picked ≡ ok i) × (acquire i ≡ ok c) × (reply_error ≢ none) × (lb ≡ before)
  Handled acquire reply_error (before, picked) (lb, rep, refused) =
      (rep ≡ 4) × Refused acquire (before, picked) lb

  after_reply-Handled :
      (acquire : ℕ → Result ℕ) (reply_error : Option Error) (lb : LoadBalancer F) (i c : ℕ)
      → acquire i ≡ ok c
      → Handled acquire reply_error (lb, ok i) (lb, 0, after_reply reply_error i c)
  unfolding after_reply
  after_reply-Handled acquire none lb i c a = (refl, refl, a, refl, refl)
  after_reply-Handled acquire (some e) lb i c a = (refl, refl, a, λ h. cc, refl)

  connect_with-Handled :
      (acquire : ℕ → Result ℕ) (reply_error : Option Error) (later draw : ℕ)
      → (picked : LoadBalancer F × Result ℕ)
      → Handled acquire reply_error picked (connect_with fl acquire reply_error later draw picked)
  unfolding connect_with report_tcp_failure
  connect_with-Handled acquire reply_error later draw (lb, err e) = (refl, refl)
  connect_with-Handled acquire reply_error later draw (lb, ok i) = acquired (acquire i) refl
    where
      acquired :
          (r : Result ℕ)
          → acquire i ≡ r
          → Handled acquire reply_error
              (lb, ok i)
              (elim r [
                | err e ↦ (report_tcp_failure fl lb (some i) e later draw, 4, refused)
                | ok c ↦ (lb, 0, after_reply reply_error i c)
              ])
      acquired (ok c) a = after_reply-Handled acquire reply_error lb i c a
      acquired (err e) a = (refl, (λ c b. cc, pick_tcp-report_tcp_failure fl lb i e later draw))

  -- handleConnect ends in one of three ways. With a tunnel, where the reply of success is written
  -- without an error, or with the acquired connection closed, where that write has one: in both,
  -- the code of the reply is 0, the upstream is the one that PickTCP gave, the connection the one
  -- acquired for it, and the balancer is as PickTCP left it, with no failure reported. Or with a
  -- reply of code 4: then either PickTCP gave no upstream, and the balancer is as it left it, or
  -- it gave one for which no connection was acquired, and PickTCP does not hand that upstream out
  -- from the balancer left behind, at whatever time.
  pub handle_connect-Handled :
      (acquire : ℕ → Result ℕ) (reply_error : Option Error)
      → (lb : LoadBalancer F) (now later draw : ℕ)
      → Handled acquire reply_error
          (pick_tcp fl lb now)
          (handle_connect fl acquire reply_error lb now later draw)
  unfolding handle_connect
  handle_connect-Handled acquire reply_error lb now later draw =
      connect_with-Handled acquire reply_error later draw (pick_tcp fl lb now)
