-- ===== src/Outline/Relay/Outcomes.antt =====
-- What the relay of internal/outline_tcp.go returns and closes.
use outline_cli_ws.Outline.Relay.{
  after_second, after_first, Conns, Setup, Relay, Second, finished, cancelled, new_ss_tcp_conn,
  is_hard, proxy, dial_outline_tcp,
}
use outline_cli_ws.Common.{address_not_supported}
use outline_cli_ws.Common.{
  ◌≡◌, refl, ◌⊎◌, inl, inr, Bool, true, false, not, ◌&&◌, ◌||◌, Option, none, some, List, [], ◌∷◌,
  if◌then◌else◌, Bool-cases, Option-cases, is_some,
}
use outline_cli_ws.Common.{Error}

-- The first that is there.
abbrev pub first_some : List (Option Error) → Option Error
first_some [] = none
first_some (none ∷ os) = first_some os
first_some (some e ∷ os) = some e

abbrev pub setup_error : Setup → Option Error
setup_error a = first_some (
    a.pick_cipher
    ∷ (elim a.target [ none ↦ some address_not_supported | some t ↦ none ])
    ∷ a.write
    ∷ [])

abbrev pub hard : Option Error → Option Error
hard e = if is_hard e then e else none

abbrev pub second_error : Second → Option Error
second_error (finished e) = hard e
second_error (cancelled e) = some e

abbrev pub is_cancelled : Second → Bool
is_cancelled (finished e) = false
is_cancelled (cancelled e) = true

-- The reasons to return an error, the first one first.
abbrev pub causes : Relay → List (Option Error)
causes a = setup_error a.setup ∷ hard a.first ∷ a.done ∷ second_error a.second ∷ []

-- Whether the relay itself closes the client's connection.
abbrev pub closes_client : Relay → Bool
closes_client a =
    not (is_some (setup_error a.setup))
    && (is_hard a.first || (not (is_some a.done) && is_cancelled a.second))

abbrev pub Closed : Relay → Conns × Option Error → Type 0
Closed a r =
    (r.0.ws_closed ≡ not (is_some a.setup.pick_cipher))
    × (r.0.client_closed ≡ closes_client a)
    × (r.1 ≡ first_some (causes a))

hard-cases :
    (e : Option Error) → (is_hard e ≡ false) ⊎ ((x : Error) × (e ≡ some x) × (is_hard e ≡ true))
unfolding is_hard
hard-cases e = elim (Option-cases e) [
  | inl n ↦ inl (rw (n, is_hard) refl)
  | inr (x, h) ↦ elim (Bool-cases (is_hard e)) [ inl t ↦ inr (x, h, t) | inr f ↦ inl f ]
]

-- Behind the set-up.
abbrev ClosedBehind : Option Error → Option Error → Second → Conns × Option Error → Type 0
ClosedBehind e1 d s r =
    (r.0.ws_closed ≡ true)
    × (r.0.client_closed ≡ (is_hard e1 || (not (is_some d) && is_cancelled s)))
    × (r.1 ≡ first_some (hard e1 ∷ d ∷ second_error s ∷ []))

after_second-ClosedBehind :
    (e1 : Option Error) (s : Second) → ClosedBehind e1 none s (after_second e1 s)
unfolding after_second
after_second-ClosedBehind e1 (cancelled e) = elim (hard-cases e1) [
  | inl f ↦ rw f (refl, refl, refl)
  | inr (x, h, t) ↦ rw (t, h) (refl, refl, refl)
]
after_second-ClosedBehind e1 (finished e2) = elim (hard-cases e1) [
  | inl f ↦ elim (hard-cases e2) [
    | inl g ↦ rw (f, g) (refl, refl, refl)
    | inr (x, h, t) ↦ rw (f, t, h) (refl, refl, refl)
  ]
  | inr (x, h, t) ↦ rw (t, h) (refl, refl, refl)
]

after_first-ClosedBehind : (a : Relay) → ClosedBehind a.first a.done a.second (after_first a)
unfolding after_first
after_first-ClosedBehind a = elim (Option-cases a.done) [
  | inl n ↦ rw (n, after_first) (after_second-ClosedBehind a.first a.second)
  | inr (e, d) ↦ elim (hard-cases a.first) [
    | inl f ↦ rw (d, f, after_first) (refl, refl, refl)
    | inr (x, h, t) ↦ rw (d, t, h, after_first) (refl, refl, refl)
  ]
]

-- For every set-up, every result of the two copies and every end of the context,
-- ProxyTCPOverOutlineWS returns the first of the set-up error, a hard error of the first copy, the
-- end of the context, and a hard error of the second copy, and nil where there is none; it closes
-- the WebSocket connection unless no cipher was found, and the client where the first copy fails
-- hard or the context ends the wait for the second one.
pub proxy-Closed : (a : Relay) → Closed a (proxy a)
unfolding proxy new_ss_tcp_conn
proxy-Closed a = elim (Option-cases a.setup.pick_cipher) [
  | inr (e, p) ↦ rw (p, proxy) (refl, refl, refl)
  | inl p ↦ elim (Option-cases a.setup.target) [
    | inl t ↦ rw (p, t, proxy) (refl, refl, refl)
    | inr (b, t) ↦ elim (Option-cases a.setup.write) [
      | inr (e, w) ↦ rw (p, t, w, proxy) (refl, refl, refl)
      | inl w ↦ rw (p, t, w, proxy) (after_first-ClosedBehind a)
    ]
  ]
]

-- DialOutlineTCP returns the error of AcquireTCPWS or of the set-up, and closes the WebSocket
-- connection where the set-up fails.
pub dial_outline_tcp_lem :
    (acquired : Option Error) (a : Setup)
    → let r = dial_outline_tcp acquired a in
      (r.1 ≡ first_some (acquired ∷ setup_error a ∷ []))
      × (r.0.ws_closed ≡ (not (is_some acquired) && is_some (setup_error a)))
unfolding dial_outline_tcp new_ss_tcp_conn
dial_outline_tcp_lem (some e) a = (refl, refl)
dial_outline_tcp_lem none a = elim (Option-cases a.pick_cipher) [
  | inr (e, p) ↦ rw (p, dial_outline_tcp) (refl, refl)
  | inl p ↦ elim (Option-cases a.target) [
    | inl t ↦ rw (p, t, dial_outline_tcp) (refl, refl)
    | inr (b, t) ↦ elim (Option-cases a.write) [
      | inr (e, w) ↦ rw (p, t, w, dial_outline_tcp) (refl, refl)
      | inl w ↦ rw (p, t, w, dial_outline_tcp) (refl, refl)
    ]
  ]
]
