-- ===== src/Udp/Session/Lookups.antt =====
-- The subscriptions of a UDP session, internal/outline_udp_session.go, before and behind Subscribe and
-- Unsubscribe.
use outline_cli_ws.Common.Bytes.{bytes_equal→eq}
use outline_cli_ws.Socks.Addr.{AddrKey}
use outline_cli_ws.Udp.Session.{Session, key_equal, lookup, remove, subscribe, unsubscribe}
use outline_cli_ws.Udp.Session.Channels.{WellFormed, key_equal_refl}
use outline_cli_ws.Udp.Session.Safety.{unsubscribe-Sane, shut-subs}
use outline_cli_ws.Common.{
  ℕ, ◌≡◌, refl, sym, ap, ◌∙◌, ◌≢◌, inl, inr, true, false, none, some, List, [], ◌∷◌, arith,
  if◌then◌else◌, Bool-cases, Option-cases, is_some,
}

key_equal→eq : (k l : AddrKey) → key_equal k l ≡ true → k ≡ l
unfolding key_equal
key_equal→eq k l h =
    let ips : k.ip ≡ l.ip = ground (arith, bytes_equal→eq k.ip l.ip) in
    let domains : k.domain ≡ l.domain = ground (arith, bytes_equal→eq k.domain l.domain) in
    let types : k.atyp ≡ l.atyp = ground arith in
    let ports : k.port ≡ l.port = ground arith in
    λ i. record { atyp = types i; ip = ips i; port = ports i; domain = domains i }

key_equal-ne : (k l : AddrKey) → k ≢ l → key_equal k l ≡ false
key_equal-ne k l n = elim (Bool-cases (key_equal k l)) [
  | inl t ↦ absurd (n (key_equal→eq k l t))
  | inr f ↦ f
]

lookup-remove_self : (k : AddrKey) (es : List (AddrKey × ℕ)) → lookup k (remove k es) ≡ none
unfolding lookup remove
lookup-remove_self k [] = refl
lookup-remove_self k (e ∷ es) = elim (Bool-cases (key_equal e.0 k)) [
  | inl t ↦ rw (t, remove) (lookup-remove_self k es)
  | inr f ↦ rw (f, remove) (rw (f, lookup) (lookup-remove_self k es))
]

lookup-remove_ne :
    (k l : AddrKey) (es : List (AddrKey × ℕ)) → k ≢ l → lookup l (remove k es) ≡ lookup l es
unfolding lookup remove
lookup-remove_ne k l [] n = refl
lookup-remove_ne k l (e ∷ es) n = elim (Bool-cases (key_equal e.0 k)) [
  | inl t ↦
      let other : key_equal e.0 l ≡ false =
        key_equal-ne e.0 l (λ q. n (sym (key_equal→eq e.0 k t) ∙ q)) in
      rw (t, other, remove, lookup) (lookup-remove_ne k l es n)
  | inr f ↦
      rw (f, remove) (ap (λ x. if key_equal e.0 l then some e.1 else x) (lookup-remove_ne k l es n))
]

-- No entry to remove.
remove-none : (k : AddrKey) (es : List (AddrKey × ℕ)) → lookup k es ≡ none → remove k es ≡ es
unfolding lookup remove
remove-none k [] h = refl
remove-none k (e ∷ es) h = elim (Bool-cases (key_equal e.0 k)) [
  | inl t ↦ let q = rw (t, lookup) at h in cc
  | inr f ↦ rw (f, remove) (ap (◌∷◌ e) (remove-none k es (rw (f, lookup) at h)))
]

unsubscribe-subs :
    (k : AddrKey) (s s' : Session) → unsubscribe (some k) s ≡ some s' → s'.subs ≡ remove k s.subs
unfolding unsubscribe
unsubscribe-subs k s s' h = elim (Option-cases (lookup k s.subs)) [
  | inl e ↦
      let q : some s ≡ some s' = rw (e, unsubscribe) at h in
      let same : s ≡ s' = cc in sym (remove-none k s.subs e ∙ ap (λ x. x.subs) same)
  | inr (c, e) ↦ shut-subs c (record s { subs = remove k s.subs }) s' (rw (e, unsubscribe) at h)
]

abbrev pub IsSubscribed : AddrKey → Session → Type 0
IsSubscribed k s = is_some (lookup k s.subs) ≡ true

-- An Unsubscribe from a well-formed session.
pub record Unsubscribed (k : AddrKey) (s t : Session) : Type 0 where
  pub sound : WellFormed t
  pub gone : lookup k t.subs ≡ none
  pub others : (l : AddrKey) → k ≢ l → lookup l t.subs ≡ lookup l s.subs

pub unsubscribe-Unsubscribed :
    (k : AddrKey) (s : Session)
    → WellFormed s
    → (t : Session) × (unsubscribe (some k) s ≡ some t) × Unsubscribed k s t
unsubscribe-Unsubscribed k s h =
    let (t, e, w) = unsubscribe-Sane (some k) s h in
    let subs = unsubscribe-subs k s t e in
    (
      t,
      e,
      record {
        sound = w;
        gone = ap (lookup k) subs ∙ lookup-remove_self k s.subs;
        others = λ l n. ap (lookup l) subs ∙ lookup-remove_ne k l s.subs n;
      },
    )

pub subscribe-IsSubscribed_self :
    (k : AddrKey) (s : Session) → IsSubscribed k (subscribe (some k) s).0
unfolding subscribe lookup
subscribe-IsSubscribed_self k s = elim (Option-cases (lookup k s.subs)) [
  | inl e ↦ rw (e, subscribe) (rw (key_equal_refl k, lookup) refl)
  | inr (c, e) ↦ rw (e, subscribe) (rw e refl)
]

pub subscribe-IsSubscribed :
    (k l : AddrKey) (s : Session) → IsSubscribed l s → IsSubscribed l (subscribe (some k) s).0
unfolding subscribe lookup
subscribe-IsSubscribed k l s h = elim (Option-cases (lookup k s.subs)) [
  | inr (c, e) ↦ rw (e, subscribe) h
  | inl e ↦ elim (Bool-cases (key_equal k l)) [
    | inl t ↦ rw (e, subscribe) (rw (t, lookup) refl)
    | inr f ↦ rw (e, subscribe) (rw (f, lookup) h)
  ]
]
