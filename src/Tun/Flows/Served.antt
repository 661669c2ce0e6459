-- ===== src/Tun/Flows/Served.antt =====
-- The flows of a source port and the subscriptions of its UDP session, internal/tun_native.go and
-- internal/tun_udp_porttable.go.
use outline_cli_ws.Common.Int.{ℤ}
use outline_cli_ws.Socks.Addr.{AddrKey}
use outline_cli_ws.Udp.Session.{Ip, Session, lookup}
use outline_cli_ws.Udp.Session.Channels.{WellFormed}
use outline_cli_ws.Udp.Session.Lookups.{IsSubscribed, unsubscribe-Unsubscribed}
use outline_cli_ws.Tun.Flows.{Flow, key_of, is_idle, prune}
use outline_cli_ws.Common.{
  ℕ, ◌≤◌, ◌≡◌, refl, sym, ap, ◌∙◌, ◌≢◌, inl, inr, true, false, Option, none, some, List, [], ◌∷◌,
  arith, Bool-cases, is_some, length, All,
}
use outline_cli_ws.Common.Bytes.{Bytes}

module _ (split : Bytes → Option (Bytes × Bytes)) (parse_uint : Bytes → Option ℕ)
    (parse_ip : Bytes → Option Ip) where
  abbrev pub Key : Bytes → AddrKey → Type 0
  Key d k = key_of split parse_uint parse_ip d ≡ some k

  -- The destination of a flow has a key with a subscription.
  abbrev pub Serves : Session → Flow → Type 0
  Serves s f = (k : AddrKey) × Key f.0 k × IsSubscribed k s

  -- The flow `f` is none of another key.
  abbrev pub Other : AddrKey → Flow → Type 0
  Other k f = (l : AddrKey) → Key f.0 l → k ≢ l

  abbrev pub Apart : List Flow → Type 0
  Apart [] = Unit {0}
  Apart (f ∷ fs) = ((k : AddrKey) → Key f.0 k → All (Other k) fs) × Apart fs

  -- What the pruning of `fs` leaves of them and of the session.
  pub record Pruned (idle : ℤ) (now : ℕ) (fs : List Flow) (s : Session) (r : List Flow × Session)
      : Type 0 where
    pub sound : WellFormed r.1
    pub served : All (Serves r.1) r.0
    pub apart : Apart r.0
    pub among : (k : AddrKey) → All (Other k) fs → All (Other k) r.0
    pub untouched : (k : AddrKey) → All (Other k) fs → lookup k r.1.subs ≡ lookup k s.subs
    pub ended :
        All
          (λ f. is_idle idle now f ≡ true → (k : AddrKey) → Key f.0 k → lookup k r.1.subs ≡ none)
          fs
    pub fewer : length r.0 ≤ length fs
    pub live : All (λ f. is_idle idle now f ≡ false) r.0

  pub still_served :
      (s t : Session) (k : AddrKey) (fs : List Flow)
      → ((l : AddrKey) → k ≢ l → lookup l t.subs ≡ lookup l s.subs)
      → All (Other k) fs
      → All (Serves s) fs
      → All (Serves t) fs
  still_served s t k [] same o h = tt
  still_served s t k (f ∷ fs) same o ((l, e, p), h) =
      ((l, e, ap is_some (same l (o.0 l e)) ∙ p), still_served s t k fs same o.1 h)

  pub prune-Pruned :
      (idle : ℤ) (now : ℕ) (fs : List Flow) (s : Session)
      → WellFormed s
      → All (Serves s) fs
      → Apart fs
      → (r : List Flow × Session) × (prune split parse_uint parse_ip idle now fs s ≡ some r)
        × Pruned idle now fs s r
  unfolding prune
  prune-Pruned idle now [] s w h a = (
    ([], s),
    refl,
    record {
      sound = w;
      served = tt;
      apart = tt;
      among = λ k o. tt;
      untouched = λ k o. refl;
      ended = tt;
      fewer = omega arith;
      live = tt;
    },
  )
  prune-Pruned idle now (f ∷ fs) s w ((k, e, p), h) a = elim (Bool-cases (is_idle idle now f)) [
    | inl t ↦
        let (s', u, q) = unsubscribe-Unsubscribed k s w in
        let (r, g, y) =
          prune-Pruned idle now fs s' q.sound (still_served s s' k fs q.others (a.0 k e) h) a.1 in
        (
          r,
          rw (t, prune, e, u) g,
          record {
            sound = y.sound;
            served = y.served;
            apart = y.apart;
            among = λ l o. y.among l o.1;
            untouched = λ l o. y.untouched l o.1 ∙ q.others l (λ x. o.0 k e (sym x));
            ended = (
              (λ x l z.
                  let kl : k ≡ l = cc (e, z) in
                  ap (λ m. lookup m r.1.subs) (sym kl) ∙ y.untouched k (a.0 k e) ∙ q.gone),
              y.ended,
            );
            fewer = omega (arith, y.fewer);
            live = y.live;
          },
        )
    | inr n ↦
        let (r, g, y) = prune-Pruned idle now fs s w h a.1 in
        (
          (f ∷ r.0, r.1),
          rw (n, prune, g) refl,
          record {
            sound = y.sound;
            served = ((k, e, ap is_some (y.untouched k (a.0 k e)) ∙ p), y.served);
            apart = ((λ l x. y.among l (a.0 l x)), y.apart);
            among = λ l o. (o.0, y.among l o.1);
            untouched = λ l o. y.untouched l o.1;
            ended = (λ x. let q = sym n ∙ x in cc, y.ended);
            fewer = omega (arith, y.fewer);
            live = (n, y.live);
          },
        )
  ]
