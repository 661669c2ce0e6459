-- ===== src/Udp/Session/Safety.antt =====
-- Each step of the goroutines that share a UDP session, from a sound session.
use outline_cli_ws.Socks.Addr.{AddrKey}
use outline_cli_ws.Udp.Session.{
  Channel, Session, Step, subscribing, unsubscribing, closing, sending, looking, taking, dead,
  capacity, lookup, remove, channel, shut, subscribe, unsubscribe, close, read_packet, look, send,
  take_payload, step,
}
use outline_cli_ws.Udp.Session.Channels.{
  queued, in_hand, IsKept, Sound, WellFormed, queued-set, set-IsKept, shut-Sound, shut_all-Sound,
  lookup-All, remove-All, remove-Separate, remove-lookup,
}
use outline_cli_ws.Common.{
  ℕ, zero, suc, ◌≡◌, refl, sym, ap, ◌∙◌, subst, ◌≢◌, ◌⊎◌, inl, inr, true, false, Option, none, some,
  List, [], ◌∷◌, ◌++◌, arith, ltb, Bool-cases, Option-cases, length, get_or, set, All,
  length-append, All-append, All-get_or,
}
use outline_cli_ws.Common.Bytes.{Bytes}

-- The result of an operation that does not panic, and keeps the session sound.
abbrev pub Sane : Option Session → Type 0
Sane r = (s' : Session) × (r ≡ some s') × WellFormed s'

-- A new channel behind the others.
queued-append :
    (cs : List Channel) (v : Channel) → v.queue ≡ [] → queued (cs ++ (v ∷ [])) ≡ queued cs
queued-append [] v e = rw e refl
queued-append (x ∷ cs) v e = omega (arith, queued-append cs v e)

get_or-append :
    (cs : List Channel) (c : ℕ) (v : Channel)
    → (get_or cs c dead).closed ≡ false
    → get_or (cs ++ (v ∷ [])) c dead ≡ get_or cs c dead
get_or-append [] c v h = cc
get_or-append (x ∷ cs) zero v h = refl
get_or-append (x ∷ cs) (suc c) v h = get_or-append cs c v h

get_or-append_last :
    (cs : List Channel) (v : Channel) → get_or (cs ++ (v ∷ [])) (length cs) dead ≡ v
get_or-append_last [] v = refl
get_or-append_last (x ∷ cs) v = get_or-append_last cs v

length≢ : (cs : List Channel) (c : ℕ) → (get_or cs c dead).closed ≡ false → c ≢ length cs
length≢ [] c h e = cc
length≢ (x ∷ cs) zero h e = absurd (omega arith)
length≢ (x ∷ cs) (suc c) h e = length≢ cs c h (omega arith)

live-append :
    (es : List (AddrKey × ℕ)) (cs : List Channel) (v : Channel)
    → All (λ e. (get_or cs e.1 dead).closed ≡ false) es
    → All (λ e. (get_or (cs ++ (v ∷ [])) e.1 dead).closed ≡ false) es
live-append [] cs v h = tt
live-append (e ∷ es) cs v h =
    (ap (λ x. x.closed) (get_or-append cs e.1 v h.0) ∙ h.0, live-append es cs v h.1)

fresh :
    (es : List (AddrKey × ℕ)) (cs : List Channel)
    → All (λ e. (get_or cs e.1 dead).closed ≡ false) es
    → All (λ e. e.1 ≢ length cs) es
fresh [] cs h = tt
fresh (e ∷ es) cs h = (length≢ cs e.1 h.0, fresh es cs h.1)

pub subscribe-Sound :
    (k : Option AddrKey) (s : Session) → WellFormed s → WellFormed (subscribe k s).0
unfolding subscribe
subscribe-Sound none s h = record {
  live = live-append s.subs s.channels dead h.live;
  separate = h.separate;
  kept = All-append IsKept s.channels (dead ∷ []) h.kept ((omega arith, λ x. refl), tt);
  counted = omega (arith, h.counted, queued-append s.channels dead refl);
}
subscribe-Sound (some k) s h =
    let v : Channel = record { queue = []; closed = false } in
    elim (Option-cases (lookup k s.subs)) [
      | inl e ↦
          rw (e, subscribe)
            (record {
              live = (
                ap (λ x. x.closed) (get_or-append_last s.channels v),
                live-append s.subs s.channels v h.live,
              );
              separate = (fresh s.subs s.channels h.live, h.separate);
              kept = All-append IsKept s.channels (v ∷ []) h.kept ((omega arith, λ x. refl), tt);
              counted = omega (arith, h.counted, queued-append s.channels v refl);
            })
      | inr (c, e) ↦ rw (e, subscribe) h
    ]

pub shut-subs : (c : ℕ) (s s' : Session) → shut c s ≡ some s' → s'.subs ≡ s.subs
unfolding shut
shut-subs c s s' h = ground arith

pub unsubscribe-Sane : (k : Option AddrKey) (s : Session) → WellFormed s → Sane (unsubscribe k s)
unfolding unsubscribe
unsubscribe-Sane none s h = (s, refl, h)
unsubscribe-Sane (some k) s h = elim (Option-cases (lookup k s.subs)) [
  | inl e ↦ rw (e, unsubscribe) (s, refl, h)
  | inr (c, e) ↦
      let t : Session = record s { subs = remove k s.subs } in
      let (s', f, g, i) = shut-Sound k c (remove k s.subs) t (record {
        live = (
          (lookup-All (λ x. (channel s x.1).closed ≡ false) k s.subs c e h.live).1,
          remove-All (λ x. (channel s x.1).closed ≡ false) k s.subs h.live,
        );
        separate = (remove-lookup k s.subs c e h.separate, remove-Separate k s.subs h.separate);
        kept = h.kept;
        counted = h.counted;
      }) in
      rw (e, unsubscribe) (s', f, subst (λ es. Sound es s') (sym (shut-subs c t s' f)) g)
]

close-Sane : (s : Session) → WellFormed s → Sane (close s)
unfolding close
close-Sane s h =
    let (s', f, g) = shut_all-Sound s.subs s h in
    (
      record s' { subs = [] },
      rw f refl,
      record { live = tt; separate = tt; kept = g.kept; counted = g.counted },
    )

look-Sound :
    (plain : Bytes) (s : Session) → WellFormed s → s.held ≡ none → WellFormed (look plain s)
unfolding look
look-Sound plain s h idle = elim (Option-cases (read_packet plain)) [
  | inl e ↦ rw (e, look) h
  | inr ((k, payload), e) ↦
      let none_held : in_hand s.held ≡ 0 = ap in_hand idle in
      elim (Option-cases (lookup k s.subs)) [
        | inl f ↦
            rw (e, f, look)
              (record {
                live = h.live;
                separate = h.separate;
                kept = h.kept;
                counted = omega (arith, h.counted, none_held);
              })
        | inr (c, f) ↦
            rw (e, f, look)
              (record {
                live = h.live;
                separate = h.separate;
                kept = h.kept;
                counted = omega (arith, h.counted, none_held);
              })
      ]
]

-- The channel that the reader holds has not been closed.
abbrev pub Current : Session → Type 0
Current s = (c : ℕ) (payload : Bytes) → s.held ≡ some (c, payload) → (channel s c).closed ≡ false

closed-set :
    (cs : List Channel) (c d : ℕ) (v : Channel)
    → v.closed ≡ (get_or cs c dead).closed
    → (get_or (set cs c v) d dead).closed ≡ (get_or cs d dead).closed
closed-set [] c d v e = refl
closed-set (x ∷ cs) zero zero v e = e
closed-set (x ∷ cs) zero (suc d) v e = refl
closed-set (x ∷ cs) (suc c) zero v e = refl
closed-set (x ∷ cs) (suc c) (suc d) v e = closed-set cs c d v e

live-set :
    (es : List (AddrKey × ℕ)) (cs : List Channel) (c : ℕ) (v : Channel)
    → v.closed ≡ (get_or cs c dead).closed
    → All (λ e. (get_or cs e.1 dead).closed ≡ false) es
    → All (λ e. (get_or (set cs c v) e.1 dead).closed ≡ false) es
live-set [] cs c v e h = tt
live-set (x ∷ es) cs c v e h = (closed-set cs c x.1 v e ∙ h.0, live-set es cs c v e h.1)

send-Sane :
    (c : ℕ) (payload : Bytes) (s : Session)
    → WellFormed s
    → s.held ≡ some (c, payload)
    → (channel s c).closed ≡ false
    → Sane (send c payload s)
unfolding send
send-Sane c payload s h e v =
    let one : in_hand s.held ≡ 1 = ap in_hand e in
    let more : Channel = record { queue = (channel s c).queue ++ (payload ∷ []); closed = false } in
    elim (Bool-cases (ltb (length (channel s c).queue) capacity)) [
      | inl room ↦
          rw (v, room, send)
            (
              _,
              refl,
              record {
                live = live-set s.subs s.channels c more (sym v) h.live;
                separate = h.separate;
                kept =
                    set-IsKept s.channels c more h.kept
                      (ground (arith, length-append (channel s c).queue (payload ∷ [])), λ x. cc);
                counted = omega (
                  arith,
                  h.counted,
                  one,
                  queued-set s.channels c more v,
                  length-append (channel s c).queue (payload ∷ []),
                );
              },
            )
      | inr full ↦
          rw (v, full, send)
            (
              _,
              refl,
              record {
                live = h.live;
                separate = h.separate;
                kept = h.kept;
                counted = omega (arith, h.counted, one);
              },
            )
    ]

queue-cases : (q : List Bytes) → (q ≡ []) ⊎ ((b : Bytes) × (bs : List Bytes) × (q ≡ b ∷ bs))
queue-cases [] = inl refl
queue-cases (b ∷ bs) = inr (b, bs, refl)

not_drained :
    (c : Channel) (b : Bytes) (bs : List Bytes)
    → (c.closed ≡ true → c.queue ≡ [])
    → c.queue ≡ b ∷ bs
    → c.closed ≡ false
not_drained c b bs drained e = elim (Bool-cases c.closed) [
  | inl t ↦ let n = drained t in cc
  | inr f ↦ f
]

take_payload-Sound : (c : ℕ) (s : Session) → WellFormed s → WellFormed (take_payload c s)
unfolding take_payload
take_payload-Sound c s h =
    let (small, drained) = All-get_or IsKept s.channels c dead h.kept (omega arith, λ x. refl) in
    elim (queue-cases (channel s c).queue) [
      | inl e ↦ rw (e, take_payload) h
      | inr (b, bs, e) ↦
          let v : (channel s c).closed ≡ false = not_drained (channel s c) b bs drained e in
          let left : Channel = record { queue = bs; closed = (channel s c).closed } in
          let size : length (channel s c).queue ≡ suc (length bs) = ap length e in
          rw (e, take_payload)
            (record {
              live = live-set s.subs s.channels c left refl h.live;
              separate = h.separate;
              kept = set-IsKept s.channels c left h.kept (omega (arith, small, size), λ x. cc);
              counted = omega (arith, h.counted, queued-set s.channels c left v, size);
            })
    ]

-- From a well-formed UDP session no critical section of a goroutine panics, and each leaves the
-- session well-formed, if a send finds the channel that the reader looked up still open: the map
-- holds open channels, each once, no channel is over its capacity, and each payload taken from the
-- pool is in a channel, with the reader, handed over or released once.
pub step-Sane :
    (t : Step) (s : Session) → WellFormed s → (t ≡ sending → Current s) → Sane (step t s)
unfolding step
step-Sane (subscribing k) s h current = ((subscribe k s).0, refl, subscribe-Sound k s h)
step-Sane (unsubscribing k) s h current = unsubscribe-Sane k s h
step-Sane closing s h current = close-Sane s h
step-Sane (looking plain) s h current = elim (Option-cases s.held) [
  | inl e ↦ rw (e, step) (look plain s, refl, look-Sound plain s h e)
  | inr (m, e) ↦ rw (e, step) (s, refl, h)
]
step-Sane sending s h current = elim (Option-cases s.held) [
  | inl e ↦ rw (e, step) (s, refl, h)
  | inr ((c, payload), e) ↦ rw (e, step) (send-Sane c payload s h e (current refl c payload e))
]
step-Sane (taking c) s h current = (take_payload c s, refl, take_payload-Sound c s h)
