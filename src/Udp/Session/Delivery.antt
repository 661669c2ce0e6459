-- ===== src/Udp/Session/Delivery.antt =====
-- The rounds of the read loop of a UDP session, internal/outline_udp_session.go: whom a packet
-- reaches, and what a round meets when another goroutine comes between its two halves.
use outline_cli_ws.Common.Partial.{◌>>=◌}
use outline_cli_ws.Common.Bytes.{Bytes}
use outline_cli_ws.Common.{
  ℕ, ◌+◌, ◌≡◌, refl, ap, ◌≢◌, Bool, true, false, Option, none, some, [], ◌∷◌, ◌++◌, ltb,
  if◌then◌else◌, length, set,
}
use outline_cli_ws.Socks.Addr.{AddrKey}
use outline_cli_ws.Udp.Session.{
  Session, unsubscribing, sending, looking, dead, capacity, lookup, remove, channel, shut,
  unsubscribe, read_packet, look, send, step,
}
use outline_cli_ws.Udp.Session.Channels.{WellFormed, get_or-set_ne, get_or-set_self, lookup-All}

-- A round of `readLoop` that no other goroutine interrupts.
unfoldable pub round : Bytes → Session → Option Session
round plain s = do t ← step (looking plain) s; step sending t

-- The channel of `c` in `t` is that in `s` with the payload behind it, where there is room.
abbrev pub Delivered : ℕ → Bytes → Session → Session → Type 0
Delivered c payload s t = (channel t c).queue ≡ (
    if ltb (length (channel s c).queue) capacity
    then (channel s c).queue ++ (payload ∷ [])
    else (channel s c).queue)

-- The session with the message in the reader's hand.
abbrev pub holding : ℕ → Bytes → Session → Session
holding c payload s = record s { taken = s.taken + 1; held = some (c, payload) }

module _ (s : Session) (plain payload : Bytes) (k : AddrKey) (c : ℕ) (h : WellFormed s)
    (idle : s.held ≡ none) (e : read_packet plain ≡ some (k, payload))
    (f : lookup k s.subs ≡ some c) where
  looking_lem : step (looking plain) s ≡ some (holding c payload s)
  unfolding step look
  looking_lem = rw (idle, e, look, f) refl

  is_open : (channel s c).closed ≡ false
  is_open = (lookup-All (λ x. (channel s x.1).closed ≡ false) k s.subs c f h.live).1

  abbrev pub Round : Option Session → Type 0
  Round r =
      (t : Session) × (r ≡ some t)
      × (t.held ≡ none)
      × Delivered c payload s t
      × ((d : ℕ) → d ≢ c → channel t d ≡ channel s d)

  sent :
      (room : Bool)
      → ltb (length (channel s c).queue) capacity ≡ room
      → Round (step sending (holding c payload s))
  unfolding step send
  sent true room = (
    record s {
      taken = s.taken + 1;
      held = none;
      channels =
          set s.channels c
            (record { queue = (channel s c).queue ++ (payload ∷ []); closed = false });
    },
    rw (is_open, room) refl,
    refl,
    rw room (ap (λ x. x.queue) (get_or-set_self s.channels c _ is_open)),
    λ d n. get_or-set_ne s.channels c d _ n,
  )
  sent false room = (
    record s { taken = s.taken + 1; held = none; released = s.released + 1 },
    rw (is_open, room) refl,
    refl,
    rw room refl,
    λ d n. refl,
  )

  -- A packet with a subscriber reaches that channel, if there is room, and no other one.
  pub round-Delivered : Round (round plain s)
  unfolding round
  round-Delivered = rw looking_lem (sent (ltb (length (channel s c).queue) capacity) refl)

  -- The session behind an `Unsubscribe` that has come in between.
  abbrev pub cut : Session
  cut = record s {
    subs = remove k s.subs;
    channels = set s.channels c dead;
    held = some (c, payload);
    taken = s.taken + 1;
    released = s.released + length (channel s c).queue;
  }

  unsubscribing_lem : step (unsubscribing (some k)) (holding c payload s) ≡ some cut
  unfolding step unsubscribe shut
  unsubscribing_lem = rw (f, unsubscribe, is_open, shut) refl

  sending_lem : step sending cut ≡ none
  unfolding step send
  sending_lem = rw (get_or-set_self s.channels c dead is_open) refl

  -- In a well-formed session with an idle reader, where the reader has looked up the channel of a
  -- packet with a subscriber, and that subscriber unsubscribes before the reader sends, the send
  -- panics.
  pub sending-unsubscribing :
      (t u : Session)
      → step (looking plain) s ≡ some t
      → step (unsubscribing (some k)) t ≡ some u
      → step sending u ≡ none
  sending-unsubscribing t u g i =
      let here : t ≡ holding c payload s = cc (g, looking_lem) in
      let gone : step (unsubscribing (some k)) (holding c payload s) ≡ some u = rw (← here) i in
      let there : u ≡ cut = cc (gone, unsubscribing_lem) in rw there sending_lem
