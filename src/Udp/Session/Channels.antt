-- ===== src/Udp/Session/Channels.antt =====
-- The channels of a UDP session: what a session has to be for its operations to be sound, and that
-- closing a channel keeps it so.
use outline_cli_ws.Common.Bytes.{bytes_equal_refl}
use outline_cli_ws.Socks.Addr.{AddrKey}
use outline_cli_ws.Udp.Session.{
  Channel, Session, dead, capacity, key_equal, lookup, remove, channel, shut, shut_all,
}
use outline_cli_ws.Common.{
  ℕ, zero, suc, ◌+◌, ◌≤◌, ◌≡◌, refl, sym, ap, ◌∙◌, subst, ◌≢◌, inl, inr, true, false, Option, none,
  some, List, [], ◌∷◌, arith, Bool-cases, length, get_or, set, All,
}
use outline_cli_ws.Common.Bytes.{Bytes}

abbrev pub queued : List Channel → ℕ
queued [] = 0
queued (c ∷ cs) = length c.queue + queued cs

abbrev pub in_hand : Option (ℕ × Bytes) → ℕ
in_hand none = 0
in_hand (some h) = 1

-- No two entries share a channel.
abbrev pub Separate : List (AddrKey × ℕ) → Type 0
Separate [] = Unit {0}
Separate (e ∷ es) = All (λ x. x.1 ≢ e.1) es × Separate es

-- A closed channel holds nothing, an open one no more than its capacity.
abbrev pub IsKept : Channel → Type 0
IsKept c = (length c.queue ≤ capacity) × (c.closed ≡ true → c.queue ≡ [])

-- The entries `es` are open and separate, the channels are kept, and each payload taken from the pool
-- is in a channel, with the reader, released or handed over.
pub record Sound (es : List (AddrKey × ℕ)) (s : Session) : Type 0 where
  pub live : All (λ e. (channel s e.1).closed ≡ false) es
  pub separate : Separate es
  pub kept : All IsKept s.channels
  pub counted : s.taken ≡ s.released + s.handed + queued s.channels + in_hand s.held

abbrev pub WellFormed : Session → Type 0
WellFormed s = Sound s.subs s

pub get_or-set_ne :
    (cs : List Channel) (c d : ℕ) (v : Channel)
    → d ≢ c
    → get_or (set cs c v) d dead ≡ get_or cs d dead
get_or-set_ne [] c d v h = refl
get_or-set_ne (x ∷ cs) zero zero v h = absurd (h refl)
get_or-set_ne (x ∷ cs) zero (suc d) v h = refl
get_or-set_ne (x ∷ cs) (suc c) zero v h = refl
get_or-set_ne (x ∷ cs) (suc c) (suc d) v h = get_or-set_ne cs c d v (λ e. h (ap suc e))

pub get_or-set_self :
    (cs : List Channel) (c : ℕ) (v : Channel)
    → (get_or cs c dead).closed ≡ false
    → get_or (set cs c v) c dead ≡ v
get_or-set_self [] c v h = cc
get_or-set_self (x ∷ cs) zero v h = refl
get_or-set_self (x ∷ cs) (suc c) v h = get_or-set_self cs c v h

pub queued-set :
    (cs : List Channel) (c : ℕ) (v : Channel)
    → (get_or cs c dead).closed ≡ false
    → queued (set cs c v) + length (get_or cs c dead).queue ≡ queued cs + length v.queue
queued-set [] c v h = cc
queued-set (x ∷ cs) zero v h = omega arith
queued-set (x ∷ cs) (suc c) v h = omega (arith, queued-set cs c v h)

pub set-IsKept :
    (cs : List Channel) (c : ℕ) (v : Channel) → All IsKept cs → IsKept v → All IsKept (set cs c v)
set-IsKept [] c v h k = tt
set-IsKept (x ∷ cs) zero v h k = (k, h.1)
set-IsKept (x ∷ cs) (suc c) v h k = (h.0, set-IsKept cs c v h.1 k)

pub open-set :
    (es : List (AddrKey × ℕ)) (cs : List Channel) (c : ℕ) (v : Channel)
    → All (λ e. (get_or cs e.1 dead).closed ≡ false) es
    → All (λ e. e.1 ≢ c) es
    → All (λ e. (get_or (set cs c v) e.1 dead).closed ≡ false) es
open-set [] cs c v h n = tt
open-set (e ∷ es) cs c v h n =
    (ap (λ x. x.closed) (get_or-set_ne cs c e.1 v n.0) ∙ h.0, open-set es cs c v h.1 n.1)

-- An entry that is open closes without a panic, and leaves the others sound.
pub shut-Sound :
    (k : AddrKey) (c : ℕ) (es : List (AddrKey × ℕ)) (s : Session)
    → Sound ((k, c) ∷ es) s
    → (s' : Session) × (shut c s ≡ some s') × Sound es s' × (s'.held ≡ s.held)
unfolding shut
shut-Sound k c es s h =
    let v = h.live.0 in
    (
      record s {
        channels = set s.channels c dead;
        released = s.released + length (channel s c).queue;
      },
      rw v refl,
      record {
        live = open-set es s.channels c dead h.live.1 h.separate.0;
        separate = h.separate.1;
        kept = set-IsKept s.channels c dead h.kept (omega arith, λ x. refl);
        counted = omega (arith, h.counted, queued-set s.channels c dead v);
      },
      refl,
    )

pub shut_all-Sound :
    (es : List (AddrKey × ℕ)) (s : Session)
    → Sound es s
    → (s' : Session) × (shut_all es s ≡ some s') × Sound [] s'
unfolding shut_all
shut_all-Sound [] s h = (s, refl, h)
shut_all-Sound ((k, c) ∷ es) s h =
    let (t, e, g, i) = shut-Sound k c es s h in
    let (s', f, r) = shut_all-Sound es t g in (s', rw e f, r)

pub key_equal_refl : (k : AddrKey) → key_equal k k ≡ true
unfolding key_equal
key_equal_refl k = ground (arith, bytes_equal_refl k.ip, bytes_equal_refl k.domain)

-- Looking up and removing.
pub lookup-All {κ} :
    (P : AddrKey × ℕ → Type κ) (k : AddrKey) (es : List (AddrKey × ℕ)) (c : ℕ)
    → lookup k es ≡ some c
    → All P es
    → (l : AddrKey) × P (l, c)
unfolding lookup
lookup-All P k [] c h p = cc
lookup-All P k ((l, d) ∷ es) c h p = elim (Bool-cases (key_equal l k)) [
  | inl t ↦ let e : d ≡ c = cc (rw (t, lookup) at h) in (l, subst (λ x. P (l, x)) e p.0)
  | inr f ↦ lookup-All P k es c (rw (f, lookup) at h) p.1
]

pub remove-All {κ} :
    (P : AddrKey × ℕ → Type κ) (k : AddrKey) (es : List (AddrKey × ℕ))
    → All P es
    → All P (remove k es)
unfolding remove
remove-All P k [] p = tt
remove-All P k (e ∷ es) p = elim (Bool-cases (key_equal e.0 k)) [
  | inl t ↦ rw (t, remove) (remove-All P k es p.1)
  | inr f ↦ rw (f, remove) (p.0, remove-All P k es p.1)
]

pub remove-Separate : (k : AddrKey) (es : List (AddrKey × ℕ)) → Separate es → Separate (remove k es)
unfolding remove
remove-Separate k [] p = tt
remove-Separate k (e ∷ es) p = elim (Bool-cases (key_equal e.0 k)) [
  | inl t ↦ rw (t, remove) (remove-Separate k es p.1)
  | inr f ↦ rw (f, remove) (remove-All (λ x. x.1 ≢ e.1) k es p.0, remove-Separate k es p.1)
]

-- What is left has another channel.
pub remove-lookup :
    (k : AddrKey) (es : List (AddrKey × ℕ)) (c : ℕ)
    → lookup k es ≡ some c
    → Separate es
    → All (λ e. e.1 ≢ c) (remove k es)
unfolding remove lookup
remove-lookup k [] c h p = tt
remove-lookup k (e ∷ es) c h p = elim (Bool-cases (key_equal e.0 k)) [
  | inl t ↦
      let same : e.1 ≡ c = cc (rw (t, lookup) at h) in
      rw (t, remove) (remove-All (λ x. x.1 ≢ c) k es (subst (λ y. All (λ x. x.1 ≢ y) es) same p.0))
  | inr f ↦
      let past : lookup k es ≡ some c = rw (f, lookup) at h in
      let apart = (lookup-All (λ x. x.1 ≢ e.1) k es c past p.0).1 in
      rw (f, remove) ((λ q. apart (sym q)), remove-lookup k es c past p.1)
]
