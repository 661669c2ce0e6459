-- ===== src/Lb/Slots.antt =====
-- The slots of internal/lb.go: `dialSem`, `probeSem` and `probeDialSem` are channels of a capacity,
-- with acquire, release and the calls that stand between them. A goroutine waits for a slot, runs,
-- and is over.
use outline_cli_ws.Common.{
  ℕ, zero, suc, ◌+◌, ◌-◌, ◌≤◌, ◌≡◌, inl, inr, Bool, not, ◌&&◌, Option, none, some, List, [], ◌∷◌,
  arith, ltb, ◌==◌, if◌then◌else◌, Option-cases, get_elem?, set,
}
use outline_cli_ws.Common.{Error, Result, ok, err}

-- The channel: how many values it holds, and its capacity.
pub record Slots : Type 0 where
  pub held : ℕ
  pub cap : ℕ

-- `acquireProbeSlot`, `acquireProbeDialSlot` and `acquireDialSlot`: a `select` between the channel and
-- the context, which picks either where both are ready. `none` waits on.
unfoldable pub acquire : Slots → Option Error → Bool → Slots × Option (Result (Unit {0}))
acquire s none prefer_ctx =
    if ltb s.held s.cap then (record s { held = s.held + 1 }, some (ok tt)) else (s, none)
acquire s (some e) prefer_ctx =
    if ltb s.held s.cap && not prefer_ctx
    then (record s { held = s.held + 1 }, some (ok tt))
    else (s, some (err e))

-- `releaseProbeSlot` and the others: a `select` with a default.
unfoldable pub release : Slots → Slots
release s = if s.held == 0 then s else record s { held = s.held - 1 }

-- `runProbeDialLimited` and `DialWSStreamLimited`: the stages of a call, over the result of the call
-- inside.
pub data Stage (A : Type 0) : Type 0 where
  waiting : Stage A
  running : Stage A
  over : Result A → Stage A

-- The goroutines on one channel.
pub record Users (A : Type 0) : Type 0 where
  pub slots : Slots
  pub stages : List (Stage A)

pub data Turn (A : Type 0) : Type 0 where
  enter : Turn A
  go : ℕ → Option Error → Bool → Result A → Turn A

module _ {A : Type 0} where
  waited : Slots × Option (Result (Unit {0})) → Slots × Stage A
  waited (s, none) = (s, waiting)
  waited (s, some (ok u)) = (s, running)
  waited (s, some (err e)) = (s, over (err e))

  -- A turn: the context and the choice of the `select` while it waits, the result of the call that
  -- it runs, with the deferred release.
  unfoldable pub limited : Option Error → Bool → Result A → Slots → Stage A → Slots × Stage A
  unfolding acquire release waited
  limited ctx prefer r s waiting = waited (acquire s ctx prefer)
  limited ctx prefer r s running = (release s, over r)
  limited ctx prefer r s (over q) = (s, over q)

  turn_of : Users A → ℕ → Option Error → Bool → Result A → Option (Stage A) → Users A
  unfolding limited
  turn_of w i ctx prefer r none = w
  turn_of w i ctx prefer r (some t) =
      let q = limited ctx prefer r w.slots t in record { slots = q.0; stages = set w.stages i q.1 }

  pub turn : Users A → Turn A → Users A
  unfolding turn_of
  turn w enter = record w { stages = waiting ∷ w.stages }
  turn w (go i ctx prefer r) = turn_of w i ctx prefer r (get_elem? w.stages i)

  pub turns : Users A → List (Turn A) → Users A
  unfolding turn
  turns w [] = w
  turns w (t ∷ ts) = turns (turn w t) ts

  -- How many run.
  abbrev pub runs : Stage A → ℕ
  runs waiting = 0
  runs running = 1
  runs (over r) = 0

  abbrev pub count : List (Stage A) → ℕ
  count [] = 0
  count (t ∷ ts) = runs t + count ts

  -- The channel holds a value for each call that runs, and no more than its capacity.
  abbrev pub Bounded : Users A → Type 0
  Bounded w = (w.slots.held ≡ count w.stages) × (count w.stages ≤ w.slots.cap)

  count-set :
      (ts : List (Stage A)) (i : ℕ) (t u : Stage A)
      → get_elem? ts i ≡ some t
      → count (set ts i u) + runs t ≡ count ts + runs u
  count-set [] i t u e = cc
  count-set (v ∷ ts) zero t u e = let same : v ≡ t = cc in rw same (omega arith)
  count-set (v ∷ ts) (suc i) t u e = omega (arith, count-set ts i t u e)

  -- One turn of a goroutine, by what it adds to the channel.
  limited-runs :
      (ctx : Option Error) (prefer : Bool) (r : Result A) (s : Slots) (t : Stage A)
      → runs t ≤ s.held
      → s.held ≤ s.cap
      → let q = limited ctx prefer r s t in
        (q.0.held + runs t ≡ s.held + runs q.1) × (q.0.held ≤ q.0.cap) × (q.0.cap ≡ s.cap)
  unfolding limited acquire release waited
  limited-runs none prefer r s waiting h k = ground arith
  limited-runs (some e) prefer r s waiting h k = ground arith
  limited-runs ctx prefer r s running h k = ground arith
  limited-runs ctx prefer r s (over q) h k = ground arith

  runs-le-count :
      (ts : List (Stage A)) (i : ℕ) (t : Stage A) → get_elem? ts i ≡ some t → runs t ≤ count ts
  runs-le-count [] i t e = cc
  runs-le-count (v ∷ ts) zero t e = let same : v ≡ t = cc in rw same (omega arith)
  runs-le-count (v ∷ ts) (suc i) t e = omega (arith, runs-le-count ts i t e)

  turn-Bounded : (w : Users A) (t : Turn A) → Bounded w → Bounded (turn w t)
  unfolding turn turn_of
  turn-Bounded w enter h = (omega arith, omega arith)
  turn-Bounded w (go i ctx prefer r) h = elim (Option-cases (get_elem? w.stages i)) [
    | inl e ↦ rw e h
    | inr (t, e) ↦
        let (a, b, c) =
          limited-runs ctx prefer r w.slots t (omega (arith, runs-le-count w.stages i t e))
            (omega arith) in
        let swap : count (set w.stages i (limited ctx prefer r w.slots t).1) + runs t
            ≡ count w.stages + runs (limited ctx prefer r w.slots t).1 =
          count-set w.stages i t (limited ctx prefer r w.slots t).1 e in
        rw e (omega arith, omega arith)
  ]

  -- Under every interleaving of the calls on one channel of slots, with contexts that end at any
  -- time, there are never more calls in progress than slots, and every call that ends gives its
  -- slot back, from a channel that holds one value for each call in progress.
  pub turns-Bounded : (w : Users A) (ts : List (Turn A)) → Bounded w → Bounded (turns w ts)
  unfolding turns
  turns-Bounded w [] h = h
  turns-Bounded w (t ∷ ts) h = turns-Bounded (turn w t) ts (turn-Bounded w t h)
