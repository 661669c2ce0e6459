-- ===== src/Tun/Ports/Unique.antt =====
-- The keys of the table of internal/tun_udp_porttable.go.
use outline_cli_ws.Common.{
  ℕ, ◌≡◌, false, Option, none, some, List, [], ◌∷◌, get_elem?, Option-cases, Bool-cases, inl, inr,
  All, length, length,
}
use outline_cli_ws.Common.Int.{ℤ, pos, ltb_ℤ}
use outline_cli_ws.Lb.State.{sub_time}
use outline_cli_ws.Tun.Ports.{
  PortKey, PortSession, Table, Stage, Answer, TunLimits, World, Move, getting, opening, storing,
  duplicate, returned, collecting, closing, done, call_get, call_gc, go_on, same_key, find, touch,
  collect, port_idle, or_positive, get_existing, open_session, store, advance, go_on_at, move, run,
}

-- No key stands at two entries.
abbrev pub Apart : PortKey → PortSession → Type 0
Apart k p = same_key p.key k ≡ false

abbrev pub Unique : List PortSession → Type 0
Unique [] = Unit {0}
Unique (p ∷ ps) = All (Apart p.key) ps × Unique ps

find-none : (k : PortKey) (ps : List PortSession) → find k ps ≡ none → All (Apart k) ps
unfolding find
find-none k [] e = tt
find-none k (p ∷ ps) e = elim (Bool-cases (same_key p.key k)) [
  | inl t ↦ cc (rw (t, find) at e)
  | inr f ↦ (f, find-none k ps (rw (f, find) at e))
]

touch-Apart :
    (l k : PortKey) (now : ℕ) (ps : List PortSession)
    → All (Apart l) ps
    → All (Apart l) (touch k now ps)
unfolding touch
touch-Apart l k now [] h = tt
touch-Apart l k now (p ∷ ps) h = elim (Bool-cases (same_key p.key k)) [
  | inl t ↦ rw (touch, t) (h.0, touch-Apart l k now ps h.1)
  | inr f ↦ rw (touch, f) (h.0, touch-Apart l k now ps h.1)
]

touch-Unique : (k : PortKey) (now : ℕ) (ps : List PortSession) → Unique ps → Unique (touch k now ps)
unfolding touch
touch-Unique k now [] h = tt
touch-Unique k now (p ∷ ps) h = elim (Bool-cases (same_key p.key k)) [
  | inl t ↦ rw (touch, t) (touch-Apart p.key k now ps h.0, touch-Unique k now ps h.1)
  | inr f ↦ rw (touch, f) (touch-Apart p.key k now ps h.0, touch-Unique k now ps h.1)
]

collect-Apart :
    (l : PortKey) (idle : ℤ) (now : ℕ) (ps : List PortSession)
    → All (Apart l) ps
    → All (Apart l) (collect idle now ps).0
unfolding collect
collect-Apart l idle now [] h = tt
collect-Apart l idle now (p ∷ ps) h =
    elim (Bool-cases (ltb_ℤ (port_idle idle) (sub_time now p.last_seen))) [
      | inl t ↦ rw (collect, t) (collect-Apart l idle now ps h.1)
      | inr f ↦ rw (collect, f) (h.0, collect-Apart l idle now ps h.1)
    ]

collect-Unique :
    (idle : ℤ) (now : ℕ) (ps : List PortSession) → Unique ps → Unique (collect idle now ps).0
unfolding collect
collect-Unique idle now [] h = tt
collect-Unique idle now (p ∷ ps) h =
    elim (Bool-cases (ltb_ℤ (port_idle idle) (sub_time now p.last_seen))) [
      | inl t ↦ rw (collect, t) (collect-Unique idle now ps h.1)
      | inr f ↦
          rw (collect, f) (collect-Apart p.key idle now ps h.0, collect-Unique idle now ps h.1)
    ]

module _ (cfg : TunLimits) where
  store-Unique :
      (t : Table) (k : PortKey) (s now : ℕ)
      → Unique t.ports
      → Unique (store cfg t k s now (find k t.ports)).0.ports
  unfolding store
  store-Unique t k s now h = elim (Option-cases (find k t.ports)) [
    | inl e ↦ rw (e, store) (find-none k t.ports e, h)
    | inr (o, e) ↦ rw (e, store) h
  ]

  get_existing-Unique :
      (a : Answer) (t : Table) (k : PortKey) (o : Option ℕ)
      → Unique t.ports
      → Unique (get_existing cfg a t k o).0.ports
  unfolding get_existing
  get_existing-Unique a t k (some s) h = touch-Unique k a.now t.ports h
  get_existing-Unique a t k none h =
      elim (Bool-cases (ltb_ℤ (pos (length t.ports)) (or_positive cfg.udp_max_flows (pos 4096)))) [
        | inl e ↦ rw (get_existing, e) h
        | inr e ↦ rw (get_existing, e) h
      ]

  advance-Unique :
      (a : Answer) (t : Table) (s : Stage) → Unique t.ports → Unique (advance cfg a t s).0.ports
  unfolding advance open_session
  advance-Unique a t (getting k) h = get_existing-Unique a t k (find k t.ports) h
  advance-Unique a t (opening k now) h = elim (Option-cases a.open_error) [
    | inl e ↦ rw (advance, e) h
    | inr (x, e) ↦ rw (advance, e) h
  ]
  advance-Unique a t (storing k s now) h = store-Unique t k s now h
  advance-Unique a t (duplicate s other) h = h
  advance-Unique a t (returned r) h = h
  advance-Unique a t collecting h = collect-Unique cfg.udp_idle_timeout a.now t.ports h
  advance-Unique a t (closing ss) h = h
  advance-Unique a t done h = h

  move-Unique : (w : World) (m : Move) → Unique w.table.ports → Unique (move cfg w m).table.ports
  unfolding move go_on_at
  move-Unique w (call_get k) h = h
  move-Unique w call_gc h = h
  move-Unique w (go_on i a) h = elim (Option-cases (get_elem? w.threads i)) [
    | inl e ↦ rw e h
    | inr (t, e) ↦ rw e (advance-Unique a w.table t h)
  ]

  pub run-Unique :
      (w : World) (ms : List Move) → Unique w.table.ports → Unique (run cfg w ms).table.ports
  unfolding run
  run-Unique w [] h = h
  run-Unique w (m ∷ ms) h = run-Unique (move cfg w m) ms (move-Unique w m h)
