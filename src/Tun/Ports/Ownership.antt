-- ===== src/Tun/Ports/Ownership.antt =====
-- Who owns the sessions of the table of internal/tun_udp_porttable.go.
use outline_cli_ws.Common.{
  ℕ, ◌+◌, ◌≡◌, refl, List, [], ◌∷◌, get_elem?, Option-cases, Bool-cases, inl, inr, arith,
}
use outline_cli_ws.Common.Owners.{one, in_list, made, total, total-set, in_list-append}
use outline_cli_ws.Common.Int.{ltb_ℤ}
use outline_cli_ws.Lb.State.{sub_time}
use outline_cli_ws.Common.Int.{ℤ}
use outline_cli_ws.Tun.Ports.Unique.{Unique, run-Unique}
use outline_cli_ws.Tun.Ports.{
  PortKey, PortSession, Table, Stage, Answer, TunLimits, World, Move, getting, opening, storing,
  duplicate, returned, collecting, closing, done, call_get, call_gc, go_on, same_key, touch,
  collect, port_idle, get_existing, open_session, store, advance, go_on_at, move, run, empty,
}

abbrev in_ports : ℕ → List PortSession → ℕ
in_ports x [] = 0
in_ports x (p ∷ ps) = one x p.sess + in_ports x ps

-- The session that a goroutine of getOrCreate has opened and not stored, and those that one of gcOnce
-- is to close.
abbrev held : ℕ → Stage → ℕ
held x (getting k) = 0
held x (opening k now) = 0
held x (storing k s now) = one x s
held x (duplicate s other) = one x s
held x (returned r) = 0
held x collecting = 0
held x (closing ss) = in_list x ss
held x done = 0

abbrev in_table : ℕ → Table → ℕ
in_table x t = in_ports x t.ports + in_list x t.closed

-- The owners of a session: the table, a goroutine, or nobody where it has been closed.
abbrev pub owners : ℕ → World → ℕ
owners x w = in_table x w.table + total (held x) w.threads

in_ports-touch :
    (x : ℕ) (k : PortKey) (now : ℕ) (ps : List PortSession)
    → in_ports x (touch k now ps) ≡ in_ports x ps
unfolding touch
in_ports-touch x k now [] = refl
in_ports-touch x k now (p ∷ ps) = elim (Bool-cases (same_key p.key k)) [
  | inl t ↦ rw (touch, t) (omega (arith, in_ports-touch x k now ps))
  | inr f ↦ rw (touch, f) (omega (arith, in_ports-touch x k now ps))
]

in_ports-collect :
    (x : ℕ) (idle : ℤ) (now : ℕ) (ps : List PortSession)
    → in_ports x (collect idle now ps).0 + in_list x (collect idle now ps).1 ≡ in_ports x ps
unfolding collect
in_ports-collect x idle now [] = omega arith
in_ports-collect x idle now (p ∷ ps) =
    elim (Bool-cases (ltb_ℤ (port_idle idle) (sub_time now p.last_seen))) [
      | inl t ↦ rw (collect, t) (omega (arith, in_ports-collect x idle now ps))
      | inr f ↦ rw (collect, f) (omega (arith, in_ports-collect x idle now ps))
    ]

module _ (cfg : TunLimits) where
  -- What one step takes from the table it gives to the goroutine, and the reverse; a new session adds
  -- one owner.
  advance-held :
      (x : ℕ) (a : Answer) (t : Table) (s : Stage)
      → (in_table x (advance cfg a t s).0 + held x (advance cfg a t s).1) + made x t.opened
        ≡ (in_table x t + held x s) + made x (advance cfg a t s).0.opened
  unfolding advance get_existing open_session store
  advance-held x a t (getting k) = ground (arith, in_ports-touch x k a.now t.ports)
  advance-held x a t (opening k now) = ground arith
  advance-held x a t (storing k s now) = ground arith
  advance-held x a t (duplicate s other) = ground arith
  advance-held x a t (returned r) = ground arith
  advance-held x a t collecting =
      ground (arith, in_ports-collect x cfg.udp_idle_timeout a.now t.ports)
  advance-held x a t (closing ss) = ground (arith, in_list-append x ss t.closed)
  advance-held x a t done = ground arith

  move-owners :
      (x : ℕ) (w : World) (m : Move)
      → owners x (move cfg w m) + made x w.table.opened
        ≡ owners x w + made x (move cfg w m).table.opened
  unfolding move go_on_at
  move-owners x w (call_get k) = omega arith
  move-owners x w call_gc = omega arith
  move-owners x w (go_on i a) = elim (Option-cases (get_elem? w.threads i)) [
    | inl e ↦ rw e (omega arith)
    | inr (t, e) ↦ rw e (
        omega (
          arith,
          advance-held x a w.table t,
          total-set (held x) w.threads i t (advance cfg a w.table t).1 e,
        ))
  ]

  run-owners :
      (x : ℕ) (w : World) (ms : List Move)
      → owners x w ≡ made x w.table.opened
      → owners x (run cfg w ms) ≡ made x (run cfg w ms).table.opened
  unfolding run
  run-owners x w [] h = h
  run-owners x w (m ∷ ms) h = run-owners x (move cfg w m) ms (omega (arith, h, move-owners x w m))

-- Under every interleaving of getOrCreate and gcOnce from an empty table, whatever the upstreams
-- answer, each UDP session that has been opened stands in the table, or with the goroutine that is
-- to store or to close it, or has been closed, in one place and once; and no source port has two
-- sessions in the table.
pub run-owned :
    (cfg : TunLimits) (ms : List Move)
    → ((x : ℕ) → owners x (run cfg empty ms) ≡ made x (run cfg empty ms).table.opened)
      × Unique (run cfg empty ms).table.ports
run-owned cfg ms = (λ x. run-owners cfg x empty ms (ground arith), run-Unique cfg empty ms tt)
