-- ===== src/Ws/RawH2/Flow.antt =====
-- The read loop of internal/rfc8441_raw_h2.go: what it pipes on, and what it credits to the peer.
use outline_cli_ws.Common.{
  ℕ, ◌+◌, ◌≡◌, refl, sym, ap, ◌∙◌, inl, inr, Bool, true, false, some, List, [], ◌∷◌, ◌++◌,
  append-nil, append_assoc, arith, ◌==◌, if◌then◌else◌, Bool-cases, length, length-append,
}
use outline_cli_ws.Common.Bytes.{Bytes}
use outline_cli_ws.Ws.RawH2.{
  Event, OutFrame, settings, headers, continuation, data_in, rst_in, go_away, other, frame, broken,
  cancelled, settings_ack, data_out, window_update, reset, Pump, flush_update, receive, read_loop,
}

-- The bytes of stream 1 up to its end.
abbrev pub stream_data : List Event → Bytes
stream_data [] = []
stream_data (broken e ∷ es) = []
stream_data (cancelled e ∷ es) = []
stream_data (frame (data_in i b end) ∷ es) =
    if i == 1 then (b ++ (if end then [] else stream_data es)) else stream_data es
stream_data (frame (rst_in i) ∷ es) = if i == 1 then [] else stream_data es
stream_data (frame go_away ∷ es) = []
stream_data (frame (settings a s) ∷ es) = stream_data es
stream_data (frame (headers i b end) ∷ es) = stream_data es
stream_data (frame (continuation i b end) ∷ es) = stream_data es
stream_data (frame other ∷ es) = stream_data es

-- The window that the frames give to the peer, for the connection (0) or the stream (1).
abbrev pub credited : ℕ → List OutFrame → ℕ
credited id [] = 0
credited id (window_update i n ∷ fs) = (if i == id then n else 0) + credited id fs
credited id (settings_ack ∷ fs) = credited id fs
credited id (data_out b ∷ fs) = credited id fs
credited id (reset ∷ fs) = credited id fs

-- Each byte in the pipe has been credited to both windows, or is pending.
pub record Balanced (p : Pump) : Type 0 where
  pub connection : credited 0 p.sent + p.pending ≡ length p.piped
  pub stream : credited 1 p.sent + p.pending ≡ length p.piped

credited-append :
    (id : ℕ) (fs gs : List OutFrame) → credited id (fs ++ gs) ≡ credited id fs + credited id gs
credited-append id [] gs = omega arith
credited-append id (window_update i n ∷ fs) gs = omega (arith, credited-append id fs gs)
credited-append id (settings_ack ∷ fs) gs = credited-append id fs gs
credited-append id (data_out b ∷ fs) gs = credited-append id fs gs
credited-append id (reset ∷ fs) gs = credited-append id fs gs

flush_update-Balanced : (force : Bool) (p : Pump) → Balanced p → Balanced (flush_update force p)
unfolding flush_update
flush_update-Balanced force p h =
    let both : List OutFrame = window_update 0 p.pending ∷ window_update 1 p.pending ∷ [] in
    record {
      connection = ground (arith, credited-append 0 p.sent both);
      stream = ground (arith, credited-append 1 p.sent both);
    }

receive-Balanced : (b : Bytes) (p : Pump) → Balanced p → Balanced (receive b p)
unfolding receive
receive-Balanced [] p h = h
receive-Balanced (b ∷ bs) p h =
    flush_update-Balanced false
      (record p { piped = p.piped ++ (b ∷ bs); pending = p.pending + length (b ∷ bs) })
      (record {
        connection = omega (arith, length-append p.piped (b ∷ bs));
        stream = omega (arith, length-append p.piped (b ∷ bs));
      })

-- What the loop ends with, from a pump: no byte is pending, the windows are balanced, and the data of
-- the stream has been piped.
pub record Pumped (p : Pump) (es : List Event) (q : Pump) : Type 0 where
  pub piped : q.piped ≡ p.piped ++ stream_data es
  pub settled : q.pending ≡ 0
  pub balanced : Balanced q

flush_update-piped : (force : Bool) (p : Pump) → (flush_update force p).piped ≡ p.piped
unfolding flush_update
flush_update-piped force p = ground arith

flush_update-true : (p : Pump) → (flush_update true p).pending ≡ 0
unfolding flush_update
flush_update-true p = ground arith

receive-piped : (b : Bytes) (p : Pump) → (receive b p).piped ≡ p.piped ++ b
unfolding receive
receive-piped [] p = sym (append-nil p.piped)
receive-piped (b ∷ bs) p =
    flush_update-piped false
      (record p { piped = p.piped ++ (b ∷ bs); pending = p.pending + length (b ∷ bs) })

-- The end of the loop, at events that bring nothing more.
flush_update-Pumped :
    (p : Pump) (es : List Event)
    → Balanced p
    → stream_data es ≡ []
    → Pumped p es (flush_update true p)
flush_update-Pumped p es h none_left = record {
  piped =
      flush_update-piped true p ∙ sym (append-nil p.piped) ∙ ap (λ d. p.piped ++ d) (sym none_left);
  settled = flush_update-true p;
  balanced = flush_update-Balanced true p h;
}

-- The loop behind a DATA frame.
receive-Pumped :
    (b : Bytes) (p : Pump) (es fs : List Event) (q : Pump)
    → stream_data fs ≡ b ++ stream_data es
    → Pumped (receive b p) es q
    → Pumped p fs q
receive-Pumped b p es fs q e h = record {
  piped =
      h.piped
      ∙ ap (λ d. d ++ stream_data es) (receive-piped b p)
      ∙ append_assoc p.piped b (stream_data es)
      ∙ ap (λ d. p.piped ++ d) (sym e);
  settled = h.settled;
  balanced = h.balanced;
}

-- The loop behind an event that brings nothing.
skip-Pumped :
    (p : Pump) (es fs : List Event) (q : Pump)
    → stream_data fs ≡ stream_data es
    → Pumped p es q
    → Pumped p fs q
skip-Pumped p es fs q e h = record {
  piped = h.piped ∙ ap (λ d. p.piped ++ d) (sym e);
  settled = h.settled;
  balanced = h.balanced;
}

-- From a pump where each piped byte has been credited to the windows of the connection and of the
-- stream or is pending, the read loop of the HTTP/2 stream ends, whatever frames, errors and
-- cancellations come, with the data of stream 1 up to its end piped in order, every byte of it
-- credited once to both windows, and none pending.
pub read_loop-Pumped : (p : Pump) (es : List Event) → Balanced p → Pumped p es (read_loop p es)
unfolding read_loop
read_loop-Pumped p [] h = flush_update-Pumped p [] h refl
read_loop-Pumped p (cancelled e ∷ es) h = flush_update-Pumped p (cancelled e ∷ es) h refl
read_loop-Pumped p (broken e ∷ es) h =
    let q : Pump = record p { pipe_error = some e } in
    let b : Balanced q = record { connection = h.connection; stream = h.stream } in
    let end = flush_update-Pumped q (broken e ∷ es) b refl in
    record { piped = end.piped; settled = end.settled; balanced = end.balanced }
read_loop-Pumped p (frame (data_in i b true) ∷ es) h =
    let r = receive-Balanced b p h in
    let past = read_loop-Pumped p es h in
    elim (Bool-cases (i == 1)) [
      | inl e ↦ rw e (
          receive-Pumped b p [] (frame (data_in i b true) ∷ es) (flush_update true (receive b p))
            (rw e refl) (flush_update-Pumped (receive b p) [] r refl))
      | inr e ↦
          rw e (skip-Pumped p es (frame (data_in i b true) ∷ es) (read_loop p es) (rw e refl) past)
    ]
read_loop-Pumped p (frame (data_in i b false) ∷ es) h =
    let on = read_loop-Pumped (receive b p) es (receive-Balanced b p h) in
    let past = read_loop-Pumped p es h in
    elim (Bool-cases (i == 1)) [
      | inl e ↦ rw e (
          receive-Pumped b p es (frame (data_in i b false) ∷ es) (read_loop (receive b p) es)
            (rw e refl) on)
      | inr e ↦
          rw e (skip-Pumped p es (frame (data_in i b false) ∷ es) (read_loop p es) (rw e refl) past)
    ]
read_loop-Pumped p (frame (rst_in i) ∷ es) h =
    let past = read_loop-Pumped p es h in
    elim (Bool-cases (i == 1)) [
      | inl e ↦ rw e (flush_update-Pumped p (frame (rst_in i) ∷ es) h (rw e refl))
      | inr e ↦ rw e (skip-Pumped p es (frame (rst_in i) ∷ es) (read_loop p es) (rw e refl) past)
    ]
read_loop-Pumped p (frame go_away ∷ es) h = flush_update-Pumped p (frame go_away ∷ es) h refl
read_loop-Pumped p (frame (settings a s) ∷ es) h =
    skip-Pumped p es (frame (settings a s) ∷ es) (read_loop p es) refl (read_loop-Pumped p es h)
read_loop-Pumped p (frame (headers i b end) ∷ es) h =
    skip-Pumped p es (frame (headers i b end) ∷ es) (read_loop p es) refl (read_loop-Pumped p es h)
read_loop-Pumped p (frame (continuation i b end) ∷ es) h =
    skip-Pumped p es (frame (continuation i b end) ∷ es) (read_loop p es) refl
      (read_loop-Pumped p es h)
read_loop-Pumped p (frame other ∷ es) h =
    skip-Pumped p es (frame other ∷ es) (read_loop p es) refl (read_loop-Pumped p es h)
