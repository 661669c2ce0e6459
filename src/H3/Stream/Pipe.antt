-- ===== src/H3/Stream/Pipe.antt =====
-- `h3wsStream` of internal/ws_h3.go as a pipe of bytes.
use outline_cli_ws.H3.Stream.{
  max_data, Stream, read_data, refilled, pass, read_loop, read_stream, data_frame, flushed,
  write_stream,
}
use outline_cli_ws.Ws.Sink.{Writer, Sink, Wrote, write_all, write_all-Wrote}
use outline_cli_ws.Common.{
  ℕ, zero, suc, ◌+◌, ◌≤◌, ◌<◌, ◌≡◌, refl, sym, ap, ◌∙◌, false, Option, none, some, List, [], ◌∷◌,
  ◌++◌, append-nil, append_assoc, arith, ltb, length, take, drop, All, length-append,
  take-append-drop,
}
use outline_cli_ws.Common.{Error, Result, ok, err}
use outline_cli_ws.Common.Bytes.{Bytes}
use outline_cli_ws.Common.Reader.{got, next, read_full-append}
use outline_cli_ws.H3.Varint.{append_varint, read_varint-append_varint, append_varint_lem}

-- The frames of several writes, and the bytes that were written.
abbrev pub frames : List Bytes → Bytes
frames [] = []
frames (p ∷ ps) = data_frame p ++ frames ps

abbrev pub flatten : List Bytes → Bytes
flatten [] = []
flatten (p ∷ ps) = p ++ flatten ps

abbrev pub Fits : List Bytes → Type 0
Fits = All (λ p. length p ≤ max_data)

data_frame_lem :
    (p : Bytes) → data_frame p ≡ append_varint [] 0 ++ (append_varint [] (length p) ++ p)
unfolding data_frame
data_frame_lem p =
    rw (append_varint_lem (append_varint [] 0) (length p))
      (append_assoc (append_varint [] 0) (append_varint [] (length p)) p)

read_data-data_frame :
    (p rest : Bytes) → length p ≤ max_data → read_data (data_frame p ++ rest) ≡ got p rest
unfolding read_data
read_data-data_frame p rest h =
    let small : ltb max_data (length p) ≡ false = ground arith in
    rw
      (
        data_frame_lem p,
        append_assoc (append_varint [] 0) (append_varint [] (length p) ++ p) rest,
        read_varint-append_varint 0 ((append_varint [] (length p) ++ p) ++ rest) (omega arith),
        append_assoc (append_varint [] (length p)) p rest,
        read_varint-append_varint (length p) (p ++ rest) (omega arith),
        small,
      )
      (rw (read_full-append p rest (length p) refl) refl)

frame_takes : (p rest : Bytes) → length rest < length (data_frame p ++ rest)
unfolding append_varint
frame_takes p rest =
    rw (data_frame_lem p) (omega (arith, length-append (append_varint [] (length p) ++ p) rest))

-- The read came back with bytes, and what is left is what was to come, without them.
abbrev pub Advances : Stream → List Bytes → Stream × Result Bytes → Type 0
Advances s ps (t, err e) = ⊥
Advances s ps (t, ok front) =
    (qs : List Bytes) × (t.input ≡ frames qs)
    × Fits qs
    × (0 < length front)
    × (front ++ (t.buffer ++ flatten qs) ≡ s.buffer ++ flatten ps)

pass-buffer :
    (again : Stream → Stream × Result Bytes) (size : ℕ) (s : Stream) (ps : List Bytes) (b : ℕ)
    (bs : Bytes)
    → 0 < size
    → s.buffer ≡ b ∷ bs
    → s.input ≡ frames ps
    → Fits ps
    → Advances s ps (pass again size s (b ∷ bs))
unfolding pass
pass-buffer again (suc size) s ps b bs z e i f = (
  ps,
  i,
  f,
  omega arith,
  sym (append_assoc (take (suc size) (b ∷ bs)) (drop (suc size) (b ∷ bs)) (flatten ps))
      ∙ ap (λ w. w ++ flatten ps) (take-append-drop (suc size) (b ∷ bs) ∙ sym e),
)
pass-buffer again zero s ps b bs z e i f = absurd (omega arith)

Advances-carry :
    (s t : Stream) (ps qs : List Bytes) (r : Stream × Result Bytes)
    → t.buffer ++ flatten qs ≡ s.buffer ++ flatten ps
    → Advances t qs r
    → Advances s ps r
Advances-carry s t ps qs (u, ok front) e (rs, i, f, n, q) = (rs, i, f, n, q ∙ e)
Advances-carry s t ps qs (u, err x) e a = a

pass-frames :
    (again : Stream → Stream × Result Bytes) (size : ℕ) (s : Stream) (ps : List Bytes)
    (buffer : Bytes)
    → ((t : Stream) (qs : List Bytes)
        → length t.input < length s.input
        → t.input ≡ frames qs
        → Fits qs
        → 0 < length (t.buffer ++ flatten qs)
        → Advances t qs (again t))
    → 0 < size
    → s.buffer ≡ buffer
    → s.input ≡ frames ps
    → Fits ps
    → 0 < length (buffer ++ flatten ps)
    → Advances s ps (pass again size s buffer)
unfolding pass refilled
pass-frames again size s ps (b ∷ bs) next z e i f l = pass-buffer again size s ps b bs z e i f
pass-frames again size s [] [] next z e i f l = absurd (omega arith)
pass-frames again size s (p ∷ ps) [] next z e i f l =
    let one_frame : read_data s.input ≡ got p (frames ps) =
      ap read_data i ∙ read_data-data_frame p (frames ps) f.0 in
    let t : Stream = record { input = frames ps; buffer = p } in
    let shorter : length (frames ps) < length s.input =
      omega (arith, ap length i, frame_takes p (frames ps)) in
    rw one_frame (
      Advances-carry s t (p ∷ ps) ps (again t) (ap (λ w. w ++ (p ++ flatten ps)) (sym e))
        (next t ps shorter refl f.1 l))

read_loop-frames :
    (fuel size : ℕ) (s : Stream) (ps : List Bytes)
    → length s.input < fuel
    → 0 < size
    → s.input ≡ frames ps
    → Fits ps
    → 0 < length (s.buffer ++ flatten ps)
    → Advances s ps (read_loop fuel size s)
unfolding read_loop
read_loop-frames zero size s ps h z i f l = absurd (omega arith)
read_loop-frames (suc fuel) size s ps h z i f l =
    pass-frames (read_loop fuel size) size s ps s.buffer
      (λ t qs lt i' f' l'. read_loop-frames fuel size t qs (omega arith) z i' f' l') z refl i f l

-- Where the stream delivers the frames of some writes, each of at most 64 MiB, and bytes of them
-- are still to come, a Read into a slice that is not empty returns at least one byte, in order,
-- and leaves the frames of the writes that come after.
pub read_stream-Advances :
    (size : ℕ) (s : Stream) (ps : List Bytes)
    → 0 < size
    → s.input ≡ frames ps
    → Fits ps
    → 0 < length (s.buffer ++ flatten ps)
    → Advances s ps (read_stream size s)
unfolding read_stream
read_stream-Advances size s ps z i f l =
    read_loop-frames (length s.input + 1) size s ps (omega arith) z i f l

-- Success means that the whole frame has gone out, and counts the bytes of the slice; a failure left a
-- part from the front of the frame.
abbrev pub WroteFrame : Sink → Bytes → Sink × Result ℕ → Type 0
WroteFrame s p (t, ok n) = (n ≡ length p) × (t.sent ≡ s.sent ++ data_frame p)
WroteFrame s p (t, err e) =
    (front back : Bytes) × (front ++ back ≡ data_frame p) × (t.sent ≡ s.sent ++ front)

flushed-WroteFrame :
    (flush : Option Error) (s : Sink) (p : Bytes) (r : Sink × Result (Unit {0}))
    → Wrote s (data_frame p) r
    → WroteFrame s p (flushed flush p r)
unfolding flushed
flushed-WroteFrame flush s p (t, err e) h = h
flushed-WroteFrame flush s [] (t, ok u) h = (refl, h)
flushed-WroteFrame none s (b ∷ bs) (t, ok u) h = (refl, h)
flushed-WroteFrame (some e) s (b ∷ bs) (t, ok u) h =
    (data_frame (b ∷ bs), [], append-nil (data_frame (b ∷ bs)), h)

-- Whatever the QUIC stream does, Write reports success only with the whole frame sent and the
-- length of the slice as its count, and otherwise a part from the front of the frame has been
-- sent.
pub write_stream-WroteFrame :
    (w : Writer) (flush : Option Error) (s : Sink) (p : Bytes)
    → WroteFrame s p (write_stream w flush s p)
unfolding write_stream
write_stream-WroteFrame w flush s p =
    flushed-WroteFrame flush s p (write_all w s (data_frame p)) (write_all-Wrote w s (data_frame p))
