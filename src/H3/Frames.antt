-- ===== src/H3/Frames.antt =====
-- One frame of HTTP/3 as h3ReadResponseHeaders and h3LogPeerControlStream of internal/ws_h3.go read it:
-- type, length, payload. `max_alloc` is the longest slice that `make` gives; beyond it, it panics.
use outline_cli_ws.H3.Varint.{max_varint, append_varint, read_varint, read_varint-append_varint}
use outline_cli_ws.Common.{
  ℕ, ◌≤◌, ◌<◌, ◌≡◌, refl, false, [], ◌++◌, append_assoc, arith, ltb, length, panicked, eof,
}
use outline_cli_ws.Common.Bytes.{Bytes}
use outline_cli_ws.Common.Reader.{
  got, failed, Reader, ◌>>=◌, ◌>>◌, give, fail_if, read_full, read_full-append,
}

pub record H3Frame : Type 0 where
  pub typ : ℕ
  pub payload : Bytes

module _ (max_alloc : ℕ) where
  unfoldable pub read_h3_frame : Reader H3Frame
  read_h3_frame = do
    ft ← read_varint
    n ← read_varint
    fail_if (ltb max_alloc n) panicked
    buf ← read_full n
    give (record { typ = ft; payload = buf })

  -- The frame as both sides write it.
  abbrev pub h3_frame : H3Frame → Bytes
  h3_frame f = append_varint [] f.typ ++ (append_varint [] (length f.payload) ++ f.payload)

  abbrev pub Framed : H3Frame → Type 0
  Framed f = (f.typ < max_varint) × (length f.payload < max_varint) × (length f.payload ≤ max_alloc)

  pub read_h3_frame-h3_frame :
      (f : H3Frame) (rest : Bytes) → Framed f → read_h3_frame (h3_frame f ++ rest) ≡ got f rest
  unfolding read_h3_frame
  read_h3_frame-h3_frame f rest (t, l, m) =
      let n : ℕ = length f.payload in
      let fits : ltb max_alloc n ≡ false = ground arith in
      rw
        (
          append_assoc (append_varint [] f.typ) (append_varint [] n ++ f.payload) rest,
          append_assoc (append_varint [] n) f.payload rest,
          read_varint-append_varint f.typ (append_varint [] n ++ (f.payload ++ rest)) t,
          read_varint-append_varint n (f.payload ++ rest) l,
          fits,
          read_full-append f.payload rest n refl,
        )
        refl

  pub read_h3_frame-nil : read_h3_frame [] ≡ failed eof []
  unfolding read_h3_frame read_varint read_full
  read_h3_frame-nil = refl
