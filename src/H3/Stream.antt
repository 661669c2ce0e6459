-- ===== src/H3/Stream.antt =====
-- `h3wsStream` of internal/ws_h3.go: Read and Write of bytes over DATA frames. The buffers that Read
-- keeps for later calls are the bytes in them.
pub mod Pipe
use outline_cli_ws.Ws.Sink.{Writer, Sink, write_all}
use outline_cli_ws.Common.{
  ℕ, zero, suc, ◌+◌, ◌-◌, ◌*◌, ◌/◌, ◌%◌, ◌^◌, ◌≤◌, ◌<◌, min, bit_and, bit_or, bit_xor, ◌≡◌, refl,
  sym, ap, ◌∙◌, subst, ◌≢◌, ◌↔◌, ◌⊎◌, inl, inr, Bool, true, false, not, ◌&&◌, ◌||◌, Option, none,
  some, List, [], ◌∷◌, ◌++◌, map, foldl, append-nil, append_assoc, arith, ltb, leb, ◌==◌,
  if◌then◌else◌, ==_iff, leb→le, Bool-cases, Option-cases, is_some, length, get_elem?, get_or, set,
  take, drop, All, length-append, take-append, drop-append, length-set, get_elem?-set_self,
  get_elem?-set_ne, length-drop, take-append-drop, get_elem?-some-lt, All-get_or, All-append,
}
use outline_cli_ws.Common.{Error, Result, ok, err}
use outline_cli_ws.Common.Bytes.{
  Bytes, IsByte, put_uint16, put_uint64, big_endian, big_endian-put_uint16, big_endian-put_uint64,
}
use outline_cli_ws.Common.Reader.{
  Read, got, failed, Reader, next, ◌>>=◌, ◌>>◌, give, fail, fail_if, read_byte, read_full,
  read_full-append, Read-cases,
}
use outline_cli_ws.Common.{data_frame_too_large, not_data_frame, stuck}
use outline_cli_ws.H3.Varint.{
  append_varint, read_varint, read_varint-append_varint, append_varint_lem, max_varint,
}

abbrev pub max_data : ℕ
max_data = 67108864

-- What the QUIC stream still delivers, and `readBuf`.
pub record Stream : Type 0 where
  pub input : Bytes
  pub buffer : Bytes

-- One frame, up to the assignment of `readBuf`.
unfoldable pub read_data : Reader Bytes
read_data = do
  ft ← read_varint
  n ← read_varint
  fail_if (ltb max_data n) data_frame_too_large
  payload ← read_full n
  fail_if (not (ft == 0)) not_data_frame
  give payload

-- A pass of the loop in Read: bytes of the buffer, or the next frame into it.
refilled : (Stream → Stream × Result Bytes) → Read Bytes → Stream × Result Bytes
refilled again (failed e r) = (record { input = r; buffer = [] }, err e)
refilled again (got p r) = again (record { input = r; buffer = p })

pass : (Stream → Stream × Result Bytes) → ℕ → Stream → Bytes → Stream × Result Bytes
unfolding refilled read_data
pass again size s (b ∷ bs) = (record s { buffer = drop size (b ∷ bs) }, ok (take size (b ∷ bs)))
pass again size s [] = refilled again (read_data s.input)

read_loop : ℕ → ℕ → Stream → Stream × Result Bytes
unfolding pass
read_loop zero size s = (s, err stuck)
read_loop (suc fuel) size s =
    let again : Stream → Stream × Result Bytes = read_loop fuel size in pass again size s s.buffer

-- `Read(p)` with `len(p)` as `size`. A frame takes two bytes of the stream at least.
unfoldable pub read_stream : ℕ → Stream → Stream × Result Bytes
unfolding read_loop
read_stream size s = read_loop (length s.input + 1) size s

-- What Write sends for `p`.
unfoldable pub data_frame : Bytes → Bytes
data_frame p = append_varint (append_varint [] 0) (length p) ++ p

-- The end of Write: nothing to flush for an empty slice, and the result of Flush otherwise.
flushed : Option Error → Bytes → Sink × Result (Unit {0}) → Sink × Result ℕ
flushed flush p (s, err e) = (s, err e)
flushed flush [] (s, ok u) = (s, ok 0)
flushed none (b ∷ bs) (s, ok u) = (s, ok (length (b ∷ bs)))
flushed (some e) (b ∷ bs) (s, ok u) = (s, err e)

-- `Write(p)` to a QUIC stream, with what its Flush returns.
unfoldable pub write_stream : Writer → Option Error → Sink → Bytes → Sink × Result ℕ
unfolding flushed
write_stream w flush s p = flushed flush p (write_all w s (data_frame p))
