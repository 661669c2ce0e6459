-- ===== src/Ws/Frame.antt =====
-- RFC 6455 frames: `readFrame` and `buildFrame` of internal/ws_h2.go.
-- The key comes from crypto/rand, which is an argument: the bytes that it gave, or its error.
pub mod RoundTrip
pub mod Bounds
use outline_cli_ws.Common.{
  ℕ, zero, suc, ◌+◌, ◌-◌, ◌*◌, ◌/◌, ◌%◌, ◌^◌, ◌≤◌, ◌<◌, min, bit_and, bit_or, bit_xor, ◌≡◌, refl,
  sym, ap, ◌∙◌, subst, ◌≢◌, ◌↔◌, ◌⊎◌, inl, inr, Bool, true, false, not, ◌&&◌, ◌||◌, Option, none,
  some, List, [], ◌∷◌, ◌++◌, map, foldl, append-nil, append_assoc, arith, ltb, leb, ◌==◌,
  if◌then◌else◌, ==_iff, leb→le, Bool-cases, Option-cases, is_some, length, get_elem?, get_or, set,
  take, drop, All, length-append, take-append, drop-append, length-set, get_elem?-set_self,
  get_elem?-set_ne, length-drop, get_elem?-some-lt, All-get_or, All-append,
}
use outline_cli_ws.Common.{Error, Result, ok, err}
use outline_cli_ws.Common.Bytes.{
  Bytes, IsByte, put_uint16, put_uint64, big_endian, big_endian-put_uint16, big_endian-put_uint64,
}
use outline_cli_ws.Common.Reader.{
  Read, got, failed, Reader, next, ◌>>=◌, ◌>>◌, give, fail, fail_if, read_byte, read_full,
  read_full-append, Read-cases,
}
use outline_cli_ws.Common.{expected_masked, server_frame_masked, frame_too_large}

pub record Frame : Type 0 where
  pub typ : ℕ
  pub payload : Bytes
  pub fin : Bool

-- 64 << 20
abbrev pub max_frame : ℕ
max_frame = 67108864

-- `payload[i] ^= maskKey[i%4]`, from index i on.
unfoldable pub apply_mask : Bytes → ℕ → Bytes → Bytes
apply_mask key i [] = []
apply_mask key i (x ∷ xs) = bit_xor x (get_or key (i % 4) 0) ∷ apply_mask key (i + 1) xs

-- The switch over the seven length bits.
unfoldable pub read_length : ℕ → Reader ℕ
read_length ln =
    if ln == 126
    then (do b ← read_full 2; give (big_endian b))
    else (if ln == 127 then (do b ← read_full 8; give (big_endian b)) else give ln)

-- The key of a masked frame. An unmasked frame has none, and `maskKey` stays zero.
unfoldable pub read_key : Bool → Reader Bytes
read_key masked = if masked then read_full 4 else give (0 ∷ 0 ∷ 0 ∷ 0 ∷ [])

-- `readFrame` behind its two first bytes.
unfoldable pub read_body : Bool → ℕ → ℕ → Reader Frame
read_body expect_masked b0 b1 = do
  let masked = not (bit_and b1 0x80 == 0)
  fail_if (expect_masked && not masked) expected_masked
  fail_if (not expect_masked && masked) server_frame_masked
  plen ← read_length (bit_and b1 0x7f)
  key ← read_key masked
  fail_if (ltb max_frame plen) frame_too_large
  payload ← read_full plen
  give (record {
    typ = bit_and b0 0x0f;
    payload = if masked then apply_mask key 0 payload else payload;
    fin = not (bit_and b0 0x80 == 0);
  })

unfoldable pub read_frame : Bool → Reader Frame
unfolding read_body
read_frame expect_masked = do b0 ← read_byte; b1 ← read_byte; read_body expect_masked b0 b1

-- hdr[1] without the mask bit, and hdr[2:].
unfoldable pub length_code : ℕ → ℕ × Bytes
length_code plen =
    if ltb plen 126
    then (plen % 256, [])
    else (if leb plen 0xffff then (126, put_uint16 (plen % 2 ^ 16)) else (127, put_uint64 plen))

-- `if _, err := rand.Read(maskKey[:]); err != nil { return nil, err }`
abbrev with_key : Result Bytes → (Bytes → Bytes) → Result Bytes
with_key (ok key) f = ok (f key)
with_key (err e) f = err e

-- The header, the key if there is one, and the payload.
unfoldable pub build_frame : Result Bytes → ℕ → Bytes → Bool → Result Bytes
build_frame random typ payload mask =
    let b0 : ℕ = bit_or 0x80 (bit_and typ 0x0f) in
    let code : ℕ × Bytes = length_code (length payload) in
    if mask
    then with_key random
        (λ key. (b0 ∷ bit_or code.0 0x80 ∷ code.1) ++ (key ++ apply_mask key 0 payload))
    else ok ((b0 ∷ code.0 ∷ code.1) ++ payload)
