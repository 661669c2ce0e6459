-- ===== src/Ws/Frame/RoundTrip.antt =====
-- `readFrame` and `buildFrame` of internal/ws_h2.go, one behind the other.
use outline_cli_ws.Common.{
  ℕ, suc, ◌+◌, ◌%◌, ◌^◌, ◌≤◌, ◌<◌, bit_and, bit_or, ◌≡◌, refl, sym, ap, Bool, true, false, not, [],
  ◌∷◌, ◌++◌, append_assoc, arith, ltb, leb, if◌then◌else◌, length, get_or, All, All-get_or,
}
use outline_cli_ws.Common.{Result, ok, err}
use outline_cli_ws.Common.Bytes.{
  Bytes, IsByte, put_uint16, put_uint64, big_endian-put_uint16, big_endian-put_uint64,
}
use outline_cli_ws.Common.Reader.{Read, got, failed, read_full-append}
use outline_cli_ws.Common.{server_frame_masked, expected_masked}
use outline_cli_ws.Common.Bits.{
  bit_xor_twice, and_top_bit, and_low_seven, and_low_four, or_top_bit, top_bit_or,
}
use outline_cli_ws.Ws.Frame.{
  Frame, max_frame, apply_mask, read_length, read_key, read_frame, length_code, build_frame,
}

-- Masking twice with one key is the identity, from any index on.
pub apply_mask_twice :
    (key : Bytes) (i : ℕ) (xs : Bytes)
    → All IsByte key
    → All IsByte xs
    → apply_mask key i (apply_mask key i xs) ≡ xs
unfolding apply_mask
apply_mask_twice key i [] hk hx = refl
apply_mask_twice key i (x ∷ xs) hk hx = ground (
  arith,
  bit_xor_twice x (get_or key (i % 4) 0) hx.0 (All-get_or IsByte key (i % 4) 0 hk (omega arith)),
  apply_mask_twice key (i + 1) xs hk hx.1,
)

pub length-apply_mask :
    (key : Bytes) (i : ℕ) (xs : Bytes) → length (apply_mask key i xs) ≡ length xs
unfolding apply_mask
length-apply_mask key i [] = refl
length-apply_mask key i (x ∷ xs) = ap suc (length-apply_mask key (i + 1) xs)

length_code-lt : (n : ℕ) → (length_code n).0 < 128
unfolding length_code
length_code-lt n = ground arith

read_length-length_code :
    (n : ℕ) (rest : Bytes)
    → n < 2 ^ 64
    → read_length (length_code n).0 ((length_code n).1 ++ rest) ≡ got n rest
unfolding length_code read_length
read_length-length_code n rest h = ground (
  arith,
  read_full-append (put_uint16 (n % 2 ^ 16)) rest 2 refl,
  read_full-append (put_uint64 n) rest 8 refl,
  big_endian-put_uint16 (n % 2 ^ 16),
  big_endian-put_uint64 n h,
)

flagged :
    (c : ℕ) → c < 128 → (bit_and (bit_or c 0x80) 0x7f ≡ c) × (bit_and (bit_or c 0x80) 0x80 ≡ 128)
flagged c h = rw (or_top_bit c h) (
  rw (and_low_seven (c + 128) (omega arith)) (omega arith),
  rw (and_top_bit (c + 128) (omega arith)) (omega arith),
)

unflagged : (c : ℕ) → c < 128 → (bit_and c 0x7f ≡ c) × (bit_and c 0x80 ≡ 0)
unflagged c h = (
  rw (and_low_seven c (omega arith)) (omega arith),
  rw (and_top_bit c (omega arith)) (omega arith),
)

first_byte :
    (typ : ℕ)
    → typ < 256
    → (bit_and (bit_or 0x80 (bit_and typ 0x0f)) 0x0f ≡ typ % 16)
      × (bit_and (bit_or 0x80 (bit_and typ 0x0f)) 0x80 ≡ 128)
first_byte typ h =
    rw (and_low_four typ h, top_bit_or (typ % 16) (omega arith))
      (
        rw (and_low_four (typ % 16 + 128) (omega arith)) (omega arith),
        rw (and_top_bit (typ % 16 + 128) (omega arith)) (omega arith),
      )

within : {n : ℕ} → n ≤ max_frame → ltb max_frame n ≡ false
within h = ground arith

-- What `readFrame` does once the two first bytes are known.
tail_plain :
    (n : ℕ) (payload rest : Bytes)
    → n ≡ length payload
    → n ≤ max_frame
    → read_length (length_code n).0 (((length_code n).1 ++ payload) ++ rest)
      ≡ got n (payload ++ rest)
tail_plain n payload rest e h =
    rw (append_assoc (length_code n).1 payload rest)
      (read_length-length_code n (payload ++ rest) (omega arith))

-- `readFrame` on what `buildFrame` returned and the bytes that follow it on the wire.
abbrev pub reads_back : Result Bytes → Bool → Bytes → Read Frame
reads_back (ok out) mask rest = read_frame mask (out ++ rest)
reads_back (err e) mask rest = failed e rest

-- A peer that reads with the mask setting of the writer gets the type modulo 16, the payload and
-- FIN from a built frame, and leaves what follows it. The type is one byte, the payload has at
-- most 64 MiB, payload and key are bytes, and the key has four.
pub read_frame-build_frame :
    (key : Bytes) (typ : ℕ) (payload rest : Bytes) (mask : Bool)
    → typ < 256
    → length payload ≤ max_frame
    → All IsByte payload
    → All IsByte key
    → length key ≡ 4
    → reads_back (build_frame (ok key) typ payload mask) mask rest
      ≡ got (record { typ = typ % 16; payload = payload; fin = true }) rest
unfolding build_frame read_frame read_key
read_frame-build_frame key typ payload rest true ht hp hb hk hl =
    rw
      (
        (flagged (length_code (length payload)).0 (length_code-lt (length payload))).0,
        (flagged (length_code (length payload)).0 (length_code-lt (length payload))).1,
        (first_byte typ ht).0,
        (first_byte typ ht).1,
      )
      (rw (
        append_assoc (length_code (length payload)).1 (key ++ apply_mask key 0 payload) rest,
        append_assoc key (apply_mask key 0 payload) rest,
        read_length-length_code (length payload) (key ++ (apply_mask key 0 payload ++ rest))
            (omega arith),
        read_full-append key (apply_mask key 0 payload ++ rest) 4 (sym hl),
        within hp,
        read_full-append (apply_mask key 0 payload) rest (length payload)
            (sym (length-apply_mask key 0 payload)),
        apply_mask_twice key 0 payload hk hb,
      ))
read_frame-build_frame key typ payload rest false ht hp hb hk hl =
    rw
      (
        (unflagged (length_code (length payload)).0 (length_code-lt (length payload))).0,
        (unflagged (length_code (length payload)).0 (length_code-lt (length payload))).1,
        (first_byte typ ht).0,
        (first_byte typ ht).1,
        tail_plain (length payload) payload rest refl hp,
      )
      (rw (within hp, read_full-append payload rest (length payload) refl))

-- A frame with the mask bit is refused by a client, and one without it by a server, whatever the
-- other bits and the bytes that follow; the second byte is below 256.
pub read_frame_mask_mismatch :
    (b0 b1 : ℕ) (rest : Bytes) (expect_masked : Bool)
    → b1 < 256
    → (leb 128 b1 ≡ not expect_masked)
    → read_frame expect_masked (b0 ∷ b1 ∷ rest)
      ≡ failed (if expect_masked then expected_masked else server_frame_masked) rest
unfolding read_frame
read_frame_mask_mismatch b0 b1 rest true h e = rw (and_top_bit b1 h) (ground arith)
read_frame_mask_mismatch b0 b1 rest false h e = rw (and_top_bit b1 h) (ground arith)
