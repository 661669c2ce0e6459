-- ===== src/Ws/RawH2/Chunks.antt =====
-- The writes of the raw HTTP/2 stream, internal/rfc8441_raw_h2.go, put together again.
use outline_cli_ws.Common.{
  ℕ, zero, suc, ◌+◌, ◌≤◌, ◌<◌, min, ◌≡◌, refl, ap, ◌∙◌, ◌⊎◌, inl, inr, Option, some, List, [], ◌∷◌,
  ◌++◌, append_assoc, arith, Option-cases, length, take, drop, All, length-append, length-drop,
  take-append-drop,
}
use outline_cli_ws.Common.{Error}
use outline_cli_ws.Common.Bytes.{Bytes}
use outline_cli_ws.Ws.RawH2.{
  OutFrame, settings_ack, data_out, window_update, reset, max_chunk, write_chunks, write_stream,
}

abbrev pub payload : List OutFrame → Bytes
payload [] = []
payload (data_out b ∷ fs) = b ++ payload fs
payload (settings_ack ∷ fs) = payload fs
payload (window_update i n ∷ fs) = payload fs
payload (reset ∷ fs) = payload fs

-- A DATA frame that is not empty and within the limit.
abbrev pub IsChunk : OutFrame → Type 0
IsChunk (data_out b) = (0 < length b) × (length b ≤ max_chunk)
IsChunk settings_ack = ⊥
IsChunk (window_update i n) = ⊥
IsChunk reset = ⊥

-- The frames carry a part of `p` from its front, all of it unless there is an error, and the count is
-- that of the bytes in them, from `off` on.
abbrev pub Carries : ℕ → Bytes → List OutFrame × ℕ × Option Error → Type 0
Carries off p (fs, n, e) =
    (rest : Bytes) × (payload fs ++ rest ≡ p)
    × (n ≡ off + length (payload fs))
    × All IsChunk fs
    × ((rest ≡ []) ⊎ ((x : Error) × (e ≡ some x)))

length-take : (n : ℕ) (xs : Bytes) → length (take n xs) ≡ min n (length xs)
length-take zero xs = omega arith
length-take (suc n) [] = omega arith
length-take (suc n) (x ∷ xs) = omega (arith, length-take n xs)

-- A chunk in front of the frames of the rest.
chunk-Carries :
    (off : ℕ) (p : Bytes) (fs : List OutFrame) (n : ℕ) (e : Option Error)
    → 0 < length p
    → Carries (off + min max_chunk (length p)) (drop max_chunk p) (fs, n, e)
    → Carries off p (data_out (take max_chunk p) ∷ fs, n, e)
chunk-Carries off p fs n e h (rest, whole, count, chunks, end) = (
  rest,
  append_assoc (take max_chunk p) (payload fs) rest
      ∙ ap (λ d. take max_chunk p ++ d) whole
      ∙ take-append-drop max_chunk p,
  omega (arith, count, length-take max_chunk p, length-append (take max_chunk p) (payload fs)),
  ((omega (arith, length-take max_chunk p), omega (arith, length-take max_chunk p)), chunks),
  end,
)

write_chunks-Carries :
    (fuel : ℕ) (write : ℕ → Option Error) (flush : Option Error) (k off : ℕ) (p : Bytes)
    → length p < fuel
    → Carries off p (write_chunks fuel write flush k off p)
unfolding write_chunks
write_chunks-Carries zero write flush k off p h = absurd (omega arith)
write_chunks-Carries (suc fuel) write flush k off [] h = ([], refl, omega arith, tt, inl refl)
write_chunks-Carries (suc fuel) write flush k off (b ∷ bs) h =
    let n : ℕ = min max_chunk (length (b ∷ bs)) in
    let rest : Bytes = drop max_chunk (b ∷ bs) in
    let on =
      write_chunks-Carries fuel write flush (k + 1) (off + n) rest
        (omega (arith, length-drop max_chunk (b ∷ bs))) in
    elim (Option-cases (write k)) [
      | inl e ↦ rw (e, write_chunks) (chunk-Carries off (b ∷ bs) _ _ _ (omega arith) on)
      | inr (x, e) ↦ rw (e, write_chunks) (b ∷ bs, refl, omega arith, tt, inr (x, refl))
    ]

-- Write on the HTTP/2 stream sends DATA frames of 1 to 16384 bytes that carry the slice from its
-- front, and returns the number of bytes in them; where a part is missing it returns an error.
pub write_stream-Carries :
    (write : ℕ → Option Error) (flush : Option Error) (p : Bytes)
    → Carries 0 p (write_stream write flush p)
unfolding write_stream
write_stream-Carries write flush p =
    write_chunks-Carries (length p + 1) write flush 0 0 p (omega arith)
