-- ===== src/H3/Request/Answered.antt =====
-- h3ReadResponseHeaders of internal/ws_h3.go on what a peer has written, and on the request itself.
use outline_cli_ws.H3.Varint.{append_varint, append_varint_lem, length-append_varint}
use outline_cli_ws.H3.Qpack.Table.{codes}
use outline_cli_ws.H3.Qpack.Fields.{Header, HeaderMap, put, encode_headers}
use outline_cli_ws.H3.Qpack.Fields.Lines.{Readable}
use outline_cli_ws.H3.Qpack.Fields.RoundTrip.{to_map, decode_headers-encode_headers}
use outline_cli_ws.H3.Frames.{H3Frame, h3_frame, Framed, read_h3_frame-h3_frame}
use outline_cli_ws.H3.Request.{
  frame_headers, connect_header_fields, put_all, connect_header_map, request_frame, behind,
  on_response_frame, response_loop, h3_read_response_headers,
}
use outline_cli_ws.Common.{
  ℕ, zero, suc, ◌+◌, ◌^◌, ◌≤◌, ◌<◌, ◌≡◌, ◌≢◌, refl, ap, ◌∙◌, false, List, [], ◌∷◌, ◌++◌,
  append_assoc, ◌==◌, if◌then◌else◌, length, length-append, All, Result, arith, inl,
}
use outline_cli_ws.Common.Bytes.{Bytes}
use outline_cli_ws.Common.Reader.{got}

module _ (max_alloc : ℕ) (huffman : Bytes → Result Bytes) where
  abbrev pub frames_bytes : List H3Frame → Bytes → Bytes
  frames_bytes [] rest = rest
  frames_bytes (f ∷ fs) rest = h3_frame max_alloc f ++ frames_bytes fs rest

  abbrev pub headers_frame : List Header → H3Frame
  headers_frame hs = record { typ = frame_headers; payload = encode_headers hs }

  response_loop-frames :
      (n : ℕ) (others : List H3Frame) (hs : List Header) (rest : Bytes)
      → All (λ g. g.typ ≢ frame_headers) others
      → All (Framed max_alloc) others
      → Framed max_alloc (headers_frame hs)
      → Readable max_alloc huffman hs
      → length others < n
      → response_loop max_alloc huffman n
          (frames_bytes others (h3_frame max_alloc (headers_frame hs) ++ rest))
        ≡ got (to_map max_alloc huffman [] hs) rest
  unfolding response_loop on_response_frame behind
  response_loop-frames zero others hs rest plain framed f r l = absurd (omega arith)
  response_loop-frames (suc n) [] hs rest plain framed f r l =
      rw (read_h3_frame-h3_frame max_alloc (headers_frame hs) rest f)
        (rw (decode_headers-encode_headers max_alloc huffman hs r) refl)
  response_loop-frames (suc n) (g ∷ others) hs rest plain framed f r l =
      let other : (g.typ == frame_headers) ≡ false = ground (arith, plain.0) in
      rw
        (
          read_h3_frame-h3_frame max_alloc g
              (frames_bytes others (h3_frame max_alloc (headers_frame hs) ++ rest)) framed.0,
          other,
        )
        (response_loop-frames n others hs rest plain.1 framed.1 f r (omega arith))

  length-frames_bytes :
      (others : List H3Frame) (rest : Bytes) → length others ≤ length (frames_bytes others rest)
  length-frames_bytes [] rest = omega arith
  length-frames_bytes (g ∷ others) rest = omega (
    arith,
    length-frames_bytes others rest,
    length-append (append_varint [] g.typ) (append_varint [] (length g.payload) ++ g.payload),
    length-append (h3_frame max_alloc g) (frames_bytes others rest),
    length-append_varint g.typ,
  )

  h3_read_response_headers-frames :
      (others : List H3Frame) (hs : List Header) (rest : Bytes)
      → All (λ g. g.typ ≢ frame_headers) others
      → All (Framed max_alloc) others
      → Framed max_alloc (headers_frame hs)
      → Readable max_alloc huffman hs
      → h3_read_response_headers max_alloc huffman
          (frames_bytes others (h3_frame max_alloc (headers_frame hs) ++ rest))
        ≡ got (to_map max_alloc huffman [] hs) rest
  unfolding h3_read_response_headers
  h3_read_response_headers-frames others hs rest plain framed f r =
      let stream : Bytes = frames_bytes others (h3_frame max_alloc (headers_frame hs) ++ rest) in
      response_loop-frames (length stream + 1) others hs rest plain framed f r
        (omega (arith, length-frames_bytes others (h3_frame max_alloc (headers_frame hs) ++ rest)))

  request_frame_lem :
      (authority uri origin : Bytes)
      → request_frame authority uri origin
        ≡ h3_frame max_alloc (headers_frame (connect_header_fields authority uri origin))
  unfolding request_frame
  request_frame_lem authority uri origin =
      let block : Bytes = encode_headers (connect_header_fields authority uri origin) in
      ap (λ d. d ++ block) (append_varint_lem (append_varint [] frame_headers) (length block))
      ∙ append_assoc (append_varint [] frame_headers) (append_varint [] (length block)) block

  put_all_lem : (m : HeaderMap) (hs : List Header) → put_all m hs ≡ to_map max_alloc huffman m hs
  unfolding put_all
  put_all_lem m [] = refl
  put_all_lem m (h ∷ hs) = put_all_lem (put h.0 h.1 m) hs

  -- A text that a header may have.
  abbrev pub Holds : Bytes → Type 0
  Holds t = (length t < 2 ^ 63) × (length t ≤ max_alloc)

  last-Readable :
      (origin : Bytes)
      → Holds origin
      → 21 ≤ max_alloc
      → Readable max_alloc huffman (
          (codes "sec-websocket-version", codes "13")
          ∷ (if length origin == 0 then [] else (codes "origin", origin) ∷ []))
  last-Readable [] o m = ((omega arith, omega arith, omega arith, omega arith), inl (omega arith))
  last-Readable (b ∷ bs) o m = rw (nonempty b bs) (
    (omega arith, omega arith, omega arith, omega arith),
    ((omega arith, omega arith, o.0, o.1), inl (omega arith)),
  )
    where
      nonempty : (b : ℕ) (bs : Bytes) → (length (b ∷ bs) == 0) ≡ false
      nonempty b bs = ground arith

  connect-Readable :
      (authority uri origin : Bytes)
      → Holds authority
      → Holds uri
      → Holds origin
      → 21 ≤ max_alloc
      → Readable max_alloc huffman (connect_header_fields authority uri origin)
  unfolding connect_header_fields
  connect-Readable authority uri origin a u o m = (
    (omega arith, m7, omega arith, m7),
    (
      (omega arith, m7, omega arith, omega arith),
      (
        (omega arith, omega arith, a.0, a.1),
        (
          (omega arith, omega arith, u.0, u.1),
          ((omega arith, omega arith, omega arith, omega arith), last-Readable origin o m),
        ),
      ),
    ),
  )
    where
      m7 : 7 ≤ max_alloc
      m7 = omega arith

  -- h3ReadResponseHeaders, run on the HEADERS frame that dialRFC9220Profile makes of the request,
  -- behind any frames of other types, gives the header map that h3ConnectHeaderMap gives, and
  -- leaves what follows the frame; the frames fit their lengths, the texts and the allocations are
  -- bounded, and 21 bytes can be allocated.
  pub h3_read_response_headers-request_frame :
      (others : List H3Frame) (authority uri origin rest : Bytes)
      → All (λ g. g.typ ≢ frame_headers) others
      → All (Framed max_alloc) others
      → Framed max_alloc (headers_frame (connect_header_fields authority uri origin))
      → Holds authority
      → Holds uri
      → Holds origin
      → 21 ≤ max_alloc
      → h3_read_response_headers max_alloc huffman
          (frames_bytes others (request_frame authority uri origin ++ rest))
        ≡ got (connect_header_map authority uri origin) rest
  unfolding connect_header_map
  h3_read_response_headers-request_frame others authority uri origin rest plain framed f a u o m =
      let hs : List Header = connect_header_fields authority uri origin in
      rw (request_frame_lem authority uri origin, put_all_lem [] hs)
        (h3_read_response_headers-frames others hs rest plain framed f
          (connect-Readable authority uri origin a u o m))
