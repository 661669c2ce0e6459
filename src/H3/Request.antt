-- ===== src/H3/Request.antt =====
-- The Extended CONNECT of internal/ws_h3.go: its headers and HEADERS frame, h3ReadResponseHeaders, and
-- dialRFC9220Profile. A text is its bytes; the path is that of cleanedRequestURI.
pub mod Answered
use outline_cli_ws.H3.Varint.{append_varint}
use outline_cli_ws.H3.Qpack.Table.{codes}
use outline_cli_ws.H3.Qpack.Fields.{Header, HeaderMap, put, encode_headers, decode_headers}
use outline_cli_ws.H3.Frames.{H3Frame, read_h3_frame}
use outline_cli_ws.Common.{
  ℕ, zero, suc, ◌+◌, List, [], ◌∷◌, ◌++◌, ◌==◌, if◌then◌else◌, length, Result, stuck,
}
use outline_cli_ws.Common.Bytes.{Bytes}
use outline_cli_ws.Common.Reader.{Read, got, failed}

abbrev pub frame_headers : ℕ
frame_headers = 0x1

-- `h3ConnectHeaderFields`; `origin` is the query's parameter of that name.
unfoldable pub connect_header_fields : Bytes → Bytes → Bytes → List Header
connect_header_fields authority uri origin =
    (codes ":method", codes "CONNECT")
    ∷ (codes ":scheme", codes "https")
    ∷ (codes ":authority", authority)
    ∷ (codes ":path", uri)
    ∷ (codes ":protocol", codes "websocket")
    ∷ (codes "sec-websocket-version", codes "13")
    ∷ (if length origin == 0 then [] else (codes "origin", origin) ∷ [])

-- `h3ConnectHeaderMap`
put_all : HeaderMap → List Header → HeaderMap
put_all m [] = m
put_all m (h ∷ hs) = put_all (put h.0 h.1 m) hs

unfoldable pub connect_header_map : Bytes → Bytes → Bytes → HeaderMap
unfolding connect_header_fields put_all
connect_header_map authority uri origin = put_all [] (connect_header_fields authority uri origin)

-- `h3ConnectHeaders`, and the HEADERS frame that `dialRFC9220Profile` makes of them.
unfoldable pub request_frame : Bytes → Bytes → Bytes → Bytes
request_frame authority uri origin =
    let headers : Bytes = encode_headers (connect_header_fields authority uri origin) in
    append_varint (append_varint [] frame_headers) (length headers) ++ headers

module _ (max_alloc : ℕ) (huffman : Bytes → Result Bytes) where
  -- The map of a decoded block, on the stream that is left behind the frame.
  behind : Bytes → Read HeaderMap → Read HeaderMap
  behind rest (got m r) = got m rest
  behind rest (failed e r) = failed e rest

  on_response_frame : (Bytes → Read HeaderMap) → Read H3Frame → Read HeaderMap
  unfolding behind
  on_response_frame more (failed e r) = failed e r
  on_response_frame more (got f r) =
      if f.typ == frame_headers
      then behind r (decode_headers max_alloc huffman f.payload)
      else more r

  -- The loop of `h3ReadResponseHeaders`. A frame takes two bytes at least.
  unfoldable pub response_loop : ℕ → Bytes → Read HeaderMap
  unfolding on_response_frame
  response_loop zero r = failed stuck r
  response_loop (suc n) r = on_response_frame (λ s. response_loop n s) (read_h3_frame max_alloc r)

  unfoldable pub h3_read_response_headers : Bytes → Read HeaderMap
  unfolding response_loop
  h3_read_response_headers r = response_loop (length r + 1) r
