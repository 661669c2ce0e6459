-- ===== src/H3/Tests.antt =====
-- The theorems on varints, header blocks and DATA frames at concrete bytes.
use outline_cli_ws.H3.Stream.{Stream, read_stream}
use outline_cli_ws.H3.Stream.Pipe.{frames, Advances, read_stream-Advances}
use outline_cli_ws.Common.{ℕ, ◌+◌, ◌-◌, ◌^◌, ◌≡◌, refl, inl, List, [], ◌∷◌, ◌++◌, arith}
use outline_cli_ws.Common.{Result, ok}
use outline_cli_ws.Common.Bytes.{Bytes}
use outline_cli_ws.Common.Reader.{got, failed}
use outline_cli_ws.Common.{none, panicked}
use outline_cli_ws.Common.{true}
use outline_cli_ws.H3.Qpack.Table.{static_table}
use outline_cli_ws.H3.Qpack.Ints.{append_groups, prefixed_int}
use outline_cli_ws.H3.Frames.{H3Frame, Framed}
use outline_cli_ws.H3.Control.{nothing_seen, log_peer_control_stream, peer_support_hint}
use outline_cli_ws.H3.Control.Settings.{
  control_bytes, announcing, peer_support_hint-log_peer_control_stream,
}
use outline_cli_ws.H3.Request.{
  connect_header_fields, connect_header_map, request_frame, h3_read_response_headers,
}
use outline_cli_ws.H3.Request.Answered.{
  frames_bytes, headers_frame, h3_read_response_headers-request_frame,
}
use outline_cli_ws.H3.Dial.{Answers, answered, dial_profile}
use outline_cli_ws.H3.Dial.Opened.{LeftOpen, dial_profile-LeftOpen}
use outline_cli_ws.H3.Varint.{append_varint}
use outline_cli_ws.H3.Qpack.Table.{codes}
use outline_cli_ws.H3.Qpack.Ints.{prefixed_int}
use outline_cli_ws.H3.Qpack.Fields.{Header, encode_headers, decode_headers}
use outline_cli_ws.H3.Qpack.Fields.RoundTrip.{to_map, decode_headers-encode_headers}
use outline_cli_ws.H3.Qpack.Fields.Panics.{decode_headers-panics}

abbrev no_huffman : Bytes → Result Bytes
no_huffman s = ok s

-- One header of each form: a full match, a match by name, and a literal.
abbrev headers : List Header
headers =
    (codes ":method", codes "CONNECT")
    ∷ (codes ":authority", codes "a.b")
    ∷ (codes "x", codes "y")
    ∷ []

decode_headers-encode_headers_example :
    decode_headers 1000 no_huffman (encode_headers headers)
    ≡ got (to_map 1000 no_huffman [] headers) []
decode_headers-encode_headers_example = decode_headers-encode_headers 1000 no_huffman headers (
  (omega arith, omega arith, omega arith, omega arith),
  (
    (omega arith, omega arith, omega arith, omega arith),
    ((omega arith, omega arith, omega arith, omega arith), inl (omega arith)),
  ),
)

-- The index is the int64 of which 2 ^ 64 - 1 is the pattern, which is -1.
decode_headers-panics_example :
    decode_headers 1000 no_huffman
      (0 ∷ 0 ∷ (63 + 128) ∷ (append_groups 9 (2 ^ 64 - 64) ++ (7 ∷ [])))
    ≡ failed panicked (7 ∷ [])
decode_headers-panics_example =
    decode_headers-panics 1000 no_huffman 63 (2 ^ 64 - 1) (7 ∷ []) (omega arith) refl (omega arith)
      (omega arith)

-- An empty write and two others, and a read of two bytes.
abbrev writes : List Bytes
writes = [] ∷ (1 ∷ 2 ∷ 3 ∷ []) ∷ (4 ∷ []) ∷ []

abbrev fresh : Stream
fresh = record { input = frames writes; buffer = [] }

read_stream-Advances_example : Advances fresh writes (read_stream 2 fresh)
read_stream-Advances_example =
    read_stream-Advances 2 fresh writes (omega arith) refl
      (omega arith, (omega arith, (omega arith, tt))) (omega arith)

-- A frame of an unknown type, then the settings of a peer that turns Extended CONNECT off again.
abbrev grease : H3Frame
grease = record { typ = 0x21; payload = 7 ∷ [] }

abbrev settings : List (ℕ × ℕ)
settings = (0x08, 1) ∷ (0x33, 0) ∷ (0x08, 0) ∷ []

peer_support_hint-log_peer_control_stream_example :
    peer_support_hint true (
      log_peer_control_stream 1000 nothing_seen
        (control_bytes 1000 (announcing 1000 (grease ∷ []) settings)))
    ≡ true
unfolding append_varint
peer_support_hint-log_peer_control_stream_example =
    peer_support_hint-log_peer_control_stream 1000 (grease ∷ []) settings true
      ((λ e. absurd (omega arith)), tt)
      ((omega arith, omega arith, omega arith), ((omega arith, omega arith, omega arith), tt))
      (omega arith) (omega arith)
      ((omega arith, omega arith), ((omega arith, omega arith), ((omega arith, omega arith), tt)))

abbrev authority : Bytes
authority = codes "a.b"

abbrev uri : Bytes
uri = codes "/x"

request-Framed :
    Framed 1000 (headers_frame 1000 no_huffman (connect_header_fields authority uri []))
unfolding connect_header_fields encode_headers static_table prefixed_int append_groups
request-Framed = (omega arith, omega arith, omega arith)

h3_read_response_headers-request_frame_example :
    h3_read_response_headers 1000 no_huffman
      (frames_bytes 1000 no_huffman (grease ∷ []) (request_frame authority uri [] ++ (9 ∷ [])))
    ≡ got (connect_header_map authority uri []) (9 ∷ [])
h3_read_response_headers-request_frame_example =
    h3_read_response_headers-request_frame 1000 no_huffman (grease ∷ []) authority uri [] (9 ∷ [])
      ((λ e. absurd (omega arith)), tt) ((omega arith, omega arith, omega arith), tt) request-Framed
      (omega arith, omega arith) (omega arith, omega arith) (omega arith, omega arith) (omega arith)

-- A server that answers with the status 404.
abbrev not_found : Answers
not_found = record {
  scheme = codes "wss";
  listen = none;
  dial = none;
  open_streams = none;
  new_stream = none;
  write_request = none;
  response = answered (codes "404");
  seen = nothing_seen;
}

dial_profile-LeftOpen_example : LeftOpen not_found (dial_profile not_found)
dial_profile-LeftOpen_example = dial_profile-LeftOpen not_found
