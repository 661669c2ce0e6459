-- ===== src/Probe/Tests.antt =====
-- The theorems on the probes at concrete names and streams.
use outline_cli_ws.H3.Qpack.Table.{codes}
use outline_cli_ws.Ws.Conn.{Message}
use outline_cli_ws.Outline.Conn.{StreamConn}
use outline_cli_ws.Outline.Conn.Streams.{read_conn-Source, read_conn-Whole, stream_left}
use outline_cli_ws.Probe.Dns.{trim_dot, split_dots, build_dns_query}
use outline_cli_ws.Probe.Dns.Question.{read_question, carried, read_question-build_dns_query}
use outline_cli_ws.Probe.Tcp.{Steps, head_request, probe_tcp}
use outline_cli_ws.Probe.Tcp.Head.{Verdict, probe_tcp-Verdict}
use outline_cli_ws.Socks.Addr.{Parsed, parse_socks_addr_at}
use outline_cli_ws.Probe.Dns.{answers, await_answer}
use outline_cli_ws.Probe.Dns.Awaited.{message, Passed, await_answer-message}
use outline_cli_ws.Common.{ℕ, ◌^◌, ◌&&◌, ◌==◌, leb, if◌then◌else◌}
use outline_cli_ws.Common.{◌<◌, ◌≡◌, refl, Option, none, some, [], ◌∷◌, ◌++◌, arith, length}
use outline_cli_ws.Common.{Result, ok}
use outline_cli_ws.Common.Bytes.{Bytes, put_uint16}
use outline_cli_ws.Common.Reader.{got}

abbrev name : Bytes
name = codes "a.bc."

name-fits : length (split_dots (trim_dot name)) < 3
unfolding trim_dot split_dots
name-fits = omega arith

read_question-build_dns_query_example :
    read_question 3 (build_dns_query 4660 name 1)
    ≡ got
        (record {
          id = 4660;
          flags = 0x0100;
          count = 1;
          labels = carried (split_dots (trim_dot name));
          behind = put_uint16 1 ++ put_uint16 1;
        })
        []
read_question-build_dns_query_example =
    read_question-build_dns_query 4660 name 1 3 (omega arith) name-fits

abbrev binary : Bytes → Result Message
binary b = ok (record { typ = 2; payload = b })

-- A status line in two messages, with a message of text and an empty one between them.
abbrev conn : StreamConn
conn = record {
  rb = [];
  messages =
      binary (codes "HT")
      ∷ ok (record { typ = 1; payload = codes "x" })
      ∷ binary []
      ∷ binary (codes "TP/1.1 200")
      ∷ [];
}

abbrev all_pass : Steps
all_pass = record { pick_cipher = none; dial = none; write_target = none; write_head = none }

abbrev parse_addr : Bytes → Option Bytes
parse_addr t = some (3 ∷ length t ∷ t)

abbrev split : Bytes → Option (Bytes × Bytes)
split t = none

probe_tcp-Verdict_example :
    ((probe_tcp read_conn-Source parse_addr split all_pass name conn).0
      ≡ (3 ∷ 5 ∷ name) ∷ head_request split name ∷ [])
    × Verdict (stream_left conn) (probe_tcp read_conn-Source parse_addr split all_pass name conn).1
unfolding read_conn-Source
probe_tcp-Verdict_example =
    probe_tcp-Verdict read_conn-Source parse_addr split all_pass name (3 ∷ 5 ∷ name) conn
      read_conn-Whole (tt, (tt, (tt, (tt, tt))))
      (record { cipher_found = refl; dialled = refl; target_written = refl; head_written = refl })
      refl

abbrev ip_string : Bytes → Bytes
ip_string s = s

abbrev itoa : ℕ → Bytes
itoa n = n ∷ []

abbrev from : Bytes
from = 1 ∷ 10 ∷ 0 ∷ 0 ∷ 1 ∷ 0 ∷ 53 ∷ []

abbrev body : Bytes
body = 0 ∷ 1 ∷ 0 ∷ 0 ∷ 0 ∷ 0 ∷ 0 ∷ 0 ∷ []

abbrev sender : Parsed
sender = record { host = 10 ∷ 0 ∷ 0 ∷ 1 ∷ []; port = 53 ∷ []; new_off = 7 }

sender_parses : parse_socks_addr_at ip_string itoa (from ++ message 4660 0x8180 body) 0 ≡ ok sender
unfolding parse_socks_addr_at
sender_parses = refl

-- A packet too short for an address.
cut_packet : Passed ip_string itoa 4660 (ok (1 ∷ []))
unfolding answers parse_socks_addr_at
cut_packet = refl

await_answer-message_example :
    await_answer ip_string itoa 4660 (ok (1 ∷ []) ∷ ok (from ++ message 4660 0x8180 body) ∷ [])
    ≡ (if 4660 == 4660 && leb (2 ^ 15) 0x8180 then ok tt else await_answer ip_string itoa 4660 [])
await_answer-message_example =
    await_answer-message ip_string itoa 4660 4660 0x8180 body from sender (ok (1 ∷ []) ∷ []) []
      (omega arith) (omega arith) (omega arith) sender_parses refl (cut_packet, tt)
