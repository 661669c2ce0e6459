-- ===== src/Outline/Conn.antt =====
-- WSStreamConn of internal/outline_tcp.go and WSPacketConn of internal/ws_packet_conn.go, over the
-- messages that the reads of the WebSocket connection give, one after another.
pub mod Streams
pub mod Packets
use outline_cli_ws.Ws.Conn.{Message}
use outline_cli_ws.Common.{
  ℕ, Option, none, some, Option, none, some, List, [], ◌∷◌, take, drop, length, ◌==◌, if◌then◌else◌,
  Error, Result, ok, err, eof,
}
use outline_cli_ws.Common.Bytes.{Bytes}

-- WSMessageBinary
abbrev pub message_binary : ℕ
message_binary = 2

-- The buffer `rb`, and what the connection gives: at the end of the list it is closed.
pub record StreamConn : Type 0 where
  pub rb : Bytes
  pub messages : List (Result Message)

-- The loop of WSStreamConn.Read.
unfoldable pub fill : Bytes → List (Result Message) → Result Bytes × List (Result Message)
fill (b ∷ bs) ms = (ok (b ∷ bs), ms)
fill [] [] = (err eof, [])
fill [] (err e ∷ ms) = (err e, ms)
fill [] (ok m ∷ ms) =
    let taken = fill m.payload ms in
    let skipped = fill [] ms in if m.typ == message_binary then taken else skipped

unfoldable pub on_fill : ℕ → Result Bytes × List (Result Message) → Result Bytes × StreamConn
on_fill n (err e, ms) = (err e, record { rb = []; messages = ms })
on_fill n (ok bs, ms) = (ok (take n bs), record { rb = drop n bs; messages = ms })

-- WSStreamConn.Read with a buffer of `n` bytes.
unfoldable pub read_conn : ℕ → StreamConn → Result Bytes × StreamConn
unfolding fill on_fill
read_conn n c = on_fill n (fill c.rb c.messages)

-- WSPacketConn.ReadFrom with a buffer of `n` bytes.
unfoldable pub read_from : ℕ → List (Result Message) → Result Bytes × List (Result Message)
read_from n [] = (err eof, [])
read_from n (err e ∷ ms) = (err e, ms)
read_from n (ok m ∷ ms) =
    let rest = read_from n ms in
    if m.typ == message_binary then (ok (take n m.payload), ms) else rest

-- WSStreamConn.Write and WSPacketConn.WriteTo: one binary message, with what the connection's Write
-- says.
unfoldable pub write_message : Option Error → Bytes → Result ℕ × List Message
write_message (some e) p = (err e, [])
write_message none p = (ok (length p), record { typ = message_binary; payload = p } ∷ [])
