-- ===== src/Outline/Relay.antt =====
-- The relay of internal/outline_tcp.go, the set-up in internal/outline_tcp_common.go, and the dial of
-- internal/outline_dial.go: what each closes and what it returns. The cipher, the writes, the copies
-- in both directions and the context are answers from outside.
pub mod Outcomes
use outline_cli_ws.Common.{address_not_supported, eof}
use outline_cli_ws.Common.{Bool, true, false, Option, none, some, if◌then◌else◌}
use outline_cli_ws.Common.{Error, Result, ok, err}
use outline_cli_ws.Common.Bytes.{Bytes}

-- The WebSocket connection under the cipher, and the client's connection.
pub record Conns : Type 0 where
  pub ws_closed : Bool
  pub client_closed : Bool

abbrev none_closed : Conns
none_closed = record { ws_closed = false; client_closed = false }

abbrev ws_only : Conns
ws_only = record { ws_closed = true; client_closed = false }

abbrev both_closed : Conns
both_closed = record { ws_closed = true; client_closed = true }

-- core.PickCipher, socks.ParseAddr and the write of the target.
pub record Setup : Type 0 where
  pub pick_cipher : Option Error
  pub target : Option Bytes
  pub write : Option Error

-- newSSTCPConn: what it has closed, and the target it has written.
on_target : Setup → Option Bytes → Conns × Result Bytes
on_target a none = (ws_only, err address_not_supported)
on_target a (some t) = elim a.write [ some e ↦ (ws_only, err e) | none ↦ (none_closed, ok t) ]

unfoldable pub new_ss_tcp_conn : Setup → Conns × Result Bytes
unfolding on_target
new_ss_tcp_conn a = elim a.pick_cipher [
  | some e ↦ (none_closed, err e)
  | none ↦ on_target a a.target
]

-- `e != nil && !errors.Is(e, io.EOF)`
unfoldable pub is_hard : Option Error → Bool
is_hard none = false
is_hard (some eof) = false
is_hard (some e) = true

-- What the second `select` hears.
pub data Second : Type 0 where
  finished : Option Error → Second
  cancelled : Error → Second

pub record Relay : Type 0 where
  pub setup : Setup
  -- the error of the copy that ends first
  pub first : Option Error
  -- the context's error, when it is done at the first `select`
  pub done : Option Error
  pub second : Second

-- The deferred Close of the cipher's connection comes at each return behind the set-up.
abbrev closed_at : Bool → Conns
closed_at hard = if hard then both_closed else ws_only

unfoldable pub after_second : Option Error → Second → Conns × Option Error
unfolding is_hard
after_second e1 (cancelled e) = (both_closed, if is_hard e1 then e1 else some e)
after_second e1 (finished e2) =
    (closed_at (is_hard e1), if is_hard e1 then e1 else (if is_hard e2 then e2 else none))

unfoldable pub after_first : Relay → Conns × Option Error
unfolding is_hard after_second
after_first a = elim a.done [
  | some e ↦ (closed_at (is_hard a.first), if is_hard a.first then a.first else some e)
  | none ↦ after_second a.first a.second
]

after_setup : Relay → Conns × Result Bytes → Conns × Option Error
unfolding after_first
after_setup a (c, err e) = (c, some e)
after_setup a (c, ok t) = after_first a

-- ProxyTCPOverOutlineWS
unfoldable pub proxy : Relay → Conns × Option Error
unfolding new_ss_tcp_conn after_setup
proxy a = after_setup a (new_ss_tcp_conn a.setup)

-- DialOutlineTCP, with what AcquireTCPWS says.
after_dial : Conns × Result Bytes → Conns × Option Error
after_dial (c, err e) = (record c { ws_closed = true }, some e)
after_dial (c, ok t) = (c, none)

unfoldable pub dial_outline_tcp : Option Error → Setup → Conns × Option Error
unfolding new_ss_tcp_conn after_dial
dial_outline_tcp (some e) a = (none_closed, some e)
dial_outline_tcp none a = after_dial (new_ss_tcp_conn a)
