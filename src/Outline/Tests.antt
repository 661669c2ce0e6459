-- ===== src/Outline/Tests.antt =====
-- The theorem on the relay at a concrete run.
use outline_cli_ws.Outline.Relay.{Relay, finished, proxy}
use outline_cli_ws.Outline.Relay.Outcomes.{Closed, proxy-Closed}
use outline_cli_ws.Common.{none, some, [], ◌∷◌, eof, short_write}

-- The client ends its stream, and the other copy fails.
abbrev relay : Relay
relay = record {
  setup = record { pick_cipher = none; target = some (1 ∷ []); write = none };
  first = some eof;
  done = none;
  second = finished (some short_write);
}

proxy-Closed_example : Closed relay (proxy relay)
proxy-Closed_example = proxy-Closed relay
