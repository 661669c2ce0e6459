-- ===== src/Socks/Tests.antt =====
-- The theorems on addresses at concrete packets.
use outline_cli_ws.Socks.Server.{read_addr_port}
use outline_cli_ws.Socks.Server.Requests.{read_view, parse_view, read_addr_port-parse}
use outline_cli_ws.Common.{ℕ, ◌≡◌, [], ◌∷◌}
use outline_cli_ws.Common.Bytes.{Bytes}
use outline_cli_ws.Socks.Addr.{parse_socks_addr_at}

-- A domain of three bytes, and port 443.
abbrev packet : Bytes
packet = 3 ∷ 3 ∷ 97 ∷ 46 ∷ 98 ∷ 1 ∷ 187 ∷ 9 ∷ []

-- Texts for the test: the bytes themselves, and one code point.
abbrev ip_string : Bytes → Bytes
ip_string s = s

abbrev itoa : ℕ → Bytes
itoa n = n ∷ []

-- The packet, as a stream behind its first byte.
abbrev behind : Bytes
behind = 3 ∷ 97 ∷ 46 ∷ 98 ∷ 1 ∷ 187 ∷ 9 ∷ []

read_addr_port-parse_example :
    read_view (read_addr_port ip_string itoa 3 behind)
    ≡ parse_view packet (parse_socks_addr_at ip_string itoa packet 0)
read_addr_port-parse_example = read_addr_port-parse ip_string itoa 3 behind
