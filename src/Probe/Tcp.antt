-- ===== src/Probe/Tcp.antt =====
-- The TCP probe of internal/active_probe.go, ProbeTCPQuality. The cipher's connection is a source of
-- bytes, and what its writes and the steps before them say are answers from outside.
pub mod Head
use outline_cli_ws.H3.Qpack.Table.{codes}
use outline_cli_ws.Common.Source.{Source, read_at_least}
use outline_cli_ws.Common.{
  ◌/◌, Bool, true, false, ◌&&◌, Option, none, some, List, [], ◌∷◌, ◌++◌, ◌==◌, if◌then◌else◌,
}
use outline_cli_ws.Common.{Error, Result, ok, err}
use outline_cli_ws.Common.Bytes.{Bytes}
use outline_cli_ws.Common.{unexpected_response, address_not_supported}

-- strings.HasPrefix
unfoldable pub begins_with : Bytes → Bytes → Bool
begins_with bs [] = true
begins_with [] (x ∷ xs) = false
begins_with (b ∷ bs) (x ∷ xs) = b == x && begins_with bs xs

abbrev pub http : Bytes
http = codes "HTTP/"

abbrev crlf : Bytes
crlf = 13 ∷ 10 ∷ []

-- The host of the target, where net.SplitHostPort finds one.
abbrev pub host_of : (Bytes → Option (Bytes × Bytes)) → Bytes → Bytes
host_of split target = elim (split target) [ some (h, p) ↦ h | none ↦ target ]

abbrev pub head_request : (Bytes → Option (Bytes × Bytes)) → Bytes → Bytes
head_request split target =
    codes "HEAD / HTTP/1.1"
    ++ (crlf
        ++ (codes "Host: "
            ++ (host_of split target ++ (crlf ++ (codes "Connection: close" ++ (crlf ++ crlf))))))

-- core.PickCipher, DialWSStream, and the two writes.
pub record Steps : Type 0 where
  pub pick_cipher : Option Error
  pub dial : Option Error
  pub write_target : Option Error
  pub write_head : Option Error

module _ {S : Type 0} (src : Source S) where
  -- The reading of the answer.
  unfoldable pub on_reply : Result Bytes × S → Result (Unit {0})
  unfolding begins_with
  on_reply (err e, s) = err e
  on_reply (ok p, s) = if begins_with p http then ok tt else err unexpected_response

  unfoldable pub read_reply : S → Result (Unit {0})
  unfolding on_reply
  read_reply s = on_reply (read_at_least src 6 5 16 s)

  -- `if err != nil { return 0, err }`, with what the peer has been sent there through the cipher.
  unless_failed :
      List Bytes → Option Error → List Bytes × Result (Unit {0}) → List Bytes × Result (Unit {0})
  unless_failed bs (some e) rest = (bs, err e)
  unless_failed bs none rest = rest

  write_both : Steps → Bytes → Bytes → S → List Bytes × Result (Unit {0})
  unfolding unless_failed read_reply
  write_both a t req s =
      unless_failed [] a.write_target
        (unless_failed (t ∷ []) a.write_head (t ∷ req ∷ [], read_reply s))

  with_target : Steps → Bytes → Option Bytes → S → List Bytes × Result (Unit {0})
  unfolding write_both
  with_target a req none s = ([], err address_not_supported)
  with_target a req (some t) s = write_both a t req s

  unfoldable pub probe_tcp :
      (Bytes → Option Bytes)
      → (Bytes → Option (Bytes × Bytes))
      → Steps
      → Bytes
      → S
      → List Bytes × Result (Unit {0})
  unfolding unless_failed with_target
  probe_tcp parse_addr split a target s =
      unless_failed [] a.pick_cipher
        (unless_failed [] a.dial (with_target a (head_request split target) (parse_addr target) s))
