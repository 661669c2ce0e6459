-- ===== src/Probe/Tcp/Head.antt =====
-- The verdict of the TCP probe, ProbeTCPQuality of internal/active_probe.go.
use outline_cli_ws.Probe.Tcp.{
  begins_with, http, head_request, Steps, on_reply, read_reply, probe_tcp,
}
use outline_cli_ws.Common.Source.{Source, Whole, Ends, read_at_least, read_at_least-Ends}
use outline_cli_ws.Common.{inl, inr, ◌⊎◌, unexpected_response, stuck}
use outline_cli_ws.Common.{
  ◌≤◌, ◌<◌, ◌≡◌, refl, ap, ◌∙◌, ◌≢◌, ◌&&◌, Option, none, some, [], ◌∷◌, ◌++◌, arith, ◌==◌,
  if◌then◌else◌, length, length-append,
}
use outline_cli_ws.Common.{Error, Result, ok, err}
use outline_cli_ws.Common.Bytes.{Bytes}

begins_with-append :
    (p rest x : Bytes) → length x ≤ length p → begins_with (p ++ rest) x ≡ begins_with p x
unfolding begins_with
begins_with-append p rest [] h = refl
begins_with-append [] rest (y ∷ x) h = absurd (omega arith)
begins_with-append (b ∷ p) rest (y ∷ x) h =
    ap (λ t. b == y && t) (begins_with-append p rest x (omega arith))

-- The answer by what the source has left, whatever pieces it comes in.
abbrev pub Verdict : Bytes → Result (Unit {0}) → Type 0
Verdict left r =
    ((5 ≤ length left) × (r ≡ (if begins_with left http then ok tt else err unexpected_response)))
    ⊎ ((length left < 5) × (e : Error) × (r ≡ err e) × (e ≢ stuck))

module _ {S : Type 0} (src : Source S) where
  on_reply-Verdict :
      (s : S) (r : Result Bytes × S) → Ends src 5 16 s r → Verdict (src.left s) (on_reply src r)
  unfolding on_reply
  on_reply-Verdict s (err e, t) h = inr (h.1, e, refl, h.0)
  on_reply-Verdict s (ok p, t) h =
      let e : begins_with (src.left s) http ≡ begins_with p http =
        ap (λ l. begins_with l http) h.next_bytes
        ∙ begins_with-append p (src.left t) http h.at_least in
      inl
        (omega (arith, h.at_least, ap length h.next_bytes, length-append p (src.left t)), rw e refl)

  read_reply-Verdict :
      {Good : S → Type 0} (s : S)
      → Whole src Good
      → Good s
      → Verdict (src.left s) (read_reply src s)
  unfolding read_reply
  read_reply-Verdict s w g =
      on_reply-Verdict s (read_at_least src 6 5 16 s)
        (read_at_least-Ends src 6 5 16 s w g (omega arith) (omega arith))

  -- Every step before the reply succeeds.
  pub record Passes (a : Steps) : Type 0 where
    pub cipher_found : a.pick_cipher ≡ none
    pub dialled : a.dial ≡ none
    pub target_written : a.write_target ≡ none
    pub head_written : a.write_head ≡ none

  -- Where the steps before the reply succeed and the stream fails only at its end, the TCP probe
  -- sends the target and the HEAD request, and passes exactly where the reply has five bytes at
  -- least and begins with HTTP/, in whatever pieces it comes; a shorter reply gives an error, and
  -- never for want of fuel.
  pub probe_tcp-Verdict :
      {Good : S → Type 0} (parse_addr : Bytes → Option Bytes)
      (split : Bytes → Option (Bytes × Bytes)) (a : Steps) (target t : Bytes) (s : S)
      → Whole src Good
      → Good s
      → Passes a
      → parse_addr target ≡ some t
      → let r = probe_tcp src parse_addr split a target s in
        (r.0 ≡ t ∷ head_request split target ∷ []) × Verdict (src.left s) r.1
  unfolding probe_tcp
  probe_tcp-Verdict parse_addr split a target t s w g h e =
      rw (h.cipher_found, h.dialled, e, h.target_written, h.head_written, probe_tcp)
        (refl, read_reply-Verdict s w g)
