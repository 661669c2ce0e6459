-- ===== src/Tun/Flows/Apart.antt =====
-- The keys of the flows of a source port, internal/tun_native.go: no two flows have the same, and a
-- write or a deletion keeps it so.
use outline_cli_ws.Common.Bytes.{bytes_equal, bytes_equal→eq}
use outline_cli_ws.Socks.Addr.{AddrKey}
use outline_cli_ws.Udp.Session.{Ip}
use outline_cli_ws.Tun.Flows.{Flow, has_flow, set_flow, delete_flow}
use outline_cli_ws.Tun.Flows.Entries.{set_flow-All, delete_flow-All, has_flow-All}
use outline_cli_ws.Tun.Flows.Served.{Key, Other, Apart}
use outline_cli_ws.Common.{
  ℕ, ◌≡◌, refl, sym, subst, ◌≢◌, inl, inr, false, Option, List, [], ◌∷◌, Bool-cases, All,
}
use outline_cli_ws.Common.Bytes.{Bytes}

module _ (split : Bytes → Option (Bytes × Bytes)) (parse_uint : Bytes → Option ℕ)
    (parse_ip : Bytes → Option Ip) where
  abbrev Apart_ : List Flow → Type 0
  Apart_ = Apart split parse_uint parse_ip

  abbrev Others : AddrKey → List Flow → Type 0
  Others k fs = All (Other split parse_uint parse_ip k) fs

  abbrev Named : Bytes → AddrKey → Type 0
  Named = Key split parse_uint parse_ip

  -- Where a destination has no flow, no flow has its key.
  abbrev pub Free : Bytes → List Flow → Type 0
  Free d fs = (k : AddrKey) → Named d k → has_flow d fs ≡ false → Others k fs

  -- A flow of another key than a destination's, with a flow of the destination's beside it or none.
  differs :
      (d : Bytes) (f : Flow) (fs : List Flow) (k l : AddrKey)
      → bytes_equal f.0 d ≡ false
      → Apart_ (f ∷ fs)
      → Free d (f ∷ fs)
      → Named f.0 k
      → Named d l
      → k ≢ l
  unfolding has_flow
  differs d f fs k l n a free e g = elim (Bool-cases (has_flow d fs)) [
    | inl t ↦ (has_flow-All (Other split parse_uint parse_ip k) d fs t (a.0 k e)).1 l g
    | inr u ↦ λ q. (free l g (rw (n, u) refl)).0 k e (sym q)
  ]

  rest_Free :
      (d : Bytes) (f : Flow) (fs : List Flow)
      → bytes_equal f.0 d ≡ false
      → Free d (f ∷ fs)
      → Free d fs
  unfolding has_flow
  rest_Free d f fs n free k e h = (free k e (rw (n, h) refl)).1

  pub set_flow-Apart :
      (d : Bytes) (now : ℕ) (fs : List Flow) → Apart_ fs → Free d fs → Apart_ (set_flow d now fs)
  unfolding set_flow
  set_flow-Apart d now [] a free = ((λ k e. tt), tt)
  set_flow-Apart d now (f ∷ fs) a free = elim (Bool-cases (bytes_equal f.0 d)) [
    | inl t ↦
        rw (t, set_flow)
          ((λ k e. a.0 k (subst (λ x. Named x k) (sym (bytes_equal→eq f.0 d t)) e)), a.1)
    | inr n ↦
        rw (n, set_flow)
          (
            (λ k e.
                set_flow-All (Other split parse_uint parse_ip k) d now fs
                  (λ l g. differs d f fs k l n a free e g) (a.0 k e)),
            set_flow-Apart d now fs a.1 (rest_Free d f fs n free),
          )
  ]

  pub delete_flow-Apart : (d : Bytes) (fs : List Flow) → Apart_ fs → Apart_ (delete_flow d fs)
  unfolding delete_flow
  delete_flow-Apart d [] a = tt
  delete_flow-Apart d (f ∷ fs) a = elim (Bool-cases (bytes_equal f.0 d)) [
    | inl t ↦ rw (t, delete_flow) (delete_flow-Apart d fs a.1)
    | inr n ↦
        rw (n, delete_flow)
          (
            (λ k e. delete_flow-All (Other split parse_uint parse_ip k) d fs (a.0 k e)),
            delete_flow-Apart d fs a.1,
          )
  ]
