-- ===== src/Lb/Select/TopN.antt =====
-- `pickTopN` of internal/lb.go: the upstreams that the warm standby fills. An upstream of `used` is
-- its index.
pub mod Chosen
use outline_cli_ws.Common.{
  ℕ, zero, suc, ◌+◌, ◌-◌, ◌*◌, ◌/◌, ◌%◌, ◌^◌, ◌≤◌, ◌<◌, min, bit_and, bit_or, bit_xor, ◌≡◌, refl,
  sym, ap, ◌∙◌, subst, ◌≢◌, ◌↔◌, ◌⊎◌, inl, inr, Bool, true, false, not, ◌&&◌, ◌||◌, Option, none,
  some, List, [], ◌∷◌, ◌++◌, map, foldl, append-nil, append_assoc, arith, ltb, leb, ◌==◌,
  if◌then◌else◌, ==_iff, leb→le, Bool-cases, Option-cases, is_some, length, get_elem?, get_or, set,
  take, drop, All, length-append, take-append, drop-append, length-set, get_elem?-set_self,
  get_elem?-set_ne, length-drop, take-append-drop, get_elem?-some-lt, All-get_or, All-append,
}
use outline_cli_ws.Common.{Error, Result, ok, err}
use outline_cli_ws.Common.{◌>>=◌, ◌>>◌, fail_if, >>=-eq-ok}
use outline_cli_ws.Common.Bytes.{
  Bytes, IsByte, put_uint16, put_uint64, big_endian, big_endian-put_uint16, big_endian-put_uint64,
}
use outline_cli_ws.Common.Float.{Float}
use outline_cli_ws.Lb.State.{UpstreamState, HealthcheckConfig}
use outline_cli_ws.Lb.Select.{Best, consider, start}

-- `used[s]`
abbrev pub contains : ℕ → List ℕ → Bool
contains i [] = false
contains i (j ∷ js) = i == j || contains i js

module _ (fl : Float) (c : HealthcheckConfig fl.F) (now : ℕ) where
  open fl use {F}

  -- The inner loop: the scoring is that of the best candidate, for the TCP endpoint.
  consider_unused : List ℕ → ℕ → UpstreamState F → Best fl → Best fl
  unfolding consider
  consider_unused used i s b = if contains i used then b else consider fl c true now i s b

  unused_loop : List ℕ → ℕ → List (UpstreamState F) → Best fl → Best fl
  unfolding consider_unused
  unused_loop used i [] b = b
  unused_loop used i (s ∷ ss) b = unused_loop used (i + 1) ss (consider_unused used i s b)

  -- `for len(out) < n`: each round adds one, or ends the loop.
  top_loop : ℕ → List ℕ → List (UpstreamState F) → List ℕ
  unfolding unused_loop
  top_loop zero used pool = []
  top_loop (suc n) used pool = elim (unused_loop used 0 pool (start fl)).index [
    | none ↦ []
    | some i ↦ i ∷ top_loop n (i ∷ used) pool
  ]

  unfoldable pub pick_top_n : List (UpstreamState F) → ℕ → List ℕ
  unfolding top_loop
  pick_top_n pool n = top_loop n [] pool
