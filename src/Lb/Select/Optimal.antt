-- ===== src/Lb/Select/Optimal.antt =====
-- The loop of `pickBestCandidateByEndpoint`, internal/lb.go, against the scores of the pool.
use outline_cli_ws.Common.{no_healthy_upstreams}
use outline_cli_ws.Common.Int.{ℤ}
use outline_cli_ws.Common.Float.{Float}
use outline_cli_ws.Lb.State.{UpstreamState, HealthcheckConfig}
use outline_cli_ws.Lb.Select.{
  health, score_of, eligible, Best, best_loop, consider, limit, start, pick_best,
}
use outline_cli_ws.Common.{
  ℕ, zero, suc, ◌+◌, ◌≡◌, refl, sym, ap, ◌∙◌, subst, ◌⊎◌, inl, inr, Bool, true, false, ◌&&◌, none,
  some, List, [], ◌∷◌, arith, Bool-cases, get_elem?,
}
use outline_cli_ws.Common.{Result, ok, err}

module _ (fl : Float) (c : HealthcheckConfig fl.F) (is_tcp : Bool) (now : ℕ) where
  open fl use {F, lt, lt_trans, lt_irrefl}

  abbrev State : Type 0
  State = UpstreamState F

  abbrev loop : ℕ → List State → Best fl → Best fl
  loop = best_loop fl c is_tcp now

  abbrev points : State → F
  points = score_of fl c is_tcp now

  abbrev fits : State → Bool
  fits = eligible fl is_tcp now

  abbrev try : ℕ → State → Best fl → Best fl
  try = consider fl c is_tcp now

  consider_falls :
      (i : ℕ) (s : State) (b : Best fl)
      → ((try i s b).score ≡ b.score) ⊎ (lt (try i s b).score b.score ≡ true)
  unfolding consider
  consider_falls i s b = ground arith

  -- The score never rises.
  score_falls :
      (i : ℕ) (ss : List State) (b : Best fl)
      → ((loop i ss b).score ≡ b.score) ⊎ (lt (loop i ss b).score b.score ≡ true)
  unfolding best_loop
  score_falls i [] b = inl refl
  score_falls i (s ∷ ss) b = ground (
    arith,
    consider_falls i s b,
    score_falls (i + 1) ss (try i s b),
    lt_trans (loop (i + 1) ss (try i s b)).score (try i s b).score b.score,
  )

  -- An upstream that the round leaves out is not better than the best so far.
  consider_best :
      (i : ℕ) (s : State) (b : Best fl) → fits s ≡ true → lt (points s) (try i s b).score ≡ false
  unfolding consider
  consider_best i s b h = ground (arith, lt_irrefl (points s))

  not_below :
      (x : F) (i : ℕ) (ss : List State) (b : Best fl)
      → lt x b.score ≡ false
      → lt x (loop i ss b).score ≡ false
  not_below x i ss b h = ground (arith, score_falls i ss b, lt_trans x (loop i ss b).score b.score)

  -- No eligible upstream of the pool has a lower score than the loop's result.
  loop-optimal :
      (i d : ℕ) (ss : List State) (b : Best fl) (s : State)
      → get_elem? ss d ≡ some s
      → fits s ≡ true
      → lt (points s) (loop i ss b).score ≡ false
  unfolding best_loop
  loop-optimal i d [] b s e h = cc
  loop-optimal i zero (x ∷ ss) b s e h =
      let same : x ≡ s = cc in
      rw same (not_below (points s) (i + 1) ss (try i s b) (consider_best i s b h))
  loop-optimal i (suc d) (x ∷ ss) b s e h = loop-optimal (i + 1) d ss (try i x b) s e h

  -- Where the result comes from: it is the start, or an eligible upstream of the pool.
  abbrev Source : ℕ → List State → Best fl → Best fl → Type 0
  Source i ss b r =
      (r ≡ b)
      ⊎ ((d : ℕ) × (s : State) × (get_elem? ss d ≡ some s)
          × (r.index ≡ some (i + d))
          × (fits s ≡ true)
          × (r.rtt ≡ (health is_tcp s).rtt_ewma)
          × (r.score ≡ points s))

  consider-source :
      (i : ℕ) (s : State) (b : Best fl)
      → (try i s b ≡ b)
        ⊎ (((try i s b).index ≡ some i)
            × (fits s ≡ true)
            × ((try i s b).rtt ≡ (health is_tcp s).rtt_ewma)
            × ((try i s b).score ≡ points s))
  unfolding consider
  consider-source i s b = elim (Bool-cases (fits s && lt (points s) b.score)) [
    | inl h ↦ rw h (inr (refl, ground arith, refl, refl))
    | inr h ↦ rw h (inl refl)
  ]

  loop-Source : (i : ℕ) (ss : List State) (b : Best fl) → Source i ss b (loop i ss b)
  unfolding best_loop
  loop-Source i [] b = inl refl
  loop-Source i (x ∷ ss) b = elim (loop-Source (i + 1) ss (try i x b)) [
    | inl e ↦ elim (consider-source i x b) [
      | inl q ↦ inl (e ∙ q)
      | inr (n, f, t, p) ↦ inr (0, x, refl, rw e (n ∙ ap some (omega arith)), f, rw e t, rw e p)
    ]
    | inr (d, s, g, n, f, t, p) ↦ inr (suc d, s, g, n ∙ ap some (omega arith), f, t, p)
  ]

  -- What `pick_best` returns: an eligible upstream with its latency, such that no eligible one has a
  -- lower score.
  abbrev pub Optimal : List State → Result (ℕ × ℤ) → Type 0
  Optimal pool (ok (i, rtt)) =
      (s : State) × (get_elem? pool i ≡ some s)
      × (fits s ≡ true)
      × (rtt ≡ (health is_tcp s).rtt_ewma)
      × ((d : ℕ) (x : State)
          → get_elem? pool d ≡ some x
          → fits x ≡ true
          → lt (points x) (points s) ≡ false)
  Optimal pool (err e) =
      (e ≡ no_healthy_upstreams)
      × ((d : ℕ) (x : State)
          → get_elem? pool d ≡ some x
          → fits x ≡ true
          → lt (points x) (limit fl) ≡ false)

  -- The choice over a pool is an eligible upstream with its latency, such that no eligible one has
  -- a lower score; it fails only where every eligible upstream has a score of 1e18 at least.
  pub pick_best-Optimal : (pool : List State) → Optimal pool (pick_best fl c pool now is_tcp)
  unfolding pick_best
  pick_best-Optimal pool = result (loop 0 pool (start fl)) refl
    where
      result :
          (r : Best fl)
          → loop 0 pool (start fl) ≡ r
          → Optimal pool (elim r.index [ none ↦ err no_healthy_upstreams | some i ↦ ok (i, r.rtt) ])
      result r e = elim (loop-Source 0 pool (start fl)) [
        | inl same ↦
            let at_start : r ≡ start fl = sym e ∙ same in
            rw at_start (
              refl,
              λ d x g f.
                  subst (λ (b : Best fl). lt (points x) b.score ≡ false) same
                    (loop-optimal 0 d pool (start fl) x g f),
            )
        | inr (d, s, g, n, f, t, p) ↦
            let n' : r.index ≡ some d =
              ap (λ (b : Best fl). b.index) (sym e) ∙ n ∙ ap some (omega arith) in
            rw n' (
              s,
              g,
              f,
              ap (λ (b : Best fl). b.rtt) (sym e) ∙ t,
              λ d' x g' f'.
                  subst (λ (q : F). lt (points x) q ≡ false) p
                    (loop-optimal 0 d' pool (start fl) x g' f'),
            )
      ]
