-- ===== src/Lb/Select/TopN/Chosen.antt =====
-- The choice of `pickTopN`, internal/lb.go, against the scores of the pool.
use outline_cli_ws.Common.{
  ℕ, zero, suc, ◌+◌, ◌≡◌, refl, sym, ap, ◌∙◌, subst, ◌⊎◌, inl, inr, true, false, none, some, List,
  [], ◌∷◌, arith, get_elem?,
}
use outline_cli_ws.Common.Float.{Float}
use outline_cli_ws.Lb.State.{UpstreamState, HealthcheckConfig}
use outline_cli_ws.Lb.Select.{score_of, eligible, Best, consider, limit, start}
use outline_cli_ws.Lb.Select.TopN.{contains, consider_unused, unused_loop, top_loop, pick_top_n}

module _ (fl : Float) (c : HealthcheckConfig fl.F) (now : ℕ) where
  open fl use {F, lt, lt_trans, lt_irrefl}

  abbrev State : Type 0
  State = UpstreamState F

  abbrev points : State → F
  points = score_of fl c true now

  -- The upstream at this index, which stands in the pool, may be chosen.
  abbrev pub Open : List ℕ → ℕ → State → Type 0
  Open used i s = (eligible fl true now s ≡ true) × (contains i used ≡ false)

  abbrev try : List ℕ → ℕ → State → Best fl → Best fl
  try = consider_unused fl c now

  abbrev loop : List ℕ → ℕ → List State → Best fl → Best fl
  loop = unused_loop fl c now

  try_falls :
      (used : List ℕ) (i : ℕ) (s : State) (b : Best fl)
      → ((try used i s b).score ≡ b.score) ⊎ (lt (try used i s b).score b.score ≡ true)
  unfolding consider_unused consider
  try_falls used i s b = ground arith

  score_falls :
      (used : List ℕ) (i : ℕ) (ss : List State) (b : Best fl)
      → ((loop used i ss b).score ≡ b.score) ⊎ (lt (loop used i ss b).score b.score ≡ true)
  unfolding unused_loop
  score_falls used i [] b = inl refl
  score_falls used i (s ∷ ss) b = ground (
    arith,
    try_falls used i s b,
    score_falls used (i + 1) ss (try used i s b),
    lt_trans (loop used (i + 1) ss (try used i s b)).score (try used i s b).score b.score,
  )

  -- An upstream that the round leaves out is not better than the best so far.
  try_best :
      (used : List ℕ) (i : ℕ) (s : State) (b : Best fl)
      → Open used i s
      → lt (points s) (try used i s b).score ≡ false
  unfolding consider_unused consider
  try_best used i s b h = ground (arith, lt_irrefl (points s))

  loop-optimal :
      (used : List ℕ) (i d : ℕ) (ss : List State) (b : Best fl) (s : State)
      → get_elem? ss d ≡ some s
      → Open used (i + d) s
      → lt (points s) (loop used i ss b).score ≡ false
  unfolding unused_loop
  loop-optimal used i d [] b s e h = cc
  loop-optimal used i zero (x ∷ ss) b s e h =
      let same : x ≡ s = cc in
      let here : i + 0 ≡ i = omega arith in
      rw same (
        ground (
          arith,
          try_best used i s b (rw here at h),
          score_falls used (i + 1) ss (try used i s b),
          lt_trans (points s) (loop used (i + 1) ss (try used i s b)).score (try used i s b).score,
        ))
  loop-optimal used i (suc d) (x ∷ ss) b s e h =
      let next : i + suc d ≡ (i + 1) + d = omega arith in
      loop-optimal used (i + 1) d ss (try used i x b) s e (rw next at h)

  -- Where the result of the inner loop comes from.
  abbrev Source : List ℕ → ℕ → List State → Best fl → Best fl → Type 0
  Source used i ss b r =
      (r ≡ b)
      ⊎ ((d : ℕ) × (s : State) × (get_elem? ss d ≡ some s)
          × (r.index ≡ some (i + d))
          × Open used (i + d) s
          × (r.score ≡ points s))

  try-source :
      (used : List ℕ) (i : ℕ) (s : State) (b : Best fl)
      → (try used i s b ≡ b)
        ⊎ (((try used i s b).index ≡ some i) × Open used i s × ((try used i s b).score ≡ points s))
  unfolding consider_unused consider
  try-source used i s b = ground arith

  loop-Source :
      (used : List ℕ) (i : ℕ) (ss : List State) (b : Best fl)
      → Source used i ss b (loop used i ss b)
  unfolding unused_loop
  loop-Source used i [] b = inl refl
  loop-Source used i (x ∷ ss) b = elim (loop-Source used (i + 1) ss (try used i x b)) [
    | inl e ↦ elim (try-source used i x b) [
      | inl q ↦ inl (e ∙ q)
      | inr (n, f, p) ↦
          let here : i ≡ i + 0 = omega arith in
          inr (0, x, refl, rw (← here) (rw e n), rw (← here) f, rw e p)
    ]
    | inr (d, s, g, n, f, p) ↦
        let next : (i + 1) + d ≡ i + suc d = omega arith in
        inr (suc d, s, g, rw (← next) n, rw (← next) f, p)
  ]

  -- The choice of at most `n` upstreams beside those of `used`, one after the other. Each stands in
  -- the pool, is eligible and new, and no such upstream has a lower score; the choice ends early only
  -- where every upstream that may be chosen has a score of 1e18 at least.
  abbrev pub Chosen : List State → ℕ → List ℕ → List ℕ → Type 0
  Chosen pool n used [] =
      (n ≡ 0)
      ⊎ ((d : ℕ) (x : State)
          → get_elem? pool d ≡ some x
          → Open used d x
          → lt (points x) (limit fl) ≡ false)
  Chosen pool zero used (i ∷ is) = ⊥
  Chosen pool (suc n) used (i ∷ is) =
      (s : State) × (get_elem? pool i ≡ some s)
      × Open used i s
      × ((d : ℕ) (x : State)
          → get_elem? pool d ≡ some x
          → Open used d x
          → lt (points x) (points s) ≡ false)
      × Chosen pool n (i ∷ used) is

  round-Chosen :
      (n : ℕ) (used : List ℕ) (pool : List State) (r : Best fl) (more : ℕ → List ℕ)
      → loop used 0 pool (start fl) ≡ r
      → ((i : ℕ) → Chosen pool n (i ∷ used) (more i))
      → Chosen pool (suc n) used (elim r.index [ none ↦ [] | some i ↦ i ∷ more i ])
  round-Chosen n used pool r more e rest = elim (loop-Source used 0 pool (start fl)) [
    | inl same ↦
        let at_start : r ≡ start fl = sym e ∙ same in
        rw at_start (
          inr λ d x g f.
            subst (λ (b : Best fl). lt (points x) b.score ≡ false) same
              (loop-optimal used 0 d pool (start fl) x g (opened d x f)))
    | inr (d, s, g, m, f, p) ↦
        let here : 0 + d ≡ d = omega arith in
        let chosen : r.index ≡ some d = ap (λ (b : Best fl). b.index) (sym e) ∙ m ∙ ap some here in
        rw chosen (
          s,
          g,
          rw here at f,
          λ d' x g' f'.
              subst (λ (q : F). lt (points x) q ≡ false) p
                (loop-optimal used 0 d' pool (start fl) x g' (opened d' x f')),
          rest d,
        )
  ]
    where
      opened : (d : ℕ) (x : State) → Open used d x → Open used (0 + d) x
      opened d x f = let here : 0 + d ≡ d = omega arith in rw here f

  top_loop-Chosen :
      (n : ℕ) (used : List ℕ) (pool : List State)
      → Chosen pool n used (top_loop fl c now n used pool)
  unfolding top_loop
  top_loop-Chosen zero used pool = inl refl
  top_loop-Chosen (suc n) used pool =
      round-Chosen n used pool (loop used 0 pool (start fl))
        (λ i. top_loop fl c now n (i ∷ used) pool) refl (λ i. top_loop-Chosen n (i ∷ used) pool)

  -- pickTopN chooses upstreams of the pool one after the other, each healthy, out of its cooldown
  -- and not chosen before, with no other such upstream of a lower score, and ends before the
  -- number asked for only where every upstream that is left has a score of 1e18 at least.
  pub pick_top_n-Chosen :
      (pool : List State) (n : ℕ) → Chosen pool n [] (pick_top_n fl c now pool n)
  unfolding pick_top_n
  pick_top_n-Chosen pool n = top_loop-Chosen n [] pool
