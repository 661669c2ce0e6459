-- ===== src/Config/HostPort/Brackets.antt =====
-- Where `normalizeHostPort` of internal/config.go puts brackets.
use outline_cli_ws.Config.HostPort.{
  colon, left_bracket, count, has_prefix, cut_last, all_digits, bracketed, normalize_host_port,
}
use outline_cli_ws.Common.Bytes.{Bytes}
use outline_cli_ws.Common.{
  ℕ, ◌+◌, ◌<◌, ◌≤◌, ◌≡◌, ◌≢◌, ◌⊎◌, inl, inr, refl, sym, ap, subst, ◌∙◌, Bool, true, false, not,
  ◌&&◌, none, some, [], ◌∷◌, ◌++◌, ltb, leb, ◌==◌, ==_iff, length, arith, Bool-cases, Option-cases,
}

cut_last-none : (s : Bytes) → count colon s ≡ 0 → cut_last s ≡ none
unfolding cut_last count
cut_last-none [] h = refl
cut_last-none (x ∷ xs) h =
    let apart : (x == colon) ≡ false = ground arith in
    let rest : cut_last xs ≡ none = cut_last-none xs (ground arith) in rw (rest, apart) refl

cut_last-append :
    (host port : Bytes)
    → count colon port ≡ 0
    → cut_last (host ++ (colon ∷ port)) ≡ some (host, port)
unfolding cut_last
cut_last-append [] port h = rw (cut_last-none port h) refl
cut_last-append (x ∷ host) port h = rw (cut_last-append host port h) refl

count-append : (b : ℕ) (xs ys : Bytes) → count b (xs ++ ys) ≡ count b xs + count b ys
unfolding count
count-append b [] ys = omega arith
count-append b (x ∷ xs) ys = omega (arith, count-append b xs ys)

-- A digit is not a colon.
count-all_digits : (s : Bytes) → all_digits s ≡ true → count colon s ≡ 0
unfolding count all_digits
count-all_digits [] h = refl
count-all_digits (x ∷ xs) h = ground (arith, count-all_digits xs)

count-colon : (s : Bytes) → all_digits s ≡ true → count colon (colon ∷ s) ≡ 1
unfolding count
count-colon s h = omega (arith, count-all_digits s h)

has_prefix-append :
    (b : ℕ) (xs ys : Bytes) → 0 < length xs → has_prefix b (xs ++ ys) ≡ has_prefix b xs
unfolding has_prefix
has_prefix-append b [] ys h = absurd (omega arith)
has_prefix-append b (x ∷ xs) ys h = refl

count-length : (b : ℕ) (xs : Bytes) → count b xs ≤ length xs
unfolding count
count-length b [] = omega arith
count-length b (x ∷ xs) = ground (arith, count-length b xs)

-- What is behind the last colon, and what is before it.
append-cut_last :
    (s host port : Bytes) → cut_last s ≡ some (host, port) → s ≡ host ++ (colon ∷ port)
unfolding cut_last
append-cut_last [] host port e = cc
append-cut_last (x ∷ xs) host port e = elim (Option-cases (cut_last xs)) [
  | inr ((h, p), c) ↦
      let same = rw c at e in let rest : xs ≡ h ++ (colon ∷ p) = append-cut_last xs h p c in cc
  | inl c ↦ elim (Bool-cases (x == colon)) [
    | inl t ↦ let colon_here : x ≡ colon = (==_iff x colon).0 t in let same = rw (c, t) at e in cc
    | inr n ↦ let same = rw (c, n) at e in cc
  ]
]

-- A text that does not split, of an address with a colon, without brackets, and a port of digits.
abbrev pub Unbracketed : (Bytes → Bool) → (Bytes → Bool) → Bytes → Bytes → Bytes → Type 0
Unbracketed splits is_ip s host port =
    (splits s ≡ false)
    × (s ≡ host ++ (colon ∷ port))
    × (1 ≤ count colon host)
    × (has_prefix left_bracket host ≡ false)
    × (is_ip host ≡ true)
    × (0 < length port)
    × (all_digits port ≡ true)

-- Brackets for such a text, and no change to any other.
abbrev pub Normalized : (Bytes → Bool) → (Bytes → Bool) → Bytes → Bytes → Type 0
Normalized splits is_ip s r =
    ((host : Bytes) × (port : Bytes) × Unbracketed splits is_ip s host port
      × (r ≡ bracketed host port))
    ⊎ ((r ≡ s) × ¬ ((host : Bytes) × (port : Bytes) × Unbracketed splits is_ip s host port))

module _ (splits is_ip : Bytes → Bool) where
  -- Brackets are put where they are missing.
  normalize_host_port-bracketed :
      (s host port : Bytes)
      → Unbracketed splits is_ip s host port
      → normalize_host_port splits is_ip s ≡ bracketed host port
  unfolding normalize_host_port
  normalize_host_port-bracketed s host port (e, text, c, n, i, l, d) =
      let some_host : 0 < length host = omega (arith, count-length colon host, c) in
      let own : count colon (colon ∷ port) ≡ 1 = count-colon port d in
      let e' : splits (host ++ (colon ∷ port)) ≡ false = subst (λ t. splits t ≡ false) text e in
      let many : leb 2 (count colon (host ++ (colon ∷ port))) ≡ true =
        ground (arith, count-append colon host (colon ∷ port), own, c) in
      let bare : has_prefix left_bracket (host ++ (colon ∷ port)) ≡ false =
        has_prefix-append left_bracket host (colon ∷ port) some_host ∙ n in
      let cut = cut_last-append host port (count-all_digits port d) in
      let h0 : ltb 0 (length host) ≡ true = ground arith in
      let p0 : ltb 0 (length port) ≡ true = ground arith in
      rw text (rw (e', many, bare, cut, h0, p0, d, i) refl)

  bracketed_apart :
      (s host port : Bytes) → Unbracketed splits is_ip s host port → s ≢ bracketed host port
  unfolding has_prefix
  bracketed_apart s host port (e, text, c, n, i, l, d) same =
      let some_host : 0 < length host = omega (arith, count-length colon host, c) in
      let bare : has_prefix left_bracket (host ++ (colon ∷ port)) ≡ false =
        has_prefix-append left_bracket host (colon ∷ port) some_host ∙ n in
      let own : has_prefix left_bracket (bracketed host port) ≡ false =
        ap (has_prefix left_bracket) (sym same ∙ text) ∙ bare in
      cc

  cut_last-Unbracketed :
      (s host port : Bytes)
      → splits s ≡ false
      → (leb 2 (count colon s) && not (has_prefix left_bracket s)) ≡ true
      → cut_last s ≡ some (host, port)
      → (ltb 0 (length host) && ltb 0 (length port) && all_digits port && is_ip host) ≡ true
      → Unbracketed splits is_ip s host port
  cut_last-Unbracketed s host port f g c b =
      let text : s ≡ host ++ (colon ∷ port) = append-cut_last s host port c in
      let p : 0 < length port = ground arith in
      let d : all_digits port ≡ true = ground arith in
      let i : is_ip host ≡ true = ground arith in
      let own : count colon (colon ∷ port) ≡ 1 = count-colon port d in
      let many : 2 ≤ count colon s = ground arith in
      let split : count colon s ≡ count colon host + count colon (colon ∷ port) =
        ap (count colon) text ∙ count-append colon host (colon ∷ port) in
      let some_host : 0 < length host = ground arith in
      let bare : has_prefix left_bracket s ≡ false = ground arith in
      let same : has_prefix left_bracket s ≡ has_prefix left_bracket host =
        ap (has_prefix left_bracket) text
        ∙ has_prefix-append left_bracket host (colon ∷ port) some_host in
      (f, text, omega (arith, split, own, many), sym same ∙ bare, i, p, d)

  normalize_host_port-cases :
      (s : Bytes)
      → (normalize_host_port splits is_ip s ≡ s)
        ⊎ ((host : Bytes) × (port : Bytes) × Unbracketed splits is_ip s host port
            × (normalize_host_port splits is_ip s ≡ bracketed host port))
  unfolding normalize_host_port
  normalize_host_port-cases s = elim (Bool-cases (splits s)) [
    | inl t ↦ inl (rw (normalize_host_port, t) refl)
    | inr f ↦ elim (Bool-cases (leb 2 (count colon s) && not (has_prefix left_bracket s))) [
      | inr g ↦ inl (rw (normalize_host_port, f, g) refl)
      | inl g ↦ elim (Option-cases (cut_last s)) [
        | inl n ↦ inl (rw (normalize_host_port, f, g, n) refl)
        | inr ((host, port), c) ↦
            elim (Bool-cases
              (ltb 0 (length host) && ltb 0 (length port) && all_digits port && is_ip host)) [
                | inr b ↦ inl (rw (normalize_host_port, f, g, c, b) refl)
                | inl b ↦ inr (
                  host,
                  port,
                  cut_last-Unbracketed s host port f g c b,
                  rw (normalize_host_port, f, g, c, b) refl,
                )
              ]
      ]
    ]
  ]

  -- normalizeHostPort puts brackets exactly where they are missing: the result is [host]:port
  -- where the text does not split and is host:port for a host that is an IP address with a colon
  -- and has no bracket in front, and a port of one digit or more and nothing but digits; any other
  -- text stays as it is.
  pub normalize_host_port-Normalized :
      (s : Bytes) → Normalized splits is_ip s (normalize_host_port splits is_ip s)
  normalize_host_port-Normalized s = elim (normalize_host_port-cases s) [
    | inr x ↦ inl x
    | inl e ↦ inr (
      e,
      λ (host, port, u).
          bracketed_apart s host port u (sym e ∙ normalize_host_port-bracketed s host port u),
    )
  ]
