-- ===== src/H3/Qpack/Fields/Scan.antt =====
-- The scan of the static table in `h3EncodeHeaders`, internal/ws_h3_qpack_min.go.
use outline_cli_ws.Common.Bytes.{bytes_equal, bytes_equal→eq, bytes_equal_refl}
use outline_cli_ws.H3.Qpack.Fields.{Header, scan}
use outline_cli_ws.Common.{
  ℕ, zero, suc, ◌+◌, ◌≡◌, ap, ◌≢◌, ◌⊎◌, inl, inr, true, not, ◌&&◌, Option, none, some, List, [],
  ◌∷◌, arith, if◌then◌else◌, Bool-cases, is_some, get_elem?,
}
use outline_cli_ws.Common.Bytes.{Bytes}

both-eq :
    (n name v value : Bytes)
    → (bytes_equal n name && bytes_equal v value) ≡ true
    → (n ≡ name) × (v ≡ value)
both-eq n name v value h = ground (arith, bytes_equal→eq n name, bytes_equal→eq v value)

-- The index of a full match is that of an entry with this name and value.
pub scan_pair :
    (t : List Header) (i : ℕ) (name value : Bytes) (by_name : Option ℕ) (j : ℕ)
    → (scan t i (name, value) by_name).1 ≡ some j
    → (d : ℕ) × (j ≡ i + d) × (get_elem? t d ≡ some (name, value))
unfolding scan
scan_pair [] i name value by_name j e = cc
scan_pair ((n, v) ∷ t) i name value by_name j e =
    elim (Bool-cases (bytes_equal n name && bytes_equal v value)) [
      | inl h ↦
          let hit : j ≡ i = cc (rw h at e) in
          (0, omega arith, ground (arith, both-eq n name v value h))
      | inr h ↦
          let (d, p, q) =
            scan_pair t (i + 1) name value
              (if not (is_some by_name) && bytes_equal n name then some i else by_name) j
              (rw h at e) in
          (suc d, omega arith, q)
    ]

-- The index of a match by name is that of an entry with this name.
pub scan_name :
    (t : List Header) (i : ℕ) (name value : Bytes) (by_name : Option ℕ) (j : ℕ)
    → (scan t i (name, value) by_name).0 ≡ some j
    → (by_name ≡ some j) ⊎ ((d : ℕ) × (v : Bytes) × (j ≡ i + d) × (get_elem? t d ≡ some (name, v)))
unfolding scan
scan_name [] i name value by_name j e = inl e
scan_name ((n, v) ∷ t) i name value by_name j e =
    elim (Bool-cases (bytes_equal n name && bytes_equal v value)) [
      | inl h ↦ here (rw h at e)
      | inr h ↦ elim (scan_name t (i + 1) name value by_name' j (rw h at e)) [
        | inl q ↦ here q
        | inr (d, w, p, q) ↦ inr (suc d, w, omega arith, q)
      ]
    ]
  where
    by_name' : Option ℕ
    by_name' = if not (is_some by_name) && bytes_equal n name then some i else by_name

    first : by_name' ≡ some j → (by_name ≡ some j) ⊎ ((j ≡ i) × (n ≡ name))
    first q = ground (arith, bytes_equal→eq n name)

    here :
        by_name' ≡ some j
        → (by_name ≡ some j)
          ⊎ ((d : ℕ) × (w : Bytes) × (j ≡ i + d) × (get_elem? ((n, v) ∷ t) d ≡ some (name, w)))
    here q = elim (first q) [
      | inl r ↦ inl r
      | inr (r, m) ↦ inr (0, v, omega arith, ap (λ (x : Bytes). some (x, v)) m)
    ]

pub scan_hit :
    (t : List Header) (i : ℕ) (name value : Bytes) (by_name : Option ℕ) (j : ℕ)
    → get_elem? t j ≡ some (name, value)
    → (scan t i (name, value) by_name).1 ≢ none
unfolding scan
scan_hit [] i name value by_name j e = cc
scan_hit ((n, v) ∷ t) i name value by_name zero e =
    ground (arith, bytes_equal_refl name, bytes_equal_refl value)
scan_hit ((n, v) ∷ t) i name value by_name (suc j) e = ground (
  arith,
  scan_hit t (i + 1) name value
      (if not (is_some by_name) && bytes_equal n name then some i else by_name) j e,
)
