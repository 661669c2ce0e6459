-- ===== src/H3/Qpack/Fields/Lines.antt =====
-- One line of a header block, written by `h3EncodeHeaders` and read by `h3DecodeHeaders`.
use outline_cli_ws.H3.Qpack.Table.{static_table, length-static_table}
use outline_cli_ws.H3.Qpack.Ints.{prefixed_int, Splits, read_int_with_first-prefixed_int}
use outline_cli_ws.H3.Qpack.Fields.Flags.{
  indexed-Splits, named-Splits, name-Splits, string-Splits, indexed_flags, named_top, named_flags,
  named_static, literal_top, literal_flags, literal_plain, string_plain,
}
use outline_cli_ws.H3.Qpack.Fields.Scan.{scan_pair, scan_name}
use outline_cli_ws.H3.Qpack.Fields.{
  Header, scan, prefixed_string, line, table_entry, zeros, read_slice, read_string_with_first,
  read_string, read_line,
}
use outline_cli_ws.Common.{
  ℕ, suc, ◌-◌, ◌^◌, ◌≤◌, ◌<◌, bit_and, bit_or, ◌≡◌, refl, ap, ◌⊎◌, inl, inr, false, ◌||◌, Option,
  none, some, List, [], ◌∷◌, ◌++◌, append-nil, append_assoc, arith, ltb, leb, length, get_elem?,
  take, drop, length-append, take-append, drop-append, get_elem?-some-lt,
}
use outline_cli_ws.Common.{Result}
use outline_cli_ws.Common.Bytes.{Bytes}
use outline_cli_ws.Common.Reader.{got}

module _ (max_alloc : ℕ) (huffman : Bytes → Result Bytes) where
  -- A slice of the length that the reader asks for, where a byte is left at least.
  read_slice-append :
      (s rest : Bytes) (n : ℕ)
      → n ≡ length s
      → n < 2 ^ 63
      → n ≤ max_alloc
      → 0 < length (s ++ rest)
      → read_slice max_alloc huffman n (s ++ rest) ≡ got s rest
  unfolding read_slice zeros
  read_slice-append s rest n e h a p = go (s ++ rest) refl p
    where
      go :
          (w : Bytes) → s ++ rest ≡ w → 0 < length w → read_slice max_alloc huffman n w ≡ got s rest
      go [] q p' = absurd (omega arith)
      go (b ∷ r) q p' =
          let no : (leb (2 ^ 63) n || ltb max_alloc n) ≡ false = ground arith in
          let enough : n - suc (length r) ≡ 0 = omega (arith, ap length q, length-append s rest) in
          let parts : got (take n (s ++ rest) ++ []) (drop n (s ++ rest)) ≡ got s rest =
            rw (e, take-append s rest, drop-append s rest, append-nil s) in
          rw (no, enough) (rw q at parts)

  read_string-prefixed_string :
      (first prefix : ℕ) (s rest : Bytes)
      → Splits first prefix
      → ((x : ℕ) → x < 2 ^ prefix → bit_and (bit_or first x) (2 ^ prefix) ≡ 0)
      → length s < 2 ^ 63
      → length s ≤ max_alloc
      → 0 < length (s ++ rest)
      → (low : ℕ) × (tail : Bytes) × (low < 2 ^ prefix)
        × (prefixed_string first prefix s ≡ bit_or first low ∷ tail)
        × (read_string_with_first max_alloc huffman (bit_or first low) prefix (tail ++ rest)
            ≡ got s rest)
  unfolding prefixed_string read_string_with_first
  read_string-prefixed_string first prefix s rest sp plain h a p =
      let (low, tail, l, e, r) =
        read_int_with_first-prefixed_int first prefix (length s) (s ++ rest) sp h in
      (
        low,
        tail ++ s,
        l,
        rw e,
        rw (
          append_assoc tail s rest,
          r,
          read_slice-append s rest (length s) refl h a p,
          plain low l,
        ),
      )

  table_entry-get :
      (i : ℕ) (h : Header) (rest : Bytes)
      → get_elem? static_table i ≡ some h
      → table_entry i rest ≡ got h rest
  unfolding table_entry
  table_entry-get i h rest e =
      let low : leb (2 ^ 63) i ≡ false =
        ground (arith, get_elem?-some-lt static_table i h e, length-static_table) in
      rw (low, e)

  -- The value of a header is there in full, or some bytes of the block follow it.
  abbrev Backed : Header → Bytes → Type 0
  Backed h rest = 0 < length (h.1 ++ rest)

  abbrev pub Small : Header → Type 0
  Small h =
      (length h.0 < 2 ^ 63)
      × (length h.0 ≤ max_alloc)
      × (length h.1 < 2 ^ 63)
      × (length h.1 ≤ max_alloc)

  -- One line, with its first byte taken off.
  abbrev pub Reads : Bytes → Bytes → Header → Type 0
  Reads block rest h =
      (b : ℕ) × (tail : Bytes) × (block ≡ b ∷ tail)
      × (read_line max_alloc huffman b (tail ++ rest) ≡ got h rest)

  read_line-indexed :
      (i : ℕ) (h : Header) (rest : Bytes)
      → get_elem? static_table i ≡ some h
      → Reads (prefixed_int 0xc0 6 i) rest h
  unfolding read_line
  read_line-indexed i h rest e =
      let small : i < 2 ^ 63 =
        omega (arith, get_elem?-some-lt static_table i h e, length-static_table) in
      let (low, tail, l, p, r) =
        read_int_with_first-prefixed_int 0xc0 6 i rest indexed-Splits small in
      (bit_or 0xc0 low, tail, p, rw (indexed_flags low l, r) (table_entry-get i h rest e))

  read_string_value :
      (value rest : Bytes)
      → length value < 2 ^ 63
      → length value ≤ max_alloc
      → 0 < length (value ++ rest)
      → read_string max_alloc huffman 7 (prefixed_string 0 7 value ++ rest) ≡ got value rest
  unfolding read_string
  read_string_value value rest h a p =
      let (low, tail, l, e, r) =
        read_string-prefixed_string 0 7 value rest string-Splits string_plain h a p in
      rw e r

  read_line-named :
      (i : ℕ) (name value v rest : Bytes)
      → get_elem? static_table i ≡ some (name, v)
      → Small (name, value)
      → 0 < length (value ++ rest)
      → Reads (prefixed_int 0x50 4 i ++ prefixed_string 0 7 value) rest (name, value)
  unfolding read_line
  read_line-named i name value v rest e small p =
      let lt : i < 2 ^ 63 =
        omega (arith, get_elem?-some-lt static_table i (name, v) e, length-static_table) in
      let (low, tail, l, q, r) =
        read_int_with_first-prefixed_int 0x50 4 i (prefixed_string 0 7 value ++ rest) named-Splits
          lt in
      (
        bit_or 0x50 low,
        tail ++ prefixed_string 0 7 value,
        rw q,
        rw
            (
              append_assoc tail (prefixed_string 0 7 value) rest,
              named_top low l,
              named_flags low l,
              named_static low l,
              r,
            )
            (rw (table_entry-get i (name, v) (prefixed_string 0 7 value ++ rest) e)
              (rw (read_string_value value rest small.2 small.3 p))),
      )

  behind :
      (name value rest : Bytes)
      → length value < 2 ^ 63
      → 0 < length (name ++ (prefixed_string 0 7 value ++ rest))
  unfolding prefixed_string
  behind name value rest h =
      let (low, tail, l, e, r) =
        read_int_with_first-prefixed_int 0 7 (length value) [] string-Splits h in
      rw (length-append name ((prefixed_int 0 7 (length value) ++ value) ++ rest), e) (omega arith)

  read_line-literal :
      (name value rest : Bytes)
      → Small (name, value)
      → 0 < length (value ++ rest)
      → Reads (prefixed_string 0x20 3 name ++ prefixed_string 0 7 value) rest (name, value)
  unfolding read_line
  read_line-literal name value rest small p =
      let (low, tail, l, q, r) =
        read_string-prefixed_string 0x20 3 name (prefixed_string 0 7 value ++ rest) name-Splits
          literal_plain small.0 small.1 (behind name value rest small.2) in
      (
        bit_or 0x20 low,
        tail ++ prefixed_string 0 7 value,
        rw q,
        rw
            (
              append_assoc tail (prefixed_string 0 7 value) rest,
              literal_top low l,
              literal_flags low l,
              r,
            )
            (rw (read_string_value value rest small.2 small.3 p)),
      )

  -- A header in the form that the scan of the table decides.
  line-Reads :
      (name value rest : Bytes) (r : Option ℕ × Option ℕ)
      → ((j : ℕ) → r.1 ≡ some j → get_elem? static_table j ≡ some (name, value))
      → ((j : ℕ) → r.0 ≡ some j → (v : Bytes) × (get_elem? static_table j ≡ some (name, v)))
      → Small (name, value)
      → (r.1 ≡ none → 0 < length (value ++ rest))
      → Reads (line (name, value) r) rest (name, value)
  unfolding line
  line-Reads name value rest (by_name, some i) full named small p =
      read_line-indexed i (name, value) rest (full i refl)
  line-Reads name value rest (some i, none) full named small p =
      let (v, e) = named i refl in read_line-named i name value v rest e small (p refl)
  line-Reads name value rest (none, none) full named small p =
      read_line-literal name value rest small (p refl)

  abbrev pub found : Header → Option ℕ × Option ℕ
  found h = scan static_table 0 h none

  pub line-found-Reads :
      (name value rest : Bytes)
      → Small (name, value)
      → ((found (name, value)).1 ≡ none → 0 < length (value ++ rest))
      → Reads (line (name, value) (found (name, value))) rest (name, value)
  line-found-Reads name value rest small p =
      line-Reads name value rest (found (name, value)) full named small p
    where
      full :
          (j : ℕ) → (found (name, value)).1 ≡ some j → get_elem? static_table j ≡ some (name, value)
      full j e =
          let (d, q, g) = scan_pair static_table 0 name value none j e in
          let same : j ≡ d = omega arith in rw same g

      named :
          (j : ℕ)
          → (found (name, value)).0 ≡ some j
          → (v : Bytes) × (get_elem? static_table j ≡ some (name, v))
      named j e = elim (scan_name static_table 0 name value none j e) [
        | inl x ↦ cc
        | inr (d, v, q, g) ↦ let same : j ≡ d = omega arith in (v, rw same g)
      ]

  abbrev pub InTable : Header → Type 0
  InTable h = (j : ℕ) × (get_elem? static_table j ≡ some h)

  -- The sizes that the decoder can allocate, and a last header with a value or in the static table.
  abbrev pub Readable : List Header → Type 0
  Readable [] = Unit
  Readable (h ∷ []) = Small h × ((0 < length h.1) ⊎ InTable h)
  Readable (h ∷ k ∷ hs) = Small h × Readable (k ∷ hs)
