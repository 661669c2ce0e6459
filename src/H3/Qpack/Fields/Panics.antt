-- ===== src/H3/Qpack/Fields/Panics.antt =====
-- `h3DecodeHeaders` on an indexed line whose index lies behind the static table.
use outline_cli_ws.Common.{panicked, qpack_failed}
use outline_cli_ws.Common.Bits.{all_below, agree, and_low_six}
use outline_cli_ws.H3.Qpack.Table.{static_table, length-static_table}
use outline_cli_ws.H3.Qpack.Ints.{
  append_groups, read_groups-append_groups, read_int, read_int_with_first,
}
use outline_cli_ws.H3.Qpack.Fields.{table_entry, read_line, read_lines, decode_headers}
use outline_cli_ws.Common.{
  ℕ, ◌+◌, ◌-◌, ◌^◌, ◌%◌, ◌≤◌, ◌<◌, bit_and, ◌≡◌, refl, ap, ◌∙◌, inl, inr, none, ◌∷◌, ◌++◌, arith,
  leb, if◌then◌else◌, Option-cases, get_elem?, get_elem?-some-lt,
}
use outline_cli_ws.Common.{Result, Error}
use outline_cli_ws.Common.Bytes.{Bytes}
use outline_cli_ws.Common.Reader.{got, failed}

-- What becomes of an index behind the table: an int64 with the sign bit passes the test.
abbrev pub refusal : ℕ → Error
refusal v = if leb (2 ^ 63) v then panicked else qpack_failed

indexed_test : (low : ℕ) → low < 128 → bit_and (low + 128) 0x80 ≡ 128
unfolding all_below
indexed_test = agree 128 _ _ refl

behind_table : (v : ℕ) → 99 ≤ v → get_elem? static_table v ≡ none
behind_table v h = elim (Option-cases (get_elem? static_table v)) [
  | inl n ↦ n
  | inr (e, s) ↦
      absurd (omega (arith, get_elem?-some-lt static_table v e s, h, length-static_table))
]

table_entry_behind : (v : ℕ) (rest : Bytes) → 99 ≤ v → table_entry v rest ≡ failed (refusal v) rest
unfolding table_entry
table_entry_behind v rest h = rw (behind_table v h) (ground arith)

-- The same behind a first byte whose prefix of six bits is full.
read_int_with_first-append_groups :
    (low v : ℕ) (rest : Bytes)
    → low < 128
    → low % 64 ≡ 63
    → 63 ≤ v
    → v < 2 ^ 64
    → read_int_with_first (low + 128) 6 (append_groups 9 (v - 63) ++ rest) ≡ got v rest
unfolding read_int_with_first
read_int_with_first-append_groups low v rest l ones above below =
    let start : bit_and (low + 128) 63 ≡ 63 = and_low_six (low + 128) (omega arith) ∙ omega arith in
    rw start (
      read_groups-append_groups 9 (v - 63) 63 0 rest (omega arith) (omega arith)
      ∙ ap (λ (t : ℕ). got t rest) (omega arith))

module _ (max_alloc : ℕ) (huffman : Bytes → Result Bytes) where
  -- A header block with zeros for its section prefix, whose first line is an indexed one whose
  -- index, in the groups of appendPrefixedInt, is any pattern of 64 bits from 99, the length of
  -- the static table, on: the reader adds the groups up to that pattern, and the decoder panics
  -- exactly where the sign bit is set, and fails with errH3QPACK where it is not, whatever follows
  -- the line.
  pub decode_headers-panics :
      (low v : ℕ) (rest : Bytes)
      → low < 128
      → low % 64 ≡ 63
      → 99 ≤ v
      → v < 2 ^ 64
      → decode_headers max_alloc huffman (0 ∷ 0 ∷ (low + 128) ∷ (append_groups 9 (v - 63) ++ rest))
        ≡ failed (refusal v) rest
  unfolding decode_headers read_int read_lines read_line
  decode_headers-panics low v rest l ones above below = rw (
    indexed_test low l,
    read_int_with_first-append_groups low v rest l ones (omega (arith, above)) below,
    table_entry_behind v rest above,
  )
