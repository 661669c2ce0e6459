-- ===== src/H3/Qpack/Fields.antt =====
-- Header blocks: `h3EncodeHeaders`, `h3DecodeHeaders` and the strings of internal/ws_h3_qpack_min.go.
-- `hpack.HuffmanDecodeToString` is a parameter, and so is the size from which `make` panics.
pub mod Scan
pub mod Flags
pub mod Lines
pub mod RoundTrip
pub mod Panics
use outline_cli_ws.Common.{qpack_failed, panicked}
use outline_cli_ws.Common.Bytes.{bytes_equal}
use outline_cli_ws.H3.Qpack.Table.{static_table}
use outline_cli_ws.H3.Qpack.Ints.{prefixed_int, read_int_with_first, read_int}
use outline_cli_ws.Common.{
  ℕ, zero, suc, ◌+◌, ◌-◌, ◌*◌, ◌/◌, ◌%◌, ◌^◌, ◌≤◌, ◌<◌, min, bit_and, bit_or, bit_xor, ◌≡◌, refl,
  sym, ap, ◌∙◌, subst, ◌≢◌, ◌↔◌, ◌⊎◌, inl, inr, Bool, true, false, not, ◌&&◌, ◌||◌, Option, none,
  some, List, [], ◌∷◌, ◌++◌, map, foldl, append-nil, append_assoc, arith, ltb, leb, ◌==◌,
  if◌then◌else◌, ==_iff, leb→le, Bool-cases, Option-cases, is_some, length, get_elem?, get_or, set,
  take, drop, All, length-append, take-append, drop-append, length-set, get_elem?-set_self,
  get_elem?-set_ne, length-drop, take-append-drop, get_elem?-some-lt, All-get_or, All-append,
}
use outline_cli_ws.Common.{Error, Result, ok, err}
use outline_cli_ws.Common.Bytes.{
  Bytes, IsByte, put_uint16, put_uint64, big_endian, big_endian-put_uint16, big_endian-put_uint64,
}
use outline_cli_ws.Common.Reader.{
  Read, got, failed, Reader, next, ◌>>=◌, ◌>>◌, give, fail, fail_if, read_byte, read_full,
  read_full-append, Read-cases,
}

abbrev pub Header : Type 0
Header = Bytes × Bytes

-- The scan of the static table from index `i` on: the first entry of that name, and the first entry
-- of that name and value, at which the scan stops.
pub scan : List Header → ℕ → Header → Option ℕ → Option ℕ × Option ℕ
unfolding bytes_equal
scan [] i h by_name = (by_name, none)
scan ((n, v) ∷ t) i (name, value) by_name =
    let by_name' : Option ℕ =
      if not (is_some by_name) && bytes_equal n name then some i else by_name in
    let rest = scan t (i + 1) (name, value) by_name' in
    if bytes_equal n name && bytes_equal v value then (by_name', some i) else rest

pub prefixed_string : ℕ → ℕ → Bytes → Bytes
prefixed_string first prefix s = prefixed_int first prefix (length s) ++ s

-- What a header adds to the block, by what the scan found.
pub line : Header → Option ℕ × Option ℕ → Bytes
unfolding prefixed_string
line h (by_name, some i) = prefixed_int 0xc0 6 i
line (name, value) (some i, none) = prefixed_int 0x50 4 i ++ prefixed_string 0 7 value
line (name, value) (none, none) = prefixed_string 0x20 3 name ++ prefixed_string 0 7 value

pub encode_lines : List Header → Bytes
unfolding scan line
encode_lines [] = []
encode_lines (h ∷ hs) = line h (scan static_table 0 h none) ++ encode_lines hs

-- `h3EncodeHeaders`: two zero bytes, then the lines.
unfoldable pub encode_headers : List Header → Bytes
unfolding encode_lines
encode_headers hs = 0 ∷ 0 ∷ encode_lines hs

-- A header map: the last value of a name counts.
abbrev pub HeaderMap : Type 0
HeaderMap = List Header

pub put : Bytes → Bytes → HeaderMap → HeaderMap
unfolding bytes_equal
put k v [] = (k, v) ∷ []
put k v ((j, w) ∷ m) = if bytes_equal j k then (k, v) ∷ m else (j, w) ∷ put k v m

-- `h3StaticTable[idx]` behind the test `idx >= int64(len(h3StaticTable))`. A negative index passes the
-- test, and the access panics.
unfoldable pub table_entry : ℕ → Reader Header
table_entry idx =
    if leb (2 ^ 63) idx
    then fail panicked
    else elim (get_elem? static_table idx) [ none ↦ fail qpack_failed | some h ↦ give h ]

zeros : ℕ → Bytes
zeros zero = []
zeros (suc n) = 0 ∷ zeros n

module _ (max_alloc : ℕ) (huffman : Bytes → Result Bytes) where
  -- `s := make([]byte, n)` and `r.Read(s)`: no bytes left is an error, fewer than n are enough, and
  -- the rest of `s` stays zero.
  unfoldable pub read_slice : ℕ → Reader Bytes
  unfolding zeros
  read_slice n [] =
      if leb (2 ^ 63) n || ltb max_alloc n then failed panicked [] else failed qpack_failed []
  read_slice n (b ∷ r) =
      if leb (2 ^ 63) n || ltb max_alloc n
      then failed panicked (b ∷ r)
      else got (take n (b ∷ r) ++ zeros (n - length (b ∷ r))) (drop n (b ∷ r))

  decoded : Result Bytes → Reader Bytes
  decoded (ok s) = give s
  decoded (err e) = fail qpack_failed

  unfoldable pub read_string_with_first : ℕ → ℕ → Reader Bytes
  unfolding decoded read_slice
  read_string_with_first b prefix = do
    n ← read_int_with_first b prefix
    s ← read_slice n
    (if bit_and b (2 ^ prefix) == 0 then give s else decoded (huffman s))

  unfoldable pub read_string : ℕ → Reader Bytes
  unfolding read_string_with_first
  read_string prefix [] = failed qpack_failed []
  read_string prefix (b ∷ r) = read_string_with_first b prefix r

  -- One field line, its first byte read.
  unfoldable pub read_line : ℕ → Reader Header
  unfolding table_entry read_string
  read_line b =
      if not (bit_and b 0x80 == 0)
      then (do idx ← read_int_with_first b 6; table_entry idx)
      else (if bit_and b 0xe0 == 0x40
          then (if bit_and b 0x10 == 0 then fail qpack_failed else (do
            idx ← read_int_with_first b 4
            e ← table_entry idx
            value ← read_string 7
            give (e.0, value)))
          else (if bit_and b 0xe0 == 0x20
              then (do name ← read_string_with_first b 3; value ← read_string 7; give (name, value))
              else fail qpack_failed))

  -- `for r.Len() > 0`. Each line takes a byte at least.
  unfoldable pub read_lines : ℕ → HeaderMap → Reader HeaderMap
  unfolding read_line put
  read_lines fuel m [] = got m []
  read_lines zero m (b ∷ r) = failed qpack_failed (b ∷ r)
  read_lines (suc fuel) m (b ∷ r) = next (read_line b r) (λ h. read_lines fuel (put h.0 h.1 m))

  unfoldable pub decode_headers : Bytes → Read HeaderMap
  unfolding read_lines
  decode_headers block = (do _ ← read_int 8; _ ← read_int 7; read_lines (length block) []) block
