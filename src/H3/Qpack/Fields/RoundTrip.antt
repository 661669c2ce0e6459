-- ===== src/H3/Qpack/Fields/RoundTrip.antt =====
-- `h3DecodeHeaders` on what `h3EncodeHeaders` wrote.
use outline_cli_ws.H3.Qpack.Table.{static_table}
use outline_cli_ws.H3.Qpack.Ints.{read_int, read_int_with_first}
use outline_cli_ws.H3.Qpack.Fields.Scan.{scan_hit}
use outline_cli_ws.H3.Qpack.Fields.Lines.{Small, Reads, found, line-found-Reads, Readable}
use outline_cli_ws.H3.Qpack.Fields.{
  Header, line, encode_lines, encode_headers, HeaderMap, put, read_lines, decode_headers,
}
use outline_cli_ws.Common.{
  ℕ, zero, suc, ◌≤◌, ◌≡◌, refl, ap, inl, inr, none, List, [], ◌∷◌, ◌++◌, foldl, arith, length,
  length-append,
}
use outline_cli_ws.Common.{Result}
use outline_cli_ws.Common.Bytes.{Bytes}
use outline_cli_ws.Common.Reader.{got}

module _ (max_alloc : ℕ) (huffman : Bytes → Result Bytes) where
  Readable-head :
      (h : Header) (hs : List Header)
      → Readable max_alloc huffman (h ∷ hs)
      → Small max_alloc huffman h × Readable max_alloc huffman hs
  Readable-head h [] r = (r.0, tt)
  Readable-head h (k ∷ hs) r = r

  -- The value of a header that is not in the table is there, or a line follows it.
  head-Reads :
      (h : Header) (hs : List Header)
      → Readable max_alloc huffman (h ∷ hs)
      → Reads max_alloc huffman (line h (found max_alloc huffman h)) (encode_lines hs) h
  unfolding encode_lines
  head-Reads (name, value) [] (small, inl filled) =
      line-found-Reads max_alloc huffman name value [] small
        (λ _. omega (arith, length-append value []))
  head-Reads (name, value) [] (small, inr (j, e)) =
      line-found-Reads max_alloc huffman name value [] small
        (λ x. absurd (scan_hit static_table 0 name value none j e x))
  head-Reads (name, value) (k ∷ hs) (small, r) =
      let (b, tail, e, _) = head-Reads k hs r in
      line-found-Reads max_alloc huffman name value (encode_lines (k ∷ hs)) small
        (λ _. rw e (omega (arith, length-append value ((b ∷ tail) ++ encode_lines hs))))

  abbrev pub to_map : HeaderMap → List Header → HeaderMap
  to_map = foldl (λ m h. put h.0 h.1 m)

  read_lines-encode_lines :
      (fuel : ℕ) (m : HeaderMap) (hs : List Header)
      → Readable max_alloc huffman hs
      → length (encode_lines hs) ≤ fuel
      → read_lines max_alloc huffman fuel m (encode_lines hs) ≡ got (to_map m hs) []
  unfolding encode_lines read_lines
  read_lines-encode_lines fuel m [] r h = refl
  read_lines-encode_lines zero m (k ∷ hs) r h =
      let (b, tail, e, _) = head-Reads k hs r in
      absurd (
        omega (
          arith,
          ap length e,
          length-append (line k (found max_alloc huffman k)) (encode_lines hs),
        ))
  read_lines-encode_lines (suc fuel) m (k ∷ hs) r h =
      let (b, tail, e, get) = head-Reads k hs r in
      rw e (
        rw get (
          read_lines-encode_lines fuel (put k.0 k.1 m) hs (Readable-head k hs r).1 (
            omega (
              arith,
              ap length e,
              length-append (line k (found max_alloc huffman k)) (encode_lines hs),
            ))))

  -- The decoder takes the block of the encoder apart into the map of the same headers, where a
  -- later header of a name replaces an earlier one; sizes are below what make refuses, and the
  -- last header has a value or stands in the static table.
  pub decode_headers-encode_headers :
      (hs : List Header)
      → Readable max_alloc huffman hs
      → decode_headers max_alloc huffman (encode_headers hs) ≡ got (to_map [] hs) []
  unfolding decode_headers encode_headers read_int read_int_with_first
  decode_headers-encode_headers hs r =
      read_lines-encode_lines (length (encode_headers hs)) [] hs r (omega arith)
