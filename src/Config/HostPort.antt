-- ===== src/Config/HostPort.antt =====
-- `normalizeHostPort` of internal/config.go. net.SplitHostPort and net.ParseIP are the tests whether
-- they succeed.
pub mod Brackets
use outline_cli_ws.Common.Bytes.{Bytes}
use outline_cli_ws.Common.{
  ℕ, ◌+◌, ◌≡◌, Bool, true, false, not, ◌&&◌, Option, none, some, List, [], ◌∷◌, ◌++◌, ltb, leb,
  ◌==◌, if◌then◌else◌, length,
}

-- The bytes of `:`, `[` and `]`.
abbrev pub colon : ℕ
colon = 58

abbrev pub left_bracket : ℕ
left_bracket = 91

abbrev pub right_bracket : ℕ
right_bracket = 93

-- strings.Count of one byte.
unfoldable pub count : ℕ → Bytes → ℕ
count b [] = 0
count b (x ∷ xs) = (if x == b then 1 else 0) + count b xs

-- strings.HasPrefix for one byte.
unfoldable pub has_prefix : ℕ → Bytes → Bool
has_prefix b [] = false
has_prefix b (x ∷ xs) = x == b

-- The texts before and behind the last colon, strings.LastIndexByte with the two slices.
unfoldable pub cut_last : Bytes → Option (Bytes × Bytes)
cut_last [] = none
cut_last (x ∷ xs) = elim (cut_last xs) [
  | some (h, p) ↦ some (x ∷ h, p)
  | none ↦ if x == colon then some ([], xs) else none
]

unfoldable pub all_digits : Bytes → Bool
all_digits [] = true
all_digits (x ∷ xs) = leb 48 x && leb x 57 && all_digits xs

abbrev pub bracketed : Bytes → Bytes → Bytes
bracketed host port = left_bracket ∷ (host ++ (right_bracket ∷ colon ∷ port))

unfoldable pub normalize_host_port : (Bytes → Bool) → (Bytes → Bool) → Bytes → Bytes
normalize_host_port splits is_ip s =
    if splits s
    then s
    else (if leb 2 (count colon s) && not (has_prefix left_bracket s)
        then elim (cut_last s) [
          | none ↦ s
          | some (host, port) ↦
              if ltb 0 (length host) && ltb 0 (length port) && all_digits port && is_ip host
              then bracketed host port
              else s
        ]
        else s)
