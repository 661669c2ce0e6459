-- ===== src/Tun/Flows/Entries.antt =====
-- The map of flows, internal/tun_native.go: what a write and a deletion leave.
use outline_cli_ws.Common.Bytes.{bytes_equal, bytes_equal→eq, bytes_equal_refl}
use outline_cli_ws.Tun.Flows.{Flow, has_flow, delete_flow, set_flow}
use outline_cli_ws.Common.{
  ℕ, suc, ◌≤◌, ◌≡◌, refl, subst, inl, inr, true, List, [], ◌∷◌, arith, if◌then◌else◌, Bool-cases,
  length, All,
}
use outline_cli_ws.Common.Bytes.{Bytes}

pub set_flow-All {κ} :
    (P : Flow → Type κ) (d : Bytes) (now : ℕ) (fs : List Flow)
    → P (d, now)
    → All P fs
    → All P (set_flow d now fs)
unfolding set_flow
set_flow-All P d now [] p h = (p, tt)
set_flow-All P d now (f ∷ fs) p h = elim (Bool-cases (bytes_equal f.0 d)) [
  | inl t ↦ rw (t, set_flow) (p, h.1)
  | inr n ↦ rw (n, set_flow) (h.0, set_flow-All P d now fs p h.1)
]

pub delete_flow-All {κ} :
    (P : Flow → Type κ) (d : Bytes) (fs : List Flow) → All P fs → All P (delete_flow d fs)
unfolding delete_flow
delete_flow-All P d [] h = tt
delete_flow-All P d (f ∷ fs) h = elim (Bool-cases (bytes_equal f.0 d)) [
  | inl t ↦ rw (t, delete_flow) (delete_flow-All P d fs h.1)
  | inr n ↦ rw (n, delete_flow) (h.0, delete_flow-All P d fs h.1)
]

-- A flow that is there has what all have.
pub has_flow-All {κ} :
    (P : Flow → Type κ) (d : Bytes) (fs : List Flow)
    → has_flow d fs ≡ true
    → All P fs
    → (t : ℕ) × P (d, t)
unfolding has_flow
has_flow-All P d [] e h = cc
has_flow-All P d (f ∷ fs) e h = elim (Bool-cases (bytes_equal f.0 d)) [
  | inl t ↦ (f.1, subst (λ x. P (x, f.1)) (bytes_equal→eq f.0 d t) h.0)
  | inr n ↦ has_flow-All P d fs (rw n at e) h.1
]

pub has_flow-set_flow :
    (d : Bytes) (now : ℕ) (fs : List Flow) → has_flow d (set_flow d now fs) ≡ true
unfolding has_flow set_flow
has_flow-set_flow d now [] = rw (bytes_equal_refl d) refl
has_flow-set_flow d now (f ∷ fs) = elim (Bool-cases (bytes_equal f.0 d)) [
  | inl t ↦ rw (t, set_flow) (rw (bytes_equal_refl d) refl)
  | inr n ↦ rw (n, set_flow) (rw n (has_flow-set_flow d now fs))
]

pub length-set_flow :
    (d : Bytes) (now : ℕ) (fs : List Flow)
    → length (set_flow d now fs) ≡ (if has_flow d fs then length fs else suc (length fs))
unfolding has_flow set_flow
length-set_flow d now [] = refl
length-set_flow d now (f ∷ fs) = elim (Bool-cases (bytes_equal f.0 d)) [
  | inl t ↦ rw (t, set_flow) refl
  | inr n ↦ rw (n, set_flow) (ground (arith, length-set_flow d now fs))
]

pub length-delete_flow : (d : Bytes) (fs : List Flow) → length (delete_flow d fs) ≤ length fs
unfolding delete_flow
length-delete_flow d [] = omega arith
length-delete_flow d (f ∷ fs) = elim (Bool-cases (bytes_equal f.0 d)) [
  | inl t ↦ rw (t, delete_flow) (omega (arith, length-delete_flow d fs))
  | inr n ↦ rw (n, delete_flow) (omega (arith, length-delete_flow d fs))
]
