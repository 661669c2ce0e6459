-- ===== src/Common/Errors.antt =====
-- Go's `error` values, one constructor for each that the modelled files return or pass on, and the
-- pair (value, error) as a result.
use Prim.Native.Nat.{ℕ}
use mathlib.Core.Bool.{Bool, true, false}
use mathlib.Core.Path.{◌≡◌, refl}

pub data Error : Type 0 where
  -- io.EOF, io.ErrUnexpectedEOF and io.ErrShortWrite
  eof unexpected_eof short_write : Error
  -- ws_h2.go: the protocol errors of readFrame and of the message loop
  expected_masked server_frame_masked frame_too_large : Error
  unexpected_continuation expected_continuation reserved_opcode : Error
  -- ws_h3.go and ws_h3_qpack_min.go
  data_frame_too_large not_data_frame qpack_failed : Error
  -- a Go run-time panic: an index or a slice length out of range
  panicked : Error
  -- socksaddr.go and socks5.go
  short short_ipv4 short_domain_len short_domain short_ipv6 bad_atyp bad_ver : Error
  not_socks5 no_acceptable_auth : Error
  -- lb.go and tun_udp_porttable.go
  no_healthy_upstreams session_limit_reached : Error
  -- active_probe.go, and the SOCKS library for an address that it cannot read
  unexpected_response address_not_supported : Error
  -- ws.go, ws_h2.go and rfc8441_raw_h2.go: the errors of the dial, the first two around an error of the protocol
  h3_only_failed h2_only_failed : Error → Error
  h3_only_scheme h2_only_scheme connect_only : Error
  rfc8441_not_supported handshake_failed connect_protocol_off : Error
  bad_status bad_accept : Error
  h3_scheme h3_timeout h3_unsupported h3_bad_status : Error
  -- no Go value: a loop of the model ran out of fuel
  stuck : Error
  -- an error made outside of the repository: a context's, a dial's, a cipher's
  external : ℕ → Error

pub data Result {ℓ} (A : Type ℓ) : Type ℓ where
  ok : A → Result A
  err : Error → Result A

infixl 5 ◌>>=◌
abbrev pub ◌>>=◌ {ℓ κ} : {A : Type ℓ} {B : Type κ} → Result A → (A → Result B) → Result B
err e >>= next = err e
ok v >>= next = next v

infixl 5 ◌>>◌
abbrev pub ◌>>◌ {ℓ} : {B : Type ℓ} → Result (Unit {0}) → Result B → Result B
m >> k = m >>= λ _. k

-- `if b { return e }`
abbrev pub fail_if : Bool → Error → Result (Unit {0})
fail_if true e = err e
fail_if false e = ok tt

-- Inversion of a successful bind, for proofs where the parts stay shut.
pub >>=-eq-ok {ℓ κ} :
    {V : Type ℓ} {W : Type κ} (r : Result V) (next : V → Result W) {w : W}
    → r >>= next ≡ ok w
    → (v : V) × (r ≡ ok v) × (next v ≡ ok w)
>>=-eq-ok (err e) next h = cc
>>=-eq-ok (ok v) next h = (v, refl, h)
