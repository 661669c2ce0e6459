-- ===== src/H3/Control.antt =====
-- The control stream of the peer, internal/ws_h3.go: h3ParseSettingsPayload, h3LogPeerControlStream,
-- h3PeerObservations and h3PeerSupportHint, and the streams that h3OpenClientUniStreams writes.
pub mod Settings
use outline_cli_ws.H3.Varint.{append_varint, read_varint}
use outline_cli_ws.H3.Frames.{H3Frame, read_h3_frame}
use outline_cli_ws.Common.{
  ℕ, zero, suc, Bool, true, false, not, ◌&&◌, List, [], ◌∷◌, ◌++◌, ◌==◌, if◌then◌else◌, length,
}
use outline_cli_ws.Common.Bytes.{Bytes}
use outline_cli_ws.Common.Reader.{Read, got, failed}

abbrev pub frame_settings : ℕ
frame_settings = 0x4

abbrev pub setting_enable_connect_protocol : ℕ
setting_enable_connect_protocol = 0x08

-- One setting, and the rest of the loop behind it; an integer that does not read ends the loop.
parse_value : (Bool → Bytes → Bool) → Bool → ℕ → Read ℕ → Bool
parse_value more enable id (failed e r) = enable
parse_value more enable id (got v r) =
    more (if id == setting_enable_connect_protocol then v == 1 else enable) r

parse_setting : (Bool → Bytes → Bool) → Bool → Read ℕ → Bool
unfolding parse_value
parse_setting more enable (failed e r) = enable
parse_setting more enable (got id r) = parse_value more enable id (read_varint r)

-- `for r.Len() > 0 && idx < 32`; the first number is what is left of the 32.
unfoldable pub parse_settings : ℕ → Bool → Bytes → Bool
unfolding parse_setting
parse_settings zero enable r = enable
parse_settings (suc n) enable [] = enable
parse_settings (suc n) enable (b ∷ r) =
    parse_setting (λ e s. parse_settings n e s) enable (read_varint (b ∷ r))

-- `h3ParseSettingsPayload`, without the text for the log.
unfoldable pub parse_settings_payload : Bytes → Bool
unfolding parse_settings
parse_settings_payload payload = parse_settings 32 false payload

pub record Observations : Type 0 where
  pub saw_settings : Bool
  pub enable_connect_protocol : Bool

abbrev pub nothing_seen : Observations
nothing_seen = record { saw_settings = false; enable_connect_protocol = false }

-- `setSettings`
pub set_settings : Bool → Observations → Observations
set_settings enable o = record { saw_settings = true; enable_connect_protocol = enable }

unfoldable pub on_control_frame : H3Frame → Observations → Observations
unfolding set_settings parse_settings_payload
on_control_frame f o =
    if f.typ == frame_settings then set_settings (parse_settings_payload f.payload) o else o

module _ (max_alloc : ℕ) where
  control_frame : (Observations → Bytes → Observations) → Observations → Read H3Frame → Observations
  unfolding on_control_frame
  control_frame more o (failed e r) = o
  control_frame more o (got f r) = more (on_control_frame f o) r

  -- The loop over at most eight frames; the first number is what is left of the eight.
  unfoldable pub control_frames : ℕ → Observations → Bytes → Observations
  unfolding control_frame
  control_frames zero o r = o
  control_frames (suc n) o r =
      control_frame (λ o' r'. control_frames n o' r') o (read_h3_frame max_alloc r)

  -- `h3LogPeerControlStream`
  unfoldable pub log_peer_control_stream : Observations → Bytes → Observations
  unfolding control_frames
  log_peer_control_stream o r = control_frames 8 o r

-- `h3PeerSupportHint`, from the observations behind `waitSettings`: whether there is a hint.
unfoldable pub peer_support_hint : Bool → Observations → Bool
peer_support_hint is_message_err o =
    is_message_err && o.saw_settings && not o.enable_connect_protocol

pub data Profile : Type 0 where
  control_and_qpack control_only : Profile

-- What `h3OpenClientUniStreams` writes on each stream that it opens.
unfoldable pub client_streams : Profile → List Bytes
client_streams p =
    let payload : Bytes = append_varint (append_varint [] setting_enable_connect_protocol) 1 in
    let control : Bytes =
      append_varint [] 0x0
      ++ (append_varint [] frame_settings ++ (append_varint [] (length payload) ++ payload)) in
    elim p [
      | control_only ↦ control ∷ []
      | control_and_qpack ↦ control ∷ append_varint [] 0x2 ∷ append_varint [] 0x3 ∷ []
    ]
