-- ===== src/H3/Control/Settings.antt =====
-- The control stream of a peer that announces its settings, internal/ws_h3.go, as it is written.
use outline_cli_ws.H3.Varint.{max_varint, append_varint, read_varint, read_varint-append_varint}
use outline_cli_ws.H3.Frames.{H3Frame, h3_frame, Framed, read_h3_frame-h3_frame, read_h3_frame-nil}
use outline_cli_ws.H3.Control.{
  frame_settings, setting_enable_connect_protocol, parse_value, parse_setting, parse_settings,
  parse_settings_payload, Observations, nothing_seen, set_settings, on_control_frame, control_frame,
  control_frames, log_peer_control_stream, peer_support_hint, Profile, control_only,
  control_and_qpack, client_streams,
}
use outline_cli_ws.Common.{
  ℕ, zero, suc, ◌≡◌, ◌≢◌, ◌≤◌, ◌<◌, refl, ap, ◌∙◌, Bool, true, false, not, ◌&&◌, List, [], ◌∷◌,
  ◌++◌, ◌==◌, if◌then◌else◌, length, length-append, All, arith,
}
use outline_cli_ws.Common.Bytes.{Bytes}
use outline_cli_ws.Common.Reader.{got, read_full}

-- Settings as a peer writes them.
abbrev pub settings_bytes : List (ℕ × ℕ) → Bytes
settings_bytes [] = []
settings_bytes ((id, v) ∷ s) = append_varint [] id ++ (append_varint [] v ++ settings_bytes s)

abbrev pub Fits : ℕ × ℕ → Type 0
Fits s = (s.0 < max_varint) × (s.1 < max_varint)

-- The last setting of SETTINGS_ENABLE_CONNECT_PROTOCOL decides.
abbrev pub enabled : Bool → List (ℕ × ℕ) → Bool
enabled e [] = e
enabled e ((id, v) ∷ s) = enabled (if id == setting_enable_connect_protocol then v == 1 else e) s

parse_settings-got :
    (n : ℕ) (e : Bool) (r : Bytes) (id : ℕ) (r' : Bytes)
    → read_varint r ≡ got id r'
    → parse_settings (suc n) e r ≡ parse_value (λ e' s. parse_settings n e' s) e id (read_varint r')
unfolding parse_settings parse_setting read_varint read_full
parse_settings-got n e [] id r' h = cc
parse_settings-got n e (b ∷ r) id r' h = rw h refl

parse_settings-settings_bytes :
    (n : ℕ) (e : Bool) (s : List (ℕ × ℕ))
    → length s ≤ n
    → All Fits s
    → parse_settings n e (settings_bytes s) ≡ enabled e s
unfolding parse_settings parse_setting parse_value
parse_settings-settings_bytes zero e [] h f = refl
parse_settings-settings_bytes (suc n) e [] h f = refl
parse_settings-settings_bytes zero e (x ∷ s) h f = absurd (omega arith)
parse_settings-settings_bytes (suc n) e ((id, v) ∷ s) h ((i, w), f) =
    let tail : Bytes = append_varint [] v ++ settings_bytes s in
    parse_settings-got n e (append_varint [] id ++ tail) id tail
      (read_varint-append_varint id tail i)
    ∙ rw (read_varint-append_varint v (settings_bytes s) w)
        (parse_settings-settings_bytes n _ s (omega arith) f)

module _ (max_alloc : ℕ) where
  abbrev pub control_bytes : List H3Frame → Bytes
  control_bytes [] = []
  control_bytes (f ∷ fs) = h3_frame max_alloc f ++ control_bytes fs

  abbrev pub after_frames : List H3Frame → Observations → Observations
  after_frames [] o = o
  after_frames (f ∷ fs) o = after_frames fs (on_control_frame f o)

  control_frames-control_bytes :
      (n : ℕ) (o : Observations) (fs : List H3Frame)
      → All (Framed max_alloc) fs
      → length fs ≤ n
      → control_frames max_alloc n o (control_bytes fs) ≡ after_frames fs o
  unfolding control_frames control_frame
  control_frames-control_bytes zero o [] h e = refl
  control_frames-control_bytes (suc n) o [] h e = rw (read_h3_frame-nil max_alloc) refl
  control_frames-control_bytes zero o (f ∷ fs) h e = absurd (omega arith)
  control_frames-control_bytes (suc n) o (f ∷ fs) h e =
      rw (read_h3_frame-h3_frame max_alloc f (control_bytes fs) h.0)
        (control_frames-control_bytes n (on_control_frame f o) fs h.1 (omega arith))

  -- Frames that are no settings leave the observations as they are.
  after_frames-others :
      (fs : List H3Frame) (f : H3Frame) (o : Observations)
      → All (λ g. g.typ ≢ frame_settings) fs
      → after_frames (fs ++ (f ∷ [])) o ≡ on_control_frame f o
  unfolding on_control_frame
  after_frames-others [] f o h = refl
  after_frames-others (g ∷ fs) f o h =
      let same : on_control_frame g o ≡ o = ground (arith, h.0) in
      rw (after_frames, same) (after_frames-others fs f o h.1)

  log_peer_control_stream-control_bytes :
      (o : Observations) (fs : List H3Frame)
      → All (Framed max_alloc) fs
      → length fs ≤ 8
      → log_peer_control_stream max_alloc o (control_bytes fs) ≡ after_frames fs o
  unfolding log_peer_control_stream
  log_peer_control_stream-control_bytes o fs h e = control_frames-control_bytes 8 o fs h e

  -- A peer's control stream: frames of other types, then its settings.
  abbrev pub announcing : List H3Frame → List (ℕ × ℕ) → List H3Frame
  announcing others s = others ++ (record { typ = frame_settings; payload = settings_bytes s } ∷ [])

  on_control_frame-settings :
      (s : List (ℕ × ℕ))
      → length s ≤ 32
      → All Fits s
      → on_control_frame (record { typ = frame_settings; payload = settings_bytes s }) nothing_seen
        ≡ record { saw_settings = true; enable_connect_protocol = enabled false s }
  unfolding on_control_frame set_settings parse_settings_payload
  on_control_frame-settings s h f =
      ap (λ (e : Bool). record { saw_settings = true; enable_connect_protocol = e })
        (parse_settings-settings_bytes 32 false s h f)

  hint_of :
      (m e : Bool)
      → peer_support_hint m (record { saw_settings = true; enable_connect_protocol = e })
        ≡ (m && not e)
  unfolding peer_support_hint
  hint_of m e = ground arith

  -- On a control stream with fewer than eight other frames in front of the settings, and at most
  -- 32 settings, the peer is said not to support Extended CONNECT exactly where the error is
  -- H3_MESSAGE_ERROR and the last ENABLE_CONNECT_PROTOCOL of the settings is not 1; the frames and
  -- the settings fit their lengths.
  pub peer_support_hint-log_peer_control_stream :
      (others : List H3Frame) (s : List (ℕ × ℕ)) (is_message_err : Bool)
      → All (λ g. g.typ ≢ frame_settings) others
      → All (Framed max_alloc) (announcing others s)
      → length others < 8
      → length s ≤ 32
      → All Fits s
      → peer_support_hint is_message_err
          (log_peer_control_stream max_alloc nothing_seen (control_bytes (announcing others s)))
        ≡ (is_message_err && not (enabled false s))
  peer_support_hint-log_peer_control_stream others s m plain framed few short fits =
      let last : H3Frame = record { typ = frame_settings; payload = settings_bytes s } in
      let seen =
        log_peer_control_stream-control_bytes nothing_seen (announcing others s) framed
          (omega (arith, length-append others (last ∷ [])))
        ∙ after_frames-others others last nothing_seen plain
        ∙ on_control_frame-settings s short fits in
      rw seen (hint_of m (enabled false s))

  abbrev own : List (ℕ × ℕ)
  own = (setting_enable_connect_protocol, 1) ∷ []

  abbrev own_frame : H3Frame
  own_frame = record { typ = frame_settings; payload = settings_bytes own }

  own_settings :
      2 ≤ max_alloc
      → log_peer_control_stream max_alloc nothing_seen (control_bytes (own_frame ∷ []))
        ≡ record { saw_settings = true; enable_connect_protocol = true }
  unfolding append_varint
  own_settings h =
      log_peer_control_stream-control_bytes nothing_seen (own_frame ∷ [])
        ((omega arith, omega arith, omega (arith, h)), tt) (omega arith)
      ∙ on_control_frame-settings own (omega arith) ((omega arith, omega arith), tt)

  -- The control stream that h3OpenClientUniStreams writes, with either profile, announces Extended
  -- CONNECT to a peer that reads it behind the type of the stream, where two bytes can be allocated.
  pub log_peer_control_stream-client_streams :
      (p : Profile)
      → 2 ≤ max_alloc
      → (control : Bytes) × (others : List Bytes) × (client_streams p
          ≡ (append_varint [] 0x0 ++ control) ∷ others)
        × (log_peer_control_stream max_alloc nothing_seen control
            ≡ record { saw_settings = true; enable_connect_protocol = true })
  unfolding client_streams append_varint
  log_peer_control_stream-client_streams control_only h = (_, [], refl, own_settings h)
  log_peer_control_stream-client_streams control_and_qpack h =
      (_, (0x2 ∷ []) ∷ (0x3 ∷ []) ∷ [], refl, own_settings h)
