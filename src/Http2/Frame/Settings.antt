-- ===== src/Http2/Frame/Settings.antt =====
-- SETTINGS frames (http2/frame.go): what `ReadFrame` makes of the octets of `WriteSettings`.
use fhttp.Base.{
  ℕ, ◌*◌, ◌/◌, ◌%◌, ◌^◌, ◌<◌, ◌≤◌, ◌≡◌, refl, true, false, List, [], ◌∷◌, Bytes, length, arith,
  ◌==◌, All,
}
use fhttp.Http2.Frame.{FrameHeader, ok, Setting, settings_frame, has}
use fhttp.Http2.Frame.Octets.{uint16, uint32-octets32}
use fhttp.Http2.Frame.Write.{write_settings, settings_octets}
use fhttp.Http2.Frame.Read.{Framer}
use fhttp.Http2.Frame.Parse.{
  parse_frame, settings, value_in, parse_settings_frame, setting_initial_window_size, too_wide,
}
use fhttp.Http2.Frame.RoundTrip.{header_for, ReadsBack, framed-ReadsBack}

abbrev pub IsSetting : Setting → Type 0
IsSetting s = (s.0 < 2 ^ 16) × (s.1 < 2 ^ 32)

-- The settings of the octets of settings are those settings, in order.
pub settings-settings_octets :
    (ss : List Setting) → All IsSetting ss → settings (settings_octets ss) ≡ ss
unfolding settings settings_octets
settings-settings_octets [] a = refl
settings-settings_octets (s ∷ ss) a =
    let id : uint16 (s.0 / 2 ^ 8 % 256) (s.0 % 256) ≡ s.0 = omega (arith, a.0.0) in
    simp (id, uint32-octets32 s.1 a.0.1, settings-settings_octets ss a.1)

length-settings_octets : (ss : List Setting) → length (settings_octets ss) ≡ length ss * 6
unfolding settings_octets
length-settings_octets [] = refl
length-settings_octets (s ∷ ss) = omega (arith, length-settings_octets ss)

parse_frame-settings :
    (ss : List Setting) (n : ℕ)
    → All IsSetting ss
    → too_wide (value_in setting_initial_window_size ss) ≡ false
    → let h : FrameHeader = record { type = 4; flags = 0; length = n; stream_id = 0 } in
      parse_frame h (settings_octets ss) ≡ ok (settings_frame h (settings_octets ss))
unfolding parse_frame parse_settings_frame has
parse_frame-settings ss n a w =
    let six : (length (settings_octets ss) % 6 == 0) ≡ true =
      ground (arith, length-settings_octets ss) in
    simp (six, settings-settings_octets ss a, w)

-- The octets of a SETTINGS frame whose first initial window size, if any, is below 2^31 are read as
-- a SETTINGS frame, and its settings are those written, in order.
pub write_settings-ReadsBack :
    (fr : Framer) (rest : Bytes) (ss : List Setting)
    → All IsSetting ss
    → too_wide (value_in setting_initial_window_size ss) ≡ false
    → length ss * 6 < 2 ^ 24
    → length ss * 6 ≤ fr.max_read_size
    → ReadsBack fr rest
        (write_settings ss)
        (settings_frame (header_for 4 0 0 (settings_octets ss)) (settings_octets ss))
      × (settings (settings_octets ss) ≡ ss)
unfolding write_settings
write_settings-ReadsBack fr rest ss a w hn hm = (
  framed-ReadsBack fr rest 4 0 0 (settings_octets ss) _ (omega (arith, length-settings_octets ss))
      (omega (arith, length-settings_octets ss)) (omega arith) (omega arith) (omega arith)
      (parse_frame-settings ss _ a w),
  settings-settings_octets ss a,
)
