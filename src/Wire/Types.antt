-- ===== src/Wire/Types.antt =====
-- common/src/lib.rs: codecs, Opus profiles, audio targets, frame sizes and packet errors.
-- A `u8`, `u16`, `u32` or `usize` is a number; the bounds stand in the theorems.
use open_broadcast_intercom.Base.{
  ℕ, ◌*◌, ◌/◌, Bool, true, false, ltb, ◌==◌, nat_eq, if◌then◌else◌, Result, ok, err,
}

abbrev pub magic_0 : ℕ
magic_0 = b'I'

abbrev pub magic_1 : ℕ
magic_1 = b'C'

abbrev pub version : ℕ
version = 2

abbrev pub sample_rate : ℕ
sample_rate = 16_000

abbrev pub pcm24_sample_rate : ℕ
pcm24_sample_rate = 24_000

abbrev pub pcm48_sample_rate : ℕ
pcm48_sample_rate = 48_000

abbrev pub mix_sample_rate : ℕ
mix_sample_rate = pcm48_sample_rate

abbrev pub frame_ms : ℕ
frame_ms = 10

abbrev pub samples_per_frame : ℕ
samples_per_frame = sample_rate * frame_ms / 1_000

abbrev pub mix_samples_per_frame : ℕ
mix_samples_per_frame = pcm48_sample_rate * frame_ms / 1_000

abbrev pub pcm16_bytes_per_sample : ℕ
pcm16_bytes_per_sample = 2

abbrev pub header_len : ℕ
header_len = 17

-- `u16::MAX as usize`
abbrev pub u16_max : ℕ
u16_max = 65_535

pub data Codec : Type 0 where
  pcm16 adpcm opus pcm48 pcm24 : Codec

pub data OpusProfile : Type 0 where
  speech_16_low speech_24_standard speech_48_high music_48 : OpusProfile

pub data OpusBandwidth : Type 0 where
  wideband superwideband fullband : OpusBandwidth

pub data AudioTarget : Type 0 where
  channel : ℕ → AudioTarget
  direct : ℕ → AudioTarget
  mixed : AudioTarget

pub data PacketError : Type 0 where
  too_short : ℕ → PacketError
  invalid_magic : ℕ → ℕ → PacketError
  unsupported_version : ℕ → PacketError
  unknown_codec : ℕ → PacketError
  unknown_target_kind : ℕ → PacketError
  invalid_target_id : ℕ → ℕ → PacketError
  payload_length_mismatch : ℕ → ℕ → PacketError
  payload_too_large : ℕ → PacketError

-- `codec as u8`
unfoldable pub codec_byte : Codec → ℕ
codec_byte pcm16 = 0
codec_byte adpcm = 1
codec_byte opus = 2
codec_byte pcm48 = 3
codec_byte pcm24 = 4

-- `Codec::try_from`
unfoldable pub codec_try_from : ℕ → Result PacketError Codec
codec_try_from value =
    if value == 0
    then ok pcm16
    else if value == 1
    then ok adpcm
    else if value == 2
    then ok opus
    else if value == 3
    then ok pcm48
    else if value == 4
    then ok pcm24
    else err (unknown_codec value)

unfoldable pub wire_parts : AudioTarget → ℕ × ℕ
wire_parts (channel channel_id) = (1, channel_id)
wire_parts (direct user_id) = (2, user_id)
wire_parts mixed = (3, 0)

unfoldable pub from_wire : ℕ → ℕ → Result PacketError AudioTarget
from_wire kind id =
    if kind == 1
    then ok (channel id)
    else if kind == 2
    then ok (direct id)
    else if kind == 3
    then (if id == 0 then ok mixed else err (invalid_target_id kind id))
    else err (unknown_target_kind kind)

-- `OpusProfile::bitrate_bps`
unfoldable pub bitrate_bps : OpusProfile → ℕ → ℕ
bitrate_bps profile channels = if ltb 1 channels then mono profile * 2 else mono profile
  where
    mono : OpusProfile → ℕ
    mono speech_16_low = 20_000
    mono speech_24_standard = 32_000
    mono speech_48_high = 56_000
    mono music_48 = 80_000

unfoldable pub sample_rate_hz : OpusProfile → ℕ
sample_rate_hz speech_16_low = sample_rate
sample_rate_hz speech_24_standard = pcm24_sample_rate
sample_rate_hz speech_48_high = pcm48_sample_rate
sample_rate_hz music_48 = pcm48_sample_rate

-- `OpusProfile::samples_per_frame`
unfoldable pub profile_samples_per_frame : OpusProfile → ℕ
unfolding sample_rate_hz
profile_samples_per_frame profile = sample_rate_hz profile * frame_ms / 1_000

unfoldable pub max_bandwidth : OpusProfile → OpusBandwidth
max_bandwidth speech_16_low = wideband
max_bandwidth speech_24_standard = superwideband
max_bandwidth speech_48_high = fullband
max_bandwidth music_48 = fullband

unfoldable pub codec_sample_rate : Codec → ℕ
unfolding sample_rate_hz
codec_sample_rate pcm16 = sample_rate
codec_sample_rate adpcm = sample_rate
codec_sample_rate pcm24 = pcm24_sample_rate
codec_sample_rate opus = sample_rate_hz speech_24_standard
codec_sample_rate pcm48 = pcm48_sample_rate

unfoldable pub frame_len_for_rate : ℕ → ℕ
frame_len_for_rate rate = rate * frame_ms / 1_000

unfoldable pub codec_samples_per_frame : Codec → ℕ
unfolding codec_sample_rate frame_len_for_rate
codec_samples_per_frame codec = frame_len_for_rate (codec_sample_rate codec)

unfoldable pub codec_pcm16_payload_bytes : Codec → ℕ
unfolding codec_samples_per_frame
codec_pcm16_payload_bytes codec = codec_samples_per_frame codec * pcm16_bytes_per_sample

-- `codec_supported` of the server and of the clients
unfoldable pub codec_supported : Codec → Bool
codec_supported adpcm = false
codec_supported _ = true
