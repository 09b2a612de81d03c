-- ===== src/Media/Packet.antt =====
-- media/base/Packet.h: the packet that audio and video are handed on in.
use omega_streamer.Prelude.{ℕ, Bool, false, List, [], length}

pub data TrackType : Type 0 where
  unknown audio video meta_data : TrackType

-- CodecId has a fixed underlying type, and the code casts any byte to it.
abbrev pub codec_unknown : ℕ
codec_unknown = 0

pub record Packet : Type 0 where
  pub track : TrackType
  pub codec : ℕ
  pub dts : ℕ
  pub pts : ℕ
  pub timestamp : ℕ
  pub is_keyframe : Bool
  pub is_config : Bool
  pub is_metadata : Bool
  pub payload : List ℕ

-- make_shared<Packet>()
abbrev pub no_packet : Packet
no_packet = record {
  track = unknown;
  codec = codec_unknown;
  dts = 0;
  pts = 0;
  timestamp = 0;
  is_keyframe = false;
  is_config = false;
  is_metadata = false;
  payload = [];
}

unfoldable pub size : Packet → ℕ
size p = length p.payload
