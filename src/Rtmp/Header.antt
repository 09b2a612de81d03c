-- ===== src/Rtmp/Header.antt =====
-- media/rtmp/RtmpHeader.h: the constants of the chunk protocol, the message header and the message.
--
-- Unsigned fields are numbers; the code that fills them keeps them below their width.
use omega_streamer.Prelude.{ℕ, Bool, false, List, [], ◌∷◌, leb, length, get_or}

abbrev pub default_chunk_size : ℕ
default_chunk_size = 128

abbrev pub max_chunk_size : ℕ
max_chunk_size = 65535

abbrev pub max_timestamp_in_header : ℕ
max_timestamp_in_header = 0xFFFFFF

-- kMsgHeaderSize, indexed by fmt.
abbrev pub msg_header_size : ℕ → ℕ
msg_header_size fmt = get_or (11 ∷ 7 ∷ 3 ∷ 0 ∷ []) fmt 0

abbrev pub msg_type_set_chunk_size : ℕ
msg_type_set_chunk_size = 1

abbrev pub msg_type_abort : ℕ
msg_type_abort = 2

abbrev pub msg_type_ack : ℕ
msg_type_ack = 3

abbrev pub msg_type_user_control : ℕ
msg_type_user_control = 4

abbrev pub msg_type_window_ack_size : ℕ
msg_type_window_ack_size = 5

abbrev pub msg_type_peer_bandwidth : ℕ
msg_type_peer_bandwidth = 6

abbrev pub msg_type_audio : ℕ
msg_type_audio = 8

abbrev pub msg_type_video : ℕ
msg_type_video = 9

abbrev pub msg_type_amf0_data : ℕ
msg_type_amf0_data = 18

abbrev pub msg_type_amf0_command : ℕ
msg_type_amf0_command = 20

abbrev pub csid_control : ℕ
csid_control = 2

abbrev pub csid_command : ℕ
csid_command = 3

abbrev pub csid_audio : ℕ
csid_audio = 4

abbrev pub csid_video : ℕ
csid_video = 6

-- struct RtmpMsgHeader
pub record RtmpMsgHeader : Type 0 where
  pub csid : ℕ
  pub timestamp : ℕ
  pub msg_len : ℕ
  pub msg_type : ℕ
  pub msg_stream_id : ℕ
  pub fmt : ℕ
  pub has_ext_ts : Bool

-- The header of the default member initialisers.
abbrev pub no_header : RtmpMsgHeader
no_header = record {
  csid = 0;
  timestamp = 0;
  msg_len = 0;
  msg_type = 0;
  msg_stream_id = 0;
  fmt = 0;
  has_ext_ts = false;
}

-- struct RtmpMessage; the payload is its bytes.
pub record RtmpMessage : Type 0 where
  pub header : RtmpMsgHeader
  pub payload : List ℕ

-- make_shared<RtmpMessage>()
abbrev pub no_message : RtmpMessage
no_message = record { header = no_header; payload = [] }

unfoldable pub is_complete : RtmpMessage → Bool
is_complete m = leb m.header.msg_len (length m.payload)

unfoldable pub reset : RtmpMessage → RtmpMessage
reset m = record m { payload = [] }
