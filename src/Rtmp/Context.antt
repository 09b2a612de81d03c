-- ===== src/Rtmp/Context.antt =====
-- media/rtmp/RtmpContext.h and RtmpContext.cpp: the state of an RTMP connection, and what it sends.
--
-- `sent` holds the packets handed to the connection, in order. `m_media_source` is a pointer, here a
-- number; `source_calls` are the calls made through it, in order.
pub mod Commands
pub mod Media
pub mod Messages
use omega_streamer.Prelude.{ℕ, Option, none, List, [], ◌∷◌, ◌++◌, length, set, replicate}
use omega_streamer.Bytes.{write_uint16_be, write_uint32_be}
use omega_streamer.Media.MediaSource.{Event}
use omega_streamer.Rtmp.Header.{
  default_chunk_size, msg_type_set_chunk_size, msg_type_window_ack_size, msg_type_peer_bandwidth,
  msg_type_user_control, msg_type_amf0_command, csid_control, csid_command,
}
use omega_streamer.Rtmp.Amf0.Encoder.{
  encode_string, encode_number, encode_null, encode_object_start, encode_object_end,
  encode_named_string,
}
use omega_streamer.Rtmp.SendChunk.{send_chunk}
use omega_streamer.Rtmp.Text.{text_on_status, text_level, text_code, text_description}

pub data RtmpRole : Type 0 where
  unknown publisher player : RtmpRole

pub record RtmpContext : Type 0 where
  pub out_chunk_size : ℕ
  pub app : List ℕ
  pub tc_url : List ℕ
  pub stream_name : List ℕ
  pub next_stream_id : ℕ
  pub stream_id : ℕ
  pub role : RtmpRole
  pub media_source : Option ℕ
  pub audio_count : ℕ
  pub video_count : ℕ
  pub video_keyframe_count : ℕ
  pub sent : List (List ℕ)
  pub source_calls : List (ℕ × Event)

unfoldable pub rtmp_context : RtmpContext
rtmp_context = record {
  out_chunk_size = default_chunk_size;
  app = [];
  tc_url = [];
  stream_name = [];
  next_stream_id = 1;
  stream_id = 0;
  role = unknown;
  media_source = none;
  audio_count = 0;
  video_count = 0;
  video_keyframe_count = 0;
  sent = [];
  source_calls = [];
}

-- sendChunk: the packet goes to the connection.
unfoldable pub send_message : RtmpContext → ℕ → ℕ → ℕ → List ℕ → RtmpContext
send_message ctx csid msg_type msg_stream_id bytes = record ctx {
  sent = ctx.sent ++ (send_chunk csid msg_type msg_stream_id bytes ∷ []);
}

unfoldable pub send_set_chunk_size : RtmpContext → ℕ → RtmpContext
unfolding write_uint32_be
send_set_chunk_size ctx size =
    send_message ctx csid_control msg_type_set_chunk_size 0 (write_uint32_be (replicate 4 0) 0 size)

unfoldable pub send_window_ack_size : RtmpContext → ℕ → RtmpContext
unfolding write_uint32_be
send_window_ack_size ctx size =
    send_message ctx csid_control msg_type_window_ack_size 0
      (write_uint32_be (replicate 4 0) 0 size)

unfoldable pub send_peer_bandwidth : RtmpContext → ℕ → ℕ → RtmpContext
unfolding write_uint32_be
send_peer_bandwidth ctx size limit_type =
    send_message ctx csid_control msg_type_peer_bandwidth 0
      (set (write_uint32_be (replicate 5 0) 0 size) 4 limit_type)

unfoldable pub send_user_control_stream_begin : RtmpContext → ℕ → RtmpContext
unfolding write_uint16_be write_uint32_be
send_user_control_stream_begin ctx stream_id =
    send_message ctx csid_control msg_type_user_control 0
      (write_uint32_be (write_uint16_be (replicate 6 0) 0 0) 2 stream_id)

-- The body of an onStatus command.
unfoldable pub status_body : List ℕ → List ℕ → List ℕ → List ℕ
status_body level code description =
    let enc₀ = encode_null (encode_number (encode_string [] text_on_status) 0) in
    let enc₁ = encode_named_string (encode_object_start enc₀) text_level level in
    let enc₂ = encode_named_string enc₁ text_code code in
    encode_object_end (encode_named_string enc₂ text_description description)

unfoldable pub send_on_status : RtmpContext → ℕ → List ℕ → List ℕ → List ℕ → RtmpContext
send_on_status ctx stream_id level code description =
    send_message ctx csid_command msg_type_amf0_command stream_id
      (status_body level code description)

-- onHandShakeDone; the message callback of the chunk parser is handle_message.
unfoldable pub on_hand_shake_done : RtmpContext → RtmpContext
on_hand_shake_done ctx =
    let ctx₁ = send_peer_bandwidth (send_window_ack_size ctx 2500000) 2500000 2 in
    send_set_chunk_size (record ctx₁ { out_chunk_size = 4096 }) 4096
