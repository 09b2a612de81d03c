-- ===== src/Rtmp/Context/Messages.antt =====
-- media/rtmp/RtmpContext.cpp: handleMessage, the message callback of the chunk parser.
pub mod Stable
pub mod Bounds
pub mod Replies
pub mod Dispatch
pub mod Delivered
use omega_streamer.Prelude.{ℕ, ◌%◌, ◌^◌, List, ◌==◌, ◌||◌, if◌then◌else◌, ltb, length}
use omega_streamer.Bytes.{at, read_uint32_be}
use omega_streamer.Rtmp.Header.{
  RtmpMessage, max_chunk_size, msg_type_set_chunk_size, msg_type_amf0_command, msg_type_amf0_data,
  msg_type_audio, msg_type_video,
}
use omega_streamer.Rtmp.Context.{RtmpContext}
use omega_streamer.Rtmp.Context.Commands.{handle_amf0_command}
use omega_streamer.Rtmp.Context.Media.{handle_amf0_data, handle_audio_data, handle_video_data}

-- The new chunk size, from the old one. `& 0x7FFFFFFF` is a remainder.
unfoldable pub handle_set_chunk_size : ℕ → RtmpMessage → ℕ
unfolding read_uint32_be
handle_set_chunk_size in_chunk_size msg =
    let new_size = read_uint32_be (at msg.payload) % 2 ^ 31 in
    if ltb (length msg.payload) 4
    then in_chunk_size
    else if new_size == 0 || ltb max_chunk_size new_size
    then in_chunk_size
    else new_size

-- The messages of the other types, window sizes and bandwidths among them, are only logged.
unfoldable pub handle_message : RtmpMessage → ℕ → RtmpContext → ℕ × RtmpContext
handle_message msg in_chunk_size ctx =
    let msg_type = msg.header.msg_type in
    if msg_type == msg_type_set_chunk_size
    then (handle_set_chunk_size in_chunk_size msg, ctx)
    else if msg_type == msg_type_amf0_command
    then (in_chunk_size, handle_amf0_command ctx msg)
    else if msg_type == msg_type_amf0_data
    then (in_chunk_size, handle_amf0_data ctx msg)
    else if msg_type == msg_type_audio
    then (in_chunk_size, handle_audio_data ctx msg)
    else if msg_type == msg_type_video
    then (in_chunk_size, handle_video_data ctx msg)
    else (in_chunk_size, ctx)
