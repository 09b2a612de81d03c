-- ===== src/Rtmp/Context/Media.antt =====
-- media/rtmp/RtmpContext.cpp: metadata, audio and video.
use omega_streamer.Prelude.{
  ℕ, ◌+◌, ◌/◌, ◌%◌, ◌^◌, true, Option, none, some, List, [], ◌∷◌, ◌++◌, ◌==◌, ◌&&◌, ◌||◌,
  if◌then◌else◌, leb, length,
}
use omega_streamer.Bytes.{at}
use omega_streamer.Media.Packet.{Packet, no_packet, TrackType, audio, video, meta_data}
use omega_streamer.Media.MediaSource.{
  Event, got_meta_data, got_video_header, got_audio_header, got_audio, got_video,
}
use omega_streamer.Rtmp.Header.{RtmpMessage}
use omega_streamer.Rtmp.Amf0.{as_string}
use omega_streamer.Prelude.Strings.{same_string}
use omega_streamer.Rtmp.Amf0.Decoder.{is_empty}
use omega_streamer.Rtmp.Text.{text_set_data_frame, text_on_meta_data}
use omega_streamer.Rtmp.Context.{RtmpContext}
use omega_streamer.Rtmp.Context.Commands.{next_value}

unfoldable pub make_packet : RtmpMessage → TrackType → Packet
make_packet msg track = record no_packet {
  track = track;
  pts = msg.header.timestamp;
  dts = msg.header.timestamp;
  timestamp = msg.header.timestamp;
  payload = msg.payload;
}

-- `if (p) p->…`
unfoldable pub call_through : RtmpContext → Event → Option ℕ → RtmpContext
call_through ctx e none = ctx
call_through ctx e (some source) = record ctx {
  source_calls = ctx.source_calls ++ ((source, e) ∷ []);
}

unfoldable pub call_source : RtmpContext → Event → RtmpContext
unfolding call_through
call_source ctx e = call_through ctx e ctx.media_source

-- The object behind the name is decoded for the log only.
unfoldable pub named_data : RtmpContext → RtmpMessage → Option (List ℕ) → RtmpContext
named_data ctx msg none = ctx
named_data ctx msg (some first) =
    if same_string first text_set_data_frame || same_string first text_on_meta_data
    then call_source ctx (got_meta_data (record (make_packet msg meta_data) { is_metadata = true }))
    else ctx

unfoldable pub handle_amf0_data : RtmpContext → RtmpMessage → RtmpContext
unfolding named_data
handle_amf0_data ctx msg = named_data ctx msg (as_string (next_value msg.payload 0).0)

unfoldable pub handle_audio_data : RtmpContext → RtmpMessage → RtmpContext
handle_audio_data ctx msg =
    let ctx₁ : RtmpContext = record ctx { audio_count = (ctx.audio_count + 1) % 2 ^ 32 } in
    let format = at msg.payload 0 / 16 % 16 in
    let pkt : Packet = record (make_packet msg audio) { codec = format } in
    if is_empty msg.payload
    then ctx₁
    else if format == 10 && (leb 2 (length msg.payload) && at msg.payload 1 == 0)
    then call_source ctx₁ (got_audio_header (record pkt { is_config = true }))
    else call_source ctx₁ (got_audio pkt)

unfoldable pub handle_video_data : RtmpContext → RtmpMessage → RtmpContext
handle_video_data ctx msg =
    let ctx₁ : RtmpContext = record ctx { video_count = (ctx.video_count + 1) % 2 ^ 32 } in
    let frame_type = at msg.payload 0 / 16 % 16 in
    let codec_id = at msg.payload 0 % 16 in
    let pkt : Packet = record (make_packet msg video) {
      codec = codec_id;
      is_keyframe = frame_type == 1;
    } in
    let ctx₂ : RtmpContext =
      if frame_type == 1
      then record ctx₁ { video_keyframe_count = (ctx₁.video_keyframe_count + 1) % 2 ^ 32 }
      else ctx₁ in
    if is_empty msg.payload
    then ctx₁
    else if (codec_id == 7 || codec_id == 12)
        && (leb 2 (length msg.payload) && at msg.payload 1 == 0)
    then call_source ctx₂ (got_video_header (record pkt { is_config = true }))
    else call_source ctx₂ (got_video pkt)
