-- ===== src/Rtmp/Context/Messages/Stable.antt =====
-- A property of a context that the primitive changes keep, every message keeps.
use omega_streamer.Prelude.{
  ℕ, ◌/◌, ◌%◌, ◌≡◌, refl, Option-cases, List, Bool-cases, if_both, inl, inr, ◌==◌, ◌&&◌, ◌||◌, not,
}
use omega_streamer.Bytes.{at}
use omega_streamer.Media.MediaSource.{Event}
use omega_streamer.Rtmp.Header.{
  RtmpMessage, msg_type_set_chunk_size, msg_type_amf0_command, msg_type_amf0_data, msg_type_audio,
  msg_type_video,
}
use omega_streamer.Rtmp.Amf0.{Amf0Value, as_string, as_number, as_object}
use omega_streamer.Prelude.Strings.{same_string}
use omega_streamer.Rtmp.Amf0.Decoder.{is_empty}
use omega_streamer.Rtmp.Context.{
  RtmpContext, send_message, send_user_control_stream_begin, send_on_status,
}
use omega_streamer.Rtmp.Context.Commands.{
  handle_connect, handle_create_stream, handle_publish, handle_play, connect_arguments,
  app_from_url, command, with_transaction, with_name, handle_amf0_command, next_value,
}
use omega_streamer.Rtmp.Context.Media.{
  call_source, named_data, handle_amf0_data, handle_audio_data, handle_video_data,
}
use omega_streamer.Rtmp.Context.Messages.{handle_message}
use omega_streamer.Rtmp.Text.{
  text_connect, text_create_stream, text_publish, text_play, text_set_data_frame, text_on_meta_data,
}

pub record IsStable (P : RtmpContext → Type 0) : Type 0 where
  pub quiet :
      {ctx ctx' : RtmpContext}
      → ctx'.sent ≡ ctx.sent
      → ctx'.out_chunk_size ≡ ctx.out_chunk_size
      → ctx'.media_source ≡ ctx.media_source
      → ctx'.source_calls ≡ ctx.source_calls
      → P ctx
      → P ctx'
  pub sends :
      (ctx : RtmpContext) (csid msg_type msg_stream_id : ℕ) (bytes : List ℕ)
      → P ctx
      → P (send_message ctx csid msg_type msg_stream_id bytes)
  pub calls : (ctx : RtmpContext) (e : Event) → P ctx → P (call_source ctx e)

module _ (P : RtmpContext → Type 0) (stable : IsStable P) where
  open stable use {quiet, sends, calls}

  connect_arguments-Kept : (ctx : RtmpContext) (v : Amf0Value) → P ctx → P (connect_arguments ctx v)
  unfolding connect_arguments
  connect_arguments-Kept ctx v h = elim (Option-cases (as_object v)) [
    | inl e ↦ rw (connect_arguments, e) h
    | inr (obj, e) ↦ rw (connect_arguments, e) (quiet refl refl refl refl h)
  ]

  app_from_url-Kept : (ctx : RtmpContext) → P ctx → P (app_from_url ctx)
  unfolding app_from_url
  app_from_url-Kept ctx h =
      if_both P (is_empty ctx.app && not (is_empty ctx.tc_url)) (quiet refl refl refl refl h) h

  command-Kept :
      (ctx : RtmpContext) (payload cmd_name : List ℕ) (txn_id pos : ℕ)
      → P ctx
      → P (command ctx payload cmd_name txn_id pos)
  unfolding command handle_connect handle_create_stream handle_publish handle_play
      send_user_control_stream_begin send_on_status
  command-Kept ctx payload cmd_name txn_id pos h =
      if_both P (same_string cmd_name text_connect)
        (sends _ _ _ _ _ (app_from_url-Kept _ (connect_arguments-Kept ctx _ h)))
        (if_both P (same_string cmd_name text_create_stream)
          (sends _ _ _ _ _ (quiet refl refl refl refl h))
          (if_both P (same_string cmd_name text_publish)
            (sends _ _ _ _ _ (sends _ _ _ _ _ (quiet refl refl refl refl h)))
            (if_both P (same_string cmd_name text_play)
              (sends _ _ _ _ _ (sends _ _ _ _ _ (quiet refl refl refl refl h))) h)))

  handle_amf0_command-Kept :
      (ctx : RtmpContext) (msg : RtmpMessage) → P ctx → P (handle_amf0_command ctx msg)
  unfolding handle_amf0_command with_name with_transaction
  handle_amf0_command-Kept ctx msg h =
      let (cmd_val, pos) = next_value msg.payload 0 in
      elim (Option-cases (as_string (next_value msg.payload 0).0)) [
        | inl e ↦ rw e h
        | inr (name, e) ↦
            let q = (next_value msg.payload 0).1 in
            elim (Option-cases (as_number (next_value msg.payload q).0)) [
              | inl e1 ↦ rw (e, e1) h
              | inr (txn_id, e1) ↦
                  rw (e, e1)
                    (command-Kept ctx msg.payload name txn_id (next_value msg.payload q).1 h)
            ]
      ]

  handle_amf0_data-Kept :
      (ctx : RtmpContext) (msg : RtmpMessage) → P ctx → P (handle_amf0_data ctx msg)
  unfolding handle_amf0_data named_data
  handle_amf0_data-Kept ctx msg h = elim (Option-cases (as_string (next_value msg.payload 0).0)) [
    | inl e ↦ rw e h
    | inr (name, e) ↦
        elim (Bool-cases
          (same_string name text_set_data_frame || same_string name text_on_meta_data)) [
            | inl e1 ↦ rw (e, e1) (calls ctx _ h)
            | inr e1 ↦ rw (e, e1) h
          ]
  ]

  handle_audio_data-Kept :
      (ctx : RtmpContext) (msg : RtmpMessage) → P ctx → P (handle_audio_data ctx msg)
  unfolding handle_audio_data
  handle_audio_data-Kept ctx msg h =
      let counted = quiet refl refl refl refl h in
      if_both P (is_empty msg.payload) counted (if_both P _ (calls _ _ counted) (calls _ _ counted))

  handle_video_data-Kept :
      (ctx : RtmpContext) (msg : RtmpMessage) → P ctx → P (handle_video_data ctx msg)
  unfolding handle_video_data
  handle_video_data-Kept ctx msg h =
      let frame =
        if_both P (at msg.payload 0 / 16 % 16 == 1) (quiet refl refl refl refl h)
          (quiet refl refl refl refl h) in
      if_both P (is_empty msg.payload) (quiet refl refl refl refl h)
        (if_both P _ (calls _ _ frame) (calls _ _ frame))

  abbrev Keeps : ℕ × RtmpContext → Type 0
  Keeps r = P r.1

  -- Every message keeps the property.
  pub handle_message-Kept :
      (msg : RtmpMessage) (size : ℕ) (ctx : RtmpContext) → P ctx → P (handle_message msg size ctx).1
  unfolding handle_message
  handle_message-Kept msg size ctx h =
      let t = msg.header.msg_type in
      if_both Keeps (t == msg_type_set_chunk_size) h (
        if_both Keeps (t == msg_type_amf0_command) (handle_amf0_command-Kept ctx msg h) (
          if_both Keeps (t == msg_type_amf0_data) (handle_amf0_data-Kept ctx msg h) (
            if_both Keeps (t == msg_type_audio) (handle_audio_data-Kept ctx msg h)
              (if_both Keeps (t == msg_type_video) (handle_video_data-Kept ctx msg h) h))))
