-- ===== src/Rtmp/Context/Commands.antt =====
-- media/rtmp/RtmpContext.cpp: the AMF0 commands.
use omega_streamer.Prelude.{
  ℕ, ◌+◌, ◌%◌, ◌^◌, Option, none, some, List, [], ◌∷◌, ◌==◌, ◌&&◌, not, if◌then◌else◌, length,
}
use omega_streamer.Rtmp.Header.{RtmpMessage, msg_type_amf0_command, csid_command}
use omega_streamer.Rtmp.Amf0.{
  Amf0Value, null, get_string, as_string, as_number, as_object, value_or,
}
use omega_streamer.Prelude.Strings.{same_string}
use omega_streamer.Rtmp.Amf0.Decoder.{decode, is_empty}
use omega_streamer.Rtmp.Amf0.Encoder.{
  encode_string, encode_number, encode_null, encode_object_start, encode_object_end,
  encode_named_string, encode_named_number,
}
use omega_streamer.Rtmp.Double.{to_double}
use omega_streamer.Rtmp.Text.{
  text_result, text_fms_ver, text_fms_version, text_capabilities, text_level, text_status,
  text_code, text_connect_success, text_description, text_connection_succeeded,
  text_object_encoding, text_publish_start, text_start_publishing, text_play_start,
  text_start_playing, text_connect, text_create_stream, text_publish, text_play, text_app,
  text_tc_url,
}
use omega_streamer.Rtmp.Context.{
  RtmpContext, publisher, player, send_message, send_user_control_stream_begin, send_on_status,
}

-- The body of the reply to connect.
unfoldable pub connect_body : ℕ → List ℕ
unfolding to_double
connect_body txn_id =
    let enc₀ = encode_number (encode_string [] text_result) txn_id in
    let enc₁ = encode_named_string (encode_object_start enc₀) text_fms_ver text_fms_version in
    let enc₂ = encode_object_end (encode_named_number enc₁ text_capabilities (to_double 31)) in
    let enc₃ = encode_named_string (encode_object_start enc₂) text_level text_status in
    let enc₄ = encode_named_string enc₃ text_code text_connect_success in
    let enc₅ = encode_named_string enc₄ text_description text_connection_succeeded in
    encode_object_end (encode_named_number enc₅ text_object_encoding 0)

unfoldable pub handle_connect : RtmpContext → ℕ → RtmpContext
handle_connect ctx txn_id =
    send_message ctx csid_command msg_type_amf0_command 0 (connect_body txn_id)

-- The body of the reply to createStream.
unfoldable pub create_stream_body : ℕ → ℕ → List ℕ
create_stream_body txn_id stream_id =
    let enc = encode_null (encode_number (encode_string [] text_result) txn_id) in
    encode_number enc (to_double stream_id)

unfoldable pub handle_create_stream : RtmpContext → ℕ → RtmpContext
handle_create_stream ctx txn_id =
    let ctx₁ : RtmpContext = record ctx {
      stream_id = ctx.next_stream_id;
      next_stream_id = (ctx.next_stream_id + 1) % 2 ^ 32;
    } in
    send_message ctx₁ csid_command msg_type_amf0_command 0
      (create_stream_body txn_id ctx.next_stream_id)

-- The stream type is only logged.
unfoldable pub handle_publish : RtmpContext → List ℕ → RtmpContext
handle_publish ctx stream_name =
    let ctx₁ : RtmpContext = record ctx { stream_name = stream_name; role = publisher } in
    send_on_status (send_user_control_stream_begin ctx₁ ctx₁.stream_id) ctx₁.stream_id text_status
      text_publish_start text_start_publishing

unfoldable pub handle_play : RtmpContext → List ℕ → RtmpContext
handle_play ctx stream_name =
    let ctx₁ : RtmpContext = record ctx { stream_name = stream_name; role = player } in
    send_on_status (send_user_control_stream_begin ctx₁ ctx₁.stream_id) ctx₁.stream_id text_status
      text_play_start text_start_playing

-- The next value of a payload. Decode always gives one, so that the default is never taken.
unfoldable pub next_value : List ℕ → ℕ → Amf0Value × ℕ
unfolding value_or
next_value payload pos = value_or (null, length payload) (decode payload pos)

-- substr(rfind('/') + 1), where there is a slash.
unfoldable pub after_last_slash : List ℕ → Option (List ℕ)
after_last_slash [] = none
after_last_slash (x ∷ xs) = elim (after_last_slash xs) [
  | none ↦ if x == 47 then some xs else none
  | some rest ↦ some rest
]

-- The argument object of connect.
unfoldable pub connect_arguments : RtmpContext → Amf0Value → RtmpContext
unfolding as_object
connect_arguments ctx obj_val = elim (as_object obj_val) [
  | none ↦ ctx
  | some obj ↦ record ctx {
    app = get_string obj text_app [];
    tc_url = get_string obj text_tc_url [];
  }
]

-- Without an app, its name is the last part of tcUrl.
unfoldable pub app_from_url : RtmpContext → RtmpContext
unfolding after_last_slash value_or
app_from_url ctx =
    if is_empty ctx.app && not (is_empty ctx.tc_url)
    then record ctx { app = value_or ctx.app (after_last_slash ctx.tc_url) }
    else ctx

-- The commands, behind their name and their transaction id.
unfoldable pub command : RtmpContext → List ℕ → List ℕ → ℕ → ℕ → RtmpContext
command ctx payload cmd_name txn_id pos =
    if same_string cmd_name text_connect
    then handle_connect (app_from_url (connect_arguments ctx (next_value payload pos).0)) txn_id
    else if same_string cmd_name text_create_stream
    then handle_create_stream ctx txn_id
    else if same_string cmd_name text_publish
    then (let (skipped, pos₁) = next_value payload pos in
        handle_publish ctx (value_or [] (as_string (next_value payload pos₁).0)))
    else if same_string cmd_name text_play
    then (let (skipped, pos₁) = next_value payload pos in
        handle_play ctx (value_or [] (as_string (next_value payload pos₁).0)))
    else ctx

unfoldable pub with_transaction : RtmpContext → List ℕ → List ℕ → ℕ → Option ℕ → RtmpContext
unfolding command
with_transaction ctx payload cmd_name pos none = ctx
with_transaction ctx payload cmd_name pos (some txn_id) = command ctx payload cmd_name txn_id pos

unfoldable pub with_name : RtmpContext → List ℕ → ℕ → Option (List ℕ) → RtmpContext
unfolding with_transaction
with_name ctx payload pos none = ctx
with_name ctx payload pos (some cmd_name) =
    let (txn_val, pos₁) = next_value payload pos in
    with_transaction ctx payload cmd_name pos₁ (as_number txn_val)

unfoldable pub handle_amf0_command : RtmpContext → RtmpMessage → RtmpContext
handle_amf0_command ctx msg =
    let (cmd_val, pos) = next_value msg.payload 0 in
    with_name ctx msg.payload pos (as_string cmd_val)
