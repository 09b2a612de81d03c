-- ===== src/Rtmp/Consumer.antt =====
-- media/rtmp/RtmpConsumer.h and RtmpConsumer.cpp: the viewer of a source over RTMP.
--
-- `PacketType`, which the source does not declare, is read as the TrackType of a packet. sendMessage ends
-- behind its call of reserve: a result is how it ends, with the size that it has reserved. An `int` that
-- would overflow is not cut.
pub mod Reserve
use omega_streamer.Prelude.{
  ℕ, zero, suc, ◌/◌, ◌-◌, Option, none, some, List, if◌then◌else◌, length, ◌==◌,
}
use omega_streamer.Prelude.Int.{ℤ, pos, negsuc, ◌+ℤ◌, ltb_ℤ, to_int}
use omega_streamer.Media.Packet.{Packet, TrackType, unknown, audio, video, meta_data}
use omega_streamer.Rtmp.Header.{
  msg_type_amf0_data, msg_type_audio, msg_type_video, csid_command, csid_audio, csid_video,
}

pub record RtmpConsumer : Type 0 where
  pub stream_id : ℕ
  pub chunk_size : ℤ

-- How sendMessage ends. A negative size is too large for reserve, as a `size_t`.
pub data SendRet : Type 0 where
  ignored : SendRet
  reserved : ℕ → SendRet
  divided_by_zero length_error : SendRet

unfoldable pub negate : ℕ → ℤ
negate zero = pos 0
negate (suc n) = negsuc n

-- `/` of `int`, which drops the fraction; by 0 it has no value.
unfoldable pub div_int : ℤ → ℤ → Option ℤ
unfolding negate
div_int a (pos zero) = none
div_int (pos a) (pos (suc b)) = some (pos (a / suc b))
div_int (negsuc a) (pos (suc b)) = some (negate (suc a / suc b))
div_int (pos a) (negsuc b) = some (negate (a / suc b))
div_int (negsuc a) (negsuc b) = some (pos (suc a / suc b))

unfoldable pub reserve : ℤ → SendRet
reserve (pos n) = reserved n
reserve (negsuc n) = length_error

unfoldable pub reserve_for : ℤ → Option ℤ → SendRet
unfolding reserve
reserve_for len none = divided_by_zero
reserve_for len (some num_chunks) = reserve (pos 12 +ℤ len +ℤ num_chunks)

unfoldable pub send_message : RtmpConsumer → ℕ → ℕ → ℕ → List ℕ → ℤ → SendRet
unfolding reserve_for
send_message c csid msg_type timestamp bytes len =
    if ltb_ℤ len (pos 1)
    then ignored
    else reserve_for len (div_int (len +ℤ c.chunk_size +ℤ negsuc 0) c.chunk_size)

-- The type of the message and its csid, or none for a packet that is not sent.
unfoldable pub message_of : TrackType → Option (ℕ × ℕ)
message_of meta_data = some (msg_type_amf0_data, csid_command)
message_of audio = some (msg_type_audio, csid_audio)
message_of video = some (msg_type_video, csid_video)
message_of unknown = none

unfoldable pub send_as : RtmpConsumer → Packet → Option (ℕ × ℕ) → SendRet
send_as c pkt none = ignored
send_as c pkt (some (msg_type, csid)) =
    send_message c csid msg_type pkt.timestamp pkt.payload (to_int (length pkt.payload))

-- OnPacket
unfoldable pub on_packet : RtmpConsumer → Packet → SendRet
unfolding send_as message_of
on_packet c pkt = send_as c pkt (message_of pkt.track)
