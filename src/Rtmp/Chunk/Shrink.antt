-- ===== src/Rtmp/Chunk/Shrink.antt =====
-- A header of fmt 1 may change the length of the message under way.
use omega_streamer.Prelude.{ℕ, ◌<◌, ◌^◌, ◌≡◌, ap, ◌∙◌, some, arith, length}
use omega_streamer.Bytes.{Pointer}
use omega_streamer.Rtmp.Header.{RtmpMsgHeader, RtmpMessage, is_complete}
use omega_streamer.Rtmp.Chunk.{
  RtmpChunkParse, BasicHeader, ChunkHeader, parse_basic_header, parse_chunk_header, update_message,
  message_on, read_chunk, length_error,
}
use omega_streamer.Rtmp.Chunk.Bounds.{IsBytes, IsValid, basic_bounds, parse_chunk_header-HeaderFits}
use omega_streamer.Rtmp.Chunk.Resume.{read_chunk-eq, take_chunk-beyond}

update_message-shrink :
    (h : RtmpMsgHeader) (m : RtmpMessage)
    → h.fmt ≡ 1
    → h.msg_len < length m.payload
    → length m.payload < m.header.msg_len
    → ((update_message h m).header.msg_len ≡ h.msg_len) × ((update_message h m).payload ≡ m.payload)
unfolding update_message is_complete
update_message-shrink h m f lt inc = ground arith

-- A peer that has sent part of a message and then, on the same csid, a fmt 1 header that announces
-- less than has arrived makes `append` throw std::length_error: on a valid parser, as soon as the
-- headers are readable, whatever stands behind them in fewer than 2 ^ 31 readable bytes.
pub shrinking_header_throws :
    (s : RtmpChunkParse) (p : Pointer) (n : ℕ) (b : BasicHeader) (h : ChunkHeader)
    → n < 2 ^ 31
    → IsBytes n p
    → IsValid s
    → parse_basic_header p n ≡ some b
    → parse_chunk_header b (s.prev_headers b.csid) p n ≡ some h
    → h.header.fmt ≡ 1
    → h.header.msg_len < length (message_on (s.in_progress b.csid)).payload
    → length (message_on (s.in_progress b.csid)).payload
      < (message_on (s.in_progress b.csid)).header.msg_len
    → read_chunk s p n ≡ length_error
shrinking_header_throws s p n b h small bytes v eb eh f lt inc =
    let m = message_on (s.in_progress b.csid) in
    let (lt4, one, _, _) = basic_bounds p small eb in
    let fits =
      parse_chunk_header-HeaderFits p small b (s.prev_headers b.csid) bytes lt4 one
        (v.headers b.csid) eh in
    let (len, same) = update_message-shrink h.header m f lt inc in
    let bounded = v.messages b.csid in
    read_chunk-eq s b h p n eb eh
    ∙ take_chunk-beyond s b.csid h p small fits.inside
        (omega (arith, ap length same, bounded.announced)) (omega (arith, len, ap length same))
