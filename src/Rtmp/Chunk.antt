-- ===== src/Rtmp/Chunk.antt =====
-- media/rtmp/RtmpChunkParse.h and .cpp: how parseOneChunk reads one chunk.
--
-- `buf.Peek()` is a pointer and `buf.ReadableBytes()` a number, so that what a step reads can be
-- compared with what is there. The maps by csid are functions: `operator[]` makes a default entry
-- that cannot be told from a missing one.
pub mod Extend
pub mod Agree
pub mod Resume
pub mod ExtTs
pub mod Shrink
pub mod Bounds
pub mod Sound
use omega_streamer.Prelude.{
  ℕ, zero, suc, ◌+◌, ◌-◌, ◌*◌, ◌/◌, ◌%◌, ◌^◌, Bool, true, false, ◌||◌, Option, none, some, List, [],
  ◌∷◌, ◌++◌, ltb, leb, ◌==◌, if◌then◌else◌, length,
}
use omega_streamer.Prelude.Int.{ℤ, pos, negsuc, ◌+ℤ◌, int_less, min_ℤ, to_int}
use omega_streamer.Bytes.{Pointer, ◌⊕◌, read_uint8, read_uint24_be, read_uint32_be, read_uint32_le}
use omega_streamer.Rtmp.Header.{
  RtmpMsgHeader, no_header, RtmpMessage, no_message, is_complete, msg_header_size,
  max_timestamp_in_header, default_chunk_size,
}

pub record RtmpChunkParse : Type 0 where
  pub prev_headers : ℕ → RtmpMsgHeader
  pub in_progress : ℕ → Option RtmpMessage
  pub in_chunk_size : ℕ

unfoldable pub rtmp_chunk_parse : RtmpChunkParse
rtmp_chunk_parse = record {
  prev_headers = λ _. no_header;
  in_progress = λ _. none;
  in_chunk_size = default_chunk_size;
}

unfoldable pub set_in_chunk_size : RtmpChunkParse → ℕ → RtmpChunkParse
set_in_chunk_size s size = record s { in_chunk_size = size }

-- m[k] = v
unfoldable pub update {ℓ} : {A : Type ℓ} → (ℕ → A) → ℕ → A → ℕ → A
update m k v j = if j == k then v else m j

-- The outputs of parseBasicHeader.
pub record BasicHeader : Type 0 where
  pub fmt : ℕ
  pub csid : ℕ
  pub header_len : ℕ

-- `p[0] >> 6 & 0x03` and `p[0] & 0x3F` are a quotient and a remainder. `none` is `false`.
unfoldable pub parse_basic_header : Pointer → ℕ → Option BasicHeader
parse_basic_header p readable =
    let fmt = p 0 / 64 % 4 in
    let csid = p 0 % 64 in
    if ltb readable 1
    then none
    else if csid == 0
    then (if ltb readable 2
        then none
        else some (record { fmt = fmt; csid = p 1 + 64; header_len = 2 }))
    else if csid == 1
    then (if ltb readable 3
        then none
        else some (record { fmt = fmt; csid = p 2 * 256 + p 1 + 64; header_len = 3 }))
    else some (record { fmt = fmt; csid = csid; header_len = 1 })

-- Step 4: the switch on fmt, `p` behind the basic header.
unfoldable pub message_fields : ℕ → RtmpMsgHeader → Pointer → RtmpMsgHeader → RtmpMsgHeader
unfolding read_uint8 read_uint24_be read_uint32_le
message_fields fmt prev p header =
    if fmt == 0
    then record header {
      timestamp = read_uint24_be p;
      msg_len = read_uint24_be (p ⊕ 3);
      msg_type = read_uint8 (p ⊕ 6);
      msg_stream_id = read_uint32_le (p ⊕ 7);
    }
    else if fmt == 1
    then record header {
      timestamp = (prev.timestamp + read_uint24_be p) % 2 ^ 32;
      msg_len = read_uint24_be (p ⊕ 3);
      msg_type = read_uint8 (p ⊕ 6);
    }
    else if fmt == 2
    then record header { timestamp = (prev.timestamp + read_uint24_be p) % 2 ^ 32 }
    else header

-- Step 5: whether four bytes of extended timestamp follow.
unfoldable pub needs_ext_ts : ℕ → RtmpMsgHeader → Pointer → RtmpMsgHeader → Bool
unfolding read_uint24_be
needs_ext_ts fmt prev p header =
    if fmt == 0
    then leb max_timestamp_in_header header.timestamp
    else if fmt == 1 || fmt == 2
    then ltb max_timestamp_in_header (read_uint24_be p)
    else prev.has_ext_ts

-- The header of a chunk with the length of all its header parts.
pub record ChunkHeader : Type 0 where
  pub header : RtmpMsgHeader
  pub total_header_len : ℕ

unfoldable pub with_ext_ts : RtmpMsgHeader → Pointer → ℕ → ℕ → Bool → Option ChunkHeader
unfolding read_uint32_be
with_ext_ts header p readable len true =
    if int_less readable (pos (len + 4))
    then none
    else some (record {
      header = record header { has_ext_ts = true; timestamp = read_uint32_be (p ⊕ len) };
      total_header_len = len + 4;
    })
with_ext_ts header p readable len false =
    if int_less readable (pos len)
    then none
    else some (record { header = header; total_header_len = len })

-- Steps 2 to 5; `none` is the return of 1 for want of data.
unfoldable pub parse_chunk_header : BasicHeader → RtmpMsgHeader → Pointer → ℕ → Option ChunkHeader
parse_chunk_header basic prev p readable =
    let need = basic.header_len + msg_header_size basic.fmt in
    let q = p ⊕ basic.header_len in
    let header =
      message_fields basic.fmt prev q (record prev { fmt = basic.fmt; csid = basic.csid }) in
    if int_less readable (pos need)
    then none
    else with_ext_ts header p readable need (needs_ext_ts basic.fmt prev q header)

-- Step 6: the message under way on this csid takes the header.
unfoldable pub update_message : RtmpMsgHeader → RtmpMessage → RtmpMessage
unfolding is_complete
update_message header msg =
    if header.fmt == 0 || is_complete msg
    then record { header = header; payload = [] }
    else record msg {
      header =
          if header.fmt == 1
          then record msg.header {
            timestamp = header.timestamp;
            fmt = header.fmt;
            msg_len = header.msg_len;
            msg_type = header.msg_type;
          }
          else record msg.header { timestamp = header.timestamp; fmt = header.fmt };
    }

unfoldable pub message_on : Option RtmpMessage → RtmpMessage
message_on none = no_message
message_on (some msg) = msg

-- The `uint32_t` difference, cast to `int`, and its minimum with the chunk size.
unfoldable pub data_size : RtmpMessage → ℕ → ℤ
data_size msg chunk_size =
    min_ℤ (to_int (msg.header.msg_len + 2 ^ 32 - length msg.payload % 2 ^ 32)) (pos chunk_size)

-- The bytes p[0], …, p[n - 1].
unfoldable pub read_bytes : Pointer → ℕ → List ℕ
read_bytes p zero = []
read_bytes p (suc n) = p 0 ∷ read_bytes (p ⊕ 1) n

-- How far a call gets before it touches the buffer's marks: it waits for data (return 1), it appends
-- to the payload and will retrieve `consumed` bytes, or `append` throws std::length_error, since
-- the negative size is a huge `size_t`.
pub data Chunk : Type 0 where
  waiting : RtmpChunkParse → Chunk
  length_error : Chunk
  taken : (consumed csid : ℕ) → RtmpChunkParse → RtmpMessage → Chunk

-- Steps 6 (its end) and 7, on the size of this chunk's data.
unfoldable pub chunk_data : RtmpChunkParse → ℕ → ChunkHeader → RtmpMessage → Pointer → ℕ → ℤ → Chunk
unfolding read_bytes
chunk_data s csid h msg p readable (pos size) =
    if int_less readable (pos (h.total_header_len + size))
    then waiting s
    else (let msg' : RtmpMessage = record msg {
      payload = msg.payload ++ read_bytes (p ⊕ h.total_header_len) size;
    } in
        taken (h.total_header_len + size) csid
          (record s {
            prev_headers = update s.prev_headers csid h.header;
            in_progress = update s.in_progress csid (some msg');
          })
          msg')
chunk_data s csid h msg p readable (negsuc size) =
    if int_less readable (pos h.total_header_len +ℤ negsuc size) then waiting s else length_error

-- Steps 6 to 9.
unfoldable pub take_chunk : RtmpChunkParse → ℕ → ChunkHeader → Pointer → ℕ → Chunk
take_chunk s csid h p readable =
    let msg = update_message h.header (message_on (s.in_progress csid)) in
    let s' : RtmpChunkParse = record s { in_progress = update s.in_progress csid (some msg) } in
    chunk_data s' csid h msg p readable (data_size msg s.in_chunk_size)

unfoldable pub after_header : RtmpChunkParse → ℕ → Pointer → ℕ → Option ChunkHeader → Chunk
after_header s csid p readable none = waiting s
after_header s csid p readable (some h) = take_chunk s csid h p readable

unfoldable pub after_basic : RtmpChunkParse → Pointer → ℕ → Option BasicHeader → Chunk
after_basic s p readable none = waiting s
after_basic s p readable (some b) =
    after_header s b.csid p readable (parse_chunk_header b (s.prev_headers b.csid) p readable)

-- parseOneChunk up to step 7, with the header saved as step 9 does.
unfoldable pub read_chunk : RtmpChunkParse → Pointer → ℕ → Chunk
read_chunk s p readable = after_basic s p readable (parse_basic_header p readable)
