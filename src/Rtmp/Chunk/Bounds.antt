-- ===== src/Rtmp/Chunk/Bounds.antt =====
-- The bounds that parseOneChunk keeps: lengths are 24-bit numbers, and no payload outgrows the
-- length that its header announces.
use omega_streamer.Prelude.{
  ℕ, zero, suc, ◌+◌, ◌-◌, ◌^◌, ◌≤◌, ◌<◌, min, ◌≡◌, Bool, true, false, some, arith, length,
  some-of-if,
}
use omega_streamer.Prelude.Int.{pos, negsuc, int_less, int_less→le}
use omega_streamer.Bytes.{Pointer, ◌⊕◌, read_uint24_be}
use omega_streamer.Rtmp.Header.{RtmpMsgHeader, msg_header_size, RtmpMessage}
use omega_streamer.Rtmp.Chunk.{
  RtmpChunkParse, rtmp_chunk_parse, BasicHeader, ChunkHeader, parse_basic_header, message_fields,
  with_ext_ts, parse_chunk_header, update_message, message_on, data_size,
}

abbrev pub IsBytes : ℕ → Pointer → Type 0
IsBytes n p = (i : ℕ) → i < n → p i < 256

pub record IsBounded (m : RtmpMessage) : Type 0 where
  pub announced : m.header.msg_len < 2 ^ 24
  pub within : length m.payload ≤ m.header.msg_len

pub record IsValid (s : RtmpChunkParse) : Type 0 where
  pub headers : (k : ℕ) → (s.prev_headers k).msg_len < 2 ^ 24
  pub messages : (k : ℕ) → IsBounded (message_on (s.in_progress k))

-- The size of a chunk's data, without the casts.
pub data_size-within :
    (m : RtmpMessage) (chunk_size : ℕ)
    → IsBounded m
    → data_size m chunk_size ≡ pos (min (m.header.msg_len - length m.payload) chunk_size)
unfolding data_size
data_size-within m chunk_size b = ground arith

-- A header that announces less than what has arrived makes the size negative.
pub data_size-beyond :
    (m : RtmpMessage) (chunk_size : ℕ)
    → m.header.msg_len < length m.payload
    → length m.payload < 2 ^ 24
    → data_size m chunk_size ≡ negsuc (length m.payload - m.header.msg_len - 1)
unfolding data_size
data_size-beyond m chunk_size h k = ground arith

pub read_uint24_be-lt : (p : Pointer) → IsBytes 3 p → read_uint24_be p < 2 ^ 24
unfolding read_uint24_be
read_uint24_be-lt p b = omega (arith, b 0 (omega arith), b 1 (omega arith), b 2 (omega arith))

-- Of the fields, the length is read or taken over.
message_fields-msg_len :
    (fmt : ℕ) (prev : RtmpMsgHeader) (p : Pointer) (header : RtmpMsgHeader)
    → fmt < 4
    → IsBytes (msg_header_size fmt) p
    → header.msg_len < 2 ^ 24
    → (message_fields fmt prev p header).msg_len < 2 ^ 24
unfolding message_fields
message_fields-msg_len zero prev p header lt b h =
    omega (arith, b 3 (omega arith), b 4 (omega arith), b 5 (omega arith))
message_fields-msg_len (suc zero) prev p header lt b h =
    omega (arith, b 3 (omega arith), b 4 (omega arith), b 5 (omega arith))
message_fields-msg_len (suc (suc zero)) prev p header lt b h = h
message_fields-msg_len (suc (suc (suc zero))) prev p header lt b h = h
message_fields-msg_len (suc (suc (suc (suc fmt)))) prev p header lt b h = absurd (omega arith)

pub record HeaderFits (n : ℕ) (h : ChunkHeader) : Type 0 where
  pub size : h.header.msg_len < 2 ^ 24
  pub nonempty : 1 ≤ h.total_header_len
  pub inside : h.total_header_len ≤ n

module _ (p : Pointer) {n : ℕ} (small : n < 2 ^ 31) where
  with_ext_ts-HeaderFits :
      (header : RtmpMsgHeader) (len : ℕ) (t : Bool) {h : ChunkHeader}
      → header.msg_len < 2 ^ 24
      → 1 ≤ len
      → with_ext_ts header p n len t ≡ some h
      → HeaderFits n h
  unfolding with_ext_ts
  with_ext_ts-HeaderFits header len true {h} b l eq =
      let (c, o) = some-of-if (int_less n (pos (len + 4))) _ eq in
      let le = int_less→le n (len + 4) small c in ground arith
  with_ext_ts-HeaderFits header len false {h} b l eq =
      let (c, o) = some-of-if (int_less n (pos len)) _ eq in
      let le = int_less→le n len small c in ground arith

  pub basic_bounds :
      {b : BasicHeader}
      → parse_basic_header p n ≡ some b
      → (b.fmt < 4) × (1 ≤ b.header_len) × (b.header_len ≤ 3) × (b.header_len ≤ n)
  unfolding parse_basic_header
  basic_bounds h = ground arith

  pub parse_chunk_header-HeaderFits :
      (b : BasicHeader) (prev : RtmpMsgHeader) {h : ChunkHeader}
      → IsBytes n p
      → b.fmt < 4
      → 1 ≤ b.header_len
      → prev.msg_len < 2 ^ 24
      → parse_chunk_header b prev p n ≡ some h
      → HeaderFits n h
  unfolding parse_chunk_header
  parse_chunk_header-HeaderFits b prev {h} bytes lt pos_len bound eq =
      let need = b.header_len + msg_header_size b.fmt in
      let (c, o) = some-of-if (int_less n (pos need)) _ eq in
      let le = int_less→le n need small c in
      let fields : IsBytes (msg_header_size b.fmt) (p ⊕ b.header_len) =
        λ i lt'. bytes (b.header_len + i) (omega arith) in
      let header₀ : RtmpMsgHeader = record prev { fmt = b.fmt; csid = b.csid } in
      with_ext_ts-HeaderFits (message_fields b.fmt prev (p ⊕ b.header_len) header₀) need _
        (message_fields-msg_len b.fmt prev (p ⊕ b.header_len) header₀ lt fields bound) (omega arith)
        o

-- Whatever header comes, what is announced stays a 24-bit number, and so does what has arrived.
pub update_message-bounds :
    (h : RtmpMsgHeader) (m : RtmpMessage)
    → h.msg_len < 2 ^ 24
    → IsBounded m
    → ((update_message h m).header.msg_len < 2 ^ 24)
      × (length (update_message h m).payload < 2 ^ 24)
unfolding update_message
update_message-bounds h m lt b = ground arith

pub rtmp_chunk_parse-IsValid : IsValid rtmp_chunk_parse
unfolding rtmp_chunk_parse message_on
rtmp_chunk_parse-IsValid = record { headers = λ k. omega arith; messages = λ k. omega arith }
