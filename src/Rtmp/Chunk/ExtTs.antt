-- ===== src/Rtmp/Chunk/ExtTs.antt =====
-- When four bytes of extended timestamp are read, and what is remembered of them.
use omega_streamer.Prelude.{
  ℕ, zero, suc, ◌+◌, ◌<◌, ◌^◌, ◌≡◌, Bool, true, false, ◌||◌, ◌&&◌, some, arith, some-of-if, ◌==◌,
  if◌then◌else◌,
}
use omega_streamer.Prelude.Int.{pos, int_less, int_less→le}
use omega_streamer.Bytes.{Pointer, ◌⊕◌, read_uint24_be}
use omega_streamer.Rtmp.Header.{RtmpMsgHeader, msg_header_size, max_timestamp_in_header}
use omega_streamer.Rtmp.Chunk.{
  BasicHeader, ChunkHeader, message_fields, needs_ext_ts, with_ext_ts, parse_chunk_header,
}
use omega_streamer.Rtmp.Chunk.Bounds.{IsBytes}

-- The bytes that the code reads behind the message header, by fmt: with fmt 0 where the timestamp is
-- 0xFFFFFF, with fmt 3 where the csid has had an extended timestamp before, else none.
abbrev pub ext_ts_len : ℕ → RtmpMsgHeader → ℕ → ℕ
ext_ts_len fmt prev timestamp =
    if (fmt == 0 && timestamp == max_timestamp_in_header) || (fmt == 3 && prev.has_ext_ts)
    then 4
    else 0

with_ext_ts-len :
    (header : RtmpMsgHeader) (p : Pointer) (n len : ℕ) (t : Bool) {h : ChunkHeader}
    → with_ext_ts header p n len t ≡ some h
    → (h.total_header_len ≡ len + (if t then 4 else 0))
      × (h.header.has_ext_ts ≡ (t || header.has_ext_ts))
unfolding with_ext_ts
with_ext_ts-len header p n len true eq =
    let (c, o) = some-of-if (int_less n (pos (len + 4))) _ eq in ground arith
with_ext_ts-len header p n len false eq =
    let (c, o) = some-of-if (int_less n (pos len)) _ eq in ground arith

needs_ext_ts-eq :
    (fmt : ℕ) (prev : RtmpMsgHeader) (p : Pointer) (header : RtmpMsgHeader)
    → fmt < 4
    → IsBytes (msg_header_size fmt) p
    → (if needs_ext_ts fmt prev p (message_fields fmt prev p header) then 4 else 0)
      ≡ ext_ts_len fmt prev (read_uint24_be p)
unfolding needs_ext_ts message_fields
needs_ext_ts-eq zero prev p header lt b =
    ground (arith, b 0 (omega arith), b 1 (omega arith), b 2 (omega arith))
needs_ext_ts-eq (suc zero) prev p header lt b =
    ground (arith, b 0 (omega arith), b 1 (omega arith), b 2 (omega arith))
needs_ext_ts-eq (suc (suc zero)) prev p header lt b =
    ground (arith, b 0 (omega arith), b 1 (omega arith), b 2 (omega arith))
needs_ext_ts-eq (suc (suc (suc zero))) prev p header lt b = ground arith
needs_ext_ts-eq (suc (suc (suc (suc fmt)))) prev p header lt b = absurd (omega arith)

message_fields-has_ext_ts :
    (fmt : ℕ) (prev : RtmpMsgHeader) (p : Pointer) (header : RtmpMsgHeader)
    → (message_fields fmt prev p header).has_ext_ts ≡ header.has_ext_ts
unfolding message_fields
message_fields-has_ext_ts fmt prev p header = ground arith

module _ (b : BasicHeader) (prev : RtmpMsgHeader) (p : Pointer) {n : ℕ} (small : n < 2 ^ 31)
    {h : ChunkHeader} (parsed : parse_chunk_header b prev p n ≡ some h) where
  -- Where a header is parsed, from fewer than 2 ^ 31 readable bytes, its length is that of its basic header, of the message header that its fmt
  -- announces, and of the extended timestamp: fmt 0 reads one where its 24 bits are all ones, fmt 3
  -- where the csid has had one; fmt 1 and 2 never read one, whatever their delta is.
  pub total_header_len-eq :
      b.fmt < 4
      → IsBytes n p
      → h.total_header_len
        ≡ b.header_len
          + msg_header_size b.fmt
          + ext_ts_len b.fmt prev (read_uint24_be (p ⊕ b.header_len))
  unfolding parse_chunk_header
  total_header_len-eq lt bytes =
      let need = b.header_len + msg_header_size b.fmt in
      let q = p ⊕ b.header_len in
      let header₀ : RtmpMsgHeader = record prev { fmt = b.fmt; csid = b.csid } in
      let (c, o) = some-of-if (int_less n (pos need)) _ parsed in
      let le = int_less→le n need small c in
      let fields : IsBytes (msg_header_size b.fmt) q =
        λ i lt'. bytes (b.header_len + i) (omega arith) in
      omega (
        arith,
        with_ext_ts-len (message_fields b.fmt prev q header₀) p n need _ o,
        needs_ext_ts-eq b.fmt prev q header₀ lt fields,
      )

  -- Once a csid has had an extended timestamp, every header that is parsed on it, from fewer than
  -- 2 ^ 31 readable bytes, counts as having one, also a full one (fmt 0) whose timestamp is short.
  pub has_ext_ts-sticky : prev.has_ext_ts ≡ true → h.header.has_ext_ts ≡ true
  unfolding parse_chunk_header
  has_ext_ts-sticky e =
      let need = b.header_len + msg_header_size b.fmt in
      let q = p ⊕ b.header_len in
      let header₀ : RtmpMsgHeader = record prev { fmt = b.fmt; csid = b.csid } in
      let (c, o) = some-of-if (int_less n (pos need)) _ parsed in
      let header = message_fields b.fmt prev q header₀ in
      let t = needs_ext_ts b.fmt prev q header in
      ground
        (arith, with_ext_ts-len header p n need t o, message_fields-has_ext_ts b.fmt prev q header₀)
