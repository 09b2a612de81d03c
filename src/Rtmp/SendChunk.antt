-- ===== src/Rtmp/SendChunk.antt =====
-- media/rtmp/RtmpContext.cpp: sendChunk, which sends a message as one chunk of fmt 0.
pub mod FirstChunk
pub mod RoundTrip
pub mod Continuation
pub mod Reassembly
use omega_streamer.Prelude.{ℕ, ◌%◌, List, ◌++◌, length, replicate, set}
use omega_streamer.Bytes.{write_uint8, write_uint24_be, write_uint32_le}

-- `uint8_t header[12]` has no initial value; each of its bytes is written. `csid & 0x3F` is a
-- remainder, and the fmt bits are 0.
unfoldable pub chunk_prefix : ℕ → ℕ → ℕ → ℕ → List ℕ
unfolding write_uint8 write_uint24_be write_uint32_le
chunk_prefix csid msg_type msg_stream_id len =
    let header₀ = write_uint8 (replicate 12 0) 0 (csid % 64) in
    let header₁ = write_uint24_be header₀ 1 0 in
    let header₂ = write_uint24_be header₁ 4 len in
    let header₃ = write_uint8 header₂ 7 msg_type in write_uint32_le header₃ 8 msg_stream_id

-- The packet that is sent, for the bytes of `data`.
unfoldable pub send_chunk : ℕ → ℕ → ℕ → List ℕ → List ℕ
send_chunk csid msg_type msg_stream_id bytes =
    chunk_prefix csid msg_type msg_stream_id (length bytes) ++ bytes
