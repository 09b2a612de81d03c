-- ===== src/Rtmp/Consumer/Reserve.antt =====
-- The size that a consumer reserves for a packet.
use omega_streamer.Prelude.{ℕ, ◌+◌, ◌*◌, ◌≡◌, ◌≢◌, ◌≤◌, ◌<◌, ◌^◌, length}
use omega_streamer.Prelude.Int.{pos}
use omega_streamer.Media.Packet.{Packet, unknown}
use omega_streamer.Rtmp.Consumer.{RtmpConsumer}

-- The chunks that a payload is cut into.
pub record Chunks (size len n : ℕ) : Type 0 where
  pub enough : len ≤ n * size
  pub none_empty : n * size < len + size

-- The sizes for which nothing overflows.
pub record Fits (c : RtmpConsumer) (pkt : Packet) (size : ℕ) : Type 0 where
  pub known : pkt.track ≢ unknown
  pub filled : 0 < length pkt.payload
  pub chunk_size : c.chunk_size ≡ pos size
  pub positive : 0 < size
  pub no_overflow : 12 + length pkt.payload + (length pkt.payload + size) < 2 ^ 31
