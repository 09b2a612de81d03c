-- ===== src/Rtmp/SendChunk/RoundTrip.antt =====
-- The chunk parser reads back what sendChunk sends.
use omega_streamer.Prelude.{ℕ, suc, ◌+◌, ◌≤◌, ◌<◌, ◌^◌, ◌≡◌, Option, arith, length, List, ◌++◌}
use omega_streamer.Rtmp.Header.{RtmpMessage}
use omega_streamer.Rtmp.Chunk.{RtmpChunkParse}
use omega_streamer.Rtmp.ChunkParse.Defs.{MessageCallback, deliver}
use omega_streamer.Rtmp.ChunkParse.Stream.{run}
use omega_streamer.Rtmp.SendChunk.{send_chunk}
use omega_streamer.Rtmp.SendChunk.FirstChunk.{
  sent_header, after_message, first_chunk, run-first_chunk,
}

module _ (s : RtmpChunkParse) (csid t sid : ℕ) (l rest : List ℕ) (lt : length l < 2 ^ 24)
    (fits : length l ≤ s.in_chunk_size) (small : 12 + length (l ++ rest) < 2 ^ 31) where
  -- The message that the parser makes of the packet.
  abbrev pub sent_message : RtmpMessage
  sent_message = record {
    header = sent_header (s.prev_headers csid) csid t sid (length l);
    payload = l;
  }

  -- The parser, in whatever state, reads a packet of sendChunk as exactly that message and goes on
  -- with what follows it: the callback gets the message with its type, stream and payload, for a
  -- csid from 2 to 63, a payload below 2 ^ 24 bytes and no longer than the chunk size that the
  -- parser expects, and a 32-bit stream id.
  pub run-send_chunk :
      {σ : Type 0} (msg_cb : Option (MessageCallback σ)) (f : ℕ) (ctx : σ)
      → 2 ≤ csid
      → csid < 64
      → sid < 2 ^ 32
      → run msg_cb (suc f) s ctx (send_chunk csid t sid l ++ rest) ≡ (
          let (s', ctx') =
            deliver msg_cb csid sent_message (after_message s csid sent_message) ctx in
          run msg_cb f s' ctx' rest)
  unfolding send_chunk first_chunk
  run-send_chunk msg_cb f ctx lo hi ls =
      run-first_chunk s csid t sid (length l) l rest lt (omega (arith, fits)) small msg_cb f ctx lo
        hi ls
