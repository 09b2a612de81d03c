-- ===== src/Tests/Contexts.antt =====
-- RTMP contexts that get commands, and the theorems about them at small inputs.
use omega_streamer.Prelude.{ℕ, ◌≡◌, refl, some, List, [], ◌∷◌, arith}
use omega_streamer.Rtmp.Header.{no_message}
use omega_streamer.Rtmp.Chunk.{rtmp_chunk_parse}
use omega_streamer.Rtmp.ChunkParse.Stream.{run}
use omega_streamer.Rtmp.ChunkParse.Invariant.{Holds}
use omega_streamer.Rtmp.SendChunk.{send_chunk}
use omega_streamer.Rtmp.Amf0.RoundTrip.{text, double}
use omega_streamer.Rtmp.Amf0.Sequence.{scalar, nothing}
use omega_streamer.Rtmp.Text.{text_create_stream, text_publish, text_play, text_live}
use omega_streamer.Rtmp.Context.{rtmp_context}
use omega_streamer.Rtmp.Context.Commands.{
  handle_amf0_command, handle_create_stream, handle_publish, handle_play,
}
use omega_streamer.Rtmp.Context.Messages.{handle_message}
use omega_streamer.Rtmp.Context.Messages.Bounds.{IsFresh, run-IsFresh}
use omega_streamer.Rtmp.Context.Messages.Dispatch.{with_items, handle_amf0_command-routes}

initial-IsFresh : IsFresh rtmp_chunk_parse.in_chunk_size rtmp_context
unfolding rtmp_chunk_parse rtmp_context
initial-IsFresh = (omega arith, omega arith, record { unset = refl; uncalled = refl })

-- A video packet on stream 1.
abbrev video_packet : List ℕ
video_packet = send_chunk 6 9 1 (0x17 ∷ 1 ∷ 0 ∷ [])

run-IsFresh_example :
    Holds handle_message IsFresh
      (run (some handle_message) 16 rtmp_chunk_parse rtmp_context video_packet)
run-IsFresh_example = run-IsFresh 16 rtmp_chunk_parse rtmp_context video_packet initial-IsFresh

handle_amf0_command-routes_example :
    (handle_amf0_command rtmp_context
        (with_items no_message (scalar (text text_create_stream) ∷ scalar (double 4) ∷ []))
      ≡ handle_create_stream rtmp_context 4)
    × (handle_amf0_command rtmp_context (
          with_items no_message (
            scalar (text text_publish)
            ∷ scalar (double 4)
            ∷ nothing
            ∷ scalar (text text_live)
            ∷ []))
        ≡ handle_publish rtmp_context text_live)
    × (handle_amf0_command rtmp_context (
          with_items no_message
            (scalar (text text_play) ∷ scalar (double 4) ∷ nothing ∷ scalar (text text_live) ∷ []))
        ≡ handle_play rtmp_context text_live)
handle_amf0_command-routes_example =
    handle_amf0_command-routes rtmp_context no_message 4 nothing text_live [] (omega arith) tt
      (omega arith)
