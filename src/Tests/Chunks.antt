-- ===== src/Tests/Chunks.antt =====
-- The chunk parser on small byte strings.
use omega_streamer.Prelude.{ℕ, ◌≡◌, ◌≤◌, refl, ap, Option, some, List, [], ◌∷◌, ◌++◌, arith, length}
use omega_streamer.MsgBuffer.{msg_buffer, buffer_default_length}
use omega_streamer.MsgBuffer.Contents.{contents, msg_buffer-IsValid}
use omega_streamer.Rtmp.Header.{RtmpMessage, no_header}
use omega_streamer.Rtmp.Chunk.{
  rtmp_chunk_parse, read_chunk, after_basic, parse_basic_header, after_header, parse_chunk_header,
  with_ext_ts, needs_ext_ts, message_fields, take_chunk, chunk_data, data_size, update_message,
}
use omega_streamer.Prelude.Int.{int_less}
use omega_streamer.Rtmp.Chunk.Bounds.{rtmp_chunk_parse-IsValid}
use omega_streamer.Rtmp.ChunkParse.Defs.{Session, MessageCallback, parse, deliver, call_back}
use omega_streamer.Rtmp.ChunkParse.Refine.{IsSession, view, parse-run}
use omega_streamer.Rtmp.ChunkParse.Total.{Ends, parse-Ends}
use omega_streamer.Rtmp.ChunkParse.Stream.{Run, stopped, run}
use omega_streamer.Rtmp.SendChunk.{send_chunk, chunk_prefix}
use omega_streamer.Rtmp.SendChunk.RoundTrip.{run-send_chunk}
use omega_streamer.Rtmp.SendChunk.FirstChunk.{sent_header, after_message}
use omega_streamer.Rtmp.ChunkParse.Reads.{on_reads}
use omega_streamer.Rtmp.ChunkParse.Fragments.{empty-IsIdle, on_reads_same_bytes}

-- A callback that keeps the messages, newest first.
abbrev keep : Option (MessageCallback (List RtmpMessage))
keep = some (λ msg size ctx. (size, msg ∷ ctx))

abbrev fresh : Session (List RtmpMessage)
fresh = record { parser = rtmp_chunk_parse; buf = msg_buffer buffer_default_length; ctx = [] }

fresh-contents : contents fresh.buf ≡ []
fresh-contents = (msg_buffer-IsValid buffer_default_length (omega arith)).1

fresh-IsSession : IsSession fresh
fresh-IsSession = record {
  buffer = (msg_buffer-IsValid buffer_default_length (omega arith)).0;
  parser = rtmp_chunk_parse-IsValid;
  input = rw fresh-contents (record { bytes = tt; small = omega arith });
}

-- A chunk of fmt 0 on csid 3: an AMF0 command of three bytes on stream 1.
abbrev header : List ℕ
header = 3 ∷ 0 ∷ 0 ∷ 5 ∷ 0 ∷ 0 ∷ 3 ∷ 20 ∷ 1 ∷ 0 ∷ 0 ∷ 0 ∷ []

abbrev body : List ℕ
body = 7 ∷ 8 ∷ 9 ∷ []

on_reads_same_bytes_example :
    view (on_reads keep fresh (header ∷ body ∷ []))
    ≡ view (on_reads keep fresh ((header ++ body) ∷ []))
on_reads_same_bytes_example =
    on_reads_same_bytes keep fresh (header ∷ body ∷ []) ((header ++ body) ∷ []) fresh-IsSession
      (empty-IsIdle keep fresh fresh-contents) (omega arith) (omega arith)
      (omega (arith, ap length fresh-contents)) refl

-- The buffer that holds the whole chunk and nothing else.
abbrev received : Session (List RtmpMessage)
received = record {
  parser = rtmp_chunk_parse;
  buf = record { buf_ = header ++ body; head_ = 0; tail_ = 15 };
  ctx = [];
}

received-contents : contents received.buf ≡ header ++ body
received-contents = refl

received-IsSession : IsSession received
received-IsSession = record {
  buffer = omega arith;
  parser = rtmp_chunk_parse-IsValid;
  input = rw received-contents (record { bytes = omega arith; small = omega arith });
}

parse-run_example : view (parse keep received) ≡ run keep 16 rtmp_chunk_parse [] (header ++ body)
parse-run_example = parse-run keep 16 received received-IsSession (omega arith)

parse-Ends_example : Ends 15 (parse keep received)
parse-Ends_example = parse-Ends keep received received-IsSession

-- The message that the parser makes of a packet of sendChunk on stream 1.
abbrev sent : RtmpMessage
sent = record { header = sent_header no_header 3 20 1 3; payload = body }

body_fits : length body ≤ rtmp_chunk_parse.in_chunk_size
unfolding rtmp_chunk_parse
body_fits = omega arith

run-send_chunk_example : run keep 9 rtmp_chunk_parse [] (send_chunk 3 20 1 body ++ (0x43 ∷ [])) ≡ (
    let (s', ctx') = deliver keep 3 sent (after_message rtmp_chunk_parse 3 sent) [] in
    run keep 8 s' ctx' (0x43 ∷ []))
unfolding rtmp_chunk_parse
run-send_chunk_example =
    run-send_chunk rtmp_chunk_parse 3 20 1 body (0x43 ∷ []) (omega arith) body_fits (omega arith)
      keep 8 [] (omega arith) (omega arith) (omega arith)

-- The messages that a run hands to `keep`.
abbrev kept : Run (List RtmpMessage) → List RtmpMessage
kept (stopped s ctx l) = ctx
kept _ = []

-- The callback gets the message of the packet, once.
sent_is_delivered : kept (run keep 16 rtmp_chunk_parse [] (send_chunk 3 20 1 body)) ≡ sent ∷ []
unfolding rtmp_chunk_parse run send_chunk chunk_prefix read_chunk after_basic parse_basic_header
    after_header parse_chunk_header int_less with_ext_ts needs_ext_ts message_fields take_chunk
    chunk_data data_size update_message deliver call_back
sent_is_delivered = refl
