-- ===== src/Rtmp/Context/Messages/Delivered.antt =====
-- What a client's messages do to a context, each cut into chunks as the parser expects them.
use omega_streamer.Prelude.{
  ℕ, suc, ◌+◌, ◌-◌, ◌≤◌, ◌<◌, ◌^◌, ◌≡◌, ◌∙◌, refl, ap, some, List, [], ◌∷◌, ◌++◌, arith, length,
  length-append, true, min,
}
use omega_streamer.Rtmp.Header.{RtmpMsgHeader, no_header, RtmpMessage, no_message, is_complete}
use omega_streamer.Rtmp.Chunk.{RtmpChunkParse, update, set_in_chunk_size}
use omega_streamer.Rtmp.Chunk.Sound.{update_self}
use omega_streamer.Rtmp.ChunkParse.Defs.{call_back, deliver}
use omega_streamer.Rtmp.ChunkParse.Reads.{concat}
use omega_streamer.Rtmp.ChunkParse.Stream.{run, stopped, run-empty}
use omega_streamer.Rtmp.SendChunk.FirstChunk.{
  sent_header, first_chunk, first_message, after_message, length-first_chunk, run-first_chunk,
}
use omega_streamer.Rtmp.SendChunk.Reassembly.{
  Cuts, continuations, rounds, HasNoExtTs, update-HasNoExtTs, with_more, IsUnderWay,
  run-continuations,
}
use omega_streamer.Rtmp.Context.{RtmpContext}
use omega_streamer.Rtmp.Context.Commands.{handle_amf0_command}
use omega_streamer.Rtmp.Context.Media.{
  make_packet, named_data, handle_amf0_data, handle_audio_data, handle_video_data,
}
use omega_streamer.Rtmp.Context.Messages.{handle_set_chunk_size, handle_message}

-- A message as a client sends it: its body is cut into pieces, one for each chunk.
pub record ClientMessage : Type 0 where
  pub csid : ℕ
  pub msg_type : ℕ
  pub msg_stream_id : ℕ
  pub first : List ℕ
  pub others : List (List ℕ)

abbrev pub body : ClientMessage → List ℕ
body m = m.first ++ concat m.others

-- The bytes of the messages: a chunk of fmt 0, and one of fmt 3 for each further piece.
unfoldable pub wire : List ClientMessage → List ℕ
wire [] = []
wire (m ∷ ms) =
    first_chunk m.csid m.msg_type m.msg_stream_id (length (body m)) m.first
    ++ (continuations m.csid m.others ++ wire ms)

-- The message that a handler sees.
abbrev pub client_message : ClientMessage → RtmpMessage
client_message m = record {
  header = sent_header no_header m.csid m.msg_type m.msg_stream_id (length (body m));
  payload = body m;
}

-- The messages handled one after the other: the chunk size that is expected, and the context.
unfoldable pub delivered : List ClientMessage → ℕ → RtmpContext → ℕ × RtmpContext
delivered [] size ctx = (size, ctx)
delivered (m ∷ ms) size ctx =
    let (size', ctx') = handle_message (client_message m) size ctx in delivered ms size' ctx'

-- A message whose pieces are as long as the chunk size that is expected, but for the last.
pub record IsCut (size : ℕ) (m : ClientMessage) : Type 0 where
  pub lowest : 2 ≤ m.csid
  pub highest : m.csid < 64
  pub stream : m.msg_stream_id < 2 ^ 32
  pub announced : length (body m) < 2 ^ 24
  pub full : length m.first ≡ min (length (body m)) size
  pub further : Cuts size (length (body m) - length m.first) m.others

-- Each of the messages is cut by the chunk size of its time, when those before it are handled.
abbrev pub AllCut : List ClientMessage → ℕ → RtmpContext → Type 0
AllCut [] size ctx = Unit
AllCut (m ∷ ms) size ctx =
    IsCut size m
    × AllCut ms (handle_message (client_message m) size ctx).0
        (handle_message (client_message m) size ctx).1

-- No handler looks at the csid, the fmt or `has_ext_ts`.
handle_message-header :
    (prev : RtmpMsgHeader) (fmt : ℕ) (m : ClientMessage) (size : ℕ) (ctx : RtmpContext)
    → handle_message
        (with_more
          (sent_header prev m.csid m.msg_type m.msg_stream_id (length (body m)))
          fmt
          (body m))
        size
        ctx
      ≡ handle_message (client_message m) size ctx
unfolding handle_message handle_set_chunk_size handle_amf0_command handle_amf0_data named_data
    handle_audio_data handle_video_data make_packet
handle_message-header prev fmt m size ctx = refl

-- A parser's run that takes all its input.
pub record Takes (f : ℕ) (s : RtmpChunkParse) (ctx : RtmpContext) (l : List ℕ) (r : ℕ × RtmpContext)
    : Type 0 where
  pub parser : RtmpChunkParse
  pub ran : run (some handle_message) f s ctx l ≡ stopped parser r.1 []
  pub chunk_size : parser.in_chunk_size ≡ r.0
  pub no_ext_ts : HasNoExtTs parser

-- A round for each chunk, and one to see that nothing is left.
abbrev pub all_rounds : List ClientMessage → ℕ → ℕ
all_rounds [] g = suc g
all_rounds (m ∷ ms) g = suc (rounds m.others (all_rounds ms g))

rounds-le : (ps : List (List ℕ)) (g : ℕ) → g ≤ rounds ps g
rounds-le [] g = omega arith
rounds-le (p ∷ ps) g = omega (arith, rounds-le ps g)

pub all_rounds-lt : (ms : List ClientMessage) (g : ℕ) → g < all_rounds ms g
all_rounds-lt [] g = omega arith
all_rounds-lt (m ∷ ms) g = omega (arith, all_rounds-lt ms g, rounds-le m.others (all_rounds ms g))

-- The parser and the context behind a message, with what its handler gives.
abbrev settled : RtmpChunkParse → ℕ → ℕ × RtmpContext → RtmpChunkParse × RtmpContext
settled s csid r = (
  record s { in_progress = update s.in_progress csid (some no_message); in_chunk_size = r.0 },
  r.1,
)

deliver-whole :
    (csid : ℕ) (msg : RtmpMessage) (s : RtmpChunkParse) (ctx : RtmpContext)
    → is_complete msg ≡ true
    → deliver (some handle_message) csid msg s ctx
      ≡ settled s csid (handle_message msg s.in_chunk_size ctx)
unfolding deliver call_back set_in_chunk_size
deliver-whole csid msg s ctx whole = rw whole refl

-- The chunks of a message are joined, and its handler gets it.
module _ (m : ClientMessage) (s : RtmpChunkParse) (ctx : RtmpContext) (rest : List ℕ) (g : ℕ)
    (cut : IsCut s.in_chunk_size m) (short : HasNoExtTs s) where
  record TakesOne (r : ℕ × RtmpContext) : Type 0 where
    parser : RtmpChunkParse
    ran :
        run (some handle_message) (suc (rounds m.others g)) s ctx (
          first_chunk m.csid m.msg_type m.msg_stream_id (length (body m)) m.first
          ++ (continuations m.csid m.others ++ rest))
        ≡ (let (s', ctx') = settled parser m.csid r in run (some handle_message) g s' ctx' rest)
    no_ext_ts : HasNoExtTs parser

  run-message :
      12 + length (m.first ++ (continuations m.csid m.others ++ rest)) < 2 ^ 31
      → TakesOne (handle_message (client_message m) s.in_chunk_size ctx)
  run-message small =
      let more = continuations m.csid m.others ++ rest in
      let prev = s.prev_headers m.csid in
      let msg =
        first_message s m.csid m.msg_type m.msg_stream_id (length (body m)) m.first more
          cut.announced cut.full small in
      let s₁ = after_message s m.csid msg in
      let u : IsUnderWay m.csid s₁ msg = record {
        stored = update_self s.in_progress m.csid (some msg);
        announced = cut.announced;
        timestamp = ap (λ h. h.timestamp) (update_self s.prev_headers m.csid msg.header);
        no_ext_ts = update-HasNoExtTs s.prev_headers m.csid msg.header short (short m.csid);
      } in
      let j =
        run-continuations (some handle_message) m.csid ctx rest g m.others s₁ msg cut.lowest
          cut.highest u (omega (arith, length-append m.first (concat m.others))) cut.further
          (omega (arith, length-append m.first more)) in
      record {
        parser = j.parser;
        ran =
            run-first_chunk s m.csid m.msg_type m.msg_stream_id (length (body m)) m.first more
              cut.announced cut.full small (some handle_message) (rounds m.others g) ctx cut.lowest
              cut.highest cut.stream
            ∙ j.ran
            ∙ ap (λ r. run (some handle_message) g r.0 r.1 rest)
                (deliver-whole m.csid j.message j.parser ctx j.whole
                  ∙ ap (settled j.parser m.csid) (
                      ap (λ k. handle_message k j.parser.in_chunk_size ctx) j.joined
                      ∙ ap
                          (λ n.
                            handle_message (with_more msg.header j.message.header.fmt (body m)) n
                              ctx)
                          j.chunk_size
                      ∙ handle_message-header prev j.message.header.fmt m s.in_chunk_size ctx));
        no_ext_ts = j.no_ext_ts;
      }

-- A parser without extended timestamps takes messages that are cut as it expects, and hands each to its
-- handler.
pub run-wire :
    (ms : List ClientMessage) (g : ℕ) (s : RtmpChunkParse) (ctx : RtmpContext)
    → length (wire ms) < 2 ^ 31
    → HasNoExtTs s
    → AllCut ms s.in_chunk_size ctx
    → Takes (all_rounds ms g) s ctx (wire ms) (delivered ms s.in_chunk_size ctx)
unfolding wire delivered
run-wire [] g s ctx small short h = record {
  parser = s;
  ran = run-empty (some handle_message) g s ctx [] refl;
  chunk_size = refl;
  no_ext_ts = short;
}
run-wire (m ∷ ms) g s ctx small short (h, hs) =
    let more = continuations m.csid m.others ++ wire ms in
    let chunk = first_chunk m.csid m.msg_type m.msg_stream_id (length (body m)) m.first in
    let sizes = length-append chunk more in
    let size = length-first_chunk m.csid m.msg_type m.msg_stream_id (length (body m)) m.first in
    let one =
      run-message m s ctx (wire ms) (all_rounds ms g) h short
        (omega (arith, sizes, size, length-append m.first more)) in
    let r = handle_message (client_message m) s.in_chunk_size ctx in
    let ih =
      run-wire ms g (settled one.parser m.csid r).0 r.1
        (omega (arith, sizes, length-append (continuations m.csid m.others) (wire ms)))
        one.no_ext_ts hs in
    record {
      parser = ih.parser;
      ran = one.ran ∙ ih.ran;
      chunk_size = ih.chunk_size;
      no_ext_ts = ih.no_ext_ts;
    }
