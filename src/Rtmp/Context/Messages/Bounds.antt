-- ===== src/Rtmp/Context/Messages/Bounds.antt =====
-- What no message changes in a context, and what it keeps of the chunk size.
use omega_streamer.Prelude.{
  if_both, ℕ, subst, ◌≤◌, ◌≡◌, refl, ◌∙◌, sym, none, some, List, [], arith, ◌==◌,
}
use omega_streamer.Media.MediaSource.{Event}
use omega_streamer.Rtmp.Header.{
  RtmpMessage, max_chunk_size, msg_type_set_chunk_size, msg_type_amf0_command, msg_type_amf0_data,
  msg_type_audio, msg_type_video,
}
use omega_streamer.Rtmp.Context.{RtmpContext, send_message}
use omega_streamer.Rtmp.Context.Media.{call_source, call_through}
use omega_streamer.Rtmp.Context.Messages.{handle_set_chunk_size, handle_message}
use omega_streamer.Rtmp.Chunk.{RtmpChunkParse}
use omega_streamer.Rtmp.Context.Messages.Stable.{IsStable, handle_message-Kept}
use omega_streamer.Rtmp.ChunkParse.Stream.{run}
use omega_streamer.Rtmp.ChunkParse.Invariant.{Holds, run-Holds}

-- The context has no media source, and has called none.
pub record HasNoSource (ctx : RtmpContext) : Type 0 where
  pub unset : ctx.media_source ≡ none
  pub uncalled : ctx.source_calls ≡ []

HasNoSource-same :
    {ctx ctx' : RtmpContext}
    → ctx'.media_source ≡ ctx.media_source
    → ctx'.source_calls ≡ ctx.source_calls
    → HasNoSource ctx
    → HasNoSource ctx'
HasNoSource-same e f h = record { unset = e ∙ h.unset; uncalled = f ∙ h.uncalled }

-- Without a source nothing is called.
call_source-HasNoSource :
    (ctx : RtmpContext) (e : Event) → HasNoSource ctx → HasNoSource (call_source ctx e)
unfolding call_source call_through
call_source-HasNoSource ctx e h = subst (λ o. HasNoSource (call_through ctx e o)) (sym h.unset) h

send_message-HasNoSource :
    (ctx : RtmpContext) (csid msg_type msg_stream_id : ℕ) (bytes : List ℕ)
    → HasNoSource ctx
    → HasNoSource (send_message ctx csid msg_type msg_stream_id bytes)
unfolding send_message
send_message-HasNoSource ctx csid msg_type msg_stream_id bytes h = HasNoSource-same refl refl h

pub HasNoSource-IsStable : IsStable HasNoSource
HasNoSource-IsStable = record {
  quiet = λ sent size source calls h. HasNoSource-same source calls h;
  sends = send_message-HasNoSource;
  calls = call_source-HasNoSource;
}

-- The chunk size is one that the protocol allows, and the context has no media source.
abbrev pub IsFresh : ℕ → RtmpContext → Type 0
IsFresh size ctx = (1 ≤ size) × (size ≤ max_chunk_size) × HasNoSource ctx

handle_set_chunk_size-within :
    (size : ℕ) (msg : RtmpMessage)
    → 1 ≤ size
    → size ≤ max_chunk_size
    → (1 ≤ handle_set_chunk_size size msg) × (handle_set_chunk_size size msg ≤ max_chunk_size)
unfolding handle_set_chunk_size
handle_set_chunk_size-within size msg lo hi = ground arith

abbrev IsWithin : ℕ × RtmpContext → Type 0
IsWithin r = (1 ≤ r.0) × (r.0 ≤ max_chunk_size)

handle_message-within :
    (msg : RtmpMessage) (size : ℕ) (ctx : RtmpContext)
    → 1 ≤ size
    → size ≤ max_chunk_size
    → (1 ≤ (handle_message msg size ctx).0) × ((handle_message msg size ctx).0 ≤ max_chunk_size)
unfolding handle_message
handle_message-within msg size ctx lo hi =
    let t = msg.header.msg_type in
    if_both IsWithin (t == msg_type_set_chunk_size) (handle_set_chunk_size-within size msg lo hi) (
      if_both IsWithin (t == msg_type_amf0_command) (lo, hi)
        (if_both IsWithin (t == msg_type_amf0_data) (lo, hi)
          (if_both IsWithin (t == msg_type_audio) (lo, hi)
            (if_both IsWithin (t == msg_type_video) (lo, hi) (lo, hi)))))

-- Every message keeps that.
handle_message-IsFresh :
    (msg : RtmpMessage) (size : ℕ) (ctx : RtmpContext)
    → IsFresh size ctx
    → IsFresh (handle_message msg size ctx).0 (handle_message msg size ctx).1
handle_message-IsFresh msg size ctx (lo, hi, h) =
    let (lo', hi') = handle_message-within msg size ctx lo hi in
    (lo', hi', handle_message-Kept HasNoSource HasNoSource-IsStable msg size ctx h)

-- Whatever bytes a peer sends after the handshake, as long as the run on them stops: the chunk size
-- stays from 1 to 65535, the context still has no media source, and it has handed no packet on.
pub run-IsFresh :
    (f : ℕ) (s : RtmpChunkParse) (ctx : RtmpContext) (l : List ℕ)
    → IsFresh s.in_chunk_size ctx
    → Holds handle_message IsFresh (run (some handle_message) f s ctx l)
run-IsFresh f s ctx l h = run-Holds handle_message IsFresh handle_message-IsFresh f s ctx l h
