-- ===== src/Rtmp/Connection/Begun.antt =====
-- What a context sends first, and what no message changes in it after that.
use omega_streamer.Prelude.{ℕ, ◌≡◌, ◌∙◌, sym, ap, refl, subst, List, [], ◌∷◌, ◌++◌, append_assoc}
use omega_streamer.Bytes.{write_uint32_be}
use omega_streamer.Media.MediaSource.{Event}
use omega_streamer.Rtmp.SendChunk.{send_chunk, chunk_prefix}
use omega_streamer.Rtmp.Context.{
  RtmpContext, rtmp_context, on_hand_shake_done, send_message, send_set_chunk_size,
  send_window_ack_size, send_peer_bandwidth,
}
use omega_streamer.Rtmp.Context.Media.{call_source, call_through}
use omega_streamer.Rtmp.Context.Messages.Stable.{IsStable}
use omega_streamer.Rtmp.Context.Messages.Bounds.{HasNoSource, HasNoSource-IsStable}

-- The window of 2500000 bytes, the peer's bandwidth with the limit type 2, and the chunk size 4096,
-- each a chunk of the control csid on the stream 0.
abbrev pub init_messages : List (List ℕ)
init_messages =
    (2 ∷ 0 ∷ 0 ∷ 0 ∷ 0 ∷ 0 ∷ 4 ∷ 5 ∷ 0 ∷ 0 ∷ 0 ∷ 0 ∷ 0x00 ∷ 0x26 ∷ 0x25 ∷ 0xA0 ∷ [])
    ∷ (2 ∷ 0 ∷ 0 ∷ 0 ∷ 0 ∷ 0 ∷ 5 ∷ 6 ∷ 0 ∷ 0 ∷ 0 ∷ 0 ∷ 0x00 ∷ 0x26 ∷ 0x25 ∷ 0xA0 ∷ 2 ∷ [])
    ∷ (2 ∷ 0 ∷ 0 ∷ 0 ∷ 0 ∷ 0 ∷ 4 ∷ 1 ∷ 0 ∷ 0 ∷ 0 ∷ 0 ∷ 0x00 ∷ 0x00 ∷ 0x10 ∷ 0x00 ∷ [])
    ∷ []

-- A context behind the handshake: it has no source and has sent the three messages first.
pub record IsBegun (ctx : RtmpContext) : Type 0 where
  pub chunk_size : ctx.out_chunk_size ≡ 4096
  pub no_source : HasNoSource ctx
  pub replies : List (List ℕ)
  pub in_order : ctx.sent ≡ init_messages ++ replies

send_message-IsBegun :
    (ctx : RtmpContext) (csid msg_type msg_stream_id : ℕ) (bytes : List ℕ)
    → IsBegun ctx
    → IsBegun (send_message ctx csid msg_type msg_stream_id bytes)
unfolding send_message
send_message-IsBegun ctx csid msg_type msg_stream_id bytes h =
    let packet = send_chunk csid msg_type msg_stream_id bytes in
    record {
      chunk_size = h.chunk_size;
      no_source = record { unset = h.no_source.unset; uncalled = h.no_source.uncalled };
      replies = h.replies ++ (packet ∷ []);
      in_order =
          ap (λ l. l ++ (packet ∷ [])) h.in_order
          ∙ append_assoc init_messages h.replies (packet ∷ []);
    }

call_source-IsBegun : (ctx : RtmpContext) (e : Event) → IsBegun ctx → IsBegun (call_source ctx e)
unfolding call_source call_through
call_source-IsBegun ctx e h = subst (λ o. IsBegun (call_through ctx e o)) (sym h.no_source.unset) h

pub IsBegun-IsStable : IsStable IsBegun
IsBegun-IsStable = record {
  quiet = λ sent size source calls h. record {
    chunk_size = size ∙ h.chunk_size;
    no_source = HasNoSource-IsStable.quiet sent size source calls h.no_source;
    replies = h.replies;
    in_order = sent ∙ h.in_order;
  };
  sends = send_message-IsBegun;
  calls = call_source-IsBegun;
}

pub on_hand_shake_done-IsBegun : IsBegun (on_hand_shake_done rtmp_context)
unfolding on_hand_shake_done send_set_chunk_size send_window_ack_size send_peer_bandwidth
    send_message send_chunk chunk_prefix rtmp_context write_uint32_be
on_hand_shake_done-IsBegun = record {
  chunk_size = refl;
  no_source = record { unset = refl; uncalled = refl };
  replies = [];
  in_order = refl;
}
