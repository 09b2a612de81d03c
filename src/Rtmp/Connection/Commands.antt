-- ===== src/Rtmp/Connection/Commands.antt =====
-- The AMF0 commands of a client whose handshake is done.
use omega_streamer.Prelude.{
  ℕ, ◌+◌, ◌<◌, ◌^◌, ◌≡◌, ◌∙◌, refl, sym, ap, subst, List, [], ◌∷◌, ◌++◌, All, length,
}
use omega_streamer.Network.TcpConnection.{read_size}
use omega_streamer.Rtmp.Header.{default_chunk_size, msg_type_amf0_command}
use omega_streamer.Rtmp.Chunk.{rtmp_chunk_parse}
use omega_streamer.Rtmp.Chunk.Bounds.{IsValid, rtmp_chunk_parse-IsValid}
use omega_streamer.Rtmp.ChunkParse.Reads.{IsRead, concat}
use omega_streamer.Rtmp.Amf0.Sequence.{Item, encode_items}
use omega_streamer.Rtmp.Context.{RtmpContext, rtmp_context, on_hand_shake_done}
use omega_streamer.Rtmp.Context.Commands.{handle_amf0_command}
use omega_streamer.Rtmp.SendChunk.Reassembly.{HasNoExtTs}
use omega_streamer.Rtmp.Context.Messages.{handle_message}
use omega_streamer.Rtmp.Context.Messages.Delivered.{
  ClientMessage, client_message, wire, delivered, IsCut, AllCut,
}
use omega_streamer.Rtmp.Connection.{
  RtmpConnection, Outcome, returned, terminated, aborted, out_of_fuel, ConnectionEvent, and_events,
  connection_step, connection_steps,
}
use omega_streamer.Rtmp.Connection.Steps.{Piece, arrived, arrivals, IsThrough}
use omega_streamer.Rtmp.Connection.Sessions.{cuts}
use omega_streamer.Rtmp.Connection.Delivers.{IsReady, connection_steps-delivers}

pub IsThrough-IsReady : {c : RtmpConnection} → IsThrough c → IsReady c
unfolding rtmp_chunk_parse
IsThrough-IsReady h = record {
  through = h.through;
  calls = h.calls;
  opened = h.opened;
  buffer = h.valid;
  parser = subst (λ s. IsValid s) (sym h.fresh) rtmp_chunk_parse-IsValid;
  no_ext_ts = subst (λ s. HasNoExtTs s) (sym h.fresh) (λ k. refl);
  nothing_left = h.nothing_left;
}

-- An AMF0 command in its chunks, on a csid and a stream.
pub record Command : Type 0 where
  pub csid : ℕ
  pub msg_stream_id : ℕ
  pub first : List ℕ
  pub others : List (List ℕ)

abbrev pub command_message : Command → ClientMessage
command_message k = record {
  csid = k.csid;
  msg_type = msg_type_amf0_command;
  msg_stream_id = k.msg_stream_id;
  first = k.first;
  others = k.others;
}

-- The chunks have the size that a parser expects first, and hold these values.
pub record IsCommand (items : List Item) (k : Command) : Type 0 where
  pub cut : IsCut default_chunk_size (command_message k)
  pub encoded : k.first ++ concat k.others ≡ encode_items [] items

abbrev pub messages : List Command → List ClientMessage
messages [] = []
messages (k ∷ ks) = command_message k ∷ messages ks

-- What the commands make of a context.
unfoldable pub commanded : List Command → RtmpContext → RtmpContext
commanded [] ctx = ctx
commanded (k ∷ ks) ctx = commanded ks (handle_amf0_command ctx (client_message (command_message k)))

abbrev pub AllCommands : List Command → Type 0
AllCommands ks = All (λ k. IsCut default_chunk_size (command_message k)) ks

-- A command goes to its handler, and keeps the chunk size.
delivered-messages :
    (ks : List Command) (size : ℕ) (ctx : RtmpContext)
    → delivered (messages ks) size ctx ≡ (size, commanded ks ctx)
unfolding delivered handle_message commanded
delivered-messages [] size ctx = refl
delivered-messages (k ∷ ks) size ctx =
    delivered-messages ks size (handle_amf0_command ctx (client_message (command_message k)))

AllCommands-AllCut :
    (ks : List Command) (ctx : RtmpContext)
    → AllCommands ks
    → AllCut (messages ks) default_chunk_size ctx
unfolding handle_message
AllCommands-AllCut [] ctx h = tt
AllCommands-AllCut (k ∷ ks) ctx (h, hs) =
    (h, AllCommands-AllCut ks (handle_amf0_command ctx (client_message (command_message k))) hs)

module _ (hmac : List ℕ → List ℕ → List ℕ) where
  and_events-append :
      (c' : RtmpConnection) (es es' : List ConnectionEvent) (o : Outcome)
      → ((c : RtmpConnection)
          → connection_steps hmac c es ≡ returned c'
          → connection_steps hmac c (es ++ es') ≡ connection_steps hmac c' es')
      → and_events hmac (λ c. connection_steps hmac c es) o ≡ returned c'
      → and_events hmac (λ c. connection_steps hmac c (es ++ es')) o ≡ connection_steps hmac c' es'
  unfolding and_events
  and_events-append c' es es' (returned c) ih h = ih c h
  and_events-append c' es es' terminated ih h = absurd cc
  and_events-append c' es es' aborted ih h = absurd cc
  and_events-append c' es es' out_of_fuel ih h = absurd cc

  pub steps-append :
      (c c' : RtmpConnection) (es es' : List ConnectionEvent)
      → connection_steps hmac c es ≡ returned c'
      → connection_steps hmac c (es ++ es') ≡ connection_steps hmac c' es'
  unfolding connection_steps
  steps-append c c' [] es' h = let same : c ≡ c' = cc in ap (λ x. connection_steps hmac x es') same
  steps-append c c' (e ∷ es) es' h =
      and_events-append c' es es' (connection_step hmac c e) (λ x. steps-append x c' es es') h

  -- The commands of a client that is through its handshake.
  pub commands-delivered :
      (ks : List Command) (pieces : List Piece) (c : RtmpConnection)
      → IsThrough c
      → AllCommands ks
      → All IsRead (cuts pieces)
      → arrived pieces ≡ wire (messages ks)
      → length (wire (messages ks)) + read_size < 2 ^ 31
      → (c' : RtmpConnection) × (connection_steps hmac c (arrivals pieces []) ≡ returned c')
        × IsReady c'
        × (c'.context ≡ commanded ks (on_hand_shake_done rtmp_context))
  unfolding rtmp_chunk_parse
  commands-delivered ks pieces c h short r same small =
      let size : c.chunk_parse.in_chunk_size ≡ default_chunk_size =
        ap (λ s. s.in_chunk_size) h.fresh in
      let (c', returns, ready, now) =
        connection_steps-delivers hmac c (messages ks) pieces (IsThrough-IsReady h)
          (subst (λ n. AllCut (messages ks) n c.context) (sym size)
            (AllCommands-AllCut ks c.context short))
          r same small in
      (
        c',
        returns,
        ready,
        ap (λ p. p.1) (now ∙ delivered-messages ks c.chunk_parse.in_chunk_size c.context)
            ∙ ap (commanded ks) h.begun,
      )
