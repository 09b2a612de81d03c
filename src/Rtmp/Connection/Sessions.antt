-- ===== src/Rtmp/Connection/Sessions.antt =====
-- A connection behind its handshake is the chunk parser on what it reads.
use omega_streamer.Prelude.{
  ℕ, true, ◌≡◌, ◌∙◌, refl, ap, Option, none, some, List, [], ◌∷◌, ◌++◌, if◌then◌else◌,
}
use omega_streamer.MsgBuffer.{MsgBuffer}
use omega_streamer.MsgBuffer.Contents.{contents}
use omega_streamer.Network.TcpConnection.{receive}
use omega_streamer.Rtmp.Chunk.{RtmpChunkParse}
use omega_streamer.Rtmp.ChunkParse.Defs.{
  Session, Ret, more, ok, error, threw, assert_failed, MessageCallback, parse,
}
use omega_streamer.Rtmp.ChunkParse.Stream.{stopped}
use omega_streamer.Rtmp.ChunkParse.Refine.{view}
use omega_streamer.Rtmp.ChunkParse.Reads.{parse_received, on_read, and_reads, on_reads, concat}
use omega_streamer.Rtmp.Context.{RtmpContext}
use omega_streamer.Rtmp.Context.Messages.{handle_message}
use omega_streamer.Rtmp.HandShake.{done, is_done, hand_shake}
use omega_streamer.Rtmp.Connection.{
  RtmpConnection, returned, message_callback, after_parse, parse_chunks, after_hand_shake, reads,
  on_message, on_received, connection_step, connection_steps,
}
use omega_streamer.Rtmp.Connection.Steps.{Piece, arrived, arrivals, steps-next}

-- The bytes of each read.
abbrev pub cuts : List Piece → List (List ℕ)
cuts [] = []
cuts ((random, now, bytes) ∷ rest) = bytes ∷ cuts rest

pub concat-cuts : (pieces : List Piece) → concat (cuts pieces) ≡ arrived pieces
concat-cuts [] = refl
concat-cuts ((random, now, bytes) ∷ rest) = ap (λ l. bytes ++ l) (concat-cuts rest)

-- What the parser works on.
abbrev pub session : RtmpConnection → Session RtmpContext
session c = record { parser = c.chunk_parse; buf = c.recv_buf; ctx = c.context }

abbrev pub with_session : RtmpConnection → Session RtmpContext → RtmpConnection
with_session c st = record c { context = st.ctx; chunk_parse = st.parser; recv_buf = st.buf }

-- A result of Parse that shows as a stop is a return of 0 with just that session.
pub view-stopped :
    {σ : Type 0} (o : Option (Ret × Session σ)) (s : RtmpChunkParse) (ctx : σ) (l : List ℕ)
    → view o ≡ stopped s ctx l
    → (st : Session σ) × (o ≡ some (ok, st))
      × (st.parser ≡ s)
      × (st.ctx ≡ ctx)
      × (contents st.buf ≡ l)
unfolding view
view-stopped none s ctx l e = absurd cc
view-stopped (some (more, st)) s ctx l e = absurd cc
view-stopped (some (ok, st)) s ctx l e = (st, refl, cc, cc, cc)
view-stopped (some (error, st)) s ctx l e = absurd cc
view-stopped (some (threw, st)) s ctx l e = absurd cc
view-stopped (some (assert_failed, st)) s ctx l e = absurd cc

module _ {σ : Type 0} (msg_cb : Option (MessageCallback σ)) where
  -- Reads that end by a return of 0 have a first that does.
  and_reads-ok :
      (next : Session σ → Option (Ret × Session σ)) (o : Option (Ret × Session σ)) (st : Session σ)
      → and_reads msg_cb next o ≡ some (ok, st)
      → (st₁ : Session σ) × (o ≡ some (ok, st₁)) × (next st₁ ≡ some (ok, st))
  unfolding and_reads
  and_reads-ok next none st e = absurd cc
  and_reads-ok next (some (more, st₁)) st e = absurd cc
  and_reads-ok next (some (ok, st₁)) st e = (st₁, refl, e)
  and_reads-ok next (some (error, st₁)) st e = absurd cc
  and_reads-ok next (some (threw, st₁)) st e = absurd cc
  and_reads-ok next (some (assert_failed, st₁)) st e = absurd cc

-- Behind Parse nothing is left of the buffer that was read.
after_parse-buf :
    (c : RtmpConnection) (buf : MsgBuffer) (o : Option (Ret × Session RtmpContext))
    → after_parse (record c { recv_buf = buf }) o ≡ after_parse c o
unfolding after_parse
after_parse-buf c buf none = refl
after_parse-buf c buf (some (more, st)) = refl
after_parse-buf c buf (some (ok, st)) = refl
after_parse-buf c buf (some (error, st)) = refl
after_parse-buf c buf (some (threw, st)) = refl
after_parse-buf c buf (some (assert_failed, st)) = refl

module _ (hmac : List ℕ → List ℕ → List ℕ) where
  on_received-parses :
      (random : ℕ → ℕ) (now : ℕ) (c : RtmpConnection) (o : Option MsgBuffer)
      → c.m_hand_shake.state ≡ done
      → c.calls_back ≡ true
      → on_received hmac random now c o
        ≡ after_parse c (parse_received (some handle_message) o (session c))
  unfolding on_received on_message parse_received after_parse is_done parse_chunks message_callback
  on_received-parses random now c none e calls = refl
  on_received-parses random now c (some buf) e calls =
      let c' : RtmpConnection = record c { recv_buf = buf } in
      ap
        (λ s.
          if is_done s
          then parse_chunks c'
          else after_hand_shake c' (hand_shake hmac random now c.m_hand_shake buf))
        e
      ∙ ap (λ b. after_parse c' (parse (message_callback b) (session c'))) calls
      ∙ after_parse-buf c buf (parse (some handle_message) (session c'))

  -- Reads that the parser takes with a return of 0 each leave the connection open, with what the parser
  -- has made of them.
  pub steps-session :
      (pieces : List Piece) (c : RtmpConnection) (st : Session RtmpContext)
      → c.m_hand_shake.state ≡ done
      → c.calls_back ≡ true
      → on_reads (some handle_message) (session c) (cuts pieces) ≡ some (ok, st)
      → connection_steps hmac c (arrivals pieces []) ≡ returned (with_session c st)
  unfolding on_reads connection_steps on_read connection_step after_parse
  steps-session [] c st e calls h =
      let same : session c ≡ st = cc in ap (λ t. returned (with_session c t)) same
  steps-session ((random, now, bytes) ∷ rest) c st e calls h =
      let (st₁, first, others) =
        and_reads-ok (some handle_message) (λ st'. on_reads (some handle_message) st' (cuts rest))
          (on_read (some handle_message) (session c) bytes) st h in
      steps-next hmac c (with_session c st₁) (reads random now bytes) (arrivals rest []) (
        on_received-parses random now c (receive c.recv_buf bytes) e calls
        ∙ ap (after_parse c) first)
      ∙ steps-session rest (with_session c st₁) st e calls others
