-- ===== src/Rtmp/Connection/Delivers.antt =====
-- What becomes of the messages of a client whose handshake is done.
use omega_streamer.Prelude.{
  ℕ, ◌+◌, ◌<◌, ◌^◌, ◌≡◌, ◌∙◌, refl, sym, ap, subst, true, false, some, List, [], ◌∷◌, ◌++◌, All,
  arith, length, length-append,
}
use omega_streamer.MsgBuffer.Contents.{contents}
use omega_streamer.Network.TcpConnection.{read_size}
use omega_streamer.Rtmp.Chunk.Bounds.{IsValid}
use omega_streamer.Rtmp.ChunkParse.Stream.{run}
use omega_streamer.Rtmp.ChunkParse.Refine.{IsSession}
use omega_streamer.Rtmp.ChunkParse.Reads.{IsRead, on_reads, concat}
use omega_streamer.Rtmp.ChunkParse.Fragments.{on_reads-run, empty-IsIdle}
use omega_streamer.Rtmp.SendChunk.Reassembly.{HasNoExtTs}
use omega_streamer.Rtmp.Context.Messages.{handle_message}
use omega_streamer.Rtmp.Context.Messages.Delivered.{
  ClientMessage, wire, delivered, AllCut, run-wire, all_rounds, all_rounds-lt,
}
use omega_streamer.Rtmp.HandShake.{done}
use omega_streamer.Rtmp.Connection.{RtmpConnection, returned, connection_steps}
use omega_streamer.Rtmp.Connection.Steps.{Piece, arrived, arrivals}
use omega_streamer.Rtmp.Connection.Survives.{
  IsSound, Survives, AllReads, total_read, steps-Survives,
}
use omega_streamer.Rtmp.Connection.Sessions.{
  cuts, concat-cuts, session, with_session, view-stopped, steps-session,
}
use omega_streamer.MsgBuffer.Contents

-- An open connection whose handshake is done, with nothing unread, and no extended timestamp before.
pub record IsReady (c : RtmpConnection) : Type 0 where
  pub through : c.m_hand_shake.state ≡ done
  pub calls : c.calls_back ≡ true
  pub opened : c.closed ≡ false
  pub buffer : Contents.IsValid c.recv_buf
  pub parser : IsValid c.chunk_parse
  pub no_ext_ts : HasNoExtTs c.chunk_parse
  pub nothing_left : contents c.recv_buf ≡ []

arrivals-AllReads : (pieces : List Piece) → All IsRead (cuts pieces) → AllReads (arrivals pieces [])
arrivals-AllReads [] h = tt
arrivals-AllReads ((random, now, bytes) ∷ rest) (h, hs) = (h, arrivals-AllReads rest hs)

total_read-arrivals :
    (pieces : List Piece) → total_read (arrivals pieces []) ≡ length (arrived pieces)
total_read-arrivals [] = refl
total_read-arrivals ((random, now, bytes) ∷ rest) =
    omega (arith, total_read-arrivals rest, length-append bytes (arrived rest))

IsReady-IsSession : {c : RtmpConnection} → IsReady c → IsSession (session c)
IsReady-IsSession h = record {
  buffer = h.buffer;
  parser = h.parser;
  input = rw h.nothing_left (record { bytes = tt; small = omega arith });
}

module _ (hmac : List ℕ → List ℕ → List ℕ) where
  -- A connection that is sound stays so over reads that return.
  arrivals-IsSound :
      (pieces : List Piece) (c c' : RtmpConnection)
      → IsReady c
      → All IsRead (cuts pieces)
      → length (arrived pieces) + read_size < 2 ^ 31
      → connection_steps hmac c (arrivals pieces []) ≡ returned c'
      → IsSound (length (arrived pieces)) c'
  arrivals-IsSound pieces c c' h r small e =
      let total : 0 + total_read (arrivals pieces []) ≡ length (arrived pieces) =
        omega (arith, total_read-arrivals pieces) in
      let sound : IsSound 0 c = record {
        buffer = h.buffer;
        parser = h.parser;
        bytes = rw h.nothing_left tt;
        at_most = omega (arith, ap length h.nothing_left);
      } in
      subst (λ n. IsSound n c') total
        (subst (λ o. Survives (0 + total_read (arrivals pieces [])) o) e
          (steps-Survives hmac 0 c (arrivals pieces []) sound (arrivals-AllReads pieces r)
            (omega (arith, total))))

  pub connection_steps-delivers :
      (c : RtmpConnection) (ms : List ClientMessage) (pieces : List Piece)
      → IsReady c
      → AllCut ms c.chunk_parse.in_chunk_size c.context
      → All IsRead (cuts pieces)
      → arrived pieces ≡ wire ms
      → length (wire ms) + read_size < 2 ^ 31
      → (c' : RtmpConnection) × (connection_steps hmac c (arrivals pieces []) ≡ returned c')
        × IsReady c'
        × ((c'.chunk_parse.in_chunk_size, c'.context)
            ≡ delivered ms c.chunk_parse.in_chunk_size c.context)
  connection_steps-delivers c ms pieces h cut r same small =
      let f = all_rounds ms (length (wire ms)) in
      let enough = all_rounds-lt ms (length (wire ms)) in
      let st = session c in
      let sent : contents st.buf ++ concat (cuts pieces) ≡ wire ms =
        ap (λ l. l ++ concat (cuts pieces)) h.nothing_left ∙ concat-cuts pieces ∙ same in
      let sizes = ap length (concat-cuts pieces ∙ same) in
      let takes = run-wire ms (length (wire ms)) st.parser st.ctx (omega arith) h.no_ext_ts cut in
      let (st', back, parser', ctx', left) =
        view-stopped (on_reads (some handle_message) st (cuts pieces)) takes.parser
          (delivered ms st.parser.in_chunk_size st.ctx).1 []
          (on_reads-run (some handle_message) f st (cuts pieces) (IsReady-IsSession h)
              (empty-IsIdle (some handle_message) st h.nothing_left) r
              (omega (arith, sizes, ap length h.nothing_left))
              (omega (arith, ap length sent, enough))
            ∙ ap (λ l. run (some handle_message) f st.parser st.ctx l) sent
            ∙ takes.ran) in
      let returns = steps-session hmac pieces c st' h.through h.calls back in
      let sound =
        arrivals-IsSound pieces c (with_session c st') h r (omega (arith, ap length same))
          returns in
      let size : st'.parser.in_chunk_size ≡ (delivered ms st.parser.in_chunk_size st.ctx).0 =
        ap (λ s. s.in_chunk_size) parser' ∙ takes.chunk_size in
      (
        with_session c st',
        returns,
        record {
          through = h.through;
          calls = h.calls;
          opened = h.opened;
          buffer = sound.buffer;
          parser = sound.parser;
          no_ext_ts = subst (λ q. HasNoExtTs q) (sym parser') takes.no_ext_ts;
          nothing_left = left;
        },
        cc,
      )
