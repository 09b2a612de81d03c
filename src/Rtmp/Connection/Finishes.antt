-- ===== src/Rtmp/Connection/Finishes.antt =====
-- A connection whose peer shakes hands gets through; and what comes too early is left unread.
use omega_streamer.Prelude.{
  ℕ, ◌+◌, ◌≤◌, ◌≡◌, ◌∙◌, refl, List, [], ◌∷◌, ◌++◌, arith, length, length-append, ◌<◌,
}
use omega_streamer.Bytes.{at}
use omega_streamer.MsgBuffer.{buffer_default_length}
use omega_streamer.MsgBuffer.Contents.{msg_buffer-IsValid}
use omega_streamer.Media.MediaSourceMgr.{MediaSourceMgr}
use omega_streamer.Rtmp.HandShake.{
  packet_size, wait_c0c1, post_s0s1, post_s2, wait_c2, is_done, rtmp_hand_shake, create_c1s1, send,
  start, write_complete_in,
}
use omega_streamer.Rtmp.Connection.{
  RtmpConnection, returned, ConnectionEvent, reads, write_completes, rtmp_connection,
  connection_steps,
}
use omega_streamer.Rtmp.Connection.Steps.{
  Piece, arrived, arrivals, arrivals-IsAt, IsAt, IsThrough, steps-next, completes-IsAt, reads-IsAt,
}
use omega_streamer.Rtmp.Connection.Steps.Packets.{c0c1-awaited, c2-awaited, c0c1-IsAt, c2-done}

module _ (hmac : List ℕ → List ℕ → List ℕ) (random : ℕ → ℕ) (registry : MediaSourceMgr) where
  rtmp_connection-IsAt : IsAt wait_c0c1 [] (rtmp_connection hmac random registry)
  unfolding rtmp_connection start rtmp_hand_shake create_c1s1
  rtmp_connection-IsAt =
      let (valid, nothing) = msg_buffer-IsValid buffer_default_length (omega arith) in
      record {
        at_state = refl;
        valid = valid;
        buffered = nothing;
        context_is = refl;
        parser_is = refl;
        opened = refl;
      }

  -- Up to the second packet of the server, which is being written.
  posts_s2 :
      (pieces : List Piece) (random' : ℕ → ℕ) (now : ℕ) (last : List ℕ) (es : List ConnectionEvent)
      → length (arrived pieces) ≤ packet_size
      → length (arrived pieces ++ last) ≡ packet_size + 1
      → at (arrived pieces ++ last) 0 ≡ 3
      → (c : RtmpConnection) × IsAt post_s2 [] c
        × (connection_steps hmac
              (rtmp_connection hmac random registry)
              (arrivals pieces (reads random' now last ∷ write_completes ∷ es))
            ≡ connection_steps hmac c es)
  unfolding write_complete_in send is_done
  posts_s2 pieces random' now last es partial size version =
      let c₀ = rtmp_connection hmac random registry in
      let c0c1 = arrived pieces ++ last in
      let (c₁, pieces₁, at₁) =
        arrivals-IsAt hmac wait_c0c1 (packet_size + 1) (c0c1-awaited hmac) (omega arith) [] pieces
          (reads random' now last ∷ write_completes ∷ es) c₀ rtmp_connection-IsAt (omega arith) in
      let (c₂, read₂, at₂) =
        reads-IsAt hmac random' now wait_c0c1 (arrived pieces) last c₁ at₁ partial
          (omega (arith, length-append (arrived pieces) last)) in
      let (c₃, answered, at₃) = c0c1-IsAt hmac random' now c0c1 c₂ at₂ size version in
      let (c₄, completed, at₄) =
        completes-IsAt hmac post_s0s1 post_s2 [] c₃ refl (λ hs. refl) at₃ in
      (
        c₄,
        at₄,
        pieces₁
            ∙ steps-next hmac c₁ c₃ (reads random' now last) (write_completes ∷ es)
                (read₂ ∙ answered)
            ∙ steps-next hmac c₃ c₄ write_completes es completed,
      )

  -- A client whose first packet has the right size and version, and whose second packet comes after
  -- both writes of the server are complete, gets through, in whatever pieces its packets arrive and
  -- whether or not they are signed: the handshake is done, the connection is open with nothing unread, and
  -- the context has sent exactly what it sends first.
  pub connection_steps-IsThrough :
      (first second : List Piece) (random₁ random₂ : ℕ → ℕ) (now₁ now₂ : ℕ) (last₁ last₂ : List ℕ)
      → length (arrived first) ≤ packet_size
      → length (arrived first ++ last₁) ≡ packet_size + 1
      → at (arrived first ++ last₁) 0 ≡ 3
      → length (arrived second) < packet_size
      → length (arrived second ++ last₂) ≡ packet_size
      → (c : RtmpConnection) × (connection_steps hmac (rtmp_connection hmac random registry) (
            arrivals first (
              reads random₁ now₁ last₁
              ∷ write_completes
              ∷ write_completes
              ∷ arrivals second (reads random₂ now₂ last₂ ∷ [])))
          ≡ returned c)
        × IsThrough c
  unfolding write_complete_in is_done connection_steps
  connection_steps-IsThrough first second random₁ random₂ now₁ now₂ last₁ last₂ partial₁ size₁
        version partial₂ size₂ =
      let end = reads random₂ now₂ last₂ ∷ [] in
      let (c₁, at₁, posted) =
        posts_s2 first random₁ now₁ last₁ (write_completes ∷ arrivals second end) partial₁ size₁
          version in
      let (c₂, completed, at₂) = completes-IsAt hmac post_s2 wait_c2 [] c₁ refl (λ hs. refl) at₁ in
      let (c₃, pieces₃, at₃) =
        arrivals-IsAt hmac wait_c2 packet_size (c2-awaited hmac) (omega arith) [] second end c₂ at₂
          partial₂ in
      let (c₄, read₄, at₄) =
        reads-IsAt hmac random₂ now₂ wait_c2 (arrived second) last₂ c₃ at₃ (omega arith)
          (omega (arith, length-append (arrived second) last₂)) in
      let (c₅, finishes, through) =
        c2-done hmac random₂ now₂ (arrived second ++ last₂) c₄ at₄ size₂ in
      (
        c₅,
        posted
            ∙ steps-next hmac c₁ c₂ write_completes (arrivals second end) completed
            ∙ pieces₃
            ∙ steps-next hmac c₃ c₅ (reads random₂ now₂ last₂) [] (read₄ ∙ finishes),
        through,
      )
