-- ===== src/Rtmp/Connection/Steps.antt =====
-- The steps of a handshake on a connection, each from a state to the next.
pub mod Packets
use omega_streamer.Prelude.{
  ℕ, suc, ◌+◌, ◌≤◌, ◌≡◌, ◌∙◌, sym, ap, refl, subst, Bool, true, false, true≢false, Option, some,
  List, [], ◌∷◌, ◌++◌, ◌==◌, ==_iff, not, arith, length, drop, drop-all, ltb, le→ltb, lt→ltb,
  append_assoc, append-nil, length-append, ◌<◌, if◌then◌else◌,
}
use omega_streamer.Bytes.{Pointer, at, ◌⊕◌, read_uint32_be}
use omega_streamer.MsgBuffer.{MsgBuffer, peek, readable_bytes, retrieve}
use omega_streamer.MsgBuffer.Contents.{IsValid, contents, length-contents, peek-eq}
use omega_streamer.MsgBuffer.Retrieve.{retrieve-IsValid}
use omega_streamer.Network.TcpConnection.{read_size}
use omega_streamer.Network.TcpConnection.Receive.{receive-IsValid}
use omega_streamer.Rtmp.Chunk.{rtmp_chunk_parse, read_bytes}
use omega_streamer.Rtmp.Chunk.Sound.{length-read_bytes}
use omega_streamer.Rtmp.Context.{rtmp_context, on_hand_shake_done}
use omega_streamer.Rtmp.HandShake.{
  packet_size, HandShakeState, wait_c0c1, post_s0s1, post_s2, wait_c2, done, is_done, RtmpHandShake,
  goes_on, finished, verify_digest, check_c1s1, create_c2s2, send, write_complete_in,
  write_complete, and_retrieve, after_check, hand_shake_in, hand_shake,
}
use omega_streamer.Rtmp.Connection.{
  RtmpConnection, returned, parse_chunks, after_hand_shake, on_write_complete, ConnectionEvent,
  reads, write_completes, on_message, on_received, connection_step, and_events, connection_steps,
}

-- An open connection whose handshake is in a state, with nothing sent by the context and these bytes
-- unread.
pub record IsAt (state : HandShakeState) (unread : List ℕ) (c : RtmpConnection) : Type 0 where
  pub at_state : c.m_hand_shake.state ≡ state
  pub valid : IsValid c.recv_buf
  pub buffered : contents c.recv_buf ≡ unread
  pub context_is : c.context ≡ rtmp_context
  pub parser_is : c.chunk_parse ≡ rtmp_chunk_parse
  pub opened : c.closed ≡ false

-- An open connection whose handshake is done, with nothing unread, nothing parsed yet and nothing sent
-- but what the context sends first.
pub record IsThrough (c : RtmpConnection) : Type 0 where
  pub through : c.m_hand_shake.state ≡ done
  pub valid : IsValid c.recv_buf
  pub nothing_left : contents c.recv_buf ≡ []
  pub begun : c.context ≡ on_hand_shake_done rtmp_context
  pub fresh : c.chunk_parse ≡ rtmp_chunk_parse
  pub calls : c.calls_back ≡ true
  pub opened : c.closed ≡ false

-- What comes with one read: the random bytes, the clock and the bytes.
abbrev pub Piece : Type 0
Piece = (ℕ → ℕ) × ℕ × List ℕ

abbrev pub arrived : List Piece → List ℕ
arrived [] = []
arrived ((random, now, bytes) ∷ rest) = bytes ++ arrived rest

abbrev pub arrivals : List Piece → List ConnectionEvent → List ConnectionEvent
arrivals [] es = es
arrivals ((random, now, bytes) ∷ rest) es = reads random now bytes ∷ arrivals rest es

pub on_write_complete-at :
    (state : HandShakeState) (c : RtmpConnection)
    → c.m_hand_shake.state ≡ state
    → is_done state ≡ false
    → on_write_complete c ≡ record c { m_hand_shake = write_complete_in state c.m_hand_shake }
unfolding on_write_complete write_complete
on_write_complete-at state c e n =
    ap (λ b. if b then c else record c { m_hand_shake = write_complete c.m_hand_shake })
      (ap is_done e ∙ n)
    ∙ ap (λ s. record c { m_hand_shake = write_complete_in s c.m_hand_shake }) e

module _ (hmac : List ℕ → List ℕ → List ℕ) where
  pub steps-next :
      (c c' : RtmpConnection) (e : ConnectionEvent) (es : List ConnectionEvent)
      → connection_step hmac c e ≡ returned c'
      → connection_steps hmac c (e ∷ es) ≡ connection_steps hmac c' es
  unfolding connection_steps and_events
  steps-next c c' e es h = ap (λ o. and_events hmac (λ x. connection_steps hmac x es) o) h

  pub completes-IsAt :
      (state next : HandShakeState) (unread : List ℕ) (c : RtmpConnection)
      → is_done state ≡ false
      → ((hs : RtmpHandShake) → (write_complete_in state hs).state ≡ next)
      → IsAt state unread c
      → (c' : RtmpConnection) × (connection_step hmac c write_completes ≡ returned c')
        × IsAt next unread c'
  unfolding connection_step
  completes-IsAt state next unread c n moves h = (
    record c { m_hand_shake = write_complete_in state c.m_hand_shake },
    ap returned (on_write_complete-at state c h.at_state n),
    record {
      at_state = moves c.m_hand_shake;
      valid = h.valid;
      buffered = h.buffered;
      context_is = h.context_is;
      parser_is = h.parser_is;
      opened = h.opened;
    },
  )

  module _ (random : ℕ → ℕ) (now : ℕ) where
    pub on_message-at :
        (state : HandShakeState) (c : RtmpConnection)
        → c.m_hand_shake.state ≡ state
        → is_done state ≡ false
        → on_message hmac random now c
          ≡ after_hand_shake c (hand_shake_in hmac random now state c.m_hand_shake c.recv_buf)
    unfolding on_message hand_shake
    on_message-at state c e n =
        ap
          (λ b.
            if b
            then parse_chunks c
            else after_hand_shake c (hand_shake hmac random now c.m_hand_shake c.recv_buf))
          (ap is_done e ∙ n)
        ∙ ap (λ s. after_hand_shake c (hand_shake_in hmac random now s c.m_hand_shake c.recv_buf)) e

    -- A read puts its bytes behind those that are unread, and goes to onMessage.
    pub reads-IsAt :
        (state : HandShakeState) (unread bytes : List ℕ) (c : RtmpConnection)
        → IsAt state unread c
        → length unread ≤ packet_size
        → length bytes ≤ read_size
        → (c' : RtmpConnection) × (connection_step hmac c (reads random now bytes)
            ≡ on_message hmac random now c')
          × IsAt state (unread ++ bytes) c'
    unfolding connection_step on_received
    reads-IsAt state unread bytes c h few fits =
        let (buf, got, valid, all) =
          receive-IsValid bytes h.valid (omega (arith, ap length h.buffered)) fits in
        (
          record c { recv_buf = buf },
          ap (on_received hmac random now c) got,
          record {
            at_state = h.at_state;
            valid = valid;
            buffered = all ∙ ap (λ l. l ++ bytes) h.buffered;
            context_is = h.context_is;
            parser_is = h.parser_is;
            opened = h.opened;
          },
        )

  -- Too few bytes for a packet of `size` bytes are kept, and more are awaited.
  pub arrivals-IsAt :
      (state : HandShakeState) (size : ℕ)
      → ((random : ℕ → ℕ) (now : ℕ) (l : List ℕ) (c : RtmpConnection)
          → IsAt state l c
          → length l < size
          → on_message hmac random now c ≡ returned c)
      → size ≤ packet_size + 1
      → (unread : List ℕ) (pieces : List Piece) (es : List ConnectionEvent) (c : RtmpConnection)
      → IsAt state unread c
      → length (unread ++ arrived pieces) < size
      → (c' : RtmpConnection) × (connection_steps hmac c (arrivals pieces es)
          ≡ connection_steps hmac c' es)
        × IsAt state (unread ++ arrived pieces) c'
  arrivals-IsAt state size waits most unread [] es c h few =
      (c, refl, subst (λ l. IsAt state l c) (sym (append-nil unread)) h)
  arrivals-IsAt state size waits most unread ((random, now, bytes) ∷ rest) es c h few =
      let sum = length-append unread (bytes ++ arrived rest) in
      let both : length (unread ++ bytes) + length (arrived rest) < size =
        omega (arith, sum, length-append unread bytes, length-append bytes (arrived rest)) in
      let regroup = append_assoc unread bytes (arrived rest) in
      let (c₁, read₁, at₁) =
        reads-IsAt random now state unread bytes c h (omega (arith, length-append unread bytes))
          (omega (arith, length-append unread bytes)) in
      let (c₂, rest₂, at₂) =
        arrivals-IsAt state size waits most (unread ++ bytes) rest es c₁ at₁
          (subst (λ l. length l < size) (sym regroup) few) in
      (
        c₂,
        steps-next c c₁ (reads random now bytes) (arrivals rest es)
              (read₁ ∙ waits random now (unread ++ bytes) c₁ at₁ (omega arith))
            ∙ rest₂,
        subst (λ l. IsAt state l c₂) regroup at₂,
      )
