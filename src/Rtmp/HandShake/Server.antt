-- ===== src/Rtmp/HandShake/Server.antt =====
-- The server's side of the handshake as a machine: the states it reaches and what it has sent in each.
pub mod Answers
use omega_streamer.Prelude.{
  ℕ, ◌+◌, ◌≡◌, ◌∙◌, sym, ap, refl, subst, Bool, true, false, Option, none, some, List, [], ◌∷◌,
  ◌++◌, drop, not, Bool-cases, inl, inr, ltb, ◌==◌, length, if◌then◌else◌,
}
use omega_streamer.Bytes.{at, ◌⊕◌, read_uint32_be}
use omega_streamer.MsgBuffer.{MsgBuffer, peek, readable_bytes, retrieve}
use omega_streamer.Rtmp.Chunk.{read_bytes}
use omega_streamer.Rtmp.HandShake.{
  packet_size, HandShakeState, init, wait_c0c1, post_s0s1, post_s2, wait_c2, post_c0c1, wait_s0s1,
  post_c2, wait_s2, doning, done, RtmpHandShake, rtmp_hand_shake, HandShakeRet, goes_on, finished,
  send, create_c1s1, check_c1s1, create_c2s2, start, write_complete_in, write_complete,
  and_retrieve, after_check, hand_shake_in, hand_shake, get_digest_offset, verify_digest, open_key,
}

-- What a server has sent in each of its states, from its S0S1 and its S2.
abbrev pub HasSent : HandShakeState → List (List ℕ) → List ℕ → List ℕ → Type 0
HasSent wait_c0c1 sent s0s1 s2 = sent ≡ []
HasSent post_s0s1 sent s0s1 s2 = sent ≡ s0s1 ∷ []
HasSent post_s2 sent s0s1 s2 = sent ≡ s0s1 ∷ s2 ∷ []
HasSent wait_c2 sent s0s1 s2 = sent ≡ s0s1 ∷ s2 ∷ []
HasSent done sent s0s1 s2 = sent ≡ s0s1 ∷ s2 ∷ []
HasSent s sent s0s1 s2 = ⊥

abbrev pub IsServer : RtmpHandShake → Type 0
IsServer hs = HasSent hs.state hs.sent hs.c1s1 hs.c2s2

-- A server's handshake, where a call does not fail an assert.
abbrev Keeps : Option (HandShakeRet × (RtmpHandShake × MsgBuffer)) → Type 0
Keeps none = Unit
Keeps (some (ret, (hs, buf))) = IsServer hs

and_retrieve-Keeps :
    (ret : HandShakeRet) (hs : RtmpHandShake) (o : Option MsgBuffer)
    → IsServer hs
    → Keeps (and_retrieve ret hs o)
unfolding and_retrieve
and_retrieve-Keeps ret hs none h = tt
and_retrieve-Keeps ret hs (some buf) h = h

module _ (hmac : List ℕ → List ℕ → List ℕ) where
  -- CheckC1S1 changes at most the kind of the handshake.
  record Unchanged (hs hs' : RtmpHandShake) : Type 0 where
    same_state : hs'.state ≡ hs.state
    same_sent : hs'.sent ≡ hs.sent
    same_c1s1 : hs'.c1s1 ≡ hs.c1s1

  record Kept (hs : RtmpHandShake) (r : Option ℕ × RtmpHandShake) : Type 0 where
    kept : Unchanged hs r.1

  if-Kept :
      {hs : RtmpHandShake} {x y : Option ℕ × RtmpHandShake} (c : Bool)
      → Kept hs x
      → Kept hs y
      → Kept hs (if c then x else y)
  if-Kept true u v = u
  if-Kept false u v = v

  check_c1s1-Kept : (hs : RtmpHandShake) (bytes : List ℕ) → Kept hs (check_c1s1 hmac hs bytes)
  unfolding check_c1s1
  check_c1s1-Kept hs bytes =
      let packet = drop 1 bytes in
      let key = open_key (not hs.is_client) in
      if-Kept (not (length bytes == packet_size + 1)) same (
        if-Kept (not (at bytes 0 == 3)) same (
          if-Kept (read_uint32_be (at bytes ⊕ 5) == 0) simple (
            if-Kept (verify_digest hmac packet (get_digest_offset packet 8 728) key) same (
              if-Kept (verify_digest hmac packet (get_digest_offset packet 772 728) key) same
                simple))))
    where
      same : {o : Option ℕ} → Kept hs (o, hs)
      same = record { kept = record { same_state = refl; same_sent = refl; same_c1s1 = refl } }

      simple : {o : Option ℕ} → Kept hs (o, record hs { is_complex_handshake = false })
      simple = record { kept = record { same_state = refl; same_sent = refl; same_c1s1 = refl } }

  module _ (random : ℕ → ℕ) (now : ℕ) where
    create_c2s2-Unchanged :
        (hs : RtmpHandShake) (bytes : List ℕ) (offset : ℕ)
        → Unchanged hs (create_c2s2 hmac random now hs bytes offset)
    unfolding create_c2s2
    create_c2s2-Unchanged hs bytes offset = elim (Bool-cases hs.is_complex_handshake) [
      | inl complex ↦
          simp complex (record { same_state = refl; same_sent = refl; same_c1s1 = refl })
      | inr simple ↦ simp simple (record { same_state = refl; same_sent = refl; same_c1s1 = refl })
    ]

    after_check-Keeps :
        (hs : RtmpHandShake) (buf : MsgBuffer) (bytes : List ℕ) (o : Option ℕ) (hs' : RtmpHandShake)
        → hs.state ≡ wait_c0c1
        → hs.sent ≡ []
        → Unchanged hs hs'
        → Keeps (after_check hmac random now wait_c0c1 buf bytes (o, hs'))
    unfolding after_check send
    after_check-Keeps hs buf bytes none hs' waits nothing u =
        subst (λ s. HasSent s hs'.sent hs'.c1s1 hs'.c2s2) (sym (u.same_state ∙ waits))
          (u.same_sent ∙ nothing)
    after_check-Keeps hs buf bytes (some offset) hs' waits nothing u =
        let c = create_c2s2-Unchanged hs' (drop 1 bytes) offset in
        let hs'' = create_c2s2 hmac random now hs' (drop 1 bytes) offset in
        and_retrieve-Keeps goes_on _ (retrieve buf (packet_size + 1))
          (ap (λ l. l ++ (hs''.c1s1 ∷ [])) (c.same_sent ∙ u.same_sent ∙ nothing))

    -- A call of HandShake in the state that the server is in.
    hand_shake_in-Keeps :
        (state : HandShakeState) (hs : RtmpHandShake) (buf : MsgBuffer)
        → hs.state ≡ state
        → HasSent state hs.sent hs.c1s1 hs.c2s2
        → Keeps (hand_shake_in hmac random now state hs buf)
    unfolding hand_shake_in
    hand_shake_in-Keeps init hs buf e h = absurd h
    hand_shake_in-Keeps wait_c0c1 hs buf e h =
        let bytes = read_bytes (peek buf) (packet_size + 1) in
        elim (Bool-cases (ltb (readable_bytes buf) (packet_size + 1))) [
          | inl few ↦ rw few (subst (λ s. HasSent s hs.sent hs.c1s1 hs.c2s2) (sym e) h)
          | inr enough ↦
              let r = check_c1s1 hmac hs bytes in
              rw enough (after_check-Keeps hs buf bytes r.0 r.1 e h (check_c1s1-Kept hs bytes).kept)
        ]
    hand_shake_in-Keeps post_s0s1 hs buf e h =
        subst (λ s. HasSent s hs.sent hs.c1s1 hs.c2s2) (sym e) h
    hand_shake_in-Keeps post_s2 hs buf e h =
        subst (λ s. HasSent s hs.sent hs.c1s1 hs.c2s2) (sym e) h
    hand_shake_in-Keeps wait_c2 hs buf e h =
        elim (Bool-cases (ltb (readable_bytes buf) packet_size)) [
          | inl few ↦ rw few (subst (λ s. HasSent s hs.sent hs.c1s1 hs.c2s2) (sym e) h)
          | inr enough ↦ rw enough (
              and_retrieve-Keeps finished (record hs { state = done }) (retrieve buf packet_size) h)
        ]
    hand_shake_in-Keeps post_c0c1 hs buf e h = absurd h
    hand_shake_in-Keeps wait_s0s1 hs buf e h = absurd h
    hand_shake_in-Keeps post_c2 hs buf e h = absurd h
    hand_shake_in-Keeps wait_s2 hs buf e h = absurd h
    hand_shake_in-Keeps doning hs buf e h = absurd h
    hand_shake_in-Keeps done hs buf e h = subst (λ s. HasSent s hs.sent hs.c1s1 hs.c2s2) (sym e) h

  -- The calls that a connection makes: HandShake on whatever buffer, and WriteComplete.
  pub data Step : RtmpHandShake → RtmpHandShake → Type 0 where
    shakes :
        (random : ℕ → ℕ) (now : ℕ) (hs hs' : RtmpHandShake) (buf buf' : MsgBuffer)
        (ret : HandShakeRet)
        → hand_shake hmac random now hs buf ≡ some (ret, (hs', buf'))
        → Step hs hs'
    completes : (hs : RtmpHandShake) → Step hs (write_complete hs)

  pub data Reaches (hs : RtmpHandShake) : RtmpHandShake → Type 0 where
    here : Reaches hs hs
    next : {hs' hs'' : RtmpHandShake} → Reaches hs hs' → Step hs' hs'' → Reaches hs hs''

  write_complete_in-IsServer :
      (state : HandShakeState) (hs : RtmpHandShake)
      → hs.state ≡ state
      → HasSent state hs.sent hs.c1s1 hs.c2s2
      → IsServer (write_complete_in state hs)
  unfolding write_complete_in send
  write_complete_in-IsServer init hs e h = absurd h
  write_complete_in-IsServer wait_c0c1 hs e h =
      subst (λ s. HasSent s hs.sent hs.c1s1 hs.c2s2) (sym e) h
  write_complete_in-IsServer post_s0s1 hs e h = ap (λ l. l ++ (hs.c2s2 ∷ [])) h
  write_complete_in-IsServer post_s2 hs e h = h
  write_complete_in-IsServer wait_c2 hs e h =
      subst (λ s. HasSent s hs.sent hs.c1s1 hs.c2s2) (sym e) h
  write_complete_in-IsServer post_c0c1 hs e h = absurd h
  write_complete_in-IsServer wait_s0s1 hs e h = absurd h
  write_complete_in-IsServer post_c2 hs e h = absurd h
  write_complete_in-IsServer wait_s2 hs e h = absurd h
  write_complete_in-IsServer doning hs e h = absurd h
  write_complete_in-IsServer done hs e h = subst (λ s. HasSent s hs.sent hs.c1s1 hs.c2s2) (sym e) h

  pub Step-IsServer : {hs hs' : RtmpHandShake} → Step hs hs' → IsServer hs → IsServer hs'
  unfolding hand_shake write_complete
  Step-IsServer (shakes random now hs hs' buf buf' ret e) h =
      subst Keeps e (hand_shake_in-Keeps random now hs.state hs buf refl h)
  Step-IsServer (completes hs) h = write_complete_in-IsServer hs.state hs refl h

  pub start-IsServer : (random : ℕ → ℕ) → IsServer (start hmac random (rtmp_hand_shake false))
  unfolding start rtmp_hand_shake create_c1s1
  start-IsServer random = refl

  -- A server that has started only ever waits for C0C1, posts S0S1, posts its second packet, waits for
  -- the client's second packet or is done, whatever it reads and whenever its writes complete; and it has
  -- sent nothing, then its S0S1, and from the completion of that write on its S0S1 and its second packet,
  -- in this order and each once.
  pub Reaches-IsServer :
      (random : ℕ → ℕ) {hs : RtmpHandShake}
      → Reaches (start hmac random (rtmp_hand_shake false)) hs
      → IsServer hs
  Reaches-IsServer random here = start-IsServer random
  Reaches-IsServer random (next r s) = Step-IsServer s (Reaches-IsServer random r)
