-- ===== src/Rtmp/HandShake/Server/Answers.antt =====
-- What HandShake returns to a server, and the state that it leaves.
use omega_streamer.Prelude.{
  ℕ, ◌+◌, ◌≡◌, ◌∙◌, ap, refl, Bool, true, false, true≢false, Option, none, some, List, ltb,
  Bool-cases, inl, inr,
}
use omega_streamer.MsgBuffer.{MsgBuffer, peek, readable_bytes, retrieve}
use omega_streamer.Rtmp.Chunk.{read_bytes}
use omega_streamer.Rtmp.HandShake.{
  packet_size, HandShakeState, init, wait_c0c1, post_s0s1, post_s2, wait_c2, post_c0c1, wait_s0s1,
  post_c2, wait_s2, doning, done, is_done, RtmpHandShake, HandShakeRet, goes_on, finished, send,
  check_c1s1, write_complete_in, write_complete, and_retrieve, after_check, hand_shake_in,
  hand_shake,
}
use omega_streamer.Rtmp.HandShake.Server.{HasSent, IsServer, check_c1s1-Kept}

abbrev pub is_finished : HandShakeRet → Bool
is_finished finished = true
is_finished r = false

-- 0 is returned exactly where the handshake is done then.
abbrev pub Answers : Option (HandShakeRet × (RtmpHandShake × MsgBuffer)) → Type 0
Answers none = Unit
Answers (some (ret, (hs, buf))) = is_done hs.state ≡ is_finished ret

and_retrieve-Answers :
    (ret : HandShakeRet) (hs : RtmpHandShake) (o : Option MsgBuffer)
    → is_done hs.state ≡ is_finished ret
    → Answers (and_retrieve ret hs o)
unfolding and_retrieve
and_retrieve-Answers ret hs none h = tt
and_retrieve-Answers ret hs (some buf) h = h

module _ (hmac : List ℕ → List ℕ → List ℕ) (random : ℕ → ℕ) (now : ℕ) where
  after_check-Answers :
      (buf : MsgBuffer) (bytes : List ℕ) (o : Option ℕ) (hs : RtmpHandShake)
      → hs.state ≡ wait_c0c1
      → Answers (after_check hmac random now wait_c0c1 buf bytes (o, hs))
  unfolding after_check send is_done
  after_check-Answers buf bytes none hs waits = ap is_done waits
  after_check-Answers buf bytes (some offset) hs waits =
      and_retrieve-Answers goes_on _ (retrieve buf (packet_size + 1)) refl

  hand_shake_in-Answers :
      (state : HandShakeState) (hs : RtmpHandShake) (buf : MsgBuffer)
      → hs.state ≡ state
      → HasSent state hs.sent hs.c1s1 hs.c2s2
      → is_done state ≡ false
      → Answers (hand_shake_in hmac random now state hs buf)
  unfolding hand_shake_in is_done
  hand_shake_in-Answers init hs buf e h n = absurd h
  hand_shake_in-Answers wait_c0c1 hs buf e h n =
      let bytes = read_bytes (peek buf) (packet_size + 1) in
      elim (Bool-cases (ltb (readable_bytes buf) (packet_size + 1))) [
        | inl few ↦ rw few (ap is_done e)
        | inr enough ↦
            let r = check_c1s1 hmac hs bytes in
            let same = (check_c1s1-Kept hmac hs bytes).kept.same_state in
            rw enough (after_check-Answers buf bytes r.0 r.1 (same ∙ e))
      ]
  hand_shake_in-Answers post_s0s1 hs buf e h n = ap is_done e
  hand_shake_in-Answers post_s2 hs buf e h n = ap is_done e
  hand_shake_in-Answers wait_c2 hs buf e h n =
      elim (Bool-cases (ltb (readable_bytes buf) packet_size)) [
        | inl few ↦ rw few (ap is_done e)
        | inr enough ↦ rw enough (
            and_retrieve-Answers finished (record hs { state = done }) (retrieve buf packet_size)
              refl)
      ]
  hand_shake_in-Answers post_c0c1 hs buf e h n = absurd h
  hand_shake_in-Answers wait_s0s1 hs buf e h n = absurd h
  hand_shake_in-Answers post_c2 hs buf e h n = absurd h
  hand_shake_in-Answers wait_s2 hs buf e h n = absurd h
  hand_shake_in-Answers doning hs buf e h n = absurd h
  hand_shake_in-Answers done hs buf e h n = absurd (true≢false n)

  -- A server that is not done yet is done after a call of HandShake exactly where that returns 0.
  pub hand_shake-Answers :
      (hs : RtmpHandShake) (buf : MsgBuffer)
      → IsServer hs
      → is_done hs.state ≡ false
      → Answers (hand_shake hmac random now hs buf)
  unfolding hand_shake
  hand_shake-Answers hs buf h n = hand_shake_in-Answers hs.state hs buf refl h n

write_complete_in-waits :
    (state : HandShakeState) (hs : RtmpHandShake)
    → hs.state ≡ state
    → HasSent state hs.sent hs.c1s1 hs.c2s2
    → is_done state ≡ false
    → is_done (write_complete_in state hs).state ≡ false
unfolding write_complete_in send is_done
write_complete_in-waits init hs e h n = absurd h
write_complete_in-waits wait_c0c1 hs e h n = ap is_done e
write_complete_in-waits post_s0s1 hs e h n = refl
write_complete_in-waits post_s2 hs e h n = refl
write_complete_in-waits wait_c2 hs e h n = ap is_done e
write_complete_in-waits post_c0c1 hs e h n = absurd h
write_complete_in-waits wait_s0s1 hs e h n = absurd h
write_complete_in-waits post_c2 hs e h n = absurd h
write_complete_in-waits wait_s2 hs e h n = absurd h
write_complete_in-waits doning hs e h n = absurd h
write_complete_in-waits done hs e h n = absurd (true≢false n)

-- No write that completes makes a server done.
pub write_complete-waits :
    (hs : RtmpHandShake)
    → IsServer hs
    → is_done hs.state ≡ false
    → is_done (write_complete hs).state ≡ false
unfolding write_complete
write_complete-waits hs h n = write_complete_in-waits hs.state hs refl h n
