-- ===== src/Rtmp/Connection/Steps/Packets.antt =====
-- The packets of a handshake that a server waits for: what it does with each, and with too few bytes.
use omega_streamer.Prelude.{
  ℕ, suc, ◌+◌, ◌≡◌, ◌∙◌, sym, ap, refl, Bool, true, false, true≢false, Option, some, List, [], ◌==◌,
  ==_iff, not, arith, length, drop, drop-all, ltb, le→ltb, lt→ltb, ◌<◌, if◌then◌else◌,
}
use omega_streamer.Bytes.{Pointer, at, ◌⊕◌, read_uint32_be}
use omega_streamer.MsgBuffer.{MsgBuffer, peek, readable_bytes, retrieve}
use omega_streamer.MsgBuffer.Contents.{contents, length-contents, peek-eq}
use omega_streamer.MsgBuffer.Retrieve.{retrieve-IsValid}
use omega_streamer.Rtmp.Chunk.{read_bytes}
use omega_streamer.Rtmp.Chunk.Sound.{length-read_bytes}
use omega_streamer.Rtmp.Context.{on_hand_shake_done}
use omega_streamer.Rtmp.HandShake.{
  packet_size, wait_c0c1, post_s0s1, post_s2, wait_c2, done, is_done, RtmpHandShake, goes_on,
  finished, verify_digest, check_c1s1, create_c2s2, send, and_retrieve, after_check, hand_shake_in,
}
use omega_streamer.Rtmp.Connection.{
  RtmpConnection, returned, parse_chunks, after_hand_shake, on_message,
}
use omega_streamer.Rtmp.Connection.Steps.{IsAt, IsThrough, on_message-at}

-- A check that accepts.
abbrev Accepts : Option ℕ × RtmpHandShake → Type 0
Accepts r = (offset : ℕ) × (r.0 ≡ some offset)

if-Accepts :
    (x y : Option ℕ × RtmpHandShake) (b : Bool)
    → Accepts x
    → Accepts y
    → Accepts (if b then x else y)
if-Accepts x y true hx hy = hx
if-Accepts x y false hx hy = hy

if_not-Accepts :
    (x y : Option ℕ × RtmpHandShake) (b : Bool)
    → b ≡ true
    → Accepts y
    → Accepts (if not b then x else y)
if_not-Accepts x y true e h = h
if_not-Accepts x y false e h = absurd (true≢false (sym e))

-- Any packet of the right size and version is accepted: without a digest for the simple handshake.
check_c1s1-Accepts :
    (hmac : List ℕ → List ℕ → List ℕ) (hs : RtmpHandShake) (bytes : List ℕ)
    → length bytes ≡ packet_size + 1
    → at bytes 0 ≡ 3
    → Accepts (check_c1s1 hmac hs bytes)
unfolding check_c1s1
check_c1s1-Accepts hmac hs bytes size version =
    if_not-Accepts _ _ (length bytes == packet_size + 1) ((==_iff _ _).1 size) (
      if_not-Accepts _ _ (at bytes 0 == 3) ((==_iff _ _).1 version) (
        if-Accepts _ _ (read_uint32_be (at bytes ⊕ 5) == 0) (0, refl)
          (if-Accepts _ _ (verify_digest hmac _ _ _) (_, refl)
            (if-Accepts _ _ (verify_digest hmac _ _ _) (_, refl) (0, refl)))))

at-read_bytes : (p : Pointer) (n : ℕ) → at (read_bytes p (suc n)) 0 ≡ p 0
unfolding read_bytes
at-read_bytes p n = refl

module _ (hmac : List ℕ → List ℕ → List ℕ) (random : ℕ → ℕ) (now : ℕ) where
  after_check-some :
      (buf : MsgBuffer) (bytes : List ℕ) (r : Option ℕ × RtmpHandShake) (offset : ℕ)
      → r.0 ≡ some offset
      → after_check hmac random now wait_c0c1 buf bytes r
        ≡ after_check hmac random now wait_c0c1 buf bytes (some offset, r.1)
  after_check-some buf bytes r offset e =
      ap (λ o. after_check hmac random now wait_c0c1 buf bytes (o, r.1)) e

  -- The C0C1 that a server waits for: it answers with its S0S1.
  pub c0c1-IsAt :
      (c0c1 : List ℕ) (c : RtmpConnection)
      → IsAt wait_c0c1 c0c1 c
      → length c0c1 ≡ packet_size + 1
      → at c0c1 0 ≡ 3
      → (c' : RtmpConnection) × (on_message hmac random now c ≡ returned c') × IsAt post_s0s1 [] c'
  unfolding after_check hand_shake_in and_retrieve after_hand_shake send is_done
  c0c1-IsAt c0c1 c h size version =
      let buf = c.recv_buf in
      let hs = c.m_hand_shake in
      let bytes = read_bytes (peek buf) (packet_size + 1) in
      let many : length (contents buf) ≡ packet_size + 1 = ap length h.buffered ∙ size in
      let readable : readable_bytes buf ≡ packet_size + 1 = sym (length-contents h.valid) ∙ many in
      let first : at bytes 0 ≡ 3 =
        at-read_bytes (peek buf) packet_size
        ∙ peek-eq 0 h.valid (omega (arith, readable))
        ∙ ap (λ l. at l 0) h.buffered
        ∙ version in
      let (offset, ok) =
        check_c1s1-Accepts hmac hs bytes (length-read_bytes (peek buf) (packet_size + 1)) first in
      let (buf', taken, valid, left) =
        retrieve-IsValid {b = buf} (packet_size + 1) h.valid (omega (arith, many)) in
      let hs₁ = (check_c1s1 hmac hs bytes).1 in
      let hs₂ = create_c2s2 hmac random now hs₁ (drop 1 bytes) offset in
      let hs₃ = send (record hs₂ { state = post_s0s1 }) hs₂.c1s1 in
      let enough : ltb (readable_bytes buf) (packet_size + 1) ≡ false =
        le→ltb (readable_bytes buf) (packet_size + 1) (omega (arith, readable)) in
      (
        record c { m_hand_shake = hs₃; recv_buf = buf' },
        on_message-at hmac random now wait_c0c1 c h.at_state refl
            ∙ ap (after_hand_shake c) (
                ap
                  (λ b.
                    if b
                    then some (goes_on, (hs, buf))
                    else after_check hmac random now wait_c0c1 buf bytes (check_c1s1 hmac hs bytes))
                  enough
                ∙ after_check-some buf bytes (check_c1s1 hmac hs bytes) offset ok
                ∙ ap (and_retrieve goes_on hs₃) taken),
        record {
          at_state = refl;
          valid = valid;
          buffered = left ∙ drop-all (packet_size + 1) (contents buf) (omega (arith, many));
          context_is = h.context_is;
          parser_is = h.parser_is;
          opened = h.opened;
        },
      )

  -- The second packet of a client, with no byte behind it: the handshake is done.
  pub c2-done :
      (c2 : List ℕ) (c : RtmpConnection)
      → IsAt wait_c2 c2 c
      → length c2 ≡ packet_size
      → (c' : RtmpConnection) × (on_message hmac random now c ≡ returned c') × IsThrough c'
  unfolding hand_shake_in and_retrieve after_hand_shake is_done
  c2-done c2 c h size =
      let buf = c.recv_buf in
      let hs = c.m_hand_shake in
      let many : length (contents buf) ≡ packet_size = ap length h.buffered ∙ size in
      let readable : readable_bytes buf ≡ packet_size = sym (length-contents h.valid) ∙ many in
      let (buf', taken, valid, left) =
        retrieve-IsValid {b = buf} packet_size h.valid (omega (arith, many)) in
      let nothing : contents buf' ≡ [] =
        left ∙ drop-all packet_size (contents buf) (omega (arith, many)) in
      let none_left : (readable_bytes buf' == 0) ≡ true =
        (==_iff _ _).1 (sym (length-contents valid) ∙ ap length nothing) in
      let enough : ltb (readable_bytes buf) packet_size ≡ false =
        le→ltb (readable_bytes buf) packet_size (omega (arith, readable)) in
      let hs' : RtmpHandShake = record hs { state = done } in
      let c' : RtmpConnection = record c {
        context = on_hand_shake_done c.context;
        m_hand_shake = hs';
        calls_back = true;
        recv_buf = buf';
      } in
      (
        c',
        on_message-at hmac random now wait_c2 c h.at_state refl
            ∙ ap (after_hand_shake c) (
                ap
                  (λ b.
                    if b
                    then some (goes_on, (hs, buf))
                    else and_retrieve finished hs' (retrieve buf packet_size))
                  enough
                ∙ ap (and_retrieve finished hs') taken)
            ∙ ap (λ b. if b then returned c' else parse_chunks c') none_left,
        record {
          through = refl;
          valid = valid;
          nothing_left = nothing;
          begun = ap on_hand_shake_done h.context_is;
          fresh = h.parser_is;
          calls = refl;
          opened = h.opened;
        },
      )

  -- Before its second packet is written a server does not read.
  pub post_s2-IsAt :
      (unread : List ℕ) (c : RtmpConnection)
      → IsAt post_s2 unread c
      → on_message hmac random now c ≡ returned c
  unfolding hand_shake_in after_hand_shake is_done
  post_s2-IsAt unread c h = on_message-at hmac random now post_s2 c h.at_state refl

  -- A packet that is not whole is awaited.
  pub c0c1-awaited :
      (unread : List ℕ) (c : RtmpConnection)
      → IsAt wait_c0c1 unread c
      → length unread < packet_size + 1
      → on_message hmac random now c ≡ returned c
  unfolding hand_shake_in after_hand_shake is_done
  c0c1-awaited unread c h few =
      let buf = c.recv_buf in
      let hs = c.m_hand_shake in
      let bytes = read_bytes (peek buf) (packet_size + 1) in
      on_message-at hmac random now wait_c0c1 c h.at_state refl
      ∙ ap
          (λ b. after_hand_shake c (
            if b
            then some (goes_on, (hs, buf))
            else after_check hmac random now wait_c0c1 buf bytes (check_c1s1 hmac hs bytes)))
          (lt→ltb (readable_bytes buf) (packet_size + 1)
            (omega (arith, length-contents h.valid, ap length h.buffered)))

  pub c2-awaited :
      (unread : List ℕ) (c : RtmpConnection)
      → IsAt wait_c2 unread c
      → length unread < packet_size
      → on_message hmac random now c ≡ returned c
  unfolding hand_shake_in after_hand_shake is_done
  c2-awaited unread c h few =
      let buf = c.recv_buf in
      let hs = c.m_hand_shake in
      on_message-at hmac random now wait_c2 c h.at_state refl
      ∙ ap
          (λ b. after_hand_shake c (
            if b
            then some (goes_on, (hs, buf))
            else and_retrieve finished (record hs { state = done }) (retrieve buf packet_size)))
          (lt→ltb (readable_bytes buf) packet_size
            (omega (arith, length-contents h.valid, ap length h.buffered)))
