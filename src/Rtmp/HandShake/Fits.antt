-- ===== src/Rtmp/HandShake/Fits.antt =====
-- HandShake takes no more from the receive buffer than is there.
use omega_streamer.Prelude.{
  ℕ, ◌+◌, ◌≤◌, ◌≡◌, ◌∙◌, ap, refl, Option, none, some, List, Bool, true, false, drop, drop-drop,
  ltb, leb, leb→le, ltb→le, arith, if◌then◌else◌,
}
use omega_streamer.MsgBuffer.{MsgBuffer, peek, readable_bytes, retrieve}
use omega_streamer.MsgBuffer.Contents.{IsValid, contents, length-contents}
use omega_streamer.MsgBuffer.Retrieve.{retrieve-IsValid}
use omega_streamer.Rtmp.Chunk.{read_bytes}
use omega_streamer.Rtmp.HandShake.{
  packet_size, HandShakeState, init, wait_c0c1, wait_c2, wait_s0s1, wait_s2, RtmpHandShake,
  HandShakeRet, goes_on, finished, check_c1s1, create_c2s2, and_retrieve, after_s0s1, after_check,
  hand_shake_in, hand_shake,
}

-- The call returns with a valid buffer that has lost bytes at its front only.
abbrev pub Fits : List ℕ → Option (HandShakeRet × (RtmpHandShake × MsgBuffer)) → Type 0
Fits l none = ⊥
Fits l (some (ret, (hs, buf))) = IsValid buf × (n : ℕ) × (contents buf ≡ drop n l)

and_retrieve-Fits :
    (l : List ℕ) (ret : HandShakeRet) (hs : RtmpHandShake) (buf : MsgBuffer) (k n : ℕ)
    → IsValid buf
    → contents buf ≡ drop k l
    → n ≤ readable_bytes buf
    → Fits l (and_retrieve ret hs (retrieve buf n))
unfolding and_retrieve
and_retrieve-Fits l ret hs buf k n v e h =
    let (buf', taken, valid, left) =
      retrieve-IsValid {b = buf} n v (omega (arith, length-contents v)) in
    rw (taken, and_retrieve) (valid, k + n, left ∙ ap (drop n) e ∙ drop-drop n k l)

if-Fits :
    (l : List ℕ) (x y : Option (HandShakeRet × (RtmpHandShake × MsgBuffer))) (b : Bool)
    → (b ≡ true → Fits l x)
    → (b ≡ false → Fits l y)
    → Fits l (if b then x else y)
if-Fits l x y true hx hy = hx refl
if-Fits l x y false hx hy = hy refl

after_s0s1-Fits :
    (hs : RtmpHandShake) (buf : MsgBuffer) (n : ℕ)
    → IsValid buf
    → n ≤ readable_bytes buf
    → Fits (contents buf) (after_s0s1 hs (retrieve buf n))
unfolding after_s0s1
after_s0s1-Fits hs buf n v h =
    let (buf', taken, valid, left) =
      retrieve-IsValid {b = buf} n v (omega (arith, length-contents v)) in
    rw (taken, after_s0s1)
      (if-Fits (contents buf) _ _ (leb packet_size (readable_bytes buf'))
        (λ e.
          and_retrieve-Fits (contents buf) finished _ buf' n packet_size valid left (leb→le _ _ e))
        (λ e. (valid, n, left)))

module _ (hmac : List ℕ → List ℕ → List ℕ) (random : ℕ → ℕ) (now : ℕ) where
  after_check-Fits :
      (state : HandShakeState) (buf : MsgBuffer) (bytes : List ℕ) (o : Option ℕ)
      (hs : RtmpHandShake)
      → IsValid buf
      → packet_size + 1 ≤ readable_bytes buf
      → Fits (contents buf) (after_check hmac random now state buf bytes (o, hs))
  unfolding after_check
  after_check-Fits state buf bytes none hs v h = (v, 0, refl)
  after_check-Fits wait_c0c1 buf bytes (some offset) hs v h =
      and_retrieve-Fits (contents buf) goes_on _ buf 0 (packet_size + 1) v refl h
  after_check-Fits init buf bytes (some offset) hs v h =
      after_s0s1-Fits (create_c2s2 hmac random now hs (drop 1 bytes) offset) buf (packet_size + 1) v
        h
  after_check-Fits _ buf bytes (some offset) hs v h =
      after_s0s1-Fits (create_c2s2 hmac random now hs (drop 1 bytes) offset) buf (packet_size + 1) v
        h

  hand_shake_in-Fits :
      (state : HandShakeState) (hs : RtmpHandShake) (buf : MsgBuffer)
      → IsValid buf
      → Fits (contents buf) (hand_shake_in hmac random now state hs buf)
  unfolding hand_shake_in
  hand_shake_in-Fits wait_c0c1 hs buf v =
      let r = check_c1s1 hmac hs (read_bytes (peek buf) (packet_size + 1)) in
      if-Fits (contents buf) _ _ (ltb (readable_bytes buf) (packet_size + 1)) (λ e. (v, 0, refl))
        (λ e.
          after_check-Fits wait_c0c1 buf (read_bytes (peek buf) (packet_size + 1)) r.0 r.1 v
            (ltb→le _ _ e))
  hand_shake_in-Fits wait_s0s1 hs buf v =
      let r = check_c1s1 hmac hs (read_bytes (peek buf) (packet_size + 1)) in
      if-Fits (contents buf) _ _ (ltb (readable_bytes buf) (packet_size + 1)) (λ e. (v, 0, refl))
        (λ e.
          after_check-Fits wait_s0s1 buf (read_bytes (peek buf) (packet_size + 1)) r.0 r.1 v
            (ltb→le _ _ e))
  hand_shake_in-Fits wait_c2 hs buf v =
      if-Fits (contents buf) _ _ (ltb (readable_bytes buf) packet_size) (λ e. (v, 0, refl))
        (λ e. and_retrieve-Fits (contents buf) finished _ buf 0 packet_size v refl (ltb→le _ _ e))
  hand_shake_in-Fits wait_s2 hs buf v =
      if-Fits (contents buf) _ _ (ltb (readable_bytes buf) packet_size) (λ e. (v, 0, refl))
        (λ e. and_retrieve-Fits (contents buf) finished _ buf 0 packet_size v refl (ltb→le _ _ e))
  hand_shake_in-Fits _ hs buf v = (v, 0, refl)

  -- On a valid buffer HandShake fails no assert, on either side and in whatever state: it leaves the
  -- buffer valid, and takes bytes from its front only.
  pub hand_shake-Fits :
      (hs : RtmpHandShake) (buf : MsgBuffer)
      → IsValid buf
      → Fits (contents buf) (hand_shake hmac random now hs buf)
  unfolding hand_shake
  hand_shake-Fits hs buf v = hand_shake_in-Fits hs.state hs buf v
