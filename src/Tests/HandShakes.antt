-- ===== src/Tests/HandShakes.antt =====
-- The handshake with a hash that is the same for all texts, and the theorems about it.
use omega_streamer.Prelude.{arith, ℕ, ◌≡◌, refl, true, false, some, List, [], ◌∷◌, drop}
use omega_streamer.MsgBuffer.{MsgBuffer, readable_bytes}
use omega_streamer.MsgBuffer.Contents.{IsValid, contents}
use omega_streamer.Rtmp.HandShake.Fits.{Fits, hand_shake-Fits}
use omega_streamer.Rtmp.HandShake.{
  RtmpHandShake, rtmp_hand_shake, random_bytes, get_digest_offset, create_c1s1, check_c1s1, start,
  hand_shake, hand_shake_in, goes_on,
}
use omega_streamer.Rtmp.HandShake.Digest.{length-random_bytes}
use omega_streamer.Rtmp.HandShake.Accept.{check_c1s1-create_c1s1}
use omega_streamer.Rtmp.HandShake.Server.{IsServer, shakes, here, next, Reaches-IsServer}

abbrev pub sevens : List ℕ → List ℕ → List ℕ
sevens key text = random_bytes (λ _. 7) 32

abbrev pub bytes : ℕ → ℕ
bytes i = 200

check_c1s1-create_c1s1_example :
    check_c1s1 sevens (rtmp_hand_shake false) (create_c1s1 sevens bytes (rtmp_hand_shake true)).c1s1
    ≡ (
      some
          (get_digest_offset (drop 1 (create_c1s1 sevens bytes (rtmp_hand_shake true)).c1s1) 8 728),
      rtmp_hand_shake false,
    )
unfolding rtmp_hand_shake
check_c1s1-create_c1s1_example =
    check_c1s1-create_c1s1 sevens bytes (rtmp_hand_shake true) (rtmp_hand_shake false)
      (λ key text. length-random_bytes (λ _. 7) 32) refl refl

-- Two bytes of C0C1.
abbrev pub some_bytes : MsgBuffer
some_bytes = record { buf_ = 3 ∷ 0 ∷ 0 ∷ []; head_ = 0; tail_ = 2 }

abbrev pub server : RtmpHandShake
server = start sevens bytes (rtmp_hand_shake false)

too_few : hand_shake sevens bytes 0 server some_bytes ≡ some (goes_on, (server, some_bytes))
unfolding hand_shake hand_shake_in start rtmp_hand_shake readable_bytes
too_few = refl

Reaches-IsServer_example : IsServer server
Reaches-IsServer_example =
    Reaches-IsServer sevens bytes
      (next here (shakes bytes 0 server server some_bytes some_bytes goes_on too_few))

some_bytes-IsValid : IsValid some_bytes
some_bytes-IsValid = record { ordered = omega arith; inside = omega arith; small = omega arith }

hand_shake-Fits_example : Fits (contents some_bytes) (hand_shake sevens bytes 0 server some_bytes)
hand_shake-Fits_example = hand_shake-Fits sevens bytes 0 server some_bytes some_bytes-IsValid
