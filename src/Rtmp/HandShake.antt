-- ===== src/Rtmp/HandShake.antt =====
-- media/rtmp/RtmpHandShake.h and RtmpHandShake.cpp: the handshake of both sides.
--
-- HMAC-SHA256 of OpenSSL is the parameter `hmac`, from a key and the bytes of all updates. The
-- random bytes of a loop and the clock are arguments. An array is its bytes, and what the connection
-- is given to send is the list `sent`.
pub mod Digest
pub mod Accept
pub mod Server
pub mod Fits
use omega_streamer.Prelude.{
  ℕ, zero, suc, ◌+◌, ◌-◌, ◌%◌, ◌^◌, Bool, true, false, Option, none, some, List, [], ◌∷◌, ◌++◌, ltb,
  leb, ◌==◌, if◌then◌else◌, length, take, drop, set, not,
}
use omega_streamer.Bytes.{at, ◌⊕◌, Pointer, read_uint32_be, write_uint32_be}
use omega_streamer.MsgBuffer.{MsgBuffer, peek, readable_bytes, retrieve}
use omega_streamer.Prelude.Strings.{same_string}
use omega_streamer.Rtmp.Chunk.{read_bytes}
use omega_streamer.Rtmp.HandShakeKeys.{
  rtmp_player_key, rtmp_server_key, player_key_open_part_len, server_key_open_part_len,
}

abbrev pub packet_size : ℕ
packet_size = 1536

abbrev pub sha256_digest_length : ℕ
sha256_digest_length = 32

-- memcpy of `ys` to offset `k`.
unfoldable pub write_bytes : List ℕ → ℕ → List ℕ → List ℕ
write_bytes xs k ys = take k xs ++ (ys ++ drop (k + length ys) xs)

unfoldable pub get_digest_offset : List ℕ → ℕ → ℕ → ℕ
get_digest_offset buf off mod_val =
    (at buf off + at buf (off + 1) + at buf (off + 2) + at buf (off + 3)) % mod_val + (off + 4)

-- The bytes that `random` gives in a loop.
unfoldable pub random_bytes : (ℕ → ℕ) → ℕ → List ℕ
random_bytes random zero = []
random_bytes random (suc n) = random 0 ∷ random_bytes (λ i. random (suc i)) n

pub data HandShakeState : Type 0 where
  init wait_c0c1 post_s0s1 post_s2 wait_c2 : HandShakeState
  post_c0c1 wait_s0s1 post_c2 wait_s2 doning done : HandShakeState

-- IsDone
unfoldable pub is_done : HandShakeState → Bool
is_done done = true
is_done s = false

pub record RtmpHandShake : Type 0 where
  pub is_client : Bool
  pub is_complex_handshake : Bool
  pub digest : List ℕ
  pub c1s1 : List ℕ
  pub c2s2 : List ℕ
  pub state : HandShakeState
  pub sent : List (List ℕ)

unfoldable pub rtmp_hand_shake : Bool → RtmpHandShake
rtmp_hand_shake client = record {
  is_client = client;
  is_complex_handshake = true;
  digest = random_bytes (λ _. 0) sha256_digest_length;
  c1s1 = random_bytes (λ _. 0) (packet_size + 1);
  c2s2 = random_bytes (λ _. 0) packet_size;
  state = init;
  sent = [];
}

-- What HandShake returns: 1, 0 and -1.
pub data HandShakeRet : Type 0 where
  goes_on finished refused : HandShakeRet

-- The key that a side signs its first packet with, as far as it is open, and the whole of it.
unfoldable pub open_key : Bool → List ℕ
open_key true = take player_key_open_part_len rtmp_player_key
open_key false = take server_key_open_part_len rtmp_server_key

unfoldable pub whole_key : Bool → List ℕ
whole_key true = rtmp_player_key
whole_key false = rtmp_server_key

-- Four zeros for the time, and four bytes of the key.
unfoldable pub stamped_packet : Bool → List ℕ → List ℕ
stamped_packet client random =
    write_bytes (write_bytes random 0 (0 ∷ 0 ∷ 0 ∷ 0 ∷ [])) 4 (take 4 (whole_key client))

unfoldable pub send : RtmpHandShake → List ℕ → RtmpHandShake
send hs bytes = record hs { sent = hs.sent ++ (bytes ∷ []) }

module _ (hmac : List ℕ → List ℕ → List ℕ) where
  -- `gap` is where a digest is left out, or 0.
  unfoldable pub calculate_digest : List ℕ → ℕ → ℕ → List ℕ → List ℕ
  calculate_digest src len gap key =
      if gap == 0
      then hmac key (take len src)
      else hmac key (
          take gap src
          ++ take (len - gap - sha256_digest_length) (drop (gap + sha256_digest_length) src))

  unfoldable pub verify_digest : List ℕ → ℕ → List ℕ → Bool
  verify_digest buf digest_pos key =
      same_string (take sha256_digest_length (drop digest_pos buf))
        (calculate_digest buf packet_size digest_pos key)

  -- The packet behind the version byte, with the digest written.
  unfoldable pub signed_packet : Bool → List ℕ → List ℕ
  signed_packet client random =
      let packet = stamped_packet client random in
      let offset = get_digest_offset packet 8 728 in
      write_bytes packet offset (calculate_digest packet packet_size offset (open_key client))

  unfoldable pub simple_packet : List ℕ → List ℕ
  simple_packet random =
      write_bytes (write_bytes random 0 (0 ∷ 0 ∷ 0 ∷ 0 ∷ [])) 4 (0 ∷ 0 ∷ 0 ∷ 0 ∷ [])

  unfoldable pub create_c1s1 : (ℕ → ℕ) → RtmpHandShake → RtmpHandShake
  unfolding signed_packet simple_packet
  create_c1s1 random hs =
      let raw = random_bytes (λ i. random (suc i)) packet_size in
      let packet = signed_packet hs.is_client raw in
      let offset = get_digest_offset packet 8 728 in
      if hs.is_complex_handshake
      then record hs { c1s1 = 3 ∷ packet; digest = take sha256_digest_length (drop offset packet) }
      else record hs { c1s1 = 3 ∷ simple_packet raw }

  -- The offset of the digest, or 0 for the simple handshake; `none` is -1.
  unfoldable pub check_c1s1 : RtmpHandShake → List ℕ → Option ℕ × RtmpHandShake
  unfolding read_uint32_be
  check_c1s1 hs bytes =
      let simple : RtmpHandShake = record hs { is_complex_handshake = false } in
      let packet = drop 1 bytes in
      let key = open_key (not hs.is_client) in
      let first = get_digest_offset packet 8 728 in
      let second = get_digest_offset packet 772 728 in
      if not (length bytes == packet_size + 1)
      then (none, hs)
      else if not (at bytes 0 == 3)
      then (none, hs)
      else if read_uint32_be (at bytes ⊕ 5) == 0
      then (some 0, simple)
      else if verify_digest packet first key
      then (some first, hs)
      else if verify_digest packet second key
      then (some second, hs)
      else (some 0, simple)

  -- `received` is the peer's packet behind its version byte.
  unfoldable pub create_c2s2 : (ℕ → ℕ) → ℕ → RtmpHandShake → List ℕ → ℕ → RtmpHandShake
  unfolding write_uint32_be
  create_c2s2 random now hs received offset =
      let raw = write_bytes (random_bytes random packet_size) 0 (take 8 received) in
      let stamped = write_uint32_be raw 0 (now % 2 ^ 32) in
      let key = whole_key hs.is_client in
      let digest =
        calculate_digest (take sha256_digest_length (drop offset received)) sha256_digest_length 0
          key in
      let signed_len = packet_size - sha256_digest_length in
      if hs.is_complex_handshake
      then record hs {
        c2s2 = write_bytes stamped signed_len (calculate_digest stamped signed_len 0 digest);
      }
      else record hs { c2s2 = stamped }

  unfoldable pub start : (ℕ → ℕ) → RtmpHandShake → RtmpHandShake
  start random hs =
      let hs' = create_c1s1 random hs in
      if hs.is_client
      then send (record hs' { state = post_c0c1 }) hs'.c1s1
      else record hs' { state = wait_c0c1 }

unfoldable pub write_complete_in : HandShakeState → RtmpHandShake → RtmpHandShake
write_complete_in post_s0s1 hs = send (record hs { state = post_s2 }) hs.c2s2
write_complete_in post_s2 hs = record hs { state = wait_c2 }
write_complete_in post_c0c1 hs = record hs { state = wait_s0s1 }
write_complete_in post_c2 hs = record hs { state = wait_s2 }
write_complete_in doning hs = record hs { state = done }
write_complete_in s hs = hs

unfoldable pub write_complete : RtmpHandShake → RtmpHandShake
unfolding write_complete_in
write_complete hs = write_complete_in hs.state hs

-- The handshake object and the buffer, behind a retrieve of it; `none` is a failed assert.
unfoldable pub and_retrieve :
    HandShakeRet
    → RtmpHandShake
    → Option MsgBuffer
    → Option (HandShakeRet × (RtmpHandShake × MsgBuffer))
and_retrieve ret hs none = none
and_retrieve ret hs (some buf) = some (ret, (hs, buf))

-- A client that has S0S1: it goes on to S2 where that is there already.
unfoldable pub after_s0s1 :
    RtmpHandShake → Option MsgBuffer → Option (HandShakeRet × (RtmpHandShake × MsgBuffer))
unfolding and_retrieve
after_s0s1 hs none = none
after_s0s1 hs (some buf) =
    if leb packet_size (readable_bytes buf)
    then and_retrieve finished (send (record hs { state = doning }) hs.c2s2)
        (retrieve buf packet_size)
    else some (goes_on, (record hs { state = post_c2 }, buf))

module _ (hmac : List ℕ → List ℕ → List ℕ) (random : ℕ → ℕ) (now : ℕ) where
  -- C0C1 or S0S1 in the buffer, given what CheckC1S1 says of it.
  unfoldable pub after_check :
      HandShakeState
      → MsgBuffer
      → List ℕ
      → Option ℕ × RtmpHandShake
      → Option (HandShakeRet × (RtmpHandShake × MsgBuffer))
  unfolding and_retrieve after_s0s1
  after_check state buf bytes (none, hs) = some (refused, (hs, buf))
  after_check wait_c0c1 buf bytes (some offset, hs) =
      let hs' = create_c2s2 hmac random now hs (drop 1 bytes) offset in
      and_retrieve goes_on (send (record hs' { state = post_s0s1 }) hs'.c1s1)
        (retrieve buf (packet_size + 1))
  after_check state buf bytes (some offset, hs) =
      after_s0s1 (create_c2s2 hmac random now hs (drop 1 bytes) offset)
        (retrieve buf (packet_size + 1))

  -- HandShake, by the state; CheckC2S2 accepts whatever it gets.
  unfoldable pub hand_shake_in :
      HandShakeState
      → RtmpHandShake
      → MsgBuffer
      → Option (HandShakeRet × (RtmpHandShake × MsgBuffer))
  unfolding after_check and_retrieve
  hand_shake_in wait_c0c1 hs buf =
      let bytes = read_bytes (peek buf) (packet_size + 1) in
      if ltb (readable_bytes buf) (packet_size + 1)
      then some (goes_on, (hs, buf))
      else after_check wait_c0c1 buf bytes (check_c1s1 hmac hs bytes)
  hand_shake_in wait_c2 hs buf =
      if ltb (readable_bytes buf) packet_size
      then some (goes_on, (hs, buf))
      else and_retrieve finished (record hs { state = done }) (retrieve buf packet_size)
  hand_shake_in wait_s0s1 hs buf =
      let bytes = read_bytes (peek buf) (packet_size + 1) in
      if ltb (readable_bytes buf) (packet_size + 1)
      then some (goes_on, (hs, buf))
      else after_check wait_s0s1 buf bytes (check_c1s1 hmac hs bytes)
  hand_shake_in wait_s2 hs buf =
      if ltb (readable_bytes buf) packet_size
      then some (goes_on, (hs, buf))
      else and_retrieve finished (record hs { state = done }) (retrieve buf packet_size)
  hand_shake_in state hs buf = some (goes_on, (hs, buf))

  unfoldable pub hand_shake :
      RtmpHandShake → MsgBuffer → Option (HandShakeRet × (RtmpHandShake × MsgBuffer))
  unfolding hand_shake_in
  hand_shake hs buf = hand_shake_in hs.state hs buf
