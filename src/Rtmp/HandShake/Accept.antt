-- ===== src/Rtmp/HandShake/Accept.antt =====
-- Each side accepts the packet that the other side creates.
use omega_streamer.Prelude.{
  ℕ, suc, ◌+◌, ◌≤◌, ◌≡◌, ◌∙◌, sym, ap, refl, Bool, true, false, some, List, [], ◌∷◌, ◌++◌, length,
  take, drop, arith, ◌==◌, not, length-take, get_or-drop,
}
use omega_streamer.Bytes.{Pointer, at, ◌⊕◌, read_uint32_be}
use omega_streamer.Rtmp.HandShakeKeys.{rtmp_player_key, rtmp_server_key}
use omega_streamer.Rtmp.HandShake.{
  packet_size, sha256_digest_length, write_bytes, get_digest_offset, random_bytes, RtmpHandShake,
  open_key, whole_key, stamped_packet, calculate_digest, verify_digest, signed_packet, create_c1s1,
  check_c1s1,
}
use omega_streamer.Rtmp.HandShake.Digest.{
  length-write_bytes, drop-write_bytes, at-write_bytes_before, get_digest_offset-within,
  length-calculate_digest, verify_digest-written, get_digest_offset-written, length-random_bytes,
}

-- The keys of both sides begin with these bytes.
take-whole_key : (client : Bool) → take 4 (whole_key client) ≡ 71 ∷ 101 ∷ 110 ∷ 117 ∷ []
unfolding whole_key rtmp_player_key rtmp_server_key
take-whole_key true = refl
take-whole_key false = refl

module _ (client : Bool) (raw : List ℕ) (size : length raw ≡ packet_size) where
  length-timed : length (write_bytes raw 0 (0 ∷ 0 ∷ 0 ∷ 0 ∷ [])) ≡ packet_size
  length-timed = length-write_bytes raw 0 (0 ∷ 0 ∷ 0 ∷ 0 ∷ []) (omega (arith, size)) ∙ size

  length-stamped_packet : length (stamped_packet client raw) ≡ packet_size
  unfolding stamped_packet
  length-stamped_packet =
      length-write_bytes (write_bytes raw 0 (0 ∷ 0 ∷ 0 ∷ 0 ∷ [])) 4 (take 4 (whole_key client))
        (omega (arith, length-timed, length-take 4 (whole_key client)))
      ∙ length-timed

  -- The version is not 0.
  at-stamped_packet : at (stamped_packet client raw) 4 ≡ 71
  unfolding stamped_packet
  at-stamped_packet =
      let timed = write_bytes raw 0 (0 ∷ 0 ∷ 0 ∷ 0 ∷ []) in
      let key = take 4 (whole_key client) in
      let fits : 4 + length key ≤ length timed =
        omega (arith, length-timed, length-take 4 (whole_key client)) in
      sym (get_or-drop 4 (write_bytes timed 4 key) 0 0)
      ∙ ap (λ l. at l 0) (drop-write_bytes timed 4 key fits)
      ∙ ap (λ k. at (k ++ drop (4 + length key) timed) 0) (take-whole_key client)

version-nonzero : (p : Pointer) → p 0 ≡ 71 → (read_uint32_be p == 0) ≡ false
unfolding read_uint32_be
version-nonzero p e = ground (arith, e)

-- What CheckC1S1 needs to see.
check_c1s1-signed :
    (hmac : List ℕ → List ℕ → List ℕ) (peer : RtmpHandShake) (packet : List ℕ)
    → length packet ≡ packet_size
    → at packet 4 ≡ 71
    → verify_digest hmac packet (get_digest_offset packet 8 728) (open_key (not peer.is_client))
      ≡ true
    → check_c1s1 hmac peer (3 ∷ packet) ≡ (some (get_digest_offset packet 8 728), peer)
unfolding check_c1s1
check_c1s1-signed hmac peer packet size version verified =
    let whole : (length (3 ∷ packet) == 1537) ≡ true = ground (arith, size) in
    let complex : (read_uint32_be (at (3 ∷ packet) ⊕ 5) == 0) ≡ false =
      version-nonzero (at (3 ∷ packet) ⊕ 5) version in
    rw (whole, complex, verified) refl

module _ (hmac : List ℕ → List ℕ → List ℕ)
    (digest_length : (key text : List ℕ) → length (hmac key text) ≡ sha256_digest_length)
    (client : Bool) (raw : List ℕ) (size : length raw ≡ packet_size) where
  -- Of the packet as it is signed: its length, its version, and its digest at the place that it names.
  record Signed (packet : List ℕ) : Type 0 where
    long : length packet ≡ packet_size
    version : at packet 4 ≡ 71
    verified : verify_digest hmac packet (get_digest_offset packet 8 728) (open_key client) ≡ true

  signed_packet-Signed : Signed (signed_packet hmac client raw)
  unfolding signed_packet
  signed_packet-Signed =
      let packet = stamped_packet client raw in
      let offset = get_digest_offset packet 8 728 in
      let key = open_key client in
      let d = calculate_digest hmac packet packet_size offset key in
      let (lo, hi) = get_digest_offset-within packet 8 (omega arith) in
      let long = length-stamped_packet client raw size in
      let ld = length-calculate_digest hmac digest_length packet packet_size offset key in
      let fits : offset + length d ≤ length packet = omega (arith, ld, long, hi) in
      let same = get_digest_offset-written hmac digest_length packet d offset lo fits in
      record {
        long = length-write_bytes packet offset d fits ∙ long;
        version =
            at-write_bytes_before packet offset d fits 4 (omega (arith, lo))
            ∙ at-stamped_packet client raw size;
        verified =
            ap (λ o. verify_digest hmac (write_bytes packet offset d) o key) same
            ∙ verify_digest-written hmac digest_length packet offset key long (omega (arith, lo))
                hi;
      }

not-not : (b : Bool) → not (not b) ≡ b
not-not true = refl
not-not false = refl

-- With a hash of 32 bytes, whatever it is, each side accepts the C0C1 or S0S1 of the complex handshake
-- that the other side creates from any random bytes: it finds the digest at the place that the packet
-- names, and stays with the complex handshake.
pub check_c1s1-create_c1s1 :
    (hmac : List ℕ → List ℕ → List ℕ) (random : ℕ → ℕ) (hs peer : RtmpHandShake)
    → ((key text : List ℕ) → length (hmac key text) ≡ sha256_digest_length)
    → hs.is_complex_handshake ≡ true
    → peer.is_client ≡ not hs.is_client
    → check_c1s1 hmac peer (create_c1s1 hmac random hs).c1s1
      ≡ (some (get_digest_offset (drop 1 (create_c1s1 hmac random hs).c1s1) 8 728), peer)
unfolding create_c1s1
check_c1s1-create_c1s1 hmac random hs peer digest_length complex other =
    let raw = random_bytes (λ i. random (suc i)) packet_size in
    let s =
      signed_packet-Signed hmac digest_length hs.is_client raw
        (length-random_bytes _ packet_size) in
    let mine : not peer.is_client ≡ hs.is_client = ap not other ∙ not-not hs.is_client in
    let packet = signed_packet hmac hs.is_client raw in
    simp complex (
      check_c1s1-signed hmac peer packet s.long s.version (
        ap (λ c. verify_digest hmac packet (get_digest_offset packet 8 728) (open_key c)) mine
        ∙ s.verified))
