-- ===== src/Rtmp/Chunk/Agree.antt =====
-- parseOneChunk reads no byte beyond the readable ones.
use omega_streamer.Prelude.{
  ℕ, ◌+◌, ◌<◌, ◌^◌, ◌≡◌, refl, sym, Option, none, some, arith, Bool-cases, inl, inr, Option-cases,
}
use omega_streamer.Prelude.Int.{ℤ, pos, negsuc, int_less, int_less→le}
use omega_streamer.Bytes.{Pointer}
use omega_streamer.Rtmp.Header.{RtmpMsgHeader, RtmpMessage}
use omega_streamer.Rtmp.Chunk.{
  RtmpChunkParse, BasicHeader, ChunkHeader, parse_basic_header, parse_chunk_header, chunk_data,
  take_chunk, after_header, after_basic, read_chunk,
}
use omega_streamer.Rtmp.Chunk.Extend.{
  Agree, Agree-shift, Extends, parse_basic_header-extend, parse_chunk_header-extend,
  read_bytes-Agree, fmt-lt,
}

option_agree {ℓ} :
    {A : Type ℓ} (o o' : Option A)
    → ((a : A) → o ≡ some a → o' ≡ some a)
    → ((a : A) → o' ≡ some a → o ≡ some a)
    → o ≡ o'
option_agree none none f g = refl
option_agree none (some a) f g = g a refl
option_agree (some a) o' f g = sym (f a refl)

module _ {n : ℕ} {p q : Pointer} (small : n < 2 ^ 31) (a : Agree n p q) where
  there : Extends n p n q
  there = record { same = a; longer = omega arith; small = small }

  back : Extends n q n p
  back = record { same = λ i lt. sym (a i lt); longer = omega arith; small = small }

  basic_agree : parse_basic_header p n ≡ parse_basic_header q n
  basic_agree =
      option_agree _ _ (λ b. parse_basic_header-extend there) (λ b. parse_basic_header-extend back)

  header_agree :
      (b : BasicHeader) (prev : RtmpMsgHeader)
      → b.fmt < 4
      → parse_chunk_header b prev p n ≡ parse_chunk_header b prev q n
  header_agree b prev lt =
      option_agree _ _ (λ h. parse_chunk_header-extend there b prev lt)
        (λ h. parse_chunk_header-extend back b prev lt)

  chunk_data_agree :
      (s : RtmpChunkParse) (csid : ℕ) (h : ChunkHeader) (msg : RtmpMessage) (size : ℤ)
      → chunk_data s csid h msg p n size ≡ chunk_data s csid h msg q n size
  unfolding chunk_data
  chunk_data_agree s csid h msg (pos size) =
      elim (Bool-cases (int_less n (pos (h.total_header_len + size)))) [
        | inl short ↦ rw short
        | inr enough ↦
            let le = int_less→le n (h.total_header_len + size) small enough in
            rw (
              enough,
              read_bytes-Agree size (Agree-shift {p = p} {q = q} h.total_header_len size a le),
            )
      ]
  chunk_data_agree s csid h msg (negsuc size) = refl

  -- Two memories that agree on the readable bytes, fewer than 2 ^ 31, give the same result, whatever
  -- stands behind: no byte beyond the readable ones is looked at.
  pub read_chunk-Agree : (s : RtmpChunkParse) → read_chunk s p n ≡ read_chunk s q n
  unfolding read_chunk after_basic after_header take_chunk
  read_chunk-Agree s = elim (Option-cases (parse_basic_header p n)) [
    | inl e ↦ rw (← basic_agree, e)
    | inr (b, e) ↦
        let same = header_agree b (s.prev_headers b.csid) (fmt-lt there e) in
        elim (Option-cases (parse_chunk_header b (s.prev_headers b.csid) p n)) [
          | inl e' ↦ rw (← basic_agree, e, ← same, e')
          | inr (h, e') ↦ rw (← basic_agree, e, ← same, e') (chunk_data_agree _ b.csid h _ _)
        ]
  ]
