-- ===== src/Rtmp/Chunk/Sound.antt =====
-- What parseOneChunk keeps true of the parser, chunk by chunk.
use omega_streamer.Prelude.{
  ℕ, zero, suc, ◌+◌, ◌-◌, ◌^◌, ◌≤◌, ◌<◌, ◌≡◌, refl, ap, true, false, some, arith, ◌==◌, ==_iff,
  Bool-cases, ◌⊎◌, inl, inr, length, ◌++◌, length-append, Option-cases,
}
use native.Mathlib.Decide.{dec_le}
use omega_streamer.Prelude.Int.{pos, negsuc, int_less, int_less→le, int_less-negative}
use omega_streamer.Bytes.{Pointer, ◌⊕◌}
use omega_streamer.Rtmp.Header.{RtmpMsgHeader, RtmpMessage}
use omega_streamer.Rtmp.Chunk.{
  RtmpChunkParse, update, ChunkHeader, parse_basic_header, parse_chunk_header, read_bytes,
  update_message, message_on, Chunk, waiting, length_error, taken, chunk_data, take_chunk,
  after_header, after_basic, read_chunk,
}
use omega_streamer.Rtmp.Chunk.Bounds.{
  IsBytes, IsBounded, IsValid, HeaderFits, data_size-within, data_size-beyond, basic_bounds,
  parse_chunk_header-HeaderFits, update_message-bounds,
}

-- What parseOneChunk may do with `n` readable bytes at `p`: it keeps the parser valid, and a chunk
-- that it takes lies inside them, is not empty, and leaves a bounded message.
abbrev pub Sound : ℕ → Chunk → Type 0
Sound n (waiting s) = IsValid s
Sound n length_error = Unit
Sound n (taken consumed csid s msg) =
    (1 ≤ consumed) × (consumed ≤ n) × IsValid s × IsBounded msg × (s.in_progress csid ≡ some msg)

pub IsValid-update :
    {s : RtmpChunkParse} (csid : ℕ) (msg : RtmpMessage)
    → IsValid s
    → IsBounded msg
    → IsValid (record s { in_progress = update s.in_progress csid (some msg) })
unfolding update message_on
IsValid-update {s} csid msg v b = record {
  headers = v.headers;
  messages = λ k. slot k (Bool-cases (k == csid));
}
  where
    slot :
        (k : ℕ)
        → ((k == csid) ≡ true) ⊎ ((k == csid) ≡ false)
        → IsBounded (message_on (update s.in_progress csid (some msg) k))
    slot k (inl e) = rw (e, update) b
    slot k (inr e) = rw (e, update) (v.messages k)

pub IsValid-save :
    {s : RtmpChunkParse} (csid : ℕ) (h : RtmpMsgHeader)
    → IsValid s
    → h.msg_len < 2 ^ 24
    → IsValid (record s { prev_headers = update s.prev_headers csid h })
unfolding update
IsValid-save {s} csid h v b = record {
  headers = λ k. slot k (Bool-cases (k == csid));
  messages = v.messages;
}
  where
    slot :
        (k : ℕ)
        → ((k == csid) ≡ true) ⊎ ((k == csid) ≡ false)
        → (update s.prev_headers csid h k).msg_len < 2 ^ 24
    slot k (inl e) = rw (e, update) b
    slot k (inr e) = rw (e, update) (v.headers k)

pub update_self {ℓ} : {A : Type ℓ} (m : ℕ → A) (k : ℕ) (a : A) → update m k a k ≡ a
unfolding update
update_self m k a = rw ((==_iff k k).1 refl)

pub length-read_bytes : (p : Pointer) (n : ℕ) → length (read_bytes p n) ≡ n
unfolding read_bytes
length-read_bytes p zero = refl
length-read_bytes p (suc n) = ap suc (length-read_bytes (p ⊕ 1) n)

-- A negative size always ends in the exception, since the header has been read.
pub chunk_data-negative :
    (s : RtmpChunkParse) (csid : ℕ) (h : ChunkHeader) (msg : RtmpMessage) (p : Pointer) {n : ℕ}
    (k : ℕ)
    → n < 2 ^ 31
    → h.total_header_len ≤ n
    → chunk_data s csid h msg p n (negsuc k) ≡ length_error
unfolding chunk_data
chunk_data-negative s csid h msg p {n} k small le =
    rw (int_less-negative n h.total_header_len k small le)

chunk_data-Sound :
    (s : RtmpChunkParse) (csid : ℕ) (h : ChunkHeader) (p : Pointer) {n : ℕ} (msg : RtmpMessage)
    (size : ℕ)
    → n < 2 ^ 31
    → IsValid s
    → HeaderFits n h
    → IsBounded msg
    → size ≤ msg.header.msg_len - length msg.payload
    → Sound n (chunk_data s csid h msg p n (pos size))
unfolding chunk_data
chunk_data-Sound s csid h p {n} msg size small v f b le =
    elim (Bool-cases (int_less n (pos (h.total_header_len + size)))) [
      | inl short ↦ rw short v
      | inr enough ↦
          let bytes = read_bytes (p ⊕ h.total_header_len) size in
          let msg' : RtmpMessage = record msg { payload = msg.payload ++ bytes } in
          let b' : IsBounded msg' = record {
            announced = b.announced;
            within = omega (
              arith,
              length-append msg.payload bytes,
              length-read_bytes (p ⊕ h.total_header_len) size,
            );
          } in
          rw enough (
            omega arith,
            int_less→le n _ small enough,
            IsValid-save csid h.header (IsValid-update csid msg' v b') f.size,
            b',
            update_self s.in_progress csid (some msg'),
          )
    ]

-- On a valid parser the rest of a chunk, behind its header, is sound.
pub take_chunk-Sound :
    (s : RtmpChunkParse) (csid : ℕ) (h : ChunkHeader) (p : Pointer) {n : ℕ}
    → n < 2 ^ 31
    → IsValid s
    → HeaderFits n h
    → Sound n (take_chunk s csid h p n)
unfolding take_chunk
take_chunk-Sound s csid h p {n} small v f =
    let msg = update_message h.header (message_on (s.in_progress csid)) in
    let s' : RtmpChunkParse = record s { in_progress = update s.in_progress csid (some msg) } in
    let (announced, arrived) =
      update_message-bounds h.header (message_on (s.in_progress csid)) f.size (v.messages csid) in
    elim (dec_le (length msg.payload) msg.header.msg_len) [
      | yes within ↦
          let b : IsBounded msg = record { announced = announced; within = within } in
          rw (data_size-within msg s.in_chunk_size b) (
            chunk_data-Sound s' csid h p msg _ small (IsValid-update csid msg v b) f b
              (omega arith))
      | no beyond ↦
          rw
            (
              data_size-beyond msg s.in_chunk_size (omega arith) arrived,
              chunk_data-negative s' csid h msg p _ small f.inside,
            )
            tt
    ]

-- On a valid parser and fewer than 2 ^ 31 readable bytes, reading a chunk leaves the parser valid
-- where it waits and where it takes the chunk; a chunk taken consumes at least one byte and no more
-- than are readable, and its message stands under its csid with no more payload than its header
-- announces.
pub read_chunk-Sound :
    (s : RtmpChunkParse) (p : Pointer) {n : ℕ}
    → n < 2 ^ 31
    → IsBytes n p
    → IsValid s
    → Sound n (read_chunk s p n)
unfolding read_chunk after_basic after_header
read_chunk-Sound s p {n} small bytes v = elim (Option-cases (parse_basic_header p n)) [
  | inl e ↦ rw e v
  | inr (b, e) ↦
      let (lt, one, _, _) = basic_bounds p small e in
      elim (Option-cases (parse_chunk_header b (s.prev_headers b.csid) p n)) [
        | inl e' ↦ rw (e, e') v
        | inr (h, e') ↦
            rw (e, e')
              (take_chunk-Sound s b.csid h p small v (
                parse_chunk_header-HeaderFits p small b (s.prev_headers b.csid) bytes lt one
                  (v.headers b.csid) e'))
      ]
]
