-- ===== src/Rtmp/Chunk/Resume.antt =====
-- A chunk that was not all there is read as if it had come at once: what a waiting call has already
-- stored makes no difference to the call that follows with more bytes.
use native.Mathlib.Decide.{dec_le}
use omega_streamer.Prelude.{
  ℕ, ◌+◌, ◌-◌, ◌^◌, ◌≤◌, ◌<◌, min, ◌≡◌, refl, sym, ◌∙◌, true, some, arith, Bool-cases, inl, inr,
  length, ltb→lt, Option-cases, fun_ext,
}
use omega_streamer.Prelude.Int.{pos, int_less, int_less-pos}
use omega_streamer.Bytes.{Pointer}
use omega_streamer.Rtmp.Header.{RtmpMsgHeader, RtmpMessage}
use omega_streamer.Rtmp.Chunk.{
  RtmpChunkParse, update, BasicHeader, ChunkHeader, parse_basic_header, parse_chunk_header,
  update_message, message_on, Chunk, waiting, length_error, taken, chunk_data, take_chunk,
  after_header, after_basic, read_chunk,
}
use omega_streamer.Rtmp.Chunk.Extend.{
  Agree-shift, Extends, parse_basic_header-extend, parse_chunk_header-extend, read_bytes-Agree,
  fits-extend,
}
use omega_streamer.Rtmp.Chunk.Bounds.{
  IsBytes, IsBounded, IsValid, HeaderFits, data_size-within, data_size-beyond,
  update_message-bounds, basic_bounds, parse_chunk_header-HeaderFits,
}
use omega_streamer.Rtmp.Chunk.Sound.{chunk_data-negative, update_self}

-- A message that still lacks bytes takes the same header a second time with no effect.
update_message_twice :
    (h : RtmpMsgHeader) (m : RtmpMessage)
    → length (update_message h m).payload < (update_message h m).header.msg_len
    → update_message h (update_message h m) ≡ update_message h m
unfolding update_message
update_message_twice h m lt = ground arith

pub update-update {ℓ} :
    {A : Type ℓ} (m : ℕ → A) (k : ℕ) (a b : A) → update (update m k a) k b ≡ update m k b
unfolding update
update-update m k a b = fun_ext (λ j. ground arith)

module _ (s : RtmpChunkParse) (csid : ℕ) (h : ChunkHeader) where
  abbrev pub stored : RtmpChunkParse
  stored = record s {
    in_progress =
        update s.in_progress csid
          (some (update_message h.header (message_on (s.in_progress csid))));
  }

  take_chunk-stored :
      (q : Pointer) (m : ℕ)
      → length (update_message h.header (message_on (s.in_progress csid))).payload
        < (update_message h.header (message_on (s.in_progress csid))).header.msg_len
      → take_chunk stored csid h q m ≡ take_chunk s csid h q m
  unfolding take_chunk message_on
  take_chunk-stored q m lt =
      let before = message_on (s.in_progress csid) in
      let msg = update_message h.header before in
      rw (
        update_self s.in_progress csid (some msg),
        update_message_twice h.header before lt,
        update-update s.in_progress csid (some msg) (some msg),
      )

-- What the call with more bytes does, given what the call with fewer did.
abbrev pub Resumes : RtmpChunkParse → Pointer → ℕ → Chunk → Type 0
Resumes s q m (waiting s') = read_chunk s' q m ≡ read_chunk s q m
Resumes s q m length_error = read_chunk s q m ≡ length_error
Resumes s q m (taken consumed csid s' msg) = read_chunk s q m ≡ taken consumed csid s' msg

-- The same of the part behind the header.
abbrev TakeResumes : RtmpChunkParse → ℕ → ChunkHeader → Pointer → ℕ → Chunk → Type 0
TakeResumes s csid h q m (waiting s') =
    (s'.prev_headers ≡ s.prev_headers) × (take_chunk s' csid h q m ≡ take_chunk s csid h q m)
TakeResumes s csid h q m c = take_chunk s csid h q m ≡ c

take_chunk-eq :
    (s : RtmpChunkParse) (csid : ℕ) (h : ChunkHeader) (p : Pointer) (n : ℕ)
    → let msg = update_message h.header (message_on (s.in_progress csid)) in
      IsBounded msg
      → take_chunk s csid h p n
        ≡ chunk_data
            (stored s csid h)
            csid
            h
            msg
            p
            n
            (pos (min (msg.header.msg_len - length msg.payload) s.in_chunk_size))
unfolding take_chunk
take_chunk-eq s csid h p n b = rw (data_size-within _ s.in_chunk_size b)

short-lt : (n t d : ℕ) → n < 2 ^ 31 → t ≤ n → int_less n (pos (t + d)) ≡ true → 0 < d
short-lt n t d small le h =
    let lt : n < t + d = ltb→lt n (t + d) (sym (int_less-pos n (t + d) small) ∙ h) in omega arith

-- A header that announces less than what has arrived on its csid ends in std::length_error.
pub take_chunk-beyond :
    (s : RtmpChunkParse) (csid : ℕ) (h : ChunkHeader) (p : Pointer) {n : ℕ}
    → n < 2 ^ 31
    → h.total_header_len ≤ n
    → let msg = update_message h.header (message_on (s.in_progress csid)) in
      length msg.payload < 2 ^ 24
      → msg.header.msg_len < length msg.payload
      → take_chunk s csid h p n ≡ length_error
unfolding take_chunk
take_chunk-beyond s csid h p small le arrived lt =
    let msg = update_message h.header (message_on (s.in_progress csid)) in
    rw (
      data_size-beyond msg s.in_chunk_size lt arrived,
      chunk_data-negative (stored s csid h) csid h msg p _ small le,
    )

module _ (s : RtmpChunkParse) (csid : ℕ) (h : ChunkHeader) {n m : ℕ} {p q : Pointer}
    (e : Extends n p m q) (f : HeaderFits n h) where
  take_chunk-within :
      IsBounded (update_message h.header (message_on (s.in_progress csid)))
      → TakeResumes s csid h q m (take_chunk s csid h p n)
  unfolding chunk_data
  take_chunk-within b =
      let msg = update_message h.header (message_on (s.in_progress csid)) in
      let size = min (msg.header.msg_len - length msg.payload) s.in_chunk_size in
      let end = h.total_header_len + size in
      elim (Bool-cases (int_less n (pos end))) [
        | inl short ↦
            let lt =
              short-lt n h.total_header_len size (omega (arith, e.longer, e.small)) f.inside
                short in
            rw (take_chunk-eq s csid h p n b, short)
              (refl, take_chunk-stored s csid h q m (omega arith))
        | inr enough ↦
            let (le, enough') = fits-extend e end enough in
            let same =
              read_bytes-Agree size
                (Agree-shift {p = p} {q = q} h.total_header_len size e.same le) in
            rw (take_chunk-eq s csid h p n b, enough)
              (rw (take_chunk-eq s csid h q m b, enough', same))
      ]

  take_chunk-Resumes : IsValid s → TakeResumes s csid h q m (take_chunk s csid h p n)
  take_chunk-Resumes v =
      let before = message_on (s.in_progress csid) in
      let msg = update_message h.header before in
      let (announced, arrived) = update_message-bounds h.header before f.size (v.messages csid) in
      elim (dec_le (length msg.payload) msg.header.msg_len) [
        | yes within ↦ take_chunk-within (record { announced = announced; within = within })
        | no beyond ↦
            let crash =
              take_chunk-beyond s csid h p (omega (arith, e.longer, e.small)) f.inside arrived
                (omega arith) in
            rw crash (
              take_chunk-beyond s csid h q e.small (omega (arith, f.inside, e.longer)) arrived
                (omega arith))
      ]

pub read_chunk-eq :
    (s : RtmpChunkParse) (b : BasicHeader) (h : ChunkHeader) (q : Pointer) (m : ℕ)
    → parse_basic_header q m ≡ some b
    → parse_chunk_header b (s.prev_headers b.csid) q m ≡ some h
    → read_chunk s q m ≡ take_chunk s b.csid h q m
unfolding read_chunk after_basic after_header
read_chunk-eq s b h q m eb eh = rw (eb, eh)

TakeResumes-Resumes :
    (s : RtmpChunkParse) (b : BasicHeader) (h : ChunkHeader) (q : Pointer) (m : ℕ)
    → parse_basic_header q m ≡ some b
    → parse_chunk_header b (s.prev_headers b.csid) q m ≡ some h
    → (c : Chunk) → TakeResumes s b.csid h q m c
    → Resumes s q m c
TakeResumes-Resumes s b h q m eb eh (waiting s') (same, t) =
    let eh' : parse_chunk_header b (s'.prev_headers b.csid) q m ≡ some h = rw same eh in
    read_chunk-eq s' b h q m eb eh' ∙ t ∙ sym (read_chunk-eq s b h q m eb eh)
TakeResumes-Resumes s b h q m eb eh length_error t = read_chunk-eq s b h q m eb eh ∙ t
TakeResumes-Resumes s b h q m eb eh (taken consumed csid s' msg) t =
    read_chunk-eq s b h q m eb eh ∙ t

-- When bytes arrive behind the readable ones (fewer than 2 ^ 31 together, on a valid parser), a chunk
-- that was taken, or that threw, is taken or throws alike; and after a call that waited, reading the
-- longer input gives the same from the parser that the call left as from the parser before it.
pub read_chunk-Resumes :
    (s : RtmpChunkParse) {n m : ℕ} {p q : Pointer}
    → Extends n p m q
    → IsBytes n p
    → IsValid s
    → Resumes s q m (read_chunk s p n)
unfolding read_chunk after_basic after_header
read_chunk-Resumes s {n} {m} {p} {q} e bytes v = elim (Option-cases (parse_basic_header p n)) [
  | inl none_yet ↦ rw none_yet refl
  | inr (b, eb) ↦
      let eb' = parse_basic_header-extend e eb in
      elim (Option-cases (parse_chunk_header b (s.prev_headers b.csid) p n)) [
        | inl none_yet ↦ rw (eb, none_yet) refl
        | inr (h, eh) ↦
            let (lt, one, _, _) = basic_bounds p (omega (arith, e.longer, e.small)) eb in
            let prev = s.prev_headers b.csid in
            let f =
              parse_chunk_header-HeaderFits p (omega (arith, e.longer, e.small)) b prev bytes lt one
                (v.headers b.csid) eh in
            let eh' = parse_chunk_header-extend e b prev lt eh in
            rw (eb, eh)
              (TakeResumes-Resumes s b h q m eb' eh' (take_chunk s b.csid h p n)
                (take_chunk-Resumes s b.csid h e f v))
      ]
]
