-- ===== src/Rtmp/Chunk/Extend.antt =====
-- A chunk is read from the bytes that are there: more bytes behind them change nothing.
use omega_streamer.Prelude.{
  ℕ, zero, suc, ◌+◌, ◌^◌, ◌≤◌, ◌<◌, ◌≡◌, refl, Bool, true, false, some, some-of-if, arith,
}
use omega_streamer.Prelude.Int.{pos, int_less, int_less→le, le→int_less}
use omega_streamer.Bytes.{Pointer, ◌⊕◌}
use omega_streamer.Rtmp.Header.{RtmpMsgHeader, msg_header_size}
use omega_streamer.Rtmp.Chunk.{
  BasicHeader, ChunkHeader, parse_basic_header, message_fields, needs_ext_ts, with_ext_ts,
  parse_chunk_header, read_bytes,
}

-- Two pointers give the same first `n` bytes.
abbrev pub Agree : ℕ → Pointer → Pointer → Type 0
Agree n p q = (i : ℕ) → i < n → p i ≡ q i

pub Agree-shift :
    {n : ℕ} {p q : Pointer} (k m : ℕ) → Agree n p q → k + m ≤ n → Agree m (p ⊕ k) (q ⊕ k)
Agree-shift k m a h i lt = a (k + i) (omega arith)

-- `p` has `n` bytes, and `q` at least those.
pub record Extends (n : ℕ) (p : Pointer) (m : ℕ) (q : Pointer) : Type 0 where
  pub same : Agree n p q
  pub longer : n ≤ m
  pub small : m < 2 ^ 31

module _ {n m : ℕ} {p q : Pointer} (e : Extends n p m q) where
  pub parse_basic_header-extend :
      {b : BasicHeader} → parse_basic_header p n ≡ some b → parse_basic_header q m ≡ some b
  unfolding parse_basic_header
  parse_basic_header-extend {b} h = ground (arith, e.same 0, e.same 1, e.same 2, e.longer)

pub read_bytes-Agree : (n : ℕ) {p q : Pointer} → Agree n p q → read_bytes p n ≡ read_bytes q n
unfolding read_bytes
read_bytes-Agree zero a = refl
read_bytes-Agree (suc n) {p} {q} a =
    cc (a 0 (omega arith), read_bytes-Agree n (Agree-shift {p = p} {q = q} 1 n a (omega arith)))

-- The header bytes that a fmt announces are all that the switch and the test read.
message_fields-Agree :
    (fmt : ℕ) (prev : RtmpMsgHeader) {p q : Pointer} (header : RtmpMsgHeader)
    → fmt < 4
    → Agree (msg_header_size fmt) p q
    → message_fields fmt prev p header ≡ message_fields fmt prev q header
unfolding message_fields
message_fields-Agree zero prev {p} {q} header lt a = cc (
  a 0 (omega arith),
  a 1 (omega arith),
  a 2 (omega arith),
  a 3 (omega arith),
  a 4 (omega arith),
  a 5 (omega arith),
  a 6 (omega arith),
  a 7 (omega arith),
  a 8 (omega arith),
  a 9 (omega arith),
  a 10 (omega arith),
)
message_fields-Agree (suc zero) prev {p} {q} header lt a = cc (
  a 0 (omega arith),
  a 1 (omega arith),
  a 2 (omega arith),
  a 3 (omega arith),
  a 4 (omega arith),
  a 5 (omega arith),
  a 6 (omega arith),
)
message_fields-Agree (suc (suc zero)) prev {p} {q} header lt a =
    cc (a 0 (omega arith), a 1 (omega arith), a 2 (omega arith))
message_fields-Agree (suc (suc (suc zero))) prev {p} {q} header lt a = refl
message_fields-Agree (suc (suc (suc (suc fmt)))) prev {p} {q} header lt a = absurd (omega arith)

needs_ext_ts-Agree :
    (fmt : ℕ) (prev : RtmpMsgHeader) {p q : Pointer} (header : RtmpMsgHeader)
    → fmt < 4
    → Agree (msg_header_size fmt) p q
    → needs_ext_ts fmt prev p header ≡ needs_ext_ts fmt prev q header
unfolding needs_ext_ts
needs_ext_ts-Agree zero prev {p} {q} header lt a = refl
needs_ext_ts-Agree (suc zero) prev {p} {q} header lt a =
    cc (a 0 (omega arith), a 1 (omega arith), a 2 (omega arith))
needs_ext_ts-Agree (suc (suc zero)) prev {p} {q} header lt a =
    cc (a 0 (omega arith), a 1 (omega arith), a 2 (omega arith))
needs_ext_ts-Agree (suc (suc (suc zero))) prev {p} {q} header lt a = refl
needs_ext_ts-Agree (suc (suc (suc (suc fmt)))) prev {p} {q} header lt a = absurd (omega arith)

module _ {n m : ℕ} {p q : Pointer} (e : Extends n p m q) where
  -- What fits into the shorter buffer fits into the longer one.
  pub fits-extend : (k : ℕ) → int_less n (pos k) ≡ false → (k ≤ n) × (int_less m (pos k) ≡ false)
  fits-extend k h =
      let le : k ≤ n = int_less→le n k (omega (arith, e.longer, e.small)) h in
      (le, le→int_less m k e.small (omega (arith, e.longer)))

  with_ext_ts-extend :
      (header : RtmpMsgHeader) (len : ℕ) (t : Bool) {h : ChunkHeader}
      → with_ext_ts header p n len t ≡ some h
      → with_ext_ts header q m len t ≡ some h
  unfolding with_ext_ts
  with_ext_ts-extend header len true {h} eq =
      let (c, o) = some-of-if (int_less n (pos (len + 4))) _ eq in
      let (le, c') = fits-extend (len + 4) c in
      let word : Agree 4 (p ⊕ len) (q ⊕ len) = λ i lt. e.same (len + i) (omega arith) in
      rw c' (
        cc (
          o,
          word 0 (omega arith),
          word 1 (omega arith),
          word 2 (omega arith),
          word 3 (omega arith),
        ))
  with_ext_ts-extend header len false {h} eq =
      let (c, o) = some-of-if (int_less n (pos len)) _ eq in rw (fits-extend len c).1 o

  pub fmt-lt : {b : BasicHeader} → parse_basic_header p n ≡ some b → b.fmt < 4
  unfolding parse_basic_header
  fmt-lt h = ground arith

  pub parse_chunk_header-extend :
      (b : BasicHeader) (prev : RtmpMsgHeader) {h : ChunkHeader}
      → b.fmt < 4
      → parse_chunk_header b prev p n ≡ some h
      → parse_chunk_header b prev q m ≡ some h
  unfolding parse_chunk_header
  parse_chunk_header-extend b prev {h} lt eq =
      let need = b.header_len + msg_header_size b.fmt in
      let (c, o) = some-of-if (int_less n (pos need)) _ eq in
      let (le, c') = fits-extend need c in
      let fields : Agree (msg_header_size b.fmt) (p ⊕ b.header_len) (q ⊕ b.header_len) =
        λ i lt'. e.same (b.header_len + i) (omega arith) in
      let header₀ : RtmpMsgHeader = record prev { fmt = b.fmt; csid = b.csid } in
      let switch = message_fields-Agree b.fmt prev header₀ lt fields in
      let header = message_fields b.fmt prev (p ⊕ b.header_len) header₀ in
      let test = needs_ext_ts-Agree b.fmt prev header lt fields in
      rw (c', ← switch, ← test) (with_ext_ts-extend header need _ o)
