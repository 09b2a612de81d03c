-- ===== src/Rtmp/SendChunk/FirstChunk.antt =====
-- The first chunk of a message, which may not hold all of it.
use omega_streamer.Prelude.{
  ℕ, suc, ◌+◌, ◌-◌, ◌≤◌, ◌<◌, ◌^◌, ◌≡◌, refl, sym, ap, ◌∙◌, Option, some, arith, length, List, [],
  ◌∷◌, ◌++◌, get_or-append_right, append_assoc, length-append, drop, drop-append, min,
}
use omega_streamer.Prelude.Int.{le→int_less}
use omega_streamer.Bytes.{◌⊕◌, at}
use omega_streamer.Rtmp.Header.{RtmpMsgHeader, RtmpMessage}
use omega_streamer.Rtmp.Chunk.{
  RtmpChunkParse, parse_basic_header, message_fields, needs_ext_ts, with_ext_ts, parse_chunk_header,
  update_message, message_on, read_bytes, chunk_data, take_chunk, read_chunk, update, taken,
}
use omega_streamer.Rtmp.Chunk.Extend.{read_bytes-Agree}
use omega_streamer.Rtmp.Chunk.Bounds.{data_size-within}
use omega_streamer.Rtmp.Chunk.Resume.{read_chunk-eq, update-update}
use omega_streamer.Rtmp.ChunkParse.Defs.{MessageCallback, deliver}
use omega_streamer.Rtmp.ChunkParse.Stream.{run, run-nonempty, after_chunk}
use omega_streamer.Rtmp.SendChunk.{chunk_prefix}

basic_sent :
    (c t sid len : ℕ) (l : List ℕ)
    → 2 ≤ c
    → c < 64
    → parse_basic_header (at (chunk_prefix c t sid len ++ l)) (12 + length l)
      ≡ some (record { fmt = 0; csid = c; header_len = 1 })
unfolding parse_basic_header chunk_prefix
basic_sent c t sid len l lo hi = ground arith

pub length-prefix :
    (c t sid len : ℕ) (l : List ℕ) → length (chunk_prefix c t sid len ++ l) ≡ 12 + length l
unfolding chunk_prefix
length-prefix c t sid len l = omega arith

-- The header that the parser makes of the twelve bytes.
abbrev pub sent_header : RtmpMsgHeader → ℕ → ℕ → ℕ → ℕ → RtmpMsgHeader
sent_header prev csid msg_type msg_stream_id len = record {
  csid = csid;
  timestamp = 0;
  msg_len = len;
  msg_type = msg_type;
  msg_stream_id = msg_stream_id;
  fmt = 0;
  has_ext_ts = prev.has_ext_ts;
}

header_sent :
    (prev : RtmpMsgHeader) (c t sid len : ℕ) (l : List ℕ)
    → len < 2 ^ 24
    → sid < 2 ^ 32
    → 12 + length l < 2 ^ 31
    → parse_chunk_header
        (record { fmt = 0; csid = c; header_len = 1 })
        prev
        (at (chunk_prefix c t sid len ++ l))
        (12 + length l)
      ≡ some (record { header = sent_header prev c t sid len; total_header_len = 12 })
unfolding parse_chunk_header chunk_prefix message_fields needs_ext_ts with_ext_ts
header_sent prev c t sid len l lt ls small =
    rw (le→int_less (12 + length l) 12 small (omega arith)) (ground arith)

read_bytes-at : (l rest : List ℕ) → read_bytes (at (l ++ rest)) (length l) ≡ l
unfolding read_bytes
read_bytes-at [] rest = refl
read_bytes-at (x ∷ l) rest = ap (λ k. x ∷ k) (shifted ∙ read_bytes-at l rest)
  where
    shifted :
        read_bytes (at (x ∷ l ++ rest) ⊕ 1) (length l) ≡ read_bytes (at (l ++ rest)) (length l)
    shifted = read_bytes-Agree (length l) (λ i lt. get_or-append_right (x ∷ []) (l ++ rest) i 0)

-- Behind a prefix, the bytes that follow it.
pub read_bytes-behind :
    (pre l rest : List ℕ) → read_bytes (at (pre ++ (l ++ rest)) ⊕ length pre) (length l) ≡ l
read_bytes-behind pre l rest =
    read_bytes-Agree (length l) (λ i lt. get_or-append_right pre (l ++ rest) i 0)
    ∙ read_bytes-at l rest

-- The parser after a whole message has come in on `csid`, before it is delivered.
abbrev pub after_message : RtmpChunkParse → ℕ → RtmpMessage → RtmpChunkParse
after_message s csid msg = record s {
  prev_headers = update s.prev_headers csid msg.header;
  in_progress = update s.in_progress csid (some msg);
}

update_message-sent :
    (prev : RtmpMsgHeader) (csid t sid len : ℕ) (m : RtmpMessage)
    → update_message (sent_header prev csid t sid len) m
      ≡ record { header = sent_header prev csid t sid len; payload = [] }
unfolding update_message
update_message-sent prev csid t sid len m = refl

read_bytes-first :
    (csid t sid len : ℕ) (first rest : List ℕ)
    → read_bytes (at (chunk_prefix csid t sid len ++ (first ++ rest)) ⊕ 12) (length first) ≡ first
unfolding chunk_prefix
read_bytes-first csid t sid len first rest =
    read_bytes-behind (chunk_prefix csid t sid len) first rest

unfoldable pub first_chunk : ℕ → ℕ → ℕ → ℕ → List ℕ → List ℕ
first_chunk csid t sid len first = chunk_prefix csid t sid len ++ first

pub length-first_chunk :
    (csid t sid len : ℕ) (first : List ℕ)
    → length (first_chunk csid t sid len first) ≡ 12 + length first
unfolding first_chunk
length-first_chunk csid t sid len first = length-prefix csid t sid len first

drop-first_chunk :
    (csid t sid len : ℕ) (first rest : List ℕ)
    → drop (12 + length first) (first_chunk csid t sid len first ++ rest) ≡ rest
drop-first_chunk csid t sid len first rest =
    ap (λ k. drop k (first_chunk csid t sid len first ++ rest))
      (sym (length-first_chunk csid t sid len first))
    ∙ drop-append (first_chunk csid t sid len first) rest

module _ (s : RtmpChunkParse) (csid t sid len : ℕ) (first rest : List ℕ) (lt : len < 2 ^ 24)
    (full : length first ≡ min len s.in_chunk_size)
    (small : 12 + length (first ++ rest) < 2 ^ 31) where
  -- The message that the parser makes of the chunk.
  abbrev pub first_message : RtmpMessage
  first_message = record {
    header = sent_header (s.prev_headers csid) csid t sid len;
    payload = first;
  }

  take_first :
      take_chunk s csid
        (record { header = first_message.header; total_header_len = 12 })
        (at (chunk_prefix csid t sid len ++ (first ++ rest)))
        (12 + length (first ++ rest))
      ≡ taken (12 + length first) csid (after_message s csid first_message) first_message
  unfolding take_chunk chunk_data
  take_first =
      let empty : RtmpMessage = record { header = first_message.header; payload = [] } in
      let all : min (len - 0) s.in_chunk_size ≡ length first = omega (arith, full) in
      rw
        (
          update_message-sent (s.prev_headers csid) csid t sid len
              (message_on (s.in_progress csid)),
          data_size-within empty s.in_chunk_size (record { announced = lt; within = omega arith }),
          all,
          le→int_less (12 + length (first ++ rest)) (12 + length first) small
              (omega (arith, length-append first rest)),
          read_bytes-first csid t sid len first rest,
          update-update s.in_progress csid (some empty) (some first_message),
        )
        refl

  pub read_chunk-first :
      2 ≤ csid
      → csid < 64
      → sid < 2 ^ 32
      → read_chunk s
          (at (first_chunk csid t sid len first ++ rest))
          (length (first_chunk csid t sid len first ++ rest))
        ≡ taken (12 + length first) csid (after_message s csid first_message) first_message
  unfolding first_chunk
  read_chunk-first lo hi ls =
      let prefix = chunk_prefix csid t sid len in
      rw (append_assoc prefix first rest, length-prefix csid t sid len (first ++ rest))
        (read_chunk-eq s (record { fmt = 0; csid = csid; header_len = 1 })
            (record { header = first_message.header; total_header_len = 12 })
            (at (prefix ++ (first ++ rest))) (12 + length (first ++ rest))
            (basic_sent csid t sid len (first ++ rest) lo hi)
            (header_sent (s.prev_headers csid) csid t sid len (first ++ rest) lt ls small)
          ∙ take_first)

  -- The parser reads it in one round.
  pub run-first_chunk :
      {σ : Type 0} (msg_cb : Option (MessageCallback σ)) (f : ℕ) (ctx : σ)
      → 2 ≤ csid
      → csid < 64
      → sid < 2 ^ 32
      → run msg_cb (suc f) s ctx (first_chunk csid t sid len first ++ rest) ≡ (
          let (s', ctx') =
            deliver msg_cb csid first_message (after_message s csid first_message) ctx in
          run msg_cb f s' ctx' rest)
  unfolding after_chunk
  run-first_chunk msg_cb f ctx lo hi ls =
      let packet = first_chunk csid t sid len first in
      rw
        (
          run-nonempty msg_cb f s ctx (packet ++ rest)
              (omega (arith, length-append packet rest, length-first_chunk csid t sid len first)),
          read_chunk-first lo hi ls,
          drop-first_chunk csid t sid len first rest,
        )
        refl
