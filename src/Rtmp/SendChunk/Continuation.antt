-- ===== src/Rtmp/SendChunk/Continuation.antt =====
-- One further chunk of a message, with a header of fmt 3.
use omega_streamer.Prelude.{
  ℕ, suc, ◌+◌, ◌-◌, ◌≤◌, ◌<◌, ◌^◌, ◌≡◌, refl, ap, ◌∙◌, false, Option, some, arith, length, List, [],
  ◌∷◌, ◌++◌, length-append, drop, drop-append, min,
}
use omega_streamer.Prelude.Int.{le→int_less}
use omega_streamer.Bytes.{at}
use omega_streamer.Rtmp.Header.{RtmpMsgHeader, RtmpMessage, is_complete}
use omega_streamer.Rtmp.Chunk.{
  RtmpChunkParse, parse_basic_header, message_fields, needs_ext_ts, with_ext_ts, parse_chunk_header,
  update_message, message_on, chunk_data, take_chunk, read_chunk, update, taken,
}
use omega_streamer.Rtmp.Chunk.Bounds.{data_size-within}
use omega_streamer.Rtmp.Chunk.Resume.{read_chunk-eq, update-update}
use omega_streamer.Rtmp.ChunkParse.Defs.{MessageCallback, deliver}
use omega_streamer.Rtmp.ChunkParse.Stream.{run, run-nonempty, after_chunk}
use omega_streamer.Rtmp.SendChunk.FirstChunk.{read_bytes-behind}

-- A further chunk of a message: a header of fmt 3, which is one byte, and the piece.
unfoldable pub continuation : ℕ → List ℕ → List ℕ
continuation csid piece = (192 + csid) ∷ piece

abbrev pub continued : RtmpMsgHeader → ℕ → RtmpMsgHeader
continued prev csid = record prev { fmt = 3; csid = csid }

abbrev pub continued_message : RtmpMsgHeader → RtmpMessage → List ℕ → RtmpMessage
continued_message prev m piece = record {
  header = record m.header { timestamp = prev.timestamp; fmt = 3 };
  payload = m.payload ++ piece;
}

drop_suc : (x : ℕ) (piece rest : List ℕ) → drop (1 + length piece) (x ∷ (piece ++ rest)) ≡ rest
drop_suc x piece rest =
    let one : 1 + length piece ≡ suc (length piece) = omega arith in
    ap (λ n. drop n (x ∷ (piece ++ rest))) one ∙ drop-append piece rest

pub length-continuation :
    (csid : ℕ) (piece rest : List ℕ)
    → length (continuation csid piece ++ rest) ≡ 1 + length (piece ++ rest)
unfolding continuation
length-continuation csid piece rest = omega arith

basic_continued :
    (c : ℕ) (l : List ℕ)
    → 2 ≤ c
    → c < 64
    → parse_basic_header (at ((192 + c) ∷ l)) (1 + length l)
      ≡ some (record { fmt = 3; csid = c; header_len = 1 })
unfolding parse_basic_header
basic_continued c l lo hi = ground arith

header_continued :
    (prev : RtmpMsgHeader) (c : ℕ) (l : List ℕ)
    → prev.has_ext_ts ≡ false
    → 1 + length l < 2 ^ 31
    → parse_chunk_header
        (record { fmt = 3; csid = c; header_len = 1 })
        prev
        (at ((192 + c) ∷ l))
        (1 + length l)
      ≡ some (record { header = continued prev c; total_header_len = 1 })
unfolding parse_chunk_header message_fields needs_ext_ts with_ext_ts
header_continued prev c l short small =
    let fits = le→int_less (1 + length l) 1 small (omega arith) in
    rw fits (
      ap (λ b. with_ext_ts (continued prev c) (at ((192 + c) ∷ l)) (1 + length l) 1 b) short
      ∙ rw fits refl)

update_message-continued :
    (prev : RtmpMsgHeader) (csid : ℕ) (m : RtmpMessage)
    → length m.payload < m.header.msg_len
    → update_message (continued prev csid) m
      ≡ record m { header = record m.header { timestamp = prev.timestamp; fmt = 3 } }
unfolding update_message is_complete
update_message-continued prev csid m lt = ground arith

module _ (s : RtmpChunkParse) (csid : ℕ) (m : RtmpMessage) (piece rest : List ℕ)
    (under_way : s.in_progress csid ≡ some m) (partial : length m.payload < m.header.msg_len)
    (announced : m.header.msg_len < 2 ^ 24)
    (full : length piece ≡ min (m.header.msg_len - length m.payload) s.in_chunk_size)
    (small : 1 + length (piece ++ rest) < 2 ^ 31) where
  take_continued :
      take_chunk s csid
        (record { header = continued (s.prev_headers csid) csid; total_header_len = 1 })
        (at ((192 + csid) ∷ piece ++ rest))
        (1 + length (piece ++ rest))
      ≡ taken
          (1 + length piece)
          csid
          (record s {
            prev_headers = update s.prev_headers csid (continued (s.prev_headers csid) csid);
            in_progress =
                update s.in_progress csid (some (continued_message (s.prev_headers csid) m piece));
          })
          (continued_message (s.prev_headers csid) m piece)
  unfolding take_chunk chunk_data message_on
  take_continued =
      let prev = s.prev_headers csid in
      let before : RtmpMessage = record m {
        header = record m.header { timestamp = prev.timestamp; fmt = 3 };
      } in
      rw
        (
          under_way,
          update_message-continued prev csid m partial,
          data_size-within before s.in_chunk_size
              (record { announced = announced; within = omega arith }),
          ← full,
          le→int_less (1 + length (piece ++ rest)) (1 + length piece) small
              (omega (arith, length-append piece rest)),
          read_bytes-behind ((192 + csid) ∷ []) piece rest,
          update-update s.in_progress csid (some before) (some (continued_message prev m piece)),
        )
        refl

  -- The parser behind the piece.
  abbrev pub after_piece : RtmpChunkParse
  after_piece = record s {
    prev_headers = update s.prev_headers csid (continued (s.prev_headers csid) csid);
    in_progress =
        update s.in_progress csid (some (continued_message (s.prev_headers csid) m piece));
  }

  read_chunk-continued :
      2 ≤ csid
      → csid < 64
      → (s.prev_headers csid).has_ext_ts ≡ false
      → read_chunk s
          (at (continuation csid piece ++ rest))
          (length (continuation csid piece ++ rest))
        ≡ taken
            (1 + length piece)
            csid
            after_piece
            (continued_message (s.prev_headers csid) m piece)
  unfolding continuation
  read_chunk-continued lo hi short =
      let bytes = (192 + csid) ∷ (piece ++ rest) in
      let counted : length bytes ≡ 1 + length (piece ++ rest) = omega arith in
      ap (read_chunk s (at bytes)) counted
      ∙ read_chunk-eq s (record { fmt = 3; csid = csid; header_len = 1 })
          (record { header = continued (s.prev_headers csid) csid; total_header_len = 1 })
          (at bytes) (1 + length (piece ++ rest)) (basic_continued csid (piece ++ rest) lo hi)
          (header_continued (s.prev_headers csid) csid (piece ++ rest) short small)
      ∙ take_continued

  pub run-piece :
      {σ : Type 0} (msg_cb : Option (MessageCallback σ)) (f : ℕ) (ctx : σ)
      → 2 ≤ csid
      → csid < 64
      → (s.prev_headers csid).has_ext_ts ≡ false
      → run msg_cb (suc f) s ctx (continuation csid piece ++ rest) ≡ (
          let (s', ctx') =
            deliver msg_cb csid (continued_message (s.prev_headers csid) m piece) after_piece ctx in
          run msg_cb f s' ctx' rest)
  unfolding after_chunk continuation
  run-piece msg_cb f ctx lo hi short =
      rw
        (
          run-nonempty msg_cb f s ctx (continuation csid piece ++ rest) (omega arith),
          read_chunk-continued lo hi short,
          drop_suc (192 + csid) piece rest,
        )
        refl
