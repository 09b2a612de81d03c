-- ===== src/Rtmp/ChunkParse/Kept.antt =====
-- A property that the message callback keeps, Parse keeps on whatever session.
use omega_streamer.Prelude.{ℕ, zero, suc, Option, none, some, ◌==◌, Bool-cases, inl, inr}
use omega_streamer.MsgBuffer.{MsgBuffer, peek, readable_bytes, retrieve}
use omega_streamer.Rtmp.Header.{RtmpMessage, is_complete}
use omega_streamer.Rtmp.Chunk.{RtmpChunkParse, Chunk, waiting, length_error, taken, read_chunk}
use omega_streamer.Rtmp.ChunkParse.Defs.{
  Session, Ret, more, ok, error, threw, assert_failed, MessageCallback, call_back, deliver,
  retrieve_chunk, finish_chunk, parse_one_chunk, on_return, parse_loop, parse,
}

module _ {σ : Type 0} (P : σ → Type 0) where
  -- The callback's state satisfies `P`, however Parse ends.
  abbrev pub EndsWith : Option (Ret × Session σ) → Type 0
  EndsWith none = Unit
  EndsWith (some (r, st)) = P st.ctx

  module _ (cb : MessageCallback σ)
      (kept : (msg : RtmpMessage) (size : ℕ) (ctx : σ) → P ctx → P (cb msg size ctx).1) where
    deliver-Kept :
        (csid : ℕ) (msg : RtmpMessage) (s : RtmpChunkParse) (ctx : σ)
        → P ctx
        → P (deliver (some cb) csid msg s ctx).1
    unfolding deliver call_back
    deliver-Kept csid msg s ctx h = elim (Bool-cases (is_complete msg)) [
      | inl complete ↦ rw complete (kept msg s.in_chunk_size ctx h)
      | inr partial ↦ rw partial h
    ]

    retrieve_chunk-Kept :
        (csid : ℕ) (msg : RtmpMessage) (s : RtmpChunkParse) (o : Option MsgBuffer) (old : Session σ)
        → P old.ctx
        → P (retrieve_chunk (some cb) csid msg s old.ctx o old).1.ctx
    unfolding retrieve_chunk
    retrieve_chunk-Kept csid msg s none old h = h
    retrieve_chunk-Kept csid msg s (some buf) old h = deliver-Kept csid msg s old.ctx h

    finish_chunk-Kept :
        (c : Chunk) (st : Session σ) → P st.ctx → P (finish_chunk (some cb) c st).1.ctx
    unfolding finish_chunk
    finish_chunk-Kept (waiting s) st h = h
    finish_chunk-Kept length_error st h = h
    finish_chunk-Kept (taken consumed csid s msg) st h =
        retrieve_chunk-Kept csid msg s (retrieve st.buf consumed) st h

    on_return-Kept :
        (again : Session σ → Option (Ret × Session σ)) (r : Ret) (st : Session σ)
        → ((st' : Session σ) → P st'.ctx → EndsWith (again st'))
        → P st.ctx
        → EndsWith (on_return (some cb) again r st)
    unfolding on_return
    on_return-Kept again more st ih h = h
    on_return-Kept again ok st ih h = ih st h
    on_return-Kept again error st ih h = h
    on_return-Kept again threw st ih h = h
    on_return-Kept again assert_failed st ih h = h

    parse_loop-Kept : (f : ℕ) (st : Session σ) → P st.ctx → EndsWith (parse_loop (some cb) f st)
    unfolding parse_loop parse_one_chunk
    parse_loop-Kept zero st h = tt
    parse_loop-Kept (suc f) st h =
        let c = read_chunk st.parser (peek st.buf) (readable_bytes st.buf) in
        elim (Bool-cases (readable_bytes st.buf == 0)) [
          | inl none_left ↦ rw none_left h
          | inr some_left ↦ rw some_left (
              on_return-Kept (λ t. parse_loop (some cb) f t) (finish_chunk (some cb) c st).0 _
                (parse_loop-Kept f) (finish_chunk-Kept c st h))
        ]

    pub parse-Kept : (st : Session σ) → P st.ctx → EndsWith (parse (some cb) st)
    unfolding parse
    parse-Kept st h = parse_loop-Kept (suc (readable_bytes st.buf)) st h
