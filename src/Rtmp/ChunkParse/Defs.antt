-- ===== src/Rtmp/ChunkParse/Defs.antt =====
-- media/rtmp/RtmpChunkParse.cpp: parseOneChunk on the receive buffer, and the loop Parse.
--
-- The message callback may change the in-going chunk size (through SetInChunkSize) and a state of
-- its own, `σ`; it does not reach the parser's maps or the buffer.
use omega_streamer.Prelude.{ℕ, zero, suc, ◌==◌, Option, none, some, if◌then◌else◌}
use omega_streamer.MsgBuffer.{MsgBuffer, peek, readable_bytes, retrieve}
use omega_streamer.Rtmp.Header.{RtmpMessage, no_message, is_complete}
use omega_streamer.Rtmp.Chunk.{
  RtmpChunkParse, update, set_in_chunk_size, Chunk, waiting, length_error, taken, read_chunk,
}

-- What parseOneChunk returns, with 1, 0 and -1 named, or how it ends the program.
pub data Ret : Type 0 where
  more ok error : Ret
  threw assert_failed : Ret

-- The parser, the receive buffer, and the state that the message callback works on.
pub record Session (σ : Type 0) : Type 0 where
  pub parser : RtmpChunkParse
  pub buf : MsgBuffer
  pub ctx : σ

-- MessageCallback, as a change of the chunk size and of the callback's state.
abbrev pub MessageCallback : Type 0 → Type 0
MessageCallback σ = RtmpMessage → ℕ → σ → ℕ × σ

module _ {σ : Type 0} (msg_cb : Option (MessageCallback σ)) where
  unfoldable pub call_back : RtmpMessage → RtmpChunkParse → σ → RtmpChunkParse × σ
  unfolding set_in_chunk_size
  call_back msg s ctx = elim msg_cb [
    | none ↦ (s, ctx)
    | some cb ↦ let (size, ctx') = cb msg s.in_chunk_size ctx in (set_in_chunk_size s size, ctx')
  ]

  -- The end of parseOneChunk: a complete message goes to the callback, and its csid gets a fresh one.
  unfoldable pub deliver : ℕ → RtmpMessage → RtmpChunkParse → σ → RtmpChunkParse × σ
  deliver csid msg s ctx =
      if is_complete msg
      then (let (s', ctx') = call_back msg s ctx in
          (record s' { in_progress = update s'.in_progress csid (some no_message) }, ctx'))
      else (s, ctx)

  -- Step 8, and what follows on it.
  unfoldable pub retrieve_chunk :
      ℕ → RtmpMessage → RtmpChunkParse → σ → Option MsgBuffer → Session σ → Ret × Session σ
  retrieve_chunk csid msg s ctx none old = (assert_failed, old)
  retrieve_chunk csid msg s ctx (some buf) old =
      let (s', ctx') = deliver csid msg s ctx in (ok, record { parser = s'; buf = buf; ctx = ctx' })

  unfoldable pub finish_chunk : Chunk → Session σ → Ret × Session σ
  unfolding retrieve_chunk
  finish_chunk (waiting s) st = (more, record st { parser = s })
  finish_chunk length_error st = (threw, st)
  finish_chunk (taken consumed csid s msg) st =
      retrieve_chunk csid msg s st.ctx (retrieve st.buf consumed) st

  unfoldable pub parse_one_chunk : Session σ → Ret × Session σ
  unfolding finish_chunk
  parse_one_chunk st = finish_chunk (read_chunk st.parser (peek st.buf) (readable_bytes st.buf)) st

  -- The branches of Parse on what parseOneChunk returns; `again` is the next round.
  unfoldable pub on_return :
      (Session σ → Option (Ret × Session σ)) → Ret → Session σ → Option (Ret × Session σ)
  on_return again more st = some (ok, st)
  on_return again ok st = again st
  on_return again r st = some (r, st)

  -- Parse: 0 is `ok`, -1 is `error`; `none` means that the fuel ran out.
  unfoldable pub parse_loop : ℕ → Session σ → Option (Ret × Session σ)
  unfolding on_return
  parse_loop zero st = none
  parse_loop (suc f) st =
      let (r, st') = parse_one_chunk st in
      if readable_bytes st.buf == 0 then some (ok, st) else on_return (λ t. parse_loop f t) r st'

  -- Each round but the last takes at least one byte.
  unfoldable pub parse : Session σ → Option (Ret × Session σ)
  parse st = parse_loop (suc (readable_bytes st.buf)) st
