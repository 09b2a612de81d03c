-- ===== src/Rtmp/ChunkParse/Refine.antt =====
-- Parse on a valid receive buffer does what the specification does on the bytes that it holds.
use omega_streamer.Prelude.{
  ℕ, zero, suc, ◌<◌, ◌≡◌, refl, sym, ◌∙◌, Option, none, some, arith, length, ◌==◌, Bool-cases, inl,
  inr, ==_iff,
}
use omega_streamer.MsgBuffer.{peek, readable_bytes}
use omega_streamer.MsgBuffer.Contents.{contents, length-contents, peek-eq}
use omega_streamer.MsgBuffer.Retrieve.{retrieve-IsValid}
use omega_streamer.Rtmp.Chunk.{Chunk, waiting, length_error, taken, read_chunk}
use omega_streamer.Rtmp.Chunk.Bounds.{IsValid}
use omega_streamer.Rtmp.Chunk.Sound.{Sound}
use omega_streamer.Rtmp.Chunk.Agree.{read_chunk-Agree}
use omega_streamer.Rtmp.ChunkParse.Defs.{
  Session, Ret, more, ok, error, threw, assert_failed, MessageCallback, deliver, retrieve_chunk,
  finish_chunk, parse_one_chunk, on_return, parse_loop, parse,
}
use omega_streamer.Rtmp.ChunkParse.Stream.{
  Run, stopped, crashed, out_of_fuel, failed, after_chunk, run, IsInput, IsInput-drop, first_chunk,
  first_chunk-Sound, deliver-IsValid, run-SameRun, run-empty, run-nonempty,
}
use omega_streamer.MsgBuffer.Contents

-- A session whose buffer and parser are valid and whose readable bytes are bytes.
pub record IsSession {σ : Type 0} (st : Session σ) : Type 0 where
  pub buffer : Contents.IsValid st.buf
  pub parser : IsValid st.parser
  pub input : IsInput (contents st.buf)

-- What a result of Parse shows to the caller: the parser, the callback's state and the bytes left.
unfoldable pub view : {σ : Type 0} → Option (Ret × Session σ) → Run σ
view none = out_of_fuel
view (some (more, st)) = failed
view (some (ok, st)) = stopped st.parser st.ctx (contents st.buf)
view (some (error, st)) = failed
view (some (threw, st)) = crashed
view (some (assert_failed, st)) = failed

-- On the buffer a chunk is read from the readable bytes alone: nothing stale behind them matters.
pub read_chunk-contents :
    {σ : Type 0} {st : Session σ}
    → IsSession st
    → read_chunk st.parser (peek st.buf) (readable_bytes st.buf)
      ≡ first_chunk st.parser (contents st.buf)
read_chunk-contents {st} v =
    let size = length-contents v.buffer in
    rw size (
      read_chunk-Agree (omega (arith, v.input.small, size)) (λ i lt. peek-eq i v.buffer lt)
        st.parser)

module _ {σ : Type 0} (msg_cb : Option (MessageCallback σ)) where
  -- One round of the loop, given what the chunk is.
  on_chunk :
      (f : ℕ) (c : Chunk) (st : Session σ)
      → ((st' : Session σ)
          → IsSession st'
          → view (parse_loop msg_cb f st') ≡ run msg_cb f st'.parser st'.ctx (contents st'.buf))
      → IsSession st
      → Sound (length (contents st.buf)) c
      → (let (r, st') = finish_chunk msg_cb c st in
          view (on_return msg_cb (λ t. parse_loop msg_cb f t) r st'))
        ≡ after_chunk msg_cb (λ s ctx l. run msg_cb f s ctx l) c st.ctx (contents st.buf)
  unfolding finish_chunk on_return view after_chunk
  on_chunk f (waiting s) st ih v sound = refl
  on_chunk f length_error st ih v sound = refl
  on_chunk f (taken consumed csid s msg) st ih v (one, le, v', _, _) =
      let (buf', done, valid, left) = retrieve-IsValid consumed v.buffer le in
      let next : Session σ = record {
        parser = (deliver msg_cb csid msg s st.ctx).0;
        buf = buf';
        ctx = (deliver msg_cb csid msg s st.ctx).1;
      } in
      let v'' : IsSession next = record {
        buffer = valid;
        parser = deliver-IsValid msg_cb csid msg s st.ctx v';
        input = rw left (IsInput-drop consumed v.input);
      } in
      rw (done, retrieve_chunk, ← left) (ih next v'')

  pub parse_loop-run :
      (f : ℕ) (st : Session σ)
      → IsSession st
      → view (parse_loop msg_cb f st) ≡ run msg_cb f st.parser st.ctx (contents st.buf)
  unfolding parse_loop run view parse_one_chunk
  parse_loop-run zero st v = refl
  parse_loop-run (suc f) st v =
      let size = length-contents v.buffer in
      elim (Bool-cases (readable_bytes st.buf == 0)) [
        | inl none_left ↦
            let empty : readable_bytes st.buf ≡ 0 = (==_iff _ 0).0 none_left in
            rw none_left
              (sym (run-empty msg_cb f st.parser st.ctx (contents st.buf) (size ∙ empty)))
        | inr some_left ↦
            let c = first_chunk st.parser (contents st.buf) in
            rw
              (
                some_left,
                read_chunk-contents v,
                run-nonempty msg_cb f st.parser st.ctx (contents st.buf) (ground (arith, size)),
              )
              (on_chunk f c st (parse_loop-run f) v (first_chunk-Sound st.parser v.input v.parser))
      ]

  -- Parse on a valid session does what the specification does on the bytes that its buffer holds,
  -- run with any fuel above their number: both end by the exception, or with the same parser, the
  -- same state of the callback and the same bytes left to read.
  pub parse-run :
      (f : ℕ) (st : Session σ)
      → IsSession st
      → length (contents st.buf) < f
      → view (parse msg_cb st) ≡ run msg_cb f st.parser st.ctx (contents st.buf)
  unfolding parse
  parse-run f st v lt =
      let size = length-contents v.buffer in
      parse_loop-run (suc (readable_bytes st.buf)) st v
      ∙ run-SameRun msg_cb (suc (readable_bytes st.buf)) f st.parser st.ctx (contents st.buf)
          (omega (arith, size)) lt v.input v.parser
