-- ===== src/Rtmp/ChunkParse/Total.antt =====
-- Parse always returns 0 on a session, or ends by the exception of `append`; it keeps the session.
use omega_streamer.Prelude.{
  ℕ, zero, suc, ◌-◌, ◌≤◌, ◌<◌, ◌≡◌, ◌∙◌, ap, Option, none, some, length, arith, length-drop,
  Bool-cases, inl, inr, ◌==◌,
}
use omega_streamer.MsgBuffer.{readable_bytes}
use omega_streamer.MsgBuffer.Contents.{contents, length-contents}
use omega_streamer.MsgBuffer.Retrieve.{retrieve-IsValid}
use omega_streamer.Rtmp.Chunk.{Chunk, waiting, length_error, taken}
use omega_streamer.Rtmp.Chunk.Sound.{Sound}
use omega_streamer.Rtmp.ChunkParse.Defs.{
  Session, Ret, more, ok, error, threw, assert_failed, MessageCallback, deliver, retrieve_chunk,
  finish_chunk, parse_one_chunk, on_return, parse_loop, parse,
}
use omega_streamer.Rtmp.ChunkParse.Stream.{
  IsInput-drop, first_chunk, first_chunk-Sound, deliver-IsValid,
}
use omega_streamer.Rtmp.ChunkParse.Refine.{IsSession, read_chunk-contents}

-- Parse came to an end: by the return of 0 with a session that holds at most `n` bytes, or by the
-- exception. It did not return -1, fail an assert or run out of fuel.
abbrev pub Ends : {σ : Type 0} → ℕ → Option (Ret × Session σ) → Type 0
Ends n none = ⊥
Ends n (some (more, st)) = ⊥
Ends n (some (ok, st)) = IsSession st × (length (contents st.buf) ≤ n)
Ends n (some (error, st)) = ⊥
Ends n (some (threw, st)) = Unit
Ends n (some (assert_failed, st)) = ⊥

module _ {σ : Type 0} (msg_cb : Option (MessageCallback σ)) where
  pub Ends-mono : {n m : ℕ} (o : Option (Ret × Session σ)) → n ≤ m → Ends n o → Ends m o
  Ends-mono none le e = e
  Ends-mono (some (more, st)) le e = e
  Ends-mono (some (ok, st)) le e = (e.0, omega arith)
  Ends-mono (some (error, st)) le e = e
  Ends-mono (some (threw, st)) le e = e
  Ends-mono (some (assert_failed, st)) le e = e

  on_chunk-Ends :
      (f : ℕ) (c : Chunk) (st : Session σ)
      → ((st' : Session σ)
          → IsSession st'
          → length (contents st'.buf) < f
          → Ends (length (contents st'.buf)) (parse_loop msg_cb f st'))
      → IsSession st
      → length (contents st.buf) < suc f
      → Sound (length (contents st.buf)) c
      → Ends (length (contents st.buf)) (
          let (r, st') = finish_chunk msg_cb c st in
          on_return msg_cb (λ t. parse_loop msg_cb f t) r st')
  unfolding finish_chunk on_return
  on_chunk-Ends f (waiting s) st ih v lt sound =
      (record { buffer = v.buffer; parser = sound; input = v.input }, omega arith)
  on_chunk-Ends f length_error st ih v lt sound = tt
  on_chunk-Ends f (taken consumed csid s msg) st ih v lt (one, le, v', _, _) =
      let (buf', done, valid, left) = retrieve-IsValid consumed v.buffer le in
      let next : Session σ = record {
        parser = (deliver msg_cb csid msg s st.ctx).0;
        buf = buf';
        ctx = (deliver msg_cb csid msg s st.ctx).1;
      } in
      let v'' : IsSession next = record {
        buffer = valid;
        parser = deliver-IsValid msg_cb csid msg s st.ctx v';
        input = rw left (IsInput-drop consumed v.input);
      } in
      let shorter : length (contents buf') ≡ length (contents st.buf) - consumed =
        ap length left ∙ length-drop consumed (contents st.buf) in
      rw (done, retrieve_chunk)
        (Ends-mono (parse_loop msg_cb f next) (omega (arith, shorter))
          (ih next v'' (omega (arith, shorter))))

  parse_loop-Ends :
      (f : ℕ) (st : Session σ)
      → IsSession st
      → length (contents st.buf) < f
      → Ends (length (contents st.buf)) (parse_loop msg_cb f st)
  unfolding parse_loop parse_one_chunk
  parse_loop-Ends zero st v lt = absurd (omega arith)
  parse_loop-Ends (suc f) st v lt = elim (Bool-cases (readable_bytes st.buf == 0)) [
    | inl none_left ↦ rw none_left (v, omega arith)
    | inr some_left ↦
        let c = first_chunk st.parser (contents st.buf) in
        rw (some_left, read_chunk-contents v)
          (on_chunk-Ends f c st (parse_loop-Ends f) v lt
            (first_chunk-Sound st.parser v.input v.parser))
  ]

  -- On a valid session Parse returns 0 with a session that holds no more bytes than before, or `append`
  -- throws; it never returns -1, never fails an assert, and its fuel suffices.
  pub parse-Ends :
      (st : Session σ) → IsSession st → Ends (length (contents st.buf)) (parse msg_cb st)
  unfolding parse
  parse-Ends st v =
      parse_loop-Ends (suc (readable_bytes st.buf)) st v (omega (arith, length-contents v.buffer))
