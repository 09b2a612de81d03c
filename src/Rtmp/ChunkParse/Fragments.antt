-- ===== src/Rtmp/ChunkParse/Fragments.antt =====
-- A connection that reads: what TCP does to the bytes on the way makes no difference.
use omega_streamer.Rtmp.ChunkParse.Reads.{
  and_reads, on_reads, concat, IsRead, on_read-session, concat-AllBytes,
}
use omega_streamer.Prelude.{
  ℕ, zero, suc, ◌+◌, ◌≤◌, ◌<◌, ◌≡◌, ◌∙◌, sym, ap, Option, none, some, List, [], ◌∷◌, ◌++◌,
  append_assoc, append-nil, length, arith, All, ◌^◌, length-append,
}
use omega_streamer.MsgBuffer.Contents.{contents}
use omega_streamer.Network.TcpConnection.{read_size}
use omega_streamer.Rtmp.Chunk.{RtmpChunkParse}
use omega_streamer.Rtmp.Chunk.Bounds.{IsValid}
use omega_streamer.Rtmp.ChunkParse.Defs.{
  Session, Ret, more, ok, error, threw, assert_failed, MessageCallback, parse,
}
use omega_streamer.Rtmp.ChunkParse.Stream.{
  run, stopped, IsInput, AllBytes-append, run-SameRun, run-empty,
}
use omega_streamer.Rtmp.ChunkParse.Split.{and_then, run-Splits}
use omega_streamer.Rtmp.ChunkParse.Refine.{IsSession, view, parse-run}
use omega_streamer.Rtmp.ChunkParse.Total.{Ends, parse-Ends}

-- A session whose buffer holds no whole chunk: what Parse leaves.
abbrev pub IsIdle : {σ : Type 0} → Option (MessageCallback σ) → Session σ → Type 0
IsIdle msg_cb st =
    (f : ℕ)
    → length (contents st.buf) < f
    → run msg_cb f st.parser st.ctx (contents st.buf) ≡ stopped st.parser st.ctx (contents st.buf)

module _ {σ : Type 0} (msg_cb : Option (MessageCallback σ)) where
  stopped-idle :
      (f : ℕ) (s s' : RtmpChunkParse) (ctx ctx' : σ) (l l' : List ℕ)
      → length l < f
      → length l' ≤ length l
      → IsInput l
      → IsValid s
      → stopped s' ctx' l' ≡ run msg_cb f s ctx l
      → run msg_cb f s' ctx' l' ≡ stopped s' ctx' l'
  unfolding and_then
  stopped-idle f s s' ctx ctx' l l' lt le i v e =
      let whole = append-nil l in
      let size = ap length whole in
      let again = λ (t : RtmpChunkParse) (c : σ) (k : List ℕ). run msg_cb f t c (k ++ []) in
      let split =
        run-Splits msg_cb f f f s ctx l [] lt (omega (arith, size)) (omega (arith, size))
          (rw whole i) v in
      sym (
        e
        ∙ ap (λ k. run msg_cb f s ctx k) (sym whole)
        ∙ split
        ∙ ap (λ r. and_then r again) (sym e)
        ∙ ap (λ k. run msg_cb f s' ctx' k) (append-nil l'))

  split_read :
      (f : ℕ) (st : Session σ) (b : List ℕ)
      → IsSession st
      → IsInput (contents st.buf ++ b)
      → length (contents st.buf ++ b) < f
      → run msg_cb f st.parser st.ctx (contents st.buf ++ b)
        ≡ and_then
            (run msg_cb f st.parser st.ctx (contents st.buf))
            (λ t c k. run msg_cb f t c (k ++ b))
  split_read f st b v i lt =
      let size = length-append (contents st.buf) b in
      run-Splits msg_cb f f f st.parser st.ctx (contents st.buf) b (omega (arith, size)) lt lt i
        v.parser

  -- What the rest of the reads makes of the end of the first.
  after_read :
      (f : ℕ) (st : Session σ) (b : List ℕ) (next : Session σ → Option (Ret × Session σ))
      (o : Option (Ret × Session σ))
      → ((st' : Session σ)
          → IsSession st'
          → IsIdle msg_cb st'
          → length (contents st'.buf) ≤ length (contents st.buf)
          → view (next st') ≡ run msg_cb f st'.parser st'.ctx (contents st'.buf ++ b))
      → IsSession st
      → IsInput (contents st.buf ++ b)
      → length (contents st.buf ++ b) < f
      → view o ≡ run msg_cb f st.parser st.ctx (contents st.buf)
      → Ends (length (contents st.buf)) o
      → view (and_reads msg_cb next o) ≡ run msg_cb f st.parser st.ctx (contents st.buf ++ b)
  unfolding and_reads view and_then
  after_read f st b next (some (ok, st')) ih v i lt e (v', le) =
      let size = length-append (contents st.buf) b in
      let idle : IsIdle msg_cb st' = λ g lg.
        run-SameRun msg_cb g f st'.parser st'.ctx (contents st'.buf) lg (omega (arith, size))
          v'.input v'.parser
        ∙ stopped-idle f st.parser st'.parser st.ctx st'.ctx (contents st.buf) (contents st'.buf)
            (omega (arith, size)) le v.input v.parser e in
      let rest = λ (t : RtmpChunkParse) (c : σ) (k : List ℕ). run msg_cb f t c (k ++ b) in
      ih st' v' idle le ∙ ap (λ r. and_then r rest) e ∙ sym (split_read f st b v i lt)
  after_read f st b next (some (threw, st')) ih v i lt e ends =
      let rest = λ (t : RtmpChunkParse) (c : σ) (k : List ℕ). run msg_cb f t c (k ++ b) in
      ap (λ r. and_then r rest) e ∙ sym (split_read f st b v i lt)
  after_read f st b next none ih v i lt e ends = absurd ends
  after_read f st b next (some (more, st')) ih v i lt e ends = absurd ends
  after_read f st b next (some (error, st')) ih v i lt e ends = absurd ends
  after_read f st b next (some (assert_failed, st')) ih v i lt e ends = absurd ends

  run_same :
      (f : ℕ) {s s' : RtmpChunkParse} {ctx ctx' : σ} {l l' : List ℕ}
      → s ≡ s'
      → ctx ≡ ctx'
      → l ≡ l'
      → run msg_cb f s ctx l ≡ run msg_cb f s' ctx' l'
  run_same f ps pc pl = cc

  -- What an idle connection has done after a sequence of reads depends only on the bytes, not on
  -- where the reads cut them.
  pub on_reads-run :
      (f : ℕ) (st : Session σ) (reads : List (List ℕ))
      → IsSession st
      → IsIdle msg_cb st
      → All IsRead reads
      → length (contents st.buf) + length (concat reads) + read_size < 2 ^ 31
      → length (contents st.buf ++ concat reads) < f
      → view (on_reads msg_cb st reads)
        ≡ run msg_cb f st.parser st.ctx (contents st.buf ++ concat reads)
  unfolding on_reads view
  on_reads-run f st [] v idle r h lt =
      let size = ap length (append-nil (contents st.buf)) in
      sym (rw append-nil (idle f (omega (arith, size))))
  on_reads-run f st (bytes ∷ reads) v idle (r, rs) h lt =
      let sizes = length-append bytes (concat reads) in
      let (st₁, v₁, parsed, all, same_parser, same_ctx) =
        on_read-session msg_cb st bytes v r (omega (arith, sizes)) in
      let held = ap length all ∙ length-append (contents st.buf) bytes in
      let size₁ = length-append (contents st₁.buf) (concat reads) in
      let whole = length-append (contents st.buf) (bytes ++ concat reads) in
      let input : IsInput (contents st₁.buf ++ concat reads) = record {
        bytes =
            AllBytes-append (contents st₁.buf) (concat reads) v₁.input.bytes
              (concat-AllBytes reads rs);
        small = omega (arith, held, size₁, sizes);
      } in
      let lt₁ : length (contents st₁.buf ++ concat reads) < f =
        omega (arith, held, size₁, sizes, whole) in
      let step =
        after_read f st₁ (concat reads) (λ st'. on_reads msg_cb st' reads) (parse msg_cb st₁)
          (λ st' v' idle' le. on_reads-run f st' reads v' idle' rs (omega (arith, held, sizes)) (
            omega
              (arith, held, size₁, sizes, whole, length-append (contents st'.buf) (concat reads))))
          v₁ input lt₁ (parse-run msg_cb f st₁ v₁ (omega (arith, size₁)))
          (parse-Ends msg_cb st₁ v₁) in
      let same =
        run_same f same_parser same_ctx
          (ap (λ l. l ++ concat reads) all ∙ append_assoc (contents st.buf) bytes (concat reads)) in
      rw parsed (step ∙ same)

  pub empty-IsIdle : (st : Session σ) → contents st.buf ≡ [] → IsIdle msg_cb st
  empty-IsIdle st e zero lt = absurd (omega arith)
  empty-IsIdle st e (suc f) lt = run-empty msg_cb f st.parser st.ctx (contents st.buf) (ap length e)

  -- Two sequences of reads that bring the same bytes to an idle connection, each read at most 4096
  -- bytes and all of them with the room below 2 ^ 31, end with the same view: the exception, or the
  -- same parser, the same callback state (so the same messages delivered) and the same bytes left.
  pub on_reads_same_bytes :
      (st : Session σ) (reads reads' : List (List ℕ))
      → IsSession st
      → IsIdle msg_cb st
      → All IsRead reads
      → All IsRead reads'
      → length (contents st.buf) + length (concat reads) + read_size < 2 ^ 31
      → concat reads ≡ concat reads'
      → view (on_reads msg_cb st reads) ≡ view (on_reads msg_cb st reads')
  on_reads_same_bytes st reads reads' v idle r r' small e =
      let f = suc (length (contents st.buf ++ concat reads)) in
      let size = ap length e in
      let lt' : length (contents st.buf ++ concat reads') < f = omega (
        arith,
        length-append (contents st.buf) (concat reads),
        length-append (contents st.buf) (concat reads'),
        size,
      ) in
      on_reads-run f st reads v idle r small (omega arith)
      ∙ ap (λ l. run msg_cb f st.parser st.ctx (contents st.buf ++ l)) e
      ∙ sym (on_reads-run f st reads' v idle r' (omega (arith, size)) lt')
