-- ===== src/Rtmp/ChunkParse/Split.antt =====
-- A run on bytes that come in two parts is the run on all of them.
use omega_streamer.Prelude.{
  ℕ, zero, suc, ◌<◌, ◌≡◌, refl, sym, ◌∙◌, Option, List, [], ◌∷◌, ◌++◌, arith, length, drop,
  length-drop, length-append, drop-append_le,
}
use omega_streamer.Bytes.{at}
use omega_streamer.Rtmp.Chunk.{RtmpChunkParse, Chunk, waiting, length_error, taken}
use omega_streamer.Rtmp.Chunk.Bounds.{IsValid}
use omega_streamer.Rtmp.Chunk.Sound.{Sound}
use omega_streamer.Rtmp.Chunk.Resume.{Resumes}
use omega_streamer.Rtmp.ChunkParse.Defs.{MessageCallback}
use omega_streamer.Rtmp.ChunkParse.Stream.{
  Run, stopped, crashed, out_of_fuel, failed, after_chunk, run, IsInput, IsInput-drop, IsInput-left,
  first_chunk, first_chunk-Sound, first_chunk-Resumes, deliver-IsValid, run-SameRun,
}

-- What comes after a run that waits.
unfoldable pub and_then : {σ : Type 0} → Run σ → (RtmpChunkParse → σ → List ℕ → Run σ) → Run σ
and_then (stopped s ctx l) k = k s ctx l
and_then crashed k = crashed
and_then out_of_fuel k = out_of_fuel
and_then failed k = failed

module _ {σ : Type 0} (msg_cb : Option (MessageCallback σ)) where
  run-same_chunk :
      (f : ℕ) (s s' : RtmpChunkParse) (ctx : σ) (x : ℕ) (l : List ℕ)
      → first_chunk s' (x ∷ l) ≡ first_chunk s (x ∷ l)
      → run msg_cb f s' ctx (x ∷ l) ≡ run msg_cb f s ctx (x ∷ l)
  unfolding run
  run-same_chunk zero s s' ctx x l e = refl
  run-same_chunk (suc f) s s' ctx x l e = rw e

  -- Enough fuel for each of the three runs.
  abbrev Splits : ℕ → ℕ → ℕ → Type 0
  Splits f g h =
      (s : RtmpChunkParse) (ctx : σ) (a b : List ℕ)
      → length a < f
      → length (a ++ b) < g
      → length (a ++ b) < h
      → IsInput (a ++ b)
      → IsValid s
      → run msg_cb g s ctx (a ++ b)
        ≡ and_then (run msg_cb f s ctx a) (λ s' ctx' l. run msg_cb h s' ctx' (l ++ b))

  after_chunk-Splits :
      (f g h : ℕ) (s : RtmpChunkParse) (c : Chunk) (ctx : σ) (x : ℕ) (a b : List ℕ)
      → Splits f g h
      → length (x ∷ a) < suc f
      → length (x ∷ a ++ b) < suc g
      → length (x ∷ a ++ b) < h
      → IsInput (x ∷ a ++ b)
      → IsValid s
      → Sound (length (x ∷ a)) c
      → Resumes s (at (x ∷ a ++ b)) (length (x ∷ a ++ b)) c
      → run msg_cb (suc g) s ctx (x ∷ a ++ b)
        ≡ and_then
            (after_chunk msg_cb (λ s' ctx' l. run msg_cb f s' ctx' l) c ctx (x ∷ a))
            (λ s' ctx' l. run msg_cb h s' ctx' (l ++ b))
  unfolding after_chunk and_then run
  after_chunk-Splits f g h s (waiting s') ctx x a b ih lf lg lh i v sound r =
      run-SameRun msg_cb (suc g) h s ctx (x ∷ a ++ b) lg lh i v
      ∙ sym (run-same_chunk h s s' ctx x (a ++ b) r)
  after_chunk-Splits f g h s length_error ctx x a b ih lf lg lh i v sound r = rw r
  after_chunk-Splits f g h s (taken consumed csid s' msg) ctx x a b ih lf lg lh i v
        (one, le, v', _, _) r =
      let cut = drop-append_le consumed (x ∷ a) b le in
      let size = length-drop consumed (x ∷ a) in
      let whole = length-append (drop consumed (x ∷ a)) b in
      let whole' = length-append a b in
      rw (r, cut)
        (ih _ _ (drop consumed (x ∷ a)) b (omega (arith, size)) (omega (arith, size, whole, whole'))
          (omega (arith, size, whole, whole')) (rw cut at (IsInput-drop consumed i))
          (deliver-IsValid msg_cb csid msg s' ctx v'))

  pub run-Splits : (f g h : ℕ) → Splits f g h
  unfolding run and_then
  run-Splits zero g h s ctx a b lf lg lh i v = absurd (omega arith)
  run-Splits (suc f) g h s ctx [] b lf lg lh i v = run-SameRun msg_cb g h s ctx b lg lh i v
  run-Splits (suc f) zero h s ctx (x ∷ a) b lf lg lh i v = absurd (omega arith)
  run-Splits (suc f) (suc g) h s ctx (x ∷ a) b lf lg lh i v =
      after_chunk-Splits f g h s (first_chunk s (x ∷ a)) ctx x a b (run-Splits f g h) lf lg lh i v
        (first_chunk-Sound s (IsInput-left (x ∷ a) b i) v) (first_chunk-Resumes s (x ∷ a) b i v)
