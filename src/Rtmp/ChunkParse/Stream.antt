-- ===== src/Rtmp/ChunkParse/Stream.antt =====
-- Parse as a function of the bytes alone: the specification that the loop on the buffer implements.
use omega_streamer.Prelude.{
  ℕ, zero, suc, ◌+◌, ◌<◌, ◌≡◌, refl, sym, Option, none, some, List, [], ◌∷◌, ◌++◌, arith, length,
  drop, All, length-drop, length-append, get_or-append_left, ◌^◌, Bool-cases, inl, inr,
}
use omega_streamer.Bytes.{at}
use omega_streamer.Rtmp.Header.{RtmpMessage, no_message, is_complete}
use omega_streamer.Rtmp.Chunk.{RtmpChunkParse, Chunk, waiting, length_error, taken, read_chunk}
use omega_streamer.Rtmp.Chunk.Extend.{Extends}
use omega_streamer.Rtmp.Chunk.Bounds.{IsBytes, IsValid, IsBounded}
use omega_streamer.Rtmp.Chunk.Sound.{Sound, read_chunk-Sound, IsValid-update}
use omega_streamer.Rtmp.Chunk.Resume.{Resumes, read_chunk-Resumes}
use omega_streamer.Rtmp.ChunkParse.Defs.{MessageCallback, call_back, deliver}

-- How a run on a list of bytes ends: it waits for more with some bytes left, the program ends by an
-- exception, or a way that a run never takes.
pub data Run (σ : Type 0) : Type 0 where
  stopped : RtmpChunkParse → σ → List ℕ → Run σ
  crashed out_of_fuel failed : Run σ

abbrev pub AllBytes : List ℕ → Type 0
AllBytes l = All (λ b. b < 256) l

module _ {σ : Type 0} (msg_cb : Option (MessageCallback σ)) where
  unfoldable pub after_chunk : (RtmpChunkParse → σ → List ℕ → Run σ) → Chunk → σ → List ℕ → Run σ
  after_chunk again (waiting s) ctx l = stopped s ctx l
  after_chunk again length_error ctx l = crashed
  after_chunk again (taken consumed csid s msg) ctx l =
      let (s', ctx') = deliver msg_cb csid msg s ctx in again s' ctx' (drop consumed l)

  unfoldable pub run : ℕ → RtmpChunkParse → σ → List ℕ → Run σ
  unfolding after_chunk
  run zero s ctx l = out_of_fuel
  run (suc f) s ctx [] = stopped s ctx []
  run (suc f) s ctx (x ∷ l) =
      after_chunk (λ s' ctx' l'. run f s' ctx' l') (read_chunk s (at (x ∷ l)) (length (x ∷ l))) ctx
        (x ∷ l)

pub at-IsBytes : (l : List ℕ) → AllBytes l → IsBytes (length l) (at l)
at-IsBytes [] b i h = absurd (omega arith)
at-IsBytes (x ∷ l) b zero h = b.0
at-IsBytes (x ∷ l) b (suc i) h = at-IsBytes l b.1 i (omega arith)

pub AllBytes-drop : (n : ℕ) (l : List ℕ) → AllBytes l → AllBytes (drop n l)
AllBytes-drop zero l b = b
AllBytes-drop (suc n) [] b = tt
AllBytes-drop (suc n) (x ∷ l) b = AllBytes-drop n l b.1

pub AllBytes-append : (xs ys : List ℕ) → AllBytes xs → AllBytes ys → AllBytes (xs ++ ys)
AllBytes-append [] ys a b = b
AllBytes-append (x ∷ xs) ys a b = (a.0, AllBytes-append xs ys a.1 b)

pub at-Extends :
    (xs ys : List ℕ)
    → length xs + length ys < 2 ^ 31
    → Extends (length xs) (at xs) (length (xs ++ ys)) (at (xs ++ ys))
at-Extends xs ys h = record {
  same = λ i lt. sym (get_or-append_left xs ys i 0 lt);
  longer = omega (arith, length-append xs ys);
  small = omega (arith, length-append xs ys);
}

call_back-IsValid :
    {σ : Type 0} (msg_cb : Option (MessageCallback σ)) (msg : RtmpMessage) (s : RtmpChunkParse)
    (ctx : σ)
    → IsValid s
    → IsValid (call_back msg_cb msg s ctx).0
unfolding call_back
call_back-IsValid none msg s ctx v = v
call_back-IsValid (some cb) msg s ctx v = record { headers = v.headers; messages = v.messages }

no_message-IsBounded : IsBounded no_message
no_message-IsBounded = omega arith

-- The callback and the fresh message keep the parser valid.
pub deliver-IsValid :
    {σ : Type 0} (msg_cb : Option (MessageCallback σ)) (csid : ℕ) (msg : RtmpMessage)
    (s : RtmpChunkParse) (ctx : σ)
    → IsValid s
    → IsValid (deliver msg_cb csid msg s ctx).0
unfolding deliver
deliver-IsValid msg_cb csid msg s ctx v = elim (Bool-cases (is_complete msg)) [
  | inl complete ↦
      rw complete
        (IsValid-update csid no_message (call_back-IsValid msg_cb msg s ctx v) no_message-IsBounded)
  | inr partial ↦ rw partial v
]

-- A list of bytes, no longer than an `int` counts.
pub record IsInput (l : List ℕ) : Type 0 where
  pub bytes : AllBytes l
  pub small : length l < 2 ^ 31

pub IsInput-drop : (n : ℕ) {l : List ℕ} → IsInput l → IsInput (drop n l)
IsInput-drop n {l} i = record {
  bytes = AllBytes-drop n l i.bytes;
  small = omega (arith, length-drop n l, i.small);
}

pub IsInput-left : (a b : List ℕ) → IsInput (a ++ b) → IsInput a
IsInput-left a b i = record {
  bytes = left a i.bytes;
  small = omega (arith, length-append a b, i.small);
}
  where
    left : (xs : List ℕ) → AllBytes (xs ++ b) → AllBytes xs
    left [] h = tt
    left (x ∷ xs) h = (h.0, left xs h.1)

-- The first chunk of an input.
abbrev pub first_chunk : RtmpChunkParse → List ℕ → Chunk
first_chunk s l = read_chunk s (at l) (length l)

pub first_chunk-Sound :
    (s : RtmpChunkParse) {l : List ℕ} → IsInput l → IsValid s → Sound (length l) (first_chunk s l)
first_chunk-Sound s {l} i v = read_chunk-Sound s (at l) i.small (at-IsBytes l i.bytes) v

pub first_chunk-Resumes :
    (s : RtmpChunkParse) (a b : List ℕ)
    → IsInput (a ++ b)
    → IsValid s
    → Resumes s (at (a ++ b)) (length (a ++ b)) (first_chunk s a)
first_chunk-Resumes s a b i v =
    read_chunk-Resumes s (at-Extends a b (omega (arith, length-append a b, i.small)))
      (at-IsBytes a (IsInput-left a b i).bytes) v

module _ {σ : Type 0} (msg_cb : Option (MessageCallback σ)) where
  -- Two amounts of fuel above the number of bytes give the same run.
  abbrev SameRun : ℕ → ℕ → Type 0
  SameRun f g =
      (s : RtmpChunkParse) (ctx : σ) (l : List ℕ)
      → length l < f
      → length l < g
      → IsInput l
      → IsValid s
      → run msg_cb f s ctx l ≡ run msg_cb g s ctx l

  after_chunk-SameRun :
      (f g : ℕ) (c : Chunk) (ctx : σ) (l : List ℕ)
      → SameRun f g
      → length l < suc f
      → length l < suc g
      → IsInput l
      → Sound (length l) c
      → after_chunk msg_cb (λ s' ctx' l'. run msg_cb f s' ctx' l') c ctx l
        ≡ after_chunk msg_cb (λ s' ctx' l'. run msg_cb g s' ctx' l') c ctx l
  unfolding after_chunk
  after_chunk-SameRun f g (waiting s) ctx l ih lf lg i h = refl
  after_chunk-SameRun f g length_error ctx l ih lf lg i h = refl
  after_chunk-SameRun f g (taken consumed csid s msg) ctx l ih lf lg i (one, le, v, b, slot) =
      let size = length-drop consumed l in
      ih _ _ _ (omega (arith, size)) (omega (arith, size)) (IsInput-drop consumed i)
        (deliver-IsValid msg_cb csid msg s ctx v)

  pub run-SameRun : (f g : ℕ) → SameRun f g
  unfolding run
  run-SameRun zero g s ctx l lf lg i v = absurd (omega arith)
  run-SameRun (suc f) zero s ctx l lf lg i v = absurd (omega arith)
  run-SameRun (suc f) (suc g) s ctx [] lf lg i v = refl
  run-SameRun (suc f) (suc g) s ctx (x ∷ l) lf lg i v =
      after_chunk-SameRun f g (first_chunk s (x ∷ l)) ctx (x ∷ l) (run-SameRun f g) lf lg i
        (first_chunk-Sound s i v)

  pub run-empty :
      (f : ℕ) (s : RtmpChunkParse) (ctx : σ) (l : List ℕ)
      → length l ≡ 0
      → run msg_cb (suc f) s ctx l ≡ stopped s ctx l
  unfolding run
  run-empty f s ctx [] e = refl
  run-empty f s ctx (x ∷ l) e = absurd (omega arith)

  pub run-nonempty :
      (f : ℕ) (s : RtmpChunkParse) (ctx : σ) (l : List ℕ)
      → 0 < length l
      → run msg_cb (suc f) s ctx l
        ≡ after_chunk msg_cb (λ s' ctx' l'. run msg_cb f s' ctx' l') (first_chunk s l) ctx l
  unfolding run
  run-nonempty f s ctx [] h = absurd (omega arith)
  run-nonempty f s ctx (x ∷ l) h = refl
