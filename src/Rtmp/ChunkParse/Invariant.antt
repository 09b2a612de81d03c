-- ===== src/Rtmp/ChunkParse/Invariant.antt =====
-- What every message keeps, a whole run keeps.
use omega_streamer.Prelude.{
  ℕ, zero, suc, ◌+◌, ◌≡◌, refl, some, List, [], ◌∷◌, length, Bool-cases, inl, inr, Option-cases,
}
use omega_streamer.Prelude.Int.{ℤ, pos, negsuc, int_less, ◌+ℤ◌}
use omega_streamer.Bytes.{Pointer, at}
use omega_streamer.Rtmp.Header.{RtmpMessage, is_complete}
use omega_streamer.Rtmp.Chunk.{
  RtmpChunkParse, set_in_chunk_size, Chunk, waiting, length_error, taken, ChunkHeader, data_size,
  chunk_data, take_chunk, after_header, after_basic, read_chunk, parse_basic_header,
  parse_chunk_header, update, update_message, message_on,
}
use omega_streamer.Rtmp.ChunkParse.Defs.{MessageCallback, call_back, deliver}
use omega_streamer.Rtmp.ChunkParse.Stream.{
  Run, stopped, crashed, out_of_fuel, failed, after_chunk, run,
}

-- The chunk leaves the chunk size as it is.
abbrev KeepsSize : ℕ → Chunk → Type 0
KeepsSize size (waiting s) = s.in_chunk_size ≡ size
KeepsSize size length_error = Unit
KeepsSize size (taken consumed csid s msg) = s.in_chunk_size ≡ size

chunk_data-KeepsSize :
    (s : RtmpChunkParse) (csid : ℕ) (h : ChunkHeader) (msg : RtmpMessage) (p : Pointer) (n : ℕ)
    (z : ℤ)
    → KeepsSize s.in_chunk_size (chunk_data s csid h msg p n z)
unfolding chunk_data
chunk_data-KeepsSize s csid h msg p n (pos size) =
    elim (Bool-cases (int_less n (pos (h.total_header_len + size)))) [
      | inl few ↦ rw few refl
      | inr enough ↦ rw enough refl
    ]
chunk_data-KeepsSize s csid h msg p n (negsuc size) =
    elim (Bool-cases (int_less n (pos h.total_header_len +ℤ negsuc size))) [
      | inl few ↦ rw few refl
      | inr enough ↦ rw enough tt
    ]

read_chunk-KeepsSize :
    (s : RtmpChunkParse) (p : Pointer) (n : ℕ) → KeepsSize s.in_chunk_size (read_chunk s p n)
unfolding read_chunk after_basic after_header take_chunk
read_chunk-KeepsSize s p n = elim (Option-cases (parse_basic_header p n)) [
  | inl e ↦ rw e refl
  | inr (b, e) ↦ elim (Option-cases (parse_chunk_header b (s.prev_headers b.csid) p n)) [
    | inl e' ↦ rw (e, e') refl
    | inr (h, e') ↦
        let msg = update_message h.header (message_on (s.in_progress b.csid)) in
        let s' : RtmpChunkParse = record s {
          in_progress = update s.in_progress b.csid (some msg);
        } in
        rw (e, e') (chunk_data-KeepsSize s' b.csid h msg p n (data_size msg s.in_chunk_size))
  ]
]

module _ {σ : Type 0} (cb : MessageCallback σ) (P : ℕ → σ → Type 0) where
  -- Where a run stops, the chunk size and the callback's state satisfy `P`.
  abbrev pub Holds : Run σ → Type 0
  Holds (stopped s ctx l) = P s.in_chunk_size ctx
  Holds crashed = Unit
  Holds out_of_fuel = Unit
  Holds failed = Unit

  -- The callback keeps `P`, whatever the message.
  abbrev pub IsKept : Type 0
  IsKept =
      (msg : RtmpMessage) (size : ℕ) (ctx : σ)
      → P size ctx
      → P (cb msg size ctx).0 (cb msg size ctx).1

  deliver-Holds :
      IsKept
      → (csid : ℕ) (msg : RtmpMessage) (s : RtmpChunkParse) (ctx : σ) → P s.in_chunk_size ctx
      → P (deliver (some cb) csid msg s ctx).0.in_chunk_size (deliver (some cb) csid msg s ctx).1
  unfolding deliver call_back set_in_chunk_size
  deliver-Holds kept csid msg s ctx h = elim (Bool-cases (is_complete msg)) [
    | inl complete ↦ rw complete (kept msg s.in_chunk_size ctx h)
    | inr partial ↦ rw partial h
  ]

  after_chunk-Holds :
      IsKept
      → (again : RtmpChunkParse → σ → List ℕ → Run σ) (size : ℕ) (c : Chunk) (ctx : σ) (l : List ℕ)
      → ((s : RtmpChunkParse) (ctx' : σ) (l' : List ℕ)
          → P s.in_chunk_size ctx'
          → Holds (again s ctx' l'))
      → KeepsSize size c
      → P size ctx
      → Holds (after_chunk (some cb) again c ctx l)
  unfolding after_chunk
  after_chunk-Holds kept again size (waiting s) ctx l ih same h = rw same h
  after_chunk-Holds kept again size length_error ctx l ih same h = tt
  after_chunk-Holds kept again size (taken consumed csid s msg) ctx l ih same h =
      ih _ _ _ (deliver-Holds kept csid msg s ctx (rw same h))

  -- A run from a chunk size and a state with `P` ends with `P`, where it stops.
  pub run-Holds :
      IsKept
      → (f : ℕ) (s : RtmpChunkParse) (ctx : σ) (l : List ℕ) → P s.in_chunk_size ctx
      → Holds (run (some cb) f s ctx l)
  unfolding run
  run-Holds kept zero s ctx l h = tt
  run-Holds kept (suc f) s ctx [] h = h
  run-Holds kept (suc f) s ctx (x ∷ l) h =
      after_chunk-Holds kept (λ s' ctx' l'. run (some cb) f s' ctx' l') s.in_chunk_size
        (read_chunk s (at (x ∷ l)) (length (x ∷ l))) ctx (x ∷ l) (run-Holds kept f)
        (read_chunk-KeepsSize s (at (x ∷ l)) (length (x ∷ l))) h
