-- ===== src/Rtmp/SendChunk/Reassembly.antt =====
-- The chunk parser joins a message that a client sends in several chunks.
use omega_streamer.Prelude.{
  ℕ, suc, ◌+◌, ◌-◌, ◌≤◌, ◌<◌, ◌^◌, ◌≡◌, refl, sym, ap, ◌∙◌, true, false, Option, some, arith,
  length, List, [], ◌∷◌, ◌++◌, append_assoc, length-append, min, leb, if_both, ◌==◌, append-nil,
  subst,
}
use omega_streamer.Rtmp.Header.{RtmpMsgHeader, RtmpMessage, is_complete}
use omega_streamer.Rtmp.Chunk.{RtmpChunkParse, update}
use omega_streamer.Rtmp.Chunk.Sound.{update_self}
use omega_streamer.Rtmp.ChunkParse.Defs.{MessageCallback, deliver}
use omega_streamer.Rtmp.ChunkParse.Stream.{Run, run}
use omega_streamer.Rtmp.ChunkParse.Reads.{concat}
use omega_streamer.Rtmp.SendChunk.Continuation.{
  continuation, continued, continued_message, length-continuation, run-piece,
}

-- The pieces of what is left of a message, each as long as a chunk may be, but for the last.
abbrev pub Cuts : ℕ → ℕ → List (List ℕ) → Type 0
Cuts size left [] = left ≡ 0
Cuts size left (p ∷ ps) = (0 < left) × (length p ≡ min left size) × Cuts size (left - length p) ps

unfoldable pub continuations : ℕ → List (List ℕ) → List ℕ
continuations csid [] = []
continuations csid (p ∷ ps) = continuation csid p ++ continuations csid ps

-- A round of the parser for each piece.
abbrev pub rounds : List (List ℕ) → ℕ → ℕ
rounds [] g = g
rounds (p ∷ ps) g = suc (rounds ps g)

-- No header of the parser has an extended timestamp.
abbrev pub HasNoExtTs : RtmpChunkParse → Type 0
HasNoExtTs s = (k : ℕ) → (s.prev_headers k).has_ext_ts ≡ false

pub update-HasNoExtTs :
    (m : ℕ → RtmpMsgHeader) (csid : ℕ) (h : RtmpMsgHeader)
    → ((k : ℕ) → (m k).has_ext_ts ≡ false)
    → h.has_ext_ts ≡ false
    → (k : ℕ) → (update m csid h k).has_ext_ts ≡ false
unfolding update
update-HasNoExtTs m csid h others new k =
    if_both {A = RtmpMsgHeader} (λ x. x.has_ext_ts ≡ false) (k == csid) new (others k)

-- A message with this payload, and the fmt of its last chunk.
abbrev pub with_more : RtmpMsgHeader → ℕ → List ℕ → RtmpMessage
with_more header fmt payload = record { header = record header { fmt = fmt }; payload = payload }

-- A message under way on a csid.
pub record IsUnderWay (csid : ℕ) (s : RtmpChunkParse) (m : RtmpMessage) : Type 0 where
  pub stored : s.in_progress csid ≡ some m
  pub announced : m.header.msg_len < 2 ^ 24
  pub timestamp : (s.prev_headers csid).timestamp ≡ m.header.timestamp
  pub no_ext_ts : HasNoExtTs s

deliver-partial :
    {σ : Type 0} (msg_cb : Option (MessageCallback σ)) (csid : ℕ) (m : RtmpMessage)
    (s : RtmpChunkParse) (ctx : σ)
    → length m.payload < m.header.msg_len
    → deliver msg_cb csid m s ctx ≡ (s, ctx)
unfolding deliver is_complete
deliver-partial msg_cb csid m s ctx lt =
    let short : leb m.header.msg_len (length m.payload) ≡ false = ground arith in rw short refl

module _ {σ : Type 0} (msg_cb : Option (MessageCallback σ)) (csid : ℕ) (ctx : σ) (rest : List ℕ)
    (g : ℕ) where
  -- The run on these bytes delivers a message with these bytes more, and goes on with the rest.
  pub record Joins (s : RtmpChunkParse) (m : RtmpMessage) (r : Run σ) (bytes : List ℕ)
      : Type 0 where
    pub parser : RtmpChunkParse
    pub message : RtmpMessage
    pub ran :
        r ≡ (let (s', ctx') = deliver msg_cb csid message parser ctx in run msg_cb g s' ctx' rest)
    pub joined : message ≡ with_more m.header message.header.fmt (m.payload ++ bytes)
    pub whole : is_complete message ≡ true
    pub chunk_size : parser.in_chunk_size ≡ s.in_chunk_size
    pub no_ext_ts : HasNoExtTs parser

  -- What the parser does with the rest of a message in pieces.
  pub run-continuations :
      (ps : List (List ℕ)) (s : RtmpChunkParse) (m : RtmpMessage)
      → 2 ≤ csid
      → csid < 64
      → IsUnderWay csid s m
      → length m.payload ≤ m.header.msg_len
      → Cuts s.in_chunk_size (m.header.msg_len - length m.payload) ps
      → length (continuations csid ps ++ rest) < 2 ^ 31
      → Joins s m
          (let (s', ctx') = deliver msg_cb csid m s ctx in
            run msg_cb (rounds ps g) s' ctx' (continuations csid ps ++ rest))
          (concat ps)
  unfolding continuations deliver is_complete
  run-continuations [] s m lo hi u le cuts small = record {
    parser = s;
    message = m;
    ran = refl;
    joined = ap (λ l. record m { payload = l }) (sym (append-nil m.payload));
    whole = ground arith;
    chunk_size = refl;
    no_ext_ts = u.no_ext_ts;
  }
  run-continuations (p ∷ ps) s m lo hi u le (some_left, full, cuts) small =
      let prev = s.prev_headers csid in
      let m' = continued_message prev m p in
      let s' : RtmpChunkParse = record s {
        prev_headers = update s.prev_headers csid (continued prev csid);
        in_progress = update s.in_progress csid (some m');
      } in
      let more = continuations csid ps ++ rest in
      let regroup = append_assoc (continuation csid p) (continuations csid ps) rest in
      let size = length-append m.payload p in
      let partial : length m.payload < m.header.msg_len = omega (arith, some_left) in
      let sizes : 1 + length (p ++ more) < 2 ^ 31 =
        omega (arith, ap length regroup, length-continuation csid p more) in
      let u' : IsUnderWay csid s' m' = record {
        stored = update_self s.in_progress csid (some m');
        announced = u.announced;
        timestamp = ap (λ h. h.timestamp) (update_self s.prev_headers csid (continued prev csid));
        no_ext_ts =
            update-HasNoExtTs s.prev_headers csid (continued prev csid) u.no_ext_ts
              (u.no_ext_ts csid);
      } in
      let ih =
        run-continuations ps s' m' lo hi u' (omega (arith, size, full))
          (subst (λ n. Cuts s.in_chunk_size n ps) (omega (arith, size)) cuts)
          (omega (arith, length-append p more)) in
      record {
        parser = ih.parser;
        message = ih.message;
        ran =
            ap (λ r. run msg_cb (suc (rounds ps g)) r.0 r.1 (continuations csid (p ∷ ps) ++ rest))
              (deliver-partial msg_cb csid m s ctx partial)
            ∙ ap (run msg_cb (suc (rounds ps g)) s ctx) regroup
            ∙ run-piece s csid m p more u.stored partial u.announced full sizes msg_cb (rounds ps g)
                ctx lo hi (u.no_ext_ts csid)
            ∙ ih.ran;
        joined =
            ih.joined
            ∙ ap
                (λ t.
                  with_more (record m.header { timestamp = t }) ih.message.header.fmt
                    ((m.payload ++ p) ++ concat ps))
                u.timestamp
            ∙ ap (with_more m.header ih.message.header.fmt) (append_assoc m.payload p (concat ps));
        whole = ih.whole;
        chunk_size = ih.chunk_size;
        no_ext_ts = ih.no_ext_ts;
      }
