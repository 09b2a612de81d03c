-- ===== src/MsgBuffer/Append.antt =====
-- Making room in a buffer, and appending to it.
use omega_streamer.Prelude.{
  ℕ, ◌+◌, ◌-◌, ◌^◌, ◌≤◌, ◌<◌, ◌≡◌, refl, ap, some, List, ◌++◌, ltb, leb, length, take, ◌∙◌, le→leb,
  leb→le, drop-append_le, ltb→lt, ltb→le, take-append_le, Bool-cases, inl, inr, drop-take,
  take-append, append_assoc, length-replicate, drop, replicate, arith, length-append, length-take,
  length-drop,
}
use omega_streamer.MsgBuffer.{
  MsgBuffer, readable_bytes, writable_bytes, has_written, compact, grow, ensure_writable_bytes,
  fill, append,
}
use omega_streamer.MsgBuffer.Contents.{
  IsValid, contents, readable_bytes-eq, writable_bytes-eq, length-contents,
}

-- Moving the readable bytes to the front keeps them.
contents-compact : {b : MsgBuffer} → IsValid b → contents (compact b) ≡ contents b
unfolding compact
contents-compact {b} v =
    let r : readable_bytes b - 0 ≡ length (contents b) = omega (arith, length-contents v) in
    rw (r, readable_bytes-eq v) (take-append (contents b) (drop (b.tail_ - b.head_) b.buf_))

length-compact : {b : MsgBuffer} → IsValid b → length (compact b).buf_ ≡ length b.buf_
unfolding compact
length-compact {b} v = omega (
  arith,
  readable_bytes-eq v,
  length-append (take (readable_bytes b) (drop b.head_ b.buf_)) (drop (readable_bytes b) b.buf_),
  length-take (readable_bytes b) (drop b.head_ b.buf_),
  length-drop b.head_ b.buf_,
  length-drop (readable_bytes b) b.buf_,
)

compact-marks :
    {b : MsgBuffer} → IsValid b → ((compact b).head_ ≡ 0) × ((compact b).tail_ ≡ b.tail_ - b.head_)
unfolding compact
compact-marks v = (refl, readable_bytes-eq v)

compact-IsValid : {b : MsgBuffer} → IsValid b → IsValid (compact b)
compact-IsValid v = omega (arith, length-compact v, compact-marks v)

-- What `grow` does to a valid buffer that stays below the bound.
record Grown (b : MsgBuffer) (len : ℕ) (b' : MsgBuffer) : Type 0 where
  pub valid : IsValid b'
  pub room : len ≤ writable_bytes b'
  pub same : contents b' ≡ contents b

contents-pad :
    {b : MsgBuffer} (zs : List ℕ)
    → IsValid b
    → contents (record b { buf_ = b.buf_ ++ zs }) ≡ contents b
contents-pad {b} zs v = rw (drop-append_le b.head_ b.buf_ zs (omega arith)) (
    take-append_le (b.tail_ - b.head_) (drop b.head_ b.buf_) zs
      (omega (arith, length-drop b.head_ b.buf_)))

grow-Grown :
    {b : MsgBuffer} (len : ℕ) → IsValid b → b.tail_ + len < 2 ^ 31 → Grown b len (grow b len)
unfolding grow
grow-Grown {b} len v h = elim (Bool-cases (ltb (writable_bytes b) len)) [
  | inl lt ↦
      let zs = replicate {A = ℕ} (b.tail_ + len - length b.buf_) 0 in
      let long = length-append b.buf_ zs in
      let pad = length-replicate {A = ℕ} (b.tail_ + len - length b.buf_) 0 in
      let b' : MsgBuffer = record b { buf_ = b.buf_ ++ zs } in
      let v' : IsValid b' = omega (arith, long, pad, ltb→lt _ _ lt, writable_bytes-eq v) in
      rw lt (record {
        valid = v';
        room = omega (arith, writable_bytes-eq v', long, pad, writable_bytes-eq v);
        same = contents-pad zs v;
      })
  | inr ge ↦ rw ge (record { valid = v; room = ltb→le _ _ ge; same = refl })
]

-- Making room keeps a buffer valid and its contents as they are, and gives the room asked for, as
-- long as the readable bytes and the room together stay below 2 ^ 31.
pub ensure_writable_bytes-IsValid :
    {b : MsgBuffer} (len : ℕ)
    → IsValid b
    → length (contents b) + len < 2 ^ 31
    → IsValid (ensure_writable_bytes b len)
      × (len ≤ writable_bytes (ensure_writable_bytes b len))
      × (contents (ensure_writable_bytes b len) ≡ contents b)
unfolding ensure_writable_bytes
ensure_writable_bytes-IsValid {b} len v h = elim (Bool-cases (leb len (writable_bytes b))) [
  | inl le ↦ rw le (v, leb→le len _ le, refl)
  | inr gt ↦ elim (Bool-cases (ltb 0 b.head_)) [
    | inl moved ↦
        let g =
          grow-Grown len (compact-IsValid v)
            (omega (arith, compact-marks v, length-contents v, readable_bytes-eq v)) in
        rw (gt, moved) (g.valid, g.room, g.same ∙ contents-compact v)
    | inr at_front ↦
        let low : b.head_ ≤ 0 = ltb→le 0 b.head_ at_front in
        let g = grow-Grown len v (omega (arith, length-contents v, readable_bytes-eq v)) in
        rw (gt, at_front) (g.valid, g.room, g.same)
  ]
]

-- The bytes between the marks once `bytes` stands at `tail_` and the mark is moved behind it.
abbrev pub written : MsgBuffer → List ℕ → MsgBuffer
written b bytes = record b {
  buf_ = take b.tail_ b.buf_ ++ (bytes ++ drop (b.tail_ + length bytes) b.buf_);
  tail_ = b.tail_ + length bytes;
}

length-written :
    {b : MsgBuffer} (bytes : List ℕ)
    → IsValid b
    → b.tail_ + length bytes ≤ length b.buf_
    → length (written b bytes).buf_ ≡ length b.buf_
length-written {b} bytes v h = omega (
  arith,
  length-append (take b.tail_ b.buf_) (bytes ++ drop (b.tail_ + length bytes) b.buf_),
  length-append bytes (drop (b.tail_ + length bytes) b.buf_),
  length-take b.tail_ b.buf_,
  length-drop (b.tail_ + length bytes) b.buf_,
)

contents-written :
    {b : MsgBuffer} (bytes : List ℕ)
    → IsValid b
    → b.tail_ + length bytes ≤ length b.buf_
    → contents (written b bytes) ≡ contents b ++ bytes
contents-written {b} bytes v h =
    let behind = drop (b.tail_ + length bytes) b.buf_ in
    let split : b.tail_ ≡ b.head_ + (b.tail_ - b.head_) = omega arith in
    let kept : drop b.head_ (take b.tail_ b.buf_) ≡ contents b =
      ap (λ k. drop b.head_ (take k b.buf_)) split ∙ drop-take b.head_ (b.tail_ - b.head_) b.buf_ in
    let size : b.tail_ + length bytes - b.head_ ≡ length (contents b ++ bytes) =
      omega (arith, length-append (contents b) bytes, length-contents v, readable_bytes-eq v) in
    rw
      (
        drop-append_le b.head_ (take b.tail_ b.buf_) (bytes ++ behind)
            (omega (arith, length-take b.tail_ b.buf_)),
        kept,
        ← append_assoc (contents b) bytes behind,
        size,
      )
      (take-append (contents b ++ bytes) behind)

pub has_written-fill :
    {b : MsgBuffer} (bytes : List ℕ)
    → IsValid b
    → length bytes ≤ writable_bytes b
    → has_written (fill b bytes) (length bytes) ≡ some (written b bytes)
unfolding has_written fill
has_written-fill {b} bytes v h =
    let fits : b.tail_ + length bytes ≤ length b.buf_ = omega (arith, writable_bytes-eq v, h) in
    let long = length-written bytes v fits in
    let filled : IsValid (fill b bytes) = record {
      ordered = v.ordered;
      inside = omega (arith, long);
      small = omega (arith, long);
    } in
    let room : length bytes ≤ writable_bytes (fill b bytes) =
      omega (arith, long, writable_bytes-eq filled, writable_bytes-eq v, h) in
    rw (le→leb (length bytes) (writable_bytes (fill b bytes)) room)

pub written-IsValid :
    {b : MsgBuffer} (bytes : List ℕ)
    → IsValid b
    → length bytes ≤ writable_bytes b
    → IsValid (written b bytes) × (contents (written b bytes) ≡ contents b ++ bytes)
written-IsValid {b} bytes v room =
    let fits : b.tail_ + length bytes ≤ length b.buf_ = omega (arith, writable_bytes-eq v) in
    (omega (arith, length-written bytes v fits, v.small, v.ordered), contents-written bytes v fits)

-- Appending to a valid buffer never fails an assert, keeps it valid, and puts the bytes behind the
-- readable ones, as long as all of them together stay below 2 ^ 31.
pub append-IsValid :
    {b : MsgBuffer} (bytes : List ℕ)
    → IsValid b
    → length (contents b) + length bytes < 2 ^ 31
    → (b' : MsgBuffer) × (append b bytes ≡ some b')
      × IsValid b'
      × (contents b' ≡ contents b ++ bytes)
unfolding append
append-IsValid {b} bytes v h =
    let (v', room, same) = ensure_writable_bytes-IsValid (length bytes) v h in
    let (valid, all) = written-IsValid bytes v' room in
    (
      written (ensure_writable_bytes b (length bytes)) bytes,
      has_written-fill bytes v' room,
      valid,
      all ∙ ap (λ l. l ++ bytes) same,
    )
