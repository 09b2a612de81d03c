-- ===== src/MsgBuffer/Retrieve.antt =====
-- Taking bytes from the front of a buffer.
use omega_streamer.Prelude.{
  ℕ, ◌+◌, ◌-◌, ◌≤◌, ◌<◌, ◌≡◌, none, some, ltb, length, sym, lt→ltb, ltb→lt, ltb→le, Bool-cases, inl,
  inr, drop-drop, drop-take, drop-all, drop, arith,
}
use omega_streamer.MsgBuffer.{MsgBuffer, readable_bytes, retrieve_all, retrieve}
use omega_streamer.MsgBuffer.Contents.{IsValid, contents, readable_bytes-eq, length-contents}

contents-advance :
    (b : MsgBuffer) (n : ℕ)
    → b.head_ + n ≤ b.tail_
    → contents (record b { head_ = b.head_ + n }) ≡ drop n (contents b)
contents-advance b n h =
    let split : b.tail_ - b.head_ ≡ n + (b.tail_ - (b.head_ + n)) = omega arith in
    rw (
      split,
      drop-take n (b.tail_ - (b.head_ + n)) (drop b.head_ b.buf_),
      drop-drop n b.head_ b.buf_,
    )

-- What `retrieve` leaves of a valid buffer.
record Retrieved (b : MsgBuffer) (n : ℕ) (b' : MsgBuffer) : Type 0 where
  pub done : retrieve b n ≡ some b'
  pub valid : IsValid b'
  pub left : contents b' ≡ drop n (contents b)

retrieve-some :
    (b : MsgBuffer) (n : ℕ)
    → IsValid b
    → n < readable_bytes b
    → Retrieved b n (record b { head_ = b.head_ + n })
unfolding retrieve
retrieve-some b n v lt = record {
  done = rw (lt→ltb n (readable_bytes b) lt) (ground arith);
  valid = record {
    ordered = omega (arith, readable_bytes-eq v);
    inside = v.inside;
    small = v.small;
  };
  left = contents-advance b n (omega (arith, readable_bytes-eq v));
}

retrieve-whole :
    (b : MsgBuffer) (n : ℕ) → IsValid b → n ≡ readable_bytes b → Retrieved b n (retrieve_all b)
unfolding retrieve
retrieve-whole b n v e = record {
  done = ground arith;
  valid = omega (arith, v.small);
  left = sym (drop-all n (contents b) (omega (arith, length-contents v)));
}

-- Retrieving no more than is readable succeeds, keeps the buffer valid, and removes exactly that
-- many bytes from the front.
pub retrieve-IsValid :
    {b : MsgBuffer} (n : ℕ)
    → IsValid b
    → n ≤ length (contents b)
    → (b' : MsgBuffer) × (retrieve b n ≡ some b') × IsValid b' × (contents b' ≡ drop n (contents b))
retrieve-IsValid {b} n v h = elim (Bool-cases (ltb n (readable_bytes b))) [
  | inl lt ↦ let r = retrieve-some b n v (ltb→lt n _ lt) in (_, r.done, r.valid, r.left)
  | inr ge ↦
      let r = retrieve-whole b n v (omega (arith, ltb→le n _ ge, length-contents v)) in
      (_, r.done, r.valid, r.left)
]

-- Retrieving more than is readable fails the assert.
pub retrieve-beyond : (b : MsgBuffer) (n : ℕ) → readable_bytes b < n → retrieve b n ≡ none
unfolding retrieve
retrieve-beyond b n h = ground arith
