-- ===== src/MsgBuffer/Contents.antt =====
-- What a valid buffer holds, and what each method does to it.
use omega_streamer.Prelude.{
  ℕ, ◌-◌, ◌^◌, ◌≤◌, ◌<◌, ◌≡◌, refl, List, [], length, take, sym, ◌∙◌, length-replicate, drop, arith,
  length-take, length-drop, get_or-take, get_or-drop,
}
use omega_streamer.Bytes.{at}
use omega_streamer.MsgBuffer.{MsgBuffer, msg_buffer, peek, readable_bytes, writable_bytes}

-- The marks lie in order inside the vector, and the vector is no larger than an `int` counts.
pub record IsValid (b : MsgBuffer) : Type 0 where
  pub ordered : b.head_ ≤ b.tail_
  pub inside : b.tail_ ≤ length b.buf_
  pub small : length b.buf_ < 2 ^ 31

-- The bytes that have arrived and are not yet retrieved.
abbrev pub contents : MsgBuffer → List ℕ
contents b = take (b.tail_ - b.head_) (drop b.head_ b.buf_)

pub readable_bytes-eq : {b : MsgBuffer} → IsValid b → readable_bytes b ≡ b.tail_ - b.head_
unfolding readable_bytes
readable_bytes-eq v = omega arith

pub writable_bytes-eq : {b : MsgBuffer} → IsValid b → writable_bytes b ≡ length b.buf_ - b.tail_
unfolding writable_bytes
writable_bytes-eq v = omega arith

pub length-contents : {b : MsgBuffer} → IsValid b → length (contents b) ≡ readable_bytes b
length-contents {b} v = omega (
  arith,
  readable_bytes-eq v,
  length-take (b.tail_ - b.head_) (drop b.head_ b.buf_),
  length-drop b.head_ b.buf_,
)

pub peek-eq :
    {b : MsgBuffer} (i : ℕ) → IsValid b → i < readable_bytes b → peek b i ≡ at (contents b) i
unfolding peek
peek-eq {b} i v h = sym (
    get_or-take (b.tail_ - b.head_) (drop b.head_ b.buf_) i 0 (omega (arith, readable_bytes-eq v))
    ∙ get_or-drop b.head_ b.buf_ i 0)

pub msg_buffer-IsValid :
    (len : ℕ) → len < 2 ^ 31 → IsValid (msg_buffer len) × (contents (msg_buffer len) ≡ [])
unfolding msg_buffer
msg_buffer-IsValid len h = (
  record {
    ordered = omega arith;
    inside = omega arith;
    small = omega (arith, length-replicate {A = ℕ} len 0);
  },
  refl,
)
