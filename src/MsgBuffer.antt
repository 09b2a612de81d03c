-- ===== src/MsgBuffer.antt =====
-- network/base/MsgBuffer.h: the receive buffer of a connection.
--
-- `buf_` is the vector's contents, `head_` and `tail_` its two marks. `size_t` differences are
-- taken modulo 2 ^ 64. The asserts are active in the default build: where one fails the method
-- gives `none`.
pub mod Contents
pub mod Retrieve
pub mod Append
use omega_streamer.Prelude.{
  ℕ, ◌+◌, ◌-◌, ◌%◌, ◌^◌, Bool, Option, none, some, List, [], ◌++◌, ltb, leb, if◌then◌else◌, length,
  take, drop, replicate, ◌≤◌, ◌<◌,
}
use omega_streamer.Bytes.{Pointer, ◌⊕◌, at}

pub record MsgBuffer : Type 0 where
  pub buf_ : List ℕ
  pub head_ : ℕ
  pub tail_ : ℕ

abbrev pub buffer_default_length : ℕ
buffer_default_length = 4096

-- `size_t` subtraction.
abbrev pub sub_size : ℕ → ℕ → ℕ
sub_size a b = (a + 2 ^ 64 - b) % 2 ^ 64

-- MsgBuffer(len): a vector of `len` zero bytes.
unfoldable pub msg_buffer : ℕ → MsgBuffer
msg_buffer len = record { buf_ = replicate len 0; head_ = 0; tail_ = 0 }

unfoldable pub peek : MsgBuffer → Pointer
peek b = at b.buf_ ⊕ b.head_

unfoldable pub readable_bytes : MsgBuffer → ℕ
readable_bytes b = sub_size b.tail_ b.head_

unfoldable pub retrieve_all : MsgBuffer → MsgBuffer
retrieve_all b = record b { head_ = 0; tail_ = 0 }

unfoldable pub retrieve : MsgBuffer → ℕ → Option MsgBuffer
unfolding retrieve_all readable_bytes
retrieve b n =
    if leb n (readable_bytes b)
    then (if ltb n (readable_bytes b)
        then some (record b { head_ = b.head_ + n })
        else some (retrieve_all b))
    else none

unfoldable pub peek_int8 : MsgBuffer → Option ℕ
unfolding readable_bytes peek
peek_int8 b = if leb 1 (readable_bytes b) then some (peek b 0) else none

unfoldable pub writable_bytes : MsgBuffer → ℕ
writable_bytes b = sub_size (length b.buf_) b.tail_

unfoldable pub has_written : MsgBuffer → ℕ → Option MsgBuffer
has_written b n = if leb n (writable_bytes b) then some (record b { tail_ = b.tail_ + n }) else none

-- memmove(begin(), begin() + head_, readable): the readable bytes come to the front, and what lies
-- behind them stays.
unfoldable pub compact : MsgBuffer → MsgBuffer
compact b =
    let readable = readable_bytes b in
    record b {
      buf_ = take readable (drop b.head_ b.buf_) ++ drop readable b.buf_;
      head_ = 0;
      tail_ = readable;
    }

-- buf_.resize(tail_ + len), reached only where that is larger than the size.
unfoldable pub grow : MsgBuffer → ℕ → MsgBuffer
grow b len =
    if ltb (writable_bytes b) len
    then record b { buf_ = b.buf_ ++ replicate (b.tail_ + len - length b.buf_) 0 }
    else b

unfoldable pub ensure_writable_bytes : MsgBuffer → ℕ → MsgBuffer
ensure_writable_bytes b len =
    if leb len (writable_bytes b) then b else grow (if ltb 0 b.head_ then compact b else b) len

-- memcpy(BeginWrite(), data, len): the bytes that arrive are written from `tail_` on.
unfoldable pub fill : MsgBuffer → List ℕ → MsgBuffer
fill b bytes = record b {
  buf_ = take b.tail_ b.buf_ ++ (bytes ++ drop (b.tail_ + length bytes) b.buf_);
}

unfoldable pub append : MsgBuffer → List ℕ → Option MsgBuffer
append b bytes = has_written (fill (ensure_writable_bytes b (length bytes)) bytes) (length bytes)
