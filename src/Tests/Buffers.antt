-- ===== src/Tests/Buffers.antt =====
-- Integers in bytes, the receive buffer, and the theorems about them at small inputs.
use omega_streamer.Prelude.{ℕ, ◌%◌, ◌^◌, ◌≡◌, refl, some, none, List, [], ◌∷◌, ◌++◌, arith, drop}
use omega_streamer.Bytes.{
  ◌⊕◌, at, read_uint16_be, read_uint24_be, read_uint32_be, read_uint32_le, write_uint16_be,
  write_uint24_be, write_uint32_be, write_uint32_le,
}
use omega_streamer.Bytes.RoundTrip.{readers-writers}
use omega_streamer.MsgBuffer.{
  MsgBuffer, readable_bytes, writable_bytes, retrieve, ensure_writable_bytes, append, compact, grow,
  fill, has_written,
}
use omega_streamer.MsgBuffer.Contents.{IsValid, contents}
use omega_streamer.MsgBuffer.Retrieve.{retrieve-IsValid, retrieve-beyond}
use omega_streamer.MsgBuffer.Append.{append-IsValid}
use omega_streamer.Network.TcpConnection.{receive}
use omega_streamer.Network.TcpConnection.Receive.{receive-IsValid}

abbrev four : List ℕ
four = 9 ∷ 9 ∷ 9 ∷ 9 ∷ 9 ∷ []

readers-writers_example :
    (read_uint16_be (at (write_uint16_be four 1 0x1234567) ⊕ 1) ≡ 0x1234567 % 2 ^ 16)
    × (read_uint24_be (at (write_uint24_be four 1 0x1234567) ⊕ 1) ≡ 0x1234567 % 2 ^ 24)
    × (read_uint32_be (at (write_uint32_be four 1 0x1234567) ⊕ 1) ≡ 0x1234567 % 2 ^ 32)
    × (read_uint32_le (at (write_uint32_le four 1 0x1234567) ⊕ 1) ≡ 0x1234567 % 2 ^ 32)
readers-writers_example = readers-writers four 1 0x1234567 (omega arith)

-- Five bytes, of which the middle two are readable.
abbrev small : MsgBuffer
small = record { buf_ = 1 ∷ 2 ∷ 3 ∷ 4 ∷ 5 ∷ []; head_ = 2; tail_ = 4 }

small-IsValid : IsValid small
small-IsValid = omega arith

-- The append moves the readable bytes to the front and enlarges the vector.
append_moves_and_grows :
    append small (6 ∷ 7 ∷ 8 ∷ 9 ∷ [])
    ≡ some (record { buf_ = 3 ∷ 4 ∷ 6 ∷ 7 ∷ 8 ∷ 9 ∷ []; head_ = 0; tail_ = 6 })
unfolding append ensure_writable_bytes compact grow fill has_written writable_bytes readable_bytes
append_moves_and_grows = refl

retrieve_all_resets : retrieve small 2 ≡ some (record small { head_ = 0; tail_ = 0 })
unfolding retrieve
retrieve_all_resets = refl

retrieve_too_much : retrieve small 3 ≡ none
unfolding readable_bytes
retrieve_too_much = retrieve-beyond small 3 (omega arith)

retrieve-IsValid_example :
    (b' : MsgBuffer) × (retrieve small 1 ≡ some b')
    × IsValid b'
    × (contents b' ≡ drop 1 (contents small))
retrieve-IsValid_example = retrieve-IsValid 1 small-IsValid (omega arith)

append-IsValid_example :
    (b' : MsgBuffer) × (append small (6 ∷ 7 ∷ []) ≡ some b')
    × IsValid b'
    × (contents b' ≡ contents small ++ (6 ∷ 7 ∷ []))
append-IsValid_example = append-IsValid (6 ∷ 7 ∷ []) small-IsValid (omega arith)

receive-IsValid_example :
    (b' : MsgBuffer) × (receive small (6 ∷ 7 ∷ []) ≡ some b')
    × IsValid b'
    × (contents b' ≡ contents small ++ (6 ∷ 7 ∷ []))
receive-IsValid_example = receive-IsValid (6 ∷ 7 ∷ []) small-IsValid (omega arith) (omega arith)
