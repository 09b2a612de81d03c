-- ===== src/Network/TcpConnection/Receive.antt =====
-- A read puts its bytes behind the readable ones.
use omega_streamer.Prelude.{ℕ, ◌+◌, ◌≤◌, ◌<◌, ◌^◌, ◌≡◌, ◌∙◌, ap, some, List, ◌++◌, length, arith}
use omega_streamer.MsgBuffer.{MsgBuffer, ensure_writable_bytes}
use omega_streamer.MsgBuffer.Contents.{IsValid, contents}
use omega_streamer.MsgBuffer.Append.{
  ensure_writable_bytes-IsValid, has_written-fill, written, written-IsValid,
}
use omega_streamer.Network.TcpConnection.{receive, read_size}

-- A read of at most the guaranteed room into a valid buffer fails no assert, keeps it valid, and
-- appends its bytes to the readable ones, while these and the room stay below 2 ^ 31.
pub receive-IsValid :
    {b : MsgBuffer} (bytes : List ℕ)
    → IsValid b
    → length (contents b) + read_size < 2 ^ 31
    → length bytes ≤ read_size
    → (b' : MsgBuffer) × (receive b bytes ≡ some b')
      × IsValid b'
      × (contents b' ≡ contents b ++ bytes)
unfolding receive
receive-IsValid {b} bytes v h fits =
    let (v', room, same) = ensure_writable_bytes-IsValid read_size v h in
    let (valid, all) = written-IsValid bytes v' (omega (arith, room, fits)) in
    (
      written (ensure_writable_bytes b read_size) bytes,
      has_written-fill bytes v' (omega (arith, room, fits)),
      valid,
      all ∙ ap (λ l. l ++ bytes) same,
    )
