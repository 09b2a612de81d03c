-- ===== src/Network/TcpConnection.antt =====
-- network/net/TcpConnection.cpp: what doRead does to the receive buffer.
pub mod Receive
pub mod Sending
use omega_streamer.Prelude.{ℕ, Option, List, length}
use omega_streamer.MsgBuffer.{MsgBuffer, ensure_writable_bytes, fill, has_written}

abbrev pub read_size : ℕ
read_size = 4096

-- One successful read: the room is made, the system puts `bytes` behind the tail, and the handler
-- moves the tail.
unfoldable pub receive : MsgBuffer → List ℕ → Option MsgBuffer
receive b bytes = has_written (fill (ensure_writable_bytes b read_size) bytes) (length bytes)
