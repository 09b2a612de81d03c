-- ===== src/Rtmp/Connection.antt =====
-- media/rtmp/RtmpContext.cpp, the life of a connection: the constructor, Start, onMessage,
-- onWriteComplete and onClose, with doRead and Close of network/net/TcpConnection.cpp around them.
--
-- A connection runs on its loop, one handler at a time. `calls_back` tells whether the parser has its
-- message callback, and `registry` is the registry of sources that all connections share. The handler of
-- a read that was complete before the socket was closed still runs: `closed` does not stop it. The room
-- that doRead makes for the next read is made with that read.
pub mod Begun
pub mod Stages
pub mod Survives
pub mod Closing
pub mod Steps
pub mod Finishes
pub mod Sessions
pub mod Delivers
pub mod Commands
pub mod Publishes
use omega_streamer.Prelude.{
  ℕ, Bool, true, false, Option, none, some, List, [], ◌∷◌, ◌==◌, ◌&&◌, not, if◌then◌else◌,
}
use omega_streamer.MsgBuffer.{MsgBuffer, msg_buffer, buffer_default_length, readable_bytes}
use omega_streamer.Media.MediaSourceMgr.{MediaSourceMgr, remove}
use omega_streamer.Network.TcpConnection.{receive}
use omega_streamer.Rtmp.Amf0.Decoder.{is_empty}
use omega_streamer.Rtmp.Chunk.{RtmpChunkParse, rtmp_chunk_parse}
use omega_streamer.Rtmp.ChunkParse.Defs.{
  Session, Ret, error, threw, assert_failed, MessageCallback, parse,
}
use omega_streamer.Rtmp.Context.{RtmpContext, RtmpRole, publisher, rtmp_context, on_hand_shake_done}
use omega_streamer.Rtmp.Context.Messages.{handle_message}
use omega_streamer.Rtmp.HandShake.{
  is_done, RtmpHandShake, rtmp_hand_shake, HandShakeRet, goes_on, finished, refused, start,
  write_complete, hand_shake,
}

pub record RtmpConnection : Type 0 where
  pub context : RtmpContext
  pub m_hand_shake : RtmpHandShake
  pub chunk_parse : RtmpChunkParse
  pub calls_back : Bool
  pub recv_buf : MsgBuffer
  pub closed : Bool
  pub registry : MediaSourceMgr

-- How a handler ends: it returns, or an exception, an assert or a lack of fuel ends the program.
pub data Outcome : Type 0 where
  returned : RtmpConnection → Outcome
  terminated aborted out_of_fuel : Outcome

unfoldable pub is_publisher : RtmpRole → Bool
is_publisher publisher = true
is_publisher r = false

-- onClose
unfoldable pub on_close : RtmpConnection → RtmpConnection
unfolding is_publisher
on_close c =
    let ctx = c.context in
    record c {
      context = record ctx { media_source = none };
      registry =
          if is_publisher ctx.role && (not (is_empty ctx.app) && not (is_empty ctx.stream_name))
          then remove c.registry ctx.app ctx.stream_name
          else c.registry;
    }

-- TcpConnection::Close, with its close callback.
unfoldable pub close : RtmpConnection → RtmpConnection
unfolding on_close
close c = if c.closed then c else on_close (record c { closed = true })

unfoldable pub message_callback : Bool → Option (MessageCallback RtmpContext)
message_callback true = some handle_message
message_callback false = none

-- onMessage, behind Parse.
unfoldable pub after_parse : RtmpConnection → Option (Ret × Session RtmpContext) → Outcome
after_parse c none = out_of_fuel
after_parse c (some (threw, st)) = terminated
after_parse c (some (assert_failed, st)) = aborted
after_parse c (some (error, st)) =
    returned (close (record c { context = st.ctx; chunk_parse = st.parser; recv_buf = st.buf }))
after_parse c (some (r, st)) =
    returned (record c { context = st.ctx; chunk_parse = st.parser; recv_buf = st.buf })

unfoldable pub parse_chunks : RtmpConnection → Outcome
unfolding after_parse message_callback
parse_chunks c = after_parse c (
    parse (message_callback c.calls_back)
      (record { parser = c.chunk_parse; buf = c.recv_buf; ctx = c.context }))

-- onMessage, behind HandShake.
unfoldable pub after_hand_shake :
    RtmpConnection → Option (HandShakeRet × (RtmpHandShake × MsgBuffer)) → Outcome
unfolding parse_chunks
after_hand_shake c none = aborted
after_hand_shake c (some (refused, (hs, buf))) =
    returned (close (record c { m_hand_shake = hs; recv_buf = buf }))
after_hand_shake c (some (goes_on, (hs, buf))) =
    returned (record c { m_hand_shake = hs; recv_buf = buf })
after_hand_shake c (some (finished, (hs, buf))) =
    let c' : RtmpConnection = record c {
      context = on_hand_shake_done c.context;
      m_hand_shake = hs;
      calls_back = true;
      recv_buf = buf;
    } in
    if readable_bytes buf == 0 then returned c' else parse_chunks c'

unfoldable pub on_write_complete : RtmpConnection → RtmpConnection
on_write_complete c =
    if is_done c.m_hand_shake.state
    then c
    else record c { m_hand_shake = write_complete c.m_hand_shake }

-- What happens to a connection. A read has the bytes that came, and the random bytes and the clock of
-- a handshake that goes on with them.
pub data ConnectionEvent : Type 0 where
  reads : (ℕ → ℕ) → ℕ → List ℕ → ConnectionEvent
  read_fails write_completes write_fails : ConnectionEvent

module _ (hmac : List ℕ → List ℕ → List ℕ) where
  -- The constructor and Start, on the connection that the server has accepted.
  unfoldable pub rtmp_connection : (ℕ → ℕ) → MediaSourceMgr → RtmpConnection
  rtmp_connection random registry = record {
    context = rtmp_context;
    m_hand_shake = start hmac random (rtmp_hand_shake false);
    chunk_parse = rtmp_chunk_parse;
    calls_back = false;
    recv_buf = msg_buffer buffer_default_length;
    closed = false;
    registry = registry;
  }

  unfoldable pub on_message : (ℕ → ℕ) → ℕ → RtmpConnection → Outcome
  unfolding after_hand_shake
  on_message random now c =
      if is_done c.m_hand_shake.state
      then parse_chunks c
      else after_hand_shake c (hand_shake hmac random now c.m_hand_shake c.recv_buf)

  -- The handler of a read, behind the system's.
  unfoldable pub on_received : (ℕ → ℕ) → ℕ → RtmpConnection → Option MsgBuffer → Outcome
  unfolding on_message
  on_received random now c none = aborted
  on_received random now c (some buf) = on_message random now (record c { recv_buf = buf })

  unfoldable pub connection_step : RtmpConnection → ConnectionEvent → Outcome
  unfolding on_received on_write_complete
  connection_step c (reads random now bytes) = on_received random now c (receive c.recv_buf bytes)
  connection_step c read_fails = returned (close c)
  connection_step c write_completes = returned (on_write_complete c)
  connection_step c write_fails = returned (close c)

  unfoldable pub and_events : (RtmpConnection → Outcome) → Outcome → Outcome
  and_events next (returned c) = next c
  and_events next o = o

  unfoldable pub connection_steps : RtmpConnection → List ConnectionEvent → Outcome
  unfolding and_events
  connection_steps c [] = returned c
  connection_steps c (e ∷ es) = and_events (λ c'. connection_steps c' es) (connection_step c e)
