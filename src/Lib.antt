-- ===== src/Lib.antt =====
-- OmegaStreamer: a model of the RTMP ingest of the streaming server, and its properties.
--
-- The server (src/media/rtmp/RtmpServer.cpp, over src/network/TcpServer.cpp) accepts TCP connections
-- and gives each to the event loop of a worker thread (src/network/net/EventLoopThreadPool.cpp) and to a
-- context of its own. A connection (src/network/net/TcpConnection.cpp) reads what arrives into
-- a receive buffer (src/network/base/MsgBuffer.h), and hands the buffer to a message callback. For
-- RTMP that is the context of the connection (src/media/rtmp/RtmpContext.cpp), which after the
-- handshake calls the chunk parser (src/media/rtmp/RtmpChunkParse.cpp). The parser cuts the bytes
-- into chunks, joins chunks of a csid into messages, and calls back with each complete message.
-- The context decodes AMF0 commands (src/media/rtmp/AMF/AMF0.cpp), answers through sendChunk, and calls
-- the source of its stream (src/media/base/MediaSource.cpp), where it has one, for audio and video; a
-- source caches them and forwards them to the viewers, and a registry keeps the sources by name.
--
-- The files and what they model:
--   Bytes: src/media/base/BytesReader.h and BytesWriter.h. A pointer is a function from offsets to
--     bytes, so that a read out of bounds is a read of an arbitrary byte.
--   MsgBuffer: src/network/base/MsgBuffer.h, each method a function of the same name in snake case.
--     A failed assert is `none`. Its children relate it to the list of readable bytes.
--   Network.TcpConnection: doRead, as far as it touches the receive buffer; its child Sending has Send,
--     doWrite and Close, and Sending.Ordered what they guarantee.
--   Rtmp.Header: src/media/rtmp/RtmpHeader.h.
--   Rtmp.Chunk: one call of parseOneChunk up to the change of the buffer (`read_chunk`), on a pointer
--     and a number of readable bytes; its children hold what is proved of it.
--   Rtmp.ChunkParse: Defs has parseOneChunk and the loop Parse on the receive buffer; Stream has the
--     specification, a run on a list of bytes; Reads joins doRead and Parse.
--   Rtmp.SendChunk: sendChunk of src/media/rtmp/RtmpContext.cpp. FirstChunk,
--     Continuation and Reassembly are about a message that a client cuts into chunks.
--   Rtmp.Amf0: values and lookups of src/media/rtmp/AMF/AMF0.h, with Decoder and Encoder of AMF0.cpp; a
--     `double` is its 64-bit pattern.
--   Rtmp.Context: the state of RtmpContext and its sends; Commands has the AMF0 commands, Media the
--     metadata, audio and video, and Messages the callback handleMessage. Rtmp.Text has the literals,
--     Rtmp.Double the conversion of a stream id to a `double`.
--   Rtmp.Connection: the life of a connection, onMessage, onWriteComplete and onClose of RtmpContext with
--     the reads and the closing of TcpConnection around them, as steps on events. It joins the handshake,
--     the parser, the context and the registry. Begun and Stages are about the order of the two stages,
--     Survives about what a peer can do to the program, Steps and Finishes about a whole handshake, and
--     Sessions, Delivers, Commands and Publishes about what a client sends behind it.
--   Rtmp.Server: src/media/rtmp/RtmpServer.cpp. Rtmp.Consumer: src/media/rtmp/RtmpConsumer.cpp.
--   Network.Eventloop, Network.EventLoopThread, Network.EventLoopThreadPool: the files of
--     these names in src/network/net. Threads are parties of a step relation, or take part by their id.
--   Network.TcpServer: src/network/TcpServer.cpp, with the reports of accepts as events.
--   Rtmp.HandShake: src/media/rtmp/RtmpHandShake.cpp, both sides; Digest and Accept are about the packets
--     of the complex handshake, Server about the states of a server. Rtmp.HandShakeKeys has the keys.
--   Media.Packet and Media.MediaSource: src/media/base/Packet.h and MediaSource.cpp, with every call of a
--     source as a step that gives the calls of OnPacket it makes. Media.MediaSourceMgr: the registry.
--   Prelude: lists, tests, strings and integers over the native numbers. Tests: runs on concrete inputs.
--
-- Numbers: unsigned fields are natural numbers that the code keeps below their width; sums that can
-- wrap are written modulo 2 ^ 32 or 2 ^ 64, and the `int` arithmetic of parseOneChunk is in ℤ with the
-- casts written out. The chunk size is not negative, since the code only sets it to such values.
-- Buffers hold fewer than 2 ^ 31 bytes where a theorem says so: beyond that the `int` casts change sign.
--
-- Fuel: `parse` gives the loop one round more than there are readable bytes, and each round but the
-- last consumes one byte at least. The run of the specification takes any fuel above the number of
-- bytes. DecodeObject gets one round more than there are bytes left, and each round takes a byte.
--
-- HMAC-SHA256, the random bytes and the clock of the handshake are parameters; of the hash only its
-- length is assumed. The message callback of the chunk parser is a parameter that may change the chunk
-- size and a state of its own; handleMessage is one.
--
-- asio's io_context is a parameter of the event loop, by what it does with the functions that are posted to
-- it. Accepts, reads, writes and timers report when they will: their reports are events, in any order
-- that the code does not fix. A connection is closed by an error of either side.
--
-- Not modelled: the durations of timers, the options of sockets, the text of addresses, logging and the
-- clock; main, which makes one server and stops it on a signal; what two threads do inside one call of a
-- source or of the registry, which locks; and the vendored libraries under deps.
pub mod Prelude
pub mod Bytes
pub mod MsgBuffer
pub mod Media
pub mod Network
pub mod Rtmp
mod Tests
