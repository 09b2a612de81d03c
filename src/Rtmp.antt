-- ===== src/Rtmp.antt =====
-- media/rtmp: the RTMP protocol over a connection.
pub mod Amf0
pub mod Header
pub mod Chunk
pub mod ChunkParse
pub mod SendChunk
pub mod Text
pub mod Double
pub mod Context
pub mod HandShakeKeys
pub mod HandShake
pub mod Connection
pub mod Server
pub mod Consumer
