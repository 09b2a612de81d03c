-- ===== src/Rtmp/ChunkParse.antt =====
-- media/rtmp/RtmpChunkParse: the definitions (Defs), the specification on lists of bytes (Stream),
-- that the one implements the other (Refine), and what follows for the caller (Fragments).
pub mod Defs
pub mod Stream
pub mod Split
pub mod Refine
pub mod Total
pub mod Reads
pub mod Fragments
pub mod Invariant
pub mod Kept
