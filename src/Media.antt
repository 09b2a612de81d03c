-- ===== src/Media.antt =====
-- media/base: packets and the sources that hand them on.
pub mod Packet
pub mod MediaSource
pub mod MediaSourceMgr
