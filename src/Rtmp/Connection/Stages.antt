-- ===== src/Rtmp/Connection/Stages.antt =====
-- The two stages of a connection: the handshake, and the chunks behind it.
use omega_streamer.Prelude.{◌≡◌, Bool, true, false}
use omega_streamer.MsgBuffer.{MsgBuffer}
use omega_streamer.Media.MediaSourceMgr.{MediaSourceMgr}
use omega_streamer.Rtmp.Chunk.{RtmpChunkParse, rtmp_chunk_parse}
use omega_streamer.Rtmp.Context.{RtmpContext, rtmp_context}
use omega_streamer.Rtmp.HandShake.{is_done}
use omega_streamer.Rtmp.HandShake.Server.{IsServer}
use omega_streamer.Rtmp.HandShake.Server.Answers.{Answers}
use omega_streamer.Rtmp.Connection.{RtmpConnection, Outcome, returned}
use omega_streamer.Rtmp.Connection.Begun.{IsBegun}

-- The state of context, parser and callback, by whether the handshake is done.
abbrev pub InStage : Bool → RtmpContext → RtmpChunkParse → Bool → Type 0
InStage false ctx parser calls_back =
    (ctx ≡ rtmp_context) × (parser ≡ rtmp_chunk_parse) × (calls_back ≡ false)
InStage true ctx parser calls_back = (calls_back ≡ true) × IsBegun ctx

pub record IsStaged (c : RtmpConnection) : Type 0 where
  pub server : IsServer c.m_hand_shake
  pub stage : InStage (is_done c.m_hand_shake.state) c.context c.chunk_parse c.calls_back

-- The connection is staged where the handler returns.
abbrev pub ReturnsStaged : Outcome → Type 0
ReturnsStaged (returned c) = IsStaged c
ReturnsStaged o = Unit
