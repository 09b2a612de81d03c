-- ===== src/Tests/Connections.antt =====
-- Connections that shake hands, fail and close, and the theorems about them.
use omega_streamer.Prelude.{
  ℕ, ◌≡◌, refl, List, [], ◌∷◌, replicate, length-replicate, ap, suc, arith,
}
use omega_streamer.Media.MediaSourceMgr.{MediaSourceMgr, make_key, lookup}
use omega_streamer.Rtmp.Context.{rtmp_context, publisher}
use omega_streamer.Rtmp.Text.{text_live}
use omega_streamer.Rtmp.Connection.{
  RtmpConnection, returned, ConnectionEvent, reads, read_fails, write_completes, rtmp_connection,
  connection_steps,
}
use omega_streamer.Rtmp.Connection.Survives.{Survives}
use omega_streamer.Rtmp.Connection.Closing.{Closes, close-Closes}
use omega_streamer.Rtmp.Connection.Steps.{IsThrough}
use omega_streamer.Rtmp.Connection.Finishes.{connection_steps-IsThrough}
use omega_streamer.Tests.HandShakes.{sevens, bytes}

abbrev pub registry : MediaSourceMgr
registry = record { sources = []; created = 0 }

abbrev pub greeted : RtmpConnection
greeted = rtmp_connection sevens bytes registry

-- A first byte, and then the end of the connection.
abbrev short_life : List ConnectionEvent
short_life = reads bytes 0 (3 ∷ []) ∷ write_completes ∷ read_fails ∷ []

-- The packets of a client that does not sign them, all zeros behind the version.
abbrev pub c0c1 : List ℕ
c0c1 = 3 ∷ replicate 1536 0

abbrev pub c2 : List ℕ
c2 = replicate 1536 0

connection_steps-IsThrough_example :
    (c : RtmpConnection) × (connection_steps sevens
        (rtmp_connection sevens bytes registry)
        (reads bytes 0 c0c1 ∷ write_completes ∷ write_completes ∷ reads bytes 1 c2 ∷ [])
      ≡ returned c)
    × IsThrough c
connection_steps-IsThrough_example =
    connection_steps-IsThrough sevens bytes registry [] [] bytes bytes 0 1 c0c1 c2 (omega arith)
      (ap suc (length-replicate {A = ℕ} 1536 0)) refl (omega arith)
      (length-replicate {A = ℕ} 1536 0)

-- A connection that publishes live/live, which is registered.
abbrev publishing : RtmpConnection
publishing = record greeted {
  context = record rtmp_context { role = publisher; app = text_live; stream_name = text_live };
  registry = record { sources = (make_key text_live text_live, 7) ∷ []; created = 8 };
}

close-Closes_example : Closes publishing (make_key text_live text_live)
unfolding rtmp_context lookup
close-Closes_example = close-Closes publishing (make_key text_live text_live) (refl, tt)
