-- ===== src/Rtmp/Connection/Publishes.antt =====
-- A client that connects to publish: from its first byte to the status that tells it to start.
use omega_streamer.Prelude.{ℕ, ◌+◌, ◌≤◌, ◌<◌, ◌^◌, ◌≡◌, List, [], ◌∷◌, ◌++◌, length}
use omega_streamer.Bytes.{at}
use omega_streamer.Media.MediaSourceMgr.{MediaSourceMgr}
use omega_streamer.Rtmp.Amf0.RoundTrip.{text, double}
use omega_streamer.Rtmp.Amf0.Sequence.{Item, item_value, scalar, IsItem}
use omega_streamer.Rtmp.Text.{text_connect, text_create_stream, text_publish}
use omega_streamer.Rtmp.Context.{RtmpContext, rtmp_context, on_hand_shake_done}
use omega_streamer.Rtmp.Context.Commands.{
  handle_connect, app_from_url, connect_arguments, handle_create_stream, handle_publish,
}
use omega_streamer.Rtmp.HandShake.{packet_size}
use omega_streamer.Rtmp.Connection.{ConnectionEvent, reads, write_completes}
use omega_streamer.Rtmp.Connection.Steps.{Piece, arrived, arrivals}
use omega_streamer.Rtmp.Connection.Commands.{Command, IsCommand}

-- The two packets of a client's handshake in the pieces that arrive, the last of each apart, with the
-- random bytes and the clock at these.
pub record HandShakes : Type 0 where
  pub first : List Piece
  pub last_first : Piece
  pub second : List Piece
  pub last_second : Piece

abbrev pub piece_bytes : Piece → List ℕ
piece_bytes (random, now, bytes) = bytes

abbrev pub reads_piece : Piece → ConnectionEvent
reads_piece (random, now, bytes) = reads random now bytes

-- The writes of the server are complete before the second packet comes.
abbrev pub hand_shake_events : HandShakes → List ConnectionEvent
hand_shake_events k = arrivals k.first (
    reads_piece k.last_first
    ∷ write_completes
    ∷ write_completes
    ∷ arrivals k.second (reads_piece k.last_second ∷ []))

-- A first packet of the right size and version, and a second of the right size.
pub record IsHandShake (k : HandShakes) : Type 0 where
  pub partial_first : length (arrived k.first) ≤ packet_size
  pub size_first : length (arrived k.first ++ piece_bytes k.last_first) ≡ packet_size + 1
  pub version : at (arrived k.first ++ piece_bytes k.last_first) 0 ≡ 3
  pub partial_second : length (arrived k.second) < packet_size
  pub size_second : length (arrived k.second ++ piece_bytes k.last_second) ≡ packet_size

-- A publisher's commands and what they carry: the transaction ids, the argument of connect, the value
-- that publish passes over, the name of the stream, and what may follow in each.
pub record Publisher : Type 0 where
  pub connect : Command
  pub connect_id : ℕ
  pub argument : Item
  pub connect_args : List Item
  pub create_stream : Command
  pub create_stream_id : ℕ
  pub create_stream_args : List Item
  pub publish : Command
  pub publish_id : ℕ
  pub skipped : Item
  pub stream : List ℕ
  pub publish_args : List Item

abbrev pub connect_items : Publisher → List Item
connect_items p =
    scalar (text text_connect) ∷ scalar (double p.connect_id) ∷ p.argument ∷ p.connect_args

abbrev pub create_stream_items : Publisher → List Item
create_stream_items p =
    scalar (text text_create_stream) ∷ scalar (double p.create_stream_id) ∷ p.create_stream_args

abbrev pub publish_items : Publisher → List Item
publish_items p =
    scalar (text text_publish)
    ∷ scalar (double p.publish_id)
    ∷ p.skipped
    ∷ scalar (text p.stream)
    ∷ p.publish_args

abbrev pub publisher_commands : Publisher → List Command
publisher_commands p = p.connect ∷ p.create_stream ∷ p.publish ∷ []

pub record IsPublisher (p : Publisher) : Type 0 where
  pub connects : IsCommand (connect_items p) p.connect
  pub creates_stream : IsCommand (create_stream_items p) p.create_stream
  pub publishes : IsCommand (publish_items p) p.publish
  pub connect_number : p.connect_id < 2 ^ 64
  pub create_stream_number : p.create_stream_id < 2 ^ 64
  pub publish_number : p.publish_id < 2 ^ 64
  pub argument_ok : IsItem p.argument
  pub skipped_ok : IsItem p.skipped
  pub stream_short : length p.stream < 65536

-- The context of a new connection after the handlers of the three commands.
abbrev pub published : Publisher → RtmpContext
published p =
    let begun = on_hand_shake_done rtmp_context in
    let connected =
      handle_connect (app_from_url (connect_arguments begun (item_value p.argument)))
        p.connect_id in
    handle_publish (handle_create_stream connected p.create_stream_id) p.stream
