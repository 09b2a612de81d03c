-- ===== src/Tests/Publishers.antt =====
-- Clients that send messages and publish, and the theorems about them.
use omega_streamer.Prelude.{
  ℕ, true, Bool, false, ltb, if◌then◌else◌, List, [], ◌∷◌, drop, take, replicate,
}
use omega_streamer.Bytes.{write_uint8}
use omega_streamer.Rtmp.Header.{msg_type_audio}
use omega_streamer.Rtmp.Amf0.RoundTrip.{double, text}
use omega_streamer.Rtmp.Amf0.Sequence.{Item, scalar, encode_items, nothing, properties}
use omega_streamer.Rtmp.Amf0.Encoder.{write_uint8 as put_uint8}
use omega_streamer.Rtmp.Text.{
  text_tc_url, text_connect, text_create_stream, text_publish, text_live, text_app,
}
use omega_streamer.Rtmp.HandShake.{done}
use omega_streamer.Rtmp.Context.Messages.Delivered.{ClientMessage, wire}
use omega_streamer.Rtmp.Connection.{RtmpConnection}
use omega_streamer.Rtmp.Connection.Steps.{Piece}
use omega_streamer.Rtmp.Connection.Commands.{messages}
use omega_streamer.Rtmp.Connection.Publishes.{HandShakes, Publisher, publisher_commands}
use omega_streamer.Tests.HandShakes.{bytes}
use omega_streamer.Tests.Connections.{greeted, c0c1, c2}

-- A connection that is through its handshake.
abbrev ready : RtmpConnection
ready = record greeted {
  m_hand_shake = record greeted.m_hand_shake { state = done };
  calls_back = true;
}

all_bytes : List ℕ → Bool
all_bytes [] = true
all_bytes (x ∷ l) = if ltb x 256 then all_bytes l else false

-- An audio message of two bytes, twice.
abbrev sound : ClientMessage
sound = record {
  csid = 4;
  msg_type = msg_type_audio;
  msg_stream_id = 1;
  first = 175 ∷ 1 ∷ [];
  others = [];
}

-- The messages in two reads.
abbrev cut_sounds : List Piece
cut_sounds = (bytes, 0, 4 ∷ 0 ∷ 0 ∷ []) ∷ (bytes, 0, drop 3 (wire (sound ∷ sound ∷ []))) ∷ []

-- The packets of a client that does not sign them, each in one piece.
abbrev plain : HandShakes
plain = record {
  first = [];
  last_first = (bytes, 0, c0c1);
  second = [];
  last_second = (bytes, 1, c2);
}

-- The values of the commands of a client that publishes live, with a long argument of connect.
abbrev connect_values : List Item
connect_values =
    scalar (text text_connect)
    ∷ scalar (double 1)
    ∷ properties ((text_app, text text_live) ∷ (text_tc_url, text (replicate 100 97)) ∷ [])
    ∷ []

abbrev create_stream_values : List Item
create_stream_values = scalar (text text_create_stream) ∷ scalar (double 2) ∷ nothing ∷ []

abbrev publish_values : List Item
publish_values =
    scalar (text text_publish) ∷ scalar (double 3) ∷ nothing ∷ scalar (text text_live) ∷ []

-- connect takes two chunks.
abbrev live : Publisher
live = record {
  connect = record {
    csid = 3;
    msg_stream_id = 0;
    first = take 128 (encode_items [] connect_values);
    others = drop 128 (encode_items [] connect_values) ∷ [];
  };
  connect_id = 1;
  argument = properties ((text_app, text text_live) ∷ (text_tc_url, text (replicate 100 97)) ∷ []);
  connect_args = [];
  create_stream = record {
    csid = 3;
    msg_stream_id = 0;
    first = encode_items [] create_stream_values;
    others = [];
  };
  create_stream_id = 2;
  create_stream_args = nothing ∷ [];
  publish = record {
    csid = 3;
    msg_stream_id = 1;
    first = encode_items [] publish_values;
    others = [];
  };
  publish_id = 3;
  skipped = nothing;
  stream = text_live;
  publish_args = [];
}

abbrev commands_wire : List ℕ
commands_wire = wire (messages (publisher_commands live))
