-- ===== src/Rtmp/Context/Messages/Replies.antt =====
-- What a client decodes from the commands that the context sends.
use omega_streamer.Prelude.{ℕ, List}
use omega_streamer.Rtmp.Amf0.{number, string, Amf0Object, property, no_properties}
use omega_streamer.Rtmp.Text.{
  text_fms_ver, text_fms_version, text_capabilities, text_level, text_status, text_code,
  text_connect_success, text_description, text_connection_succeeded, text_object_encoding,
}

-- The two objects of the reply to connect: 31 as a double, and 0.
abbrev pub server_properties : Amf0Object
server_properties =
    property text_fms_ver (string text_fms_version)
      (property text_capabilities (number 0x403F000000000000) no_properties)

abbrev pub connected_properties : Amf0Object
connected_properties = property text_level (string text_status) (
    property text_code (string text_connect_success) (
      property text_description (string text_connection_succeeded)
        (property text_object_encoding (number 0) no_properties)))

-- The properties of an onStatus command.
abbrev pub status_properties : List ℕ → List ℕ → List ℕ → Amf0Object
status_properties level code description = property text_level (string level) (
    property text_code (string code) (property text_description (string description) no_properties))
