-- ===== src/Rtmp/Text.antt =====
-- The string literals of media/rtmp/RtmpContext.cpp, as bytes.
use omega_streamer.Prelude.{ℕ, List, [], ◌∷◌}

-- "_result"
abbrev pub text_result : List ℕ
text_result = 95 ∷ 114 ∷ 101 ∷ 115 ∷ 117 ∷ 108 ∷ 116 ∷ []

-- "fmsVer"
abbrev pub text_fms_ver : List ℕ
text_fms_ver = 102 ∷ 109 ∷ 115 ∷ 86 ∷ 101 ∷ 114 ∷ []

-- "FMS/3,0,1,123"
abbrev pub text_fms_version : List ℕ
text_fms_version = 70 ∷ 77 ∷ 83 ∷ 47 ∷ 51 ∷ 44 ∷ 48 ∷ 44 ∷ 49 ∷ 44 ∷ 49 ∷ 50 ∷ 51 ∷ []

-- "capabilities"
abbrev pub text_capabilities : List ℕ
text_capabilities = 99 ∷ 97 ∷ 112 ∷ 97 ∷ 98 ∷ 105 ∷ 108 ∷ 105 ∷ 116 ∷ 105 ∷ 101 ∷ 115 ∷ []

-- "level"
abbrev pub text_level : List ℕ
text_level = 108 ∷ 101 ∷ 118 ∷ 101 ∷ 108 ∷ []

-- "status"
abbrev pub text_status : List ℕ
text_status = 115 ∷ 116 ∷ 97 ∷ 116 ∷ 117 ∷ 115 ∷ []

-- "code"
abbrev pub text_code : List ℕ
text_code = 99 ∷ 111 ∷ 100 ∷ 101 ∷ []

-- "NetConnection.Connect.Success"
abbrev pub text_connect_success : List ℕ
text_connect_success =
    78 ∷ 101 ∷ 116 ∷ 67 ∷ 111 ∷ 110 ∷ 110 ∷ 101 ∷ 99 ∷ 116 ∷ 105 ∷ 111 ∷ 110 ∷ 46 ∷ 67 ∷ 111 ∷ 110
    ∷ 110 ∷ 101 ∷ 99 ∷ 116 ∷ 46 ∷ 83 ∷ 117 ∷ 99 ∷ 99 ∷ 101 ∷ 115 ∷ 115 ∷ []

-- "description"
abbrev pub text_description : List ℕ
text_description = 100 ∷ 101 ∷ 115 ∷ 99 ∷ 114 ∷ 105 ∷ 112 ∷ 116 ∷ 105 ∷ 111 ∷ 110 ∷ []

-- "Connection successded"
abbrev pub text_connection_succeeded : List ℕ
text_connection_succeeded =
    67 ∷ 111 ∷ 110 ∷ 110 ∷ 101 ∷ 99 ∷ 116 ∷ 105 ∷ 111 ∷ 110 ∷ 32 ∷ 115 ∷ 117 ∷ 99 ∷ 99 ∷ 101 ∷ 115
    ∷ 115 ∷ 100 ∷ 101 ∷ 100 ∷ []

-- "objectEncoding"
abbrev pub text_object_encoding : List ℕ
text_object_encoding =
    111 ∷ 98 ∷ 106 ∷ 101 ∷ 99 ∷ 116 ∷ 69 ∷ 110 ∷ 99 ∷ 111 ∷ 100 ∷ 105 ∷ 110 ∷ 103 ∷ []

-- "onStatus"
abbrev pub text_on_status : List ℕ
text_on_status = 111 ∷ 110 ∷ 83 ∷ 116 ∷ 97 ∷ 116 ∷ 117 ∷ 115 ∷ []

-- "NetStream.Publish.Start"
abbrev pub text_publish_start : List ℕ
text_publish_start =
    78 ∷ 101 ∷ 116 ∷ 83 ∷ 116 ∷ 114 ∷ 101 ∷ 97 ∷ 109 ∷ 46 ∷ 80 ∷ 117 ∷ 98 ∷ 108 ∷ 105 ∷ 115 ∷ 104
    ∷ 46 ∷ 83 ∷ 116 ∷ 97 ∷ 114 ∷ 116 ∷ []

-- "Start publishing"
abbrev pub text_start_publishing : List ℕ
text_start_publishing =
    83 ∷ 116 ∷ 97 ∷ 114 ∷ 116 ∷ 32 ∷ 112 ∷ 117 ∷ 98 ∷ 108 ∷ 105 ∷ 115 ∷ 104 ∷ 105 ∷ 110 ∷ 103 ∷ []

-- "Netstream.Play.Start"
abbrev pub text_play_start : List ℕ
text_play_start =
    78 ∷ 101 ∷ 116 ∷ 115 ∷ 116 ∷ 114 ∷ 101 ∷ 97 ∷ 109 ∷ 46 ∷ 80 ∷ 108 ∷ 97 ∷ 121 ∷ 46 ∷ 83 ∷ 116
    ∷ 97 ∷ 114 ∷ 116 ∷ []

-- "Start playing"
abbrev pub text_start_playing : List ℕ
text_start_playing = 83 ∷ 116 ∷ 97 ∷ 114 ∷ 116 ∷ 32 ∷ 112 ∷ 108 ∷ 97 ∷ 121 ∷ 105 ∷ 110 ∷ 103 ∷ []

-- "connect"
abbrev pub text_connect : List ℕ
text_connect = 99 ∷ 111 ∷ 110 ∷ 110 ∷ 101 ∷ 99 ∷ 116 ∷ []

-- "createStream"
abbrev pub text_create_stream : List ℕ
text_create_stream = 99 ∷ 114 ∷ 101 ∷ 97 ∷ 116 ∷ 101 ∷ 83 ∷ 116 ∷ 114 ∷ 101 ∷ 97 ∷ 109 ∷ []

-- "publish"
abbrev pub text_publish : List ℕ
text_publish = 112 ∷ 117 ∷ 98 ∷ 108 ∷ 105 ∷ 115 ∷ 104 ∷ []

-- "play"
abbrev pub text_play : List ℕ
text_play = 112 ∷ 108 ∷ 97 ∷ 121 ∷ []

-- "app"
abbrev pub text_app : List ℕ
text_app = 97 ∷ 112 ∷ 112 ∷ []

-- "tcUrl"
abbrev pub text_tc_url : List ℕ
text_tc_url = 116 ∷ 99 ∷ 85 ∷ 114 ∷ 108 ∷ []

-- "live"
abbrev pub text_live : List ℕ
text_live = 108 ∷ 105 ∷ 118 ∷ 101 ∷ []

-- "@setDataFrame"
abbrev pub text_set_data_frame : List ℕ
text_set_data_frame = 64 ∷ 115 ∷ 101 ∷ 116 ∷ 68 ∷ 97 ∷ 116 ∷ 97 ∷ 70 ∷ 114 ∷ 97 ∷ 109 ∷ 101 ∷ []

-- "@onMetaData"
abbrev pub text_on_meta_data : List ℕ
text_on_meta_data = 64 ∷ 111 ∷ 110 ∷ 77 ∷ 101 ∷ 116 ∷ 97 ∷ 68 ∷ 97 ∷ 116 ∷ 97 ∷ []
