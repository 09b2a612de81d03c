-- ===== src/Rtmp/HandShakeKeys.antt =====
-- media/rtmp/RtmpHandShake.cpp: the keys of the two sides.
use omega_streamer.Prelude.{ℕ, List, [], ◌∷◌}

abbrev pub player_key_open_part_len : ℕ
player_key_open_part_len = 30

abbrev pub server_key_open_part_len : ℕ
server_key_open_part_len = 36

unfoldable pub rtmp_player_key : List ℕ
rtmp_player_key =
    71 ∷ 101 ∷ 110 ∷ 117 ∷ 105 ∷ 110 ∷ 101 ∷ 32 ∷ 65 ∷ 100 ∷ 111 ∷ 98 ∷ 101 ∷ 32 ∷ 70 ∷ 108 ∷ 97
    ∷ 115 ∷ 104 ∷ 32 ∷ 80 ∷ 108 ∷ 97 ∷ 121 ∷ 101 ∷ 114 ∷ 32 ∷ 48 ∷ 48 ∷ 49 ∷ 240 ∷ 238 ∷ 194 ∷ 74
    ∷ 128 ∷ 104 ∷ 190 ∷ 232 ∷ 46 ∷ 0 ∷ 208 ∷ 209 ∷ 2 ∷ 158 ∷ 126 ∷ 87 ∷ 110 ∷ 236 ∷ 93 ∷ 45 ∷ 41
    ∷ 128 ∷ 111 ∷ 171 ∷ 147 ∷ 184 ∷ 230 ∷ 54 ∷ 207 ∷ 235 ∷ 49 ∷ 174 ∷ []

unfoldable pub rtmp_server_key : List ℕ
rtmp_server_key =
    71 ∷ 101 ∷ 110 ∷ 117 ∷ 105 ∷ 110 ∷ 101 ∷ 32 ∷ 65 ∷ 100 ∷ 111 ∷ 98 ∷ 101 ∷ 32 ∷ 70 ∷ 108 ∷ 97
    ∷ 115 ∷ 104 ∷ 32 ∷ 77 ∷ 101 ∷ 100 ∷ 105 ∷ 97 ∷ 32 ∷ 83 ∷ 101 ∷ 114 ∷ 118 ∷ 101 ∷ 114 ∷ 32 ∷ 48
    ∷ 48 ∷ 49 ∷ 240 ∷ 238 ∷ 194 ∷ 74 ∷ 128 ∷ 104 ∷ 190 ∷ 232 ∷ 46 ∷ 0 ∷ 208 ∷ 209 ∷ 2 ∷ 158 ∷ 126
    ∷ 87 ∷ 110 ∷ 236 ∷ 93 ∷ 45 ∷ 41 ∷ 128 ∷ 111 ∷ 171 ∷ 147 ∷ 184 ∷ 230 ∷ 54 ∷ 207 ∷ 235 ∷ 49 ∷ 174
    ∷ []
