-- ===== src/Tests/Headers.antt =====
-- Chunk headers on small byte strings, and the theorems about them.
use omega_streamer.Prelude.{
  ℕ, ◌+◌, ◌≡◌, refl, some, List, [], ◌∷◌, ◌++◌, arith, true, get_or-append_left,
}
use omega_streamer.Prelude.Int.{int_less}
use omega_streamer.Bytes.{◌⊕◌, at, read_uint24_be}
use omega_streamer.Rtmp.Header.{RtmpMsgHeader, RtmpMessage, no_header}
use omega_streamer.Rtmp.Chunk.{
  RtmpChunkParse, rtmp_chunk_parse, update, message_on, BasicHeader, ChunkHeader,
  parse_basic_header, parse_chunk_header, read_chunk, length_error, message_fields, needs_ext_ts,
  with_ext_ts,
}
use omega_streamer.Rtmp.Chunk.Bounds.{IsValid, rtmp_chunk_parse-IsValid}
use omega_streamer.Rtmp.Chunk.Sound.{Sound, read_chunk-Sound, IsValid-update}
use omega_streamer.Rtmp.Chunk.Extend.{Agree}
use omega_streamer.Rtmp.Chunk.Agree.{read_chunk-Agree}
use omega_streamer.Rtmp.Chunk.Resume.{Resumes, read_chunk-Resumes}
use omega_streamer.Rtmp.Chunk.ExtTs.{ext_ts_len, total_header_len-eq}
use omega_streamer.Rtmp.Chunk.Shrink.{shrinking_header_throws}
use omega_streamer.Rtmp.ChunkParse.Stream.{at-IsBytes, at-Extends}

-- A fmt 1 header on csid 3 that announces two bytes.
abbrev shrink : List ℕ
shrink = 0x43 ∷ 0 ∷ 0 ∷ 0 ∷ 0 ∷ 0 ∷ 2 ∷ 20 ∷ []

-- Four of ten bytes have arrived on csid 3.
abbrev partial : RtmpMessage
partial = record {
  header = record no_header { csid = 3; msg_len = 10; msg_type = 20 };
  payload = 1 ∷ 2 ∷ 3 ∷ 4 ∷ [];
}

abbrev under_way : RtmpChunkParse
under_way = record rtmp_chunk_parse {
  in_progress = update rtmp_chunk_parse.in_progress 3 (some partial);
}

under_way-IsValid : IsValid under_way
under_way-IsValid = IsValid-update 3 partial rtmp_chunk_parse-IsValid (omega arith)

abbrev shrink_basic : BasicHeader
shrink_basic = record { fmt = 1; csid = 3; header_len = 1 }

abbrev shrink_header : ChunkHeader
shrink_header = record {
  header = record no_header { csid = 3; fmt = 1; msg_len = 2; msg_type = 20 };
  total_header_len = 8;
}

shrink_basic_parsed : parse_basic_header (at shrink) 8 ≡ some shrink_basic
unfolding parse_basic_header
shrink_basic_parsed = refl

shrink_header_parsed :
    parse_chunk_header shrink_basic (under_way.prev_headers 3) (at shrink) 8 ≡ some shrink_header
unfolding parse_chunk_header message_fields needs_ext_ts with_ext_ts int_less rtmp_chunk_parse
shrink_header_parsed = refl

shrinking_header_throws_example : read_chunk under_way (at shrink) 8 ≡ length_error
unfolding update message_on
shrinking_header_throws_example =
    shrinking_header_throws under_way (at shrink) 8 shrink_basic shrink_header (omega arith)
      (at-IsBytes shrink (omega arith)) under_way-IsValid shrink_basic_parsed shrink_header_parsed
      refl (omega arith) (omega arith)

read_chunk-Sound_example : Sound 8 (read_chunk under_way (at shrink) 8)
read_chunk-Sound_example =
    read_chunk-Sound under_way (at shrink) (omega arith) (at-IsBytes shrink (omega arith))
      under_way-IsValid

-- The same eight bytes with others behind them.
abbrev stale : List ℕ
stale = shrink ++ (77 ∷ 78 ∷ [])

stale_agrees : Agree 8 (at stale) (at shrink)
stale_agrees i lt = get_or-append_left shrink (77 ∷ 78 ∷ []) i 0 lt

read_chunk-Agree_example : read_chunk under_way (at stale) 8 ≡ read_chunk under_way (at shrink) 8
read_chunk-Agree_example = read_chunk-Agree (omega arith) stale_agrees under_way

-- The first bytes of the chunk, then all of it.
read_chunk-Resumes_example :
    Resumes under_way (at (shrink ++ (77 ∷ []))) 9 (read_chunk under_way (at shrink) 8)
read_chunk-Resumes_example =
    read_chunk-Resumes under_way (at-Extends shrink (77 ∷ []) (omega arith))
      (at-IsBytes shrink (omega arith)) under_way-IsValid

-- fmt 1 with a delta of 0xFFFFFF: no extended timestamp is read.
abbrev long_delta : List ℕ
long_delta = 0x43 ∷ 255 ∷ 255 ∷ 255 ∷ 0 ∷ 0 ∷ 2 ∷ 20 ∷ 1 ∷ 0 ∷ 0 ∷ 0 ∷ []

abbrev long_delta_header : ChunkHeader
long_delta_header = record {
  header = record no_header { csid = 3; fmt = 1; msg_len = 2; msg_type = 20; timestamp = 0xFFFFFF };
  total_header_len = 8;
}

long_delta_parsed :
    parse_chunk_header shrink_basic no_header (at long_delta) 12 ≡ some long_delta_header
unfolding parse_chunk_header message_fields needs_ext_ts with_ext_ts int_less
long_delta_parsed = refl

total_header_len-eq_example :
    8 ≡ 1 + 7 + ext_ts_len 1 no_header (read_uint24_be (at long_delta ⊕ 1))
total_header_len-eq_example =
    total_header_len-eq shrink_basic no_header (at long_delta) {n = 12} (omega arith)
      long_delta_parsed (omega arith) (at-IsBytes long_delta (omega arith))

-- A fmt 0 header with timestamp 5 after an extended one.
abbrev full : List ℕ
full = 3 ∷ 0 ∷ 0 ∷ 5 ∷ 0 ∷ 0 ∷ 2 ∷ 20 ∷ 1 ∷ 0 ∷ 0 ∷ 0 ∷ []

abbrev extended : RtmpMsgHeader
extended = record no_header { has_ext_ts = true }

abbrev full_header : ChunkHeader
full_header = record {
  header = record {
    csid = 3;
    timestamp = 5;
    msg_len = 2;
    msg_type = 20;
    msg_stream_id = 1;
    fmt = 0;
    has_ext_ts = true;
  };
  total_header_len = 12;
}

full_parsed :
    parse_chunk_header (record { fmt = 0; csid = 3; header_len = 1 }) extended (at full) 12
    ≡ some full_header
unfolding parse_chunk_header message_fields needs_ext_ts with_ext_ts int_less
full_parsed = refl
