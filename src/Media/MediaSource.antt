-- ===== src/Media/MediaSource.antt =====
-- media/base/MediaSource.h and MediaSource.cpp: the source of one stream.
--
-- A consumer is known by its pointer, here a number; what the source does to consumers is the list
-- of its calls of OnPacket, `Sent`, in order. A call is one step: the mutex orders the calls, and
-- a consumer does not call back into the source.
pub mod Gop
pub mod Viewer
use omega_streamer.Prelude.{
  ℕ, ◌+◌, ◌%◌, ◌^◌, Option, none, some, List, [], ◌∷◌, ◌++◌, ltb, ◌==◌, if◌then◌else◌, length,
}
use omega_streamer.Media.Packet.{Packet}

abbrev pub max_gop_cache_size : ℕ
max_gop_cache_size = 2048

pub record MediaSource : Type 0 where
  pub app : List ℕ
  pub stream : List ℕ
  pub meta_data : Option Packet
  pub video_header : Option Packet
  pub audio_header : Option Packet
  pub gop_cache : List Packet
  pub consumers : List ℕ
  pub total_video : ℕ
  pub total_audio : ℕ

-- The calls of OnPacket: the consumer and the packet.
abbrev pub Sent : Type 0
Sent = List (ℕ × Packet)

unfoldable pub media_source : List ℕ → List ℕ → MediaSource
media_source app stream = record {
  app = app;
  stream = stream;
  meta_data = none;
  video_header = none;
  audio_header = none;
  gop_cache = [];
  consumers = [];
  total_video = 0;
  total_audio = 0;
}

unfoldable pub set_meta_data : MediaSource → Packet → MediaSource
set_meta_data s pkt = record s { meta_data = some pkt }

unfoldable pub set_video_header : MediaSource → Packet → MediaSource
set_video_header s pkt = record s { video_header = some pkt }

unfoldable pub set_audio_header : MediaSource → Packet → MediaSource
set_audio_header s pkt = record s { audio_header = some pkt }

-- The loop of dispatch over the consumers.
unfoldable pub dispatch : List ℕ → Packet → Sent
dispatch [] pkt = []
dispatch (c ∷ cs) pkt = (c, pkt) ∷ dispatch cs pkt

-- emplace_back, where the cache is not full.
unfoldable pub cache_packet : List Packet → Packet → List Packet
cache_packet cache pkt =
    if ltb (length cache) max_gop_cache_size then cache ++ (pkt ∷ []) else cache

unfoldable pub on_audio : MediaSource → Packet → MediaSource × Sent
on_audio s pkt = (
  record s { total_audio = (s.total_audio + 1) % 2 ^ 32; gop_cache = cache_packet s.gop_cache pkt },
  dispatch s.consumers pkt,
)

unfoldable pub on_video : MediaSource → Packet → MediaSource × Sent
on_video s pkt = (
  record s {
    total_video = (s.total_video + 1) % 2 ^ 32;
    gop_cache = cache_packet (if pkt.is_keyframe then [] else s.gop_cache) pkt;
  },
  dispatch s.consumers pkt,
)

-- `if (p) consumer->OnPacket(p)`
unfoldable pub send_if : ℕ → Option Packet → Sent
send_if c none = []
send_if c (some pkt) = (c, pkt) ∷ []

-- The loop over the cache.
unfoldable pub send_all : ℕ → List Packet → Sent
send_all c [] = []
send_all c (pkt ∷ pkts) = (c, pkt) ∷ send_all c pkts

unfoldable pub send_gop_cache : MediaSource → ℕ → Sent
unfolding send_if send_all
send_gop_cache s c =
    send_if c s.meta_data
    ++ (send_if c s.video_header ++ (send_if c s.audio_header ++ send_all c s.gop_cache))

unfoldable pub add_consumer : MediaSource → ℕ → MediaSource × Sent
add_consumer s c = (record s { consumers = s.consumers ++ (c ∷ []) }, send_gop_cache s c)

-- std::find and erase: the first that is equal goes.
unfoldable pub erase : List ℕ → ℕ → List ℕ
erase [] c = []
erase (x ∷ xs) c = let rest = erase xs c in if x == c then xs else x ∷ rest

unfoldable pub remove_consumer : MediaSource → ℕ → MediaSource
remove_consumer s c = record s { consumers = erase s.consumers c }

unfoldable pub consumer_count : MediaSource → ℕ
consumer_count s = length s.consumers

-- A call of a source.
pub data Event : Type 0 where
  got_meta_data got_video_header got_audio_header got_audio got_video : Packet → Event
  joins leaves : ℕ → Event

unfoldable pub step : Event → MediaSource → MediaSource × Sent
unfolding set_meta_data set_video_header set_audio_header on_audio on_video add_consumer
    remove_consumer
step (got_meta_data pkt) s = (set_meta_data s pkt, [])
step (got_video_header pkt) s = (set_video_header s pkt, [])
step (got_audio_header pkt) s = (set_audio_header s pkt, [])
step (got_audio pkt) s = on_audio s pkt
step (got_video pkt) s = on_video s pkt
step (joins c) s = add_consumer s c
step (leaves c) s = (remove_consumer s c, [])

-- A sequence of calls, and all that it sends.
unfoldable pub steps : List Event → MediaSource → MediaSource × Sent
steps [] s = (s, [])
steps (e ∷ es) s = let (s', sent) = step e s in let (s'', more) = steps es s' in (s'', sent ++ more)
