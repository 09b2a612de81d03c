-- ===== src/Tests/Sources.antt =====
-- A media source with viewers that come and go.
use omega_streamer.Prelude.{◌≡◌, refl, some, none, List, [], ◌∷◌, ◌++◌, true, take}
use omega_streamer.Media.MediaSourceMgr.{MediaSourceMgr, make_key}
use omega_streamer.Media.Packet.{Packet, no_packet, video, audio}
use omega_streamer.Media.MediaSource.{
  MediaSource, max_gop_cache_size, Event, got_audio, got_video, joins, leaves, steps,
}
use omega_streamer.Media.MediaSource.Gop.{all_since_keyframe, since_keyframe, steps-gop_cache}
use omega_streamer.Media.MediaSource.Viewer.{received, count, opening, media, steps-joins}

abbrev key_frame : Packet
key_frame = record no_packet { track = video; is_keyframe = true }

abbrev sound : Packet
sound = record no_packet { track = audio }

-- A source with one cached packet and another viewer.
abbrev running : MediaSource
running = record {
  app = [];
  stream = [];
  meta_data = some no_packet;
  video_header = none;
  audio_header = none;
  gop_cache = sound ∷ [];
  consumers = 4 ∷ [];
  total_video = 0;
  total_audio = 1;
}

abbrev calls : List Event
calls = got_video key_frame ∷ leaves 4 ∷ joins 5 ∷ got_audio sound ∷ []

steps-gop_cache_example :
    (steps calls running).0.gop_cache
    ≡ take max_gop_cache_size (all_since_keyframe (sound ∷ []) calls)
steps-gop_cache_example = steps-gop_cache calls running (sound ∷ []) refl

-- The key frame has emptied the cache.
cache_after_key_frame : all_since_keyframe (sound ∷ []) calls ≡ key_frame ∷ sound ∷ []
unfolding all_since_keyframe since_keyframe
cache_after_key_frame = refl

not_yet : count 3 running.consumers ≡ 0
unfolding count
not_yet = refl

steps-joins_example :
    received 3 (steps (joins 3 ∷ calls) running).1 ≡ opening running ++ media calls
steps-joins_example = steps-joins 3 calls running (tt, (refl, (refl, (tt, tt)))) not_yet

-- A registry with the source 0 under "a/b".
abbrev registry : MediaSourceMgr
registry = record { sources = (97 ∷ 47 ∷ 98 ∷ [], 0) ∷ []; created = 1 }

-- Two streams, "b/c" of the app "a" and "c" of the app "a/b", have one key.
one_key : make_key (97 ∷ []) (98 ∷ 47 ∷ 99 ∷ []) ≡ make_key (97 ∷ 47 ∷ 98 ∷ []) (99 ∷ [])
unfolding make_key
one_key = refl
