-- ===== src/Media/MediaSource/Gop.antt =====
-- The cache of a source holds the packets since the last key frame, up to its limit.
use omega_streamer.Prelude.{
  ℕ, ◌≡◌, ◌∙◌, refl, ap, Bool, true, false, List, [], ◌∷◌, ◌++◌, length, take, arith, ltb, ltb→lt,
  ltb→le, if◌then◌else◌, Bool-cases, inl, inr, length-append, length-take, le→ltb, take-all,
  take-append_le,
}
use omega_streamer.Media.Packet.{Packet}
use omega_streamer.Media.MediaSource.{
  MediaSource, max_gop_cache_size, cache_packet, on_audio, on_video, Event, got_meta_data,
  got_video_header, got_audio_header, got_audio, got_video, joins, leaves, step, steps,
  add_consumer, remove_consumer, set_meta_data, set_video_header, set_audio_header,
}

-- The media packets since the last key frame, after one more event.
unfoldable pub since_keyframe : List Packet → Event → List Packet
since_keyframe l (got_audio pkt) = l ++ (pkt ∷ [])
since_keyframe l (got_video pkt) = if pkt.is_keyframe then pkt ∷ [] else l ++ (pkt ∷ [])
since_keyframe l e = l

unfoldable pub all_since_keyframe : List Packet → List Event → List Packet
all_since_keyframe l [] = l
all_since_keyframe l (e ∷ es) = all_since_keyframe (since_keyframe l e) es

-- The cache takes a packet as long as it holds fewer than `n`.
limited-take :
    (n : ℕ) (l : List Packet) (pkt : Packet)
    → (if ltb (length (take n l)) n then take n l ++ (pkt ∷ []) else take n l)
      ≡ take n (l ++ (pkt ∷ []))
limited-take n l pkt = elim (Bool-cases (ltb (length l) n)) [
  | inl lt ↦
      let h = ltb→lt (length l) n lt in
      let all = take-all n (l ++ (pkt ∷ [])) (omega (arith, length-append l (pkt ∷ []))) in
      rw (take-all n l (omega arith), lt, all) refl
  | inr ge ↦
      let h = ltb→le (length l) n ge in
      let full : ltb (length (take n l)) n ≡ false = le→ltb _ _ (omega (arith, length-take n l)) in
      rw (full, take-append_le n l (pkt ∷ []) h) refl
]

cache_packet-take :
    (l : List Packet) (pkt : Packet)
    → cache_packet (take max_gop_cache_size l) pkt ≡ take max_gop_cache_size (l ++ (pkt ∷ []))
unfolding cache_packet
cache_packet-take l pkt = limited-take max_gop_cache_size l pkt

-- A key frame empties the cache first.
cache_packet-cleared :
    (key : Bool) (cache l : List Packet) (pkt : Packet)
    → cache ≡ take max_gop_cache_size l
    → cache_packet (if key then [] else cache) pkt
      ≡ take max_gop_cache_size (if key then pkt ∷ [] else l ++ (pkt ∷ []))
cache_packet-cleared true cache l pkt h = cache_packet-take [] pkt
cache_packet-cleared false cache l pkt h = ap (λ c. cache_packet c pkt) h ∙ cache_packet-take l pkt

step-gop_cache :
    (e : Event) (s : MediaSource) (l : List Packet)
    → s.gop_cache ≡ take max_gop_cache_size l
    → (step e s).0.gop_cache ≡ take max_gop_cache_size (since_keyframe l e)
unfolding step on_audio on_video add_consumer remove_consumer set_meta_data set_video_header
    set_audio_header since_keyframe
step-gop_cache (got_meta_data pkt) s l h = h
step-gop_cache (got_video_header pkt) s l h = h
step-gop_cache (got_audio_header pkt) s l h = h
step-gop_cache (got_audio pkt) s l h = ap (λ c. cache_packet c pkt) h ∙ cache_packet-take l pkt
step-gop_cache (got_video pkt) s l h = cache_packet-cleared pkt.is_keyframe s.gop_cache l pkt h
step-gop_cache (joins c) s l h = h
step-gop_cache (leaves c) s l h = h

-- After any calls on a source whose cache holds the first 2048 of the packets `l`, the cache holds
-- the first 2048 media packets since the last key frame: those of `l` and all that have come, or,
-- once a key frame has come, the last one and all behind it.
pub steps-gop_cache :
    (es : List Event) (s : MediaSource) (l : List Packet)
    → s.gop_cache ≡ take max_gop_cache_size l
    → (steps es s).0.gop_cache ≡ take max_gop_cache_size (all_since_keyframe l es)
unfolding steps all_since_keyframe
steps-gop_cache [] s l h = h
steps-gop_cache (e ∷ es) s l h =
    steps-gop_cache es (step e s).0 (since_keyframe l e) (step-gop_cache e s l h)
