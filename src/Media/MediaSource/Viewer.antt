-- ===== src/Media/MediaSource/Viewer.antt =====
-- What one consumer of a source gets to see.
use omega_streamer.Prelude.{
  ℕ, suc, ◌+◌, ◌≡◌, ◌∙◌, sym, refl, ap, true, false, Option, none, some, List, [], ◌∷◌, ◌++◌, arith,
  ◌==◌, if◌then◌else◌, Bool-cases, inl, inr, replicate, All,
}
use omega_streamer.Media.Packet.{Packet}
use omega_streamer.Media.MediaSource.{
  MediaSource, Sent, dispatch, send_if, send_all, send_gop_cache, erase, on_audio, on_video,
  add_consumer, remove_consumer, Event, got_meta_data, got_video_header, got_audio_header,
  got_audio, got_video, joins, leaves, step, steps, set_meta_data, set_video_header,
  set_audio_header,
}

-- The packets that consumer `c` is sent.
unfoldable pub received : ℕ → Sent → List Packet
received c [] = []
received c ((k, pkt) ∷ rest) = if k == c then pkt ∷ received c rest else received c rest

unfoldable pub count : ℕ → List ℕ → ℕ
count c [] = 0
count c (k ∷ ks) = if k == c then suc (count c ks) else count c ks

abbrev pub optional : Option Packet → List Packet
optional none = []
optional (some pkt) = pkt ∷ []

-- What a consumer needs to begin in the middle of a stream.
abbrev pub opening : MediaSource → List Packet
opening s =
    optional s.meta_data ++ (optional s.video_header ++ (optional s.audio_header ++ s.gop_cache))

-- The media packets among the events.
unfoldable pub media : List Event → List Packet
media [] = []
media (got_audio pkt ∷ es) = pkt ∷ media es
media (got_video pkt ∷ es) = pkt ∷ media es
media (e ∷ es) = media es

-- Consumer `c` neither joins nor leaves.
abbrev pub IsOther : ℕ → Event → Type 0
IsOther c (joins k) = (k == c) ≡ false
IsOther c (leaves k) = (k == c) ≡ false
IsOther c e = Unit

received-append : (c : ℕ) (a b : Sent) → received c (a ++ b) ≡ received c a ++ received c b
unfolding received
received-append c [] b = refl
received-append c ((k, pkt) ∷ a) b = elim (Bool-cases (k == c)) [
  | inl same ↦ rw same (ap (λ l. pkt ∷ l) (received-append c a b))
  | inr other ↦ rw other (received-append c a b)
]

received-dispatch :
    (c : ℕ) (ks : List ℕ) (pkt : Packet) → received c (dispatch ks pkt) ≡ replicate (count c ks) pkt
unfolding received dispatch count
received-dispatch c [] pkt = refl
received-dispatch c (k ∷ ks) pkt = elim (Bool-cases (k == c)) [
  | inl same ↦ rw same (ap (λ l. pkt ∷ l) (received-dispatch c ks pkt))
  | inr other ↦ rw other (received-dispatch c ks pkt)
]

count-append : (c : ℕ) (a b : List ℕ) → count c (a ++ b) ≡ count c a + count c b
unfolding count
count-append c [] b = omega arith
count-append c (k ∷ a) b = ground (arith, count-append c a b)

count-erase : (c k : ℕ) (ks : List ℕ) → (k == c) ≡ false → count c (erase ks k) ≡ count c ks
unfolding count erase
count-erase c k [] h = refl
count-erase c k (x ∷ ks) h = ground (arith, count-erase c k ks h)

received-send_all : (c : ℕ) (pkts : List Packet) → received c (send_all c pkts) ≡ pkts
unfolding received send_all
received-send_all c [] = refl
received-send_all c (pkt ∷ pkts) = rw (same c) (ap (λ l. pkt ∷ l) (received-send_all c pkts))
  where
    same : (k : ℕ) → (k == k) ≡ true
    same k = ground arith

received-send_if : (c : ℕ) (o : Option Packet) → received c (send_if c o) ≡ optional o
unfolding received send_if
received-send_if c none = refl
received-send_if c (some pkt) = ground arith

-- A consumer that joins is sent what it needs to begin.
received-send_gop_cache : (c : ℕ) (s : MediaSource) → received c (send_gop_cache s c) ≡ opening s
unfolding send_gop_cache
received-send_gop_cache c s =
    let a = send_if c s.audio_header ++ send_all c s.gop_cache in
    rw
      (
        received-append c (send_if c s.meta_data) (send_if c s.video_header ++ a),
        received-append c (send_if c s.video_header) a,
        received-append c (send_if c s.audio_header) (send_all c s.gop_cache),
        received-send_if c s.meta_data,
        received-send_if c s.video_header,
        received-send_if c s.audio_header,
        received-send_all c s.gop_cache,
      )
      refl

-- Another consumer's joining sends it nothing.
received-other_send_all :
    (c k : ℕ) (pkts : List Packet) → (k == c) ≡ false → received c (send_all k pkts) ≡ []
unfolding received send_all
received-other_send_all c k [] o = refl
received-other_send_all c k (pkt ∷ pkts) o = rw o (received-other_send_all c k pkts o)

received-other_send_if :
    (c k : ℕ) (p : Option Packet) → (k == c) ≡ false → received c (send_if k p) ≡ []
unfolding received send_if
received-other_send_if c k none o = refl
received-other_send_if c k (some pkt) o = rw o refl

received-other_send_gop_cache :
    (c k : ℕ) (s : MediaSource) → (k == c) ≡ false → received c (send_gop_cache s k) ≡ []
unfolding send_gop_cache
received-other_send_gop_cache c k s o =
    let a = send_if k s.audio_header ++ send_all k s.gop_cache in
    rw
      (
        received-append c (send_if k s.meta_data) (send_if k s.video_header ++ a),
        received-append c (send_if k s.video_header) a,
        received-append c (send_if k s.audio_header) (send_all k s.gop_cache),
        received-other_send_if c k s.meta_data o,
        received-other_send_if c k s.video_header o,
        received-other_send_if c k s.audio_header o,
      )
      (received-other_send_all c k s.gop_cache o)

count-one : (c k : ℕ) → (k == c) ≡ false → count c (k ∷ []) ≡ 0
unfolding count
count-one c k o = rw o refl

count_self : (c : ℕ) → count c (c ∷ []) ≡ 1
unfolding count
count_self c = ground arith

-- What one more event sends to a consumer that is in the list once.
step-received :
    (c : ℕ) (e : Event) (s : MediaSource)
    → IsOther c e
    → count c s.consumers ≡ 1
    → (received c (step e s).1 ≡ media (e ∷ [])) × (count c (step e s).0.consumers ≡ 1)
unfolding step on_audio on_video add_consumer remove_consumer set_meta_data set_video_header
    set_audio_header media received
step-received c (got_meta_data pkt) s o h = (refl, h)
step-received c (got_video_header pkt) s o h = (refl, h)
step-received c (got_audio_header pkt) s o h = (refl, h)
step-received c (got_audio pkt) s o h =
    (received-dispatch c s.consumers pkt ∙ ap (λ n. replicate n pkt) h, h)
step-received c (got_video pkt) s o h =
    (received-dispatch c s.consumers pkt ∙ ap (λ n. replicate n pkt) h, h)
step-received c (joins k) s o h = (
  received-other_send_gop_cache c k s o,
  omega (arith, count-append c s.consumers (k ∷ []), count-one c k o),
)
step-received c (leaves k) s o h = (refl, count-erase c k s.consumers o ∙ h)

media-append : (es fs : List Event) → media (es ++ fs) ≡ media es ++ media fs
unfolding media
media-append [] fs = refl
media-append (got_meta_data pkt ∷ es) fs = media-append es fs
media-append (got_video_header pkt ∷ es) fs = media-append es fs
media-append (got_audio_header pkt ∷ es) fs = media-append es fs
media-append (got_audio pkt ∷ es) fs = ap (λ l. pkt ∷ l) (media-append es fs)
media-append (got_video pkt ∷ es) fs = ap (λ l. pkt ∷ l) (media-append es fs)
media-append (joins k ∷ es) fs = media-append es fs
media-append (leaves k ∷ es) fs = media-append es fs

steps-received :
    (c : ℕ) (es : List Event) (s : MediaSource)
    → All (IsOther c) es
    → count c s.consumers ≡ 1
    → received c (steps es s).1 ≡ media es
unfolding steps received media
steps-received c [] s o h = refl
steps-received c (e ∷ es) s (o, os) h =
    let (now, h') = step-received c e s o h in
    rw
      (
        received-append c (step e s).1 (steps es (step e s).0).1,
        now,
        steps-received c es (step e s).0 os h',
      )
      (sym (media-append (e ∷ []) es))

-- A consumer that joins, not being one yet, and then neither joins again nor leaves, is sent in this
-- order: the metadata, the video header and the audio header that there are, the cached packets,
-- and then each audio and video packet that comes, once; nothing else, whatever the others do.
pub steps-joins :
    (c : ℕ) (es : List Event) (s : MediaSource)
    → All (IsOther c) es
    → count c s.consumers ≡ 0
    → received c (steps (joins c ∷ es) s).1 ≡ opening s ++ media es
unfolding steps step add_consumer
steps-joins c es s o h =
    let s' = (add_consumer s c).0 in
    let once : count c s'.consumers ≡ 1 =
      omega (arith, count-append c s.consumers (c ∷ []), count_self c) in
    received-append c (send_gop_cache s c) (steps es s').1
    ∙ rw (received-send_gop_cache c s, steps-received c es s' o once) refl
