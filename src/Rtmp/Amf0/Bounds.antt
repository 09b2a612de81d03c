-- ===== src/Rtmp/Amf0/Bounds.antt =====
-- AMF0Decoder always comes to an end, and its position stays within the data.
use omega_streamer.Prelude.{
  ℕ, zero, suc, ◌-◌, ◌≤◌, ◌<◌, min, Option, none, some, List, length, arith, Bool-cases, inl, inr,
  ◌==◌, ◌&&◌, ltb, leb, leb→le, leb-false→lt,
}
use omega_streamer.Bytes.{at}
use omega_streamer.Rtmp.Amf0.{
  Amf0Value, Amf0Object, amf0_number, amf0_boolean, amf0_string, amf0_object, amf0_ecma_array,
  amf0_object_end,
}
use omega_streamer.Rtmp.Amf0.Decoder.{
  read_uint8, read_uint16_be, read_uint32_be, read_double, read_string_data, read_object_key,
  decode_number, decode_boolean, decode_string, as_value, decode_marked, decode_with,
  and_properties, and_then_objects, after_key, decode_object, decode, is_empty,
}

-- A position from `low` to the end of the data.
abbrev pub Within : List ℕ → ℕ → ℕ → Type 0
Within m low pos = (low ≤ pos) × (pos ≤ length m)

-- A read that has fuel enough and ends at a position from `low` to the end of the data.
abbrev pub Lands : {A : Type 0} → List ℕ → ℕ → Option (A × ℕ) → Type 0
Lands m low none = ⊥
Lands m low (some (v, pos)) = Within m low pos

module _ (m : List ℕ) where
  read_uint8-Within : (pos : ℕ) → pos < length m → Within m (suc pos) (read_uint8 m pos).1
  unfolding read_uint8
  read_uint8-Within pos h = ground arith

  read_uint8-Within_end : (pos : ℕ) → pos ≤ length m → Within m pos (read_uint8 m pos).1
  unfolding read_uint8
  read_uint8-Within_end pos h = ground arith

  read_uint16_be-Within : (pos : ℕ) → pos ≤ length m → Within m pos (read_uint16_be m pos).1
  unfolding read_uint16_be
  read_uint16_be-Within pos h = ground arith

  read_uint32_be-Within : (pos : ℕ) → pos ≤ length m → Within m pos (read_uint32_be m pos).1
  unfolding read_uint32_be
  read_uint32_be-Within pos h = ground arith

  decode_number-Within : (pos : ℕ) → pos ≤ length m → Within m pos (decode_number m pos).1
  unfolding read_double decode_number
  decode_number-Within pos h = ground arith

  decode_boolean-Within : (pos : ℕ) → pos ≤ length m → Within m pos (decode_boolean m pos).1
  unfolding decode_boolean
  decode_boolean-Within pos h = read_uint8-Within_end pos h

  read_string_data-Within :
      (len pos : ℕ) → pos ≤ length m → Within m pos (read_string_data m len pos).1
  unfolding read_string_data
  read_string_data-Within len pos h = ground arith

  read_object_key-Within : (pos : ℕ) → pos ≤ length m → Within m pos (read_object_key m pos).1
  unfolding read_object_key
  read_object_key-Within pos h =
      let (lo, hi) = read_uint16_be-Within pos h in
      let (lo', hi') = read_string_data-Within (read_uint16_be m pos).0 _ hi in (omega arith, hi')

  decode_string-Within : (pos : ℕ) → pos ≤ length m → Within m pos (decode_string m pos).1
  unfolding decode_string
  decode_string-Within pos h =
      let (lo, hi) = read_uint16_be-Within pos h in
      let (lo', hi') = read_string_data-Within (read_uint16_be m pos).0 _ hi in (omega arith, hi')

  Lands-lower : {A : Type 0} {a b : ℕ} (o : Option (A × ℕ)) → b ≤ a → Lands m a o → Lands m b o
  Lands-lower none le l = l
  Lands-lower (some (v, pos)) le l = (omega arith, l.1)

  as_value-Lands :
      (low : ℕ) (o : Option (Amf0Object × ℕ)) → Lands m low o → Lands m low (as_value m o)
  unfolding as_value
  as_value-Lands low none l = l
  as_value-Lands low (some (v, pos)) l = l

  -- DecodeObject lands from each position that is not before `low`.
  abbrev Objects : ℕ → (ℕ → Option (Amf0Object × ℕ)) → Type 0
  Objects low objects = (p : ℕ) → Within m low p → Lands m p (objects p)

  decode_marked-Lands :
      (objects : ℕ → Option (Amf0Object × ℕ)) (marker pos : ℕ)
      → Objects pos objects
      → pos ≤ length m
      → Lands m pos (decode_marked m objects marker pos)
  unfolding decode_marked
  decode_marked-Lands objects marker pos ih h = elim (Bool-cases (marker == amf0_number)) [
    | inl e ↦ rw e (decode_number-Within pos h)
    | inr e ↦ elim (Bool-cases (marker == amf0_boolean)) [
      | inl e1 ↦ rw (e, e1) (decode_boolean-Within pos h)
      | inr e1 ↦ elim (Bool-cases (marker == amf0_string)) [
        | inl e2 ↦ rw (e, e1, e2) (decode_string-Within pos h)
        | inr e2 ↦ elim (Bool-cases (marker == amf0_object)) [
          | inl e3 ↦ rw (e, e1, e2, e3) (as_value-Lands pos (objects pos) (ih pos (omega arith)))
          | inr e3 ↦ elim (Bool-cases (marker == amf0_ecma_array)) [
            | inl e4 ↦
                let (lo, hi) = read_uint32_be-Within pos h in
                let at_object = ih (read_uint32_be m pos).1 (lo, hi) in
                rw (e, e1, e2, e3, e4)
                  (as_value-Lands pos _
                    (Lands-lower (objects (read_uint32_be m pos).1) lo at_object))
            | inr e4 ↦ elim (Bool-cases (marker == 0x3F)) [
              | inl e5 ↦ rw (e, e1, e2, e3, e4, e5) (h, omega arith)
              | inr e5 ↦ rw (e, e1, e2, e3, e4, e5) (omega arith)
            ]
          ]
        ]
      ]
    ]
  ]

  -- Decode takes a byte at least, unless it stands at the end.
  decode_with-Lands :
      (objects : ℕ → Option (Amf0Object × ℕ)) (pos : ℕ)
      → Objects (suc pos) objects
      → pos ≤ length m
      → Lands m (min (suc pos) (length m)) (decode_with m objects pos)
  unfolding decode_with
  decode_with-Lands objects pos ih h = elim (Bool-cases (leb (length m) pos)) [
    | inl e ↦ rw e (omega (arith, leb→le (length m) pos e))
    | inr e ↦
        let (lo, hi) = read_uint8-Within pos (leb-false→lt (length m) pos e) in
        let r = read_uint8 m pos in
        let l = decode_marked-Lands objects r.0 r.1 (λ p w. ih p (omega arith, w.1)) hi in
        rw e (Lands-lower {a = r.1} (decode_marked m objects r.0 r.1) (omega arith) l)
  ]

  and_properties-Lands :
      (key : List ℕ) (v : Amf0Value) (o : Option (Amf0Object × ℕ)) {low low' : ℕ}
      → low ≤ low'
      → Lands m low' o
      → Lands m low (and_properties m key v o)
  unfolding and_properties
  and_properties-Lands key v none le l = l
  and_properties-Lands key v (some (rest, pos)) le l = (omega arith, l.1)

  and_then_objects-Lands :
      (objects : ℕ → Option (Amf0Object × ℕ)) (key : List ℕ) (o : Option (Amf0Value × ℕ)) {low : ℕ}
      → Objects low objects
      → Lands m low o
      → Lands m low (and_then_objects m objects key o)
  unfolding and_then_objects
  and_then_objects-Lands objects key none ih l = l
  and_then_objects-Lands objects key (some (v, pos)) ih l =
      and_properties-Lands key v (objects pos) l.0 (ih pos l)

  after_key-Lands :
      (objects : ℕ → Option (Amf0Object × ℕ)) (key : List ℕ) (pos pos' : ℕ)
      → Objects (suc pos) objects
      → pos < length m
      → Within m pos pos'
      → Lands m pos (after_key m objects key pos')
  unfolding after_key
  after_key-Lands objects key pos pos' ih lt w =
      elim (Bool-cases (is_empty key && (ltb pos' (length m) && at m pos' == amf0_object_end))) [
        | inl e ↦ rw e (ground arith)
        | inr e ↦
            let l = decode_with-Lands objects pos' (λ p w'. ih p (omega arith, w'.1)) w.1 in
            let l' : Lands m (suc pos) (decode_with m objects pos') =
              Lands-lower {a = min (suc pos') (length m)} {b = suc pos} (decode_with m objects pos')
                (omega arith) l in
            rw e (
              Lands-lower {a = suc pos} {b = pos}
                (and_then_objects m objects key (decode_with m objects pos')) (omega arith)
                (and_then_objects-Lands objects key (decode_with m objects pos') {low = suc pos} ih
                  l'))
      ]

  -- DecodeObject with more fuel than bytes that remain.
  decode_object-Lands :
      (f pos : ℕ) → pos ≤ length m → length m - pos < f → Lands m pos (decode_object m f pos)
  unfolding decode_object
  decode_object-Lands zero pos h lt = absurd (omega arith)
  decode_object-Lands (suc f) pos h lt = elim (Bool-cases (leb (length m) pos)) [
    | inl e ↦ rw e (omega arith)
    | inr e ↦
        let in_data : pos < length m = leb-false→lt (length m) pos e in
        let r = read_object_key m pos in
        rw e (
          after_key-Lands (λ p. decode_object m f p) r.0 pos r.1
            (λ p w. decode_object-Lands f p w.1 (omega arith)) in_data
            (read_object_key-Within pos h))
  ]

  -- From a position within the data Decode always returns, its fuel being enough: it ends within the
  -- data, and behind where it began unless that was the end.
  pub decode-Lands : (pos : ℕ) → pos ≤ length m → Lands m (min (suc pos) (length m)) (decode m pos)
  unfolding decode
  decode-Lands pos h =
      decode_with-Lands (λ p. decode_object m (suc (length m - pos)) p) pos
        (λ p w. decode_object-Lands (suc (length m - pos)) p w.1 (omega arith)) h
