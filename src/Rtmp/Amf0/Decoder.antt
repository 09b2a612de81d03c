-- ===== src/Rtmp/Amf0/Decoder.antt =====
-- media/rtmp/AMF/AMF0.cpp: AMF0Decoder, whose only state is the position `m_pos`.
--
-- `m_len` is the length of `m_data`. The position never passes it, so that the `size_t` sums do not
-- wrap. `none` means that the fuel ran out.
use omega_streamer.Prelude.{
  ℕ, zero, suc, ◌+◌, ◌*◌, ◌-◌, Bool, true, false, Option, none, some, List, [], ◌∷◌, ltb, leb, ◌==◌,
  ◌&&◌, not, if◌then◌else◌, length, take, drop,
}
use omega_streamer.Bytes.{at, ◌⊕◌, Pointer}
use omega_streamer.Rtmp.Amf0.{
  Amf0Value, number, boolean, string, object, null, Amf0Object, no_properties, property,
  amf0_number, amf0_boolean, amf0_string, amf0_object, amf0_ecma_array, amf0_object_end,
}

-- The 64-bit pattern whose bytes stand at `p`, the most significant first: the eight bytes are
-- reversed and copied into a `double` of a little-endian machine.
unfoldable pub double_bits : Pointer → ℕ
double_bits p =
    (p 0 * 16777216 + p 1 * 65536 + p 2 * 256 + p 3) * 4294967296
    + (p 4 * 16777216 + p 5 * 65536 + p 6 * 256 + p 7)

-- `key.empty()`
unfoldable pub is_empty : List ℕ → Bool
is_empty [] = true
is_empty (x ∷ xs) = false

module _ (m_data : List ℕ) where
  unfoldable pub read_uint8 : ℕ → ℕ × ℕ
  read_uint8 pos = if leb (length m_data) pos then (0, pos) else (at m_data pos, pos + 1)

  unfoldable pub read_uint16_be : ℕ → ℕ × ℕ
  read_uint16_be pos =
      if ltb (length m_data) (pos + 2)
      then (0, pos)
      else (at m_data pos * 256 + at m_data (pos + 1), pos + 2)

  unfoldable pub read_uint32_be : ℕ → ℕ × ℕ
  read_uint32_be pos = if ltb (length m_data) (pos + 4) then (0, pos) else (
    at m_data pos * 16777216
        + at m_data (pos + 1) * 65536
        + at m_data (pos + 2) * 256
        + at m_data (pos + 3),
    pos + 4,
  )

  unfoldable pub read_double : ℕ → ℕ × ℕ
  unfolding double_bits
  read_double pos =
      if ltb (length m_data) (pos + 8) then (0, pos) else (double_bits (at m_data ⊕ pos), pos + 8)

  unfoldable pub read_string_data : ℕ → ℕ → List ℕ × ℕ
  read_string_data len pos =
      if ltb (length m_data) (pos + len)
      then ([], length m_data)
      else (take len (drop pos m_data), pos + len)

  unfoldable pub read_object_key : ℕ → List ℕ × ℕ
  read_object_key pos = let (len, pos') = read_uint16_be pos in read_string_data len pos'

  unfoldable pub decode_number : ℕ → ℕ × ℕ
  decode_number pos = read_double pos

  unfoldable pub decode_boolean : ℕ → Bool × ℕ
  decode_boolean pos = let (b, pos') = read_uint8 pos in (not (b == 0), pos')

  unfoldable pub decode_string : ℕ → List ℕ × ℕ
  decode_string pos = let (len, pos') = read_uint16_be pos in read_string_data len pos'

  -- A decoded object as a value.
  unfoldable pub as_value : Option (Amf0Object × ℕ) → Option (Amf0Value × ℕ)
  as_value none = none
  as_value (some (o, pos)) = some (object o, pos)

  -- The switch on the marker; `objects` is DecodeObject.
  unfoldable pub decode_marked : (ℕ → Option (Amf0Object × ℕ)) → ℕ → ℕ → Option (Amf0Value × ℕ)
  unfolding as_value
  decode_marked objects marker pos =
      if marker == amf0_number
      then (let (v, pos') = decode_number pos in some (number v, pos'))
      else if marker == amf0_boolean
      then (let (v, pos') = decode_boolean pos in some (boolean v, pos'))
      else if marker == amf0_string
      then (let (v, pos') = decode_string pos in some (string v, pos'))
      else if marker == amf0_object
      then as_value (objects pos)
      else if marker == amf0_ecma_array
      then as_value (objects (read_uint32_be pos).1)
      else if marker == 0x3F
      then some (null, length m_data)
      else some (null, pos)

  unfoldable pub decode_with : (ℕ → Option (Amf0Object × ℕ)) → ℕ → Option (Amf0Value × ℕ)
  decode_with objects pos =
      if leb (length m_data) pos
      then some (null, pos)
      else (let (marker, pos') = read_uint8 pos in decode_marked objects marker pos')

  -- The property that was decoded, in front of those that the loop finds behind it.
  unfoldable pub and_properties :
      List ℕ → Amf0Value → Option (Amf0Object × ℕ) → Option (Amf0Object × ℕ)
  and_properties key v none = none
  and_properties key v (some (rest, pos)) = some (property key v rest, pos)

  unfoldable pub and_then_objects :
      (ℕ → Option (Amf0Object × ℕ)) → List ℕ → Option (Amf0Value × ℕ) → Option (Amf0Object × ℕ)
  unfolding and_properties
  and_then_objects objects key none = none
  and_then_objects objects key (some (v, pos)) = and_properties key v (objects pos)

  -- One round of the loop of DecodeObject, behind its key.
  unfoldable pub after_key : (ℕ → Option (Amf0Object × ℕ)) → List ℕ → ℕ → Option (Amf0Object × ℕ)
  after_key objects key pos =
      if is_empty key && (ltb pos (length m_data) && at m_data pos == amf0_object_end)
      then some (no_properties, pos + 1)
      else and_then_objects objects key (decode_with objects pos)

  unfoldable pub decode_object : ℕ → ℕ → Option (Amf0Object × ℕ)
  decode_object zero pos = none
  decode_object (suc f) pos =
      if leb (length m_data) pos
      then some (no_properties, pos)
      else (let (key, pos') = read_object_key pos in after_key (λ p. decode_object f p) key pos')

  -- Decode: enough fuel for the bytes that remain.
  unfoldable pub decode : ℕ → Option (Amf0Value × ℕ)
  decode pos = decode_with (λ p. decode_object (suc (length m_data - pos)) p) pos
