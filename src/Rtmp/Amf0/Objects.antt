-- ===== src/Rtmp/Amf0/Objects.antt =====
-- AMF0Decoder reads back the objects that AMF0Encoder writes property by property.
use omega_streamer.Prelude.{
  ℕ, zero, suc, ◌+◌, ◌<◌, ◌≡◌, ◌∙◌, sym, ap, refl, Option, some, List, [], ◌∷◌, ◌++◌, length, arith,
  append_assoc, append-nil, ltb, leb, Bool, true, false, ◌==◌, ◌&&◌, All, lt→leb, lt→ltb,
}
use omega_streamer.Bytes.{at}
use omega_streamer.Rtmp.Amf0.{Amf0Object, no_properties, property}
use omega_streamer.Rtmp.Amf0.Decoder.{
  read_object_key, decode_object, after_key, and_then_objects, and_properties, is_empty,
}
use omega_streamer.Rtmp.Amf0.Encoder.{
  write_uint8, write_uint16_be, write_uint32_be, write_string_data, encode_number, encode_boolean,
  encode_string, write_double, encode_object_start, encode_object_end, encode_named_string,
  encode_named_number, encode_named_boolean, encode_ecma_array_start,
}
use omega_streamer.Rtmp.Amf0.Reads.{Stands, length-Stands, head-Stands, Stands-behind}
use omega_streamer.Rtmp.Amf0.RoundTrip.{
  Scalar, text, double, flag, encode_scalar, encode_named, scalar_value, IsEncodable,
  write_string_data-appends, encode_scalar-appends, read_object_key-eq, decode_with-scalar,
}

-- The properties of an object, added one after the other.
unfoldable pub encode_properties : List ℕ → List (List ℕ × Scalar) → List ℕ
encode_properties m_buf [] = m_buf
encode_properties m_buf ((name, v) ∷ ps) = encode_properties (encode_named m_buf name v) ps

-- An object, and an array of the same form, as the encoder's operations write them.
unfoldable pub encode_object : List ℕ → List (List ℕ × Scalar) → List ℕ
encode_object m_buf ps = encode_object_end (encode_properties (encode_object_start m_buf) ps)

unfoldable pub encode_array : List ℕ → ℕ → List (List ℕ × Scalar) → List ℕ
encode_array m_buf count ps =
    encode_object_end (encode_properties (encode_ecma_array_start m_buf count) ps)

-- The object with these properties.
unfoldable pub to_object : List (List ℕ × Scalar) → Amf0Object
to_object [] = no_properties
to_object ((name, v) ∷ ps) = property name (scalar_value v) (to_object ps)

-- Names of at most 65535 bytes, and values that can be encoded.
abbrev pub AreEncodable : List (List ℕ × Scalar) → Type 0
AreEncodable ps = All (λ p. (length p.0 < 65536) × IsEncodable p.1) ps

encode_named-appends :
    (buf name : List ℕ) (v : Scalar)
    → encode_named buf name v ≡ buf ++ (write_string_data [] name ++ encode_scalar [] v)
unfolding encode_named_string encode_named_number encode_named_boolean
encode_named-appends buf name v =
    whole v
    ∙ encode_scalar-appends (write_string_data buf name) v
    ∙ ap (λ l. l ++ encode_scalar [] v) (write_string_data-appends buf name)
    ∙ append_assoc buf (write_string_data [] name) (encode_scalar [] v)
  where
    whole : (w : Scalar) → encode_named buf name w ≡ encode_scalar (write_string_data buf name) w
    whole (text s) = refl
    whole (double n) = refl
    whole (flag b) = refl

-- The bytes of the properties.
abbrev pub properties_bytes : List (List ℕ × Scalar) → List ℕ
properties_bytes [] = []
properties_bytes ((name, v) ∷ ps) =
    write_string_data [] name ++ (encode_scalar [] v ++ properties_bytes ps)

pub encode_properties-appends :
    (buf : List ℕ) (ps : List (List ℕ × Scalar))
    → encode_properties buf ps ≡ buf ++ properties_bytes ps
unfolding encode_properties
encode_properties-appends buf [] = sym (append-nil buf)
encode_properties-appends buf ((name, v) ∷ ps) =
    let k = write_string_data [] name in
    encode_properties-appends (encode_named buf name v) ps
    ∙ rw
        (
          encode_named-appends buf name v,
          append_assoc buf (k ++ encode_scalar [] v) (properties_bytes ps),
          append_assoc k (encode_scalar [] v) (properties_bytes ps),
        )
        refl

scalar-marker : (v : Scalar) (l : List ℕ) → (at (encode_scalar [] v ++ l) 0 == 9) ≡ false
unfolding encode_string encode_number encode_boolean write_uint8 write_string_data write_uint16_be
    write_double write_uint32_be
scalar-marker (text s) l = refl
scalar-marker (double v) l = refl
scalar-marker (flag b) l = refl

and-false : (a b c : Bool) → c ≡ false → (a && (b && c)) ≡ false
and-false a b c e = ground arith

module _ (m : List ℕ) (l : List ℕ) where
  -- What DecodeObject gives on the properties and the end mark, with fuel for each of them.
  pub record Object (o : Option (Amf0Object × ℕ)) (v : Amf0Object) : Type 0 where
    pub end : ℕ
    pub done : o ≡ some (v, end)
    pub stands : Stands m end l

  decode_object-step :
      (f : ℕ) {pos : ℕ} (x : ℕ) (r : List ℕ) (key : List ℕ) (pos' : ℕ)
      → Stands m pos (x ∷ r)
      → read_object_key m pos ≡ (key, pos')
      → decode_object m (suc f) pos ≡ after_key m (λ p. decode_object m f p) key pos'
  unfolding decode_object
  decode_object-step f {pos} x r key pos' st e =
      let inside : leb (length m) pos ≡ false = lt→leb _ _ (omega (arith, length-Stands st)) in
      rw (inside, e) refl

  decode_object-end :
      (f : ℕ) {pos : ℕ}
      → Stands m pos (0 ∷ 0 ∷ 9 ∷ l)
      → Object (decode_object m (suc f) pos) no_properties
  unfolding after_key is_empty write_string_data write_uint16_be
  decode_object-end f {pos} st =
      let (pos', e, st') = read_object_key-eq m (9 ∷ l) [] (omega arith) st in
      let inside : ltb pos' (length m) ≡ true = lt→ltb _ _ (omega (arith, length-Stands st')) in
      let mark : at m pos' ≡ 9 = head-Stands st' in
      record {
        end = pos' + 1;
        done = rw (decode_object-step f 0 (0 ∷ 9 ∷ l) [] pos' st e, inside, mark) refl;
        stands = Stands-behind (9 ∷ []) l st';
      }

  pub decode_object-properties :
      (f : ℕ) (ps : List (List ℕ × Scalar)) {pos : ℕ}
      → length ps < f
      → AreEncodable ps
      → Stands m pos (properties_bytes ps ++ (0 ∷ 0 ∷ 9 ∷ l))
      → Object (decode_object m f pos) (to_object ps)
  unfolding after_key and_then_objects and_properties to_object write_string_data write_uint16_be
  decode_object-properties zero ps lt enc st = absurd (omega arith)
  decode_object-properties (suc f) [] lt enc st = decode_object-end f st
  decode_object-properties (suc f) ((name, v) ∷ ps) {pos} lt ((short, ok), encs) st =
      let r = properties_bytes ps ++ (0 ∷ 0 ∷ 9 ∷ l) in
      let value = encode_scalar [] v ++ r in
      let st₀ : Stands m pos (write_string_data [] name ++ value) =
        rw
          (
            ← append_assoc (encode_scalar [] v) (properties_bytes ps) (0 ∷ 0 ∷ 9 ∷ l),
            ← append_assoc (write_string_data [] name) (encode_scalar [] v ++ properties_bytes ps)
                (0 ∷ 0 ∷ 9 ∷ l),
          )
          st in
      let (pos', e, st') = read_object_key-eq m value name short st₀ in
      let d = decode_with-scalar m (λ p. decode_object m f p) r v ok st' in
      let o = decode_object-properties f ps (omega arith) encs d.stands in
      let no_mark : (at m pos' == 9) ≡ false =
        ap (λ k. k == 9) (head-Stands st') ∙ scalar-marker v r in
      record {
        end = o.end;
        done =
            decode_object-step f _ _ name pos' st₀ e
            ∙ rw
                (
                  and-false (is_empty name) (ltb pos' (length m)) (at m pos' == 9) no_mark,
                  d.done,
                  o.done,
                )
                refl;
        stands = o.stands;
      }
