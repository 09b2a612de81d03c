-- ===== src/Rtmp/Amf0/ObjectTrip.antt =====
-- AMF0Decoder reads back whole values that AMF0Encoder writes.
use omega_streamer.Prelude.{
  ℕ, suc, ◌-◌, ◌/◌, ◌%◌, ◌≤◌, ◌<◌, ◌≡◌, ◌∙◌, ap, Option, some, List, [], ◌∷◌, ◌++◌, length, arith,
  length-append, append_assoc, drop-append,
}
use omega_streamer.Rtmp.Amf0.{Amf0Value, object}
use omega_streamer.Rtmp.Amf0.Decoder.{decode_marked, decode_object, decode, as_value}
use omega_streamer.Rtmp.Amf0.Encoder.{
  write_uint8, write_uint16_be, write_uint32_be, write_string_data, encode_object_start,
  encode_object_end, encode_ecma_array_start,
}
use omega_streamer.Rtmp.Amf0.Objects.{
  encode_object, encode_array, to_object, AreEncodable, properties_bytes, encode_properties-appends,
  decode_object-properties,
}
use omega_streamer.Rtmp.Amf0.Reads.{Stands, length-Stands, Stands-behind, read_uint32_be-after}
use omega_streamer.Rtmp.Amf0.RoundTrip.{
  Scalar, encode_scalar, scalar_value, IsEncodable, encode_scalar-appends, Decodes,
  decode_with-marker, decode_with-scalar,
}

length-properties_bytes : (ps : List (List ℕ × Scalar)) → length ps ≤ length (properties_bytes ps)
unfolding write_string_data write_uint16_be
length-properties_bytes [] = omega arith
length-properties_bytes ((name, v) ∷ ps) = omega (
  arith,
  length-properties_bytes ps,
  length-append name (encode_scalar [] v ++ properties_bytes ps),
  length-append (encode_scalar [] v) (properties_bytes ps),
)

-- What an encoder has appended to `buf` stands behind it.
appended-Stands :
    (buf bytes rest : List ℕ) {m : List ℕ}
    → m ≡ buf ++ bytes
    → Stands (m ++ rest) (length buf) (bytes ++ rest)
appended-Stands buf bytes rest e =
    rw (e, append_assoc buf bytes rest)
      (record {
        inside = omega (arith, length-append buf (bytes ++ rest));
        left = drop-append buf (bytes ++ rest);
      })

-- The position before what follows is the length of what was appended.
end-Stands : (m rest : List ℕ) (end : ℕ) → Stands (m ++ rest) end rest → end ≡ length m
end-Stands m rest end st = omega (arith, length-Stands st, length-append m rest)

closed :
    (buf start body : List ℕ)
    → encode_object_end ((buf ++ start) ++ body) ≡ buf ++ (start ++ (body ++ (0 ∷ 0 ∷ 9 ∷ [])))
unfolding encode_object_end write_uint8 write_uint16_be
closed buf start body =
    append_assoc ((buf ++ start) ++ body) (0 ∷ 0 ∷ []) (9 ∷ [])
    ∙ append_assoc (buf ++ start) body (0 ∷ 0 ∷ 9 ∷ [])
    ∙ append_assoc buf start (body ++ (0 ∷ 0 ∷ 9 ∷ []))

pub encode_object-appends :
    (buf : List ℕ) (ps : List (List ℕ × Scalar))
    → encode_object buf ps ≡ buf ++ (3 ∷ properties_bytes ps ++ (0 ∷ 0 ∷ 9 ∷ []))
unfolding encode_object encode_object_start write_uint8
encode_object-appends buf ps =
    rw (encode_properties-appends (buf ++ (3 ∷ [])) ps) (closed buf (3 ∷ []) (properties_bytes ps))

-- The marker and the count of an array.
array_start : ℕ → List ℕ
array_start count =
    8 ∷ count / 16777216 % 256 ∷ count / 65536 % 256 ∷ count / 256 % 256 ∷ count % 256 ∷ []

encode_array-appends :
    (buf : List ℕ) (count : ℕ) (ps : List (List ℕ × Scalar))
    → encode_array buf count ps
      ≡ buf ++ (array_start count ++ (properties_bytes ps ++ (0 ∷ 0 ∷ 9 ∷ [])))
unfolding encode_array encode_ecma_array_start write_uint8 write_uint32_be array_start
encode_array-appends buf count ps =
    rw
      (
        append_assoc buf (8 ∷ [])
            (count / 16777216 % 256 ∷ count / 65536 % 256 ∷ count / 256 % 256 ∷ count % 256 ∷ []),
        encode_properties-appends (buf ++ array_start count) ps,
      )
      (closed buf (array_start count) (properties_bytes ps))

module _ (m : List ℕ) {pos : ℕ} (rest : List ℕ) (ps : List (List ℕ × Scalar))
    (enc : AreEncodable ps) where
  -- Decode where the bytes of an object come next.
  pub decode-object :
      Stands m pos ((3 ∷ properties_bytes ps ++ (0 ∷ 0 ∷ 9 ∷ [])) ++ rest)
      → Decodes m (decode m pos) (object (to_object ps)) rest
  unfolding decode decode_marked as_value
  decode-object st =
      let r = properties_bytes ps ++ (0 ∷ 0 ∷ 9 ∷ rest) in
      let st₀ : Stands m pos (3 ∷ r) =
        rw (← append_assoc (properties_bytes ps) (0 ∷ 0 ∷ 9 ∷ []) rest) st in
      let f = suc (length m - pos) in
      let enough : length ps < f = omega (
        arith,
        length-Stands st₀,
        length-append (properties_bytes ps) (0 ∷ 0 ∷ 9 ∷ rest),
        length-properties_bytes ps,
      ) in
      let o = decode_object-properties m rest f ps enough enc (Stands-behind (3 ∷ []) r st₀) in
      record {
        end = o.end;
        done =
            decode_with-marker m (λ p. decode_object m f p) 3 r st₀ ∙ ap (λ q. as_value m q) o.done;
        stands = o.stands;
      }

  decode-array :
      (count : ℕ)
      → Stands m pos ((array_start count ++ (properties_bytes ps ++ (0 ∷ 0 ∷ 9 ∷ []))) ++ rest)
      → Decodes m (decode m pos) (object (to_object ps)) rest
  unfolding decode decode_marked as_value array_start
  decode-array count st =
      let r = properties_bytes ps ++ (0 ∷ 0 ∷ 9 ∷ rest) in
      let st₀ : Stands m pos (array_start count ++ r) =
        rw (← append_assoc (properties_bytes ps) (0 ∷ 0 ∷ 9 ∷ []) rest) st in
      let f = suc (length m - pos) in
      let enough : length ps < f = omega (
        arith,
        length-Stands st₀,
        length-append (properties_bytes ps) (0 ∷ 0 ∷ 9 ∷ rest),
        length-properties_bytes ps,
      ) in
      let st₁ =
        Stands-behind (8 ∷ [])
          (count / 16777216 % 256 ∷ count / 65536 % 256 ∷ count / 256 % 256 ∷ count % 256 ∷ r)
          st₀ in
      let st₂ =
        Stands-behind
          (count / 16777216 % 256 ∷ count / 65536 % 256 ∷ count / 256 % 256 ∷ count % 256 ∷ []) r
          st₁ in
      let o = decode_object-properties m rest f ps enough enc st₂ in
      record {
        end = o.end;
        done =
            decode_with-marker m (λ p. decode_object m f p) 8
              (count / 16777216 % 256 ∷ count / 65536 % 256 ∷ count / 256 % 256 ∷ count % 256 ∷ r)
              st₀
            ∙ rw (read_uint32_be-after m r st₁) (ap (λ q. as_value m q) o.done);
        stands = o.stands;
      }

-- A whole value behind `buf`, from what Decodes says.
decoded :
    (m rest : List ℕ) (v : Amf0Value) (o : Option (Amf0Value × ℕ))
    → Decodes (m ++ rest) o v rest
    → o ≡ some (v, length m)
decoded m rest v o d = d.done ∙ ap (λ e. some (v, e)) (end-Stands m rest d.end d.stands)

-- Decode reads a scalar that the encoder has appended to a buffer as that scalar, and stops right
-- behind it, whatever follows: a string of fewer than 65536 bytes, a 64-bit number or a boolean.
pub decode-encode_scalar :
    (buf rest : List ℕ) (v : Scalar)
    → IsEncodable v
    → decode (encode_scalar buf v ++ rest) (length buf)
      ≡ some (scalar_value v, length (encode_scalar buf v))
unfolding decode
decode-encode_scalar buf rest v ok =
    let m = encode_scalar buf v in
    decoded m rest (scalar_value v) (decode (m ++ rest) (length buf)) (
      decode_with-scalar (m ++ rest)
        (λ p. decode_object (m ++ rest) (suc (length (m ++ rest) - length buf)) p) rest v ok
        (appended-Stands buf (encode_scalar [] v) rest (encode_scalar-appends buf v)))

-- Decode reads an object, or an ECMA array with whatever count, that the encoder's operations have
-- appended to a buffer property by property as the object with these properties in order, and stops
-- right behind it, whatever follows: for names of fewer than 65536 bytes and values that can be encoded.
pub decode-encode_object :
    (buf rest : List ℕ) (count : ℕ) (ps : List (List ℕ × Scalar))
    → AreEncodable ps
    → (decode (encode_object buf ps ++ rest) (length buf)
        ≡ some (object (to_object ps), length (encode_object buf ps)))
      × (decode (encode_array buf count ps ++ rest) (length buf)
          ≡ some (object (to_object ps), length (encode_array buf count ps)))
decode-encode_object buf rest count ps enc = (
  decoded (encode_object buf ps) rest (object (to_object ps)) _ (
      decode-object (encode_object buf ps ++ rest) rest ps enc (
        appended-Stands buf (3 ∷ properties_bytes ps ++ (0 ∷ 0 ∷ 9 ∷ [])) rest
          (encode_object-appends buf ps))),
  decoded (encode_array buf count ps) rest (object (to_object ps)) _ (
      decode-array (encode_array buf count ps ++ rest) rest ps enc count (
        appended-Stands buf (array_start count ++ (properties_bytes ps ++ (0 ∷ 0 ∷ 9 ∷ []))) rest
          (encode_array-appends buf count ps))),
)
