-- ===== src/Rtmp/Amf0/RoundTrip.antt =====
-- AMF0Decoder reads back what AMF0Encoder writes.
use omega_streamer.Prelude.{
  lt→leb, le→ltb, not, if◌then◌else◌, ℕ, ◌+◌, ◌*◌, ◌/◌, ◌%◌, ◌^◌, ◌<◌, ◌≡◌, ◌∙◌, sym, ap, refl,
  Option, some, List, [], ◌∷◌, ◌++◌, length, arith, append_assoc, ltb, leb, Bool, true, false, ◌==◌,
}
use omega_streamer.Rtmp.Amf0.{Amf0Value, number, boolean, string, Amf0Object}
use omega_streamer.Rtmp.Amf0.Decoder.{
  read_double, double_bits, read_object_key, decode_number, decode_boolean, decode_string,
  decode_marked, decode_with,
}
use omega_streamer.Rtmp.Amf0.Encoder.{
  write_uint8, write_uint16_be, write_uint32_be, write_double, write_string_data, encode_number,
  encode_boolean, encode_string, encode_named_string, encode_named_number, encode_named_boolean,
}
use omega_streamer.Rtmp.Amf0.Reads.{
  Stands, length-Stands, at-Stands, Stands-behind, read_uint8-eq, read_uint16_be-eq,
  read_string_data-eq,
}

-- The values that the encoder has an operation for, but the objects.
pub data Scalar : Type 0 where
  text : List ℕ → Scalar
  double : ℕ → Scalar
  flag : Bool → Scalar

-- The operation for a scalar, and the one for a named scalar in an object.
abbrev pub encode_scalar : List ℕ → Scalar → List ℕ
encode_scalar m_buf (text s) = encode_string m_buf s
encode_scalar m_buf (double v) = encode_number m_buf v
encode_scalar m_buf (flag b) = encode_boolean m_buf b

abbrev pub encode_named : List ℕ → List ℕ → Scalar → List ℕ
encode_named m_buf name (text s) = encode_named_string m_buf name s
encode_named m_buf name (double v) = encode_named_number m_buf name v
encode_named m_buf name (flag b) = encode_named_boolean m_buf name b

-- The value that a scalar is decoded to.
abbrev pub scalar_value : Scalar → Amf0Value
scalar_value (text s) = string s
scalar_value (double v) = number v
scalar_value (flag b) = boolean b

-- A string of at most 65535 bytes, and a pattern of 64 bits.
abbrev pub IsEncodable : Scalar → Type 0
IsEncodable (text s) = length s < 65536
IsEncodable (double v) = v < 2 ^ 64
IsEncodable (flag b) = Unit

-- The encoder only appends.
pub write_string_data-appends :
    (buf s : List ℕ) → write_string_data buf s ≡ buf ++ write_string_data [] s
unfolding write_string_data write_uint16_be
write_string_data-appends buf s = append_assoc buf _ s

pub encode_scalar-appends :
    (buf : List ℕ) (v : Scalar) → encode_scalar buf v ≡ buf ++ encode_scalar [] v
unfolding encode_string encode_number encode_boolean write_uint8 write_double write_uint32_be
encode_scalar-appends buf (text s) =
    write_string_data-appends (buf ++ (2 ∷ [])) s
    ∙ append_assoc buf (2 ∷ []) (write_string_data [] s)
    ∙ ap (λ l. buf ++ l) (sym (write_string_data-appends (2 ∷ []) s))
encode_scalar-appends buf (double v) =
    append_assoc (buf ++ (0 ∷ [])) _ _ ∙ append_assoc buf (0 ∷ []) _
encode_scalar-appends buf (flag b) = append_assoc buf _ _

-- Reading what was appended: the result, and the bytes that remain behind it.
pub record Decodes (m : List ℕ) (o : Option (Amf0Value × ℕ)) (v : Amf0Value) (l : List ℕ)
    : Type 0 where
  pub end : ℕ
  pub done : o ≡ some (v, end)
  pub stands : Stands m end l

module _ (m : List ℕ) {pos : ℕ} (l : List ℕ) where
  pub read_object_key-eq :
      (s : List ℕ)
      → length s < 65536
      → Stands m pos (write_string_data [] s ++ l)
      → (pos' : ℕ) × (read_object_key m pos ≡ (s, pos')) × Stands m pos' l
  unfolding read_object_key write_string_data write_uint16_be
  read_object_key-eq s h st =
      let hi = length s % 65536 / 256 % 256 in
      let lo = length s % 65536 % 256 in
      let behind : Stands m (pos + 2) (s ++ l) = Stands-behind (hi ∷ lo ∷ []) (s ++ l) st in
      let size : hi * 256 + lo ≡ length s = omega arith in
      (
        pos + 2 + length s,
        rw (read_uint16_be-eq m (s ++ l) st, size) (read_string_data-eq m l s behind),
        Stands-behind s l behind,
      )

-- Decode passes on to the case of the marker.
pub decode_with-marker :
    (m : List ℕ) (objects : ℕ → Option (Amf0Object × ℕ)) {pos : ℕ} (x : ℕ) (l : List ℕ)
    → Stands m pos (x ∷ l)
    → decode_with m objects pos ≡ decode_marked m objects x (pos + 1)
unfolding decode_with
decode_with-marker m objects {pos} x l st =
    let inside : leb (length m) pos ≡ false = lt→leb _ _ (omega (arith, length-Stands st)) in
    rw (inside, read_uint8-eq m l st) refl

read_double-eq :
    (m : List ℕ) {pos : ℕ} (v : ℕ) (l : List ℕ)
    → v < 2 ^ 64
    → Stands m pos (write_double [] v ++ l)
    → read_double m pos ≡ (v, pos + 8)
unfolding read_double write_double write_uint32_be double_bits
read_double-eq m {pos} v l h st =
    let inside : ltb (length m) (pos + 8) ≡ false = le→ltb _ _ (omega (arith, length-Stands st)) in
    rw
      (
        inside,
        at-Stands 0 st,
        at-Stands 1 st,
        at-Stands 2 st,
        at-Stands 3 st,
        at-Stands 4 st,
        at-Stands 5 st,
        at-Stands 6 st,
        at-Stands 7 st,
      )
      (ap (λ n. (n, pos + 8)) (omega arith))

module _ (m : List ℕ) (objects : ℕ → Option (Amf0Object × ℕ)) {pos : ℕ} (l : List ℕ) where
  -- Decode of a scalar, whatever DecodeObject does.
  pub decode_with-scalar :
      (v : Scalar)
      → IsEncodable v
      → Stands m pos (encode_scalar [] v ++ l)
      → Decodes m (decode_with m objects pos) (scalar_value v) l
  unfolding decode_marked encode_string encode_number encode_boolean write_uint8 write_string_data
      write_uint16_be write_double write_uint32_be decode_string read_object_key decode_number
      decode_boolean
  decode_with-scalar (text s) h st =
      let r = write_string_data [] s ++ l in
      let (pos', e, st') = read_object_key-eq m l s h (Stands-behind (2 ∷ []) r st) in
      record {
        end = pos';
        done = decode_with-marker m objects 2 r st ∙ ap (λ o. some (string o.0, o.1)) e;
        stands = st';
      }
  decode_with-scalar (double v) h st =
      let r = write_double [] v ++ l in
      let behind = Stands-behind (0 ∷ []) r st in
      record {
        end = pos + 1 + 8;
        done =
            decode_with-marker m objects 0 r st
            ∙ ap (λ o. some (number o.0, o.1)) (read_double-eq m v l h behind);
        stands = Stands-behind (write_double [] v) l behind;
      }
  decode_with-scalar (flag b) h st =
      let x = if b then 1 else 0 in
      let behind = Stands-behind (1 ∷ []) (x ∷ l) st in
      record {
        end = pos + 1 + 1;
        done =
            decode_with-marker m objects 1 (x ∷ l) st
            ∙ ap (λ o. some (boolean (not (o.0 == 0)), o.1)) (read_uint8-eq m l behind)
            ∙ ap (λ c. some (boolean c, pos + 1 + 1)) (same b);
        stands = Stands-behind (x ∷ []) l behind;
      }
    where
      same : (c : Bool) → not ((if c then 1 else 0) == 0) ≡ c
      same true = refl
      same false = refl
