-- ===== src/Rtmp/Amf0/Sequence.antt =====
-- A whole sequence of values, as the program's commands are: the decoder reads back what the encoder
-- writes.
use omega_streamer.Prelude.{
  ℕ, zero, suc, ◌+◌, ◌<◌, ◌≡◌, ◌∙◌, sym, ap, refl, subst, Option, none, some, List, [], ◌∷◌, ◌++◌,
  length, arith, length-append, append_assoc, append-nil, All, true, false, ltb, lt→ltb, le→ltb,
  if◌then◌else◌,
}
use omega_streamer.Rtmp.Amf0.{Amf0Value, object, null}
use omega_streamer.Rtmp.Amf0.Decoder.{decode, decode_marked}
use omega_streamer.Rtmp.Amf0.Encoder.{
  encode_null, write_uint8, encode_string, encode_number, encode_boolean, write_string_data,
  write_uint16_be, write_double, write_uint32_be,
}
use omega_streamer.Rtmp.Amf0.Reads.{Stands, length-Stands, Stands-behind}
use omega_streamer.Rtmp.Amf0.RoundTrip.{
  Scalar, text, double, flag, encode_scalar, scalar_value, IsEncodable, encode_scalar-appends,
  Decodes, decode_with-marker, decode_with-scalar,
}
use omega_streamer.Rtmp.Amf0.Objects.{encode_object, to_object, AreEncodable}
use omega_streamer.Rtmp.Amf0.ObjectTrip.{encode_object-appends, decode-object}

-- What a command is made of.
pub data Item : Type 0 where
  scalar : Scalar → Item
  nothing : Item
  properties : List (List ℕ × Scalar) → Item

abbrev pub encode_item : List ℕ → Item → List ℕ
encode_item m_buf (scalar v) = encode_scalar m_buf v
encode_item m_buf nothing = encode_null m_buf
encode_item m_buf (properties ps) = encode_object m_buf ps

abbrev pub encode_items : List ℕ → List Item → List ℕ
encode_items m_buf [] = m_buf
encode_items m_buf (i ∷ is) = encode_items (encode_item m_buf i) is

abbrev pub item_value : Item → Amf0Value
item_value (scalar v) = scalar_value v
item_value nothing = null
item_value (properties ps) = object (to_object ps)

abbrev pub item_values : List Item → List Amf0Value
item_values [] = []
item_values (i ∷ is) = item_value i ∷ item_values is

abbrev pub IsItem : Item → Type 0
IsItem (scalar v) = IsEncodable v
IsItem nothing = Unit
IsItem (properties ps) = AreEncodable ps

-- Values from a position on, as long as HasMore says that there are more.
unfoldable pub read_value : (ℕ → List Amf0Value) → Option (Amf0Value × ℕ) → List Amf0Value
read_value again none = []
read_value again (some (v, pos)) = v ∷ again pos

unfoldable pub read_all : List ℕ → ℕ → ℕ → List Amf0Value
unfolding read_value
read_all m zero pos = []
read_all m (suc f) pos =
    if ltb pos (length m) then read_value (λ p. read_all m f p) (decode m pos) else []

unfoldable pub item_bytes : Item → List ℕ
item_bytes i = encode_item [] i

encode_item-appends : (buf : List ℕ) (i : Item) → encode_item buf i ≡ buf ++ item_bytes i
unfolding encode_null write_uint8 item_bytes
encode_item-appends buf (scalar v) = encode_scalar-appends buf v
encode_item-appends buf nothing = refl
encode_item-appends buf (properties ps) =
    encode_object-appends buf ps ∙ ap (λ l. buf ++ l) (sym (encode_object-appends [] ps))

unfoldable pub items_bytes : List Item → List ℕ
items_bytes [] = []
items_bytes (i ∷ is) = item_bytes i ++ items_bytes is

pub encode_items-appends :
    (buf : List ℕ) (is : List Item) → encode_items buf is ≡ buf ++ items_bytes is
unfolding items_bytes
encode_items-appends buf [] = sym (append-nil buf)
encode_items-appends buf (i ∷ is) =
    encode_items-appends (encode_item buf i) is
    ∙ ap (λ l. l ++ items_bytes is) (encode_item-appends buf i)
    ∙ append_assoc buf (item_bytes i) (items_bytes is)

item-nonempty : (i : Item) → 0 < length (item_bytes i)
unfolding item_bytes encode_null write_uint8 encode_string encode_number encode_boolean
    write_string_data write_uint16_be write_double write_uint32_be
item-nonempty (scalar (text s)) = omega arith
item-nonempty (scalar (double v)) = omega arith
item-nonempty (scalar (flag b)) = omega arith
item-nonempty nothing = omega arith
item-nonempty (properties ps) = omega (arith, ap length (encode_object-appends [] ps))

pub decode-item :
    (m : List ℕ) {pos : ℕ} (rest : List ℕ) (i : Item)
    → IsItem i
    → Stands m pos (item_bytes i ++ rest)
    → Decodes m (decode m pos) (item_value i) rest
unfolding item_bytes decode decode_marked encode_null write_uint8
decode-item m rest (scalar v) ok st = decode_with-scalar m _ rest v ok st
decode-item m {pos} rest nothing ok st = record {
  end = pos + 1;
  done = decode_with-marker m _ 5 rest st;
  stands = Stands-behind (5 ∷ []) rest st;
}
decode-item m {pos} rest (properties ps) ok st =
    decode-object m rest ps ok
      (subst (λ k. Stands m pos (k ++ rest)) (encode_object-appends [] ps) st)

read_all-items :
    (m : List ℕ) (f : ℕ) {pos : ℕ} (is : List Item)
    → All IsItem is
    → length is < f
    → Stands m pos (items_bytes is)
    → read_all m f pos ≡ item_values is
unfolding read_all items_bytes read_value
read_all-items m zero is ok lt st = absurd (omega arith)
read_all-items m (suc f) {pos} [] ok lt st =
    let stop : ltb pos (length m) ≡ false = le→ltb _ _ (omega (arith, length-Stands st)) in
    rw stop refl
read_all-items m (suc f) {pos} (i ∷ is) (ok, oks) lt st =
    let d = decode-item m (items_bytes is) i ok st in
    let go : ltb pos (length m) ≡ true = lt→ltb _ _ (
      omega (
        arith,
        length-Stands st,
        length-append (item_bytes i) (items_bytes is),
        item-nonempty i,
      )) in
    rw (go, d.done) (ap (λ l. item_value i ∷ l) (read_all-items m f is oks (omega arith) d.stands))

-- Whatever sequence of strings, numbers, booleans, nulls and objects the encoder writes, within the
-- sizes that can be encoded, decoding from the start until no byte is left gives these values in
-- order and no other, with any fuel above their number.
pub read_all-encode_items :
    (is : List Item) (f : ℕ)
    → All IsItem is
    → length is < f
    → read_all (encode_items [] is) f 0 ≡ item_values is
read_all-encode_items is f ok lt =
    read_all-items (encode_items [] is) f is ok lt
      (record { inside = omega arith; left = encode_items-appends [] is })
