-- ===== src/Tests/Amf0.antt =====
-- AMF0 values encoded and decoded, and the theorems about them at small inputs.
use omega_streamer.Prelude.{ℕ, ◌≡◌, refl, some, List, [], ◌∷◌, ◌++◌, arith, length, true, min}
use omega_streamer.Rtmp.Amf0.{object, get_string, get}
use omega_streamer.Prelude.Strings.{same_string}
use omega_streamer.Rtmp.Amf0.Decoder.{decode}
use omega_streamer.Rtmp.Amf0.Bounds.{Lands, decode-Lands}
use omega_streamer.Rtmp.Amf0.RoundTrip.{Scalar, text, double, flag}
use omega_streamer.Rtmp.Amf0.Objects.{encode_object, encode_array, to_object}
use omega_streamer.Rtmp.Amf0.ObjectTrip.{decode-encode_object}
use omega_streamer.Rtmp.Amf0.Sequence.{
  Item, scalar, nothing, properties, encode_items, read_all, item_values, read_all-encode_items,
}
use omega_streamer.Rtmp.Double.{to_double}

-- 1.0 and 31.0.
one_as_double : to_double 1 ≡ 0x3FF0000000000000
unfolding to_double
one_as_double = refl

thirty_one_as_double : to_double 31 ≡ 0x403F000000000000
unfolding to_double
thirty_one_as_double = refl

-- An object whose end mark is missing, and in which another object begins.
abbrev open_ended : List ℕ
open_ended = 3 ∷ 0 ∷ 1 ∷ 97 ∷ 3 ∷ 0 ∷ 1 ∷ []

decode-Lands_example : Lands open_ended (min 1 7) (decode open_ended 0)
decode-Lands_example = decode-Lands open_ended 0 (omega arith)

abbrev two_properties : List (List ℕ × Scalar)
two_properties = (97 ∷ [], text (104 ∷ 105 ∷ [])) ∷ (98 ∷ [], flag true) ∷ []

decode-encode_object_example :
    (decode (encode_object (5 ∷ []) two_properties ++ (9 ∷ [])) 1
      ≡ some (object (to_object two_properties), length (encode_object (5 ∷ []) two_properties)))
    × (decode (encode_array (5 ∷ []) 0 two_properties ++ (9 ∷ [])) 1
        ≡ some (object (to_object two_properties), length (encode_array (5 ∷ []) 0 two_properties)))
decode-encode_object_example = decode-encode_object (5 ∷ []) (9 ∷ []) 0 two_properties (omega arith)

-- The lookup in the decoded object.
looked_up : get_string (to_object two_properties) (97 ∷ []) [] ≡ 104 ∷ 105 ∷ []
unfolding get_string get to_object same_string
looked_up = refl

abbrev items : List Item
items = scalar (text (97 ∷ [])) ∷ scalar (double 7) ∷ nothing ∷ properties two_properties ∷ []

read_all-encode_items_example : read_all (encode_items [] items) 5 0 ≡ item_values items
read_all-encode_items_example = read_all-encode_items items 5 (omega arith) (omega arith)
