-- ===== src/Rtmp/Amf0.antt =====
-- media/rtmp/AMF/AMF0.h and AMF0.cpp: AMF0 values and the lookups in an object.
--
-- A `double` is its 64-bit pattern, and a `std::string` its bytes. The pointer to a decoded object is
-- never null, so that an object is its properties, in the order of the vector.
pub mod Decoder
pub mod Encoder
pub mod Bounds
pub mod Reads
pub mod RoundTrip
pub mod Objects
pub mod ObjectTrip
pub mod Sequence
use omega_streamer.Prelude.Strings.{same_string}
use omega_streamer.Prelude.{
  ℕ, Bool, Option, none, some, List, [], ◌∷◌, ◌==◌, if◌then◌else◌, ◌&&◌, true, false,
}

mutual
  pub data Amf0Value : Type 0 where
    number : ℕ → Amf0Value
    boolean : Bool → Amf0Value
    string : List ℕ → Amf0Value
    object : Amf0Object → Amf0Value
    null : Amf0Value

  pub data Amf0Object : Type 0 where
    no_properties : Amf0Object
    property : (key : List ℕ) → Amf0Value → Amf0Object → Amf0Object

abbrev pub amf0_number : ℕ
amf0_number = 0

abbrev pub amf0_boolean : ℕ
amf0_boolean = 1

abbrev pub amf0_string : ℕ
amf0_string = 2

abbrev pub amf0_object : ℕ
amf0_object = 3

abbrev pub amf0_null : ℕ
amf0_null = 5

abbrev pub amf0_undefined : ℕ
amf0_undefined = 6

abbrev pub amf0_ecma_array : ℕ
amf0_ecma_array = 8

abbrev pub amf0_object_end : ℕ
amf0_object_end = 9

-- `none` is the null pointer.
unfoldable pub get : Amf0Object → List ℕ → Option Amf0Value
get no_properties key = none
get (property k v rest) key = if same_string k key then some v else get rest key

unfoldable pub has : Amf0Object → List ℕ → Bool
unfolding get
has obj key = elim (get obj key) [ none ↦ false | some v ↦ true ]

-- std::get_if<std::string>
unfoldable pub as_string : Amf0Value → Option (List ℕ)
as_string (string s) = some s
as_string v = none

-- std::get_if<double>
unfoldable pub as_number : Amf0Value → Option ℕ
as_number (number n) = some n
as_number v = none

-- std::get_if<std::shared_ptr<AMF0Object>>
unfoldable pub as_object : Amf0Value → Option Amf0Object
as_object (object o) = some o
as_object v = none

-- What std::get_if finds, or a default.
unfoldable pub value_or {ℓ} : {A : Type ℓ} → A → Option A → A
value_or d none = d
value_or d (some x) = x

unfoldable pub get_string : Amf0Object → List ℕ → List ℕ → List ℕ
unfolding as_string value_or
get_string obj key def = elim (get obj key) [ none ↦ def | some v ↦ value_or def (as_string v) ]

unfoldable pub get_number : Amf0Object → List ℕ → ℕ → ℕ
unfolding as_number value_or
get_number obj key def = elim (get obj key) [ none ↦ def | some v ↦ value_or def (as_number v) ]
