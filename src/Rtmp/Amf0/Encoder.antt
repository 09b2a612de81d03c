-- ===== src/Rtmp/Amf0/Encoder.antt =====
-- media/rtmp/AMF/AMF0.cpp: AMF0Encoder, whose state is the buffer `m_buf`.
use omega_streamer.Prelude.{ℕ, ◌/◌, ◌%◌, Bool, List, [], ◌∷◌, ◌++◌, length, if◌then◌else◌}
use omega_streamer.Rtmp.Amf0.{
  amf0_number, amf0_boolean, amf0_string, amf0_object, amf0_null, amf0_ecma_array, amf0_object_end,
}

unfoldable pub write_uint8 : List ℕ → ℕ → List ℕ
write_uint8 m_buf val = m_buf ++ (val ∷ [])

unfoldable pub write_uint16_be : List ℕ → ℕ → List ℕ
write_uint16_be m_buf val = m_buf ++ (val / 256 % 256 ∷ val % 256 ∷ [])

unfoldable pub write_uint32_be : List ℕ → ℕ → List ℕ
write_uint32_be m_buf val =
    m_buf ++ (val / 16777216 % 256 ∷ val / 65536 % 256 ∷ val / 256 % 256 ∷ val % 256 ∷ [])

-- The eight bytes of the pattern, from the last in memory to the first.
unfoldable pub write_double : List ℕ → ℕ → List ℕ
unfolding write_uint32_be
write_double m_buf val = write_uint32_be (write_uint32_be m_buf (val / 4294967296)) val

unfoldable pub write_string_data : List ℕ → List ℕ → List ℕ
write_string_data m_buf val = write_uint16_be m_buf (length val % 65536) ++ val

unfoldable pub encode_number : List ℕ → ℕ → List ℕ
encode_number m_buf val = write_double (write_uint8 m_buf amf0_number) val

unfoldable pub encode_boolean : List ℕ → Bool → List ℕ
encode_boolean m_buf val = write_uint8 (write_uint8 m_buf amf0_boolean) (if val then 1 else 0)

unfoldable pub encode_string : List ℕ → List ℕ → List ℕ
encode_string m_buf val = write_string_data (write_uint8 m_buf amf0_string) val

unfoldable pub encode_null : List ℕ → List ℕ
encode_null m_buf = write_uint8 m_buf amf0_null

unfoldable pub encode_object_start : List ℕ → List ℕ
encode_object_start m_buf = write_uint8 m_buf amf0_object

unfoldable pub encode_object_end : List ℕ → List ℕ
encode_object_end m_buf = write_uint8 (write_uint16_be m_buf 0) amf0_object_end

unfoldable pub encode_named_string : List ℕ → List ℕ → List ℕ → List ℕ
encode_named_string m_buf name val = encode_string (write_string_data m_buf name) val

unfoldable pub encode_named_number : List ℕ → List ℕ → ℕ → List ℕ
encode_named_number m_buf name val = encode_number (write_string_data m_buf name) val

unfoldable pub encode_named_boolean : List ℕ → List ℕ → Bool → List ℕ
encode_named_boolean m_buf name val = encode_boolean (write_string_data m_buf name) val

unfoldable pub encode_ecma_array_start : List ℕ → ℕ → List ℕ
encode_ecma_array_start m_buf count = write_uint32_be (write_uint8 m_buf amf0_ecma_array) count
