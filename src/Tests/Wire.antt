-- ===== src/Tests/Wire.antt =====
-- Headers and messages at concrete values.
use omni_socket.App.{decoded, decode_app_message, refused}
use omni_socket.App.Messages.{decode_app_message-accepts}
use omni_socket.Base.{◌+◌, ◌≡◌, ◌↔◌, refl, Bytes, [], ◌∷◌, arith, length, drop}
use omni_socket.Wire.{
  little, big, omni_msg_header_encode, omni_msg_header_decode, header_to_bytes, header_of_bytes,
  htonl, omni_htonll, omni_ntohll, omni_bswap64, omni_err_param, omni_err_io,
}
use omni_socket.Wire.RoundTrip.{decode-encode}

decode-encode_example :
    omni_msg_header_decode big (
      header_of_bytes big
        (header_to_bytes little (omni_msg_header_encode little 1 1400 0x0102_0304_0506)))
    ≡ record { type = 1; len = 1400; timestamp = 0x0102_0304_0506 }
decode-encode_example =
    decode-encode little big 1 1400 0x0102_0304_0506 (omega arith) (omega arith) (omega arith)

encode_little :
    header_to_bytes little (omni_msg_header_encode little 1 1400 0x0102_0304_0506)
    ≡ 0 ∷ 0 ∷ 0 ∷ 1 ∷ 0 ∷ 0 ∷ 5 ∷ 120 ∷ 0 ∷ 0 ∷ 1 ∷ 2 ∷ 3 ∷ 4 ∷ 5 ∷ 6 ∷ []
unfolding header_to_bytes omni_msg_header_encode htonl omni_htonll omni_bswap64
encode_little = refl

-- Too short for a header, and a length that does not fit.
refusals :
    (decode_app_message little (1 ∷ 2 ∷ []) ≡ refused omni_err_param)
    × (decode_app_message little
          (0 ∷ 0 ∷ 0 ∷ 1 ∷ 0 ∷ 0 ∷ 0 ∷ 9 ∷ 0 ∷ 0 ∷ 0 ∷ 0 ∷ 0 ∷ 0 ∷ 0 ∷ 0 ∷ 7 ∷ [])
        ≡ refused omni_err_io)
unfolding decode_app_message header_of_bytes omni_msg_header_decode htonl omni_ntohll omni_htonll
    omni_bswap64
refusals = (refl, refl)

abbrev greeting : Bytes
greeting = 0 ∷ 0 ∷ 0 ∷ 3 ∷ 0 ∷ 0 ∷ 0 ∷ 2 ∷ 0 ∷ 0 ∷ 0 ∷ 0 ∷ 0 ∷ 0 ∷ 0 ∷ 9 ∷ 104 ∷ 105 ∷ []

decode_app_message-accepts_example :
    (decode_app_message little greeting
      ≡ decoded (record { type = 3; len = 2; timestamp = 9 }) (104 ∷ 105 ∷ []))
    ↔ ((record { type = 3; len = 2; timestamp = 9 }
          ≡ omni_msg_header_decode little (header_of_bytes little greeting))
        × (104 ∷ 105 ∷ [] ≡ drop 16 greeting)
        × (length greeting ≡ 16 + 2))
decode_app_message-accepts_example =
    decode_app_message-accepts little greeting (record { type = 3; len = 2; timestamp = 9 })
      (104 ∷ 105 ∷ [])
