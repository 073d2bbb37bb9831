-- ===== src/App/Messages.antt =====
-- Building and reading the messages of the applications.
use omni_socket.Base.{
  ℕ, ◌+◌, ◌^◌, ◌<◌, ◌≡◌, ap, ap₂, ◌∙◌, sym, ◌++◌, Bytes, length, drop, true, false, ltb, le→ltb,
  arith, drop_of_append, length-append, ◌↔◌, ◌==◌, ==_iff,
}
use omni_socket.App.{decoded, decode_app_message}
use omni_socket.Wire.{ByteOrder, MsgHeader, omni_msg_header_decode, header_of_bytes}
use omni_socket.Wire.RoundTrip.{
  network_header, length-network_header, decode-network_header, header_of_bytes-append,
}

-- A message as it is handed to the protocol.
abbrev pub app_frame : ℕ → ℕ → Bytes → Bytes
app_frame type ts payload = network_header type (length payload) ts ++ payload

pub length-app_frame :
    (type ts : ℕ) (payload : Bytes) → length (app_frame type ts payload) ≡ 16 + length payload
length-app_frame type ts payload =
    length-append (network_header type (length payload) ts) payload
    ∙ ap (λ n. n + length payload) (length-network_header type (length payload) ts)

-- Every message is read back with its type, its length, its timestamp and its payload, on a host of either
-- byte order.
pub decode_app_message-app_frame :
    (o : ByteOrder) (type ts : ℕ) (payload : Bytes)
    → type < 2 ^ 32
    → length payload < 2 ^ 32
    → ts < 2 ^ 64
    → decode_app_message o (app_frame type ts payload)
      ≡ decoded (record { type = type; len = length payload; timestamp = ts }) payload
unfolding decode_app_message
decode_app_message-app_frame o type ts payload ht hl hs =
    let h : omni_msg_header_decode o (header_of_bytes o (app_frame type ts payload))
        ≡ record { type = type; len = length payload; timestamp = ts } =
      ap (omni_msg_header_decode o)
        (header_of_bytes-append o _ payload (length-network_header type (length payload) ts))
      ∙ decode-network_header o type (length payload) ts ht hl hs in
    let long : ltb (length (app_frame type ts payload)) 16 ≡ false =
      le→ltb _ _ (omega (arith, length-app_frame type ts payload)) in
    let fits : (length payload + 16 == length (app_frame type ts payload)) ≡ true =
      (==_iff _ _).1 (omega (arith, length-app_frame type ts payload)) in
    rw (h, long, fits)
      (ap (decoded (record { type = type; len = length payload; timestamp = ts })) (
        drop_of_append (network_header type (length payload) ts) payload 16
          (sym (length-network_header type (length payload) ts))))

-- `decode_app_message` accepts a frame exactly when it holds a header whose length field counts the bytes
-- behind the header; what it then gives out are those bytes.
pub decode_app_message-accepts :
    (o : ByteOrder) (frame : Bytes) (h : MsgHeader) (payload : Bytes)
    → (decode_app_message o frame ≡ decoded h payload) ↔ (
        (h ≡ omni_msg_header_decode o (header_of_bytes o frame))
        × (payload ≡ drop 16 frame)
        × (length frame ≡ 16 + h.len))
unfolding decode_app_message
decode_app_message-accepts o frame h payload = (
  λ e. ground arith,
  λ e.
      let l = ap (λ (m : MsgHeader). m.len) e.0 in
      let long : ltb (length frame) 16 ≡ false = le→ltb _ _ (omega arith) in
      let fits : ((omni_msg_header_decode o (header_of_bytes o frame)).len + 16 == length frame)
          ≡ true =
        (==_iff _ _).1 (omega arith) in
      rw (long, fits) (ap₂ decoded (sym e.0) (sym e.1)),
)
