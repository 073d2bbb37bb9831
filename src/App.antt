-- ===== src/App.antt =====
-- The messages of the applications: src/apps/client_main.c and src/apps/server_main.c hold the same
-- `send_app_message` and `decode_app_message`.
pub mod Channel
pub mod Feed
pub mod Messages
pub mod FileStream
pub mod Lines
pub mod Numbers
pub mod Options
use omni_socket.Base.{
  ℕ, ◌+◌, Bool, not, Bytes, ◌++◌, length, take, drop, Option, none, some, ℤ, pos, eqb_ℤ, ltb, ◌==◌,
  if◌then◌else◌,
}
use omni_socket.Logger.{LogLevel, message}
use omni_socket.Network.{OmniContext, omni_send}
use omni_socket.Network.Types.{OmniProtocol, proto_tcp, proto_udp, proto_kcp}
use omni_socket.Runtime.{World, now, tick, logged}
use omni_socket.Wire.{
  ByteOrder, MsgHeader, msg_header_size, omni_ok, omni_err_generic, omni_err_param, omni_err_io,
  omni_msg_header_encode, omni_msg_header_decode, header_to_bytes, header_of_bytes,
}

-- `send_app_message`; `payload_len` is the length of `payload`, and `allocated` says whether `malloc`
-- gives the frame.
unfoldable pub send_app_message :
    {S : Type 0} → ByteOrder → Bool → Option (OmniContext S) → ℕ → Bytes → World S → ℤ × World S
send_app_message o allocated ctx type payload w =
    let hdr = omni_msg_header_encode o type (length payload) (now w) in
    let frame = header_to_bytes o hdr ++ payload in
    let (n, w1) = omni_send ctx (tick w) frame in
    if not allocated
    then (omni_err_generic, logged w (message LogLevel.error))
    else if not (eqb_ℤ n (pos (msg_header_size + length payload)))
    then (omni_err_io, logged w1 (message LogLevel.error))
    else (omni_ok, w1)

-- What `decode_app_message` returns: an error code, or the header in host order and the payload.
pub data Decoded : Type 0 where
  refused : ℤ → Decoded
  decoded : MsgHeader → Bytes → Decoded

-- `decode_app_message` on the first `frame_len` bytes of the buffer, which are `frame`.
unfoldable pub decode_app_message : ByteOrder → Bytes → Decoded
decode_app_message o frame =
    let hdr = omni_msg_header_decode o (header_of_bytes o frame) in
    if ltb (length frame) msg_header_size
    then refused omni_err_param
    else if not (hdr.len + msg_header_size == length frame)
    then refused omni_err_io
    else decoded hdr (drop msg_header_size frame)
