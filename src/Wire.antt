-- ===== src/Wire.antt =====
-- include/common.h: the 16-byte message header, its byte order on the wire, the message types and
-- the error codes, and the millisecond clock.
pub mod Digits
pub mod RoundTrip
use omni_socket.Base.{
  ℕ, zero, suc, ◌+◌, ◌*◌, ◌/◌, ◌%◌, ◌^◌, List, [], ◌∷◌, ◌++◌, reverse, Bytes, take, drop, ℤ, pos,
  negsuc,
}

-- `MsgHeader`: two uint32_t and a uint64_t, with no padding between them.
pub record MsgHeader : Type 0 where
  pub type : ℕ
  pub len : ℕ
  pub timestamp : ℕ

-- `MSG_HEADER_SIZE`
abbrev pub msg_header_size : ℕ
msg_header_size = 16

abbrev pub msg_type_file_chunk : ℕ
msg_type_file_chunk = 1

abbrev pub msg_type_file_end : ℕ
msg_type_file_end = 2

abbrev pub msg_type_command : ℕ
msg_type_command = 3

abbrev pub msg_type_raw : ℕ
msg_type_raw = 100

abbrev pub omni_default_mtu : ℕ
omni_default_mtu = 1400

abbrev pub omni_ok : ℤ
omni_ok = pos 0

abbrev pub omni_err_generic : ℤ
omni_err_generic = negsuc 0

abbrev pub omni_err_param : ℤ
omni_err_param = negsuc 1

abbrev pub omni_err_io : ℤ
omni_err_io = negsuc 2

-- A reading of CLOCK_MONOTONIC.
pub record Timespec : Type 0 where
  pub tv_sec : ℕ
  pub tv_nsec : ℕ

-- `omni_now_ms`, as a function of the reading.
unfoldable pub omni_now_ms : Timespec → ℕ
omni_now_ms ts = (ts.tv_sec * 1000 + ts.tv_nsec / 1000000) % 2 ^ 64

-- `__BYTE_ORDER__` of the host.
pub data ByteOrder : Type 0 where
  little big : ByteOrder

-- `x & (0xFF << k)`
abbrev pub byte_at : ℕ → ℕ → ℕ
byte_at x k = x / 2 ^ k % 256 * 2 ^ k

-- `omni_bswap64`. The operands of each `|` have no bit in common, so it is `+`; `y << k` stays
-- below 2 ^ 64 and is `y * 2 ^ k`; `y >> k` is `y / 2 ^ k`.
unfoldable pub omni_bswap64 : ℕ → ℕ
omni_bswap64 x =
    byte_at x 0 * 2 ^ 56
    + byte_at x 8 * 2 ^ 40
    + byte_at x 16 * 2 ^ 24
    + byte_at x 24 * 2 ^ 8
    + byte_at x 32 / 2 ^ 8
    + byte_at x 40 / 2 ^ 24
    + byte_at x 48 / 2 ^ 40
    + byte_at x 56 / 2 ^ 56

unfoldable pub omni_htonll : ByteOrder → ℕ → ℕ
omni_htonll little x = omni_bswap64 x
omni_htonll big x = x

unfoldable pub omni_ntohll : ByteOrder → ℕ → ℕ
omni_ntohll o x = omni_htonll o x

-- The C library's `htonl` and `ntohl`: on a little-endian host the four bytes change places.
abbrev pub bswap32 : ℕ → ℕ
bswap32 x =
    x % 256 * 2 ^ 24 + x / 2 ^ 8 % 256 * 2 ^ 16 + x / 2 ^ 16 % 256 * 2 ^ 8 + x / 2 ^ 24 % 256

unfoldable pub htonl : ByteOrder → ℕ → ℕ
htonl little x = bswap32 x
htonl big x = x

unfoldable pub omni_msg_header_encode : ByteOrder → ℕ → ℕ → ℕ → MsgHeader
omni_msg_header_encode o type len timestamp_ms = record {
  type = htonl o type;
  len = htonl o len;
  timestamp = omni_htonll o timestamp_ms;
}

unfoldable pub omni_msg_header_decode : ByteOrder → MsgHeader → MsgHeader
omni_msg_header_decode o net_hdr = record {
  type = htonl o net_hdr.type;
  len = htonl o net_hdr.len;
  timestamp = omni_ntohll o net_hdr.timestamp;
}

-- The bytes of a w-byte unsigned integer, lowest first, and back.
abbrev pub le_bytes : ℕ → ℕ → Bytes
le_bytes zero x = []
le_bytes (suc w) x = (x % 256) ∷ le_bytes w (x / 256)

abbrev pub le_value : Bytes → ℕ
le_value [] = 0
le_value (b ∷ bs) = b + le_value bs * 256

-- The integer as it lies in memory on a host of that byte order, and back.
abbrev pub memory_of : ByteOrder → ℕ → ℕ → Bytes
memory_of little w x = le_bytes w x
memory_of big w x = reverse (le_bytes w x)

abbrev pub value_of : ByteOrder → Bytes → ℕ
value_of little bs = le_value bs
value_of big bs = le_value (reverse bs)

-- `memcpy(buf, &hdr, MSG_HEADER_SIZE)` and `memcpy(&hdr, buf, MSG_HEADER_SIZE)`.
unfoldable pub header_to_bytes : ByteOrder → MsgHeader → Bytes
header_to_bytes o h = memory_of o 4 h.type ++ (memory_of o 4 h.len ++ memory_of o 8 h.timestamp)

unfoldable pub header_of_bytes : ByteOrder → Bytes → MsgHeader
header_of_bytes o bs = record {
  type = value_of o (take 4 bs);
  len = value_of o (take 4 (drop 4 bs));
  timestamp = value_of o (take 8 (drop 8 bs));
}
