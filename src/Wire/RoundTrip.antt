-- ===== src/Wire/RoundTrip.antt =====
-- The header's bytes do not depend on the host's byte order, and are read back on any host.
use omni_socket.Base.{
  ℕ, ◌^◌, ◌<◌, ◌≡◌, refl, ap, ap₂, ◌∙◌, sym, ◌++◌, reverse, Bytes, length, take, drop, take_within,
  drop_within, length-drop, arith,
}
use omni_socket.Wire.{
  ByteOrder, little, big, omni_bswap64, omni_htonll, omni_ntohll, htonl, omni_msg_header_encode,
  omni_msg_header_decode, le_value, memory_of, value_of, header_to_bytes, header_of_bytes,
}
use omni_socket.Wire.Digits.{
  memory_of-htonl, memory_of-omni_htonll, memory_of-omni_bswap64, bswap64-le_value,
  le_value-le_bytes,
}

-- The header that the wire carries, in network byte order.
unfoldable pub network_header : ℕ → ℕ → ℕ → Bytes
network_header type len ts = memory_of big 4 type ++ (memory_of big 4 len ++ memory_of big 8 ts)

pub omni_bswap64_involutive : (x : ℕ) → x < 2 ^ 64 → omni_bswap64 (omni_bswap64 x) ≡ x
omni_bswap64_involutive x h =
    bswap64-le_value (omni_bswap64 x)
    ∙ ap (λ bs. le_value (reverse bs)) (memory_of-omni_bswap64 x)
    ∙ le_value-le_bytes 8 x h

pub header_to_bytes-encode :
    (o : ByteOrder) (type len ts : ℕ)
    → header_to_bytes o (omni_msg_header_encode o type len ts) ≡ network_header type len ts
unfolding header_to_bytes omni_msg_header_encode network_header
header_to_bytes-encode o type len ts =
    ap₂ ◌++◌ (memory_of-htonl o type)
      (ap₂ ◌++◌ (memory_of-htonl o len) (memory_of-omni_htonll o ts))

pub length-network_header : (type len ts : ℕ) → length (network_header type len ts) ≡ 16
unfolding network_header
length-network_header type len ts = refl

htonl-value_of : (o : ByteOrder) (x : ℕ) → x < 2 ^ 32 → htonl o (value_of o (memory_of big 4 x)) ≡ x
unfolding htonl
htonl-value_of little x h = omega arith
htonl-value_of big x h = omega arith

omni_ntohll-value_of :
    (o : ByteOrder) (x : ℕ) → x < 2 ^ 64 → omni_ntohll o (value_of o (memory_of big 8 x)) ≡ x
unfolding omni_ntohll omni_htonll
omni_ntohll-value_of little x h =
    ap omni_bswap64 (sym (bswap64-le_value x)) ∙ omni_bswap64_involutive x h
omni_ntohll-value_of big x h = omega arith

pub decode-network_header :
    (o : ByteOrder) (type len ts : ℕ)
    → type < 2 ^ 32
    → len < 2 ^ 32
    → ts < 2 ^ 64
    → omni_msg_header_decode o (header_of_bytes o (network_header type len ts))
      ≡ record { type = type; len = len; timestamp = ts }
unfolding omni_msg_header_decode header_of_bytes network_header
decode-network_header o type len ts ht hl hs = λ i. record {
  type = htonl-value_of o type ht i;
  len = htonl-value_of o len hl i;
  timestamp = omni_ntohll-value_of o ts hs i;
}

-- A header encoded on a host of one byte order and copied to bytes is read back unchanged on a host of any
-- byte order, for fields in the range of their types.
pub decode-encode :
    (a b : ByteOrder) (type len ts : ℕ)
    → type < 2 ^ 32
    → len < 2 ^ 32
    → ts < 2 ^ 64
    → omni_msg_header_decode b
        (header_of_bytes b (header_to_bytes a (omni_msg_header_encode a type len ts)))
      ≡ record { type = type; len = len; timestamp = ts }
decode-encode a b type len ts ht hl hs =
    ap (λ bs. omni_msg_header_decode b (header_of_bytes b bs))
      (header_to_bytes-encode a type len ts)
    ∙ decode-network_header b type len ts ht hl hs

-- Bytes behind the header do not matter.
pub header_of_bytes-append :
    (o : ByteOrder) (hdr rest : Bytes)
    → length hdr ≡ 16
    → header_of_bytes o (hdr ++ rest) ≡ header_of_bytes o hdr
unfolding header_of_bytes
header_of_bytes-append o hdr rest e = λ i. record {
  type = value_of o (take_within hdr rest 4 (omega arith) i);
  len = value_of o (
      (ap (take 4) (drop_within hdr rest 4 (omega arith))
          ∙ take_within (drop 4 hdr) rest 4 (omega (arith, length-drop 4 hdr)))
        i);
  timestamp = value_of o (
      (ap (take 8) (drop_within hdr rest 8 (omega arith))
          ∙ take_within (drop 8 hdr) rest 8 (omega (arith, length-drop 8 hdr)))
        i);
}
