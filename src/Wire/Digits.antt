-- ===== src/Wire/Digits.antt =====
-- Lemmas on the bytes of an integer.
use native.Mathlib.Nat.{pow-suc}
use omni_socket.Base.{
  ℕ, zero, suc, ◌/◌, ◌^◌, ◌<◌, ◌≡◌, refl, ap, ap₂, ◌∙◌, [], ◌∷◌, reverse, Bytes, length, arith, All,
}
use omni_socket.Wire.{
  ByteOrder, little, big, omni_bswap64, omni_htonll, bswap32, htonl, le_bytes, le_value, memory_of,
}

abbrev pub IsByte : ℕ → Type 0
IsByte b = b < 256

pub le_bytes-le_value : (bs : Bytes) → All IsByte bs → le_bytes (length bs) (le_value bs) ≡ bs
le_bytes-le_value [] h = refl
le_bytes-le_value (b ∷ bs) h =
    ap₂ ◌∷◌ (omega arith) (ap (le_bytes (length bs)) (omega arith) ∙ le_bytes-le_value bs h.1)

pub le_value-le_bytes : (w x : ℕ) → x < 256 ^ w → le_value (le_bytes w x) ≡ x
le_value-le_bytes zero x h = omega arith
le_value-le_bytes (suc w) x h =
    omega (arith, pow-suc 256 w, le_value-le_bytes w (x / 256) (omega (arith, pow-suc 256 w)))

bswap32-le_value : (x : ℕ) → bswap32 x ≡ le_value (reverse (le_bytes 4 x))
bswap32-le_value x = omega arith

pub bswap64-le_value : (x : ℕ) → omni_bswap64 x ≡ le_value (reverse (le_bytes 8 x))
unfolding omni_bswap64
bswap64-le_value x = omega arith

-- Whatever the host, the swapped value lies in memory highest byte first.
pub memory_of-htonl : (o : ByteOrder) (x : ℕ) → memory_of o 4 (htonl o x) ≡ memory_of big 4 x
unfolding htonl
memory_of-htonl little x =
    ap (le_bytes 4) (bswap32-le_value x) ∙ le_bytes-le_value (reverse (le_bytes 4 x)) (omega arith)
memory_of-htonl big x = refl

pub memory_of-omni_bswap64 : (x : ℕ) → le_bytes 8 (omni_bswap64 x) ≡ reverse (le_bytes 8 x)
memory_of-omni_bswap64 x =
    ap (le_bytes 8) (bswap64-le_value x) ∙ le_bytes-le_value (reverse (le_bytes 8 x)) (omega arith)

pub memory_of-omni_htonll :
    (o : ByteOrder) (x : ℕ) → memory_of o 8 (omni_htonll o x) ≡ memory_of big 8 x
unfolding omni_htonll
memory_of-omni_htonll little x = memory_of-omni_bswap64 x
memory_of-omni_htonll big x = refl
