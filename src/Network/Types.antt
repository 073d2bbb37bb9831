-- ===== src/Network/Types.antt =====
-- include/network.h: the protocols, the roles, and the table of functions of a protocol.
use omni_socket.Base.{ℕ, Bool, Bytes, Option, ℤ}
use omni_socket.Runtime.{World}

pub data OmniProtocol : Type 0 where
  proto_tcp proto_udp proto_kcp : OmniProtocol

pub data OmniRole : Type 0 where
  client server : OmniRole

-- `struct ProtoVTable` over the state `S` of a protocol; `none` is a null pointer. The context that
-- `init` returns is part of `S`, and its answer says whether there is one.
pub record ProtoVTable (S : Type 0) : Type 0 where
  pub init : Option (OmniRole → Option ℕ → ℕ → Option ℕ → ℕ → World S → Bool × World S)
  pub send : Option (World S → Bytes → ℤ × World S)
  pub recv : Option (World S → ℕ → ℤ × Bytes × World S)
  pub close : Option (World S → World S)
