-- ===== src/Network/Calls.antt =====
-- What the calls of the network layer pass on from the protocol, and what they tell the logger.
use omni_socket.Base.{ℕ, Bytes, Option, some, ℤ, ◌≡◌, arith}
use omni_socket.Network.{OmniContext, send_of, recv_of, omni_send, omni_recv}
use omni_socket.Runtime.{World, tick}

module _ {S : Type 0} (ctx : Option (OmniContext S)) (w : World S) where
  pub omni_send_passes :
      (vt_send : World S → Bytes → ℤ × World S) (buf : Bytes)
      → send_of ctx ≡ some vt_send
      → ((omni_send ctx w buf).0 ≡ (vt_send (tick w) buf).0)
        × ((omni_send ctx w buf).1.conn ≡ (vt_send (tick w) buf).1.conn)
  unfolding omni_send
  omni_send_passes vt_send buf e = rw (e, omni_send) (ground arith)

  pub omni_recv_passes :
      (vt_recv : World S → ℕ → ℤ × Bytes × World S) (cap : ℕ)
      → recv_of ctx ≡ some vt_recv
      → ((omni_recv ctx w cap).0 ≡ (vt_recv (tick w) cap).0)
        × ((omni_recv ctx w cap).1 ≡ (vt_recv (tick w) cap).1)
        × ((omni_recv ctx w cap).2.conn ≡ (vt_recv (tick w) cap).2.conn)
  unfolding omni_recv
  omni_recv_passes vt_recv cap e = rw (e, omni_recv) (ground arith)
