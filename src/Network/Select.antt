-- ===== src/Network/Select.antt =====
-- src/core/network.c: `select_vtable`, on a state that has a part for each protocol.
use omni_socket.Base.{ℕ, Bool, Bytes, Option, none, some, ℤ}
use omni_socket.Kcp.{Ikcp, KcpConn}
use omni_socket.Kcp.Setup.{kcp_proto_vtable}
use omni_socket.Network.Types.{OmniProtocol, OmniRole, ProtoVTable, proto_tcp, proto_udp, proto_kcp}
use omni_socket.Runtime.{World}
use omni_socket.Tcp.{TcpConn}
use omni_socket.Tcp.Setup.{tcp_proto_vtable}
use omni_socket.Udp.{UdpConn, udp_proto_vtable}
use omni_socket.Wire.{ByteOrder}

pub record Conns (K : Type 0) : Type 0 where
  pub tcp : TcpConn
  pub udp : UdpConn
  pub kcp : KcpConn K

module _ {T S : Type 0} (get : T → S) (put : T → S → T) where
  -- The world as the functions of one protocol see it, and what they make of the whole.
  abbrev pub narrowed : World T → World S
  narrowed w = record { conn = get w.conn; clock = w.clock; log = w.log }

  abbrev pub widened : World T → World S → World T
  widened w v = record { conn = put w.conn v.conn; clock = v.clock; log = v.log }

  abbrev pub lift_init :
      Option (OmniRole → Option ℕ → ℕ → Option ℕ → ℕ → World S → Bool × World S)
      → Option (OmniRole → Option ℕ → ℕ → Option ℕ → ℕ → World T → Bool × World T)
  lift_init none = none
  lift_init (some f) =
      some λ role a b c d w. let (made, v) = f role a b c d (narrowed w) in (made, widened w v)

  abbrev pub lift_send :
      Option (World S → Bytes → ℤ × World S) → Option (World T → Bytes → ℤ × World T)
  lift_send none = none
  lift_send (some f) = some λ w buf. let (n, v) = f (narrowed w) buf in (n, widened w v)

  abbrev pub lift_recv :
      Option (World S → ℕ → ℤ × Bytes × World S) → Option (World T → ℕ → ℤ × Bytes × World T)
  lift_recv none = none
  lift_recv (some f) = some λ w cap. let (n, got, v) = f (narrowed w) cap in (n, got, widened w v)

  abbrev pub lift_close : Option (World S → World S) → Option (World T → World T)
  lift_close none = none
  lift_close (some f) = some λ w. widened w (f (narrowed w))

  abbrev pub lifted : ProtoVTable S → ProtoVTable T
  lifted vt = record {
    init = lift_init vt.init;
    send = lift_send vt.send;
    recv = lift_recv vt.recv;
    close = lift_close vt.close;
  }

module _ {K : Type 0} (o : ByteOrder) (lib : Ikcp K) where
  abbrev pub with_tcp : Conns K → TcpConn → Conns K
  with_tcp c s = record c { tcp = s }

  abbrev pub with_udp : Conns K → UdpConn → Conns K
  with_udp c s = record c { udp = s }

  abbrev pub with_kcp : Conns K → KcpConn K → Conns K
  with_kcp c s = record c { kcp = s }

  -- `select_vtable`; a value that is no protocol has no place in the enumeration.
  unfoldable pub select_vtable : OmniProtocol → Option (ProtoVTable (Conns K))
  select_vtable proto_tcp = some (lifted (λ c. c.tcp) with_tcp (tcp_proto_vtable o))
  select_vtable proto_udp = some (lifted (λ c. c.udp) with_udp udp_proto_vtable)
  select_vtable proto_kcp = some (lifted (λ c. c.kcp) with_kcp (kcp_proto_vtable lib))
