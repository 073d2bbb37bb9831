-- ===== src/Udp.antt =====
-- src/protocols/udp_impl.c: one datagram for each call, to the peer that was configured or that sent last.
pub mod Peers
pub mod Channel
pub mod Leaks
use omni_socket.Base.{
  ℕ, Bool, true, false, not, List, [], Bytes, length, Option, none, some, ℤ, pos, negsuc,
  is_negative, if◌then◌else◌,
}
use omni_socket.Datagram.{Datagrams, Received, eintr, fault, from, sendto, recvfrom, open_socket}
use omni_socket.Host.{Host, Sockaddr, addr_of, calloc, free, close}
use omni_socket.Logger.{LogLevel, message}
use omni_socket.Network.Types.{OmniRole, ProtoVTable}
use omni_socket.Runtime.{World, logged}
use omni_socket.Wire.{omni_err_param, omni_err_io}

-- `struct UdpContext`; `peer_len` is the size of the address, always.
pub record UdpContext : Type 0 where
  pub fd : ℤ
  pub peer_addr : Sockaddr

-- The pointer to the context (`none` is NULL), the kernel's side of its socket, and the process.
pub record UdpConn : Type 0 where
  pub ctx : Option UdpContext
  pub net : Datagrams
  pub host : Host

abbrev pub with_host : World UdpConn → Host → World UdpConn
with_host w h = record w { conn = record (w.conn) { host = h } }

abbrev pub with_net : World UdpConn → Datagrams → World UdpConn
with_net w s = record w { conn = record (w.conn) { net = s } }

-- The end of `udp_init`: the context is filled, or freed.
abbrev pub finish_init : World UdpConn → Option ℕ → ℕ → Option ℕ × Host → Bool × World UdpConn
finish_init w peer_ip peer_port (none, h) =
    (false, logged (with_host w (free h)) (message LogLevel.error))
finish_init w peer_ip peer_port (some fd, h) = (
  true,
  logged
      (record w {
        conn = record {
          ctx = some (record { fd = pos fd; peer_addr = addr_of peer_ip peer_port });
          net = w.conn.net;
          host = h;
        };
      })
      (message LogLevel.info),
)

-- `udp_init`: whether it returns a context (`false` for NULL), which is then the `ctx` of the world.
unfoldable pub udp_init :
    OmniRole → Option ℕ → ℕ → Option ℕ → ℕ → World UdpConn → Bool × World UdpConn
udp_init role bind_ip bind_port peer_ip peer_port w =
    let (allocated, h) = calloc w.conn.host in
    if not allocated
    then (false, with_host w h)
    else finish_init w peer_ip peer_port (open_socket h bind_ip bind_port)

unfoldable pub udp_send : World UdpConn → Bytes → ℤ × World UdpConn
udp_send w buf = elim (w.conn.ctx) [
  | none ↦ (omni_err_param, w)
  | some c ↦
      let (done, s) = sendto w.conn.net c.peer_addr buf in
      if is_negative c.fd
      then (omni_err_param, w)
      else if done
      then (pos (length buf), with_net w s)
      else (omni_err_io, logged (with_net w s) (message LogLevel.error))
]

-- A datagram that arrived makes its sender the peer.
abbrev pub arrived : World UdpConn → UdpContext → Received × Datagrams → ℤ × Bytes × World UdpConn
arrived w c (eintr, s) = (pos 0, [], with_net w s)
arrived w c (fault, s) = (omni_err_io, [], logged (with_net w s) (message LogLevel.error))
arrived w c (from a got, s) = (
  pos (length got),
  got,
  record w {
    conn = record { ctx = some (record c { peer_addr = a }); net = s; host = w.conn.host };
  },
)

-- `udp_recv` with a buffer of `cap` bytes: the result, what was written to the buffer, the world.
unfoldable pub udp_recv : World UdpConn → ℕ → ℤ × Bytes × World UdpConn
udp_recv w cap = elim (w.conn.ctx) [
  | none ↦ (omni_err_param, [], w)
  | some c ↦
      if is_negative c.fd then (omni_err_param, [], w) else arrived w c (recvfrom w.conn.net cap)
]

abbrev pub close_socket : ℤ → Host → Host
close_socket (pos fd) h = close fd h
close_socket (negsuc n) h = h

unfoldable pub udp_close : World UdpConn → World UdpConn
udp_close w = elim (w.conn.ctx) [
  | none ↦ w
  | some c ↦ record w {
    conn = record { ctx = none; net = w.conn.net; host = free (close_socket c.fd w.conn.host) };
  }
]

-- `UDP_PROTO_VTABLE`
abbrev pub udp_proto_vtable : ProtoVTable UdpConn
udp_proto_vtable = record {
  init = some udp_init;
  send = some udp_send;
  recv = some udp_recv;
  close = some udp_close;
}
