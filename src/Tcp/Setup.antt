-- ===== src/Tcp/Setup.antt =====
-- src/protocols/tcp_impl.c: creating the connection of either role, and closing it.
use omni_socket.Base.{
  ℕ, ◌||◌, Bool, true, false, not, List, [], ◌∷◌, Option, none, some, ℤ, pos, negsuc, ◌==◌,
  if◌then◌else◌,
}
use omni_socket.Host.{
  Host, addr_of, tcp_nodelay, so_reuseaddr, setsockopt, bind, listen, accept, connect, called,
  calloc, free, new_fd, attempt, close,
}
use omni_socket.Network.Types.{OmniRole, server, client, ProtoVTable}
use omni_socket.Logger.{LogLevel, info, error, message}
use omni_socket.Runtime.{World, logged, all_logged}
use omni_socket.Tcp.{TcpConn, tcp_send, tcp_recv}
use omni_socket.Wire.{ByteOrder}

abbrev pub tcp_set_nodelay : ℕ → Host → Host
tcp_set_nodelay fd h = called (setsockopt fd tcp_nodelay) h

abbrev pub tcp_set_reuseaddr : ℕ → Host → Host
tcp_set_reuseaddr fd h = called (setsockopt fd so_reuseaddr) h

-- The part of `tcp_bind_and_listen` behind `socket`: its last component is what it logs.
abbrev pub listen_on : ℕ → Host → Option ℕ → ℕ → Option ℕ × Host × List LogLevel
listen_on fd h0 bind_ip bind_port =
    let h1 = tcp_set_reuseaddr fd h0 in
    let (bound, h2) = attempt (bind fd (addr_of bind_ip bind_port)) h1 in
    let (listening, h3) = attempt (listen fd 1) h2 in
    let (cfd, h4) = new_fd (called (accept fd) h3) in
    if not bound
    then (none, close fd h2, error ∷ [])
    else if not listening
    then (none, close fd h3, error ∷ [])
    else elim cfd [
      | none ↦ (none, close fd h4, info ∷ error ∷ [])
      | some c ↦ (some c, tcp_set_nodelay c (close fd h4), info ∷ [])
    ]

-- `tcp_bind_and_listen`: the descriptor of the connection for 0, `none` for -1.
unfoldable pub tcp_bind_and_listen : Host → Option ℕ → ℕ → Option ℕ × Host × List LogLevel
tcp_bind_and_listen h bind_ip bind_port =
    let (fd, h0) = new_fd h in
    elim fd [ none ↦ (none, h0, error ∷ []) | some f ↦ listen_on f h0 bind_ip bind_port ]

abbrev pub connect_on : ℕ → Host → Option ℕ → ℕ → Option ℕ × Host × List LogLevel
connect_on fd h0 peer_ip peer_port =
    let (connected, h1) = attempt (connect fd (addr_of peer_ip peer_port)) h0 in
    if not connected
    then (none, close fd h1, error ∷ [])
    else (some fd, tcp_set_nodelay fd h1, info ∷ [])

unfoldable pub tcp_connect_peer : Host → Option ℕ → ℕ → Option ℕ × Host × List LogLevel
tcp_connect_peer h peer_ip peer_port =
    let (fd, h0) = new_fd h in
    elim fd [ none ↦ (none, h0, error ∷ []) | some f ↦ connect_on f h0 peer_ip peer_port ]

abbrev pub with_host : World TcpConn → Host → World TcpConn
with_host w h = record w { conn = record (w.conn) { host = h } }

abbrev pub is_missing : Option ℕ → Bool
is_missing none = true
is_missing (some ip) = false

-- The end of `tcp_init`: the context is kept with its descriptor, or freed.
abbrev pub finish_init : World TcpConn → Option ℕ × Host × List LogLevel → Bool × World TcpConn
finish_init w (none, h, logs) = (false, with_host (all_logged w logs) (free h))
finish_init w (some fd, h, logs) = (
  true,
  record (all_logged w logs) {
    conn = record { ctx = some (record { fd = pos fd }); sock = w.conn.sock; host = h };
  },
)

-- `tcp_init`: whether it returns a context (`false` for NULL), which is then the `ctx` of the world.
unfoldable pub tcp_init :
    OmniRole → Option ℕ → ℕ → Option ℕ → ℕ → World TcpConn → Bool × World TcpConn
tcp_init role bind_ip bind_port peer_ip peer_port w =
    let (allocated, h) = calloc w.conn.host in
    if not allocated then (false, with_host w h) else elim role [
      | server ↦ finish_init w (tcp_bind_and_listen h bind_ip bind_port)
      | client ↦
          if is_missing peer_ip || peer_port == 0
          then (false, logged (with_host w (free h)) (message error))
          else finish_init w (tcp_connect_peer h peer_ip peer_port)
    ]

abbrev pub close_socket : ℤ → Host → Host
close_socket (pos fd) h = close fd h
close_socket (negsuc n) h = h

unfoldable pub tcp_close : World TcpConn → World TcpConn
tcp_close w = elim (w.conn.ctx) [
  | none ↦ w
  | some c ↦ record w {
    conn = record { ctx = none; sock = w.conn.sock; host = free (close_socket c.fd w.conn.host) };
  }
]

-- `TCP_PROTO_VTABLE`
abbrev pub tcp_proto_vtable : ByteOrder → ProtoVTable TcpConn
tcp_proto_vtable o = record {
  init = some tcp_init;
  send = some (tcp_send o);
  recv = some (tcp_recv o);
  close = some tcp_close;
}
