-- ===== src/Tests/Tcp.antt =====
-- The stream of a TCP connection at concrete events.
use omni_socket.Base.{
  ◌≡◌, refl, Bool, true, none, some, pos, [], ◌∷◌, ◌++◌, arith, if◌then◌else◌, ◌==◌,
}
use omni_socket.Network.Types.{server}
use omni_socket.Runtime.{World, now}
use omni_socket.Tcp.{TcpConn, tcp_send, tcp_recv}
use omni_socket.Tcp.Leaks.{Acquired, tcp_init-Acquired}
use omni_socket.Tcp.Receives.{tcp_recv-frame, tcp_recv-cut}
use omni_socket.Tcp.Sends.{tcp_frame, tcp_send-frame}
use omni_socket.Tcp.Setup.{tcp_init}
use omni_socket.Tcp.Stream.{RxEvent, TxEvent, arrive, room, Socket, RxClean, TxClean, payload}
use omni_socket.Tests.Data.{connected, unconnected}
use omni_socket.Wire.{little, omni_err_io}
use omni_socket.Wire.RoundTrip.{network_header}

abbrev two_segments : Socket
two_segments = record {
  rx = arrive 1 (2 ∷ []) ∷ RxEvent.interrupted ∷ arrive 3 (4 ∷ 5 ∷ []) ∷ [];
  tx = [];
  sent = [];
}

abbrev short_writes : World TcpConn
short_writes = connected [] (room 9 ∷ TxEvent.interrupted ∷ [])

tcp_send-frame_example :
    let (r, w) = tcp_send little short_writes (7 ∷ 8 ∷ []) in
    (r ≡ pos 2)
    × (w.conn.sock.sent ≡ [] ++ tcp_frame (now short_writes) (7 ∷ 8 ∷ []))
    × (w.conn.sock.rx ≡ [])
    × TxClean w.conn.sock.tx
    × (w.conn.ctx ≡ some (record { fd = pos 3 }))
tcp_send-frame_example = tcp_send-frame little short_writes (7 ∷ 8 ∷ []) refl tt

abbrev broken_write : World TcpConn
broken_write = connected [] (room 9 ∷ TxEvent.broken ∷ [])

-- A frame of two bytes of payload and type 100, stamped 1250, and a byte behind it.
abbrev frame_and_more : World TcpConn
frame_and_more =
    connected
      (arrive 0 (0 ∷ 0 ∷ 100 ∷ 0 ∷ 0 ∷ [])
        ∷ RxEvent.interrupted
        ∷ arrive 0 (2 ∷ 0 ∷ 0 ∷ 0 ∷ 0 ∷ 0 ∷ 0 ∷ 4 ∷ 226 ∷ 7 ∷ [])
        ∷ arrive 8 (9 ∷ [])
        ∷ [])
      []

tcp_recv-frame_example :
    let (r, got, w) = tcp_recv little frame_and_more 4 in
    (r ≡ pos 2)
    × (got ≡ 7 ∷ 8 ∷ [])
    × (payload w.conn.sock.rx ≡ 9 ∷ [])
    × RxClean w.conn.sock.rx
    × (w.conn.sock.sent ≡ [])
    × (w.conn.ctx ≡ some (record { fd = pos 3 }))
unfolding network_header
tcp_recv-frame_example =
    tcp_recv-frame little frame_and_more 4 100 1250 (7 ∷ 8 ∷ []) refl tt (omega arith) (omega arith)
      (omega arith) (9 ∷ []) refl (omega arith)

abbrev cut_header : World TcpConn
cut_header = connected (arrive 0 (0 ∷ 0 ∷ 100 ∷ 0 ∷ 0 ∷ []) ∷ []) []

tcp_recv-cut_example : (tcp_recv little cut_header 4).0 ≡ (if 6 == 0 then pos 0 else omni_err_io)
unfolding network_header
tcp_recv-cut_example =
    tcp_recv-cut little cut_header 4 100 1250 (7 ∷ 8 ∷ []) refl tt (omega arith) (omega arith)
      (omega arith) 6 refl (omega arith) (omega arith)

-- The fourth call, `listen`, fails.
abbrev no_listen : World TcpConn
no_listen = record unconnected {
  conn = record (unconnected.conn) {
    host = record (unconnected.conn.host) { answers = true ∷ true ∷ true ∷ Bool.false ∷ [] };
  };
}

tcp_init-Acquired_example : Acquired server no_listen (tcp_init server none 9000 none 0 no_listen)
tcp_init-Acquired_example = tcp_init-Acquired server none 9000 none 0 no_listen
