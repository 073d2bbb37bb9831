-- ===== src/Tests/Data.antt =====
-- Worlds and connections that the examples share.
use omni_socket.Base.{Bytes, List, [], ◌∷◌, Option, none, some, pos}
use omni_socket.Host.{Host}
use omni_socket.Network.{OmniContext}
use omni_socket.Network.Types.{proto_tcp, client, server}
use omni_socket.Runtime.{Clock, World}
use omni_socket.Tcp.{TcpConn}
use omni_socket.Tcp.Setup.{tcp_proto_vtable}
use omni_socket.Tcp.Stream.{RxEvent, TxEvent, arrive}
use omni_socket.Wire.{little, big}

-- A clock that stands at one second and 250 milliseconds.
abbrev pub clock : Clock
clock = record { reading = λ _. record { tv_sec = 1; tv_nsec = 250000000 }; taken = 0 }

abbrev pub host : Host
host = record { next_fd = 3; open_fds = []; blocks = 0; answers = []; calls = [] }

abbrev pub connected : List RxEvent → List TxEvent → World TcpConn
connected rx tx = record {
  conn = record {
    ctx = some (record { fd = pos 3 });
    sock = record { rx = rx; tx = tx; sent = [] };
    host = host;
  };
  clock = clock;
  log = [];
}

abbrev pub unconnected : World TcpConn
unconnected = record {
  conn = record { ctx = none; sock = record { rx = []; tx = []; sent = [] }; host = host };
  clock = clock;
  log = [];
}

abbrev pub client_ctx : Option (OmniContext TcpConn)
client_ctx = some (record { proto = proto_tcp; role = client; vt = some (tcp_proto_vtable little) })

abbrev pub server_ctx : Option (OmniContext TcpConn)
server_ctx = some (record { proto = proto_tcp; role = server; vt = some (tcp_proto_vtable big) })

-- The three frames of that transfer.
abbrev pub first_frame : Bytes
first_frame =
    0 ∷ 0 ∷ 0 ∷ 100 ∷ 0 ∷ 0 ∷ 0 ∷ 18 ∷ 0 ∷ 0 ∷ 0 ∷ 0 ∷ 0 ∷ 0 ∷ 4 ∷ 226 ∷ 0 ∷ 0 ∷ 0 ∷ 1 ∷ 0 ∷ 0 ∷ 0
    ∷ 2 ∷ 0 ∷ 0 ∷ 0 ∷ 0 ∷ 0 ∷ 0 ∷ 4 ∷ 226 ∷ 7 ∷ 8 ∷ []

abbrev pub second_frame : Bytes
second_frame =
    0 ∷ 0 ∷ 0 ∷ 100 ∷ 0 ∷ 0 ∷ 0 ∷ 17 ∷ 0 ∷ 0 ∷ 0 ∷ 0 ∷ 0 ∷ 0 ∷ 4 ∷ 226 ∷ 0 ∷ 0 ∷ 0 ∷ 1 ∷ 0 ∷ 0 ∷ 0
    ∷ 1 ∷ 0 ∷ 0 ∷ 0 ∷ 0 ∷ 0 ∷ 0 ∷ 4 ∷ 226 ∷ 9 ∷ []

abbrev pub end_frame : Bytes
end_frame =
    0 ∷ 0 ∷ 0 ∷ 100 ∷ 0 ∷ 0 ∷ 0 ∷ 16 ∷ 0 ∷ 0 ∷ 0 ∷ 0 ∷ 0 ∷ 0 ∷ 4 ∷ 226 ∷ 0 ∷ 0 ∷ 0 ∷ 2 ∷ 0 ∷ 0 ∷ 0
    ∷ 0 ∷ 0 ∷ 0 ∷ 0 ∷ 0 ∷ 0 ∷ 0 ∷ 4 ∷ 226 ∷ []

-- The same bytes in five segments, with an interrupted call between them.
abbrev pub segments : List RxEvent
segments =
    arrive 0 ([])
    ∷ RxEvent.interrupted
    ∷ arrive 0 (0 ∷ 100 ∷ 0 ∷ 0 ∷ 0 ∷ 18 ∷ 0 ∷ 0 ∷ 0 ∷ 0 ∷ 0 ∷ 0 ∷ 4 ∷ 226 ∷ 0 ∷ 0 ∷ 0 ∷ 1 ∷ [])
    ∷ arrive 0 (0 ∷ 0 ∷ 2 ∷ 0 ∷ 0 ∷ 0 ∷ 0 ∷ 0 ∷ 0 ∷ 4 ∷ 226 ∷ 7 ∷ [])
    ∷ arrive 8 (
        0 ∷ 0 ∷ 0 ∷ 100 ∷ 0 ∷ 0 ∷ 0 ∷ 17 ∷ 0 ∷ 0 ∷ 0 ∷ 0 ∷ 0 ∷ 0 ∷ 4 ∷ 226 ∷ 0 ∷ 0 ∷ 0 ∷ 1 ∷ 0 ∷ 0
        ∷ 0 ∷ 1 ∷ 0 ∷ 0 ∷ 0 ∷ 0 ∷ 0 ∷ 0 ∷ 4 ∷ 226 ∷ 9 ∷ 0 ∷ 0 ∷ 0 ∷ [])
    ∷ arrive 100 (
        0 ∷ 0 ∷ 0 ∷ 16 ∷ 0 ∷ 0 ∷ 0 ∷ 0 ∷ 0 ∷ 0 ∷ 4 ∷ 226 ∷ 0 ∷ 0 ∷ 0 ∷ 2 ∷ 0 ∷ 0 ∷ 0 ∷ 0 ∷ 0 ∷ 0 ∷ 0
        ∷ 0 ∷ 0 ∷ 0 ∷ 4 ∷ 226 ∷ [])
    ∷ []
