-- ===== src/Tests/Losses.antt =====
-- A file of three bytes over KCP: the network brings the first message twice, loses the second, and the third comes.
use mathlib.Core.List.{Memᴰ}
use omni_socket.App.{send_app_message}
use omni_socket.App.Messages.{app_frame}
use omni_socket.Base.{
  refl, Option, List, [], ◌∷◌, ◌++◌, Bytes, none, some, pos, true, false, inr, arith,
}
use omni_socket.Client.{transfer, send_loop}
use omni_socket.Datagram.{Arrival, datagram, interrupted, sendto, recvfrom}
use omni_socket.EndToEnd.Beginning.{file_never_wrong_kcp}
use omni_socket.Host.{Sockaddr}
use omni_socket.Kcp.{KcpConn, KcpContext, kcp_send, kcp_recv, kcp_update_loop, kcp_output}
use omni_socket.Kcp.Receives.{OnlySent}
use omni_socket.Kcp.Sends.{received_more}
use omni_socket.Kcp.Setup.{started, kcp_proto_vtable}
use omni_socket.Network.{OmniContext, omni_send}
use omni_socket.Network.Types.{client, server, proto_kcp}
use omni_socket.Runtime.{World}
use omni_socket.Server.{ServerRuntime, recv_thread}
use omni_socket.Server.Beginning.{WroteBeginning}
use omni_socket.Tests.Data.{clock, host}
use omni_socket.Tests.Reliable.{Block, simple, works, numbered, take_in, hand_over, accept}
use omni_socket.Wire.{
  little, big, omni_now_ms, header_to_bytes, omni_msg_header_encode, htonl, omni_htonll,
  omni_bswap64,
}
use omni_socket.Wire.RoundTrip.{network_header}

abbrev alice : Sockaddr
alice = record { ip = 1; port = 5000 }

abbrev bob : Sockaddr
bob = record { ip = 2; port = 6000 }

abbrev context : KcpContext Block
context = record { fd = pos 3; peer_addr = bob; kcp = some (started simple 9); last_xmit = 0 }

abbrev kcp_with : List Arrival → World (KcpConn Block)
kcp_with arrivals = record {
  conn = record {
    ctx = some context;
    net = record { arrivals = arrivals; refusals = []; sent = [] };
    host = host;
  };
  clock = clock;
  log = [];
}

abbrev kcp_client : Option (OmniContext (KcpConn Block))
kcp_client = some (record { proto = proto_kcp; role = client; vt = some (kcp_proto_vtable simple) })

abbrev kcp_server : Option (OmniContext (KcpConn Block))
kcp_server = some (record { proto = proto_kcp; role = server; vt = some (kcp_proto_vtable simple) })

abbrev small_file : Bytes
small_file = 7 ∷ 8 ∷ 9 ∷ []

abbrev lossy : List Arrival
lossy =
    datagram alice (0 ∷ app_frame 1 1250 (7 ∷ 8 ∷ []))
    ∷ interrupted
    ∷ datagram alice (0 ∷ app_frame 1 1250 (7 ∷ 8 ∷ []))
    ∷ datagram alice (2 ∷ app_frame 2 1250 [])
    ∷ []

abbrev idle_server : ServerRuntime
idle_server = record {
  proto = proto_kcp;
  out_fp = record { given = []; flushed = 0; room = none; drains = 1 ∷ 0 ∷ [] };
  running = true;
  transfer_done = false;
  bytes_written = 0;
}

only_sent :
    OnlySent
      (received_more simple
        (100 ∷ [])
        (transfer little kcp_client 2 []
          (record { rest = small_file; broken = false })
          (kcp_with [])).world).conn.net.sent
      lossy
unfolding transfer send_loop send_app_message omni_send kcp_send kcp_recv kcp_update_loop kcp_output
    sendto recvfrom omni_now_ms header_to_bytes omni_msg_header_encode htonl omni_htonll
    omni_bswap64 network_header numbered take_in hand_over accept
only_sent = (
  Memᴰ.head refl,
  (
    Memᴰ.head refl,
    (Memᴰ.tail (Memᴰ.tail (Memᴰ.tail (Memᴰ.tail (Memᴰ.tail (Memᴰ.head refl))))), tt),
  ),
)

file_never_wrong_kcp_example :
    WroteBeginning (small_file ++ []) (recv_thread big kcp_server 5 idle_server (kcp_with lossy)).0
file_never_wrong_kcp_example =
    file_never_wrong_kcp simple 9 works little big kcp_client kcp_server 1 small_file [] false []
      (kcp_with []) (kcp_with lossy) context context (100 ∷ []) idle_server 5 refl refl
      (omega arith) (inr refl) refl refl refl refl refl only_sent refl refl refl
