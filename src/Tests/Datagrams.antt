-- ===== src/Tests/Datagrams.antt =====
-- UDP and KCP contexts on concrete networks. The library ikcp is played by a queue that sends everything
-- at each update and counts it.
use omni_socket.Base.{
  Option, ℕ, ◌+◌, ◌≡◌, refl, List, [], ◌∷◌, ◌++◌, Bytes, length, none, some, pos, negsuc, arith,
}
use omni_socket.Datagram.{Arrival, datagram, interrupted, broken}
use omni_socket.Host.{Sockaddr, calloc, new_fd}
use omni_socket.Datagram.{open_socket}
use omni_socket.Kcp.{Ikcp, KcpConn}
use omni_socket.Kcp.Setup.{kcp_init}
use omni_socket.Kcp.Updates.{
  NeverLowers, KcpCall, Exact, reported, made_calls, retransmissions, send, recv,
}
use omni_socket.Echo.{server_loop, client_loop}
use omni_socket.Echo.Client.{addressed, client_loop-GetsBack}
use omni_socket.Echo.Datagrams.{arriving, server_loop-Echoes}
use omni_socket.Network.{OmniContext}
use omni_socket.Network.Select.{Conns}
use omni_socket.Network.Types.{server, proto_udp}
use omni_socket.Runtime.{World}
use omni_socket.Udp.{UdpConn, udp_proto_vtable}
use omni_socket.Udp.Peers.{delivered}
use omni_socket.Tests.Data.{clock, host}

abbrev alice : Sockaddr
alice = record { ip = 1; port = 5000 }

abbrev bob : Sockaddr
bob = record { ip = 2; port = 6000 }

abbrev udp_with : Sockaddr → List Arrival → World UdpConn
udp_with peer arrivals = record {
  conn = record {
    ctx = some (record { fd = pos 3; peer_addr = peer });
    net = record { arrivals = arrivals; refusals = []; sent = [] };
    host = host;
  };
  clock = clock;
  log = [];
}

abbrev udp_closed : World UdpConn
udp_closed = record {
  conn = record {
    ctx = none;
    net = record { arrivals = []; refusals = []; sent = [] };
    host = host;
  };
  clock = clock;
  log = [];
}

abbrev some_arrivals : List Arrival
some_arrivals = interrupted ∷ datagram bob (7 ∷ []) ∷ broken ∷ datagram alice (8 ∷ []) ∷ []

abbrev Queue : Type 0
Queue = List Bytes × ℕ

abbrev queue : Ikcp Queue
queue = record {
  create = λ conv. ([], 0);
  nodelay = λ k a b c d. k;
  wndsize = λ k a b. k;
  update = λ k t. (([], k.1 + length k.0), k.0);
  input = λ k bs. k;
  send = λ k bs. (pos 0, (k.0 ++ bs ∷ [], k.1));
  recv = λ k n. (negsuc 0, [], k);
  xmit = λ k. k.1;
}

abbrev counting : NeverLowers Queue queue
counting = record {
  update_up = λ k t. omega arith;
  input_up = λ k bs. omega arith;
  send_same = λ k bs. refl;
  recv_same = λ k n. refl;
  start_zero = λ conv. refl;
}

abbrev kcp_closed : World (KcpConn Queue)
kcp_closed = record {
  conn = record {
    ctx = none;
    net = record { arrivals = []; refusals = []; sent = [] };
    host = host;
  };
  clock = clock;
  log = [];
}

abbrev some_calls : List KcpCall
some_calls = send (1 ∷ []) ∷ recv 100 ∷ send (2 ∷ 3 ∷ []) ∷ []

retransmissions_example :
    let w0 = (kcp_init queue server none 7000 none 0 kcp_closed).1 in
    Exact queue counting (reported w0) (made_calls queue some_calls w0)
unfolding kcp_init calloc open_socket new_fd
retransmissions_example =
    retransmissions queue counting server none 7000 none 0 kcp_closed some_calls refl

abbrev both_closed : World (Conns Queue)
both_closed = record {
  conn = record {
    tcp = record { ctx = none; sock = record { rx = []; tx = []; sent = [] }; host = host };
    udp = (udp_with alice []).conn;
    kcp = kcp_closed.conn;
  };
  clock = clock;
  log = [];
}

abbrev echo_ctx : Option (OmniContext UdpConn)
echo_ctx = some (record { proto = proto_udp; role = server; vt = some udp_proto_vtable })

abbrev questions : List (Sockaddr × Bytes)
questions = (bob, 1 ∷ 2 ∷ []) ∷ (alice, 3 ∷ []) ∷ []

server_loop-Echoes_example :
    (server_loop echo_ctx proto_udp 2 (udp_with alice (arriving questions))).conn.net.sent
    ≡ [] ++ questions
server_loop-Echoes_example =
    server_loop-Echoes echo_ctx proto_udp refl refl questions (udp_with alice (arriving questions))
      (ground arith)
      (alice, (record { fd = pos 3; peer_addr = alice }, refl, refl, refl), refl, refl)

abbrev client_texts : List Bytes
client_texts = (1 ∷ 2 ∷ []) ∷ (3 ∷ []) ∷ []

abbrev echoing : World UdpConn
echoing = udp_with alice (delivered alice (addressed alice client_texts))

client_loop-GetsBack_example :
    let (j, echoes, w') = client_loop echo_ctx proto_udp client_texts 0 100 echoing in
    (j ≡ 2)
    × (echoes ≡ client_texts)
    × (w'.conn.net.sent ≡ (alice, 1 ∷ 2 ∷ []) ∷ (alice, 3 ∷ []) ∷ [])
client_loop-GetsBack_example =
    client_loop-GetsBack echo_ctx proto_udp refl refl alice client_texts 0 100 echoing
      (ground arith) ((record { fd = pos 3; peer_addr = alice }, refl, refl, refl), refl, refl)
