-- ===== src/Tests/Channel.antt =====
-- A file of three bytes over UDP, in chunks of two.
use omni_socket.Base.{
  RunsTo, ℕ, ◌≡◌, refl, List, [], ◌∷◌, Bytes, Option, some, none, pos, true, false, arith,
}
use omni_socket.Client.{transfer}
use omni_socket.Datagram.{Arrival, datagram, interrupted, broken}
use omni_socket.App.{decode_app_message}
use omni_socket.App.Messages.{app_frame}
use omni_socket.Server.Process.{started, testing, step}
use omni_socket.Server.Process.Enabled.{enabled}
use omni_socket.Server.Process.Refinement.{thread_events, at, place, recv_thread-RunsTo}
use omni_socket.Server.AnyInput.{recv_thread-chunks}
use omni_socket.Wire.RoundTrip.{network_header}
use omni_socket.EndToEnd.Channel.{file_arrives_udp}
use omni_socket.Host.{Sockaddr}
use omni_socket.Network.{OmniContext}
use omni_socket.Network.Types.{client, server, proto_udp}
use omni_socket.Runtime.{World}
use omni_socket.Server.{content, fflush, ServerRuntime, recv_thread}
use omni_socket.Tests.Data.{clock, host}
use omni_socket.Udp.{UdpConn, udp_proto_vtable}
use omni_socket.Udp.Channel.{arriving}
use omni_socket.Udp.Peers.{delivered}
use omni_socket.Wire.{little, big, omni_msg_header_decode, htonl, header_of_bytes}

abbrev alice : Sockaddr
alice = record { ip = 1; port = 5000 }

abbrev bob : Sockaddr
bob = record { ip = 2; port = 6000 }

abbrev udp_with : Sockaddr → List Arrival → World UdpConn
udp_with peer arrivals = record {
  conn = record {
    ctx = some (record { fd = pos 3; peer_addr = peer });
    net = record { arrivals = arrivals; refusals = []; sent = [] };
    host = host;
  };
  clock = clock;
  log = [];
}

abbrev udp_client : Option (OmniContext UdpConn)
udp_client = some (record { proto = proto_udp; role = client; vt = some udp_proto_vtable })

abbrev udp_server : Option (OmniContext UdpConn)
udp_server = some (record { proto = proto_udp; role = server; vt = some udp_proto_vtable })

abbrev small_file : Bytes
small_file = 7 ∷ 8 ∷ 9 ∷ []

abbrev transferred : List Arrival
transferred =
    delivered alice
      (transfer little udp_client 2 [] (record { rest = small_file; broken = false })
        (udp_with bob [])).world.conn.net.sent

abbrev idle_server : ServerRuntime
idle_server = record {
  proto = proto_udp;
  out_fp = record { given = []; flushed = 0; room = none; drains = 1 ∷ 0 ∷ [] };
  running = true;
  transfer_done = false;
  bytes_written = 0;
}

file_arrives_udp_example :
    (rounds : ℕ) × (let (rt, w) =
        recv_thread big udp_server rounds idle_server (udp_with bob transferred) in
      (content rt.out_fp ≡ small_file)
      × (rt.transfer_done ≡ true)
      × (arriving w.conn.net.arrivals ≡ []))
file_arrives_udp_example =
    file_arrives_udp little big udp_client udp_server 1 small_file [] (udp_with bob [])
      (udp_with bob transferred) idle_server alice bob refl refl (omega arith) tt
      ((bob, (record { fd = pos 3; peer_addr = bob }, refl, refl, refl)), tt) refl
      (record { fd = pos 3; peer_addr = bob }, refl, refl, refl) refl refl refl refl

-- No frame, half of the file, an interruption, an error, and what comes behind it.
abbrev mixed : List Arrival
mixed =
    datagram bob (1 ∷ [])
    ∷ interrupted
    ∷ datagram bob (app_frame 1 5 (7 ∷ 8 ∷ []))
    ∷ datagram alice []
    ∷ broken
    ∷ datagram bob (app_frame 1 6 (9 ∷ []))
    ∷ []

recv_thread-chunks_example :
    let rt = (recv_thread little udp_server 6 idle_server (udp_with bob mixed)).0 in
    (content (fflush rt.out_fp) ≡ 7 ∷ 8 ∷ []) × (rt.transfer_done ≡ false) × (rt.running ≡ false)
unfolding network_header decode_app_message omni_msg_header_decode htonl header_of_bytes
recv_thread-chunks_example =
    recv_thread-chunks little udp_server refl mixed idle_server (udp_with bob mixed) refl
      (refl, refl) (omega arith, (omega arith, (omega arith, (omega arith, tt))))
      ((bob, (record { fd = pos 3; peer_addr = bob }, refl, refl, refl)), refl)

recv_thread-RunsTo_example :
    let rt = (recv_thread little udp_server 6 idle_server (udp_with bob mixed)).0 in
    RunsTo step enabled
      (at testing idle_server (started false false))
      (thread_events little udp_server 6 idle_server (udp_with bob mixed))
      (at (place rt) rt (started false false))
recv_thread-RunsTo_example =
    recv_thread-RunsTo little udp_server 6 idle_server (udp_with bob mixed) (started false false)
      refl
