-- ===== src/Tests/Relayed.antt =====
-- A file of three bytes through a relay whose writes are short; FILE_END is lost on the way to the server.
use omni_socket.App.{send_app_message}
use omni_socket.App.Messages.{app_frame, length-app_frame}
use omni_socket.Base.{◌≡◌, refl, Bytes, true, false, none, some, [], ◌∷◌, ◌++◌, inr, arith, drop}
use omni_socket.Client.{transfer, send_loop}
use omni_socket.EndToEnd.Relayed.{file_never_wrong_relayed}
use omni_socket.Network.{OmniContext, omni_send, omni_recv}
use omni_socket.Network.Types.{proto_tcp, client}
use omni_socket.Relay
use omni_socket.Relay.Refinement.{IsRun, relay_loop-IsRun}
use omni_socket.Relay.Loop.{loop_events, relay_loop, relay_round}
use omni_socket.Runtime.{World}
use omni_socket.Server.{ServerRuntime, recv_thread}
use omni_socket.Server.Beginning.{WroteBeginning}
use omni_socket.Tcp.{TcpConn, tcp_send, tcp_recv, tcp_write_n, tcp_read_n}
use omni_socket.Tcp.Faults.{good}
use omni_socket.Tcp.Feed.{tcp_source}
use omni_socket.Tcp.Frames.{Starts, frame, no_frame, tcp_steady}
use omni_socket.Tcp.Setup.{tcp_proto_vtable}
use omni_socket.Tcp.Stream.{arrive, TxEvent, room, write, read}
use omni_socket.Tests.Data.{
  clock, connected, client_ctx, server_ctx, first_frame, second_frame, end_frame, segments,
}
use omni_socket.Wire.{
  little, big, omni_now_ms, header_to_bytes, omni_msg_header_encode, omni_msg_header_decode,
  header_of_bytes, htonl, omni_htonll, omni_bswap64,
}
use omni_socket.Wire.RoundTrip.{network_header}

abbrev small_file : Bytes
small_file = 7 ∷ 8 ∷ 9 ∷ []

abbrev relay_tx : OmniContext TcpConn
relay_tx = record { proto = proto_tcp; role = client; vt = some (tcp_proto_vtable big) }

abbrev relay : World (TcpConn × TcpConn)
relay = record {
  conn = ((connected segments []).conn, (connected [] (room 4 ∷ TxEvent.interrupted ∷ [])).conn);
  clock = clock;
  log = [];
}

abbrev sender : World TcpConn
sender = connected [] []

-- All of the two chunks comes.
abbrev receiver : World TcpConn
receiver = connected (arrive 0 (drop 1 first_frame ++ second_frame) ∷ []) []

abbrev idle_server : ServerRuntime
idle_server = record {
  proto = proto_tcp;
  out_fp = record { given = []; flushed = 0; room = none; drains = 1 ∷ 0 ∷ [] };
  running = true;
  transfer_done = false;
  bytes_written = 0;
}

sender_written :
    (transfer little client_ctx 2 []
      (record { rest = small_file; broken = false })
      sender).world.conn.sock.sent
    ≡ good relay.conn.0.sock.rx ++ []
unfolding transfer send_loop send_app_message omni_send tcp_send tcp_write_n write omni_now_ms
    header_to_bytes omni_msg_header_encode htonl omni_htonll omni_bswap64
sender_written = refl

relay_written :
    (relay_loop server_ctx (some relay_tx) 4 relay).conn.1.sock.sent
    ≡ good receiver.conn.sock.rx ++ end_frame
unfolding relay_loop relay_round omni_recv omni_send tcp_recv tcp_send tcp_read_n tcp_write_n read
    write omni_now_ms header_to_bytes header_of_bytes omni_msg_header_encode omni_msg_header_decode
    htonl omni_htonll omni_bswap64
relay_written = refl

file_never_wrong_relayed_example :
    WroteBeginning (small_file ++ []) (recv_thread big server_ctx 3 idle_server receiver).0
file_never_wrong_relayed_example =
    file_never_wrong_relayed little big big client_ctx server_ctx relay_tx server_ctx 1 small_file
      [] [] end_frame false [] sender receiver relay 4 3 idle_server refl refl refl refl
      (omega arith) (inr refl) refl refl refl refl tt refl refl sender_written relay_written refl
      refl refl

-- One message on its way through the relay.
abbrev one_message : Bytes
one_message = app_frame 1 1250 (7 ∷ 8 ∷ [])

abbrev relay_of_one : World (TcpConn × TcpConn)
relay_of_one = record {
  conn = (
    (connected (arrive 0 (drop 1 first_frame) ∷ []) []).conn,
    (connected [] (room 4 ∷ TxEvent.interrupted ∷ [])).conn,
  );
  clock = clock;
  log = [];
}

one_arrives : Starts (one_message ∷ []) (good relay_of_one.conn.0.sock.rx)
unfolding network_header
one_arrives = (
  one_message ∷ [],
  [],
  [],
  refl,
  frame one_message [] [] 1250 (omega arith) (ground arith) refl refl (no_frame refl refl),
)

relay_loop-IsRun_example :
    IsRun server_ctx relay_tx
      (tcp_recv big)
      (tcp_source big)
      (tcp_send big)
      (tcp_steady big)
      refl
      refl
      (omega arith)
      0
      (Relay.started true [] 9000)
      (one_message ∷ [])
      []
      (loop_events server_ctx (some relay_tx) 2 relay_of_one)
      (relay_loop server_ctx (some relay_tx) 2 relay_of_one)
relay_loop-IsRun_example =
    relay_loop-IsRun server_ctx relay_tx (tcp_recv big) (tcp_source big) (tcp_send big)
      (tcp_steady big) refl refl (omega arith) 2 relay_of_one 0 (Relay.started true [] 9000)
      (one_message ∷ []) [] (omega (arith, length-app_frame 1 1250 (7 ∷ 8 ∷ [])), tt)
      (omega (arith, length-app_frame 1 1250 (7 ∷ 8 ∷ [])), tt) (refl, one_arrives)
      (refl, tt, no_frame refl refl)
