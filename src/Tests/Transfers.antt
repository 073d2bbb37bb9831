-- ===== src/Tests/Transfers.antt =====
-- A file of three bytes, sent in chunks of two and received from a stream that is cut otherwise.
use omni_socket.App.{send_app_message}
use omni_socket.App.FileStream.{Carries, finish}
use omni_socket.Base.{
  ℕ, ◌%◌, ◌^◌, ◌≡◌, refl, sym, Bytes, true, false, none, [], ◌∷◌, ◌++◌, length, arith,
}
use omni_socket.Client.{transfer, send_loop}
use omni_socket.Client.Transfer.{IsReady, transfer-Carries}
use omni_socket.EndToEnd.{file_arrives}
use omni_socket.Network.{omni_send}
use omni_socket.Network.Types.{proto_tcp}
use omni_socket.Runtime.{World}
use omni_socket.Server.{content, ServerRuntime, recv_thread}
use omni_socket.Server.Receiving.{IsListening}
use omni_socket.Tcp.{TcpConn, tcp_send, tcp_write_n}
use omni_socket.Tcp.Stream.{RxEvent, arrive, TxEvent, room, write, payload}
use omni_socket.Tests.Data.{
  connected, client_ctx, server_ctx, first_frame, second_frame, end_frame, segments,
}
use omni_socket.Wire.{
  little, big, omni_now_ms, header_to_bytes, omni_msg_header_encode, htonl, omni_htonll,
  omni_bswap64,
}
use omni_socket.Wire.RoundTrip.{network_header}

abbrev small_file : Bytes
small_file = 7 ∷ 8 ∷ 9 ∷ []

-- Every call of `write` is short, and one is interrupted.
abbrev sender : World TcpConn
sender = connected [] (room 4 ∷ TxEvent.interrupted ∷ room 0 ∷ [])

abbrev receiver : World TcpConn
receiver = connected segments []

abbrev idle_server : ServerRuntime
idle_server = record {
  proto = proto_tcp;
  out_fp = record { given = []; flushed = 0; room = none; drains = 1 ∷ 0 ∷ [] };
  running = true;
  transfer_done = false;
  bytes_written = 0;
}

sender-IsReady : IsReady sender.conn
sender-IsReady = record { opened = refl; clean = tt }

receiver-IsListening : IsListening receiver.conn
receiver-IsListening = record { opened = refl; clean = tt }

stream_written :
    (transfer little client_ctx 2 []
      (record { rest = small_file; broken = false })
      sender).world.conn.sock.sent
    ≡ first_frame ++ (second_frame ++ end_frame)
unfolding transfer send_loop send_app_message omni_send tcp_send tcp_write_n write omni_now_ms
    header_to_bytes omni_msg_header_encode htonl omni_htonll omni_bswap64
stream_written = refl

transfer-Carries_example :
    let r = transfer little client_ctx 2 [] (record { rest = small_file; broken = false }) sender in
    (r.running ≡ true)
    × (r.total_sent ≡ length small_file % 2 ^ 64)
    × (s : Bytes) × (r.world.conn.sock.sent ≡ [] ++ s)
    × Carries small_file s
transfer-Carries_example =
    transfer-Carries little client_ctx refl 1 (omega arith) small_file [] sender tt sender-IsReady

file_arrives_example :
    (rounds : ℕ) × (let (rt, w) = recv_thread big server_ctx rounds idle_server receiver in
      (content rt.out_fp ≡ small_file) × (rt.transfer_done ≡ true) × (payload w.conn.sock.rx ≡ []))
file_arrives_example =
    file_arrives little big client_ctx server_ctx 1 small_file [] sender receiver idle_server refl
      refl (omega arith) tt sender-IsReady refl receiver-IsListening (sym stream_written) refl refl
      refl (omega arith)

-- FILE_END and a byte behind it, in one segment.
abbrev segment : RxEvent
segment = arrive 0 (
    0 ∷ 0 ∷ 100 ∷ 0 ∷ 0 ∷ 0 ∷ 16 ∷ 0 ∷ 0 ∷ 0 ∷ 0 ∷ 0 ∷ 0 ∷ 4 ∷ 226 ∷ 0 ∷ 0 ∷ 0 ∷ 2 ∷ 0 ∷ 0 ∷ 0 ∷ 0
    ∷ 0 ∷ 0 ∷ 0 ∷ 0 ∷ 0 ∷ 0 ∷ 4 ∷ 226 ∷ 5 ∷ [])

-- FILE_END alone, and the server's count when the file is empty.
empty_file : Carries [] (end_frame ++ [])
unfolding network_header
empty_file = finish 1250 1250 (omega arith) (omega arith) refl refl
