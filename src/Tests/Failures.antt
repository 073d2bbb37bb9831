-- ===== src/Tests/Failures.antt =====
-- A transfer in which everything fails: the client meets an error in its file, the stream breaks inside the second frame,
-- and the server's disk has room for one byte.
use omni_socket.App.{send_app_message, decoded}
use omni_socket.Base.{◌≡◌, refl, Bytes, true, false, some, [], ◌∷◌, ◌++◌, inl, arith, drop}
use omni_socket.Client.{transfer, send_loop}
use omni_socket.EndToEnd.Beginning.{file_never_wrong}
use omni_socket.Network.{omni_send}
use omni_socket.Network.Types.{proto_tcp}
use omni_socket.Runtime.{World}
use omni_socket.Server.{content, on_message, ServerRuntime, recv_thread}
use omni_socket.Server.Receiving.{header}
use omni_socket.Server.Beginning.{WroteBeginning}
use omni_socket.Tcp.{TcpConn, tcp_send, tcp_write_n}
use omni_socket.Tcp.Faults.{good}
use omni_socket.Tcp.Stream.{RxEvent, arrive, TxEvent, room, write}
use omni_socket.Tests.Data.{connected, client_ctx, server_ctx, first_frame, second_frame}
use omni_socket.Wire.{
  msg_type_file_end, little, big, omni_now_ms, header_to_bytes, omni_msg_header_encode, htonl,
  omni_htonll, omni_bswap64,
}

abbrev readable_part : Bytes
readable_part = 7 ∷ 8 ∷ 9 ∷ []

abbrev sender : World TcpConn
sender = connected [] (room 4 ∷ TxEvent.interrupted ∷ [])

abbrev receiver : World TcpConn
receiver =
    connected
      (arrive 0 (drop 1 first_frame ++ 0 ∷ 0 ∷ 0 ∷ [])
        ∷ RxEvent.interrupted
        ∷ RxEvent.broken
        ∷ arrive 5 []
        ∷ [])
      []

abbrev almost_full : ServerRuntime
almost_full = record {
  proto = proto_tcp;
  out_fp = record { given = []; flushed = 0; room = some 1; drains = 1 ∷ 0 ∷ [] };
  running = true;
  transfer_done = false;
  bytes_written = 0;
}

-- Of the second frame all but 3 bytes are lost.
cut_stream :
    (transfer little client_ctx 2 []
      (record { rest = readable_part; broken = true })
      sender).world.conn.sock.sent
    ≡ good receiver.conn.sock.rx ++ drop 3 second_frame
unfolding transfer send_loop send_app_message omni_send tcp_send tcp_write_n write omni_now_ms
    header_to_bytes omni_msg_header_encode htonl omni_htonll omni_bswap64
cut_stream = refl

file_never_wrong_example :
    WroteBeginning (readable_part ++ 10 ∷ []) (recv_thread big server_ctx 4 almost_full receiver).0
file_never_wrong_example =
    file_never_wrong little big client_ctx server_ctx 1 readable_part (10 ∷ [])
      (drop 3 second_frame) true [] sender receiver almost_full 4 refl refl (omega arith) (inl refl)
      refl refl refl cut_stream refl refl refl

-- A disk that is full when FILE_END comes: the transfer is marked done, and the file is empty.
abbrev buffered : ServerRuntime
buffered = record almost_full {
  out_fp = record { given = 7 ∷ 8 ∷ []; flushed = 0; room = some 0; drains = [] };
}

full_at_end :
    let rt = (on_message buffered receiver (decoded (header msg_type_file_end 1 []) [])).0 in
    (rt.transfer_done ≡ true) × (content rt.out_fp ≡ []) × (rt.out_fp.given ≡ 7 ∷ 8 ∷ [])
unfolding on_message
full_at_end = (refl, refl, refl)
