-- ===== src/EndToEnd/Relayed.antt =====
-- A client, a relay and a server, each joined to the next by a TCP connection: src/apps/client_main.c,
-- src/apps/relay_main.c, src/apps/server_main.c and src/protocols/tcp_impl.c together.
use omni_socket.Base.{
  ℕ, suc, ◌≤◌, ◌≡◌, refl, ◌++◌, [], Bytes, List, Bool, true, false, some, ◌⊎◌, Option, arith, subst,
}
use omni_socket.Client.{Poll, transfer}
use omni_socket.Client.Beginning.{transfer-Begins}
use omni_socket.Network.{OmniContext, send_of, recv_of}
use omni_socket.Relay.{started}
use omni_socket.Relay.Loop.{relay_loop}
use omni_socket.Relay.Refinement.{relay_loop-IsRun}
use omni_socket.Runtime.{World}
use omni_socket.Server.{ServerRuntime, recv_thread}
use omni_socket.Server.Beginning.{WroteBeginning, recv_thread-WroteBeginning}
use omni_socket.Server.Writing.{Parts-fit, Parts-full}
use omni_socket.Tcp.{TcpConn, is_open, tcp_send, tcp_recv}
use omni_socket.Tcp.Faults.{good}
use omni_socket.Tcp.Feed.{tcp_source}
use omni_socket.Tcp.Frames.{Starts, Starts-cut, Framed, no_frame, tcp_sink, tcp_steady}
use omni_socket.Tcp.Stream.{TxClean}
use omni_socket.Wire.{ByteOrder}

-- The file is not wrong behind a relay either, if no write of the relay to its target fails and the target is not
-- switched: over open TCP connections on which client and relay have sent nothing before, with a chunk size from 1 to
-- 65536, and a server that is running with an empty file and no transfer done, whatever the client meets, after any
-- number of rounds of the relay and of the server, however little arrives of what the client and the relay have
-- written, and however full the disk is, what is in the server's file is a beginning of the client's file, with what a
-- read error hides of it. If the transfer is marked done, the server has handed all of the file to `fwrite`, and all of it
-- is in the server's file unless the disk is full.
pub file_never_wrong_relayed :
    (oc or os : ByteOrder) (client_ctx : Option (OmniContext TcpConn))
    (rx_ctx : Option (OmniContext TcpConn)) (tx : OmniContext TcpConn)
    (server_ctx : Option (OmniContext TcpConn)) (n : ℕ) (f hidden lost lost' : Bytes)
    (broken : Bool) (polls : List Poll) (wc ws : World TcpConn) (wr : World (TcpConn × TcpConn))
    (passes rounds : ℕ) (rt : ServerRuntime)
    → send_of client_ctx ≡ some (tcp_send oc)
    → recv_of rx_ctx ≡ some (tcp_recv or)
    → send_of (some tx) ≡ some (tcp_send or)
    → recv_of server_ctx ≡ some (tcp_recv os)
    → suc n ≤ 65536
    → (broken ≡ true) ⊎ (hidden ≡ [])
    → is_open wc.conn.ctx ≡ true
    → wc.conn.sock.sent ≡ []
    → is_open wr.conn.0.ctx ≡ true
    → is_open wr.conn.1.ctx ≡ true
    → TxClean wr.conn.1.sock.tx
    → wr.conn.1.sock.sent ≡ []
    → is_open ws.conn.ctx ≡ true
    → (transfer oc client_ctx
        (suc n)
        polls
        (record { rest = f; broken = broken })
        wc).world.conn.sock.sent
      ≡ good wr.conn.0.sock.rx ++ lost
    → (relay_loop rx_ctx (some tx) passes wr).conn.1.sock.sent ≡ good ws.conn.sock.rx ++ lost'
    → rt.running ≡ true
    → rt.out_fp.given ≡ []
    → rt.transfer_done ≡ false
    → WroteBeginning (f ++ hidden) (recv_thread os server_ctx rounds rt ws).0
file_never_wrong_relayed oc or os client_ctx rx_ctx tx server_ctx n f hidden lost lost' broken polls
      wc ws wr passes rounds rt client_tcp rx_tcp tx_tcp server_tcp fits readable opened fresh
      opened_rx opened_tx clean fresh_tx listening joined joined' running empty undone =
    let (ms, starts, parts) =
      transfer-Begins oc client_ctx (tcp_send oc) (tcp_sink oc) client_tcp n fits
        (omega (arith, fits)) broken hidden readable f polls wc [] (opened, no_frame refl fresh) in
    let (pc, sys, pre, post, e, runs, sent, ok, has, where_is) =
      relay_loop-IsRun rx_ctx tx (tcp_recv or) (tcp_source or) (tcp_send or) (tcp_steady or) rx_tcp
        tx_tcp (omega arith) passes wr 0 (started true [] 0) ms [] (Parts-fit parts)
        (Parts-full parts)
        (opened_rx, Starts-cut ms (good wr.conn.0.sock.rx) lost (subst (Starts ms) joined starts))
        (opened_tx, clean, no_frame refl fresh_tx) in
    recv_thread-WroteBeginning os server_ctx (tcp_recv os) (tcp_source os) server_tcp (f ++ hidden)
      ms rounds rt ws parts empty running undone
      (listening, (pre, post, lost', e, subst (Framed pre) joined' has.2))
