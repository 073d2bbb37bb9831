-- ===== src/EndToEnd/Beginning.antt =====
-- A client and a server joined by a connection on which anything may fail: src/apps/client_main.c and
-- src/apps/server_main.c with src/protocols/tcp_impl.c or kcp_impl.c.
use omni_socket.App.Feed.{Sink, Source}
use omni_socket.Base.{
  ℕ, suc, ◌+◌, ◌≤◌, ◌≡◌, refl, subst, sym, ◌++◌, [], Bytes, List, Bool, true, false, some, ◌⊎◌,
  Option, arith, ℤ,
}
use omni_socket.Client.{Poll, transfer}
use omni_socket.Client.Beginning.{transfer-Begins}
use omni_socket.Kcp.{Ikcp, KcpContext, KcpConn, kcp_send, kcp_recv}
use omni_socket.Kcp.Receives.{OnlySent, OnlySent-Arriving, kcp_source}
use omni_socket.Kcp.Sends.{AllCarry, kcp_sink, received_more, received_more-HasSent}
use omni_socket.Kcp.Reliable.{Reliable}
use omni_socket.Kcp.Setup.{started}
use omni_socket.Network.{OmniContext, send_of, recv_of}
use omni_socket.Runtime.{World}
use omni_socket.Server.{ServerRuntime, recv_thread}
use omni_socket.Server.Beginning.{WroteBeginning, recv_thread-WroteBeginning}
use omni_socket.Tcp.{TcpConn, is_open, tcp_send, tcp_recv}
use omni_socket.Tcp.Faults.{good}
use omni_socket.Tcp.Feed.{tcp_source}
use omni_socket.Tcp.Frames.{Starts, Starts-cut, no_frame, tcp_sink}
use omni_socket.Wire.{ByteOrder}

-- A client's transfer of a file and a server's thread, over any protocol, if whatever the client leaves there is what
-- the server finds.
pub never_wrong :
    {S R : Type 0} (oc os : ByteOrder) (of_client : Option (OmniContext S))
    (of_server : Option (OmniContext R)) (send : World S → Bytes → ℤ × World S)
    (recv : World R → ℕ → ℤ × Bytes × World R) (sink : Sink S send) (source : Source R recv) (n : ℕ)
    (f hidden : Bytes) (broken : Bool) (polls : List Poll) (wc : World S) (ws : World R)
    (rt : ServerRuntime) (rounds : ℕ)
    → send_of of_client ≡ some send
    → recv_of of_server ≡ some recv
    → suc n ≤ 65536
    → 17 + n ≤ sink.limit
    → (broken ≡ true) ⊎ (hidden ≡ [])
    → sink.Has wc.conn []
    → ((ms : List Bytes)
        → sink.Begins
            (transfer oc of_client
              (suc n)
              polls
              (record { rest = f; broken = broken })
              wc).world.conn
            ms
        → source.Holds ws.conn ms)
    → rt.running ≡ true
    → rt.out_fp.given ≡ []
    → rt.transfer_done ≡ false
    → WroteBeginning (f ++ hidden) (recv_thread os of_server rounds rt ws).0
never_wrong oc os of_client of_server send recv sink source n f hidden broken polls wc ws rt rounds
      over over' fits short readable fresh joined running empty undone =
    let (ms, begins, parts) =
      transfer-Begins oc of_client send sink over n fits short broken hidden readable f polls wc []
        fresh in
    recv_thread-WroteBeginning os of_server recv source over' (f ++ hidden) ms rounds rt ws parts
      empty running undone (joined ms begins)

-- The file is never wrong: over an open TCP connection on which the client has sent nothing before, with a chunk size
-- from 1 to 65536, and a server that is running with an empty file and no transfer done, whatever the client meets
-- (write errors, a stop, failed allocations, an error that hides the end of its file), however little of what it has
-- written comes before an error or the end of the stream, however full the server's disk is, whatever stdio keeps in its
-- buffer and however often the server's thread has gone round, what is in the server's file is a beginning of the client's
-- file, with what the error hides of it. If the transfer is marked done, the server has handed all of the file to `fwrite`,
-- and all of it is in the server's file unless the disk is full.
pub file_never_wrong :
    (oc os : ByteOrder) (cc : Option (OmniContext TcpConn)) (cs : Option (OmniContext TcpConn))
    (n : ℕ) (f hidden lost : Bytes) (broken : Bool) (polls : List Poll) (wc ws : World TcpConn)
    (rt : ServerRuntime) (rounds : ℕ)
    → send_of cc ≡ some (tcp_send oc)
    → recv_of cs ≡ some (tcp_recv os)
    → suc n ≤ 65536
    → (broken ≡ true) ⊎ (hidden ≡ [])
    → is_open wc.conn.ctx ≡ true
    → wc.conn.sock.sent ≡ []
    → is_open ws.conn.ctx ≡ true
    → (transfer oc cc (suc n) polls (record { rest = f; broken = broken }) wc).world.conn.sock.sent
      ≡ good ws.conn.sock.rx ++ lost
    → rt.running ≡ true
    → rt.out_fp.given ≡ []
    → rt.transfer_done ≡ false
    → WroteBeginning (f ++ hidden) (recv_thread os cs rounds rt ws).0
file_never_wrong oc os of_client of_server n f hidden lost broken polls wc ws rt rounds client_tcp
      server_tcp fits readable opened fresh listening joined running empty undone =
    never_wrong oc os of_client of_server (tcp_send oc) (tcp_recv os) (tcp_sink oc) (tcp_source os)
      n f hidden broken polls wc ws rt rounds client_tcp server_tcp fits (omega (arith, fits))
      readable (opened, no_frame refl fresh)
      (λ ms starts.
        (listening, Starts-cut ms (good ws.conn.sock.rx) lost (subst (Starts ms) joined starts)))
      running empty undone

-- The same over KCP, where the network may also lose, repeat and reorder datagrams: if ikcp is reliable on a
-- conversation, both sides have opened their contexts for it as `kcp_init` does, the client has sent nothing before, the
-- chunk size is from 1 to 65536, no datagram arrives at the server but those that the client sends in its transfer and
-- in any calls of kcp_recv behind it, and the server is running with an empty file and no transfer done, then whatever
-- the client meets, whatever the sockets refuse, however full the disk is and after any number of rounds, what is in the
-- server's file is a beginning of the client's file, with what a read error hides of it. If the transfer is marked done,
-- the server has handed all of the file to `fwrite`, and all of it is in the server's file unless the disk is full.
pub file_never_wrong_kcp :
    {K : Type 0} (lib : Ikcp K) (conv : ℕ) (rel : Reliable K lib conv) (oc os : ByteOrder)
    (cc : Option (OmniContext (KcpConn K))) (cs : Option (OmniContext (KcpConn K))) (n : ℕ)
    (f hidden : Bytes) (broken : Bool) (polls : List Poll) (wc ws : World (KcpConn K))
    (xc xs : KcpContext K) (caps : List ℕ) (rt : ServerRuntime) (rounds : ℕ)
    → send_of cc ≡ some (kcp_send lib)
    → recv_of cs ≡ some (kcp_recv lib)
    → suc n ≤ 65536
    → (broken ≡ true) ⊎ (hidden ≡ [])
    → wc.conn.ctx ≡ some xc
    → xc.kcp ≡ some (started lib conv)
    → wc.conn.net.sent ≡ []
    → ws.conn.ctx ≡ some xs
    → xs.kcp ≡ some (started lib conv)
    → OnlySent
        (received_more lib caps
          (transfer oc cc
            (suc n)
            polls
            (record { rest = f; broken = broken })
            wc).world).conn.net.sent
        ws.conn.net.arrivals
    → rt.running ≡ true
    → rt.out_fp.given ≡ []
    → rt.transfer_done ≡ false
    → WroteBeginning (f ++ hidden) (recv_thread os cs rounds rt ws).0
file_never_wrong_kcp lib conv rel oc os of_client of_server n f hidden broken polls wc ws xc xs caps
      rt rounds client_kcp server_kcp fits readable made_c block_c fresh made_s block_s joined
      running empty undone =
    never_wrong oc os of_client of_server (kcp_send lib) (kcp_recv lib) (kcp_sink lib conv rel)
      (kcp_source lib conv rel) n f hidden broken polls wc ws rt rounds client_kcp server_kcp fits
      (omega (arith, fits)) readable
      (
        xc,
        started lib conv,
        made_c,
        block_c,
        rel.sent_started,
        subst (AllCarry lib conv rel []) (sym fresh) tt,
      )
      (λ ms (pre, post, e, has).
        let (x, k, made, block, sent, all) = received_more-HasSent lib conv rel caps _ pre has in
        (
          pre,
          pre,
          post,
          e,
          (
            xs,
            started lib conv,
            made_s,
            block_s,
            rel.coming_started pre,
            OnlySent-Arriving (rel.Carries pre) _ ws.conn.net.arrivals all joined,
          ),
        ))
      running empty undone
