-- ===== src/EndToEnd/Channel.antt =====
-- A client and a server joined by a protocol that keeps the bounds of messages, and by UDP: src/apps/client_main.c,
-- src/apps/server_main.c and src/protocols/udp_impl.c together.
use omni_socket.App.Channel.{Outlet, Inlet, count}
use omni_socket.Base.{
  ℕ, suc, ◌+◌, ◌≤◌, ◌≡◌, subst, false, ◌∙◌, sym, ap, ◌++◌, [], Bytes, List, true, none, some,
  Option, append-nil, ℤ, arith,
}
use omni_socket.Client.{Poll, transfer}
use omni_socket.Client.Parts.{transfer-Parts}
use omni_socket.Client.Transfer.{AllCalm}
use omni_socket.Host.{Sockaddr}
use omni_socket.Network.{OmniContext, send_of, recv_of}
use omni_socket.Runtime.{World}
use omni_socket.Server.{content, ServerRuntime, recv_thread}
use omni_socket.Server.Parts.{recv_thread-Parts}
use omni_socket.Udp.{UdpConn, udp_send, udp_recv}
use omni_socket.Udp.Channel.{
  CanSend, AllDatagrams, arriving, bodies, arriving-delivered, delivered-AllDatagrams, udp_outlet,
  udp_inlet,
}
use omni_socket.Udp.Peers.{Talks, delivered}
use omni_socket.Wire.{ByteOrder}

-- The file arrives over any protocol of which messages go out and come in whole, once and in order.
pub file_passes :
    {S R : Type 0} (oc os : ByteOrder) (cc : Option (OmniContext S)) (cs : Option (OmniContext R))
    (send : World S → Bytes → ℤ × World S) (recv : World R → ℕ → ℤ × Bytes × World R)
    (outlet : Outlet S send) (inlet : Inlet R recv) (n : ℕ) (f : Bytes) (polls : List Poll)
    (wc : World S) (ws : World R) (rt : ServerRuntime)
    → send_of cc ≡ some send
    → recv_of cs ≡ some recv
    → suc n ≤ 65536
    → 17 + n ≤ outlet.limit
    → AllCalm polls
    → outlet.IsReady wc.conn
    → outlet.out wc.conn ≡ []
    → inlet.IsReady ws.conn
    → inlet.coming ws.conn
      ≡ outlet.out
          (transfer oc cc (suc n) polls (record { rest = f; broken = false }) wc).world.conn
    → rt.running ≡ true
    → rt.out_fp.given ≡ []
    → rt.out_fp.room ≡ none
    → (rounds : ℕ) × (let (rt', ws') = recv_thread os cs rounds rt ws in
        (content rt'.out_fp ≡ f) × (rt'.transfer_done ≡ true) × (inlet.coming ws'.conn ≡ []))
file_passes oc os cc cs send recv outlet inlet n f polls wc ws rt over over' fits short calm_polls
      ready fresh listening joined running empty room =
    let sent = transfer-Parts oc cc send outlet over n fits short f polls wc calm_polls ready in
    let got =
      recv_thread-Parts os cs recv inlet over' sent.4 rt ws [] running room listening
        (joined ∙ sent.3 ∙ ap (λ ms. ms ++ sent.2) fresh ∙ sym (append-nil sent.2)) in
    (count sent.4, (got.0 ∙ ap (λ t. t ++ f) empty, got.1, got.3))

-- The file arrives over UDP where nothing is lost: if the chunk size is at most 65491, the network brings each datagram
-- that the client's whole transfer sends, once and in order, and neither side meets an error, a stop, or a full disk,
-- then after some number of rounds the server has written exactly the client's file and marked the transfer done, and no
-- datagram is left.
pub file_arrives_udp :
    (oc os : ByteOrder) (cc : Option (OmniContext UdpConn)) (cs : Option (OmniContext UdpConn))
    (n : ℕ) (f : Bytes) (polls : List Poll) (wc ws : World UdpConn) (rt : ServerRuntime)
    (me peer : Sockaddr)
    → send_of cc ≡ some udp_send
    → recv_of cs ≡ some udp_recv
    → suc n ≤ 65491
    → AllCalm polls
    → CanSend wc.conn
    → wc.conn.net.sent ≡ []
    → Talks peer ws.conn
    → ws.conn.net.arrivals
      ≡ delivered me
          (transfer oc cc
            (suc n)
            polls
            (record { rest = f; broken = false })
            wc).world.conn.net.sent
    → rt.running ≡ true
    → rt.out_fp.given ≡ []
    → rt.out_fp.room ≡ none
    → (rounds : ℕ) × (let (rt', ws') = recv_thread os cs rounds rt ws in
        (content rt'.out_fp ≡ f)
        × (rt'.transfer_done ≡ true)
        × (arriving ws'.conn.net.arrivals ≡ []))
file_arrives_udp oc os cc cs n f polls wc ws rt me peer over over' fits calm_polls ready fresh talks
      joined running empty room =
    let sent =
      (transfer oc cc (suc n) polls (record { rest = f; broken = false }) wc).world.conn.net.sent in
    file_passes oc os cc cs udp_send udp_recv udp_outlet udp_inlet n f polls wc ws rt over over'
      (omega (arith, fits)) (omega (arith, fits)) calm_polls ready (ap bodies fresh)
      ((peer, talks), subst AllDatagrams (sym joined) (delivered-AllDatagrams me sent))
      (ap arriving joined ∙ arriving-delivered me sent) running empty room
