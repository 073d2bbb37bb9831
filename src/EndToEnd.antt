-- ===== src/EndToEnd.antt =====
-- A client and a server joined by one TCP connection: src/apps/client_main.c, src/apps/server_main.c and
-- src/protocols/tcp_impl.c together.
pub mod Startup
pub mod Channel
pub mod Beginning
pub mod Relayed
use omni_socket.Base.{
  ℕ, suc, ◌^◌, ◌<◌, ◌≤◌, ◌≡◌, ◌∙◌, sym, ap, ◌++◌, [], Bytes, List, true, false, none, some, Option,
  append-nil, length, All,
}
use omni_socket.App.FileStream.{messages}
use omni_socket.Client.{Poll, transfer, ClientRuntime}
use omni_socket.Client.{recv_thread as client_thread}
use omni_socket.Client.Commands.{recv_thread-CarriesTexts}
use omni_socket.Client.Transfer.{AllCalm, IsReady, transfer-Carries}
use omni_socket.Network.{OmniContext, send_of, recv_of}
use omni_socket.Runtime.{World}
use omni_socket.Server.{content, ServerRuntime, recv_thread, PromptRound, prompt}
use omni_socket.Server.Prompt.{IsPlain, commands, prompt-CarriesTexts}
use omni_socket.Server.Receiving.{IsListening, recv_thread-Carries}
use omni_socket.Tcp.{TcpConn, tcp_send, tcp_recv}
use omni_socket.Tcp.Stream.{payload}
use omni_socket.Wire.{ByteOrder}

-- The file arrives: if the stream that the server will read is cut in any way from what the client's whole
-- transfer writes on a fresh connection, and neither side meets an error, a stop, or a full disk, then after some
-- number of rounds the server's file holds exactly the client's file and the transfer is marked done, and nothing
-- is left in the stream. The hosts' byte orders, the chunk size from 1 to 65536, partial writes and
-- interrupted calls make no difference.
pub file_arrives :
    (oc os : ByteOrder) (cc : Option (OmniContext TcpConn)) (cs : Option (OmniContext TcpConn))
    (n : ℕ) (f : Bytes) (polls : List Poll) (wc ws : World TcpConn) (rt : ServerRuntime)
    → send_of cc ≡ some (tcp_send oc)
    → recv_of cs ≡ some (tcp_recv os)
    → suc n ≤ 65536
    → AllCalm polls
    → IsReady wc.conn
    → wc.conn.sock.sent ≡ []
    → IsListening ws.conn
    → payload ws.conn.sock.rx
      ≡ (transfer oc cc (suc n) polls (record { rest = f; broken = false }) wc).world.conn.sock.sent
    → rt.running ≡ true
    → rt.out_fp.given ≡ []
    → rt.out_fp.room ≡ none
    → rt.bytes_written < 2 ^ 64
    → (rounds : ℕ) × (let (rt', ws') = recv_thread os cs rounds rt ws in
        (content rt'.out_fp ≡ f) × (rt'.transfer_done ≡ true) × (payload ws'.conn.sock.rx ≡ []))
file_arrives oc os cc cs n f polls wc ws rt client_tcp server_tcp fits calm_polls ready fresh
      listening joined running empty room small =
    let sent = transfer-Carries oc cc client_tcp n fits f polls wc calm_polls ready in
    let got =
      recv_thread-Carries os cs server_tcp sent.4 rt ws [] running room small listening
        (joined ∙ sent.3 ∙ ap (λ t. t ++ sent.2) fresh ∙ sym (append-nil sent.2)) in
    (messages sent.4, (got.0 ∙ ap (λ t. t ++ f) empty, got.1, got.4))

-- The commands arrive: if the stream that the client will read is cut in any way from what the server's prompt writes
-- on a fresh connection, and neither side meets an error or a stop, then after some number of rounds the client has
-- printed exactly the lines typed at the prompt that are not empty, without their newlines and in order, up to `quit`,
-- and nothing is left in the stream.
pub commands_arrive :
    (os oc : ByteOrder) (cs : Option (OmniContext TcpConn)) (cc : Option (OmniContext TcpConn))
    (rounds : List PromptRound) (ws wc : World TcpConn) (rt : ClientRuntime)
    → send_of cs ≡ some (tcp_send os)
    → recv_of cc ≡ some (tcp_recv oc)
    → All IsPlain rounds
    → IsReady ws.conn
    → ws.conn.sock.sent ≡ []
    → IsListening wc.conn
    → payload wc.conn.sock.rx ≡ (prompt os cs rounds ws).conn.sock.sent
    → rt.running ≡ true
    → rt.printed ≡ []
    → (k : ℕ) × (let (rt', wc') = client_thread oc cc k rt wc in
        (rt'.printed ≡ commands rounds) × (payload wc'.conn.sock.rx ≡ []))
commands_arrive os oc cs cc rounds ws wc rt server_tcp client_tcp plain ready fresh listening joined
      running empty =
    let (s, sent, carry) = prompt-CarriesTexts os cs server_tcp rounds ws plain ready in
    let (printed, still, left) =
      recv_thread-CarriesTexts oc cc client_tcp carry rt wc [] running listening
        (joined ∙ sent ∙ ap (λ t. t ++ s) fresh ∙ sym (append-nil s)) in
    (length (commands rounds), (printed ∙ ap (λ t. t ++ commands rounds) empty, left))
