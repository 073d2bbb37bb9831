-- ===== src/Tests/Commands.antt =====
-- The line `hi`, an empty line and `quit`, typed at the prompt of a server and printed by a client.
use omni_socket.Client.Process.{started, testing, step}
use omni_socket.Client.Process.Enabled.{enabled}
use omni_socket.Client.Process.Refinement.{thread_events, at, place, client_thread-RunsTo}
use omni_socket.App.{send_app_message}
use omni_socket.App.Lines.{CarriesTexts, text, none_left}
use omni_socket.Base.{RunsTo, pos, ℕ, ◌≡◌, refl, sym, Bytes, List, true, [], ◌∷◌, ◌++◌, arith}
use omni_socket.Client.{ClientRuntime, recv_thread}
use omni_socket.EndToEnd.{commands_arrive}
use omni_socket.Network.{omni_send}
use omni_socket.Runtime.{World}
use omni_socket.Server.{PromptRound, prompt}
use omni_socket.Tcp.{TcpConn, tcp_send, tcp_write_n}
use omni_socket.Tcp.Stream.{arrive, TxEvent, room, write, payload}
use omni_socket.Tests.Data.{connected, client_ctx, server_ctx}
use omni_socket.Wire.{
  little, big, omni_now_ms, header_to_bytes, omni_msg_header_encode, htonl, omni_htonll,
  omni_bswap64,
}
use omni_socket.Wire.RoundTrip.{network_header}

abbrev typed : Bytes → PromptRound
typed line = record { running = true; allocated = true; line = line }

abbrev rounds : List PromptRound
rounds =
    typed (104 ∷ 105 ∷ 10 ∷ [])
    ∷ typed (10 ∷ [])
    ∷ typed (113 ∷ 117 ∷ 105 ∷ 116 ∷ 13 ∷ 10 ∷ [])
    ∷ []

abbrev written : Bytes
written =
    0 ∷ 0 ∷ 0 ∷ 100 ∷ 0 ∷ 0 ∷ 0 ∷ 18 ∷ 0 ∷ 0 ∷ 0 ∷ 0 ∷ 0 ∷ 0 ∷ 4 ∷ 226 ∷ 0 ∷ 0 ∷ 0 ∷ 3 ∷ 0 ∷ 0 ∷ 0
    ∷ 2 ∷ 0 ∷ 0 ∷ 0 ∷ 0 ∷ 0 ∷ 0 ∷ 4 ∷ 226 ∷ 104 ∷ 105 ∷ []

abbrev sender : World TcpConn
sender = connected [] (room 4 ∷ TxEvent.interrupted ∷ [])

abbrev receiver : World TcpConn
receiver =
    connected
      (arrive 0 (0 ∷ 0 ∷ 100 ∷ 0 ∷ 0 ∷ 0 ∷ 18 ∷ 0 ∷ 0 ∷ 0 ∷ 0 ∷ 0 ∷ 0 ∷ 4 ∷ 226 ∷ 0 ∷ 0 ∷ 0 ∷ [])
        ∷ arrive 3 (0 ∷ 0 ∷ 0 ∷ 2 ∷ 0 ∷ 0 ∷ 0 ∷ 0 ∷ 0 ∷ 0 ∷ 4 ∷ 226 ∷ 104 ∷ 105 ∷ [])
        ∷ [])
      []

abbrev idle_client : ClientRuntime
idle_client = record { running = true; printed = [] }

commands_written : (prompt big server_ctx rounds sender).conn.sock.sent ≡ written
unfolding prompt send_app_message omni_send tcp_send tcp_write_n write omni_now_ms header_to_bytes
    omni_msg_header_encode htonl omni_htonll omni_bswap64
commands_written = refl

commands_arrive_example :
    (k : ℕ) × (let (rt, w) = recv_thread little client_ctx k idle_client receiver in
      (rt.printed ≡ (104 ∷ 105 ∷ []) ∷ []) × (payload w.conn.sock.rx ≡ []))
commands_arrive_example =
    commands_arrive big little server_ctx client_ctx rounds sender receiver idle_client refl refl
      (ground arith) (record { opened = refl; clean = tt }) refl
      (record { opened = refl; clean = tt }) (sym commands_written) refl refl

one_text : CarriesTexts ((104 ∷ 105 ∷ []) ∷ []) (written ++ [])
unfolding network_header
one_text =
    text (104 ∷ 105 ∷ []) [] 1250 1250 (omega arith) (omega arith) (ground arith) refl
      (none_left refl)

client_thread-RunsTo_example :
    let rt = (recv_thread little client_ctx 1 idle_client receiver).0 in
    RunsTo step enabled
      (at testing idle_client (started (pos 2)))
      (thread_events little client_ctx 1 idle_client receiver)
      (at (place rt) rt (started (pos 2)))
client_thread-RunsTo_example =
    client_thread-RunsTo little client_ctx 1 idle_client receiver (started (pos 2)) refl
