-- ===== src/Tests/Logger.antt =====
-- The logger on concrete calls: `double` is played by whole numbers.
use omni_socket.Base.{
  ℕ, ◌+◌, ◌-◌, ◌*◌, ◌/◌, ◌%◌, ◌^◌, ◌≤◌, ◌≡◌, refl, List, [], ◌∷◌, Bytes, length, none, some, leb,
  min, max, true, false, arith,
}
use omni_socket.Logger.{
  LogCall, init, on_send, on_recv, on_kcp_retrans, on_send_call_latency, on_recv_call_latency,
  logger_log, json_escape, escape_loop, level_to_int, LogLine,
}
use omni_socket.Logger.Counts.{total, bytes_out, bytes_in, sends, receipts, retrans}
use omni_socket.Logger.Escape.{json_escape_fits, JsonOf, logger_log_json}
use omni_socket.Logger.Latency.{least, most, send_ms, recv_ms}
use omni_socket.Logger.Order.{Interleaved, first, second, of_calls-Interleaved, replayed-Log}
use omni_socket.Logger.Stats.{Double, LoggerState, replayed}

abbrev whole : Double ℕ
whole = record {
  zero = 0;
  one = 1;
  fifth = 0;
  thousand = 1000;
  of_u64 = λ n. n;
  le = leb;
  add = λ a b. a + b;
  sub = λ a b. a - b;
  mul = λ a b. a * b;
  div = λ a b. a / b;
}

abbrev calls : List LogCall
calls =
    on_send 5
    ∷ on_send_call_latency 3
    ∷ on_recv 7
    ∷ on_recv_call_latency 9
    ∷ on_send_call_latency 1
    ∷ on_send 6
    ∷ on_kcp_retrans 2
    ∷ []

abbrev zeroed : LoggerState ℕ
zeroed = record {
  g_stats = record {
    start_ms = 0;
    last_report_ms = 0;
    bytes_sent = 0;
    bytes_recv = 0;
    send_count = 0;
    recv_count = 0;
    last_rtt_ms = 0;
    max_rtt_ms = 0;
    tcp_retrans = 0;
    udp_retrans = 0;
    kcp_retrans = 0;
    send_call_avg_ms = 0;
    recv_call_avg_ms = 0;
    proto_send_avg_ms = 0;
    proto_recv_avg_ms = 0;
    send_call_min_ms = 0;
    send_call_max_ms = 0;
    recv_call_min_ms = 0;
    recv_call_max_ms = 0;
    last_send_call_ms = 0;
    last_recv_call_ms = 0;
  };
  g_min_level = 1;
  json_open = false;
}

-- `a"` and a newline
abbrev quoted : Bytes
quoted = 97 ∷ 34 ∷ 10 ∷ []

json_escape_fits_example : length (json_escape quoted 5) ≤ 5
json_escape_fits_example = json_escape_fits quoted 5 (omega arith)

abbrev printed : LogLine
printed = record {
  level = "ERROR";
  component = "tcp";
  text = quoted;
  json_text = some (97 ∷ 92 ∷ 34 ∷ 92 ∷ 110 ∷ 0 ∷ []);
}

logger_log-json_example : JsonOf printed
unfolding logger_log level_to_int escape_loop
logger_log-json_example =
    logger_log_json 1 (some "ERROR") (some "tcp") quoted printed (ground arith) refl

-- The calls of a sender and those of a receiver, and one order of both.
abbrev main_calls : List LogCall
main_calls = on_send 5 ∷ on_send_call_latency 3 ∷ on_send 6 ∷ on_send_call_latency 1 ∷ []

abbrev receiver_calls : List LogCall
receiver_calls = on_recv 7 ∷ on_recv_call_latency 9 ∷ on_kcp_retrans 2 ∷ []

abbrev both_calls : List LogCall
both_calls =
    on_send 5
    ∷ on_recv 7
    ∷ on_recv_call_latency 9
    ∷ on_send_call_latency 3
    ∷ on_send 6
    ∷ on_kcp_retrans 2
    ∷ on_send_call_latency 1
    ∷ []

turns : Interleaved main_calls receiver_calls both_calls
turns = first (on_send 5) (
    second (on_recv 7) (
      second (on_recv_call_latency 9) (
        first (on_send_call_latency 3) (
          first (on_send 6)
            (second (on_kcp_retrans 2) (first (on_send_call_latency 1) Interleaved.over))))))

replayed-Log_example :
    let h = (replayed whole none true (init 100 ∷ both_calls) zeroed).g_stats in
    (h.bytes_sent ≡ (total bytes_out main_calls + total bytes_out receiver_calls) % 2 ^ 64)
    × (h.bytes_recv ≡ (total bytes_in main_calls + total bytes_in receiver_calls) % 2 ^ 64)
    × (h.send_count ≡ (total sends main_calls + total sends receiver_calls) % 2 ^ 64)
    × (h.recv_count ≡ (total receipts main_calls + total receipts receiver_calls) % 2 ^ 64)
    × (h.kcp_retrans ≡ (total retrans main_calls + total retrans receiver_calls) % 2 ^ 64)
    × (h.send_call_min_ms ≡ min (least send_ms main_calls) (least send_ms receiver_calls))
    × (h.send_call_max_ms ≡ max (most send_ms main_calls) (most send_ms receiver_calls))
    × (h.recv_call_min_ms ≡ min (least recv_ms main_calls) (least recv_ms receiver_calls))
    × (h.recv_call_max_ms ≡ max (most recv_ms main_calls) (most recv_ms receiver_calls))
replayed-Log_example =
    replayed-Log whole none true 100 main_calls receiver_calls both_calls zeroed
      (of_calls-Interleaved turns) (ground arith)
