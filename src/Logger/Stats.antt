-- ===== src/Logger/Stats.antt =====
-- src/core/logger.c: the statistics, one function for each call that changes them, and the report of
-- `logger_print_performance_log`. What the code does with a `double` is a record of operations.
use omni_socket.Base.{
  ℕ, ◌+◌, ◌-◌, ◌%◌, ◌^◌, Bool, true, List, [], ◌∷◌, Option, ltb, ◌==◌, if◌then◌else◌,
}
use omni_socket.Logger.{
  LogCall, init, on_send, on_recv, on_rtt, on_kcp_retrans, on_send_call_latency,
  on_recv_call_latency, on_proto_send_latency, on_proto_recv_latency, print_performance_log,
  message, level_to_int,
}
use Prim.Native.String.{String}
use omni_socket.Runtime.{elapsed}

-- The constants and operations of `double` that the code uses.
pub record Double (D : Type 0) : Type 0 where
  pub zero : D
  pub one : D
  pub fifth : D
  pub thousand : D
  pub of_u64 : ℕ → D
  pub le : D → D → Bool
  pub add : D → D → D
  pub sub : D → D → D
  pub mul : D → D → D
  pub div : D → D → D

-- `struct OmniStats`
pub record OmniStats (D : Type 0) : Type 0 where
  pub start_ms : ℕ
  pub last_report_ms : ℕ
  pub bytes_sent : ℕ
  pub bytes_recv : ℕ
  pub send_count : ℕ
  pub recv_count : ℕ
  pub last_rtt_ms : ℕ
  pub max_rtt_ms : ℕ
  pub tcp_retrans : ℕ
  pub udp_retrans : ℕ
  pub kcp_retrans : ℕ
  pub send_call_avg_ms : D
  pub recv_call_avg_ms : D
  pub proto_send_avg_ms : D
  pub proto_recv_avg_ms : D
  pub send_call_min_ms : ℕ
  pub send_call_max_ms : ℕ
  pub recv_call_min_ms : ℕ
  pub recv_call_max_ms : ℕ
  pub last_send_call_ms : ℕ
  pub last_recv_call_ms : ℕ

-- The static variables of logger.c; `json_open` says whether `g_json_fp` is a file.
pub record LoggerState (D : Type 0) : Type 0 where
  pub g_stats : OmniStats D
  pub g_min_level : ℕ
  pub json_open : Bool

abbrev pub uint64_max : ℕ
uint64_max = 2 ^ 64 - 1

abbrev pub add64 : ℕ → ℕ → ℕ
add64 a b = (a + b) % 2 ^ 64

abbrev pub lower : ℕ → ℕ → ℕ
lower ms least = if ltb ms least then ms else least

abbrev pub raise : ℕ → ℕ → ℕ
raise ms most = if ltb most ms then ms else most

-- What `logger_print_performance_log` prints, in its order.
pub record PerfReport (D : Type 0) : Type 0 where
  pub elapsed_ms : ℕ
  pub bytes_sent : ℕ
  pub bytes_recv : ℕ
  pub send_count : ℕ
  pub recv_count : ℕ
  pub throughput : D
  pub send_call_last_ms : ℕ
  pub send_call_min_ms : ℕ
  pub send_call_max_ms : ℕ
  pub send_call_avg_ms : D
  pub recv_call_last_ms : ℕ
  pub recv_call_min_ms : ℕ
  pub recv_call_max_ms : ℕ
  pub recv_call_avg_ms : D
  pub proto_send_avg_ms : D
  pub proto_recv_avg_ms : D
  pub last_rtt_ms : ℕ
  pub max_rtt_ms : ℕ
  pub kcp_retrans : ℕ

-- The minimum as it is printed: 0 while there is none.
abbrev pub shown_min : ℕ → ℕ
shown_min least = if least == uint64_max then 0 else least

module _ {D : Type 0} (d : Double D) where
  abbrev pub ewma_update : D → D → D → D
  ewma_update avg sample alpha =
      if d.le avg d.zero then sample else d.add (d.mul avg (d.sub d.one alpha)) (d.mul sample alpha)

  -- `logger_init`, with the value of `getenv("OMNI_LOG_LEVEL")` and whether `fopen` succeeds.
  unfoldable pub logger_init : Option String → Bool → ℕ → LoggerState D → LoggerState D
  logger_init lvl_env opened now g = record {
    g_stats = record {
      start_ms = now;
      last_report_ms = now;
      bytes_sent = 0;
      bytes_recv = 0;
      send_count = 0;
      recv_count = 0;
      last_rtt_ms = 0;
      max_rtt_ms = 0;
      tcp_retrans = 0;
      udp_retrans = 0;
      kcp_retrans = 0;
      send_call_avg_ms = d.zero;
      recv_call_avg_ms = d.zero;
      proto_send_avg_ms = d.zero;
      proto_recv_avg_ms = d.zero;
      send_call_min_ms = uint64_max;
      send_call_max_ms = 0;
      recv_call_min_ms = uint64_max;
      recv_call_max_ms = 0;
      last_send_call_ms = 0;
      last_recv_call_ms = 0;
    };
    g_min_level = level_to_int lvl_env;
    json_open = if g.json_open then true else opened;
  }

  abbrev pub logger_on_send : ℕ → OmniStats D → OmniStats D
  logger_on_send bytes g = record g {
    bytes_sent = add64 g.bytes_sent bytes;
    send_count = add64 g.send_count 1;
  }

  abbrev pub logger_on_recv : ℕ → OmniStats D → OmniStats D
  logger_on_recv bytes g = record g {
    bytes_recv = add64 g.bytes_recv bytes;
    recv_count = add64 g.recv_count 1;
  }

  abbrev pub logger_on_rtt : ℕ → OmniStats D → OmniStats D
  logger_on_rtt rtt_ms g = record g { last_rtt_ms = rtt_ms; max_rtt_ms = raise rtt_ms g.max_rtt_ms }

  abbrev pub logger_on_kcp_retrans : ℕ → OmniStats D → OmniStats D
  logger_on_kcp_retrans delta g = record g { kcp_retrans = add64 g.kcp_retrans delta }

  abbrev pub logger_on_send_call_latency : ℕ → OmniStats D → OmniStats D
  logger_on_send_call_latency ms g = record g {
    last_send_call_ms = ms;
    send_call_min_ms = lower ms g.send_call_min_ms;
    send_call_max_ms = raise ms g.send_call_max_ms;
    send_call_avg_ms = ewma_update g.send_call_avg_ms (d.of_u64 ms) d.fifth;
  }

  abbrev pub logger_on_recv_call_latency : ℕ → OmniStats D → OmniStats D
  logger_on_recv_call_latency ms g = record g {
    last_recv_call_ms = ms;
    recv_call_min_ms = lower ms g.recv_call_min_ms;
    recv_call_max_ms = raise ms g.recv_call_max_ms;
    recv_call_avg_ms = ewma_update g.recv_call_avg_ms (d.of_u64 ms) d.fifth;
  }

  abbrev pub logger_on_proto_send_latency : ℕ → OmniStats D → OmniStats D
  logger_on_proto_send_latency ms g = record g {
    proto_send_avg_ms = ewma_update g.proto_send_avg_ms (d.of_u64 ms) d.fifth;
  }

  abbrev pub logger_on_proto_recv_latency : ℕ → OmniStats D → OmniStats D
  logger_on_proto_recv_latency ms g = record g {
    proto_recv_avg_ms = ewma_update g.proto_recv_avg_ms (d.of_u64 ms) d.fifth;
  }

  abbrev pub logger_calculate_throughput : ℕ → OmniStats D → D
  logger_calculate_throughput now g =
      let elapsed_ms = elapsed g.start_ms now in
      if elapsed_ms == 0
      then d.zero
      else d.div (d.of_u64 (add64 g.bytes_sent g.bytes_recv))
          (d.div (d.of_u64 elapsed_ms) d.thousand)

  -- The report, with the two readings of the clock, and the statistics behind it.
  unfoldable pub logger_print_performance_log : ℕ → ℕ → OmniStats D → PerfReport D × OmniStats D
  logger_print_performance_log now later g = (
    record {
      elapsed_ms = elapsed g.start_ms now;
      bytes_sent = g.bytes_sent;
      bytes_recv = g.bytes_recv;
      send_count = g.send_count;
      recv_count = g.recv_count;
      throughput = logger_calculate_throughput later g;
      send_call_last_ms = g.last_send_call_ms;
      send_call_min_ms = shown_min g.send_call_min_ms;
      send_call_max_ms = g.send_call_max_ms;
      send_call_avg_ms = g.send_call_avg_ms;
      recv_call_last_ms = g.last_recv_call_ms;
      recv_call_min_ms = shown_min g.recv_call_min_ms;
      recv_call_max_ms = g.recv_call_max_ms;
      recv_call_avg_ms = g.recv_call_avg_ms;
      proto_send_avg_ms = g.proto_send_avg_ms;
      proto_recv_avg_ms = g.proto_recv_avg_ms;
      last_rtt_ms = g.last_rtt_ms;
      max_rtt_ms = g.max_rtt_ms;
      kcp_retrans = g.kcp_retrans;
    },
    record g { last_report_ms = now },
  )

  -- What a call does to the statistics, apart from `logger_init`.
  abbrev pub applied : LogCall → OmniStats D → OmniStats D
  applied (init t) g = g
  applied (on_send n) g = logger_on_send n g
  applied (on_recv n) g = logger_on_recv n g
  applied (on_rtt t) g = logger_on_rtt t g
  applied (on_kcp_retrans n) g = logger_on_kcp_retrans n g
  applied (on_send_call_latency t) g = logger_on_send_call_latency t g
  applied (on_recv_call_latency t) g = logger_on_recv_call_latency t g
  applied (on_proto_send_latency t) g = logger_on_proto_send_latency t g
  applied (on_proto_recv_latency t) g = logger_on_proto_recv_latency t g
  applied (print_performance_log t) g = (logger_print_performance_log t t g).1
  applied (message l) g = g

  -- A call of the logger.
  abbrev pub called : Option String → Bool → LogCall → LoggerState D → LoggerState D
  called lvl_env opened (init t) g = logger_init lvl_env opened t g
  called lvl_env opened c g = record g { g_stats = applied c g.g_stats }

  -- A sequence of calls, in order.
  unfoldable pub replayed : Option String → Bool → List LogCall → LoggerState D → LoggerState D
  replayed lvl_env opened [] g = g
  replayed lvl_env opened (c ∷ calls) g = replayed lvl_env opened calls (called lvl_env opened c g)
