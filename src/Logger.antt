-- ===== src/Logger.antt =====
-- src/core/logger.c and include/logger.h: the calls of the logger, the levels, and the lines of
-- `logger_log`. `Stats` has the statistics. The format strings are not modelled: elsewhere a call of
-- `logger_log` is its level alone, and here the formatted text is an argument.
pub mod Stats
pub mod Counts
pub mod Latency
pub mod Order
pub mod Escape
pub mod Levels
use omni_socket.Base.{
  ℕ, ◌+◌, Bool, Bytes, [], ◌∷◌, ◌++◌, length, take, Option, none, some, ltb, ◌==◌, if◌then◌else◌,
}
use Prim.Native.String.{String}
use text.Mathlib.Text.{◌==◌ as str_eq}

-- The levels that the source passes to `logger_log`.
pub data LogLevel : Type 0 where
  debug info warn error : LogLevel

-- A call of the logger, with the time that it reads where that changes the statistics.
pub data LogCall : Type 0 where
  init : ℕ → LogCall
  on_send : ℕ → LogCall
  on_recv : ℕ → LogCall
  on_rtt : ℕ → LogCall
  on_kcp_retrans : ℕ → LogCall
  on_send_call_latency : ℕ → LogCall
  on_recv_call_latency : ℕ → LogCall
  on_proto_send_latency : ℕ → LogCall
  on_proto_recv_latency : ℕ → LogCall
  print_performance_log : ℕ → LogCall
  message : LogLevel → LogCall

-- `level_to_int`; `none` is NULL.
unfoldable pub level_to_int : Option String → ℕ
level_to_int none = 1
level_to_int (some level) =
    if str_eq level "DEBUG"
    then 0
    else if str_eq level "INFO"
    then 1
    else if str_eq level "WARN"
    then 2
    else if str_eq level "ERROR"
    then 3
    else 1

-- What a byte becomes in `json_escape`.
abbrev pub escaped : ℕ → Bytes
escaped c =
    if c == 92
    then 92 ∷ c ∷ []
    else if c == 34
    then 92 ∷ c ∷ []
    else if c == 10
    then 92 ∷ 110 ∷ []
    else if c == 13
    then 92 ∷ 114 ∷ []
    else if c == 9
    then 92 ∷ 116 ∷ []
    else c ∷ []

-- The loop of `json_escape` with `j` bytes written: what it writes in front of the final 0.
unfoldable pub escape_loop : Bytes → ℕ → ℕ → Bytes
escape_loop [] dst_sz j = []
escape_loop (c ∷ src) dst_sz j =
    let rest = escape_loop src dst_sz (j + length (escaped c)) in
    if c == 0 then [] else if ltb (j + 2) dst_sz then escaped c ++ rest else []

-- `json_escape`; `src` is the string without its final 0.
abbrev pub json_escape : Bytes → ℕ → Bytes
json_escape src dst_sz = escape_loop src dst_sz 0 ++ 0 ∷ []

-- A line of `logger_log`: on standard error, and for the file if that is open.
pub record LogLine : Type 0 where
  pub level : String
  pub component : String
  pub text : Bytes
  pub json_text : Option Bytes

abbrev pub or_else : Option String → String → String
or_else none other = other
or_else (some s) other = s

-- `logger_log` on the text that the format gives; `msg_buf` holds 1023 bytes of it.
unfoldable pub logger_log : ℕ → Bool → Option String → Option String → Bytes → Option LogLine
logger_log min_level json_open level component text =
    let lvl = or_else level "INFO" in
    let msg_buf = take 1023 text in
    if ltb (level_to_int (some lvl)) min_level
    then none
    else some (record {
      level = lvl;
      component = or_else component "general";
      text = msg_buf;
      json_text = if json_open then some (json_escape msg_buf 2048) else none;
    })
