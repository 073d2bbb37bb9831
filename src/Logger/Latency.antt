-- ===== src/Logger/Latency.antt =====
-- The latencies of src/core/logger.c: the least, the greatest and the last of each direction.
use omni_socket.Base.{ℕ, ◌≤◌, ◌≡◌, Bool, List, [], ◌∷◌, Option, none, some, min, max, arith, ◌⊎◌}
use omni_socket.Logger.{LogCall, init, on_send_call_latency, on_recv_call_latency}
use omni_socket.Logger.Counts.{NoInit, NoInit-head}
use omni_socket.Logger.Stats.{
  Double, OmniStats, LoggerState, logger_init, logger_print_performance_log, replayed, called,
  uint64_max,
}
use Prim.Native.String.{String}

-- The latency that a call reports, in one direction.
abbrev pub send_ms : LogCall → Option ℕ
send_ms (on_send_call_latency t) = some t
send_ms c = none

abbrev pub recv_ms : LogCall → Option ℕ
recv_ms (on_recv_call_latency t) = some t
recv_ms c = none

-- The least, the greatest and the last of the latencies.
abbrev pub least : (LogCall → Option ℕ) → List LogCall → ℕ
least f [] = uint64_max
least f (c ∷ calls) = elim (f c) [ none ↦ least f calls | some ms ↦ min ms (least f calls) ]

abbrev pub most : (LogCall → Option ℕ) → List LogCall → ℕ
most f [] = 0
most f (c ∷ calls) = elim (f c) [ none ↦ most f calls | some ms ↦ max ms (most f calls) ]

abbrev pub latest : (LogCall → Option ℕ) → ℕ → List LogCall → ℕ
latest f before [] = before
latest f before (c ∷ calls) = elim (f c) [
  | none ↦ latest f before calls
  | some ms ↦ latest f ms calls
]

pub least_bound : (f : LogCall → Option ℕ) (calls : List LogCall) → least f calls ≤ uint64_max
least_bound f [] = omega arith
least_bound f (c ∷ calls) = let ih = least_bound f calls in ground arith

abbrev Tracks : {D : Type 0} → OmniStats D → List LogCall → OmniStats D → Type 0
Tracks g calls h =
    (h.send_call_min_ms ≡ min g.send_call_min_ms (least send_ms calls))
    × (h.send_call_max_ms ≡ max g.send_call_max_ms (most send_ms calls))
    × (h.last_send_call_ms ≡ latest send_ms g.last_send_call_ms calls)
    × (h.recv_call_min_ms ≡ min g.recv_call_min_ms (least recv_ms calls))
    × (h.recv_call_max_ms ≡ max g.recv_call_max_ms (most recv_ms calls))
    × (h.last_recv_call_ms ≡ latest recv_ms g.last_recv_call_ms calls)

-- Nothing was measured yet, or the last measurement lies between the least and the greatest.
abbrev Ranged : ℕ → ℕ → ℕ → Type 0
Ranged least last most =
    ((least ≡ uint64_max) × (last ≡ 0) × (most ≡ 0)) ⊎ ((least ≤ last) × (last ≤ most))

abbrev IsRanged : {D : Type 0} → OmniStats D → Type 0
IsRanged g =
    Ranged g.send_call_min_ms g.last_send_call_ms g.send_call_max_ms
    × Ranged g.recv_call_min_ms g.last_recv_call_ms g.recv_call_max_ms

module _ {D : Type 0} (d : Double D) where
  called-IsRanged :
      (lvl_env : Option String) (opened : Bool) (c : LogCall) (g : LoggerState D)
      → IsRanged g.g_stats
      → IsRanged (called d lvl_env opened c g).g_stats
  unfolding logger_print_performance_log logger_init
  called-IsRanged lvl_env opened c g ranged = ground arith

  replayed-IsRanged :
      (lvl_env : Option String) (opened : Bool) (calls : List LogCall) (g : LoggerState D)
      → IsRanged g.g_stats
      → IsRanged (replayed d lvl_env opened calls g).g_stats
  unfolding replayed
  replayed-IsRanged lvl_env opened [] g ranged = ranged
  replayed-IsRanged lvl_env opened (c ∷ calls) g ranged =
      replayed-IsRanged lvl_env opened calls (called d lvl_env opened c g)
        (called-IsRanged lvl_env opened c g ranged)

  -- Every report printed behind a `logger_init`, whatever was called in between (another `logger_init`
  -- included), shows for each direction a least latency not above the last one, and that not above the greatest.
  pub report_ordered :
      (lvl_env : Option String) (opened : Bool) (t : ℕ) (calls : List LogCall) (g : LoggerState D)
      (now later : ℕ)
      → let r =
          (logger_print_performance_log d now later
            (replayed d lvl_env opened (init t ∷ calls) g).g_stats).0 in
        (r.send_call_min_ms ≤ r.send_call_last_ms)
        × (r.send_call_last_ms ≤ r.send_call_max_ms)
        × (r.recv_call_min_ms ≤ r.recv_call_last_ms)
        × (r.recv_call_last_ms ≤ r.recv_call_max_ms)
  unfolding replayed logger_init logger_print_performance_log
  report_ordered lvl_env opened t calls g now later =
      let inv =
        replayed-IsRanged lvl_env opened calls (logger_init d lvl_env opened t g) (ground arith) in
      ground arith

  called-Tracks :
      (lvl_env : Option String) (opened : Bool) (c : LogCall) (calls : List LogCall)
      (g : LoggerState D) (k : OmniStats D)
      → NoInit (c ∷ [])
      → Tracks (called d lvl_env opened c g).g_stats calls k
      → Tracks g.g_stats (c ∷ calls) k
  unfolding logger_print_performance_log
  called-Tracks lvl_env opened c calls g k quiet tracked = ground arith

  called-small :
      (lvl_env : Option String) (opened : Bool) (c : LogCall) (g : LoggerState D)
      → g.g_stats.send_call_min_ms ≤ uint64_max
      → g.g_stats.recv_call_min_ms ≤ uint64_max
      → let h = (called d lvl_env opened c g).g_stats in
        (h.send_call_min_ms ≤ uint64_max) × (h.recv_call_min_ms ≤ uint64_max)
  unfolding logger_print_performance_log logger_init
  called-small lvl_env opened c g small_send small_recv = ground arith

  replayed-Tracks :
      (lvl_env : Option String) (opened : Bool) (calls : List LogCall) (g : LoggerState D)
      → NoInit calls
      → (g.g_stats.send_call_min_ms ≤ uint64_max)
      → (g.g_stats.recv_call_min_ms ≤ uint64_max)
      → Tracks g.g_stats calls (replayed d lvl_env opened calls g).g_stats
  unfolding replayed
  replayed-Tracks lvl_env opened [] g quiet small_send small_recv = ground arith
  replayed-Tracks lvl_env opened (c ∷ calls) g quiet small_send small_recv =
      let (here, there) = NoInit-head c calls quiet in
      let (least_send, least_recv) = called-small lvl_env opened c g small_send small_recv in
      called-Tracks lvl_env opened c calls g
        (replayed d lvl_env opened calls (called d lvl_env opened c g)).g_stats here
        (replayed-Tracks lvl_env opened calls (called d lvl_env opened c g) there least_send
          least_recv)

  -- The latencies since `logger_init`: if none of the calls behind it is another `logger_init`, then the statistics
  -- hold for each direction the least of the latencies reported (2^64 - 1 without any), the greatest (0 without any)
  -- and the last (0 without any).
  pub replayed-latencies :
      (lvl_env : Option String) (opened : Bool) (t : ℕ) (calls : List LogCall) (g : LoggerState D)
      → NoInit calls
      → let h = (replayed d lvl_env opened (init t ∷ calls) g).g_stats in
        (h.send_call_min_ms ≡ least send_ms calls)
        × (h.send_call_max_ms ≡ most send_ms calls)
        × (h.last_send_call_ms ≡ latest send_ms 0 calls)
        × (h.recv_call_min_ms ≡ least recv_ms calls)
        × (h.recv_call_max_ms ≡ most recv_ms calls)
        × (h.last_recv_call_ms ≡ latest recv_ms 0 calls)
  unfolding replayed logger_init
  replayed-latencies lvl_env opened t calls g quiet =
      let tracked =
        replayed-Tracks lvl_env opened calls (logger_init d lvl_env opened t g) quiet (omega arith)
          (omega arith) in
      let bound_send = least_bound send_ms calls in
      let bound_recv = least_bound recv_ms calls in ground arith
