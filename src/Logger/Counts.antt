-- ===== src/Logger/Counts.antt =====
-- The counters of src/core/logger.c against the calls made.
use omni_socket.Base.{ℕ, ◌+◌, ◌%◌, ◌^◌, ◌<◌, ◌≡◌, Bool, List, [], ◌∷◌, ◌++◌, Option, arith}
use omni_socket.Logger.{LogCall, init, on_send, on_recv, on_kcp_retrans}
use omni_socket.Logger.Stats.{
  Double, OmniStats, LoggerState, logger_init, logger_print_performance_log, replayed, called,
}
use Prim.Native.String.{String}

-- No call of `logger_init`.
abbrev pub NoInit : List LogCall → Type 0
NoInit [] = Unit {0}
NoInit (init t ∷ calls) = ⊥
NoInit (c ∷ calls) = NoInit calls

-- What one call adds to the counters of bytes and calls, in each direction, and of retransmissions.
abbrev pub bytes_out : LogCall → ℕ
bytes_out (on_send n) = n
bytes_out c = 0

abbrev pub bytes_in : LogCall → ℕ
bytes_in (on_recv n) = n
bytes_in c = 0

abbrev pub sends : LogCall → ℕ
sends (on_send n) = 1
sends c = 0

abbrev pub receipts : LogCall → ℕ
receipts (on_recv n) = 1
receipts c = 0

abbrev pub retrans : LogCall → ℕ
retrans (on_kcp_retrans n) = n
retrans c = 0

abbrev pub total : (LogCall → ℕ) → List LogCall → ℕ
total f [] = 0
total f (c ∷ calls) = f c + total f calls

pub total-append :
    (f : LogCall → ℕ) (xs ys : List LogCall) → total f (xs ++ ys) ≡ total f xs + total f ys
total-append f [] ys = omega arith
total-append f (x ∷ xs) ys = omega (arith, total-append f xs ys)

-- The counters of `h` are those of `g` and the totals of the calls, modulo 2^64.
abbrev Adds : {D : Type 0} → OmniStats D → List LogCall → OmniStats D → Type 0
Adds g calls h =
    (h.bytes_sent ≡ (g.bytes_sent + total bytes_out calls) % 2 ^ 64)
    × (h.bytes_recv ≡ (g.bytes_recv + total bytes_in calls) % 2 ^ 64)
    × (h.send_count ≡ (g.send_count + total sends calls) % 2 ^ 64)
    × (h.recv_count ≡ (g.recv_count + total receipts calls) % 2 ^ 64)
    × (h.kcp_retrans ≡ (g.kcp_retrans + total retrans calls) % 2 ^ 64)

abbrev Small : {D : Type 0} → OmniStats D → Type 0
Small g =
    (g.bytes_sent < 2 ^ 64)
    × (g.bytes_recv < 2 ^ 64)
    × (g.send_count < 2 ^ 64)
    × (g.recv_count < 2 ^ 64)
    × (g.kcp_retrans < 2 ^ 64)

mod_skip : (a b : ℕ) → (a % 2 ^ 64 + b) % 2 ^ 64 ≡ (a + b) % 2 ^ 64
mod_skip a b = omega arith

pub NoInit-head :
    (c : LogCall) (calls : List LogCall) → NoInit (c ∷ calls) → NoInit (c ∷ []) × NoInit calls
NoInit-head c calls quiet = ground arith

module _ {D : Type 0} (d : Double D) where
  called-Adds :
      (lvl_env : Option String) (opened : Bool) (c : LogCall) (g : LoggerState D)
      → NoInit (c ∷ [])
      → Small g.g_stats
      → Adds g.g_stats (c ∷ []) (called d lvl_env opened c g).g_stats
  unfolding logger_print_performance_log
  called-Adds lvl_env opened c g quiet small = ground arith

  Adds-trans :
      (g h k : OmniStats D) (c : LogCall) (calls : List LogCall)
      → Adds g (c ∷ []) h
      → Adds h calls k
      → Adds g (c ∷ calls) k
  Adds-trans g h k c calls gh hk = ground arith

  replayed-Adds :
      (lvl_env : Option String) (opened : Bool) (calls : List LogCall) (g : LoggerState D)
      → NoInit calls
      → Small g.g_stats
      → Adds g.g_stats calls (replayed d lvl_env opened calls g).g_stats
  unfolding replayed
  replayed-Adds lvl_env opened [] g quiet small = ground arith
  replayed-Adds lvl_env opened (c ∷ calls) g quiet small =
      let (here, there) = NoInit-head c calls quiet in
      let one = called-Adds lvl_env opened c g here small in
      Adds-trans g.g_stats (called d lvl_env opened c g).g_stats
        (replayed d lvl_env opened (c ∷ calls) g).g_stats c calls one
        (replayed-Adds lvl_env opened calls (called d lvl_env opened c g) there (ground arith))

  -- The counters since `logger_init`: if none of the calls behind it is another `logger_init`, then the
  -- statistics hold, each modulo 2^64, the sums of the bytes reported as sent and as received, the numbers of these
  -- two calls, and the sum of the retransmissions, whatever calls come between them.
  pub replayed-counts :
      (lvl_env : Option String) (opened : Bool) (t : ℕ) (calls : List LogCall) (g : LoggerState D)
      → NoInit calls
      → let h = (replayed d lvl_env opened (init t ∷ calls) g).g_stats in
        (h.bytes_sent ≡ total bytes_out calls % 2 ^ 64)
        × (h.bytes_recv ≡ total bytes_in calls % 2 ^ 64)
        × (h.send_count ≡ total sends calls % 2 ^ 64)
        × (h.recv_count ≡ total receipts calls % 2 ^ 64)
        × (h.kcp_retrans ≡ total retrans calls % 2 ^ 64)
  unfolding replayed logger_init
  replayed-counts lvl_env opened t calls g quiet =
      let sums =
        replayed-Adds lvl_env opened calls (logger_init d lvl_env opened t g) quiet
          (ground arith) in
      ground arith
