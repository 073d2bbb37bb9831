-- ===== src/Runtime.antt =====
-- What every component runs in: the monotonic clock, and the calls made of the logger. The state of
-- the kernel behind a socket is the component's own, `conn`.
use omni_socket.Base.{ℕ, ◌+◌, ◌-◌, ◌%◌, ◌^◌, ◌<◌, arith, List, [], ◌∷◌, ◌++◌}
use omni_socket.Logger.{LogCall, LogLevel, message}
use omni_socket.Wire.{Timespec, omni_now_ms}

-- The readings of CLOCK_MONOTONIC in order, and how many were taken. Readings that go into the
-- text of a log line only are left out.
pub record Clock : Type 0 where
  pub reading : ℕ → Timespec
  pub taken : ℕ

pub record World (S : Type 0) : Type 0 where
  pub conn : S
  pub clock : Clock
  pub log : List LogCall

module _ {S : Type 0} where
  -- the value of `omni_now_ms()`, and the world after it
  abbrev pub now : World S → ℕ
  now w = omni_now_ms (w.clock.reading w.clock.taken)

  abbrev pub tick : World S → World S
  tick w = record w { clock = record (w.clock) { taken = w.clock.taken + 1 } }

  abbrev pub logged : World S → LogCall → World S
  logged w c = record w { log = w.log ++ c ∷ [] }

  abbrev pub all_logged : World S → List LogLevel → World S
  all_logged w [] = w
  all_logged w (l ∷ ls) = all_logged (logged w (message l)) ls

  abbrev pub with_conn : World S → S → World S
  with_conn w s = record w { conn = s }

pub now-lt : {S : Type 0} (w : World S) → now w < 2 ^ 64
unfolding omni_now_ms
now-lt w = omega arith

-- `t1 - t0` on uint64_t
abbrev pub elapsed : ℕ → ℕ → ℕ
elapsed t0 t1 = (t1 + 2 ^ 64 - t0) % 2 ^ 64
