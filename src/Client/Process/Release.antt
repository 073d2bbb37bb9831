-- ===== src/Client/Process/Release.antt =====
-- What the client process of src/apps/client_main.c holds, and when it gives it back.
use omni_socket.Base.{ℕ, ◌+◌, ◌≤◌, ◌<◌, ◌||◌, ◌≡◌, Bool, true, false, List, ◌⊎◌, run-Kept, ℤ, arith}
use omni_socket.Client.Process.{
  MainPc, ReceiverPc, Process, Event, step, steps, started, creating, allocating, loop_test,
  stop_test, reading, sending, end_test, end_sending, tidying, waiting, pausing, stopping,
  cancelling, joining, closing, fail_closing, finished, absent, in_recv, main_step, created_step,
  allocated_step, read_step, sent_step, receiver_step, is_over,
}

-- What has been given back where `main` stands.
abbrev closed_by : MainPc → ℕ
closed_by finished = 1
closed_by other = 0

abbrev file_closed_by : MainPc → ℕ
file_closed_by (waiting i) = 1
file_closed_by (pausing i) = 1
file_closed_by stopping = 1
file_closed_by cancelling = 1
file_closed_by joining = 1
file_closed_by closing = 1
file_closed_by finished = 1
file_closed_by other = 0

-- The chunk is held from its allocation up to the end of the transfer.
abbrev chunks_held : MainPc → ℕ
chunks_held loop_test = 1
chunks_held stop_test = 1
chunks_held reading = 1
chunks_held sending = 1
chunks_held end_test = 1
chunks_held end_sending = 1
chunks_held tidying = 1
chunks_held other = 0

-- The receiving thread neither runs nor will.
abbrev pub is_gone : ReceiverPc → Bool
is_gone absent = true
is_gone other = is_over other

-- Where `main` has joined the receiving thread, or never had one, it is gone; before it is created it is not there.
abbrev IsJoined : MainPc → ReceiverPc → Type 0
IsJoined creating r = r ≡ absent
IsJoined closing r = is_gone r ≡ true
IsJoined fail_closing r = is_gone r ≡ true
IsJoined finished r = is_gone r ≡ true
IsJoined other r = Unit {0}

-- The chunk is allocated once at most.
abbrev IsOnce : MainPc → ℕ → Type 0
IsOnce creating n = n ≡ 0
IsOnce allocating n = n ≡ 0
IsOnce other n = n ≤ 1

abbrev IsKept : Process → Type 0
IsKept p =
    (p.ctx_closings ≡ closed_by p.main)
    × (p.file_closings ≡ file_closed_by p.main)
    × (p.chunk_mallocs ≡ p.chunk_frees + chunks_held p.main)
    × IsOnce p.main p.chunk_mallocs
    × IsJoined p.main p.receiver

step-IsKept : (p : Process) (e : Event) → IsKept p → IsKept (step p e)
unfolding step main_step created_step allocated_step read_step sent_step receiver_step
step-IsKept p e kept = ground arith

kept : (wait_seconds : ℤ) (events : List Event) → IsKept (steps (started wait_seconds) events)
kept wait_seconds events =
    run-Kept step IsKept step-IsKept (started wait_seconds) events (ground arith)

abbrev in_send : MainPc → Bool
in_send sending = true
in_send end_sending = true
in_send other = false

abbrev in_recv_call : ReceiverPc → Bool
in_recv_call in_recv = true
in_recv_call other = false

-- Where a thread calls a function of the context; where `main` reads the file; where it uses the chunk.
abbrev pub calls_context : Process → Bool
calls_context p = in_send p.main || in_recv_call p.receiver

abbrev pub reads_file : MainPc → Bool
reads_file reading = true
reads_file other = false

-- Nothing is used after it was given back: in every interleaving of the client's two threads with a signal, the context
-- and the file are closed and the chunk is freed at most once, no thread is in a call of a context that is closed, and
-- `main` reads the file only while it is open and into a chunk that is not freed.
pub client_uses_open :
    (wait_seconds : ℤ) (events : List Event)
    → let p = steps (started wait_seconds) events in
      (p.ctx_closings ≤ 1)
      × (p.file_closings ≤ 1)
      × (p.chunk_frees ≤ p.chunk_mallocs)
      × (p.chunk_mallocs ≤ 1)
      × ((p.ctx_closings ≡ 0) ⊎ (calls_context p ≡ false))
      × (((p.file_closings ≡ 0) × (p.chunk_frees < p.chunk_mallocs)) ⊎ (reads_file p.main ≡ false))
client_uses_open wait_seconds events = let p-IsKept = kept wait_seconds events in ground arith

-- Nothing is left: when `main` of the client is at its end, in every interleaving, whichever way it came there, the
-- context and the file are closed exactly once, the chunk is freed if it was allocated, and the receiving thread does
-- not run.
pub client_releases_all :
    (wait_seconds : ℤ) (events : List Event)
    → let p = steps (started wait_seconds) events in
      p.main ≡ finished
      → (p.ctx_closings ≡ 1)
        × (p.file_closings ≡ 1)
        × (p.chunk_frees ≡ p.chunk_mallocs)
        × (is_gone p.receiver ≡ true)
client_releases_all wait_seconds events done =
    let p-IsKept = kept wait_seconds events in ground arith
