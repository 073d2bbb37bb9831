-- ===== src/Client/Process/Ending.antt =====
-- How the client of src/apps/client_main.c comes to its end.
use omni_socket.Client.Process.Enabled.{enabled, of_main, of_threads}
use omni_socket.Base.{
  ℕ, ◌+◌, ◌≤◌, ◌≡◌, Bool, true, false, ◌||◌, List, ℤ, ◌⊎◌, inl, inr, arith, run-Kept, CanRun, total,
  total-le, if◌then◌else◌,
}
use omni_socket.Client.Process.{
  MainPc, ReceiverPc, Process, Event, step, steps, started, creating, allocating, loop_test,
  stop_test, reading, sending, end_test, end_sending, tidying, waiting, pausing, stopping,
  cancelling, joining, closing, fail_cancelling, fail_joining, fail_closing, finished, absent,
  testing, in_recv, backing_off, handling, leaving, main_step, created_step, allocated_step,
  read_step, sent_step, receiver_step, is_over, main_next, thread_created, chunk_allocated,
  file_read, message_sent, receiver_next, recv_failed, recv_empty, recv_message, cancel_acts,
  at_eof,
}

-- How many events of `main` are left at most, where the test of `g_stop` counts for `n`.
abbrev main_left : ℕ → MainPc → ℕ
main_left n creating = 18
main_left n allocating = 15
main_left n stop_test = n
main_left n reading = 13
main_left n sending = 12
main_left n loop_test = 11
main_left n end_test = 9
main_left n end_sending = 8
main_left n tidying = 7
main_left n (pausing i) = 6
main_left n (waiting i) = 5
main_left n stopping = 4
main_left n cancelling = 3
main_left n joining = 2
main_left n closing = 1
main_left n fail_cancelling = 3
main_left n fail_joining = 2
main_left n fail_closing = 1
main_left n finished = 0

abbrev receiver_left : ReceiverPc → ℕ
receiver_left in_recv = 4
receiver_left handling = 3
receiver_left backing_off = 3
receiver_left testing = 2
receiver_left leaving = 1
receiver_left other = 0

abbrev left : Process → ℕ
left p = main_left 14 p.main + receiver_left p.receiver

stop_step :
    (p : Process) (e : Event)
    → p.g_stop ≡ true
    → enabled e p ≡ true
    → (of_main e + main_left 10 (step p e).main ≤ main_left 10 p.main) × ((step p e).g_stop ≡ true)
unfolding step main_step created_step allocated_step read_step sent_step receiver_step
stop_step p e stopped ready = ground arith

clear_step :
    (p : Process) (e : Event)
    → p.running ≡ false
    → enabled e p ≡ true
    → (of_threads e + left (step p e) ≤ left p) × ((step p e).running ≡ false)
unfolding step main_step created_step allocated_step read_step sent_step receiver_step
clear_step p e stopped ready = ground arith

-- The receiving thread is there between its creation and the end, and `main` joins it behind its cancellation.
abbrev is_absent : ReceiverPc → Bool
is_absent absent = true
is_absent other = false

abbrev IsJoinable : MainPc → Bool → ReceiverPc → Type 0
IsJoinable creating sent r = is_absent r ≡ true
IsJoinable joining sent r = (is_absent r ≡ false) × (sent ≡ true)
IsJoinable fail_joining sent r = (is_absent r ≡ false) × (sent ≡ true)
IsJoinable closing sent r = is_over r ≡ true
IsJoinable fail_closing sent r = is_over r ≡ true
IsJoinable finished sent r = (is_absent r || is_over r) ≡ true
IsJoinable other sent r = is_absent r ≡ false

abbrev IsSound : Process → Type 0
IsSound p = IsJoinable p.main p.cancel_sent p.receiver

step-IsSound : (p : Process) (e : Event) → IsSound p → IsSound (step p e)
unfolding step main_step created_step allocated_step read_step sent_step receiver_step
step-IsSound p e sound = ground arith

-- An event that can happen and is no return of `omni_recv`, if `main` is not at its end.
abbrev receiver_turn : ReceiverPc → Event
receiver_turn in_recv = cancel_acts
receiver_turn other = receiver_next

abbrev turn : MainPc → ReceiverPc → Event
turn creating r = thread_created false
turn allocating r = chunk_allocated false
turn reading r = file_read at_eof
turn sending r = message_sent false
turn end_sending r = message_sent false
turn joining r = if is_over r then main_next else receiver_turn r
turn fail_joining r = if is_over r then main_next else receiver_turn r
turn other r = main_next

abbrev pub from_recv : Event → Bool
from_recv recv_failed = true
from_recv recv_empty = true
from_recv recv_message = true
from_recv other = false

abbrev pub IsDone : Process → Type 0
IsDone p = (p.main ≡ finished) × ((is_absent p.receiver || is_over p.receiver) ≡ true)

turn_ready :
    (p : Process)
    → IsSound p
    → IsDone p
      ⊎ ((enabled (turn p.main p.receiver) p ≡ true) × (from_recv (turn p.main p.receiver) ≡ false))
turn_ready p sound = ground arith

-- What can happen.
abbrev pub CanGoOn : Process → Type 0
CanGoOn p = (e : Event) × (enabled e p ≡ true) × (from_recv e ≡ false)

-- Whatever happened, the client is at its end or it can go on without a return of `omni_recv`.
goes_on :
    (wait_seconds : ℤ) (before after : List Event)
    → let p = steps (steps (started wait_seconds) before) after in IsDone p ⊎ CanGoOn p
goes_on wait_seconds before after =
    let p = steps (started wait_seconds) before in
    let sound =
      run-Kept step IsSound step-IsSound p after
        (run-Kept step IsSound step-IsSound (started wait_seconds) before (ground arith)) in
    let p' = steps p after in
    elim (turn_ready p' sound) [
      | inl done ↦ inl done
      | inr (ready, no_recv) ↦ inr (turn p'.main p'.receiver, ready, no_recv)
    ]

main_left_le : (p : Process) → main_left 10 p.main ≤ 18
main_left_le p = ground arith

left_le : (p : Process) → left p ≤ 22
left_le p = ground arith

-- A signal ends the client: once `g_stop` is set, whatever was done before, `main` takes at most 18 further steps, in
-- every interleaving with the receiving thread and however long -w says to wait; and at each point the client is at its
-- end or something can happen that is no return of `omni_recv`, so that a silent peer does not keep it.
pub signal_ends :
    (wait_seconds : ℤ) (before after : List Event)
    → let p = steps (started wait_seconds) before in
      p.g_stop ≡ true
      → CanRun step enabled p after
      → let p' = steps p after in (total of_main after ≤ 18) × (IsDone p' ⊎ CanGoOn p')
signal_ends wait_seconds before after stopped can =
    let p = steps (started wait_seconds) before in
    (
      omega (
        arith,
        main_left_le p,
        total-le step enabled of_main (λ q. main_left 10 q.main) (λ q. q.g_stop ≡ true) stop_step p
            after stopped can,
      ),
      goes_on wait_seconds before after,
    )

-- The end of the connection ends the client: once `running` is cleared, by either thread, both threads together take at
-- most 22 further steps in any order, and at each point both are at their end or something can happen that is no return
-- of `omni_recv`.
pub client_ends :
    (wait_seconds : ℤ) (before after : List Event)
    → let p = steps (started wait_seconds) before in
      p.running ≡ false
      → CanRun step enabled p after
      → let p' = steps p after in (total of_threads after ≤ 22) × (IsDone p' ⊎ CanGoOn p')
client_ends wait_seconds before after stopped can =
    let p = steps (started wait_seconds) before in
    (
      omega (
        arith,
        left_le p,
        total-le step enabled of_threads left (λ q. q.running ≡ false) clear_step p after stopped
            can,
      ),
      goes_on wait_seconds before after,
    )
