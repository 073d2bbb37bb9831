-- ===== src/Server/Process/Ending.antt =====
-- How the server of src/apps/server_main.c comes to its end.
use omni_socket.Server.Process.Enabled.{enabled, of_main, any}
use omni_socket.Base.{
  ℕ, ◌+◌, ◌≤◌, ◌≡◌, Bool, true, false, ◌||◌, List, ◌⊎◌, inl, inr, arith, run-Kept, CanRun, total,
  total-le, if◌then◌else◌,
}
use omni_socket.Server.Process.{
  MainPc, ReceiverPc, Process, Event, step, steps, started, creating, prompt_test, in_fgets,
  sending, wait_test, pausing, stopping, cancelling, joining, closing, file_closing, finished,
  absent, testing, in_recv, backing_off, writing, flushing, reporting, leaving, main_step,
  created_step, line_step, sent_step, receiver_step, empty_step, message_step, written_step,
  is_over, main_next, thread_created, line_read, command_sent, receiver_next, recv_failed,
  recv_empty, recv_message, chunk_written, cancel_acts, no_line,
}

-- How many events of `main` are left at most.
abbrev main_left : MainPc → ℕ
main_left creating = 12
main_left in_fgets = 8
main_left sending = 7
main_left prompt_test = 6
main_left pausing = 7
main_left wait_test = 6
main_left stopping = 5
main_left cancelling = 4
main_left joining = 3
main_left closing = 2
main_left file_closing = 1
main_left finished = 0

abbrev receiver_left : ReceiverPc → ℕ
receiver_left in_recv = 5
receiver_left flushing = 4
receiver_left reporting = 3
receiver_left writing = 3
receiver_left backing_off = 3
receiver_left testing = 2
receiver_left leaving = 1
receiver_left other = 0

abbrev left : Process → ℕ
left p = main_left p.main + receiver_left p.receiver

-- The server has no terminal and the file has come.
abbrev in_prompt : MainPc → Bool
in_prompt prompt_test = true
in_prompt in_fgets = true
in_prompt sending = true
in_prompt other = false

abbrev IsWaiting : Process → Type 0
IsWaiting p = (p.is_tty ≡ false) × (in_prompt p.main ≡ false)

abbrev IsServed : Process → Type 0
IsServed p = (p.transfer_done ≡ true) × IsWaiting p

step-IsWaiting : (p : Process) (e : Event) → IsWaiting p → IsWaiting (step p e)
unfolding step main_step created_step line_step sent_step receiver_step empty_step message_step
    written_step
step-IsWaiting p e waits = ground arith

behind_file_step :
    (p : Process) (e : Event)
    → IsServed p
    → enabled e p ≡ true
    → (of_main e + main_left (step p e).main ≤ main_left p.main) × IsServed (step p e)
unfolding step main_step created_step line_step sent_step receiver_step empty_step message_step
    written_step
behind_file_step p e served ready = ground arith

clear_step :
    (p : Process) (e : Event)
    → p.running ≡ false
    → enabled e p ≡ true
    → (any e + left (step p e) ≤ left p) × ((step p e).running ≡ false)
unfolding step main_step created_step line_step sent_step receiver_step empty_step message_step
    written_step
clear_step p e stopped ready = ground arith

-- The receiving thread is there between its creation and the end, and `main` joins it behind its cancellation.
abbrev is_absent : ReceiverPc → Bool
is_absent absent = true
is_absent other = false

abbrev IsJoinable : MainPc → Bool → ReceiverPc → Type 0
IsJoinable creating sent r = is_absent r ≡ true
IsJoinable joining sent r = (is_absent r ≡ false) × (sent ≡ true)
IsJoinable closing sent r = is_over r ≡ true
IsJoinable file_closing sent r = is_over r ≡ true
IsJoinable finished sent r = (is_absent r || is_over r) ≡ true
IsJoinable other sent r = is_absent r ≡ false

abbrev IsSound : Process → Type 0
IsSound p = IsJoinable p.main p.cancel_sent p.receiver

step-IsSound : (p : Process) (e : Event) → IsSound p → IsSound (step p e)
unfolding step main_step created_step line_step sent_step receiver_step empty_step message_step
    written_step
step-IsSound p e sound = ground arith

-- An event that can happen and is no return of `omni_recv`, if `main` is not at its end.
abbrev receiver_turn : ReceiverPc → Event
receiver_turn in_recv = cancel_acts
receiver_turn writing = chunk_written false
receiver_turn other = receiver_next

abbrev turn : MainPc → ReceiverPc → Event
turn creating r = thread_created false
turn in_fgets r = line_read no_line
turn sending r = command_sent false
turn joining r = if is_over r then main_next else receiver_turn r
turn other r = main_next

abbrev pub from_recv : Event → Bool
from_recv recv_failed = true
from_recv recv_empty = true
from_recv (recv_message m) = true
from_recv other = false

abbrev pub IsDone : Process → Type 0
IsDone p = (p.main ≡ finished) × ((is_absent p.receiver || is_over p.receiver) ≡ true)

-- What can happen.
abbrev pub CanGoOn : Process → Type 0
CanGoOn p = (e : Event) × (enabled e p ≡ true) × (from_recv e ≡ false)

turn_ready :
    (p : Process)
    → IsSound p
    → IsDone p
      ⊎ ((enabled (turn p.main p.receiver) p ≡ true) × (from_recv (turn p.main p.receiver) ≡ false))
turn_ready p sound = ground arith

-- Whatever happened, the server is at its end or it can go on without a return of `omni_recv`.
goes_on :
    (is_tty is_tcp : Bool) (before after : List Event)
    → let p = steps (steps (started is_tty is_tcp) before) after in IsDone p ⊎ CanGoOn p
goes_on is_tty is_tcp before after =
    let p = steps (started is_tty is_tcp) before in
    let sound =
      run-Kept step IsSound step-IsSound p after
        (run-Kept step IsSound step-IsSound (started is_tty is_tcp) before (ground arith)) in
    let p' = steps p after in
    elim (turn_ready p' sound) [
      | inl done ↦ inl done
      | inr (ready, no_recv) ↦ inr (turn p'.main p'.receiver, ready, no_recv)
    ]

main_left_le : (p : Process) → main_left p.main ≤ 12
main_left_le p = ground arith

left_le : (p : Process) → left p ≤ 17
left_le p = ground arith

-- The server ends when the file has come: once FILE_END is handled, on a server without a terminal, whatever was done
-- before, `main` takes at most 12 further steps in every interleaving with the receiving thread, and at each point the
-- server is at its end or something can happen that is no return of `omni_recv`.
pub transfer_ends :
    (is_tcp : Bool) (before after : List Event)
    → let p = steps (started false is_tcp) before in
      p.transfer_done ≡ true
      → CanRun step enabled p after
      → let p' = steps p after in (total of_main after ≤ 12) × (IsDone p' ⊎ CanGoOn p')
transfer_ends is_tcp before after served can =
    let p = steps (started false is_tcp) before in
    let waits =
      run-Kept step IsWaiting step-IsWaiting (started false is_tcp) before (ground arith) in
    (
      omega (
        arith,
        main_left_le p,
        total-le step enabled of_main (λ q. main_left q.main) IsServed behind_file_step p after
            (served, waits) can,
      ),
      goes_on false is_tcp before after,
    )

-- The end of the connection ends the server: once `running` is cleared, by either thread, both threads together take at
-- most 17 further steps in any order, with a terminal or without, and at each point both are at their end or something
-- can happen that is no return of `omni_recv`. The line that `fgets` waits for is such a step.
pub server_ends :
    (is_tty is_tcp : Bool) (before after : List Event)
    → let p = steps (started is_tty is_tcp) before in
      p.running ≡ false
      → CanRun step enabled p after
      → let p' = steps p after in (total any after ≤ 17) × (IsDone p' ⊎ CanGoOn p')
server_ends is_tty is_tcp before after stopped can =
    let p = steps (started is_tty is_tcp) before in
    (
      omega (
        arith,
        left_le p,
        total-le step enabled any left (λ q. q.running ≡ false) clear_step p after stopped can,
      ),
      goes_on is_tty is_tcp before after,
    )
