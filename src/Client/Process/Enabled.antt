-- ===== src/Client/Process/Enabled.antt =====
-- Which steps of src/apps/client_main.c the process can take.
use omni_socket.Base.{ℕ, Bool, true, false, ◌&&◌}
use omni_socket.Client.Process.{
  MainPc, ReceiverPc, Process, Event, creating, allocating, reading, sending, end_sending, joining,
  fail_joining, finished, testing, in_recv, backing_off, handling, leaving, is_over, can_cancel,
  main_next, thread_created, chunk_allocated, file_read, message_sent, receiver_next, recv_failed,
  recv_empty, recv_message, cancel_acts, signal,
}

-- Which events can happen: a step of `main` of its own, the return of its call, the same of the receiving thread, its
-- cancellation. A signal can come at any time.
abbrev main_ready : MainPc → ReceiverPc → Bool
main_ready creating r = false
main_ready allocating r = false
main_ready reading r = false
main_ready sending r = false
main_ready end_sending r = false
main_ready joining r = is_over r
main_ready fail_joining r = is_over r
main_ready finished r = false
main_ready other r = true

abbrev at_create : MainPc → Bool
at_create creating = true
at_create other = false

abbrev at_malloc : MainPc → Bool
at_malloc allocating = true
at_malloc other = false

abbrev at_read : MainPc → Bool
at_read reading = true
at_read other = false

abbrev at_send : MainPc → Bool
at_send sending = true
at_send end_sending = true
at_send other = false

abbrev receiver_ready : ReceiverPc → Bool
receiver_ready testing = true
receiver_ready backing_off = true
receiver_ready handling = true
receiver_ready leaving = true
receiver_ready other = false

abbrev at_recv : ReceiverPc → Bool
at_recv in_recv = true
at_recv other = false

abbrev pub enabled : Event → Process → Bool
enabled main_next p = main_ready p.main p.receiver
enabled (thread_created ok) p = at_create p.main
enabled (chunk_allocated ok) p = at_malloc p.main
enabled (file_read r) p = at_read p.main
enabled (message_sent ok) p = at_send p.main
enabled receiver_next p = receiver_ready p.receiver
enabled recv_failed p = at_recv p.receiver
enabled recv_empty p = at_recv p.receiver
enabled recv_message p = at_recv p.receiver
enabled cancel_acts p = p.cancel_sent && can_cancel p.receiver
enabled signal p = true

-- The events of `main`, and those of either thread.
abbrev pub of_main : Event → ℕ
of_main main_next = 1
of_main (thread_created ok) = 1
of_main (chunk_allocated ok) = 1
of_main (file_read r) = 1
of_main (message_sent ok) = 1
of_main other = 0

abbrev pub of_threads : Event → ℕ
of_threads signal = 0
of_threads other = 1
