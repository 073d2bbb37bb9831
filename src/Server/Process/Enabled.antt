-- ===== src/Server/Process/Enabled.antt =====
-- Which steps of src/apps/server_main.c the process can take.
use omni_socket.Base.{ℕ, Bool, true, false, ◌&&◌}
use omni_socket.Server.Process.{
  MainPc, ReceiverPc, Process, Event, creating, in_fgets, sending, joining, finished, testing,
  in_recv, backing_off, writing, flushing, reporting, leaving, is_over, can_cancel, main_next,
  thread_created, line_read, command_sent, receiver_next, recv_failed, recv_empty, recv_message,
  chunk_written, cancel_acts,
}

-- Which events can happen: a step of `main` of its own, the return of its call, the same of the receiving thread, its
-- cancellation.
abbrev main_ready : MainPc → ReceiverPc → Bool
main_ready creating r = false
main_ready in_fgets r = false
main_ready sending r = false
main_ready joining r = is_over r
main_ready finished r = false
main_ready other r = true

abbrev at_create : MainPc → Bool
at_create creating = true
at_create other = false

abbrev at_fgets : MainPc → Bool
at_fgets in_fgets = true
at_fgets other = false

abbrev at_send : MainPc → Bool
at_send sending = true
at_send other = false

abbrev receiver_ready : ReceiverPc → Bool
receiver_ready testing = true
receiver_ready backing_off = true
receiver_ready flushing = true
receiver_ready reporting = true
receiver_ready leaving = true
receiver_ready other = false

abbrev at_recv : ReceiverPc → Bool
at_recv in_recv = true
at_recv other = false

abbrev at_write : ReceiverPc → Bool
at_write writing = true
at_write other = false

abbrev pub enabled : Event → Process → Bool
enabled main_next p = main_ready p.main p.receiver
enabled (thread_created ok) p = at_create p.main
enabled (line_read line) p = at_fgets p.main
enabled (command_sent ok) p = at_send p.main
enabled receiver_next p = receiver_ready p.receiver
enabled recv_failed p = at_recv p.receiver
enabled recv_empty p = at_recv p.receiver
enabled (recv_message m) p = at_recv p.receiver
enabled (chunk_written ok) p = at_write p.receiver
enabled cancel_acts p = p.cancel_sent && can_cancel p.receiver

-- The events of `main`.
abbrev pub of_main : Event → ℕ
of_main main_next = 1
of_main (thread_created ok) = 1
of_main (line_read line) = 1
of_main (command_sent ok) = 1
of_main other = 0

abbrev pub any : Event → ℕ
any e = 1
