-- ===== src/Server/Process.antt =====
-- src/apps/server_main.c: `main` behind a successful `omni_init` and the receiving thread, as steps
-- between which the other thread can run.
pub mod Release
pub mod Enabled
pub mod Ending
pub mod Refinement
use omni_socket.Base.{ℕ, ◌+◌, List, [], ◌∷◌, Bool, true, false, not, ◌&&◌, if◌then◌else◌, run}

-- Where `main` stands: at `pthread_create`; before the test of the prompt; in `fgets`; sending a command; before the test
-- of the waiting loop; in `usleep`; before `running` is cleared; before `pthread_cancel`; in `pthread_join`; before
-- `omni_close`; before `fclose`; at its end.
pub data MainPc : Type 0 where
  creating : MainPc
  prompt_test : MainPc
  in_fgets : MainPc
  sending : MainPc
  wait_test : MainPc
  pausing : MainPc
  stopping : MainPc
  cancelling : MainPc
  joining : MainPc
  closing : MainPc
  file_closing : MainPc
  finished : MainPc

-- Where the receiving thread stands: not created; before the test of `running`; in `omni_recv`; in its pause; in
-- `fwrite` of a chunk; in `fflush` at FILE_END; writing a line about another message; before it clears `running`, where
-- it may write a line; at its end; cancelled.
pub data ReceiverPc : Type 0 where
  absent : ReceiverPc
  testing : ReceiverPc
  in_recv : ReceiverPc
  backing_off : ReceiverPc
  writing : ReceiverPc
  flushing : ReceiverPc
  reporting : ReceiverPc
  leaving : ReceiverPc
  ended : ReceiverPc
  cancelled : ReceiverPc

-- The process: the flags, a cancellation that is pending, the threads, whether the input is a terminal and the protocol
-- TCP, and how often the context and the file were closed.
pub record Process : Type 0 where
  pub running : Bool
  pub transfer_done : Bool
  pub cancel_sent : Bool
  pub main : MainPc
  pub receiver : ReceiverPc
  pub is_tty : Bool
  pub is_tcp : Bool
  pub ctx_closings : ℕ
  pub file_closings : ℕ

-- What `fgets` meets, without the newlines.
pub data PromptLine : Type 0 where
  no_line : PromptLine
  empty_line : PromptLine
  quit_line : PromptLine
  text_line : PromptLine

-- A message that was received; all but the first two, and what is no message, are only reported.
pub data Message : Type 0 where
  file_chunk : Message
  file_end : Message
  other_message : Message

-- A step of `main`, alone or with what it gets from outside; one of the receiving thread; the cancellation of that
-- thread.
pub data Event : Type 0 where
  main_next : Event
  thread_created : Bool → Event
  line_read : PromptLine → Event
  command_sent : Bool → Event
  receiver_next : Event
  recv_failed : Event
  recv_empty : Event
  recv_message : Message → Event
  chunk_written : Bool → Event
  cancel_acts : Event

-- A thread that is over can be joined.
abbrev pub is_over : ReceiverPc → Bool
is_over ended = true
is_over cancelled = true
is_over other = false

unfoldable pub main_step : MainPc → Process → Process
main_step prompt_test p =
    if p.running then record p { main = in_fgets } else record p { main = stopping }
main_step wait_test p =
    if p.running && not (p.transfer_done)
    then record p { main = pausing }
    else record p { main = stopping }
main_step pausing p = record p { main = wait_test }
main_step stopping p = record p { running = false; main = cancelling }
main_step cancelling p = record p { cancel_sent = true; main = joining }
main_step joining p = if is_over p.receiver then record p { main = closing } else p
main_step closing p = record p { ctx_closings = p.ctx_closings + 1; main = file_closing }
main_step file_closing p = record p { file_closings = p.file_closings + 1; main = finished }
main_step other p = p

unfoldable pub created_step : MainPc → Bool → Process → Process
created_step creating true p =
    if p.is_tty
    then record p { main = prompt_test; receiver = testing }
    else record p { main = wait_test; receiver = testing }
created_step creating false p = record p {
  ctx_closings = p.ctx_closings + 1;
  file_closings = p.file_closings + 1;
  main = finished;
}
created_step other ok p = p

unfoldable pub line_step : MainPc → PromptLine → Process → Process
line_step in_fgets no_line p = record p { main = stopping }
line_step in_fgets empty_line p = record p { main = prompt_test }
line_step in_fgets quit_line p = record p { main = stopping }
line_step in_fgets text_line p = record p { main = sending }
line_step other line p = p

-- What `send_app_message` returned.
unfoldable pub sent_step : MainPc → Bool → Process → Process
sent_step sending true p = record p { main = prompt_test }
sent_step sending false p = record p { main = stopping }
sent_step other ok p = p

unfoldable pub receiver_step : ReceiverPc → Process → Process
receiver_step testing p =
    if p.running then record p { receiver = in_recv } else record p { receiver = leaving }
receiver_step backing_off p = record p { receiver = testing }
receiver_step flushing p = record p { transfer_done = true; receiver = reporting }
receiver_step reporting p = record p { receiver = testing }
receiver_step leaving p = record p { running = false; receiver = ended }
receiver_step other p = p

-- `omni_recv` returned 0: for TCP the peer has closed the connection.
unfoldable pub empty_step : ReceiverPc → Process → Process
empty_step in_recv p =
    if p.is_tcp then record p { receiver = leaving } else record p { receiver = backing_off }
empty_step other p = p

unfoldable pub message_step : ReceiverPc → Message → Process → Process
message_step in_recv file_chunk p = record p { receiver = writing }
message_step in_recv file_end p = record p { receiver = flushing }
message_step in_recv other_message p = record p { receiver = reporting }
message_step other m p = p

abbrev pub failed_step : ReceiverPc → Process → Process
failed_step in_recv p = record p { receiver = leaving }
failed_step other p = p

unfoldable pub written_step : ReceiverPc → Bool → Process → Process
written_step writing true p = record p { receiver = testing }
written_step writing false p = record p { receiver = leaving }
written_step other ok p = p

-- A deferred cancellation acts in a call that is a cancellation point, as those that write are.
abbrev pub can_cancel : ReceiverPc → Bool
can_cancel in_recv = true
can_cancel backing_off = true
can_cancel writing = true
can_cancel flushing = true
can_cancel reporting = true
can_cancel leaving = true
can_cancel other = false

unfoldable pub step : Process → Event → Process
step p main_next = main_step p.main p
step p (thread_created ok) = created_step p.main ok p
step p (line_read line) = line_step p.main line p
step p (command_sent ok) = sent_step p.main ok p
step p receiver_next = receiver_step p.receiver p
step p recv_failed = failed_step p.receiver p
step p recv_empty = empty_step p.receiver p
step p (recv_message m) = message_step p.receiver m p
step p (chunk_written ok) = written_step p.receiver ok p
step p cancel_acts =
    if p.cancel_sent && can_cancel p.receiver then record p { receiver = cancelled } else p

-- Any interleaving.
abbrev pub steps : Process → List Event → Process
steps p es = run step p es

-- The process behind `omni_init`.
abbrev pub started : Bool → Bool → Process
started is_tty is_tcp = record {
  running = true;
  transfer_done = false;
  cancel_sent = false;
  main = creating;
  receiver = absent;
  is_tty = is_tty;
  is_tcp = is_tcp;
  ctx_closings = 0;
  file_closings = 0;
}
