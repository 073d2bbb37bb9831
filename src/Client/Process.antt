-- ===== src/Client/Process.antt =====
-- src/apps/client_main.c: `main` behind a successful `omni_init` and the receiving thread, as steps
-- between which the other thread or the signal handler can run.
pub mod Release
pub mod Enabled
pub mod Ending
pub mod Refinement
use omni_socket.Base.{
  ℕ, suc, ◌+◌, List, [], ◌∷◌, Bool, true, false, not, ◌&&◌, ℤ, pos, negsuc, ltb, if◌then◌else◌, run,
}

-- Where `main` stands: at `pthread_create`; at `malloc` of the chunk; before the test of `running`; before that
-- of `g_stop`; in `fread`; sending a chunk; behind the loop; sending FILE_END; before `free` and `fclose`;
-- before the test of the waiting loop, with its counter; in `sleep`; before `running` is cleared; before
-- `pthread_cancel`; in `pthread_join`; before `omni_close`; and, where the chunk was not allocated, before
-- `pthread_cancel`, in `pthread_join` and before the two are closed; at its end.
pub data MainPc : Type 0 where
  creating : MainPc
  allocating : MainPc
  loop_test : MainPc
  stop_test : MainPc
  reading : MainPc
  sending : MainPc
  end_test : MainPc
  end_sending : MainPc
  tidying : MainPc
  waiting : ℕ → MainPc
  pausing : ℕ → MainPc
  stopping : MainPc
  cancelling : MainPc
  joining : MainPc
  closing : MainPc
  fail_cancelling : MainPc
  fail_joining : MainPc
  fail_closing : MainPc
  finished : MainPc

-- Where the receiving thread stands: not created; before the test of `running`; in `omni_recv`; in its pause; at
-- a message; before it clears `running`, where it may write a line; at its end; cancelled.
pub data ReceiverPc : Type 0 where
  absent : ReceiverPc
  testing : ReceiverPc
  in_recv : ReceiverPc
  backing_off : ReceiverPc
  handling : ReceiverPc
  leaving : ReceiverPc
  ended : ReceiverPc
  cancelled : ReceiverPc

-- The process: the flags, a cancellation that is pending, the threads, the argument of -w, and how often the
-- context and the file were closed and the chunk was allocated and freed.
pub record Process : Type 0 where
  pub running : Bool
  pub g_stop : Bool
  pub cancel_sent : Bool
  pub main : MainPc
  pub receiver : ReceiverPc
  pub wait_seconds : ℤ
  pub ctx_closings : ℕ
  pub file_closings : ℕ
  pub chunk_mallocs : ℕ
  pub chunk_frees : ℕ

-- What `fread` meets.
pub data FileRead : Type 0 where
  some_bytes : FileRead
  at_eof : FileRead
  failed : FileRead

-- A step of `main`, alone or with what it gets from outside; one of the receiving thread; the cancellation of that
-- thread; a signal.
pub data Event : Type 0 where
  main_next : Event
  thread_created : Bool → Event
  chunk_allocated : Bool → Event
  file_read : FileRead → Event
  message_sent : Bool → Event
  receiver_next : Event
  recv_failed : Event
  recv_empty : Event
  recv_message : Event
  cancel_acts : Event
  signal : Event

-- `if (wait_seconds < 0)` and the condition of either loop.
abbrev pub keeps_waiting : Process → ℕ → Bool
keeps_waiting p i = elim (p.wait_seconds) [
  | pos n ↦ ltb i n && (p.running && not (p.g_stop))
  | negsuc n ↦ p.running && not (p.g_stop)
]

-- A thread that is over can be joined.
abbrev pub is_over : ReceiverPc → Bool
is_over ended = true
is_over cancelled = true
is_over other = false

unfoldable pub main_step : MainPc → Process → Process
main_step loop_test p =
    if p.running then record p { main = stop_test } else record p { main = end_test }
main_step stop_test p =
    if p.g_stop then record p { running = false; main = end_test } else record p { main = reading }
main_step end_test p =
    if p.running then record p { main = end_sending } else record p { main = tidying }
main_step tidying p = record p {
  main = waiting 0;
  file_closings = p.file_closings + 1;
  chunk_frees = p.chunk_frees + 1;
}
main_step (waiting i) p =
    if keeps_waiting p i then record p { main = pausing i } else record p { main = stopping }
main_step (pausing i) p = record p { main = waiting (suc i) }
main_step stopping p = record p { running = false; main = cancelling }
main_step cancelling p = record p { cancel_sent = true; main = joining }
main_step joining p = if is_over p.receiver then record p { main = closing } else p
main_step closing p = record p { ctx_closings = p.ctx_closings + 1; main = finished }
main_step fail_cancelling p = record p { cancel_sent = true; main = fail_joining }
main_step fail_joining p = if is_over p.receiver then record p { main = fail_closing } else p
main_step fail_closing p = record p {
  ctx_closings = p.ctx_closings + 1;
  file_closings = p.file_closings + 1;
  main = finished;
}
main_step other p = p

unfoldable pub created_step : MainPc → Bool → Process → Process
created_step creating true p = record p { main = allocating; receiver = testing }
created_step creating false p = record p {
  running = false;
  file_closings = p.file_closings + 1;
  ctx_closings = p.ctx_closings + 1;
  main = finished;
}
created_step other ok p = p

unfoldable pub allocated_step : MainPc → Bool → Process → Process
allocated_step allocating true p = record p {
  main = loop_test;
  chunk_mallocs = p.chunk_mallocs + 1;
}
allocated_step allocating false p = record p { running = false; main = fail_cancelling }
allocated_step other ok p = p

unfoldable pub read_step : MainPc → FileRead → Process → Process
read_step reading some_bytes p = record p { main = sending }
read_step reading at_eof p = record p { main = end_test }
read_step reading failed p = record p { running = false; main = end_test }
read_step other r p = p

-- What `send_app_message` returned, of a chunk or of FILE_END.
unfoldable pub sent_step : MainPc → Bool → Process → Process
sent_step sending true p = record p { main = loop_test }
sent_step sending false p = record p { running = false; main = end_test }
sent_step end_sending true p = record p { main = tidying }
sent_step end_sending false p = record p { running = false; main = tidying }
sent_step other ok p = p

unfoldable pub receiver_step : ReceiverPc → Process → Process
receiver_step testing p =
    if p.running then record p { receiver = in_recv } else record p { receiver = leaving }
receiver_step backing_off p = record p { receiver = testing }
receiver_step handling p = record p { receiver = testing }
receiver_step leaving p = record p { running = false; receiver = ended }
receiver_step other p = p

abbrev pub received : ReceiverPc → ReceiverPc → Process → Process
received in_recv next p = record p { receiver = next }
received other next p = p

-- A deferred cancellation acts in a call that is a cancellation point, as those that write a line are.
abbrev pub can_cancel : ReceiverPc → Bool
can_cancel in_recv = true
can_cancel backing_off = true
can_cancel handling = true
can_cancel leaving = true
can_cancel other = false

unfoldable pub step : Process → Event → Process
step p main_next = main_step p.main p
step p (thread_created ok) = created_step p.main ok p
step p (chunk_allocated ok) = allocated_step p.main ok p
step p (file_read r) = read_step p.main r p
step p (message_sent ok) = sent_step p.main ok p
step p receiver_next = receiver_step p.receiver p
step p recv_failed = received p.receiver leaving p
step p recv_empty = received p.receiver backing_off p
step p recv_message = received p.receiver handling p
step p cancel_acts =
    if p.cancel_sent && can_cancel p.receiver then record p { receiver = cancelled } else p
step p signal = record p { g_stop = true }

-- Any interleaving.
abbrev pub steps : Process → List Event → Process
steps p es = run step p es

-- The process behind `omni_init`.
abbrev pub started : ℤ → Process
started wait_seconds = record {
  running = true;
  g_stop = false;
  cancel_sent = false;
  main = creating;
  receiver = absent;
  wait_seconds = wait_seconds;
  ctx_closings = 0;
  file_closings = 0;
  chunk_mallocs = 0;
  chunk_frees = 0;
}
