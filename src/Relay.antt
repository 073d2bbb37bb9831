-- ===== src/Relay.antt =====
-- src/apps/relay_main.c: the state that the two threads share, and what each of them does between two
-- points at which the other can run.
pub mod Options
pub mod Commands
pub mod Exclusion
pub mod Ownership
pub mod Forwarding
pub mod Targets
pub mod Loop
pub mod Shutdown
pub mod Refinement
use omni_socket.Base.{
  ℕ, ◌+◌, Bool, true, false, List, [], ◌∷◌, ◌++◌, Bytes, length, take, Option, none, some, ℤ, pos,
  eqb_ℤ, run, if◌then◌else◌,
}
use Commands.{Command, quit, show, set, empty, unknown, command_of}
use omni_socket.Wire.{omni_err_param}

pub data Thread : Type 0 where
  main_thread control_thread : Thread

-- `struct RelayState`. A context is the number of the successful `omni_init` that made it; `tx_mu`
-- is the thread that holds the mutex.
pub record RelayState : Type 0 where
  pub rx_open : Bool
  pub tx_ctx : Option ℕ
  pub tx_mu : Option Thread
  pub running : Bool
  pub target_ip : Bytes
  pub target_port : ℕ

-- Where the main thread stands: before the test of `running`; in `omni_recv`; before the lock with a message; holding
-- it, in `omni_send` on the context that `tx_ctx` pointed to as the call began, if there was one; after the call with
-- its result; after the loop; before `pthread_join`; before the last lock; holding it; after the unlock with the
-- context to close; at its end.
pub data MainPc : Type 0 where
  receiving : MainPc
  in_recv : MainPc
  forward_wait : Bytes → MainPc
  forward_hold : Option ℕ → Bytes → MainPc
  forwarded : Bytes → ℤ → MainPc
  stopping : MainPc
  joining : MainPc
  final_wait : MainPc
  final_hold : MainPc
  final_close : Option ℕ → MainPc
  finished : MainPc

-- Where the control thread stands: before the test of `running`; in `fgets`; before `omni_init`; before the lock with the new
-- context; holding it; after the swap with the old context, holding it; before closing the old
-- one; before the lock of `show`; holding it; at its end.
pub data ControlPc : Type 0 where
  reading : ControlPc
  in_fgets : ControlPc
  connecting : Bytes → ℕ → ControlPc
  swap_wait : ℕ → Bytes → ℕ → ControlPc
  swap_hold : ℕ → Bytes → ℕ → ControlPc
  swapped : Option ℕ → ControlPc
  old_close : Option ℕ → ControlPc
  show_wait : ControlPc
  show_hold : ControlPc
  ended : ControlPc

-- The process: its state, its threads, how many contexts were made, which were closed, what was sent
-- on which, how many messages were forwarded whole and how many not, what `show` printed.
pub record System : Type 0 where
  pub st : RelayState
  pub main : MainPc
  pub control : ControlPc
  pub made : ℕ
  pub closed : List ℕ
  pub sent : List (ℕ × Bytes)
  pub forward_ok : ℕ
  pub forward_failed : ℕ
  pub shown : List (Bytes × ℕ)

-- What a thread gets from outside as it runs on: nothing, the result of `omni_recv` (an error,
-- nothing, a message), the result of `omni_send`, a line or the end of the input, whether
-- `omni_init` succeeds.
pub data Event : Type 0 where
  main_next : Event
  recv_failed : Event
  recv_empty : Event
  recv_message : Bytes → Event
  send_result : ℤ → Event
  control_next : Event
  read_line : Bytes → Event
  read_eof : Event
  init_result : Bool → Event

abbrev pub locked : Thread → RelayState → RelayState
locked t st = record st { tx_mu = some t }

abbrev pub unlocked : RelayState → RelayState
unlocked st = record st { tx_mu = none }

-- `if (ctx) omni_close(ctx)`
abbrev pub closing : Option ℕ → List ℕ → List ℕ
closing none closed = closed
closing (some c) closed = c ∷ closed

-- A thread that waits for the mutex goes on if nobody holds it.
abbrev pub acquired : Option Thread → System → System → System
acquired none go stay = go
acquired (some t) go stay = stay

-- `pthread_join` returns once the control thread has ended.
abbrev pub joined : ControlPc → System → System → System
joined ended go stay = go
joined pc go stay = stay

-- `if (st.tx_ctx) m = omni_send(...)`
abbrev pub forward : Option ℕ → Bytes → ℤ → System → System
forward none bs m sys = record sys { main = forwarded bs omni_err_param }
forward (some c) bs m sys = record sys { main = forwarded bs m; sent = sys.sent ++ (c, bs) ∷ [] }

-- The unlock after `omni_send`, and the check of its result.
abbrev pub checked : Bytes → ℤ → System → System
checked bs m sys =
    if eqb_ℤ m (pos (length bs))
    then record sys { st = unlocked sys.st; main = receiving; forward_ok = sys.forward_ok + 1 }
    else record sys {
      st = unlocked sys.st;
      main = receiving;
      forward_failed = sys.forward_failed + 1;
    }

-- The main thread runs on by itself.
unfoldable pub main_step : MainPc → System → System
main_step receiving sys =
    if sys.st.running then record sys { main = in_recv } else record sys { main = stopping }
main_step in_recv sys = sys
main_step (forward_wait bs) sys =
    acquired sys.st.tx_mu
      (record sys { st = locked main_thread sys.st; main = forward_hold sys.st.tx_ctx bs }) sys
main_step (forward_hold tx bs) sys = sys
main_step (forwarded bs m) sys = checked bs m sys
main_step stopping sys = record sys {
  st = record (sys.st) { running = false; rx_open = false };
  main = joining;
}
main_step joining sys = joined sys.control (record sys { main = final_wait }) sys
main_step final_wait sys =
    acquired sys.st.tx_mu (record sys { st = locked main_thread sys.st; main = final_hold }) sys
main_step final_hold sys = record sys {
  st = record (unlocked sys.st) { tx_ctx = none };
  main = final_close sys.st.tx_ctx;
}
main_step (final_close tx) sys = record sys { main = finished; closed = closing tx sys.closed }
main_step finished sys = sys

-- What `omni_recv` returns to the main thread.
abbrev pub received : MainPc → System → MainPc → System
received in_recv sys pc = record sys { main = pc }
received other sys pc = sys

unfoldable pub send_step : MainPc → ℤ → System → System
send_step (forward_hold tx bs) m sys = forward tx bs m sys
send_step other m sys = sys

-- A command, once its line is read.
abbrev pub commanded : Command → System → System
commanded quit sys = record sys { st = record (sys.st) { running = false }; control = ended }
commanded show sys = record sys { control = show_wait }
commanded (set ip port) sys = record sys { control = connecting ip port }
commanded empty sys = record sys { control = reading }
commanded unknown sys = record sys { control = reading }

unfoldable pub read_step : ControlPc → Bytes → System → System
read_step in_fgets line sys = commanded (command_of line) sys
read_step other line sys = sys

-- The end of the input does not end the thread.
abbrev pub eof_step : ControlPc → System → System
eof_step in_fgets sys = record sys { control = reading }
eof_step other sys = sys

-- `omni_init` of `relay_set_target`.
unfoldable pub init_step : ControlPc → Bool → System → System
init_step (connecting ip port) true sys = record sys {
  control = swap_wait sys.made ip port;
  made = sys.made + 1;
}
init_step (connecting ip port) false sys = record sys { control = reading }
init_step other ok sys = sys

-- The control thread runs on by itself; `snprintf` keeps 63 bytes of the address.
unfoldable pub control_step : ControlPc → System → System
control_step reading sys =
    if sys.st.running then record sys { control = in_fgets } else record sys { control = ended }
control_step in_fgets sys = sys
control_step (connecting ip port) sys = sys
control_step (swap_wait new ip port) sys =
    acquired sys.st.tx_mu
      (record sys { st = locked control_thread sys.st; control = swap_hold new ip port }) sys
control_step (swap_hold new ip port) sys = record sys {
  st = record (sys.st) { tx_ctx = some new; target_ip = take 63 ip; target_port = port };
  control = swapped sys.st.tx_ctx;
}
control_step (swapped old) sys = record sys { st = unlocked sys.st; control = old_close old }
control_step (old_close old) sys = record sys { control = reading; closed = closing old sys.closed }
control_step show_wait sys =
    acquired sys.st.tx_mu (record sys { st = locked control_thread sys.st; control = show_hold })
      sys
control_step show_hold sys = record sys {
  st = unlocked sys.st;
  control = reading;
  shown = sys.shown ++ (sys.st.target_ip, sys.st.target_port) ∷ [];
}
control_step ended sys = sys

-- One step of one thread. An event that its thread does not wait for changes nothing.
unfoldable pub step : System → Event → System
step sys main_next = main_step sys.main sys
step sys recv_failed = received sys.main sys stopping
step sys recv_empty = received sys.main sys receiving
step sys (recv_message bs) = received sys.main sys (forward_wait bs)
step sys (send_result m) = send_step sys.main m sys
step sys control_next = control_step sys.control sys
step sys (read_line line) = read_step sys.control line sys
step sys read_eof = eof_step sys.control sys
step sys (init_result ok) = init_step sys.control ok sys

-- Any interleaving.
abbrev pub steps : System → List Event → System
steps = run step

-- The process as the control thread is started, with the answer of the first `relay_set_target`.
abbrev pub started : Bool → Bytes → ℕ → System
started connected ip port = record {
  st = record {
    rx_open = true;
    tx_ctx = if connected then some 0 else none;
    tx_mu = none;
    running = true;
    target_ip = if connected then take 63 ip else [];
    target_port = if connected then port else 0;
  };
  main = receiving;
  control = reading;
  made = if connected then 1 else 0;
  closed = [];
  sent = [];
  forward_ok = 0;
  forward_failed = 0;
  shown = [];
}
