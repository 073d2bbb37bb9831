-- ===== src/Tests/Relay.antt =====
-- The relay in one interleaving: the target is switched while a message waits, and the relay quits.
use omni_socket.Base.{
  ◌+◌, ◌≤◌, ◌≡◌, refl, List, [], ◌∷◌, ◌++◌, Bytes, none, pos, true, length, ◌⊎◌, arith,
}
use omni_socket.Relay.{
  Event, steps, step, started, main_next, recv_failed, recv_message, send_result, control_next,
  read_line, init_result, ended, main_step, send_step, read_step, init_step, control_step,
}
use omni_socket.Relay.Commands.{Target, command_of, command_of-Target}
use omni_socket.Relay.Forwarding.{payloads, pending, messages}
use omni_socket.Relay.Targets.{IsRising, forwarded_in_order}
use omni_socket.Relay.Shutdown.{enabled, IsDone, relay_ends}
use omni_socket.Relay.Exclusion.{IsExclusive, mutual_exclusion}
use omni_socket.Relay.Ownership.{in_use, here_in, closings, closed_once, all_closed}

-- `10.0.0.1`
abbrev address : Bytes
address = 49 ∷ 48 ∷ 46 ∷ 48 ∷ 46 ∷ 48 ∷ 46 ∷ 49 ∷ []

-- `set a 80` and a newline
abbrev set_line : Bytes
set_line = 115 ∷ 101 ∷ 116 ∷ 32 ∷ 97 ∷ 32 ∷ 56 ∷ 48 ∷ 10 ∷ []

-- `quit` and a newline
abbrev quit_line : Bytes
quit_line = 113 ∷ 117 ∷ 105 ∷ 116 ∷ 10 ∷ []

abbrev events : List Event
events =
    main_next
    ∷ control_next
    ∷ read_line set_line
    ∷ recv_message (5 ∷ [])
    ∷ init_result true
    ∷ control_next
    ∷ main_next
    ∷ control_next
    ∷ control_next
    ∷ main_next
    ∷ control_next
    ∷ send_result (pos 1)
    ∷ main_next
    ∷ []

abbrev whole_run : List Event
whole_run =
    main_next
    ∷ control_next
    ∷ read_line set_line
    ∷ recv_message (5 ∷ [])
    ∷ init_result true
    ∷ control_next
    ∷ main_next
    ∷ control_next
    ∷ control_next
    ∷ main_next
    ∷ control_next
    ∷ send_result (pos 1)
    ∷ main_next
    ∷ control_next
    ∷ read_line quit_line
    ∷ main_next
    ∷ main_next
    ∷ main_next
    ∷ main_next
    ∷ main_next
    ∷ main_next
    ∷ []

mutual_exclusion_example : IsExclusive (steps (started true address 9000) events)
mutual_exclusion_example = mutual_exclusion true address 9000 events

closed_once_example :
    let sys = steps (started true address 9000) events in
    (here_in sys.st.tx_ctx 0 + closings sys.closed 0 ≤ 1)
    × (here_in (in_use sys.main) 0 + closings sys.closed 0 ≤ 1)
closed_once_example = closed_once true address 9000 events 0

all_closed_example :
    let sys = steps (started true address 9000) whole_run in
    (closings sys.closed 1 ≡ 1) × (sys.control ≡ ended) × (sys.st.tx_ctx ≡ none)
unfolding step main_step send_step read_step init_step control_step command_of
all_closed_example = all_closed true address 9000 whole_run 1 refl (omega arith)

command_of-Target_example : Target (command_of set_line)
command_of-Target_example = command_of-Target set_line

forwarded_in_order_example :
    let sys = steps (started true address 9000) events in
    (payloads sys.sent ++ pending sys.main ≡ messages (started true address 9000) events)
    × IsRising sys.sent
forwarded_in_order_example = forwarded_in_order address 9000 events

-- The relay quits while the main thread is in `omni_recv`.
abbrev until_quit : List Event
until_quit = main_next ∷ control_next ∷ read_line quit_line ∷ []

abbrev behind_quit : List Event
behind_quit = recv_failed ∷ main_next ∷ main_next ∷ []

relay_ends_example :
    let sys = steps (steps (started true address 9000) until_quit) behind_quit in
    (length behind_quit ≤ 17) × (IsDone sys ⊎ ((e : Event) × (enabled e sys ≡ true)))
unfolding step main_step send_step read_step init_step control_step command_of
relay_ends_example =
    relay_ends true address 9000 until_quit behind_quit refl (refl, (refl, (refl, tt)))
