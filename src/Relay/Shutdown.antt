-- ===== src/Relay/Shutdown.antt =====
-- How src/apps/relay_main.c comes to its end once `running` is cleared.
use omni_socket.Base.{
  ℕ, ◌+◌, ◌≤◌, ◌<◌, ◌≡◌, Bool, true, false, List, [], ◌∷◌, Bytes, length, Option, none, some, ◌⊎◌,
  inl, inr, arith, CanRun, pos, if◌then◌else◌,
}
use omni_socket.Relay.{
  Thread, MainPc, ControlPc, System, Event, steps, step, started, receiving, in_recv, forward_wait,
  forward_hold, forwarded, stopping, joining, final_wait, final_hold, final_close, finished,
  reading, in_fgets, connecting, swap_wait, swap_hold, swapped, old_close, show_wait, show_hold,
  ended, main_next, recv_failed, recv_empty, recv_message, send_result, control_next, read_line,
  read_eof, init_result, main_step, send_step, read_step, init_step, control_step,
}
use omni_socket.Relay.Exclusion.{IsExclusive, mutual_exclusion, steps-IsExclusive}

abbrev is_free : Option Thread → Bool
is_free none = true
is_free (some t) = false

abbrev has_ended : ControlPc → Bool
has_ended ended = true
has_ended other = false

-- A thread can take this step: it is not at its end, the mutex that it waits for is free, the thread that it joins
-- has ended, and what comes from outside is what it waits for.
abbrev main_ready : MainPc → System → Bool
main_ready in_recv sys = false
main_ready (forward_wait bs) sys = is_free sys.st.tx_mu
main_ready (forward_hold tx bs) sys = false
main_ready joining sys = has_ended sys.control
main_ready final_wait sys = is_free sys.st.tx_mu
main_ready finished sys = false
main_ready other sys = true

abbrev in_call : MainPc → Bool
in_call in_recv = true
in_call other = false

abbrev in_send : MainPc → Bool
in_send (forward_hold tx bs) = true
in_send other = false

abbrev control_ready : ControlPc → System → Bool
control_ready in_fgets sys = false
control_ready (connecting ip port) sys = false
control_ready (swap_wait new ip port) sys = is_free sys.st.tx_mu
control_ready show_wait sys = is_free sys.st.tx_mu
control_ready ended sys = false
control_ready other sys = true

abbrev in_input : ControlPc → Bool
in_input in_fgets = true
in_input other = false

abbrev in_init : ControlPc → Bool
in_init (connecting ip port) = true
in_init other = false

abbrev pub enabled : Event → System → Bool
enabled main_next sys = main_ready sys.main sys
enabled recv_failed sys = in_call sys.main
enabled recv_empty sys = in_call sys.main
enabled (recv_message bs) sys = in_call sys.main
enabled (send_result m) sys = in_send sys.main
enabled control_next sys = control_ready sys.control sys
enabled (read_line line) sys = in_input sys.control
enabled read_eof sys = in_input sys.control
enabled (init_result ok) sys = in_init sys.control

-- How many steps each thread has left at most.
abbrev main_left : MainPc → ℕ
main_left in_recv = 10
main_left (forward_wait bs) = 9
main_left (forward_hold tx bs) = 8
main_left (forwarded bs m) = 7
main_left receiving = 6
main_left stopping = 5
main_left joining = 4
main_left final_wait = 3
main_left final_hold = 2
main_left (final_close tx) = 1
main_left finished = 0

abbrev control_left : ControlPc → ℕ
control_left in_fgets = 7
control_left (connecting ip port) = 6
control_left (swap_wait new ip port) = 5
control_left (swap_hold new ip port) = 4
control_left (swapped old) = 3
control_left (old_close old) = 2
control_left show_wait = 3
control_left show_hold = 2
control_left reading = 1
control_left ended = 0

abbrev left : System → ℕ
left sys = main_left sys.main + control_left sys.control

step-lt-left :
    (sys : System) (e : Event)
    → sys.st.running ≡ false
    → enabled e sys ≡ true
    → (left (step sys e) < left sys) × ((step sys e).st.running ≡ false)
unfolding step main_step send_step read_step init_step control_step
step-lt-left sys e stopped can = ground arith

-- A step that can be taken, if there is one.
abbrev control_turn : ControlPc → Event
control_turn in_fgets = read_eof
control_turn (connecting ip port) = init_result false
control_turn other = control_next

abbrev turn : MainPc → System → Event
turn in_recv sys = recv_failed
turn (forward_hold tx bs) sys = send_result (pos 0)
turn pc sys = if main_ready pc sys then main_next else control_turn sys.control

abbrev pub IsDone : System → Type 0
IsDone sys = (sys.main ≡ finished) × (sys.control ≡ ended)

-- No deadlock.
turn_ready :
    (sys : System) → IsExclusive sys → IsDone sys ⊎ (enabled (turn sys.main sys) sys ≡ true)
turn_ready sys exclusive = ground arith

CanRun-length :
    (sys : System) (es : List Event)
    → sys.st.running ≡ false
    → CanRun step enabled sys es
    → length es ≤ left sys
CanRun-length sys [] stopped run = omega arith
CanRun-length sys (e ∷ es) stopped (can, run) =
    let (less, still) = step-lt-left sys e stopped can in
    omega (arith, CanRun-length (step sys e) es still run)

left_bound : (sys : System) → left sys ≤ 17
left_bound sys = ground arith

-- The relay comes to its end: once `running` is cleared, whatever was done before, at most 17 further steps can be taken
-- by the two threads together, in any order, and at each point either both threads are at their end or there is a step
-- to take. The returns of `omni_recv`, `omni_send`, `omni_init` and `fgets` are steps too.
pub relay_ends :
    (connected : Bool) (ip : Bytes) (port : ℕ) (before after : List Event)
    → let sys = steps (started connected ip port) before in
      sys.st.running ≡ false
      → CanRun step enabled sys after
      → let sys' = steps sys after in
        (length after ≤ 17) × (IsDone sys' ⊎ ((e : Event) × (enabled e sys' ≡ true)))
relay_ends connected ip port before after stopped run =
    let sys = steps (started connected ip port) before in
    let exclusive = steps-IsExclusive sys after (mutual_exclusion connected ip port before) in
    (
      omega (arith, CanRun-length sys after stopped run, left_bound sys),
      elim (turn_ready (steps sys after) exclusive) [
        | inl done ↦ inl done
        | inr ready ↦ inr (turn (steps sys after).main (steps sys after), ready)
      ],
    )
