-- ===== src/Relay/Exclusion.antt =====
-- The mutex of src/apps/relay_main.c: who is inside holds it.
use omni_socket.Base.{
  ℕ, ◌≡◌, refl, Bool, true, false, List, [], ◌∷◌, Bytes, Option, none, some, arith,
}
use omni_socket.Relay.{
  Thread, main_thread, control_thread, MainPc, ControlPc, System, Event, steps, step, started,
  forward_hold, forwarded, final_hold, swap_hold, swapped, show_hold, main_step, send_step,
  read_step, init_step, control_step,
}

-- Between a lock and the unlock.
abbrev pub main_inside : MainPc → Bool
main_inside (forward_hold tx bs) = true
main_inside (forwarded bs m) = true
main_inside final_hold = true
main_inside other = false

abbrev pub control_inside : ControlPc → Bool
control_inside (swap_hold new ip port) = true
control_inside (swapped old) = true
control_inside show_hold = true
control_inside other = false

-- The holder of the mutex is the thread that is inside.
abbrev pub Held : Option Thread → Bool → Bool → Type 0
Held none m c = (m ≡ false) × (c ≡ false)
Held (some main_thread) m c = (m ≡ true) × (c ≡ false)
Held (some control_thread) m c = (m ≡ false) × (c ≡ true)

abbrev pub IsExclusive : System → Type 0
IsExclusive sys = Held sys.st.tx_mu (main_inside sys.main) (control_inside sys.control)

pub step-IsExclusive : (sys : System) (e : Event) → IsExclusive sys → IsExclusive (step sys e)
unfolding step main_step send_step read_step init_step control_step
step-IsExclusive sys e held = ground arith

pub steps-IsExclusive :
    (sys : System) (es : List Event) → IsExclusive sys → IsExclusive (steps sys es)
steps-IsExclusive sys [] held = held
steps-IsExclusive sys (e ∷ es) held =
    steps-IsExclusive (step sys e) es (step-IsExclusive sys e held)

-- Mutual exclusion: in every interleaving of the two threads, from the start of the control thread on, the mutex is
-- free while neither thread stands between a lock and its unlock, and otherwise it is held by the one thread that does.
pub mutual_exclusion :
    (connected : Bool) (ip : Bytes) (port : ℕ) (events : List Event)
    → IsExclusive (steps (started connected ip port) events)
mutual_exclusion connected ip port events =
    steps-IsExclusive (started connected ip port) events (refl, refl)
