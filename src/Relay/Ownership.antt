-- ===== src/Relay/Ownership.antt =====
-- The contexts of src/apps/relay_main.c: each is held in one place until it is closed.
use omni_socket.Base.{
  ℕ, ◌+◌, ◌≡◌, refl, ◌≤◌, ◌<◌, Bool, List, [], ◌∷◌, Bytes, Option, none, some, ltb, ◌==◌, arith,
  if◌then◌else◌,
}
use omni_socket.Relay.Exclusion.{IsExclusive, step-IsExclusive}
use omni_socket.Relay.{
  forward_hold, MainPc, ControlPc, System, Event, steps, step, started, main_step, send_step,
  read_step, init_step, control_step, final_close, swap_wait, swap_hold, swapped, old_close,
  finished, ended, final_wait, final_hold,
}

-- 1 where the number is `x`.
abbrev pub here : ℕ → ℕ → ℕ
here c x = if c == x then 1 else 0

abbrev pub here_in : Option ℕ → ℕ → ℕ
here_in none x = 0
here_in (some c) x = here c x

-- How often a context was closed.
abbrev pub closings : List ℕ → ℕ → ℕ
closings [] x = 0
closings (c ∷ closed) x = here c x + closings closed x

-- How many references to the context each thread has of its own.
abbrev main_holds : MainPc → ℕ → ℕ
main_holds (final_close tx) x = here_in tx x
main_holds other x = 0

abbrev control_holds : ControlPc → ℕ → ℕ
control_holds (swap_wait new ip port) x = here new x
control_holds (swap_hold new ip port) x = here new x
control_holds (swapped old) x = here_in old x
control_holds (old_close old) x = here_in old x
control_holds other x = 0

-- All places of the context `x`: one if it was made, none before.
abbrev IsOwned : ℕ → System → Type 0
IsOwned x sys =
    here_in sys.st.tx_ctx x
      + main_holds sys.main x
      + control_holds sys.control x
      + closings sys.closed x
    ≡ (if ltb x sys.made then 1 else 0)

step-IsOwned : (x : ℕ) (sys : System) (e : Event) → IsOwned x sys → IsOwned x (step sys e)
unfolding step main_step send_step read_step init_step control_step
step-IsOwned x sys e owned = ground arith

steps-IsOwned : (x : ℕ) (sys : System) (es : List Event) → IsOwned x sys → IsOwned x (steps sys es)
steps-IsOwned x sys [] owned = owned
steps-IsOwned x sys (e ∷ es) owned = steps-IsOwned x (step sys e) es (step-IsOwned x sys e owned)

started-IsOwned :
    (x : ℕ) (connected : Bool) (ip : Bytes) (port : ℕ) → IsOwned x (started connected ip port)
started-IsOwned x connected ip port = ground arith

-- The context that the main thread is in `omni_send` on.
abbrev pub in_use : MainPc → Option ℕ
in_use (forward_hold tx bs) = tx
in_use other = none

-- During the call it is the one that `tx_ctx` points to.
abbrev IsCurrent : MainPc → Option ℕ → Type 0
IsCurrent (forward_hold tx bs) now = tx ≡ now
IsCurrent other now = Unit {0}

-- Since the mutex keeps the control thread out.
step-IsCurrent :
    (sys : System) (e : Event)
    → IsExclusive sys
    → IsCurrent sys.main sys.st.tx_ctx
    → IsCurrent (step sys e).main (step sys e).st.tx_ctx
unfolding step main_step send_step read_step init_step control_step
step-IsCurrent sys e held current = ground arith

steps-IsCurrent :
    (sys : System) (es : List Event)
    → IsExclusive sys
    → IsCurrent sys.main sys.st.tx_ctx
    → let sys' = steps sys es in IsCurrent sys'.main sys'.st.tx_ctx
steps-IsCurrent sys [] held current = current
steps-IsCurrent sys (e ∷ es) held current =
    steps-IsCurrent (step sys e) es (step-IsExclusive sys e held)
      (step-IsCurrent sys e held current)

in_use-current :
    (pc : MainPc) (tx : Option ℕ) (x : ℕ) → IsCurrent pc tx → here_in (in_use pc) x ≤ here_in tx x
in_use-current pc tx x current = ground arith

-- No use after close: in every interleaving, no context is closed twice, the one that `tx_ctx` points to is not closed,
-- and neither is the one that the main thread is in `omni_send` on, at any moment from the start of the call to its end.
pub closed_once :
    (connected : Bool) (ip : Bytes) (port : ℕ) (events : List Event) (x : ℕ)
    → let sys = steps (started connected ip port) events in
      (here_in sys.st.tx_ctx x + closings sys.closed x ≤ 1)
      × (here_in (in_use sys.main) x + closings sys.closed x ≤ 1)
closed_once connected ip port events x =
    let start = started connected ip port in
    let sys = steps start events in
    let owned = steps-IsOwned x start events (started-IsOwned x connected ip port) in
    let once : here_in sys.st.tx_ctx x + closings sys.closed x ≤ 1 = ground arith in
    let current = steps-IsCurrent start events (refl, refl) tt in
    (once, omega (arith, once, in_use-current sys.main sys.st.tx_ctx x current))

-- What holds as the main thread winds up: the control thread has ended, and then `tx_ctx` is empty.
abbrev pub IsWound : MainPc → ControlPc → Option ℕ → Type 0
IsWound final_wait c tx = c ≡ ended
IsWound final_hold c tx = c ≡ ended
IsWound (final_close old) c tx = (c ≡ ended) × (tx ≡ none)
IsWound finished c tx = (c ≡ ended) × (tx ≡ none)
IsWound other c tx = Unit {0}

pub step-IsWound :
    (sys : System) (e : Event)
    → IsWound sys.main sys.control sys.st.tx_ctx
    → let sys' = step sys e in IsWound sys'.main sys'.control sys'.st.tx_ctx
unfolding step main_step send_step read_step init_step control_step
step-IsWound sys e wound = ground arith

steps-IsWound :
    (sys : System) (es : List Event)
    → IsWound sys.main sys.control sys.st.tx_ctx
    → let sys' = steps sys es in IsWound sys'.main sys'.control sys'.st.tx_ctx
steps-IsWound sys [] wound = wound
steps-IsWound sys (e ∷ es) wound = steps-IsWound (step sys e) es (step-IsWound sys e wound)

-- No leak: once the main thread is at its end, in every interleaving, each context that `relay_set_target` ever made
-- has been closed exactly once, the control thread has ended, and `tx_ctx` is empty.
pub all_closed :
    (connected : Bool) (ip : Bytes) (port : ℕ) (events : List Event) (x : ℕ)
    → let sys = steps (started connected ip port) events in
      sys.main ≡ finished
      → x < sys.made
      → (closings sys.closed x ≡ 1) × (sys.control ≡ ended) × (sys.st.tx_ctx ≡ none)
all_closed connected ip port events x at_end made =
    let owned =
      steps-IsOwned x (started connected ip port) events (started-IsOwned x connected ip port) in
    let wound = steps-IsWound (started connected ip port) events (ground arith) in
    ended_with (steps (started connected ip port) events) x at_end made owned wound
  where
    ended_with :
        (sys : System) (x : ℕ)
        → sys.main ≡ finished
        → x < sys.made
        → IsOwned x sys
        → IsWound sys.main sys.control sys.st.tx_ctx
        → (closings sys.closed x ≡ 1) × (sys.control ≡ ended) × (sys.st.tx_ctx ≡ none)
    ended_with sys x at_end made owned wound = ground arith
