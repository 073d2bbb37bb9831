-- ===== src/Relay/Targets.antt =====
-- The order in which src/apps/relay_main.c hands messages to its targets: none goes to an earlier target than a message
-- before it.
use omni_socket.Base.{
  ℕ, ◌≡◌, ◌≤◌, ◌<◌, List, [], ◌∷◌, ◌++◌, Bytes, Option, none, some, max, arith, subst, sym,
  Option-cases, ℤ, inl, inr, run-Kept, true,
}
use omni_socket.Relay.Forwarding.{
  payloads, pending, messages, steps-flow, IsQuiet, held, held_lem, step_quiet, sends-cases,
}
use omni_socket.Relay.Ownership.{IsWound, step-IsWound}
use omni_socket.Relay.{
  ended, MainPc, ControlPc, System, Event, steps, step, started, main_step, send_step, read_step,
  init_step, control_step, swap_wait, swap_hold, forward_hold, send_result, forward,
}

-- The last context made among those of the messages sent.
abbrev newest : List (ℕ × Bytes) → ℕ
newest [] = 0
newest (d ∷ sent) = max d.0 (newest sent)

newest-snoc :
    (sent : List (ℕ × Bytes)) (c : ℕ) (bs : Bytes)
    → newest (sent ++ (c, bs) ∷ []) ≡ max (newest sent) c
newest-snoc [] c bs = omega arith
newest-snoc (d ∷ sent) c bs = omega (arith, newest-snoc sent c bs)

-- No message was sent on an earlier context than one before it.
abbrev pub IsRising : List (ℕ × Bytes) → Type 0
IsRising [] = Unit {0}
IsRising (d ∷ []) = Unit {0}
IsRising (d ∷ e ∷ sent) = (d.0 ≤ e.0) × IsRising (e ∷ sent)

IsRising-snoc :
    (sent : List (ℕ × Bytes)) (c : ℕ) (bs : Bytes)
    → IsRising sent
    → newest sent ≤ c
    → IsRising (sent ++ (c, bs) ∷ [])
IsRising-snoc [] c bs rising low = tt
IsRising-snoc (d ∷ []) c bs rising low = (omega (arith, low), tt)
IsRising-snoc (d ∷ e ∷ sent) c bs (here, rising) low =
    (here, IsRising-snoc (e ∷ sent) c bs rising (omega (arith, low)))

-- What bounds the contexts used so far, at each place of the main thread and of the control thread.
abbrev MainBelow : ℕ → MainPc → Option ℕ → Type 0
MainBelow n (forward_hold (some d) bs) (some c) = (n ≤ d) × (d ≤ c)
MainBelow n (forward_hold (some d) bs) none = ⊥
MainBelow n pc (some c) = n ≤ c
MainBelow n pc none = Unit {0}

abbrev ControlBelow : ControlPc → Option ℕ → ℕ → Type 0
ControlBelow (swap_wait new ip port) (some c) made = (c ≤ new) × (new < made)
ControlBelow (swap_hold new ip port) (some c) made = (c ≤ new) × (new < made)
ControlBelow pc (some c) made = c < made
ControlBelow ended none made = Unit {0}
ControlBelow pc none made = ⊥

abbrev IsBelow : System → Type 0
IsBelow sys =
    MainBelow (newest sys.sent) sys.main sys.st.tx_ctx
    × ControlBelow sys.control sys.st.tx_ctx sys.made

step_quiet-IsBelow :
    (sys : System) (e : Event)
    → IsQuiet e sys.main
    → IsWound sys.main sys.control sys.st.tx_ctx
    → IsBelow sys
    → IsBelow (step sys e)
unfolding step main_step send_step read_step init_step control_step
step_quiet-IsBelow sys e quiet wound below = ground arith

-- Sending on the context that was current when the call began.
forward-Kept :
    (tx : Option ℕ) (bs : Bytes) (m : ℤ) (sys : System)
    → MainBelow (newest sys.sent) (forward_hold tx bs) sys.st.tx_ctx
    → ControlBelow sys.control sys.st.tx_ctx sys.made
    → IsRising sys.sent
    → IsBelow (forward tx bs m sys) × IsRising (forward tx bs m sys).sent
forward-Kept none bs m sys low below rising = (ground arith, rising)
forward-Kept (some d) bs m sys low below rising =
    let top = newest-snoc sys.sent d bs in
    let under : newest sys.sent ≤ d = ground arith in
    (ground arith, IsRising-snoc sys.sent d bs rising under)

abbrev IsKept : System → Type 0
IsKept sys = IsWound sys.main sys.control sys.st.tx_ctx × IsBelow sys × IsRising sys.sent

send-Kept :
    (pc : MainPc) (tx : Option ℕ) (bs : Bytes) (m : ℤ) (sys : System)
    → pc ≡ forward_hold tx bs
    → MainBelow (newest sys.sent) pc sys.st.tx_ctx
    → ControlBelow sys.control sys.st.tx_ctx sys.made
    → IsRising sys.sent
    → IsBelow (send_step pc m sys) × IsRising (send_step pc m sys).sent
unfolding send_step
send-Kept pc tx bs m sys at low below rising =
    subst
      (λ q.
        MainBelow (newest sys.sent) q sys.st.tx_ctx
        → IsBelow (send_step q m sys) × IsRising (send_step q m sys).sent)
      (sym at) (λ low. forward-Kept tx bs m sys low below rising) low

quiet-Kept : (sys : System) (e : Event) → IsQuiet e sys.main → IsKept sys → IsKept (step sys e)
quiet-Kept sys e quiet (wound, below, rising) = (
  step-IsWound sys e wound,
  step_quiet-IsBelow sys e quiet wound below,
  subst IsRising (sym (step_quiet sys e quiet).0) rising,
)

send_result-Kept : (sys : System) (m : ℤ) → IsKept sys → IsKept (step sys (send_result m))
unfolding step
send_result-Kept sys m kept = elim (Option-cases (held sys.main)) [
  | inl quiet ↦ quiet-Kept sys (send_result m) quiet kept
  | inr ((tx, bs), holds) ↦
      let (wound, below, rising) = kept in
      let (below', rising') =
        send-Kept sys.main tx bs m sys (held_lem sys.main tx bs holds) below.0 below.1 rising in
      (step-IsWound sys (send_result m) wound, below', rising')
]

step-IsKept : (sys : System) (e : Event) → IsKept sys → IsKept (step sys e)
step-IsKept sys e kept = elim (sends-cases e) [
  | inl quiet ↦ quiet-Kept sys e (quiet sys.main) kept
  | inr (m, sends) ↦ subst (λ x. IsKept (step sys x)) (sym sends) (send_result-Kept sys m kept)
]

steps-IsRising :
    (ip : Bytes) (port : ℕ) (events : List Event)
    → IsRising (steps (started true ip port) events).sent
steps-IsRising ip port events =
    (run-Kept step IsKept step-IsKept (started true ip port) events
      (tt, (omega arith, omega arith), tt)).2

-- Each message is handed on, once and in order, however the target is switched: where the first target was reached, in
-- every interleaving, the payloads handed to `omni_send`, on whichever contexts and whatever it returns, followed by the
-- one message that the main thread may hold, are all the messages that `omni_recv` returned, in their order; and no
-- message is handed to a target from before the one that an earlier message was handed to.
pub forwarded_in_order :
    (ip : Bytes) (port : ℕ) (events : List Event)
    → let sys = steps (started true ip port) events in
      (payloads sys.sent ++ pending sys.main ≡ messages (started true ip port) events)
      × IsRising sys.sent
forwarded_in_order ip port events =
    (steps-flow (started true ip port) events (ground arith), steps-IsRising ip port events)
