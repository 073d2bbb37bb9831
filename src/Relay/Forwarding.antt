-- ===== src/Relay/Forwarding.antt =====
-- What src/apps/relay_main.c forwards while the target is switched, on whichever target.
use omni_socket.Base.{
  ℕ, ◌≡◌, refl, ap, ap₂, sym, subst, Option-cases, ◌⊎◌, inl, inr, ◌∙◌, List, [], ◌∷◌, ◌++◌, Bytes,
  Option, none, some, ℤ, arith, append-nil, append_assoc,
}
use omni_socket.Relay.{
  MainPc, System, Event, steps, step, in_recv, forward_wait, forward_hold, final_close, finished,
  main_next, recv_failed, recv_empty, recv_message, send_result, control_next, read_line, read_eof,
  init_result, main_step, send_step, read_step, init_step, control_step, forward,
}

-- The message that the main thread has received and not yet sent.
abbrev pub pending : MainPc → List Bytes
pending (forward_wait bs) = bs ∷ []
pending (forward_hold tx bs) = bs ∷ []
pending other = []

-- What was sent, on whichever context.
abbrev pub payloads : List (ℕ × Bytes) → List Bytes
payloads [] = []
payloads (d ∷ sent) = d.1 ∷ payloads sent

-- The message that a step brings to the main thread.
abbrev brought : Event → MainPc → List Bytes
brought (recv_message bs) in_recv = bs ∷ []
brought (recv_message bs) other = []
brought other pc = []

-- All messages received on the way.
abbrev pub messages : System → List Event → List Bytes
messages sys [] = []
messages sys (e ∷ es) = brought e sys.main ++ messages (step sys e) es

-- Until the main thread takes it down, there is a target.
abbrev HasTarget : MainPc → Option ℕ → Type 0
HasTarget (final_close old) tx = Unit {0}
HasTarget finished tx = Unit {0}
HasTarget (forward_hold none bs) tx = ⊥
HasTarget other none = ⊥
HasTarget other (some c) = Unit {0}

step-HasTarget :
    (sys : System) (e : Event)
    → HasTarget sys.main sys.st.tx_ctx
    → HasTarget (step sys e).main (step sys e).st.tx_ctx
unfolding step main_step send_step read_step init_step control_step
step-HasTarget sys e target = ground arith

pub payloads-snoc :
    (sent : List (ℕ × Bytes)) (c : ℕ) (bs : Bytes)
    → payloads (sent ++ (c, bs) ∷ []) ≡ payloads sent ++ bs ∷ []
payloads-snoc [] c bs = refl
payloads-snoc (d ∷ sent) c bs = ap (◌∷◌ d.1) (payloads-snoc sent c bs)

-- What is sent or held.
abbrev flow : System → List Bytes
flow sys = payloads sys.sent ++ pending sys.main

forward-flow :
    (tx : Option ℕ) (bs : Bytes) (m : ℤ) (sys : System)
    → HasTarget (forward_hold tx bs) (some 0)
    → flow (forward tx bs m sys) ≡ payloads sys.sent ++ bs ∷ []
forward-flow none bs m sys target = absurd target
forward-flow (some c) bs m sys target = append-nil _ ∙ payloads-snoc sys.sent c bs

-- The message to be sent next.
abbrev pub held : MainPc → Option (Option ℕ × Bytes)
held (forward_hold tx bs) = some (tx, bs)
held other = none

pub held_lem :
    (pc : MainPc) (tx : Option ℕ) (bs : Bytes) → held pc ≡ some (tx, bs) → pc ≡ forward_hold tx bs
held_lem pc tx bs holds = ground arith

send_step-flow :
    (pc : MainPc) (m : ℤ) (sys : System) (tx : Option ℕ) (bs : Bytes)
    → pc ≡ forward_hold tx bs
    → HasTarget pc sys.st.tx_ctx
    → flow (send_step pc m sys) ≡ payloads sys.sent ++ pending pc
unfolding send_step
send_step-flow pc m sys tx bs at target =
    subst
      (λ q. HasTarget q sys.st.tx_ctx → flow (send_step q m sys) ≡ payloads sys.sent ++ pending q)
      (sym at) (held_flow tx) target
  where
    held_flow :
        (tx : Option ℕ)
        → HasTarget (forward_hold tx bs) sys.st.tx_ctx
        → flow (forward tx bs m sys) ≡ payloads sys.sent ++ bs ∷ []
    held_flow none target = absurd target
    held_flow (some c) target = forward-flow (some c) bs m sys tt

-- A step that sends nothing.
abbrev pub IsQuiet : Event → MainPc → Type 0
IsQuiet (send_result m) pc = held pc ≡ none
IsQuiet other pc = Unit {0}

pub step_quiet :
    (sys : System) (e : Event)
    → IsQuiet e sys.main
    → ((step sys e).sent ≡ sys.sent)
      × (pending (step sys e).main ≡ pending sys.main ++ brought e sys.main)
unfolding step main_step send_step read_step init_step control_step
step_quiet sys e quiet = ground arith

step_quiet-flow :
    (sys : System) (e : Event)
    → IsQuiet e sys.main
    → flow (step sys e) ≡ flow sys ++ brought e sys.main
step_quiet-flow sys e quiet =
    let (sent, held_back) = step_quiet sys e quiet in
    ap₂ (λ ds bs. payloads ds ++ bs) sent held_back
    ∙ sym (append_assoc (payloads sys.sent) (pending sys.main) (brought e sys.main))

pub sends-cases : (e : Event) → ((pc : MainPc) → IsQuiet e pc) ⊎ ((m : ℤ) × (e ≡ send_result m))
sends-cases main_next = inl λ pc. tt
sends-cases recv_failed = inl λ pc. tt
sends-cases recv_empty = inl λ pc. tt
sends-cases (recv_message bs) = inl λ pc. tt
sends-cases (send_result m) = inr (m, refl)
sends-cases control_next = inl λ pc. tt
sends-cases (read_line line) = inl λ pc. tt
sends-cases read_eof = inl λ pc. tt
sends-cases (init_result ok) = inl λ pc. tt

send_result-flow :
    (sys : System) (m : ℤ)
    → HasTarget sys.main sys.st.tx_ctx
    → flow (step sys (send_result m)) ≡ flow sys ++ []
unfolding step
send_result-flow sys m target = elim (Option-cases (held sys.main)) [
  | inl quiet ↦ step_quiet-flow sys (send_result m) quiet
  | inr ((tx, bs), holds) ↦
      send_step-flow sys.main m sys tx bs (held_lem sys.main tx bs holds) target
      ∙ sym (append-nil _)
]

step-flow :
    (sys : System) (e : Event)
    → HasTarget sys.main sys.st.tx_ctx
    → flow (step sys e) ≡ flow sys ++ brought e sys.main
step-flow sys e target = elim (sends-cases e) [
  | inl quiet ↦ step_quiet-flow sys e (quiet sys.main)
  | inr (m, sends) ↦
      subst (λ x. flow (step sys x) ≡ flow sys ++ brought x sys.main) (sym sends)
        (send_result-flow sys m target)
]

pub steps-flow :
    (sys : System) (es : List Event)
    → HasTarget sys.main sys.st.tx_ctx
    → flow (steps sys es) ≡ flow sys ++ messages sys es
steps-flow sys [] target = sym (append-nil _)
steps-flow sys (e ∷ es) target =
    steps-flow (step sys e) es (step-HasTarget sys e target)
    ∙ ap (λ t. t ++ messages (step sys e) es) (step-flow sys e target)
    ∙ append_assoc (flow sys) (brought e sys.main) (messages (step sys e) es)
