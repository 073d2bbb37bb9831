-- ===== src/Relay/Refinement.antt =====
-- The main loop of src/apps/relay_main.c, once as the function that makes its calls and once as steps of the process.
use omni_socket.Base.{
  ℕ, zero, suc, ◌+◌, ◌≡◌, refl, ap, ◌∙◌, sym, ◌++◌, [], ◌∷◌, List, Bytes, length, ℤ, pos, true,
  Option, none, some, eqb_ℤ, append-nil, subst, All, ◌≤◌, append_assoc, inl, inr, ◌⊎◌, arith,
  RunsTo, RunsTo-append, ==_refl,
}
use omni_socket.App.Feed.{Source, Steady}
use omni_socket.Network.{OmniContext, send_of, recv_of}
use omni_socket.Relay.{
  Event, System, MainPc, step, main_step, send_step, receiving, stopping, main_next, recv_failed,
  recv_empty, recv_message, send_result,
}
use omni_socket.Relay.Forwarding.{payloads, payloads-snoc}
use omni_socket.Relay.Loop.{
  loop_events, relay_round, relay_loop, relay_buf_size, stays, ends, moves, relay_round-Moves,
}
use omni_socket.Relay.Shutdown.{enabled}
use omni_socket.Runtime.{World}

-- The process while it runs with a target and nobody holds the mutex, with its main thread at this place.
abbrev pub at : MainPc → ℕ → System → System
at pc c sys = record sys {
  main = pc;
  st = record (sys.st) { running = true; tx_mu = none; tx_ctx = some c };
}

-- Behind a message that was handed to `omni_send`, which took it whole.
abbrev passed : ℕ → Bytes → System → System
passed c bs sys = record sys { sent = sys.sent ++ (c, bs) ∷ []; forward_ok = sys.forward_ok + 1 }

failed-RunsTo :
    (c : ℕ) (sys : System)
    → RunsTo step enabled (at receiving c sys) (main_next ∷ recv_failed ∷ []) (at stopping c sys)
unfolding step main_step
failed-RunsTo c sys = ((refl, (refl, tt)), refl)

empty-RunsTo :
    (c : ℕ) (sys : System)
    → RunsTo step enabled (at receiving c sys) (main_next ∷ recv_empty ∷ []) (at receiving c sys)
unfolding step main_step
empty-RunsTo c sys = ((refl, (refl, tt)), refl)

eqb_ℤ-length : (bs : Bytes) → eqb_ℤ (pos (length bs)) (pos (length bs)) ≡ true
eqb_ℤ-length bs = ==_refl (length bs)

message-RunsTo :
    (c : ℕ) (bs : Bytes) (sys : System)
    → RunsTo step enabled
        (at receiving c sys)
        (main_next ∷ recv_message bs ∷ main_next ∷ send_result (pos (length bs)) ∷ main_next ∷ [])
        (at receiving c (passed c bs sys))
unfolding step main_step send_step
message-RunsTo c bs sys = ((refl, (refl, (refl, (refl, (refl, tt))))), rw (eqb_ℤ-length bs) refl)

module _ {R S : Type 0} (rx_ctx : Option (OmniContext R)) (tx : OmniContext S)
    (recv : World R → ℕ → ℤ × Bytes × World R) (source : Source R recv)
    (send : World S → Bytes → ℤ × World S) (sink : Steady S send)
    (over_rx : recv_of rx_ctx ≡ some recv) (over_tx : send_of (some tx) ≡ some send)
    (fits : relay_buf_size ≤ sink.limit) where
  -- The events `es` can happen from the start of the loop, and lead to where the main thread stands before its test or
  -- behind its loop. What was handed to `omni_send` in them are some first ones of the messages `ms`, all sent whole, and
  -- the target has taken just these.
  abbrev pub IsRun : ℕ → System → List Bytes → List Bytes → List Event → World (R × S) → Type 0
  IsRun c sys ms before es w =
      (pc : MainPc) × (sys' : System) × (pre : List Bytes) × (post : List Bytes) × (ms
        ≡ pre ++ post)
      × RunsTo step enabled (at receiving c sys) es (at pc c sys')
      × (payloads sys'.sent ≡ payloads sys.sent ++ pre)
      × (sys'.forward_ok ≡ sys.forward_ok + length pre)
      × sink.Has w.conn.1 (before ++ pre)
      × ((pc ≡ receiving) ⊎ (pc ≡ stopping))

  -- The main loop does what the steps of its thread do: on a protocol that gives messages whole and in order up to its
  -- first error, of which none is empty and each fits the relay's buffer, and a target that takes such messages whole,
  -- the events that the loop meets in its calls of `omni_recv` and `omni_send` can happen in the process one after the
  -- other, from any state that has a target, is running and has a free mutex. In these steps the messages handed to
  -- `omni_send` are exactly those that the target has taken, some first ones of those to come, each is counted as
  -- forwarded, and the main thread is then before its next test of `running` or behind its loop.
  pub relay_loop-IsRun :
      (rounds : ℕ) (w : World (R × S)) (c : ℕ) (sys : System) (ms before : List Bytes)
      → All (λ m. length m ≤ relay_buf_size) ms
      → All (λ m. 1 ≤ length m) ms
      → source.Holds w.conn.0 ms
      → sink.Has w.conn.1 before
      → IsRun c sys ms before
          (loop_events rx_ctx (some tx) rounds w)
          (relay_loop rx_ctx (some tx) rounds w)
  unfolding relay_loop loop_events
  relay_loop-IsRun zero w c sys ms before short full holds has = (
    receiving,
    sys,
    [],
    ms,
    refl,
    (tt, refl),
    sym (append-nil (payloads sys.sent)),
    omega arith,
    subst (sink.Has w.conn.1) (sym (append-nil before)) has,
    inl refl,
  )
  relay_loop-IsRun (suc rounds) w c sys ms before short full holds has =
      let (goes_on, w1) = relay_round rx_ctx (some tx) w in
      let es = loop_events rx_ctx (some tx) rounds w1 in
      elim (relay_round-Moves rx_ctx tx recv source send sink over_rx over_tx fits w ms before short
        full holds has) [
          | ends over met has' ↦
              rw (over, met)
                (
                  stopping,
                  sys,
                  [],
                  ms,
                  refl,
                  failed-RunsTo c sys,
                  sym (append-nil (payloads sys.sent)),
                  omega arith,
                  subst (sink.Has w1.conn.1) (sym (append-nil before)) has',
                  inr refl,
                )
          | stays on met still has' ↦
              let (pc, sys', pre, post, e, runs, sent, ok, has'', where_is) =
                relay_loop-IsRun rounds w1 c sys ms before short full still has' in
              rw (on, met)
                (
                  pc,
                  sys',
                  pre,
                  post,
                  e,
                  RunsTo-append step enabled (at receiving c sys) (at receiving c sys)
                      (at pc c sys') (main_next ∷ recv_empty ∷ []) es (empty-RunsTo c sys) runs,
                  sent,
                  ok,
                  has'',
                  where_is,
                )
          | moves m rest em on met still has' ↦
              let short' = (subst (All (λ m. length m ≤ relay_buf_size)) em short).1 in
              let full' = (subst (All (λ m. 1 ≤ length m)) em full).1 in
              let sys1 = passed c m sys in
              let (pc, sys', pre, post, e, runs, sent, ok, has'', where_is) =
                relay_loop-IsRun rounds w1 c sys1 rest (before ++ m ∷ []) short' full' still has' in
              rw (on, met)
                (
                  pc,
                  sys',
                  m ∷ pre,
                  post,
                  em ∙ ap (◌∷◌ m) e,
                  RunsTo-append step enabled (at receiving c sys) (at receiving c sys1)
                      (at pc c sys')
                      (main_next
                        ∷ recv_message m
                        ∷ main_next
                        ∷ send_result (pos (length m))
                        ∷ main_next
                        ∷ [])
                      es (message-RunsTo c m sys) runs,
                  sent
                      ∙ ap (λ x. x ++ pre) (payloads-snoc sys.sent c m)
                      ∙ append_assoc (payloads sys.sent) (m ∷ []) pre,
                  omega (arith, ok),
                  subst (sink.Has (relay_loop rx_ctx (some tx) rounds w1).conn.1)
                      (append_assoc before (m ∷ []) pre) has'',
                  where_is,
                )
        ]
