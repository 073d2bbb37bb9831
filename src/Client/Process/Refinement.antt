-- ===== src/Client/Process/Refinement.antt =====
-- The receiving thread of src/apps/client_main.c, once as the function that handles messages and once as steps of the
-- process.
use omni_socket.App.{Decoded, refused, decoded, decode_app_message}
use omni_socket.Base.{
  ℕ, zero, suc, ◌≡◌, refl, ap, ◌∙◌, subst, true, false, [], ◌∷◌, take, Option, ℤ, pos, negsuc,
  if◌then◌else◌, Bool-cases, inl, inr, arith, RunsTo, RunsTo-append, List, ◌++◌,
}
use omni_socket.Client.{ClientRuntime, on_message, recv_round, recv_thread, client_frame_buf_size}
use omni_socket.Client.Process.{
  Event, Process, ReceiverPc, step, testing, in_recv, ended, receiver_next, recv_failed, recv_empty,
  recv_message, receiver_step,
}
use omni_socket.Client.Process.Enabled.{enabled}
use omni_socket.Network.{OmniContext, omni_recv}
use omni_socket.Runtime.{World}
use omni_socket.Wire.{ByteOrder}

-- The process with the flag of the runtime, and its receiving thread at this place.
abbrev pub at : ReceiverPc → ClientRuntime → Process → Process
at pc rt p = record p { running = rt.running; receiver = pc }

-- Where the thread stands behind a round: before the test, or at its end.
abbrev pub place : ClientRuntime → ReceiverPc
place rt = if rt.running then testing else ended

on_message-running :
    {S : Type 0} (rt : ClientRuntime) (w : World S) (d : Decoded)
    → (on_message rt w d).0.running ≡ rt.running
on_message-running rt w (refused rc) = refl
on_message-running rt w (decoded hdr payload) = ground arith

-- The step that tests `running`.
tested :
    (rt : ClientRuntime) (p : Process)
    → rt.running ≡ true
    → RunsTo step enabled (at testing rt p) (receiver_next ∷ []) (at in_recv rt p)
unfolding step receiver_step
tested rt p running = ((refl, tt), rw running refl)

module _ {S : Type 0} (ctx : Option (OmniContext S)) where
  -- What the thread meets in a round behind its test of `running`, as events of the process: what `omni_recv` returns.
  unfoldable pub round_events : World S → List Event
  round_events w = elim (omni_recv ctx w client_frame_buf_size).0 [
    | negsuc e ↦ recv_failed ∷ receiver_next ∷ []
    | pos zero ↦ recv_empty ∷ receiver_next ∷ []
    | pos (suc k) ↦ recv_message ∷ receiver_next ∷ []
  ]

module _ {S : Type 0} (o : ByteOrder) (ctx : Option (OmniContext S)) where
  -- So many rounds of the thread.
  unfoldable pub thread_events : ℕ → ClientRuntime → World S → List Event
  thread_events zero rt w = []
  thread_events (suc rounds) rt w =
      let (rt', w') = recv_round o ctx rt w in
      let rest = thread_events rounds rt' w' in
      if rt.running then receiver_next ∷ (round_events ctx w ++ rest) else []

  omni_recv-RunsTo :
      (rt : ClientRuntime) (w : World S) (p : Process) (n : ℤ)
      → rt.running ≡ true
      → (omni_recv ctx w client_frame_buf_size).0 ≡ n
      → let rt' = (recv_round o ctx rt w).0 in
        RunsTo step enabled (at in_recv rt p) (round_events ctx w) (at (place rt') rt' p)
  unfolding recv_round round_events step receiver_step
  omni_recv-RunsTo rt w p (negsuc e) running n =
      rw (n, recv_round, round_events) ((refl, (refl, tt)), refl)
  omni_recv-RunsTo rt w p (pos zero) running n =
      rw (n, recv_round, round_events, running) ((refl, (refl, tt)), refl)
  omni_recv-RunsTo rt w p (pos (suc k)) running n =
      let (m, frame, w1) = omni_recv ctx w client_frame_buf_size in
      let d = decode_app_message o (take (suc k) frame) in
      let still = on_message-running rt w1 d ∙ running in
      rw (n, recv_round, round_events, still, running) ((refl, (refl, tt)), refl)

  recv_round-RunsTo :
      (rt : ClientRuntime) (w : World S) (p : Process)
      → rt.running ≡ true
      → let rt' = (recv_round o ctx rt w).0 in
        RunsTo step enabled
          (at testing rt p)
          (receiver_next ∷ round_events ctx w)
          (at (place rt') rt' p)
  recv_round-RunsTo rt w p running =
      RunsTo-append step enabled _ _ _ (receiver_next ∷ []) (round_events ctx w)
        (tested rt p running)
        (omni_recv-RunsTo rt w p (omni_recv ctx w client_frame_buf_size).0 running refl)

  recv_thread_on :
      (rounds : ℕ) (rt : ClientRuntime) (w : World S)
      → rt.running ≡ true
      → recv_thread o ctx (suc rounds) rt w
        ≡ recv_thread o ctx rounds (recv_round o ctx rt w).0 (recv_round o ctx rt w).1
  unfolding recv_thread
  recv_thread_on rounds rt w running =
      ap
        (λ b.
          if b
          then recv_thread o ctx rounds (recv_round o ctx rt w).0 (recv_round o ctx rt w).1
          else (rt, w))
        running

  thread_events_step :
      (rounds : ℕ) (rt : ClientRuntime) (w : World S)
      → rt.running ≡ true
      → let (rt', w') = recv_round o ctx rt w in
        thread_events (suc rounds) rt w
        ≡ receiver_next ∷ (round_events ctx w ++ thread_events rounds rt' w')
  unfolding thread_events
  thread_events_step rounds rt w running =
      let (rt', w') = recv_round o ctx rt w in
      ap
        (λ b. if b then receiver_next ∷ (round_events ctx w ++ thread_events rounds rt' w') else [])
        running

  thread_over :
      (rounds : ℕ) (rt : ClientRuntime) (w : World S)
      → rt.running ≡ false
      → (recv_thread o ctx rounds rt w ≡ (rt, w)) × (thread_events rounds rt w ≡ [])
  unfolding recv_thread thread_events
  thread_over zero rt w over = (refl, refl)
  thread_over (suc rounds) rt w over = rw over (refl, refl)

  -- The steps of the process are what the client's thread that handles messages does: over any protocol, for any number
  -- of rounds of the receiving thread, the events that it meets in them, which are the results of its calls of
  -- `omni_recv`, can happen in the process one after the other, and lead from the flag `running` before the rounds to
  -- exactly the one that they leave. The thread is then before its test again, or at its end exactly if it has left its
  -- loop, and neither `main` nor what it holds has moved.
  pub client_thread-RunsTo :
      (rounds : ℕ) (rt : ClientRuntime) (w : World S) (p : Process)
      → rt.running ≡ true
      → let rt' = (recv_thread o ctx rounds rt w).0 in
        RunsTo step enabled (at testing rt p) (thread_events rounds rt w) (at (place rt') rt' p)
  unfolding recv_thread thread_events
  client_thread-RunsTo zero rt w p running = (tt, rw running refl)
  client_thread-RunsTo (suc rounds) rt w p running =
      let (rt', w') = recv_round o ctx rt w in
      let first = recv_round-RunsTo rt w p running in
      let es = receiver_next ∷ round_events ctx w in
      rw (recv_thread_on rounds rt w running, thread_events_step rounds rt w running)
        (elim (Bool-cases rt'.running) [
          | inl on ↦
              RunsTo-append step enabled (at testing rt p) (at testing rt' p) _ es
                (thread_events rounds rt' w')
                (subst
                  (λ b.
                    RunsTo step enabled (at testing rt p) es
                      (at (if b then testing else ended) rt' p))
                  on first)
                (client_thread-RunsTo rounds rt' w' p on)
          | inr over ↦
              let (stays, no_more) = thread_over rounds rt' w' over in
              RunsTo-append step enabled (at testing rt p) (at (place rt') rt' p) _ es
                (thread_events rounds rt' w') first (rw (stays, no_more) (tt, refl))
        ])
