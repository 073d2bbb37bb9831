-- ===== src/Server/Process/Refinement.antt =====
-- The receiving thread of src/apps/server_main.c, once as the function that handles messages and once as steps of the
-- process.
use omni_socket.App.{Decoded, refused, decoded, decode_app_message}
use omni_socket.Base.{
  ℕ, zero, suc, ◌≡◌, refl, ap, sym, subst, true, false, [], ◌∷◌, take, Option, ℤ, pos, negsuc, ◌==◌,
  if◌then◌else◌, Bool-cases, inl, inr, RunsTo, RunsTo-append, List, ◌++◌,
}
use omni_socket.Network.{OmniContext, omni_recv}
use omni_socket.Runtime.{World}
use omni_socket.Server.{
  FileOut, ServerRuntime, is_tcp, fwrite, on_message, recv_round, recv_thread,
  server_frame_buf_size,
}
use omni_socket.Server.Process.{
  Event, Process, ReceiverPc, step, testing, in_recv, ended, receiver_next, recv_failed, recv_empty,
  recv_message, chunk_written, file_chunk, file_end, other_message, receiver_step, empty_step,
  message_step, written_step,
}
use omni_socket.Server.Process.Enabled.{enabled}
use omni_socket.Server.Receiving.{recv_thread_step}
use omni_socket.Wire.{ByteOrder, msg_type_file_chunk, msg_type_file_end}

-- The process with the flags of the runtime, and its receiving thread at this place.
abbrev pub at : ReceiverPc → ServerRuntime → Process → Process
at pc rt p = record p {
  running = rt.running;
  transfer_done = rt.transfer_done;
  receiver = pc;
  is_tcp = is_tcp rt.proto;
}

-- Where the thread stands behind a round: before the test, or at its end.
abbrev pub place : ServerRuntime → ReceiverPc
place rt = if rt.running then testing else ended

-- What the thread meets on a message, as events of the process: its kind, and whether `fwrite` takes all of a chunk.
abbrev pub message_events : FileOut → Decoded → List Event
message_events fp (refused rc) = recv_message other_message ∷ receiver_next ∷ []
message_events fp (decoded hdr payload) =
    if hdr.type == msg_type_file_chunk
    then (if (fwrite payload fp).0 == hdr.len
        then recv_message file_chunk ∷ chunk_written true ∷ []
        else recv_message file_chunk ∷ chunk_written false ∷ receiver_next ∷ [])
    else if hdr.type == msg_type_file_end
    then recv_message file_end ∷ receiver_next ∷ receiver_next ∷ []
    else recv_message other_message ∷ receiver_next ∷ []

module _ {S : Type 0} (o : ByteOrder) (ctx : Option (OmniContext S)) where
  -- What it meets in a round, behind its test of `running`: what `omni_recv` returns.
  unfoldable pub round_events : ServerRuntime → World S → List Event
  round_events rt w =
      let (n, frame, w1) = omni_recv ctx w server_frame_buf_size in
      elim n [
        | negsuc e ↦ recv_failed ∷ receiver_next ∷ []
        | pos zero ↦ recv_empty ∷ receiver_next ∷ []
        | pos (suc k) ↦ message_events rt.out_fp (decode_app_message o (take (suc k) frame))
      ]

  -- So many rounds of the thread.
  unfoldable pub thread_events : ℕ → ServerRuntime → World S → List Event
  thread_events zero rt w = []
  thread_events (suc rounds) rt w =
      let (rt', w') = recv_round o ctx rt w in
      let rest = thread_events rounds rt' w' in
      if rt.running then receiver_next ∷ (round_events rt w ++ rest) else []

-- The steps on a message behind `decode_app_message`.
on_message-RunsTo :
    {S : Type 0} (rt : ServerRuntime) (w : World S) (d : Decoded) (p : Process)
    → rt.running ≡ true
    → let rt' = (on_message rt w d).0 in
      RunsTo step enabled (at in_recv rt p) (message_events rt.out_fp d) (at (place rt') rt' p)
unfolding on_message step receiver_step message_step written_step
on_message-RunsTo rt w (refused rc) p running = ((refl, (refl, tt)), rw running refl)
on_message-RunsTo rt w (decoded hdr payload) p running =
    let nw = (fwrite payload rt.out_fp).0 in
    elim (Bool-cases (hdr.type == msg_type_file_chunk)) [
      | inl chunk ↦ elim (Bool-cases (nw == hdr.len)) [
        | inl whole ↦ rw (chunk, whole, running) ((refl, (refl, tt)), refl)
        | inr short ↦ rw (chunk, short) ((refl, (refl, (refl, tt))), refl)
      ]
      | inr other ↦ elim (Bool-cases (hdr.type == msg_type_file_end)) [
        | inl end ↦ rw (other, end, running) ((refl, (refl, (refl, tt))), refl)
        | inr unknown ↦ rw (other, unknown, running) ((refl, (refl, tt)), refl)
      ]
    ]

-- The step that tests `running`.
tested :
    (rt : ServerRuntime) (p : Process)
    → rt.running ≡ true
    → RunsTo step enabled (at testing rt p) (receiver_next ∷ []) (at in_recv rt p)
unfolding step receiver_step
tested rt p running = ((refl, tt), rw running refl)

module _ {S : Type 0} (o : ByteOrder) (ctx : Option (OmniContext S)) where
  omni_recv-RunsTo :
      (rt : ServerRuntime) (w : World S) (p : Process) (n : ℤ)
      → rt.running ≡ true
      → (omni_recv ctx w server_frame_buf_size).0 ≡ n
      → let rt' = (recv_round o ctx rt w).0 in
        RunsTo step enabled (at in_recv rt p) (round_events o ctx rt w) (at (place rt') rt' p)
  unfolding recv_round round_events step receiver_step empty_step
  omni_recv-RunsTo rt w p (negsuc e) running n =
      rw (n, recv_round, round_events) ((refl, (refl, tt)), refl)
  omni_recv-RunsTo rt w p (pos zero) running n = elim (Bool-cases (is_tcp rt.proto)) [
    | inl tcp ↦
        rw (n, recv_round, round_events, tcp)
          (
            (refl, (refl, tt)),
            ap
                (λ b. record p {
                  running = false;
                  transfer_done = rt.transfer_done;
                  receiver = ended;
                  is_tcp = b;
                })
                (sym tcp),
          )
    | inr other ↦
        rw (n, recv_round, round_events, other, running)
          (
            (refl, (refl, tt)),
            ap
                (λ b. record p {
                  running = true;
                  transfer_done = rt.transfer_done;
                  receiver = testing;
                  is_tcp = b;
                })
                (sym other),
          )
  ]
  omni_recv-RunsTo rt w p (pos (suc k)) running n =
      let (m, frame, w1) = omni_recv ctx w server_frame_buf_size in
      let d = decode_app_message o (take (suc k) frame) in
      rw (n, recv_round, round_events) (on_message-RunsTo rt w1 d p running)

  recv_round-RunsTo :
      (rt : ServerRuntime) (w : World S) (p : Process)
      → rt.running ≡ true
      → let rt' = (recv_round o ctx rt w).0 in
        RunsTo step enabled
          (at testing rt p)
          (receiver_next ∷ round_events o ctx rt w)
          (at (place rt') rt' p)
  recv_round-RunsTo rt w p running =
      RunsTo-append step enabled _ _ _ (receiver_next ∷ []) (round_events o ctx rt w)
        (tested rt p running)
        (omni_recv-RunsTo rt w p (omni_recv ctx w server_frame_buf_size).0 running refl)

  thread_events_step :
      (rounds : ℕ) (rt : ServerRuntime) (w : World S)
      → rt.running ≡ true
      → let (rt', w') = recv_round o ctx rt w in
        thread_events o ctx (suc rounds) rt w
        ≡ receiver_next ∷ (round_events o ctx rt w ++ thread_events o ctx rounds rt' w')
  unfolding thread_events
  thread_events_step rounds rt w running =
      let (rt', w') = recv_round o ctx rt w in
      ap
        (λ b.
          if b
          then receiver_next ∷ (round_events o ctx rt w ++ thread_events o ctx rounds rt' w')
          else [])
        running

  thread_over :
      (rounds : ℕ) (rt : ServerRuntime) (w : World S)
      → rt.running ≡ false
      → (recv_thread o ctx rounds rt w ≡ (rt, w)) × (thread_events o ctx rounds rt w ≡ [])
  unfolding recv_thread thread_events
  thread_over zero rt w over = (refl, refl)
  thread_over (suc rounds) rt w over = rw over (refl, refl)

  -- The steps of the process are what the thread that handles messages does: over any protocol, for any number of rounds
  -- of the receiving thread, the events that it meets in them, which are the results of its calls of `omni_recv`, the
  -- kinds of the messages and whether `fwrite` took all of each chunk, can happen in the process one after the other, and
  -- lead from the flags before the rounds to exactly the flags `running` and `transfer_done` that the rounds leave. The
  -- thread is then before its test again, or at its end exactly if it has left its loop, and neither `main` nor what it
  -- holds has moved.
  pub recv_thread-RunsTo :
      (rounds : ℕ) (rt : ServerRuntime) (w : World S) (p : Process)
      → rt.running ≡ true
      → let rt' = (recv_thread o ctx rounds rt w).0 in
        RunsTo step enabled
          (at testing rt p)
          (thread_events o ctx rounds rt w)
          (at (place rt') rt' p)
  unfolding recv_thread thread_events
  recv_thread-RunsTo zero rt w p running = (tt, rw running refl)
  recv_thread-RunsTo (suc rounds) rt w p running =
      let (rt', w') = recv_round o ctx rt w in
      let first = recv_round-RunsTo rt w p running in
      let es = receiver_next ∷ round_events o ctx rt w in
      rw (recv_thread_step o ctx rounds rt w running, thread_events_step rounds rt w running)
        (elim (Bool-cases rt'.running) [
          | inl on ↦
              RunsTo-append step enabled (at testing rt p) (at testing rt' p) _ es
                (thread_events o ctx rounds rt' w')
                (subst
                  (λ b.
                    RunsTo step enabled (at testing rt p) es
                      (at (if b then testing else ended) rt' p))
                  on first)
                (recv_thread-RunsTo rounds rt' w' p on)
          | inr over ↦
              let (stays, no_more) = thread_over rounds rt' w' over in
              RunsTo-append step enabled (at testing rt p) (at (place rt') rt' p) _ es
                (thread_events o ctx rounds rt' w') first (rw (stays, no_more) (tt, refl))
        ])
