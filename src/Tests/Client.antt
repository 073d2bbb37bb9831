-- ===== src/Tests/Client.antt =====
-- The process of the client in one interleaving, with a signal and without.
use omni_socket.Base.{
  ◌≤◌, ◌<◌, ◌≡◌, ◌⊎◌, refl, List, [], ◌∷◌, ◌++◌, true, false, pos, negsuc, total,
}
use omni_socket.Client.Process.{
  Event, step, steps, started, main_next, thread_created, chunk_allocated, file_read, message_sent,
  receiver_next, recv_failed, recv_message, signal, some_bytes, at_eof, main_step, created_step,
  allocated_step, read_step, sent_step, receiver_step,
}
use omni_socket.Client.Process.Release.{
  client_uses_open, client_releases_all, calls_context, reads_file, is_gone,
}
use omni_socket.Client.Process.Ending.{signal_ends, IsDone, CanGoOn}
use omni_socket.Client.Process.Enabled.{of_main}

-- A chunk is sent; meanwhile the signal comes.
abbrev until_signal : List Event
until_signal =
    thread_created true
    ∷ chunk_allocated true
    ∷ main_next
    ∷ receiver_next
    ∷ main_next
    ∷ file_read some_bytes
    ∷ signal
    ∷ recv_message
    ∷ message_sent true
    ∷ []

abbrev behind_signal : List Event
behind_signal =
    main_next ∷ main_next ∷ receiver_next ∷ main_next ∷ main_next ∷ main_next ∷ main_next
    ∷ main_next ∷ receiver_next ∷ receiver_next ∷ main_next ∷ main_next ∷ []

-- The receiving thread fails while `main` waits, and ends.
abbrev until_cleared : List Event
until_cleared =
    thread_created true
    ∷ chunk_allocated true
    ∷ main_next
    ∷ receiver_next
    ∷ main_next
    ∷ file_read at_eof
    ∷ main_next
    ∷ message_sent true
    ∷ main_next
    ∷ main_next
    ∷ recv_failed
    ∷ receiver_next
    ∷ []

abbrev behind_cleared : List Event
behind_cleared = main_next ∷ main_next ∷ main_next ∷ main_next ∷ main_next ∷ main_next ∷ []

client_uses_open_example :
    let p = steps (started (pos 2)) until_signal in
    (p.ctx_closings ≤ 1)
    × (p.file_closings ≤ 1)
    × (p.chunk_frees ≤ p.chunk_mallocs)
    × (p.chunk_mallocs ≤ 1)
    × ((p.ctx_closings ≡ 0) ⊎ (calls_context p ≡ false))
    × (((p.file_closings ≡ 0) × (p.chunk_frees < p.chunk_mallocs)) ⊎ (reads_file p.main ≡ false))
client_uses_open_example = client_uses_open (pos 2) until_signal

client_releases_all_example :
    let p = steps (started (negsuc 0)) (until_cleared ++ behind_cleared) in
    (p.ctx_closings ≡ 1)
    × (p.file_closings ≡ 1)
    × (p.chunk_frees ≡ p.chunk_mallocs)
    × (is_gone p.receiver ≡ true)
unfolding step main_step created_step allocated_step read_step sent_step receiver_step
client_releases_all_example = client_releases_all (negsuc 0) (until_cleared ++ behind_cleared) refl

signal_ends_example :
    let p = steps (steps (started (negsuc 0)) until_signal) behind_signal in
    (total of_main behind_signal ≤ 18) × (IsDone p ⊎ CanGoOn p)
unfolding step main_step created_step allocated_step read_step sent_step receiver_step
signal_ends_example = signal_ends (negsuc 0) until_signal behind_signal refl (
  refl,
  (refl, (refl, (refl, (refl, (refl, (refl, (refl, (refl, (refl, (refl, (refl, tt))))))))))),
)
