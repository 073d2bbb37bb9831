-- ===== src/Tests/Server.antt =====
-- The process of the server in one interleaving, with a terminal and without.
use omni_socket.Base.{◌≤◌, ◌≡◌, ◌⊎◌, refl, List, [], ◌∷◌, ◌++◌, true, false, total}
use omni_socket.Server.Process.{
  absent, Event, step, steps, started, main_next, thread_created, line_read, command_sent,
  receiver_next, recv_empty, recv_message, chunk_written, cancel_acts, file_chunk, file_end,
  empty_line, text_line, main_step, created_step, line_step, sent_step, receiver_step, empty_step,
  message_step, written_step,
}
use omni_socket.Server.Process.Release.{
  server_uses_open, server_releases_all, stops_for_cause, calls_context, writes_file, is_gone,
  has_cause,
}
use omni_socket.Server.Process.Ending.{transfer_ends, IsDone, CanGoOn}
use omni_socket.Server.Process.Enabled.{of_main}

-- A file of one chunk is received while `main` waits.
abbrev until_file : List Event
until_file =
    thread_created true
    ∷ main_next
    ∷ receiver_next
    ∷ recv_message file_chunk
    ∷ main_next
    ∷ chunk_written true
    ∷ receiver_next
    ∷ recv_message file_end
    ∷ main_next
    ∷ receiver_next
    ∷ []

-- `main` winds up and cancels the thread in `omni_recv`.
abbrev behind_file : List Event
behind_file =
    main_next ∷ receiver_next ∷ receiver_next ∷ main_next ∷ main_next ∷ main_next ∷ cancel_acts
    ∷ main_next ∷ main_next ∷ main_next ∷ []

-- A command is sent; the peer closes the connection while `main` is in `fgets`.
abbrev until_closed : List Event
until_closed =
    thread_created true
    ∷ main_next
    ∷ line_read text_line
    ∷ command_sent true
    ∷ main_next
    ∷ receiver_next
    ∷ recv_empty
    ∷ receiver_next
    ∷ []

abbrev behind_closed : List Event
behind_closed =
    line_read empty_line
    ∷ main_next
    ∷ main_next
    ∷ main_next
    ∷ main_next
    ∷ main_next
    ∷ main_next
    ∷ []

server_uses_open_example :
    let p = steps (started false true) until_file in
    (p.ctx_closings ≤ 1)
    × (p.file_closings ≤ p.ctx_closings)
    × ((p.ctx_closings ≡ 0) ⊎ (calls_context p ≡ false))
    × ((p.file_closings ≡ 0) ⊎ (writes_file p.receiver ≡ false))
server_uses_open_example = server_uses_open false true until_file

server_releases_all_example :
    let p = steps (started true true) (until_closed ++ behind_closed) in
    (p.ctx_closings ≡ 1) × (p.file_closings ≡ 1) × (is_gone p.receiver ≡ true)
unfolding step main_step created_step line_step sent_step receiver_step empty_step message_step
    written_step
server_releases_all_example = server_releases_all true true (until_closed ++ behind_closed) refl

stops_for_cause_example :
    let p = steps (started false true) (until_file ++ behind_file) in
    (p.transfer_done ≡ true)
    ⊎ ((p.receiver ≡ absent) ⊎ (has_cause (started false true) (until_file ++ behind_file) ≡ true))
unfolding step main_step created_step line_step sent_step receiver_step empty_step message_step
    written_step
stops_for_cause_example = stops_for_cause true (until_file ++ behind_file) refl

transfer_ends_example :
    let p = steps (steps (started false true) until_file) behind_file in
    (total of_main behind_file ≤ 12) × (IsDone p ⊎ CanGoOn p)
unfolding step main_step created_step line_step sent_step receiver_step empty_step message_step
    written_step
transfer_ends_example =
    transfer_ends true until_file behind_file refl
      (refl, (refl, (refl, (refl, (refl, (refl, (refl, (refl, (refl, (refl, tt))))))))))
