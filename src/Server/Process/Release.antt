-- ===== src/Server/Process/Release.antt =====
-- What the server process of src/apps/server_main.c holds, when it gives it back, and when it stops.
use omni_socket.Base.{
  ℕ, ◌≤◌, ◌≡◌, Bool, true, false, ◌||◌, List, [], ◌∷◌, subst, arith, run-Kept, ◌⊎◌,
}
use omni_socket.Server.Process.{
  MainPc, ReceiverPc, Process, Event, step, steps, started, creating, prompt_test, in_fgets,
  sending, stopping, cancelling, joining, closing, file_closing, finished, absent, in_recv, writing,
  flushing, leaving, recv_failed, recv_empty, chunk_written, ended, main_step, created_step,
  line_step, sent_step, receiver_step, empty_step, message_step, written_step, is_over,
}

-- What has been closed where `main` stands.
abbrev closed_by : MainPc → ℕ
closed_by file_closing = 1
closed_by finished = 1
closed_by other = 0

abbrev file_closed_by : MainPc → ℕ
file_closed_by finished = 1
file_closed_by other = 0

-- The receiving thread neither runs nor will.
abbrev pub is_gone : ReceiverPc → Bool
is_gone absent = true
is_gone other = is_over other

-- The receiving thread is there from its creation on, and gone where `main` has joined it.
abbrev IsJoined : MainPc → ReceiverPc → Type 0
IsJoined creating r = r ≡ absent
IsJoined closing r = is_gone r ≡ true
IsJoined file_closing r = is_gone r ≡ true
IsJoined finished r = is_gone r ≡ true
IsJoined other r = Unit {0}

abbrev IsKept : Process → Type 0
IsKept p =
    (p.ctx_closings ≡ closed_by p.main)
    × (p.file_closings ≡ file_closed_by p.main)
    × IsJoined p.main p.receiver

step-IsKept : (p : Process) (e : Event) → IsKept p → IsKept (step p e)
unfolding step main_step created_step line_step sent_step receiver_step empty_step message_step
    written_step
step-IsKept p e kept = ground arith

kept : (is_tty is_tcp : Bool) (events : List Event) → IsKept (steps (started is_tty is_tcp) events)
kept is_tty is_tcp events =
    run-Kept step IsKept step-IsKept (started is_tty is_tcp) events (ground arith)

-- Where a thread calls a function of the context, and where the receiving thread writes the file.
abbrev in_send : MainPc → Bool
in_send sending = true
in_send other = false

abbrev in_recv_call : ReceiverPc → Bool
in_recv_call in_recv = true
in_recv_call other = false

abbrev pub calls_context : Process → Bool
calls_context p = in_send p.main || in_recv_call p.receiver

abbrev pub writes_file : ReceiverPc → Bool
writes_file writing = true
writes_file flushing = true
writes_file other = false

-- Nothing is used after it was closed: in every interleaving of the server's two threads, with a terminal or without,
-- the context and the file are closed at most once, the file not before the context; no thread is in a call of a
-- context that is closed, and the receiving thread writes no file that is closed.
pub server_uses_open :
    (is_tty is_tcp : Bool) (events : List Event)
    → let p = steps (started is_tty is_tcp) events in
      (p.ctx_closings ≤ 1)
      × (p.file_closings ≤ p.ctx_closings)
      × ((p.ctx_closings ≡ 0) ⊎ (calls_context p ≡ false))
      × ((p.file_closings ≡ 0) ⊎ (writes_file p.receiver ≡ false))
server_uses_open is_tty is_tcp events = let p-IsKept = kept is_tty is_tcp events in ground arith

-- Nothing is left: when `main` of the server is at its end, in every interleaving, whichever way it came there, the
-- context and the file are closed exactly once and the receiving thread does not run.
pub server_releases_all :
    (is_tty is_tcp : Bool) (events : List Event)
    → let p = steps (started is_tty is_tcp) events in
      p.main ≡ finished → (p.ctx_closings ≡ 1) × (p.file_closings ≡ 1) × (is_gone p.receiver ≡ true)
server_releases_all is_tty is_tcp events done =
    let p-IsKept = kept is_tty is_tcp events in ground arith

-- What a server without a terminal has to stop for: `omni_recv` fails, over TCP it returns 0, or `fwrite` takes less than
-- all of a chunk.
abbrev pub is_cause : Event → ReceiverPc → Bool → Bool
is_cause recv_failed in_recv is_tcp = true
is_cause recv_empty in_recv is_tcp = is_tcp
is_cause (chunk_written false) writing is_tcp = true
is_cause other pc is_tcp = false

-- Whether a run meets it.
abbrev pub has_cause : Process → List Event → Bool
has_cause p [] = false
has_cause p (e ∷ es) = is_cause e p.receiver p.is_tcp || has_cause (step p e) es

-- Where `main` has left its loop, and where the receiving thread has left its own.
abbrev has_left : MainPc → Bool
has_left stopping = true
has_left cancelling = true
has_left joining = true
has_left closing = true
has_left file_closing = true
has_left finished = true
has_left other = false

abbrev has_quit : ReceiverPc → Bool
has_quit leaving = true
has_quit ended = true
has_quit other = false

abbrev in_prompt : MainPc → Bool
in_prompt prompt_test = true
in_prompt in_fgets = true
in_prompt sending = true
in_prompt other = false

-- Up to the end of `main`'s loop only the receiving thread clears `running`, it has met a cause when it leaves its loop,
-- and nothing cancels it; `main` leaves for FILE_END, for a cause, or because there is no thread.
abbrev IsPatient : Bool → Process → Type 0
IsPatient met p =
    IsJoined p.main p.receiver
    × (p.is_tty ≡ false)
    × (in_prompt p.main ≡ false)
    × ((has_left p.main ≡ true)
        ⊎ ((p.cancel_sent ≡ false)
            × ((p.running ≡ true) ⊎ (met ≡ true))
            × ((has_quit p.receiver ≡ false) ⊎ (met ≡ true))))
    × ((has_left p.main ≡ false)
        ⊎ ((p.transfer_done ≡ true) ⊎ ((p.receiver ≡ absent) ⊎ (met ≡ true))))

step-IsPatient :
    (met : Bool) (p : Process) (e : Event)
    → IsPatient met p
    → IsPatient (met || is_cause e p.receiver p.is_tcp) (step p e)
unfolding step main_step created_step line_step sent_step receiver_step empty_step message_step
    written_step
step-IsPatient met p e patient = ground arith

or_false : (a : Bool) → a ≡ a || false
or_false a = ground arith

or_assoc : (a b c : Bool) → (a || b) || c ≡ a || (b || c)
or_assoc a b c = ground arith

steps-IsPatient :
    (met : Bool) (p : Process) (es : List Event)
    → IsPatient met p
    → IsPatient (met || has_cause p es) (steps p es)
steps-IsPatient met p [] patient = subst (λ b. IsPatient b p) (or_false met) patient
steps-IsPatient met p (e ∷ es) patient =
    subst (λ b. IsPatient b (steps (step p e) es))
      (or_assoc met (is_cause e p.receiver p.is_tcp) (has_cause (step p e) es))
      (steps-IsPatient (met || is_cause e p.receiver p.is_tcp) (step p e) es
        (step-IsPatient met p e patient))

-- The server does not stop too early: without a terminal, whatever the interleaving, when `main` is at its end FILE_END
-- has been handled, or the receiving thread was never created, or on the way `omni_recv` failed, or returned 0 over TCP,
-- or `fwrite` took less than all of a chunk.
pub stops_for_cause :
    (is_tcp : Bool) (events : List Event)
    → let p = steps (started false is_tcp) events in
      p.main ≡ finished
      → (p.transfer_done ≡ true)
        ⊎ ((p.receiver ≡ absent) ⊎ (has_cause (started false is_tcp) events ≡ true))
stops_for_cause is_tcp events done =
    let start = started false is_tcp in
    let p = steps start events in
    let met = has_cause start events in
    let patient : IsPatient met p = steps-IsPatient false start events (ground arith) in
    left_for met p done patient
  where
    left_for :
        (met : Bool) (p : Process)
        → p.main ≡ finished
        → IsPatient met p
        → (p.transfer_done ≡ true) ⊎ ((p.receiver ≡ absent) ⊎ (met ≡ true))
    left_for met p done patient = ground arith
