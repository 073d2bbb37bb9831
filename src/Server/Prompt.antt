-- ===== src/Server/Prompt.antt =====
-- The commands that the server's prompt sends over TCP.
use omni_socket.App.{send_app_message}
use omni_socket.App.FileStream.{wrapped}
use omni_socket.App.Lines.{stripped, eqb_bytes, quit_text, IsText, CarriesTexts, none_left, text}
use omni_socket.Base.{
  ◌≡◌, refl, ap, ◌∙◌, sym, ◌++◌, [], ◌∷◌, List, Bytes, length, true, Option, some, arith,
  append_assoc, append-nil, ◌==◌, Bool-cases, inl, inr, All, if◌then◌else◌,
}
use omni_socket.Client.Transfer.{IsReady, send_app_message-Delivered}
use omni_socket.Network.{OmniContext, send_of}
use omni_socket.Runtime.{World}
use omni_socket.Server.{PromptRound, prompt}
use omni_socket.Tcp.{TcpConn, tcp_send}
use omni_socket.Wire.{ByteOrder, msg_type_command}

-- What a user means by these lines: the texts that are not empty, up to `quit`.
abbrev pub commands : List PromptRound → List Bytes
commands [] = []
commands (r ∷ rounds) =
    let line = stripped r.line in
    let more = commands rounds in
    if length line == 0 then more else if eqb_bytes line quit_text then [] else line ∷ more

-- The server runs, memory is there, and each line is a text.
abbrev pub IsPlain : PromptRound → Type 0
IsPlain r = (r.running ≡ true) × (r.allocated ≡ true) × IsText (stripped r.line)

module _ (o : ByteOrder) (ctx : Option (OmniContext TcpConn))
    (over_tcp : send_of ctx ≡ some (tcp_send o)) where
  -- Over an open TCP connection on which no write fails, and while the server runs and memory is there, the prompt puts
  -- on the stream one message COMMAND for each line that is not empty, in order, with the text of the line without its
  -- newline, up to the line `quit` or the end of the input.
  pub prompt-CarriesTexts :
      (rounds : List PromptRound) (w : World TcpConn)
      → All IsPlain rounds
      → IsReady w.conn
      → (s : Bytes) × ((prompt o ctx rounds w).conn.sock.sent ≡ w.conn.sock.sent ++ s)
        × CarriesTexts (commands rounds) s
  unfolding prompt
  prompt-CarriesTexts [] w plain ready = ([], sym (append-nil _), none_left refl)
  prompt-CarriesTexts (r ∷ rounds) w ((running, allocated, is_text), plain) ready =
      elim (Bool-cases (length (stripped r.line) == 0)) [
        | inl blank ↦ rw (running, blank) (prompt-CarriesTexts rounds w plain ready)
        | inr filled ↦ elim (Bool-cases (eqb_bytes (stripped r.line) quit_text)) [
          | inl leaves ↦ rw (running, filled, leaves) ([], sym (append-nil _), none_left refl)
          | inr stays ↦
              let line = stripped r.line in
              let d =
                send_app_message-Delivered o ctx over_tcp msg_type_command line w ready
                  (omega (arith, is_text.0)) in
              let w1 = (send_app_message o true ctx msg_type_command line w).1 in
              let (s, sent, carry) = prompt-CarriesTexts rounds w1 plain d.ready in
              rw (running, allocated, filled, stays, d.ok)
                (
                  wrapped d.t1 d.t2 msg_type_command line ++ s,
                  sent ∙ ap (λ t. t ++ s) d.sent ∙ append_assoc w.conn.sock.sent _ _,
                  text line s d.t1 d.t2 d.t1_fits d.t2_fits is_text refl carry,
                )
        ]
      ]
