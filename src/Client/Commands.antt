-- ===== src/Client/Commands.antt =====
-- The client's receiving thread over TCP: it prints the commands of the server.
use omni_socket.App.{decoded, decode_app_message}
use omni_socket.App.FileStream.{wrapped}
use omni_socket.App.Lines.{IsText, CarriesTexts, none_left, text}
use omni_socket.App.Messages.{app_frame, length-app_frame, decode_app_message-app_frame}
use omni_socket.Base.{
  ℕ, suc, ◌+◌, ◌^◌, ◌<◌, ◌≡◌, refl, ap, ◌∙◌, sym, subst, ◌++◌, [], ◌∷◌, List, Bytes, length, take,
  true, false, Option, some, pos, arith, append_assoc, take_all, append-nil, if◌then◌else◌, ltb,
  ◌==◌, All,
}
use omni_socket.Client.{
  ClientRuntime, on_message, recv_round, recv_thread, client_frame_buf_size, command_text,
  until_nul,
}
use omni_socket.Network.{OmniContext, recv_of, omni_recv}
use omni_socket.Network.Calls.{omni_recv_passes}
use omni_socket.Runtime.{World, tick}
use omni_socket.Server.Receiving.{IsListening}
use omni_socket.Tcp.{TcpConn, is_open, tcp_recv}
use omni_socket.Tcp.Receives.{tcp_recv-frame}
use omni_socket.Tcp.Stream.{RxClean, payload}
use omni_socket.Wire.{ByteOrder, MsgHeader, msg_type_raw, msg_type_command}

abbrev header : ℕ → Bytes → MsgHeader
header ts body = record { type = msg_type_command; len = length body; timestamp = ts }

until_nul-IsText : (bs : Bytes) → All (λ c. (c == 0) ≡ false) bs → until_nul bs ≡ bs
until_nul-IsText [] filled = refl
until_nul-IsText (b ∷ bs) (more, filled) = rw more (ap (◌∷◌ b) (until_nul-IsText bs filled))

command_text-IsText :
    (ts : ℕ) (body : Bytes) → IsText body → command_text (header ts body) body ≡ body
command_text-IsText ts body (short, filled) =
    ap until_nul
      (take_all (if ltb (length body) 2047 then length body else 2047) body (ground arith))
    ∙ until_nul-IsText body filled

on_message_command :
    {S : Type 0} (rt : ClientRuntime) (w : World S) (ts : ℕ) (body : Bytes)
    → IsText body
    → on_message rt w (decoded (header ts body) body)
      ≡ (record rt { printed = rt.printed ++ body ∷ [] }, w)
on_message_command rt w ts body is_text =
    ap (λ t. (record rt { printed = rt.printed ++ t ∷ [] }, w))
      (command_text-IsText ts body is_text)

module _ (o : ByteOrder) (ctx : Option (OmniContext TcpConn))
    (over_tcp : recv_of ctx ≡ some (tcp_recv o)) where
  -- A round on a command of the stream.
  record Printed (rt : ClientRuntime) (body rest : Bytes) (out : ClientRuntime × World TcpConn)
      : Type 0 where
    runtime : out.0 ≡ record rt { printed = rt.printed ++ body ∷ [] }
    left : payload out.1.conn.sock.rx ≡ rest
    listening : IsListening out.1.conn

  recv_round-Printed :
      (rt : ClientRuntime) (w : World TcpConn) (t1 t2 : ℕ) (body rest : Bytes)
      → IsListening w.conn
      → t1 < 2 ^ 64
      → t2 < 2 ^ 64
      → IsText body
      → payload w.conn.sock.rx ≡ wrapped t1 t2 msg_type_command body ++ rest
      → Printed rt body rest (recv_round o ctx rt w)
  unfolding recv_round
  recv_round-Printed rt w t1 t2 body rest listening h1 h2 is_text arrives =
      let frame = app_frame msg_type_command t2 body in
      let len = length-app_frame msg_type_command t2 body in
      let short = is_text.0 in
      let got =
        tcp_recv-frame o (tick w) client_frame_buf_size msg_type_raw t1 frame listening.opened
          listening.clean (omega arith) (omega arith) h1 rest arrives (omega arith) in
      let passed = omni_recv_passes ctx w (tcp_recv o) client_frame_buf_size over_tcp in
      let n : (omni_recv ctx w client_frame_buf_size).0 ≡ pos (suc (15 + length body)) =
        passed.0 ∙ got.0 ∙ ap pos (omega arith) in
      let whole : take (suc (15 + length body)) (omni_recv ctx w client_frame_buf_size).1 ≡ frame =
        ap (take (suc (15 + length body))) (passed.1 ∙ got.1)
        ∙ take_all (suc (15 + length body)) frame (omega arith) in
      let read =
        decode_app_message-app_frame o msg_type_command t2 body (omega arith) (omega arith) h2 in
      let w1 = (omni_recv ctx w client_frame_buf_size).2 in
      let e : recv_round o ctx rt w ≡ (record rt { printed = rt.printed ++ body ∷ [] }, w1) =
        rw (n, recv_round)
          (ap (on_message rt w1) (ap (decode_app_message o) whole ∙ read)
            ∙ on_message_command rt w1 t2 body is_text) in
      let same : (recv_round o ctx rt w).1.conn
          ≡ (tcp_recv o (tick w) client_frame_buf_size).2.conn =
        ap (λ (r : ClientRuntime × World TcpConn). r.1.conn) e ∙ passed.2 in
      record {
        runtime = ap (λ (r : ClientRuntime × World TcpConn). r.0) e;
        left = ap (λ (c : TcpConn). payload c.sock.rx) same ∙ got.2;
        listening = record {
          opened = ap (λ (c : TcpConn). is_open c.ctx) same ∙ ap is_open got.5 ∙ listening.opened;
          clean = subst (λ (c : TcpConn). RxClean c.sock.rx) (sym same) got.3;
        };
      }

  recv_thread_step :
      (rounds : ℕ) (rt : ClientRuntime) (w : World TcpConn)
      → rt.running ≡ true
      → recv_thread o ctx (suc rounds) rt w
        ≡ recv_thread o ctx rounds (recv_round o ctx rt w).0 (recv_round o ctx rt w).1
  unfolding recv_thread
  recv_thread_step rounds rt w running =
      ap
        (λ b.
          if b
          then recv_thread o ctx rounds (recv_round o ctx rt w).0 (recv_round o ctx rt w).1
          else (rt, w))
        running

  recv_thread_stop : (rt : ClientRuntime) (w : World TcpConn) → recv_thread o ctx 0 rt w ≡ (rt, w)
  unfolding recv_thread
  recv_thread_stop rt w = refl

  -- Whatever the segmentation, a client that is running has printed exactly these texts, in order and behind what it
  -- had printed, after one round for each message of a stream that carries them; it is still running, and what
  -- follows is still in the stream.
  pub recv_thread-CarriesTexts :
      {texts : List Bytes} {s : Bytes} (c : CarriesTexts texts s) (rt : ClientRuntime)
      (w : World TcpConn) (rest : Bytes)
      → rt.running ≡ true
      → IsListening w.conn
      → payload w.conn.sock.rx ≡ s ++ rest
      → let (rt', w') = recv_thread o ctx (length texts) rt w in
        (rt'.printed ≡ rt.printed ++ texts)
        × (rt'.running ≡ true)
        × (payload w'.conn.sock.rx ≡ rest)
  recv_thread-CarriesTexts (none_left es) rt w rest running listening arrives =
      rw (recv_thread_stop rt w) (sym (append-nil _), running, arrives ∙ ap (λ t. t ++ rest) es)
  recv_thread-CarriesTexts {texts = body' ∷ texts} (text body s' t1 t2 h1 h2 is_text es c) rt w rest
        running listening arrives =
      let h =
        recv_round-Printed rt w t1 t2 body (s' ++ rest) listening h1 h2 is_text
          (arrives ∙ ap (λ t. t ++ rest) es ∙ append_assoc _ s' rest) in
      let (printed, still, left) =
        recv_thread-CarriesTexts c (recv_round o ctx rt w).0 (recv_round o ctx rt w).1 rest
          (ap (λ (x : ClientRuntime). x.running) h.runtime ∙ running) h.listening h.left in
      rw (recv_thread_step (length texts) rt w running) (
        printed
            ∙ ap (λ (x : ClientRuntime). x.printed ++ texts) h.runtime
            ∙ append_assoc rt.printed (body ∷ []) texts,
        still,
        left,
      )
