-- ===== src/Server/Receiving.antt =====
-- The server's receiving of a file over TCP.
use omni_socket.App.{Decoded, refused, decoded, decode_app_message}
use omni_socket.App.FileStream.{wrapped, Carries, finish, chunk, messages}
use omni_socket.App.Messages.{app_frame, length-app_frame, decode_app_message-app_frame}
use omni_socket.Base.{
  ℕ, suc, ◌+◌, ◌%◌, ◌^◌, ◌<◌, ◌≤◌, ◌≡◌, refl, ap, ◌∙◌, sym, subst, ◌++◌, [], Bytes, length, take,
  true, Option, none, some, pos, arith, ==_refl, length-append, append_assoc, take_all, append-nil,
  if◌then◌else◌,
}
use omni_socket.Network.{OmniContext, recv_of, omni_recv}
use omni_socket.Network.Calls.{omni_recv_passes}
use omni_socket.Runtime.{World, tick}
use omni_socket.Server.Stdio.{fwrite-roomy, fflush-roomy}
use omni_socket.Server.{
  content, fwrite, fflush, ServerRuntime, on_message, recv_round, recv_thread,
  server_frame_buf_size,
}
use omni_socket.Tcp.{TcpConn, is_open, tcp_recv}
use omni_socket.Tcp.Receives.{tcp_recv-frame}
use omni_socket.Tcp.Stream.{RxClean, payload}
use omni_socket.Wire.{ByteOrder, MsgHeader, msg_type_raw, msg_type_file_chunk, msg_type_file_end}

-- The connection is up, and no read will fail.
pub record IsListening (c : TcpConn) : Type 0 where
  pub opened : is_open c.ctx ≡ true
  pub clean : RxClean c.sock.rx

pub on_message-conn :
    {S : Type 0} (rt : ServerRuntime) (w : World S) (d : Decoded)
    → (on_message rt w d).1.conn ≡ w.conn
unfolding on_message
on_message-conn rt w (refused rc) = refl
on_message-conn rt w (decoded h p) = ground arith

abbrev pub header : ℕ → ℕ → Bytes → MsgHeader
header type ts body = record { type = type; len = length body; timestamp = ts }

pub on_message_chunk :
    {S : Type 0} (rt : ServerRuntime) (w : World S) (ts : ℕ) (body : Bytes)
    → rt.out_fp.room ≡ none
    → (on_message rt w (decoded (header msg_type_file_chunk ts body) body)).0 ≡ record rt {
      out_fp = (fwrite body rt.out_fp).1;
      bytes_written = (rt.bytes_written + length body) % 2 ^ 64;
    }
unfolding on_message
on_message_chunk rt w ts body room =
    rw ((fwrite-roomy body rt.out_fp room).0, ==_refl (length body)) refl

pub on_message_end :
    {S : Type 0} (rt : ServerRuntime) (w : World S) (ts : ℕ)
    → (on_message rt w (decoded (header msg_type_file_end ts []) [])).0
      ≡ record rt { out_fp = fflush rt.out_fp; transfer_done = true }
unfolding on_message
on_message_end rt w ts = refl

module _ {S : Type 0} (o : ByteOrder) (ctx : Option (OmniContext S)) where
  pub recv_thread_step :
      (rounds : ℕ) (rt : ServerRuntime) (w : World S)
      → rt.running ≡ true
      → recv_thread o ctx (suc rounds) rt w
        ≡ recv_thread o ctx rounds (recv_round o ctx rt w).0 (recv_round o ctx rt w).1
  unfolding recv_thread
  recv_thread_step rounds rt w running =
      ap
        (λ b.
          if b
          then recv_thread o ctx rounds (recv_round o ctx rt w).0 (recv_round o ctx rt w).1
          else (rt, w))
        running

  pub recv_thread_stop : (rt : ServerRuntime) (w : World S) → recv_thread o ctx 0 rt w ≡ (rt, w)
  unfolding recv_thread
  recv_thread_stop rt w = refl

module _ (o : ByteOrder) (ctx : Option (OmniContext TcpConn))
    (over_tcp : recv_of ctx ≡ some (tcp_recv o)) where
  -- A round on a message of the stream.
  record Handled (rt : ServerRuntime) (w : World TcpConn) (d : Decoded) (rest : Bytes)
      (out : ServerRuntime × World TcpConn) : Type 0 where
    between : World TcpConn
    runtime : out.0 ≡ (on_message rt between d).0
    left : payload out.1.conn.sock.rx ≡ rest
    listening : IsListening out.1.conn

  recv_round-Handled :
      (rt : ServerRuntime) (w : World TcpConn) (type t1 t2 : ℕ) (body rest : Bytes)
      → IsListening w.conn
      → type < 2 ^ 32
      → t1 < 2 ^ 64
      → t2 < 2 ^ 64
      → length body ≤ 65536
      → payload w.conn.sock.rx ≡ wrapped t1 t2 type body ++ rest
      → Handled rt w (decoded (header type t2 body) body) rest (recv_round o ctx rt w)
  unfolding recv_round
  recv_round-Handled rt w type t1 t2 body rest listening ht h1 h2 fits arrives =
      let frame = app_frame type t2 body in
      let len = length-app_frame type t2 body in
      let got =
        tcp_recv-frame o (tick w) server_frame_buf_size msg_type_raw t1 frame listening.opened
          listening.clean (omega arith) (omega arith) h1 rest arrives (omega arith) in
      let passed = omni_recv_passes ctx w (tcp_recv o) server_frame_buf_size over_tcp in
      let n : (omni_recv ctx w server_frame_buf_size).0 ≡ pos (suc (15 + length body)) =
        passed.0 ∙ got.0 ∙ ap pos (omega arith) in
      let whole : take (suc (15 + length body)) (omni_recv ctx w server_frame_buf_size).1 ≡ frame =
        ap (take (suc (15 + length body))) (passed.1 ∙ got.1)
        ∙ take_all (suc (15 + length body)) frame (omega arith) in
      let read = decode_app_message-app_frame o type t2 body ht (omega arith) h2 in
      let w1 = (omni_recv ctx w server_frame_buf_size).2 in
      let d = decoded (header type t2 body) body in
      let e : recv_round o ctx rt w ≡ on_message rt w1 d =
        rw (n, recv_round) (ap (on_message rt w1) (ap (decode_app_message o) whole ∙ read)) in
      let same : (recv_round o ctx rt w).1.conn
          ≡ (tcp_recv o (tick w) server_frame_buf_size).2.conn =
        ap (λ (r : ServerRuntime × World TcpConn). r.1.conn) e
        ∙ on_message-conn rt w1 d
        ∙ passed.2 in
      record {
        between = w1;
        runtime = ap (λ (r : ServerRuntime × World TcpConn). r.0) e;
        left = ap (λ (c : TcpConn). payload c.sock.rx) same ∙ got.2;
        listening = record {
          opened = ap (λ (c : TcpConn). is_open c.ctx) same ∙ ap is_open got.5 ∙ listening.opened;
          clean = subst (λ (c : TcpConn). RxClean c.sock.rx) (sym same) got.3;
        };
      }

  -- What the rounds for all messages of a file leave.
  record Received (rt : ServerRuntime) (f rest : Bytes) (out : ServerRuntime × World TcpConn)
      : Type 0 where
    running : out.0.running ≡ true
    done : out.0.transfer_done ≡ true
    written : content out.0.out_fp ≡ rt.out_fp.given ++ f
    counted : out.0.bytes_written ≡ (rt.bytes_written + length f) % 2 ^ 64
    left : payload out.1.conn.sock.rx ≡ rest
    listening : IsListening out.1.conn

  recv_thread-Received :
      {f s : Bytes} (c : Carries f s) (rt : ServerRuntime) (w : World TcpConn) (rest : Bytes)
      → rt.running ≡ true
      → rt.out_fp.room ≡ none
      → rt.bytes_written < 2 ^ 64
      → IsListening w.conn
      → payload w.conn.sock.rx ≡ s ++ rest
      → Received rt f rest (recv_thread o ctx (messages c) rt w)
  recv_thread-Received {f} (finish t1 t2 h1 h2 ef es) rt w rest running room small listening
        arrives =
      let h =
        recv_round-Handled rt w msg_type_file_end t1 t2 [] rest listening (omega arith) h1 h2
          (omega arith) (arrives ∙ ap (λ t. t ++ rest) (es ∙ append-nil _)) in
      let r = h.runtime ∙ on_message_end rt h.between t2 in
      rw (recv_thread_step o ctx 0 rt w running, recv_thread_stop o ctx)
        (record {
          running = ap (λ (x : ServerRuntime). x.running) r ∙ running;
          done = ap (λ (x : ServerRuntime). x.transfer_done) r;
          written =
              ap (λ (x : ServerRuntime). content x.out_fp) r
              ∙ (fflush-roomy rt.out_fp room).1
              ∙ sym (append-nil rt.out_fp.given)
              ∙ ap (λ t. rt.out_fp.given ++ t) (sym ef);
          counted = ap (λ (x : ServerRuntime). x.bytes_written) r ∙ omega (arith, ap length ef);
          left = h.left;
          listening = h.listening;
        })
  recv_thread-Received (chunk body f' s' t1 t2 h1 h2 ne fits ef es c) rt w rest running room small
        listening arrives =
      let h =
        recv_round-Handled rt w msg_type_file_chunk t1 t2 body (s' ++ rest) listening (omega arith)
          h1 h2 fits (arrives ∙ ap (λ t. t ++ rest) es ∙ append_assoc _ s' rest) in
      let r = h.runtime ∙ on_message_chunk rt h.between t2 body room in
      let rt' = (recv_round o ctx rt w).0 in
      let more =
        recv_thread-Received c rt' (recv_round o ctx rt w).1 rest
          (ap (λ (x : ServerRuntime). x.running) r ∙ running)
          (ap (λ (x : ServerRuntime). x.out_fp.room) r ∙ (fwrite-roomy body rt.out_fp room).2)
          (omega (arith, ap (λ (x : ServerRuntime). x.bytes_written) r)) h.listening h.left in
      rw (recv_thread_step o ctx (messages c) rt w running) (record {
        running = more.running;
        done = more.done;
        written =
            more.written
            ∙ ap (λ (x : ServerRuntime). x.out_fp.given ++ f') r
            ∙ ap (λ t. t ++ f') (fwrite-roomy body rt.out_fp room).1
            ∙ append_assoc rt.out_fp.given body f'
            ∙ ap (λ t. rt.out_fp.given ++ t) (sym ef);
        counted =
            more.counted
            ∙ omega (
              arith,
              ap (λ (x : ServerRuntime). x.bytes_written) r,
              ap length ef,
              length-append body f',
            );
        left = more.left;
        listening = more.listening;
      })

  -- Whatever the segmentation, the file of a server that is running and whose disk takes all holds what it had taken and
  -- then exactly `f`, after one round for each message of a stream that carries `f`: the transfer is marked
  -- done, the count has grown by the file's length modulo 2^64, the server is still running, and what follows
  -- FILE_END is still in the stream.
  pub recv_thread-Carries :
      {f s : Bytes} (c : Carries f s) (rt : ServerRuntime) (w : World TcpConn) (rest : Bytes)
      → rt.running ≡ true
      → rt.out_fp.room ≡ none
      → rt.bytes_written < 2 ^ 64
      → IsListening w.conn
      → payload w.conn.sock.rx ≡ s ++ rest
      → let (rt', w') = recv_thread o ctx (messages c) rt w in
        (content rt'.out_fp ≡ rt.out_fp.given ++ f)
        × (rt'.transfer_done ≡ true)
        × (rt'.bytes_written ≡ (rt.bytes_written + length f) % 2 ^ 64)
        × (rt'.running ≡ true)
        × (payload w'.conn.sock.rx ≡ rest)
  recv_thread-Carries c rt w rest running room small listening arrives =
      let r = recv_thread-Received c rt w rest running room small listening arrives in
      (r.written, r.done, r.counted, r.running, r.left)
