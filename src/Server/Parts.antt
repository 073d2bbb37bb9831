-- ===== src/Server/Parts.antt =====
-- The server's receiving of a file as messages, over any protocol that keeps their bounds.
use omni_socket.App.{decoded, decode_app_message}
use omni_socket.App.Channel.{Inlet, Parts, finish, chunk, count}
use omni_socket.App.Messages.{app_frame, length-app_frame, decode_app_message-app_frame}
use omni_socket.Base.{
  ℕ, suc, ◌+◌, ◌^◌, ◌<◌, ◌≤◌, ◌≡◌, ap, ◌∙◌, sym, subst, ◌++◌, [], ◌∷◌, List, Bytes, length, take,
  true, Option, none, some, ℤ, pos, arith, append_assoc, take_all, append-nil,
}
use omni_socket.Network.{OmniContext, recv_of, omni_recv}
use omni_socket.Network.Calls.{omni_recv_passes}
use omni_socket.Runtime.{World, tick}
use omni_socket.Server.Stdio.{fwrite-roomy, fflush-roomy}
use omni_socket.Server.{
  content, ServerRuntime, on_message, recv_round, recv_thread, server_frame_buf_size,
}
use omni_socket.Server.Receiving.{
  header, on_message-conn, on_message_chunk, on_message_end, recv_thread_step, recv_thread_stop,
}
use omni_socket.Wire.{ByteOrder, msg_type_file_chunk, msg_type_file_end}

module _ {S : Type 0} (o : ByteOrder) (ctx : Option (OmniContext S))
    (recv : World S → ℕ → ℤ × Bytes × World S) (channel : Inlet S recv)
    (over : recv_of ctx ≡ some recv) where
  -- A round on a message of the channel.
  record Taken (rt : ServerRuntime) (type t : ℕ) (body : Bytes) (ms : List Bytes)
      (out : ServerRuntime × World S) : Type 0 where
    between : World S
    runtime : out.0 ≡ (on_message rt between (decoded (header type t body) body)).0
    left : channel.coming out.1.conn ≡ ms
    ready : channel.IsReady out.1.conn

  recv_round-Taken :
      (rt : ServerRuntime) (w : World S) (type t : ℕ) (body : Bytes) (ms : List Bytes)
      → channel.IsReady w.conn
      → type < 2 ^ 32
      → t < 2 ^ 64
      → length body ≤ 65536
      → channel.coming w.conn ≡ app_frame type t body ∷ ms
      → Taken rt type t body ms (recv_round o ctx rt w)
  unfolding recv_round
  recv_round-Taken rt w type t body ms ready ht h fits arrives =
      let frame = app_frame type t body in
      let len = length-app_frame type t body in
      let got =
        channel.receives (tick w) server_frame_buf_size frame ms ready arrives
          (omega (arith, len, fits)) in
      let passed = omni_recv_passes ctx w recv server_frame_buf_size over in
      let n : (omni_recv ctx w server_frame_buf_size).0 ≡ pos (suc (15 + length body)) =
        passed.0 ∙ got.0 ∙ ap pos (omega (arith, len)) in
      let whole : take (suc (15 + length body)) (omni_recv ctx w server_frame_buf_size).1 ≡ frame =
        ap (take (suc (15 + length body))) (passed.1 ∙ got.1)
        ∙ take_all (suc (15 + length body)) frame (omega (arith, len)) in
      let read = decode_app_message-app_frame o type t body ht (omega arith) h in
      let w1 = (omni_recv ctx w server_frame_buf_size).2 in
      let d = decoded (header type t body) body in
      let e : recv_round o ctx rt w ≡ on_message rt w1 d =
        rw (n, recv_round) (ap (on_message rt w1) (ap (decode_app_message o) whole ∙ read)) in
      let same : (recv_round o ctx rt w).1.conn ≡ (recv (tick w) server_frame_buf_size).2.conn =
        ap (λ (r : ServerRuntime × World S). r.1.conn) e ∙ on_message-conn rt w1 d ∙ passed.2 in
      record {
        between = w1;
        runtime = ap (λ (r : ServerRuntime × World S). r.0) e;
        left = ap channel.coming same ∙ got.3;
        ready = subst channel.IsReady (sym same) got.2;
      }

  -- After one round for each message that carries a file, the file of a server that is running and whose disk takes all
  -- holds what it had taken and then exactly `f`, and the transfer is marked done; it is still running, and the messages behind
  -- FILE_END are still to come.
  pub recv_thread-Parts :
      {f : Bytes} {ms : List Bytes} (p : Parts f ms) (rt : ServerRuntime) (w : World S)
      (rest : List Bytes)
      → rt.running ≡ true
      → rt.out_fp.room ≡ none
      → channel.IsReady w.conn
      → channel.coming w.conn ≡ ms ++ rest
      → let (rt', w') = recv_thread o ctx (count p) rt w in
        (content rt'.out_fp ≡ rt.out_fp.given ++ f)
        × (rt'.transfer_done ≡ true)
        × (rt'.running ≡ true)
        × (channel.coming w'.conn ≡ rest)
  recv_thread-Parts (finish t h ef em) rt w rest running room ready arrives =
      let taken =
        recv_round-Taken rt w msg_type_file_end t [] rest ready (omega arith) h (omega arith)
          (arrives ∙ ap (λ ms. ms ++ rest) em) in
      let r = taken.runtime ∙ on_message_end rt taken.between t in
      rw (recv_thread_step o ctx 0 rt w running, recv_thread_stop o ctx)
        (
          ap (λ (x : ServerRuntime). content x.out_fp) r
              ∙ (fflush-roomy rt.out_fp room).1
              ∙ sym (append-nil rt.out_fp.given)
              ∙ ap (λ t. rt.out_fp.given ++ t) (sym ef),
          ap (λ (x : ServerRuntime). x.transfer_done) r,
          ap (λ (x : ServerRuntime). x.running) r ∙ running,
          taken.left,
        )
  recv_thread-Parts (chunk body f' ms' t h ne fits ef em p) rt w rest running room ready arrives =
      let taken =
        recv_round-Taken rt w msg_type_file_chunk t body (ms' ++ rest) ready (omega arith) h fits
          (arrives ∙ ap (λ ms. ms ++ rest) em) in
      let r = taken.runtime ∙ on_message_chunk rt taken.between t body room in
      let (all, done, still, left) =
        recv_thread-Parts p (recv_round o ctx rt w).0 (recv_round o ctx rt w).1 rest
          (ap (λ (x : ServerRuntime). x.running) r ∙ running)
          (ap (λ (x : ServerRuntime). x.out_fp.room) r ∙ (fwrite-roomy body rt.out_fp room).2)
          taken.ready taken.left in
      rw (recv_thread_step o ctx (count p) rt w running) (
        all
            ∙ ap (λ (x : ServerRuntime). x.out_fp.given ++ f') r
            ∙ ap (λ t. t ++ f') (fwrite-roomy body rt.out_fp room).1
            ∙ append_assoc rt.out_fp.given body f'
            ∙ ap (λ t. rt.out_fp.given ++ t) (sym ef),
        done,
        still,
        left,
      )
