-- ===== src/Server/AnyInput.antt =====
-- What the server of src/apps/server_main.c does over UDP with whatever arrives.
use omni_socket.Server.Arrivals.{
  chunk_of, is_end, chunks, has_end, has_error, AllShort, IsRoomy, Did, decode_app_message-IsSized,
  on_message-Did, interrupted_result, broken_result, empty_refused,
}
use omni_socket.App.{decode_app_message}
use omni_socket.Base.{
  ℕ, zero, suc, ◌≤◌, ◌≡◌, refl, ap, ◌∙◌, sym, subst, ◌++◌, [], ◌∷◌, List, Bytes, length, take, Bool,
  true, false, not, ◌||◌, Option, none, some, ℤ, pos, arith, append_assoc, take_all, append-nil,
}
use omni_socket.Datagram.{Arrival, datagram, interrupted, broken, behind, max_datagram}
use omni_socket.Host.{Sockaddr}
use omni_socket.Network.{OmniContext, recv_of, omni_recv}
use omni_socket.Network.Calls.{omni_recv_passes}
use omni_socket.Runtime.{World, tick}
use omni_socket.Server.Stdio.{fflush-roomy}
use omni_socket.Server.{
  content, fflush, ServerRuntime, on_message, recv_round, recv_thread, server_frame_buf_size, leave,
}
use omni_socket.Server.Receiving.{on_message-conn, recv_thread_step, recv_thread_stop}
use omni_socket.Udp.{UdpConn, udp_recv}
use omni_socket.Udp.Peers.{Talks, last_sender, udp_recv-Talks, udp_recv-Datagram}
use omni_socket.Wire.{ByteOrder, omni_err_io}

-- An open context, before these arrivals.
abbrev Waits : List Arrival → UdpConn → Type 0
Waits arrivals conn = ((a : Sockaddr) × Talks a conn) × (conn.net.arrivals ≡ arrivals)

module _ (o : ByteOrder) (ctx : Option (OmniContext UdpConn))
    (over_udp : recv_of ctx ≡ some udp_recv) where
  -- What the network layer hands up of the next arrival.
  abbrev got : World UdpConn → ℤ × Bytes × World UdpConn
  got w = omni_recv ctx w server_frame_buf_size

  omni_recv-Waits :
      (w : World UdpConn) (x : Arrival) (rest : List Arrival)
      → Waits (x ∷ rest) w.conn
      → Waits rest (got w).2.conn
  omni_recv-Waits w x rest ((a, talks), there) =
      let passed = omni_recv_passes ctx w udp_recv server_frame_buf_size over_udp in
      let moved = udp_recv-Talks server_frame_buf_size (tick w) a talks in
      (
        (
          last_sender a 1 w.conn.net.arrivals,
          subst (Talks (last_sender a 1 w.conn.net.arrivals)) (sym passed.2) moved.0,
        ),
        ap (λ (c : UdpConn). c.net.arrivals) passed.2 ∙ moved.1 ∙ ap behind there,
      )

  -- A round at an arrival that adds `body` and perhaps ends the file.
  abbrev RoundDid :
      ServerRuntime → Bytes → Bool → List Arrival → ServerRuntime × World UdpConn → Type 0
  RoundDid rt body end rest (rt', w') = Did rt body end rt' × Waits rest w'.conn

  -- 0 was returned: nothing is done.
  empty_round :
      (rt : ServerRuntime) (w : World UdpConn) (x : Arrival) (rest : List Arrival)
      → IsRoomy rt
      → Waits (x ∷ rest) w.conn
      → (got w).0 ≡ pos 0
      → RoundDid rt [] false rest (recv_round o ctx rt w)
  unfolding recv_round
  empty_round rt w x rest roomy waits zero_got =
      let e : recv_round o ctx rt w ≡ (rt, (got w).2) = rw (zero_got, roomy.1, recv_round) refl in
      subst (RoundDid rt [] false rest) (sym e) (
        (sym (append-nil rt.out_fp.given), ground arith, refl, roomy),
        omni_recv-Waits w x rest waits,
      )

  interrupted_round :
      (rt : ServerRuntime) (w : World UdpConn) (rest : List Arrival)
      → IsRoomy rt
      → Waits (interrupted ∷ rest) w.conn
      → RoundDid rt [] false rest (recv_round o ctx rt w)
  interrupted_round rt w rest roomy ((a, talks), there) =
      empty_round rt w interrupted rest roomy ((a, talks), there)
        ((omni_recv_passes ctx w udp_recv server_frame_buf_size over_udp).0
          ∙ interrupted_result (tick w) a server_frame_buf_size rest talks there)

  datagram_round :
      (rt : ServerRuntime) (w : World UdpConn) (from : Sockaddr) (bs : Bytes) (rest : List Arrival)
      → IsRoomy rt
      → length bs ≤ max_datagram
      → Waits (datagram from bs ∷ rest) w.conn
      → let d = decode_app_message o bs in
        RoundDid rt (chunk_of d) (is_end d) rest (recv_round o ctx rt w)
  unfolding recv_round
  datagram_round rt w from [] rest roomy short ((a, talks), there) =
      let (r, frame, now_talks) =
        udp_recv-Datagram (tick w) a from [] server_frame_buf_size rest talks there (omega arith) in
      let zero_got = (omni_recv_passes ctx w udp_recv server_frame_buf_size over_udp).0 ∙ r in
      subst (λ d. RoundDid rt (chunk_of d) (is_end d) rest (recv_round o ctx rt w))
        (sym (empty_refused o).1)
        (empty_round rt w (datagram from []) rest roomy ((a, talks), there) zero_got)
  datagram_round rt w from (b ∷ bs) rest roomy short ((a, talks), there) =
      let passed = omni_recv_passes ctx w udp_recv server_frame_buf_size over_udp in
      let (r, frame, now_talks) =
        udp_recv-Datagram (tick w) a from (b ∷ bs) server_frame_buf_size rest talks there
          (omega (arith, short)) in
      let n : (got w).0 ≡ pos (suc (length bs)) = passed.0 ∙ r in
      let whole : take (suc (length bs)) (got w).1 ≡ b ∷ bs =
        ap (take (suc (length bs))) (passed.1 ∙ frame)
        ∙ take_all (suc (length bs)) (b ∷ bs) (omega arith) in
      let d = decode_app_message o (b ∷ bs) in
      let w1 = (got w).2 in
      let e : recv_round o ctx rt w ≡ on_message rt w1 d =
        rw (n, recv_round) (ap (on_message rt w1) (ap (decode_app_message o) whole)) in
      subst (RoundDid rt (chunk_of d) (is_end d) rest) (sym e) (
        on_message-Did rt w1 d roomy (decode_app_message-IsSized o (b ∷ bs) d refl),
        subst (Waits rest) (sym (on_message-conn rt w1 d))
            (omni_recv-Waits w (datagram from (b ∷ bs)) rest ((a, talks), there)),
      )

  broken_round :
      (rt : ServerRuntime) (w : World UdpConn) (rest : List Arrival)
      → Waits (broken ∷ rest) w.conn
      → (recv_round o ctx rt w).0 ≡ leave rt
  unfolding recv_round
  broken_round rt w rest ((a, talks), there) =
      let n : (got w).0 ≡ omni_err_io =
        (omni_recv_passes ctx w udp_recv server_frame_buf_size over_udp).0
        ∙ broken_result (tick w) a server_frame_buf_size rest talks there in
      rw (n, recv_round) refl

  stopped :
      (rounds : ℕ) (rt : ServerRuntime) (w : World UdpConn)
      → rt.running ≡ false
      → recv_thread o ctx rounds rt w ≡ (rt, w)
  unfolding recv_thread
  stopped zero rt w over = refl
  stopped (suc rounds) rt w over = rw over refl

  -- What all rounds did.
  abbrev Served : ServerRuntime → List Arrival → ServerRuntime → Type 0
  Served rt arrivals rt' =
      (rt'.out_fp.given ≡ rt.out_fp.given ++ chunks o arrivals)
      × (rt'.transfer_done ≡ rt.transfer_done || has_end o arrivals)
      × (rt'.running ≡ not (has_error arrivals))
      × (rt'.out_fp.room ≡ none)

  -- One round before the others.
  after_round :
      (rt rt' rt'' : ServerRuntime) (body : Bytes) (end : Bool) (rest : List Arrival)
      → Did rt body end rt'
      → Served rt' rest rt''
      → (rt''.out_fp.given ≡ rt.out_fp.given ++ (body ++ chunks o rest))
        × (rt''.transfer_done ≡ rt.transfer_done || (end || has_end o rest))
        × (rt''.running ≡ not (has_error rest))
        × (rt''.out_fp.room ≡ none)
  after_round rt rt' rt'' body end rest (given, done, runs, roomy) (givens, dones, running, room) =
      (
        givens ∙ ap (λ t. t ++ chunks o rest) given ∙ append_assoc rt.out_fp.given body _,
        ground arith,
        running,
        room,
      )

  -- All rounds, with the file as it stands before it is closed.
  recv_thread-Served :
      (arrivals : List Arrival) (rt : ServerRuntime) (w : World UdpConn)
      → rt.running ≡ true
      → IsRoomy rt
      → AllShort arrivals
      → Waits arrivals w.conn
      → Served rt arrivals (recv_thread o ctx (length arrivals) rt w).0
  recv_thread-Served [] rt w running roomy short waits =
      rw (recv_thread_stop o ctx) (sym (append-nil rt.out_fp.given), ground arith, running, roomy.0)
  recv_thread-Served (datagram from bs ∷ rest) rt w running roomy short waits =
      let (rt', w') = recv_round o ctx rt w in
      let did = datagram_round rt w from bs rest roomy short.0 waits in
      let more = recv_thread-Served rest rt' w' (did.0.2 ∙ running) did.0.3 short.1 did.1 in
      rw (recv_thread_step o ctx (length rest) rt w running)
        (after_round rt rt' (recv_thread o ctx (length rest) rt' w').0 _ _ rest did.0 more)
  recv_thread-Served (interrupted ∷ rest) rt w running roomy short waits =
      let (rt', w') = recv_round o ctx rt w in
      let did = interrupted_round rt w rest roomy waits in
      let more = recv_thread-Served rest rt' w' (did.0.2 ∙ running) did.0.3 short did.1 in
      rw (recv_thread_step o ctx (length rest) rt w running)
        (after_round rt rt' (recv_thread o ctx (length rest) rt' w').0 _ _ rest did.0 more)
  recv_thread-Served (broken ∷ rest) rt w running roomy short waits =
      let (rt', w') = recv_round o ctx rt w in
      let left : rt' ≡ leave rt = broken_round rt w rest waits in
      rw
        (
          recv_thread_step o ctx (length rest) rt w running,
          stopped (length rest) rt' w' (ap (λ (x : ServerRuntime). x.running) left),
        )
        (
          ap (λ (x : ServerRuntime). x.out_fp.given) left ∙ sym (append-nil rt.out_fp.given),
          ap (λ (x : ServerRuntime). x.transfer_done) left ∙ ground arith,
          ap (λ (x : ServerRuntime). x.running) left,
          ap (λ (x : ServerRuntime). x.out_fp.room) left ∙ roomy.0,
        )

  -- Whatever arrives: over UDP, on an open context, with a server that is running and whose disk takes all, the file
  -- holds, once it is closed after as many rounds as there were arrivals, the payloads of the messages FILE_CHUNK among the datagrams up to the first
  -- error of the socket, in their order, behind what was written before, and nothing else, whatever else the datagrams hold. The
  -- transfer is marked done exactly if it was before or a FILE_END was among them, and the server is still running
  -- exactly if there was no error.
  pub recv_thread-chunks :
      (arrivals : List Arrival) (rt : ServerRuntime) (w : World UdpConn)
      → rt.running ≡ true
      → IsRoomy rt
      → AllShort arrivals
      → Waits arrivals w.conn
      → let rt' = (recv_thread o ctx (length arrivals) rt w).0 in
        (content (fflush rt'.out_fp) ≡ rt.out_fp.given ++ chunks o arrivals)
        × (rt'.transfer_done ≡ rt.transfer_done || has_end o arrivals)
        × (rt'.running ≡ not (has_error arrivals))
  recv_thread-chunks arrivals rt w running roomy short waits =
      let (given, done, runs, room) = recv_thread-Served arrivals rt w running roomy short waits in
      let fp = (recv_thread o ctx (length arrivals) rt w).0.out_fp in
      ((fflush-roomy fp room).1 ∙ given, done, runs)
