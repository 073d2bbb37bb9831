-- ===== src/Client/Transfer.antt =====
-- The client's transfer of a file over TCP.
use omni_socket.App.{send_app_message}
use omni_socket.App.FileStream.{wrapped, Carries, finish, chunk}
use omni_socket.App.Messages.{app_frame, length-app_frame}
use omni_socket.Base.{
  ℕ, zero, suc, ◌+◌, ◌%◌, ◌^◌, ◌<◌, ◌≤◌, ◌≡◌, refl, ap, ◌∙◌, sym, subst, ◌++◌, [], ◌∷◌, List, Bytes,
  length, true, false, Option, some, ℤ, pos, All, arith, ==_refl, append_assoc, take, drop,
  append-nil, length-take, length-drop, ◌==◌, take-append-drop,
}
use omni_socket.Client.{FileIn, Poll, calm, poll, later, Sending, send_loop, send_file, transfer}
use omni_socket.Network.{OmniContext, send_of, omni_send}
use omni_socket.Network.Calls.{omni_send_passes}
use omni_socket.Runtime.{World, now, tick, now-lt}
use omni_socket.Tcp.{TcpConn, is_open, tcp_send}
use omni_socket.Tcp.Receives.{any_frame, any_frame-tcp_frame}
use omni_socket.Tcp.Sends.{tcp_frame, tcp_send-frame}
use omni_socket.Tcp.Stream.{TxClean}
use omni_socket.Wire.{
  ByteOrder, omni_ok, msg_type_raw, msg_type_file_chunk, msg_type_file_end, omni_msg_header_encode,
  header_to_bytes,
}
use omni_socket.Wire.RoundTrip.{header_to_bytes-encode}

-- The connection is up, and no write will fail.
pub record IsReady (c : TcpConn) : Type 0 where
  pub opened : is_open c.ctx ≡ true
  pub clean : TxClean c.sock.tx

-- What one message leaves on the stream.
pub record Delivered (c : TcpConn) (type : ℕ) (payload : Bytes) (rc : ℤ) (c' : TcpConn)
    : Type 0 where
  pub ok : rc ≡ omni_ok
  pub t1 : ℕ
  pub t2 : ℕ
  pub t1_fits : t1 < 2 ^ 64
  pub t2_fits : t2 < 2 ^ 64
  pub sent : c'.sock.sent ≡ c.sock.sent ++ wrapped t1 t2 type payload
  pub ready : IsReady c'

module _ (o : ByteOrder) (ctx : Option (OmniContext TcpConn))
    (over_tcp : send_of ctx ≡ some (tcp_send o)) where
  pub send_app_message-Delivered :
      (type : ℕ) (payload : Bytes) (w : World TcpConn)
      → IsReady w.conn
      → length payload ≤ 65536
      → let (rc, w') = send_app_message o true ctx type payload w in
        Delivered w.conn type payload rc w'.conn
  unfolding send_app_message
  send_app_message-Delivered type payload w ready fits =
      let hb = header_to_bytes o (omni_msg_header_encode o type (length payload) (now w)) in
      let frame_eq : hb ++ payload ≡ app_frame type (now w) payload =
        ap (λ t. t ++ payload) (header_to_bytes-encode o type (length payload) (now w)) in
      let len : length (hb ++ payload) ≡ 16 + length payload =
        ap length frame_eq ∙ length-app_frame type (now w) payload in
      let passed = omni_send_passes ctx (tick w) (tcp_send o) (hb ++ payload) over_tcp in
      let done = tcp_send-frame o (tick (tick w)) (hb ++ payload) ready.opened ready.clean in
      let n : (omni_send ctx (tick w) (hb ++ payload)).0 ≡ pos (16 + length payload) =
        passed.0 ∙ done.0 ∙ ap pos len in
      let framed : tcp_frame (now (tick (tick w))) (hb ++ payload)
          ≡ wrapped (now (tick (tick w))) (now w) type payload =
        any_frame-tcp_frame (now (tick (tick w))) (hb ++ payload) (omega (arith, len))
        ∙ ap (any_frame msg_type_raw (now (tick (tick w)))) frame_eq in
      rw (n, ==_refl (16 + length payload))
        (record {
          ok = refl;
          t1 = now (tick (tick w));
          t2 = now w;
          t1_fits = now-lt (tick (tick w));
          t2_fits = now-lt w;
          sent =
              ap (λ (c : TcpConn). c.sock.sent) passed.1
              ∙ done.1
              ∙ ap (λ t. w.conn.sock.sent ++ t) framed;
          ready = record {
            opened =
                ap (λ (c : TcpConn). is_open c.ctx) passed.1 ∙ ap is_open done.4 ∙ ready.opened;
            clean = subst (λ (c : TcpConn). TxClean c.sock.tx) (sym passed.1) done.3;
          };
        })

-- No flag is raised and no allocation fails.
abbrev pub AllCalm : List Poll → Type 0
AllCalm polls = All (λ p. p ≡ calm) polls

pub poll-calm : (polls : List Poll) → AllCalm polls → poll polls ≡ calm
poll-calm [] h = refl
poll-calm (p ∷ ps) h = h.0

pub later-calm : (polls : List Poll) → AllCalm polls → AllCalm (later polls)
later-calm [] h = h
later-calm (p ∷ ps) h = h.1

-- What the sending loop leaves of the file `f`: all its chunks are on the stream.
record SentFile (c : TcpConn) (f : Bytes) (total : ℕ) (r : Sending TcpConn) : Type 0 where
  running : r.running ≡ true
  total_sent : r.total_sent ≡ (total + length f) % 2 ^ 64
  polls : AllCalm r.polls
  ready : IsReady r.world.conn
  chunks : Bytes
  sent : r.world.conn.sock.sent ≡ c.sock.sent ++ chunks
  carry : (end : Bytes) → Carries [] end → Carries f (chunks ++ end)

module _ (o : ByteOrder) (ctx : Option (OmniContext TcpConn))
    (over_tcp : send_of ctx ≡ some (tcp_send o)) (n : ℕ) (chunk_fits : suc n ≤ 65536) where
  abbrev pub file_of : Bytes → FileIn
  file_of f = record { rest = f; broken = false }

  send_loop-SentFile :
      (fuel : ℕ) (f : Bytes) (polls : List Poll) (total : ℕ) (w : World TcpConn)
      → length f < fuel
      → total < 2 ^ 64
      → AllCalm polls
      → IsReady w.conn
      → SentFile w.conn f total (send_loop o ctx (suc n) fuel polls (file_of f) total w)
  unfolding send_loop
  send_loop-SentFile zero f polls total w h t calm_polls ready = absurd (omega arith)
  send_loop-SentFile (suc fuel) [] polls total w h t calm_polls ready =
      rw (poll-calm polls calm_polls) (record {
        running = refl;
        total_sent = omega arith;
        polls = later-calm polls calm_polls;
        ready = ready;
        chunks = [];
        sent = sym (append-nil w.conn.sock.sent);
        carry = λ end c. c;
      })
  send_loop-SentFile (suc fuel) (b ∷ bs) polls total w h t calm_polls ready =
      let d =
        send_app_message-Delivered o ctx over_tcp msg_type_file_chunk (b ∷ take n bs) w ready
          (omega (arith, length-take n bs)) in
      let more =
        send_loop-SentFile fuel (drop n bs) (later polls)
          ((total + suc (length (take n bs))) % 2 ^ 64)
          (send_app_message o true ctx msg_type_file_chunk (b ∷ take n bs) w).1
          (omega (arith, length-drop n bs)) (omega arith) (later-calm polls calm_polls) d.ready in
      let busy : (suc (length (take n bs)) == 0) ≡ false = ground arith in
      rw (poll-calm polls calm_polls, busy, d.ok)
        (record {
          running = more.running;
          total_sent = more.total_sent ∙ omega (arith, length-take n bs, length-drop n bs);
          polls = more.polls;
          ready = more.ready;
          chunks = wrapped d.t1 d.t2 msg_type_file_chunk (b ∷ take n bs) ++ more.chunks;
          sent = more.sent ∙ ap (λ t. t ++ more.chunks) d.sent ∙ append_assoc w.conn.sock.sent _ _;
          carry = λ end c.
              chunk (b ∷ take n bs) (drop n bs) (more.chunks ++ end) d.t1 d.t2 d.t1_fits d.t2_fits
                (λ e. cc) (omega (arith, length-take n bs))
                (ap (◌∷◌ b) (sym (take-append-drop n bs)))
                (append_assoc (wrapped d.t1 d.t2 msg_type_file_chunk (b ∷ take n bs)) more.chunks
                  end)
                (more.carry end c);
        })

  -- Over an open TCP connection on which no write fails, with no stop, no failed allocation and no read
  -- error, and for any chunk size from 1 to 65536, the client runs through its whole file: it is
  -- still running, has counted the bytes of the file, and has put on the stream frames that carry exactly the file.
  pub transfer-Carries :
      (f : Bytes) (polls : List Poll) (w : World TcpConn)
      → AllCalm polls
      → IsReady w.conn
      → let r = transfer o ctx (suc n) polls (file_of f) w in
        (r.running ≡ true)
        × (r.total_sent ≡ length f % 2 ^ 64)
        × (s : Bytes) × (r.world.conn.sock.sent ≡ w.conn.sock.sent ++ s)
        × Carries f s
  unfolding transfer
  transfer-Carries f polls w calm_polls ready =
      let sent =
        send_loop-SentFile (suc (length f)) f polls 0 w (omega arith) (omega arith) calm_polls
          ready in
      let final = send_file o ctx (suc n) polls (file_of f) w in
      let d =
        send_app_message-Delivered o ctx over_tcp msg_type_file_end [] final.world sent.ready
          (omega arith) in
      let end = wrapped d.t1 d.t2 msg_type_file_end [] ++ [] in
      rw (sent.running, poll-calm final.polls sent.polls, d.ok)
        (
          refl,
          sent.total_sent ∙ ap (λ k. k % 2 ^ 64) (omega arith),
          sent.chunks ++ end,
          d.sent
              ∙ ap (λ t. t ++ wrapped d.t1 d.t2 msg_type_file_end []) sent.sent
              ∙ append_assoc w.conn.sock.sent sent.chunks _
              ∙ ap (λ t. w.conn.sock.sent ++ (sent.chunks ++ t)) (sym (append-nil _)),
          sent.carry end (finish d.t1 d.t2 d.t1_fits d.t2_fits refl refl),
        )
