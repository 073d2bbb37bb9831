-- ===== src/Client/Parts.antt =====
-- The client's transfer of a file as messages, over any protocol that keeps their bounds.
use omni_socket.App.{send_app_message}
use omni_socket.App.Channel.{Outlet, Parts, finish, chunk}
use omni_socket.App.Messages.{app_frame, length-app_frame}
use omni_socket.Base.{
  ℕ, zero, suc, ◌+◌, ◌%◌, ◌^◌, ◌<◌, ◌≤◌, ◌≡◌, refl, ap, ◌∙◌, sym, subst, ◌++◌, [], ◌∷◌, List, Bytes,
  length, true, false, Option, some, ℤ, pos, arith, ==_refl, append_assoc, take, drop, append-nil,
  length-take, length-drop, ◌==◌, take-append-drop,
}
use omni_socket.Client.{Poll, later, Sending, send_loop, send_file, transfer}
use omni_socket.Client.Transfer.{AllCalm, poll-calm, later-calm}
use omni_socket.Network.{OmniContext, send_of, omni_send}
use omni_socket.Network.Calls.{omni_send_passes}
use omni_socket.Runtime.{World, now, tick, now-lt}
use omni_socket.Wire.{
  ByteOrder, omni_ok, msg_type_file_chunk, msg_type_file_end, omni_msg_header_encode,
  header_to_bytes,
}
use omni_socket.Wire.RoundTrip.{header_to_bytes-encode}

module _ {S : Type 0} (o : ByteOrder) (ctx : Option (OmniContext S))
    (send : World S → Bytes → ℤ × World S) (channel : Outlet S send)
    (over : send_of ctx ≡ some send) where
  -- What one message leaves on the channel.
  abbrev Passed : S → ℕ → Bytes → ℤ × World S → Type 0
  Passed c type payload (rc, w') =
      (rc ≡ omni_ok)
      × (t : ℕ) × (t < 2 ^ 64)
      × (channel.out w'.conn ≡ channel.out c ++ app_frame type t payload ∷ [])
      × channel.IsReady w'.conn

  send_app_message-Passed :
      (type : ℕ) (payload : Bytes) (w : World S)
      → channel.IsReady w.conn
      → 16 + length payload ≤ channel.limit
      → Passed w.conn type payload (send_app_message o true ctx type payload w)
  unfolding send_app_message
  send_app_message-Passed type payload w ready fits =
      let hb = header_to_bytes o (omni_msg_header_encode o type (length payload) (now w)) in
      let frame_eq : hb ++ payload ≡ app_frame type (now w) payload =
        ap (λ t. t ++ payload) (header_to_bytes-encode o type (length payload) (now w)) in
      let len : length (hb ++ payload) ≡ 16 + length payload =
        ap length frame_eq ∙ length-app_frame type (now w) payload in
      let passed = omni_send_passes ctx (tick w) send (hb ++ payload) over in
      let done = channel.sends (tick (tick w)) (hb ++ payload) ready (omega (arith, len, fits)) in
      let n : (omni_send ctx (tick w) (hb ++ payload)).0 ≡ pos (16 + length payload) =
        passed.0 ∙ done.0 ∙ ap pos len in
      rw (n, ==_refl (16 + length payload))
        (
          refl,
          now w,
          now-lt w,
          ap channel.out passed.1 ∙ done.2 ∙ ap (λ m. channel.out w.conn ++ m ∷ []) frame_eq,
          subst channel.IsReady (sym passed.1) done.1,
        )

  -- What the sending loop leaves of the file `f`: all its chunks are on the channel.
  record SentParts (c : S) (f : Bytes) (total : ℕ) (r : Sending S) : Type 0 where
    running : r.running ≡ true
    total_sent : r.total_sent ≡ (total + length f) % 2 ^ 64
    polls : AllCalm r.polls
    ready : channel.IsReady r.world.conn
    chunks : List Bytes
    sent : channel.out r.world.conn ≡ channel.out c ++ chunks
    carry : (end : List Bytes) → Parts [] end → Parts f (chunks ++ end)

  module _ (n : ℕ) (chunk_fits : suc n ≤ 65536) (message_fits : 17 + n ≤ channel.limit) where
    send_loop-SentParts :
        (fuel : ℕ) (f : Bytes) (polls : List Poll) (total : ℕ) (w : World S)
        → length f < fuel
        → total < 2 ^ 64
        → AllCalm polls
        → channel.IsReady w.conn
        → SentParts w.conn f total
            (send_loop o ctx (suc n) fuel polls (record { rest = f; broken = false }) total w)
    unfolding send_loop
    send_loop-SentParts zero f polls total w h t calm_polls ready = absurd (omega arith)
    send_loop-SentParts (suc fuel) [] polls total w h t calm_polls ready =
        rw (poll-calm polls calm_polls) (record {
          running = refl;
          total_sent = omega arith;
          polls = later-calm polls calm_polls;
          ready = ready;
          chunks = [];
          sent = sym (append-nil (channel.out w.conn));
          carry = λ end p. p;
        })
    send_loop-SentParts (suc fuel) (b ∷ bs) polls total w h t calm_polls ready =
        let (ok, time, time_fits, out, still) =
          send_app_message-Passed msg_type_file_chunk (b ∷ take n bs) w ready
            (omega (arith, length-take n bs, message_fits)) in
        let more =
          send_loop-SentParts fuel (drop n bs) (later polls)
            ((total + suc (length (take n bs))) % 2 ^ 64)
            (send_app_message o true ctx msg_type_file_chunk (b ∷ take n bs) w).1
            (omega (arith, length-drop n bs)) (omega arith) (later-calm polls calm_polls) still in
        let busy : (suc (length (take n bs)) == 0) ≡ false = ground arith in
        let m = app_frame msg_type_file_chunk time (b ∷ take n bs) in
        rw (poll-calm polls calm_polls, busy, ok)
          (record {
            running = more.running;
            total_sent = more.total_sent ∙ omega (arith, length-take n bs, length-drop n bs);
            polls = more.polls;
            ready = more.ready;
            chunks = m ∷ more.chunks;
            sent =
                more.sent
                ∙ ap (λ ms. ms ++ more.chunks) out
                ∙ append_assoc (channel.out w.conn) (m ∷ []) more.chunks;
            carry = λ end p.
                chunk (b ∷ take n bs) (drop n bs) (more.chunks ++ end) time time_fits (λ e. cc)
                  (omega (arith, length-take n bs)) (ap (◌∷◌ b) (sym (take-append-drop n bs))) refl
                  (more.carry end p);
          })

    -- Over a protocol that keeps the bounds of messages, with no stop, no failed allocation and no read error, and for
    -- any chunk size from 1 to 65536 that fits a message with its header of 16 bytes, the client runs through its whole
    -- file: it is still running, has counted the bytes of the file, and has sent messages that carry exactly the file.
    pub transfer-Parts :
        (f : Bytes) (polls : List Poll) (w : World S)
        → AllCalm polls
        → channel.IsReady w.conn
        → let r = transfer o ctx (suc n) polls (record { rest = f; broken = false }) w in
          (r.running ≡ true)
          × (r.total_sent ≡ length f % 2 ^ 64)
          × (ms : List Bytes) × (channel.out r.world.conn ≡ channel.out w.conn ++ ms)
          × Parts f ms
    unfolding transfer
    transfer-Parts f polls w calm_polls ready =
        let sent =
          send_loop-SentParts (suc (length f)) f polls 0 w (omega arith) (omega arith) calm_polls
            ready in
        let final = send_file o ctx (suc n) polls (record { rest = f; broken = false }) w in
        let (ok, time, time_fits, out, still) =
          send_app_message-Passed msg_type_file_end [] final.world sent.ready
            (omega (arith, message_fits)) in
        let end = app_frame msg_type_file_end time [] ∷ [] in
        rw (sent.running, poll-calm final.polls sent.polls, ok)
          (
            refl,
            sent.total_sent ∙ ap (λ k. k % 2 ^ 64) (omega arith),
            sent.chunks ++ end,
            out
                ∙ ap (λ ms. ms ++ end) sent.sent
                ∙ append_assoc (channel.out w.conn) sent.chunks end,
            sent.carry end (finish time time_fits refl refl),
          )
