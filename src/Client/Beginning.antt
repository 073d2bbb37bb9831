-- ===== src/Client/Beginning.antt =====
-- What the client of src/apps/client_main.c has sent if the transfer may fail at any point.
use omni_socket.App.{send_app_message}
use omni_socket.App.Channel.{Parts, finish, chunk}
use omni_socket.App.Feed.{Sink, Parts-any}
use omni_socket.App.Messages.{app_frame}
use omni_socket.Base.{
  ℕ, zero, suc, ◌+◌, ◌%◌, ◌^◌, ◌<◌, ◌≤◌, ◌≡◌, refl, ap, ◌∙◌, sym, subst, ◌++◌, [], ◌∷◌, List, Bytes,
  ◌⊎◌, inl, inr, length, Bool, true, false, Option, some, ℤ, arith, append_assoc, take, drop,
  Bool-cases, append-nil, length-take, length-drop, ◌==◌, take-append-drop,
}
use omni_socket.Client.{FileIn, Poll, poll, later, Sending, send_loop, send_file, transfer}
use omni_socket.Client.Attempts.{send_app_message-Tried}
use omni_socket.Network.{OmniContext, send_of}
use omni_socket.Runtime.{World}
use omni_socket.Wire.{ByteOrder, msg_type_file_chunk, msg_type_file_end}

module _ {S : Type 0} (o : ByteOrder) (ctx : Option (OmniContext S))
    (send : World S → Bytes → ℤ × World S) (sink : Sink S send)
    (over : send_of ctx ≡ some send) where
  -- What is left of the file `f` behind `ms`: its chunks were taken and the client goes on, or it stops, and what was
  -- taken is a beginning of messages that carry the file.
  data Left (ms : List Bytes) (f : Bytes) (r : Sending S) : Type 0 where
    goes_on :
        (chunks : List Bytes)
        → r.running ≡ true
        → sink.Has r.world.conn (ms ++ chunks)
        → ((end : List Bytes) → Parts [] end → Parts f (chunks ++ end))
        → Left ms f r
    stops :
        (more : List Bytes)
        → r.running ≡ false
        → sink.Begins r.world.conn (ms ++ more)
        → Parts f more
        → Left ms f r

  -- It stops before it sends anything of `f`.
  stops_before :
      (ms : List Bytes) (f : Bytes) (r : Sending S)
      → r.running ≡ false
      → sink.Has r.world.conn ms
      → Left ms f r
  stops_before ms f r over has =
      let (more, p) = Parts-any f in
      stops more over (sink.begins_more r.world.conn ms more (sink.has_begins r.world.conn ms has))
        p

  -- A chunk of the file and what was left of the file behind it.
  Left-chunk :
      (ms : List Bytes) (f body f' : Bytes) (t : ℕ) (r : Sending S)
      → f ≡ body ++ f'
      → t < 2 ^ 64
      → ¬ (body ≡ [])
      → length body ≤ 65536
      → Left (ms ++ app_frame msg_type_file_chunk t body ∷ []) f' r
      → Left ms f r
  Left-chunk ms f body f' t r e h ne fits left =
      let m = app_frame msg_type_file_chunk t body in
      elim left [
        | goes_on chunks running has carry ↦
            goes_on (m ∷ chunks) running
              (subst (sink.Has r.world.conn) (append_assoc ms (m ∷ []) chunks) has)
              (λ end p. chunk body f' (chunks ++ end) t h ne fits e refl (carry end p))
        | stops more over begins p ↦
            stops (m ∷ more) over
              (subst (sink.Begins r.world.conn) (append_assoc ms (m ∷ []) more) begins)
              (chunk body f' more t h ne fits e refl p)
      ]

  -- The file is `f` and what the read error hides of it.
  module _ (n : ℕ) (chunk_fits : suc n ≤ 65536) (message_fits : 17 + n ≤ sink.limit) (broken : Bool)
      (hidden : Bytes) (readable : (broken ≡ true) ⊎ (hidden ≡ [])) where
    -- The client stops at a chunk that was not sent whole.
    Left-failed :
        (ms : List Bytes) (f body f' : Bytes) (t : ℕ) (r : Sending S)
        → f ≡ body ++ f'
        → t < 2 ^ 64
        → ¬ (body ≡ [])
        → length body ≤ 65536
        → r.running ≡ false
        → sink.Begins r.world.conn (ms ++ app_frame msg_type_file_chunk t body ∷ [])
        → Left ms f r
    Left-failed ms f body f' t r e h ne fits over begins =
        let (more, p) = Parts-any f' in
        let m = app_frame msg_type_file_chunk t body in
        stops (m ∷ more) over
          (subst (sink.Begins r.world.conn) (append_assoc ms (m ∷ []) more)
            (sink.begins_more r.world.conn (ms ++ m ∷ []) more begins))
          (chunk body f' more t h ne fits e refl p)

    all_readable : broken ≡ false → hidden ≡ []
    all_readable fine = elim readable [ inl read_error ↦ cc | inr none_hidden ↦ none_hidden ]

    send_loop-Left :
        (fuel : ℕ) (f : Bytes) (polls : List Poll) (total : ℕ) (w : World S) (ms : List Bytes)
        → length f < fuel
        → sink.Has w.conn ms
        → Left ms
            (f ++ hidden)
            (send_loop o ctx (suc n) fuel polls (record { rest = f; broken = broken }) total w)
    unfolding send_loop
    send_loop-Left zero f polls total w ms h has = absurd (omega arith)
    send_loop-Left (suc fuel) [] polls total w ms h has = elim (Bool-cases (poll polls).running) [
      | inr over ↦ rw over (stops_before ms hidden _ refl has)
      | inl running ↦ elim (Bool-cases (poll polls).g_stop) [
        | inl stop ↦ rw (running, stop) (stops_before ms hidden _ refl has)
        | inr calm ↦ elim (Bool-cases broken) [
          | inl read_error ↦ rw (running, calm, read_error) (stops_before ms hidden _ refl has)
          | inr fine ↦
              rw (running, calm, fine)
                (goes_on [] refl (subst (sink.Has w.conn) (sym (append-nil ms)) has)
                  (λ end p. subst (λ x. Parts x end) (sym (all_readable fine)) p))
        ]
      ]
    ]
    send_loop-Left (suc fuel) (b ∷ bs) polls total w ms h has =
        let p = poll polls in
        let body = b ∷ take n bs in
        let whole : b ∷ (bs ++ hidden) ≡ body ++ (drop n bs ++ hidden) =
          ap (λ x. b ∷ (x ++ hidden)) (sym (take-append-drop n bs))
          ∙ ap (◌∷◌ b) (append_assoc (take n bs) (drop n bs) hidden) in
        let body_fits : length body ≤ 65536 = omega (arith, length-take n bs) in
        let (rc, w1) = send_app_message o p.allocated ctx msg_type_file_chunk body w in
        let (t, time_fits, tried) =
          send_app_message-Tried o ctx send sink over p.allocated msg_type_file_chunk body w ms has
            (omega (arith, length-take n bs, message_fits)) in
        let busy : (suc (length (take n bs)) == 0) ≡ false = ground arith in
        elim (Bool-cases p.running) [
          | inr over ↦ rw over (stops_before ms (b ∷ (bs ++ hidden)) _ refl has)
          | inl running ↦ elim (Bool-cases p.g_stop) [
            | inl stop ↦ rw (running, stop) (stops_before ms (b ∷ (bs ++ hidden)) _ refl has)
            | inr calm ↦ elim tried [
              | inl (ok, has1) ↦
                  rw (running, calm, busy, ok)
                    (Left-chunk ms (b ∷ (bs ++ hidden)) body (drop n bs ++ hidden) t _ whole
                      time_fits (λ e. cc) body_fits
                      (send_loop-Left fuel (drop n bs) (later polls)
                        ((total + length body) % 2 ^ 64) w1
                        (ms ++ app_frame msg_type_file_chunk t body ∷ [])
                        (omega (arith, length-drop n bs)) has1))
              | inr (failed, begins) ↦
                  rw (running, calm, busy, failed)
                    (Left-failed ms (b ∷ (bs ++ hidden)) body (drop n bs ++ hidden) t _ whole
                      time_fits (λ e. cc) body_fits refl begins)
            ]
          ]
        ]

    -- The whole transfer, behind the loop.
    pub transfer-Begins :
        (f : Bytes) (polls : List Poll) (w : World S) (ms : List Bytes)
        → sink.Has w.conn ms
        → let r = transfer o ctx (suc n) polls (record { rest = f; broken = broken }) w in
          (more : List Bytes) × sink.Begins r.world.conn (ms ++ more) × Parts (f ++ hidden) more
    unfolding transfer
    transfer-Begins f polls w ms has =
        let fp : FileIn = record { rest = f; broken = broken } in
        let sent = send_file o ctx (suc n) polls fp w in
        let p = poll sent.polls in
        elim (send_loop-Left (suc (length f)) f polls 0 w ms (omega arith) has) [
          | stops more over begins parts ↦ rw over (more, begins, parts)
          | goes_on chunks running has1 carry ↦
              let (t, time_fits, tried) =
                send_app_message-Tried o ctx send sink over p.allocated msg_type_file_end []
                  sent.world (ms ++ chunks) has1 (omega (arith, message_fits)) in
              let end = app_frame msg_type_file_end t [] ∷ [] in
              let parts = carry end (finish t time_fits refl refl) in
              let assoc = append_assoc ms chunks end in
              elim (Bool-cases p.running) [
                | inr over ↦
                    rw (running, over)
                      (
                        chunks ++ end,
                        subst (sink.Begins sent.world.conn) assoc (
                            sink.begins_more sent.world.conn (ms ++ chunks) end
                              (sink.has_begins sent.world.conn (ms ++ chunks) has1)),
                        parts,
                      )
                | inl runs ↦
                    let c1 =
                      (send_app_message o p.allocated ctx msg_type_file_end [] sent.world).1.conn in
                    let begins : sink.Begins c1 ((ms ++ chunks) ++ end) = elim tried [
                      | inl (ok, has2) ↦ sink.has_begins c1 ((ms ++ chunks) ++ end) has2
                      | inr (failed, begins) ↦ begins
                    ] in
                    rw (running, runs) (chunks ++ end, subst (sink.Begins c1) assoc begins, parts)
              ]
        ]
