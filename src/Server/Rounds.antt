-- ===== src/Server/Rounds.antt =====
-- The rounds of the receiving thread of src/apps/server_main.c over a protocol of which a call may fail.
use omni_socket.App.{Decoded, decoded, decode_app_message}
use omni_socket.App.Feed.{omni_recv-Given, Source, failed, nothing, message}
use omni_socket.App.Messages.{app_frame, length-app_frame, decode_app_message-app_frame}
use omni_socket.Base.{
  ℕ, zero, suc, ◌+◌, ◌^◌, ◌<◌, ◌≤◌, ◌≡◌, refl, ap, ◌∙◌, sym, subst, ◌++◌, [], ◌∷◌, List, Bytes,
  length, take, All, true, false, ◌⊎◌, inl, inr, Option, some, ℤ, pos, is_negative, negative_lem,
  arith, take_all, Bool-cases,
}
use omni_socket.Network.{OmniContext, recv_of, omni_recv}
use omni_socket.Runtime.{World}
use omni_socket.Server.{
  fflush, ServerRuntime, on_message, recv_round, recv_thread, server_frame_buf_size, is_tcp, leave,
}
use omni_socket.Server.Receiving.{on_message_end, on_message-conn, header}
use omni_socket.Server.Writing.{WroteChunk, on_message-WroteChunk}
use omni_socket.Wire.{ByteOrder, msg_type_file_chunk, msg_type_file_end}

cons_lem : (x y : Bytes) (xs ys : List Bytes) → x ∷ xs ≡ y ∷ ys → (x ≡ y) × (xs ≡ ys)
cons_lem x y xs ys e = (cc, cc)

module _ {S : Type 0} (o : ByteOrder) (ctx : Option (OmniContext S))
    (recv : World S → ℕ → ℤ × Bytes × World S) (source : Source S recv)
    (over : recv_of ctx ≡ some recv) where
  abbrev pub got : World S → ℤ × Bytes × World S
  got w = omni_recv ctx w server_frame_buf_size

  pub stopped :
      (rounds : ℕ) (rt : ServerRuntime) (w : World S)
      → rt.running ≡ false
      → recv_thread o ctx rounds rt w ≡ (rt, w)
  unfolding recv_thread
  stopped zero rt w over = refl
  stopped (suc rounds) rt w over = rw over refl

  negative_round :
      (rt : ServerRuntime) (w : World S)
      → is_negative (got w).0 ≡ true
      → (recv_round o ctx rt w).0 ≡ leave rt
  unfolding recv_round
  negative_round rt w neg = let (e, n) = negative_lem (got w).0 neg in rw (n, recv_round) refl

  zero_round :
      (rt : ServerRuntime) (w : World S)
      → (got w).0 ≡ pos 0
      → ((recv_round o ctx rt w).0 ≡ leave rt)
        ⊎ (((recv_round o ctx rt w).0 ≡ rt) × ((recv_round o ctx rt w).1.conn ≡ (got w).2.conn))
  unfolding recv_round
  zero_round rt w zero_got = elim (Bool-cases (is_tcp rt.proto)) [
    | inl tcp ↦ rw (zero_got, tcp, recv_round) (inl refl)
    | inr other ↦ rw (zero_got, other, recv_round) (inr (refl, refl))
  ]

  message_round :
      (rt : ServerRuntime) (w : World S) (type t : ℕ) (body : Bytes)
      → type < 2 ^ 32
      → t < 2 ^ 64
      → length body ≤ 65536
      → (got w).0 ≡ pos (length (app_frame type t body))
      → (got w).1 ≡ app_frame type t body
      → let d = decoded (header type t body) body in
        recv_round o ctx rt w ≡ on_message rt (got w).2 d
  unfolding recv_round
  message_round rt w type t body ht h fits n bytes =
      let frame = app_frame type t body in
      let len = length-app_frame type t body in
      let n' : (got w).0 ≡ pos (suc (15 + length body)) = n ∙ ap pos (omega (arith, len)) in
      let whole : take (suc (15 + length body)) (got w).1 ≡ frame =
        ap (take (suc (15 + length body))) bytes
        ∙ take_all (suc (15 + length body)) frame (omega (arith, len)) in
      let read = decode_app_message-app_frame o type t body ht (omega arith) h in
      rw (n', recv_round) (ap (on_message rt (got w).2) (ap (decode_app_message o) whole ∙ read))

  -- A round before messages: the thread leaves; it goes on and they are still to come; or it gets the next.
  pub data Outcome (rt : ServerRuntime) (w : World S) (ms : List Bytes) : Type 0 where
    leaves : (recv_round o ctx rt w).0 ≡ leave rt → Outcome rt w ms
    stays :
        (recv_round o ctx rt w).0 ≡ rt
        → source.Holds (recv_round o ctx rt w).1.conn ms
        → Outcome rt w ms
    gets :
        (m : Bytes) (rest : List Bytes)
        → ms ≡ m ∷ rest
        → (got w).0 ≡ pos (length m)
        → (got w).1 ≡ m
        → source.Holds (got w).2.conn rest
        → Outcome rt w ms

  pub recv_round-Outcome :
      (rt : ServerRuntime) (w : World S) (ms : List Bytes)
      → All (λ m. length m ≤ server_frame_buf_size) ms
      → source.Holds w.conn ms
      → Outcome rt w ms
  recv_round-Outcome rt w ms fit holds =
      elim (omni_recv-Given ctx recv source w server_frame_buf_size ms over fit holds) [
        | failed neg ↦ leaves (negative_round rt w neg)
        | nothing zero_got still ↦ elim (zero_round rt w zero_got) [
          | inl left ↦ leaves left
          | inr (same, conn) ↦ stays same (subst (λ c. source.Holds c ms) (sym conn) still)
        ]
        | message m rest e n bytes still ↦ gets m rest e n bytes still
      ]

  -- The round of a message of the file.
  got_round :
      (rt : ServerRuntime) (w : World S) (type t : ℕ) (body m : Bytes)
      → type < 2 ^ 32
      → t < 2 ^ 64
      → length body ≤ 65536
      → (got w).0 ≡ pos (length m)
      → (got w).1 ≡ m
      → m ≡ app_frame type t body
      → recv_round o ctx rt w ≡ on_message rt (got w).2 (decoded (header type t body) body)
  got_round rt w type t body m ht h fits n bytes e =
      message_round rt w type t body ht h fits (n ∙ ap (λ x. pos (length x)) e) (bytes ∙ e)

  -- What handling a message does not change.
  round_conn :
      (rt : ServerRuntime) (w : World S) (d : Decoded) (ms : List Bytes)
      → recv_round o ctx rt w ≡ on_message rt (got w).2 d
      → source.Holds (got w).2.conn ms
      → source.Holds (recv_round o ctx rt w).1.conn ms
  round_conn rt w d ms r still =
      subst (λ c. source.Holds c ms)
        (sym (ap (λ (x : ServerRuntime × World S). x.1.conn) r ∙ on_message-conn rt (got w).2 d))
        still

  -- The round of FILE_END, the last message.
  pub got_end :
      (rt : ServerRuntime) (w : World S) (t : ℕ) (m : Bytes) (rest : List Bytes)
      → t < 2 ^ 64
      → m ∷ rest ≡ app_frame msg_type_file_end t [] ∷ []
      → (got w).0 ≡ pos (length m)
      → (got w).1 ≡ m
      → source.Holds (got w).2.conn rest
      → let (rt', w') = recv_round o ctx rt w in
        (rt' ≡ record rt { out_fp = fflush rt.out_fp; transfer_done = true })
        × source.Holds w'.conn []
  got_end rt w t m rest h e n bytes still =
      let (head, none_left) = cons_lem m (app_frame msg_type_file_end t []) rest [] e in
      let r = got_round rt w msg_type_file_end t [] m (omega arith) h (omega arith) n bytes head in
      (
        ap (λ (x : ServerRuntime × World S). x.0) r ∙ on_message_end rt (got w).2 t,
        round_conn rt w (decoded (header msg_type_file_end t []) []) [] r
            (subst (source.Holds (got w).2.conn) none_left still),
      )

  -- The round of a chunk.
  pub got_chunk :
      (rt : ServerRuntime) (w : World S) (t : ℕ) (body m : Bytes) (rest ms : List Bytes)
      → t < 2 ^ 64
      → length body ≤ 65536
      → m ∷ rest ≡ app_frame msg_type_file_chunk t body ∷ ms
      → (got w).0 ≡ pos (length m)
      → (got w).1 ≡ m
      → source.Holds (got w).2.conn rest
      → let (rt', w') = recv_round o ctx rt w in
        (rt'.transfer_done ≡ rt.transfer_done)
        × (((rt'.running ≡ rt.running) × (rt'.out_fp.given ≡ rt.out_fp.given ++ body))
            ⊎ ((rt'.running ≡ false)
                × (k : ℕ) × (rt'.out_fp.given ≡ rt.out_fp.given ++ take k body)))
        × source.Holds w'.conn ms
  got_chunk rt w t body m rest ms h fits e n bytes still =
      let (head, rest_eq) = cons_lem m (app_frame msg_type_file_chunk t body) rest ms e in
      let d = decoded (header msg_type_file_chunk t body) body in
      let r = got_round rt w msg_type_file_chunk t body m (omega arith) h fits n bytes head in
      let (done, wrote) =
        subst (WroteChunk rt body) (sym (ap (λ (x : ServerRuntime × World S). x.0) r))
          (on_message-WroteChunk rt (got w).2 t body) in
      (done, wrote, round_conn rt w d ms r (subst (source.Holds (got w).2.conn) rest_eq still))
