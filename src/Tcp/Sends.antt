-- ===== src/Tcp/Sends.antt =====
-- What `tcp_send` puts on the stream.
use omni_socket.Base.{
  ℕ, ◌+◌, ◌%◌, ◌^◌, ◌<◌, ◌≡◌, refl, ap, ◌∙◌, sym, ◌⊎◌, inl, inr, ◌++◌, Bytes, length, take, ℤ, pos,
  true, ==_refl, arith, append_assoc, take_within, take_past, length-append,
}
use omni_socket.Runtime.{World, now}
use omni_socket.Tcp.{TcpConn, is_open, tcp_write_n, tcp_send}
use omni_socket.Tcp.Stream.{Socket, TxClean}
use omni_socket.Tcp.Writes.{Wrote, WroteAll, tcp_write_n-Wrote}
use omni_socket.Wire.{ByteOrder, msg_type_raw, omni_err_io, omni_msg_header_encode, header_to_bytes}
use omni_socket.Wire.RoundTrip.{network_header, length-network_header, header_to_bytes-encode}

-- The frame of a payload: the header with its length, on 32 bits, and the payload.
abbrev pub tcp_frame : ℕ → Bytes → Bytes
tcp_frame ts buf = network_header msg_type_raw (length buf % 2 ^ 32) ts ++ buf

module _ (o : ByteOrder) (w : World TcpConn) (buf : Bytes)
    (open_ctx : is_open w.conn.ctx ≡ true) where
  abbrev hb : Bytes
  hb = header_to_bytes o (omni_msg_header_encode o msg_type_raw (length buf % 2 ^ 32) (now w))

  hb-eq-network_header : hb ≡ network_header msg_type_raw (length buf % 2 ^ 32) (now w)
  hb-eq-network_header = header_to_bytes-encode o msg_type_raw (length buf % 2 ^ 32) (now w)

  length-hb : length hb ≡ 16
  length-hb =
      ap length hb-eq-network_header
      ∙ length-network_header msg_type_raw (length buf % 2 ^ 32) (now w)

  abbrev header_sent : ℤ × Socket
  header_sent = tcp_write_n w.conn.sock hb

  abbrev payload_sent : ℤ × Socket
  payload_sent = tcp_write_n header_sent.1 buf

  h1 : Wrote w.conn.sock hb header_sent
  h1 = tcp_write_n-Wrote w.conn.sock hb

  h2 : Wrote header_sent.1 buf payload_sent
  h2 = tcp_write_n-Wrote header_sent.1 buf

  frame_eq : hb ++ buf ≡ tcp_frame (now w) buf
  frame_eq = ap (λ t. t ++ buf) hb-eq-network_header

  framed : (w.conn.sock.sent ++ hb) ++ buf ≡ w.conn.sock.sent ++ tcp_frame (now w) buf
  framed = append_assoc w.conn.sock.sent hb buf ∙ ap (λ t. w.conn.sock.sent ++ t) frame_eq

  -- With no error but EINTR to come, `tcp_send` returns the length of the payload, and exactly its frame is
  -- on the stream, stamped with the time at the call.
  pub tcp_send-frame :
      TxClean w.conn.sock.tx
      → let (r, w') = tcp_send o w buf in
        (r ≡ pos (length buf))
        × (w'.conn.sock.sent ≡ w.conn.sock.sent ++ tcp_frame (now w) buf)
        × (w'.conn.sock.rx ≡ w.conn.sock.rx)
        × TxClean w'.conn.sock.tx
        × (w'.conn.ctx ≡ w.conn.ctx)
  unfolding tcp_send
  tcp_send-frame c =
      rw (open_ctx, n1, c2.0.0, ==_refl (length buf))
        (refl, c2.0.1 ∙ ap (λ t. t ++ buf) c1.0.1 ∙ framed, h2.same_rx ∙ h1.same_rx, c2.1, refl)
    where
      c1 : WroteAll w.conn.sock hb header_sent × TxClean header_sent.1.tx
      c1 = h1.clean c

      c2 : WroteAll header_sent.1 buf payload_sent × TxClean payload_sent.1.tx
      c2 = h2.clean c1.1

      n1 : header_sent.0 ≡ pos 16
      n1 = c1.0.0 ∙ ap pos length-hb

  -- Whatever `write` meets, what `tcp_send` has put on the stream is the whole frame, and it returns the
  -- length of the payload, or a proper prefix of the frame, and it returns OMNI_ERR_IO.
  pub tcp_send-prefix :
      let (r, w') = tcp_send o w buf in
      let frame = tcp_frame (now w) buf in
      (r ≡ pos (length buf)) × (w'.conn.sock.sent ≡ w.conn.sock.sent ++ frame)
      ⊎ (r ≡ omni_err_io)
        × (k : ℕ) × (k < length frame)
        × (w'.conn.sock.sent ≡ w.conn.sock.sent ++ take k frame)
  unfolding tcp_send
  tcp_send-prefix = elim (h1.outcome) [
    | inr part ↦
        rw (open_ctx, part.0)
          (inr (refl, part.1, k_small part.1 part.2, part.3 ∙ cut part.1 part.2))
    | inl all ↦ elim (h2.outcome) [
      | inl all2 ↦
          rw (open_ctx, all.0, length-hb, all2.0, ==_refl (length buf))
            (inl (refl, all2.1 ∙ ap (λ t. t ++ buf) all.1 ∙ framed))
      | inr part ↦
          rw (open_ctx, all.0, length-hb, part.0)
            (inr (
              refl,
              16 + part.1,
              omega (arith, length-frame),
              part.3
                  ∙ ap (λ t. t ++ take part.1 buf) all.1
                  ∙ append_assoc w.conn.sock.sent hb (take part.1 buf)
                  ∙ ap (λ t. w.conn.sock.sent ++ t) (sym (past part.1)),
            ))
    ]
  ]
    where
      length-frame : length (tcp_frame (now w) buf) ≡ 16 + length buf
      length-frame =
          ap length (sym frame_eq) ∙ length-append hb buf ∙ ap (λ k. k + length buf) length-hb

      k_small : (k : ℕ) → k < length hb → k < length (tcp_frame (now w) buf)
      k_small k h = omega (arith, length-frame, length-hb)

      cut :
          (k : ℕ)
          → k < length hb
          → w.conn.sock.sent ++ take k hb ≡ w.conn.sock.sent ++ take k (tcp_frame (now w) buf)
      cut k h =
          ap (λ t. w.conn.sock.sent ++ t)
            (sym (take_within hb buf k (omega arith)) ∙ ap (take k) frame_eq)

      past : (k : ℕ) → take (16 + k) (tcp_frame (now w) buf) ≡ hb ++ take k buf
      past k =
          ap (take (16 + k)) (sym frame_eq)
          ∙ take_past hb buf (16 + k) (omega (arith, length-hb))
          ∙ ap (λ j. hb ++ take j buf) (omega (arith, length-hb))
