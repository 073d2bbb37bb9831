-- ===== src/Tcp/Frames.antt =====
-- The messages whose frames are on the stream, and those that `tcp_send` of src/protocols/tcp_impl.c leaves there where a
-- call may fail.
use omni_socket.App.Feed.{Sink, Taken, whole, part, Steady}
use omni_socket.Base.{
  ℕ, ◌^◌, ◌<◌, ◌≡◌, refl, ap, ◌∙◌, sym, subst, ◌++◌, [], ◌∷◌, List, Bytes, length, take, drop, pos,
  eqb_ℤ, true, arith, append_assoc, append-nil, take-append-drop, inl, inr,
}
use omni_socket.Runtime.{World, now, now-lt}
use omni_socket.Tcp.{TcpConn, is_open, tcp_send}
use omni_socket.Tcp.Receives.{any_frame, any_frame-tcp_frame}
use omni_socket.Tcp.Sends.{tcp_frame, tcp_send-prefix, tcp_send-frame}
use omni_socket.Tcp.Stream.{TxClean}
use omni_socket.Wire.{ByteOrder, msg_type_raw}

-- The stream is the frames of the messages.
pub data Framed : List Bytes → Bytes → Type 0 where
  no_frame : {ms : List Bytes} {s : Bytes} → ms ≡ [] → s ≡ [] → Framed ms s
  frame :
      {ms : List Bytes} {s : Bytes} (m s' : Bytes) (ms' : List Bytes) (t : ℕ)
      → t < 2 ^ 64
      → length m < 2 ^ 32
      → ms ≡ m ∷ ms'
      → s ≡ any_frame msg_type_raw t m ++ s'
      → Framed ms' s'
      → Framed ms s

Framed-append :
    {ms1 ms2 : List Bytes} {s1 s2 : Bytes}
    → Framed ms1 s1
    → Framed ms2 s2
    → Framed (ms1 ++ ms2) (s1 ++ s2)
Framed-append {ms1} {ms2} {s1} {s2} (no_frame em es) h2 =
    subst (λ ms. Framed (ms ++ ms2) (s1 ++ s2)) (sym em)
      (subst (λ s. Framed ms2 (s ++ s2)) (sym es) h2)
Framed-append {ms1} {ms2} {s1} {s2} (frame m s' ms' t ht hm em es h1) h2 =
    frame m (s' ++ s2) (ms' ++ ms2) t ht hm (ap (λ ms. ms ++ ms2) em)
      (ap (λ s. s ++ s2) es ∙ append_assoc (any_frame msg_type_raw t m) s' s2) (Framed-append h1 h2)

Framed-one :
    (m : Bytes) (t : ℕ)
    → t < 2 ^ 64
    → length m < 2 ^ 32
    → Framed (m ∷ []) (any_frame msg_type_raw t m)
Framed-one m t ht hm =
    frame m [] [] t ht hm refl (sym (append-nil (any_frame msg_type_raw t m))) (no_frame refl refl)

-- What `tcp_send` makes of a message.
Framed-sent : (t : ℕ) (m : Bytes) → t < 2 ^ 64 → length m < 2 ^ 32 → Framed (m ∷ []) (tcp_frame t m)
Framed-sent t m ht hm =
    subst (Framed (m ∷ [])) (sym (any_frame-tcp_frame t m hm)) (Framed-one m t ht hm)

-- The stream is a beginning of the frames of some first ones of the messages.
abbrev pub Starts : List Bytes → Bytes → Type 0
Starts ms s =
    (pre : List Bytes) × (post : List Bytes) × (rest : Bytes) × (ms ≡ pre ++ post)
    × Framed pre (s ++ rest)

-- A beginning of a beginning is one.
pub Starts-cut : (ms : List Bytes) (s lost : Bytes) → Starts ms (s ++ lost) → Starts ms s
Starts-cut ms s lost (pre, post, rest, e, framed) =
    (pre, post, lost ++ rest, e, subst (Framed pre) (append_assoc s lost rest) framed)

-- Sending leaves the connection open or shut as it was.
tcp_send_ctx :
    (o : ByteOrder) (w : World TcpConn) (buf : Bytes) → (tcp_send o w buf).1.conn.ctx ≡ w.conn.ctx
unfolding tcp_send
tcp_send_ctx o w buf = ground arith

-- One call of `tcp_send` behind frames.
pub tcp_send-Taken :
    (o : ByteOrder) (w : World TcpConn) (ms : List Bytes) (m : Bytes)
    → is_open w.conn.ctx ≡ true
    → Framed ms w.conn.sock.sent
    → length m < 2 ^ 32
    → Taken TcpConn
        (λ c ms. (is_open c.ctx ≡ true) × Framed ms c.sock.sent)
        (λ c ms. Starts ms c.sock.sent)
        ms
        m
        (tcp_send o w m)
tcp_send-Taken o w ms m opened framed fits =
    let t = now w in
    let one = Framed-sent t m (now-lt w) fits in
    let both = Framed-append framed one in
    elim (tcp_send-prefix o w m opened) [
      | inl (n, sent) ↦
          whole n (
            ap is_open (tcp_send_ctx o w m) ∙ opened,
            subst (Framed (ms ++ m ∷ [])) (sym sent) both,
          )
      | inr (n, k, _, sent) ↦ part (ap (λ r. eqb_ℤ r (pos (length m))) n) (
        ms ++ m ∷ [],
        [],
        drop k (tcp_frame t m),
        sym (append-nil (ms ++ m ∷ [])),
        subst (Framed (ms ++ m ∷ []))
            (ap (λ x. w.conn.sock.sent ++ x) (sym (take-append-drop k (tcp_frame t m)))
              ∙ sym
                  (append_assoc w.conn.sock.sent (take k (tcp_frame t m)) (drop k (tcp_frame t m)))
              ∙ ap (λ x. x ++ drop k (tcp_frame t m)) (sym sent))
            both,
      )
    ]

-- One call of `tcp_send` behind frames, where no write will fail.
pub tcp_send-Framed :
    (o : ByteOrder) (w : World TcpConn) (ms : List Bytes) (m : Bytes)
    → is_open w.conn.ctx ≡ true
    → TxClean w.conn.sock.tx
    → Framed ms w.conn.sock.sent
    → length m < 2 ^ 32
    → let (n, w') = tcp_send o w m in
      (n ≡ pos (length m))
      × ((is_open w'.conn.ctx ≡ true)
          × TxClean w'.conn.sock.tx
          × Framed (ms ++ m ∷ []) w'.conn.sock.sent)
tcp_send-Framed o w ms m opened clean framed fits =
    let (n, sent, _, still, ctx) = tcp_send-frame o w m opened clean in
    (
      n,
      (
        ap is_open ctx ∙ opened,
        still,
        subst (Framed (ms ++ m ∷ [])) (sym sent)
            (Framed-append framed (Framed-sent (now w) m (now-lt w) fits)),
      ),
    )

-- Messages of less than 4 GiB go out in frames; a call that fails leaves a part of its frame at most.
abbrev pub tcp_sink : (o : ByteOrder) → Sink TcpConn (tcp_send o)
tcp_sink o = record {
  Has = λ c ms. (is_open c.ctx ≡ true) × Framed ms c.sock.sent;
  Begins = λ c ms. Starts ms c.sock.sent;
  limit = 4294967295;
  takes =
      λ w ms m (opened, framed) fits. tcp_send-Taken o w ms m opened framed (omega (arith, fits));
  has_begins = λ c ms (_, framed).
      (ms, [], [], sym (append-nil ms), subst (Framed ms) (sym (append-nil c.sock.sent)) framed);
  begins_more = λ c ms more (pre, post, rest, e, framed).
      (pre, post ++ more, rest, ap (λ x. x ++ more) e ∙ append_assoc pre post more, framed);
}

-- Where no write will fail, they go out whole.
abbrev pub tcp_steady : (o : ByteOrder) → Steady TcpConn (tcp_send o)
tcp_steady o = record {
  Has = λ c ms. (is_open c.ctx ≡ true) × TxClean c.sock.tx × Framed ms c.sock.sent;
  limit = 4294967295;
  takes = λ w ms m (opened, clean, framed) fits.
      tcp_send-Framed o w ms m opened clean framed (omega (arith, fits));
}
