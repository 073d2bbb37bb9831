-- ===== src/Echo/Client.antt =====
-- The client of src/apps/test_main.c over UDP, when its messages come back.
use omni_socket.Base.{
  ℕ, zero, suc, ◌+◌, ◌-◌, ◌<◌, ◌≤◌, ◌≡◌, refl, ap, sym, subst, ◌∙◌, List, [], ◌∷◌, ◌++◌, Bytes,
  length, take, Option, some, true, pos, is_positive, arith, All, append_assoc, append-nil,
  take_all,
}
use omni_socket.Datagram.{refused, behind}
use omni_socket.Echo.{client_loop}
use omni_socket.Host.{Sockaddr}
use omni_socket.Logger.{LogLevel, message}
use omni_socket.Network.{OmniContext, send_of, recv_of, omni_send, omni_recv}
use omni_socket.Network.Calls.{omni_send_passes, omni_recv_passes}
use omni_socket.Network.Types.{OmniProtocol}
use omni_socket.Runtime.{World, tick, logged}
use omni_socket.Udp.{UdpConn, udp_send, udp_recv}
use omni_socket.Udp.Peers.{
  Talks, delivered, udp_recv-Talks, udp_recv-Datagram, udp_send-Talks, udp_send_keeps,
}

-- A text that fits the client's buffer, with its final 0.
abbrev pub IsSent : Bytes → Type 0
IsSent text = (0 < length text) × (length text ≤ 2047)

-- Texts for one peer.
abbrev pub addressed : Sockaddr → List Bytes → List (Sockaddr × Bytes)
addressed peer [] = []
addressed peer (text ∷ texts) = (peer, text) ∷ addressed peer texts

-- A client that gets these texts back from its peer, on a network that takes all it sends.
abbrev pub GetsBack : Sockaddr → List Bytes → UdpConn → Type 0
GetsBack peer texts conn =
    Talks peer conn
    × (conn.net.refusals ≡ [])
    × (conn.net.arrivals ≡ delivered peer (addressed peer texts))

module _ (ctx : Option (OmniContext UdpConn)) (proto : OmniProtocol)
    (sends_udp : send_of ctx ≡ some udp_send) (receives_udp : recv_of ctx ≡ some udp_recv) where
  -- A text goes out.
  sent_lem :
      (peer : Sockaddr) (text : Bytes) (texts : List Bytes) (w : World UdpConn)
      → length text ≤ 2047
      → GetsBack peer texts w.conn
      → let (n, w1) = omni_send ctx w text in
        (n ≡ pos (length text))
        × GetsBack peer texts w1.conn
        × (w1.conn.net.sent ≡ w.conn.net.sent ++ (peer, text) ∷ [])
  sent_lem peer text texts w short (talks, takes, arrivals) =
      let passed = omni_send_passes ctx w udp_send text sends_udp in
      let (n, sent) =
        udp_send-Talks (tick w) text peer talks (omega (arith, short)) (ap refused takes) in
      let (still, same, kept) = udp_send_keeps (tick w) text peer talks in
      (
        passed.0 ∙ n,
        (
          subst (Talks peer) (sym passed.1) still,
          ap (λ (c : UdpConn). c.net.refusals) passed.1 ∙ kept ∙ ap behind takes,
          ap (λ (c : UdpConn). c.net.arrivals) passed.1 ∙ same ∙ arrivals,
        ),
        ap (λ (c : UdpConn). c.net.sent) passed.1 ∙ sent,
      )

  -- A text comes back.
  back_lem :
      (peer : Sockaddr) (text : Bytes) (texts : List Bytes) (w : World UdpConn)
      → length text ≤ 2047
      → GetsBack peer (text ∷ texts) w.conn
      → let (m, got, w1) = omni_recv ctx w 4096 in
        (m ≡ pos (length text))
        × (got ≡ text)
        × GetsBack peer texts w1.conn
        × (w1.conn.net.sent ≡ w.conn.net.sent)
  back_lem peer text texts w short (talks, takes, arrivals) =
      let passed = omni_recv_passes ctx w udp_recv 4096 receives_udp in
      let (m, got, still) =
        udp_recv-Datagram (tick w) peer peer text 4096 (delivered peer (addressed peer texts)) talks
          arrivals (omega (arith, short)) in
      let (moved_talks, moved_arrivals, moved_refusals, moved_sent) =
        udp_recv-Talks 4096 (tick w) peer talks in
      (
        passed.0 ∙ m,
        passed.1 ∙ got,
        (
          subst (Talks peer) (sym passed.2) still,
          ap (λ (c : UdpConn). c.net.refusals) passed.2 ∙ moved_refusals ∙ takes,
          ap (λ (c : UdpConn). c.net.arrivals) passed.2 ∙ moved_arrivals ∙ ap behind arrivals,
        ),
        ap (λ (c : UdpConn). c.net.sent) passed.2 ∙ moved_sent,
      )

  -- Over UDP, when its messages come back in order from its peer on a network that takes all it sends, the client of the
  -- test program sends its texts to that peer one by one, up to as many as its loop has rounds, and gets back exactly
  -- those it has sent, in order.
  pub client_loop-GetsBack :
      (peer : Sockaddr) (texts : List Bytes) (i left : ℕ) (w : World UdpConn)
      → All IsSent texts
      → GetsBack peer texts w.conn
      → let (j, echoes, w') = client_loop ctx proto texts i left w in
        (j ≡ i + length (take left texts))
        × (echoes ≡ take left texts)
        × (w'.conn.net.sent ≡ w.conn.net.sent ++ addressed peer (take left texts))
  unfolding client_loop
  client_loop-GetsBack peer [] i zero w all back =
      (omega arith, refl, sym (append-nil w.conn.net.sent))
  client_loop-GetsBack peer [] i (suc left) w all back =
      (omega arith, refl, sym (append-nil w.conn.net.sent))
  client_loop-GetsBack peer (text ∷ texts) i zero w all back =
      (omega arith, refl, sym (append-nil w.conn.net.sent))
  client_loop-GetsBack peer (text ∷ texts) i (suc left) w ((filled, short), all) back =
      let w2 = logged (omni_send ctx w text).1 (message LogLevel.info) in
      let w3 = (omni_recv ctx w2 4096).2 in
      let out = sent_lem peer text (text ∷ texts) w short back in
      let in_again = back_lem peer text texts w2 short out.1 in
      let n : is_positive (omni_send ctx w text).0 ≡ true = ap is_positive out.0 ∙ ground arith in
      let m : (omni_recv ctx w2 4096).0 ≡ pos (suc (length text - 1)) =
        in_again.0 ∙ ap pos (omega arith) in
      let whole : take (suc (length text - 1)) (omni_recv ctx w2 4096).1 ≡ text =
        ap (take (suc (length text - 1))) in_again.1
        ∙ take_all (suc (length text - 1)) text (omega arith) in
      let (j, echoes, sent) =
        client_loop-GetsBack peer texts (i + 1) left (logged w3 (message LogLevel.info)) all
          in_again.2 in
      rw (n, m, whole)
        (
          j ∙ omega arith,
          ap (◌∷◌ text) echoes,
          sent
              ∙ ap (λ ds. ds ++ addressed peer (take left texts)) (in_again.3 ∙ out.2)
              ∙ append_assoc w.conn.net.sent ((peer, text) ∷ []) _,
        )
