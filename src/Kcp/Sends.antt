-- ===== src/Kcp/Sends.antt =====
-- What src/protocols/kcp_impl.c makes of messages to be sent, over a library that is reliable.
use omni_socket.App.Feed.{Sink, Taken, whole, part}
use omni_socket.Base.{
  ℕ, ◌%◌, ◌^◌, ◌≡◌, refl, ap, ◌∙◌, sym, subst, ◌++◌, [], ◌∷◌, List, All, All-append, Bytes, length,
  ℤ, ◌⊎◌, pos, is_negative, eqb_ℤ, true, false, some, arith, append_assoc, append-nil, Bool-cases,
  inl, inr,
}
use omni_socket.Datagram.{Datagrams, Received, eintr, fault, from, sendto, recvfrom}
use omni_socket.Host.{Sockaddr}
use omni_socket.Kcp.{
  Ikcp, KcpContext, KcpConn, kcp_output, outputs, taken_in, with_net, counted, kcp_update_loop,
  send_on, recv_on, send_block, recv_block, send_with, recv_with, kcp_send, kcp_recv,
}
use omni_socket.Kcp.Reliable.{Reliable}
use omni_socket.Runtime.{World, now, tick}

module _ {K : Type 0} where
  -- A datagram is sent or refused.
  kcp_output_sent :
      (peer : Sockaddr) (w : World (KcpConn K)) (buf : Bytes)
      → let net' = (kcp_output peer w buf).1.conn.net in
        (net'.arrivals ≡ w.conn.net.arrivals)
        × ((net'.sent ≡ w.conn.net.sent) ⊎ (net'.sent ≡ w.conn.net.sent ++ (peer, buf) ∷ []))
  unfolding kcp_output sendto
  kcp_output_sent peer w buf = ground arith

  pub outputs_arrivals :
      (peer : Sockaddr) (w : World (KcpConn K)) (bufs : List Bytes)
      → (outputs peer w bufs).conn.net.arrivals ≡ w.conn.net.arrivals
  outputs_arrivals peer w [] = refl
  outputs_arrivals peer w (buf ∷ bufs) =
      outputs_arrivals peer (kcp_output peer w buf).1 bufs ∙ (kcp_output_sent peer w buf).0

  outputs-All :
      (P : Bytes → Type 0) (peer : Sockaddr) (w : World (KcpConn K)) (bufs : List Bytes)
      → All (λ (d : Sockaddr × Bytes). P d.1) w.conn.net.sent
      → All P bufs
      → All (λ (d : Sockaddr × Bytes). P d.1) (outputs peer w bufs).conn.net.sent
  outputs-All P peer w [] before all = before
  outputs-All P peer w (buf ∷ bufs) before all =
      let Q = λ (d : Sockaddr × Bytes). P d.1 in
      outputs-All P peer (kcp_output peer w buf).1 bufs
        (elim (kcp_output_sent peer w buf).1 [
          | inl same ↦ subst (All Q) (sym same) before
          | inr one ↦
              subst (All Q) (sym one)
                (All-append Q w.conn.net.sent ((peer, buf) ∷ []) before (all.0, tt))
        ])
        all.1

module _ {K : Type 0} (lib : Ikcp K) where
  -- The statistics leave the connection alone.
  pub counted_conn :
      (w : World (KcpConn K)) (last xmit : ℕ) → (counted lib w last xmit).conn.net ≡ w.conn.net
  counted_conn w last xmit = ground arith

-- Calls of `kcp_recv` one after the other, with these buffers; each also drives the retransmissions.
abbrev pub received_more : {K : Type 0} → Ikcp K → List ℕ → World (KcpConn K) → World (KcpConn K)
received_more lib [] w = w
received_more lib (cap ∷ caps) w = received_more lib caps (kcp_recv lib w cap).2

module _ {K : Type 0} (lib : Ikcp K) (conv : ℕ) (rel : Reliable K lib conv) where
  -- The datagrams sent so far are of the messages `ms`.
  abbrev pub AllCarry : List Bytes → List (Sockaddr × Bytes) → Type 0
  AllCarry ms sent = All (λ (d : Sockaddr × Bytes). rel.Carries ms d.1) sent

  AllCarry-more :
      (ms more : List Bytes) (sent : List (Sockaddr × Bytes))
      → AllCarry ms sent
      → AllCarry (ms ++ more) sent
  AllCarry-more ms more [] all = tt
  AllCarry-more ms more (d ∷ ds) (one, all) =
      (rel.carries_more ms more d.1 one, AllCarry-more ms more ds all)

  -- An open context whose block has accepted `ms`.
  abbrev pub HasSent : KcpConn K → List Bytes → Type 0
  HasSent c ms =
      (x : KcpContext K) × (k : K) × (c.ctx ≡ some x)
      × (x.kcp ≡ some k)
      × rel.Sent k ms
      × AllCarry ms c.net.sent

  taken_in-Sent :
      (c : KcpContext K) (k : K) (r : Received) (ms : List Bytes)
      → rel.Sent k ms
      → rel.Sent (taken_in lib c k r).1 ms
  taken_in-Sent c k eintr ms sent = sent
  taken_in-Sent c k fault ms sent = sent
  taken_in-Sent c k (from a []) ms sent = sent
  taken_in-Sent c k (from a (b ∷ bs)) ms sent = rel.sent_input k ms (b ∷ bs) sent

  kcp_update_loop-Sent :
      (c : KcpContext K) (k : K) (w : World (KcpConn K)) (ms : List Bytes)
      → rel.Sent k ms
      → AllCarry ms w.conn.net.sent
      → let (c', k', w') = kcp_update_loop lib c k w in
        (w'.conn.ctx ≡ some c') × (c'.kcp ≡ some k') × rel.Sent k' ms × AllCarry ms w'.conn.net.sent
  unfolding kcp_update_loop recvfrom
  kcp_update_loop-Sent c k w ms sent all =
      let (k1, bufs) = lib.update k (now w % 2 ^ 32) in
      let (sent1, all1) = rel.sent_update k ms (now w % 2 ^ 32) sent in
      let w1 = outputs c.peer_addr (tick w) bufs in
      let r = (recvfrom w1.conn.net 1500).0 in
      (
        refl,
        refl,
        taken_in-Sent c k1 r ms sent1,
        subst (λ (net : Datagrams). AllCarry ms net.sent)
            (sym (
              counted_conn lib (with_net w1 (recvfrom w1.conn.net 1500).1)
                (taken_in lib c k1 r).0.last_xmit (lib.xmit (taken_in lib c k1 r).1)))
            (outputs-All (rel.Carries ms) c.peer_addr (tick w) bufs all all1),
      )

  -- One call of `kcp_send`.
  send_on-Sent :
      (c : KcpContext K) (k : K) (w : World (KcpConn K)) (ms : List Bytes) (m : Bytes)
      → rel.Sent k ms
      → AllCarry ms w.conn.net.sent
      → let (n, w') = send_on lib c k w m in
        ((n ≡ pos (length m)) × HasSent w'.conn (ms ++ m ∷ []))
        ⊎ ((is_negative n ≡ true) × HasSent w'.conn ms)
  send_on-Sent c k w ms m sent all =
      let k1 = (lib.send k m).1 in
      let c1 : KcpContext K = record c { kcp = some k1 } in
      elim (Bool-cases (is_negative (lib.send k m).0)) [
        | inl refused ↦
            rw refused (inr (refl, (c1, k1, refl, refl, rel.sent_refused k ms m sent refused, all)))
        | inr accepted ↦ rw accepted (
            inl (
              refl,
              let (c2, k2, w2) = kcp_update_loop lib c1 k1 (tick w) in
                  let (made, has, sent2, all2) =
                    kcp_update_loop-Sent c1 k1 (tick w) (ms ++ m ∷ [])
                      (rel.sent_accepted k ms m sent accepted)
                      (AllCarry-more ms (m ∷ []) w.conn.net.sent all) in
                  (c2, k2, made, has, sent2, all2),
            ))
      ]

  kcp_send-Sent :
      (w : World (KcpConn K)) (ms : List Bytes) (m : Bytes)
      → HasSent w.conn ms
      → let (n, w') = kcp_send lib w m in
        ((n ≡ pos (length m)) × HasSent w'.conn (ms ++ m ∷ []))
        ⊎ ((is_negative n ≡ true) × HasSent w'.conn ms)
  unfolding kcp_send
  kcp_send-Sent w ms m (x, k, made, has, sent, all) =
      let Outcome : ℤ × World (KcpConn K) → Type 0 = λ (r : ℤ × World (KcpConn K)).
        ((r.0 ≡ pos (length m)) × HasSent r.1.conn (ms ++ m ∷ []))
        ⊎ ((is_negative r.0 ≡ true) × HasSent r.1.conn ms) in
      subst (λ c. Outcome (send_with lib c w m)) (sym made)
        (subst (λ b. Outcome (send_block lib x b w m)) (sym has) (send_on-Sent x k w ms m sent all))

  -- A call of `kcp_recv` sends only datagrams of the same messages, and accepts none.
  recv_on-HasSent :
      (c : KcpContext K) (k : K) (w : World (KcpConn K)) (ms : List Bytes) (cap : ℕ)
      → rel.Sent k ms
      → AllCarry ms w.conn.net.sent
      → HasSent (recv_on lib c k w cap).2.conn ms
  recv_on-HasSent c k w ms cap sent all =
      let (c1, k1, w1) = kcp_update_loop lib c k (tick w) in
      let (_, _, sent1, all1) = kcp_update_loop-Sent c k (tick w) ms sent all in
      let k2 = (lib.recv k1 cap).2 in
      let c2 : KcpContext K = record c1 { kcp = some k2 } in
      let has : HasSent (record (w1.conn) { ctx = some c2 }) ms =
        (c2, k2, refl, refl, rel.sent_recv k1 ms cap sent1, all1) in
      elim (Bool-cases (is_negative (lib.recv k1 cap).0)) [
        | inl neg ↦ rw neg has
        | inr got ↦ rw got has
      ]

  kcp_recv-HasSent :
      (w : World (KcpConn K)) (ms : List Bytes) (cap : ℕ)
      → HasSent w.conn ms
      → HasSent (kcp_recv lib w cap).2.conn ms
  unfolding kcp_recv
  kcp_recv-HasSent w ms cap (x, k, made, has, sent, all) =
      subst (λ c. HasSent (recv_with lib c w cap).2.conn ms) (sym made)
        (subst (λ b. HasSent (recv_block lib x b w cap).2.conn ms) (sym has)
          (recv_on-HasSent x k w ms cap sent all))

  pub received_more-HasSent :
      (caps : List ℕ) (w : World (KcpConn K)) (ms : List Bytes)
      → HasSent w.conn ms
      → HasSent (received_more lib caps w).conn ms
  received_more-HasSent [] w ms has = has
  received_more-HasSent (cap ∷ caps) w ms has =
      received_more-HasSent caps (kcp_recv lib w cap).2 ms (kcp_recv-HasSent w ms cap has)

  -- The first ones of `ms` were accepted.
  abbrev pub HasBegun : KcpConn K → List Bytes → Type 0
  HasBegun c ms = (pre : List Bytes) × (post : List Bytes) × (ms ≡ pre ++ post) × HasSent c pre

  negative_differs : (n : ℤ) (l : ℕ) → is_negative n ≡ true → eqb_ℤ n (pos l) ≡ false
  negative_differs n l neg = ground arith

  pub kcp_send-Taken :
      (w : World (KcpConn K)) (ms : List Bytes) (m : Bytes)
      → HasSent w.conn ms
      → Taken (KcpConn K) HasSent HasBegun ms m (kcp_send lib w m)
  kcp_send-Taken w ms m has = elim (kcp_send-Sent w ms m has) [
    | inl (n, sent) ↦ whole n sent
    | inr (neg, still) ↦
        part (negative_differs (kcp_send lib w m).0 (length m) neg) (ms, m ∷ [], refl, still)
  ]

  -- A length is passed to ikcp as an int.
  abbrev pub kcp_sink : Sink (KcpConn K) (kcp_send lib)
  kcp_sink = record {
    Has = HasSent;
    Begins = HasBegun;
    limit = 2147483647;
    takes = λ w ms m has fits. kcp_send-Taken w ms m has;
    has_begins = λ c ms has. (ms, [], sym (append-nil ms), has);
    begins_more = λ c ms more (pre, post, e, has).
        (pre, post ++ more, ap (λ x. x ++ more) e ∙ append_assoc pre post more, has);
  }
