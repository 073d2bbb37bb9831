-- ===== src/Udp/Peers.antt =====
-- Whom a UDP context talks to, and what a datagram carries from one context to another.
use omni_socket.Base.{
  Bool-cases, inl, inr, ltb, ◌||◌, ℕ, zero, suc, ◌≤◌, ◌≡◌, refl, sym, subst, ap, ◌∙◌, false, List,
  [], ◌∷◌, ◌++◌, Bytes, length, some, pos, is_negative, arith, le→ltb, take_all,
}
use omni_socket.Datagram.{
  Arrival, datagram, interrupted, broken, sendto, recvfrom, max_datagram, refused, behind,
  next_arrival,
}
use omni_socket.Host.{Sockaddr}
use omni_socket.Runtime.{World}
use omni_socket.Udp.{UdpConn, UdpContext, arrived, udp_send, udp_recv}

-- An open context with this peer.
abbrev pub Talks : Sockaddr → UdpConn → Type 0
Talks a conn =
    (c : UdpContext) × (conn.ctx ≡ some c) × (is_negative c.fd ≡ false) × (c.peer_addr ≡ a)

-- The sender of the last datagram among the first `k` arrivals, or `a`.
abbrev pub last_sender : Sockaddr → ℕ → List Arrival → Sockaddr
last_sender a zero arrivals = a
last_sender a (suc k) [] = a
last_sender a (suc k) (datagram b bs ∷ rest) = last_sender b k rest
last_sender a (suc k) (interrupted ∷ rest) = last_sender a k rest
last_sender a (suc k) (broken ∷ rest) = last_sender a k rest

-- So many calls of `udp_recv`, whatever they return.
unfoldable pub received : ℕ → ℕ → World UdpConn → World UdpConn
received zero cap w = w
received (suc k) cap w = let (n, got, w') = udp_recv w cap in received k cap w'

pub udp_recv-open :
    (n : ℕ) (w : World UdpConn) (c : UdpContext)
    → w.conn.ctx ≡ some c
    → is_negative c.fd ≡ false
    → udp_recv w n ≡ arrived w c (recvfrom w.conn.net n)
unfolding udp_recv
udp_recv-open n w c made is_open = rw made (rw is_open refl)

-- After one call: whom the context talks to, and what is left of the socket.
abbrev Moved : Sockaddr → UdpConn → UdpConn → Type 0
Moved a conn conn' =
    Talks a conn'
    × (conn'.net.arrivals ≡ behind conn.net.arrivals)
    × (conn'.net.refusals ≡ conn.net.refusals)
    × (conn'.net.sent ≡ conn.net.sent)

arrived-Moved :
    (n : ℕ) (w : World UdpConn) (c : UdpContext) (arrivals : List Arrival)
    → w.conn.net.arrivals ≡ arrivals
    → w.conn.ctx ≡ some c
    → is_negative c.fd ≡ false
    → let (r, rest) = next_arrival arrivals n in
      Moved
        (last_sender c.peer_addr 1 arrivals)
        w.conn
        (arrived w c (r, record (w.conn.net) { arrivals = rest })).2.conn
arrived-Moved n w c [] met made is_open =
    ((c, made, is_open, refl), sym (ap behind met), refl, refl)
arrived-Moved n w c (datagram b bs ∷ rest) met made is_open =
    ((record c { peer_addr = b }, refl, is_open, refl), sym (ap behind met), refl, refl)
arrived-Moved n w c (interrupted ∷ rest) met made is_open =
    ((c, made, is_open, refl), sym (ap behind met), refl, refl)
arrived-Moved n w c (broken ∷ rest) met made is_open =
    ((c, made, is_open, refl), sym (ap behind met), refl, refl)

pub udp_recv-Talks :
    (n : ℕ) (w : World UdpConn) (a : Sockaddr)
    → Talks a w.conn
    → Moved (last_sender a 1 w.conn.net.arrivals) w.conn (udp_recv w n).2.conn
unfolding recvfrom
udp_recv-Talks n w a (c, made, is_open, peer) =
    subst (λ r. Moved (last_sender a 1 w.conn.net.arrivals) w.conn (r.2.conn))
      (sym (udp_recv-open n w c made is_open))
      (subst
        (λ b.
          Moved (last_sender b 1 w.conn.net.arrivals) w.conn
            (arrived w c (recvfrom w.conn.net n)).2.conn)
        peer (arrived-Moved n w c w.conn.net.arrivals refl made is_open))

last_sender-suc :
    (a : Sockaddr) (k : ℕ) (arrivals : List Arrival)
    → last_sender (last_sender a 1 arrivals) k (behind arrivals) ≡ last_sender a (suc k) arrivals
last_sender-suc a zero arrivals = ground arith
last_sender-suc a (suc k) arrivals = ground arith

received-Talks :
    (k cap : ℕ) (w : World UdpConn) (a : Sockaddr)
    → Talks a w.conn
    → let w' = received k cap w in
      Talks (last_sender a k w.conn.net.arrivals) w'.conn
      × (w'.conn.net.refusals ≡ w.conn.net.refusals)
      × (w'.conn.net.sent ≡ w.conn.net.sent)
unfolding received
received-Talks zero cap w a talks = (talks, refl, refl)
received-Talks (suc k) cap w a talks =
    let w' = (udp_recv w cap).2 in
    let moved = udp_recv-Talks cap w a talks in
    let (rest, refusals, sent) =
      received-Talks k cap w' (last_sender a 1 w.conn.net.arrivals) moved.0 in
    (
      subst (λ b. Talks b (received k cap w').conn)
          (ap (last_sender (last_sender a 1 w.conn.net.arrivals) k) (moved.1)
            ∙ last_sender-suc a k w.conn.net.arrivals)
          rest,
      refusals ∙ moved.2,
      sent ∙ moved.3,
    )

pub udp_send_keeps :
    (w : World UdpConn) (buf : Bytes) (a : Sockaddr)
    → Talks a w.conn
    → let conn' = (udp_send w buf).1.conn in
      Talks a conn'
      × (conn'.net.arrivals ≡ w.conn.net.arrivals)
      × (conn'.net.refusals ≡ behind w.conn.net.refusals)
unfolding udp_send sendto
udp_send_keeps w buf a (c, made, is_open, peer) =
    elim (Bool-cases (refused w.conn.net.refusals || ltb max_datagram (length buf))) [
      | inl denied ↦ rw (made, is_open, denied) ((c, refl, is_open, peer), refl, refl)
      | inr taken ↦ rw (made, is_open, taken) ((c, refl, is_open, peer), refl, refl)
    ]

pub udp_send-Talks :
    (w : World UdpConn) (buf : Bytes) (a : Sockaddr)
    → Talks a w.conn
    → length buf ≤ max_datagram
    → refused w.conn.net.refusals ≡ false
    → let (n, w') = udp_send w buf in
      (n ≡ pos (length buf)) × (w'.conn.net.sent ≡ w.conn.net.sent ++ (a, buf) ∷ [])
unfolding udp_send sendto
udp_send-Talks w buf a (c, made, is_open, peer) short kept =
    rw (made, is_open, kept, le→ltb max_datagram (length buf) short, peer) (refl, refl)

-- The pseudo connection: after any number of calls of `udp_recv` on an open context, a datagram that the kernel takes
-- goes, whole and alone, to the sender of the last datagram received, or to the configured peer if none was.
-- Interruptions and errors in between change nothing.
pub udp_send-received :
    (k cap : ℕ) (w : World UdpConn) (buf : Bytes) (a : Sockaddr)
    → Talks a w.conn
    → length buf ≤ max_datagram
    → refused w.conn.net.refusals ≡ false
    → let (n, w') = udp_send (received k cap w) buf in
      (n ≡ pos (length buf))
      × (w'.conn.net.sent ≡ w.conn.net.sent ++ (last_sender a k w.conn.net.arrivals, buf) ∷ [])
udp_send-received k cap w buf a talks short kept =
    let (still, refusals, sent) = received-Talks k cap w a talks in
    let (n, out) =
      udp_send-Talks (received k cap w) buf _ still short (ap refused refusals ∙ kept) in
    (n, out ∙ ap (λ ds. ds ++ (last_sender a k w.conn.net.arrivals, buf) ∷ []) sent)

-- What a network without loss brings from the sender `me` of these datagrams.
abbrev pub delivered : Sockaddr → List (Sockaddr × Bytes) → List Arrival
delivered me [] = []
delivered me (d ∷ ds) = datagram me d.1 ∷ delivered me ds

pub udp_recv-Datagram :
    (v : World UdpConn) (b me : Sockaddr) (buf : Bytes) (n : ℕ) (rest : List Arrival)
    → Talks b v.conn
    → v.conn.net.arrivals ≡ datagram me buf ∷ rest
    → length buf ≤ n
    → let (r, got, v') = udp_recv v n in (r ≡ pos (length buf)) × (got ≡ buf) × Talks me v'.conn
unfolding recvfrom
udp_recv-Datagram v b me buf n rest (c, made, is_open, peer) there fits =
    rw (udp_recv-open n v c made is_open, there, take_all n buf fits)
      (refl, refl, (record c { peer_addr = me }, refl, is_open, refl))

-- A datagram arrives as it was sent: on an open context that has not sent before, what `udp_send` puts on the network,
-- brought without loss to another open context that has a buffer of at least that size, is returned there whole by
-- `udp_recv`, and its sender becomes the peer.
pub udp_recv-udp_send :
    (w v : World UdpConn) (a b me : Sockaddr) (buf : Bytes) (n : ℕ) (rest : List Arrival)
    → Talks a w.conn
    → w.conn.net.sent ≡ []
    → length buf ≤ max_datagram
    → refused w.conn.net.refusals ≡ false
    → Talks b v.conn
    → v.conn.net.arrivals ≡ delivered me (udp_send w buf).1.conn.net.sent ++ rest
    → length buf ≤ n
    → let (r, got, v') = udp_recv v n in (r ≡ pos (length buf)) × (got ≡ buf) × Talks me v'.conn
udp_recv-udp_send w v a b me buf n rest talks fresh short kept waits there fits =
    let out = (udp_send-Talks w buf a talks short kept).1 ∙ ap (λ ds. ds ++ (a, buf) ∷ []) fresh in
    udp_recv-Datagram v b me buf n rest waits (there ∙ ap (λ ds. delivered me ds ++ rest) out) fits
