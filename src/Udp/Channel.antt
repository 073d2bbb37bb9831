-- ===== src/Udp/Channel.antt =====
-- UDP as a protocol that keeps the bounds of messages, where the kernel refuses none and the network loses none.
use omni_socket.App.Channel.{Outlet, Inlet}
use omni_socket.Base.{
  ℕ, ◌≤◌, ◌≡◌, refl, ap, ◌∙◌, sym, subst, false, Bool, List, [], ◌∷◌, ◌++◌, All, Bytes, length, pos,
}
use omni_socket.Datagram.{Arrival, datagram, interrupted, broken, max_datagram, refused, behind}
use omni_socket.Host.{Sockaddr}
use omni_socket.Runtime.{World}
use omni_socket.Udp.{UdpConn, udp_send, udp_recv}
use omni_socket.Udp.Peers.{
  Talks, delivered, udp_send_keeps, udp_send-Talks, udp_recv-Talks, udp_recv-Datagram,
}

-- What was sent, without whom to.
abbrev pub bodies : List (Sockaddr × Bytes) → List Bytes
bodies [] = []
bodies (d ∷ ds) = d.1 ∷ bodies ds

-- What arrives.
abbrev pub arriving : List Arrival → List Bytes
arriving [] = []
arriving (datagram a bs ∷ rest) = bs ∷ arriving rest
arriving (interrupted ∷ rest) = arriving rest
arriving (broken ∷ rest) = arriving rest

abbrev pub AllDatagrams : List Arrival → Type 0
AllDatagrams [] = Unit {0}
AllDatagrams (datagram a bs ∷ rest) = AllDatagrams rest
AllDatagrams (interrupted ∷ rest) = ⊥
AllDatagrams (broken ∷ rest) = ⊥

bodies-append :
    (ds : List (Sockaddr × Bytes)) (a : Sockaddr) (m : Bytes)
    → bodies (ds ++ (a, m) ∷ []) ≡ bodies ds ++ m ∷ []
bodies-append [] a m = refl
bodies-append (d ∷ ds) a m = ap (◌∷◌ d.1) (bodies-append ds a m)

pub arriving-delivered :
    (me : Sockaddr) (ds : List (Sockaddr × Bytes)) → arriving (delivered me ds) ≡ bodies ds
arriving-delivered me [] = refl
arriving-delivered me (d ∷ ds) = ap (◌∷◌ d.1) (arriving-delivered me ds)

pub delivered-AllDatagrams :
    (me : Sockaddr) (ds : List (Sockaddr × Bytes)) → AllDatagrams (delivered me ds)
delivered-AllDatagrams me [] = tt
delivered-AllDatagrams me (d ∷ ds) = delivered-AllDatagrams me ds

-- An open context, of which no `sendto` is refused.
abbrev pub CanSend : UdpConn → Type 0
CanSend c = ((a : Sockaddr) × Talks a c) × All (λ r. r ≡ false) c.net.refusals

-- An open context, to which nothing but datagrams comes.
abbrev pub CanReceive : UdpConn → Type 0
CanReceive c = ((a : Sockaddr) × Talks a c) × AllDatagrams c.net.arrivals

none_refused : (rs : List Bool) → All (λ r. r ≡ false) rs → refused rs ≡ false
none_refused [] none_is = refl
none_refused (r ∷ rs) none_is = none_is.0

All-behind : (rs : List Bool) → All (λ r. r ≡ false) rs → All (λ r. r ≡ false) (behind rs)
All-behind [] none_is = none_is
All-behind (r ∷ rs) none_is = none_is.1

pub udp_sends :
    (w : World UdpConn) (m : Bytes)
    → CanSend w.conn
    → length m ≤ max_datagram
    → let (n, w') = udp_send w m in
      (n ≡ pos (length m))
      × CanSend w'.conn
      × (bodies w'.conn.net.sent ≡ bodies w.conn.net.sent ++ m ∷ [])
udp_sends w m ((a, talks), none_is) fits =
    let (n, sent) = udp_send-Talks w m a talks fits (none_refused w.conn.net.refusals none_is) in
    let (still, arrivals, refusals) = udp_send_keeps w m a talks in
    (
      n,
      (
        (a, still),
        subst (All (λ r. r ≡ false)) (sym refusals) (All-behind w.conn.net.refusals none_is),
      ),
      ap bodies sent ∙ bodies-append w.conn.net.sent a m,
    )

-- `udp_send` takes messages up to the longest datagram.
abbrev pub udp_outlet : Outlet UdpConn udp_send
udp_outlet = record {
  IsReady = CanSend;
  out = λ c. bodies c.net.sent;
  limit = max_datagram;
  sends = udp_sends;
}

-- The next datagram, where there is a message.
next_datagram :
    (arrivals : List Arrival) (m : Bytes) (ms : List Bytes)
    → AllDatagrams arrivals
    → arriving arrivals ≡ m ∷ ms
    → (from : Sockaddr) × (rest : List Arrival) × (arrivals ≡ datagram from m ∷ rest)
      × AllDatagrams rest
      × (arriving rest ≡ ms)
next_datagram [] m ms only there = cc
next_datagram (datagram from bs ∷ rest) m ms only there = (from, rest, cc, only, cc)
next_datagram (interrupted ∷ rest) m ms only there = absurd only
next_datagram (broken ∷ rest) m ms only there = absurd only

pub udp_receives :
    (w : World UdpConn) (cap : ℕ) (m : Bytes) (ms : List Bytes)
    → CanReceive w.conn
    → arriving w.conn.net.arrivals ≡ m ∷ ms
    → length m ≤ cap
    → let (n, got, w') = udp_recv w cap in
      (n ≡ pos (length m)) × (got ≡ m) × CanReceive w'.conn × (arriving w'.conn.net.arrivals ≡ ms)
udp_receives w cap m ms ((a, talks), only) there fits =
    let (from, rest, e, only', left) = next_datagram w.conn.net.arrivals m ms only there in
    let (n, got, still) = udp_recv-Datagram w a from m cap rest talks e fits in
    let moved : (udp_recv w cap).2.conn.net.arrivals ≡ rest =
      (udp_recv-Talks cap w a talks).1 ∙ ap behind e in
    (n, got, ((from, still), subst AllDatagrams (sym moved) only'), ap arriving moved ∙ left)

-- `udp_recv` gives the datagrams in the order in which they come.
abbrev pub udp_inlet : Inlet UdpConn udp_recv
udp_inlet = record {
  IsReady = CanReceive;
  coming = λ c. arriving c.net.arrivals;
  receives = udp_receives;
}
