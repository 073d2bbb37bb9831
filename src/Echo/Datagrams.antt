-- ===== src/Echo/Datagrams.antt =====
-- The echo server of src/apps/test_main.c over UDP.
use omni_socket.Base.{
  suc, ◌-◌, ◌<◌, ◌≤◌, ◌≡◌, refl, ap, sym, subst, ◌∙◌, List, [], ◌∷◌, ◌++◌, Bytes, length, take,
  Option, some, true, pos, arith, All, append_assoc, append-nil, take_all, if◌then◌else◌, Bool,
}
use omni_socket.Datagram.{Arrival, datagram, refused, behind}
use omni_socket.Echo.{server_loop, server_round, echoed}
use omni_socket.Host.{Sockaddr}
use omni_socket.Network.{OmniContext, send_of, recv_of, omni_recv}
use omni_socket.Network.Calls.{omni_send_passes, omni_recv_passes}
use omni_socket.Network.Types.{OmniProtocol}
use omni_socket.Runtime.{World, tick, logged}
use omni_socket.Udp.{UdpConn, udp_send, udp_recv}
use omni_socket.Udp.Peers.{Talks, udp_recv-Talks, udp_recv-Datagram, udp_send-Talks, udp_send_keeps}
use omni_socket.Logger.{LogLevel, message}

-- The datagrams as they arrive.
abbrev pub arriving : List (Sockaddr × Bytes) → List Arrival
arriving [] = []
arriving (d ∷ ds) = datagram d.0 d.1 ∷ arriving ds

-- A datagram that is not empty and that the server's buffer holds.
abbrev pub IsEchoable : Sockaddr × Bytes → Type 0
IsEchoable d = (0 < length d.1) × (length d.1 ≤ 4096)

-- A server that waits for these datagrams, on a network that takes everything.
abbrev Waits : List (Sockaddr × Bytes) → UdpConn → Type 0
Waits ds conn =
    (a : Sockaddr) × Talks a conn × (conn.net.refusals ≡ []) × (conn.net.arrivals ≡ arriving ds)

module _ (ctx : Option (OmniContext UdpConn)) (proto : OmniProtocol)
    (sends_udp : send_of ctx ≡ some udp_send) (receives_udp : recv_of ctx ≡ some udp_recv) where
  -- A round: the datagram is sent back, and the others are waited for.
  abbrev Echoed :
      Sockaddr × Bytes → List (Sockaddr × Bytes) → World UdpConn → Bool × World UdpConn → Type 0
  Echoed d ds w (goes_on, w') =
      (goes_on ≡ true) × (w'.conn.net.sent ≡ w.conn.net.sent ++ d ∷ []) × Waits ds w'.conn

  echoed-Echoed :
      (d : Sockaddr × Bytes) (ds : List (Sockaddr × Bytes)) (v : World UdpConn)
      → Talks d.0 v.conn
      → length d.1 ≤ 4096
      → v.conn.net.refusals ≡ []
      → v.conn.net.arrivals ≡ arriving ds
      → let w' = echoed ctx proto v d.1 in
        (w'.conn.net.sent ≡ v.conn.net.sent ++ d ∷ []) × Waits ds w'.conn
  echoed-Echoed d ds v talks fits takes arrivals =
      let u = tick (logged v (message LogLevel.info)) in
      let passed = omni_send_passes ctx (logged v (message LogLevel.info)) udp_send d.1 sends_udp in
      let (n, sent) = udp_send-Talks u d.1 d.0 talks (omega arith) (ap refused takes) in
      let (still, same, kept) = udp_send_keeps u d.1 d.0 talks in
      (
        ap (λ (c : UdpConn). c.net.sent) passed.1 ∙ sent,
        (
          d.0,
          subst (Talks d.0) (sym passed.1) still,
          ap (λ (c : UdpConn). c.net.refusals) passed.1 ∙ kept ∙ ap behind takes,
          ap (λ (c : UdpConn). c.net.arrivals) passed.1 ∙ same ∙ arrivals,
        ),
      )

  server_round-Echoed :
      (d : Sockaddr × Bytes) (ds : List (Sockaddr × Bytes)) (w : World UdpConn)
      → IsEchoable d
      → Waits (d ∷ ds) w.conn
      → Echoed d ds w (server_round ctx proto w)
  unfolding server_round
  server_round-Echoed d ds w (filled, fits) (a, talks, takes, arrivals) =
      let passed = omni_recv_passes ctx w udp_recv 4096 receives_udp in
      let (moved_talks, moved_arrivals, moved_refusals, moved_sent) =
        udp_recv-Talks 4096 (tick w) a talks in
      let (r, got, now_talks) =
        udp_recv-Datagram (tick w) a d.0 d.1 4096 (arriving ds) talks arrivals fits in
      let w1 = (omni_recv ctx w 4096).2 in
      let n : (omni_recv ctx w 4096).0 ≡ pos (suc (length d.1 - 1)) =
        passed.0 ∙ r ∙ ap pos (omega arith) in
      let whole : take (suc (length d.1 - 1)) (omni_recv ctx w 4096).1 ≡ d.1 =
        ap (take (suc (length d.1 - 1))) (passed.1 ∙ got)
        ∙ take_all (suc (length d.1 - 1)) d.1 (omega arith) in
      let done =
        echoed-Echoed d ds w1 (subst (Talks d.0) (sym passed.2) now_talks) fits
          (ap (λ (c : UdpConn). c.net.refusals) passed.2 ∙ moved_refusals ∙ takes)
          (ap (λ (c : UdpConn). c.net.arrivals) passed.2 ∙ moved_arrivals ∙ ap behind arrivals) in
      let e : server_round ctx proto w ≡ (true, echoed ctx proto w1 d.1) =
        rw (n, server_round) (ap (λ t. (true, echoed ctx proto w1 t)) whole) in
      subst (Echoed d ds w) (sym e) (
        refl,
        done.0
            ∙ ap (λ (c : UdpConn). c.net.sent ++ d ∷ []) passed.2
            ∙ ap (λ t. t ++ d ∷ []) moved_sent,
        done.1,
      )

  -- Over UDP, the server of the test program sends every datagram that is not empty and fits its buffer back to its
  -- sender, whole, once, and in the order of arrival, on a network that takes all it sends.
  pub server_loop-Echoes :
      (ds : List (Sockaddr × Bytes)) (w : World UdpConn)
      → All IsEchoable ds
      → Waits ds w.conn
      → (server_loop ctx proto (length ds) w).conn.net.sent ≡ w.conn.net.sent ++ ds
  unfolding server_loop
  server_loop-Echoes [] w all waits = sym (append-nil _)
  server_loop-Echoes (d ∷ ds) w (echoable, all) waits =
      let (goes_on, sent, still) = server_round-Echoed d ds w echoable waits in
      let w1 = (server_round ctx proto w).1 in
      ap (λ b. (if b then server_loop ctx proto (length ds) w1 else w1).conn.net.sent) goes_on
      ∙ server_loop-Echoes ds w1 all still
      ∙ ap (λ t. t ++ ds) sent
      ∙ append_assoc w.conn.net.sent (d ∷ []) ds
