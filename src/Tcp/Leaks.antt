-- ===== src/Tcp/Leaks.antt =====
-- What creating and closing a TCP context does to descriptors and allocated blocks.
use omni_socket.Base.{
  ℕ, ◌+◌, ◌≡◌, refl, ap, Bool, true, false, List, ◌∷◌, Option, none, some, pos, arith, Bool-cases,
  inl, inr, ==_refl, ◌==◌, ◌||◌,
}
use omni_socket.Host.{Host, answer, new_fd, calloc}
use omni_socket.Logger.{LogLevel}
use omni_socket.Network.Types.{OmniRole, client, server}
use omni_socket.Runtime.{World}
use omni_socket.Tcp.{TcpConn}
use omni_socket.Tcp.Setup.{
  tcp_bind_and_listen, tcp_connect_peer, is_missing, finish_init, tcp_init, tcp_close,
}

-- The descriptor of the connection: for a server the one that `accept` returns behind the listening one of `socket`, for a
-- client that of `socket`, which it connects.
abbrev pub connection : OmniRole → Host → ℕ
connection server h = h.next_fd + 1
connection client h = h.next_fd

-- Of all descriptors opened on the way only the one returned is still open, which is `conn`.
abbrev Opened : ℕ → List ℕ → ℕ → Option ℕ × Host × List LogLevel → Type 0
Opened conn fds blocks (none, h, logs) = (h.open_fds ≡ fds) × (h.blocks ≡ blocks)
Opened conn fds blocks (some fd, h, logs) =
    (fd ≡ conn) × (h.open_fds ≡ conn ∷ fds) × (h.blocks ≡ blocks)

-- A context is returned, and it owns the descriptor of the connection and one block more; or none is, and nothing is
-- left behind.
abbrev pub Acquired : OmniRole → World TcpConn → Bool × World TcpConn → Type 0
Acquired role w (false, w') =
    (w'.conn.host.open_fds ≡ w.conn.host.open_fds) × (w'.conn.host.blocks ≡ w.conn.host.blocks)
Acquired role w (true, w') =
    let fd = connection role w.conn.host in
    (w'.conn.ctx ≡ some (record { fd = pos fd }))
    × (w'.conn.host.open_fds ≡ fd ∷ w.conn.host.open_fds)
    × (w'.conn.host.blocks ≡ w.conn.host.blocks + 1)

tcp_bind_and_listen-Opened :
    (h : Host) (ip : Option ℕ) (port : ℕ)
    → Opened (connection server h) h.open_fds h.blocks (tcp_bind_and_listen h ip port)
unfolding tcp_bind_and_listen new_fd
tcp_bind_and_listen-Opened h ip port = ground arith

tcp_connect_peer-Opened :
    (h : Host) (ip : Option ℕ) (port : ℕ)
    → Opened (connection client h) h.open_fds h.blocks (tcp_connect_peer h ip port)
unfolding tcp_connect_peer new_fd
tcp_connect_peer-Opened h ip port = ground arith

finish_init-Acquired :
    (role : OmniRole) (w : World TcpConn) (r : Option ℕ × Host × List LogLevel)
    → Opened (connection role w.conn.host) w.conn.host.open_fds (w.conn.host.blocks + 1) r
    → Acquired role w (finish_init w r)
finish_init-Acquired role w (none, h, logs) (fds, blocks) = (fds, omega arith)
finish_init-Acquired role w (some fd, h, logs) (own, fds, blocks) =
    (ap (λ n. some (record { fd = pos n })) own, fds, blocks)

-- Whichever call fails, `tcp_init` leaves no descriptor open and no block allocated; where it returns a context, that
-- holds, and exactly this is open in addition, the descriptor that `accept` returned for a server and that which was
-- connected for a client, and exactly one more block is allocated.
pub tcp_init-Acquired :
    (role : OmniRole) (bind_ip : Option ℕ) (bind_port : ℕ) (peer_ip : Option ℕ) (peer_port : ℕ)
    (w : World TcpConn)
    → Acquired role w (tcp_init role bind_ip bind_port peer_ip peer_port w)
unfolding tcp_init calloc
tcp_init-Acquired server bind_ip bind_port peer_ip peer_port w =
    elim (Bool-cases (answer w.conn.host.answers)) [
      | inr refused ↦ rw refused (refl, refl)
      | inl given ↦
          rw given
            (finish_init-Acquired server w _ (tcp_bind_and_listen-Opened _ bind_ip bind_port))
    ]
tcp_init-Acquired client bind_ip bind_port peer_ip peer_port w =
    elim (Bool-cases (answer w.conn.host.answers)) [
      | inr refused ↦ rw refused (refl, refl)
      | inl given ↦ rw given (elim (Bool-cases (is_missing peer_ip || peer_port == 0)) [
        | inl missing ↦ rw missing (refl, omega arith)
        | inr complete ↦
            rw complete
              (finish_init-Acquired client w _ (tcp_connect_peer-Opened _ peer_ip peer_port))
      ])
    ]

-- `tcp_close` gives back what `tcp_init` took.
pub tcp_close-tcp_init :
    (role : OmniRole) (bind_ip : Option ℕ) (bind_port : ℕ) (peer_ip : Option ℕ) (peer_port : ℕ)
    (w : World TcpConn)
    → (tcp_init role bind_ip bind_port peer_ip peer_port w).0 ≡ true
    → let w' = tcp_close (tcp_init role bind_ip bind_port peer_ip peer_port w).1 in
      (w'.conn.ctx ≡ none)
      × (w'.conn.host.open_fds ≡ w.conn.host.open_fds)
      × (w'.conn.host.blocks ≡ w.conn.host.blocks)
unfolding tcp_close
tcp_close-tcp_init role bind_ip bind_port peer_ip peer_port w made =
    returned _ made (tcp_init-Acquired role bind_ip bind_port peer_ip peer_port w)
  where
    returned :
        (r : Bool × World TcpConn)
        → r.0 ≡ true
        → Acquired role w r
        → (let w' = tcp_close r.1 in
            (w'.conn.ctx ≡ none)
            × (w'.conn.host.open_fds ≡ w.conn.host.open_fds)
            × (w'.conn.host.blocks ≡ w.conn.host.blocks))
    returned (false, w') e a = absurd (cc)
    returned (true, w') e (ctx, fds, blocks) =
        let s = ==_refl (connection role w.conn.host) in ground arith
