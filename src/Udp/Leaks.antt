-- ===== src/Udp/Leaks.antt =====
-- What creating and closing a UDP context does to descriptors and allocated blocks.
use omni_socket.Base.{
  ℕ, ◌+◌, ◌≡◌, refl, Bool, true, false, ◌∷◌, Option, none, some, pos, arith, Bool-cases, inl, inr,
  ==_refl,
}
use omni_socket.Datagram.{Opened, open_socket-Opened}
use omni_socket.Host.{Host, answer, calloc, addr_of}
use omni_socket.Network.Types.{OmniRole}
use omni_socket.Runtime.{World}
use omni_socket.Udp.{UdpConn, finish_init, udp_init, udp_close}

-- A context with the given peer is returned, and it owns one descriptor and one block more; or none is, and
-- nothing is left behind.
abbrev pub Acquired : Option ℕ → ℕ → World UdpConn → Bool × World UdpConn → Type 0
Acquired ip port w (false, w') =
    (w'.conn.host.open_fds ≡ w.conn.host.open_fds) × (w'.conn.host.blocks ≡ w.conn.host.blocks)
Acquired ip port w (true, w') =
    (fd : ℕ) × (w'.conn.ctx ≡ some (record { fd = pos fd; peer_addr = addr_of ip port }))
    × (w'.conn.host.open_fds ≡ fd ∷ w.conn.host.open_fds)
    × (w'.conn.host.blocks ≡ w.conn.host.blocks + 1)

finish_init-Acquired :
    (w : World UdpConn) (ip : Option ℕ) (port : ℕ) (r : Option ℕ × Host)
    → Opened w.conn.host.open_fds (w.conn.host.blocks + 1) r
    → Acquired ip port w (finish_init w ip port r)
finish_init-Acquired w ip port (none, h) (fds, blocks) = (fds, omega arith)
finish_init-Acquired w ip port (some fd, h) (fds, blocks) = (fd, refl, fds, blocks)

-- Whichever call fails, `udp_init` leaves no descriptor open and no block allocated; where it returns a context, that
-- owns exactly one descriptor more and one block, and its peer is the one given.
pub udp_init-Acquired :
    (role : OmniRole) (bind_ip : Option ℕ) (bind_port : ℕ) (peer_ip : Option ℕ) (peer_port : ℕ)
    (w : World UdpConn)
    → Acquired peer_ip peer_port w (udp_init role bind_ip bind_port peer_ip peer_port w)
unfolding udp_init calloc
udp_init-Acquired role bind_ip bind_port peer_ip peer_port w =
    elim (Bool-cases (answer w.conn.host.answers)) [
      | inr refused ↦ rw refused (refl, refl)
      | inl given ↦
          rw given
            (finish_init-Acquired w peer_ip peer_port _ (open_socket-Opened _ bind_ip bind_port))
    ]

-- `udp_close` gives back what `udp_init` took.
pub udp_close-udp_init :
    (role : OmniRole) (bind_ip : Option ℕ) (bind_port : ℕ) (peer_ip : Option ℕ) (peer_port : ℕ)
    (w : World UdpConn)
    → (udp_init role bind_ip bind_port peer_ip peer_port w).0 ≡ true
    → let w' = udp_close (udp_init role bind_ip bind_port peer_ip peer_port w).1 in
      (w'.conn.ctx ≡ none)
      × (w'.conn.host.open_fds ≡ w.conn.host.open_fds)
      × (w'.conn.host.blocks ≡ w.conn.host.blocks)
unfolding udp_close
udp_close-udp_init role bind_ip bind_port peer_ip peer_port w made =
    returned _ made (udp_init-Acquired role bind_ip bind_port peer_ip peer_port w)
  where
    returned :
        (r : Bool × World UdpConn)
        → r.0 ≡ true
        → Acquired peer_ip peer_port w r
        → (let w' = udp_close r.1 in
            (w'.conn.ctx ≡ none)
            × (w'.conn.host.open_fds ≡ w.conn.host.open_fds)
            × (w'.conn.host.blocks ≡ w.conn.host.blocks))
    returned (false, w') e a = absurd (cc)
    returned (true, w') e (fd, ctx, fds, blocks) = let s = ==_refl fd in ground arith
