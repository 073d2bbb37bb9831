-- ===== src/Kcp/Leaks.antt =====
-- What creating and closing a KCP context does to descriptors and allocated blocks, and the
-- conversation of the two sides.
use omni_socket.Base.{
  ℕ, ◌+◌, ◌≡◌, refl, Bool, true, false, ◌∷◌, Option, none, some, pos, arith, Bool-cases, inl, inr,
  ==_refl,
}
use omni_socket.Datagram.{Opened, open_socket-Opened}
use omni_socket.Host.{Host, answer, calloc, addr_of}
use omni_socket.Kcp.{Ikcp, KcpConn}
use omni_socket.Kcp.Setup.{conv_of, started, with_block, finish_init, kcp_init, kcp_close}
use omni_socket.Network.Types.{OmniRole}
use omni_socket.Runtime.{World}

module _ {K : Type 0} (lib : Ikcp K) where
  -- A context with its control block is returned, and it owns one descriptor and two blocks more; or none is,
  -- and nothing is left behind.
  abbrev pub Acquired : Option ℕ → ℕ → ℕ → World (KcpConn K) → Bool × World (KcpConn K) → Type 0
  Acquired ip port conv w (false, w') =
      (w'.conn.host.open_fds ≡ w.conn.host.open_fds) × (w'.conn.host.blocks ≡ w.conn.host.blocks)
  Acquired ip port conv w (true, w') =
      (fd : ℕ) × (w'.conn.ctx
        ≡ some (record {
          fd = pos fd;
          peer_addr = addr_of ip port;
          kcp = some (started lib conv);
          last_xmit = 0;
        }))
      × (w'.conn.host.open_fds ≡ fd ∷ w.conn.host.open_fds)
      × (w'.conn.host.blocks ≡ w.conn.host.blocks + 2)

  with_block-Acquired :
      (w : World (KcpConn K)) (fd : ℕ) (ip : Option ℕ) (port conv : ℕ) (h : Host)
      → h.open_fds ≡ fd ∷ w.conn.host.open_fds
      → h.blocks ≡ w.conn.host.blocks + 1
      → Acquired ip port conv w (with_block lib w fd ip port conv (calloc h))
  unfolding calloc
  with_block-Acquired w fd ip port conv h fds blocks = elim (Bool-cases (answer h.answers)) [
    | inr refused ↦ rw refused (let s = ==_refl fd in ground arith, omega arith)
    | inl given ↦ rw given (fd, refl, fds, omega arith)
  ]

  finish_init-Acquired :
      (w : World (KcpConn K)) (ip : Option ℕ) (port conv : ℕ) (r : Option ℕ × Host)
      → Opened w.conn.host.open_fds (w.conn.host.blocks + 1) r
      → Acquired ip port conv w (finish_init lib w ip port conv r)
  finish_init-Acquired w ip port conv (none, h) (fds, blocks) = (fds, omega arith)
  finish_init-Acquired w ip port conv (some fd, h) (fds, blocks) =
      with_block-Acquired w fd ip port conv h fds blocks

  -- Whichever call fails, that of `ikcp_create` included, `kcp_init` leaves no descriptor open and no block allocated;
  -- where it returns a context, that owns exactly one descriptor more and two blocks, has the peer given, and a
  -- control block for the conversation of its role.
  pub kcp_init-Acquired :
      (role : OmniRole) (bind_ip : Option ℕ) (bind_port : ℕ) (peer_ip : Option ℕ) (peer_port : ℕ)
      (w : World (KcpConn K))
      → Acquired peer_ip peer_port
          (conv_of role bind_port peer_port)
          w
          (kcp_init lib role bind_ip bind_port peer_ip peer_port w)
  unfolding kcp_init calloc
  kcp_init-Acquired role bind_ip bind_port peer_ip peer_port w =
      elim (Bool-cases (answer w.conn.host.answers)) [
        | inr refused ↦ rw refused (refl, refl)
        | inl given ↦ rw given (
            finish_init-Acquired w peer_ip peer_port (conv_of role bind_port peer_port) _
              (open_socket-Opened _ bind_ip bind_port))
      ]

  returned :
      (ip : Option ℕ) (port conv : ℕ) (w : World (KcpConn K)) (r : Bool × World (KcpConn K))
      → r.0 ≡ true
      → Acquired ip port conv w r
      → (let w' = kcp_close r.1 in
          (w'.conn.ctx ≡ none)
          × (w'.conn.host.open_fds ≡ w.conn.host.open_fds)
          × (w'.conn.host.blocks ≡ w.conn.host.blocks))
  unfolding kcp_close
  returned ip port conv w (false, w') e a = absurd (cc)
  returned ip port conv w (true, w') e (fd, ctx, fds, blocks) =
      let s = ==_refl fd in rw ctx (ground arith)

  -- `kcp_close` gives back what `kcp_init` took.
  pub kcp_close-kcp_init :
      (role : OmniRole) (bind_ip : Option ℕ) (bind_port : ℕ) (peer_ip : Option ℕ) (peer_port : ℕ)
      (w : World (KcpConn K))
      → (kcp_init lib role bind_ip bind_port peer_ip peer_port w).0 ≡ true
      → let w' = kcp_close (kcp_init lib role bind_ip bind_port peer_ip peer_port w).1 in
        (w'.conn.ctx ≡ none)
        × (w'.conn.host.open_fds ≡ w.conn.host.open_fds)
        × (w'.conn.host.blocks ≡ w.conn.host.blocks)
  kcp_close-kcp_init role bind_ip bind_port peer_ip peer_port w made =
      returned peer_ip peer_port (conv_of role bind_port peer_port) w _ made
        (kcp_init-Acquired role bind_ip bind_port peer_ip peer_port w)
