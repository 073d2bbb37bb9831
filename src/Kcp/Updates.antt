-- ===== src/Kcp/Updates.antt =====
-- The retransmissions that src/protocols/kcp_impl.c reports, and where its datagrams go.
use omni_socket.Base.{
  ℕ, ◌+◌, ◌-◌, ◌%◌, ◌^◌, ◌≤◌, ◌≡◌, refl, sym, ◌∙◌, subst, Bool, true, false, List, [], ◌∷◌, ◌++◌,
  Bytes, Option, some, is_negative, arith, le→leb, Bool-cases, inl, inr,
}
use omni_socket.Datagram.{Received, eintr, fault, from, recvfrom, sendto}
use omni_socket.Host.{Sockaddr}
use omni_socket.Kcp.{
  Ikcp, KcpContext, KcpConn, kcp_output, outputs, taken_in, counted, kcp_update_loop, send_on,
  recv_on, send_block, recv_block, send_with, recv_with, kcp_send, kcp_recv, with_net,
}
use omni_socket.Kcp.Leaks.{Acquired, kcp_init-Acquired}
use omni_socket.Kcp.Setup.{kcp_init, conv_of, started}
use omni_socket.Network.Types.{OmniRole}
use omni_socket.Logger.{
  LogLevel, message, on_kcp_retrans, on_proto_send_latency, on_proto_recv_latency, LogCall,
}
use omni_socket.Logger.Counts.{retrans, total, total-append}
use omni_socket.Runtime.{World, now, tick, logged, elapsed}

-- The library's count of transmissions: 0 in a new control block, never lowered, and raised by `ikcp_update` and
-- `ikcp_input` alone, since `ikcp_send` and `ikcp_recv` only move messages between queues.
pub record NeverLowers (K : Type 0) (lib : Ikcp K) : Type 0 where
  pub update_up : (k : K) (t : ℕ) → lib.xmit k ≤ lib.xmit (lib.update k t).0
  pub input_up : (k : K) (bs : Bytes) → lib.xmit k ≤ lib.xmit (lib.input k bs)
  pub send_same : (k : K) (bs : Bytes) → lib.xmit (lib.send k bs).1 ≡ lib.xmit k
  pub recv_same : (k : K) (n : ℕ) → lib.xmit (lib.recv k n).2 ≡ lib.xmit k
  pub start_zero : (conv : ℕ) → lib.xmit (started lib conv) ≡ 0

-- The retransmissions reported so far.
abbrev pub reported : {K : Type 0} → World (KcpConn K) → ℕ
reported w = total retrans w.log

module _ {K : Type 0} where
  kcp_output-reported :
      (peer : Sockaddr) (w : World (KcpConn K)) (buf : Bytes)
      → reported (kcp_output peer w buf).1 ≡ reported w
  unfolding kcp_output
  kcp_output-reported peer w buf = elim (Bool-cases (sendto w.conn.net peer buf).0) [
    | inl done ↦ rw done refl
    | inr refused ↦
        rw refused (omega (arith, total-append retrans w.log (message LogLevel.error ∷ [])))
  ]

  outputs-reported :
      (peer : Sockaddr) (w : World (KcpConn K)) (bufs : List Bytes)
      → reported (outputs peer w bufs) ≡ reported w
  outputs-reported peer w [] = refl
  outputs-reported peer w (buf ∷ bufs) =
      outputs-reported peer (kcp_output peer w buf).1 bufs ∙ kcp_output-reported peer w buf

  reported-message :
      (w : World (KcpConn K)) (l : LogLevel) → reported (logged w (message l)) ≡ reported w
  reported-message w l = omega (arith, total-append retrans w.log (message l ∷ []))

two_quiet :
    (log : List LogCall) (a : LogCall) (l : LogLevel)
    → retrans a ≡ 0
    → total retrans ((log ++ a ∷ []) ++ message l ∷ []) ≡ total retrans log
two_quiet log a l quiet = omega (
  arith,
  total-append retrans (log ++ a ∷ []) (message l ∷ []),
  total-append retrans log (a ∷ []),
)

module _ {K : Type 0} (lib : Ikcp K) (up : NeverLowers K lib) where
  taken_in-xmit :
      (c : KcpContext K) (k : K) (r : Received)
      → let (c', k') = taken_in lib c k r in
        (c'.last_xmit ≡ c.last_xmit) × (lib.xmit k ≤ lib.xmit k')
  taken_in-xmit c k eintr = (refl, omega arith)
  taken_in-xmit c k fault = (refl, omega arith)
  taken_in-xmit c k (from a []) = (refl, omega arith)
  taken_in-xmit c k (from a (b ∷ bs)) = (refl, up.input_up k (b ∷ bs))

  counted-reported :
      (w : World (KcpConn K)) (last xmit : ℕ)
      → last ≤ xmit
      → reported (counted lib w last xmit) + last ≡ reported w + xmit
  counted-reported w last xmit grown =
      rw (le→leb last xmit grown)
        (omega (arith, total-append retrans w.log (on_kcp_retrans (xmit - last) ∷ [])))

  -- The context and block of a world, with the count up to date.
  abbrev pub Current : KcpContext K × K × World (KcpConn K) → Type 0
  Current (c, k, w) = (w.conn.ctx ≡ some c) × (c.kcp ≡ some k) × (c.last_xmit ≡ lib.xmit k)

  -- One update reports exactly by how much the count has grown.
  kcp_update_loop-reported :
      (c : KcpContext K) (k : K) (w : World (KcpConn K))
      → c.last_xmit ≤ lib.xmit k
      → let (c', k', w') = kcp_update_loop lib c k w in
        Current (c', k', w') × (reported w' + c.last_xmit ≡ reported w + c'.last_xmit)
  unfolding kcp_update_loop
  kcp_update_loop-reported c k w behind =
      let current = now w % 2 ^ 32 in
      let (k1, bufs) = lib.update k current in
      let w1 = outputs c.peer_addr (tick w) bufs in
      let (r, s) = recvfrom w1.conn.net 1500 in
      let (c2, k2) = taken_in lib c k1 r in
      let (same, grown) = taken_in-xmit c k1 r in
      let more = up.update_up k current in
      let sums = counted-reported (with_net w1 s) c2.last_xmit (lib.xmit k2) (omega arith) in
      let quiet = outputs-reported c.peer_addr (tick w) bufs in
      (
        (refl, refl, refl),
        omega (
          arith,
          total-append retrans (counted lib (with_net w1 s) c2.last_xmit (lib.xmit k2)).log
              (message LogLevel.debug ∷ []),
        ),
      )

  -- The context holds a block whose count is the last one seen, and that is what was reported since `base`.
  abbrev pub Exact : ℕ → World (KcpConn K) → Type 0
  Exact base w =
      (c : KcpContext K) × (k : K) × (w.conn.ctx ≡ some c)
      × (c.kcp ≡ some k)
      × (c.last_xmit ≡ lib.xmit k)
      × (reported w ≡ base + lib.xmit k)

  send_on-Exact :
      (base : ℕ) (c : KcpContext K) (k : K) (w : World (KcpConn K)) (buf : Bytes)
      → c.last_xmit ≡ lib.xmit k
      → reported w ≡ base + lib.xmit k
      → Exact base (send_on lib c k w buf).1
  send_on-Exact base c k w buf behind so_far = elim (Bool-cases (is_negative (lib.send k buf).0)) [
    | inl failed ↦
        let more = up.send_same k buf in
        rw failed (
          record c { kcp = some (lib.send k buf).1 },
          (lib.send k buf).1,
          refl,
          refl,
          omega arith,
          omega (arith, total-append retrans w.log (message LogLevel.error ∷ [])),
        )
    | inr accepted ↦
        let more = up.send_same k buf in
        let c1 : KcpContext K = record c { kcp = some (lib.send k buf).1 } in
        let (held, sums) = kcp_update_loop-reported c1 (lib.send k buf).1 (tick w) (omega arith) in
        let (c2, k2, w2) = kcp_update_loop lib c1 (lib.send k buf).1 (tick w) in
        let quiet =
          two_quiet w2.log (on_proto_send_latency (elapsed (now w) (now w2))) LogLevel.debug refl in
        rw accepted (c2, k2, held.0, held.1, omega (arith, held.2), omega (arith, held.2))
  ]

  recv_on-Exact :
      (base : ℕ) (c : KcpContext K) (k : K) (w : World (KcpConn K)) (n : ℕ)
      → c.last_xmit ≡ lib.xmit k
      → reported w ≡ base + lib.xmit k
      → Exact base (recv_on lib c k w n).2
  recv_on-Exact base c k w n behind so_far =
      let (c1, k1, w1) = kcp_update_loop lib c k (tick w) in
      let (held, sums) = kcp_update_loop-reported c k (tick w) (omega arith) in
      let more = up.recv_same k1 n in
      elim (Bool-cases (is_negative (lib.recv k1 n).0)) [
        | inl failed ↦ rw failed (
          record c1 { kcp = some (lib.recv k1 n).2 },
          (lib.recv k1 n).2,
          refl,
          refl,
          omega (arith, held.2),
          omega (arith, held.2),
        )
        | inr accepted ↦
            let quiet =
              two_quiet w1.log (on_proto_recv_latency (elapsed (now w) (now w1))) LogLevel.debug
                refl in
            rw accepted (
              record c1 { kcp = some (lib.recv k1 n).2 },
              (lib.recv k1 n).2,
              refl,
              refl,
              omega (arith, held.2),
              omega (arith, held.2),
            )
      ]

-- A call that an application makes of an open context.
pub data KcpCall : Type 0 where
  send : Bytes → KcpCall
  recv : ℕ → KcpCall

module _ {K : Type 0} (lib : Ikcp K) where
  abbrev pub made_call : KcpCall → World (KcpConn K) → World (KcpConn K)
  made_call (send buf) w = (kcp_send lib w buf).1
  made_call (recv n) w = (kcp_recv lib w n).2

  abbrev pub made_calls : List KcpCall → World (KcpConn K) → World (KcpConn K)
  made_calls [] w = w
  made_calls (c ∷ calls) w = made_calls calls (made_call c w)

module _ {K : Type 0} (lib : Ikcp K) (up : NeverLowers K lib) where
  made_call-Exact :
      (base : ℕ) (call : KcpCall) (w : World (KcpConn K))
      → Exact lib up base w
      → Exact lib up base (made_call lib call w)
  unfolding kcp_send kcp_recv
  made_call-Exact base (send buf) w (c, k, made, has, behind, so_far) =
      subst (λ x. Exact lib up base (send_with lib x w buf).1) (sym made)
        (subst (λ b. Exact lib up base (send_block lib c b w buf).1) (sym has)
          (send_on-Exact lib up base c k w buf behind so_far))
  made_call-Exact base (recv n) w (c, k, made, has, behind, so_far) =
      subst (λ x. Exact lib up base (recv_with lib x w n).2) (sym made)
        (subst (λ b. Exact lib up base (recv_block lib c b w n).2) (sym has)
          (recv_on-Exact lib up base c k w n behind so_far))

  made_calls-Exact :
      (base : ℕ) (calls : List KcpCall) (w : World (KcpConn K))
      → Exact lib up base w
      → Exact lib up base (made_calls lib calls w)
  made_calls-Exact base [] w exact = exact
  made_calls-Exact base (c ∷ calls) w exact =
      made_calls-Exact base calls (made_call lib c w) (made_call-Exact base c w exact)

  -- The retransmissions reported to the logger: if the library's count begins at 0, is never lowered and is raised by its
  -- update and input alone, then after a successful `kcp_init` and any sequence of calls of `kcp_send` and `kcp_recv`,
  -- whatever they return, the sum of what was reported since is exactly the library's count, which the context also
  -- keeps. Nothing is reported twice or left out.
  pub retransmissions :
      (role : OmniRole) (bind_ip : Option ℕ) (bind_port : ℕ) (peer_ip : Option ℕ) (peer_port : ℕ)
      (w : World (KcpConn K)) (calls : List KcpCall)
      → (kcp_init lib role bind_ip bind_port peer_ip peer_port w).0 ≡ true
      → let w0 = (kcp_init lib role bind_ip bind_port peer_ip peer_port w).1 in
        Exact lib up (reported w0) (made_calls lib calls w0)
  retransmissions role bind_ip bind_port peer_ip peer_port w calls made =
      let w0 = (kcp_init lib role bind_ip bind_port peer_ip peer_port w).1 in
      made_calls-Exact (reported w0) calls w0 (
        new_block (conv_of role bind_port peer_port) _ made
          (kcp_init-Acquired lib role bind_ip bind_port peer_ip peer_port w))
    where
      new_block :
          (conv : ℕ) (r : Bool × World (KcpConn K))
          → r.0 ≡ true
          → Acquired lib peer_ip peer_port conv w r
          → Exact lib up (reported (r.1)) (r.1)
      new_block conv (false, w') made a = absurd (cc)
      new_block conv (true, w') made (fd, ctx, fds, blocks) = (
        _,
        started lib conv,
        ctx,
        refl,
        omega (arith, up.start_zero conv),
        omega (arith, up.start_zero conv),
      )
