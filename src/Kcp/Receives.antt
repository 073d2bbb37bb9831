-- ===== src/Kcp/Receives.antt =====
-- What src/protocols/kcp_impl.c makes of datagrams that arrive, over a library that is reliable and a network that loses,
-- repeats and reorders them.
use mathlib.Core.List.{Memᴰ}
use omni_socket.App.Feed.{Source, Given, failed, nothing, message}
use omni_socket.Base.{
  ℕ, ◌%◌, ◌^◌, ◌≡◌, refl, ap, ◌∙◌, sym, subst, ◌++◌, [], ◌∷◌, List, All, Bytes, ℤ, is_negative,
  false, some, take_all,
}
use omni_socket.Datagram.{
  Arrival, Datagrams, datagram, interrupted, broken, from, recvfrom, next_arrival,
}
use omni_socket.Host.{Sockaddr}
use omni_socket.Kcp.{
  Ikcp, KcpContext, KcpConn, outputs, taken_in, with_net, kcp_update_loop, recv_on, recv_block,
  recv_with, kcp_recv,
}
use omni_socket.Kcp.Reliable.{Reliable, not_yet, handed}
use omni_socket.Kcp.Sends.{outputs_arrivals, counted_conn}
use omni_socket.Runtime.{World, now, tick}
use omni_socket.Udp.Channel.{bodies}

-- Every datagram that is to arrive is one of the conversation.
abbrev pub Arriving : (Bytes → Type 0) → List Arrival → Type 0
Arriving P [] = Unit {0}
Arriving P (datagram a bs ∷ rest) = P bs × Arriving P rest
Arriving P (interrupted ∷ rest) = Arriving P rest
Arriving P (broken ∷ rest) = Arriving P rest

module _ {K : Type 0} (lib : Ikcp K) (conv : ℕ) (rel : Reliable K lib conv) where
  -- An open context whose block has handed over all of `ms` but `rest`, before datagrams of the conversation.
  abbrev pub IsComing : KcpConn K → List Bytes → List Bytes → Type 0
  IsComing c ms rest =
      (x : KcpContext K) × (k : K) × (c.ctx ≡ some x)
      × (x.kcp ≡ some k)
      × rel.Coming k ms rest
      × Arriving (rel.Carries ms) c.net.arrivals

  taken_in-Coming :
      (c : KcpContext K) (k : K) (a : Sockaddr) (d : Bytes) (ms rest : List Bytes)
      → rel.Coming k ms rest
      → rel.Carries ms d
      → rel.Coming (taken_in lib c k (from a d)).1 ms rest
  taken_in-Coming c k a [] ms rest coming carries = coming
  taken_in-Coming c k a (b ∷ bs) ms rest coming carries =
      rel.coming_input k ms rest (b ∷ bs) coming carries

  next_arrival-Coming :
      (c : KcpContext K) (k : K) (arrivals : List Arrival) (ms rest : List Bytes)
      → rel.Coming k ms rest
      → Arriving (rel.Carries ms) arrivals
      → let (r, later) = next_arrival arrivals 1500 in
        rel.Coming (taken_in lib c k r).1 ms rest × Arriving (rel.Carries ms) later
  next_arrival-Coming c k [] ms rest coming all = (coming, tt)
  next_arrival-Coming c k (datagram a bs ∷ later) ms rest coming (one, all) =
      let whole = take_all 1500 bs (rel.carries_fits ms bs one) in
      (
        subst (λ d. rel.Coming (taken_in lib c k (from a d)).1 ms rest) (sym whole)
            (taken_in-Coming c k a bs ms rest coming one),
        all,
      )
  next_arrival-Coming c k (interrupted ∷ later) ms rest coming all = (coming, all)
  next_arrival-Coming c k (broken ∷ later) ms rest coming all = (coming, all)

  kcp_update_loop-IsComing :
      (c : KcpContext K) (k : K) (w : World (KcpConn K)) (ms rest : List Bytes)
      → rel.Coming k ms rest
      → Arriving (rel.Carries ms) w.conn.net.arrivals
      → let (c', k', w') = kcp_update_loop lib c k w in
        rel.Coming k' ms rest × Arriving (rel.Carries ms) w'.conn.net.arrivals
  unfolding kcp_update_loop recvfrom
  kcp_update_loop-IsComing c k w ms rest coming all =
      let (k1, bufs) = lib.update k (now w % 2 ^ 32) in
      let w1 = outputs c.peer_addr (tick w) bufs in
      let r = (recvfrom w1.conn.net 1500).0 in
      let (coming', later) =
        next_arrival-Coming c k1 w1.conn.net.arrivals ms rest
          (rel.coming_update k ms rest (now w % 2 ^ 32) coming)
          (subst (Arriving (rel.Carries ms)) (sym (outputs_arrivals c.peer_addr (tick w) bufs))
            all) in
      (
        coming',
        subst (λ (net : Datagrams). Arriving (rel.Carries ms) net.arrivals)
            (sym (
              counted_conn lib (with_net w1 (recvfrom w1.conn.net 1500).1)
                (taken_in lib c k1 r).0.last_xmit (lib.xmit (taken_in lib c k1 r).1)))
            later,
      )

  -- What one call of `kcp_recv` gives.
  abbrev Gives : List Bytes → List Bytes → ℤ × Bytes × World (KcpConn K) → Type 0
  Gives ms rest out = Given (KcpConn K) (λ c rest'. IsComing c ms rest') rest out

  recv_on-Gives :
      (c : KcpContext K) (k : K) (w : World (KcpConn K)) (cap : ℕ) (ms rest : List Bytes)
      → rel.Coming k ms rest
      → Arriving (rel.Carries ms) w.conn.net.arrivals
      → Gives ms rest (recv_on lib c k w cap)
  recv_on-Gives c k w cap ms rest coming all =
      let (c1, k1, w1) = kcp_update_loop lib c k (tick w) in
      let (coming1, later) = kcp_update_loop-IsComing c k (tick w) ms rest coming all in
      let k2 = (lib.recv k1 cap).2 in
      let c2 : KcpContext K = record c1 { kcp = some k2 } in
      elim (rel.coming_recv k1 ms rest cap coming1) [
        | not_yet neg still ↦ rw neg (nothing refl (c2, k2, refl, refl, still, later))
        | handed m rest' e n bytes still ↦
            let good : is_negative (lib.recv k1 cap).0 ≡ false = ap is_negative n in
            rw good (message m rest' e n bytes (c2, k2, refl, refl, still, later))
      ]

  kcp_recv-Gives :
      (w : World (KcpConn K)) (cap : ℕ) (ms rest : List Bytes)
      → IsComing w.conn ms rest
      → Gives ms rest (kcp_recv lib w cap)
  unfolding kcp_recv
  kcp_recv-Gives w cap ms rest (x, k, made, has, coming, all) =
      subst (λ c. Gives ms rest (recv_with lib c w cap)) (sym made)
        (subst (λ b. Gives ms rest (recv_block lib x b w cap)) (sym has)
          (recv_on-Gives x k w cap ms rest coming all))

  -- Some first ones of `ms` are to come, or all.
  abbrev pub ComesFirst : KcpConn K → List Bytes → Type 0
  ComesFirst c ms =
      (total : List Bytes) × (rest : List Bytes) × (post : List Bytes) × (ms ≡ rest ++ post)
      × IsComing c total rest

  pub kcp_recv-Given :
      (w : World (KcpConn K)) (cap : ℕ) (ms : List Bytes)
      → ComesFirst w.conn ms
      → Given (KcpConn K) ComesFirst ms (kcp_recv lib w cap)
  kcp_recv-Given w cap ms (total, rest, post, e, coming) =
      elim (kcp_recv-Gives w cap total rest coming) [
        | failed neg ↦ failed neg
        | nothing zero_got still ↦ nothing zero_got (total, rest, post, e, still)
        | message m rest' e' n bytes still ↦
            message m (rest' ++ post) (e ∙ ap (λ x. x ++ post) e') n bytes
              (total, rest', post, refl, still)
      ]

  abbrev pub kcp_source : Source (KcpConn K) (kcp_recv lib)
  kcp_source = record {
    Holds = ComesFirst;
    gives = λ w cap ms fit comes. kcp_recv-Given w cap ms comes;
  }

-- The datagrams that arrive are among those sent, however often each and in whatever order.
abbrev pub OnlySent : List (Sockaddr × Bytes) → List Arrival → Type 0
OnlySent sent arrivals = Arriving (λ d. Memᴰ d (bodies sent)) arrivals

All-Memᴰ :
    (P : Bytes → Type 0) (sent : List (Sockaddr × Bytes)) (d : Bytes)
    → All (λ (x : Sockaddr × Bytes). P x.1) sent
    → Memᴰ d (bodies sent)
    → P d
All-Memᴰ P [] d all none_is = elim none_is [ ]
All-Memᴰ P (x ∷ sent) d (one, all) (Memᴰ.head e) = subst P (sym e) one
All-Memᴰ P (x ∷ sent) d (one, all) (Memᴰ.tail m) = All-Memᴰ P sent d all m

pub OnlySent-Arriving :
    (P : Bytes → Type 0) (sent : List (Sockaddr × Bytes)) (arrivals : List Arrival)
    → All (λ (x : Sockaddr × Bytes). P x.1) sent
    → OnlySent sent arrivals
    → Arriving P arrivals
OnlySent-Arriving P sent [] all only = tt
OnlySent-Arriving P sent (datagram a bs ∷ later) all (one, only) =
    (All-Memᴰ P sent bs all one, OnlySent-Arriving P sent later all only)
OnlySent-Arriving P sent (interrupted ∷ later) all only = OnlySent-Arriving P sent later all only
OnlySent-Arriving P sent (broken ∷ later) all only = OnlySent-Arriving P sent later all only
