-- ===== src/Kcp.antt =====
-- src/protocols/kcp_impl.c: datagrams driven by the library ikcp, which is a parameter.
pub mod Setup
pub mod Updates
pub mod Leaks
pub mod Reliable
pub mod Sends
pub mod Receives
use omni_socket.Base.{
  ℕ, ◌+◌, ◌-◌, ◌%◌, ◌^◌, Bool, true, false, not, List, [], ◌∷◌, Bytes, length, Option, none, some,
  ℤ, pos, negsuc, is_negative, leb, if◌then◌else◌, ◌≤◌, ◌≡◌,
}
use omni_socket.Datagram.{Datagrams, Received, eintr, fault, from, sendto, recvfrom}
use omni_socket.Host.{Host, Sockaddr}
use omni_socket.Logger.{
  LogLevel, message, on_kcp_retrans, on_proto_send_latency, on_proto_recv_latency,
}
use omni_socket.Runtime.{World, now, tick, logged, elapsed}
use omni_socket.Wire.{omni_err_param, omni_err_io}

-- The library: the control block `K` and its functions. `update` also gives, in order, the datagrams for
-- which it calls the output function; it does not look at the answers of that function.
pub record Ikcp (K : Type 0) : Type 0 where
  pub create : ℕ → K
  pub nodelay : K → ℕ → ℕ → ℕ → ℕ → K
  pub wndsize : K → ℕ → ℕ → K
  pub update : K → ℕ → K × List Bytes
  pub input : K → Bytes → K
  pub send : K → Bytes → ℤ × K
  pub recv : K → ℕ → ℤ × Bytes × K
  pub xmit : K → ℕ

-- `struct KcpContext`; `peer_len` is the size of the address, always.
pub record KcpContext (K : Type 0) : Type 0 where
  pub fd : ℤ
  pub peer_addr : Sockaddr
  pub kcp : Option K
  pub last_xmit : ℕ

pub record KcpConn (K : Type 0) : Type 0 where
  pub ctx : Option (KcpContext K)
  pub net : Datagrams
  pub host : Host

module _ {K : Type 0} where
  abbrev pub with_net : World (KcpConn K) → Datagrams → World (KcpConn K)
  with_net w s = record w { conn = record (w.conn) { net = s } }

  abbrev pub with_ctx : World (KcpConn K) → KcpContext K → World (KcpConn K)
  with_ctx w c = record w { conn = record (w.conn) { ctx = some c } }

  -- `kcp_output`: 0, or OMNI_ERR_IO.
  unfoldable pub kcp_output : Sockaddr → World (KcpConn K) → Bytes → ℤ × World (KcpConn K)
  kcp_output peer w buf =
      let (done, s) = sendto w.conn.net peer buf in
      if done
      then (pos 0, with_net w s)
      else (omni_err_io, logged (with_net w s) (message LogLevel.error))

  -- The calls of `kcp_output` that one `ikcp_update` makes.
  abbrev pub outputs : Sockaddr → World (KcpConn K) → List Bytes → World (KcpConn K)
  outputs peer w [] = w
  outputs peer w (buf ∷ bufs) = outputs peer (kcp_output peer w buf).1 bufs

module _ {K : Type 0} (lib : Ikcp K) where
  -- What a received datagram does to the context.
  abbrev pub taken_in : KcpContext K → K → Received → KcpContext K × K
  taken_in c k eintr = (c, k)
  taken_in c k fault = (c, k)
  taken_in c k (from a []) = (c, k)
  taken_in c k (from a (b ∷ bs)) = (record c { peer_addr = a }, lib.input k (b ∷ bs))

  -- The statistics at the end of `kcp_update_loop`.
  abbrev pub counted : World (KcpConn K) → ℕ → ℕ → World (KcpConn K)
  counted w last_xmit xmit =
      if leb last_xmit xmit then logged w (on_kcp_retrans (xmit - last_xmit)) else w

  -- `kcp_update_loop` on the context `c` with the control block `k`: what they are afterwards.
  unfoldable pub kcp_update_loop :
      KcpContext K → K → World (KcpConn K) → KcpContext K × K × World (KcpConn K)
  kcp_update_loop c k w =
      let current = now w % 2 ^ 32 in
      let (k1, bufs) = lib.update k current in
      let w1 = outputs c.peer_addr (tick w) bufs in
      let (r, s) = recvfrom w1.conn.net 1500 in
      let (c2, k2) = taken_in c k1 r in
      let xmit = lib.xmit k2 in
      let w2 = counted (with_net w1 s) c2.last_xmit xmit in
      let c3 : KcpContext K = record c2 { kcp = some k2; last_xmit = xmit } in
      (c3, k2, logged (with_ctx w2 c3) (message LogLevel.debug))

  abbrev pub send_on : KcpContext K → K → World (KcpConn K) → Bytes → ℤ × World (KcpConn K)
  send_on c k w buf =
      let t0 = now w in
      let (rc, k1) = lib.send k buf in
      let c1 : KcpContext K = record c { kcp = some k1 } in
      let (c2, k2, w1) = kcp_update_loop c1 k1 (tick w) in
      let t1 = now w1 in
      let timed = logged (tick w1) (on_proto_send_latency (elapsed t0 t1)) in
      if is_negative rc
      then (omni_err_io, logged (with_ctx (tick w) c1) (message LogLevel.error))
      else (pos (length buf), logged timed (message LogLevel.debug))

  -- The check of the control block, and that of the context.
  abbrev pub send_block :
      KcpContext K → Option K → World (KcpConn K) → Bytes → ℤ × World (KcpConn K)
  send_block c none w buf = (omni_err_param, w)
  send_block c (some k) w buf = send_on c k w buf

  abbrev pub send_with : Option (KcpContext K) → World (KcpConn K) → Bytes → ℤ × World (KcpConn K)
  send_with none w buf = (omni_err_param, w)
  send_with (some c) w buf = send_block c c.kcp w buf

  unfoldable pub kcp_send : World (KcpConn K) → Bytes → ℤ × World (KcpConn K)
  kcp_send w buf = send_with w.conn.ctx w buf

  abbrev pub recv_on : KcpContext K → K → World (KcpConn K) → ℕ → ℤ × Bytes × World (KcpConn K)
  recv_on c k w cap =
      let t0 = now w in
      let (c1, k1, w1) = kcp_update_loop c k (tick w) in
      let (n, got, k2) = lib.recv k1 cap in
      let w2 = with_ctx w1 (record c1 { kcp = some k2 }) in
      let t1 = now w2 in
      let timed = logged (tick w2) (on_proto_recv_latency (elapsed t0 t1)) in
      if is_negative n then (pos 0, [], w2) else (n, got, logged timed (message LogLevel.debug))

  abbrev pub recv_block :
      KcpContext K → Option K → World (KcpConn K) → ℕ → ℤ × Bytes × World (KcpConn K)
  recv_block c none w cap = (omni_err_param, [], w)
  recv_block c (some k) w cap = recv_on c k w cap

  abbrev pub recv_with :
      Option (KcpContext K) → World (KcpConn K) → ℕ → ℤ × Bytes × World (KcpConn K)
  recv_with none w cap = (omni_err_param, [], w)
  recv_with (some c) w cap = recv_block c c.kcp w cap

  unfoldable pub kcp_recv : World (KcpConn K) → ℕ → ℤ × Bytes × World (KcpConn K)
  kcp_recv w cap = recv_with w.conn.ctx w cap
