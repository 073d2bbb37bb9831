-- ===== src/Tcp.antt =====
-- src/protocols/tcp_impl.c: exact reads and writes on a byte stream, and the frames of 16 bytes of
-- header and a payload. `Setup` has the creation of the connection.
pub mod Stream
pub mod Setup
pub mod ReadSteps
pub mod Reads
pub mod Faults
pub mod Writes
pub mod Sends
pub mod Receives
pub mod Frames
pub mod Feed
pub mod Leaks
use omni_socket.Base.{
  ℕ, zero, suc, ◌+◌, ◌-◌, ◌%◌, ◌^◌, Bool, true, false, not, ◌||◌, List, [], ◌∷◌, ◌++◌, Bytes,
  length, take, drop, Option, none, some, ℤ, pos, negsuc, eqb_ℤ, is_negative, is_positive, to_nat,
  ltb, leb, if◌then◌else◌,
}
use omni_socket.Host.{Host, attempt, getsockopt}
use omni_socket.Logger.{on_proto_send_latency, on_proto_recv_latency, message, LogLevel}
use omni_socket.Runtime.{World, now, tick, logged, elapsed}
use omni_socket.Wire.{
  ByteOrder, MsgHeader, msg_header_size, msg_type_raw, omni_err_param, omni_err_io,
  omni_msg_header_encode, omni_msg_header_decode, header_to_bytes, header_of_bytes,
}
use Stream.{Socket, Io, moved, eintr, fault, read, write}

-- `struct TcpContext`
pub record TcpContext : Type 0 where
  pub fd : ℤ

-- The pointer to the context (`none` is NULL), the kernel's side of its socket, and the process.
pub record TcpConn : Type 0 where
  pub ctx : Option TcpContext
  pub sock : Socket
  pub host : Host

-- `ctx && ctx->fd >= 0`
abbrev pub is_open : Option TcpContext → Bool
is_open none = false
is_open (some c) = not (is_negative c.fd)

-- The loop of `tcp_read_n` at `off`, with the bytes read so far.
pub read_loop : ℕ → Socket → ℕ → ℕ → Bytes → ℤ × Bytes × Socket
read_loop zero s n off buf = (pos off, buf, s)
read_loop (suc fuel) s n off buf = elim (ltb off n) [
  | false ↦ (pos off, buf, s)
  | true ↦
      (let (r, got, s') = read s (n - off) in
        elim r [
          | eintr ↦ read_loop fuel s' n off buf
          | fault ↦ (negsuc 0, buf, s')
          | moved zero ↦ (pos off, buf, s')
          | moved (suc k) ↦ read_loop fuel s' n (off + suc k) (buf ++ got)
        ])
]

-- A call of `read` that leaves the loop running uses up an event of the stream, or the loop is done.
unfoldable pub tcp_read_n : Socket → ℕ → ℤ × Bytes × Socket
unfolding read_loop
tcp_read_n s n = read_loop (suc (length s.rx)) s n 0 []

-- The loop of `tcp_write_n` at `off`.
pub write_loop : ℕ → Socket → Bytes → ℕ → ℤ × Socket
write_loop zero s buf off = (pos off, s)
write_loop (suc fuel) s buf off = elim (ltb off (length buf)) [
  | false ↦ (pos off, s)
  | true ↦
      (let (r, s') = write s (drop off buf) in
        elim r [
          | eintr ↦ write_loop fuel s' buf off
          | fault ↦ (negsuc 0, s')
          | moved k ↦ write_loop fuel s' buf (off + k)
        ])
]

unfoldable pub tcp_write_n : Socket → Bytes → ℤ × Socket
unfolding write_loop
tcp_write_n s buf = write_loop (suc (length s.tx)) s buf 0

abbrev pub with_sock : World TcpConn → Socket → World TcpConn
with_sock w s = record w { conn = record (w.conn) { sock = s } }

-- The descriptor that a call on an open context is given.
abbrev pub fd_of : Option TcpContext → ℕ
fd_of none = 0
fd_of (some c) = to_nat c.fd

-- `tcp_log_info`, on Linux: a line if `getsockopt` succeeds.
abbrev pub tcp_log_info : World TcpConn → World TcpConn
tcp_log_info w =
    let (known, h) = attempt (getsockopt (fd_of w.conn.ctx)) w.conn.host in
    record w {
      conn = record (w.conn) { host = h };
      log = w.log ++ (if known then message LogLevel.info ∷ [] else []);
    }

unfoldable pub tcp_send : ByteOrder → World TcpConn → Bytes → ℤ × World TcpConn
tcp_send o w buf =
    let t0 = now w in
    let hdr = omni_msg_header_encode o msg_type_raw (length buf % 2 ^ 32) t0 in
    let (n1, s1) = tcp_write_n w.conn.sock (header_to_bytes o hdr) in
    let w1 = with_sock (tick w) s1 in
    let (n2, s2) = tcp_write_n s1 buf in
    let w2 = with_sock w1 s2 in
    let t1 = now w2 in
    let timed = logged (tick w2) (on_proto_send_latency (elapsed t0 t1)) in
    if not (is_open w.conn.ctx)
    then (omni_err_param, w)
    else if not (eqb_ℤ n1 (pos msg_header_size))
    then (omni_err_io, w1)
    else if not (eqb_ℤ n2 (pos (length buf)))
    then (omni_err_io, w2)
    else (pos (length buf), tcp_log_info (logged timed (message LogLevel.debug)))

-- `tcp_recv` with a buffer of `cap` bytes: the result, what was written to the buffer, the world.
unfoldable pub tcp_recv : ByteOrder → World TcpConn → ℕ → ℤ × Bytes × World TcpConn
tcp_recv o w cap =
    let t0 = now w in
    let (n1, header_buf, s1) = tcp_read_n w.conn.sock msg_header_size in
    let w1 = with_sock (tick w) s1 in
    let host_hdr = omni_msg_header_decode o (header_of_bytes o header_buf) in
    let payload_len = host_hdr.len in
    let (n2, body, s2) = tcp_read_n s1 payload_len in
    let w2 = with_sock w1 s2 in
    let t1 = now w2 in
    let timed = logged (tick w2) (on_proto_recv_latency (elapsed t0 t1)) in
    if not (is_open w.conn.ctx)
    then (omni_err_param, [], w)
    else if not (is_positive n1)
    then (n1, [], w1)
    else if not (eqb_ℤ n1 (pos msg_header_size))
    then (omni_err_io, [], w1)
    else if ltb cap payload_len
    then (omni_err_param, [], logged w1 (message LogLevel.error))
    else if not (eqb_ℤ n2 (pos payload_len))
    then (omni_err_io, body, w2)
    else (pos payload_len, body, tcp_log_info (logged timed (message LogLevel.debug)))
