-- ===== src/Tcp/Receives.antt =====
-- What `tcp_recv` takes from the stream.
use omni_socket.Base.{
  ℕ, ◌+◌, ◌-◌, ◌^◌, ◌<◌, ◌≤◌, min, ◌≡◌, refl, ap, ◌∙◌, sym, ◌++◌, [], Bytes, length, take, drop, ℤ,
  pos, true, false, ltb, ==_refl, le→ltb, lt→ltb, arith, append_assoc, take_of_append,
  drop_of_append, length-append, length-take, Bool-cases, inl, inr, tests, ltb→lt, ne_of_lt,
  take_past, if◌then◌else◌, ◌==◌,
}
use omni_socket.Runtime.{World}
use omni_socket.Tcp.{TcpConn, is_open, tcp_read_n, tcp_recv}
use omni_socket.Tcp.Sends.{tcp_frame}
use omni_socket.Tcp.Stream.{Socket, RxClean, payload}
use omni_socket.Tcp.Reads.{Reads, tcp_read_n-Reads}
use omni_socket.Wire.{
  ByteOrder, MsgHeader, msg_type_raw, omni_err_param, omni_err_io, omni_msg_header_decode,
  header_of_bytes,
}
use omni_socket.Wire.RoundTrip.{network_header, length-network_header, decode-network_header}

-- A frame with any header fields.
abbrev pub any_frame : ℕ → ℕ → Bytes → Bytes
any_frame type ts body = network_header type (length body) ts ++ body

-- What `tcp_send` makes of a payload is one.
pub any_frame-tcp_frame :
    (ts : ℕ) (buf : Bytes) → length buf < 2 ^ 32 → tcp_frame ts buf ≡ any_frame msg_type_raw ts buf
any_frame-tcp_frame ts buf h = ap (λ n. network_header msg_type_raw n ts ++ buf) (omega arith)

module _ (o : ByteOrder) (w : World TcpConn) (cap type ts : ℕ) (body : Bytes)
    (open_ctx : is_open w.conn.ctx ≡ true) (no_error : RxClean w.conn.sock.rx)
    (type_fits : type < 2 ^ 32) (len_fits : length body < 2 ^ 32) (ts_fits : ts < 2 ^ 64) where
  abbrev stream : Bytes
  stream = payload w.conn.sock.rx

  abbrev header_got : ℤ × Bytes × Socket
  header_got = tcp_read_n w.conn.sock 16

  h1 : Reads w.conn.sock 16 header_got
  h1 = tcp_read_n-Reads w.conn.sock 16 no_error

  abbrev host_hdr : MsgHeader
  host_hdr = omni_msg_header_decode o (header_of_bytes o header_got.1)

  module _ (rest : Bytes) (arrives : stream ≡ network_header type (length body) ts ++ rest) where
    n1 : header_got.0 ≡ pos 16
    n1 =
        h1.returns
        ∙ ap (λ (t : Bytes). pos (min 16 (length t))) arrives
        ∙ ap pos (
            omega (
              arith,
              length-append (network_header type (length body) ts) rest,
              length-network_header type (length body) ts,
            ))

    got : header_got.1 ≡ network_header type (length body) ts
    got =
        h1.bytes
        ∙ ap (take 16) arrives
        ∙ take_of_append (network_header type (length body) ts) rest 16
            (sym (length-network_header type (length body) ts))

    left : payload header_got.2.rx ≡ rest
    left =
        h1.rest
        ∙ ap (drop 16) arrives
        ∙ drop_of_append (network_header type (length body) ts) rest 16
            (sym (length-network_header type (length body) ts))

    len : host_hdr.len ≡ length body
    len =
        ap (λ (t : Bytes). (omni_msg_header_decode o (header_of_bytes o t)).len) got
        ∙ ap (λ (h : MsgHeader). h.len)
            (decode-network_header o type (length body) ts type_fits len_fits ts_fits)

    -- If the payload is longer than the buffer, `tcp_recv` returns OMNI_ERR_PARAM with the buffer untouched,
    -- and has taken exactly the header: the payload is what the next read finds.
    pub tcp_recv_small :
        cap < length body
        → let (r, data_got, w') = tcp_recv o w cap in
          (r ≡ omni_err_param) × (data_got ≡ []) × (payload w'.conn.sock.rx ≡ rest)
    unfolding tcp_recv
    tcp_recv_small small =
        let t : ltb cap host_hdr.len ≡ true = ap (ltb cap) len ∙ lt→ltb cap (length body) small in
        rw (open_ctx, n1, t) (refl, refl, left)

  module _ (rest : Bytes) where
    frame_split :
        any_frame type ts body ++ rest ≡ network_header type (length body) ts ++ (body ++ rest)
    frame_split = append_assoc (network_header type (length body) ts) body rest

    -- On an open context, on which no later read meets an error, a whole frame that fits the buffer is returned with its length, whatever its type and timestamp and
    -- however the stream is cut; what follows the frame stays in the stream, and nothing is written.
    pub tcp_recv-frame :
        stream ≡ any_frame type ts body ++ rest
        → length body ≤ cap
        → let (r, data_got, w') = tcp_recv o w cap in
          (r ≡ pos (length body))
          × (data_got ≡ body)
          × (payload w'.conn.sock.rx ≡ rest)
          × RxClean w'.conn.sock.rx
          × (w'.conn.sock.sent ≡ w.conn.sock.sent)
          × (w'.conn.ctx ≡ w.conn.ctx)
    unfolding tcp_recv
    tcp_recv-frame arrives fits =
        let e = arrives ∙ frame_split in
        let l = len (body ++ rest) e in
        let h2 = tcp_read_n-Reads header_got.2 host_hdr.len h1.clean in
        let p = left (body ++ rest) e in
        let t : ltb cap host_hdr.len ≡ false = ap (ltb cap) l ∙ le→ltb cap (length body) fits in
        let n2 : (tcp_read_n header_got.2 host_hdr.len).0 ≡ pos host_hdr.len =
          h2.returns
          ∙ ap (λ (s : Bytes). pos (min host_hdr.len (length s))) p
          ∙ ap pos (omega (arith, l, length-append body rest)) in
        rw (open_ctx, n1 (body ++ rest) e, t, n2, ==_refl host_hdr.len)
          (
            ap pos l,
            h2.bytes ∙ ap (take host_hdr.len) p ∙ take_of_append body rest host_hdr.len l,
            h2.rest ∙ ap (drop host_hdr.len) p ∙ drop_of_append body rest host_hdr.len l,
            h2.clean,
            h2.same_sent ∙ h1.same_sent,
            refl,
          )

  length-frame : length (any_frame type ts body) ≡ 16 + length body
  length-frame =
      length-append (network_header type (length body) ts) body
      ∙ ap (λ n. n + length body) (length-network_header type (length body) ts)

  tcp_recv_short :
      (k : ℕ)
      → stream ≡ take k (any_frame type ts body)
      → k < 16
      → (tcp_recv o w cap).0 ≡ (if k == 0 then pos 0 else omni_err_io)
  unfolding tcp_recv
  tcp_recv_short k arrives short =
      let n1 : header_got.0 ≡ pos k =
        h1.returns
        ∙ ap (λ (t : Bytes). pos (min 16 (length t))) arrives
        ∙ ap pos (omega (arith, length-take k (any_frame type ts body), length-frame)) in
      rw (open_ctx, n1) (ground arith)

  tcp_recv_long :
      (k : ℕ)
      → stream ≡ network_header type (length body) ts ++ take k body
      → k < length body
      → length body ≤ cap
      → (tcp_recv o w cap).0 ≡ omni_err_io
  unfolding tcp_recv
  tcp_recv_long k e cut fits =
      let l = len (take k body) e in
      let h2 = tcp_read_n-Reads header_got.2 host_hdr.len h1.clean in
      let t : ltb cap host_hdr.len ≡ false = ap (ltb cap) l ∙ le→ltb cap (length body) fits in
      let n2 : (tcp_read_n header_got.2 host_hdr.len).0 ≡ pos k =
        h2.returns
        ∙ ap (λ (s : Bytes). pos (min host_hdr.len (length s))) (left (take k body) e)
        ∙ ap pos (omega (arith, l, length-take k body)) in
      let differ : (k == host_hdr.len) ≡ false =
        ap (λ n. k == n) l ∙ ne_of_lt k (length body) cut in
      rw (open_ctx, n1 (take k body) e, t, n2, differ) refl

  -- If the peer closes before a frame that fits the buffer is complete, `tcp_recv` returns 0 where nothing
  -- of the frame came and OMNI_ERR_IO where a part of it did.
  pub tcp_recv-cut :
      (k : ℕ)
      → stream ≡ take k (any_frame type ts body)
      → k < 16 + length body
      → length body ≤ cap
      → (tcp_recv o w cap).0 ≡ (if k == 0 then pos 0 else omni_err_io)
  tcp_recv-cut k arrives cut fits = elim (Bool-cases (ltb k 16)) [
    | inl short ↦ tcp_recv_short k arrives (ltb→lt k 16 short)
    | inr long ↦
        let n = length-network_header type (length body) ts in
        let z : (k == 0) ≡ false = ground arith in
        rw z (
          tcp_recv_long (k - 16)
            (arrives
              ∙ take_past (network_header type (length body) ts) body k (omega tests)
              ∙ ap (λ j. network_header type (length body) ts ++ take j body) (omega arith))
            (omega tests) fits)
  ]
