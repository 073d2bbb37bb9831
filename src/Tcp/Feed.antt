-- ===== src/Tcp/Feed.antt =====
-- The messages that `tcp_recv` of src/protocols/tcp_impl.c takes from a stream that is cut or meets an error.
use omni_socket.App.Feed.{Source, Given, failed, nothing, message}
use omni_socket.Base.{
  ℕ, suc, ◌+◌, ◌^◌, ◌<◌, ◌≤◌, ◌≡◌, refl, ap, ◌∙◌, sym, subst, ◌++◌, [], ◌∷◌, List, Bytes, length,
  take, drop, ℤ, pos, negsuc, is_negative, eqb_ℤ, true, false, ltb, ==_refl, le→ltb, lt→ltb, arith,
  append_assoc, take_within, drop_within, take_of_append, drop_of_append, length-append, Bool-cases,
  inl, inr, ne_of_lt, ==_iff, ◌-◌, All, ◌==◌,
}
use omni_socket.Runtime.{World}
use omni_socket.Tcp.{TcpConn, is_open, tcp_read_n, tcp_recv}
use omni_socket.Tcp.Faults.{good, Got, full, ended, tcp_read_n-Got}
use omni_socket.Tcp.Frames.{Framed, no_frame, frame, Starts}
use omni_socket.Tcp.Receives.{any_frame}
use omni_socket.Tcp.Stream.{Socket}
use omni_socket.Wire.{ByteOrder, MsgHeader, msg_type_raw, omni_msg_header_decode, header_of_bytes}
use omni_socket.Wire.RoundTrip.{network_header, length-network_header, decode-network_header}

-- One call of `tcp_recv` before frames that are cut or meet an error.
module _ (o : ByteOrder) (w : World TcpConn) (cap : ℕ) (opened : is_open w.conn.ctx ≡ true) where
  abbrev header_got : ℤ × Bytes × Socket
  header_got = tcp_read_n w.conn.sock 16

  abbrev host_hdr : MsgHeader
  host_hdr = omni_msg_header_decode o (header_of_bytes o header_got.1)

  abbrev body_got : ℤ × Bytes × Socket
  body_got = tcp_read_n header_got.2 host_hdr.len

  abbrev Hands : List Bytes → Type 0
  Hands ms =
      Given TcpConn (λ c ms. (is_open c.ctx ≡ true) × Starts ms (good c.sock.rx)) ms
        (tcp_recv o w cap)

  -- The header could not be read.
  tcp_recv_failed : header_got.0 ≡ negsuc 0 → is_negative (tcp_recv o w cap).0 ≡ true
  unfolding tcp_recv
  tcp_recv_failed n = rw (opened, n) refl

  -- The peer has closed in the middle of a header.
  tcp_recv_short :
      (k : ℕ) → header_got.0 ≡ pos (suc k) → suc k < 16 → is_negative (tcp_recv o w cap).0 ≡ true
  unfolding tcp_recv
  tcp_recv_short k n short =
      let t = ne_of_lt (suc k) 16 short in
      let positive : ltb 0 (suc k) ≡ true = lt→ltb 0 (suc k) (omega arith) in
      rw (opened, n, positive, t) refl

  -- The peer has closed.
  tcp_recv_closed :
      header_got.0 ≡ pos 0
      → let (r, _, w') = tcp_recv o w cap in
        (r ≡ pos 0) × (is_open w'.conn.ctx ≡ true) × (w'.conn.sock ≡ header_got.2)
  unfolding tcp_recv
  tcp_recv_closed n = rw (opened, n) (refl, opened, refl)

  -- The header was read, and all of the payload.
  tcp_recv_all :
      (len : ℕ)
      → header_got.0 ≡ pos 16
      → host_hdr.len ≡ len
      → len ≤ cap
      → body_got.0 ≡ pos len
      → let (r, body, w') = tcp_recv o w cap in
        (r ≡ pos len)
        × (body ≡ body_got.1)
        × (is_open w'.conn.ctx ≡ true)
        × (w'.conn.sock ≡ body_got.2)
  unfolding tcp_recv
  tcp_recv_all len n l fits n2 =
      let t : ltb cap host_hdr.len ≡ false = ap (ltb cap) l ∙ le→ltb cap len fits in
      let n2' : body_got.0 ≡ pos host_hdr.len = n2 ∙ ap pos (sym l) in
      rw (opened, n, t, n2', ==_refl host_hdr.len) (ap pos l, refl, opened, refl)

  -- The header was read, but not all of the payload.
  tcp_recv_part :
      (len : ℕ)
      → header_got.0 ≡ pos 16
      → host_hdr.len ≡ len
      → len ≤ cap
      → eqb_ℤ body_got.0 (pos len) ≡ false
      → is_negative (tcp_recv o w cap).0 ≡ true
  unfolding tcp_recv
  tcp_recv_part len n l fits n2 =
      let t : ltb cap host_hdr.len ≡ false = ap (ltb cap) l ∙ le→ltb cap len fits in
      let n2' : eqb_ℤ body_got.0 (pos host_hdr.len) ≡ false =
        ap (λ k. eqb_ℤ body_got.0 (pos k)) l ∙ n2 in
      rw (opened, n, t, n2') refl

  -- The stream before the header, seen from the frame that it is a beginning of.
  module _ (m s' rest : Bytes) (t : ℕ) (time_fits : t < 2 ^ 64) (m_fits : length m < 2 ^ 32)
      (there : 16 ≤ length (good w.conn.sock.rx))
      (arrives : good w.conn.sock.rx ++ rest ≡ any_frame msg_type_raw t m ++ s') where
    abbrev hdr : Bytes
    hdr = network_header msg_type_raw (length m) t

    split : good w.conn.sock.rx ++ rest ≡ hdr ++ (m ++ s')
    split = arrives ∙ append_assoc hdr m s'

    length-hdr : 16 ≡ length hdr
    length-hdr = sym (length-network_header msg_type_raw (length m) t)

    first : take 16 (good w.conn.sock.rx) ≡ hdr
    first =
        sym (take_within (good w.conn.sock.rx) rest 16 there)
        ∙ ap (take 16) split
        ∙ take_of_append hdr (m ++ s') 16 length-hdr

    behind : drop 16 (good w.conn.sock.rx) ++ rest ≡ m ++ s'
    behind =
        sym (drop_within (good w.conn.sock.rx) rest 16 there)
        ∙ ap (drop 16) split
        ∙ drop_of_append hdr (m ++ s') 16 length-hdr

    host_hdr-len : header_got.1 ≡ take 16 (good w.conn.sock.rx) → host_hdr.len ≡ length m
    host_hdr-len bytes =
        ap (λ b. (omni_msg_header_decode o (header_of_bytes o b)).len) (bytes ∙ first)
        ∙ ap (λ (h : MsgHeader). h.len)
            (decode-network_header o msg_type_raw (length m) t (omega arith) m_fits time_fits)

    -- The payload, of which `g` is there.
    Hands-frame :
        (ms ms' : List Bytes) (g : Bytes)
        → ms ≡ m ∷ ms'
        → ((s : Bytes) → s ++ rest ≡ s' → Starts ms' s)
        → length m ≤ cap
        → header_got.0 ≡ pos 16
        → host_hdr.len ≡ length m
        → g ++ rest ≡ m ++ s'
        → Got g 0 (length m) [] body_got
        → Hands ms
    Hands-frame ms ms' g em go_on fits n l b got = elim got [
      | Got.failed n2 ↦
          failed (tcp_recv_part (length m) n l fits (ap (λ k. eqb_ℤ k (pos (length m))) n2))
      | ended short n2 none_left ↦
          let plus : 0 + length g ≡ length g = omega arith in
          failed (
            tcp_recv_part (length m) n l fits (
              ap (λ k. eqb_ℤ k (pos (length m))) (n2 ∙ ap pos plus)
              ∙ ne_of_lt (length g) (length m) short))
      | full enough n2 bytes left ↦
          let (r, body, open', sock) =
            tcp_recv_all (length m) n l fits (n2 ∙ ap pos (omega arith)) in
          let got_m : take (length m) g ≡ m =
            sym (take_within g rest (length m) enough)
            ∙ ap (take (length m)) b
            ∙ take_of_append m s' (length m) refl in
          let left_s : drop (length m) g ++ rest ≡ s' =
            sym (drop_within g rest (length m) enough)
            ∙ ap (drop (length m)) b
            ∙ drop_of_append m s' (length m) refl in
          message m ms' em r (body ∙ bytes ∙ got_m) (
            open',
            go_on (good (tcp_recv o w cap).2.conn.sock.rx)
                (ap (λ (s : Socket). good s.rx ++ rest) sock ∙ ap (λ x. x ++ rest) left ∙ left_s),
          )
    ]

  length_zero : (g : Bytes) → length g ≡ 0 → [] ≡ g
  length_zero [] e = refl
  length_zero (b ∷ bs) e = absurd (omega arith)

  -- The peer has closed, in the middle of a header or before it.
  Hands-ended :
      (ms : List Bytes)
      → Starts ms (good w.conn.sock.rx)
      → length (good w.conn.sock.rx) < 16
      → header_got.0 ≡ pos (length (good w.conn.sock.rx))
      → good header_got.2.rx ≡ []
      → Hands ms
  Hands-ended ms starts short n none_left = elim (Bool-cases (length (good w.conn.sock.rx) == 0)) [
    | inl zero_left ↦
        let z : length (good w.conn.sock.rx) ≡ 0 =
          omega (arith, (==_iff (length (good w.conn.sock.rx)) 0).0 zero_left) in
        let (r, open', sock) = tcp_recv_closed (n ∙ ap pos z) in
        nothing r (
          open',
          subst (Starts ms)
              (sym (
                ap (λ (s : Socket). good s.rx) sock
                ∙ none_left
                ∙ length_zero (good w.conn.sock.rx) z))
              starts,
        )
    | inr some_left ↦
        let k = length (good w.conn.sock.rx) - 1 in
        let e : length (good w.conn.sock.rx) ≡ suc k = ground arith in
        failed (tcp_recv_short k (n ∙ ap pos e) (omega arith))
  ]

  pub tcp_recv-Hands :
      (ms : List Bytes) → All (λ m. length m ≤ cap) ms → Starts ms (good w.conn.sock.rx) → Hands ms
  tcp_recv-Hands ms fit starts =
      let g = good w.conn.sock.rx in
      let (pre, post, rest, e, framed) = starts in
      elim (tcp_read_n-Got w.conn.sock 16) [
        | Got.failed n ↦ failed (tcp_recv_failed n)
        | ended short n none_left ↦
            let plus : 0 + length g ≡ length g = omega arith in
            Hands-ended ms starts short (n ∙ ap pos plus) none_left
        | full enough n bytes left ↦ elim framed [
          | no_frame em es ↦
              absurd (omega (arith, length-append g rest, ap (λ (b : Bytes). length b) es))
          | frame m s' ms' t ht hm em es more ↦
              let l = host_hdr-len m s' rest t ht hm enough es bytes in
              let em' : ms ≡ m ∷ (ms' ++ post) = e ∙ ap (λ x. x ++ post) em in
              Hands-frame m s' rest t ht hm enough es ms (ms' ++ post) (drop 16 g) em'
                (λ s cut. (ms', post, rest, refl, subst (Framed ms') (sym cut) more))
                (subst (All (λ m. length m ≤ cap)) em' fit).0 n l
                (behind m s' rest t ht hm enough es)
                (subst (λ b. Got b 0 (length m) [] body_got) left
                  (subst (λ k. Got (good header_got.2.rx) 0 k [] body_got) l
                    (tcp_read_n-Got header_got.2 host_hdr.len)))
        ]
      ]

-- The messages of frames come up whole, up to the place where the stream is cut or an error comes.
abbrev pub tcp_source : (o : ByteOrder) → Source TcpConn (tcp_recv o)
tcp_source o = record {
  Holds = λ c ms. (is_open c.ctx ≡ true) × Starts ms (good c.sock.rx);
  gives = λ w cap ms fit (opened, starts). tcp_recv-Hands o w cap opened ms fit starts;
}
