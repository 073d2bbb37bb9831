-- ===== src/Tcp/Reads.antt =====
-- What `tcp_read_n` returns, however the stream is cut into segments.
use omni_socket.Base.{
  ℕ, zero, suc, ◌+◌, ◌-◌, ◌≤◌, ◌<◌, min, ◌≡◌, refl, ap, ◌∙◌, sym, List, [], ◌∷◌, ◌++◌, Bytes,
  length, take, drop, ℤ, pos, negsuc, leb, arith, Bool-cases, leb→le, leb→lt, length-append,
  take-nil, drop-nil, tests, take_past, drop_past, take_within, drop_within, inl, inr, append-nil,
  append_assoc,
}
use omni_socket.Tcp.{read_loop, tcp_read_n}
use omni_socket.Tcp.ReadSteps.{
  sock_of, payload-leftover, RxClean-leftover, read_loop_done, read_loop_moved, read_loop_closed,
  read_loop_eintr, read_loop_fault, read-closed, read-interrupted, read-fits, read-over,
  read-broken,
}
use omni_socket.Tcp.Stream.{RxEvent, TxEvent, arrive, Socket, leftover, read, payload, RxClean}

-- The outcome of reading up to `n` bytes from `s`: as many as are still to come, in order, and the
-- rest of the stream stays.
pub record Reads (s : Socket) (n : ℕ) (out : ℤ × Bytes × Socket) : Type 0 where
  pub returns : out.0 ≡ pos (min n (length (payload s.rx)))
  pub bytes : out.1 ≡ take n (payload s.rx)
  pub rest : payload out.2.rx ≡ drop n (payload s.rx)
  pub clean : RxClean out.2.rx
  pub same_tx : out.2.tx ≡ s.tx
  pub same_sent : out.2.sent ≡ s.sent

-- The same from the middle of the loop, with `left` bytes to go.
record LoopReads (s : Socket) (off left : ℕ) (buf : Bytes) (out : ℤ × Bytes × Socket) : Type 0 where
  returns : out.0 ≡ pos (off + min left (length (payload s.rx)))
  bytes : out.1 ≡ buf ++ take left (payload s.rx)
  rest : payload out.2.rx ≡ drop left (payload s.rx)
  clean : RxClean out.2.rx
  same_tx : out.2.tx ≡ s.tx
  same_sent : out.2.sent ≡ s.sent

module _ (tx : List TxEvent) (sent : Bytes) where
  LoopReads-done :
      (rx : List RxEvent) (off : ℕ) (buf : Bytes)
      → RxClean rx
      → LoopReads (sock_of rx tx sent) off 0 buf (pos off, buf, sock_of rx tx sent)
  LoopReads-done rx off buf c = record {
    returns = ap pos (omega arith);
    bytes = sym (append-nil buf);
    rest = refl;
    clean = c;
    same_tx = refl;
    same_sent = refl;
  }

  LoopReads-closed :
      (off left : ℕ) (buf : Bytes)
      → LoopReads (sock_of [] tx sent) off left buf (pos off, buf, sock_of [] tx sent)
  LoopReads-closed off left buf = record {
    returns = ap pos (omega arith);
    bytes = sym (append-nil buf) ∙ ap (λ t. buf ++ t) (sym (take-nil left));
    rest = sym (drop-nil left);
    clean = tt;
    same_tx = refl;
    same_sent = refl;
  }

  LoopReads-interrupted :
      (rest : List RxEvent) (off left : ℕ) (buf : Bytes) (out : ℤ × Bytes × Socket)
      → LoopReads (sock_of rest tx sent) off (suc left) buf out
      → LoopReads (sock_of (RxEvent.interrupted ∷ rest) tx sent) off (suc left) buf out
  LoopReads-interrupted rest off left buf out h = record {
    returns = h.returns;
    bytes = h.bytes;
    rest = h.rest;
    clean = h.clean;
    same_tx = h.same_tx;
    same_sent = h.same_sent;
  }

  LoopReads-fits :
      (b : ℕ) (bs : Bytes) (rest : List RxEvent) (off left : ℕ) (buf : Bytes)
      (out : ℤ × Bytes × Socket)
      → suc (length bs) ≤ suc left
      → LoopReads
          (sock_of rest tx sent)
          (off + suc (length bs))
          (suc left - suc (length bs))
          (buf ++ b ∷ bs)
          out
      → LoopReads (sock_of (arrive b bs ∷ rest) tx sent) off (suc left) buf out
  LoopReads-fits b bs rest off left buf out fits h = record {
    returns = h.returns ∙ ap pos (omega (arith, length-append (b ∷ bs) (payload rest)));
    bytes =
        h.bytes
        ∙ append_assoc buf (b ∷ bs) _
        ∙ ap (λ t. buf ++ t) (sym (take_past (b ∷ bs) (payload rest) (suc left) fits));
    rest = h.rest ∙ sym (drop_past (b ∷ bs) (payload rest) (suc left) fits);
    clean = h.clean;
    same_tx = h.same_tx;
    same_sent = h.same_sent;
  }

  LoopReads-over :
      (b : ℕ) (bs : Bytes) (rest : List RxEvent) (off left : ℕ) (buf : Bytes)
      → suc left < suc (length bs)
      → RxClean rest
      → LoopReads (sock_of (arrive b bs ∷ rest) tx sent) off (suc left) buf (
        pos (off + suc left),
        buf ++ take (suc left) (b ∷ bs),
        sock_of (leftover (drop (suc left) (b ∷ bs)) rest) tx sent,
      )
  LoopReads-over b bs rest off left buf over c = record {
    returns = ap pos (omega (arith, length-append (b ∷ bs) (payload rest)));
    bytes = ap (λ t. buf ++ t) (sym (take_within (b ∷ bs) (payload rest) (suc left) (omega arith)));
    rest =
        payload-leftover (drop (suc left) (b ∷ bs)) rest
        ∙ sym (drop_within (b ∷ bs) (payload rest) (suc left) (omega arith));
    clean = RxClean-leftover (drop (suc left) (b ∷ bs)) rest c;
    same_tx = refl;
    same_sent = refl;
  }

  read_loop-LoopReads :
      (fuel : ℕ) (rx : List RxEvent) (n off left : ℕ) (buf : Bytes)
      → n ≡ off + left
      → length rx < fuel
      → RxClean rx
      → LoopReads (sock_of rx tx sent) off left buf (read_loop fuel (sock_of rx tx sent) n off buf)
  read_loop-LoopReads zero rx n off left buf e h c = absurd (omega arith)
  read_loop-LoopReads (suc fuel) rx n off zero buf e h c =
      let e' : n ≡ off = omega arith in
      rw e'
        (rw (read_loop_done (suc fuel) (sock_of rx tx sent) off buf) (LoopReads-done rx off buf c))
  read_loop-LoopReads (suc fuel) [] n off (suc left) buf e h c =
      rw (read_loop_closed fuel _ n off buf (omega arith) _ (read-closed tx sent (n - off)))
        (LoopReads-closed off (suc left) buf)
  read_loop-LoopReads (suc fuel) (arrive b bs ∷ rest) n off (suc left) buf e h c =
      let d : n - off ≡ suc left = omega arith in
      elim (Bool-cases (leb (suc (length bs)) (suc left))) [
        | inl fits ↦
            rw
              (read_loop_moved fuel _ n off buf (omega arith) (length bs) _ _
                (read-fits tx sent b bs rest (n - off) (omega tests)))
              (LoopReads-fits b bs rest off left buf _ (leb→le _ _ fits) (
                read_loop-LoopReads fuel rest n (off + suc (length bs)) (suc left - suc (length bs))
                  (buf ++ b ∷ bs) (omega tests) (omega arith) c))
        | inr over ↦
            rw
              (read_loop_moved fuel _ n off buf (omega arith) left _ _ (
                ap (read (sock_of (arrive b bs ∷ rest) tx sent)) d
                ∙ read-over tx sent b bs rest (suc left) (leb→lt _ _ over)))
              (rw (e, read_loop_done fuel _ (off + suc left) _)
                (LoopReads-over b bs rest off left buf (leb→lt _ _ over) c))
      ]
  read_loop-LoopReads (suc fuel) (RxEvent.interrupted ∷ rest) n off (suc left) buf e h c =
      rw
        (read_loop_eintr fuel _ n off buf (omega arith) _ (read-interrupted tx sent rest (n - off)))
        (LoopReads-interrupted rest off left buf _
          (read_loop-LoopReads fuel rest n off (suc left) buf e (omega arith) c))
  read_loop-LoopReads (suc fuel) (RxEvent.broken ∷ rest) n off (suc left) buf e h c = absurd c

module _ (tx : List TxEvent) (sent : Bytes) (post : List RxEvent) where
  -- what the error leaves: -1, and the stream behind the error
  abbrev Failed : ℤ × Bytes × Socket → Type 0
  Failed out = (out.0 ≡ negsuc 0) × (out.2 ≡ sock_of post tx sent)

  read_loop-Failed :
      (fuel : ℕ) (pre : List RxEvent) (n off : ℕ) (buf : Bytes)
      → off + length (payload pre) < n
      → length pre < fuel
      → RxClean pre
      → Failed (read_loop fuel (sock_of (pre ++ RxEvent.broken ∷ post) tx sent) n off buf)
  read_loop-Failed zero pre n off buf e h c = absurd (omega arith)
  read_loop-Failed (suc fuel) [] n off buf e h c =
      rw (read_loop_fault fuel _ n off buf (omega arith) _ (read-broken tx sent post (n - off)))
        (refl, refl)
  read_loop-Failed (suc fuel) (arrive b bs ∷ pre) n off buf e h c =
      let l = length-append bs (payload pre) in
      rw
        (read_loop_moved fuel _ n off buf (omega arith) (length bs) _ _
          (read-fits tx sent b bs (pre ++ RxEvent.broken ∷ post) (n - off) (omega arith)))
        (read_loop-Failed fuel pre n (off + suc (length bs)) (buf ++ b ∷ bs) (omega arith)
          (omega arith) c)
  read_loop-Failed (suc fuel) (RxEvent.interrupted ∷ pre) n off buf e h c =
      rw
        (read_loop_eintr fuel _ n off buf (omega arith) _
          (read-interrupted tx sent (pre ++ RxEvent.broken ∷ post) (n - off)))
        (read_loop-Failed fuel pre n off buf e (omega arith) c)
  read_loop-Failed (suc fuel) (RxEvent.broken ∷ pre) n off buf e h c = absurd c

-- With no error to come, `tcp_read_n` reads as many bytes as are still to come, up to `n`, however
-- the stream is cut into segments and wherever a call is interrupted, and leaves the others in the
-- stream; it writes nothing.
pub tcp_read_n-Reads : (s : Socket) (n : ℕ) → RxClean s.rx → Reads s n (tcp_read_n s n)
unfolding tcp_read_n
tcp_read_n-Reads s n c =
    let h =
      read_loop-LoopReads s.tx s.sent (suc (length s.rx)) s.rx n 0 n [] (omega arith) (omega arith)
        c in
    record {
      returns = h.returns ∙ ap pos (omega arith);
      bytes = h.bytes;
      rest = h.rest;
      clean = h.clean;
      same_tx = h.same_tx;
      same_sent = h.same_sent;
    }

-- If an error comes before `n` bytes have, `tcp_read_n` returns -1 and has used up the stream as far as
-- the error.
pub tcp_read_n-fault :
    (pre post : List RxEvent) (tx : List TxEvent) (sent : Bytes) (n : ℕ)
    → RxClean pre
    → length (payload pre) < n
    → let (r, _, s') = tcp_read_n (sock_of (pre ++ RxEvent.broken ∷ post) tx sent) n in
      (r ≡ negsuc 0) × (s' ≡ sock_of post tx sent)
unfolding tcp_read_n
tcp_read_n-fault pre post tx sent n c h =
    read_loop-Failed tx sent post (suc (length (pre ++ RxEvent.broken ∷ post))) pre n 0 []
      (omega arith) (omega (arith, length-append pre (RxEvent.broken ∷ post))) c
