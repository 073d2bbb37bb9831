-- ===== src/Tcp/ReadSteps.antt =====
-- The rounds of the loop of `tcp_read_n`, and what `read` returns on each kind of event.
use omni_socket.Base.{
  ℕ, zero, suc, ◌+◌, ◌-◌, ◌≤◌, ◌<◌, ◌≡◌, refl, List, [], ◌∷◌, ◌++◌, Bytes, length, take, drop, pos,
  negsuc, arith, lt→ltb, le→leb, lt→leb,
}
use omni_socket.Tcp.{read_loop}
use omni_socket.Tcp.Stream.{
  RxEvent, TxEvent, arrive, Socket, moved, eintr, fault, leftover, read, payload, RxClean,
}

pub payload-leftover :
    (cs : Bytes) (rest : List RxEvent) → payload (leftover cs rest) ≡ cs ++ payload rest
payload-leftover [] rest = refl
payload-leftover (c ∷ cs) rest = refl

pub RxClean-leftover :
    (cs : Bytes) (rest : List RxEvent) → RxClean rest → RxClean (leftover cs rest)
RxClean-leftover [] rest h = h
RxClean-leftover (c ∷ cs) rest h = h

pub read_loop_done :
    (fuel : ℕ) (s : Socket) (n : ℕ) (buf : Bytes) → read_loop fuel s n n buf ≡ (pos n, buf, s)
unfolding read_loop
read_loop_done zero s n buf = refl
read_loop_done (suc fuel) s n buf = ground arith

-- One round of the loop, by what `read` returned.
module _ (fuel : ℕ) (s : Socket) (n off : ℕ) (buf : Bytes) (more : off < n) where
  pub read_loop_moved :
      (k : ℕ) (got : Bytes) (s' : Socket)
      → read s (n - off) ≡ (moved (suc k), got, s')
      → read_loop (suc fuel) s n off buf ≡ read_loop fuel s' n (off + suc k) (buf ++ got)
  unfolding read_loop
  read_loop_moved k got s' e = let t = lt→ltb off n more in ground arith

  pub read_loop_closed :
      (s' : Socket)
      → read s (n - off) ≡ (moved 0, [], s')
      → read_loop (suc fuel) s n off buf ≡ (pos off, buf, s')
  unfolding read_loop
  read_loop_closed s' e = let t = lt→ltb off n more in ground arith

  pub read_loop_eintr :
      (s' : Socket)
      → read s (n - off) ≡ (eintr, [], s')
      → read_loop (suc fuel) s n off buf ≡ read_loop fuel s' n off buf
  unfolding read_loop
  read_loop_eintr s' e = let t = lt→ltb off n more in ground arith

  pub read_loop_fault :
      (s' : Socket)
      → read s (n - off) ≡ (fault, [], s')
      → read_loop (suc fuel) s n off buf ≡ (negsuc 0, buf, s')
  unfolding read_loop
  read_loop_fault s' e = let t = lt→ltb off n more in ground arith

abbrev pub sock_of : List RxEvent → List TxEvent → Bytes → Socket
sock_of rx tx sent = record { rx = rx; tx = tx; sent = sent }

module _ (tx : List TxEvent) (sent : Bytes) where
  pub read-closed : (m : ℕ) → read (sock_of [] tx sent) m ≡ (moved 0, [], sock_of [] tx sent)
  unfolding read
  read-closed m = refl

  pub read-interrupted :
      (rest : List RxEvent) (m : ℕ)
      → read (sock_of (RxEvent.interrupted ∷ rest) tx sent) m ≡ (eintr, [], sock_of rest tx sent)
  unfolding read
  read-interrupted rest m = refl

  pub read-fits :
      (b : ℕ) (bs : Bytes) (rest : List RxEvent) (m : ℕ)
      → suc (length bs) ≤ m
      → read (sock_of (arrive b bs ∷ rest) tx sent) m
        ≡ (moved (suc (length bs)), b ∷ bs, sock_of rest tx sent)
  unfolding read
  read-fits b bs rest m h = let t = le→leb (suc (length bs)) m h in rw t

  pub read-over :
      (b : ℕ) (bs : Bytes) (rest : List RxEvent) (m : ℕ)
      → m < suc (length bs)
      → read (sock_of (arrive b bs ∷ rest) tx sent) m
        ≡ (moved m, take m (b ∷ bs), sock_of (leftover (drop m (b ∷ bs)) rest) tx sent)
  unfolding read
  read-over b bs rest m h = let t = lt→leb (suc (length bs)) m h in rw t

  pub read-broken :
      (post : List RxEvent) (m : ℕ)
      → read (sock_of (RxEvent.broken ∷ post) tx sent) m ≡ (fault, [], sock_of post tx sent)
  unfolding read
  read-broken post m = refl
