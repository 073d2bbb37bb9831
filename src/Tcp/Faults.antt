-- ===== src/Tcp/Faults.antt =====
-- What `tcp_read_n` of src/protocols/tcp_impl.c returns where an error may come.
use omni_socket.Base.{
  ℕ, zero, suc, ◌+◌, ◌-◌, ◌≤◌, ◌<◌, ◌≡◌, refl, ap, ◌∙◌, sym, List, [], ◌∷◌, ◌++◌, Bytes, length,
  take, drop, ℤ, pos, negsuc, leb, arith, Bool-cases, leb→le, leb→lt, length-append, tests,
  take_past, drop_past, take_within, drop_within, inl, inr, append-nil, append_assoc,
}
use omni_socket.Tcp.{read_loop, tcp_read_n}
use omni_socket.Tcp.ReadSteps.{
  sock_of, read_loop_done, read_loop_moved, read_loop_closed, read_loop_eintr, read_loop_fault,
  read-closed, read-interrupted, read-fits, read-over, read-broken,
}
use omni_socket.Tcp.Stream.{RxEvent, TxEvent, arrive, Socket, leftover, read}

-- The bytes that come before the first error.
abbrev pub good : List RxEvent → Bytes
good [] = []
good (arrive b bs ∷ rest) = b ∷ (bs ++ good rest)
good (RxEvent.interrupted ∷ rest) = good rest
good (RxEvent.broken ∷ rest) = []

good-leftover : (cs : Bytes) (rest : List RxEvent) → good (leftover cs rest) ≡ cs ++ good rest
good-leftover [] rest = refl
good-leftover (c ∷ cs) rest = refl

-- The outcome of reading `left` more bytes behind `off` ones, with `g` to come before the first error: they were there;
-- an error; or the peer has closed before.
pub data Got (g : Bytes) (off left : ℕ) (buf : Bytes) (out : ℤ × Bytes × Socket) : Type 0 where
  full :
      left ≤ length g
      → out.0 ≡ pos (off + left)
      → out.1 ≡ buf ++ take left g
      → good out.2.rx ≡ drop left g
      → Got g off left buf out
  failed : out.0 ≡ negsuc 0 → Got g off left buf out
  ended :
      length g < left → out.0 ≡ pos (off + length g) → good out.2.rx ≡ [] → Got g off left buf out

module _ (tx : List TxEvent) (sent : Bytes) where
  Got-fits :
      (b : ℕ) (bs g : Bytes) (off left : ℕ) (buf : Bytes) (out : ℤ × Bytes × Socket)
      → suc (length bs) ≤ suc left
      → Got g (off + suc (length bs)) (suc left - suc (length bs)) (buf ++ b ∷ bs) out
      → Got (b ∷ (bs ++ g)) off (suc left) buf out
  Got-fits b bs g off left buf out fits h =
      let l = length-append bs g in
      elim h [
        | full enough n bytes rest ↦
            full (omega (arith, l)) (n ∙ ap pos (omega arith))
              (bytes
                ∙ append_assoc buf (b ∷ bs) (take (suc left - suc (length bs)) g)
                ∙ ap (λ t. buf ++ t) (sym (take_past (b ∷ bs) g (suc left) fits)))
              (rest ∙ sym (drop_past (b ∷ bs) g (suc left) fits))
        | failed n ↦ failed n
        | ended short n none_left ↦
            ended (omega (arith, l)) (n ∙ ap pos (omega (arith, l))) none_left
      ]

  Got-over :
      (b : ℕ) (bs : Bytes) (rest : List RxEvent) (off left : ℕ) (buf : Bytes)
      → suc left < suc (length bs)
      → Got (b ∷ (bs ++ good rest)) off (suc left) buf (
        pos (off + suc left),
        buf ++ take (suc left) (b ∷ bs),
        sock_of (leftover (drop (suc left) (b ∷ bs)) rest) tx sent,
      )
  Got-over b bs rest off left buf over =
      full (omega (arith, length-append bs (good rest))) refl
        (ap (λ t. buf ++ t) (sym (take_within (b ∷ bs) (good rest) (suc left) (omega arith))))
        (good-leftover (drop (suc left) (b ∷ bs)) rest
          ∙ sym (drop_within (b ∷ bs) (good rest) (suc left) (omega arith)))

  read_loop-Got :
      (fuel : ℕ) (rx : List RxEvent) (n off left : ℕ) (buf : Bytes)
      → n ≡ off + left
      → length rx < fuel
      → Got (good rx) off left buf (read_loop fuel (sock_of rx tx sent) n off buf)
  read_loop-Got zero rx n off left buf e h = absurd (omega arith)
  read_loop-Got (suc fuel) rx n off zero buf e h =
      let e' : n ≡ off = omega arith in
      rw e' (
        rw (read_loop_done (suc fuel) (sock_of rx tx sent) off buf)
          (full (omega arith) (ap pos (omega arith)) (sym (append-nil buf)) refl))
  read_loop-Got (suc fuel) [] n off (suc left) buf e h =
      rw (read_loop_closed fuel _ n off buf (omega arith) _ (read-closed tx sent (n - off)))
        (ended (omega arith) (ap pos (omega arith)) refl)
  read_loop-Got (suc fuel) (arrive b bs ∷ rest) n off (suc left) buf e h =
      let d : n - off ≡ suc left = omega arith in
      elim (Bool-cases (leb (suc (length bs)) (suc left))) [
        | inl fits ↦
            rw
              (read_loop_moved fuel _ n off buf (omega arith) (length bs) _ _
                (read-fits tx sent b bs rest (n - off) (omega tests)))
              (Got-fits b bs (good rest) off left buf _ (leb→le _ _ fits) (
                read_loop-Got fuel rest n (off + suc (length bs)) (suc left - suc (length bs))
                  (buf ++ b ∷ bs) (omega tests) (omega arith)))
        | inr over ↦
            rw
              (read_loop_moved fuel _ n off buf (omega arith) left _ _ (
                ap (read (sock_of (arrive b bs ∷ rest) tx sent)) d
                ∙ read-over tx sent b bs rest (suc left) (leb→lt _ _ over)))
              (rw (e, read_loop_done fuel _ (off + suc left) _)
                (Got-over b bs rest off left buf (leb→lt _ _ over)))
      ]
  read_loop-Got (suc fuel) (RxEvent.interrupted ∷ rest) n off (suc left) buf e h =
      rw
        (read_loop_eintr fuel _ n off buf (omega arith) _ (read-interrupted tx sent rest (n - off)))
        (read_loop-Got fuel rest n off (suc left) buf e (omega arith))
  read_loop-Got (suc fuel) (RxEvent.broken ∷ rest) n off (suc left) buf e h =
      rw (read_loop_fault fuel _ n off buf (omega arith) _ (read-broken tx sent rest (n - off)))
        (failed refl)

-- `tcp_read_n` takes `n` of the bytes that come before the first error, if there are so many; if not, it fails, or the
-- peer has closed before.
pub tcp_read_n-Got : (s : Socket) (n : ℕ) → Got (good s.rx) 0 n [] (tcp_read_n s n)
unfolding tcp_read_n
tcp_read_n-Got s n =
    read_loop-Got s.tx s.sent (suc (length s.rx)) s.rx n 0 n [] (omega arith) (omega arith)
