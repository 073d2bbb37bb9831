-- ===== src/Tcp/Writes.antt =====
-- What `tcp_write_n` puts on the stream, however few bytes each call of `write` takes.
use omni_socket.Base.{
  ℕ, zero, suc, ◌+◌, ◌≤◌, ◌<◌, min, ◌≡◌, refl, ap, ◌∙◌, sym, subst, ◌⊎◌, inl, inr, List, [], ◌∷◌,
  ◌++◌, Bytes, length, take, drop, ℤ, pos, negsuc, ltb, lt→ltb, le→ltb, ltb→lt, tests, arith,
  Bool-cases, append-nil, append_assoc, length-drop, take-append-drop, drop-drop, take-append-take,
  drop_all,
}
use omni_socket.Tcp.{write_loop, tcp_write_n}
use omni_socket.Tcp.Stream.{RxEvent, TxEvent, room, Socket, moved, eintr, fault, write, TxClean}

-- Writing the whole of `buf` and returning its length, or -1 after a proper prefix of it.
abbrev pub WroteAll : Socket → Bytes → ℤ × Socket → Type 0
WroteAll s buf out = (out.0 ≡ pos (length buf)) × (out.1.sent ≡ s.sent ++ buf)

abbrev pub WrotePart : Socket → Bytes → ℤ × Socket → Type 0
WrotePart s buf out =
    (out.0 ≡ negsuc 0) × (k : ℕ) × (k < length buf) × (out.1.sent ≡ s.sent ++ take k buf)

pub record Wrote (s : Socket) (buf : Bytes) (out : ℤ × Socket) : Type 0 where
  pub outcome : WroteAll s buf out ⊎ WrotePart s buf out
  pub clean : TxClean s.tx → WroteAll s buf out × TxClean out.1.tx
  pub same_rx : out.1.rx ≡ s.rx

-- The same from the middle of the loop.
record LoopWrote (s : Socket) (buf : Bytes) (off : ℕ) (out : ℤ × Socket) : Type 0 where
  outcome :
      (out.0 ≡ pos (length buf)) × (out.1.sent ≡ s.sent ++ drop off buf)
      ⊎ (out.0 ≡ negsuc 0)
        × (k : ℕ) × (off + k < length buf)
        × (out.1.sent ≡ s.sent ++ take k (drop off buf))
  clean :
      TxClean s.tx
      → (out.0 ≡ pos (length buf)) × (out.1.sent ≡ s.sent ++ drop off buf) × TxClean out.1.tx
  same_rx : out.1.rx ≡ s.rx

-- One round of the loop, by what `write` returned.
module _ (fuel : ℕ) (s : Socket) (buf : Bytes) (off : ℕ) (more : off < length buf) where
  write_loop_moved :
      (k : ℕ) (s' : Socket)
      → write s (drop off buf) ≡ (moved k, s')
      → write_loop (suc fuel) s buf off ≡ write_loop fuel s' buf (off + k)
  unfolding write_loop
  write_loop_moved k s' e = let t = lt→ltb off (length buf) more in ground arith

  write_loop_eintr :
      (s' : Socket)
      → write s (drop off buf) ≡ (eintr, s')
      → write_loop (suc fuel) s buf off ≡ write_loop fuel s' buf off
  unfolding write_loop
  write_loop_eintr s' e = let t = lt→ltb off (length buf) more in ground arith

  write_loop_fault :
      (s' : Socket)
      → write s (drop off buf) ≡ (fault, s')
      → write_loop (suc fuel) s buf off ≡ (negsuc 0, s')
  unfolding write_loop
  write_loop_fault s' e = let t = lt→ltb off (length buf) more in ground arith

write_loop_done :
    (fuel : ℕ) (s : Socket) (buf : Bytes) (off : ℕ)
    → off ≡ length buf
    → write_loop fuel s buf off ≡ (pos (length buf), s)
unfolding write_loop
write_loop_done zero s buf off e = ap (λ k. (pos k, s)) e
write_loop_done (suc fuel) s buf off e =
    let t = le→ltb off (length buf) (omega arith) in ground arith

LoopWrote-done :
    (s : Socket) (buf : Bytes) (off : ℕ)
    → off ≡ length buf
    → LoopWrote s buf off (pos (length buf), s)
LoopWrote-done s buf off e = record {
  outcome = inl (refl, sent);
  clean = λ c. (refl, sent, c);
  same_rx = refl;
}
  where
    sent : s.sent ≡ s.sent ++ drop off buf
    sent = sym (ap (λ t. s.sent ++ t) (drop_all off buf (omega arith)) ∙ append-nil s.sent)

-- After `m` more bytes the rest of the loop does what is left.
module _ (s s' : Socket) (buf : Bytes) (off m : ℕ) {out : ℤ × Socket} where
  LoopWrote-advance :
      s'.sent ≡ s.sent ++ take m (drop off buf)
      → s'.rx ≡ s.rx
      → (TxClean s.tx → TxClean s'.tx)
      → LoopWrote s' buf (off + m) out
      → LoopWrote s buf off out
  LoopWrote-advance es er ec h = record {
    outcome = elim (h.outcome) [
      | inl whole ↦ inl (whole.0, whole.1 ∙ all_sent)
      | inr part ↦ inr (part.0, m + part.1, omega arith, part.3 ∙ part_sent part.1)
    ];
    clean = λ c. let d = h.clean (ec c) in (d.0, d.1 ∙ all_sent, d.2);
    same_rx = h.same_rx ∙ er;
  }
    where
      part_sent :
          (k : ℕ) → s'.sent ++ take k (drop (off + m) buf) ≡ s.sent ++ take (m + k) (drop off buf)
      part_sent k =
          ap (λ t. t ++ take k (drop (off + m) buf)) es
          ∙ append_assoc s.sent _ _
          ∙ ap (λ t. s.sent ++ (take m (drop off buf) ++ take k t)) (sym (drop-drop off m buf))
          ∙ ap (λ t. s.sent ++ t) (take-append-take m k (drop off buf))

      all_sent : s'.sent ++ drop (off + m) buf ≡ s.sent ++ drop off buf
      all_sent =
          ap (λ t. t ++ drop (off + m) buf) es
          ∙ append_assoc s.sent _ _
          ∙ ap (λ t. s.sent ++ (take m (drop off buf) ++ t)) (sym (drop-drop off m buf))
          ∙ ap (λ t. s.sent ++ t) (take-append-drop m (drop off buf))

LoopWrote-eintr :
    (s s' : Socket) (buf : Bytes) (off : ℕ) {out : ℤ × Socket}
    → s'.sent ≡ s.sent
    → s'.rx ≡ s.rx
    → (TxClean s.tx → TxClean s'.tx)
    → LoopWrote s' buf off out
    → LoopWrote s buf off out
LoopWrote-eintr s s' buf off {out} es er ec h =
    LoopWrote-advance s s' buf off 0 (es ∙ sym (append-nil s.sent)) er ec
      (subst (λ k. LoopWrote s' buf k out) (omega arith) h)

LoopWrote-fault :
    (s s' : Socket) (buf : Bytes) (off : ℕ)
    → off < length buf
    → s'.sent ≡ s.sent
    → s'.rx ≡ s.rx
    → ¬ (TxClean s.tx)
    → LoopWrote s buf off (negsuc 0, s')
LoopWrote-fault s s' buf off more es er dirty = record {
  outcome = inr (refl, 0, omega arith, es ∙ sym (append-nil s.sent));
  clean = λ c. absurd (dirty c);
  same_rx = er;
}

abbrev sock_of : List RxEvent → List TxEvent → Bytes → Socket
sock_of rx tx sent = record { rx = rx; tx = tx; sent = sent }

module _ (rx : List RxEvent) (buf : Bytes) where
  write-room :
      (k : ℕ) (tx : List TxEvent) (sent rest : Bytes)
      → write (sock_of rx (room k ∷ tx) sent) rest ≡ (
        moved (min (suc k) (length rest)),
        sock_of rx tx (sent ++ take (min (suc k) (length rest)) rest),
      )
  unfolding write
  write-room k tx sent rest = refl

  write-free :
      (sent rest : Bytes)
      → write (sock_of rx [] sent) rest
        ≡ (moved (length rest), sock_of rx [] (sent ++ take (length rest) rest))
  unfolding write
  write-free sent rest = refl

  write-interrupted :
      (tx : List TxEvent) (sent rest : Bytes)
      → write (sock_of rx (TxEvent.interrupted ∷ tx) sent) rest
        ≡ (eintr, sock_of rx tx (sent ++ []))
  unfolding write
  write-interrupted tx sent rest = refl

  write-broken :
      (tx : List TxEvent) (sent rest : Bytes)
      → write (sock_of rx (TxEvent.broken ∷ tx) sent) rest ≡ (fault, sock_of rx tx (sent ++ []))
  unfolding write
  write-broken tx sent rest = refl

  -- The loop is done, or there is a round.
  write_loop-cases :
      (fuel : ℕ) (s : Socket) (off : ℕ)
      → off ≤ length buf
      → (off < length buf → LoopWrote s buf off (write_loop (suc fuel) s buf off))
      → LoopWrote s buf off (write_loop (suc fuel) s buf off)
  write_loop-cases fuel s off h round = elim (Bool-cases (ltb off (length buf))) [
    | inr done ↦
        rw (write_loop_done (suc fuel) s buf off (omega tests))
          (LoopWrote-done s buf off (omega tests))
    | inl more ↦ round (ltb→lt _ _ more)
  ]

  write_loop-LoopWrote :
      (fuel : ℕ) (tx : List TxEvent) (sent : Bytes) (off : ℕ)
      → off ≤ length buf
      → length tx < fuel
      → LoopWrote (sock_of rx tx sent) buf off (write_loop fuel (sock_of rx tx sent) buf off)
  write_loop-LoopWrote zero tx sent off h f = absurd (omega arith)
  write_loop-LoopWrote (suc fuel) [] sent off h f = write_loop-cases fuel _ off h λ more.
      rw (write_loop_moved fuel _ buf off more _ _ (write-free sent (drop off buf))) (
        LoopWrote-advance (sock_of rx [] sent)
          (sock_of rx [] (sent ++ take (length (drop off buf)) (drop off buf))) buf off
          (length (drop off buf)) refl refl (λ c. c)
          (rw
            (write_loop_done fuel
              (sock_of rx [] (sent ++ take (length (drop off buf)) (drop off buf))) buf
              (off + length (drop off buf)) (omega (arith, length-drop off buf)))
            (LoopWrote-done _ buf _ (omega (arith, length-drop off buf)))))
  write_loop-LoopWrote (suc fuel) (room k ∷ tx) sent off h f = write_loop-cases fuel _ off h λ more.
      rw (write_loop_moved fuel _ buf off more _ _ (write-room k tx sent (drop off buf))) (
        LoopWrote-advance (sock_of rx (room k ∷ tx) sent) _ buf off
          (min (suc k) (length (drop off buf))) refl refl (λ c. c)
          (write_loop-LoopWrote fuel tx _ _ (omega (arith, length-drop off buf)) (omega arith)))
  write_loop-LoopWrote (suc fuel) (TxEvent.interrupted ∷ tx) sent off h f =
      write_loop-cases fuel _ off h λ more.
        rw (write_loop_eintr fuel _ buf off more _ (write-interrupted tx sent (drop off buf))) (
          LoopWrote-eintr (sock_of rx (TxEvent.interrupted ∷ tx) sent) _ buf off (append-nil sent)
            refl (λ c. c) (write_loop-LoopWrote fuel tx (sent ++ []) off h (omega arith)))
  write_loop-LoopWrote (suc fuel) (TxEvent.broken ∷ tx) sent off h f =
      write_loop-cases fuel _ off h λ more.
        rw (write_loop_fault fuel _ buf off more _ (write-broken tx sent (drop off buf))) (
          LoopWrote-fault (sock_of rx (TxEvent.broken ∷ tx) sent) _ buf off more (append-nil sent)
            refl (λ c. c))

-- `tcp_write_n` either puts all of `buf` on the stream and returns its length, or returns -1 after
-- a proper prefix of `buf`; it reads nothing. With no error but EINTR to come it is the first, however few
-- bytes each call of `write` takes.
pub tcp_write_n-Wrote : (s : Socket) (buf : Bytes) → Wrote s buf (tcp_write_n s buf)
unfolding tcp_write_n
tcp_write_n-Wrote s buf =
    let h =
      write_loop-LoopWrote s.rx buf (suc (length s.tx)) s.tx s.sent 0 (omega arith) (omega arith) in
    record {
      outcome = elim (h.outcome) [
        | inl whole ↦ inl whole
        | inr part ↦ inr (part.0, part.1, omega arith, part.3)
      ];
      clean = λ c. let d = h.clean c in ((d.0, d.1), d.2);
      same_rx = h.same_rx;
    }
