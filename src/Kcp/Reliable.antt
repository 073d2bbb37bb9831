-- ===== src/Kcp/Reliable.antt =====
-- What src/protocols/kcp_impl.c and the programs rely on in the library ikcp: messages come out of one control block
-- in the order in which they were put into the other, whatever the network loses, repeats or reorders.
use omni_socket.Base.{
  ℕ, ◌≤◌, ◌≡◌, true, false, List, [], ◌∷◌, ◌++◌, All, Bytes, length, ℤ, pos, is_negative,
}
use omni_socket.Kcp.{Ikcp}
use omni_socket.Kcp.Setup.{started}

-- What `ikcp_recv` gives on a block that `rest` is still to come from: nothing yet, or the next message.
pub data Handed (K : Type 0) (Coming : K → List Bytes → Type 0) (rest : List Bytes)
    (out : ℤ × Bytes × K) : Type 0 where
  not_yet : is_negative out.0 ≡ true → Coming out.2 rest → Handed K Coming rest out
  handed :
      (m : Bytes) (rest' : List Bytes)
      → rest ≡ m ∷ rest'
      → out.0 ≡ pos (length m)
      → out.1 ≡ m
      → Coming out.2 rest'
      → Handed K Coming rest out

-- The conversation `conv`. `Sent k ms`: the block has accepted the messages `ms`. `Carries ms d`: the datagram `d` is one
-- that such a block may send. `Coming k ms rest`: a block at the other end, of the messages `ms`, has handed over all but
-- `rest`. The blocks are as `kcp_init` prepares them.
pub record Reliable (K : Type 0) (lib : Ikcp K) (conv : ℕ) : Type 1 where
  pub Sent : K → List Bytes → Type 0
  pub Carries : List Bytes → Bytes → Type 0
  pub Coming : K → List Bytes → List Bytes → Type 0
  pub carries_fits : (ms : List Bytes) (d : Bytes) → Carries ms d → length d ≤ 1500
  pub carries_more : (ms more : List Bytes) (d : Bytes) → Carries ms d → Carries (ms ++ more) d
  pub sent_started : Sent (started lib conv) []
  pub sent_accepted :
      (k : K) (ms : List Bytes) (m : Bytes)
      → Sent k ms
      → is_negative (lib.send k m).0 ≡ false
      → Sent (lib.send k m).1 (ms ++ m ∷ [])
  pub sent_refused :
      (k : K) (ms : List Bytes) (m : Bytes)
      → Sent k ms
      → is_negative (lib.send k m).0 ≡ true
      → Sent (lib.send k m).1 ms
  pub sent_update :
      (k : K) (ms : List Bytes) (t : ℕ)
      → Sent k ms
      → Sent (lib.update k t).0 ms × All (Carries ms) (lib.update k t).1
  pub sent_input : (k : K) (ms : List Bytes) (d : Bytes) → Sent k ms → Sent (lib.input k d) ms
  pub sent_recv : (k : K) (ms : List Bytes) (cap : ℕ) → Sent k ms → Sent (lib.recv k cap).2 ms
  pub coming_started : (ms : List Bytes) → Coming (started lib conv) ms ms
  pub coming_update :
      (k : K) (ms rest : List Bytes) (t : ℕ) → Coming k ms rest → Coming (lib.update k t).0 ms rest
  pub coming_input :
      (k : K) (ms rest : List Bytes) (d : Bytes)
      → Coming k ms rest
      → Carries ms d
      → Coming (lib.input k d) ms rest
  pub coming_recv :
      (k : K) (ms rest : List Bytes) (cap : ℕ)
      → Coming k ms rest
      → Handed K (λ k' rest'. Coming k' ms rest') rest (lib.recv k cap)
