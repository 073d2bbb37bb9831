-- ===== src/App/Feed.antt =====
-- The least that the applications of src/apps get from a protocol when calls fail or the connection is cut: of its
-- `recv`, of its `send`, and the messages of a file that comes to an end too early.
use omni_socket.App.Channel.{Parts, finish, chunk}
use omni_socket.App.Messages.{app_frame}
use omni_socket.Base.{
  ℕ, ◌≤◌, ◌≡◌, refl, List, [], ◌∷◌, ◌++◌, Bytes, length, All, ℤ, pos, eqb_ℤ, is_negative, true,
  false, arith, Option, some, ap, ◌∙◌, sym, subst,
}
use omni_socket.Network.{OmniContext, recv_of, omni_recv}
use omni_socket.Network.Calls.{omni_recv_passes}
use omni_socket.Runtime.{World, tick}
use omni_socket.Wire.{msg_type_file_end}

-- What a call of `recv` gives where `ms` are to come: an error, after which nothing is promised; 0, and they are still to
-- come; or the next of them, whole.
pub data Given (S : Type 0) (Holds : S → List Bytes → Type 0) (ms : List Bytes)
    (out : ℤ × Bytes × World S) : Type 0 where
  failed : is_negative out.0 ≡ true → Given S Holds ms out
  nothing : out.0 ≡ pos 0 → Holds out.2.conn ms → Given S Holds ms out
  message :
      (m : Bytes) (rest : List Bytes)
      → ms ≡ m ∷ rest
      → out.0 ≡ pos (length m)
      → out.1 ≡ m
      → Holds out.2.conn rest
      → Given S Holds ms out

-- `Holds c ms`: what `recv` will give on `c`, up to the first error, are messages from the front of `ms`.
pub record Source (S : Type 0) (recv : World S → ℕ → ℤ × Bytes × World S) : Type 1 where
  pub Holds : S → List Bytes → Type 0
  pub gives :
      (w : World S) (cap : ℕ) (ms : List Bytes)
      → All (λ m. length m ≤ cap) ms
      → Holds w.conn ms
      → Given S Holds ms (recv w cap)

-- What a call of `send` does where `ms` were taken: it takes the message whole, or returns something else than its
-- length, and then at most a part of it has been taken.
pub data Taken (S : Type 0) (Has Begins : S → List Bytes → Type 0) (ms : List Bytes) (m : Bytes)
    (out : ℤ × World S) : Type 0 where
  whole : out.0 ≡ pos (length m) → Has out.1.conn (ms ++ m ∷ []) → Taken S Has Begins ms m out
  part :
      eqb_ℤ out.0 (pos (length m)) ≡ false
      → Begins out.1.conn (ms ++ m ∷ [])
      → Taken S Has Begins ms m out

-- `Has c ms`: the messages `ms` have been taken. `Begins c ms`: what has been taken is a beginning of them.
pub record Sink (S : Type 0) (send : World S → Bytes → ℤ × World S) : Type 1 where
  pub Has : S → List Bytes → Type 0
  pub Begins : S → List Bytes → Type 0
  pub limit : ℕ
  pub takes :
      (w : World S) (ms : List Bytes) (m : Bytes)
      → Has w.conn ms
      → length m ≤ limit
      → Taken S Has Begins ms m (send w m)
  pub has_begins : (c : S) (ms : List Bytes) → Has c ms → Begins c ms
  pub begins_more : (c : S) (ms more : List Bytes) → Begins c ms → Begins c (ms ++ more)

-- A `send` that takes each message up to `limit` bytes whole, behind those before.
pub record Steady (S : Type 0) (send : World S → Bytes → ℤ × World S) : Type 1 where
  pub Has : S → List Bytes → Type 0
  pub limit : ℕ
  pub takes :
      (w : World S) (ms : List Bytes) (m : Bytes)
      → Has w.conn ms
      → length m ≤ limit
      → let (n, w') = send w m in (n ≡ pos (length m)) × Has w'.conn (ms ++ m ∷ [])

-- What the network layer hands up is what the protocol gives.
pub omni_recv-Given :
    {S : Type 0} (ctx : Option (OmniContext S)) (recv : World S → ℕ → ℤ × Bytes × World S)
    (source : Source S recv) (w : World S) (cap : ℕ) (ms : List Bytes)
    → recv_of ctx ≡ some recv
    → All (λ m. length m ≤ cap) ms
    → source.Holds w.conn ms
    → Given S source.Holds ms (omni_recv ctx w cap)
omni_recv-Given ctx recv source w cap ms over fit holds =
    let (n, frame, conn) = omni_recv_passes ctx w recv cap over in
    elim (source.gives (tick w) cap ms fit holds) [
      | failed neg ↦ failed (ap is_negative n ∙ neg)
      | nothing zero_got still ↦
          nothing (n ∙ zero_got) (subst (λ c. source.Holds c ms) (sym conn) still)
      | message m rest e len bytes still ↦
          message m rest e (n ∙ len) (frame ∙ bytes)
            (subst (λ c. source.Holds c rest) (sym conn) still)
    ]

-- Any file is carried by some messages.
pub Parts-any : (f : Bytes) → (ms : List Bytes) × Parts f ms
Parts-any [] = (app_frame msg_type_file_end 0 [] ∷ [], finish 0 (omega arith) refl refl)
Parts-any (b ∷ bs) =
    let (ms, p) = Parts-any bs in
    (_, chunk (b ∷ []) bs ms 0 (omega arith) (λ e. cc) (omega arith) refl refl p)
