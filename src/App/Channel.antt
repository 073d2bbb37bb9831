-- ===== src/App/Channel.antt =====
-- What the applications of src/apps need of a protocol that keeps the bounds of messages: of its `send` and its `recv`;
-- and a file as a sequence of messages.
use omni_socket.App.Messages.{app_frame}
use omni_socket.Base.{ℕ, suc, ◌^◌, ◌<◌, ◌≤◌, ◌≡◌, ◌≢◌, List, [], ◌∷◌, ◌++◌, Bytes, length, ℤ, pos}
use omni_socket.Runtime.{World}
use omni_socket.Wire.{msg_type_file_chunk, msg_type_file_end}

-- A `send` that takes each message up to `limit` bytes whole and puts it behind those before.
pub record Outlet (S : Type 0) (send : World S → Bytes → ℤ × World S) : Type 1 where
  pub IsReady : S → Type 0
  pub out : S → List Bytes
  pub limit : ℕ
  pub sends :
      (w : World S) (m : Bytes)
      → IsReady w.conn
      → length m ≤ limit
      → let (n, w') = send w m in
        (n ≡ pos (length m)) × IsReady w'.conn × (out w'.conn ≡ out w.conn ++ m ∷ [])

-- A `recv` that gives the next message whole, if the buffer is large enough.
pub record Inlet (S : Type 0) (recv : World S → ℕ → ℤ × Bytes × World S) : Type 1 where
  pub IsReady : S → Type 0
  pub coming : S → List Bytes
  pub receives :
      (w : World S) (cap : ℕ) (m : Bytes) (ms : List Bytes)
      → IsReady w.conn
      → coming w.conn ≡ m ∷ ms
      → length m ≤ cap
      → let (n, got, w') = recv w cap in
        (n ≡ pos (length m)) × (got ≡ m) × IsReady w'.conn × (coming w'.conn ≡ ms)

-- The messages carry the file `f`: its chunks in order, none empty and none longer than the largest chunk that the
-- client accepts, and then FILE_END.
pub data Parts : Bytes → List Bytes → Type 0 where
  finish :
      {f : Bytes} {ms : List Bytes} (t : ℕ)
      → t < 2 ^ 64
      → f ≡ []
      → ms ≡ app_frame msg_type_file_end t [] ∷ []
      → Parts f ms
  chunk :
      {f : Bytes} {ms : List Bytes} (body f' : Bytes) (ms' : List Bytes) (t : ℕ)
      → t < 2 ^ 64
      → body ≢ []
      → length body ≤ 65536
      → f ≡ body ++ f'
      → ms ≡ app_frame msg_type_file_chunk t body ∷ ms'
      → Parts f' ms'
      → Parts f ms

-- How many messages that is.
abbrev pub count : {f : Bytes} {ms : List Bytes} → Parts f ms → ℕ
count (finish t h ef em) = 1
count (chunk body f' ms' t h ne fits ef em p) = suc (count p)
