-- ===== src/App/FileStream.antt =====
-- The byte stream that carries a file over TCP: a frame for each chunk, and one for FILE_END.
use omni_socket.App.Messages.{app_frame}
use omni_socket.Base.{ℕ, suc, ◌^◌, ◌<◌, ◌≤◌, ◌≡◌, ◌≢◌, [], ◌++◌, Bytes, length}
use omni_socket.Tcp.Receives.{any_frame}
use omni_socket.Wire.{msg_type_raw, msg_type_file_chunk, msg_type_file_end}

-- A message in its TCP frame, with the times at which the two headers were made.
abbrev pub wrapped : ℕ → ℕ → ℕ → Bytes → Bytes
wrapped t1 t2 type body = any_frame msg_type_raw t1 (app_frame type t2 body)

-- The stream `s` carries the file `f`: its chunks in order, none empty and none longer than the largest
-- chunk that the client accepts, and then FILE_END.
pub data Carries : Bytes → Bytes → Type 0 where
  finish :
      {f s : Bytes} (t1 t2 : ℕ)
      → t1 < 2 ^ 64
      → t2 < 2 ^ 64
      → f ≡ []
      → s ≡ wrapped t1 t2 msg_type_file_end [] ++ []
      → Carries f s
  chunk :
      {f s : Bytes} (body f' s' : Bytes) (t1 t2 : ℕ)
      → t1 < 2 ^ 64
      → t2 < 2 ^ 64
      → body ≢ []
      → length body ≤ 65536
      → f ≡ body ++ f'
      → s ≡ wrapped t1 t2 msg_type_file_chunk body ++ s'
      → Carries f' s'
      → Carries f s

-- How many messages that is.
abbrev pub messages : {f s : Bytes} → Carries f s → ℕ
messages (finish t1 t2 h1 h2 ef es) = 1
messages (chunk body f' s' t1 t2 h1 h2 ne fits ef es c) = suc (messages c)
