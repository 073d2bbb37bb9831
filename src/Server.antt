-- ===== src/Server.antt =====
-- src/apps/server_main.c: the thread that writes the received file, and the prompt that sends
-- commands to the client.
pub mod Options
pub mod Process
pub mod Receiving
pub mod Parts
pub mod Arrivals
pub mod AnyInput
pub mod Writing
pub mod Stdio
pub mod Rounds
pub mod Beginning
pub mod Prompt
use omni_socket.App.{Decoded, refused, decoded, send_app_message, decode_app_message}
use omni_socket.App.Lines.{stripped, eqb_bytes, quit_text}
use omni_socket.Base.{
  ℕ, zero, suc, ◌+◌, ◌-◌, ◌%◌, ◌^◌, Bool, true, false, not, ◌||◌, List, [], ◌∷◌, ◌++◌, Bytes,
  length, take, min, Option, none, some, ℤ, pos, negsuc, eqb_ℤ, ◌==◌, if◌then◌else◌, leb,
}
use omni_socket.Logger.{LogLevel, message}
use omni_socket.Network.{OmniContext, omni_recv}
use omni_socket.Network.Types.{OmniProtocol, proto_tcp}
use omni_socket.Runtime.{World, logged}
use omni_socket.Wire.{
  ByteOrder, MsgHeader, msg_header_size, msg_type_file_chunk, msg_type_file_end, msg_type_command,
  omni_ok,
}

-- `SERVER_FRAME_BUF_SIZE`
abbrev pub server_frame_buf_size : ℕ
server_frame_buf_size = msg_header_size + 65536

-- The stream `out_fp`: all bytes that `fwrite` has taken, of which the first `flushed` are in the file and the others in
-- the buffer of stdio; how much more fits the disk (`none` for any amount); and how many bytes the library moves to the
-- file in each of the next calls of `fwrite`, none behind the end of the list.
pub record FileOut : Type 0 where
  pub given : Bytes
  pub flushed : ℕ
  pub room : Option ℕ
  pub drains : List ℕ

-- What is in the file.
abbrev pub content : FileOut → Bytes
content fp = take fp.flushed fp.given

-- At most `n` bytes of the buffer go to the file, and fewer if the disk is full: whether it took them.
abbrev pub push : ℕ → FileOut → Bool × FileOut
push n fp =
    let m = min n (length fp.given - fp.flushed) in
    elim (fp.room) [
      | none ↦ (true, record fp { flushed = fp.flushed + m })
      | some r ↦ (leb m r, record fp { flushed = fp.flushed + min m r; room = some (r - m) })
    ]

abbrev pub drain : List ℕ → ℕ
drain [] = 0
drain (n ∷ _) = n

abbrev pub later : List ℕ → List ℕ
later [] = []
later (_ ∷ ns) = ns

-- `fwrite(payload, 1, len, fp)`: how many bytes it has taken, which is all of them unless the disk is found full.
abbrev pub fwrite : Bytes → FileOut → ℕ × FileOut
fwrite [] fp = (0, fp)
fwrite (b ∷ bs) fp =
    let all : FileOut = record fp { given = fp.given ++ b ∷ bs; drains = later fp.drains } in
    let (ok, fp') = push (drain fp.drains) all in
    let n = if ok then length (b ∷ bs) else fp'.flushed - length fp.given in
    (n, record fp' { given = fp.given ++ take n (b ∷ bs) })

-- `fflush(fp)`: the buffer goes to the file as far as it fits, whatever the result says, since the caller drops it.
abbrev pub fflush : FileOut → FileOut
fflush fp = (push (length fp.given) fp).1

-- `struct ServerRuntime`, without the context.
pub record ServerRuntime : Type 0 where
  pub proto : OmniProtocol
  pub out_fp : FileOut
  pub running : Bool
  pub transfer_done : Bool
  pub bytes_written : ℕ

abbrev pub is_tcp : OmniProtocol → Bool
is_tcp proto_tcp = true
is_tcp _ = false

abbrev pub leave : ServerRuntime → ServerRuntime
leave rt = record rt { running = false }

-- The part of a round behind `decode_app_message`.
unfoldable pub on_message :
    {S : Type 0} → ServerRuntime → World S → Decoded → ServerRuntime × World S
on_message rt w (refused rc) = (rt, logged w (message LogLevel.error))
on_message rt w (decoded hdr payload) =
    let (nw, fp) = fwrite payload rt.out_fp in
    if hdr.type == msg_type_file_chunk
    then (if not (nw == hdr.len)
        then (leave (record rt { out_fp = fp }), logged w (message LogLevel.error))
        else (record rt { out_fp = fp; bytes_written = (rt.bytes_written + nw) % 2 ^ 64 }, w))
    else if hdr.type == msg_type_file_end
    then (
      record rt { out_fp = fflush rt.out_fp; transfer_done = true },
      logged w (message LogLevel.info),
    )
    else (rt, logged w (message LogLevel.info))

module _ {S : Type 0} (o : ByteOrder) (ctx : Option (OmniContext S)) where
  -- One round of `recv_thread_main`.
  unfoldable pub recv_round : ServerRuntime → World S → ServerRuntime × World S
  recv_round rt w =
      let (n, frame, w1) = omni_recv ctx w server_frame_buf_size in
      elim n [
        | negsuc e ↦ (leave rt, logged w1 (message LogLevel.error))
        | pos zero ↦
            if is_tcp rt.proto then (leave rt, logged w1 (message LogLevel.info)) else (rt, w1)
        | pos (suc k) ↦ on_message rt w1 (decode_app_message o (take (suc k) frame))
      ]

  -- So many rounds, as long as the flag is set.
  unfoldable pub recv_thread : ℕ → ServerRuntime → World S → ServerRuntime × World S
  recv_thread zero rt w = (rt, w)
  recv_thread (suc rounds) rt w =
      let (rt', w') = recv_round rt w in
      let more = recv_thread rounds rt' w' in if rt.running then more else (rt, w)

-- A round of the prompt: the flag `running`, whether `malloc` succeeds, and the line that `fgets` gives.
pub record PromptRound : Type 0 where
  pub running : Bool
  pub allocated : Bool
  pub line : Bytes

module _ {S : Type 0} (o : ByteOrder) (ctx : Option (OmniContext S)) where
  -- The interactive mode of `main`; behind the last round `fgets` meets the end of the input.
  unfoldable pub prompt : List PromptRound → World S → World S
  prompt [] w = w
  prompt (r ∷ rounds) w =
      let line = stripped r.line in
      let (rc, w1) = send_app_message o r.allocated ctx msg_type_command line w in
      let skipped = prompt rounds w in
      let more = prompt rounds w1 in
      if not r.running
      then w
      else if length line == 0
      then skipped
      else if eqb_bytes line quit_text
      then w
      else if not (eqb_ℤ rc omni_ok)
      then logged w1 (message LogLevel.error)
      else more
