-- ===== src/Client.antt =====
-- src/apps/client_main.c: the loop that sends a file in chunks, and the thread that prints the
-- commands of the server.
pub mod Options
pub mod Transfer
pub mod Parts
pub mod Attempts
pub mod Beginning
pub mod Commands
pub mod Process
use omni_socket.App.{Decoded, refused, decoded, send_app_message, decode_app_message}
use omni_socket.Base.{
  ℕ, zero, suc, ◌+◌, ◌%◌, ◌^◌, Bool, true, false, not, List, [], ◌∷◌, ◌++◌, Bytes, length, take,
  drop, Option, ℤ, pos, negsuc, eqb_ℤ, ltb, ◌==◌, if◌then◌else◌,
}
use omni_socket.Logger.{LogLevel, message}
use omni_socket.Network.{OmniContext, omni_recv}
use omni_socket.Runtime.{World, logged}
use omni_socket.Wire.{
  ByteOrder, MsgHeader, msg_header_size, msg_type_file_chunk, msg_type_file_end, msg_type_command,
  omni_ok,
}

-- `CLIENT_FRAME_BUF_SIZE`
abbrev pub client_frame_buf_size : ℕ
client_frame_buf_size = msg_header_size + 65536

-- The file behind `fp`: the bytes not read yet, and whether reading ends in an error.
pub record FileIn : Type 0 where
  pub rest : Bytes
  pub broken : Bool

-- `fread(chunk, 1, n, fp)`: the bytes read, fewer than `n` only at the end.
abbrev pub fread : ℕ → FileIn → Bytes × FileIn
fread n fp = (take n fp.rest, record fp { rest = drop n fp.rest })

-- What a round of a loop meets: the flags that the other thread and the signal handler set, and
-- whether `malloc` succeeds.
pub record Poll : Type 0 where
  pub running : Bool
  pub g_stop : Bool
  pub allocated : Bool

abbrev pub calm : Poll
calm = record { running = true; g_stop = false; allocated = true }

-- The first of the polls; behind their end all is calm.
abbrev pub poll : List Poll → Poll
poll [] = calm
poll (p ∷ ps) = p

abbrev pub later : List Poll → List Poll
later [] = []
later (p ∷ ps) = ps

-- What the sending loop leaves.
pub record Sending (S : Type 0) : Type 0 where
  pub running : Bool
  pub total_sent : ℕ
  pub polls : List Poll
  pub world : World S

module _ {S : Type 0} (o : ByteOrder) (ctx : Option (OmniContext S)) (chunk_size : ℕ) where
  -- The main sending loop of `main`.
  unfoldable pub send_loop : ℕ → List Poll → FileIn → ℕ → World S → Sending S
  send_loop zero polls fp total w = record {
    running = true;
    total_sent = total;
    polls = polls;
    world = w;
  }
  send_loop (suc fuel) polls fp total w =
      let p = poll polls in
      let (chunk, fp') = fread chunk_size fp in
      let (rc, w1) = send_app_message o p.allocated ctx msg_type_file_chunk chunk w in
      let more = send_loop fuel (later polls) fp' ((total + length chunk) % 2 ^ 64) w1 in
      let stopped : World S → Sending S =
        λ w'. record { running = false; total_sent = total; polls = later polls; world = w' } in
      if not p.running
      then stopped w
      else if p.g_stop
      then stopped (logged w (message LogLevel.info))
      else if length chunk == 0
      then (if fp.broken
          then stopped (logged w (message LogLevel.error))
          else record { running = true; total_sent = total; polls = later polls; world = w })
      else if not (eqb_ℤ rc omni_ok)
      then stopped w1
      else more

  -- A round that goes on takes at least a byte from the file.
  abbrev pub send_file : List Poll → FileIn → World S → Sending S
  send_file polls fp w = send_loop (suc (length fp.rest)) polls fp 0 w

  -- The file, and then the message FILE_END if the loop ended with the client running.
  unfoldable pub transfer : List Poll → FileIn → World S → Sending S
  transfer polls fp w =
      let sent = send_file polls fp w in
      let p = poll sent.polls in
      let (rc, w1) = send_app_message o p.allocated ctx msg_type_file_end [] sent.world in
      let w2 = logged w1 (message LogLevel.info) in
      if not (sent.running)
      then record sent { world = logged sent.world (message LogLevel.info) }
      else if not (p.running)
      then record sent {
        running = false;
        polls = later sent.polls;
        world = logged sent.world (message LogLevel.info);
      }
      else record sent { running = eqb_ℤ rc omni_ok; polls = later sent.polls; world = w2 }

-- The receiving thread: its `running` flag and the lines printed.
pub record ClientRuntime : Type 0 where
  pub running : Bool
  pub printed : List Bytes

-- What `printf("%s")` writes of a buffer.
abbrev pub until_nul : Bytes → Bytes
until_nul [] = []
until_nul (b ∷ bs) = if b == 0 then [] else b ∷ until_nul bs

-- The bytes of a command that fit `char cmd[2048]`, with its final 0.
abbrev pub command_text : MsgHeader → Bytes → Bytes
command_text hdr payload = until_nul (take (if ltb hdr.len 2047 then hdr.len else 2047) payload)

-- A message of the server.
abbrev pub on_message : {S : Type 0} → ClientRuntime → World S → Decoded → ClientRuntime × World S
on_message rt w (refused rc) = (rt, logged w (message LogLevel.error))
on_message rt w (decoded hdr payload) =
    if hdr.type == msg_type_command
    then (record rt { printed = rt.printed ++ command_text hdr payload ∷ [] }, w)
    else (rt, logged w (message LogLevel.info))

module _ {S : Type 0} (o : ByteOrder) (ctx : Option (OmniContext S)) where
  -- One round of `recv_thread_main`.
  unfoldable pub recv_round : ClientRuntime → World S → ClientRuntime × World S
  recv_round rt w =
      let (n, frame, w1) = omni_recv ctx w client_frame_buf_size in
      elim n [
        | negsuc e ↦ (record rt { running = false }, logged w1 (message LogLevel.error))
        | pos zero ↦ (rt, w1)
        | pos (suc k) ↦ on_message rt w1 (decode_app_message o (take (suc k) frame))
      ]

  -- So many rounds, as long as the flag is set.
  unfoldable pub recv_thread : ℕ → ClientRuntime → World S → ClientRuntime × World S
  recv_thread zero rt w = (rt, w)
  recv_thread (suc rounds) rt w =
      let (rt', w') = recv_round rt w in
      let more = recv_thread rounds rt' w' in if rt.running then more else (rt, w)
