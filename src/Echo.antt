-- ===== src/Echo.antt =====
-- src/apps/test_main.c: the server that sends each message back, and the client that waits for the echo of
-- each message.
pub mod Options
pub mod Datagrams
pub mod Client
use omni_socket.Base.{
  ℕ, zero, suc, ◌+◌, Bool, true, false, List, [], ◌∷◌, ◌++◌, Bytes, length, take, Option, none,
  some, ℤ, pos, negsuc, is_positive, if◌then◌else◌,
}
use omni_socket.Logger.{LogLevel, message}
use omni_socket.Network.{OmniContext, omni_init, omni_send, omni_recv, omni_close}
use omni_socket.Network.Types.{OmniProtocol, OmniRole, ProtoVTable, proto_tcp, proto_udp, proto_kcp}
use omni_socket.Runtime.{World, logged}

abbrev pub is_kcp : OmniProtocol → Bool
is_kcp proto_kcp = true
is_kcp other = false

module _ {S : Type 0} (ctx : Option (OmniContext S)) (proto : OmniProtocol) where
  -- The answer to a message: `omni_send` of what was received.
  abbrev pub echoed : World S → Bytes → World S
  echoed w got =
      logged (omni_send ctx (logged w (message LogLevel.info)) got).1 (message LogLevel.info)

  -- A round of `run_server`: whether the loop goes on.
  unfoldable pub server_round : World S → Bool × World S
  server_round w =
      let (n, got, w1) = omni_recv ctx w 4096 in
      elim n [
        | negsuc e ↦ (false, logged w1 (message LogLevel.info))
        | pos zero ↦ if is_kcp proto then (true, w1) else (false, logged w1 (message LogLevel.info))
        | pos (suc k) ↦ (true, echoed w1 (take (suc k) got))
      ]

  -- The loop of `run_server` for so many rounds.
  unfoldable pub server_loop : ℕ → World S → World S
  server_loop zero w = w
  server_loop (suc rounds) w =
      let (goes_on, w1) = server_round w in
      let more = server_loop rounds w1 in if goes_on then more else w1

  -- The rounds of `run_client` from message `i` on, of which `left` are to come: the texts that `snprintf` gives are
  -- `texts`, one for each round. The answer is the number of the message at the end, and the echoes received.
  unfoldable pub client_loop : List Bytes → ℕ → ℕ → World S → ℕ × List Bytes × World S
  client_loop [] i left w = (i, [], w)
  client_loop (text ∷ texts) i zero w = (i, [], w)
  client_loop (text ∷ texts) i (suc left) w =
      let (n, w1) = omni_send ctx w text in
      let w2 = logged w1 (message LogLevel.info) in
      let (m, got, w3) = omni_recv ctx w2 4096 in
      let again = client_loop texts i (suc left) w3 in
      let (j, echoes, w4) = client_loop texts (i + 1) left (logged w3 (message LogLevel.info)) in
      if is_positive n
      then elim m [
        | negsuc e ↦ (i, [], logged w3 (message LogLevel.info))
        | pos zero ↦ if is_kcp proto then again else (i, [], logged w3 (message LogLevel.info))
        | pos (suc k) ↦ (j, take (suc k) got ∷ echoes, w4)
      ]
      else (i, [], w2)

module _ {S : Type 0} (table : Option (ProtoVTable S)) (allocated : Bool)
    (proto : OmniProtocol) where
  -- `run_server` for so many rounds of its loop, with what `omni_init` meets.
  unfoldable pub run_server : ℕ → ℕ → World S → World S
  run_server rounds port w =
      let (made, w1) = omni_init table allocated OmniRole.server proto none port none 0 w in
      elim made [
        | none ↦ w1
        | some c ↦
            omni_close (some c)
              (server_loop (some c) proto rounds (logged w1 (message LogLevel.info)))
      ]

  -- `run_client` on the texts of its rounds, for 100 messages; `host` is `none` for NULL.
  unfoldable pub run_client : List Bytes → Option ℕ → ℕ → World S → World S
  run_client texts none port w = w
  run_client texts (some host) port w =
      let (made, w1) = omni_init table allocated OmniRole.client proto none 0 (some host) port w in
      elim made [
        | none ↦ w1
        | some c ↦
            let (i, echoes, w2) =
              client_loop (some c) proto texts 0 100 (logged w1 (message LogLevel.info)) in
            omni_close (some c) w2
      ]
