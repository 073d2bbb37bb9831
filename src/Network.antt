-- ===== src/Network.antt =====
-- src/core/network.c: the context that the applications hold, and the calls through the table of
-- its protocol.
pub mod Types
pub mod Calls
pub mod Select
use omni_socket.Base.{
  ℕ, Bool, true, false, not, Bytes, [], Option, none, some, ℤ, is_positive, to_nat, if◌then◌else◌,
}
use omni_socket.Logger.{
  LogCall, LogLevel, init, on_send, on_recv, on_send_call_latency, on_recv_call_latency,
  print_performance_log, message,
}
use omni_socket.Runtime.{World, now, tick, logged, elapsed}
use omni_socket.Wire.{omni_err_param}
use Types.{OmniProtocol, OmniRole, ProtoVTable}

-- `struct OmniContext`; `impl` is the `conn` of the world.
pub record OmniContext (S : Type 0) : Type 0 where
  pub proto : OmniProtocol
  pub role : OmniRole
  pub vt : Option (ProtoVTable S)

module _ {S : Type 0} where
  abbrev pub init_of :
      Option (ProtoVTable S)
      → Option (OmniRole → Option ℕ → ℕ → Option ℕ → ℕ → World S → Bool × World S)
  init_of none = none
  init_of (some vt) = vt.init

  -- `ctx && ctx->vt && ctx->vt->send`, and so for `recv` and `close`
  abbrev pub send_of : Option (OmniContext S) → Option (World S → Bytes → ℤ × World S)
  send_of none = none
  send_of (some c) = elim (c.vt) [ none ↦ none | some vt ↦ vt.send ]

  abbrev pub recv_of : Option (OmniContext S) → Option (World S → ℕ → ℤ × Bytes × World S)
  recv_of none = none
  recv_of (some c) = elim (c.vt) [ none ↦ none | some vt ↦ vt.recv ]

  abbrev pub close_of : Option (OmniContext S) → Option (World S → World S)
  close_of none = none
  close_of (some c) = elim (c.vt) [ none ↦ none | some vt ↦ vt.close ]

  -- `logger_print_performance_log`, which reads the clock
  abbrev pub reported : World S → World S
  reported w = logged (tick w) (print_performance_log (now w))

  -- `omni_init`, with the table that `select_vtable` gives and whether `calloc` succeeds.
  unfoldable pub omni_init :
      Option (ProtoVTable S)
      → Bool
      → OmniRole
      → OmniProtocol
      → Option ℕ
      → ℕ
      → Option ℕ
      → ℕ
      → World S
      → Option (OmniContext S) × World S
  omni_init table allocated role proto bind_ip bind_port peer_ip peer_port w =
      let w0 = logged (tick w) (init (now w)) in
      elim (init_of table) [
        | none ↦ (none, logged w0 (message LogLevel.error))
        | some vt_init ↦
            let (made, w1) = vt_init role bind_ip bind_port peer_ip peer_port w0 in
            if not allocated
            then (none, logged w0 (message LogLevel.error))
            else if made
            then (
              some (record { proto = proto; role = role; vt = table }),
              logged w1 (message LogLevel.info),
            )
            else (none, logged w1 (message LogLevel.error))
      ]

  unfoldable pub omni_send : Option (OmniContext S) → World S → Bytes → ℤ × World S
  omni_send ctx w buf = elim (send_of ctx) [
    | none ↦ (omni_err_param, w)
    | some vt_send ↦
        let t0 = now w in
        let (n, w1) = vt_send (tick w) buf in
        let t1 = now w1 in
        let w2 = logged (tick w1) (on_send_call_latency (elapsed t0 t1)) in
        if is_positive n
        then (n, reported (logged (logged w2 (on_send (to_nat n))) (message LogLevel.debug)))
        else (n, logged w2 (message LogLevel.debug))
  ]

  unfoldable pub omni_recv : Option (OmniContext S) → World S → ℕ → ℤ × Bytes × World S
  omni_recv ctx w cap = elim (recv_of ctx) [
    | none ↦ (omni_err_param, [], w)
    | some vt_recv ↦
        let t0 = now w in
        let (n, got, w1) = vt_recv (tick w) cap in
        let t1 = now w1 in
        let w2 = logged (tick w1) (on_recv_call_latency (elapsed t0 t1)) in
        if is_positive n
        then (n, got, reported (logged (logged w2 (on_recv (to_nat n))) (message LogLevel.debug)))
        else (n, got, logged w2 (message LogLevel.debug))
  ]

  unfoldable pub omni_close : Option (OmniContext S) → World S → World S
  omni_close none w = w
  omni_close (some c) w = elim (close_of (some c)) [
    | none ↦ reported w
    | some vt_close ↦ reported (vt_close w)
  ]
