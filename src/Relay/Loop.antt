-- ===== src/Relay/Loop.antt =====
-- The main loop of src/apps/relay_main.c with its calls of the network layer, on one target.
use omni_socket.App.Feed.{Source, Steady, failed, nothing, message, omni_recv-Given}
use omni_socket.Base.{
  ℕ, zero, suc, ◌+◌, ◌≤◌, ◌≡◌, refl, ap, ◌∙◌, sym, subst, ◌++◌, [], ◌∷◌, List, All, Bytes, length,
  take, ℤ, pos, negsuc, Bool, true, false, Option, none, some, eqb_ℤ, negative_lem, ◌-◌, take_all,
  arith, if◌then◌else◌,
}
use omni_socket.Logger.{LogCall, LogLevel}
use omni_socket.Network.{OmniContext, send_of, recv_of, omni_send, omni_recv}
use omni_socket.Network.Calls.{omni_send_passes}
use omni_socket.Relay.{Event, main_next, recv_failed, recv_empty, recv_message, send_result}
use omni_socket.Runtime.{World, tick, logged}
use omni_socket.Wire.{omni_err_param, msg_header_size}

abbrev pub relay_buf_size : ℕ
relay_buf_size = msg_header_size + 65536

-- The process with its two contexts, as a call on one of them sees it, and behind the call.
module _ {R S : Type 0} where
  abbrev pub on_rx : World (R × S) → World R
  on_rx w = record { conn = w.conn.0; clock = w.clock; log = w.log }

  abbrev pub behind_rx : World (R × S) → World R → World (R × S)
  behind_rx w r = record { conn = (r.conn, w.conn.1); clock = r.clock; log = r.log }

  abbrev pub on_tx : World (R × S) → World S
  on_tx w = record { conn = w.conn.1; clock = w.clock; log = w.log }

  abbrev pub behind_tx : World (R × S) → World S → World (R × S)
  behind_tx w s = record { conn = (w.conn.0, s.conn); clock = s.clock; log = s.log }

module _ {R S : Type 0} (rx_ctx : Option (OmniContext R)) where
  -- Forwarding, to the target if there is one.
  abbrev pub forward_to : Option (OmniContext S) → Bytes → World (R × S) → ℤ × World (R × S)
  forward_to none buf w = (omni_err_param, w)
  forward_to (some tx) buf w = let (m, s) = omni_send (some tx) (on_tx w) buf in (m, behind_tx w s)

  -- One round: whether the loop goes on, and the world.
  unfoldable pub relay_round : Option (OmniContext S) → World (R × S) → Bool × World (R × S)
  relay_round tx_ctx w =
      let (n, buf, r) = omni_recv rx_ctx (on_rx w) relay_buf_size in
      let w1 = behind_rx w r in
      elim n [
        | negsuc e ↦ (false, logged w1 (LogCall.message LogLevel.error))
        | pos zero ↦ (true, w1)
        | pos (suc k) ↦
            let (m, w2) = forward_to tx_ctx (take (suc k) buf) w1 in
            let level = if eqb_ℤ m (pos (suc k)) then LogLevel.info else LogLevel.error in
            (true, logged w2 (LogCall.message level))
      ]

  -- So many rounds, if none of them ends the loop and `running` is not cleared before.
  unfoldable pub relay_loop : Option (OmniContext S) → ℕ → World (R × S) → World (R × S)
  relay_loop tx_ctx zero w = w
  relay_loop tx_ctx (suc rounds) w =
      let (goes_on, w1) = relay_round tx_ctx w in
      let rest = relay_loop tx_ctx rounds w1 in if goes_on then rest else w1

  -- What the main thread meets in one round, as events of the process: what `omni_recv` returns, and what `omni_send`
  -- returns on the message.
  unfoldable pub round_events : Option (OmniContext S) → World (R × S) → List Event
  round_events tx_ctx w =
      let (n, buf, r) = omni_recv rx_ctx (on_rx w) relay_buf_size in
      elim n [
        | negsuc e ↦ main_next ∷ recv_failed ∷ []
        | pos zero ↦ main_next ∷ recv_empty ∷ []
        | pos (suc k) ↦
            let bs = take (suc k) buf in
            let m = (forward_to tx_ctx bs (behind_rx w r)).0 in
            main_next ∷ recv_message bs ∷ main_next ∷ send_result m ∷ main_next ∷ []
      ]

  -- The events of the rounds of `relay_loop`.
  unfoldable pub loop_events : Option (OmniContext S) → ℕ → World (R × S) → List Event
  loop_events tx_ctx zero w = []
  loop_events tx_ctx (suc rounds) w =
      let (goes_on, w1) = relay_round tx_ctx w in
      let rest = loop_events tx_ctx rounds w1 in
      round_events tx_ctx w ++ (if goes_on then rest else [])

module _ {R S : Type 0} (rx_ctx : Option (OmniContext R)) (tx : OmniContext S)
    (recv : World R → ℕ → ℤ × Bytes × World R) (source : Source R recv)
    (send : World S → Bytes → ℤ × World S) (sink : Steady S send)
    (over_rx : recv_of rx_ctx ≡ some recv) (over_tx : send_of (some tx) ≡ some send)
    (fits : relay_buf_size ≤ sink.limit) where
  -- What a round makes of the messages `ms` to come, behind those that were forwarded.
  pub data Moves (ms before : List Bytes) (met : List Event) (out : Bool × World (R × S))
      : Type 0 where
    stays :
        out.0 ≡ true
        → met ≡ main_next ∷ recv_empty ∷ []
        → source.Holds out.1.conn.0 ms
        → sink.Has out.1.conn.1 before
        → Moves ms before met out
    ends :
        out.0 ≡ false
        → met ≡ main_next ∷ recv_failed ∷ []
        → sink.Has out.1.conn.1 before
        → Moves ms before met out
    moves :
        (m : Bytes) (rest : List Bytes)
        → ms ≡ m ∷ rest
        → out.0 ≡ true
        → met
          ≡ main_next ∷ recv_message m ∷ main_next ∷ send_result (pos (length m)) ∷ main_next ∷ []
        → source.Holds out.1.conn.0 rest
        → sink.Has out.1.conn.1 (before ++ m ∷ [])
        → Moves ms before met out

  -- What the network layer hands down is taken.
  forward_to-Has :
      (w : World (R × S)) (before : List Bytes) (m : Bytes)
      → sink.Has w.conn.1 before
      → length m ≤ relay_buf_size
      → let (n, w') = forward_to rx_ctx (some tx) m w in
        (n ≡ pos (length m)) × (w'.conn.0 ≡ w.conn.0) × sink.Has w'.conn.1 (before ++ m ∷ [])
  forward_to-Has w before m has short =
      let (n, conn) = omni_send_passes (some tx) (on_tx w) send m over_tx in
      let (taken, has') = sink.takes (tick (on_tx w)) before m has (omega (arith, fits, short)) in
      (n ∙ taken, refl, subst (λ c. sink.Has c (before ++ m ∷ [])) (sym conn) has')

  abbrev message_events : World (R × S) → World R → Bytes → List Event
  message_events w r bs =
      main_next
      ∷ recv_message bs
      ∷ main_next
      ∷ send_result (forward_to rx_ctx (some tx) bs (behind_rx w r)).0
      ∷ main_next
      ∷ []

  pub relay_round-Moves :
      (w : World (R × S)) (ms before : List Bytes)
      → All (λ m. length m ≤ relay_buf_size) ms
      → All (λ m. 1 ≤ length m) ms
      → source.Holds w.conn.0 ms
      → sink.Has w.conn.1 before
      → Moves ms before (round_events rx_ctx (some tx) w) (relay_round rx_ctx (some tx) w)
  unfolding relay_round round_events
  relay_round-Moves w ms before short full holds has =
      let (n, buf, r) = omni_recv rx_ctx (on_rx w) relay_buf_size in
      elim (omni_recv-Given rx_ctx recv source (on_rx w) relay_buf_size ms over_rx short holds) [
        | failed neg ↦
            let (e, is) = negative_lem n neg in
            rw (is, relay_round, round_events) (ends refl refl has)
        | nothing zero_got still ↦
            rw (zero_got, relay_round, round_events) (stays refl refl still has)
        | message m rest em is bytes still ↦
            let one = (subst (All (λ m. 1 ≤ length m)) em full).0 in
            let fit = (subst (All (λ m. length m ≤ relay_buf_size)) em short).0 in
            let k = length m - 1 in
            let len : length m ≡ suc k = omega (arith, one) in
            let whole : take (suc k) buf ≡ m =
              ap (take (suc k)) bytes ∙ take_all (suc k) m (omega (arith, len)) in
            let (taken, same, has') = forward_to-Has (behind_rx w r) before m has fit in
            rw (is ∙ ap pos len, relay_round, round_events)
              (moves m rest em refl
                (ap (message_events w r) whole
                  ∙ ap
                      (λ n. main_next ∷ recv_message m ∷ main_next ∷ send_result n ∷ main_next ∷ [])
                      taken)
                (subst
                  (λ b. source.Holds (forward_to rx_ctx (some tx) b (behind_rx w r)).1.conn.0 rest)
                  (sym whole) (subst (λ c. source.Holds c rest) (sym same) still))
                (subst
                  (λ b.
                    sink.Has (forward_to rx_ctx (some tx) b (behind_rx w r)).1.conn.1
                      (before ++ m ∷ []))
                  (sym whole) has'))
      ]
