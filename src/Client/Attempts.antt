-- ===== src/Client/Attempts.antt =====
-- What one message of the client of src/apps/client_main.c leaves if its call may fail.
use omni_socket.App.{send_app_message}
use omni_socket.App.Feed.{Sink, whole, part}
use omni_socket.App.Messages.{app_frame, length-app_frame}
use omni_socket.Base.{
  ℕ, ◌+◌, ◌^◌, ◌<◌, ◌≤◌, ◌≡◌, refl, ap, ◌∙◌, sym, subst, ◌++◌, [], ◌∷◌, List, Bytes, ◌⊎◌, inl, inr,
  length, Bool, true, false, Option, some, ℤ, pos, eqb_ℤ, arith, ==_refl,
}
use omni_socket.Network.{OmniContext, send_of}
use omni_socket.Network.Calls.{omni_send_passes}
use omni_socket.Runtime.{World, now, tick, now-lt}
use omni_socket.Wire.{ByteOrder, omni_ok, omni_msg_header_encode, header_to_bytes}
use omni_socket.Wire.RoundTrip.{header_to_bytes-encode}

module _ {S : Type 0} (o : ByteOrder) (ctx : Option (OmniContext S))
    (send : World S → Bytes → ℤ × World S) (sink : Sink S send)
    (over : send_of ctx ≡ some send) where
  -- What one message leaves: it was taken, or the call failed with a part of it at most.
  abbrev pub Tried : List Bytes → ℕ → Bytes → ℤ × World S → Type 0
  Tried ms type payload (rc, w') =
      (t : ℕ) × (t < 2 ^ 64)
      × (((rc ≡ omni_ok) × sink.Has w'.conn (ms ++ app_frame type t payload ∷ []))
          ⊎ ((eqb_ℤ rc omni_ok ≡ false)
              × sink.Begins w'.conn (ms ++ app_frame type t payload ∷ [])))

  pub send_app_message-Tried :
      (allocated : Bool) (type : ℕ) (payload : Bytes) (w : World S) (ms : List Bytes)
      → sink.Has w.conn ms
      → 16 + length payload ≤ sink.limit
      → Tried ms type payload (send_app_message o allocated ctx type payload w)
  unfolding send_app_message
  send_app_message-Tried false type payload w ms has fits = (
    0,
    omega arith,
    inr (
      refl,
      sink.begins_more w.conn ms (app_frame type 0 payload ∷ []) (sink.has_begins w.conn ms has),
    ),
  )
  send_app_message-Tried true type payload w ms has fits =
      let hb = header_to_bytes o (omni_msg_header_encode o type (length payload) (now w)) in
      let frame_eq : hb ++ payload ≡ app_frame type (now w) payload =
        ap (λ t. t ++ payload) (header_to_bytes-encode o type (length payload) (now w)) in
      let len : length (hb ++ payload) ≡ 16 + length payload =
        ap length frame_eq ∙ length-app_frame type (now w) payload in
      let (n, conn) = omni_send_passes ctx (tick w) send (hb ++ payload) over in
      let framed : ms ++ (hb ++ payload) ∷ [] ≡ ms ++ app_frame type (now w) payload ∷ [] =
        ap (λ m. ms ++ m ∷ []) frame_eq in
      elim (sink.takes (tick (tick w)) ms (hb ++ payload) has (omega (arith, len, fits))) [
        | whole all has' ↦ (
          now w,
          now-lt w,
          rw (n ∙ all ∙ ap pos len, ==_refl (16 + length payload))
              (inl (
                refl,
                subst (λ c. sink.Has c (ms ++ app_frame type (now w) payload ∷ [])) (sym conn)
                    (subst (sink.Has _) framed has'),
              )),
        )
        | part short begins ↦ (
          now w,
          now-lt w,
          rw
              (ap (λ k. eqb_ℤ k (pos (16 + length payload))) n
                ∙ ap (λ k. eqb_ℤ (send (tick (tick w)) (hb ++ payload)).0 (pos k)) (sym len)
                ∙ short)
              (inr (
                refl,
                subst (λ c. sink.Begins c (ms ++ app_frame type (now w) payload ∷ [])) (sym conn)
                    (subst (sink.Begins _) framed begins),
              )),
        )
      ]
