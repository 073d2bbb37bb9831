-- ===== src/Server/Beginning.antt =====
-- What is in the file of the server of src/apps/server_main.c if the transfer may fail at any point.
use omni_socket.App.Channel.{Parts, finish, chunk}
use omni_socket.App.Feed.{Source}
use omni_socket.Base.{
  ℕ, zero, suc, ◌≡◌, refl, ap, ◌∙◌, sym, subst, ◌++◌, [], List, Bytes, take, drop, true, false, ◌⊎◌,
  inl, inr, Option, some, ℤ, append_assoc, append-nil, take-append-drop, Bool-cases,
}
use omni_socket.Network.{OmniContext, recv_of}
use omni_socket.Runtime.{World}
use omni_socket.Server.Stdio.{fflush_lem}
use omni_socket.Server.{FileOut, content, fflush, ServerRuntime, recv_round, recv_thread, leave}
use omni_socket.Server.Receiving.{recv_thread_step, recv_thread_stop}
use omni_socket.Server.Rounds.{got_end, got_chunk, stopped, recv_round-Outcome, leaves, stays, gets}
use omni_socket.Server.Writing.{Parts-fit}
use omni_socket.Wire.{ByteOrder}

-- In the server's file is a beginning of `f`. If the transfer is marked done, `fwrite` has taken all of `f`, and all of it
-- is in the file unless the disk is full.
abbrev pub WroteBeginning : Bytes → ServerRuntime → Type 0
WroteBeginning f rt =
    (rest : Bytes) × (f ≡ content rt.out_fp ++ rest)
    × ((rt.transfer_done ≡ false)
        ⊎ ((rt.out_fp.given ≡ f) × ((rest ≡ []) ⊎ (rt.out_fp.room ≡ some 0))))

-- The same of what `fwrite` has taken.
abbrev TookBeginning : Bytes → ServerRuntime → Type 0
TookBeginning f rt =
    (rest : Bytes) × (f ≡ rt.out_fp.given ++ rest)
    × ((rt.transfer_done ≡ false)
        ⊎ ((rest ≡ []) × ((content rt.out_fp ≡ rt.out_fp.given) ⊎ (rt.out_fp.room ≡ some 0))))

took_lem : (f : Bytes) (rt : ServerRuntime) → TookBeginning f rt → WroteBeginning f rt
took_lem f rt (rest, e, inl undone) =
    let fp = rt.out_fp in
    (
      drop fp.flushed fp.given ++ rest,
      e
          ∙ ap (λ t. t ++ rest) (sym (take-append-drop fp.flushed fp.given))
          ∙ append_assoc (content fp) (drop fp.flushed fp.given) rest,
      inl undone,
    )
took_lem f rt (rest, e, inr (none_left, inl all)) =
    let whole : f ≡ rt.out_fp.given =
      e ∙ ap (λ t. rt.out_fp.given ++ t) none_left ∙ append-nil rt.out_fp.given in
    ([], whole ∙ sym all ∙ sym (append-nil (content rt.out_fp)), inr (sym whole, inl refl))
took_lem f rt (rest, e, inr (none_left, inr full)) =
    let fp = rt.out_fp in
    let whole : f ≡ fp.given = e ∙ ap (λ t. fp.given ++ t) none_left ∙ append-nil fp.given in
    (
      drop fp.flushed fp.given,
      whole ∙ sym (take-append-drop fp.flushed fp.given),
      inr (sym whole, inr full),
    )

-- Once it is done or the thread has left, nothing changes any more.
abbrev Same : ServerRuntime → ServerRuntime → Type 0
Same rt rt' = (rt'.out_fp ≡ rt.out_fp) × (rt'.transfer_done ≡ rt.transfer_done)

flushed_of :
    (fp : FileOut)
    → let fp' = fflush fp in
      (fp'.given ≡ fp.given) × ((content fp' ≡ fp.given) ⊎ (fp'.room ≡ some 0))
      → (content fp' ≡ fp'.given) ⊎ (fp'.room ≡ some 0)
flushed_of fp (kept, inl all) = inl (all ∙ sym kept)
flushed_of fp (kept, inr full) = inr full

module _ {S : Type 0} (o : ByteOrder) (ctx : Option (OmniContext S))
    (recv : World S → ℕ → ℤ × Bytes × World S) (source : Source S recv)
    (over : recv_of ctx ≡ some recv) where
  left_Same :
      (rounds : ℕ) (rt : ServerRuntime) (w : World S)
      → rt.running ≡ true
      → (recv_round o ctx rt w).0 ≡ leave rt
      → Same rt (recv_thread o ctx (suc rounds) rt w).0
  left_Same rounds rt w running left =
      let (rt', w') = recv_round o ctx rt w in
      rw
        (
          recv_thread_step o ctx rounds rt w running,
          stopped o ctx recv source over rounds rt' w' (ap (λ (x : ServerRuntime). x.running) left),
        )
        (
          ap (λ (x : ServerRuntime). x.out_fp) left,
          ap (λ (x : ServerRuntime). x.transfer_done) left,
        )

  -- No message is left.
  ended_Same :
      (rounds : ℕ) (rt : ServerRuntime) (w : World S)
      → source.Holds w.conn []
      → Same rt (recv_thread o ctx rounds rt w).0
  ended_Same zero rt w holds = rw (recv_thread_stop o ctx rt w) (refl, refl)
  ended_Same (suc rounds) rt w holds = elim (Bool-cases rt.running) [
    | inr halted ↦ rw (stopped o ctx recv source over (suc rounds) rt w halted) (refl, refl)
    | inl running ↦ elim (recv_round-Outcome o ctx recv source over rt w [] tt holds) [
      | leaves left ↦ left_Same rounds rt w running left
      | stays same still ↦
          let (rt', w') = recv_round o ctx rt w in
          let (file, done) = ended_Same rounds rt' w' still in
          rw (recv_thread_step o ctx rounds rt w running) (
            file ∙ ap (λ (x : ServerRuntime). x.out_fp) same,
            done ∙ ap (λ (x : ServerRuntime). x.transfer_done) same,
          )
      | gets m rest e n bytes still ↦ cc
    ]
  ]

  -- The thread leaves before anything of `f` that is still missing.
  left_TookBeginning :
      (rounds : ℕ) (f total : Bytes) (rt : ServerRuntime) (w : World S)
      → total ≡ rt.out_fp.given ++ f
      → rt.running ≡ true
      → rt.transfer_done ≡ false
      → (recv_round o ctx rt w).0 ≡ leave rt
      → TookBeginning total (recv_thread o ctx (suc rounds) rt w).0
  left_TookBeginning rounds f total rt w e running undone left =
      let (file, done) = left_Same rounds rt w running left in
      (f, e ∙ ap (λ (t : FileOut). t.given ++ f) (sym file), inl (done ∙ undone))

  -- FILE_END was handled behind all of the file.
  end_TookBeginning :
      (rounds : ℕ) (total : Bytes) (rt : ServerRuntime) (w : World S)
      → total ≡ rt.out_fp.given
      → rt.running ≡ true
      → (recv_round o ctx rt w).0 ≡ record rt { out_fp = fflush rt.out_fp; transfer_done = true }
      → source.Holds (recv_round o ctx rt w).1.conn []
      → TookBeginning total (recv_thread o ctx (suc rounds) rt w).0
  end_TookBeginning rounds total rt w e running r holds =
      let (rt', w') = recv_round o ctx rt w in
      let (same, done) = ended_Same rounds rt' w' holds in
      let file = same ∙ ap (λ (x : ServerRuntime). x.out_fp) r in
      let kept = (fflush_lem rt.out_fp).0 in
      rw (recv_thread_step o ctx rounds rt w running) (
        [],
        e
            ∙ sym (ap (λ (x : FileOut). x.given) file ∙ kept)
            ∙ sym (append-nil (recv_thread o ctx rounds rt' w').0.out_fp.given),
        inr (
          refl,
          subst (λ (x : FileOut). (content x ≡ x.given) ⊎ (x.room ≡ some 0)) (sym file)
              (flushed_of rt.out_fp (fflush_lem rt.out_fp)),
        ),
      )

  -- Only a part of a chunk fitted the disk.
  short_TookBeginning :
      (rounds k : ℕ) (body f' total : Bytes) (rt : ServerRuntime) (w : World S)
      → total ≡ rt.out_fp.given ++ (body ++ f')
      → rt.running ≡ true
      → rt.transfer_done ≡ false
      → let rt' = (recv_round o ctx rt w).0 in
        rt'.running ≡ false
        → rt'.transfer_done ≡ rt.transfer_done
        → rt'.out_fp.given ≡ rt.out_fp.given ++ take k body
        → TookBeginning total (recv_thread o ctx (suc rounds) rt w).0
  short_TookBeginning rounds k body f' total rt w e running undone halted done taken =
      let (rt', w') = recv_round o ctx rt w in
      rw
        (
          recv_thread_step o ctx rounds rt w running,
          stopped o ctx recv source over rounds rt' w' halted,
        )
        (
          drop k body ++ f',
          e
              ∙ ap (λ x. rt.out_fp.given ++ (x ++ f')) (sym (take-append-drop k body))
              ∙ ap (λ x. rt.out_fp.given ++ x) (append_assoc (take k body) (drop k body) f')
              ∙ sym (append_assoc rt.out_fp.given (take k body) (drop k body ++ f'))
              ∙ ap (λ x. x ++ (drop k body ++ f')) (sym taken),
          inl (done ∙ undone),
        )

  recv_thread_from :
      (rounds : ℕ) {f : Bytes} {ms : List Bytes} (p : Parts f ms) (total : Bytes)
      (rt : ServerRuntime) (w : World S)
      → total ≡ rt.out_fp.given ++ f
      → rt.running ≡ true
      → rt.transfer_done ≡ false
      → source.Holds w.conn ms
      → TookBeginning total (recv_thread o ctx rounds rt w).0
  recv_thread_from zero {f} p total rt w e running undone holds =
      rw (recv_thread_stop o ctx rt w) (f, e, inl undone)
  recv_thread_from (suc rounds) {f} {ms} p total rt w e running undone holds =
      let (rt', w') = recv_round o ctx rt w in
      elim (recv_round-Outcome o ctx recv source over rt w ms (Parts-fit p) holds) [
        | leaves left ↦ left_TookBeginning rounds f total rt w e running undone left
        | stays same still ↦ rw (recv_thread_step o ctx rounds rt w running) (
            recv_thread_from rounds p total rt' w'
              (e ∙ ap (λ (x : ServerRuntime). x.out_fp.given ++ f) (sym same))
              (ap (λ (x : ServerRuntime). x.running) same ∙ running)
              (ap (λ (x : ServerRuntime). x.transfer_done) same ∙ undone) still)
        | gets m rest em n bytes still ↦ elim p [
          | finish t h ef em' ↦
              let (r, left) =
                got_end o ctx recv source over rt w t m rest h (sym em ∙ em') n bytes still in
              end_TookBeginning rounds total rt w
                (e ∙ ap (λ x. rt.out_fp.given ++ x) ef ∙ append-nil rt.out_fp.given) running r left
          | chunk body f' ms' t h ne fits ef em' p' ↦
              let (done, wrote, left) =
                got_chunk o ctx recv source over rt w t body m rest ms' h fits (sym em ∙ em') n
                  bytes still in
              let e' : total ≡ rt.out_fp.given ++ (body ++ f') =
                e ∙ ap (λ x. rt.out_fp.given ++ x) ef in
              elim wrote [
                | inl (runs, taken) ↦ rw (recv_thread_step o ctx rounds rt w running) (
                    recv_thread_from rounds p' total rt' w'
                      (e'
                        ∙ sym (append_assoc rt.out_fp.given body f')
                        ∙ ap (λ x. x ++ f') (sym taken))
                      (runs ∙ running) (done ∙ undone) left)
                | inr (halted, k, taken) ↦
                    short_TookBeginning rounds k body f' total rt w e' running undone halted done
                      taken
              ]
        ]
      ]

  -- Whatever fails, the file is never wrong: over a protocol that gives messages of the file `f` from the front, up to
  -- its first error, in the file of a server that begins with an empty one is, after any number of rounds, a beginning
  -- of `f`, whatever the buffer of stdio still holds; if the transfer is marked done, `fwrite` has taken all of `f`, and all of
  -- it is in the file unless the disk is full.
  pub recv_thread-WroteBeginning :
      (f : Bytes) (ms : List Bytes) (rounds : ℕ) (rt : ServerRuntime) (w : World S)
      → Parts f ms
      → rt.out_fp.given ≡ []
      → rt.running ≡ true
      → rt.transfer_done ≡ false
      → source.Holds w.conn ms
      → WroteBeginning f (recv_thread o ctx rounds rt w).0
  recv_thread-WroteBeginning f ms rounds rt w p empty running undone holds =
      took_lem f (recv_thread o ctx rounds rt w).0
        (recv_thread_from rounds p f rt w (ap (λ x. x ++ f) (sym empty)) running undone holds)
