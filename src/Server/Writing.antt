-- ===== src/Server/Writing.antt =====
-- The messages of a file at the server of src/apps/server_main.c, and what a chunk leaves in its file.
use omni_socket.App.{decoded}
use omni_socket.App.Channel.{Parts, finish, chunk}
use omni_socket.App.Messages.{length-app_frame}
use omni_socket.Base.{
  ℕ, ◌≤◌, ◌≡◌, refl, ap, ◌∙◌, sym, subst, ◌++◌, [], List, Bytes, length, take, All, false, ◌⊎◌, inl,
  inr, arith, take_all, Bool-cases, ==_iff, ◌==◌,
}
use omni_socket.Runtime.{World}
use omni_socket.Server.Stdio.{fwrite_lem}
use omni_socket.Server.{ServerRuntime, fwrite, on_message, server_frame_buf_size}
use omni_socket.Server.Receiving.{header}
use omni_socket.Wire.{msg_type_file_chunk, msg_type_file_end}

-- Every message of a file fits the buffer of the server.
pub Parts-fit :
    {f : Bytes} {ms : List Bytes} → Parts f ms → All (λ m. length m ≤ server_frame_buf_size) ms
Parts-fit (finish t h ef em) =
    subst (All (λ m. length m ≤ server_frame_buf_size)) (sym em)
      (omega (arith, length-app_frame msg_type_file_end t []), tt)
Parts-fit (chunk body f' ms' t h ne fits ef em p) =
    subst (All (λ m. length m ≤ server_frame_buf_size)) (sym em)
      (omega (arith, length-app_frame msg_type_file_chunk t body, fits), Parts-fit p)

-- None is empty.
pub Parts-full : {f : Bytes} {ms : List Bytes} → Parts f ms → All (λ m. 1 ≤ length m) ms
Parts-full (finish t h ef em) =
    subst (All (λ m. 1 ≤ length m)) (sym em)
      (omega (arith, length-app_frame msg_type_file_end t []), tt)
Parts-full (chunk body f' ms' t h ne fits ef em p) =
    subst (All (λ m. 1 ≤ length m)) (sym em)
      (omega (arith, length-app_frame msg_type_file_chunk t body), Parts-full p)

-- A chunk is written whole, or a part of it fits and the thread leaves its loop.
abbrev pub WroteChunk : ServerRuntime → Bytes → ServerRuntime → Type 0
WroteChunk rt body rt' =
    (rt'.transfer_done ≡ rt.transfer_done)
    × (((rt'.running ≡ rt.running) × (rt'.out_fp.given ≡ rt.out_fp.given ++ body))
        ⊎ ((rt'.running ≡ false) × (k : ℕ) × (rt'.out_fp.given ≡ rt.out_fp.given ++ take k body)))

pub on_message-WroteChunk :
    {S : Type 0} (rt : ServerRuntime) (w : World S) (t : ℕ) (body : Bytes)
    → WroteChunk rt body (on_message rt w (decoded (header msg_type_file_chunk t body) body)).0
unfolding on_message
on_message-WroteChunk rt w t body =
    let (n, fp) = fwrite body rt.out_fp in
    let written = fwrite_lem body rt.out_fp in
    elim (Bool-cases (n == length body)) [
      | inl all ↦
          let same = take_all n body (omega (arith, (==_iff n (length body)).0 all)) in
          rw all (refl, inl (refl, written ∙ ap (λ t. rt.out_fp.given ++ t) same))
      | inr short ↦ rw short (refl, inr (refl, n, written))
    ]
