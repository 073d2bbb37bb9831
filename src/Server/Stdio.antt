-- ===== src/Server/Stdio.antt =====
-- The calls of stdio in src/apps/server_main.c: what they take, and what they leave in the buffer.
use omni_socket.Base.{
  ◌+◌, ◌-◌, ◌≡◌, refl, ap, sym, ◌++◌, [], ◌∷◌, Bytes, length, take, ◌⊎◌, inl, inr, none, some,
  arith, take_all, append-nil, min, leb, Bool-cases, Option-cases, leb→le, leb→lt,
}
use omni_socket.Server.{FileOut, content, fwrite, fflush}

-- `fwrite` takes as many bytes as it says.
pub fwrite_lem :
    (bs : Bytes) (fp : FileOut) → let (n, fp') = fwrite bs fp in fp'.given ≡ fp.given ++ take n bs
fwrite_lem [] fp = sym (append-nil fp.given)
fwrite_lem (b ∷ bs) fp = refl

-- It takes all that there is if the disk does, and leaves it so.
pub fwrite-roomy :
    (bs : Bytes) (fp : FileOut)
    → fp.room ≡ none
    → let (n, fp') = fwrite bs fp in
      (n ≡ length bs) × (fp'.given ≡ fp.given ++ bs) × (fp'.room ≡ none)
fwrite-roomy [] fp room = (refl, sym (append-nil fp.given), room)
fwrite-roomy (b ∷ bs) fp room =
    rw room
      (refl, ap (λ t. fp.given ++ t) (take_all (length (b ∷ bs)) (b ∷ bs) (omega arith)), refl)

-- Behind `fflush` nothing is left in the buffer, or the disk is full.
pub fflush_lem :
    (fp : FileOut)
    → let fp' = fflush fp in
      (fp'.given ≡ fp.given) × ((content fp' ≡ fp.given) ⊎ (fp'.room ≡ some 0))
fflush_lem fp = elim (Option-cases fp.room) [
  | inl room ↦ rw room (refl, inl (take_all _ fp.given (omega arith)))
  | inr (r, room) ↦
      let len = length fp.given in
      let m = min len (len - fp.flushed) in
      rw room (
        refl,
        elim (Bool-cases (leb m r)) [
          | inl fits ↦ inl (
              take_all (fp.flushed + min m r) fp.given
                (let fit = leb→le m r fits in omega (arith, fit)))
          | inr full ↦ inr (ap some (let over = leb→lt m r full in omega (arith, over)))
        ],
      )
]

pub fflush-roomy :
    (fp : FileOut)
    → fp.room ≡ none
    → let fp' = fflush fp in (fp'.given ≡ fp.given) × (content fp' ≡ fp.given) × (fp'.room ≡ none)
fflush-roomy fp room = rw room (refl, take_all _ fp.given (omega arith), refl)
