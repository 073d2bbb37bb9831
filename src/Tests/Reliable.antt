-- ===== src/Tests/Reliable.antt =====
-- A file over KCP where ikcp is played by a simple library: it numbers its messages and sends all of them at each update,
-- and the other end takes them in their order.
use omni_socket.Base.{
  ℕ, suc, ◌≤◌, ◌≡◌, refl, ap, ◌∙◌, sym, subst, true, false, inr, Bool-cases, inl, List, [], ◌∷◌,
  ◌++◌, Bytes, All, All-append, length, length-append, drop, drop_of_append, ℤ, is_negative, pos,
  negsuc, leb, leb→le, ==_iff, arith, append_assoc, ◌==◌, if◌then◌else◌,
}
use omni_socket.Kcp.{Ikcp}
use omni_socket.Kcp.Reliable.{Reliable, Handed, not_yet, handed}

pub record Block : Type 0 where
  pub accepted : List Bytes
  pub next : ℕ
  pub got : List Bytes

unfoldable pub numbered : ℕ → List Bytes → List Bytes
numbered i [] = []
numbered i (m ∷ ms) = (i ∷ m) ∷ numbered (suc i) ms

unfoldable pub take_in : Block → Bytes → Block
take_in k [] = k
take_in k (i ∷ m) = if i == k.next then record k { next = suc k.next; got = k.got ++ m ∷ [] } else k

unfoldable pub hand_over : Block → List Bytes → ℕ → ℤ × Bytes × Block
hand_over k [] cap = (negsuc 0, [], k)
hand_over k (m ∷ ms) cap =
    if leb (length m) cap then (pos (length m), m, record k { got = ms }) else (negsuc 2, [], k)

unfoldable pub accept : Block → Bytes → ℤ × Block
accept k m =
    if leb (length m) 1000
    then (pos 0, record k { accepted = k.accepted ++ m ∷ [] })
    else (negsuc 1, k)

abbrev pub simple : Ikcp Block
simple = record {
  create = λ conv. record { accepted = []; next = 0; got = [] };
  nodelay = λ k a b c d. k;
  wndsize = λ k a b. k;
  update = λ k t. (k, numbered 0 k.accepted);
  input = take_in;
  send = accept;
  recv = λ k cap. hand_over k k.got cap;
  xmit = λ k. 0;
}

abbrev Sent : Block → List Bytes → Type 0
Sent k ms = (k.accepted ≡ ms) × All (λ m. length m ≤ 1000) ms

abbrev Carries : List Bytes → Bytes → Type 0
Carries ms d =
    (length d ≤ 1500)
    × (pre : List Bytes) × (m : Bytes) × (post : List Bytes) × (ms ≡ pre ++ m ∷ post)
    × (d ≡ length pre ∷ m)

abbrev Coming : Block → List Bytes → List Bytes → Type 0
Coming k ms rest =
    (over : List Bytes) × (new : List Bytes) × (ms ≡ (over ++ k.got) ++ new)
    × (k.next ≡ length (over ++ k.got))
    × (rest ≡ k.got ++ new)

numbered-Carries :
    (ms pre post : List Bytes)
    → ms ≡ pre ++ post
    → All (λ m. length m ≤ 1000) post
    → All (Carries ms) (numbered (length pre) post)
unfolding numbered
numbered-Carries ms pre [] e fit = tt
numbered-Carries ms pre (m ∷ post) e (one, fit) =
    let l : length (pre ++ m ∷ []) ≡ suc (length pre) = omega (arith, length-append pre (m ∷ [])) in
    (
      (omega (arith, one), pre, m, post, e, refl),
      subst (λ i. All (Carries ms) (numbered i post)) l
          (numbered-Carries ms (pre ++ m ∷ []) post (e ∙ sym (append_assoc pre (m ∷ []) post)) fit),
    )

accept-Sent :
    (k : Block) (ms : List Bytes) (m : Bytes)
    → Sent k ms
    → let (n, k') = accept k m in
      ((is_negative n ≡ false) → Sent k' (ms ++ m ∷ [])) × ((is_negative n ≡ true) → Sent k' ms)
unfolding accept
accept-Sent k ms m (e, fit) = elim (Bool-cases (leb (length m) 1000)) [
  | inl short ↦ rw short (
    λ ok. (
      ap (λ x. x ++ m ∷ []) e,
      All-append (λ x. length x ≤ 1000) ms (m ∷ []) fit (leb→le (length m) 1000 short, tt),
    ),
    λ neg. cc,
  )
  | inr long ↦ rw long (λ ok. cc, λ neg. (e, fit))
]

take_in-Sent : (k : Block) (ms : List Bytes) (d : Bytes) → Sent k ms → Sent (take_in k d) ms
unfolding take_in
take_in-Sent k ms [] sent = sent
take_in-Sent k ms (i ∷ m) sent = elim (Bool-cases (i == k.next)) [
  | inl same ↦ rw same sent
  | inr other ↦ rw other sent
]

hand_over-Sent :
    (k : Block) (got ms : List Bytes) (cap : ℕ) → Sent k ms → Sent (hand_over k got cap).2 ms
unfolding hand_over
hand_over-Sent k [] ms cap sent = sent
hand_over-Sent k (m ∷ got) ms cap sent = elim (Bool-cases (leb (length m) cap)) [
  | inl short ↦ rw short sent
  | inr long ↦ rw long sent
]

same_prefix :
    (xs ys xs' ys' : List Bytes) → xs ++ ys ≡ xs' ++ ys' → length xs ≡ length xs' → ys ≡ ys'
same_prefix xs ys xs' ys' e l =
    sym (drop_of_append xs ys (length xs) refl)
    ∙ ap (drop (length xs)) e
    ∙ drop_of_append xs' ys' (length xs) l

take_in-Coming :
    (k : Block) (ms rest : List Bytes) (d : Bytes)
    → Coming k ms rest
    → Carries ms d
    → Coming (take_in k d) ms rest
unfolding take_in
take_in-Coming k ms rest d (over, new, e, next, er) (fits, pre, m, post, e', ed) =
    elim (Bool-cases (length pre == k.next)) [
      | inr other ↦ rw (ed, other) (over, new, e, next, er)
      | inl same ↦
          let l : length (over ++ k.got) ≡ length pre =
            sym next ∙ sym ((==_iff (length pre) k.next).0 same) in
          let new_eq : new ≡ m ∷ post =
            same_prefix (over ++ k.got) new pre (m ∷ post) (sym e ∙ e') l in
          let assoc : over ++ (k.got ++ m ∷ []) ≡ (over ++ k.got) ++ m ∷ [] =
            sym (append_assoc over k.got (m ∷ [])) in
          rw (ed, same)
            (
              over,
              post,
              e
                  ∙ ap (λ x. (over ++ k.got) ++ x) new_eq
                  ∙ sym (append_assoc (over ++ k.got) (m ∷ []) post)
                  ∙ ap (λ x. x ++ post) (sym assoc),
              ap suc next
                  ∙ omega (arith, length-append (over ++ k.got) (m ∷ []))
                  ∙ ap length (sym assoc),
              er ∙ ap (λ x. k.got ++ x) new_eq ∙ sym (append_assoc k.got (m ∷ []) post),
            )
    ]

hand_over-Handed :
    (k : Block) (ms rest : List Bytes) (cap : ℕ)
    → Coming k ms rest
    → Handed Block (λ k' rest'. Coming k' ms rest') rest (hand_over k k.got cap)
unfolding hand_over
hand_over-Handed k ms rest cap coming = go k.got refl
  where
    go :
        (got : List Bytes)
        → got ≡ k.got
        → Handed Block (λ k' rest'. Coming k' ms rest') rest (hand_over k got cap)
    go [] e = not_yet refl coming
    go (m ∷ got) e =
        let (over, new, em, next, er) = coming in
        let moved : over ++ k.got ≡ (over ++ m ∷ []) ++ got =
          ap (λ x. over ++ x) (sym e) ∙ sym (append_assoc over (m ∷ []) got) in
        elim (Bool-cases (leb (length m) cap)) [
          | inr long ↦ rw long (not_yet refl coming)
          | inl short ↦ rw short (
              handed m (got ++ new) (er ∙ ap (λ x. x ++ new) (sym e)) refl refl
                (over ++ m ∷ [], new, em ∙ ap (λ x. x ++ new) moved, next ∙ ap length moved, refl))
        ]

pub works : Reliable Block simple 9
works = record {
  Sent = Sent;
  Carries = Carries;
  Coming = Coming;
  carries_fits = λ ms d carries. carries.0;
  carries_more = λ ms more d (fits, pre, m, post, e, ed).
      (fits, pre, m, post ++ more, ap (λ x. x ++ more) e ∙ append_assoc pre (m ∷ post) more, ed);
  sent_started = (refl, tt);
  sent_accepted = λ k ms m sent ok. (accept-Sent k ms m sent).0 ok;
  sent_refused = λ k ms m sent neg. (accept-Sent k ms m sent).1 neg;
  sent_update = λ k ms t (e, fit). (
    (e, fit),
    subst (λ x. All (Carries ms) (numbered 0 x)) (sym e) (numbered-Carries ms [] ms refl fit),
  );
  sent_input = λ k ms d sent. take_in-Sent k ms d sent;
  sent_recv = λ k ms cap sent. hand_over-Sent k k.got ms cap sent;
  coming_started = λ ms. ([], ms, refl, refl, refl);
  coming_update = λ k ms rest t coming. coming;
  coming_input = λ k ms rest d coming carries. take_in-Coming k ms rest d coming carries;
  coming_recv = λ k ms rest cap coming. hand_over-Handed k ms rest cap coming;
}
