-- ===== src/Logger/Escape.antt =====
-- `json_escape` of src/core/logger.c: its output fits the buffer, and a reader of JSON strings gets the
-- text back.
use omni_socket.Base.{
  ℕ, ◌+◌, ◌*◌, ◌≤◌, ◌<◌, ◌≡◌, refl, ap, subst, Bool, true, false, not, ◌||◌, [], ◌∷◌, ◌++◌, Bytes,
  length, take, Option, none, some, ltb, ◌==◌, if◌then◌else◌, arith, Bool-cases, inl, inr, All,
  lt→ltb, ltb→lt, length-append, length-take, suc, zero, ◌∙◌,
}
use Prim.Native.String.{String}
use omni_socket.Logger.{LogLine, escaped, escape_loop, json_escape, logger_log}

-- The byte that a backslash and `c` stand for in a JSON string, of the escapes that occur.
abbrev unescaped : ℕ → Option ℕ
unescaped c =
    if c == 92
    then some 92
    else if c == 34
    then some 34
    else if c == 110
    then some 10
    else if c == 114
    then some 13
    else if c == 116
    then some 9
    else none

abbrev push : ℕ → Option Bytes → Option Bytes
push c none = none
push c (some cs) = some (c ∷ cs)

abbrev push_read : Option ℕ → Option Bytes → Option Bytes
push_read none r = none
push_read (some c) r = push c r

-- The text of what stands between the quotes of a JSON string; `none` where a quote or a control byte stands bare, which
-- JSON forbids, or an escape is cut off or unknown.
unfoldable pub json_read : Bytes → Option Bytes
json_read [] = some []
json_read (c ∷ []) =
    if c == 92 then none else if c == 34 then none else if ltb c 32 then none else some (c ∷ [])
json_read (c ∷ b ∷ cs) =
    let escape = json_read cs in
    let rest = json_read (b ∷ cs) in
    if c == 92
    then push_read (unescaped b) escape
    else if c == 34
    then none
    else if ltb c 32
    then none
    else push c rest

-- A byte of a text: a tab, a newline, a carriage return, or no control byte.
abbrev pub is_text : ℕ → Bool
is_text c = not (ltb c 32) || (c == 9 || (c == 10 || c == 13))

json_read-escaped :
    (c : ℕ) (cs : Bytes) → is_text c ≡ true → json_read (escaped c ++ cs) ≡ push c (json_read cs)
unfolding json_read
json_read-escaped c [] text = ground arith
json_read-escaped c (b ∷ cs) text = ground arith

length-escaped : (c : ℕ) → length (escaped c) ≤ 2
length-escaped c = ground arith

escape_loop_fits :
    (src : Bytes) (dst_sz j : ℕ) → j < dst_sz → j + length (escape_loop src dst_sz j) < dst_sz
unfolding escape_loop
escape_loop_fits [] dst_sz j small = omega arith
escape_loop_fits (c ∷ src) dst_sz j small = elim (Bool-cases (c == 0)) [
  | inl nul ↦ rw nul (omega arith)
  | inr more ↦ rw more (elim (Bool-cases (ltb (j + 2) dst_sz)) [
    | inr full ↦ rw full (omega arith)
    | inl space ↦ rw space (
        let two = length-escaped c in
        let wide = ltb→lt (j + 2) dst_sz space in
        let ih = escape_loop_fits src dst_sz (j + length (escaped c)) (omega arith) in
        omega (arith, length-append (escaped c) (escape_loop src dst_sz (j + length (escaped c)))))
  ])
]

-- Every write of `json_escape` stays inside a buffer that is not empty: the text with its final 0 is at most `dst_sz`
-- bytes long, for every source.
pub json_escape_fits :
    (src : Bytes) (dst_sz : ℕ) → 0 < dst_sz → length (json_escape src dst_sz) ≤ dst_sz
json_escape_fits src dst_sz some_room =
    let fits = escape_loop_fits src dst_sz 0 some_room in
    omega (arith, length-append (escape_loop src dst_sz 0) (0 ∷ []))

-- All bytes are those of a text.
abbrev pub IsText : Bytes → Type 0
IsText bs = All (λ c. is_text c ≡ true) bs

escape_loop_prefix :
    (src : Bytes) (dst_sz j : ℕ)
    → IsText src
    → (k : ℕ) × (json_read (escape_loop src dst_sz j) ≡ some (take k src))
unfolding escape_loop json_read
escape_loop_prefix [] dst_sz j text = (0, refl)
escape_loop_prefix (c ∷ src) dst_sz j (one, text) = elim (Bool-cases (c == 0)) [
  | inl nul ↦ (0, rw nul refl)
  | inr more ↦ elim (Bool-cases (ltb (j + 2) dst_sz)) [
    | inr full ↦ (0, rw (more, full) refl)
    | inl space ↦
        let (k, ih) = escape_loop_prefix src dst_sz (j + length (escaped c)) text in
        (
          suc k,
          rw (more, space)
              (json_read-escaped c (escape_loop src dst_sz (j + length (escaped c))) one
                ∙ ap (push c) ih),
        )
  ]
]

-- A reader of JSON strings gets from what `json_escape` writes a prefix of the source, if that is a text, whatever the
-- size of the buffer: no escape is cut in half, no quote and no control byte stands bare.
pub json_escape_prefix :
    (src : Bytes) (dst_sz : ℕ)
    → IsText src
    → (k : ℕ) × (esc : Bytes) × (json_escape src dst_sz ≡ esc ++ 0 ∷ [])
      × (json_read esc ≡ some (take k src))
json_escape_prefix src dst_sz text =
    let (k, read_back) = escape_loop_prefix src dst_sz 0 text in
    (k, escape_loop src dst_sz 0, refl, read_back)

escape_loop_complete :
    (src : Bytes) (dst_sz j : ℕ)
    → IsText src
    → j + 2 * length src < dst_sz
    → json_read (escape_loop src dst_sz j) ≡ some src
unfolding escape_loop json_read
escape_loop_complete [] dst_sz j filled wide = refl
escape_loop_complete (c ∷ src) dst_sz j (one, filled) wide =
    let more : (c == 0) ≡ false = ground arith in
    let space = lt→ltb (j + 2) dst_sz (omega arith) in
    let two = length-escaped c in
    let ih = escape_loop_complete src dst_sz (j + length (escaped c)) filled (omega arith) in
    rw (more, space)
      (json_read-escaped c (escape_loop src dst_sz (j + length (escaped c))) one ∙ ap (push c) ih)

IsText-take : (k : ℕ) (bs : Bytes) → IsText bs → IsText (take k bs)
IsText-take zero bs filled = ground arith
IsText-take (suc k) [] filled = filled
IsText-take (suc k) (b ∷ bs) (more, filled) = (more, IsText-take k bs filled)

-- The text for the file, without its final 0, fits its buffer and reads as the text of the line.
abbrev pub JsonOf : LogLine → Type 0
JsonOf line =
    (esc : Bytes) × (line.json_text ≡ some (esc ++ 0 ∷ []))
    × (json_read esc ≡ some line.text)
    × (length (esc ++ 0 ∷ []) ≤ 2048)

printed_line :
    (hidden : Bool) (l line : LogLine) → (if hidden then none else some l) ≡ some line → l ≡ line
printed_line true l line printed = absurd (cc)
printed_line false l line printed = cc

-- Every line that `logger_log` prints, of a text without control bytes but tabs, newlines and carriage returns, goes whole
-- into the open file: the text for the file fits its buffer of 2048 bytes, and a reader of JSON strings that takes bytes of
-- 128 and above as they are, but no control byte, gets from it exactly the text printed on standard error.
pub logger_log_json :
    (min_level : ℕ) (level component : Option String) (text : Bytes) (line : LogLine)
    → IsText text
    → logger_log min_level true level component text ≡ some line
    → JsonOf line
unfolding logger_log
logger_log_json min_level level component text line filled printed =
    let esc = escape_loop (take 1023 text) 2048 0 in
    let complete =
      escape_loop_complete (take 1023 text) 2048 0 (IsText-take 1023 text filled)
        (omega (arith, length-take 1023 text)) in
    let fits = json_escape_fits (take 1023 text) 2048 (omega arith) in
    subst (λ l. JsonOf l) (printed_line _ _ line printed) (esc, refl, complete, fits)
